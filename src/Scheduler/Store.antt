-- ===== src/Scheduler/Store.antt =====
-- src/engine/scheduler.cpp: generateId, create, update, remove.
use testhub.Base.{
  ℕ, zero, suc, ◌+◌, ◌%◌, ◌^◌, not, Bool, true, false, [], ◌∷◌, ◌++◌, ◌⊎◌, inl, inr, Option, none,
  some, is_empty, keep, if◌then◌else◌, Text, codes, text_eq, three_digits, find, insert, erase, has,
}
use testhub.Base.Int.{negsuc}
use testhub.Engine.{is_safe_id}
use testhub.Cron
use testhub.Cron.{CronExpr, Tm, ok, fail, minute_ticks}
use testhub.Scheduler.{Schedule, Loaded, Scheduler, save_one, delete_file, publish, named}

-- `generateId` on fuel: a number below 1000, until the id is free.
unfoldable pub generate_id : (ℕ → Text) → ℕ → Scheduler → ℕ → Option (Scheduler × Text)
generate_id stamp zero q tp = none
generate_id stamp (suc fuel) q tp =
    let counter = (q.id_counter + 1) % 2 ^ 32 in
    let id = codes "sched-" ++ (stamp tp ++ (codes "-" ++ three_digits (counter % 1000))) in
    let q' = record q { id_counter = counter } in
    elim (has id q.items) [ true ↦ generate_id stamp fuel q' tp | false ↦ some (q', id) ]

-- The new schedule is put in, under its id.
unfoldable pub create_item :
    Scheduler → Schedule → CronExpr → Text → ℕ → Bool → Scheduler × Schedule
create_item q given expr id now written =
    let s : Schedule = record given {
      id = id;
      name = if is_empty given.name then id else given.name;
      created_at = now;
      updated_at = now;
      cron = expr.source;
    } in
    let item : Loaded = record { schedule = s; expr = expr } in
    let q' = record q { items = insert id item q.items; order = q.order ++ (id ∷ []) } in
    (
      publish (save_one q' item written) (codes "schedule.created") []
          (named s (insert (codes "cron") s.cron [])),
      s,
    )

-- The result is the new schedule or the error; `none` if the search for an id does not end.
unfoldable pub create :
    (ℕ → Text) → ℕ → Scheduler → Schedule → ℕ → Bool → Option (Scheduler × (Schedule ⊎ Text))
create stamp fuel q given now written = elim (Cron.parse given.cron) [
  | fail e ↦ some (q, inr e)
  | ok expr ↦
      if is_empty given.id
      then elim (generate_id stamp fuel q now) [
        | none ↦ none
        | some found ↦
            let (q', s) = create_item found.0 given expr found.1 now written in some (q', inl s)
      ]
      else if has given.id q.items
      then some (q, inr (codes "Schedule id already exists"))
      else if not (is_safe_id given.id)
      then some (q, inr (codes "Invalid schedule id"))
      else (let (q', s) = create_item q given expr given.id now written in some (q', inl s))
]

-- The fields that a patch changes; `parsed` is there if the patch names a cron expression.
unfoldable pub patch_item : Loaded → Schedule → Option CronExpr → Bool → ℕ → Loaded
patch_item item patch parsed has_request now =
    let s = item.schedule in
    let named_item : Loaded = record item {
      schedule = record s { name = if is_empty patch.name then s.name else patch.name };
    } in
    let timed : Loaded = elim parsed [
      | none ↦ named_item
      | some expr ↦ if text_eq patch.cron s.cron then named_item else record {
        schedule = record (named_item.schedule) {
          cron = expr.source;
          last_fired_minute = negsuc 0;
        };
        expr = expr;
      }
    ] in
    record timed {
      schedule = record (timed.schedule) {
        enabled = patch.enabled;
        skip_if_running = patch.skip_if_running;
        request = if has_request then patch.request else s.request;
        updated_at = now;
      };
    }

-- The rest of `update`, with the parsed expression. The error is empty on success.
unfoldable pub update_parsed :
    Scheduler → Text → Schedule → Option CronExpr → Bool → ℕ → Bool → Scheduler × Bool × Text
update_parsed q id patch parsed has_request now written = elim (find id q.items) [
  | none ↦ (q, false, codes "Schedule not found: " ++ id)
  | some item ↦
      let item' = patch_item item patch parsed has_request now in
      let s = item'.schedule in
      let saved = save_one (record q { items = insert id item' q.items }) item' written in
      (
        publish saved (codes "schedule.updated") [] (
            insert (codes "schedule_id") id (
              insert (codes "name") s.name (
                insert (codes "cron") s.cron (
                  insert (codes "enabled") (if s.enabled then codes "true" else codes "false")
                    [])))),
        true,
        [],
      )
]

unfoldable pub update : Scheduler → Text → Schedule → Bool → ℕ → Bool → Scheduler × Bool × Text
update q id patch has_request now written =
    if is_empty patch.cron
    then update_parsed q id patch none has_request now written
    else elim (Cron.parse patch.cron) [
      | fail e ↦ (q, false, e)
      | ok expr ↦ update_parsed q id patch (some expr) has_request now written
    ]

unfoldable pub remove : Scheduler → Text → Scheduler × Bool
remove q id = elim (find id q.items) [
  | none ↦ (q, false)
  | some item ↦
      let without = record q {
        items = erase id q.items;
        order = keep (λ x. not (text_eq x id)) q.order;
      } in
      (
        publish (delete_file without id) (codes "schedule.deleted") []
            (insert (codes "schedule_id") id (insert (codes "name") item.schedule.name [])),
        true,
      )
]
