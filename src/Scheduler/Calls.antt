-- ===== src/Scheduler/Calls.antt =====
-- src/engine/scheduler.cpp: fireLocked, tick, fireNow.
use testhub.Base.{
  ℕ, suc, ◌&&◌, not, Bool, false, List, [], ◌∷◌, ◌++◌, ◌⊎◌, inl, inr, Option, none, some, is_empty,
  if◌then◌else◌, Text, codes, find, insert,
}
use testhub.Base.Int.{pos, int_eq}
use testhub.Model.{TestRequest}
use testhub.Cron
use testhub.Cron.{CronExpr, Tm, ok, fail, minute_ticks}
use testhub.Scheduler.{Schedule, Loaded, Scheduler, epoch_minute, save_one, publish, named}

-- The submission of a test gives its id, or what the exception says.
pub record Callbacks (S : Type 0) : Type 0 where
  pub submit : Option (S → TestRequest → S × (Text ⊎ Text))
  pub is_active : Option (S → Text → Bool)

abbrev pub request_of : Schedule → TestRequest
request_of s =
    let r = s.request in
    record r {
      id = [];
      submitted_by = codes "schedule:" ++ s.id;
      metadata = insert (codes "schedule_id") s.id r.metadata;
      name = if is_empty r.name then s.name else r.name;
    }

-- What a firing leaves: the callbacks' state, the scheduler but for the item, the item, the id of
-- the new test, which is empty if there is none, and the error.
pub record Fired (S : Type 0) : Type 0 where
  pub world : S
  pub rest : Scheduler
  pub item : Loaded
  pub test_id : Text
  pub error : Text

-- Whether `tick` fires the item.
unfoldable pub is_due : (ℕ → Option Tm) → Loaded → ℕ → Bool
is_due utc item now =
    item.schedule.enabled
    && (not (int_eq item.schedule.last_fired_minute (pos (epoch_minute now)))
        && Cron.matches utc item.expr now)

module _ {S : Type 0} (calls : Callbacks S) where
  abbrev pub still_active : S → Text → Bool
  still_active w id = elim calls.is_active [ none ↦ false | some f ↦ f w id ]

  -- The previous test is still active, and the schedule does not run beside it.
  abbrev pub is_blocked : S → Schedule → Bool
  is_blocked w s =
      s.skip_if_running && (not (is_empty s.last_test_id) && still_active w s.last_test_id)

  abbrev pub fire_skipped : S → Scheduler → Loaded → Fired S
  fire_skipped w q item =
      let s = item.schedule in
      record {
        world = w;
        rest =
            publish (record q { skips = suc q.skips }) (codes "schedule.skipped") s.last_test_id
              (named s (insert (codes "reason") (codes "previous_still_running") []));
        item = record item {
          schedule = record s { skip_count = suc s.skip_count; last_error = [] };
        };
        test_id = [];
        error = codes "previous test still running";
      }

  abbrev pub fire_unset : S → Scheduler → Loaded → Fired S
  fire_unset w q item =
      let message = codes "scheduler has no submit callback" in
      record {
        world = w;
        rest = record q { errors = suc q.errors };
        item = record item { schedule = record (item.schedule) { last_error = message } };
        test_id = [];
        error = message;
      }

  abbrev pub fire_done : S → Scheduler → Loaded → ℕ → Text → Fired S
  fire_done w q item now test_id =
      let s = item.schedule in
      record {
        world = w;
        rest =
            publish (record q { fires = suc q.fires }) (codes "schedule.triggered") test_id
              (named s (insert (codes "cron") s.cron []));
        item = record item {
          schedule = record s {
            last_test_id = test_id;
            last_run_at = now;
            last_error = [];
            run_count = suc s.run_count;
          };
        };
        test_id = test_id;
        error = [];
      }

  abbrev pub fire_failed : S → Scheduler → Loaded → ℕ → Text → Fired S
  fire_failed w q item now message =
      let s = item.schedule in
      record {
        world = w;
        rest =
            publish (record q { errors = suc q.errors }) (codes "schedule.error") []
              (named s (insert (codes "error") message []));
        item = record item { schedule = record s { last_error = message; last_run_at = now } };
        test_id = [];
        error = message;
      }

  abbrev pub fire_by : Scheduler → Loaded → ℕ → S × (Text ⊎ Text) → Fired S
  fire_by q item now (w, inl test_id) = fire_done w q item now test_id
  fire_by q item now (w, inr message) = fire_failed w q item now message

  -- `fireLocked`; `force` is not read there.
  unfoldable pub fire_locked : S → Scheduler → Loaded → ℕ → Fired S
  fire_locked w q item now =
      if is_blocked w item.schedule then fire_skipped w q item else elim calls.submit [
        | none ↦ fire_unset w q item
        | some f ↦ fire_by q item now (f w (request_of item.schedule))
      ]

  -- The item is fired in its place in the map, and saved; `minute` is what it was fired for.
  unfoldable pub fire_item : S → Scheduler → Text → Loaded → ℕ → Bool → Fired S
  fire_item w q id item now written =
      let due = record item {
        schedule = record (item.schedule) { last_fired_minute = pos (epoch_minute now) };
      } in
      let f = fire_locked w q due now in
      let rest = f.rest in
      record f {
        rest = save_one (record rest { items = insert id f.item rest.items }) f.item written;
      }

  -- One round of `tick`, with the number of those fired so far.
  unfoldable pub tick_one :
      (ℕ → Option Tm) → ℕ → Bool → S × Scheduler × ℕ → Text → S × Scheduler × ℕ
  tick_one utc now written (w, q, fired) id = elim (find id q.items) [
    | none ↦ (w, q, fired)
    | some item ↦
        if is_due utc item now
        then (let f = fire_item w q id item now written in (f.world, f.rest, suc fired))
        else (w, q, fired)
  ]

  unfoldable pub tick_all :
      (ℕ → Option Tm) → ℕ → Bool → List Text → S × Scheduler × ℕ → S × Scheduler × ℕ
  tick_all utc now written [] state = state
  tick_all utc now written (id ∷ ids) state =
      tick_all utc now written ids (tick_one utc now written state id)

  unfoldable pub tick : (ℕ → Option Tm) → S → Scheduler → ℕ → Bool → S × Scheduler × ℕ
  tick utc w q now written =
      tick_all utc now written q.order (w, record q { ticks = suc q.ticks }, 0)

  unfoldable pub fire_now : S → Scheduler → Text → ℕ → Bool → S × Scheduler × Text × Text
  fire_now w q id now written = elim (find id q.items) [
    | none ↦ (w, q, [], codes "Schedule not found: " ++ id)
    | some item ↦ let f = fire_item w q id item now written in (f.world, f.rest, f.test_id, f.error)
  ]
