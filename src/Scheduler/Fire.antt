-- ===== src/Scheduler/Fire.antt =====
-- What firing a schedule does.
use testhub.Base.{
  ℕ, suc, ◌+◌, ◌≡◌, ◌⊎◌, refl, ap, ◌∙◌, arith, inl, inr, Bool, true, false, Bool-cases, Option,
  none, some, is_empty, Text, insert,
}
use testhub.Base.Int.{pos}
use testhub.Model.{TestRequest}
use testhub.Scheduler.{Loaded, Scheduler, epoch_minute, save_one}
use testhub.Scheduler.Calls.{
  Callbacks, Fired, is_blocked, fire_skipped, fire_unset, fire_done, fire_failed, fire_by,
  fire_locked, fire_item, request_of,
}

-- How a firing ends. The previous test is still active: nothing is submitted. There is no callback.
-- The submission gave a test. It failed.
pub data Outcome {S : Type 0} (calls : Callbacks S) (w : S) (q : Scheduler) (item : Loaded)
    (now : ℕ) : Fired S → Type 0 where
  skipped :
      is_blocked calls w item.schedule ≡ true
      → Outcome calls w q item now (fire_skipped calls w q item)
  unset :
      is_blocked calls w item.schedule ≡ false
      → calls.submit ≡ none
      → Outcome calls w q item now (fire_unset calls w q item)
  submitted :
      (f : S → TestRequest → S × (Text ⊎ Text)) (w' : S) (test_id : Text)
      → is_blocked calls w item.schedule ≡ false
      → calls.submit ≡ some f
      → f w (request_of item.schedule) ≡ (w', inl test_id)
      → Outcome calls w q item now (fire_done calls w' q item now test_id)
  refused :
      (f : S → TestRequest → S × (Text ⊎ Text)) (w' : S) (message : Text)
      → is_blocked calls w item.schedule ≡ false
      → calls.submit ≡ some f
      → f w (request_of item.schedule) ≡ (w', inr message)
      → Outcome calls w q item now (fire_failed calls w' q item now message)

module _ {S : Type 0} (calls : Callbacks S) (w : S) (q : Scheduler) (item : Loaded) (now : ℕ) where
  by_answer :
      (f : S → TestRequest → S × (Text ⊎ Text)) (r : S × (Text ⊎ Text))
      → is_blocked calls w item.schedule ≡ false
      → calls.submit ≡ some f
      → f w (request_of item.schedule) ≡ r
      → Outcome calls w q item now (fire_by calls q item now r)
  by_answer f (w', inl test_id) b e a = submitted f w' test_id b e a
  by_answer f (w', inr message) b e a = refused f w' message b e a

  by_submit :
      (o : Option (S → TestRequest → S × (Text ⊎ Text)))
      → is_blocked calls w item.schedule ≡ false
      → calls.submit ≡ o
      → let fired : Fired S = elim o [
        | none ↦ fire_unset calls w q item
        | some f ↦ fire_by calls q item now (f w (request_of item.schedule))
      ] in
        Outcome calls w q item now fired
  by_submit none b e = unset b e
  by_submit (some f) b e = by_answer f _ b e refl

  fire_locked-Outcome : Outcome calls w q item now (fire_locked calls w q item now)
  unfolding fire_locked
  fire_locked-Outcome = elim (Bool-cases (is_blocked calls w item.schedule)) [
    | inl e ↦ rw e (skipped e)
    | inr e ↦ rw e (by_submit calls.submit e refl)
  ]

  -- What every firing keeps: the other schedules, their order, and of its own schedule the id, the
  -- cron expression, the state and the minute. And it is counted once: among the firings, the skips
  -- or the errors.
  pub record Keeps (f : Fired S) : Type 0 where
    pub items : f.rest.items ≡ q.items
    pub order : f.rest.order ≡ q.order
    pub id : f.item.schedule.id ≡ item.schedule.id
    pub expr : f.item.expr ≡ item.expr
    pub enabled : f.item.schedule.enabled ≡ item.schedule.enabled
    pub minute : f.item.schedule.last_fired_minute ≡ item.schedule.last_fired_minute
    pub counted : f.rest.fires + f.rest.skips + f.rest.errors ≡ suc (q.fires + q.skips + q.errors)
    pub runs : f.item.schedule.run_count + q.fires ≡ item.schedule.run_count + f.rest.fires
    pub misses : f.item.schedule.skip_count + q.skips ≡ item.schedule.skip_count + f.rest.skips
    pub told : is_empty f.test_id ≡ false → f.rest.fires ≡ suc q.fires

  Outcome-Keeps : {f : Fired S} → Outcome calls w q item now f → Keeps f
  Outcome-Keeps (skipped b) = ground arith
  Outcome-Keeps (unset b e) = ground arith
  Outcome-Keeps (submitted f w' test_id b e a) = ground arith
  Outcome-Keeps (refused f w' message b e a) = ground arith

  pub fire_locked-Keeps :
      Outcome calls w q item now (fire_locked calls w q item now)
      × Keeps (fire_locked calls w q item now)
  fire_locked-Keeps = (fire_locked-Outcome, Outcome-Keeps fire_locked-Outcome)

pub save_one_lem :
    (q : Scheduler) (item : Loaded) (written : Bool)
    → ((save_one q item written).items ≡ q.items)
      × ((save_one q item written).order ≡ q.order)
      × ((save_one q item written).fires
            + (save_one q item written).skips
            + (save_one q item written).errors
          ≡ q.fires + q.skips + q.errors)
unfolding save_one
save_one_lem q item written = ground arith

module _ {S : Type 0} (calls : Callbacks S) (w : S) (q : Scheduler) (id : Text) (item : Loaded)
    (now : ℕ) (written : Bool) where
  -- A firing in its place: the map has the schedule as the firing left it.
  pub record Places (f : Fired S) : Type 0 where
    pub items : f.rest.items ≡ insert id f.item q.items
    pub order : f.rest.order ≡ q.order
    pub id_kept : f.item.schedule.id ≡ item.schedule.id
    pub minute : f.item.schedule.last_fired_minute ≡ pos (epoch_minute now)
    pub counted : f.rest.fires + f.rest.skips + f.rest.errors ≡ suc (q.fires + q.skips + q.errors)

  pub fire_item-Places : Places (fire_item calls w q id item now written)
  unfolding fire_item
  fire_item-Places =
      let due : Loaded = record item {
        schedule = record (item.schedule) { last_fired_minute = pos (epoch_minute now) };
      } in
      let f = fire_locked calls w q due now in
      let k = (fire_locked-Keeps calls w q due now).1 in
      let saved =
        save_one_lem (record (f.rest) { items = insert id f.item f.rest.items }) f.item written in
      record {
        items = saved.0 ∙ ap (insert id f.item) k.items;
        order = saved.1 ∙ k.order;
        id_kept = k.id;
        minute = k.minute;
        counted = saved.2 ∙ k.counted;
      }
