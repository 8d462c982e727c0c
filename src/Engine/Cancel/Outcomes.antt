-- ===== src/Engine/Cancel/Outcomes.antt =====
-- What a cancellation does to a test that waits and to one that runs.

use testhub.Base.{
  ℕ, ◌≡◌, refl, ap, ◌∙◌, arith, Bool, true, false, ◌++◌, ◌+◌, Option, none, some, Text, text_eq, text_eq_refl, Map,
  has, find, insert, find-insert, find-erase,
}
use testhub.Model.{is_terminal_state, cancelled}
use testhub.Queue
use testhub.Queue.Lookup.{cancel-Removes}
use testhub.Engine.{TestRecord, Engine, persist, store_save, set_flag}
use testhub.Engine.Cancel.{
  put_if_there, cancelled_record, cancel, cancel_found, finish_cancelled, cancel_running,
}

pub persist-records : (e : Engine) (r : TestRecord) (w : Bool) → (persist e r w).records ≡ e.records
unfolding persist store_save
persist-records e r w = ground arith

pub put_if_there-insert :
    (id : Text) (r : TestRecord) (records : Map TestRecord) {old : TestRecord}
    → find id records ≡ some old
    → put_if_there id r records ≡ insert id r records
unfolding put_if_there
put_if_there-insert id r records there = rw (there, put_if_there) refl

finish_cancelled_lem :
    (e : Engine) (id : Text) (r : TestRecord) (w : Bool) (now : ℕ) {old : TestRecord}
    → find id e.records ≡ some old
    → ((finish_cancelled e id r w now).records ≡ insert id r e.records)
      × (has id (finish_cancelled e id r w now).cancel_flags ≡ false)
unfolding finish_cancelled
finish_cancelled_lem e id r w now there = (
  ap (put_if_there id r) (persist-records e r w) ∙ put_if_there-insert id r e.records there,
  rw (find-erase id id (persist e r w).cancel_flags, text_eq_refl id) refl,
)

finish_cancelled-stats :
    (e : Engine) (id : Text) (r : TestRecord) (w : Bool) (now : ℕ)
    → ((finish_cancelled e id r w now).stats.completed ≡ e.stats.completed + 1)
      × ((finish_cancelled e id r w now).stats.cancelled ≡ e.stats.cancelled + 1)
unfolding finish_cancelled persist store_save
finish_cancelled-stats e id r w now = ground arith

-- What is known of the record of a test that was cancelled while it waited.
abbrev pub IsCancelled : TestRecord → Text → ℕ → Option TestRecord → Type 0
IsCancelled r id now none = ⊥
IsCancelled r id now (some c) =
    (c.status.state ≡ cancelled)
    × (c.status.end_time ≡ now)
    × (c.has_result ≡ true)
    × (c.result.final_state ≡ cancelled)
    × (c.result.test_id ≡ id)
    × (c.result.start_time ≡ r.status.submit_time)
    × (c.result.end_time ≡ now)
    × (c.request ≡ r.request)

module _ (e : Engine) (id : Text) (w : Bool) (now : ℕ) (r : TestRecord)
    (there : find id e.records ≡ some r) where
  cancel_unfolds :
      cancel e id w now
      ≡ cancel_found
          (record e {
            queue = (Queue.cancel e.queue id now).0;
            events = e.events ++ (Queue.cancel e.queue id now).2;
          })
          id
          r
          (Queue.cancel e.queue id now).1
          w
          now
  unfolding cancel
  cancel_unfolds = rw (there, cancel) refl

  -- A test that is not over and waits in the queue is cancelled at once: its record has the state and
  -- a result of a cancelled test, with the time of the call as the end and that of its submission as
  -- the start of the result, and keeps its request; its flag is gone, the other records stay, and the
  -- statistics count one more completed and one more cancelled test.
  pub cancel_waiting :
      is_terminal_state r.status.state ≡ false
      → Queue.contains e.queue id ≡ true
      → ((cancel e id w now).1 ≡ true)
        × IsCancelled r id now (find id (cancel e id w now).0.records)
        × (has id (cancel e id w now).0.cancel_flags ≡ false)
        × ((x : Text)
            → text_eq id x ≡ false
            → find x (cancel e id w now).0.records ≡ find x e.records)
        × ((cancel e id w now).0.stats.completed ≡ e.stats.completed + 1)
        × ((cancel e id w now).0.stats.cancelled ≡ e.stats.cancelled + 1)
  unfolding cancel_found
  cancel_waiting going waits =
      let was = (cancel-Removes e.queue id now).0 ∙ waits in
      let e' : Engine = record e {
        queue = (Queue.cancel e.queue id now).0;
        events = e.events ++ (Queue.cancel e.queue id now).2;
      } in
      let r' = cancelled_record r id now in
      let (records, flags) = finish_cancelled_lem e' id r' w now there in
      let stats = finish_cancelled-stats e' id r' w now in
      rw (cancel_unfolds, going, was)
        (
          refl,
          rw (records, find-insert id id r' e.records, text_eq_refl id)
            (refl, refl, refl, refl, refl, refl, refl, refl),
          flags,
          λ x other. rw (records, find-insert x id r' e.records, other) refl,
          stats.0,
          stats.1,
        )

  -- A test that is not over, has left the queue and has a flag gets the flag set, which the worker
  -- reads; the records and the queue do not change.
  cancel_active :
      {at : ℕ}
      → is_terminal_state r.status.state ≡ false
      → Queue.contains e.queue id ≡ false
      → find id e.cancel_flags ≡ some at
      → ((cancel e id w now).1 ≡ true)
        × ((cancel e id w now).0.flags ≡ set_flag e.flags at true)
        × ((cancel e id w now).0.records ≡ e.records)
        × ((cancel e id w now).0.queue ≡ e.queue)
  unfolding cancel_found cancel_running
  cancel_active going absent flag =
      let (was, _, same) = cancel-Removes e.queue id now in
      rw (cancel_unfolds, going, was ∙ absent, flag, cancel_running) (refl, refl, refl, same absent)
