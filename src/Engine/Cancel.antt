-- ===== src/Engine/Cancel.antt =====
-- src/engine/execution_engine.cpp, cancel, with the sections of the worker that end a test.
pub mod Outcomes
use testhub.Base.{
  ℕ, suc, ◌+◌, Bool, true, false, List, [], ◌∷◌, ◌++◌, Option, none, some, is_some, if◌then◌else◌,
  Text, codes, Map, find, insert, erase,
}
use testhub.Model.{
  TestState, TestStatus, TestResult, cancelled, test_error, Event, is_terminal_state,
}
use testhub.Queue
use testhub.Queue.{TestQueue}
use testhub.Engine.{TestRecord, Engine, EngineStats, publish, persist, set_flag}

-- `if (it != records_.end()) it->second = r;`.
unfoldable pub put_if_there : Text → TestRecord → Map TestRecord → Map TestRecord
put_if_there id r records = elim (find id records) [
  | none ↦ records
  | some old ↦ insert id r records
]

-- The record of a test that is cancelled in the queue.
abbrev pub cancelled_record : TestRecord → Text → ℕ → TestRecord
cancelled_record r id now = record r {
  status = record (r.status) { state = cancelled; end_time = now };
  result = record (r.result) {
    test_id = id;
    final_state = cancelled;
    start_time = r.status.submit_time;
    end_time = now;
  };
  has_result = true;
}

unfoldable pub cancelled_event : Text → Text → ℕ → Event
cancelled_event id stage now = record {
  type = codes "test.cancelled";
  test_id = id;
  timestamp = now;
  content = insert (codes "stage") stage [];
}

-- The sections behind the queue's: the record, the flag, the statistics, the event.
unfoldable pub finish_cancelled : Engine → Text → TestRecord → Bool → ℕ → Engine
finish_cancelled e id r written now =
    let saved = persist e r written in
    publish
      (record saved {
        records = put_if_there id r saved.records;
        cancel_flags = erase id saved.cancel_flags;
        stats = record (saved.stats) {
          completed = saved.stats.completed + 1;
          cancelled = saved.stats.cancelled + 1;
        };
      })
      (cancelled_event id (codes "queued") now)

-- A test that is not in the queue: its flag is set, if it has one.
unfoldable pub cancel_running : Engine → Text → ℕ → Engine × Bool
cancel_running e id now = elim (find id e.cancel_flags) [
  | none ↦ (e, false)
  | some at ↦ (
    publish (record e { flags = set_flag e.flags at true })
        (cancelled_event id (codes "running") now),
    true,
  )
]

unfoldable pub cancel_found : Engine → Text → TestRecord → Bool → Bool → ℕ → Engine × Bool
cancel_found e id r was_queued written now =
    if is_terminal_state r.status.state
    then (e, false)
    else if was_queued
    then (finish_cancelled e id (cancelled_record r id now) written now, true)
    else cancel_running e id now

unfoldable pub cancel : Engine → Text → Bool → ℕ → Engine × Bool
cancel e id written now =
    let (q, was_queued, events) = Queue.cancel e.queue id now in
    let e' = record e { queue = q; events = e.events ++ events } in
    elim (find id e.records) [
      | none ↦ (e', false)
      | some r ↦ cancel_found e' id r was_queued written now
    ]

-- The worker, asked to stop, marks the task that it holds.
unfoldable pub mark_stopped : Engine → Text → ℕ → Engine
mark_stopped e id now = elim (find id e.records) [
  | none ↦ e
  | some r ↦ record e {
    records =
        insert id (record r { status = record (r.status) { state = cancelled; end_time = now } })
          e.records;
  }
]

-- The worker's handler of an exception.
unfoldable pub mark_error : Engine → Text → Text → ℕ → Engine
mark_error e id what now = elim (find id e.records) [
  | none ↦ e
  | some r ↦ record e {
    records =
        insert id
          (record r {
            status = record (r.status) {
              state = test_error;
              errors = r.status.errors ++ (what ∷ []);
              end_time = now;
            };
            result = record (r.result) {
              final_state = test_error;
              errors = r.result.errors ++ (what ∷ []);
            };
            has_result = true;
          })
          e.records;
  }
]

-- The section of `updateStatus` that copies the snapshot.
unfoldable pub copy_status : Engine → Text → TestStatus → Engine
copy_status e id snap = elim (find id e.records) [
  | none ↦ e
  | some r ↦ record e { records = insert id (record r { status = snap }) e.records }
]
