-- ===== src/Engine/Finish.antt =====
-- src/engine/execution_engine.cpp, the sections with which execute begins and ends, and
-- loadHistory.
pub mod Stats
use testhub.Base.{
  ℕ, suc, ◌+◌, Bool, true, false, List, [], ◌∷◌, ◌++◌, Option, none, some, if◌then◌else◌, Text,
  codes, Map, find, insert, erase, has, or_else, to_string,
}
use testhub.Model.{
  TestState, TestStatus, TestResult, cancelled, Event, state_eq, test_state_to_string,
}
use testhub.Engine.{
  TestRecord, Engine, EngineStats, empty_record, publish, persist, set_flag, count_final,
}
use testhub.Engine.History.{trim_history}
use testhub.Engine.Cancel.{put_if_there}

-- What `execute` reads when it begins: the record, and the place of the test's flag, which is made
-- if it is missing. A test that is gone or cancelled is not executed.
unfoldable pub flag_of : Engine → Text → Engine × ℕ
flag_of e id = elim (find id e.cancel_flags) [
  | some at ↦ (e, at)
  | none ↦ (
    record e {
      cancel_flags = insert id e.next_flag e.cancel_flags;
      flags = set_flag e.flags e.next_flag false;
      next_flag = suc e.next_flag;
    },
    e.next_flag,
  )
]

unfoldable pub begin : Engine → Text → Engine × Option (TestRecord × ℕ)
begin e id = elim (find id e.records) [
  | none ↦ (e, none)
  | some r ↦
      if state_eq r.status.state cancelled
      then (e, none)
      else (let (e', at) = flag_of e id in (e', some (r, at)))
]

abbrev pub finished_record : TestRecord → TestStatus → TestResult → TestRecord
finished_record r status result = record r { status = status; result = result; has_result = true }

unfoldable pub completed_event : (ℕ → Text) → Text → Text → TestResult → ℕ → ℕ → ℕ → Event
completed_event show id name r passed_specs failed_specs now = record {
  type = codes "test.completed";
  test_id = id;
  timestamp = now;
  content = insert (codes "state") (test_state_to_string r.final_state) (
      insert (codes "duration") (show r.total_duration) (
        insert (codes "total_scenarios") (to_string r.total_scenarios) (
          insert (codes "passed_scenarios") (to_string r.passed_scenarios) (
            insert (codes "failed_scenarios") (to_string r.failed_scenarios) (
              insert (codes "skipped_scenarios") (to_string r.skipped_scenarios) (
                insert (codes "passed_specs") (to_string passed_specs) (
                  insert (codes "failed_specs") (to_string failed_specs)
                    (insert (codes "name") name []))))))));
}

-- The end of `execute`: the file, the record, the flag, the statistics and the event.
unfoldable pub finish : Engine → Text → TestStatus → TestResult → Bool → Event → Engine
finish e id status result written event =
    let r = finished_record (or_else (find id e.records) empty_record) status result in
    let saved = persist e r written in
    publish
      (record saved {
        records = put_if_there id r saved.records;
        cancel_flags = erase id saved.cancel_flags;
        stats = count_final saved.stats result;
      })
      event

-- A record that was read from a file, if its id is free.
unfoldable pub load_record : Engine → TestRecord → Engine
load_record e r =
    let id = r.status.test_id in
    if has id e.records
    then e
    else record e { records = insert id r e.records; order = e.order ++ (id ∷ []) }

unfoldable pub load_records : Engine → List TestRecord → Engine
load_records e [] = e
load_records e (r ∷ rs) = load_records (load_record e r) rs

-- The statistics count every record that was read and has a result.
unfoldable pub count_loaded : EngineStats → List TestRecord → EngineStats
count_loaded s [] = s
count_loaded s (r ∷ rs) = count_loaded (if r.has_result then count_final s r.result else s) rs

abbrev pub load_found : Engine → List TestRecord → Engine
load_found e found =
    let e' = load_records e found in
    trim_history (record e' { stats = count_loaded e'.stats found })

-- `loadHistory`; `loaded` says whether it has been called, and `found` what the store reads.
unfoldable pub load_history : Engine → Bool → List TestRecord → Engine × Bool
load_history e loaded found =
    if loaded then (e, true) else if e.store_enabled then (load_found e found, true) else (e, true)
