-- ===== src/Engine.antt =====
-- src/engine/execution_engine.h, execution_engine.cpp and result_store.cpp: the state of the
-- execution engine.
--
-- A cancel flag is an `atomic<bool>` that the engine and the running test share: `flags` holds the
-- values, and `cancel_flags` the place of each test's flag. The results directory is a map from
-- ids to the records that were written; whether a write succeeds is an argument.
pub mod History
pub mod Submit
pub mod Cancel
pub mod Finish
pub mod Invariant
pub mod Queries
pub mod Run
pub mod Worker
use testhub.Base.{
  ℕ, suc, ◌+◌, Bool, true, false, not, ◌&&◌, ◌||◌, List, [], ◌∷◌, ◌++◌, Option, none, some, length,
  is_empty, any, is_some, every, ltb, ◌==◌, if◌then◌else◌, Text, codes, Map, find, insert, erase,
}
use testhub.StringUtil.{is_alnum, contains}
use testhub.Model.{
  TestRequest, TestStatus, TestResult, TestState, passed, skipped, failed, cancelled, Event,
  is_terminal_state, empty_request, empty_status, empty_result,
}
use testhub.Queue.{TestQueue}

pub record TestRecord : Type 0 where
  pub request : TestRequest
  pub status : TestStatus
  pub result : TestResult
  pub has_result : Bool
  pub resolved_specs : List Text

abbrev pub empty_record : TestRecord
empty_record = record {
  request = empty_request;
  status = empty_status;
  result = empty_result;
  has_result = false;
  resolved_specs = [];
}

pub record EngineStats : Type 0 where
  pub completed : ℕ
  pub passed : ℕ
  pub failed : ℕ
  pub cancelled : ℕ
  pub errored : ℕ
  pub total_scenarios : ℕ
  pub passed_scenarios : ℕ
  pub failed_scenarios : ℕ
  pub skipped_scenarios : ℕ
  pub total_duration : ℕ
  pub queued : ℕ
  pub running : ℕ

pub record Engine : Type 0 where
  pub records : Map TestRecord
  pub order : List Text
  pub cancel_flags : Map ℕ
  pub flags : ℕ → Bool
  pub next_flag : ℕ
  pub queue : TestQueue
  pub stats : EngineStats
  pub files : Map TestRecord
  pub store_enabled : Bool
  pub history_limit : ℕ
  pub events : List Event

abbrev pub state_of : TestRecord → TestState
state_of r = r.status.state

-- Whether the record of `id` is there and terminal.
unfoldable pub is_finished : Map TestRecord → Text → Bool
is_finished records id = elim (find id records) [
  | none ↦ false
  | some r ↦ is_terminal_state r.status.state
]

abbrev pub publish : Engine → Event → Engine
publish e event = record e { events = e.events ++ (event ∷ []) }

abbrev pub set_flag : (ℕ → Bool) → ℕ → Bool → ℕ → Bool
set_flag flags at v i = if i == at then v else flags i

-- `safeId`: what may be part of a file name.
unfoldable pub is_safe_id : Text → Bool
is_safe_id id =
    if is_empty id || ltb 128 (length id)
    then false
    else if every (λ c. is_alnum c || c == b'-' || c == b'_' || c == b'.') id
    then not (contains id (codes ".."))
    else false

-- `ResultStore::save`; `written` says whether the file could be written and moved into place.
unfoldable pub store_save : Engine → TestRecord → Bool → Engine
store_save e r written =
    if e.store_enabled && (is_safe_id r.status.test_id && written)
    then record e { files = insert r.status.test_id r e.files }
    else e

-- `ResultStore::remove`.
unfoldable pub store_remove : Engine → Text → Engine
store_remove e id =
    if e.store_enabled && is_safe_id id then record e { files = erase id e.files } else e

unfoldable pub store_remove_all : Engine → List Text → Engine
store_remove_all e [] = e
store_remove_all e (id ∷ ids) = store_remove_all (store_remove e id) ids

-- `persist`: only a terminal record is written.
unfoldable pub persist : Engine → TestRecord → Bool → Engine
persist e r written = if is_terminal_state r.status.state then store_save e r written else e

-- `switch (finalState)`.
unfoldable pub count_state : TestState → EngineStats → EngineStats
count_state passed s = record s { passed = s.passed + 1 }
count_state skipped s = record s { passed = s.passed + 1 }
count_state failed s = record s { failed = s.failed + 1 }
count_state cancelled s = record s { cancelled = s.cancelled + 1 }
count_state _ s = record s { errored = s.errored + 1 }

-- How a finished run enters the statistics.
unfoldable pub count_final : EngineStats → TestResult → EngineStats
count_final s r = count_state r.final_state (record s {
  completed = s.completed + 1;
  total_scenarios = s.total_scenarios + r.total_scenarios;
  passed_scenarios = s.passed_scenarios + r.passed_scenarios;
  failed_scenarios = s.failed_scenarios + r.failed_scenarios;
  skipped_scenarios = s.skipped_scenarios + r.skipped_scenarios;
  total_duration = s.total_duration + r.total_duration;
})
