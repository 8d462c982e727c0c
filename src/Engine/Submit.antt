-- ===== src/Engine/Submit.antt =====
-- src/engine/execution_engine.cpp, submit and rerun.
--
-- `resolve` is `SpecRepository::resolve`, which reads the file system: the paths that are missing
-- and the files that were found. A call is a sequence of sections, each under the record lock:
-- the check, the insertion, `trimHistory`; between them other threads may run. The loop that looks
-- for a free id runs on fuel, and `spinning` is the call that has not found one.
pub mod Fresh
use testhub.Base.{
  ℕ, zero, suc, Bool, true, false, not, ◌&&◌, ◌||◌, List, [], ◌∷◌, ◌++◌, Option, none, some, length,
  is_empty, is_some, if◌then◌else◌, Text, codes, to_string, Map, find, insert, has, keep, map,
}
use testhub.StringUtil.{join}
use testhub.Model.{
  TestRequest, TestStatus, TestState, SpecResult, queued, failed, test_error, Event,
  priority_to_string, empty_status, empty_result, state_eq,
}
use testhub.TagFilter
use testhub.Queue.{TestQueue, generate_task_id, enqueue}
use testhub.Engine.{TestRecord, Engine, publish, set_flag}
use testhub.Engine.History.{trim_history}

pub data Submission : Type 0 where
  accepted : Engine → Text → Submission
  rejected : Text → Submission
  spinning : Submission

pub data Checked : Type 0 where
  resolved : List Text → Checked
  refused : Text → Checked

abbrev pub Resolver : Type 0
Resolver = List Text → List Text × List Text

-- The tests of `submit`, up to and with the one for an id that exists.
unfoldable pub submit_check : Resolver → Engine → TestRequest → Checked
submit_check resolve e request =
    let (missing, found) = resolve request.spec_files in
    if not (is_empty missing)
    then refused (codes "Spec path(s) not found: " ++ join missing (codes ", "))
    else if is_empty found
    then refused (codes "No spec files found for the given paths")
    else elim (TagFilter.all request.tags).1 [
      | some message ↦ refused (codes "Invalid tag expression: " ++ message)
      | none ↦
          if not (is_empty request.id) && has request.id e.records
          then refused (codes "Test ID already exists: " ++ request.id)
          else resolved found
    ]

module _ (stamp : ℕ → Text) where
  -- `generateTaskId`, and again while the id is taken.
  unfoldable pub fresh_id : ℕ → Map TestRecord → TestQueue → ℕ → Option (TestQueue × Text)
  fresh_id zero records q tp = none
  fresh_id (suc fuel) records q tp =
      let (q', id) = generate_task_id stamp q tp in
      elim (has id records) [ true ↦ fresh_id fuel records q' tp | false ↦ some (q', id) ]

  -- The id of the new test, and the queue with its counter.
  unfoldable pub choose_id : ℕ → Engine → TestRequest → ℕ → Option (TestQueue × Text)
  choose_id fuel e request now =
      if is_empty request.id
      then fresh_id fuel e.records e.queue now
      else some (e.queue, request.id)

-- The record of a new test.
abbrev pub new_record : TestRequest → Text → List Text → ℕ → TestRecord
new_record request id found now = record {
  request = record request { id = id };
  status = record empty_status {
    test_id = id;
    state = queued;
    submit_time = now;
    total_specs = length found;
  };
  result = empty_result;
  has_result = false;
  resolved_specs = found;
}

-- The section that inserts the record, the place in the order and a cancel flag.
unfoldable pub submit_insert : Engine → Text → TestRecord → Engine
submit_insert e id r = record e {
  records = insert id r e.records;
  order = e.order ++ (id ∷ []);
  cancel_flags = insert id e.next_flag e.cancel_flags;
  flags = set_flag e.flags e.next_flag false;
  next_flag = suc e.next_flag;
}

unfoldable pub submitted_event : TestRequest → Text → ℕ → ℕ → Event
submitted_event request id found now = record {
  type = codes "test.submitted";
  test_id = id;
  timestamp = now;
  content = insert (codes "spec_files") (join request.spec_files (codes ",")) (
      insert (codes "resolved_specs") (to_string found) (
        insert (codes "tags") (join request.tags (codes ",")) (
          insert (codes "priority") (priority_to_string request.priority)
            (insert (codes "name") request.name []))));
}

module _ (resolve : Resolver) (stamp : ℕ → Text) where
  -- What follows the insertion: `trimHistory`, the queue, the event.
  unfoldable pub submit_enqueue : Engine → TestRequest → Text → ℕ → ℕ → Engine
  submit_enqueue e request id found now =
      let trimmed = trim_history e in
      let (q, same, events) = enqueue stamp trimmed.queue (record request { id = id }) now in
      publish (record trimmed { queue = q; events = trimmed.events ++ events })
        (submitted_event request id found now)

  -- A whole call with no other thread between its sections.
  unfoldable pub submit : ℕ → Engine → TestRequest → ℕ → Submission
  submit fuel e request now = elim (submit_check resolve e request) [
    | refused message ↦ rejected message
    | resolved found ↦ elim (choose_id stamp fuel e request now) [
      | none ↦ spinning
      | some (q, id) ↦
          accepted
            (submit_enqueue
              (submit_insert (record e { queue = q }) id (new_record request id found now)) request
              id (length found) now)
            id
    ]
  ]

  abbrev is_failed_spec : SpecResult → Bool
  is_failed_spec s = state_eq s.state failed || state_eq s.state test_error

  -- The files of the specs that failed.
  abbrev pub failed_specs : List SpecResult → List Text
  failed_specs results = map (λ (s : SpecResult). s.spec_file) (keep is_failed_spec results)

  -- The request of a rerun.
  unfoldable pub rerun_request : TestRecord → Text → Bool → TestRequest
  rerun_request r id only_failed =
      let again = failed_specs r.result.spec_results in
      let files =
        if only_failed && (r.has_result && not (is_empty again))
        then again
        else r.request.spec_files in
      record (r.request) {
        id = [];
        spec_files = files;
        metadata = insert (codes "rerun_of") id r.request.metadata;
      }

  -- `none` is the empty id that is returned for a test that is not there.
  unfoldable pub rerun : ℕ → Engine → Text → Bool → ℕ → Option Submission
  rerun fuel e id only_failed now = elim (find id e.records) [
    | none ↦ none
    | some r ↦ some (submit fuel e (rerun_request r id only_failed) now)
  ]
