-- ===== src/Engine/Run.antt =====
-- src/engine/execution_engine.cpp, the run of a test: what the steps, the scenarios and the
-- specifications share.
--
-- What comes from outside is a parameter, `World`: whether the cancel flag is set when it is read,
-- whether the deadline has passed, what the runner answers, the clock and the files. Each reading
-- has a number of its own, `tick`, so that the answers may change from one to the next.
-- `updateStatus` appends the snapshot to `snapshots`; Engine.Cancel.copy_status is what it does to
-- the record.
pub mod Bounds
pub mod Steps
pub mod Scenarios
pub mod Specs
pub mod Suite
use testhub.Base.{
  ℕ, zero, suc, ◌+◌, ◌-◌, Bool, true, false, not, ◌&&◌, ◌||◌, List, [], ◌∷◌, ◌++◌, map, Option,
  none, some, length, is_empty, any, drop, take, ltb, leb, ◌==◌, if◌then◌else◌, or_else, Text,
  codes, text_eq, text_lt, mem_text, Map, find, insert, to_string,
}
use testhub.Base.Int.{ℤ, pos, negsuc, int_lt, int_max}
use testhub.StringUtil.{trim, to_lower, starts_with, ends_with, contains, stoi, split, join}
use testhub.TagFilter
use testhub.TagFilter.{TagFilter}
use testhub.Model.{
  TestState, passed, failed, skipped, cancelled, test_error, TestRequest, TestStatus,
  ScenarioResult, Fraction, Event, state_eq, max_step_retry,
}
use testhub.Spec.{
  Table, StepArg, Specification, Scenario, static, dynamic, special_string, special_table, table,
  no_table,
}

pub record ExecutionContext : Type 0 where
  pub test_id : Text
  pub spec_file : Text
  pub spec_name : Text
  pub scenario_name : Text
  pub tags : List Text
  pub data_row : Map Text
  pub environment : Map Text

pub record StepExecutionRequest : Type 0 where
  pub step_text : Text
  pub parameterized_text : Text
  pub args : List StepArg
  pub context : ExecutionContext
  pub timeout_ms : ℤ

-- The fields of the runner's result that are used.
pub record StepReply : Type 0 where
  pub state : TestState
  pub error_message : Text
  pub stack_trace : Text
  pub duration : ℕ
  pub messages : List Text

pub data HookType : Type 0 where
  before_suite after_suite before_spec after_spec before_scenario after_scenario : HookType

pub record HookResult : Type 0 where
  pub success : Bool
  pub error_message : Text

pub record World : Type 0 where
  pub cancelled : ℕ → Bool
  pub late : ℕ → Bool
  pub remaining_ms : ℕ → ℤ
  pub now : ℕ → ℕ
  pub elapsed : ℕ → ℕ
  pub execute_step : ℕ → StepExecutionRequest → StepReply
  pub run_hook : ℕ → HookType → ExecutionContext → HookResult
  pub spec_dir : Text → Text
  pub read_file : Text → Text → Option Text
  pub show_duration : ℕ → Text
  pub show_fraction : Fraction → Text

-- `RunContext`, with what has been published.
pub record RunContext : Type 0 where
  pub test_id : Text
  pub request : TestRequest
  pub tag_filter : TagFilter
  pub status : TestStatus
  pub errors : List Text
  pub timed_out : Bool
  pub fail_fast_triggered : Bool
  pub tick : ℕ
  pub events : List Event
  pub snapshots : List TestStatus

-- The number after `retry:` or `retry-`, in a tag that may stand in angle brackets.
unfoldable pub retry_of : Text → Option ℤ
retry_of tag =
    let t = trim tag in
    let bare =
      if leb 2 (length t) && (starts_with t (codes "<") && ends_with t (codes ">"))
      then take (length t - 2) (drop 1 t)
      else t in
    let lower = to_lower bare in
    if ltb 6 (length lower)
      && (starts_with lower (codes "retry:") || starts_with lower (codes "retry-"))
    then stoi (drop 6 lower)
    else none

-- `if (v > n) n = v`, for the tags from the first on.
unfoldable pub retry_from : ℤ → List Text → ℤ
retry_from n [] = n
retry_from n (t ∷ ts) = retry_from (elim (retry_of t) [ none ↦ n | some v ↦ int_max n v ]) ts

abbrev pub retry_from_tags : List Text → ℤ
retry_from_tags = retry_from (pos 0)

unfoldable pub effective_step_retry : TestRequest → List Text → ℕ
effective_step_retry request tags = elim (int_max request.step_retry (retry_from_tags tags)) [
  | negsuc n ↦ 0
  | pos n ↦ if ltb max_step_retry n then max_step_retry else n
]

unfoldable pub aggregate_state : ℕ → ℕ → ℕ → ℕ → Bool → TestState
aggregate_state failed_count errored skipped_count total was_cancelled =
    if was_cancelled
    then cancelled
    else if ltb 0 errored && failed_count == 0
    then test_error
    else if ltb 0 failed_count || ltb 0 errored
    then failed
    else if ltb 0 total && skipped_count == total
    then skipped
    else passed

-- The specification's tags, and those of the scenario that are not among them.
unfoldable pub add_tags : List Text → List Text → List Text
add_tags tags [] = tags
add_tags tags (t ∷ ts) = add_tags (if mem_text t tags then tags else tags ++ (t ∷ [])) ts

abbrev pub effective_tags : Specification → Scenario → List Text
effective_tags s sc = add_tags s.tags sc.tags

-- A name that is wanted: the scenario's name, or a part of it, in whatever case.
unfoldable pub is_wanted : Text → Text → Bool
is_wanted lower_name want =
    let w = to_lower (trim want) in
    if is_empty w then false else text_eq lower_name w || contains lower_name w

unfoldable pub scenario_selected : RunContext → Specification → Scenario → Bool
scenario_selected c s sc =
    if not (TagFilter.matches c.tag_filter (effective_tags s sc))
    then false
    else if not (is_empty c.request.scenarios)
    then any (is_wanted (to_lower sc.name)) c.request.scenarios
    else true

-- The lines of a CSV file: the first that is not blank holds the headers.
csv_cells : Text → List Text
csv_cells line = map trim (split line (codes ","))

csv_rows : List Text → List (List Text)
csv_rows [] = []
csv_rows (line ∷ lines) =
    let rest = csv_rows lines in if is_empty (trim line) then rest else csv_cells (trim line) ∷ rest

unfoldable pub csv_table : Text → Table
unfolding csv_rows csv_cells
csv_table content = elim (csv_rows (split content (codes "\n"))) [
  | [] ↦ no_table
  | headers ∷ rows ↦ record { headers = headers; rows = rows }
]

module _ (w : World) where
  resolve_by : StepArg → Map Text → Text → StepArg
  resolve_by a data_row dir = elim a.type [
    | dynamic ↦ elim (find a.value data_row) [
      | none ↦ a
      | some v ↦ record a { type = static; value = v }
    ]
    | special_string ↦ elim (w.read_file dir a.value) [
      | none ↦ a
      | some content ↦ record a { type = static; value = content }
    ]
    | special_table ↦ elim (w.read_file dir a.value) [
      | none ↦ a
      | some content ↦ record a { type = table; table = csv_table content }
    ]
    | static ↦ a
    | table ↦ a
  ]

  unfoldable pub resolve_args : List StepArg → Map Text → Text → List StepArg
  unfolding resolve_by
  resolve_args args data_row dir = map (λ a. resolve_by a data_row dir) args

  -- `ctx.cancelled->load()`.
  unfoldable pub look : RunContext → RunContext × Bool
  look c = (record c { tick = suc c.tick }, w.cancelled c.tick)

  unfoldable pub check_timeout : RunContext → RunContext × Bool
  check_timeout c =
      if c.timed_out
      then (c, true)
      else if w.late c.tick
      then (
        record c {
          tick = suc c.tick;
          timed_out = true;
          errors = c.errors ++ (codes "Test timed out" ∷ []);
        },
        true,
      )
      else (record c { tick = suc c.tick }, false)

  -- `ctx.cancelled->load() || checkTimeout(ctx)`.
  unfoldable pub is_over : RunContext → RunContext × Bool
  is_over c = let (c', hit) = look c in if hit then (c', true) else check_timeout c'

  -- `ctx.shouldStop()`.
  unfoldable pub should_stop : RunContext → RunContext × Bool
  should_stop c = let (c', hit) = look c in (c', hit || (c'.timed_out || c'.fail_fast_triggered))

  unfoldable pub publish : RunContext → Text → Map Text → RunContext
  publish c type content = record c {
    tick = suc c.tick;
    events =
        c.events
        ++ (record { type = type; test_id = c.test_id; timestamp = w.now c.tick; content = content }
            ∷ []);
  }

  unfoldable pub run_hook : RunContext → HookType → ExecutionContext → RunContext × HookResult
  run_hook c hook context = (record c { tick = suc c.tick }, w.run_hook c.tick hook context)

  unfoldable pub update_status : RunContext → RunContext
  update_status c =
      publish (record c { snapshots = c.snapshots ++ (c.status ∷ []) }) (codes "test.progress")
        (insert (codes "progress") (w.show_fraction c.status.progress) (
          insert (codes "current_spec") c.status.current_spec (
            insert (codes "current_scenario") c.status.current_scenario (
              insert (codes "current_step") c.status.current_step (
                insert (codes "executed_scenarios") (to_string c.status.executed_scenarios) (
                  insert (codes "total_scenarios") (to_string c.status.total_scenarios) (
                    insert (codes "passed_scenarios") (to_string c.status.passed_scenarios) (
                      insert (codes "failed_scenarios") (to_string c.status.failed_scenarios)
                        []))))))))

  abbrev pub is_failure : TestState → Bool
  is_failure s = state_eq s failed || state_eq s test_error

  -- How a scenario enters the counts.
  unfoldable pub count_scenario : TestStatus → TestState → TestStatus
  count_scenario s passed = record s {
    passed_scenarios = suc s.passed_scenarios;
    executed_scenarios = suc s.executed_scenarios;
  }
  count_scenario s failed = record s {
    failed_scenarios = suc s.failed_scenarios;
    executed_scenarios = suc s.executed_scenarios;
  }
  count_scenario s test_error = record s {
    failed_scenarios = suc s.failed_scenarios;
    executed_scenarios = suc s.executed_scenarios;
  }
  count_scenario s _ = record s { skipped_scenarios = suc s.skipped_scenarios }

  -- `std::min(1.0, processed / total)`.
  unfoldable pub progress_of : TestStatus → Fraction
  progress_of s =
      let processed = s.executed_scenarios + s.skipped_scenarios in
      if s.total_scenarios == 0
      then s.progress
      else if ltb s.total_scenarios processed
      then record { num = 1; den = 1 }
      else record { num = processed; den = s.total_scenarios }

  unfoldable pub apply_scenario_outcome : RunContext → TestState → RunContext
  apply_scenario_outcome c state =
      let counted = count_scenario c.status state in
      update_status (record c {
        status = record counted { progress = progress_of counted };
        fail_fast_triggered =
            if c.request.fail_fast && is_failure state then true else c.fail_fast_triggered;
      })
