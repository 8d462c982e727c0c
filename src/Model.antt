-- ===== src/Model.antt =====
-- src/model/types.h: the enumerations, their names, and the records of requests, statuses and
-- results.
--
-- A string is its list of bytes. A `TimePoint` and a duration are numbers of microseconds, and
-- `progress` is the fraction of which it is the quotient.
pub mod Names
use testhub.Base.{ℕ, Bool, true, false, List, [], Text, codes, text_eq, Map, if◌then◌else◌}
use testhub.Base.Int.{ℤ, pos, negsuc}

pub data TestState : Type 0 where
  queued running passed failed skipped cancelled test_error : TestState

pub data Priority : Type 0 where
  low normal high urgent : Priority

pub data RunnerState : Type 0 where
  disconnected connecting connected busy runner_error : RunnerState

-- `switch` on the enumeration.
unfoldable pub test_state_to_string : TestState → Text
test_state_to_string queued = codes "queued"
test_state_to_string running = codes "running"
test_state_to_string passed = codes "passed"
test_state_to_string failed = codes "failed"
test_state_to_string skipped = codes "skipped"
test_state_to_string cancelled = codes "cancelled"
test_state_to_string test_error = codes "error"

unfoldable pub string_to_test_state : Text → TestState
string_to_test_state str =
    if text_eq str (codes "queued")
    then queued
    else if text_eq str (codes "running")
    then running
    else if text_eq str (codes "passed")
    then passed
    else if text_eq str (codes "failed")
    then failed
    else if text_eq str (codes "skipped")
    then skipped
    else if text_eq str (codes "cancelled")
    then cancelled
    else test_error

-- `a == b` of two states.
unfoldable pub state_eq : TestState → TestState → Bool
state_eq queued queued = true
state_eq running running = true
state_eq passed passed = true
state_eq failed failed = true
state_eq skipped skipped = true
state_eq cancelled cancelled = true
state_eq test_error test_error = true
state_eq _ _ = false

unfoldable pub is_terminal_state : TestState → Bool
is_terminal_state queued = false
is_terminal_state running = false
is_terminal_state _ = true

unfoldable pub priority_to_string : Priority → Text
priority_to_string low = codes "low"
priority_to_string normal = codes "normal"
priority_to_string high = codes "high"
priority_to_string urgent = codes "urgent"

unfoldable pub string_to_priority : Text → Priority
string_to_priority str =
    if text_eq str (codes "low")
    then low
    else if text_eq str (codes "high")
    then high
    else if text_eq str (codes "urgent")
    then urgent
    else normal

-- `static_cast<int>` of a priority.
unfoldable pub priority_rank : Priority → ℕ
priority_rank low = 0
priority_rank normal = 1
priority_rank high = 2
priority_rank urgent = 3

unfoldable pub runner_state_to_string : RunnerState → Text
runner_state_to_string disconnected = codes "disconnected"
runner_state_to_string connecting = codes "connecting"
runner_state_to_string connected = codes "connected"
runner_state_to_string busy = codes "busy"
runner_state_to_string runner_error = codes "error"

-- `kMaxStepRetry`.
abbrev pub max_step_retry : ℕ
max_step_retry = 5

pub record TestRequest : Type 0 where
  pub id : Text
  pub name : Text
  pub spec_files : List Text
  pub tags : List Text
  pub scenarios : List Text
  pub environment : Text
  pub parallel_streams : ℤ
  pub priority : Priority
  pub timeout_ms : ℤ
  pub fail_fast : Bool
  pub step_retry : ℤ
  pub metadata : Map Text
  pub callback_url : Text
  pub submitted_by : Text

-- A step result holds the results of a concept's steps, so the two types are one block.
mutual
  pub data StepResult : Type 0 where
    step_result :
        Text → Text → TestState → Text → Text → ℕ → ℕ → List Text → StepResults → Bool → StepResult

  pub data StepResults : Type 0 where
    nil : StepResults
    cons : StepResult → StepResults → StepResults

pub record ScenarioResult : Type 0 where
  pub scenario_name : Text
  pub tags : List Text
  pub state : TestState
  pub context_steps : List StepResult
  pub step_results : List StepResult
  pub teardown_steps : List StepResult
  pub error_message : Text
  pub duration : ℕ
  pub data_row_index : ℤ
  pub data_row : Map Text
  pub line_number : ℕ

pub record SpecResult : Type 0 where
  pub spec_file : Text
  pub spec_name : Text
  pub tags : List Text
  pub state : TestState
  pub scenario_results : List ScenarioResult
  pub error_message : Text
  pub duration : ℕ
  pub total_scenarios : ℕ
  pub passed_scenarios : ℕ
  pub failed_scenarios : ℕ
  pub skipped_scenarios : ℕ

-- A quotient of two counts.
pub record Fraction : Type 0 where
  pub num : ℕ
  pub den : ℕ

pub record TestStatus : Type 0 where
  pub test_id : Text
  pub state : TestState
  pub total_specs : ℕ
  pub executed_specs : ℕ
  pub passed_specs : ℕ
  pub failed_specs : ℕ
  pub total_scenarios : ℕ
  pub executed_scenarios : ℕ
  pub passed_scenarios : ℕ
  pub failed_scenarios : ℕ
  pub skipped_scenarios : ℕ
  pub progress : Fraction
  pub current_spec : Text
  pub current_scenario : Text
  pub current_step : Text
  pub submit_time : ℕ
  pub start_time : ℕ
  pub end_time : ℕ
  pub errors : List Text
  pub warnings : List Text

pub record TestResult : Type 0 where
  pub test_id : Text
  pub final_state : TestState
  pub spec_results : List SpecResult
  pub errors : List Text
  pub warnings : List Text
  pub total_duration : ℕ
  pub start_time : ℕ
  pub end_time : ℕ
  pub total_scenarios : ℕ
  pub passed_scenarios : ℕ
  pub failed_scenarios : ℕ
  pub skipped_scenarios : ℕ

pub record TestInfo : Type 0 where
  pub test_id : Text
  pub name : Text
  pub state : TestState
  pub spec_files : List Text
  pub tags : List Text
  pub priority : Priority
  pub progress : Fraction
  pub submit_time : ℕ
  pub start_time : ℕ
  pub end_time : ℕ
  pub total_scenarios : ℕ
  pub passed_scenarios : ℕ
  pub failed_scenarios : ℕ
  pub skipped_scenarios : ℕ
  pub duration : ℕ

pub record Event : Type 0 where
  pub type : Text
  pub test_id : Text
  pub timestamp : ℕ
  pub content : Map Text

-- The records as their member initialisers leave them.
abbrev pub no_fraction : Fraction
no_fraction = record { num = 0; den = 1 }

abbrev pub empty_request : TestRequest
empty_request = record {
  id = [];
  name = [];
  spec_files = [];
  tags = [];
  scenarios = [];
  environment = codes "default";
  parallel_streams = pos 1;
  priority = normal;
  timeout_ms = pos 0;
  fail_fast = false;
  step_retry = pos 0;
  metadata = [];
  callback_url = [];
  submitted_by = [];
}

abbrev pub empty_status : TestStatus
empty_status = record {
  test_id = [];
  state = queued;
  total_specs = 0;
  executed_specs = 0;
  passed_specs = 0;
  failed_specs = 0;
  total_scenarios = 0;
  executed_scenarios = 0;
  passed_scenarios = 0;
  failed_scenarios = 0;
  skipped_scenarios = 0;
  progress = no_fraction;
  current_spec = [];
  current_scenario = [];
  current_step = [];
  submit_time = 0;
  start_time = 0;
  end_time = 0;
  errors = [];
  warnings = [];
}

abbrev pub empty_result : TestResult
empty_result = record {
  test_id = [];
  final_state = passed;
  spec_results = [];
  errors = [];
  warnings = [];
  total_duration = 0;
  start_time = 0;
  end_time = 0;
  total_scenarios = 0;
  passed_scenarios = 0;
  failed_scenarios = 0;
  skipped_scenarios = 0;
}

abbrev pub empty_scenario_result : ScenarioResult
empty_scenario_result = record {
  scenario_name = [];
  tags = [];
  state = passed;
  context_steps = [];
  step_results = [];
  teardown_steps = [];
  error_message = [];
  duration = 0;
  data_row_index = negsuc 0;
  data_row = [];
  line_number = 0;
}

abbrev pub empty_spec_result : SpecResult
empty_spec_result = record {
  spec_file = [];
  spec_name = [];
  tags = [];
  state = passed;
  scenario_results = [];
  error_message = [];
  duration = 0;
  total_scenarios = 0;
  passed_scenarios = 0;
  failed_scenarios = 0;
  skipped_scenarios = 0;
}
