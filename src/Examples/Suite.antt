-- ===== src/Examples/Suite.antt =====
-- Steps, scenarios, specifications, and the ends of runs.
use testhub.Base.{
  ℕ, suc, ◌≡◌, ◌≤◌, ◌+◌, refl, Bool, true, false, List, [], ◌∷◌, length, none, Text, codes,
}
use testhub.Base.Int.{pos}
use testhub.TagFilter
use testhub.TagFilter.{TagFilter}
use testhub.Model.{
  TestState, failed, TestRequest, TestStatus, TestResult, Event, empty_request, empty_status,
  empty_spec_result, SpecResult,
}
use testhub.Spec.{Step, Steps, step, Scenario, Specification, no_table}
use testhub.Engine.{TestRecord}
use testhub.Engine.Run.{World, RunContext, StepExecutionRequest, ExecutionContext, run_hook}
use testhub.Engine.Run.Steps.{no_attempt, retry_loop, execute_step}
use testhub.Engine.Run.Steps.Retries.{retry_loop-Bounded}
use testhub.Engine.Run.Specs.{execute_spec}
use testhub.Engine.Run.Specs.Counts.{execute_spec-total}
use testhub.Engine.Cancel.{cancel}
use testhub.Engine.Finish.{finish, load_history}
use testhub.Engine.Finish.Stats.{IsBalanced, outcomes-IsBalanced}
use testhub.Examples.Runs.{busy}

-- Nothing interrupts, and every step ends in the given state.
abbrev pub world_of : TestState → World
world_of s = record {
  cancelled = λ n. false;
  late = λ n. false;
  remaining_ms = λ n. pos 1000;
  now = λ n. n;
  elapsed = λ n. 1;
  execute_step = λ n request. record {
    state = s;
    error_message = [];
    stack_trace = [];
    duration = 2;
    messages = [];
  };
  run_hook = λ n hook context. record { success = true; error_message = [] };
  spec_dir = λ file. file;
  read_file = λ dir path. none;
  show_duration = λ d. [];
  show_fraction = λ f. [];
}

abbrev two_retries : TestRequest
two_retries = record empty_request { step_retry = pos 2 }

abbrev context : RunContext
context = record {
  test_id = codes "a";
  request = two_retries;
  tag_filter = record { expression = []; root = none; invalid = false };
  status = record empty_status { total_scenarios = 1; total_specs = 1 };
  errors = [];
  timed_out = false;
  fail_fast_triggered = false;
  tick = 0;
  events = [];
  snapshots = [];
}

abbrev one_step : Step
one_step = step (codes "say hello") (codes "say hello") [] 3 false Steps.nil

abbrev one_scenario : Scenario
one_scenario = record {
  name = codes "greeting";
  tags = [];
  steps = one_step ∷ [];
  comments = [];
  line_number = 2;
  span = 2;
}

abbrev pub one_spec : Specification
one_spec = record {
  file_name = codes "x.spec";
  heading = codes "X";
  tags = [];
  contexts = [];
  teardowns = [];
  scenarios = one_scenario ∷ [];
  data_table = no_table;
  comments = [];
  heading_line = 1;
}

abbrev empty_context : ExecutionContext
empty_context = record {
  test_id = codes "a";
  spec_file = codes "x.spec";
  spec_name = codes "X";
  scenario_name = codes "greeting";
  tags = [];
  data_row = [];
  environment = [];
}

abbrev one_request : StepExecutionRequest
one_request = record {
  step_text = codes "say hello";
  parameterized_text = codes "say hello";
  args = [];
  context = empty_context;
  timeout_ms = pos 60000;
}

attempts_example :
    ((1
        ≤ (retry_loop
            (world_of failed)
            (pos 500)
            2
            (2 + 2)
            one_request
            context
            no_attempt).1.attempts)
      × ((retry_loop
            (world_of failed)
            (pos 500)
            2
            (2 + 2)
            one_request
            context
            no_attempt).1.attempts
          ≤ suc 2))
    × (retry_loop (world_of failed) (pos 500) 2 (2 + 2 + 7) one_request context no_attempt
        ≡ retry_loop (world_of failed) (pos 500) 2 (2 + 2) one_request context no_attempt)
attempts_example = retry_loop-Bounded (world_of failed) (pos 500) 2 one_request context 7

total_example :
    let r = (execute_spec (world_of failed) (pos 500) [] context one_spec).1 in
    (r.passed_scenarios + r.failed_scenarios + r.skipped_scenarios ≡ r.total_scenarios)
    × (r.total_scenarios ≡ length r.scenario_results)
total_example = execute_spec-total (world_of failed) (pos 500) [] context one_spec

abbrev one_result : List SpecResult
one_result = empty_spec_result ∷ []

abbrev one_passed : TestStatus
one_passed = record empty_status { total_specs = 1; passed_scenarios = 1 }

outcomes_example :
    ((id : Text) (s : TestStatus) (r : TestResult) (w : Bool) (event : Event)
      → IsBalanced (finish busy id s r w event).stats)
    × ((id : Text) (w : Bool) (now : ℕ) → IsBalanced (cancel busy id w now).0.stats)
    × ((loaded : Bool) (found : List TestRecord)
        → IsBalanced (load_history busy loaded found).0.stats)
outcomes_example = outcomes-IsBalanced busy refl
