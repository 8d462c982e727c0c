-- ===== src/Engine/Run/Specs.antt =====
-- src/engine/execution_engine.cpp, executeSpec, executeSequential and the end of execute: a
-- specification with its rows and scenarios, the specifications one after the other, and the state
-- of the whole test.
--
-- `path` of a loaded specification is the path that `SpecRepository::toRelative` gives.

pub mod Counts
use testhub.Base.{
  ℕ, zero, suc, ◌+◌, ◌-◌, Bool, true, false, not, ◌&&◌, ◌||◌, List, [], ◌∷◌, ◌++◌, map, Option,
  none, some, is_empty, any, length, if◌then◌else◌, ltb, ◌==◌, Text, codes, Map, insert, to_string,
}
use testhub.Base
use testhub.Base.Int.{ℤ, pos, negsuc}
use testhub.StringUtil.{join, contains}
use testhub.Model.{
  TestState, passed, failed, skipped, cancelled, test_error, StepResult, ScenarioResult, SpecResult,
  TestResult, TestStatus, step_result, nil, state_eq, test_state_to_string, empty_scenario_result,
  empty_spec_result,
}
use testhub.Spec.{
  Step, Scenario, Specification, text_of, parameterized_of, is_concept_of, is_data_driven,
}
use testhub.Engine.Run.{
  World, RunContext, ExecutionContext, HookResult, before_suite, after_suite, before_spec,
  after_spec, effective_tags, scenario_selected, aggregate_state, look, check_timeout, should_stop,
  publish, run_hook, update_status, apply_scenario_outcome,
}
use testhub.Engine.Run.Scenarios.{execute_scenario}

-- The four counters of a specification.
pub record Tally : Type 0 where
  pub passed_count : ℕ
  pub failed_count : ℕ
  pub errored_count : ℕ
  pub skipped_count : ℕ

abbrev pub no_tally : Tally
no_tally = record { passed_count = 0; failed_count = 0; errored_count = 0; skipped_count = 0 }

unfoldable pub tally : Tally → TestState → Tally
tally t passed = record t { passed_count = suc t.passed_count }
tally t failed = record t { failed_count = suc t.failed_count }
tally t test_error = record t { errored_count = suc t.errored_count }
tally t _ = record t { skipped_count = suc t.skipped_count }

abbrev pub step_not_run : Step → StepResult
step_not_run s =
    step_result (text_of s) (parameterized_of s) skipped [] [] 0 1 [] nil (is_concept_of s)

-- `shouldStop() || checkTimeout(ctx)`.
unfoldable pub must_stop : World → RunContext → RunContext × Bool
must_stop w c = let (c', hit) = should_stop w c in if hit then (c', true) else check_timeout w c'

module _ (w : World) (step_timeout : ℤ) (environment : Map Text) where
  -- A scenario that is not run.
  unfoldable pub skip_scenario :
      RunContext → Specification → Scenario → ℤ → Bool → RunContext × ScenarioResult
  skip_scenario c spec sc row hook_failed =
      let (c1, hit) = look w c in
      let (c2, again) = look w c1 in
      (
        c2,
        record empty_scenario_result {
          scenario_name = sc.name;
          tags = effective_tags spec sc;
          line_number = sc.line_number;
          data_row_index = row;
          state = if hit then cancelled else skipped;
          error_message =
              if hook_failed
              then codes "Skipped because before_spec hook failed"
              else if again
              then codes "Skipped because the test was cancelled"
              else if c2.timed_out
              then codes "Skipped because the test timed out"
              else codes "Skipped";
          step_results = map step_not_run sc.steps;
        },
      )

  unfoldable pub visit_scenario :
      RunContext → Specification → Scenario → ℤ → Bool → RunContext × ScenarioResult
  visit_scenario c spec sc row hook_failed =
      let (c1, stop) : RunContext × Bool = if hook_failed then (c, true) else must_stop w c in
      let named = record c1 { status = record (c1.status) { current_scenario = sc.name } } in
      if stop
      then skip_scenario c1 spec sc row hook_failed
      else execute_scenario w step_timeout environment none named spec sc row

  -- The scenarios of one row that are selected.
  unfoldable pub visit_all :
      RunContext → Specification → List Scenario → ℤ → Bool → RunContext × List ScenarioResult
  visit_all c spec [] row hook_failed = (c, [])
  visit_all c spec (sc ∷ scs) row hook_failed =
      let selected = scenario_selected c spec sc in
      let (c1, sr) = visit_scenario c spec sc row hook_failed in
      let next = if selected then apply_scenario_outcome w c1 sr.state else c in
      let (c2, rest) = visit_all next spec scs row hook_failed in
      (c2, if selected then sr ∷ rest else rest)

  -- The rows from `row` on, `left` of them.
  unfoldable pub visit_rows :
      ℕ → ℕ → RunContext → Specification → Bool → RunContext × List ScenarioResult
  visit_rows zero row c spec hook_failed = (c, [])
  visit_rows (suc left) row c spec hook_failed =
      let index = if is_data_driven spec then pos row else negsuc 0 in
      let (c1, here) = visit_all c spec spec.scenarios index hook_failed in
      let (c2, rest) = visit_rows left (suc row) c1 spec hook_failed in (c2, here ++ rest)

  abbrev pub row_count : Specification → ℕ
  row_count spec = if is_data_driven spec then length spec.data_table.rows else 1

  unfoldable pub tally_all : Tally → List ScenarioResult → Tally
  tally_all t [] = t
  tally_all t (sr ∷ srs) = tally_all (tally t sr.state) srs

  abbrev pub spec_context : RunContext → Specification → ExecutionContext
  spec_context c spec = record {
    test_id = c.test_id;
    spec_file = spec.file_name;
    spec_name = spec.heading;
    scenario_name = [];
    tags = spec.tags;
    data_row = [];
    environment = environment;
  }

  unfoldable pub spec_state : Bool → Tally → ℕ → Bool → TestState
  spec_state before_ok t total hit =
      if total == 0
      then skipped
      else if not before_ok
      then test_error
      else aggregate_state t.failed_count t.errored_count t.skipped_count total
          (hit && t.passed_count + t.failed_count + t.errored_count == 0)

  abbrev pub hook_message : Text → HookResult → Text → Text
  hook_message what h message =
      if h.success
      then message
      else message ++ ((if is_empty message then [] else codes "\n") ++ (what ++ h.error_message))

  unfoldable pub execute_spec : RunContext → Specification → RunContext × SpecResult
  execute_spec c spec =
      let start = publish w c (codes "spec.started") (
        insert (codes "spec") spec.file_name (
          insert (codes "name") spec.heading (
            insert (codes "scenarios") (to_string (length spec.scenarios))
              (insert (codes "tags") (join spec.tags (codes ",")) [])))) in
      let (c1, before) = run_hook w start before_spec (spec_context c spec) in
      let (c2, results) = visit_rows (row_count spec) 0 c1 spec (not before.success) in
      let (c3, after) = run_hook w c2 after_spec (spec_context c spec) in
      let t = tally_all no_tally results in
      let total = length results in
      let (c4, hit) = look w c3 in
      let state = spec_state before.success t total hit in
      let duration = w.elapsed c4.tick in
      let failures = t.failed_count + t.errored_count in
      (
        publish w (record c4 { tick = suc c4.tick }) (codes "spec.completed")
            (insert (codes "spec") spec.file_name (
              insert (codes "name") spec.heading (
                insert (codes "state") (test_state_to_string state) (
                  insert (codes "duration") (w.show_duration duration) (
                    insert (codes "total_scenarios") (to_string total) (
                      insert (codes "passed_scenarios") (to_string t.passed_count) (
                        insert (codes "failed_scenarios") (to_string failures) (
                          insert (codes "skipped_scenarios") (to_string t.skipped_count) [])))))))),
        record {
          spec_file = spec.file_name;
          spec_name = spec.heading;
          tags = spec.tags;
          state = state;
          scenario_results = results;
          error_message =
              hook_message (codes "after_spec hook failed: ") after
                (hook_message (codes "before_spec hook failed: ") before []);
          duration = duration;
          total_scenarios = total;
          passed_scenarios = t.passed_count;
          failed_scenarios = failures;
          skipped_scenarios = t.skipped_count;
        },
      )

-- A specification as `execute` loads it: its path (as `toRelative` gives it), and what the parser
-- gave.
pub record LoadedSpec : Type 0 where
  pub path : Text
  pub specification : Option Specification
  pub errors : List Text

-- Counts of the specifications by their states: passed or skipped, and those in error or failed.
unfoldable pub is_spec_passed : TestState → Bool
is_spec_passed s = state_eq s passed || state_eq s skipped

unfoldable pub is_spec_failed : TestState → Bool
is_spec_failed s = not (is_spec_passed s) && not (state_eq s cancelled)

-- The final state of a test, from its specifications' states.
unfoldable pub final_state : Bool → Bool → List Text → List SpecResult → TestStatus → TestState
final_state hit timed_out errors specs status =
    let suite_failed = any (λ e. contains e (codes "before_suite")) errors in
    let errored = Base.count (λ (s : SpecResult). state_eq s.state test_error) specs in
    let failures = Base.count (λ (s : SpecResult). is_spec_failed s.state) specs in
    let whole = aggregate_state (failures - errored) errored 0 status.total_specs false in
    if hit
    then cancelled
    else if timed_out
    then test_error
    else if suite_failed
    then test_error
    else if state_eq whole passed && (status.passed_scenarios == 0 && status.failed_scenarios == 0)
    then skipped
    else whole
