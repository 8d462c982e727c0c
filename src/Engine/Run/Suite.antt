-- ===== src/Engine/Run/Suite.antt =====
-- src/engine/execution_engine.cpp, executeSequential, and execute for a test that runs on one
-- stream: the specifications are loaded, run one after the other, and the result is put together.
--
-- The slots of the runner are not part of the model. A run starts from the record and from what
-- `SpecRepository::load` gives for each of its paths.

pub mod Results
use testhub.Base
use testhub.Base.{
  ℕ, suc, ◌+◌, ◌-◌, ◌*◌, Bool, true, false, not, ◌&&◌, ◌||◌, List, [], ◌∷◌, ◌++◌, Option, none,
  some, is_empty, is_none, length, if◌then◌else◌, ◌==◌, Text, codes, Map, insert, to_string,
}
use testhub.Base.Int.{ℤ}
use testhub.StringUtil.{join}
use testhub.Model.{
  TestState, running, passed, skipped, cancelled, test_error, SpecResult, TestStatus, TestResult,
  TestRequest, state_eq, empty_spec_result, empty_result,
}
use testhub.TagFilter
use testhub.Spec.{Scenario, Specification}
use testhub.Engine.{TestRecord}
use testhub.Engine.Run.{
  World, RunContext, ExecutionContext, HookResult, before_suite, after_suite, scenario_selected,
  look, publish, run_hook, update_status,
}
use testhub.Engine.Run.Specs.{
  LoadedSpec, must_stop, execute_spec, row_count, is_spec_passed, is_spec_failed, final_state,
}

module _ (w : World) (step_timeout : ℤ) (environment : Map Text) where
  abbrev pub suite_context : RunContext → ExecutionContext
  suite_context c = record {
    test_id = c.test_id;
    spec_file = [];
    spec_name = [];
    scenario_name = [];
    tags = [];
    data_row = [];
    environment = insert (codes "TESTHUB_ENVIRONMENT") c.request.environment environment;
  }

  -- `l.specification ? l.specification->heading : sr.specFile`.
  unfoldable pub heading_of : LoadedSpec → Text
  heading_of l = elim l.specification [ none ↦ l.path | some s ↦ s.heading ]

  -- A hook before or after the suite that fails is an error of the test.
  unfoldable pub note_hook : RunContext → Text → HookResult → RunContext
  note_hook c what h =
      if h.success then c else record c { errors = c.errors ++ ((what ++ h.error_message) ∷ []) }

  -- A specification that is not run.
  unfoldable pub skip_spec : RunContext → LoadedSpec → Bool → RunContext × SpecResult
  skip_spec c l hook_failed =
      let (c1, hit) = look w c in
      (
        c1,
        record empty_spec_result {
          spec_file = l.path;
          spec_name = heading_of l;
          state = if hit then cancelled else skipped;
          error_message =
              if hook_failed
              then codes "Skipped because before_suite hook failed"
              else if c1.timed_out
              then codes "Skipped because the test timed out"
              else if c1.fail_fast_triggered
              then codes "Skipped due to fail_fast"
              else codes "Skipped because the test was cancelled";
        },
      )

  -- A specification that could not be loaded.
  unfoldable pub fail_spec : RunContext → LoadedSpec → RunContext × SpecResult
  fail_spec c l =
      let message =
        if is_empty l.errors then codes "Failed to load spec" else join l.errors (codes "\n") in
      (
        publish w (record c { errors = c.errors ++ (message ∷ []) }) (codes "spec.completed")
            (insert (codes "spec") l.path
              (insert (codes "state") (codes "error") (insert (codes "error") message []))),
        record empty_spec_result {
          spec_file = l.path;
          spec_name = heading_of l;
          state = test_error;
          error_message = message;
        },
      )

  unfoldable pub run_spec : RunContext → LoadedSpec → RunContext × SpecResult
  run_spec c l = elim l.specification [
    | none ↦ fail_spec c l
    | some s ↦
        if is_empty l.errors then execute_spec w step_timeout environment c s else fail_spec c l
  ]

  -- The status around a specification that is run.
  unfoldable pub enter_spec : RunContext → LoadedSpec → RunContext
  enter_spec c l = update_status w (record c {
    status = record (c.status) { current_spec = l.path; current_scenario = []; current_step = [] };
  })

  unfoldable pub leave_spec : RunContext → ℕ → ℕ → RunContext
  leave_spec c passed_specs failed_specs = update_status w (record c {
    status = record (c.status) {
      executed_specs = suc c.status.executed_specs;
      passed_specs = passed_specs;
      failed_specs = failed_specs;
    };
  })

  abbrev pub bump : Bool → ℕ → ℕ
  bump b n = if b then suc n else n

  -- The loop over the specifications, with how many have passed and how many have failed.
  unfoldable pub run_specs :
      RunContext → List LoadedSpec → Bool → ℕ → ℕ → RunContext × List SpecResult
  run_specs c [] hook_failed passed_specs failed_specs = (c, [])
  run_specs c (l ∷ ls) hook_failed passed_specs failed_specs =
      let (c1, hit) = must_stop w c in
      let stop = hit || hook_failed in
      let (c2, missed) = skip_spec c1 l hook_failed in
      let (c3, ran) = run_spec (enter_spec c1 l) l in
      let ok = if stop then passed_specs else bump (is_spec_passed ran.state) passed_specs in
      let bad = if stop then failed_specs else bump (is_spec_failed ran.state) failed_specs in
      let (c4, rest) =
        run_specs (if stop then c2 else leave_spec c3 ok bad) ls hook_failed ok bad in
      (c4, (if stop then missed else ran) ∷ rest)

  unfoldable pub execute_sequential : RunContext → List LoadedSpec → RunContext × List SpecResult
  execute_sequential c loaded =
      let context = suite_context c in
      let (c1, before) = run_hook w c before_suite context in
      let c2 = note_hook c1 (codes "before_suite hook failed: ") before in
      let (c3, results) = run_specs c2 loaded (not before.success) 0 0 in
      let (c4, after) = run_hook w c3 after_suite context in
      (note_hook c4 (codes "after_suite hook failed: ") after, results)

  -- How many scenarios are to run: those that are selected, for each row.
  unfoldable pub planned : RunContext → List LoadedSpec → ℕ
  planned c [] = 0
  planned c (l ∷ ls) =
      let rest = planned c ls in
      elim l.specification [
        | none ↦ rest
        | some s ↦
            if is_empty l.errors
            then row_count w step_timeout environment s
                * Base.count (scenario_selected c s) s.scenarios
              + rest
            else rest
      ]

  -- The context of a run, from the record; `warnings` are those of the parser.
  unfoldable pub run_context : TestRecord → List LoadedSpec → List Text → RunContext
  run_context r loaded warnings =
      let c : RunContext = record {
        test_id = r.request.id;
        request = r.request;
        tag_filter = (TagFilter.all r.request.tags).0;
        status = r.status;
        errors = [];
        timed_out = false;
        fail_fast_triggered = false;
        tick = 1;
        events = [];
        snapshots = [];
      } in
      record c {
        status = record (r.status) {
          total_scenarios = r.status.total_scenarios + planned c loaded;
          warnings = warnings;
          total_specs = length loaded;
          state = running;
          start_time = w.now 0;
        };
      }

  -- The result of a run, without its final state.
  abbrev pub result_of : RunContext → List SpecResult → List Text → ℕ → TestResult
  result_of c specs warnings end_time = record empty_result {
    test_id = c.test_id;
    spec_results = specs;
    errors = c.errors;
    warnings = warnings;
    start_time = c.status.start_time;
    end_time = end_time;
    total_duration = end_time - c.status.start_time;
    total_scenarios = c.status.total_scenarios;
    passed_scenarios = c.status.passed_scenarios;
    failed_scenarios = c.status.failed_scenarios;
    skipped_scenarios = c.status.skipped_scenarios;
  }

  -- The warning of a run in which nothing was selected.
  abbrev pub add_warning : TestState → TestStatus → List Text → List Text
  add_warning whole s warnings =
      if state_eq whole skipped && s.total_scenarios == 0
      then warnings ++ (codes "No scenarios matched the requested specs/tags/scenario filters" ∷ [])
      else warnings

  -- What a run does until its last specification is done: the context, the results, the end time.
  unfoldable pub run_loaded :
      TestRecord → List LoadedSpec → List Text → RunContext × List SpecResult × ℕ
  run_loaded r loaded warnings =
      let c = run_context r loaded warnings in
      let started = publish w (update_status w c) (codes "test.started") (
        insert (codes "total_specs") (to_string c.status.total_specs) (
          insert (codes "total_scenarios") (to_string c.status.total_scenarios)
            (insert (codes "name") c.request.name (insert (codes "streams") (codes "1") [])))) in
      let (c1, specs) = execute_sequential started loaded in
      (record c1 { tick = suc c1.tick }, specs, w.now c1.tick)

  -- The run of a test: the status and the result with which it ends.
  unfoldable pub execute : TestRecord → List LoadedSpec → List Text → TestStatus × TestResult
  execute r loaded warnings =
      let (c, specs, end_time) = run_loaded r loaded warnings in
      let (c', hit) = look w c in
      let whole = final_state hit c'.timed_out c'.errors specs c'.status in
      let warned = add_warning whole c'.status warnings in
      (
        record (c'.status) {
          state = whole;
          end_time = end_time;
          progress = record { num = 1; den = 1 };
          current_spec = [];
          current_scenario = [];
          current_step = [];
          errors = c'.errors;
          warnings = warned;
        },
        record (result_of c' specs warned end_time) { final_state = whole },
      )
