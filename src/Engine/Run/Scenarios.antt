-- ===== src/Engine/Run/Scenarios.antt =====
-- src/engine/execution_engine.cpp, executeScenario: the hooks, the context steps, the scenario's
-- own steps and the teardown steps.
pub mod Verdict
use testhub.Base.{
  ℕ, zero, suc, ◌+◌, Bool, true, false, not, ◌&&◌, ◌||◌, List, [], ◌∷◌, ◌++◌, map, Option, none,
  some, is_empty, any, if◌then◌else◌, Text, codes, Map, find, insert, to_string, length,
}
use testhub.Base.Int.{ℤ, pos, negsuc}
use testhub.StringUtil.{join}
use testhub.Model.{
  TestState, passed, failed, skipped, cancelled, test_error, StepResult, ScenarioResult, state_eq,
  test_state_to_string,
}
use testhub.Spec.{Step, Scenario, Specification, cell}
use testhub.Engine.Run.{
  World, RunContext, ExecutionContext, HookResult, before_scenario, after_scenario, effective_tags,
  look, is_over, publish, run_hook,
}
use testhub.Engine.Run.Steps.{Outcome, execute_step, skipped_step, result_state, result_error}

-- What the steps change of the scenario: its state, its message, and whether it stops.
pub record Progress : Type 0 where
  pub state : TestState
  pub error_message : Text
  pub stop : Bool

-- A step that stops the scenario gives it its message, if it has none, and its state.
unfoldable pub note_stop : Progress → StepResult → Progress
note_stop p sr = record {
  state =
      if state_eq (result_state sr) test_error
      then test_error
      else if state_eq p.state test_error
      then test_error
      else failed;
  error_message = if is_empty p.error_message then result_error sr else p.error_message;
  stop = true;
}

module _ (w : World) (step_timeout : ℤ) (context : ExecutionContext) where
  -- `runSteps`.
  unfoldable pub run_steps :
      RunContext → List Step → Progress → RunContext × List StepResult × Progress
  run_steps c [] p = (c, [], p)
  run_steps c (s ∷ ss) p =
      let (c1, over) : RunContext × Bool = if p.stop then (c, true) else is_over w c in
      let (c2, sr, stops) = execute_step w step_timeout c1 s context in
      let next = if over then c1 else c2 in
      let p' = if not over && stops then note_stop p sr else p in
      let (c3, out, p'') = run_steps next ss p' in
      (c3, (if over then skipped_step s else sr) ∷ out, p'')

-- The row of the data table, by its headers.
unfoldable pub row_of : Specification → ℕ → List Text → Map Text → Map Text
row_of spec row [] m = m
row_of spec row (h ∷ hs) m = row_of spec row hs (insert h (cell spec.data_table row h) m)

abbrev pub data_row_of : Specification → ℤ → Map Text
data_row_of spec (pos row) = row_of spec row spec.data_table.headers []
data_row_of spec (negsuc n) = []

abbrev pub any_skipped : List StepResult → Bool
any_skipped = any λ s. state_eq (result_state s) skipped

-- The state of a scenario whose steps have run: a test that is cancelled or has timed out does not
-- pass with steps that were skipped.
unfoldable pub settle :
    Bool → Bool → List Step → List StepResult → TestState → Text → TestState × Text
settle hit timed_out steps results state error =
    if hit && state_eq state passed
    then (if any_skipped results || is_empty steps then (cancelled, error) else (state, error))
    else if timed_out && state_eq state passed
    then (if any_skipped results then (test_error, codes "Test timed out") else (state, error))
    else (state, error)

unfoldable pub event_data : Option ℕ → Specification → Scenario → List Text → ℤ → Map Text
event_data stream spec sc tags row =
    let base = insert (codes "spec") spec.file_name (
      insert (codes "scenario") sc.name (
        insert (codes "tags") (join tags (codes ","))
          (insert (codes "steps") (to_string (length sc.steps)) []))) in
    let streamed : Map Text = elim stream [
      | none ↦ base
      | some n ↦ insert (codes "stream") (to_string n) base
    ] in
    elim row [ negsuc n ↦ streamed | pos n ↦ insert (codes "data_row") (to_string n) streamed ]

-- The first hook: a scenario whose hook fails has its steps skipped.
abbrev pub begin_progress : HookResult → Progress
begin_progress h =
    if h.success then record { state = passed; error_message = []; stop = false } else record {
      state = test_error;
      error_message = codes "before_scenario hook failed: " ++ h.error_message;
      stop = true;
    }

-- The teardown steps run whatever happened before.
abbrev pub teardown_state : TestState → Bool → TestState
teardown_state state stop = if stop && state_eq state passed then failed else state

abbrev pub after_hook : HookResult → TestState → Text → TestState × Text
after_hook h state error =
    if not h.success && state_eq state passed
    then (failed, codes "after_scenario hook failed: " ++ h.error_message)
    else (state, error)

module _ (w : World) (step_timeout : ℤ) (environment : Map Text) (stream : Option ℕ) where
  abbrev pub scenario_context : RunContext → Specification → Scenario → ℤ → ExecutionContext
  scenario_context c spec sc row = record {
    test_id = c.test_id;
    spec_file = spec.file_name;
    spec_name = spec.heading;
    scenario_name = sc.name;
    tags = effective_tags spec sc;
    data_row = data_row_of spec row;
    environment = environment;
  }

  unfoldable pub execute_scenario :
      RunContext → Specification → Scenario → ℤ → RunContext × ScenarioResult
  execute_scenario c spec sc row =
      let tags = effective_tags spec sc in
      let content = event_data stream spec sc tags row in
      let context = scenario_context c spec sc row in
      let c1 = publish w c (codes "scenario.started") content in
      let (c2, before) = run_hook w c1 before_scenario context in
      let (c3, contexts, p1) =
        run_steps w step_timeout context c2 spec.contexts (begin_progress before) in
      let (c4, results, p2) = run_steps w step_timeout context c3 sc.steps p1 in
      let (c5, teardowns, p3) =
        run_steps w step_timeout context c4 spec.teardowns (record p2 { stop = false }) in
      let (c6, after) = run_hook w c5 after_scenario context in
      let (state, error) = after_hook after (teardown_state p3.state p3.stop) p3.error_message in
      let (c7, hit) = look w c6 in
      let (state', error') = settle hit c7.timed_out sc.steps results state error in
      let duration = w.elapsed c7.tick in
      let closed =
        insert (codes "duration") (w.show_duration duration)
          (insert (codes "state") (test_state_to_string state') content) in
      (
        publish w (record c7 { tick = suc c7.tick }) (codes "scenario.completed")
            (if is_empty error' then closed else insert (codes "error") error' closed),
        record {
          scenario_name = sc.name;
          tags = tags;
          state = state';
          context_steps = contexts;
          step_results = results;
          teardown_steps = teardowns;
          error_message = error';
          duration = duration;
          data_row_index = row;
          data_row = data_row_of spec row;
          line_number = sc.line_number;
        },
      )
