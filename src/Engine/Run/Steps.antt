-- ===== src/Engine/Run/Steps.antt =====
-- src/engine/execution_engine.cpp, executeStep: a step with its attempts, and a concept with the
-- steps in it.
--
-- The loop of the attempts runs on fuel, `max_retries` and two more: a round that goes on has made
-- an attempt, and at most `max_retries` attempts are followed by another.

pub mod Retries
pub mod Stops
use testhub.Base.{
  ℕ, zero, suc, ◌+◌, Bool, true, false, not, ◌&&◌, ◌||◌, List, [], ◌∷◌, ◌++◌, Option, none, some,
  is_empty, ltb, leb, ◌==◌, if◌then◌else◌, Text, codes, Map, insert, to_string,
}
use testhub.Base.Int.{ℤ, pos, int_lt}
use testhub.Model.{
  TestState, passed, failed, skipped, cancelled, test_error, StepResult, StepResults, step_result,
  nil, cons, state_eq, test_state_to_string,
}
use testhub.Spec
use testhub.Spec.{Step, Steps, step, text_of, parameterized_of}
use testhub.Engine.Run.{
  World, RunContext, ExecutionContext, StepExecutionRequest, StepReply, effective_step_retry,
  resolve_args, look, is_over, publish,
}

pub record Attempt : Type 0 where
  pub attempts : ℕ
  pub state : TestState
  pub error_message : Text
  pub stack_trace : Text
  pub messages : List Text
  pub total_duration : ℕ

abbrev pub no_attempt : Attempt
no_attempt = record {
  attempts = 0;
  state = passed;
  error_message = [];
  stack_trace = [];
  messages = [];
  total_duration = 0;
}

abbrev pub ends_scenario : TestState → Bool
ends_scenario s = state_eq s failed || (state_eq s test_error || state_eq s cancelled)

-- What a function leaves: the context, the result, and whether the scenario stops.
abbrev pub Outcome : Type 0 → Type 0
Outcome A = RunContext × A × Bool

module _ (w : World) (step_timeout : ℤ) (max_retries : ℕ) where
  -- A run that is over before the first attempt is a result of its own.
  unfoldable pub stopped : RunContext → Attempt → Outcome Attempt
  stopped c a =
      if a.attempts == 0
      then (let (c1, hit) = look w c in
          let (c2, again) = look w c1 in
          (
            c2,
            record a {
              attempts = 1;
              state = if hit then cancelled else test_error;
              error_message = if again then codes "Cancelled" else codes "Test timed out";
            },
            true,
          ))
      else (c, a, true)

  -- One attempt: the request's timeout is the step's, or what is left of the test's.
  unfoldable pub attempt : StepExecutionRequest → RunContext → Attempt → RunContext × Attempt
  attempt req c a =
      let left = w.remaining_ms c.tick in
      let timeout =
        if int_lt (pos 0) left && int_lt left step_timeout then left else step_timeout in
      let reply = w.execute_step (c.tick + 1) (record req { timeout_ms = timeout }) in
      let d = if reply.duration == 0 then w.elapsed (c.tick + 2) else reply.duration in
      (
        record c { tick = c.tick + 3 },
        record {
          attempts = suc a.attempts;
          state = reply.state;
          error_message = reply.error_message;
          stack_trace = reply.stack_trace;
          messages = reply.messages;
          total_duration = a.total_duration + d;
        },
      )

  unfoldable pub can_retry : RunContext → Attempt → RunContext × Bool
  can_retry c a =
      let (c', hit) = look w c in
      (c', state_eq a.state failed && (leb a.attempts max_retries && (not hit && not c'.timed_out)))

  unfoldable pub publish_retry : RunContext → StepExecutionRequest → Attempt → RunContext
  publish_retry c req a = publish w c (codes "step.retry") (
      insert (codes "spec") req.context.spec_file (
        insert (codes "scenario") req.context.scenario_name (
          insert (codes "step") req.step_text (
            insert (codes "attempt") (to_string a.attempts) (
              insert (codes "max_retries") (to_string max_retries)
                (insert (codes "error") a.error_message []))))))

  unfoldable pub retry_loop : ℕ → StepExecutionRequest → RunContext → Attempt → Outcome Attempt
  retry_loop zero req c a = (c, a, true)
  retry_loop (suc fuel) req c a =
      let (c1, over) = is_over w c in
      elim over [
        | true ↦ stopped c1 a
        | false ↦
            let (c2, a') = attempt req c1 a in
            let (c3, again) = can_retry c2 a' in
            elim again [
              | true ↦ retry_loop fuel req (publish_retry c3 req a') a'
              | false ↦ (c3, a', ends_scenario a'.state)
            ]
      ]

abbrev pub result_state : StepResult → TestState
result_state (step_result t p s e tr d n ms cs k) = s

abbrev pub result_error : StepResult → Text
result_error (step_result t p s e tr d n ms cs k) = e

abbrev pub result_trace : StepResult → Text
result_trace (step_result t p s e tr d n ms cs k) = tr

abbrev pub result_attempts : StepResult → ℕ
result_attempts (step_result t p s e tr d n ms cs k) = n

-- A step that is not executed.
abbrev pub skipped_step : Step → StepResult
skipped_step s = step_result (text_of s) (parameterized_of s) skipped [] [] 0 1 [] nil false

-- What a concept takes from the last of its steps that stops it.
pub record Concluded : Type 0 where
  pub state : TestState
  pub error_message : Text
  pub stack_trace : Text
  pub results : StepResults

module _ (w : World) (step_timeout : ℤ) where
  unfoldable pub publish_started : RunContext → Step → ExecutionContext → ℕ → RunContext
  publish_started c s context max_retries =
      let base = insert (codes "spec") context.spec_file (
        insert (codes "scenario") context.scenario_name (
          insert (codes "step") (text_of s) (
            insert (codes "parameterized_text") (parameterized_of s) (
              insert (codes "is_concept")
                (if Spec.is_concept_of s then codes "true" else codes "false") [])))) in
      publish w c (codes "step.started") (
        if ltb 0 max_retries
        then insert (codes "max_retries") (to_string max_retries) base
        else base)

  unfoldable pub publish_completed :
      RunContext → Step → ExecutionContext → TestState → ℕ → ℕ → Text → RunContext
  publish_completed c s context state duration attempts error =
      let base = insert (codes "spec") context.spec_file (
        insert (codes "scenario") context.scenario_name (
          insert (codes "step") (text_of s) (
            insert (codes "state") (test_state_to_string state) (
              insert (codes "duration") (w.show_duration duration)
                (insert (codes "attempts") (to_string attempts) []))))) in
      publish w c (codes "step.completed")
        (if is_empty error then base else insert (codes "error") error base)

  -- The end of `executeStep`: a duration of 0 is measured, and the event.
  unfoldable pub finish_step :
      RunContext
      → Step
      → ExecutionContext
      → Attempt
      → StepResults
      → Bool
      → Bool
      → Outcome StepResult
  finish_step c s context a inner is_concept stop =
      let duration = if a.total_duration == 0 then w.elapsed c.tick else a.total_duration in
      (
        publish_completed (record c { tick = suc c.tick }) s context a.state duration a.attempts
            a.error_message,
        step_result (text_of s) (parameterized_of s) a.state a.error_message a.stack_trace duration
            a.attempts a.messages inner is_concept,
        stop,
      )

  abbrev pub request_of : Step → ExecutionContext → StepExecutionRequest
  request_of (step text parameterized args line is_concept inner) context = record {
    step_text = text;
    parameterized_text = parameterized;
    args = resolve_args w args context.data_row (w.spec_dir context.spec_file);
    context = context;
    timeout_ms = pos 60000;
  }

  -- The results behind a step of a concept, with its own.
  unfoldable pub conclude : Bool → Bool → Step → StepResult → Concluded → Concluded
  conclude true inner_stop s ir r = record r { results = cons (skipped_step s) r.results }
  conclude false false s ir r = record r { results = cons ir r.results }
  conclude false true s ir r = record {
    state = result_state ir;
    error_message = result_error ir;
    stack_trace = result_trace ir;
    results = cons ir r.results;
  }

  unfoldable mutual
    pub execute_step : RunContext → Step → ExecutionContext → Outcome StepResult
    execute_step c (step text parameterized args line is_concept inner) context =
        let s = step text parameterized args line is_concept inner in
        let max_retries = effective_step_retry c.request context.tags in
        let c1 =
          publish_started (record c { status = record (c.status) { current_step = text } }) s
            context max_retries in
        let concept = execute_inner c1 inner context false in
        elim is_concept [
          | true ↦
              let (c2, r, stop) = concept in
              finish_step c2 s context
                (record no_attempt {
                  attempts = 1;
                  state = r.state;
                  error_message = r.error_message;
                  stack_trace = r.stack_trace;
                })
                r.results true stop
          | false ↦
              let (c2, a, stop) =
                retry_loop w step_timeout max_retries (max_retries + 2) (request_of s context) c1
                  no_attempt in
              finish_step c2 s context a nil false stop
        ]

    -- The steps of a concept: `stop` says whether an earlier one stopped it.
    pub execute_inner : RunContext → Steps → ExecutionContext → Bool → Outcome Concluded
    execute_inner c Steps.nil context stop =
        (c, record { state = passed; error_message = []; stack_trace = []; results = nil }, stop)
    execute_inner c (Steps.cons s ss) context stop =
        let (c1, hit) : RunContext × Bool = if stop then (c, false) else look w c in
        let skips = stop || hit in
        let (c2, ir, inner_stop) = execute_step c1 s context in
        let (c3, r, stop') =
          execute_inner (if skips then c1 else c2) ss context
            (if skips then stop else inner_stop) in
        (c3, conclude skips inner_stop s ir r, stop')
