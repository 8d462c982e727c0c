-- ===== src/Engine/Run/Steps/Stops.antt =====
-- A step that lets the scenario go on has not failed.
use mathlib.Core.Path.{subst}
use testhub.Base.{
  ℕ, zero, suc, ◌≡◌, refl, sym, ap, inl, inr, arith, Bool, true, false, ◌||◌, Bool-cases,
  if◌then◌else◌,
}
use testhub.Base.Int.{ℤ}
use testhub.Model.{passed, StepResult, state_eq}
use testhub.Spec.{Step, Steps, step}
use testhub.Engine.Run.{World, RunContext, StepExecutionRequest, ExecutionContext, is_over, look}
use testhub.Engine.Run.Steps.{
  Attempt, Outcome, stopped, retry_loop, ends_scenario, execute_step, execute_inner, Concluded,
  conclude, finish_step, result_state,
}
use testhub.Engine.Run.Steps.Retries.{round_over, round_again, round_last, judged}

-- The result does not stop a scenario.
abbrev pub IsFine : StepResult → Type 0
IsFine r = ends_scenario (result_state r) ≡ false

module _ (w : World) (step_timeout : ℤ) where
  abbrev Fine : Outcome Attempt → Type 0
  Fine o = o.2 ≡ false → ends_scenario o.1.state ≡ false

  stopped-Fine : (m : ℕ) (c : RunContext) (a : Attempt) → Fine (stopped w step_timeout m c a)
  unfolding stopped
  stopped-Fine m c a h = absurd (ground arith)

  retry_loop-Fine :
      (m fuel : ℕ) (req : StepExecutionRequest) (c : RunContext) (a : Attempt)
      → Fine (retry_loop w step_timeout m fuel req c a)
  retry_loop-Fine m zero req c a = unfold retry_loop in λ h. cc
  retry_loop-Fine m (suc fuel) req c a = elim (Bool-cases (is_over w c).1) [
    | inl over ↦
        subst Fine (sym (round_over w step_timeout m req fuel c a over))
          (stopped-Fine m (is_over w c).0 a)
    | inr going ↦ elim (Bool-cases (judged w step_timeout m req c a).1) [
      | inl again ↦
          subst Fine (sym (round_again w step_timeout m req fuel c a going again))
            (retry_loop-Fine m fuel req _ _)
      | inr last ↦ subst Fine (sym (round_last w step_timeout m req fuel c a going last)) (λ h. h)
    ]
  ]

  conclude-passed :
      (skips inner_stop : Bool) (s : Step) (ir : StepResult) (r : Concluded) (stop : Bool)
      → r.state ≡ passed
      → (if skips then stop else inner_stop) ≡ false
      → (conclude w step_timeout skips inner_stop s ir r).state ≡ passed
  unfolding conclude
  conclude-passed true inner_stop s ir r stop p h = p
  conclude-passed false false s ir r stop p h = p
  conclude-passed false true s ir r stop p h = cc

  execute_inner-passed :
      (c : RunContext) (ss : Steps) (context : ExecutionContext) (stop : Bool)
      → (execute_inner w step_timeout c ss context stop).2 ≡ false
      → ((execute_inner w step_timeout c ss context stop).1.state ≡ passed) × (stop ≡ false)
  unfolding execute_inner
  execute_inner-passed c Steps.nil context stop h = (refl, h)
  execute_inner-passed c (Steps.cons s ss) context stop h =
      let (c1, hit) : RunContext × Bool = if stop then (c, false) else look w c in
      let skips = stop || hit in
      let (c2, ir, inner_stop) = execute_step w step_timeout c1 s context in
      let next = if skips then c1 else c2 in
      let next_stop = if skips then stop else inner_stop in
      let (p, q) = execute_inner-passed next ss context next_stop h in
      let r = (execute_inner w step_timeout next ss context next_stop).1 in
      (conclude-passed skips inner_stop s ir r stop p q, ground arith)

  pub execute_step-IsFine :
      (c : RunContext) (s : Step) (context : ExecutionContext)
      → (execute_step w step_timeout c s context).2 ≡ false
      → IsFine (execute_step w step_timeout c s context).1
  unfolding execute_step finish_step state_eq
  execute_step-IsFine c (step text parameterized args line true inner) context h =
      ap ends_scenario (execute_inner-passed _ inner context false h).0
  execute_step-IsFine c (step text parameterized args line false inner) context h =
      retry_loop-Fine _ _ _ _ _ h
