-- ===== src/Engine/Run/Scenarios/Verdict.antt =====
-- What a scenario that has passed says of its steps.
use testhub.Base.{◌≡◌, refl, ap, true, List, [], ◌∷◌, map}
use testhub.Base.Int.{ℤ}
use testhub.Model.{StepResult}
use testhub.Spec.{Step}
use testhub.Engine.Run.{World, RunContext, ExecutionContext}
use testhub.Engine.Run.Steps.{skipped_step}
use testhub.Engine.Run.Scenarios.{Progress, run_steps}

module _ (w : World) (step_timeout : ℤ) (context : ExecutionContext) where
  -- Once a scenario stops, its steps are skipped, every one.
  run_steps-stopped :
      (c : RunContext) (ss : List Step) (p : Progress)
      → p.stop ≡ true
      → run_steps w step_timeout context c ss p ≡ (c, map skipped_step ss, p)
  unfolding run_steps
  run_steps-stopped c [] p h = refl
  run_steps-stopped c (s ∷ ss) p h = rw h (
      ap (λ (o : RunContext × List StepResult × Progress). (o.0, skipped_step s ∷ o.1, o.2))
        (run_steps-stopped c ss (record p { stop = true }) refl))
