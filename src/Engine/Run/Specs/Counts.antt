-- ===== src/Engine/Run/Specs/Counts.antt =====
-- The counts of a specification, and what it means that a specification or a test has passed.
use testhub.Base
use testhub.Base.{
  ℕ, zero, suc, ◌+◌, ◌-◌, ◌<◌, ◌≤◌, ◌≡◌, ◌≢◌, refl, sym, ap, ◌∙◌, ◌↔◌, ◌⊎◌, inl, inr, arith, Bool,
  false, not, ◌&&◌, ◌||◌, List, [], ◌∷◌, length, Bool-cases, if◌then◌else◌, All, Text, codes, Map,
  any, ◌==◌, ltb,
}
use testhub.Base.Int.{ℤ}
use testhub.StringUtil.{contains}
use testhub.Model.{
  TestState, passed, failed, skipped, cancelled, test_error, ScenarioResult, SpecResult, TestStatus,
  state_eq,
}
use testhub.Model.Names.{state_eq_iff}
use testhub.Spec.{Specification}
use testhub.Engine.Run.{World, RunContext}
use testhub.Engine.Run.Bounds.{aggregate_state-passed}
use testhub.Engine.Run.Specs.{
  Tally, no_tally, tally, tally_all, execute_spec, is_spec_passed, is_spec_failed, final_state,
}

abbrev size : Tally → ℕ
size t = t.passed_count + t.failed_count + t.errored_count + t.skipped_count

tally-size : (t : Tally) (s : TestState) → size (tally t s) ≡ suc (size t)
unfolding tally
tally-size t passed = omega arith
tally-size t failed = omega arith
tally-size t test_error = omega arith
tally-size t _ = omega arith

-- Neither failed nor in error.
abbrev pub IsUnbroken : ScenarioResult → Type 0
IsUnbroken sr = (sr.state ≢ failed) × (sr.state ≢ test_error)

module _ (w : World) (step_timeout : ℤ) (environment : Map Text) where
  tally_all-size :
      (t : Tally) (srs : List ScenarioResult)
      → size (tally_all w step_timeout environment t srs) ≡ size t + length srs
  unfolding tally_all
  tally_all-size t [] = omega arith
  tally_all-size t (sr ∷ srs) =
      omega (arith, tally_all-size (tally t sr.state) srs, tally-size t sr.state)

  -- The scenarios of a specification that passed, failed or were in error, and were skipped add up
  -- to all of its results.
  pub execute_spec-total :
      (c : RunContext) (spec : Specification)
      → let r = (execute_spec w step_timeout environment c spec).1 in
        (r.passed_scenarios + r.failed_scenarios + r.skipped_scenarios ≡ r.total_scenarios)
        × (r.total_scenarios ≡ length r.scenario_results)
  unfolding execute_spec
  execute_spec-total c spec =
      let srs = (execute_spec w step_timeout environment c spec).1.scenario_results in
      (omega (arith, tally_all-size no_tally srs), refl)

errored-le :
    (s : TestState) → (if state_eq s test_error then 1 else 0) ≤ (if is_spec_failed s then 1 else 0)
unfolding is_spec_failed is_spec_passed state_eq
errored-le test_error = omega arith
errored-le failed = omega arith
errored-le _ = omega arith

count-errored-le :
    (specs : List SpecResult)
    → Base.count (λ (s : SpecResult). state_eq s.state test_error) specs
      ≤ Base.count (λ (s : SpecResult). is_spec_failed s.state) specs
count-errored-le [] = omega arith
count-errored-le (s ∷ specs) = omega (arith, errored-le s.state, count-errored-le specs)

count-failed-none :
    (specs : List SpecResult)
    → Base.count (λ (s : SpecResult). is_spec_failed s.state) specs ≡ 0
    → All (λ s. is_spec_failed s.state ≡ false) specs
count-failed-none [] h = tt
count-failed-none (s ∷ specs) h = elim (Bool-cases (is_spec_failed s.state)) [
  | inl e ↦ absurd (let h' = rw e at h in omega arith)
  | inr e ↦ (e, count-failed-none specs (let h' = rw e at h in omega arith))
]

-- A whole that has passed with nothing executed counts as skipped.
executed :
    (whole : TestState) (p f : ℕ)
    → (if state_eq whole passed && (p == 0 && f == 0) then skipped else whole) ≡ passed
    → (whole ≡ passed) × (0 < p + f)
executed whole p f h = elim (Bool-cases (state_eq whole passed && (p == 0 && f == 0))) [
  | inl e ↦ let h' : skipped ≡ passed = rw e at h in cc
  | inr e ↦
      let same : whole ≡ passed = rw e at h in
      let eq = (state_eq_iff whole passed).1 same in (same, ground arith)
]

-- A test passes only if it was neither cancelled nor timed out, no error names the hook before the
-- suite, no specification failed or was in error, and some scenario was executed.
final_state-passed :
    (hit timed_out : Bool) (errors : List Text) (specs : List SpecResult) (status : TestStatus)
    → final_state hit timed_out errors specs status ≡ passed
    → (hit ≡ false)
      × (timed_out ≡ false)
      × (any (λ e. contains e (codes "before_suite")) errors ≡ false)
      × All (λ s. is_spec_failed s.state ≡ false) specs
      × (0 < status.passed_scenarios + status.failed_scenarios)
unfolding final_state
final_state-passed hit timed_out errors specs status h = elim (Bool-cases hit) [
  | inl e ↦ let h' : cancelled ≡ passed = rw e at h in cc
  | inr calm ↦ elim (Bool-cases timed_out) [
    | inl e ↦ let h' : test_error ≡ passed = rw (calm, e) at h in cc
    | inr early ↦ elim (Bool-cases (any (λ e. contains e (codes "before_suite")) errors)) [
      | inl e ↦ let h' : test_error ≡ passed = rw (calm, early, e) at h in cc
      | inr begun ↦
          let h' = rw (calm, early, begun) at h in
          let (whole, some_run) = executed _ status.passed_scenarios status.failed_scenarios h' in
          let (_, none_failed, none_errored, _) = (aggregate_state-passed _ _ _ _ _).0 whole in
          (
            calm,
            early,
            begun,
            count-failed-none specs
                (omega (arith, none_failed, none_errored, count-errored-le specs)),
            some_run,
          )
    ]
  ]
]
