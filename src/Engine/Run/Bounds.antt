-- ===== src/Engine/Run/Bounds.antt =====
-- The number of retries, the state of a whole, and the counts of the scenarios.
use testhub.Base.{
  ℕ, suc, ◌+◌, ◌≤◌, ◌<◌, ◌≡◌, ◌≢◌, sym, ap, ◌∙◌, ◌↔◌, ◌⊎◌, inl, inr, arith, Bool, false, List, [],
  ◌∷◌, none, some, All, All-mono, ltb, min, if◌then◌else◌, Text, Option-cases,
}
use testhub.Base.Int.{ℤ, pos, negsuc, int_max, pos_part}
use testhub.Model.{TestState, passed, failed, test_error, TestRequest, TestStatus, max_step_retry}
use testhub.Engine.Run.{
  World, RunContext, retry_of, retry_from, retry_from_tags, effective_step_retry, aggregate_state,
  count_scenario, progress_of, update_status, publish, apply_scenario_outcome,
}

-- What a number of retries that is asked for comes to.
abbrev pub allowed : ℤ → ℕ
allowed n = min 5 (pos_part n)

int_max-le :
    (a b : ℤ) → (pos_part a ≤ pos_part (int_max a b)) × (pos_part b ≤ pos_part (int_max a b))
int_max-le (pos a) (pos b) = ground arith
int_max-le (pos a) (negsuc b) = ground arith
int_max-le (negsuc a) (pos b) = ground arith
int_max-le (negsuc a) (negsuc b) = ground arith

retry_from-le : (n : ℤ) (ts : List Text) → pos_part n ≤ pos_part (retry_from n ts)
unfolding retry_from
retry_from-le n [] = omega arith
retry_from-le n (t ∷ ts) = elim (Option-cases (retry_of t)) [
  | inl e ↦ rw e (retry_from-le n ts)
  | inr (v, e) ↦ rw e (omega (arith, (int_max-le n v).0, retry_from-le (int_max n v) ts))
]

retry_from-All :
    (n : ℤ) (ts : List Text) (m : ℕ)
    → pos_part (retry_from n ts) ≤ m
    → All (λ t. (v : ℤ) → retry_of t ≡ some v → pos_part v ≤ m) ts
unfolding retry_from
retry_from-All n [] m h = tt
retry_from-All n (t ∷ ts) m h = elim (Option-cases (retry_of t)) [
  | inl e ↦
      ((λ v f. absurd (let q : none ≡ some v = sym e ∙ f in cc)), retry_from-All n ts m (rw e at h))
  | inr (u, e) ↦
      let h' : pos_part (retry_from (int_max n u) ts) ≤ m = rw e at h in
      (
        (λ v f.
            let same : some u ≡ some v = sym e ∙ f in
            let equal : u ≡ v = cc in
            omega (arith, ap pos_part equal, (int_max-le n u).1, retry_from-le (int_max n u) ts)),
        retry_from-All (int_max n u) ts m h',
      )
]

effective_step_retry-allowed :
    (request : TestRequest) (tags : List Text)
    → effective_step_retry request tags
      ≡ allowed (int_max request.step_retry (retry_from_tags tags))
unfolding effective_step_retry
effective_step_retry-allowed request tags =
    clamp (int_max request.step_retry (retry_from_tags tags))
  where
    clamp :
        (m : ℤ)
        → elim m as (λ x. ℕ) [
          | negsuc n ↦ 0
          | pos n ↦ if ltb max_step_retry n then max_step_retry else n
        ]
          ≡ allowed m
    clamp (pos n) = ground arith
    clamp (negsuc n) = omega arith

-- A step is retried at most five times, and as often as the request asks for, or any of the tags, up to
-- those five.
effective_step_retry-bounds :
    (request : TestRequest) (tags : List Text)
    → (effective_step_retry request tags ≤ 5)
      × (allowed request.step_retry ≤ effective_step_retry request tags)
      × All
          (λ t. (v : ℤ) → retry_of t ≡ some v → allowed v ≤ effective_step_retry request tags)
          tags
effective_step_retry-bounds request tags =
    let m = int_max request.step_retry (retry_from_tags tags) in
    let both = int_max-le request.step_retry (retry_from_tags tags) in
    rw (effective_step_retry-allowed request tags) (
      omega arith,
      omega (arith, both.0),
      All-mono _ _ tags (λ t h v e. omega (arith, h v e, both.1))
          (retry_from-All (pos 0) tags (pos_part (retry_from_tags tags)) (omega arith)),
    )

-- A whole has passed exactly if it is not cancelled, nothing in it failed or was in error, and it
-- does not consist of skipped parts only.
pub aggregate_state-passed :
    (failures errored skips total : ℕ) (hit : Bool)
    → (aggregate_state failures errored skips total hit ≡ passed)
      ↔ ((hit ≡ false) × (failures ≡ 0) × (errored ≡ 0) × ((total ≡ 0) ⊎ (skips ≢ total)))
unfolding aggregate_state
aggregate_state-passed failures errored skips total hit = ground arith

-- The counts of a status agree: a scenario that was executed passed or failed.
abbrev pub IsCounted : TestStatus → Type 0
IsCounted s = s.executed_scenarios ≡ s.passed_scenarios + s.failed_scenarios

abbrev pub processed : TestStatus → ℕ
processed s = s.executed_scenarios + s.skipped_scenarios

count_scenario-IsCounted :
    (w : World) (s : TestStatus) (state : TestState)
    → IsCounted s
    → IsCounted (count_scenario w s state)
      × (processed (count_scenario w s state) ≡ suc (processed s))
unfolding count_scenario
count_scenario-IsCounted w s passed h = (omega arith, omega arith)
count_scenario-IsCounted w s failed h = (omega arith, omega arith)
count_scenario-IsCounted w s test_error h = (omega arith, omega arith)
count_scenario-IsCounted w s _ h = (omega arith, omega arith)

progress_of-le :
    (w : World) (s : TestStatus)
    → 0 < s.total_scenarios
    → (progress_of w s).num ≤ (progress_of w s).den
unfolding progress_of
progress_of-le w s h = ground arith

-- An outcome adds one scenario to those that are executed or skipped, keeps the counts in agreement,
-- and leaves a progress of at most 1 where there is a total.
apply_scenario_outcome-IsCounted :
    (w : World) (c : RunContext) (state : TestState)
    → IsCounted c.status
    → let s = (apply_scenario_outcome w c state).status in
      IsCounted s
      × (processed s ≡ suc (processed c.status))
      × (0 < s.total_scenarios → s.progress.num ≤ s.progress.den)
unfolding apply_scenario_outcome update_status publish
apply_scenario_outcome-IsCounted w c state h =
    let (a, b) = count_scenario-IsCounted w c.status state h in
    (a, b, λ t. progress_of-le w (count_scenario w c.status state) t)
