-- ===== src/Engine/Run/Steps/Retries.antt =====
-- The attempts of a step: at least one, at most one more than the retries allowed, and all of them if
-- it keeps failing.
use mathlib.Core.Path.{subst}
use testhub.Base.{
  ℕ, zero, suc, ◌+◌, ◌≤◌, ◌<◌, ◌≡◌, ◌≢◌, refl, sym, ◌∙◌, ◌⊎◌, inl, inr, arith, Bool, true, false,
  Bool-cases,
}
use testhub.Base.Int.{ℤ}
use testhub.Model.{failed, state_eq}
use testhub.Model.Names.{state_eq_iff}
use testhub.Engine.Run.{
  World, RunContext, StepExecutionRequest, is_over, look, check_timeout, publish,
}
use testhub.Engine.Run.Steps.{
  Attempt, no_attempt, Outcome, stopped, attempt, can_retry, publish_retry, retry_loop,
  ends_scenario,
}

module _ (w : World) (step_timeout : ℤ) (max_retries : ℕ) (req : StepExecutionRequest) where
  abbrev pub loop : ℕ → RunContext → Attempt → Outcome Attempt
  loop fuel = retry_loop w step_timeout max_retries fuel req

  -- The three ends of a round.
  pub round_over :
      (fuel : ℕ) (c : RunContext) (a : Attempt)
      → (is_over w c).1 ≡ true
      → loop (suc fuel) c a ≡ stopped w step_timeout max_retries (is_over w c).0 a
  unfolding retry_loop
  round_over fuel c a o = rw (o, retry_loop) refl

  abbrev pub tried : RunContext → Attempt → RunContext × Attempt
  tried c a = attempt w step_timeout max_retries req (is_over w c).0 a

  abbrev pub judged : RunContext → Attempt → RunContext × Bool
  judged c a = can_retry w step_timeout max_retries (tried c a).0 (tried c a).1

  pub round_last :
      (fuel : ℕ) (c : RunContext) (a : Attempt)
      → (is_over w c).1 ≡ false
      → (judged c a).1 ≡ false
      → loop (suc fuel) c a ≡ ((judged c a).0, (tried c a).1, ends_scenario (tried c a).1.state)
  unfolding retry_loop
  round_last fuel c a o j = rw (o, retry_loop, j) refl

  pub round_again :
      (fuel : ℕ) (c : RunContext) (a : Attempt)
      → (is_over w c).1 ≡ false
      → (judged c a).1 ≡ true
      → loop (suc fuel) c a
        ≡ loop fuel
            (publish_retry w step_timeout max_retries (judged c a).0 req (tried c a).1)
            (tried c a).1
  unfolding retry_loop
  round_again fuel c a o j = rw (o, retry_loop, j) refl

  -- Only a failed attempt within the limit is followed by another.
  judged-again :
      (c : RunContext) (a : Attempt)
      → (judged c a).1 ≡ true
      → ((tried c a).1.attempts ≡ suc a.attempts) × (suc a.attempts ≤ max_retries)
  unfolding can_retry attempt look
  judged-again c a j = (refl, ground arith)

  stopped-attempts :
      (c : RunContext) (a : Attempt)
      → a.attempts ≤ max_retries
      → (1 ≤ (stopped w step_timeout max_retries c a).1.attempts)
        × ((stopped w step_timeout max_retries c a).1.attempts ≤ suc max_retries)
  unfolding stopped look
  stopped-attempts c a h = ground arith

  abbrev Bounded : Outcome Attempt → Type 0
  Bounded o = (1 ≤ o.1.attempts) × (o.1.attempts ≤ suc max_retries)

  loop-Bounded :
      (fuel : ℕ) (c : RunContext) (a : Attempt)
      → a.attempts ≤ max_retries
      → max_retries < a.attempts + fuel
      → Bounded (loop fuel c a)
  loop-Bounded zero c a h f = absurd (omega arith)
  loop-Bounded (suc fuel) c a h f = elim (Bool-cases (is_over w c).1) [
    | inl over ↦
        subst Bounded (sym (round_over fuel c a over)) (stopped-attempts (is_over w c).0 a h)
    | inr going ↦ elim (Bool-cases (judged c a).1) [
      | inl again ↦
          let (count, room) = judged-again c a again in
          subst Bounded (sym (round_again fuel c a going again))
            (loop-Bounded fuel _ (tried c a).1 (omega arith) (omega arith))
      | inr last ↦
          subst Bounded (sym (round_last fuel c a going last))
            (unfold attempt in (omega arith, omega arith))
    ]
  ]

  -- Fuel that is enough gives the same result as any other that is.
  loop-fuel :
      (f g : ℕ) (c : RunContext) (a : Attempt)
      → a.attempts ≤ max_retries
      → max_retries < a.attempts + f
      → max_retries < a.attempts + g
      → loop f c a ≡ loop g c a
  loop-fuel zero g c a h p q = absurd (omega arith)
  loop-fuel (suc f) zero c a h p q = absurd (omega arith)
  loop-fuel (suc f) (suc g) c a h p q = elim (Bool-cases (is_over w c).1) [
    | inl over ↦ round_over f c a over ∙ sym (round_over g c a over)
    | inr going ↦ elim (Bool-cases (judged c a).1) [
      | inl again ↦
          let (count, room) = judged-again c a again in
          round_again f c a going again
          ∙ loop-fuel f g _ (tried c a).1 (omega arith) (omega arith) (omega arith)
          ∙ sym (round_again g c a going again)
      | inr last ↦ round_last f c a going last ∙ sym (round_last g c a going last)
    ]
  ]

  -- The attempts of a step are at least one and at most one more than its retries, and the loop ends
  -- by itself: fuel beyond two more than the retries changes nothing.
  pub retry_loop-Bounded :
      (c : RunContext) (more : ℕ)
      → Bounded (retry_loop w step_timeout max_retries (max_retries + 2) req c no_attempt)
        × (retry_loop w step_timeout max_retries (max_retries + 2 + more) req c no_attempt
            ≡ retry_loop w step_timeout max_retries (max_retries + 2) req c no_attempt)
  retry_loop-Bounded c more = (
    loop-Bounded (max_retries + 2) c no_attempt (omega arith) (omega arith),
    loop-fuel (max_retries + 2 + more) (max_retries + 2) c no_attempt (omega arith) (omega arith)
        (omega arith),
  )

  -- What ends the loop when nothing interrupts it.
  abbrev Persists : Outcome Attempt → Type 0
  Persists o = (o.1.state ≢ failed) ⊎ (o.1.attempts ≡ suc max_retries)

  module _ (calm : (n : ℕ) → w.cancelled n ≡ false) (early : (n : ℕ) → w.late n ≡ false) where
    going-on : (c : RunContext) → c.timed_out ≡ false → (is_over w c).1 ≡ false
    unfolding is_over look check_timeout
    going-on c t = ground (arith, calm c.tick, early (suc c.tick))

    tried-timed_out :
        (c : RunContext) (a : Attempt) → c.timed_out ≡ false → (tried c a).0.timed_out ≡ false
    unfolding is_over look check_timeout attempt
    tried-timed_out c a t = rw (calm c.tick, t, early (suc c.tick)) refl

    -- A calm attempt that is not followed by another has not failed, or was the last one allowed.
    can_retry-last :
        (c : RunContext) (a : Attempt)
        → c.timed_out ≡ false
        → (can_retry w step_timeout max_retries c a).1 ≡ false
        → (a.state ≢ failed) ⊎ (max_retries < a.attempts)
    unfolding can_retry look
    can_retry-last c a t j = elim (Bool-cases (state_eq a.state failed)) [
      | inr e ↦ inl (λ same. let back = (state_eq_iff a.state failed).1 same in cc)
      | inl e ↦ inr (ground (arith, calm c.tick))
    ]

    judged-last :
        (c : RunContext) (a : Attempt)
        → c.timed_out ≡ false
        → (judged c a).1 ≡ false
        → ((tried c a).1.state ≢ failed) ⊎ (max_retries < (tried c a).1.attempts)
    judged-last c a t j = can_retry-last (tried c a).0 (tried c a).1 (tried-timed_out c a t) j

    published-timed_out :
        (c : RunContext) (a : Attempt)
        → c.timed_out ≡ false
        → (publish_retry w step_timeout max_retries (judged c a).0 req (tried c a).1).timed_out
          ≡ false
    unfolding publish_retry publish can_retry look
    published-timed_out c a t = tried-timed_out c a t

    loop-Persists :
        (fuel : ℕ) (c : RunContext) (a : Attempt)
        → c.timed_out ≡ false
        → a.attempts ≤ max_retries
        → max_retries < a.attempts + fuel
        → Persists (loop fuel c a)
    loop-Persists zero c a t h f = absurd (omega arith)
    loop-Persists (suc fuel) c a t h f = elim (Bool-cases (judged c a).1) [
      | inl again ↦
          let (count, room) = judged-again c a again in
          subst Persists (sym (round_again fuel c a (going-on c t) again)) (
            loop-Persists fuel _ (tried c a).1 (published-timed_out c a t) (omega arith)
              (omega arith))
      | inr last ↦
          let bound : (tried c a).1.attempts ≤ suc max_retries = unfold attempt in omega arith in
          subst Persists (sym (round_last fuel c a (going-on c t) last))
            (elim (judged-last c a t last) [ inl ok ↦ inl ok | inr all ↦ inr (omega arith) ])
    ]

    -- A step that is not interrupted ends in a state other than failed, or has been attempted once
    -- and as often again as it may be retried.
    retry_loop-Persists :
        (c : RunContext)
        → c.timed_out ≡ false
        → Persists (retry_loop w step_timeout max_retries (max_retries + 2) req c no_attempt)
    retry_loop-Persists c t =
        loop-Persists (max_retries + 2) c no_attempt t (omega arith) (omega arith)
