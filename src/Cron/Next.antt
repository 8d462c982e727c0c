-- ===== src/Cron/Next.antt =====
-- When a schedule is due next.
use testhub.Base.{
  ℕ, zero, suc, ◌+◌, ◌*◌, ◌/◌, ◌<◌, ◌≤◌, ◌≡◌, ◌⊎◌, refl, sym, ◌∙◌, arith, inl, inr, Bool-cases,
  true, false, Option,
}
use testhub.Cron.{CronExpr, Tm, matches, search_minutes, next_after, minute_ticks, max_minutes}

module _ (utc : ℕ → Option Tm) (c : CronExpr) where
  -- The minute that begins `k` minutes behind the cursor.
  abbrev pub minute_at : ℕ → ℕ → ℕ
  minute_at cursor k = cursor + k * minute_ticks

  -- The first of `n` minutes that matches, or none does and the result is the zero time point.
  abbrev pub IsFirst : ℕ → ℕ → ℕ → Type 0
  IsFirst n cursor r =
      ((k : ℕ) × (k < n)
        × (r ≡ minute_at cursor k)
        × (matches utc c r ≡ true)
        × ((j : ℕ) → j < k → matches utc c (minute_at cursor j) ≡ false))
      ⊎ ((r ≡ 0) × ((j : ℕ) → j < n → matches utc c (minute_at cursor j) ≡ false))

  here : (cursor : ℕ) → minute_at cursor 0 ≡ cursor
  here cursor = omega arith

  there : (cursor j : ℕ) → minute_at cursor (suc j) ≡ minute_at (cursor + minute_ticks) j
  there cursor j = omega arith

  below :
      (n cursor : ℕ)
      → matches utc c cursor ≡ false
      → ((j : ℕ) → j < n → matches utc c (minute_at (cursor + minute_ticks) j) ≡ false)
      → (j : ℕ) → j < suc n
      → matches utc c (minute_at cursor j) ≡ false
  below n cursor miss rest zero h = rw (here cursor) miss
  below n cursor miss rest (suc j) h = rw (there cursor j) (rest j (omega arith))

  later :
      (n cursor r : ℕ)
      → matches utc c cursor ≡ false
      → IsFirst n (cursor + minute_ticks) r
      → IsFirst (suc n) cursor r
  later n cursor r miss (inl (k, h, e, hit, first)) =
      inl (suc k, omega arith, e ∙ sym (there cursor k), hit, below k cursor miss first)
  later n cursor r miss (inr (z, none_hits)) = inr (z, below n cursor miss none_hits)

  search_minutes-IsFirst : (n cursor : ℕ) → IsFirst n cursor (search_minutes utc n c cursor)
  unfolding search_minutes
  search_minutes-IsFirst zero cursor = inr (refl, λ j h. absurd (omega arith))
  search_minutes-IsFirst (suc n) cursor = elim (Bool-cases (matches utc c cursor)) [
    | inl hit ↦ rw hit (inl (0, omega arith, sym (here cursor), hit, λ j h. absurd (omega arith)))
    | inr miss ↦ rw miss (later n cursor _ miss (search_minutes-IsFirst n (cursor + minute_ticks)))
  ]

  -- The whole minute that begins next.
  abbrev pub next_minute : ℕ → ℕ
  next_minute tp = tp / minute_ticks * minute_ticks + minute_ticks

  -- `nextAfter` gives the first whole minute behind the time point that matches, among the 366 days
  -- from the next one on, and the zero time point if none of them matches. The first minute that it
  -- tries begins behind the time point, by a minute at most.
  pub next_after-IsFirst :
      (tp : ℕ)
      → IsFirst max_minutes (next_minute tp) (next_after utc c tp)
        × (tp < next_minute tp)
        × (next_minute tp ≤ tp + minute_ticks)
  unfolding next_after
  next_after-IsFirst tp =
      (search_minutes-IsFirst max_minutes (next_minute tp), omega arith, omega arith)
