-- ===== src/StringUtil/Split.antt =====
-- `split` cuts a string at the occurrences of a delimiter; `join` puts it together again, and
-- `replace` is `split` and `join` in one. The delimiter is not empty.
use mathlib.Core.List.{append-nil}
use mathlib.Core.Option
use native.Mathlib.Nat.{zero-add}
use testhub.Base.{
  ℕ, zero, suc, ◌+◌, ◌<◌, ◌≡◌, refl, sym, ap, arith, inl, inr, true, [], ◌∷◌, ◌++◌, Option, none,
  some, Bool-cases, Option-cases, ==_iff, length, length-append, take, drop, All, Text,
}
use testhub.StringUtil.{
  starts_with, find_text, split_from, split, join_rest, join, replace_from, replace,
}

starts_with_split : (s p : Text) → starts_with s p ≡ true → s ≡ p ++ drop (length p) s
unfolding starts_with
starts_with_split s [] h = refl
starts_with_split [] (p ∷ ps) h = cc
starts_with_split (c ∷ cs) (p ∷ ps) h = ground (arith, starts_with_split cs ps, ==_iff c p)

starts_with-take : (i : ℕ) (s p : Text) → starts_with (take i s) p ≡ true → starts_with s p ≡ true
unfolding starts_with
starts_with-take i s [] h = refl
starts_with-take zero s (p ∷ ps) h = cc
starts_with-take (suc i) [] (p ∷ ps) h = cc
starts_with-take (suc i) (c ∷ cs) (p ∷ ps) h = ground (arith, starts_with-take i cs ps)

map-eq-some : (o : Option ℕ) (i : ℕ) → Option.map suc o ≡ some (suc i) → o ≡ some i
map-eq-some none i h = cc
map-eq-some (some j) i h = cc

map-ne-zero : (o : Option ℕ) → ¬ (Option.map suc o ≡ some 0)
map-ne-zero none h = cc
map-ne-zero (some j) h = ground arith

-- What `find` finds: the needle, at the place that it names.
find_text_split :
    (s : Text) (d : ℕ) (ds : Text) (i : ℕ)
    → find_text s (d ∷ ds) ≡ some i
    → s ≡ take i s ++ (d ∷ ds ++ drop (i + length (d ∷ ds)) s)
unfolding find_text
find_text_split [] d ds i h = cc
find_text_split (c ∷ cs) d ds zero h = elim (Bool-cases (starts_with (c ∷ cs) (d ∷ ds))) [
  | inl e ↦ rw zero-add (starts_with_split (c ∷ cs) (d ∷ ds) e)
  | inr e ↦ absurd (map-ne-zero _ (rw e at h))
]
find_text_split (c ∷ cs) d ds (suc i) h = elim (Bool-cases (starts_with (c ∷ cs) (d ∷ ds))) [
  | inl e ↦ absurd (ground arith)
  | inr e ↦
      let at : suc i + length (d ∷ ds) ≡ suc (i + length (d ∷ ds)) = omega arith in
      rw at (ap (◌∷◌ c) (find_text_split cs d ds i (map-eq-some _ i (rw e at h))))
]

-- Before that place the needle does not occur.
find_text-take :
    (s : Text) (d : ℕ) (ds : Text) (i : ℕ)
    → find_text s (d ∷ ds) ≡ some i
    → find_text (take i s) (d ∷ ds) ≡ none
unfolding find_text
find_text-take [] d ds i h = cc
find_text-take (c ∷ cs) d ds zero h = refl
find_text-take (c ∷ cs) d ds (suc i) h = elim (Bool-cases (starts_with (c ∷ cs) (d ∷ ds))) [
  | inl e ↦ absurd (ground arith)
  | inr e ↦ ground (
    arith,
    starts_with-take (suc i) (c ∷ cs) (d ∷ ds),
    find_text-take cs d ds i (map-eq-some _ i (rw e at h)),
  )
]

-- The rest behind an occurrence is shorter.
length-behind :
    (s : Text) (d : ℕ) (ds : Text) (i : ℕ)
    → find_text s (d ∷ ds) ≡ some i
    → length (drop (i + length (d ∷ ds)) s) < length s
length-behind s d ds i h =
    let cut = find_text_split s d ds i h in
    omega (
      arith,
      ap length cut,
      length-append (take i s) (d ∷ ds ++ drop (i + length (d ∷ ds)) s),
      length-append ds (drop (i + length (d ∷ ds)) s),
    )

module _ (d : ℕ) (ds : Text) where
  join_rest-split_from :
      (fuel : ℕ) (s : Text)
      → length s < fuel
      → join_rest (split_from fuel s (d ∷ ds)) (d ∷ ds) ≡ d ∷ ds ++ s
  unfolding join_rest split_from
  join_rest-split_from zero s h = absurd (omega arith)
  join_rest-split_from (suc fuel) s h = elim (Option-cases (find_text s (d ∷ ds))) [
    | inl e ↦ rw (e, split_from, append-nil) refl
    | inr (i, e) ↦
        let small : length (drop (i + length (d ∷ ds)) s) < fuel =
          omega (arith, length-behind s d ds i e) in
        rw (e, split_from, join_rest-split_from fuel _ small)
          (ap (◌++◌ (d ∷ ds)) (sym (find_text_split s d ds i e)))
  ]

  All-split_from :
      (fuel : ℕ) (s : Text) → All (λ t. find_text t (d ∷ ds) ≡ none) (split_from fuel s (d ∷ ds))
  unfolding split_from
  All-split_from zero s = tt
  All-split_from (suc fuel) s = elim (Option-cases (find_text s (d ∷ ds))) [
    | inl e ↦ rw (e, split_from) (e, tt)
    | inr (i, e) ↦
        rw (e, split_from)
          (find_text-take s d ds i e, All-split_from fuel (drop (i + length (d ∷ ds)) s))
  ]

  -- Splitting loses nothing: joining the tokens gives the string back.
  join-split : (s : Text) → join (split s (d ∷ ds)) (d ∷ ds) ≡ s
  unfolding join split split_from
  join-split [] = refl
  join-split (c ∷ cs) = elim (Option-cases (find_text (c ∷ cs) (d ∷ ds))) [
    | inl e ↦ rw (e, split_from) (append-nil (c ∷ cs))
    | inr (i, e) ↦
        let small = length-behind (c ∷ cs) d ds i e in
        rw (e, split_from, join_rest-split_from (length (c ∷ cs)) _ small)
          (sym (find_text_split (c ∷ cs) d ds i e))
  ]

  -- No token holds the delimiter.
  split-All : (s : Text) → All (λ t. find_text t (d ∷ ds) ≡ none) (split s (d ∷ ds))
  unfolding split
  split-All [] = tt
  split-All (c ∷ cs) = All-split_from (suc (length (c ∷ cs))) (c ∷ cs)

  join_rest-replace_from :
      (fuel : ℕ) (s to : Text)
      → length s < fuel
      → to ++ replace_from fuel s (d ∷ ds) to ≡ join_rest (split_from fuel s (d ∷ ds)) to
  unfolding join_rest split_from replace_from
  join_rest-replace_from zero s to h = absurd (omega arith)
  join_rest-replace_from (suc fuel) s to h = elim (Option-cases (find_text s (d ∷ ds))) [
    | inl e ↦ rw (e, split_from, replace_from, append-nil) refl
    | inr (i, e) ↦
        let small : length (drop (i + length (d ∷ ds)) s) < fuel =
          omega (arith, length-behind s d ds i e) in
        rw (e, split_from, replace_from, join_rest-replace_from fuel _ to small) refl
  ]

  -- Replacing is splitting at the old text and joining with the new one.
  replace-join : (s to : Text) → replace s (d ∷ ds) to ≡ join (split s (d ∷ ds)) to
  unfolding join split split_from replace replace_from find_text
  replace-join [] to = refl
  replace-join (c ∷ cs) to = elim (Option-cases (find_text (c ∷ cs) (d ∷ ds))) [
    | inl e ↦ rw (e, split_from, replace_from, append-nil) refl
    | inr (i, e) ↦
        let small = length-behind (c ∷ cs) d ds i e in
        rw (e, split_from, replace_from, join_rest-replace_from (length (c ∷ cs)) _ to small) refl
  ]
