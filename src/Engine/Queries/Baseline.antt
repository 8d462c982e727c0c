-- ===== src/Engine/Queries/Baseline.antt =====
-- The run that a comparison takes as its baseline when none is named.
use mathlib.Core.Path.{subst}
use testhub.Base.{
  ◌≡◌, refl, sym, ap, ◌∙◌, arith, inl, inr, true, false, List, [], ◌∷◌, ◌++◌, reverse, some,
  Bool-cases, Option-cases, All, Text, text_eq, Map, find,
}
use testhub.Trends.{TestComparison}
use testhub.Engine.{TestRecord, Engine}
use testhub.Engine.Queries.{
  is_comparable, spec_sets_overlap, record_spec_files, is_baseline, find_baseline, find_finished,
  comparison_of, compare_auto, compare_tests, comparison,
}

find_baseline-first :
    (records : Map TestRecord) (id : Text) (specs ids : List Text) {base : Text}
    → find_baseline records id specs ids ≡ some base
    → (before : List Text) × (after : List Text) × (ids ≡ before ++ (base ∷ after))
      × All (λ x. is_baseline records id specs x ≡ false) before
      × (is_baseline records id specs base ≡ true)
unfolding find_baseline
find_baseline-first records id specs [] h = cc
find_baseline-first records id specs (x ∷ ids) {base} h =
    elim (Bool-cases (is_baseline records id specs x)) [
      | inl e ↦
          let same : x ≡ base = ground arith in
          (
            [],
            ids,
            ap (λ y. y ∷ ids) same,
            tt,
            subst (λ y. is_baseline records id specs y ≡ true) same e,
          )
      | inr e ↦
          let (before, after, split, earlier, good) =
            find_baseline-first records id specs ids {base = base} (ground arith) in
          (x ∷ before, after, ap (λ l. x ∷ l) split, (e, earlier), good)
    ]

is_baseline-finished :
    (records : Map TestRecord) (id : Text) (specs : List Text) (base : Text)
    → is_baseline records id specs base ≡ true
    → (text_eq base id ≡ false)
      × (b : TestRecord) × (find base records ≡ some b)
      × (is_comparable b ≡ true)
      × (spec_sets_overlap specs (record_spec_files b) ≡ true)
unfolding is_baseline
is_baseline-finished records id specs base h = elim (Option-cases (find base records)) [
  | inl n ↦ let h' = rw (n, is_baseline) at h in absurd (ground arith)
  | inr (b, e) ↦
      let h' = rw (e, is_baseline) at h in (ground arith, b, e, ground arith, ground arith)
]

compare_tests-auto :
    (e : Engine) (id : Text) (current : TestRecord)
    → find_finished e.records id ≡ some current
    → compare_tests e id [] ≡ compare_auto e current id
unfolding compare_tests
compare_tests-auto e id current f = rw (f, compare_tests) refl

-- With no baseline named, a test that has a result is compared with the latest other run that is
-- finished, not cancelled, and shares a specification: what was submitted later does not qualify.
compare_tests-latest :
    (e : Engine) (id : Text) (current : TestRecord) (c : TestComparison)
    → find_finished e.records id ≡ some current
    → compare_tests e id [] ≡ comparison c
    → (base : Text) × (b : TestRecord) × (c ≡ comparison_of current b true)
      × (find base e.records ≡ some b)
      × (text_eq base id ≡ false)
      × (is_comparable b ≡ true)
      × (spec_sets_overlap (record_spec_files current) (record_spec_files b) ≡ true)
      × (before : List Text) × (after : List Text) × (reverse e.order ≡ before ++ (base ∷ after))
      × All (λ x. is_baseline e.records id (record_spec_files current) x ≡ false) before
unfolding compare_auto
compare_tests-latest e id current c f h =
    let automatic = sym (compare_tests-auto e id current f) ∙ h in
    elim (Option-cases (find_baseline e.records id (record_spec_files current) (reverse e.order))) [
      | inl n ↦ let h' = rw (n, compare_auto) at automatic in cc
      | inr (base, found) ↦
          let (before, after, split, later, good) =
            find_baseline-first e.records id (record_spec_files current) (reverse e.order) found in
          let (other, b, there, fin, shared) =
            is_baseline-finished e.records id (record_spec_files current) base good in
          let h' = rw (found, compare_auto, there) at automatic in
          (base, b, cc, there, other, fin, shared, before, after, split, later)
    ]
