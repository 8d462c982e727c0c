-- ===== src/Engine/Queries/Listing.antt =====
-- A page of `list` is a slice of the selected records, the latest first.
use mathlib.Core.Path.{subst}
use mathlib.Core.List.{append-nil, append_assoc}
use testhub.Base.{
  take-nil, drop-nil, ℕ, suc, ◌+◌, ◌-◌, ◌≡◌, sym, arith, inl, inr, List, [], ◌∷◌, ◌++◌, map,
  reverse, none, some, Bool-cases, Option-cases, length, length-append, take, drop, ltb, leb, Text,
  Map, find, if◌then◌else◌,
}
use testhub.Model.{TestInfo}
use testhub.Engine.{TestRecord, Engine}
use testhub.Engine.Queries.{list_selects, info_of, list_loop, list}

module _ (records : Map TestRecord) (state : Text) where
  -- The records that the filter selects, in the order of the ids.
  unfoldable pub selected : List Text → List TestRecord
  selected [] = []
  selected (id ∷ ids) =
      let rest = selected ids in
      elim (find id records) [
        | none ↦ rest
        | some r ↦ if list_selects state r.status.state then r ∷ rest else rest
      ]

  module _ (limit offset : ℕ) where
    list_loop-slice :
        (ids : List Text) (skipped : ℕ) (out : List TestInfo)
        → list_loop records state limit offset ids skipped out
          ≡ out ++ map info_of (take (limit - length out) (drop (offset - skipped) (selected ids)))
    unfolding list_loop selected
    list_loop-slice [] skipped out =
        rw
          (
            drop-nil {A = TestRecord} (offset - skipped),
            take-nil {A = TestRecord} (limit - length out),
          )
          (sym (append-nil out))
    list_loop-slice (id ∷ ids) skipped out = elim (Option-cases (find id records)) [
      | inl n ↦ rw (n, list_loop, selected) (list_loop-slice ids skipped out)
      | inr (r, e) ↦ elim (Bool-cases (list_selects state r.status.state)) [
        | inr miss ↦ rw (e, list_loop, selected, miss) (list_loop-slice ids skipped out)
        | inl hit ↦ elim (Bool-cases (ltb skipped offset)) [
          | inl more ↦
              let one : offset - skipped ≡ suc (offset - (skipped + 1)) = ground arith in
              rw (e, list_loop, selected, hit, more, one) (list_loop-slice ids (skipped + 1) out)
          | inr start ↦ elim (Bool-cases (leb limit (length out))) [
            | inl full ↦
                let none_left : limit - length out ≡ 0 = ground arith in
                rw (e, list_loop, selected, hit, start, full, none_left) (sym (append-nil out))
            | inr room ↦
                let at_start : offset - skipped ≡ 0 = ground arith in
                let one : limit - length out ≡ suc (limit - suc (length out)) = ground arith in
                let longer : length (out ++ (info_of r ∷ [])) ≡ suc (length out) =
                  omega (arith, length-append out (info_of r ∷ [])) in
                rw
                  (
                    e,
                    list_loop,
                    selected,
                    hit,
                    start,
                    room,
                    list_loop-slice ids skipped (out ++ (info_of r ∷ [])),
                    longer,
                    at_start,
                    one,
                  )
                  (append_assoc out (info_of r ∷ []) _)
          ]
        ]
      ]
    ]

-- A page of `list` is the slice from the offset, of at most `limit` entries, of the records that
-- the filter selects, the latest submission first.
pub list-slice :
    (e : Engine) (state : Text) (limit offset : ℕ)
    → list e state limit offset
      ≡ map info_of (take limit (drop offset (selected e.records state (reverse e.order))))
list-slice e state limit offset =
    let l : limit - 0 ≡ limit = omega arith in
    let o : offset - 0 ≡ offset = omega arith in
    subst
      (λ n.
        list e state limit offset
        ≡ map info_of (take n (drop offset (selected e.records state (reverse e.order)))))
      l
      (subst
        (λ n.
          list e state limit offset
          ≡ map info_of (take (limit - 0) (drop n (selected e.records state (reverse e.order)))))
        o (list_loop-slice e.records state limit offset (reverse e.order) 0 []))
