-- ===== src/StringUtil/Trim.antt =====
-- `trim` takes blanks off both ends, all of them, and nothing else.

use testhub.Base.{
  ℕ, ◌≡◌, refl, ap, ◌∙◌, arith, inl, inr, true, false, ◌&&◌, [], ◌∷◌, ◌++◌, Bool-cases, is_empty,
  is_empty-nil, &&-eq-true, All, All-append, Text,
}
use testhub.StringUtil.{is_space, trim_start, trim_end, trim}

abbrev IsBlank : Text → Type 0
IsBlank = All λ c. is_space c ≡ true

-- The first byte, if there is one, is no blank.
abbrev pub IsTight : Text → Type 0
IsTight [] = Unit
IsTight (c ∷ cs) = is_space c ≡ false

-- The last byte, if there is one, is no blank.
abbrev pub IsTightEnd : Text → Type 0
IsTightEnd [] = Unit
IsTightEnd (c ∷ []) = is_space c ≡ false
IsTightEnd (c ∷ d ∷ cs) = IsTightEnd (d ∷ cs)

trim_start_split : (s : Text) → (p : Text) × IsBlank p × (s ≡ p ++ trim_start s)
unfolding trim_start
trim_start_split [] = ([], tt, refl)
trim_start_split (c ∷ cs) = elim (Bool-cases (is_space c)) [
  | inl e ↦ let (p, b, eq) = trim_start_split cs in rw e (c ∷ p, (e, b), ap (◌∷◌ c) eq)
  | inr e ↦ rw e ([], tt, refl)
]

trim_end_split : (s : Text) → (q : Text) × IsBlank q × (s ≡ trim_end s ++ q)
unfolding trim_end
trim_end_split [] = ([], tt, refl)
trim_end_split (c ∷ cs) =
    let (q, b, eq) = trim_end_split cs in
    elim (Bool-cases (is_space c && is_empty (trim_end cs))) [
      | inl e ↦
          let (sp, none_left) = &&-eq-true (is_space c) (is_empty (trim_end cs)) e in
          rw e (
            c ∷ q,
            (sp, b),
            ap (◌∷◌ c) (eq ∙ ap (λ r. r ++ q) (is_empty-nil (trim_end cs) none_left)),
          )
      | inr e ↦ rw e (q, b, ap (◌∷◌ c) eq)
    ]

trim_start-IsTight : (s : Text) → IsTight (trim_start s)
unfolding trim_start
trim_start-IsTight [] = tt
trim_start-IsTight (c ∷ cs) = ground (arith, trim_start-IsTight cs)

trim_end-IsTight : (s : Text) → IsTight s → IsTight (trim_end s)
unfolding trim_end
trim_end-IsTight [] h = tt
trim_end-IsTight (c ∷ cs) h = ground arith

cons-IsTightEnd :
    (c : ℕ) (r : Text) → IsTightEnd r → (is_space c && is_empty r) ≡ false → IsTightEnd (c ∷ r)
cons-IsTightEnd c [] h e = ground arith
cons-IsTightEnd c (d ∷ r) h e = h

trim_end-IsTightEnd : (s : Text) → IsTightEnd (trim_end s)
unfolding trim_end
trim_end-IsTightEnd [] = tt
trim_end-IsTightEnd (c ∷ cs) = elim (Bool-cases (is_space c && is_empty (trim_end cs))) [
  | inl e ↦ rw e tt
  | inr e ↦ rw e (cons-IsTightEnd c (trim_end cs) (trim_end-IsTightEnd cs) e)
]

pub trim_start_fixed : (s : Text) → IsTight s → trim_start s ≡ s
unfolding trim_start
trim_start_fixed [] h = refl
trim_start_fixed (c ∷ cs) h = rw h

pub trim_end_fixed : (s : Text) → IsTightEnd s → trim_end s ≡ s
unfolding trim_end
trim_end_fixed [] h = refl
trim_end_fixed (c ∷ []) h = ground arith
trim_end_fixed (c ∷ d ∷ cs) h = ground (arith, trim_end_fixed (d ∷ cs) h)

-- What `trim` takes off is blank, and what it leaves neither begins nor ends with a blank.
trim_split :
    (s : Text)
    → (p : Text) × (q : Text) × (s ≡ p ++ (trim s ++ q))
      × All (λ c. is_space c ≡ true) (p ++ q)
      × IsTight (trim s)
      × IsTightEnd (trim s)
trim_split s =
    let (p, b, eq) = trim_start_split s in
    let (q, d, eq') = trim_end_split (trim_start s) in
    (
      p,
      q,
      eq ∙ ap (◌++◌ p) eq',
      All-append _ p q b d,
      trim_end-IsTight _ (trim_start-IsTight s),
      trim_end-IsTightEnd (trim_start s),
    )

-- Trimming a trimmed string changes nothing.
trim_idem : (s : Text) → trim (trim s) ≡ trim s
trim_idem s =
    rw (trim_start_fixed (trim s) (trim_end-IsTight _ (trim_start-IsTight s)))
      (trim_end_fixed (trim s) (trim_end-IsTightEnd (trim_start s)))

-- A string that neither begins nor ends with a blank is left as it is.
pub trim_fixed : (s : Text) → IsTight s → IsTightEnd s → trim s ≡ s
trim_fixed s a b = rw (trim_start_fixed s a) (trim_end_fixed s b)

pub IsTightEnd-append :
    (s : Text) (c : ℕ) (t : Text) → IsTightEnd (c ∷ t) → IsTightEnd (s ++ (c ∷ t))
IsTightEnd-append [] c t h = h
IsTightEnd-append (x ∷ []) c t h = h
IsTightEnd-append (x ∷ y ∷ s) c t h = IsTightEnd-append (y ∷ s) c t h
