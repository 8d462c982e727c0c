-- ===== src/TagFilter/Chain.antt =====
-- The text that TagFilter::all puts together from several expressions.
use mathlib.Core.List.{append-nil, append_assoc}
use testhub.Base.{
  ℕ, ◌≡◌, refl, sym, ◌∙◌, inl, inr, false, List, [], ◌∷◌, ◌++◌, Bool-cases, is_empty, if◌then◌else◌,
  Text, codes,
}
use testhub.StringUtil.{trim, is_space}
use testhub.StringUtil.Trim.{IsTightEnd, trim_fixed, IsTightEnd-append}
use testhub.TagFilter.{combine}

-- The combined text, without the accumulator: what stands behind the first expression, and all.
abbrev pub more_of : List Text → Text
more_of [] = []
more_of (e ∷ es) =
    if is_empty (trim e) then more_of es else codes " & (" ++ (trim e ++ (b')' ∷ more_of es))

abbrev pub chain_of : List Text → Text
chain_of [] = []
chain_of (e ∷ es) =
    if is_empty (trim e) then chain_of es else b'(' ∷ (trim e ++ (b')' ∷ more_of es))

combine-more_of : (es : List Text) (c : ℕ) (cs : Text) → combine (c ∷ cs) es ≡ c ∷ cs ++ more_of es
unfolding combine
combine-more_of [] c cs = sym (append-nil (c ∷ cs))
combine-more_of (e ∷ es) c cs = elim (Bool-cases (is_empty (trim e))) [
  | inl b ↦ rw b (combine-more_of es c cs)
  | inr b ↦ rw b (combine-more_of es c _ ∙ simp append_assoc)
]

pub combine-chain_of : (es : List Text) → combine [] es ≡ chain_of es
unfolding combine
combine-chain_of [] = refl
combine-chain_of (e ∷ es) = elim (Bool-cases (is_empty (trim e))) [
  | inl b ↦ rw b (combine-chain_of es)
  | inr b ↦ rw b (combine-more_of es b'(' _ ∙ simp append_assoc)
]

-- The combined text is trimmed already.
more_of-IsTightEnd : (es : List Text) → IsTightEnd (b')' ∷ more_of es)
unfolding is_space
more_of-IsTightEnd [] = refl
more_of-IsTightEnd (e ∷ es) = elim (Bool-cases (is_empty (trim e))) [
  | inl b ↦ rw b (more_of-IsTightEnd es)
  | inr b ↦
      rw b (IsTightEnd-append (codes ") & (" ++ trim e) b')' (more_of es) (more_of-IsTightEnd es))
]

pub chain_of-trim : (es : List Text) → trim (chain_of es) ≡ chain_of es
chain_of-trim [] = trim_fixed [] tt tt
chain_of-trim (e ∷ es) = elim (Bool-cases (is_empty (trim e))) [
  | inl b ↦ rw b (chain_of-trim es)
  | inr b ↦ rw b (
      trim_fixed (b'(' ∷ (trim e ++ (b')' ∷ more_of es))) open_bracket
        (IsTightEnd-append (b'(' ∷ trim e) b')' (more_of es) (more_of-IsTightEnd es)))
]
  where
    open_bracket : is_space b'(' ≡ false
    open_bracket = unfold is_space in refl
