-- ===== src/TagFilter/Bracket.antt =====
-- What the parser makes of one expression in brackets.

use testhub.Base.{
  ℕ, suc, ◌≤◌, ◌≡◌, refl, arith, inl, inr, true, false, List, [], ◌∷◌, ◌++◌, some, Bool-cases,
  is_empty, is_empty-nil, Text, codes,
}
use testhub.StringUtil.{trim_start, trim, is_space, is_alnum, starts_with}
use testhub.TagFilter.{
  Node, Outcome, node, fail, starved, take_token, consume, and_tokens, not_tokens, open_token,
  close, parse_or, parse_unary, fuel_for, TagFilter, filter_of, parse, matches, eval, is_valid,
}
use testhub.TagFilter.Extend.{parse_or-tail}

-- Bracketed expressions, one by one.
pub consume-not_bracket : (x : Text) → consume not_tokens (b'(' ∷ x) ≡ (false, b'(' ∷ x)
unfolding consume take_token trim_start is_space starts_with
consume-not_bracket x = refl

pub consume-not_blank : (x : Text) → consume not_tokens (b' ' ∷ b'(' ∷ x) ≡ (false, b'(' ∷ x)
unfolding consume take_token trim_start is_space starts_with
consume-not_blank x = refl

consume-open_bracket : (x : Text) → consume open_token (b'(' ∷ x) ≡ (true, x)
unfolding consume take_token trim_start is_space starts_with is_alnum
consume-open_bracket [] = refl
consume-open_bracket (c ∷ x) = refl

take_close : (x : Text) → take_token (codes ")") (b')' ∷ x) ≡ (true, x)
unfolding take_token starts_with is_alnum
take_close [] = refl
take_close (c ∷ x) = refl

pub consume-and_amp : (x : Text) → consume and_tokens (codes " & " ++ x) ≡ (true, b' ' ∷ x)
unfolding consume take_token trim_start is_space starts_with is_alnum
consume-and_amp x = refl

trim_start-close : (r u : Text) → trim_start r ≡ [] → trim_start (r ++ (b')' ∷ u)) ≡ b')' ∷ u
unfolding trim_start is_space
trim_start-close [] u h = refl
trim_start-close (c ∷ r) u h = ground (arith, trim_start-close r u)

close-bracket : (n : Node) (r u : Text) → trim_start r ≡ [] → close n (r ++ (b')' ∷ u)) ≡ node n u
unfolding close consume
close-bracket n r u h = rw (trim_start-close r u h, take_close u) refl

-- The parser reads a bracketed expression, and goes on behind it.
pub parse_unary-bracket :
    (f g : ℕ) (s t u : Text) {n : Node} {r : Text}
    → consume not_tokens s ≡ (false, b'(' ∷ (t ++ (b')' ∷ u)))
    → parse_or f t ≡ node n r
    → trim_start r ≡ []
    → f ≤ g
    → parse_unary (suc g) s ≡ node n u
unfolding parse_unary
parse_unary-bracket f g s t u {n} {r} e p b l =
    rw
      (
        e,
        parse_unary,
        e,
        consume-open_bracket (t ++ (b')' ∷ u)),
        parse_unary,
        e,
        consume-open_bracket (t ++ (b')' ∷ u)),
        parse_or-tail u f g t l p,
      )
      (close-bracket n r u b)

-- A single expression that is not blank, as `parse` reads it.
pub record Parsed (e : Text) (n : Node) (rest : Text) : Type 0 where
  pub parsed : parse_or (fuel_for (trim e)) (trim e) ≡ node n rest
  pub at_end : trim_start rest ≡ []
  pub means : (tags : List Text) → matches (parse e).0 tags ≡ eval n tags

filter_of-valid :
    (s : Text) (o : Outcome)
    → is_valid (filter_of s o).0 ≡ true
    → (n : Node) × (r : Text) × (o ≡ node n r)
      × (trim_start r ≡ [])
      × ((filter_of s o).0.root ≡ some n)
unfolding filter_of
filter_of-valid s (node n r) h = elim (Bool-cases (is_empty (trim_start r))) [
  | inl e ↦ rw e (n, r, refl, is_empty-nil (trim_start r) e, refl)
  | inr e ↦ absurd (ground arith)
]
filter_of-valid s (fail e) h = cc
filter_of-valid s starved h = cc

matches-root :
    (f : TagFilter) {n : Node} → f.root ≡ some n → (tags : List Text) → matches f tags ≡ eval n tags
unfolding matches
matches-root f e tags = rw (e, matches) refl

pub parse-Parsed :
    (e : Text)
    → is_empty (trim e) ≡ false
    → is_valid (parse e).0 ≡ true
    → (n : Node) × (r : Text) × Parsed e n r
unfolding parse
parse-Parsed e b v =
    let (n, r, p, end, root) =
      filter_of-valid (trim e) (parse_or (fuel_for (trim e)) (trim e)) (rw b at v) in
    (n, r, record { parsed = p; at_end = end; means = λ tags. rw b (matches-root _ root tags) })

pub parse-blank :
    (e : Text) (tags : List Text) → is_empty (trim e) ≡ true → matches (parse e).0 tags ≡ true
unfolding parse matches
parse-blank e tags b = rw b refl
