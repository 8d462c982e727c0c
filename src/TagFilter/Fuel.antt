-- ===== src/TagFilter/Fuel.antt =====
-- The parser stops: with `fuel_for` it never runs out of fuel, and what it leaves is shorter.
use testhub.Base.{
  ℕ, zero, suc, ◌+◌, ◌*◌, ◌≤◌, ◌<◌, ◌≡◌, ◌≢◌, refl, arith, inl, inr, Bool, true, false, List, [],
  ◌∷◌, Bool-cases, length, length-drop, is_empty, All, if◌then◌else◌, Text,
}
use testhub.StringUtil.{trim_start, starts_with}
use testhub.TagFilter.{
  Node, both, either, Outcome, node, fail, starved, and_then, take_token, consume, or_tokens,
  and_tokens, not_tokens, open_token, close_token, tag_prefix, tag_suffix, scan_tag, close,
  parse_or, or_loop, parse_and, and_loop, parse_unary, fuel_for,
}

abbrev pub IsNonempty : Text → Type 0
IsNonempty t = is_empty t ≡ false

length-trim_start-le : (s : Text) → length (trim_start s) ≤ length s
unfolding trim_start
length-trim_start-le [] = omega arith
length-trim_start-le (c ∷ cs) = ground (arith, length-trim_start-le cs)

starts_with-length-le : (s p : Text) → starts_with s p ≡ true → length p ≤ length s
unfolding starts_with
starts_with-length-le s [] h = omega arith
starts_with-length-le [] (p ∷ ps) h = cc
starts_with-length-le (c ∷ cs) (p ∷ ps) h = ground (arith, starts_with-length-le cs ps)

-- What a call of `consume` takes: at least a byte, if it succeeds.
abbrev taken : Bool × Text → ℕ
taken r = length r.1 + (if r.0 then 1 else 0)

take_token-le : (tok s : Text) → IsNonempty tok → taken (take_token tok s) ≤ length s
unfolding take_token
take_token-le [] s h = cc
take_token-le (t ∷ tok) s h =
    ground (arith, starts_with-length-le s (t ∷ tok), length-drop (length (t ∷ tok)) s)

consume-le : (toks : List Text) (s : Text) → All IsNonempty toks → taken (consume toks s) ≤ length s
unfolding consume
consume-le [] s h = omega arith
consume-le (tok ∷ toks) s h = ground (
  arith,
  take_token-le tok (trim_start s) h.0,
  length-trim_start-le s,
  consume-le toks (take_token tok (trim_start s)).1 h.1,
)

abbrev Good : ℕ → Outcome → Type 0
Good b (node n rest) = length rest < b
Good b (fail e) = Unit
Good b starved = ⊥

and_then-Good :
    (a b : ℕ) (o : Outcome) (k : Node → Text → Outcome)
    → Good a o
    → ((n : Node) (rest : Text) → length rest < a → Good b (k n rest))
    → Good b (and_then o k)
and_then-Good a b (node n rest) k g h = h n rest g
and_then-Good a b (fail e) k g h = tt
and_then-Good a b starved k g h = g

tag_lengths : (s : Text) → length (tag_prefix s) + length (tag_suffix s) ≡ length s
unfolding tag_prefix tag_suffix
tag_lengths [] = omega arith
tag_lengths (c ∷ cs) = ground (arith, tag_lengths cs)

not-empty : (s : Text) → is_empty s ≡ false → 0 < length s
not-empty [] h = cc
not-empty (c ∷ cs) h = omega arith

scan_tag-Good : (s : Text) → Good (length s) (scan_tag s)
unfolding scan_tag
scan_tag-Good s = elim (Bool-cases (is_empty (tag_prefix s))) [
  | inl e ↦ rw e tt
  | inr e ↦ rw e (omega (arith, tag_lengths s, not-empty (tag_prefix s) e))
]

close-Good : (n : Node) (s : Text) → Good (suc (length s)) (close n s)
unfolding close
close-Good n s = elim (Bool-cases (consume close_token s).0) [
  | inl e ↦ rw e (ground (arith, consume-le close_token s (refl, tt)))
  | inr e ↦ rw e tt
]

Good-mono : (a b : ℕ) (o : Outcome) → a ≤ b → Good a o → Good b o
Good-mono a b (node n rest) h g = omega arith
Good-mono a b (fail e) h g = tt
Good-mono a b starved h g = g

or_tokens-le : (s : Text) → taken (consume or_tokens s) ≤ length s
or_tokens-le s = consume-le or_tokens s (refl, (refl, (refl, (refl, tt))))

and_tokens-le : (s : Text) → taken (consume and_tokens s) ≤ length s
and_tokens-le s = consume-le and_tokens s (refl, (refl, (refl, (refl, (refl, tt)))))

not_tokens-le : (s : Text) → taken (consume not_tokens s) ≤ length s
not_tokens-le s = consume-le not_tokens s (refl, (refl, (refl, tt)))

open_token-le : (s : Text) → taken (consume open_token s) ≤ length s
open_token-le s = consume-le open_token s (refl, tt)

mutual
  unfolding parse_or or_loop parse_and and_loop parse_unary

  parse_or-Good : (f : ℕ) (s : Text) → 4 * length s + 3 ≤ f → Good (length s) (parse_or f s)
  parse_or-Good zero s h = absurd (omega arith)
  parse_or-Good (suc f) s h =
      and_then-Good (length s) (length s) (parse_and f s) _ (parse_and-Good f s (omega arith))
        λ n rest l.
          Good-mono (suc (length rest)) (length s) (or_loop f n rest) l
            (or_loop-Good f n rest (omega arith))

  or_loop-Good :
      (f : ℕ) (n : Node) (s : Text) → 4 * length s + 1 ≤ f → Good (suc (length s)) (or_loop f n s)
  or_loop-Good zero n s h = absurd (omega arith)
  or_loop-Good (suc f) n s h = elim (Bool-cases (consume or_tokens s).0) [
    | inl e ↦
        let shorter : length (consume or_tokens s).1 < length s = ground (arith, or_tokens-le s) in
        rw (e, or_loop)
          (and_then-Good (length s) (suc (length s)) (parse_and f (consume or_tokens s).1) _
            (Good-mono _ _ _ (omega arith) (parse_and-Good f _ (omega arith)))
            (λ m rest l.
              Good-mono (suc (length rest)) (suc (length s)) (or_loop f (either n m) rest)
                (omega arith) (or_loop-Good f (either n m) rest (omega arith))))
    | inr e ↦ rw (e, or_loop) (ground (arith, or_tokens-le s))
  ]

  parse_and-Good : (f : ℕ) (s : Text) → 4 * length s + 2 ≤ f → Good (length s) (parse_and f s)
  parse_and-Good zero s h = absurd (omega arith)
  parse_and-Good (suc f) s h =
      and_then-Good (length s) (length s) (parse_unary f s) _ (parse_unary-Good f s (omega arith))
        λ n rest l.
          Good-mono (suc (length rest)) (length s) (and_loop f n rest) l
            (and_loop-Good f n rest (omega arith))

  and_loop-Good :
      (f : ℕ) (n : Node) (s : Text) → 4 * length s + 1 ≤ f → Good (suc (length s)) (and_loop f n s)
  and_loop-Good zero n s h = absurd (omega arith)
  and_loop-Good (suc f) n s h = elim (Bool-cases (consume and_tokens s).0) [
    | inl e ↦
        let shorter : length (consume and_tokens s).1 < length s =
          ground (arith, and_tokens-le s) in
        rw (e, and_loop)
          (and_then-Good (length s) (suc (length s)) (parse_unary f (consume and_tokens s).1) _
            (Good-mono _ _ _ (omega arith) (parse_unary-Good f _ (omega arith)))
            (λ m rest l.
              Good-mono (suc (length rest)) (suc (length s)) (and_loop f (both n m) rest)
                (omega arith) (and_loop-Good f (both n m) rest (omega arith))))
    | inr e ↦ rw (e, and_loop) (ground (arith, and_tokens-le s))
  ]

  parse_unary-Good : (f : ℕ) (s : Text) → 4 * length s + 1 ≤ f → Good (length s) (parse_unary f s)
  parse_unary-Good zero s h = absurd (omega arith)
  parse_unary-Good (suc f) s h = elim (Bool-cases (consume not_tokens s).0) [
    | inl e ↦
        let shorter : length (consume not_tokens s).1 < length s =
          ground (arith, not_tokens-le s) in
        rw (e, parse_unary)
          (and_then-Good (length (consume not_tokens s).1) (length s)
            (parse_unary f (consume not_tokens s).1) _ (parse_unary-Good f _ (omega arith))
            (λ m rest l. omega arith))
    | inr e ↦
        let s1 = (consume not_tokens s).1 in
        let shorter : length s1 ≤ length s = ground (arith, not_tokens-le s) in
        elim (Bool-cases (consume open_token s1).0) [
          | inl e' ↦
              let shorter' : length (consume open_token s1).1 < length s1 =
                ground (arith, open_token-le s1) in
              rw (e, e', parse_unary)
                (and_then-Good (length (consume open_token s1).1) (length s)
                  (parse_or f (consume open_token s1).1) close (parse_or-Good f _ (omega arith))
                  (λ m rest l.
                    Good-mono (suc (length rest)) (length s) (close m rest) (omega arith)
                      (close-Good m rest)))
          | inr e' ↦
              let s2 = trim_start (consume open_token s1).1 in
              rw (e, e', parse_unary)
                (Good-mono (length s2) (length s) (scan_tag s2)
                  (ground (arith, open_token-le s1, length-trim_start-le (consume open_token s1).1))
                  (scan_tag-Good s2))
        ]
  ]

-- `fuel_for` is enough fuel for the whole expression, whatever bytes it is made of.
pub parse_or-ne-starved : (s : Text) → parse_or (fuel_for s) s ≢ starved
parse_or-ne-starved s e = let g = parse_or-Good (fuel_for s) s (omega arith) in rw e at g
