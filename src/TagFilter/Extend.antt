-- ===== src/TagFilter/Extend.antt =====
-- What the parser makes of an expression it also makes of the expression before a closing
-- bracket, with any fuel above: it stops at the bracket.
use testhub.Base.{
  ℕ, zero, suc, ◌≤◌, ◌≡◌, ◌≢◌, refl, arith, inl, inr, Bool, true, List, [], ◌∷◌, ◌++◌, Bool-cases,
  length, drop, is_empty, All, codes, Text,
}
use testhub.StringUtil.{trim_start, is_space, is_alnum, starts_with}
use testhub.TagFilter.{
  Node, negated, both, either, Outcome, node, fail, starved, and_then, goes_on, take_token, consume,
  or_tokens, and_tokens, not_tokens, open_token, close_token, ends_tag, tag_prefix, tag_suffix,
  scan_tag, close, parse_or, or_loop, parse_and, and_loop, parse_unary,
}

and_then-eq-node :
    (o : Outcome) (k : Node → Text → Outcome) {n : Node} {rest : Text}
    → and_then o k ≡ node n rest
    → (m : Node) × (r : Text) × (o ≡ node m r) × (k m r ≡ node n rest)
and_then-eq-node (node m r) k h = (m, r, refl, h)
and_then-eq-node (fail e) k h = cc
and_then-eq-node starved k h = cc

-- A token that holds no closing bracket.
abbrev IsOpen : Text → Type 0
IsOpen = All λ c. c ≢ b')'

module _ (u : Text) where
  abbrev tail : Text
  tail = b')' ∷ u

  trim_start-tail : (s : Text) → trim_start (s ++ tail) ≡ trim_start s ++ tail
  unfolding trim_start is_space
  trim_start-tail [] = refl
  trim_start-tail (c ∷ cs) = ground (arith, trim_start-tail cs)

  starts_with-tail : (s p : Text) → IsOpen p → starts_with (s ++ tail) p ≡ starts_with s p
  unfolding starts_with
  starts_with-tail s [] h = refl
  starts_with-tail [] (p ∷ ps) h = ground arith
  starts_with-tail (c ∷ cs) (p ∷ ps) h = ground (arith, starts_with-tail cs ps h.1)

  starts_with-longer : (s p : Text) → starts_with s p ≡ true → starts_with (s ++ tail) p ≡ true
  unfolding starts_with
  starts_with-longer s [] h = refl
  starts_with-longer [] (p ∷ ps) h = cc
  starts_with-longer (c ∷ cs) (p ∷ ps) h = ground (arith, starts_with-longer cs ps)

  drop-tail :
      (s p : Text)
      → starts_with s p ≡ true
      → drop (length p) (s ++ tail) ≡ drop (length p) s ++ tail
  unfolding starts_with
  drop-tail s [] h = refl
  drop-tail [] (p ∷ ps) h = cc
  drop-tail (c ∷ cs) (p ∷ ps) h = ground (arith, drop-tail cs ps)

  goes_on-tail : (tok rest : Text) → goes_on tok (rest ++ tail) ≡ goes_on tok rest
  unfolding goes_on is_alnum
  goes_on-tail [] rest = refl
  goes_on-tail (t ∷ tok) [] = ground arith
  goes_on-tail (t ∷ tok) (c ∷ rest) = refl

  -- `longer r` is `r` with the bracket and what follows it left over.
  abbrev longer : Bool × Text → Bool × Text
  longer r = (r.0, r.1 ++ tail)

  take_token-tail :
      (tok s : Text) → IsOpen tok → take_token tok (s ++ tail) ≡ longer (take_token tok s)
  unfolding take_token
  take_token-tail tok s h = elim (Bool-cases (starts_with s tok)) [
    | inl e ↦
        rw (starts_with-tail s tok h, e, drop-tail s tok e, goes_on-tail tok (drop (length tok) s))
          (ground arith)
    | inr e ↦ rw (starts_with-tail s tok h, e) refl
  ]

  consume-tail :
      (toks : List Text) (s : Text)
      → All IsOpen toks
      → consume toks (s ++ tail) ≡ longer (consume toks s)
  unfolding consume
  consume-tail [] s h = refl
  consume-tail (tok ∷ toks) s h =
      rw (trim_start-tail s, take_token-tail tok (trim_start s) h.0)
        (ground (arith, consume-tail toks (take_token tok (trim_start s)).1 h.1))

  take_token-close :
      (s : Text)
      → (take_token (codes ")") s).0 ≡ true
      → take_token (codes ")") (s ++ tail) ≡ longer (take_token (codes ")") s)
  unfolding take_token is_alnum
  take_token-close s h = elim (Bool-cases (starts_with s (codes ")"))) [
    | inl e ↦ rw (starts_with-longer s (codes ")") e, e, drop-tail s (codes ")") e) (ground arith)
    | inr e ↦ absurd (ground arith)
  ]

  consume-close :
      (s : Text)
      → (consume close_token s).0 ≡ true
      → consume close_token (s ++ tail) ≡ longer (consume close_token s)
  unfolding consume
  consume-close s h =
      rw (trim_start-tail s, take_token-close (trim_start s) (ground arith)) (ground arith)

  tag_prefix-tail : (s : Text) → tag_prefix (s ++ tail) ≡ tag_prefix s
  unfolding tag_prefix ends_tag
  tag_prefix-tail [] = refl
  tag_prefix-tail (c ∷ cs) = ground (arith, tag_prefix-tail cs)

  tag_suffix-tail : (s : Text) → tag_suffix (s ++ tail) ≡ tag_suffix s ++ tail
  unfolding tag_suffix ends_tag
  tag_suffix-tail [] = refl
  tag_suffix-tail (c ∷ cs) = ground (arith, tag_suffix-tail cs)

  scan_tag-tail :
      (s : Text) {n : Node} {r : Text}
      → scan_tag s ≡ node n r
      → scan_tag (s ++ tail) ≡ node n (r ++ tail)
  unfolding scan_tag
  scan_tag-tail s h = elim (Bool-cases (is_empty (tag_prefix s))) [
    | inl e ↦ absurd (ground arith)
    | inr e ↦ rw (tag_prefix-tail s, tag_suffix-tail s, e) (ground arith)
  ]

  close-tail :
      (m : Node) (s : Text) {n : Node} {r : Text}
      → close m s ≡ node n r
      → close m (s ++ tail) ≡ node n (r ++ tail)
  unfolding close
  close-tail m s h = elim (Bool-cases (consume close_token s).0) [
    | inl e ↦ rw (consume-close s e) (ground arith)
    | inr e ↦ absurd (ground arith)
  ]

  or_tokens-tail : (s : Text) → consume or_tokens (s ++ tail) ≡ longer (consume or_tokens s)
  or_tokens-tail s = consume-tail or_tokens s (omega arith)

  and_tokens-tail : (s : Text) → consume and_tokens (s ++ tail) ≡ longer (consume and_tokens s)
  and_tokens-tail s = consume-tail and_tokens s (omega arith)

  not_tokens-tail : (s : Text) → consume not_tokens (s ++ tail) ≡ longer (consume not_tokens s)
  not_tokens-tail s = consume-tail not_tokens s (omega arith)

  open_token-tail : (s : Text) → consume open_token (s ++ tail) ≡ longer (consume open_token s)
  open_token-tail s = consume-tail open_token s (omega arith)

  mutual
    unfolding parse_or or_loop parse_and and_loop parse_unary

    pub parse_or-tail :
        (f g : ℕ) (s : Text) {n : Node} {r : Text}
        → f ≤ g
        → parse_or f s ≡ node n r
        → parse_or g (s ++ tail) ≡ node n (r ++ tail)
    parse_or-tail zero g s l h = cc
    parse_or-tail (suc f) zero s l h = absurd (omega arith)
    parse_or-tail (suc f) (suc g) s l h =
        let (m, r1, e1, e2) =
          and_then-eq-node (parse_and f s) (λ left rest. or_loop f left rest) h in
        rw (parse_and-tail f g s (omega arith) e1) (or_loop-tail f g m r1 (omega arith) e2)

    or_loop-tail :
        (f g : ℕ) (left : Node) (s : Text) {n : Node} {r : Text}
        → f ≤ g
        → or_loop f left s ≡ node n r
        → or_loop g left (s ++ tail) ≡ node n (r ++ tail)
    or_loop-tail zero g left s l h = cc
    or_loop-tail (suc f) zero left s l h = absurd (omega arith)
    or_loop-tail (suc f) (suc g) left s l h = elim (Bool-cases (consume or_tokens s).0) [
      | inl e ↦
          let (m, r1, e1, e2) =
            and_then-eq-node (parse_and f (consume or_tokens s).1)
              (λ right rest. or_loop f (either left right) rest) (rw (e, or_loop) at h) in
          rw (or_tokens-tail s, e, or_loop, or_tokens-tail s, parse_and-tail f g _ (omega arith) e1)
            (or_loop-tail f g (either left m) r1 (omega arith) e2)
      | inr e ↦
          let h' = rw (e, or_loop) at h in
          rw (or_tokens-tail s, e, or_loop, or_tokens-tail s) (ground arith)
    ]

    parse_and-tail :
        (f g : ℕ) (s : Text) {n : Node} {r : Text}
        → f ≤ g
        → parse_and f s ≡ node n r
        → parse_and g (s ++ tail) ≡ node n (r ++ tail)
    parse_and-tail zero g s l h = cc
    parse_and-tail (suc f) zero s l h = absurd (omega arith)
    parse_and-tail (suc f) (suc g) s l h =
        let (m, r1, e1, e2) =
          and_then-eq-node (parse_unary f s) (λ left rest. and_loop f left rest) h in
        rw (parse_unary-tail f g s (omega arith) e1) (and_loop-tail f g m r1 (omega arith) e2)

    and_loop-tail :
        (f g : ℕ) (left : Node) (s : Text) {n : Node} {r : Text}
        → f ≤ g
        → and_loop f left s ≡ node n r
        → and_loop g left (s ++ tail) ≡ node n (r ++ tail)
    and_loop-tail zero g left s l h = cc
    and_loop-tail (suc f) zero left s l h = absurd (omega arith)
    and_loop-tail (suc f) (suc g) left s l h = elim (Bool-cases (consume and_tokens s).0) [
      | inl e ↦
          let (m, r1, e1, e2) =
            and_then-eq-node (parse_unary f (consume and_tokens s).1)
              (λ right rest. and_loop f (both left right) rest) (rw (e, and_loop) at h) in
          rw
            (
              and_tokens-tail s,
              e,
              and_loop,
              and_tokens-tail s,
              parse_unary-tail f g _ (omega arith) e1,
            )
            (and_loop-tail f g (both left m) r1 (omega arith) e2)
      | inr e ↦
          let h' = rw (e, and_loop) at h in
          rw (and_tokens-tail s, e, and_loop, and_tokens-tail s) (ground arith)
    ]

    parse_unary-tail :
        (f g : ℕ) (s : Text) {n : Node} {r : Text}
        → f ≤ g
        → parse_unary f s ≡ node n r
        → parse_unary g (s ++ tail) ≡ node n (r ++ tail)
    parse_unary-tail zero g s l h = cc
    parse_unary-tail (suc f) zero s l h = absurd (omega arith)
    parse_unary-tail (suc f) (suc g) s l h = elim (Bool-cases (consume not_tokens s).0) [
      | inl e ↦
          let (m, r1, e1, e2) =
            and_then-eq-node (parse_unary f (consume not_tokens s).1)
              (λ n rest. node (negated n) rest) (rw (e, parse_unary) at h) in
          rw
            (
              not_tokens-tail s,
              e,
              parse_unary,
              not_tokens-tail s,
              parse_unary-tail f g _ (omega arith) e1,
            )
            (ground arith)
      | inr e ↦
          let s1 = (consume not_tokens s).1 in
          elim (Bool-cases (consume open_token s1).0) [
            | inl e' ↦
                let (m, r1, e1, e2) =
                  and_then-eq-node (parse_or f (consume open_token s1).1) close
                    (rw (e, e', parse_unary) at h) in
                rw
                  (
                    not_tokens-tail s,
                    e,
                    parse_unary,
                    not_tokens-tail s,
                    open_token-tail s1,
                    e',
                    parse_unary,
                    not_tokens-tail s,
                    open_token-tail s1,
                    parse_or-tail f g _ (omega arith) e1,
                  )
                  (close-tail m r1 e2)
            | inr e' ↦
                let h' = rw (e, e', parse_unary) at h in
                rw
                  (
                    not_tokens-tail s,
                    e,
                    parse_unary,
                    not_tokens-tail s,
                    open_token-tail s1,
                    e',
                    parse_unary,
                    not_tokens-tail s,
                    open_token-tail s1,
                    trim_start-tail _,
                  )
                  (scan_tag-tail _ h')
          ]
    ]
