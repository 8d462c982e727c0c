-- ===== src/TagFilter/Combine.antt =====
-- `all` means what it says: its filter accepts what every single expression accepts.

use testhub.Base.{
  ℕ, zero, suc, ◌+◌, ◌*◌, ◌≤◌, ◌≡◌, refl, sym, ap, ◌∙◌, arith, inl, inr, Bool, true, false, ◌&&◌,
  List, [], ◌∷◌, ◌++◌, Bool-cases, length, length-append, is_empty, All, every, Text, codes,
}
use testhub.StringUtil.{trim_start, trim_end, trim, starts_with}
use testhub.TagFilter.{
  Node, both, Outcome, node, and_then, take_token, consume, parse_or, or_loop, and_loop, fuel_for,
  TagFilter, filter_of, parse, all, matches, eval, is_valid,
}
use testhub.TagFilter.Bracket.{
  consume-not_bracket, consume-not_blank, consume-and_amp, parse_unary-bracket, Parsed,
  parse-Parsed, parse-blank,
}
use testhub.TagFilter.Chain.{more_of, chain_of, combine-chain_of, chain_of-trim}

abbrev pub all_match : List Text → List Text → Bool
all_match es tags = every (λ e. matches (parse e).0 tags) es

-- What the loop of `parse_and` makes of the further expressions.
record Conjoins (left : Node) (es : List Text) (o : Outcome) : Type 0 where
  result : Node
  parsed : o ≡ node result []
  means : (tags : List Text) → eval result tags ≡ (eval left tags && all_match es tags)

and_assoc : (a b c : Bool) → ((a && b) && c) ≡ (a && (b && c))
and_assoc a b c = ground arith

and_loop_end : (f : ℕ) (left : Node) → and_loop (suc f) left [] ≡ node left []
unfolding and_loop consume take_token starts_with trim_start
and_loop_end f left = refl

or_loop_end : (f : ℕ) (left : Node) → or_loop (suc f) left [] ≡ node left []
unfolding or_loop consume take_token starts_with trim_start
or_loop_end f left = refl

and_loop-step :
    (e u : Text) (g : ℕ) (left : Node) {n : Node} {r : Text}
    → Parsed e n r
    → fuel_for (trim e) ≤ g
    → and_loop (suc (suc g)) left (codes " & (" ++ (trim e ++ (b')' ∷ u)))
      ≡ and_loop (suc g) (both left n) u
unfolding and_loop
and_loop-step e u g left p l =
    let x : Text = b'(' ∷ (trim e ++ (b')' ∷ u)) in
    rw
      (
        consume-and_amp x,
        and_loop,
        consume-and_amp x,
        parse_unary-bracket (fuel_for (trim e)) g (b' ' ∷ x) (trim e) u
            (consume-not_blank (trim e ++ (b')' ∷ u))) p.parsed p.at_end l,
      )
      refl

Conjoins-cons :
    (e : Text) (es : List Text) (left : Node) {n : Node} {r : Text} {o p : Outcome}
    → Parsed e n r
    → o ≡ p
    → Conjoins (both left n) es p
    → Conjoins left (e ∷ es) o
unfolding eval
Conjoins-cons e es left {n} q same c = record {
  result = c.result;
  parsed = same ∙ c.parsed;
  means = λ tags.
      c.means tags
      ∙ rw (q.means tags) (and_assoc (eval left tags) (eval n tags) (all_match es tags));
}

Conjoins-blank :
    (e : Text) (es : List Text) (left : Node) {o : Outcome}
    → is_empty (trim e) ≡ true
    → Conjoins left es o
    → Conjoins left (e ∷ es) o
Conjoins-blank e es left b c = record {
  result = c.result;
  parsed = c.parsed;
  means = λ tags. rw (parse-blank e tags b) (c.means tags);
}

and_loop-Conjoins :
    (es : List Text) (f : ℕ) (left : Node)
    → All (λ e. is_valid (parse e).0 ≡ true) es
    → 4 * length (more_of es) + 4 ≤ f
    → Conjoins left es (and_loop f left (more_of es))
unfolding eval
and_loop-Conjoins es zero left v l = absurd (omega arith)
and_loop-Conjoins es (suc zero) left v l = absurd (omega arith)
and_loop-Conjoins [] (suc (suc f)) left v l = record {
  result = left;
  parsed = and_loop_end (suc f) left;
  means = λ tags. ground arith;
}
and_loop-Conjoins (e ∷ es) (suc (suc f)) left v l = elim (Bool-cases (is_empty (trim e))) [
  | inl b ↦
      rw b (Conjoins-blank e es left b (and_loop-Conjoins es (suc (suc f)) left v.1 (rw b at l)))
  | inr b ↦
      let (n, r, p) = parse-Parsed e b v.0 in
      let long = length-append (trim e) (b')' ∷ more_of es) in
      let l' = rw b at l in
      let c = and_loop-Conjoins es (suc f) (both left n) v.1 (omega arith) in
      rw b (Conjoins-cons e es left p (and_loop-step e (more_of es) f left p (omega arith)) c)
]

-- The same for the whole chain, from `parse_or` on.
record Accepts (es : List Text) (f : TagFilter) : Type 0 where
  valid : is_valid f ≡ true
  means : (tags : List Text) → matches f tags ≡ all_match es tags

parse_or-chain :
    (e u : Text) (f : ℕ) {n : Node} {r : Text}
    → Parsed e n r
    → fuel_for (trim e) ≤ f
    → parse_or (suc (suc (suc f))) (b'(' ∷ (trim e ++ (b')' ∷ u)))
      ≡ and_then (and_loop (suc f) n u) (λ left rest. or_loop (suc (suc f)) left rest)
unfolding parse_or
parse_or-chain e u f p l =
    rw
      (parse_unary-bracket (fuel_for (trim e)) f _ (trim e) u
        (consume-not_bracket (trim e ++ (b')' ∷ u))) p.parsed p.at_end l)
      refl

filter_of-Accepts :
    (s : Text) (n : Node) (es : List Text) (o : Outcome)
    → o ≡ node n []
    → ((tags : List Text) → eval n tags ≡ all_match es tags)
    → Accepts es (filter_of s o).0
unfolding filter_of matches trim_start
filter_of-Accepts s n es o e h = rw e (record { valid = refl; means = h })

Accepts-blank :
    (e : Text) (es : List Text) {f : TagFilter}
    → is_empty (trim e) ≡ true
    → Accepts es f
    → Accepts (e ∷ es) f
Accepts-blank e es b a = record {
  valid = a.valid;
  means = λ tags. rw (parse-blank e tags b) (a.means tags);
}

parse-Accepts :
    (s : Text) (n : Node) (es : List Text)
    → trim s ≡ s
    → is_empty s ≡ false
    → parse_or (fuel_for s) s ≡ node n []
    → ((tags : List Text) → eval n tags ≡ all_match es tags)
    → Accepts es (parse s).0
unfolding parse
parse-Accepts s n es t b p h = rw (t, b) (filter_of-Accepts s n es _ p h)

chain_of-Accepts-cons :
    (e : Text) (es : List Text)
    → is_empty (trim e) ≡ false
    → All (λ e. is_valid (parse e).0 ≡ true) (e ∷ es)
    → Accepts (e ∷ es) (parse (b'(' ∷ (trim e ++ (b')' ∷ more_of es)))).0
chain_of-Accepts-cons e es b v =
    let (n, r, p) = parse-Parsed e b v.0 in
    let s : Text = b'(' ∷ (trim e ++ (b')' ∷ more_of es)) in
    let long = length-append (trim e) (b')' ∷ more_of es) in
    let f : ℕ = 4 * length s + 1 in
    let fuel : fuel_for s ≡ suc (suc (suc f)) = omega arith in
    let c = and_loop-Conjoins es (suc f) n v.1 (omega arith) in
    parse-Accepts s c.result (e ∷ es) (rw b at (chain_of-trim (e ∷ es))) refl
      (rw fuel (
        parse_or-chain e (more_of es) f p (omega arith)
        ∙ rw c.parsed (or_loop_end (suc f) c.result)))
      (λ tags. c.means tags ∙ ap (λ x. x && all_match es tags) (sym (p.means tags)))

chain_of-Accepts :
    (es : List Text)
    → All (λ e. is_valid (parse e).0 ≡ true) es
    → Accepts es (parse (chain_of es)).0
chain_of-Accepts [] v = record {
  valid = unfold parse trim_start trim_end in refl;
  means = λ tags. unfold parse matches trim_start trim_end in refl;
}
chain_of-Accepts (e ∷ es) v = elim (Bool-cases (is_empty (trim e))) [
  | inl b ↦ rw b (Accepts-blank e es b (chain_of-Accepts es v.1))
  | inr b ↦ rw b (chain_of-Accepts-cons e es b v)
]

-- If every expression is valid, so is their combination, and it accepts the tags that each of the
-- expressions accepts, and no others.
pub all-matches :
    (es : List Text)
    → All (λ e. is_valid (parse e).0 ≡ true) es
    → (is_valid (all es).0 ≡ true)
      × ((tags : List Text) → matches (all es).0 tags ≡ every (λ e. matches (parse e).0 tags) es)
unfolding all
all-matches es v = let a = chain_of-Accepts es v in rw (combine-chain_of es) (a.valid, a.means)
