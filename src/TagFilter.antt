-- ===== src/TagFilter.antt =====
-- src/engine/tag_filter.h: tag filter expressions, their parser and their meaning.
--
-- The parser's position is the text that is left. Its functions call one another as in the source,
-- on fuel: one unit for each call and for each round of a loop. `fuel_for` is enough.
pub mod Fuel
pub mod Extend
pub mod Bracket
pub mod Chain
pub mod Combine
use testhub.Base.{
  ℕ, zero, suc, ◌+◌, ◌-◌, ◌*◌, Bool, true, false, not, ◌&&◌, ◌||◌, List, [], ◌∷◌, ◌++◌, Option,
  none, some, length, is_empty, any, drop, ◌==◌, if◌then◌else◌, Text, codes, text_eq, to_string,
}
use testhub.StringUtil.{to_lower, is_space, is_alpha, is_alnum, trim_start, trim, starts_with}

pub data Node : Type 0 where
  tag : Text → Node
  both either : Node → Node → Node
  negated : Node → Node

-- `Node::eval`.
unfoldable pub eval : Node → List Text → Bool
eval (tag t) tags = any (λ x. text_eq (to_lower (trim x)) (to_lower t)) tags
eval (both l r) tags = eval l tags && eval r tags
eval (either l r) tags = eval l tags || eval r tags
eval (negated l) tags = not (eval l tags)

-- What goes wrong, with the text that is left where it does.
pub data Failure : Type 0 where
  missing_paren : Failure
  expected_tag : Text → Failure

pub data Outcome : Type 0 where
  node : Node → Text → Outcome
  fail : Failure → Outcome
  starved : Outcome

abbrev pub and_then : Outcome → (Node → Text → Outcome) → Outcome
and_then (node n rest) k = k n rest
and_then (fail e) k = fail e
and_then starved k = starved

-- A keyword is not taken where a word goes on.
abbrev pub is_word_byte : ℕ → Bool
is_word_byte c = is_alnum c || c == b'_'

unfoldable pub goes_on : Text → Text → Bool
goes_on [] rest = false
goes_on (t ∷ tok) [] = false
goes_on (t ∷ tok) (c ∷ rest) = is_alpha t && is_word_byte c

-- `consume`, on a text that does not begin with a blank.
unfoldable pub take_token : Text → Text → Bool × Text
unfolding goes_on
take_token tok s =
    if starts_with s tok && not (goes_on tok (drop (length tok) s))
    then (true, drop (length tok) s)
    else (false, s)

-- `consume(t1) || consume(t2) || ...`.
unfoldable pub consume : List Text → Text → Bool × Text
consume [] s = (false, s)
consume (tok ∷ toks) s =
    let (hit, rest) = take_token tok (trim_start s) in
    if hit then (true, rest) else consume toks rest

abbrev pub or_tokens : List Text
or_tokens = codes "||" ∷ codes "|" ∷ codes "or" ∷ codes "OR" ∷ []

abbrev pub and_tokens : List Text
and_tokens = codes "&&" ∷ codes "&" ∷ codes "," ∷ codes "and" ∷ codes "AND" ∷ []

abbrev pub not_tokens : List Text
not_tokens = codes "!" ∷ codes "not" ∷ codes "NOT" ∷ []

abbrev pub open_token : List Text
open_token = codes "(" ∷ []

abbrev pub close_token : List Text
close_token = codes ")" ∷ []

-- A byte that ends a tag's name.
unfoldable pub ends_tag : ℕ → Bool
ends_tag c =
    c == b'&' || c == b'|' || c == b'!' || c == b'(' || c == b')' || c == b',' || is_space c

unfoldable pub tag_prefix : Text → Text
tag_prefix [] = []
tag_prefix (c ∷ cs) = if ends_tag c then [] else c ∷ tag_prefix cs

unfoldable pub tag_suffix : Text → Text
tag_suffix [] = []
tag_suffix (c ∷ cs) = if ends_tag c then c ∷ cs else tag_suffix cs

unfoldable pub scan_tag : Text → Outcome
scan_tag s =
    if is_empty (tag_prefix s)
    then fail (expected_tag s)
    else node (tag (tag_prefix s)) (tag_suffix s)

-- What stands behind the expression in brackets.
unfoldable pub close : Node → Text → Outcome
close n s =
    let (hit, rest) = consume close_token s in if hit then node n rest else fail missing_paren

unfoldable mutual
  pub parse_or : ℕ → Text → Outcome
  parse_or zero s = starved
  parse_or (suc fuel) s = and_then (parse_and fuel s) (λ left rest. or_loop fuel left rest)

  pub or_loop : ℕ → Node → Text → Outcome
  or_loop zero left s = starved
  or_loop (suc fuel) left s = elim (consume or_tokens s).0 [
    | true ↦
        and_then (parse_and fuel (consume or_tokens s).1)
          (λ right rest. or_loop fuel (either left right) rest)
    | false ↦ node left (consume or_tokens s).1
  ]

  pub parse_and : ℕ → Text → Outcome
  parse_and zero s = starved
  parse_and (suc fuel) s = and_then (parse_unary fuel s) (λ left rest. and_loop fuel left rest)

  pub and_loop : ℕ → Node → Text → Outcome
  and_loop zero left s = starved
  and_loop (suc fuel) left s = elim (consume and_tokens s).0 [
    | true ↦
        and_then (parse_unary fuel (consume and_tokens s).1)
          (λ right rest. and_loop fuel (both left right) rest)
    | false ↦ node left (consume and_tokens s).1
  ]

  pub parse_unary : ℕ → Text → Outcome
  parse_unary zero s = starved
  parse_unary (suc fuel) s = elim (consume not_tokens s).0 [
    | true ↦ and_then (parse_unary fuel (consume not_tokens s).1) (λ n rest. node (negated n) rest)
    | false ↦ elim (consume open_token (consume not_tokens s).1).0 [
      | true ↦ and_then (parse_or fuel (consume open_token (consume not_tokens s).1).1) close
      | false ↦ scan_tag (trim_start (consume open_token (consume not_tokens s).1).1)
    ]
  ]

abbrev pub fuel_for : Text → ℕ
fuel_for s = 4 * length s + 4

pub record TagFilter : Type 0 where
  pub expression : Text
  pub root : Option Node
  pub invalid : Bool

-- The message of a failure in the expression `s`.
failure_message : Text → Failure → Text
failure_message s missing_paren = codes "Missing ')' in tag expression"
failure_message s (expected_tag rest) =
    codes "Expected tag name at position " ++ to_string (length s - length rest)

-- The filter for an expression that is not empty, and the error.
unfoldable pub filter_of : Text → Outcome → TagFilter × Option Text
unfolding failure_message
filter_of s (node n rest) =
    if is_empty (trim_start rest)
    then (record { expression = s; root = some n; invalid = false }, none)
    else (
      record { expression = s; root = none; invalid = true },
      some (
          codes "Unexpected token near position "
          ++ to_string (length s - length (trim_start rest))),
    )
filter_of s (fail e) =
    (record { expression = s; root = none; invalid = true }, some (failure_message s e))
filter_of s starved = (record { expression = s; root = none; invalid = true }, none)

unfoldable pub parse : Text → TagFilter × Option Text
unfolding filter_of
parse expression =
    let s = trim expression in
    if is_empty s
    then (record { expression = s; root = none; invalid = false }, none)
    else filter_of s (parse_or (fuel_for s) s)

-- The loop of `all`; `combined` is what is there already.
unfoldable pub combine : Text → List Text → Text
combine combined [] = combined
combine combined (e ∷ es) =
    let t = trim e in
    let joined = if is_empty combined then combined else combined ++ codes " & " in
    combine (if is_empty t then combined else joined ++ (b'(' ∷ (t ++ (b')' ∷ [])))) es

unfoldable pub all : List Text → TagFilter × Option Text
unfolding combine parse
all expressions = parse (combine [] expressions)

unfoldable pub matches : TagFilter → List Text → Bool
matches f tags = elim f.root [ none ↦ true | some n ↦ eval n tags ]

abbrev pub is_valid : TagFilter → Bool
is_valid f = not f.invalid
