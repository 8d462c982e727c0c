-- ===== src/Spec/Parser.antt =====
-- src/spec/spec_parser.cpp: the rows of tables, the text of a step, and the expansion of concepts.
pub mod Rows
pub mod Pieces
use testhub.Base.{
  ℕ, zero, suc, ◌+◌, ◌-◌, ◌==◌, ltb, leb, Bool, true, false, not, ◌&&◌, ◌||◌, Option, none, some,
  ◌⊎◌, inl, inr, List, [], ◌∷◌, ◌++◌, map, length, drop, is_empty, every, any, reverse, Text, codes,
  text_eq, mem_text, Map, find, insert, if◌then◌else◌,
}
use testhub.StringUtil.{to_lower, trim, is_space, starts_with, split}
use testhub.Spec.{
  Step, Steps, step, nil, cons, StepArg, ArgType, static, dynamic, special_string, special_table,
  table, Table, no_table,
}

abbrev pub is_underline : Text → ℕ → Bool
is_underline line c = let t = trim line in leb 3 (length t) && every (λ d. d == c) t

abbrev pub is_teardown_marker : Text → Bool
is_teardown_marker line = is_underline line b'_'

-- `level` times `#`, and what is behind them.
unfoldable pub behind_marks : ℕ → Text → Option Text
behind_marks zero t = some t
behind_marks (suc n) [] = none
behind_marks (suc n) (c ∷ t) = if c == b'#' then behind_marks n t else none

unfoldable pub strip_heading_marker : Text → ℕ → Text
strip_heading_marker line level = elim (behind_marks level (trim line)) [
  | none ↦ []
  | some [] ↦ []
  | some (c ∷ t) ↦ if c == b'#' then [] else trim (c ∷ t)
]

abbrev pub is_tag_line : Text → Bool
is_tag_line line = starts_with (to_lower (trim line)) (codes "tags:")

unfoldable pub add_trimmed : List Text → List Text → List Text
add_trimmed tags [] = tags
add_trimmed tags (tag ∷ more) =
    let t = trim tag in
    add_trimmed (if not (is_empty t) && not (mem_text t tags) then tags ++ (t ∷ []) else tags) more

abbrev pub append_tags : List Text → Text → List Text
append_tags tags raw = add_trimmed tags (split raw (codes ","))

-- The loop of `parseTableRow` between the bars at the ends, with the cell read so far.
unfoldable pub row_loop : Text → Text → List Text
row_loop [] cell = trim cell ∷ []
row_loop (c ∷ []) cell =
    if c == b'|' then trim cell ∷ trim [] ∷ [] else trim (cell ++ (c ∷ [])) ∷ []
row_loop (c ∷ d ∷ s) cell = elim (c == 92 && d == b'|') [
  | true ↦ row_loop s (cell ++ (b'|' ∷ []))
  | false ↦ elim (c == b'|') [
    | true ↦ trim cell ∷ row_loop (d ∷ s) []
    | false ↦ row_loop (d ∷ s) (cell ++ (c ∷ []))
  ]
]

-- The text without a bar at its end.
unfoldable pub strip_bar : Text → Text
strip_bar [] = []
strip_bar (c ∷ []) = if c == b'|' then [] else c ∷ []
strip_bar (c ∷ d ∷ s) = c ∷ strip_bar (d ∷ s)

unfoldable pub cells_of : Text → List Text
cells_of [] = []
cells_of (c ∷ t) = if c == b'|' then row_loop (strip_bar t) [] else []

abbrev pub parse_table_row : Text → List Text
parse_table_row line = cells_of (trim line)

unfoldable pub is_table_separator : Text → Bool
is_table_separator line =
    let t = trim line in
    starts_with t (codes "|")
    && every (λ c. c == b'-' || (c == b'|' || (c == b' ' || c == b':'))) t
    && any (λ c. c == b'-') t

abbrev pub arg_of : ArgType → Text → StepArg
arg_of type value = record { type = type; value = value; table = no_table }

abbrev pub dynamic_arg : Text → StepArg
dynamic_arg inner =
    if starts_with inner (codes "file:")
    then arg_of special_string (trim (drop 5 inner))
    else if starts_with inner (codes "table:")
    then arg_of special_table (trim (drop 6 inner))
    else arg_of dynamic (trim inner)

-- What a backslash and a character stand for in quotes.
abbrev pub unescape : ℕ → Text
unescape e =
    if e == b'"'
    then b'"' ∷ []
    else if e == b'n'
    then 10 ∷ []
    else if e == b't'
    then 9 ∷ []
    else if e == 92
    then 92 ∷ []
    else 92 ∷ e ∷ []

abbrev pub Scanned : Type 0
Scanned = Text ⊎ (Text × List StepArg)

abbrev pub unclosed_quote : Text → Scanned
unclosed_quote whole = inl (codes "Unclosed quote in step: " ++ whole)

abbrev pub unclosed_dynamic : Text → Scanned
unclosed_dynamic whole = inl (codes "Unclosed dynamic parameter in step: " ++ whole)

-- The loop of `parseStepText`, outside of an argument, in quotes and in angle brackets. `out` and
-- `args` are what was read so far.
unfoldable mutual
  pub scan_plain : Text → Text → Text → List StepArg → Scanned
  scan_plain [] whole out args = inr (out, args)
  scan_plain (c ∷ []) whole out args =
      if c == b'"'
      then unclosed_quote whole
      else if c == b'<'
      then unclosed_dynamic whole
      else inr (out ++ (c ∷ []), args)
  scan_plain (c ∷ d ∷ s) whole out args = elim (c == 92 && (d == b'"' || d == b'<')) [
    | true ↦ scan_plain s whole (out ++ (d ∷ [])) args
    | false ↦ elim (c == b'"') [
      | true ↦ scan_quote (d ∷ s) whole out args []
      | false ↦ elim (c == b'<') [
        | true ↦ scan_dynamic (d ∷ s) whole out args []
        | false ↦ scan_plain (d ∷ s) whole (out ++ (c ∷ [])) args
      ]
    ]
  ]

  pub scan_quote : Text → Text → Text → List StepArg → Text → Scanned
  scan_quote [] whole out args value = unclosed_quote whole
  scan_quote (c ∷ []) whole out args value =
      if c == b'"'
      then inr (out ++ codes "{}", args ++ (arg_of static value ∷ []))
      else unclosed_quote whole
  scan_quote (c ∷ d ∷ s) whole out args value = elim (c == 92) [
    | true ↦ scan_quote s whole out args (value ++ unescape d)
    | false ↦ elim (c == b'"') [
      | true ↦ scan_plain (d ∷ s) whole (out ++ codes "{}") (args ++ (arg_of static value ∷ []))
      | false ↦ scan_quote (d ∷ s) whole out args (value ++ (c ∷ []))
    ]
  ]

  pub scan_dynamic : Text → Text → Text → List StepArg → Text → Scanned
  scan_dynamic [] whole out args inner = unclosed_dynamic whole
  scan_dynamic (c ∷ s) whole out args inner = elim (c == b'>') [
    | true ↦ scan_plain s whole (out ++ codes "{}") (args ++ (dynamic_arg inner ∷ []))
    | false ↦ scan_dynamic s whole out args (inner ++ (c ∷ []))
  ]

-- Runs of blanks become one.
unfoldable pub collapse : Text → Bool → Text
collapse [] last_space = []
collapse (c ∷ s) last_space =
    let rest = collapse s (is_space c) in
    if is_space c then (if last_space then rest else 32 ∷ rest) else c ∷ rest

unfoldable pub parse_step_text : Text → Text ⊎ Step
parse_step_text raw =
    let whole = trim raw in
    elim (scan_plain whole whole [] []) [
      | inl error ↦ inl error
      | inr (out, args) ↦
          let parameterized = trim (collapse out false) in
          if is_empty parameterized
          then inl (codes "Empty step")
          else inr (step whole parameterized args 0 false nil)
    ]

pub record Concept : Type 0 where
  pub heading : Text
  pub parameterized_text : Text
  pub params : List Text
  pub steps : List Step
  pub file_name : Text
  pub line_number : ℕ

-- The parameters with the arguments that stand in their places.
unfoldable pub bind_params : List Text → List StepArg → Map StepArg → Map StepArg
bind_params [] args binding = binding
bind_params (p ∷ ps) [] binding = binding
bind_params (p ∷ ps) (a ∷ args) binding = bind_params ps args (insert p a binding)

unfoldable pub resolve_arg : Map StepArg → StepArg → StepArg
resolve_arg binding a = elim a.type [
  | dynamic ↦ elim (find a.value binding) [ none ↦ a | some b ↦ b ]
  | _ ↦ a
]

abbrev pub resolve : Map StepArg → Step → Step
resolve binding (step text parameterized args line is_concept inner) =
    step text parameterized (map (resolve_arg binding) args) line is_concept inner

abbrev pub steps_of : List Step → Steps
steps_of [] = nil
steps_of (s ∷ ss) = cons s (steps_of ss)

-- `expandConcept` at the depth `17 - n`.
unfoldable pub expand_concept : ℕ → Map Concept → Step → Step
expand_concept zero concepts s = s
expand_concept (suc n) concepts (step text parameterized args line is_concept inner) =
    elim (find parameterized concepts) [
      | none ↦ step text parameterized args line is_concept inner
      | some def ↦
          let binding = bind_params def.params args [] in
          step text parameterized args line true
            (steps_of (map (λ s. expand_concept n concepts (resolve binding s)) def.steps))
    ]
