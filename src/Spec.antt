-- ===== src/Spec.antt =====
-- src/spec/spec.h: tables, steps, scenarios and specifications, as the parser leaves them.
pub mod Parser
use testhub.Base.{
  ℕ, suc, Bool, not, ◌&&◌, List, [], ◌∷◌, none, some, length, is_empty, ltb, get_elem?, or_else,
  if◌then◌else◌, Text, text_eq,
}
use testhub.Base.Int.{ℤ, pos, negsuc}

pub record Table : Type 0 where
  pub headers : List Text
  pub rows : List (List Text)

abbrev pub no_table : Table
no_table = record { headers = []; rows = [] }

column_from : ℕ → Text → List Text → ℤ
column_from i name [] = negsuc 0
column_from i name (h ∷ hs) = if text_eq h name then pos i else column_from (suc i) name hs

unfoldable pub column_index : Table → Text → ℤ
unfolding column_from
column_index t name = column_from 0 name t.headers

-- A cell; the empty text where there is none.
unfoldable pub cell : Table → ℕ → Text → Text
cell t row column = elim (column_index t column) [
  | negsuc n ↦ []
  | pos i ↦ elim (get_elem? t.rows row) [ none ↦ [] | some cells ↦ or_else (get_elem? cells i) [] ]
]

pub data ArgType : Type 0 where
  static dynamic special_string special_table table : ArgType

pub record StepArg : Type 0 where
  pub type : ArgType
  pub value : Text
  pub table : Table

-- A step: its text, its parameterized text, its arguments, and the steps of a concept, if it is one.
mutual
  pub data Step : Type 0 where
    step : Text → Text → List StepArg → ℕ → Bool → Steps → Step

  pub data Steps : Type 0 where
    nil : Steps
    cons : Step → Steps → Steps

abbrev pub text_of : Step → Text
text_of (step text parameterized args line is_concept inner) = text

abbrev pub parameterized_of : Step → Text
parameterized_of (step text parameterized args line is_concept inner) = parameterized

abbrev pub is_concept_of : Step → Bool
is_concept_of (step text parameterized args line is_concept inner) = is_concept

pub record Scenario : Type 0 where
  pub name : Text
  pub tags : List Text
  pub steps : List Step
  pub comments : List Text
  pub line_number : ℕ
  pub span : ℕ

pub record Specification : Type 0 where
  pub file_name : Text
  pub heading : Text
  pub tags : List Text
  pub contexts : List Step
  pub teardowns : List Step
  pub scenarios : List Scenario
  pub data_table : Table
  pub comments : List Text
  pub heading_line : ℕ

abbrev pub is_data_driven : Specification → Bool
is_data_driven s = not (is_empty s.data_table.headers) && ltb 0 (length s.data_table.rows)
