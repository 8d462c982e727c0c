-- ===== src/Examples/Steps.antt =====
-- The text of steps and tables on fixed inputs.
use testhub.Base.{find, insert, text_eq, ◌≡◌, refl, false, true, [], ◌∷◌, List, codes}
use testhub.StringUtil.{is_space}
use testhub.Spec.{step, nil, cons, static, dynamic}
use testhub.Spec.Parser.{expand_concept, bind_params, resolve_arg, arg_of, parse_table_row}
use testhub.Spec.Parser.Rows.{row_text, escape_cell, cells_text, parse_table_row-row_text}
use testhub.Spec.Parser.Pieces.{Piece, plain, quoted, hole}

row_example :
    parse_table_row (row_text (codes "a|b") (codes "c" ∷ [])) ≡ codes "a|b" ∷ codes "c" ∷ []
unfolding is_space
row_example =
    parse_table_row-row_text (codes "a|b") (codes "c" ∷ []) ((refl, (refl, (refl, tt))), refl, refl)
      (((refl, tt), refl, refl), tt)

-- The row as it stands in a file.
row_written : row_text (codes "a|b") (codes "c" ∷ []) ≡ codes "|a\\|b|c|"
unfolding escape_cell cells_text
row_written = refl

abbrev greeting : List Piece
greeting =
    plain (codes "say ") ∷ quoted (codes "hi") ∷ plain (codes " to ") ∷ hole (codes "name") ∷ []

-- The argument of a step that names a concept goes to the step inside.
concept_expanded :
    expand_concept 17
      ((
        codes "greet {}",
        record {
          heading = codes "greet <who>";
          parameterized_text = codes "greet {}";
          params = codes "who" ∷ [];
          steps =
              step
                (codes "say <who>")
                (codes "say {}")
                (arg_of dynamic (codes "who") ∷ [])
                2
                false
                nil
              ∷ [];
          file_name = [];
          line_number = 1;
        },
      )
        ∷ [])
      (step (codes "greet \"Bo\"") (codes "greet {}") (arg_of static (codes "Bo") ∷ []) 7 false nil)
    ≡ step (codes "greet \"Bo\"") (codes "greet {}") (arg_of static (codes "Bo") ∷ []) 7 true (
        cons
          (step (codes "say <who>") (codes "say {}") (arg_of static (codes "Bo") ∷ []) 2 false nil)
          nil)
unfolding expand_concept bind_params resolve_arg find insert text_eq
concept_expanded = refl
