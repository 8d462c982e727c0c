-- ===== src/Spec/Parser/Rows.antt =====
-- The rows of a table are read as they are written.
use testhub.Base.{
  ℕ, ◌==◌, ◌≡◌, refl, sym, ap, ◌∙◌, arith, true, false, Bool-cases, inl, inr, List, [], ◌∷◌, ◌++◌,
  All, Text, if◌then◌else◌,
}
use mathlib.Core.List.{append_assoc, append-nil}
use testhub.StringUtil.{trim, is_space}
use testhub.StringUtil.Trim.{IsTight, IsTightEnd, trim_start_fixed, trim_end_fixed}
use testhub.Spec.Parser.{row_loop, strip_bar, cells_of, parse_table_row}

-- A cell as it is written, with a backslash in front of a bar.
unfoldable pub escape_cell : Text → Text
escape_cell [] = []
escape_cell (c ∷ s) = if c == b'|' then 92 ∷ b'|' ∷ escape_cell s else c ∷ escape_cell s

unfoldable pub cells_text : Text → List Text → Text
cells_text x [] = escape_cell x
cells_text x (y ∷ cells) = escape_cell x ++ (b'|' ∷ cells_text y cells)

-- The row of the cells `x` and those behind it.
abbrev pub row_text : Text → List Text → Text
row_text x cells = b'|' ∷ (cells_text x cells ++ (b'|' ∷ []))

-- A cell has no backslash, and no blanks at its ends.
abbrev pub IsCell : Text → Type 0
IsCell x = All (λ c. (c == 92) ≡ false) x × IsTight x × IsTightEnd x

bar : (c : ℕ) → (c == b'|') ≡ true → c ≡ b'|'
bar c e = ground (arith, e)

row_loop-plain :
    (c : ℕ) (t cell : Text)
    → (c == 92) ≡ false
    → (c == b'|') ≡ false
    → row_loop (c ∷ t) cell ≡ row_loop t (cell ++ (c ∷ []))
unfolding row_loop
row_loop-plain c [] cell h k = rw (k, row_loop) refl
row_loop-plain c (d ∷ t) cell h k = rw (h, k, row_loop) refl

row_loop-bar : (t cell : Text) → row_loop (b'|' ∷ t) cell ≡ trim cell ∷ row_loop t []
unfolding row_loop
row_loop-bar [] cell = refl
row_loop-bar (d ∷ t) cell = refl

row_loop-escape_cell :
    (x rest cell : Text)
    → All (λ c. (c == 92) ≡ false) x
    → row_loop (escape_cell x ++ rest) cell ≡ row_loop rest (cell ++ x)
unfolding row_loop escape_cell
row_loop-escape_cell [] rest cell h = ap (row_loop rest) (sym (append-nil cell))
row_loop-escape_cell (c ∷ x) rest cell (h, hs) = elim (Bool-cases (c == b'|')) [
  | inl e ↦
      rw (e, escape_cell)
        (row_loop-escape_cell x rest (cell ++ (b'|' ∷ [])) hs
          ∙ ap (row_loop rest)
              (append_assoc cell (b'|' ∷ []) x ∙ ap (λ d. cell ++ (d ∷ x)) (sym (bar c e))))
  | inr e ↦
      rw (e, escape_cell)
        (row_loop-plain c (escape_cell x ++ rest) cell h e
          ∙ row_loop-escape_cell x rest (cell ++ (c ∷ [])) hs
          ∙ ap (row_loop rest) (append_assoc cell (c ∷ []) x))
]

trim_fixed : (x : Text) → IsTight x → IsTightEnd x → trim x ≡ x
trim_fixed x h k = rw (trim_start_fixed x h) (trim_end_fixed x k)

row_loop-cells_text :
    (x : Text) (cells : List Text)
    → IsCell x
    → All IsCell cells
    → row_loop (cells_text x cells) [] ≡ x ∷ cells
unfolding cells_text row_loop
row_loop-cells_text x [] (h, t, e) hs =
    ap (λ s. row_loop s []) (sym (append-nil (escape_cell x)))
    ∙ row_loop-escape_cell x [] [] h
    ∙ ap (λ y. y ∷ []) (trim_fixed x t e)
row_loop-cells_text x (y ∷ cells) (h, t, e) (hy, hs) =
    row_loop-escape_cell x (b'|' ∷ cells_text y cells) [] h
    ∙ row_loop-bar (cells_text y cells) x
    ∙ ap (λ z. z ∷ row_loop (cells_text y cells) []) (trim_fixed x t e)
    ∙ ap (λ r. x ∷ r) (row_loop-cells_text y cells hy hs)

strip_bar-append : (s : Text) → strip_bar (s ++ (b'|' ∷ [])) ≡ s
unfolding strip_bar
strip_bar-append [] = refl
strip_bar-append (c ∷ []) = refl
strip_bar-append (c ∷ d ∷ s) = ap (λ r. c ∷ r) (strip_bar-append (d ∷ s))

bar-IsTightEnd : (s : Text) → IsTightEnd (s ++ (b'|' ∷ []))
unfolding is_space
bar-IsTightEnd [] = refl
bar-IsTightEnd (c ∷ []) = refl
bar-IsTightEnd (c ∷ d ∷ s) = bar-IsTightEnd (d ∷ s)

-- A row that is written from cells without backslashes and without blanks at their ends, each bar in a
-- cell behind a backslash, is read as these cells.
pub parse_table_row-row_text :
    (x : Text) (cells : List Text)
    → IsCell x
    → All IsCell cells
    → parse_table_row (row_text x cells) ≡ x ∷ cells
unfolding cells_of is_space
parse_table_row-row_text x cells h hs =
    ap cells_of (trim_fixed (row_text x cells) refl (bar-IsTightEnd (b'|' ∷ cells_text x cells)))
    ∙ ap (λ s. row_loop s []) (strip_bar-append (cells_text x cells))
    ∙ row_loop-cells_text x cells h hs
