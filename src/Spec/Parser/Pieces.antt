-- ===== src/Spec/Parser/Pieces.antt =====
-- The text of a step is read as it is written.
use testhub.Base.{◌==◌, ◌≡◌, false, ◌||◌, inr, List, [], ◌∷◌, ◌++◌, All, Text, codes, if◌then◌else◌}
use testhub.Spec.{StepArg, static}
use testhub.Spec.Parser.{Scanned, arg_of, dynamic_arg}

-- Plain text, a value in quotes, or what stands in angle brackets.
pub data Piece : Type 0 where
  plain : Text → Piece
  quoted : Text → Piece
  hole : Text → Piece

-- Plain text has no backslash, and the text in brackets does not close them.
abbrev pub IsWritten : Piece → Type 0
IsWritten (plain s) = All (λ c. (c == 92) ≡ false) s
IsWritten (quoted v) = Unit
IsWritten (hole n) = All (λ c. (c == b'>') ≡ false) n

unfoldable pub escape_plain : Text → Text
escape_plain [] = []
escape_plain (c ∷ s) =
    if c == b'"' || c == b'<' then 92 ∷ c ∷ escape_plain s else c ∷ escape_plain s

unfoldable pub escape_quoted : Text → Text
escape_quoted [] = []
escape_quoted (c ∷ s) =
    if c == b'"' || c == 92 then 92 ∷ c ∷ escape_quoted s else c ∷ escape_quoted s

abbrev pub write : Piece → Text
write (plain s) = escape_plain s
write (quoted v) = b'"' ∷ (escape_quoted v ++ (b'"' ∷ []))
write (hole n) = b'<' ∷ (n ++ (b'>' ∷ []))

abbrev pub write_all : List Piece → Text
write_all [] = []
write_all (p ∷ ps) = write p ++ write_all ps

-- What is left of a piece in the text with parameters, and the argument that it gives.
abbrev pub shape : Piece → Text
shape (plain s) = s
shape (quoted v) = codes "{}"
shape (hole n) = codes "{}"

abbrev pub shape_all : List Piece → Text
shape_all [] = []
shape_all (p ∷ ps) = shape p ++ shape_all ps

abbrev pub args_of : Piece → List StepArg
args_of (plain s) = []
args_of (quoted v) = arg_of static v ∷ []
args_of (hole n) = dynamic_arg n ∷ []

abbrev pub args_all : List Piece → List StepArg
args_all [] = []
args_all (p ∷ ps) = args_of p ++ args_all ps

abbrev scan_result : Text → List StepArg → Scanned
scan_result out args = inr (out, args)
