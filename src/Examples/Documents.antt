-- ===== src/Examples/Documents.antt =====
-- JSON texts. The doubles of the examples are the digits.
use testhub.Base.{
  ℕ, ◌-◌, ◌≡◌, ◌≢◌, refl, arith, [], ◌∷◌, ◌++◌, some, Text, codes, text_lt, to_string,
}
use testhub.Base.Int.{pos, negsuc}
use testhub.StringUtil.{starts_with, is_digit}
use testhub.Json.{Json, null, number, string, array, object, nil, cons, end, field, Floats}
use testhub.Json.Print.{
  dump, dump_to, dump_number, show_int, escape_body, escape_char, indent_to, colon_gap,
}
use testhub.Json.Parse.{
  ok, fail, starved, parse, skip_ws, is_blank, parse_value, parse_scalar, string_loop, parse_escape,
  parse_unicode, parse_hex4, parse_low, hex_loop, hex_value, utf8, parse_number, scan_integer,
  scan_fraction, scan_exponent, skip_digits, finish,
}
use testhub.Json.Numerals.{Whole, nought, counted, IsNumeral, positive, negative, whole, unscaled}
use testhub.Json.Readable.{FloatLaws, IsReadable}
use testhub.Json.RoundTrip.{parse-dump}
use testhub.Json.Fuel.{parse-ne-starved}

abbrev first_digit : Text → ℕ
first_digit [] = 0
first_digit (c ∷ s) = c - b'0'

abbrev pub digits : Floats
digits = record {
  small_integer = λ d. some (pos d);
  show = λ d. codes "0";
  strtod = first_digit;
  truncate = λ d. pos d;
}

first_digit-Whole : {w : Text} (s : Text) → Whole w → first_digit (w ++ s) ≡ first_digit w
first_digit-Whole s nought = refl
first_digit-Whole s (counted d ds p q h) = refl

first_digit-IsNumeral : {t : Text} (s : Text) → IsNumeral t → first_digit (t ++ s) ≡ first_digit t
first_digit-IsNumeral s (positive nought f e) = refl
first_digit-IsNumeral s (positive (counted d ds p q h) f e) = refl
first_digit-IsNumeral s (negative w f e) = refl

digits_laws : FloatLaws digits
digits_laws = record {
  show_numeral = λ d h k. positive nought whole unscaled;
  strtod_stops = λ t rest n h. first_digit-IsNumeral rest n;
}

abbrev document : Json
document = object (
    field (codes "a") (array (cons (number 7) (cons null nil)))
      (field (codes "b") (string (codes "x\"\n")) (field (codes "c") (object end) end)))

dump_compact :
    dump digits document (negsuc 0) ≡ codes "{\"a\":[7,null],\"b\":\"x\\\"\\n\",\"c\":{}}"
unfolding dump_to dump_number show_int escape_body escape_char indent_to colon_gap to_string
dump_compact = refl

-- `1` may not be followed by `]` where the array has not begun, and a comma wants a value.
parse_trailing_comma :
    parse digits (codes "[1,]") ≡ fail (codes "Unexpected character ']'") (codes "]")
unfolding parse skip_ws is_blank parse_value parse_scalar parse_number scan_integer scan_fraction
    scan_exponent skip_digits is_digit
parse_trailing_comma = refl

-- A surrogate pair is one character of four bytes.
parse_surrogates :
    parse digits (codes "\"\\ud83d\\ude00\"") ≡ ok (string (0xF0 ∷ 0x9F ∷ 0x98 ∷ 0x80 ∷ [])) []
unfolding parse skip_ws is_blank parse_value parse_scalar string_loop parse_escape parse_unicode
    parse_hex4 hex_loop hex_value parse_low utf8 finish starts_with
parse_surrogates = refl

-- The second half of a pair by itself is let through, and gives bytes that are no UTF-8.
parse_low_alone : parse digits (codes "\"\\ude00\"") ≡ ok (string (0xED ∷ 0xB8 ∷ 0x80 ∷ [])) []
unfolding parse skip_ws is_blank parse_value parse_scalar string_loop parse_escape parse_unicode
    parse_hex4 hex_loop hex_value parse_low utf8 finish
parse_low_alone = refl

document_example : parse digits (dump digits document (pos 2)) ≡ ok document []
unfolding IsReadable dump_number show_int to_string text_lt
document_example = parse-dump digits digits_laws document (pos 2) (
  omega arith,
  (
    (refl, (refl, tt)),
    ((omega arith, ((refl, refl), (tt, tt))), (tt, ((omega arith, (tt, tt)), tt))),
  ),
)

starved_example : parse digits (codes "[[1,{") ≢ starved
starved_example = parse-ne-starved digits (codes "[[1,{")
