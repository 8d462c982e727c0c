-- ===== src/Json/Scalars.antt =====
-- A value that holds no other is read back.

use testhub.Base.{
  ℕ, suc, ◌≡◌, refl, ap, ◌∙◌, arith, leb, ◌==◌, ◌&&◌, ◌||◌, true, false, [], ◌∷◌, ◌++◌, Text, codes,
}
use testhub.StringUtil.{starts_with}
use testhub.Json.{null, bool, number, string, Floats}
use testhub.Json.Print.{escape, dump_number}
use testhub.Json.Parse.{ok, at, expect_literal, parse_number, parse_scalar, parse_value}
use testhub.Json.Numerals.{
  Whole, nought, counted, IsNumeral, positive, negative, IsEnd, scan_number-IsNumeral,
}
use testhub.Json.Strings.{parse_string-escape}
use testhub.Json.Readable.{FloatLaws, IsExact, dump_number-IsNumeral}
use testhub.Json.Steps.{step_scalar}

-- What a numeral begins with.
data StartsNumber : Text → Type 0 where
  starts :
      (c : ℕ) (s : Text) → (c == b'-' || (leb b'0' c && leb c b'9')) ≡ true → StartsNumber (c ∷ s)

StartsNumber-append : {t : Text} (s : Text) → StartsNumber t → StartsNumber (t ++ s)
StartsNumber-append s (starts c t p) = starts c (t ++ s) p

Whole-StartsNumber : {w : Text} → Whole w → StartsNumber w
Whole-StartsNumber nought = starts b'0' [] refl
Whole-StartsNumber (counted d ds p q h) = starts d ds (ground arith)

IsNumeral-StartsNumber : {t : Text} → IsNumeral t → StartsNumber t
IsNumeral-StartsNumber (positive w f e) = StartsNumber-append _ (Whole-StartsNumber w)
IsNumeral-StartsNumber (negative w f e) = starts b'-' _ refl

module _ (fl : Floats) where
  parse_scalar-number : {t : Text} → StartsNumber t → parse_scalar fl t ≡ parse_number fl t
  unfolding parse_scalar
  parse_scalar-number (starts c s p) = ground arith

  not_open : {t : Text} → StartsNumber t → (at b'{' t ≡ false) × (at b'[' t ≡ false)
  not_open (starts c s p) = ground arith

  pub read_number :
      FloatLaws fl
      → (d f n : ℕ) (rest : Text) → IsExact fl d
      → IsEnd rest
      → parse_value fl (suc f) n (dump_number fl d ++ rest) ≡ ok (number d) rest
  unfolding parse_number
  read_number laws d f n rest (finite, exact) h =
      let numeral = dump_number-IsNumeral fl laws d finite in
      let start = StartsNumber-append rest (IsNumeral-StartsNumber numeral) in
      let (brace, bracket) = not_open start in
      rw
        (
          step_scalar fl f n _ brace bracket,
          parse_scalar-number start,
          scan_number-IsNumeral rest numeral h,
        )
        (ap (λ x. ok (number x) rest) (laws.strtod_stops _ rest numeral h ∙ exact))

  pub read_string :
      (t : Text) (f n : ℕ) (rest : Text)
      → parse_value fl (suc f) n (escape t ++ rest) ≡ ok (string t) rest
  unfolding parse_scalar
  read_string t f n rest =
      rw (step_scalar fl f n (escape t ++ rest) refl refl, parse_string-escape t rest) refl

  pub read_null :
      (f n : ℕ) (rest : Text) → parse_value fl (suc f) n (codes "null" ++ rest) ≡ ok null rest
  unfolding parse_value parse_scalar expect_literal starts_with
  read_null f n rest = refl

  pub read_true :
      (f n : ℕ) (rest : Text)
      → parse_value fl (suc f) n (codes "true" ++ rest) ≡ ok (bool true) rest
  unfolding parse_value parse_scalar expect_literal starts_with
  read_true f n rest = refl

  pub read_false :
      (f n : ℕ) (rest : Text)
      → parse_value fl (suc f) n (codes "false" ++ rest) ≡ ok (bool false) rest
  unfolding parse_value parse_scalar expect_literal starts_with
  read_false f n rest = refl
