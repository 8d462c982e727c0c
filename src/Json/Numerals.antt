-- ===== src/Json/Numerals.antt =====
-- A printed number is a numeral of the grammar, and the scanner reads a numeral whole.
use mathlib.Core.Path.{subst}
use mathlib.Core.List.{append_assoc, append-nil}
use testhub.Base.{
  ℕ, zero, suc, ◌≤◌, ◌≡◌, ◌⊎◌, refl, sym, to_string_digits, arith, ◌==◌, ◌||◌, inl, inr, Bool, true,
  false, [], ◌∷◌, ◌++◌, Text, All, to_string,
}
use testhub.Base.Int.{ℤ, pos, negsuc}
use testhub.StringUtil.{is_digit}
use testhub.Json.Print.{show_int}
use testhub.Json.Parse.{
  ok, bind, is_blank, at, at_digit, skip_digits, digits_or, scan_integer, scan_fraction,
  scan_exponent, scan_number,
}

abbrev pub IsDigit : ℕ → Type 0
IsDigit c = (b'0' ≤ c) × (c ≤ b'9')

abbrev pub AreDigits : Text → Type 0
AreDigits ds = All IsDigit ds

-- The grammar of a number: an integer with no zero in front, a fraction, an exponent.
pub data Whole : Text → Type 0 where
  nought : Whole (b'0' ∷ [])
  counted : (d : ℕ) (ds : Text) → b'1' ≤ d → d ≤ b'9' → AreDigits ds → Whole (d ∷ ds)

pub data Fraction : Text → Type 0 where
  whole : Fraction []
  decimals : (d : ℕ) (ds : Text) → AreDigits (d ∷ ds) → Fraction (b'.' ∷ d ∷ ds)

pub data Exponent : Text → Type 0 where
  unscaled : Exponent []
  scaled :
      (e d : ℕ) (ds : Text) → (e ≡ b'e') ⊎ (e ≡ b'E') → AreDigits (d ∷ ds) → Exponent (e ∷ d ∷ ds)
  signed :
      (e s d : ℕ) (ds : Text)
      → (e ≡ b'e') ⊎ (e ≡ b'E')
      → (s ≡ b'+') ⊎ (s ≡ b'-')
      → AreDigits (d ∷ ds)
      → Exponent (e ∷ s ∷ d ∷ ds)

pub data IsNumeral : Text → Type 0 where
  positive : {w f e : Text} → Whole w → Fraction f → Exponent e → IsNumeral (w ++ (f ++ e))
  negative : {w f e : Text} → Whole w → Fraction f → Exponent e → IsNumeral (b'-' ∷ (w ++ (f ++ e)))

-- What may follow a number in a text that was printed: a blank, a comma, a bracket, or the end.
abbrev pub ends_number : ℕ → Bool
ends_number c = is_blank c || (c == b',' || (c == b']' || c == b'}'))

abbrev pub IsEnd : Text → Type 0
IsEnd [] = Unit
IsEnd (c ∷ s) = ends_number c ≡ true

-- A text that does not go on with a digit.
abbrev Stops : Text → Type 0
Stops s = at_digit s ≡ false

skip_digits-append : (ds rest : Text) → AreDigits ds → Stops rest → skip_digits (ds ++ rest) ≡ rest
unfolding skip_digits is_digit
skip_digits-append [] [] h k = refl
skip_digits-append [] (c ∷ rest) h k = rw k refl
skip_digits-append (d ∷ ds) rest h k = ground (arith, skip_digits-append ds rest h.1 k)

IsEnd-Stops : (rest : Text) → IsEnd rest → Stops rest
unfolding is_blank is_digit
IsEnd-Stops [] h = refl
IsEnd-Stops (c ∷ rest) h = ground arith

scan_integer-Whole :
    {w : Text} (rest : Text) → Whole w → Stops rest → scan_integer (w ++ rest) ≡ ok tt rest
unfolding scan_integer
scan_integer-Whole rest nought k = refl
scan_integer-Whole rest (counted d ds p q h) k = ground (arith, skip_digits-append (d ∷ ds) rest)

digits_or-append :
    (message : Text) (d : ℕ) (ds rest : Text)
    → AreDigits (d ∷ ds)
    → Stops rest
    → digits_or message (d ∷ (ds ++ rest)) ≡ ok tt rest
unfolding is_digit
digits_or-append message d ds rest h k = ground (arith, skip_digits-append (d ∷ ds) rest h k)

-- A text that goes on neither with a digit nor with a fraction.
abbrev Halts : Text → Type 0
Halts s = Stops s × (at b'.' s ≡ false)

IsEnd-Halts : (rest : Text) → IsEnd rest → Halts rest
unfolding is_blank is_digit
IsEnd-Halts [] h = (refl, refl)
IsEnd-Halts (c ∷ rest) h = ground arith

Exponent-Halts : {e : Text} (rest : Text) → Exponent e → IsEnd rest → Halts (e ++ rest)
unfolding is_digit
Exponent-Halts rest unscaled h = IsEnd-Halts rest h
Exponent-Halts rest (scaled e d ds (inl p) k) h = ground arith
Exponent-Halts rest (scaled e d ds (inr p) k) h = ground arith
Exponent-Halts rest (signed e s d ds (inl p) q k) h = ground arith
Exponent-Halts rest (signed e s d ds (inr p) q k) h = ground arith

Fraction-Stops : {f : Text} (rest : Text) → Fraction f → Halts rest → Stops (f ++ rest)
unfolding is_digit
Fraction-Stops rest whole h = h.0
Fraction-Stops rest (decimals d ds k) h = refl

scan_fraction-Fraction :
    {f : Text} (rest : Text) → Fraction f → Halts rest → scan_fraction (f ++ rest) ≡ ok tt rest
unfolding scan_fraction
scan_fraction-Fraction rest whole h = rw (h.1) refl
scan_fraction-Fraction rest (decimals d ds k) h = digits_or-append _ d ds rest k h.0

no_exponent : (rest : Text) → IsEnd rest → (at b'e' rest || at b'E' rest) ≡ false
unfolding is_blank
no_exponent [] h = refl
no_exponent (c ∷ rest) h = ground arith

no_sign : (d : ℕ) → IsDigit d → (d == b'+' || d == b'-') ≡ false
no_sign d h = ground arith

scan_exponent-Exponent :
    {e : Text} (rest : Text) → Exponent e → IsEnd rest → scan_exponent (e ++ rest) ≡ ok tt rest
unfolding scan_exponent
scan_exponent-Exponent rest unscaled h = rw (no_exponent rest h) refl
scan_exponent-Exponent rest (scaled e d ds p k) h =
    let mark : (e == b'e' || e == b'E') ≡ true = ground arith in
    rw (mark, no_sign d k.0) (digits_or-append _ d ds rest k (IsEnd-Stops rest h))
scan_exponent-Exponent rest (signed e s d ds p q k) h =
    let mark : (e == b'e' || e == b'E') ≡ true = ground arith in
    let sign : (s == b'+' || s == b'-') ≡ true = ground arith in
    rw (mark, sign) (digits_or-append _ d ds rest k (IsEnd-Stops rest h))

-- The parts of a numeral, one after the other.
scan_parts :
    {w f e : Text} (rest : Text)
    → Whole w
    → Fraction f
    → Exponent e
    → IsEnd rest
    → (bind
        (scan_integer (w ++ (f ++ (e ++ rest))))
        λ _ s1. bind (scan_fraction s1) λ _ s2. scan_exponent s2)
      ≡ ok tt rest
scan_parts {e} rest w f x h =
    let halts = Exponent-Halts rest x h in
    rw
      (
        scan_integer-Whole _ w (Fraction-Stops _ f halts),
        scan_fraction-Fraction (e ++ rest) f halts,
      )
      (scan_exponent-Exponent rest x h)

no_minus : {w : Text} (rest : Text) → Whole w → at b'-' (w ++ rest) ≡ false
no_minus rest nought = refl
no_minus rest (counted d ds p q h) = ground arith

-- The scanner reads a numeral whole.
pub scan_number-IsNumeral :
    {t : Text} (rest : Text) → IsNumeral t → IsEnd rest → scan_number (t ++ rest) ≡ ok tt rest
scan_number-IsNumeral rest (positive {w} {f} {e} p q r) h =
    rw (append_assoc w (f ++ e) rest, append_assoc f e rest, no_minus (f ++ (e ++ rest)) p)
      (scan_parts rest p q r h)
scan_number-IsNumeral rest (negative {w} {f} {e} p q r) h =
    rw (append_assoc w (f ++ e) rest, append_assoc f e rest) (scan_parts rest p q r h)

to_string-Whole : (n : ℕ) → Whole (to_string n)
to_string-Whole zero = unfold to_string in nought
to_string-Whole (suc n) =
    let (d, ds, e, first, digits) = to_string_digits (suc n) (omega arith) in
    subst Whole (sym e) (counted d ds first.0 first.1 digits)

-- An integer is printed as a numeral.
pub show_int-IsNumeral : (i : ℤ) → IsNumeral (show_int i)
unfolding show_int
show_int-IsNumeral (pos n) =
    subst IsNumeral (append-nil (to_string n)) (positive (to_string-Whole n) whole unscaled)
show_int-IsNumeral (negsuc n) =
    subst (λ t. IsNumeral (b'-' ∷ t)) (append-nil (to_string (suc n)))
      (negative (to_string-Whole (suc n)) whole unscaled)
