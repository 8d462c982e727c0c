-- ===== src/Json/Readable.antt =====
-- Which values are read back, and what their texts begin with.
use mathlib.Core.List.{append_assoc}
use testhub.Base.{
  ℕ, zero, suc, ◌*◌, ◌≤◌, ◌≡◌, refl, arith, ◌==◌, true, false, ◌∷◌, ◌++◌, [], none, Option-cases,
  inl, inr, Text, text_lt,
}
use testhub.Base.Int.{ℤ, pos, negsuc}
use testhub.Json.{
  Json, Items, Fields, null, bool, number, string, array, object, nil, cons, end, field, Floats,
  is_finite,
}
use testhub.Json.Print.{dump_to, dump_number, dump_items, dump_fields, indent_to, spaces, colon_gap}
use testhub.Json.Parse.{is_blank, skip_ws, at, max_depth}
use testhub.Json.Numerals.{
  Whole, nought, counted, IsNumeral, positive, negative, show_int-IsNumeral, IsEnd,
}

-- The documented behaviour of printf and strtod that the code relies on: a finite number is printed
-- as a numeral, and strtod stops behind it.
pub record FloatLaws (fl : Floats) : Type 0 where
  pub show_numeral :
      (d : ℕ) → is_finite d ≡ true → fl.small_integer d ≡ none → IsNumeral (fl.show d)
  pub strtod_stops :
      (t rest : Text) → IsNumeral t → IsEnd rest → fl.strtod (t ++ rest) ≡ fl.strtod t

-- The keys in strictly rising order, behind `k`.
abbrev pub RisesFrom : Text → Fields → Type 0
RisesFrom k end = Unit
RisesFrom k (field j v fs) = (text_lt k j ≡ true) × RisesFrom j fs

abbrev pub Rises : Fields → Type 0
Rises end = Unit
Rises (field k v fs) = RisesFrom k fs

module _ (fl : Floats) where
  -- The number is finite, and is the one that its text stands for.
  abbrev pub IsExact : ℕ → Type 0
  IsExact d = (is_finite d ≡ true) × (fl.strtod (dump_number fl d) ≡ d)

  -- A value below `n` containers: its numbers are exact, its objects are in order, and it is not
  -- nested too deep.
  unfoldable mutual
    pub IsReadable : Json → ℕ → Type 0
    IsReadable null n = Unit
    IsReadable (bool b) n = Unit
    IsReadable (number d) n = IsExact d
    IsReadable (string s) n = Unit
    IsReadable (array xs) n = (suc n ≤ max_depth) × AreReadable xs (suc n)
    IsReadable (object fs) n = (suc n ≤ max_depth) × (Rises fs × FieldsReadable fs (suc n))

    pub AreReadable : Items → ℕ → Type 0
    AreReadable nil n = Unit
    AreReadable (cons v xs) n = IsReadable v n × AreReadable xs n

    pub FieldsReadable : Fields → ℕ → Type 0
    FieldsReadable end n = Unit
    FieldsReadable (field k v fs) n = IsReadable v n × FieldsReadable fs n

  module _ (laws : FloatLaws fl) where
    pub dump_number-IsNumeral : (d : ℕ) → is_finite d ≡ true → IsNumeral (dump_number fl d)
    unfolding dump_number
    dump_number-IsNumeral d h = elim (Option-cases (fl.small_integer d)) [
      | inl e ↦ rw (h, e) (laws.show_numeral d h e)
      | inr (i, e) ↦ rw (h, e) (show_int-IsNumeral i)
    ]

-- A text that begins neither with a blank nor with a closing bracket.
pub data Begins : Text → Type 0 where
  begins : (c : ℕ) (s : Text) → is_blank c ≡ false → (c == b']') ≡ false → Begins (c ∷ s)

pub Begins-append : {t : Text} (s : Text) → Begins t → Begins (t ++ s)
Begins-append s (begins c t p q) = begins c (t ++ s) p q

pub skip_ws-Begins : {t : Text} → Begins t → skip_ws t ≡ t
unfolding skip_ws
skip_ws-Begins (begins c s p q) = rw p refl

pub at-Begins : {t : Text} → Begins t → at b']' t ≡ false
at-Begins (begins c s p q) = q

Whole-Begins : {w : Text} → Whole w → Begins w
unfolding is_blank
Whole-Begins nought = begins b'0' [] refl refl
Whole-Begins (counted d ds p q h) = begins d ds (ground arith) (ground arith)

IsNumeral-Begins : {t : Text} → IsNumeral t → Begins t
unfolding is_blank
IsNumeral-Begins (positive w f e) = Begins-append _ (Whole-Begins w)
IsNumeral-Begins (negative w f e) = begins b'-' _ refl refl

module _ (fl : Floats) (laws : FloatLaws fl) where
  pub dump_to-Begins : (v : Json) (i : ℤ) (k n : ℕ) → IsReadable fl v n → Begins (dump_to fl v i k)
  unfolding dump_to IsReadable is_blank
  dump_to-Begins null i k n r = begins b'n' _ refl refl
  dump_to-Begins (bool true) i k n r = begins b't' _ refl refl
  dump_to-Begins (bool false) i k n r = begins b'f' _ refl refl
  dump_to-Begins (number d) i k n r = IsNumeral-Begins (dump_number-IsNumeral fl laws d r.0)
  dump_to-Begins (string s) i k n r = begins b'"' _ refl refl
  dump_to-Begins (array xs) i k n r = begins b'[' _ refl refl
  dump_to-Begins (object fs) i k n r = begins b'{' _ refl refl

skip_ws-spaces : (n : ℕ) (s : Text) → skip_ws (spaces n ++ s) ≡ skip_ws s
unfolding skip_ws spaces is_blank
skip_ws-spaces zero s = refl
skip_ws-spaces (suc n) s = skip_ws-spaces n s

pub skip_ws-indent_to : (i : ℤ) (k : ℕ) (s : Text) → skip_ws (indent_to i k ++ s) ≡ skip_ws s
unfolding skip_ws indent_to is_blank
skip_ws-indent_to (pos n) k s = skip_ws-spaces (n * k) s
skip_ws-indent_to (negsuc n) k s = refl

pub skip_ws-colon_gap : (i : ℤ) (s : Text) → skip_ws (colon_gap i ++ s) ≡ skip_ws s
unfolding skip_ws colon_gap is_blank
skip_ws-colon_gap (pos n) s = refl
skip_ws-colon_gap (negsuc n) s = refl

IsEnd-indent_to :
    (i : ℤ) (k : ℕ) (c : ℕ) (s : Text) → IsEnd (c ∷ s) → IsEnd (indent_to i k ++ (c ∷ s))
unfolding indent_to is_blank
IsEnd-indent_to (pos n) k c s h = refl
IsEnd-indent_to (negsuc n) k c s h = h

module _ (fl : Floats) where
  -- What follows a value in a container may follow a number.
  pub dump_items-IsEnd :
      (xs : Items) (i : ℤ) (k : ℕ) (rest : Text) → IsEnd (dump_items fl xs false i k ++ rest)
  unfolding dump_to is_blank
  dump_items-IsEnd nil i k rest =
      rw (append_assoc (indent_to i k) (b']' ∷ []) rest) (IsEnd-indent_to i k b']' rest refl)
  dump_items-IsEnd (cons v xs) i k rest = refl

  pub dump_fields-IsEnd :
      (fs : Fields) (i : ℤ) (k : ℕ) (rest : Text) → IsEnd (dump_fields fl fs false i k ++ rest)
  unfolding dump_to is_blank
  dump_fields-IsEnd end i k rest =
      rw (append_assoc (indent_to i k) (b'}' ∷ []) rest) (IsEnd-indent_to i k b'}' rest refl)
  dump_fields-IsEnd (field j v fs) i k rest = refl
