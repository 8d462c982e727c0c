-- ===== src/Base/Texts.antt =====
-- `std::string` as the list of its bytes, with the comparisons of whole strings.
use Prim.Native.Nat.{ℕ, zero, suc, ◌+◌, ◌/◌, ◌%◌, ◌<◌, ◌≤◌}
use Prim.Native.Char.{code}
use Prim.Native.String.{String}
use mathlib.Core.Path.{◌≡◌, refl, sym, ap, ◌∙◌}
use mathlib.Core.Logic.{◌↔◌, inl, inr}
use mathlib.Core.Bool.{Bool, true, false, ◌&&◌, ◌||◌}
use mathlib.Core.Option.{Option, none, some}
use mathlib.Core.List.{List, [], ◌∷◌, ◌++◌, append_assoc, append-nil}
use native.Mathlib.Omega.{arith}
use testhub.Base.Lists.{All, All-append}
use testhub.Base.Tests.{Bool-cases, ◌==◌, ltb, if◌then◌else◌}

abbrev pub Text : Type 0
Text = List ℕ

-- The bytes of an ASCII literal.
abbrev pub codes : String → Text
codes String.[] = []
codes (String.◌∷◌ c s) = code c ∷ codes s

-- `operator==` of strings.
unfoldable pub text_eq : Text → Text → Bool
text_eq [] [] = true
text_eq (x ∷ xs) (y ∷ ys) = x == y && text_eq xs ys
text_eq _ _ = false

pub text_eq_iff : (a b : Text) → (text_eq a b ≡ true) ↔ (a ≡ b)
unfolding text_eq
text_eq_iff (x ∷ a) (y ∷ b) = ground (arith, text_eq_iff a b)
text_eq_iff _ _ = ground arith

pub text_eq_refl : (a : Text) → text_eq a a ≡ true
text_eq_refl a = (text_eq_iff a a).1 refl

pub text_eq_comm : (a b : Text) → text_eq a b ≡ text_eq b a
unfolding text_eq
text_eq_comm (x ∷ a) (y ∷ b) = ground (arith, text_eq_comm a b)
text_eq_comm _ _ = ground arith

-- `operator<` of strings, byte by byte.
unfoldable pub text_lt : Text → Text → Bool
text_lt a [] = false
text_lt [] (y ∷ b) = true
text_lt (x ∷ a) (y ∷ b) = ltb x y || (x == y && text_lt a b)

pub text_lt_irrefl : (a : Text) → text_lt a a ≡ false
unfolding text_lt
text_lt_irrefl [] = refl
text_lt_irrefl (x ∷ a) = ground (arith, text_lt_irrefl a)

pub text_lt_trans : (a b c : Text) → text_lt a b ≡ true → text_lt b c ≡ true → text_lt a c ≡ true
unfolding text_lt
text_lt_trans a [] c h k = cc
text_lt_trans a (y ∷ b) [] h k = cc
text_lt_trans [] (y ∷ b) (z ∷ c) h k = refl
text_lt_trans (x ∷ a) (y ∷ b) (z ∷ c) h k = ground (arith, text_lt_trans a b c)

-- Two strings are equal or ordered.
pub text_lt_connex : (a b : Text) → text_eq a b ≡ false → text_lt a b ≡ false → text_lt b a ≡ true
unfolding text_lt text_eq
text_lt_connex [] [] h k = cc
text_lt_connex [] (y ∷ b) h k = cc
text_lt_connex (x ∷ a) [] h k = refl
text_lt_connex (x ∷ a) (y ∷ b) h k = ground (arith, text_lt_connex a b)

-- `std::to_string` of a number that is not negative; the fuel is more than the number of digits.
digits_on : ℕ → ℕ → Text → Text
digits_on zero n rest = rest
digits_on (suc f) n rest =
    let more = digits_on f (n / 10) ((b'0' + n % 10) ∷ rest) in
    if ltb n 10 then (b'0' + n) ∷ rest else more

unfoldable pub to_string : ℕ → Text
unfolding digits_on
to_string n = digits_on (suc n) n []

digits_on_lem :
    (f n : ℕ) (rest : Text)
    → 0 < n
    → n < f
    → (d : ℕ) × (ds : Text) × (digits_on f n rest ≡ d ∷ (ds ++ rest))
      × ((b'1' ≤ d) × (d ≤ b'9'))
      × All (λ c. (b'0' ≤ c) × (c ≤ b'9')) ds
unfolding digits_on
digits_on_lem zero n rest p h = absurd (omega arith)
digits_on_lem (suc f) n rest p h = elim (Bool-cases (ltb n 10)) [
  | inl small ↦ (b'0' + n, [], rw small refl, ground arith, tt)
  | inr large ↦
      let last = b'0' + n % 10 in
      let (d, ds, e, first, digits) =
        digits_on_lem f (n / 10) (last ∷ rest) (ground arith) (ground arith) in
      (
        d,
        ds ++ (last ∷ []),
        rw large (e ∙ ap (λ t. d ∷ t) (sym (append_assoc ds (last ∷ []) rest))),
        first,
        All-append _ ds (last ∷ []) digits ((omega arith, omega arith), tt),
      )
]

-- A positive number begins with a digit that is not zero.
pub to_string_digits :
    (n : ℕ)
    → 0 < n
    → (d : ℕ) × (ds : Text) × (to_string n ≡ d ∷ ds)
      × ((b'1' ≤ d) × (d ≤ b'9'))
      × All (λ c. (b'0' ≤ c) × (c ≤ b'9')) ds
unfolding to_string
to_string_digits n p =
    let (d, ds, e, first, digits) = digits_on_lem (suc n) n [] p (omega arith) in
    (d, ds, rw (append-nil ds) at e, first, digits)

-- `%03u` of a number below 1000.
unfoldable pub three_digits : ℕ → Text
three_digits n = (b'0' + n / 100) ∷ (b'0' + n / 10 % 10) ∷ (b'0' + n % 10) ∷ []

-- `std::find(ids.begin(), ids.end(), id) != ids.end()`.
abbrev pub mem_text : Text → List Text → Bool
mem_text id [] = false
mem_text id (x ∷ xs) = text_eq x id || mem_text id xs

pub mem_text-append :
    (id : Text) (xs ys : List Text) → mem_text id (xs ++ ys) ≡ (mem_text id xs || mem_text id ys)
mem_text-append id [] ys = refl
mem_text-append id (x ∷ xs) ys = ground (arith, mem_text-append id xs ys)

-- No string occurs twice.
abbrev pub IsDistinct : List Text → Type 0
IsDistinct [] = Unit
IsDistinct (x ∷ xs) = (mem_text x xs ≡ false) × IsDistinct xs

-- The text before the first `c`, and what is behind it if there is one.
unfoldable pub cut : ℕ → Text → Text × Option Text
cut c [] = ([], none)
cut c (d ∷ s) =
    let (before, behind) = cut c s in if d == c then ([], some s) else (d ∷ before, behind)
