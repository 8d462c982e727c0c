-- ===== src/Json/Fuel.antt =====
-- The parser ends: with the fuel that `parse` gives, every text has a value or an error.
use testhub.Base.{
  ℕ, zero, suc, ◌+◌, ◌*◌, ◌<◌, ◌≤◌, ◌≡◌, ◌≢◌, refl, arith, ltb, leb, ◌==◌, ◌&&◌, ◌||◌, inl, inr,
  Bool, true, false, [], ◌∷◌, ◌++◌, Option-cases, length, length-drop, drop, is_empty, Text, codes,
  if◌then◌else◌,
}
use testhub.StringUtil.{starts_with}
use testhub.Json.{Fields, Floats, null, bool, end, insert_field}
use testhub.Json.Parse.{
  Result, ok, fail, starved, bind, skip_ws, at, at_digit, expect_literal, skip_digits, digits_or,
  scan_integer, scan_fraction, scan_exponent, scan_number, hex_value, hex_loop, parse_hex4,
  parse_low, parse_unicode, parse_escape, string_loop, parse_string, parse_number, parse_scalar,
  parse_value, parse_array, parse_items, parse_object, parse_fields, finish, parse, max_depth,
}

-- The call ended, and left at most `b` bytes.
data Ends {ℓ} {A : Type ℓ} (b : ℕ) : Result A → Type ℓ where
  leaves : {v : A} {rest : Text} → length rest ≤ b → Ends b (ok v rest)
  failed : {m rest : Text} → Ends b (fail m rest)

module _ {ℓ} {A : Type ℓ} where
  Ends-mono : {a b : ℕ} {r : Result A} → a ≤ b → Ends a r → Ends b r
  Ends-mono h (leaves e) = leaves (omega arith)
  Ends-mono h failed = failed

  Ends-if :
      (t : Bool) {b : ℕ} {x y : Result A}
      → (t ≡ true → Ends b x)
      → (t ≡ false → Ends b y)
      → Ends b (if t then x else y)
  Ends-if true h k = h refl
  Ends-if false h k = k refl

  Ends-ne-starved : {b : ℕ} {r : Result A} → Ends b r → r ≢ starved
  Ends-ne-starved (leaves h) = cc
  Ends-ne-starved failed = cc

Ends-bind {ℓ κ} :
    {A : Type ℓ} {B : Type κ} {a b : ℕ} {r : Result A} {k : A → Text → Result B}
    → Ends a r
    → ((v : A) (rest : Text) → length rest ≤ a → Ends b (k v rest))
    → Ends b (bind r k)
Ends-bind (leaves {v} {rest} e) h = h v rest e
Ends-bind failed h = failed

length-skip_ws-le : (s : Text) → length (skip_ws s) ≤ length s
unfolding skip_ws
length-skip_ws-le [] = omega arith
length-skip_ws-le (c ∷ s) = ground (arith, length-skip_ws-le s)

length-drop-le : (n : ℕ) (s : Text) → length (drop n s) ≤ length s
length-drop-le n s = omega (arith, length-drop n s)

-- What stands at a byte is shorter without it.
drop-at : (c : ℕ) (s : Text) → at c s ≡ true → length (drop 1 s) < length s
drop-at c [] h = cc
drop-at c (d ∷ s) h = omega arith

length-skip_digits-le : (s : Text) → length (skip_digits s) ≤ length s
unfolding skip_digits
length-skip_digits-le [] = omega arith
length-skip_digits-le (c ∷ s) = ground (arith, length-skip_digits-le s)

expect_literal-Ends {ℓ} :
    {A : Type ℓ} (lit : Text) (v : A) (s : Text) → Ends (length s) (expect_literal lit v s)
unfolding expect_literal
expect_literal-Ends lit v s =
    Ends-if (starts_with s lit) (λ _. leaves (length-drop-le (length lit) s)) (λ _. failed)

digits_or-Ends : (m s : Text) → Ends (length s) (digits_or m s)
digits_or-Ends m s = Ends-if (at_digit s) (λ _. leaves (length-skip_digits-le s)) (λ _. failed)

scan_integer-Ends : (s : Text) → Ends (length s) (scan_integer s)
unfolding scan_integer
scan_integer-Ends [] = failed
scan_integer-Ends (c ∷ s) =
    Ends-if (c == b'0') (λ _. leaves (omega arith))
      λ _.
        Ends-if (leb b'1' c && leb c b'9') (λ _. leaves (length-skip_digits-le (c ∷ s)))
          (λ _. failed)

scan_fraction-Ends : (s : Text) → Ends (length s) (scan_fraction s)
unfolding scan_fraction
scan_fraction-Ends s =
    Ends-if (at b'.' s)
      (λ _. Ends-mono (length-drop-le 1 s) (digits_or-Ends (codes "Invalid fraction") (drop 1 s)))
      (λ _. leaves (omega arith))

drop_if-le : (b : Bool) (s : Text) → length (if b then drop 1 s else s) ≤ length s
drop_if-le true s = length-drop-le 1 s
drop_if-le false s = omega arith

scan_exponent-Ends : (s : Text) → Ends (length s) (scan_exponent s)
unfolding scan_exponent
scan_exponent-Ends s =
    let s' = drop 1 s in
    let sign = at b'+' s' || at b'-' s' in
    let shorter : length (if sign then drop 1 s' else s') ≤ length s =
      omega (arith, drop_if-le sign s', length-drop-le 1 s) in
    Ends-if (at b'e' s || at b'E' s)
      (λ _.
        Ends-mono shorter
          (digits_or-Ends (codes "Invalid exponent") (if sign then drop 1 s' else s')))
      (λ _. leaves (omega arith))

scan_number-Ends : (s : Text) → Ends (length s) (scan_number s)
scan_number-Ends s =
    let s' = if at b'-' s then drop 1 s else s in
    Ends-bind (Ends-mono (drop_if-le (at b'-' s) s) (scan_integer-Ends s')) λ _ s1 h.
      Ends-bind (Ends-mono h (scan_fraction-Ends s1)) λ _ s2 k. Ends-mono k (scan_exponent-Ends s2)

hex_loop-Ends : (n v : ℕ) (s : Text) → Ends (length s) (hex_loop n v s)
unfolding hex_loop
hex_loop-Ends zero v s = leaves (omega arith)
hex_loop-Ends (suc n) v [] = failed
hex_loop-Ends (suc n) v (c ∷ s) = elim (Option-cases (hex_value c)) [
  | inl e ↦ rw (e, hex_loop) failed
  | inr (h, e) ↦ rw (e, hex_loop) (Ends-mono (omega arith) (hex_loop-Ends n (v * 16 + h) s))
]

parse_hex4-Ends : (s : Text) → Ends (length s) (parse_hex4 s)
unfolding parse_hex4
parse_hex4-Ends s = Ends-if (ltb (length s) 4) (λ _. failed) (λ _. hex_loop-Ends 4 0 s)

parse_low-Ends : (high : ℕ) (s : Text) → Ends (length s) (parse_low high s)
unfolding parse_low
parse_low-Ends high s =
    Ends-if (starts_with s (codes "\\u"))
      (λ _.
        Ends-bind (Ends-mono (length-drop-le 2 s) (parse_hex4-Ends (drop 2 s)))
          λ low rest h. Ends-if (leb 0xDC00 low && leb low 0xDFFF) (λ _. leaves h) (λ _. failed))
      (λ _. failed)

parse_unicode-Ends : (s : Text) → Ends (length s) (parse_unicode s)
unfolding parse_unicode
parse_unicode-Ends s = Ends-bind (parse_hex4-Ends s) λ cp rest h.
    Ends-if (leb 0xD800 cp && leb cp 0xDBFF) (λ _. Ends-mono h (parse_low-Ends cp rest))
      (λ _. leaves h)

-- One row of the table of escapes.
row :
    (e c v : ℕ) (s : Text) {r : Result Text}
    → Ends (suc (length s)) r
    → Ends (suc (length s)) (if e == c then ok (v ∷ []) s else r)
row e c v s h = Ends-if (e == c) (λ _. leaves (omega arith)) (λ _. h)

parse_escape-Ends : (s : Text) → Ends (length s) (parse_escape s)
unfolding parse_escape
parse_escape-Ends [] = failed
parse_escape-Ends (e ∷ s) = row e b'"' b'"' s (
    row e 92 92 s (
      row e b'/' b'/' s (
        row e b'b' 8 s (
          row e b'f' 12 s (
            row e b'n' 10 s (
              row e b'r' 13 s (
                row e b't' 9 s (
                  Ends-if (e == b'u') (λ _. Ends-mono (omega arith) (parse_unicode-Ends s))
                    (λ _. failed)))))))))

string_loop-Ends :
    (f b : ℕ) (s out : Text) → length s < f → length s ≤ b → Ends b (string_loop f s out)
unfolding string_loop
string_loop-Ends zero b s out h l = absurd (omega arith)
string_loop-Ends (suc f) b [] out h l = failed
string_loop-Ends (suc f) b (c ∷ s) out h l =
    Ends-if (c == b'"') (λ _. leaves (omega arith))
      λ _.
        Ends-if (c == 92)
          (λ _.
            Ends-bind (parse_escape-Ends s)
              λ t rest k. string_loop-Ends f b rest (out ++ t) (omega arith) (omega arith))
          λ _.
            Ends-if (ltb c 32) (λ _. failed)
              (λ _. string_loop-Ends f b s (out ++ (c ∷ [])) (omega arith) (omega arith))

parse_string-Ends : (s : Text) → Ends (length s) (parse_string s)
parse_string-Ends s =
    string_loop-Ends _ _ (drop 1 s) [] (omega (arith, length-drop-le 1 s)) (length-drop-le 1 s)

module _ (fl : Floats) where
  parse_number-Ends : (s : Text) → Ends (length s) (parse_number fl s)
  unfolding parse_number
  parse_number-Ends s = Ends-bind (scan_number-Ends s) (λ _ rest h. leaves h)

  parse_scalar-Ends : (s : Text) → Ends (length s) (parse_scalar fl s)
  unfolding parse_scalar
  parse_scalar-Ends [] = failed
  parse_scalar-Ends (c ∷ s) =
      Ends-if (c == b'"') (λ _. Ends-bind (parse_string-Ends (c ∷ s)) (λ t rest h. leaves h))
        λ _.
          Ends-if (c == b't') (λ _. expect_literal-Ends (codes "true") (bool true) (c ∷ s))
            λ _.
              Ends-if (c == b'f') (λ _. expect_literal-Ends (codes "false") (bool false) (c ∷ s))
                λ _.
                  Ends-if (c == b'n') (λ _. expect_literal-Ends (codes "null") null (c ∷ s))
                    λ _.
                      Ends-if (c == b'-' || (leb b'0' c && leb c b'9'))
                        (λ _. parse_number-Ends (c ∷ s)) (λ _. failed)

  -- The bytes behind the next one that is no blank.
  shorter : (c : ℕ) (s : Text) → at c (skip_ws s) ≡ true → length (drop 1 (skip_ws s)) < length s
  shorter c s h = omega (arith, drop-at c (skip_ws s) h, length-skip_ws-le s)

  inner-lt : (c : ℕ) (s : Text) → at c s ≡ true → length (skip_ws (drop 1 s)) < length s
  inner-lt c s h = omega (arith, drop-at c s h, length-skip_ws-le (drop 1 s))

  mutual
    unfolding parse_value

    value-Ends :
        (f n : ℕ) (s : Text) → 3 * length s + 2 ≤ f → Ends (length s) (parse_value fl f n s)
    value-Ends zero n s h = absurd (omega arith)
    value-Ends (suc f) n s h =
        Ends-if (at b'{' s) (λ e. object-Ends f (suc n) s e (omega arith))
          λ _.
            Ends-if (at b'[' s) (λ e. array-Ends f (suc n) s e (omega arith))
              (λ _. parse_scalar-Ends s)

    array-Ends :
        (f n : ℕ) (s : Text)
        → at b'[' s ≡ true
        → 3 * length s + 1 ≤ f
        → Ends (length s) (parse_array fl f n s)
    array-Ends zero n s e h = absurd (omega arith)
    array-Ends (suc f) n s e h =
        let inner = skip_ws (drop 1 s) in
        let less = inner-lt b'[' s e in
        Ends-if (ltb max_depth n) (λ _. failed)
          λ _.
            Ends-if (at b']' inner) (λ c. leaves (omega (arith, length-drop-le 1 inner)))
              (λ _.
                Ends-bind (items-Ends f n inner (omega arith)) (λ xs rest k. leaves (omega arith)))

    items-Ends :
        (f n : ℕ) (s : Text) → 3 * length s + 3 ≤ f → Ends (length s) (parse_items fl f n s)
    items-Ends zero n s h = absurd (omega arith)
    items-Ends (suc f) n s h =
        let less = length-skip_ws-le s in
        Ends-bind (Ends-mono less (value-Ends f n (skip_ws s) (omega arith))) λ v rest k.
          (let next = skip_ws rest in
            let left : length next ≤ length s = omega (arith, length-skip_ws-le rest) in
            let tail : length (drop 1 next) ≤ length s = omega (arith, length-drop-le 1 next) in
            Ends-if (is_empty next) (λ _. failed)
              λ _.
                Ends-if (at b']' next) (λ _. leaves tail)
                  λ _.
                    Ends-if (at b',' next)
                      (λ c.
                        Ends-bind
                          (Ends-mono tail
                            (items-Ends f n (drop 1 next) (omega (arith, drop-at b',' next c))))
                          (λ xs left k. leaves k))
                      (λ _. failed))

    object-Ends :
        (f n : ℕ) (s : Text)
        → at b'{' s ≡ true
        → 3 * length s + 1 ≤ f
        → Ends (length s) (parse_object fl f n s)
    object-Ends zero n s e h = absurd (omega arith)
    object-Ends (suc f) n s e h =
        let inner = skip_ws (drop 1 s) in
        let less = inner-lt b'{' s e in
        Ends-if (ltb max_depth n) (λ _. failed)
          λ _.
            Ends-if (at b'}' inner) (λ c. leaves (omega (arith, length-drop-le 1 inner)))
              (λ _.
                Ends-bind (fields-Ends f n inner end (omega arith))
                  (λ xs rest k. leaves (omega arith)))

    fields-Ends :
        (f n : ℕ) (s : Text) (acc : Fields)
        → 3 * length s + 3 ≤ f
        → Ends (length s) (parse_fields fl f n s acc)
    fields-Ends zero n s acc h = absurd (omega arith)
    fields-Ends (suc f) n s acc h =
        let start = skip_ws s in
        let less = length-skip_ws-le s in
        Ends-if (at b'"' start)
          (λ _. Ends-bind (Ends-mono less (parse_string-Ends start)) λ key rest k.
            (let colon = skip_ws rest in
              Ends-if (at b':' colon)
                (λ c.
                  let value = skip_ws (drop 1 colon) in
                  let fit : length value < length s =
                    omega (arith, inner-lt b':' colon c, length-skip_ws-le rest) in
                  Ends-bind {a = length value} (value-Ends f n value (omega arith)) λ v left l.
                    (let next = skip_ws left in
                      let tail : length (drop 1 next) ≤ length s =
                        omega (arith, length-drop-le 1 next, length-skip_ws-le left) in
                      Ends-if (is_empty next) (λ _. failed)
                        λ _.
                          Ends-if (at b'}' next) (λ _. leaves tail)
                            λ _.
                              Ends-if (at b',' next)
                                (λ d. Ends-mono tail (
                                  fields-Ends f n (drop 1 next) (insert_field acc key v)
                                    (omega (arith, drop-at b',' next d, length-skip_ws-le left))))
                                (λ _. failed)))
                (λ _. failed)))
          (λ _. failed)

  -- `parse` has a value or an error for every text: the fuel never runs out.
  pub parse-ne-starved : (text : Text) → parse fl text ≢ starved
  unfolding parse finish
  parse-ne-starved text =
      let s = skip_ws text in
      Ends-ne-starved {b = length s} (
        Ends-bind (value-Ends (3 * length s + 2) 0 s (omega arith)) λ v rest h.
          Ends-if (is_empty (skip_ws rest)) (λ _. leaves (omega (arith, length-skip_ws-le rest)))
            (λ _. failed))
