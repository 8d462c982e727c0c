-- ===== src/Json/Steps.antt =====
-- One call of each function of the parser, from the results of the calls that it makes.
use testhub.Base.{ℕ, suc, ◌≤◌, ◌≡◌, refl, arith, ltb, true, false, ◌∷◌, Text}
use testhub.Json.{Json, Items, Fields, array, object, nil, cons, end, Floats, insert_field}
use testhub.Json.Parse.{
  ok, skip_ws, at, parse_string, parse_scalar, parse_value, parse_items, parse_fields, max_depth,
}

module _ (fl : Floats) where
  pub step_scalar :
      (f n : ℕ) (s : Text)
      → at b'{' s ≡ false
      → at b'[' s ≡ false
      → parse_value fl (suc f) n s ≡ parse_scalar fl s
  unfolding parse_value
  step_scalar f n s p q = rw (p, q) refl

  pub step_empty_array :
      (f n : ℕ) (s rest : Text)
      → suc n ≤ max_depth
      → skip_ws s ≡ b']' ∷ rest
      → parse_value fl (suc (suc f)) n (b'[' ∷ s) ≡ ok (array nil) rest
  unfolding parse_value
  step_empty_array f n s rest d p =
      let shallow : ltb max_depth (suc n) ≡ false = ground arith in rw (shallow, p) refl

  pub step_array :
      (f n : ℕ) (s rest : Text) {xs : Items}
      → suc n ≤ max_depth
      → at b']' (skip_ws s) ≡ false
      → parse_items fl f (suc n) (skip_ws s) ≡ ok xs rest
      → parse_value fl (suc (suc f)) n (b'[' ∷ s) ≡ ok (array xs) rest
  unfolding parse_value
  step_array f n s rest d p q =
      let shallow : ltb max_depth (suc n) ≡ false = ground arith in rw (shallow, p, q) refl

  pub step_last_item :
      (f n : ℕ) (s r rest : Text) {v : Json}
      → parse_value fl f n (skip_ws s) ≡ ok v r
      → skip_ws r ≡ b']' ∷ rest
      → parse_items fl (suc f) n s ≡ ok (cons v nil) rest
  unfolding parse_items
  step_last_item f n s r rest p q = rw (p, q) refl

  pub step_item :
      (f n : ℕ) (s r s' rest : Text) {v : Json} {xs : Items}
      → parse_value fl f n (skip_ws s) ≡ ok v r
      → skip_ws r ≡ b',' ∷ s'
      → parse_items fl f n s' ≡ ok xs rest
      → parse_items fl (suc f) n s ≡ ok (cons v xs) rest
  unfolding parse_items
  step_item f n s r s' rest p q h = rw (p, q, h) refl

  pub step_empty_object :
      (f n : ℕ) (s rest : Text)
      → suc n ≤ max_depth
      → skip_ws s ≡ b'}' ∷ rest
      → parse_value fl (suc (suc f)) n (b'{' ∷ s) ≡ ok (object end) rest
  unfolding parse_value
  step_empty_object f n s rest d p =
      let shallow : ltb max_depth (suc n) ≡ false = ground arith in rw (shallow, p) refl

  pub step_object :
      (f n : ℕ) (s rest : Text) {fs : Fields}
      → suc n ≤ max_depth
      → at b'}' (skip_ws s) ≡ false
      → parse_fields fl f (suc n) (skip_ws s) end ≡ ok fs rest
      → parse_value fl (suc (suc f)) n (b'{' ∷ s) ≡ ok (object fs) rest
  unfolding parse_value
  step_object f n s rest d p q =
      let shallow : ltb max_depth (suc n) ≡ false = ground arith in rw (shallow, p, q) refl

  -- A member: its key, the colon and the value.
  module _ (f n : ℕ) (s colon value r : Text) {k : Text} {v : Json} (acc : Fields)
      (quote : at b'"' (skip_ws s) ≡ true) (key : parse_string (skip_ws s) ≡ ok k colon)
      (sign : skip_ws colon ≡ b':' ∷ value)
      (read : parse_value fl f n (skip_ws value) ≡ ok v r) where
    pub step_last_field :
        (rest : Text)
        → skip_ws r ≡ b'}' ∷ rest
        → parse_fields fl (suc f) n s acc ≡ ok (insert_field acc k v) rest
    unfolding parse_fields
    step_last_field rest q = rw (quote, key, sign, read, q) refl

    pub step_field :
        (s' rest : Text) {fs : Fields}
        → skip_ws r ≡ b',' ∷ s'
        → parse_fields fl f n s' (insert_field acc k v) ≡ ok fs rest
        → parse_fields fl (suc f) n s acc ≡ ok fs rest
    unfolding parse_fields
    step_field s' rest q h = rw (quote, key, sign, read, q, h) refl
