-- ===== src/Json/Need.antt =====
-- The fuel that the parser takes for a printed value, and that it has as much.

use testhub.Base.{
  ℕ, suc, ◌+◌, ◌*◌, ◌≤◌, ◌≡◌, arith, Bool, true, false, [], ◌∷◌, ◌++◌, length, length-append, Text,
}
use testhub.Base.Int.{ℤ}
use testhub.Json.{
  Json, Items, Fields, null, bool, number, string, array, object, nil, cons, end, field, Floats,
}
use testhub.Json.Print.{dump_to, dump_items, dump_fields, indent_to, colon_gap, escape}

-- How much fuel the parser takes for a printed value.
unfoldable mutual
  pub need : Json → ℕ
  need null = 1
  need (bool b) = 1
  need (number d) = 1
  need (string s) = 1
  need (array xs) = 2 + need_items xs
  need (object fs) = 2 + need_fields fs

  pub need_items : Items → ℕ
  need_items nil = 0
  need_items (cons v xs) = 1 + need v + need_items xs

  pub need_fields : Fields → ℕ
  need_fields end = 0
  need_fields (field k v fs) = 1 + need v + need_fields fs

abbrev slack : Bool → ℕ
slack true = 0
slack false = 2

text_length : (s t : Text) → length (s ++ t) ≡ length s + length t
text_length s t = length-append s t

member_length :
    (j : Text) (i : ℤ) (k : ℕ) (d more : Text)
    → length d + length more
      ≤ length (indent_to i (suc k) ++ (escape j ++ (b':' ∷ (colon_gap i ++ (d ++ more)))))
member_length j i k d more = omega (
  arith,
  text_length (indent_to i (suc k)) (escape j ++ (b':' ∷ (colon_gap i ++ (d ++ more)))),
  text_length (escape j) (b':' ∷ (colon_gap i ++ (d ++ more))),
  text_length (colon_gap i) (d ++ more),
  text_length d more,
)

-- The fuel that `parse` gives is enough for a printed value.
mutual
  unfolding need dump_to

  pub need-le :
      (fl : Floats) (v : Json) (i : ℤ) (k : ℕ) → need v ≤ 3 * length (dump_to fl v i k) + 1
  need-le fl null i k = omega arith
  need-le fl (bool true) i k = omega arith
  need-le fl (bool false) i k = omega arith
  need-le fl (number d) i k = omega arith
  need-le fl (string s) i k = omega arith
  need-le fl (array xs) i k = omega (arith, need_items-le fl xs true i k)
  need-le fl (object fs) i k = omega (arith, need_fields-le fl fs true i k)

  need_items-le :
      (fl : Floats) (xs : Items) (first : Bool) (i : ℤ) (k : ℕ)
      → need_items xs + slack first ≤ 3 * length (dump_items fl xs first i k) + 1
  need_items-le fl nil true i k = omega arith
  need_items-le fl nil false i k = omega (arith, text_length (indent_to i k) (b']' ∷ []))
  need_items-le fl (cons v xs) true i k =
      let d = dump_to fl v i (suc k) in
      let more = dump_items fl xs false i k in
      omega (
        arith,
        text_length (indent_to i (suc k)) (d ++ more),
        text_length d more,
        need-le fl v i (suc k),
        need_items-le fl xs false i k,
      )
  need_items-le fl (cons v xs) false i k =
      let d = dump_to fl v i (suc k) in
      let more = dump_items fl xs false i k in
      omega (
        arith,
        text_length (indent_to i (suc k)) (d ++ more),
        text_length d more,
        need-le fl v i (suc k),
        need_items-le fl xs false i k,
      )

  need_fields-le :
      (fl : Floats) (fs : Fields) (first : Bool) (i : ℤ) (k : ℕ)
      → need_fields fs + slack first ≤ 3 * length (dump_fields fl fs first i k) + 1
  need_fields-le fl end true i k = omega arith
  need_fields-le fl end false i k = omega (arith, text_length (indent_to i k) (b'}' ∷ []))
  need_fields-le fl (field j v fs) true i k =
      let d = dump_to fl v i (suc k) in
      let more = dump_fields fl fs false i k in
      omega
        (arith, member_length j i k d more, need-le fl v i (suc k), need_fields-le fl fs false i k)
  need_fields-le fl (field j v fs) false i k =
      let d = dump_to fl v i (suc k) in
      let more = dump_fields fl fs false i k in
      omega
        (arith, member_length j i k d more, need-le fl v i (suc k), need_fields-le fl fs false i k)
