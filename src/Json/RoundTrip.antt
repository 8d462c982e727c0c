-- ===== src/Json/RoundTrip.antt =====
-- What dump prints, parse reads back.

use mathlib.Core.List.{append_assoc, append-nil}
use testhub.Base.{
  ℕ, zero, suc, ◌<◌, ◌≡◌, ◌≢◌, refl, ap, ◌∙◌, arith, true, false, [], ◌∷◌, ◌++◌, Text,
}
use testhub.Base.Int.{ℤ}
use testhub.Json.{
  Json, Items, Fields, null, bool, number, string, array, object, nil, cons, end, field, Floats,
}
use testhub.Json.Print.{dump_to, dump_items, dump_fields, dump, indent_to, colon_gap, escape}
use testhub.Json.Parse.{
  ok, is_blank, skip_ws, parse_value, parse_items, parse_fields, fuel_for, finish, parse,
}
use testhub.Json.Numerals.{IsEnd}
use testhub.Json.Strings.{parse_string-escape}
use testhub.Json.Readable.{
  FloatLaws, IsReadable, AreReadable, FieldsReadable, Begins, begins, Begins-append, skip_ws-Begins,
  at-Begins, dump_to-Begins, skip_ws-indent_to, skip_ws-colon_gap, dump_items-IsEnd,
  dump_fields-IsEnd,
}
use testhub.Json.Scalars.{read_number, read_string, read_null, read_true, read_false}
use testhub.Json.Steps.{
  step_empty_array, step_array, step_last_item, step_item, step_empty_object, step_object,
  step_last_field, step_field,
}
use testhub.Json.Members.{
  append_fields, append_fields_assoc, insert_field-AllBelow, Follows, Follows-next,
}
use testhub.Json.Need.{need, need_items, need_fields, need-le}

module _ (fl : Floats) (laws : FloatLaws fl) (i : ℤ) where
  -- The items, and the members, without what stands in front of the first.
  abbrev items_text : Items → ℕ → Text
  items_text nil k = []
  items_text (cons v xs) k = dump_to fl v i (suc k) ++ dump_items fl xs false i k

  abbrev members_text : Fields → ℕ → Text
  members_text end k = []
  members_text (field j v fs) k =
      escape j ++ (b':' ∷ (colon_gap i ++ (dump_to fl v i (suc k) ++ dump_fields fl fs false i k)))

  items_text-Begins :
      (xs : Items) (k n : ℕ) → xs ≢ nil → AreReadable fl xs n → Begins (items_text xs k)
  unfolding IsReadable
  items_text-Begins nil k n h r = absurd (h refl)
  items_text-Begins (cons v xs) k n h r = Begins-append _ (dump_to-Begins fl laws v i (suc k) n r.0)

  skip_indent :
      (k : ℕ) {t : Text} (rest : Text)
      → Begins t
      → skip_ws ((indent_to i k ++ t) ++ rest) ≡ t ++ rest
  skip_indent k {t} rest h =
      rw (append_assoc (indent_to i k) t rest, skip_ws-indent_to i k (t ++ rest))
        (skip_ws-Begins (Begins-append rest h))

  skip_last_item :
      (k : ℕ) (rest : Text) → skip_ws (dump_items fl nil false i k ++ rest) ≡ b']' ∷ rest
  unfolding dump_to skip_ws is_blank
  skip_last_item k rest =
      rw (append_assoc (indent_to i k) (b']' ∷ []) rest) (skip_ws-indent_to i k (b']' ∷ rest))

  skip_item :
      (v : Json) (xs : Items) (k : ℕ) (rest : Text)
      → skip_ws (dump_items fl (cons v xs) false i k ++ rest)
        ≡ b',' ∷ ((indent_to i (suc k) ++ items_text (cons v xs) k) ++ rest)
  unfolding dump_to skip_ws is_blank
  skip_item v xs k rest = refl

  skip_last_field :
      (k : ℕ) (rest : Text) → skip_ws (dump_fields fl end false i k ++ rest) ≡ b'}' ∷ rest
  unfolding dump_to skip_ws is_blank
  skip_last_field k rest =
      rw (append_assoc (indent_to i k) (b'}' ∷ []) rest) (skip_ws-indent_to i k (b'}' ∷ rest))

  skip_field :
      (j : Text) (v : Json) (fs : Fields) (k : ℕ) (rest : Text)
      → skip_ws (dump_fields fl (field j v fs) false i k ++ rest)
        ≡ b',' ∷ ((indent_to i (suc k) ++ members_text (field j v fs) k) ++ rest)
  unfolding dump_to skip_ws is_blank
  skip_field j v fs k rest = refl

  members_text-Begins :
      (j : Text) (v : Json) (fs : Fields) (k : ℕ) → Begins (members_text (field j v fs) k)
  unfolding is_blank
  members_text-Begins j v fs k = begins b'"' _ refl refl

  -- What stands behind a key.
  abbrev colon_text : Json → Fields → ℕ → Text → Text
  colon_text v fs k rest =
      b':' ∷ (colon_gap i ++ (dump_to fl v i (suc k) ++ (dump_fields fl fs false i k ++ rest)))

  members_text-append :
      (j : Text) (v : Json) (fs : Fields) (k : ℕ) (rest : Text)
      → members_text (field j v fs) k ++ rest ≡ escape j ++ colon_text v fs k rest
  members_text-append j v fs k rest =
      let d = dump_to fl v i (suc k) in
      let more = dump_fields fl fs false i k in
      append_assoc (escape j) (b':' ∷ (colon_gap i ++ (d ++ more))) rest
      ∙ ap (λ t. escape j ++ (b':' ∷ t))
          (append_assoc (colon_gap i) (d ++ more) rest
            ∙ ap (λ t. colon_gap i ++ t) (append_assoc d more rest))

  -- A value in an array, and one in an object, as the loops read them.
  item_lem :
      (v : Json) (xs : Items) (k n f : ℕ) (s rest : Text)
      → skip_ws s ≡ items_text (cons v xs) k ++ rest
      → parse_value fl f n (dump_to fl v i (suc k) ++ (dump_items fl xs false i k ++ rest))
        ≡ ok v (dump_items fl xs false i k ++ rest)
      → parse_value fl f n (skip_ws s) ≡ ok v (dump_items fl xs false i k ++ rest)
  item_lem v xs k n f s rest e read =
      rw (e, append_assoc (dump_to fl v i (suc k)) (dump_items fl xs false i k) rest) read

  member_lem :
      (v : Json) (fs : Fields) (k n m f : ℕ) (rest : Text)
      → IsReadable fl v m
      → parse_value fl f n (dump_to fl v i (suc k) ++ (dump_fields fl fs false i k ++ rest))
        ≡ ok v (dump_fields fl fs false i k ++ rest)
      → parse_value fl f n (
          skip_ws
            (colon_gap i ++ (dump_to fl v i (suc k) ++ (dump_fields fl fs false i k ++ rest))))
        ≡ ok v (dump_fields fl fs false i k ++ rest)
  member_lem v fs k n m f rest r read =
      rw
        (
          skip_ws-colon_gap i (dump_to fl v i (suc k) ++ (dump_fields fl fs false i k ++ rest)),
          skip_ws-Begins (
              Begins-append (dump_fields fl fs false i k ++ rest)
                (dump_to-Begins fl laws v i (suc k) m r)),
        )
        read

  mutual
    unfolding IsReadable need dump_to skip_ws is_blank

    value_lem :
        (v : Json) (k n f : ℕ) (rest : Text)
        → IsReadable fl v n
        → IsEnd rest
        → need v < f
        → parse_value fl f n (dump_to fl v i k ++ rest) ≡ ok v rest
    value_lem v k n zero rest r e h = absurd (omega arith)
    value_lem null k n (suc f) rest r e h = read_null fl f n rest
    value_lem (bool true) k n (suc f) rest r e h = read_true fl f n rest
    value_lem (bool false) k n (suc f) rest r e h = read_false fl f n rest
    value_lem (number d) k n (suc f) rest r e h = read_number fl laws d f n rest r e
    value_lem (string s) k n (suc f) rest r e h = read_string fl s f n rest
    value_lem (array xs) k n (suc zero) rest r e h = absurd (omega arith)
    value_lem (array nil) k n (suc (suc f)) rest r e h = step_empty_array fl f n _ rest r.0 refl
    value_lem (array (cons v xs)) k n (suc (suc f)) rest r e h =
        let start = items_text-Begins (cons v xs) k (suc n) (λ p. cc) r.1 in
        let front = skip_indent (suc k) rest start in
        step_array fl f n _ rest r.0 (rw front (at-Begins (Begins-append rest start))) (
          items_lem (cons v xs) k (suc n) f _ rest (λ p. cc) r.1 (omega arith)
            (rw front (skip_ws-Begins (Begins-append rest start))))
    value_lem (object fs) k n (suc zero) rest r e h = absurd (omega arith)
    value_lem (object end) k n (suc (suc f)) rest r e h = step_empty_object fl f n _ rest r.0 refl
    value_lem (object (field j v fs)) k n (suc (suc f)) rest r e h =
        let start = members_text-Begins j v fs k in
        let front = skip_indent (suc k) rest start in
        step_object fl f n _ rest r.0 (rw front refl) (
          fields_lem (field j v fs) end k (suc n) f _ rest (λ p. cc) r.1.1 (tt, r.1.0) (omega arith)
            (rw front (skip_ws-Begins (Begins-append rest start))))

    items_lem :
        (xs : Items) (k n f : ℕ) (s rest : Text)
        → xs ≢ nil
        → AreReadable fl xs n
        → need_items xs < f
        → skip_ws s ≡ items_text xs k ++ rest
        → parse_items fl f n s ≡ ok xs rest
    items_lem nil k n f s rest c r h e = absurd (c refl)
    items_lem (cons v xs) k n zero s rest c r h e = absurd (omega arith)
    items_lem (cons v nil) k n (suc f) s rest c r h e =
        step_last_item fl f n s _ rest
          (item_lem v nil k n f s rest e
            (value_lem v (suc k) n f _ r.0 (dump_items-IsEnd fl nil i k rest) (omega arith)))
          (skip_last_item k rest)
    items_lem (cons v (cons w xs)) k n (suc f) s rest c r h e =
        step_item fl f n s _ _ rest
          (item_lem v (cons w xs) k n f s rest e (
            value_lem v (suc k) n f _ r.0 (dump_items-IsEnd fl (cons w xs) i k rest) (omega arith)))
          (skip_item w xs k rest)
          (items_lem (cons w xs) k n f _ rest (λ p. cc) r.1 (omega arith)
            (skip_indent (suc k) rest (items_text-Begins (cons w xs) k n (λ p. cc) r.1)))

    fields_lem :
        (fs acc : Fields) (k n f : ℕ) (s rest : Text)
        → fs ≢ end
        → FieldsReadable fl fs n
        → Follows acc fs
        → need_fields fs < f
        → skip_ws s ≡ members_text fs k ++ rest
        → parse_fields fl f n s acc ≡ ok (append_fields acc fs) rest
    fields_lem end acc k n f s rest c r o h e = absurd (c refl)
    fields_lem (field j v fs) acc k n zero s rest c r o h e = absurd (omega arith)
    fields_lem (field j v end) acc k n (suc f) s rest c r o h e =
        let text = e ∙ members_text-append j v end k rest in
        let read =
          member_lem v end k n n f rest r.0
            (value_lem v (suc k) n f _ r.0 (dump_fields-IsEnd fl end i k rest) (omega arith)) in
        let left = dump_fields fl end false i k ++ rest in
        step_last_field fl f n s (colon_text v end k rest)
          (colon_gap i ++ (dump_to fl v i (suc k) ++ left)) left {k = j} {v = v} acc (rw text refl)
          (rw text (parse_string-escape j (colon_text v end k rest))) refl read rest
          (skip_last_field k rest)
        ∙ ap (λ fs. ok fs rest) (insert_field-AllBelow acc j v o.0)
    fields_lem (field j v (field l w fs)) acc k n (suc f) s rest c r o h e =
        let text = e ∙ members_text-append j v (field l w fs) k rest in
        let read = member_lem v (field l w fs) k n n f rest r.0 (
          value_lem v (suc k) n f _ r.0 (dump_fields-IsEnd fl (field l w fs) i k rest)
            (omega arith)) in
        let acc' = append_fields acc (field j v end) in
        let more =
          fields_lem (field l w fs) acc' k n f
            ((indent_to i (suc k) ++ members_text (field l w fs) k) ++ rest) rest (λ p. cc) r.1
            (Follows-next acc (field l w fs) j v o) (omega arith)
            (skip_indent (suc k) rest (members_text-Begins l w fs k)) in
        let left = dump_fields fl (field l w fs) false i k ++ rest in
        step_field fl f n s (colon_text v (field l w fs) k rest)
          (colon_gap i ++ (dump_to fl v i (suc k) ++ left)) left {k = j} {v = v} acc (rw text refl)
          (rw text (parse_string-escape j (colon_text v (field l w fs) k rest))) refl read
          ((indent_to i (suc k) ++ members_text (field l w fs) k) ++ rest) rest
          (skip_field l w fs k rest)
          (rw (insert_field-AllBelow acc j v o.0)
            (more ∙ ap (λ gs. ok gs rest) (append_fields_assoc acc (field j v end) (field l w fs))))

-- Where printf and strtod behave as documented: `parse` reads back what `dump` prints, with or
-- without line breaks, for a value whose numbers are finite and survive printing, whose objects list
-- their keys in order, and which is nested at most 512 deep.
pub parse-dump :
    (fl : Floats)
    → FloatLaws fl
    → (v : Json) (indent : ℤ) → IsReadable fl v 0
    → parse fl (dump fl v indent) ≡ ok v []
unfolding parse finish skip_ws
parse-dump fl laws v indent r =
    let front = skip_ws-Begins (dump_to-Begins fl laws v indent 0 0 r) in
    let whole =
      value_lem fl laws indent v 0 0 (fuel_for fl (dump fl v indent)) [] r tt
        (omega (arith, need-le fl v indent 0)) in
    rw (front, rw append-nil at whole) refl
