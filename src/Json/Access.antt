-- ===== src/Json/Access.antt =====
-- src/util/json.h, reading and writing a value in place.
--
-- A read at a key or an index that is not there gives null; a write makes an object or an array of
-- a value that is none.
use testhub.Base.{
  ℕ, zero, suc, ◌≡◌, refl, ap, arith, Bool, true, false, Option, none, some, or_else, is_some, Text,
  text_eq, text_eq_iff, if◌then◌else◌, ◌==◌,
}
use mathlib.Core.Option
use testhub.Base.Int.{ℤ, pos, negsuc}
use testhub.Json.{
  Json, Items, Fields, null, bool, number, string, array, object, nil, cons, end, field,
  insert_field, find_field,
}

abbrev pub is_object : Json → Bool
is_object (object fs) = true
is_object _ = false

abbrev pub is_array : Json → Bool
is_array (array xs) = true
is_array _ = false

abbrev pub as_bool : Json → Bool → Bool
as_bool (bool b) d = b
as_bool _ d = d

abbrev pub as_string : Json → Text → Text
as_string (string s) d = s
as_string _ d = d

-- `asObject` and `asArray`: empty for anything else.
abbrev pub as_object : Json → Fields
as_object (object fs) = fs
as_object _ = end

abbrev pub as_array : Json → Items
as_array (array xs) = xs
as_array _ = nil

unfoldable pub count_items : Items → ℕ
count_items nil = 0
count_items (cons v xs) = suc (count_items xs)

unfoldable pub count_fields : Fields → ℕ
count_fields end = 0
count_fields (field k v fs) = suc (count_fields fs)

unfoldable pub size : Json → ℕ
size (array xs) = count_items xs
size (object fs) = count_fields fs
size _ = 0

abbrev pub contains : Json → Text → Bool
contains j k = is_some (find_field (as_object j) k)

-- `j[key]` of a constant, and `get`.
abbrev pub get : Json → Text → Json
get j k = or_else (find_field (as_object j) k) null

unfoldable pub item_at : Items → ℕ → Option Json
item_at nil i = none
item_at (cons v xs) zero = some v
item_at (cons v xs) (suc i) = item_at xs i

-- `j[index]` of a constant.
unfoldable pub at_index : Json → ℤ → Json
at_index j (negsuc n) = null
at_index j (pos i) = or_else (item_at (as_array j) i) null

-- `j.set(key, value)`.
unfoldable pub set : Json → Text → Json → Json
set j k v = object (insert_field (as_object j) k v)

-- `array_->resize(index + 1)` where the array is shorter, and a write there.
unfoldable pub put_item : Items → ℕ → Json → Items
put_item nil zero v = cons v nil
put_item nil (suc i) v = cons null (put_item nil i v)
put_item (cons w xs) zero v = cons v xs
put_item (cons w xs) (suc i) v = cons w (put_item xs i v)

-- `j[index] = value`; a negative index is an exception.
unfoldable pub set_index : Json → ℤ → Json → Option Json
set_index j (negsuc n) v = none
set_index j (pos i) v = some (array (put_item (as_array j) i v))

unfoldable pub push_item : Items → Json → Items
push_item nil v = cons v nil
push_item (cons w xs) v = cons w (push_item xs v)

unfoldable pub push : Json → Json → Json
push j v = array (push_item (as_array j) v)

unfoldable pub erase_field : Fields → Text → Fields
erase_field end k = end
erase_field (field j v fs) k =
    if text_eq j k then erase_field fs k else field j v (erase_field fs k)

-- `j.erase(key)`.
unfoldable pub erase : Json → Text → Json
erase (object fs) k = object (erase_field fs k)
erase j k = j

find_field-insert_field :
    (fs : Fields) (j k : Text) (v : Json)
    → find_field (insert_field fs k v) j ≡ (if text_eq k j then some v else find_field fs j)
unfolding find_field insert_field
find_field-insert_field end j k v = refl
find_field-insert_field (field i w fs) j k v =
    ground
      (arith, text_eq_iff k j, text_eq_iff i k, text_eq_iff i j, find_field-insert_field fs j k v)

find_field-erase_field :
    (fs : Fields) (j k : Text)
    → find_field (erase_field fs k) j ≡ (if text_eq k j then none else find_field fs j)
unfolding find_field erase_field
find_field-erase_field end j k = ground arith
find_field-erase_field (field i w fs) j k =
    ground (arith, text_eq_iff k j, text_eq_iff i k, text_eq_iff i j, find_field-erase_field fs j k)

get-erase :
    (j : Json) (k k' : Text) → get (erase j k) k' ≡ (if text_eq k k' then null else get j k')
unfolding erase find_field
get-erase (object fs) k k' = ground (arith, find_field-erase_field fs k' k)
get-erase null k k' = ground arith
get-erase (bool b) k k' = ground arith
get-erase (number d) k k' = ground arith
get-erase (string s) k k' = ground arith
get-erase (array xs) k k' = ground arith

abbrev item_or_null : Items → ℕ → Json
item_or_null xs i = or_else (item_at xs i) null

item_or_null-put_item :
    (xs : Items) (i i' : ℕ) (v : Json)
    → item_or_null (put_item xs i v) i' ≡ (if i == i' then v else item_or_null xs i')
unfolding item_at put_item
item_or_null-put_item nil zero zero v = refl
item_or_null-put_item nil zero (suc i') v = ground arith
item_or_null-put_item nil (suc i) zero v = ground arith
item_or_null-put_item nil (suc i) (suc i') v = ground (arith, item_or_null-put_item nil i i' v)
item_or_null-put_item (cons w xs) zero zero v = refl
item_or_null-put_item (cons w xs) zero (suc i') v = ground arith
item_or_null-put_item (cons w xs) (suc i) zero v = ground arith
item_or_null-put_item (cons w xs) (suc i) (suc i') v =
    ground (arith, item_or_null-put_item xs i i' v)

-- What is read after a write: at a key after a write and after an erasure, and at an index after a
-- write. A value that was no object counts as an empty one, one that was no array as an empty
-- array, and what lies between the end of an array and a write behind it is null.
get-set :
    (j : Json) (k k' : Text) (i i' : ℕ) (v : Json)
    → (get (set j k v) k' ≡ (if text_eq k k' then v else get j k'))
      × (get (erase j k) k' ≡ (if text_eq k k' then null else get j k'))
      × (Option.map (λ w. at_index w (pos i')) (set_index j (pos i) v)
          ≡ some (if i == i' then v else at_index j (pos i')))
unfolding set set_index at_index
get-set j k k' i i' v = (
  ground (arith, find_field-insert_field (as_object j) k' k v),
  get-erase j k k',
  ap some (item_or_null-put_item (as_array j) i i' v),
)
