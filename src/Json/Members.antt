-- ===== src/Json/Members.antt =====
-- Members that come in the order of their keys go to the end of an object.

use testhub.Base.{
  ◌≡◌, refl, ap, arith, true, false, Text, text_lt, text_eq, text_eq_iff, text_lt_irrefl,
  text_lt_trans,
}
use testhub.Json.{Json, Fields, end, field, insert_field}
use testhub.Json.Readable.{Rises, RisesFrom}

abbrev pub append_fields : Fields → Fields → Fields
append_fields end gs = gs
append_fields (field k v fs) gs = field k v (append_fields fs gs)

pub append_fields_assoc :
    (fs gs hs : Fields)
    → append_fields (append_fields fs gs) hs ≡ append_fields fs (append_fields gs hs)
append_fields_assoc end gs hs = refl
append_fields_assoc (field k v fs) gs hs = ap (field k v) (append_fields_assoc fs gs hs)

-- The keys of the first are below `k`.
abbrev AllBelow : Fields → Text → Type 0
AllBelow end k = Unit
AllBelow (field j v fs) k = (text_lt j k ≡ true) × AllBelow fs k

AllBelow-concat :
    (acc : Fields) (j k : Text) (v : Json)
    → AllBelow acc j
    → text_lt j k ≡ true
    → AllBelow (append_fields acc (field j v end)) k
AllBelow-concat end j k v b l = (l, tt)
AllBelow-concat (field i w acc) j k v b l =
    (text_lt_trans i j k b.0 l, AllBelow-concat acc j k v b.1 l)

text_lt_asym : (j k : Text) → text_lt j k ≡ true → text_lt k j ≡ false
text_lt_asym j k h = ground (arith, text_lt_trans j k j h, text_lt_irrefl j)

text_lt-ne : (j k : Text) → text_lt j k ≡ true → text_eq j k ≡ false
text_lt-ne j k h = ground (arith, text_eq_iff j k, text_lt_irrefl k)

-- A key above all others goes to the end.
pub insert_field-AllBelow :
    (acc : Fields) (k : Text) (v : Json)
    → AllBelow acc k
    → insert_field acc k v ≡ append_fields acc (field k v end)
unfolding insert_field
insert_field-AllBelow end k v b = refl
insert_field-AllBelow (field j w acc) k v b =
    rw (text_lt-ne j k b.0, text_lt_asym j k b.0)
      (ap (field j w) (insert_field-AllBelow acc k v b.1))

abbrev pub Follows : Fields → Fields → Type 0
Follows acc end = Unit
Follows acc (field k v fs) = AllBelow acc k × RisesFrom k fs

Rises-Follows : (fs : Fields) → Rises fs → Follows end fs
Rises-Follows end h = tt
Rises-Follows (field k v fs) h = (tt, h)

pub Follows-next :
    (acc fs : Fields) (k : Text) (v : Json)
    → Follows acc (field k v fs)
    → Follows (append_fields acc (field k v end)) fs
Follows-next acc end k v h = tt
Follows-next acc (field j w fs) k v h = (AllBelow-concat acc k j v h.0 h.1.0, h.1.1)
