-- ===== src/Json.antt =====
-- src/util/json.h, class Json: the values and how they are read and written in place.
--
-- A double is its bit pattern. What floor, fabs, printf and strtod make of it is the parameter
-- Floats. A container is not shared: a copy is another value.
pub mod Print
pub mod Parse
pub mod Access
pub mod Numerals
pub mod Strings
pub mod Steps
pub mod Readable
pub mod Scalars
pub mod Fuel
pub mod Members
pub mod Need
pub mod RoundTrip
use testhub.Base.{
  ℕ, ◌-◌, ◌/◌, ◌%◌, ◌^◌, ◌==◌, Bool, true, false, Option, none, some, Text, text_eq, text_lt,
  if◌then◌else◌,
}
use testhub.Base.Int.{ℤ}

-- An object holds its members in the order of the keys, as `std::map` does.
mutual
  pub data Json : Type 0 where
    null : Json
    bool : Bool → Json
    number : ℕ → Json
    string : Text → Json
    array : Items → Json
    object : Fields → Json

  pub data Items : Type 0 where
    nil : Items
    cons : Json → Items → Items

  pub data Fields : Type 0 where
    end : Fields
    field : Text → Json → Fields → Fields

pub record Floats : Type 0 where
  -- The integer that a double is, if it is one and its absolute value is below 1e15.
  pub small_integer : ℕ → Option ℤ
  -- `%.17g`.
  pub show : ℕ → Text
  -- `strtod`, of a text that begins with a number.
  pub strtod : Text → ℕ
  -- `static_cast<long long>`, of any double.
  pub truncate : ℕ → ℤ

-- `!(isnan(d) || isinf(d))`: the exponent is not the largest.
abbrev pub is_finite : ℕ → Bool
is_finite d = elim (d / 2 ^ 52 % 2 ^ 11 == 2 ^ 11 - 1) [ true ↦ false | false ↦ true ]

-- `obj[key] = value`.
unfoldable pub insert_field : Fields → Text → Json → Fields
insert_field end k v = field k v end
insert_field (field j w fs) k v =
    if text_eq j k
    then field k v fs
    else if text_lt k j
    then field k v (field j w fs)
    else field j w (insert_field fs k v)

unfoldable pub find_field : Fields → Text → Option Json
find_field end k = none
find_field (field j w fs) k = if text_eq j k then some w else find_field fs k
