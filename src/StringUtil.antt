-- ===== src/StringUtil.antt =====
-- src/util/string_util.h: the string helpers, over lists of bytes, in the C locale.
--
-- `split` and `replace` search for a string again and again; their loops run on fuel, one round
-- for each byte and one more. With an empty needle the source does not stop, and the fuel ends.
pub mod Case
pub mod Trim
pub mod Split
use mathlib.Core.Option
use testhub.Base.{
  ℕ, zero, suc, ◌+◌, ◌-◌, ◌*◌, Bool, true, false, not, ◌&&◌, ◌||◌, List, [], ◌∷◌, ◌++◌, map, Option,
  none, some, length, is_empty, is_some, is_none, take, drop, ltb, leb, ◌==◌, if◌then◌else◌, Text,
  codes, text_eq,
}
use testhub.Base.Int.{ℤ, pos, negsuc}

-- `std::tolower` and `std::toupper` of one byte.
unfoldable pub lower_byte : ℕ → ℕ
lower_byte c = if leb b'A' c && leb c b'Z' then c + 32 else c

unfoldable pub upper_byte : ℕ → ℕ
upper_byte c = if leb b'a' c && leb c b'z' then c - 32 else c

unfoldable pub to_lower : Text → Text
to_lower = map lower_byte

unfoldable pub to_upper : Text → Text
to_upper = map upper_byte

-- A byte of " \t\n\r\f\v", which are those that `std::isspace` accepts.
unfoldable pub is_space : ℕ → Bool
is_space c = c == 32 || (leb 9 c && leb c 13)

unfoldable pub is_digit : ℕ → Bool
is_digit c = leb b'0' c && leb c b'9'

unfoldable pub is_alpha : ℕ → Bool
is_alpha c = (leb b'a' c && leb c b'z') || (leb b'A' c && leb c b'Z')

unfoldable pub is_alnum : ℕ → Bool
unfolding is_alpha is_digit
is_alnum c = is_alpha c || is_digit c

-- `result.erase(0, result.find_first_not_of(...))`.
unfoldable pub trim_start : Text → Text
trim_start [] = []
trim_start (c ∷ cs) = if is_space c then trim_start cs else c ∷ cs

-- `result.erase(result.find_last_not_of(...) + 1)`.
unfoldable pub trim_end : Text → Text
trim_end [] = []
trim_end (c ∷ cs) = let rest = trim_end cs in if is_space c && is_empty rest then [] else c ∷ rest

abbrev pub trim : Text → Text
trim s = trim_end (trim_start s)

-- `str.compare(0, prefix.length(), prefix) == 0`, where the string is long enough.
unfoldable pub starts_with : Text → Text → Bool
starts_with s [] = true
starts_with [] (p ∷ ps) = false
starts_with (c ∷ cs) (p ∷ ps) = c == p && starts_with cs ps

unfoldable pub ends_with : Text → Text → Bool
ends_with s suffix =
    if ltb (length s) (length suffix)
    then false
    else text_eq (drop (length s - length suffix) s) suffix

-- `str.find(needle)`: where the needle first occurs.
unfoldable pub find_text : Text → Text → Option ℕ
find_text [] needle = if is_empty needle then some 0 else none
find_text (c ∷ cs) needle =
    if starts_with (c ∷ cs) needle then some 0 else Option.map suc (find_text cs needle)

abbrev pub contains : Text → Text → Bool
contains s needle = is_some (find_text s needle)

-- The `while` loop of `split` with the last token, from `start` on.
unfoldable pub split_from : ℕ → Text → Text → List Text
split_from zero s delimiter = []
split_from (suc fuel) s delimiter = elim (find_text s delimiter) [
  | none ↦ s ∷ []
  | some end ↦ take end s ∷ split_from fuel (drop (end + length delimiter) s) delimiter
]

unfoldable pub split : Text → Text → List Text
split s delimiter = if is_empty s then [] else split_from (suc (length s)) s delimiter

join_rest : List Text → Text → Text
join_rest [] delimiter = []
join_rest (t ∷ ts) delimiter = delimiter ++ (t ++ join_rest ts delimiter)

unfoldable pub join : List Text → Text → Text
unfolding join_rest
join [] delimiter = []
join (t ∷ ts) delimiter = t ++ join_rest ts delimiter

-- The `while` loop of `replace`, from `pos` on: what stands before is written already.
unfoldable pub replace_from : ℕ → Text → Text → Text → Text
replace_from zero s from to = s
replace_from (suc fuel) s from to = elim (find_text s from) [
  | none ↦ s
  | some at ↦ take at s ++ (to ++ replace_from fuel (drop (at + length from) s) from to)
]

unfoldable pub replace : Text → Text → Text → Text
replace s from to = replace_from (suc (length s)) s from to

-- The digits of `std::stoi`: the value of the longest run, and whether there was a digit.
digits_value : ℕ → Bool → Text → Option ℕ
digits_value acc seen [] = if seen then some acc else none
digits_value acc seen (c ∷ cs) =
    if is_digit c
    then digits_value (acc * 10 + (c - b'0')) true cs
    else if seen
    then some acc
    else none

-- `std::stoi`; `none` is a thrown exception, for no digits or a value that is no `int`.
signed_value : Bool → Option ℕ → Option ℤ
signed_value negative none = none
signed_value false (some n) = if ltb n 2147483648 then some (pos n) else none
signed_value true (some zero) = some (pos 0)
signed_value true (some (suc n)) = if ltb n 2147483648 then some (negsuc n) else none

stoi_sign : Text → Option ℤ
stoi_sign [] = none
stoi_sign (c ∷ cs) =
    if c == b'-'
    then signed_value true (digits_value 0 false cs)
    else signed_value false (digits_value 0 false (if c == b'+' then cs else c ∷ cs))

unfoldable pub stoi : Text → Option ℤ
unfolding stoi_sign signed_value digits_value
stoi s = stoi_sign (trim_start s)

unfoldable pub to_int : Text → ℤ
to_int s = elim (stoi s) [ none ↦ pos 0 | some n ↦ n ]

unfoldable pub to_bool : Text → Bool
to_bool s =
    let lower = to_lower s in
    text_eq lower (codes "true") || text_eq lower (codes "1") || text_eq lower (codes "yes")

abbrev pub is_blank : Text → Bool
is_blank s = is_empty (trim s)
