-- ===== src/StringUtil/Case.antt =====
-- Changing the case of a string twice is changing it once, and the last change counts.
use testhub.Base.{ℕ, ◌≡◌, refl, arith, [], ◌∷◌, Text}
use testhub.StringUtil.{lower_byte, upper_byte, to_lower, to_upper}

lower_byte_idem : (c : ℕ) → lower_byte (lower_byte c) ≡ lower_byte c
unfolding lower_byte
lower_byte_idem c = ground arith

lower_byte-upper_byte : (c : ℕ) → lower_byte (upper_byte c) ≡ lower_byte c
unfolding lower_byte upper_byte
lower_byte-upper_byte c = ground arith

to_lower_idem : (s : Text) → to_lower (to_lower s) ≡ to_lower s
unfolding to_lower
to_lower_idem [] = refl
to_lower_idem (c ∷ s) = cc (lower_byte_idem c, to_lower_idem s)

-- Two strings that differ in case only are the same in lower case.
to_lower-to_upper : (s : Text) → to_lower (to_upper s) ≡ to_lower s
unfolding to_lower to_upper
to_lower-to_upper [] = refl
to_lower-to_upper (c ∷ s) = cc (lower_byte-upper_byte c, to_lower-to_upper s)
