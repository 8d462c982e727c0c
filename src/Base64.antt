-- ===== src/Base64.antt =====
-- Base64 (src/util/base64.h). A byte is a number below 256; the bits that an `|` joins do not overlap,
-- so it is written as a sum, and a shift as a product or a quotient by a power of two.
pub mod RoundTrip
use testhub.Base.{
  ℕ, zero, suc, ◌+◌, ◌-◌, ◌*◌, ◌/◌, ◌%◌, ◌^◌, Bool, true, false, ◌&&◌, ◌||◌, Option, some, none,
  List, [], ◌∷◌, ◌++◌, get_elem?, ltb, leb, ◌==◌, Text, codes, if◌then◌else◌,
}

abbrev pub table : Text
table = codes "ABCDEFGHIJKLMNOPQRSTUVWXYZabcdefghijklmnopqrstuvwxyz0123456789+/"

-- `table[i & 63]`.
unfoldable pub symbol : ℕ → ℕ
symbol i = elim (get_elem? table (i % 64)) [ none ↦ 0 | some c ↦ c ]

unfoldable pub encode : Text → Text
encode [] = []
encode (a ∷ []) = let v = a * 2 ^ 16 in symbol (v / 2 ^ 18) ∷ symbol (v / 2 ^ 12) ∷ b'=' ∷ b'=' ∷ []
encode (a ∷ b ∷ []) =
    let v = a * 2 ^ 16 + b * 2 ^ 8 in
    symbol (v / 2 ^ 18) ∷ symbol (v / 2 ^ 12) ∷ symbol (v / 2 ^ 6) ∷ b'=' ∷ []
encode (a ∷ b ∷ c ∷ s) =
    let v = a * 2 ^ 16 + b * 2 ^ 8 + c in
    symbol (v / 2 ^ 18) ∷ symbol (v / 2 ^ 12) ∷ symbol (v / 2 ^ 6) ∷ symbol v ∷ encode s

-- The lambda `value`.
unfoldable pub value : ℕ → Option ℕ
value c =
    if leb b'A' c && leb c b'Z'
    then some (c - b'A')
    else if leb b'a' c && leb c b'z'
    then some (c - b'a' + 26)
    else if leb b'0' c && leb c b'9'
    then some (c - b'0' + 52)
    else if c == b'+' || c == b'-'
    then some 62
    else if c == b'/' || c == b'_'
    then some 63
    else none

-- The loop of `decode` with its buffer of 32 bits and the number of bits that wait in it.
unfoldable pub decode_loop : Text → ℕ → ℕ → Text
decode_loop [] buf bits = []
decode_loop (c ∷ s) buf bits = elim (c == b'=') [
  | true ↦ []
  | false ↦ elim (value c) [
    | none ↦ decode_loop s buf bits
    | some v ↦
        let next = (buf * 2 ^ 6 + v) % 2 ^ 32 in
        elim (leb 8 (bits + 6)) [
          | true ↦ let left = bits + 6 - 8 in next / 2 ^ left % 2 ^ 8 ∷ decode_loop s next left
          | false ↦ decode_loop s next (bits + 6)
        ]
  ]
]

unfoldable pub decode : Text → Text
decode s = decode_loop s 0 0
