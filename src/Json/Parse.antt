-- ===== src/Json/Parse.antt =====
-- src/util/json.h, class Parser.
--
-- The position is the text that is left. The parser calls itself on fuel: three units for each byte
-- and two more, which is enough for every text.
use testhub.Base.{
  ℕ, zero, suc, ◌+◌, ◌*◌, ◌-◌, ◌/◌, ◌%◌, ◌==◌, ltb, leb, ◌&&◌, ◌||◌, Bool, true, false, [], ◌∷◌,
  ◌++◌, Option, none, some, is_empty, length, drop, if◌then◌else◌, Text, codes, to_string,
}
use testhub.StringUtil.{starts_with, is_digit}
use testhub.Json.{
  Json, Items, Fields, null, bool, number, string, array, object, nil, cons, end, Floats,
  insert_field,
}

-- The value and what is left, or a ParseError with what was left then. `starved` has no
-- counterpart in the source.
pub data Result {ℓ} (A : Type ℓ) : Type ℓ where
  ok : A → Text → Result A
  fail : Text → Text → Result A
  starved : Result A

abbrev pub bind {ℓ κ} : {A : Type ℓ} {B : Type κ} → Result A → (A → Text → Result B) → Result B
bind (ok a rest) k = k a rest
bind (fail e rest) k = fail e rest
bind starved k = starved

unfoldable pub is_blank : ℕ → Bool
is_blank c = c == 32 || (c == 9 || (c == 10 || c == 13))

unfoldable pub skip_ws : Text → Text
skip_ws [] = []
skip_ws (c ∷ s) = if is_blank c then skip_ws s else c ∷ s

-- Whether the next byte is `c`.
abbrev pub at : ℕ → Text → Bool
at c [] = false
at c (d ∷ s) = d == c

unfoldable pub expect_literal {ℓ} : {A : Type ℓ} → Text → A → Text → Result A
expect_literal lit v s =
    if starts_with s lit
    then ok v (drop (length lit) s)
    else fail (codes "Invalid literal, expected " ++ lit) s

unfoldable pub skip_digits : Text → Text
skip_digits [] = []
skip_digits (c ∷ s) = if is_digit c then skip_digits s else c ∷ s

abbrev pub at_digit : Text → Bool
at_digit [] = false
at_digit (c ∷ s) = is_digit c

-- The parts of `parseNumber`: each gives what it leaves.
unfoldable pub scan_integer : Text → Result (Unit {0})
scan_integer [] = fail (codes "Invalid number") []
scan_integer (c ∷ s) =
    if c == b'0'
    then ok tt s
    else if leb b'1' c && leb c b'9'
    then ok tt (skip_digits (c ∷ s))
    else fail (codes "Invalid number") (c ∷ s)

abbrev pub digits_or : Text → Text → Result (Unit {0})
digits_or message s = if at_digit s then ok tt (skip_digits s) else fail message s

unfoldable pub scan_fraction : Text → Result (Unit {0})
scan_fraction s = if at b'.' s then digits_or (codes "Invalid fraction") (drop 1 s) else ok tt s

unfoldable pub scan_exponent : Text → Result (Unit {0})
scan_exponent s =
    if at b'e' s || at b'E' s
    then (let s' = drop 1 s in
        digits_or (codes "Invalid exponent") (if at b'+' s' || at b'-' s' then drop 1 s' else s'))
    else ok tt s

abbrev pub scan_number : Text → Result (Unit {0})
scan_number s =
    bind (scan_integer (if at b'-' s then drop 1 s else s))
      λ _ s1. bind (scan_fraction s1) λ _ s2. scan_exponent s2

-- `appendUtf8`: the bytes that are appended.
unfoldable pub utf8 : ℕ → Text
utf8 cp =
    if ltb cp 0x80
    then cp ∷ []
    else if ltb cp 0x800
    then (0xC0 + cp / 64) ∷ (0x80 + cp % 64) ∷ []
    else if ltb cp 0x10000
    then (0xE0 + cp / 4096) ∷ (0x80 + cp / 64 % 64) ∷ (0x80 + cp % 64) ∷ []
    else (0xF0 + cp / 262144)
      ∷ (0x80 + cp / 4096 % 64)
      ∷ (0x80 + cp / 64 % 64)
      ∷ (0x80 + cp % 64)
      ∷ []

unfoldable pub hex_value : ℕ → Option ℕ
hex_value c =
    if leb b'0' c && leb c b'9'
    then some (c - b'0')
    else if leb b'a' c && leb c b'f'
    then some (c - b'a' + 10)
    else if leb b'A' c && leb c b'F'
    then some (c - b'A' + 10)
    else none

-- The loop of `parseHex4`, with how many digits are to come and the value so far.
unfoldable pub hex_loop : ℕ → ℕ → Text → Result ℕ
hex_loop zero v s = ok v s
hex_loop (suc n) v [] = fail (codes "Invalid unicode escape") []
hex_loop (suc n) v (c ∷ s) = elim (hex_value c) [
  | none ↦ fail (codes "Invalid hex digit") s
  | some h ↦ hex_loop n (v * 16 + h) s
]

unfoldable pub parse_hex4 : Text → Result ℕ
parse_hex4 s = if ltb (length s) 4 then fail (codes "Invalid unicode escape") s else hex_loop 4 0 s

-- The second half of a surrogate pair.
unfoldable pub parse_low : ℕ → Text → Result Text
parse_low high s =
    if starts_with s (codes "\\u")
    then (bind (parse_hex4 (drop 2 s)) λ low rest.
        (if leb 0xDC00 low && leb low 0xDFFF
          then ok (utf8 (0x10000 + (high - 0xD800) * 1024 + (low - 0xDC00))) rest
          else fail (codes "Invalid surrogate pair") rest))
    else fail (codes "Unpaired surrogate") s

-- What `\u` stands for.
unfoldable pub parse_unicode : Text → Result Text
parse_unicode s =
    bind (parse_hex4 s)
      λ cp rest. (if leb 0xD800 cp && leb cp 0xDBFF then parse_low cp rest else ok (utf8 cp) rest)

-- What follows a backslash.
unfoldable pub parse_escape : Text → Result Text
parse_escape [] = fail (codes "Unterminated escape") []
parse_escape (e ∷ s) =
    if e == b'"'
    then ok (b'"' ∷ []) s
    else if e == 92
    then ok (92 ∷ []) s
    else if e == b'/'
    then ok (b'/' ∷ []) s
    else if e == b'b'
    then ok (8 ∷ []) s
    else if e == b'f'
    then ok (12 ∷ []) s
    else if e == b'n'
    then ok (10 ∷ []) s
    else if e == b'r'
    then ok (13 ∷ []) s
    else if e == b't'
    then ok (9 ∷ []) s
    else if e == b'u'
    then parse_unicode s
    else fail (codes "Invalid escape sequence") s

-- The loop of `parseString`, behind the opening quote; it takes a unit of fuel for each round.
unfoldable pub string_loop : ℕ → Text → Text → Result Text
string_loop zero s out = starved
string_loop (suc f) [] out = fail (codes "Unterminated string") []
string_loop (suc f) (c ∷ s) out =
    let escaped = bind (parse_escape s) λ t rest. string_loop f rest (out ++ t) in
    let plain = string_loop f s (out ++ (c ∷ [])) in
    if c == b'"'
    then ok out s
    else if c == 92
    then escaped
    else if ltb c 32
    then fail (codes "Control character in string") s
    else plain

abbrev pub parse_string : Text → Result Text
parse_string s = string_loop (suc (length s)) (drop 1 s) []

abbrev pub max_depth : ℕ
max_depth = 512

module _ (f : Floats) where
  unfoldable pub parse_number : Text → Result Json
  parse_number s = bind (scan_number s) λ _ rest. ok (number (f.strtod s)) rest

  -- A value that holds no other.
  unfoldable pub parse_scalar : Text → Result Json
  parse_scalar [] = fail (codes "Unexpected end of input") []
  parse_scalar (c ∷ s) =
      if c == b'"'
      then bind (parse_string (c ∷ s)) (λ t rest. ok (string t) rest)
      else if c == b't'
      then expect_literal (codes "true") (bool true) (c ∷ s)
      else if c == b'f'
      then expect_literal (codes "false") (bool false) (c ∷ s)
      else if c == b'n'
      then expect_literal (codes "null") null (c ∷ s)
      else if c == b'-' || (leb b'0' c && leb c b'9')
      then parse_number (c ∷ s)
      else fail (codes "Unexpected character '" ++ (c ∷ codes "'")) (c ∷ s)

  -- The text that a container begins at has its bracket; `depth` is that of the enclosing one.
  unfoldable mutual
    pub parse_value : ℕ → ℕ → Text → Result Json
    parse_value zero depth s = starved
    parse_value (suc fuel) depth s =
        let obj = parse_object fuel (suc depth) s in
        let arr = parse_array fuel (suc depth) s in
        if at b'{' s then obj else if at b'[' s then arr else parse_scalar s

    pub parse_array : ℕ → ℕ → Text → Result Json
    parse_array zero depth s = starved
    parse_array (suc fuel) depth s =
        let inner = skip_ws (drop 1 s) in
        let items = bind (parse_items fuel depth inner) λ xs rest. ok (array xs) rest in
        if ltb max_depth depth
        then fail (codes "Nesting too deep") s
        else if at b']' inner
        then ok (array nil) (drop 1 inner)
        else items

    pub parse_items : ℕ → ℕ → Text → Result Items
    parse_items zero depth s = starved
    parse_items (suc fuel) depth s = bind (parse_value fuel depth (skip_ws s)) λ v rest.
        (let next = skip_ws rest in
          let more = bind (parse_items fuel depth (drop 1 next)) λ xs left. ok (cons v xs) left in
          if is_empty next
          then fail (codes "Unterminated array") next
          else if at b']' next
          then ok (cons v nil) (drop 1 next)
          else if at b',' next
          then more
          else fail (codes "Expected ',' or ']'") (drop 1 next))

    pub parse_object : ℕ → ℕ → Text → Result Json
    parse_object zero depth s = starved
    parse_object (suc fuel) depth s =
        let inner = skip_ws (drop 1 s) in
        let fields = bind (parse_fields fuel depth inner end) λ fs rest. ok (object fs) rest in
        if ltb max_depth depth
        then fail (codes "Nesting too deep") s
        else if at b'}' inner
        then ok (object end) (drop 1 inner)
        else fields

    -- The members so far are `fs`.
    pub parse_fields : ℕ → ℕ → Text → Fields → Result Fields
    parse_fields zero depth s fs = starved
    parse_fields (suc fuel) depth s fs =
        let start = skip_ws s in
        let member = bind (parse_string start) λ k rest.
          (let colon = skip_ws rest in
            let value = bind (parse_value fuel depth (skip_ws (drop 1 colon))) λ v left.
              (let next = skip_ws left in
                let more = parse_fields fuel depth (drop 1 next) (insert_field fs k v) in
                if is_empty next
                then fail (codes "Unterminated object") next
                else if at b'}' next
                then ok (insert_field fs k v) (drop 1 next)
                else if at b',' next
                then more
                else fail (codes "Expected ',' or '}'") (drop 1 next)) in
            if at b':' colon then value else fail (codes "Expected ':'") colon) in
        if at b'"' start then member else fail (codes "Expected string key") start

  abbrev pub fuel_for : Text → ℕ
  fuel_for s = 3 * length s + 2

  -- Nothing may follow the value.
  unfoldable pub finish : Json → Text → Result Json
  finish v rest =
      let left = skip_ws rest in
      if is_empty left then ok v left else fail (codes "Trailing characters") left

  unfoldable pub parse : Text → Result Json
  parse text = let s = skip_ws text in bind (parse_value (fuel_for s) 0 s) finish

-- The exception's text, with the position.
abbrev pub message_of {ℓ} : {A : Type ℓ} → Text → Result A → Option Text
message_of text (ok v rest) = none
message_of text (fail e rest) =
    some (e ++ (codes " at position " ++ to_string (length text - length rest)))
message_of text starved = none

-- `tryParse`: the value, or null and what was wrong.
module _ (f : Floats) where
  unfoldable pub try_parse : Text → Json × Option Text
  try_parse text =
      let r = parse f text in
      (elim r [ ok v rest ↦ v | fail e rest ↦ null | starved ↦ null ], message_of text r)
