-- ===== src/Json/Print.antt =====
-- src/util/json.h, escape and dump.
use testhub.Base.{
  ℕ, zero, suc, ◌+◌, ◌-◌, ◌*◌, ◌/◌, ◌%◌, ◌==◌, ltb, Bool, true, false, [], ◌∷◌, ◌++◌, none, some,
  if◌then◌else◌, Text, codes, to_string,
}
use testhub.Base.Int.{ℤ, pos, negsuc}
use testhub.Json.{
  Json, Items, Fields, null, bool, number, string, array, object, nil, cons, end, field, Floats,
  is_finite,
}

-- A digit of `%04x`.
unfoldable pub hex_digit : ℕ → ℕ
hex_digit n = if ltb n 10 then b'0' + n else b'a' + (n - 10)

unfoldable pub escape_char : ℕ → Text
escape_char c =
    if c == b'"'
    then codes "\\\""
    else if c == 92
    then codes "\\\\"
    else if c == 8
    then codes "\\b"
    else if c == 12
    then codes "\\f"
    else if c == 10
    then codes "\\n"
    else if c == 13
    then codes "\\r"
    else if c == 9
    then codes "\\t"
    else if ltb c 32
    then codes "\\u00" ++ (hex_digit (c / 16) ∷ hex_digit (c % 16) ∷ [])
    else c ∷ []

unfoldable pub escape_body : Text → Text
escape_body [] = []
escape_body (c ∷ s) = escape_char c ++ escape_body s

abbrev pub escape : Text → Text
escape s = b'"' ∷ (escape_body s ++ (b'"' ∷ []))

-- `%lld`.
unfoldable pub show_int : ℤ → Text
show_int (pos n) = to_string n
show_int (negsuc n) = b'-' ∷ to_string (suc n)

unfoldable pub spaces : ℕ → Text
spaces zero = []
spaces (suc n) = 32 ∷ spaces n

-- No line breaks where `indent` is negative.
unfoldable pub indent_to : ℤ → ℕ → Text
indent_to (negsuc n) depth = []
indent_to (pos n) depth = 10 ∷ spaces (n * depth)

abbrev pub separator : Bool → Text
separator first = if first then [] else b',' ∷ []

-- The blank behind a colon.
unfoldable pub colon_gap : ℤ → Text
colon_gap (negsuc n) = []
colon_gap (pos n) = 32 ∷ []

module _ (f : Floats) where
  unfoldable pub dump_number : ℕ → Text
  dump_number d =
      if is_finite d
      then elim (f.small_integer d) [ some i ↦ show_int i | none ↦ f.show d ]
      else codes "null"

  unfoldable mutual
    pub dump_to : Json → ℤ → ℕ → Text
    dump_to null indent depth = codes "null"
    dump_to (bool b) indent depth = if b then codes "true" else codes "false"
    dump_to (number d) indent depth = dump_number d
    dump_to (string s) indent depth = escape s
    dump_to (array xs) indent depth = b'[' ∷ dump_items xs true indent depth
    dump_to (object fs) indent depth = b'{' ∷ dump_fields fs true indent depth

    -- The items and the bracket that closes them.
    pub dump_items : Items → Bool → ℤ → ℕ → Text
    dump_items nil first indent depth =
        (if first then [] else indent_to indent depth) ++ (b']' ∷ [])
    dump_items (cons v xs) first indent depth =
        separator first
        ++ (indent_to indent (suc depth)
            ++ (dump_to v indent (suc depth) ++ dump_items xs false indent depth))

    pub dump_fields : Fields → Bool → ℤ → ℕ → Text
    dump_fields end first indent depth =
        (if first then [] else indent_to indent depth) ++ (b'}' ∷ [])
    dump_fields (field k v fs) first indent depth =
        separator first
        ++ (indent_to indent (suc depth)
            ++ (escape k
                ++ (b':'
                    ∷ (colon_gap indent
                        ++ (dump_to v indent (suc depth) ++ dump_fields fs false indent depth)))))

  abbrev pub dump : Json → ℤ → Text
  dump v indent = dump_to v indent 0
