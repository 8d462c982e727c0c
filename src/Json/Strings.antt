-- ===== src/Json/Strings.antt =====
-- An escaped string is read back.
use mathlib.Core.List.{append_assoc, append-nil}
use testhub.Base.{
  ℕ, zero, suc, ◌+◌, ◌/◌, ◌%◌, ◌*◌, ◌≢◌, ◌<◌, ◌≤◌, ◌≡◌, refl, ap, ◌∙◌, arith, ltb, ◌==◌, Bool, true,
  false, [], ◌∷◌, ◌++◌, some, length, length-append, Text, codes, if◌then◌else◌,
}
use testhub.Json.Print.{hex_digit, escape_char, escape_body, escape}
use testhub.Json.Parse.{
  ok, hex_value, hex_loop, parse_hex4, utf8, parse_unicode, parse_escape, string_loop, parse_string,
}

hex_value-hex_digit : (n : ℕ) → n < 16 → hex_value (hex_digit n) ≡ some n
unfolding hex_value hex_digit
hex_value-hex_digit n h = ground arith

hex_loop-digits :
    (h l : ℕ) (rest : Text)
    → h < 16
    → l < 16
    → hex_loop 4 0 (b'0' ∷ b'0' ∷ hex_digit h ∷ hex_digit l ∷ rest) ≡ ok (h * 16 + l) rest
unfolding hex_loop hex_value
hex_loop-digits h l rest p q = ground (arith, hex_value-hex_digit h, hex_value-hex_digit l)

-- The escape of a control character that has no name.
parse_unicode-control :
    (c : ℕ) (rest : Text)
    → c < 32
    → parse_unicode (b'0' ∷ b'0' ∷ hex_digit (c / 16) ∷ hex_digit (c % 16) ∷ rest)
      ≡ ok (c ∷ []) rest
unfolding parse_unicode parse_hex4 utf8
parse_unicode-control c rest h = ground (arith, hex_loop-digits (c / 16) (c % 16) rest)

-- How a character stands in an escaped string: behind a backslash, or as it is.
data Escaped (c : ℕ) : Text → Type 0 where
  named :
      (e : Text)
      → ((rest : Text) → parse_escape (e ++ rest) ≡ ok (c ∷ []) rest)
      → Escaped c (92 ∷ e)
  plain : c ≢ b'"' → c ≢ 92 → 32 ≤ c → Escaped c (c ∷ [])

Escaped-if :
    (c : ℕ) (b : Bool) {x y : Text}
    → (b ≡ true → Escaped c x)
    → (b ≡ false → Escaped c y)
    → Escaped c (if b then x else y)
Escaped-if c true h k = h refl
Escaped-if c false h k = k refl

letter :
    (c e v : ℕ)
    → (c == v) ≡ true
    → ((rest : Text) → parse_escape (e ∷ rest) ≡ ok (v ∷ []) rest)
    → Escaped c (92 ∷ e ∷ [])
letter c e v h k = let same : v ≡ c = ground arith in named (e ∷ []) (λ rest. rw (← same) (k rest))

escape_char-Escaped : (c : ℕ) → Escaped c (escape_char c)
unfolding escape_char parse_escape
escape_char-Escaped c =
    Escaped-if c (c == b'"') (λ h. letter c b'"' b'"' h (λ rest. refl))
      λ quote.
        Escaped-if c (c == 92) (λ h. letter c 92 92 h (λ rest. refl))
          λ slash.
            Escaped-if c (c == 8) (λ h. letter c b'b' 8 h (λ rest. refl))
              λ _.
                Escaped-if c (c == 12) (λ h. letter c b'f' 12 h (λ rest. refl))
                  λ _.
                    Escaped-if c (c == 10) (λ h. letter c b'n' 10 h (λ rest. refl))
                      λ _.
                        Escaped-if c (c == 13) (λ h. letter c b'r' 13 h (λ rest. refl))
                          λ _.
                            Escaped-if c (c == 9) (λ h. letter c b't' 9 h (λ rest. refl))
                              λ _.
                                Escaped-if c (ltb c 32)
                                  (λ low.
                                    named
                                      (codes "u00"
                                        ++ (hex_digit (c / 16) ∷ hex_digit (c % 16) ∷ []))
                                      (λ rest. parse_unicode-control c rest (ground arith)))
                                  λ high. plain (ground arith) (ground arith) (ground arith)

-- One character, as the loop reads it.
string_loop-Escaped :
    (f c : ℕ) (rest out : Text) {t : Text}
    → Escaped c t
    → string_loop (suc f) (t ++ rest) out ≡ string_loop f rest (out ++ (c ∷ []))
unfolding string_loop
string_loop-Escaped f c rest out (named e h) = rw (h rest) refl
string_loop-Escaped f c rest out (plain p q r) = ground arith

string_loop-escape_body :
    (t : Text) (f : ℕ) (rest out : Text)
    → length t < f
    → string_loop f (escape_body t ++ (b'"' ∷ rest)) out ≡ ok (out ++ t) rest
unfolding escape_body
string_loop-escape_body t zero rest out h = absurd (omega arith)
string_loop-escape_body [] (suc f) rest out h = rw (append-nil out) (unfold string_loop in refl)
string_loop-escape_body (c ∷ t) (suc f) rest out h =
    rw (append_assoc (escape_char c) (escape_body t) (b'"' ∷ rest)) (
      string_loop-Escaped f c (escape_body t ++ (b'"' ∷ rest)) out (escape_char-Escaped c)
      ∙ string_loop-escape_body t f rest (out ++ (c ∷ [])) (omega arith)
      ∙ ap (λ o. ok o rest) (append_assoc out (c ∷ []) t))

length-escape_char_pos : (c : ℕ) → 0 < length (escape_char c)
unfolding escape_char
length-escape_char_pos c = ground arith

length-escape_body-le : (t : Text) → length t ≤ length (escape_body t)
unfolding escape_body
length-escape_body-le [] = omega arith
length-escape_body-le (c ∷ t) = omega (
  arith,
  length-append (escape_char c) (escape_body t),
  length-escape_char_pos c,
  length-escape_body-le t,
)

-- The parser reads an escaped string off the front of any text.
pub parse_string-escape : (t rest : Text) → parse_string (escape t ++ rest) ≡ ok t rest
parse_string-escape t rest = rw (append_assoc (escape_body t) (b'"' ∷ []) rest) (
    string_loop-escape_body t _ rest []
      (omega (arith, length-append (escape_body t) (b'"' ∷ rest), length-escape_body-le t)))
