-- ===== src/Server/Parse/Decode.antt =====
-- urlDecode against a description of what a text encodes.
use testhub.Base.{ℕ, ◌+◌, ◌*◌, ◌==◌, ◌≡◌, refl, ap, ◌∙◌, false, some, [], ◌∷◌, Text}
use testhub.Json.Parse.{hex_value}
use testhub.Server.Parse.{escaped, unplus, url_decode}

-- The first text is an encoding of the second: a byte stands for itself, a blank is a plus, and any byte
-- may be its two digits behind a percent sign.
pub data Encodes : Text → Text → Type 0 where
  nothing : Encodes [] []
  itself :
      (c : ℕ) {e s : Text}
      → (c == b'%') ≡ false
      → (c == b'+') ≡ false
      → Encodes e s
      → Encodes (c ∷ e) (c ∷ s)
  plus : {e s : Text} → Encodes e s → Encodes (b'+' ∷ e) (32 ∷ s)
  percent :
      (h l a b : ℕ) {e s : Text}
      → hex_value h ≡ some a
      → hex_value l ≡ some b
      → Encodes e s
      → Encodes (b'%' ∷ h ∷ l ∷ e) ((a * 16 + b) ∷ s)

url_decode-unescaped :
    (c : ℕ) (s : Text) → (c == b'%') ≡ false → url_decode (c ∷ s) ≡ unplus c ∷ url_decode s
unfolding url_decode escaped
url_decode-unescaped c [] h = refl
url_decode-unescaped c (d ∷ []) h = refl
url_decode-unescaped c (d ∷ e ∷ s) h = rw (h, url_decode, escaped) refl

-- A text that encodes another, with each byte as itself, as a plus or as its two digits, is decoded to
-- that other text.
pub url_decode-Encodes : {e s : Text} → Encodes e s → url_decode e ≡ s
unfolding url_decode escaped
url_decode-Encodes nothing = refl
url_decode-Encodes (itself c {e = e} h k t) =
    url_decode-unescaped c e h
    ∙ ap (λ x. x ∷ url_decode e) (rw k refl)
    ∙ ap (λ u. c ∷ u) (url_decode-Encodes t)
url_decode-Encodes (plus {e = e} t) =
    url_decode-unescaped b'+' e refl ∙ ap (λ u. 32 ∷ u) (url_decode-Encodes t)
url_decode-Encodes (percent h l a b p q t) =
    rw (p, q, url_decode, escaped) (ap (λ u. (a * 16 + b) ∷ u) (url_decode-Encodes t))
