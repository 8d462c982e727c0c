-- ===== src/Base64/RoundTrip.antt =====
-- What is encoded in base64 is decoded again.
use testhub.Base.{
  ℕ, zero, suc, ◌+◌, ◌-◌, ◌*◌, ◌/◌, ◌%◌, ◌^◌, ◌<◌, ◌≡◌, refl, ap, ◌∙◌, arith, Bool, true, false,
  ◌&&◌, not, some, none, Bool-cases, inl, inr, [], get_elem?, ◌∷◌, All, leb, ◌==◌, Text, codes,
}
use testhub.Base64.{symbol, value, encode, decode_loop, decode, table}

-- `p` holds of every number below the bound.
unfoldable every_below : ℕ → (ℕ → Bool) → Bool
every_below zero p = true
every_below (suc n) p = p n && every_below n p

same : (i n : ℕ) → (i == n) ≡ true → i ≡ n
same i n h = ground arith

every_below-lt : (n : ℕ) (p : ℕ → Bool) → every_below n p ≡ true → (i : ℕ) → i < n → p i ≡ true
unfolding every_below
every_below-lt zero p h i l = ground arith
every_below-lt (suc n) p h i l = elim (Bool-cases (i == n)) [
  | inl e ↦ ground (arith, h, ap p (same i n e))
  | inr e ↦ every_below-lt n p (ground (arith, h)) i (ground (arith, e))
]

-- The symbol of six bits has their value, and is not the padding.
unfoldable is_read : ℕ → Bool
is_read i = not (symbol i == b'=') && elim (value (symbol i)) [ none ↦ false | some v ↦ v == i ]

every-is_read : every_below 64 is_read ≡ true
unfolding value symbol every_below is_read
every-is_read = refl

symbol-value : (w : ℕ) → w < 64 → (symbol w == b'=' ≡ false) × (value (symbol w) ≡ some w)
unfolding is_read
symbol-value w l = ground (arith, every_below-lt 64 is_read every-is_read w l)

sixty_four : (i : ℕ) → i % 64 ≡ i % 64 % 64
sixty_four i = omega arith

symbol-mod : (i : ℕ) → symbol i ≡ symbol (i % 64)
unfolding symbol
symbol-mod i = ap (λ (k : ℕ). elim (get_elem? table k) [ none ↦ 0 | some c ↦ c ]) (sixty_four i)

symbol-reads : (i : ℕ) → (symbol i == b'=' ≡ false) × (value (symbol i) ≡ some (i % 64))
symbol-reads i = rw (symbol-mod i) (symbol-value (i % 64) (omega arith))

-- A symbol that does not fill a byte waits in the buffer.
decode_loop-wait :
    (i : ℕ) (s : Text) (buf bits : ℕ)
    → leb 8 (bits + 6) ≡ false
    → decode_loop (symbol i ∷ s) buf bits
      ≡ decode_loop s ((buf * 64 + i % 64) % 4294967296) (bits + 6)
unfolding decode_loop
decode_loop-wait i s buf bits h = rw ((symbol-reads i).0, (symbol-reads i).1, h, decode_loop) refl

-- A symbol that fills a byte lets it go.
decode_loop-emit :
    (i : ℕ) (s : Text) (buf bits : ℕ)
    → leb 8 (bits + 6) ≡ true
    → decode_loop (symbol i ∷ s) buf bits
      ≡ ((buf * 64 + i % 64) % 4294967296 / 2 ^ (bits + 6 - 8) % 256)
        ∷ decode_loop s ((buf * 64 + i % 64) % 4294967296) (bits + 6 - 8)
unfolding decode_loop
decode_loop-emit i s buf bits h = rw ((symbol-reads i).0, (symbol-reads i).1, h, decode_loop) refl

-- The buffer after a symbol.
abbrev after : ℕ → ℕ → ℕ
after buf i = (buf * 64 + i % 64) % 4294967296

next_byte : (x y : ℕ) (s : Text) → x ≡ y → (x ∷ s) ≡ (y ∷ s)
next_byte x y s e = ap (λ z. z ∷ s) e

-- The bytes that come out of a group do not depend on what is left in the buffer.
decode_loop-first :
    (s : Text) (buf v a r : ℕ)
    → v ≡ a * 65536 + r
    → r < 65536
    → a < 256
    → decode_loop (symbol (v / 262144) ∷ symbol (v / 4096) ∷ s) buf 0
      ≡ a ∷ decode_loop s (after (after buf (v / 262144)) (v / 4096)) 4
decode_loop-first s buf v a r e h k =
    decode_loop-wait (v / 262144) (symbol (v / 4096) ∷ s) buf 0 refl
    ∙ decode_loop-emit (v / 4096) s (after buf (v / 262144)) 6 refl
    ∙ next_byte _ a _ (omega arith)

decode_loop-second :
    (s : Text) (buf v q b r : ℕ)
    → v ≡ q * 65536 + b * 256 + r
    → r < 256
    → b < 256
    → decode_loop (symbol (v / 64) ∷ s) (after buf (v / 4096)) 4
      ≡ b ∷ decode_loop s (after (after buf (v / 4096)) (v / 64)) 2
decode_loop-second s buf v q b r e h k =
    decode_loop-emit (v / 64) s (after buf (v / 4096)) 4 refl ∙ next_byte _ b _ (omega arith)

decode_loop-third :
    (s : Text) (buf v q c : ℕ)
    → v ≡ q * 256 + c
    → c < 256
    → decode_loop (symbol v ∷ s) (after buf (v / 64)) 2
      ≡ c ∷ decode_loop s (after (after buf (v / 64)) v) 0
decode_loop-third s buf v q c e h =
    decode_loop-emit v s (after buf (v / 64)) 2 refl ∙ next_byte _ c _ (omega arith)

decode_loop-encode : (s : Text) (buf : ℕ) → All (λ c. c < 256) s → decode_loop (encode s) buf 0 ≡ s
unfolding encode decode_loop
decode_loop-encode [] buf h = refl
decode_loop-encode (a ∷ []) buf h =
    decode_loop-first (codes "==") buf (a * 65536) a 0 (omega arith) (omega arith) h.0
decode_loop-encode (a ∷ b ∷ []) buf (ha, (hb, h)) =
    let v = a * 65536 + b * 256 in
    let buf' = after buf (v / 262144) in
    decode_loop-first (symbol (v / 64) ∷ codes "=") buf v a (b * 256) refl (omega arith) ha
    ∙ ap (λ t. a ∷ t) (decode_loop-second (codes "=") buf' v a b 0 (omega arith) (omega arith) hb)
decode_loop-encode (a ∷ b ∷ c ∷ s) buf (ha, (hb, (hc, h))) =
    let v = a * 65536 + b * 256 + c in
    let buf' = after buf (v / 262144) in
    let buf'' = after buf' (v / 4096) in
    decode_loop-first (symbol (v / 64) ∷ symbol v ∷ encode s) buf v a (b * 256 + c) (omega arith)
      (omega arith) ha
    ∙ ap (λ t. a ∷ t) (decode_loop-second (symbol v ∷ encode s) buf' v a b c refl hc hb)
    ∙ ap (λ t. a ∷ b ∷ t)
        (decode_loop-third (encode s) buf'' v (a * 256 + b) c (omega arith) hc
          ∙ ap (λ t. c ∷ t) (decode_loop-encode s (after (after buf'' (v / 64)) v) h))

-- Decoding what was encoded gives the text back, for every text of bytes.
pub decode-encode : (s : Text) → All (λ c. c < 256) s → decode (encode s) ≡ s
unfolding decode
decode-encode s h = decode_loop-encode s 0 h
