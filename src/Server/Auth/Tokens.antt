-- ===== src/Server/Auth/Tokens.antt =====
-- The comparison of tokens in constant time is the comparison of strings.
use Prim.Native.Nat.{bit_or, bit_xor, bit_or-bitwise, bit_xor-bitwise, digits, differ, max}
use testhub.Base.{
  ℕ, zero, suc, ◌/◌, ◌%◌, ◌^◌, ◌≤◌, ◌<◌, ◌==◌, ◌≡◌, refl, sym, ap, ◌∙◌, inl, inr, arith, true,
  Bool-cases, [], ◌∷◌, All, length, Text, text_eq, text_eq_iff,
}
use testhub.Server.Auth.{xor_bytes, constant_time_equals}

max-zero : (a b : ℕ) → max a b ≡ 0 → (a ≡ 0) × (b ≡ 0)
max-zero a b h = (omega arith, omega arith)

differ-zero : (a b : ℕ) → differ a b ≡ 0 → a ≡ b
differ-zero zero b h = sym h
differ-zero (suc a) zero h = h
differ-zero (suc a) (suc b) h = ap suc (differ-zero a b h)

differ_self : (a : ℕ) → differ a a ≡ 0
differ_self zero = refl
differ_self (suc a) = differ_self a

xor-digits-zero : (n a b : ℕ) → a ≤ n → digits (λ b. b) differ n a b ≡ 0 → a ≡ b
xor-digits-zero zero a b l h = omega (arith, h)
xor-digits-zero (suc n) zero b l h = sym h
xor-digits-zero (suc n) (suc a) b l h =
    let d = digits (λ b. b) differ n (suc a / 2) (b / 2) in
    let high = xor-digits-zero n (suc a / 2) (b / 2) (omega arith) (omega (arith, h)) in
    let low = differ-zero (suc a % 2) (b % 2) (omega (arith, h)) in omega (arith, high, low)

xor-digits_self : (n a : ℕ) → a ≤ n → digits (λ b. b) differ n a a ≡ 0
xor-digits_self zero a l = omega arith
xor-digits_self (suc n) zero l = refl
xor-digits_self (suc n) (suc a) l =
    omega (arith, xor-digits_self n (suc a / 2) (omega arith), differ_self (suc a % 2))

or-digits-zero : (n a b : ℕ) → a ≤ n → digits (λ b. b) max n a b ≡ 0 → (a ≡ 0) × (b ≡ 0)
or-digits-zero zero a b l h = (omega arith, h)
or-digits-zero (suc n) zero b l h = (refl, h)
or-digits-zero (suc n) (suc a) b l h =
    let high = or-digits-zero n (suc a / 2) (b / 2) (omega arith) (omega (arith, h)) in
    let low = max-zero (suc a % 2) (b % 2) (omega (arith, h)) in
    (omega (arith, high.0, low.0), omega (arith, high.1, low.1))

differ-lt : (a b : ℕ) → a < 2 → b < 2 → differ a b < 2
differ-lt zero b h k = k
differ-lt (suc a) zero h k = h
differ-lt (suc a) (suc b) h k = differ-lt a b (omega arith) (omega arith)

xor-digits-lt : (k n a b : ℕ) → a < 2 ^ k → b < 2 ^ k → digits (λ b. b) differ n a b < 2 ^ k
xor-digits-lt k zero a b h l = l
xor-digits-lt k (suc n) zero b h l = l
xor-digits-lt zero (suc n) (suc a) b h l = omega arith
xor-digits-lt (suc k) (suc n) (suc a) b h l =
    let high = xor-digits-lt k n (suc a / 2) (b / 2) (omega arith) (omega arith) in
    let low = differ-lt (suc a % 2) (b % 2) (omega arith) (omega arith) in omega (arith, high, low)

xor-lt : (x y : ℕ) → x < 2 ^ 8 → y < 2 ^ 8 → bit_xor x y < 2 ^ 8
xor-lt x y h k = rw (bit_xor-bitwise x y) (xor-digits-lt 8 x x y h k)

xor-zero : (x y : ℕ) → bit_xor x y ≡ 0 → x ≡ y
xor-zero x y h = xor-digits-zero x x y (omega arith) (sym (bit_xor-bitwise x y) ∙ h)

xor_self : (x : ℕ) → bit_xor x x ≡ 0
xor_self x = bit_xor-bitwise x x ∙ xor-digits_self x x (omega arith)

or-zero : (x y : ℕ) → bit_or x y ≡ 0 → (x ≡ 0) × (y ≡ 0)
or-zero x y h = or-digits-zero x x y (omega arith) (sym (bit_or-bitwise x y) ∙ h)

xor_bytes-diff : (a b : Text) (diff : ℕ) → xor_bytes a b diff ≡ 0 → diff ≡ 0
unfolding xor_bytes
xor_bytes-diff [] b diff h = h
xor_bytes-diff (x ∷ a) [] diff h = h
xor_bytes-diff (x ∷ a) (y ∷ b) diff h =
    (or-zero diff (bit_xor x y % 2 ^ 8) (xor_bytes-diff a b _ h)).0

xor_bytes-eq :
    (a b : Text)
    → All (λ c. c < 256) a
    → All (λ c. c < 256) b
    → length a ≡ length b
    → xor_bytes a b 0 ≡ 0
    → a ≡ b
unfolding xor_bytes
xor_bytes-eq [] [] p q l h = refl
xor_bytes-eq [] (y ∷ b) p q l h = ground arith
xor_bytes-eq (x ∷ a) [] p q l h = ground arith
xor_bytes-eq (x ∷ a) (y ∷ b) (px, p) (qy, q) l h =
    let d = or-zero 0 (bit_xor x y % 2 ^ 8) (xor_bytes-diff a b _ h) in
    let zero_diff = xor_bytes-diff a b _ h in
    let same = xor-zero x y (omega (arith, d.1, xor-lt x y px qy)) in
    ground (
      arith,
      same,
      xor_bytes-eq a b p q (omega (arith, l)) (ap (xor_bytes a b) (sym zero_diff) ∙ h),
    )

xor_bytes_self : (a : Text) → xor_bytes a a 0 ≡ 0
unfolding xor_bytes
xor_bytes_self [] = refl
xor_bytes_self (x ∷ a) =
    ap (λ d. xor_bytes a a (bit_or 0 (d % 256))) (xor_self x) ∙ xor_bytes_self a

constant_time_equals_self : (a : Text) → constant_time_equals a a ≡ true
unfolding constant_time_equals
constant_time_equals_self a = ground (arith, xor_bytes_self a)

constant_time_equals-eq :
    (a b : Text)
    → All (λ c. c < 256) a
    → All (λ c. c < 256) b
    → constant_time_equals a b ≡ true
    → a ≡ b
unfolding constant_time_equals
constant_time_equals-eq a b p q h = elim (Bool-cases (length a == length b)) [
  | inl e ↦ xor_bytes-eq a b p q (ground (arith, e)) (ground (arith, e, h))
  | inr e ↦ ground (arith, e, h, xor_bytes-diff a b 1)
]

-- The comparison in constant time finds two tokens equal if and only if they are the same text.
pub constant_time_equals-text_eq :
    (a b : Text)
    → All (λ c. c < 256) a
    → All (λ c. c < 256) b
    → constant_time_equals a b ≡ text_eq a b
constant_time_equals-text_eq a b p q = elim (Bool-cases (text_eq a b)) [
  | inl e ↦
      ap (constant_time_equals a) (sym ((text_eq_iff a b).0 e))
      ∙ constant_time_equals_self a
      ∙ sym e
  | inr e ↦ elim (Bool-cases (constant_time_equals a b)) [
    | inl h ↦ h ∙ sym ((text_eq_iff a b).1 (constant_time_equals-eq a b p q h))
    | inr h ↦ h ∙ sym e
  ]
]
