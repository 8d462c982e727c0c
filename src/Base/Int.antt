-- ===== src/Base/Int.antt =====
-- `int` and `long long` values that may be negative; `negsuc n` is -(n + 1).
use Prim.Native.Nat.{ℕ, suc, ◌+◌}
use mathlib.Core.Bool.{Bool}
use testhub.Base.Tests.{◌==◌, ltb, if◌then◌else◌}

pub data ℤ : Type 0 where
  pos : ℕ → ℤ
  negsuc : ℕ → ℤ

abbrev pub pos_part : ℤ → ℕ
pos_part (pos n) = n
pos_part (negsuc n) = 0

abbrev pub neg_part : ℤ → ℕ
neg_part (pos n) = 0
neg_part (negsuc n) = suc n

abbrev pub int_lt : ℤ → ℤ → Bool
int_lt a b = ltb (pos_part a + neg_part b) (pos_part b + neg_part a)

abbrev pub int_eq : ℤ → ℤ → Bool
int_eq a b = pos_part a + neg_part b == pos_part b + neg_part a

-- `std::max`.
abbrev pub int_max : ℤ → ℤ → ℤ
int_max a b = if int_lt a b then b else a
