-- ===== src/Prelude/Int.antt =====
-- Signed integers over the native numbers: Go's `int` and `int64` where a value may be negative.
use domaintest.Prelude.Tests.{ltb, ◌==◌}
use Prim.Native.Nat.{ℕ, ◌/◌, ◌%◌}
use mathlib.Core.Bool.{Bool, true, false}

-- `negsuc n` is -(n + 1).
pub data ℤ : Type 0 where
  pos : ℕ → ℤ
  negsuc : ℕ → ℤ

abbrev pub is_negative : ℤ → Bool
is_negative (pos n) = false
is_negative (negsuc n) = true

-- `z > n` for a natural number n.
abbrev pub gtb : ℤ → ℕ → Bool
gtb (pos m) n = ltb n m
gtb (negsuc m) n = false

abbrev pub ℤ_beq : ℤ → ℤ → Bool
ℤ_beq (pos m) (pos n) = m == n
ℤ_beq (negsuc m) (negsuc n) = m == n
ℤ_beq _ _ = false

-- `z & 128 != 0` in two's complement: -(n + 1) is the complement of n.
abbrev pub bit_seven : ℤ → Bool
bit_seven (pos n) = n / 128 % 2 == 1
bit_seven (negsuc n) = n / 128 % 2 == 0

-- `a < b`
abbrev pub ℤ_ltb : ℤ → ℤ → Bool
ℤ_ltb (pos m) (pos n) = ltb m n
ℤ_ltb (pos m) (negsuc n) = false
ℤ_ltb (negsuc m) (pos n) = true
ℤ_ltb (negsuc m) (negsuc n) = ltb n m
