-- ===== src/Base/Int.antt =====
-- `i64` as an integer: `negsuc n` is -(n + 1).
use mathlib.Core.Path.{◌≡◌}
use mathlib.Core.Bool.{Bool, true, false}
use Prim.Native.Nat.{ℕ, ◌-◌, ◌^◌, ◌<◌}
use native.Mathlib.Omega.{arith}
use mrimgx_consolidate.Base.Tests.{ltb, ◌==◌, if◌then◌else◌}

pub data ℤ : Type 0 where
  pos : ℕ → ℤ
  negsuc : ℕ → ℤ

abbrev pub IsI64 : ℤ → Type 0
IsI64 (pos n) = n < 2 ^ 63
IsI64 (negsuc n) = n < 2 ^ 63

-- The two's complement bits of an `i64`, and the integer that 64 bits stand for.
unfoldable pub i64_to_bits : ℤ → ℕ
i64_to_bits (pos n) = n
i64_to_bits (negsuc n) = 2 ^ 64 - 1 - n

unfoldable pub i64_of_bits : ℕ → ℤ
i64_of_bits v = if ltb v (2 ^ 63) then pos v else negsuc (2 ^ 64 - 1 - v)

pub i64_of_bits-to_bits : (z : ℤ) → IsI64 z → i64_of_bits (i64_to_bits z) ≡ z
unfolding i64_of_bits i64_to_bits
i64_of_bits-to_bits (pos n) h = ground arith
i64_of_bits-to_bits (negsuc n) h = ground arith

pub i64_to_bits-lt : (z : ℤ) → IsI64 z → i64_to_bits z < 2 ^ 64
unfolding i64_to_bits
i64_to_bits-lt (pos n) h = omega arith
i64_to_bits-lt (negsuc n) h = omega arith

pub i64_of_bits-IsI64 : (v : ℕ) → v < 2 ^ 64 → IsI64 (i64_of_bits v)
unfolding i64_of_bits
i64_of_bits-IsI64 v h = ground arith

abbrev pub int_eq : ℤ → ℤ → Bool
int_eq (pos a) (pos b) = a == b
int_eq (negsuc a) (negsuc b) = a == b
int_eq _ _ = false

pub int_eq→eq : (a b : ℤ) → int_eq a b ≡ true → a ≡ b
int_eq→eq (pos a) (pos b) h = ground arith
int_eq→eq (negsuc a) (negsuc b) h = ground arith
int_eq→eq (pos a) (negsuc b) h = cc
int_eq→eq (negsuc a) (pos b) h = cc
