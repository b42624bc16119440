-- ===== src/Prelude/Int.antt =====
-- Signed integers over the native numbers, and the casts and wrap-around of the 64-bit types.
-- It models no file of the repository: `as i64`, `as u64` and 64-bit arithmetic are Rust's, with the
-- wrap-around of a release build.
use Prim.Native.Nat.{ℕ, suc, ◌+◌, ◌-◌, ◌%◌, ◌≤◌, ◌<◌}
use mathlib.Core.Path.{◌≡◌}
use mathlib.Core.Bool.{Bool}
use native.Mathlib.Omega.{arith}
use goblin_nip05d.Prelude.Tests.{ltb, leb, if◌then◌else◌}

-- `negsuc n` is -(n + 1).
pub data ℤ : Type 0 where
  pos : ℕ → ℤ
  negsuc : ℕ → ℤ

abbrev pub pos_part : ℤ → ℕ
pos_part (pos n) = n
pos_part (negsuc n) = 0

abbrev pub neg_part : ℤ → ℕ
neg_part (pos n) = 0
neg_part (negsuc n) = suc n

abbrev pub sub_ℕ : ℕ → ℕ → ℤ
sub_ℕ a b = if leb b a then pos (a - b) else negsuc (b - a - 1)

infixl 65 ◌+ℤ◌ ◌-ℤ◌
infix 50 ◌≤ℤ◌
unfoldable pub ◌+ℤ◌ : ℤ → ℤ → ℤ
a +ℤ b = sub_ℕ (pos_part a + pos_part b) (neg_part a + neg_part b)

unfoldable pub ◌-ℤ◌ : ℤ → ℤ → ℤ
a -ℤ b = sub_ℕ (pos_part a + neg_part b) (neg_part a + pos_part b)

abbrev pub ◌≤ℤ◌ : ℤ → ℤ → Type 0
a ≤ℤ b = pos_part a + neg_part b ≤ pos_part b + neg_part a

abbrev pub ltb_ℤ : ℤ → ℤ → Bool
ltb_ℤ a b = ltb (pos_part a + neg_part b) (pos_part b + neg_part a)

abbrev pub leb_ℤ : ℤ → ℤ → Bool
leb_ℤ a b = leb (pos_part a + neg_part b) (pos_part b + neg_part a)

abbrev pub u64_mod : ℕ
u64_mod = 18446744073709551616

abbrev pub i64_half : ℕ
i64_half = 9223372036854775808

-- The i64 with the bit pattern of a number below 2^64.
abbrev of_bits : ℕ → ℤ
of_bits n = if ltb n i64_half then pos n else negsuc (u64_mod - 1 - n)

-- `n as i64` for a u64 `n`, and the wrap-around of a larger value.
unfoldable pub cast_i64 : ℕ → ℤ
cast_i64 n = of_bits (n % u64_mod)

-- `a as u64` for an i64 `a`.
unfoldable pub cast_u64 : ℤ → ℕ
cast_u64 (pos n) = n % u64_mod
cast_u64 (negsuc n) = u64_mod - 1 - n % u64_mod

-- An i64 result, wrapped to 64 bits.
unfoldable pub wrap_i64 : ℤ → ℤ
unfolding cast_i64 cast_u64
wrap_i64 a = cast_i64 (cast_u64 a)

abbrev pub IsI64 : ℤ → Type 0
IsI64 a = (pos_part a < i64_half) × (neg_part a ≤ i64_half)

-- A value in range is not changed by the wrap-around.
pub wrap_i64_of_IsI64 : (a : ℤ) → IsI64 a → wrap_i64 a ≡ a
unfolding wrap_i64
wrap_i64_of_IsI64 (pos n) h = ground arith
wrap_i64_of_IsI64 (negsuc n) h = ground arith

-- A u64 survives the way through i64 and back.
pub cast_u64-cast_i64 : (n : ℕ) → n < u64_mod → cast_u64 (cast_i64 n) ≡ n
unfolding cast_u64 cast_i64
cast_u64-cast_i64 n h = ground arith

pub cast_i64_small : (n : ℕ) → n < i64_half → cast_i64 n ≡ pos n
unfolding cast_i64
cast_i64_small n h = ground arith

pub cast_i64_large : (n : ℕ) → i64_half ≤ n → n < u64_mod → cast_i64 n ≡ negsuc (u64_mod - 1 - n)
unfolding cast_i64
cast_i64_large n h k = ground arith

-- One equation lets `omega` work with the difference shut.
pub -ℤ_parts :
    (a b : ℤ)
    → pos_part (a -ℤ b) + neg_part a + pos_part b ≡ neg_part (a -ℤ b) + pos_part a + neg_part b
unfolding ◌-ℤ◌
-ℤ_parts a b = ground arith

pub +ℤ_parts :
    (a b : ℤ)
    → pos_part (a +ℤ b) + neg_part a + neg_part b ≡ neg_part (a +ℤ b) + pos_part a + pos_part b
unfolding ◌+ℤ◌
+ℤ_parts a b = ground arith

-- Two numbers below 2^63 differ by an i64.
pub -ℤ-IsI64 : (m n : ℕ) → m < i64_half → n < i64_half → IsI64 (pos m -ℤ pos n)
unfolding ◌-ℤ◌
-ℤ-IsI64 m n h k = ground arith
