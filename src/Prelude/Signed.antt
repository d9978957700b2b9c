-- ===== src/Prelude/Signed.antt =====
-- gint64 values, and their conversion to a 32-bit unsigned type.
use Prim.Native.Nat.{ℕ, ◌-◌, ◌%◌, ◌<◌}
use mathlib.Core.Path.{◌≡◌}
use mathlib.Core.Bool.{Bool, true, false}
use native.Mathlib.Omega.{arith}
use libjcat.Prelude.Tests.{ltb}

-- `negsuc n` is -(n + 1).
pub data ℤ : Type 0 where
  pos : ℕ → ℤ
  negsuc : ℕ → ℤ

abbrev pub is_negative : ℤ → Bool
is_negative (pos n) = false
is_negative (negsuc n) = true

abbrev pub is_positive : ℤ → Bool
is_positive (pos n) = ltb 0 n
is_positive (negsuc n) = false

-- The largest value of guint32 and guint, and the modulus of their arithmetic.
abbrev pub u32_mod : ℕ
u32_mod = 4294967296

abbrev pub max_u32 : ℕ
max_u32 = 4294967295

-- `(guint32) x`, which keeps the low 32 bits of the two's complement.
abbrev pub to_u32 : ℤ → ℕ
to_u32 (pos n) = n % u32_mod
to_u32 (negsuc n) = max_u32 - n % u32_mod

pub to_u32-lt : (x : ℤ) → to_u32 x < u32_mod
to_u32-lt (pos n) = omega arith
to_u32-lt (negsuc n) = omega arith

pub to_u32-pos : (n : ℕ) → n < u32_mod → to_u32 (pos n) ≡ n
to_u32-pos n h = omega arith
