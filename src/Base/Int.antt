-- ===== src/Base/Int.antt =====
-- Signed integers over the native numbers, and the casts of C between them and unsigned words.
use config_wp.Base.Tests.{ltb, if◌then◌else◌}
use Prim.Native.Nat.{ℕ, ◌-◌, ◌%◌, ◌^◌, ◌<◌}
use mathlib.Core.Path.{◌≡◌}
use mathlib.Core.Bool.{Bool, false}
use native.Mathlib.Omega.{arith}

-- `negsuc n` is -(n + 1).
pub data ℤ : Type 0 where
  pos : ℕ → ℤ
  negsuc : ℕ → ℤ

-- Two's complement at `m` values: the unsigned word, and back. `h` is half of `m`.
abbrev pub to_unsigned : ℕ → ℤ → ℕ
to_unsigned m (pos n) = n % m
to_unsigned m (negsuc n) = m - 1 - n % m

abbrev pub of_unsigned : ℕ → ℕ → ℕ → ℤ
of_unsigned m h u = if ltb u h then pos u else negsuc (m - 1 - u)

-- The range of a signed type with `h` values on each side of zero.
abbrev pub InSigned : ℕ → ℤ → Type 0
InSigned h (pos n) = n < h
InSigned h (negsuc n) = n < h

abbrev pub is_zero : ℤ → Bool
is_zero (pos n) = ltb n 1
is_zero (negsuc n) = false

pub of_to_unsigned16 :
    (v : ℤ) → InSigned (2 ^ 15) v → of_unsigned (2 ^ 16) (2 ^ 15) (to_unsigned (2 ^ 16) v) ≡ v
of_to_unsigned16 (pos n) h = ground arith
of_to_unsigned16 (negsuc n) h = ground arith

pub of_to_unsigned32 :
    (v : ℤ) → InSigned (2 ^ 31) v → of_unsigned (2 ^ 32) (2 ^ 31) (to_unsigned (2 ^ 32) v) ≡ v
of_to_unsigned32 (pos n) h = ground arith
of_to_unsigned32 (negsuc n) h = ground arith

pub to_unsigned16-lt : (v : ℤ) → to_unsigned (2 ^ 16) v < 2 ^ 16
to_unsigned16-lt (pos n) = omega arith
to_unsigned16-lt (negsuc n) = omega arith

pub to_unsigned32-lt : (v : ℤ) → to_unsigned (2 ^ 32) v < 2 ^ 32
to_unsigned32-lt (pos n) = omega arith
to_unsigned32-lt (negsuc n) = omega arith
