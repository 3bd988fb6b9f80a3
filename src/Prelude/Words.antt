-- ===== src/Prelude/Words.antt =====
-- Big-endian words, narrowing conversions and two's complement.
use Prim.Native.Nat.{ℕ, ◌+◌, ◌-◌, ◌*◌, ◌/◌, ◌%◌, ◌^◌, ◌<◌}
use mathlib.Core.Path.{◌≡◌}
use native.Mathlib.Omega.{arith}
use sim_platform.Prelude.Tests.{ltb, if◌then◌else◌}
use sim_platform.Prelude.Results.{Result, ok, err}

-- A machine integer as it is read: `negsuc n` is -(n + 1).
pub data ℤ : Type 0 where
  pos : ℕ → ℤ
  negsuc : ℕ → ℤ

-- The value of a 32-bit pattern as an `i32`.
abbrev pub as_i32 : ℕ → ℤ
as_i32 n = if ltb n (2 ^ 31) then pos n else negsuc (2 ^ 32 - 1 - n)

abbrev pub byte_of : ℕ → ℕ → ℕ
byte_of k n = n / 256 ^ k % 256

-- `from_be_bytes` of two and of four bytes.
abbrev pub from_be_2 : ℕ → ℕ → ℕ
from_be_2 a b = a * 256 + b

abbrev pub from_be_4 : ℕ → ℕ → ℕ → ℕ → ℕ
from_be_4 a b c d = a * 2 ^ 24 + b * 2 ^ 16 + c * 2 ^ 8 + d

pub from_be_2-byte_of : (n : ℕ) → n < 2 ^ 16 → from_be_2 (byte_of 1 n) (byte_of 0 n) ≡ n
from_be_2-byte_of n h = omega arith

pub from_be_4-byte_of :
    (n : ℕ) → n < 2 ^ 32 → from_be_4 (byte_of 3 n) (byte_of 2 n) (byte_of 1 n) (byte_of 0 n) ≡ n
from_be_4-byte_of n h = omega arith

-- `try_from` to an unsigned type with values below `bound`, with the error that the caller maps to.
abbrev pub narrow : {E : Type 0} → E → ℕ → ℕ → Result E ℕ
narrow e bound n = if ltb n bound then ok n else err e
