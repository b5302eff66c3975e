-- ===== src/Base/Words.antt =====
-- `std::int64_t` as its 64-bit pattern: addition wraps, and comparison is signed.
use Prim.Native.Nat.{ℕ, ◌+◌, ◌-◌, ◌*◌, ◌%◌, ◌^◌, ◌<◌}
use mathlib.Core.Path.{◌≡◌}
use mathlib.Core.Bool.{Bool}
use native.Mathlib.Omega.{arith}
use madre.Base.Tests.{ltb, leb}

-- The order of the patterns' keys is the order of the signed values.
abbrev pub signed_key : ℕ → ℕ
signed_key a = (a + 2 ^ 63) % 2 ^ 64

abbrev pub lt_i64 : ℕ → ℕ → Bool
lt_i64 a b = ltb (signed_key a) (signed_key b)

abbrev pub le_i64 : ℕ → ℕ → Bool
le_i64 a b = leb (signed_key a) (signed_key b)

-- Signed overflow is undefined in C++: a sum that leaves the range has no value there. The model has
-- to give it one, the wrapped one; what is proved of a sum's value assumes that it stays in range.
abbrev pub add_i64 : ℕ → ℕ → ℕ
add_i64 a b = (a + b) % 2 ^ 64

-- A value that is not negative.
abbrev pub IsNat63 : ℕ → Type 0
IsNat63 a = a < 2 ^ 63

pub lt_i64-ltb : (a b : ℕ) → IsNat63 a → IsNat63 b → lt_i64 a b ≡ ltb a b
lt_i64-ltb a b ha hb = ground arith

pub le_i64-leb : (a b : ℕ) → IsNat63 a → IsNat63 b → le_i64 a b ≡ leb a b
le_i64-leb a b ha hb = ground arith

-- `int` as its 32-bit pattern.
abbrev pub le_i32 : ℕ → ℕ → Bool
le_i32 a b = leb ((a + 2 ^ 31) % 2 ^ 32) ((b + 2 ^ 31) % 2 ^ 32)

abbrev pub add_i32 : ℕ → ℕ → ℕ
add_i32 a b = (a + b) % 2 ^ 32

abbrev pub lt_i32 : ℕ → ℕ → Bool
lt_i32 a b = ltb ((a + 2 ^ 31) % 2 ^ 32) ((b + 2 ^ 31) % 2 ^ 32)

abbrev pub sub_i32 : ℕ → ℕ → ℕ
sub_i32 a b = (a + (2 ^ 32 - b % 2 ^ 32)) % 2 ^ 32

-- `std::uint64_t`
abbrev pub add_u64 : ℕ → ℕ → ℕ
add_u64 a b = (a + b) % 2 ^ 64

abbrev pub sub_u64 : ℕ → ℕ → ℕ
sub_u64 a b = (a + (2 ^ 64 - b % 2 ^ 64)) % 2 ^ 64

abbrev pub mul_u64 : ℕ → ℕ → ℕ
mul_u64 a b = a * b % 2 ^ 64
