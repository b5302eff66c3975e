-- ===== src/Protocol/Integers.antt =====
-- The big-endian integers of a frame's header. On a byte `b`, `(x << 8) | b` is `x * 256 + b`.
use madre.Base.{ℕ, zero, suc, ◌+◌, ◌*◌, ◌/◌, ◌%◌, ◌^◌, ◌<◌, ◌≡◌, [], ◌∷◌, ◌++◌, arith, Bytes, All}

-- A pointer is the list of the bytes behind it; the callers have checked that they are there.
unfoldable pub get_u16 : Bytes → ℕ
get_u16 (a ∷ b ∷ rest) = (a * 256 + b) % 2 ^ 16
get_u16 _ = 0

unfoldable pub get_u32 : Bytes → ℕ
get_u32 (a ∷ b ∷ c ∷ d ∷ rest) = (a * 2 ^ 24 + b * 2 ^ 16 + c * 2 ^ 8 + d) % 2 ^ 32
get_u32 _ = 0

-- `value = (value << 8U) | p[i]`, `k` times
unfoldable pub get_bytes : ℕ → ℕ → Bytes → ℕ
get_bytes zero value p = value
get_bytes (suc k) value [] = value
get_bytes (suc k) value (b ∷ p) = get_bytes k ((value * 256 + b) % 2 ^ 64) p

unfoldable pub get_u64 : Bytes → ℕ
unfolding get_bytes
get_u64 p = get_bytes 8 0 p

unfoldable pub put_u16 : ℕ → Bytes
put_u16 value = (value / 2 ^ 8 % 256) ∷ (value % 256) ∷ []

unfoldable pub put_u32 : ℕ → Bytes
put_u32 value =
    (value / 2 ^ 24 % 256) ∷ (value / 2 ^ 16 % 256) ∷ (value / 2 ^ 8 % 256) ∷ (value % 256) ∷ []

-- `p[i] = value & 0xff; value >>= 8` from the last byte to the first
unfoldable pub put_bytes : ℕ → ℕ → Bytes → Bytes
put_bytes zero value out = out
put_bytes (suc k) value out = put_bytes k (value / 256) ((value % 256) ∷ out)

unfoldable pub put_u64 : ℕ → Bytes
unfolding put_bytes
put_u64 value = put_bytes 8 value []

pub get_u16-put_u16 : (v : ℕ) (rest : Bytes) → v < 2 ^ 16 → get_u16 (put_u16 v ++ rest) ≡ v
unfolding get_u16 put_u16
get_u16-put_u16 v rest h = omega arith

pub get_u32-put_u32 : (v : ℕ) (rest : Bytes) → v < 2 ^ 32 → get_u32 (put_u32 v ++ rest) ≡ v
unfolding get_u32 put_u32
get_u32-put_u32 v rest h = omega arith

pub get_u64-put_u64 : (v : ℕ) (rest : Bytes) → v < 2 ^ 64 → get_u64 (put_u64 v ++ rest) ≡ v
unfolding get_u64 put_u64
get_u64-put_u64 v rest h = omega arith

abbrev pub IsByte : ℕ → Type 0
IsByte b = b < 256

pub put_u16-IsByte : (v : ℕ) → All IsByte (put_u16 v)
unfolding put_u16
put_u16-IsByte v = omega arith
