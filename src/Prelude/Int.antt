-- ===== src/Prelude/Int.antt =====
-- Signed integers over the native numbers, and a word read as a signed number.
use harns_gateway.Prelude.{ℕ, ◌-◌, ◌%◌, ◌^◌, ◌<◌, ◌≡◌, Bool, false, arith, ltb, if◌then◌else◌}

-- `negsuc n` is -(n + 1).
pub data ℤ : Type 0 where
  pos : ℕ → ℤ
  negsuc : ℕ → ℤ

-- `int16(x)` of a uint16 `x`: the number that the bits stand for in two's complement.
abbrev pub int16 : ℕ → ℤ
int16 n = if ltb n (2 ^ 15) then pos n else negsuc (2 ^ 16 - n - 1)

abbrev pub int32 : ℕ → ℤ
int32 n = if ltb n (2 ^ 31) then pos n else negsuc (2 ^ 32 - n - 1)

abbrev pub int64 : ℕ → ℤ
int64 n = if ltb n (2 ^ 63) then pos n else negsuc (2 ^ 64 - n - 1)

-- `uint16(z)` of an int16 `z`: the bits of `z` in two's complement.
abbrev pub uint16 : ℤ → ℕ
uint16 (pos n) = n % 2 ^ 16
uint16 (negsuc n) = 2 ^ 16 - 1 - n % 2 ^ 16

abbrev pub uint32 : ℤ → ℕ
uint32 (pos n) = n % 2 ^ 32
uint32 (negsuc n) = 2 ^ 32 - 1 - n % 2 ^ 32

abbrev pub uint64 : ℤ → ℕ
uint64 (pos n) = n % 2 ^ 64
uint64 (negsuc n) = 2 ^ 64 - 1 - n % 2 ^ 64

-- `z > 0`
abbrev pub is_positive : ℤ → Bool
is_positive (pos n) = ltb 0 n
is_positive (negsuc n) = false

-- The numbers of an intW.
abbrev pub IsInt : ℕ → ℤ → Type 0
IsInt half (pos n) = n < half
IsInt half (negsuc n) = n < half

pub int16-uint16 : (z : ℤ) → IsInt (2 ^ 15) z → int16 (uint16 z) ≡ z
int16-uint16 (pos n) h = ground arith
int16-uint16 (negsuc n) h = ground arith

pub int32-uint32 : (z : ℤ) → IsInt (2 ^ 31) z → int32 (uint32 z) ≡ z
int32-uint32 (pos n) h = ground arith
int32-uint32 (negsuc n) h = ground arith

pub int64-uint64 : (z : ℤ) → IsInt (2 ^ 63) z → int64 (uint64 z) ≡ z
int64-uint64 (pos n) h = ground arith
int64-uint64 (negsuc n) h = ground arith

pub uint16-lt : (z : ℤ) → uint16 z < 2 ^ 16
uint16-lt (pos n) = omega arith
uint16-lt (negsuc n) = omega arith

pub uint32-lt : (z : ℤ) → uint32 z < 2 ^ 32
uint32-lt (pos n) = omega arith
uint32-lt (negsuc n) = omega arith

pub uint64-lt : (z : ℤ) → uint64 z < 2 ^ 64
uint64-lt (pos n) = omega arith
uint64-lt (negsuc n) = omega arith
