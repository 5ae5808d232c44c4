-- ===== src/Binutil/Float.antt =====
-- Go's float32 and float64. There are no floats in the logic: the two types and the operations
-- that the program applies to them are a parameter. `math.Float32bits` and its kin have the laws
-- that their documentation states; the arithmetic and the conversions have none.
use harns_gateway.Prelude.{ℕ, ◌^◌, ◌<◌, ◌≡◌, Bool, List, Option, ◌>>=◌, some}
use harns_gateway.Prelude.Int.{ℤ}
use harns_gateway.Binutil.Parse.{
  parse_uint32, parse_uint32_big_endian, parse_uint32_big_endian_byte_swap,
  parse_uint32_little_endian, parse_uint32_little_endian_byte_swap, parse_uint64_big_endian,
  parse_uint64_big_endian_byte_swap, parse_uint64_little_endian,
  parse_uint64_little_endian_byte_swap,
}
use harns_gateway.Binutil.Encode.{
  uint32_to_bytes_big_endian, uint32_to_bytes_big_endian_byte_swap, uint32_to_bytes_little_endian,
  uint32_to_bytes_little_endian_byte_swap, uint64_to_bytes_big_endian,
  uint64_to_bytes_big_endian_byte_swap, uint64_to_bytes_little_endian,
  uint64_to_bytes_little_endian_byte_swap,
}
use harns_gateway.Binutil.Write.{
  write_uint32_big_endian, write_uint32_big_endian_byte_swap, write_uint32_little_endian,
  write_uint32_little_endian_byte_swap, write_uint64_big_endian, write_uint64_big_endian_byte_swap,
  write_uint64_little_endian, write_uint64_little_endian_byte_swap,
}

pub record FloatOps : Type 1 where
  pub F32 : Type 0
  pub F64 : Type 0
  pub float32_bits : F32 → ℕ
  pub float32_from_bits : ℕ → F32
  pub float64_bits : F64 → ℕ
  pub float64_from_bits : ℕ → F64
  pub float32_from_bits-bits : (x : F32) → float32_from_bits (float32_bits x) ≡ x
  pub float64_from_bits-bits : (x : F64) → float64_from_bits (float64_bits x) ≡ x
  pub float32_bits-lt : (x : F32) → float32_bits x < 2 ^ 32
  pub float64_bits-lt : (x : F64) → float64_bits x < 2 ^ 64
  -- Conversions of an integer, and of one width of float to the other.
  pub int_to_f32 : ℤ → F32
  pub int_to_f64 : ℤ → F64
  pub f32_to_f64 : F32 → F64
  pub f64_to_f32 : F64 → F32
  -- `int16(x)` and its kin, which cut off the fraction.
  pub f64_to_int16 : F64 → ℤ
  pub f64_to_uint16 : F64 → ℕ
  pub f64_to_int32 : F64 → ℤ
  pub f64_to_int64 : F64 → ℤ
  pub f32_mul : F32 → F32 → F32
  pub f64_mul : F64 → F64 → F64
  pub f64_div : F64 → F64 → F64
  pub f64_eq : F64 → F64 → Bool
  pub f32_positive : F32 → Bool
  pub f64_positive : F64 → Bool
  pub zero64 : F64
  pub one64 : F64

module _ (ops : FloatOps) where
  open ops use {F32, F64, float32_bits, float32_from_bits, float64_bits, float64_from_bits}

  unfoldable pub parse_float32 : List ℕ → Option F32
  parse_float32 buf = do val ← parse_uint32 buf; some (float32_from_bits val)

  unfoldable pub parse_float32_big_endian : List ℕ → Option F32
  parse_float32_big_endian buf = do val ← parse_uint32_big_endian buf; some (float32_from_bits val)

  unfoldable pub parse_float32_big_endian_byte_swap : List ℕ → Option F32
  parse_float32_big_endian_byte_swap buf = do
    val ← parse_uint32_big_endian_byte_swap buf
    some (float32_from_bits val)

  unfoldable pub parse_float32_little_endian : List ℕ → Option F32
  parse_float32_little_endian buf = do
    val ← parse_uint32_little_endian buf
    some (float32_from_bits val)

  unfoldable pub parse_float32_little_endian_byte_swap : List ℕ → Option F32
  parse_float32_little_endian_byte_swap buf = do
    val ← parse_uint32_little_endian_byte_swap buf
    some (float32_from_bits val)

  unfoldable pub parse_float64_big_endian : List ℕ → Option F64
  parse_float64_big_endian buf = do val ← parse_uint64_big_endian buf; some (float64_from_bits val)

  unfoldable pub parse_float64_big_endian_byte_swap : List ℕ → Option F64
  parse_float64_big_endian_byte_swap buf = do
    val ← parse_uint64_big_endian_byte_swap buf
    some (float64_from_bits val)

  unfoldable pub parse_float64_little_endian : List ℕ → Option F64
  parse_float64_little_endian buf = do
    val ← parse_uint64_little_endian buf
    some (float64_from_bits val)

  unfoldable pub parse_float64_little_endian_byte_swap : List ℕ → Option F64
  parse_float64_little_endian_byte_swap buf = do
    val ← parse_uint64_little_endian_byte_swap buf
    some (float64_from_bits val)

  unfoldable pub float32_to_bytes_big_endian : F32 → List ℕ
  float32_to_bytes_big_endian value = uint32_to_bytes_big_endian (float32_bits value)

  unfoldable pub float32_to_bytes_big_endian_byte_swap : F32 → List ℕ
  float32_to_bytes_big_endian_byte_swap value =
      uint32_to_bytes_big_endian_byte_swap (float32_bits value)

  unfoldable pub float32_to_bytes_little_endian : F32 → List ℕ
  float32_to_bytes_little_endian value = uint32_to_bytes_little_endian (float32_bits value)

  unfoldable pub float32_to_bytes_little_endian_byte_swap : F32 → List ℕ
  float32_to_bytes_little_endian_byte_swap value =
      uint32_to_bytes_little_endian_byte_swap (float32_bits value)

  unfoldable pub float64_to_bytes_big_endian : F64 → List ℕ
  float64_to_bytes_big_endian value = uint64_to_bytes_big_endian (float64_bits value)

  unfoldable pub float64_to_bytes_big_endian_byte_swap : F64 → List ℕ
  float64_to_bytes_big_endian_byte_swap value =
      uint64_to_bytes_big_endian_byte_swap (float64_bits value)

  unfoldable pub float64_to_bytes_little_endian : F64 → List ℕ
  float64_to_bytes_little_endian value = uint64_to_bytes_little_endian (float64_bits value)

  unfoldable pub float64_to_bytes_little_endian_byte_swap : F64 → List ℕ
  float64_to_bytes_little_endian_byte_swap value =
      uint64_to_bytes_little_endian_byte_swap (float64_bits value)

  unfoldable pub write_float32_big_endian : F32 → List ℕ → Option (List ℕ)
  write_float32_big_endian value buf = write_uint32_big_endian (float32_bits value) buf

  unfoldable pub write_float32_big_endian_byte_swap : F32 → List ℕ → Option (List ℕ)
  write_float32_big_endian_byte_swap value buf =
      write_uint32_big_endian_byte_swap (float32_bits value) buf

  unfoldable pub write_float32_little_endian : F32 → List ℕ → Option (List ℕ)
  write_float32_little_endian value buf = write_uint32_little_endian (float32_bits value) buf

  unfoldable pub write_float32_little_endian_byte_swap : F32 → List ℕ → Option (List ℕ)
  write_float32_little_endian_byte_swap value buf =
      write_uint32_little_endian_byte_swap (float32_bits value) buf

  unfoldable pub write_float64_big_endian : F64 → List ℕ → Option (List ℕ)
  write_float64_big_endian value buf = write_uint64_big_endian (float64_bits value) buf

  unfoldable pub write_float64_big_endian_byte_swap : F64 → List ℕ → Option (List ℕ)
  write_float64_big_endian_byte_swap value buf =
      write_uint64_big_endian_byte_swap (float64_bits value) buf

  unfoldable pub write_float64_little_endian : F64 → List ℕ → Option (List ℕ)
  write_float64_little_endian value buf = write_uint64_little_endian (float64_bits value) buf

  unfoldable pub write_float64_little_endian_byte_swap : F64 → List ℕ → Option (List ℕ)
  write_float64_little_endian_byte_swap value buf =
      write_uint64_little_endian_byte_swap (float64_bits value) buf
