-- ===== src/Modbus/Action/RoundTrip.antt =====
-- What is written to a device is what is read from it.
use harns_gateway.Prelude.{ℕ, ◌<◌, ◌≡◌, ◌^◌, refl, List, [], ◌++◌, false, some, drop}
use harns_gateway.Prelude.Int.{
  ℤ, IsInt, uint16, uint32, uint64, int16-uint16, int32-uint32, int64-uint64, uint16-lt, uint32-lt,
  uint64-lt,
}
use harns_gateway.Binutil.Float.{FloatOps}
use harns_gateway.Binutil.Encode.{uint16_to_bytes_big_endian}
use harns_gateway.Constant.{DataType, MemoryLayout}
use harns_gateway.Modbus.Types.{
  Value, of_int16, of_uint16, of_int32, of_int64, of_float32, of_float64, write_single_register,
  write_multiple_register,
}
use harns_gateway.Modbus.Layout.{parse16, bytes16, parse32, bytes32, parse64, bytes64}
use harns_gateway.Modbus.Layout.RoundTrip.{parse16-bytes16, parse32-bytes32, parse64-bytes64}
use harns_gateway.Modbus.Decode.{is_scaled, parse_registers}
use harns_gateway.Modbus.Action.{register_header, register_action}
use mathlib.Core.List.{append-nil}

-- Where the data begin in the part of a PDU after the address: a multiple write has the counts of
-- registers and of bytes before them.
abbrev pub data_start : DataType → ℕ
data_start DataType.int32 = 3
data_start DataType.int64 = 3
data_start DataType.float32 = 3
data_start DataType.float64 = 3
data_start _ = 0

word16 : (layout : MemoryLayout) (v : ℕ) → v < 2 ^ 16 → parse16 layout (bytes16 layout v) ≡ some v
word16 layout v h = rw (append-nil (bytes16 layout v)) at (parse16-bytes16 layout v [] h)

word32 : (layout : MemoryLayout) (v : ℕ) → v < 2 ^ 32 → parse32 layout (bytes32 layout v) ≡ some v
word32 layout v h = rw (append-nil (bytes32 layout v)) at (parse32-bytes32 layout v [] h)

word64 : (layout : MemoryLayout) (v : ℕ) → v < 2 ^ 64 → parse64 layout (bytes64 layout v) ≡ some v
word64 layout v h = rw (append-nil (bytes64 layout v)) at (parse64-bytes64 layout v [] h)

module _ (ops : FloatOps) where
  -- A value that a variable of a data type can have.
  pub data IsValueOf : DataType → Value ops → Type 0 where
    an_int16 : (z : ℤ) → IsInt (2 ^ 15) z → IsValueOf DataType.int16 (of_int16 z)
    a_uint16 : (n : ℕ) → n < 2 ^ 16 → IsValueOf DataType.uint16 (of_uint16 n)
    an_int32 : (z : ℤ) → IsInt (2 ^ 31) z → IsValueOf DataType.int32 (of_int32 z)
    an_int64 : (z : ℤ) → IsInt (2 ^ 63) z → IsValueOf DataType.int64 (of_int64 z)
    a_float32 : (x : ops.F32) → IsValueOf DataType.float32 (of_float32 x)
    a_float64 : (x : ops.F64) → IsValueOf DataType.float64 (of_float64 x)

  -- What generateActionBytes writes for a variable in registers, in any memory layout, is what
  -- ParseVariableValue reads back from the same bytes: for every value of the data types int16,
  -- uint16, int32, int64, float32 and float64 in their range, at a rate that does not scale.
  pub register_action-parse_registers :
      (layout : MemoryLayout) (t : DataType) (bits : ℕ) (rate : ops.F64) (value : Value ops)
      → IsValueOf t value
      → is_scaled ops rate ≡ false
      → (code : ℕ) × (body : List ℕ) × (register_action ops layout t rate value ≡ some (code, body))
        × (parse_registers ops layout t bits rate (drop (data_start t) body) ≡ some value)
  unfolding register_action parse_registers register_header uint16_to_bytes_big_endian
  register_action-parse_registers layout _ bits rate _ (an_int16 z h) plain = (
    write_single_register,
    bytes16 layout (uint16 z),
    rw plain refl,
    rw (plain, word16 layout _ (uint16-lt z), int16-uint16 z h) refl,
  )
  register_action-parse_registers layout _ bits rate _ (a_uint16 n h) plain =
      (write_single_register, bytes16 layout n, rw plain refl, rw (plain, word16 layout n h) refl)
  register_action-parse_registers layout _ bits rate _ (an_int32 z h) plain = (
    write_multiple_register,
    register_header ops 2 ++ bytes32 layout (uint32 z),
    rw plain refl,
    rw (plain, word32 layout _ (uint32-lt z), int32-uint32 z h) refl,
  )
  register_action-parse_registers layout _ bits rate _ (an_int64 z h) plain = (
    write_multiple_register,
    register_header ops 4 ++ bytes64 layout (uint64 z),
    rw plain refl,
    rw (plain, word64 layout _ (uint64-lt z), int64-uint64 z h) refl,
  )
  register_action-parse_registers layout _ bits rate _ (a_float32 x) plain = (
    write_multiple_register,
    register_header ops 2 ++ bytes32 layout (ops.float32_bits x),
    rw plain refl,
    rw (plain, word32 layout _ (ops.float32_bits-lt x), ops.float32_from_bits-bits x) refl,
  )
  register_action-parse_registers layout _ bits rate _ (a_float64 x) plain = (
    write_multiple_register,
    register_header ops 4 ++ bytes64 layout (ops.float64_bits x),
    rw plain refl,
    rw (plain, word64 layout _ (ops.float64_bits-lt x), ops.float64_from_bits-bits x) refl,
  )
