-- ===== src/Modbus/Action.antt =====
-- `generateActionBytes` of pkg/protocol/modbus/modbusbroker.go: the PDUs that write variables.
-- `none` is a panic, here of a type assertion on the value.
pub mod RoundTrip
use harns_gateway.Prelude.{
  ℕ, ◌*◌, ◌%◌, ◌^◌, List, [], ◌∷◌, ◌++◌, Option, Bool, none, some, ◌>>=◌, ltb, set, replicate,
  if◌then◌else◌,
}
use harns_gateway.Prelude.Int.{ℤ, pos, uint16, uint32, uint64, is_positive}
use harns_gateway.Binutil.Float.{FloatOps}
use harns_gateway.Binutil.Encode.{uint16_to_bytes_big_endian}
use harns_gateway.Binutil.Write.{write_from, write_uint16_big_endian}
use harns_gateway.Constant.{DataType, MemoryLayout}
use harns_gateway.Modbus.Types.{
  Value, of_bool, of_int16, of_uint16, of_int32, of_int64, of_float32, of_float64, Variable,
  reads_bits, reads_registers, write_single_coil, write_single_register, write_multiple_register,
}
use harns_gateway.Modbus.Layout.{bytes16, bytes32, bytes64}
use harns_gateway.Modbus.Decode.{is_scaled}

module _ (ops : FloatOps) where
  open ops use {
    F32, F64, float32_bits, float64_bits, int_to_f64, f32_to_f64, f64_to_f32, f64_to_int16,
    f64_to_uint16, f64_to_int32, f64_to_int64, f64_div, f32_positive, f64_positive,
  }

  -- `value.(bool)` and its kin.
  abbrev pub as_bool : Value ops → Option Bool
  as_bool (of_bool b) = some b
  as_bool _ = none

  abbrev pub as_int16 : Value ops → Option ℤ
  as_int16 (of_int16 z) = some z
  as_int16 _ = none

  abbrev pub as_uint16 : Value ops → Option ℕ
  as_uint16 (of_uint16 n) = some n
  as_uint16 _ = none

  abbrev pub as_int32 : Value ops → Option ℤ
  as_int32 (of_int32 z) = some z
  as_int32 _ = none

  abbrev pub as_int64 : Value ops → Option ℤ
  as_int64 (of_int64 z) = some z
  as_int64 _ = none

  abbrev pub as_float32 : Value ops → Option F32
  as_float32 (of_float32 x) = some x
  as_float32 _ = none

  abbrev pub as_float64 : Value ops → Option F64
  as_float64 (of_float64 x) = some x
  as_float64 _ = none

  -- A coil is written as 0xFF00 or 0x0000.
  unfoldable pub coil_bytes : Bool → List ℕ
  coil_bytes on = if on then uint16_to_bytes_big_endian 65280 else uint16_to_bytes_big_endian 0

  -- Whether a value turns a coil on: `value.(T) > 0`. `none` inside is a type with no case.
  unfoldable pub coil_state : DataType → Value ops → Option (Option Bool)
  coil_state DataType.bool value = do b ← as_bool value; some (some b)
  coil_state DataType.int16 value = do z ← as_int16 value; some (some (is_positive z))
  coil_state DataType.uint16 value = do n ← as_uint16 value; some (some (ltb 0 n))
  coil_state DataType.int32 value = do z ← as_int32 value; some (some (is_positive z))
  coil_state DataType.int64 value = do z ← as_int64 value; some (some (is_positive z))
  coil_state DataType.float32 value = do x ← as_float32 value; some (some (f32_positive x))
  coil_state DataType.float64 value = do x ← as_float64 value; some (some (f64_positive x))
  coil_state DataType.number value = some none
  coil_state DataType.string value = some none

  -- The function code and the data of the PDU for a coil.
  unfoldable pub coil_action : Variable ops → Option (ℕ × List ℕ)
  coil_action v = do
    state ← coil_state v.data_type v.value
    elim state [ none ↦ some (0, []) | some on ↦ some (write_single_coil, coil_bytes on) ]

  -- The count of registers and the count of bytes before the data of a multiple write.
  unfoldable pub register_header : ℕ → List ℕ
  register_header register_amount =
      uint16_to_bytes_big_endian (register_amount % 2 ^ 16) ++ ((2 * register_amount % 256) ∷ [])

  -- The same for registers, by the data type. A Boolean is not supported.
  unfoldable pub register_action : MemoryLayout → DataType → F64 → Value ops → Option (ℕ × List ℕ)
  register_action layout DataType.bool rate value = some (0, [])
  register_action layout DataType.int16 rate value = do
    z ← as_int16 value
    let out = if is_scaled ops rate then f64_to_int16 (f64_div (int_to_f64 z) rate) else z
    some (write_single_register, bytes16 layout (uint16 out))
  register_action layout DataType.uint16 rate value = do
    n ← as_uint16 value
    let out = if is_scaled ops rate then f64_to_uint16 (f64_div (int_to_f64 (pos n)) rate) else n
    some (write_single_register, bytes16 layout out)
  register_action layout DataType.int32 rate value = do
    z ← as_int32 value
    let out = if is_scaled ops rate then f64_to_int32 (f64_div (int_to_f64 z) rate) else z
    some (write_multiple_register, register_header 2 ++ bytes32 layout (uint32 out))
  register_action layout DataType.int64 rate value = do
    z ← as_int64 value
    let out = if is_scaled ops rate then f64_to_int64 (f64_div (int_to_f64 z) rate) else z
    some (write_multiple_register, register_header 4 ++ bytes64 layout (uint64 out))
  register_action layout DataType.float32 rate value = do
    x ← as_float32 value
    let out = if is_scaled ops rate then f64_to_f32 (f64_div (f32_to_f64 x) rate) else x
    some (write_multiple_register, register_header 2 ++ bytes32 layout (float32_bits out))
  register_action layout DataType.float64 rate value = do
    x ← as_float64 value
    let out = if is_scaled ops rate then f64_div x rate else x
    some (write_multiple_register, register_header 4 ++ bytes64 layout (float64_bits out))
  register_action layout DataType.number rate value = some (0, [])
  register_action layout DataType.string rate value = some (0, [])

  -- The function code and the data for one variable.
  unfoldable pub action_of : MemoryLayout → Variable ops → Option (ℕ × List ℕ)
  action_of layout v =
      if reads_bits v.function_code
      then coil_action v
      else if reads_registers v.function_code
      then register_action layout v.data_type v.rate v.value
      else some (0, [])

  -- One PDU: function code, address, data.
  unfoldable pub action_pdu : MemoryLayout → Variable ops → Option (List ℕ)
  action_pdu layout v = do
    act ← action_of layout v
    head ← write_from 1 (write_uint16_big_endian (v.address % 2 ^ 16)) (set (replicate 3 0) 0 act.0)
    some (head ++ act.1)

  unfoldable pub generate_action_bytes : MemoryLayout → List (Variable ops) → Option (List (List ℕ))
  generate_action_bytes layout [] = some []
  generate_action_bytes layout (v ∷ vs) = do
    pdu ← action_pdu layout v
    rest ← generate_action_bytes layout vs
    some (pdu ∷ rest)
