-- ===== src/Modbus/Decode.antt =====
-- `ParseVariableValue` of pkg/protocol/modbus/runtime/type.go.
pub mod Memory
pub mod Poll
use harns_gateway.Prelude.{
  ℕ, ◌+◌, ◌%◌, ◌^◌, bit_and, List, [], ◌∷◌, Option, Bool, not, ◌&&◌, some, ◌>>=◌, ◌==◌, ltb,
  get_elem?, if◌then◌else◌,
}
use harns_gateway.Prelude.Int.{pos, int16, int32, int64}
use harns_gateway.Binutil.Float.{FloatOps}
use harns_gateway.Constant.{DataType, MemoryLayout, read_only}
use harns_gateway.Modbus.Types.{
  Value, nil, of_bool, of_int16, of_uint16, of_int32, of_int64, of_float32, of_float64, Variable,
  VariableParse, DataFrame, reads_bits, reads_registers, slice_from,
}
use harns_gateway.Modbus.Layout.{parse16, parse32, parse64}

module _ (ops : FloatOps) where
  open ops use {
    F64, float32_from_bits, float64_from_bits, int_to_f32, int_to_f64, f64_to_f32, f64_to_int16,
    f64_to_uint16, f64_to_int32, f64_to_int64, f32_mul, f64_mul, f64_eq, zero64, one64,
  }

  -- `Rate != 0 && Rate != 1`
  unfoldable pub is_scaled : F64 → Bool
  is_scaled rate = not (f64_eq rate zero64) && not (f64_eq rate one64)

  -- The value of a coil or of an input, which `bytes` hold as one byte 0 or 1.
  unfoldable pub parse_bit : DataType → List ℕ → ℕ → Option (Value ops)
  parse_bit DataType.bool bytes start = do v ← get_elem? bytes start; some (of_bool (v == 1))
  parse_bit DataType.int16 bytes start = do v ← get_elem? bytes start; some (of_int16 (pos v))
  parse_bit DataType.uint16 bytes start = do v ← get_elem? bytes start; some (of_uint16 v)
  parse_bit DataType.int32 bytes start = do v ← get_elem? bytes start; some (of_int32 (pos v))
  parse_bit DataType.int64 bytes start = do v ← get_elem? bytes start; some (of_int64 (pos v))
  parse_bit DataType.float32 bytes start = do
    v ← get_elem? bytes start
    some (of_float32 (int_to_f32 (pos v)))
  parse_bit DataType.float64 bytes start = do
    v ← get_elem? bytes start
    some (of_float64 (int_to_f64 (pos v)))
  parse_bit DataType.number bytes start = some nil
  parse_bit DataType.string bytes start = some nil

  -- `1<<(bits-1)&v != 0` on the 16 bits of `v`: the count is a uint8, so it wraps at 0, and a
  -- shift by 16 or more leaves 0.
  unfoldable pub has_bit : ℕ → ℕ → Bool
  has_bit bits v = ltb 0 (bit_and (2 ^ ((bits + 255) % 256) % 2 ^ 16) v)

  -- The value of a variable in registers, from the bytes that start at it.
  unfoldable pub parse_registers : MemoryLayout → DataType → ℕ → F64 → List ℕ → Option (Value ops)
  parse_registers layout DataType.bool bits rate vp_data = do
    v ← parse16 layout vp_data
    some (of_bool (has_bit bits v))
  parse_registers layout DataType.int16 bits rate vp_data = do
    v ← parse16 layout vp_data
    some (
        if is_scaled rate
        then of_int16 (f64_to_int16 (f64_mul (int_to_f64 (int16 v)) rate))
        else of_int16 (int16 v))
  parse_registers layout DataType.uint16 bits rate vp_data = do
    v ← parse16 layout vp_data
    some (
        if is_scaled rate
        then of_uint16 (f64_to_uint16 (f64_mul (int_to_f64 (pos v)) rate))
        else of_uint16 v)
  parse_registers layout DataType.int32 bits rate vp_data = do
    v ← parse32 layout vp_data
    some (
        if is_scaled rate
        then of_int32 (f64_to_int32 (f64_mul (int_to_f64 (int32 v)) rate))
        else of_int32 (int32 v))
  parse_registers layout DataType.int64 bits rate vp_data = do
    v ← parse64 layout vp_data
    some (
        if is_scaled rate
        then of_int64 (f64_to_int64 (f64_mul (int_to_f64 (int64 v)) rate))
        else of_int64 (int64 v))
  parse_registers layout DataType.float32 bits rate vp_data = do
    v ← parse32 layout vp_data
    some (
        if is_scaled rate
        then of_float32 (f32_mul (float32_from_bits v) (f64_to_f32 rate))
        else of_float32 (float32_from_bits v))
  parse_registers layout DataType.float64 bits rate vp_data = do
    v ← parse64 layout vp_data
    some (
        if is_scaled rate
        then of_float64 (f64_mul (float64_from_bits v) rate)
        else of_float64 (float64_from_bits v))
  parse_registers layout DataType.number bits rate vp_data = some nil
  parse_registers layout DataType.string bits rate vp_data = some nil

  -- The switch on the function code.
  unfoldable pub parse_value : ℕ → MemoryLayout → List ℕ → VariableParse ops → Option (Value ops)
  parse_value function_code layout bytes vp =
      if reads_bits function_code
      then parse_bit vp.variable.data_type bytes vp.start
      else if reads_registers function_code
      then (do
        vp_data ← slice_from vp.start bytes
        parse_registers layout vp.variable.data_type vp.variable.bits vp.variable.rate vp_data)
      else some nil

  -- The copy of a variable that is handed on: its access mode is left at Go's zero value.
  unfoldable pub copy_of : Variable ops → Variable ops
  copy_of v = record v { access_mode = read_only }

  -- `ParseVariableValue` stores each value in the variable itself (`SetValue`), and returns copies.
  unfoldable pub parse_variable_values :
      ℕ
      → MemoryLayout
      → List ℕ
      → List (VariableParse ops)
      → Option (List (VariableParse ops) × List (Variable ops))
  parse_variable_values function_code layout bytes [] = some ([], [])
  parse_variable_values function_code layout bytes (vp ∷ vps) = do
    value ← parse_value function_code layout bytes vp
    let variable = record (vp.variable) { value = value }
    rest ← parse_variable_values function_code layout bytes vps
    some (record vp { variable = variable } ∷ rest.0, copy_of variable ∷ rest.1)

  unfoldable pub parse_variable_value :
      DataFrame ops → List ℕ → Option (DataFrame ops × List (Variable ops))
  parse_variable_value df bytes = do
    parsed ← parse_variable_values df.function_code df.memory_layout bytes df.variables
    some (record df { variables = parsed.0 }, parsed.1)
