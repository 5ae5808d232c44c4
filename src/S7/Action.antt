-- ===== src/S7/Action.antt =====
-- `generateActionParameterDataItem` and `DeliverAction` of pkg/protocol/s7/s7broker.go: variables are
-- written. `none` is a panic, here of a type assertion or of an address.
pub mod RoundTrip
pub mod Transport
pub mod Deliver
use harns_gateway.Prelude.{
  ℕ, zero, ◌%◌, ◌^◌, List, [], ◌∷◌, Option, some, ◌>>=◌, ◌==◌, if◌then◌else◌,
}
use harns_gateway.Prelude.Int.{uint16, uint32, uint64}
use harns_gateway.Binutil.Float.{FloatOps, float32_to_bytes_big_endian, float64_to_bytes_big_endian}
use harns_gateway.Binutil.Encode.{
  uint16_to_bytes_big_endian, uint32_to_bytes_big_endian, uint64_to_bytes_big_endian,
}
use harns_gateway.Constant.{DataType}
use harns_gateway.Modbus.Types.{Value}
use harns_gateway.Modbus.Decode.{is_scaled}
use harns_gateway.Modbus.Action.{
  as_bool, as_int16, as_uint16, as_int32, as_int64, as_float32, as_float64,
}
use harns_gateway.S7.Types.{
  Variable, store_area_code, store_area_transport_size, data_request_length, data_type_bit_length,
}
use harns_gateway.S7.Address.{Place, parse_variable_address}
use harns_gateway.S7.Request.{
  new_s7comm_read_parameter_item, new_s7comm_write_data_item, ParameterData,
}

-- `transportSize` after the switch: a Boolean sets it, and another type leaves what the variables
-- before it have set.
abbrev pub switched : DataType → ℕ → ℕ
switched DataType.bool size = 1
switched _ size = size

-- And after the test of it, with the address.
unfoldable pub transport_size : Place → ℕ → ℕ
transport_size place size = if size == 0 then store_area_transport_size place.area else size

module _ (ops : FloatOps) where
  open ops use {F64, f64_mul, f64_to_int16, f64_to_uint16, f64_to_int32, f64_to_int64, f64_to_f32}

  -- `variable.Value.(float64) * variable.Rate`
  abbrev pub scaled_value : F64 → Value ops → Option F64
  scaled_value rate value = do x ← as_float64 ops value; some (f64_mul x rate)

  -- `dataByte`, by the data type.
  unfoldable pub data_byte : DataType → F64 → Value ops → Option (List ℕ)
  data_byte DataType.bool rate value = do
    on ← as_bool ops value
    some (if on then uint16_to_bytes_big_endian 1 else uint16_to_bytes_big_endian 0)
  data_byte DataType.int16 rate value = do
    z ←
        (if is_scaled ops rate
          then (do x ← scaled_value rate value; some (f64_to_int16 x))
          else as_int16 ops value)
    some (uint16_to_bytes_big_endian (uint16 z))
  data_byte DataType.uint16 rate value = do
    n ←
        (if is_scaled ops rate
          then (do x ← scaled_value rate value; some (f64_to_uint16 x))
          else as_uint16 ops value)
    some (uint16_to_bytes_big_endian n)
  data_byte DataType.int32 rate value = do
    z ←
        (if is_scaled ops rate
          then (do x ← scaled_value rate value; some (f64_to_int32 x))
          else as_int32 ops value)
    some (uint32_to_bytes_big_endian (uint32 z))
  data_byte DataType.int64 rate value = do
    z ←
        (if is_scaled ops rate
          then (do x ← scaled_value rate value; some (f64_to_int64 x))
          else as_int64 ops value)
    some (uint64_to_bytes_big_endian (uint64 z))
  data_byte DataType.float32 rate value = do
    x ←
        (if is_scaled ops rate
          then (do x ← scaled_value rate value; some (f64_to_f32 x))
          else as_float32 ops value)
    some (float32_to_bytes_big_endian ops x)
  data_byte DataType.float64 rate value = do
    x ← (if is_scaled ops rate then scaled_value rate value else as_float64 ops value)
    some (float64_to_bytes_big_endian ops x)
  data_byte DataType.number rate value = some []
  data_byte DataType.string rate value = some []

  abbrev pub parameter_data : Variable ops → ℕ → Place → List ℕ → ParameterData
  parameter_data v size place bytes = record {
    parameter_item =
        new_s7comm_read_parameter_item size (data_request_length v.data_type place.area)
          (place.area_size % 2 ^ 16) (store_area_code place.area) place.address place.bit;
    data_item = new_s7comm_write_data_item size (data_type_bit_length v.data_type) bytes;
  }

  -- The loop over the variables, from a `transportSize`.
  unfoldable pub generate_from : ℕ → List (Variable ops) → Option (List ParameterData)
  generate_from size [] = some []
  generate_from size (v ∷ vs) = do
    bytes ← data_byte v.data_type v.rate v.value
    place ← parse_variable_address v.address
    let now = transport_size place (switched v.data_type size)
    rest ← generate_from now vs
    some (parameter_data v now place bytes ∷ rest)

  unfoldable pub generate_action_parameter_data_item :
      List (Variable ops) → Option (List ParameterData)
  generate_action_parameter_data_item action = generate_from 0 action
