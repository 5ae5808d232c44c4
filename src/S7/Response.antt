-- ===== src/S7/Response.antt =====
-- The answers to S7 requests, pkg/protocol/s7/s7broker.go: `ValidateMessage` and `ParseVariableValue`.
-- `none`, or `panic`, is a run-time panic.
pub mod Slices
pub mod Data
pub mod Bytes
pub mod Located
pub mod Accepts
pub mod Scaled
use harns_gateway.Prelude.{
  ℕ, ◌+◌, ◌%◌, ◌^◌, bit_and, List, [], ◌∷◌, Option, Bool, none, some, ◌==◌, ltb, get_elem?,
  if◌then◌else◌,
}
use harns_gateway.Prelude.{◌>>=◌ as ◌>>=?◌}
use harns_gateway.Prelude.Int.{int16, int32, int64}
use harns_gateway.Binutil.Float.{FloatOps, parse_float32_big_endian, parse_float64_big_endian}
use harns_gateway.Binutil.Parse.{
  parse_uint16, parse_uint16_big_endian, parse_uint32_big_endian, parse_uint64_big_endian,
}
use harns_gateway.Constant.{DataType, read_only}
use harns_gateway.Modbus.Types.{
  Value, nil, of_bool, of_int16, of_uint16, of_int32, of_int64, of_float32, of_float64, slice,
  slice_from,
}
use harns_gateway.Modbus.Decode.{is_scaled}
use harns_gateway.S7.Types.{
  Variable, message_data_length_not_enough, message_s7_response, Result, ok, err, or_panic, ◌>>=◌,
}
use harns_gateway.S7.Request.{VariableParse, DataFrame}

module _ (ops : FloatOps) where
  open ops use {F64, f64_mul}

  -- The checks of `ValidateMessage` on `buf`: the length of the data, the class and the code of an
  -- error.
  unfoldable pub check_message : DataFrame ops → List ℕ → Result (List ℕ)
  check_message df buf = do
    tail ← or_panic (slice_from 15 buf)
    item_length ← or_panic (parse_uint16 tail)
    if item_length == df.data_length % 2 ^ 16
        then (do
          error_class ← or_panic (get_elem? buf 17)
          if error_class == 0
              then (do
                error_code ← or_panic (get_elem? buf 18)
                if error_code == 0 then ok buf else err message_s7_response)
              else err message_s7_response)
        else err message_data_length_not_enough

  -- `ValidateMessage` of the bytes that were read.
  unfoldable pub validate_message : DataFrame ops → ℕ → Result (List ℕ)
  validate_message df least = do
    buf ← or_panic (slice 0 least df.response_data_frame)
    check_message df buf

  -- `1<<bit & v != 0` on a byte.
  unfoldable pub has_byte_bit : ℕ → ℕ → Bool
  has_byte_bit bit v = ltb 0 (bit_and (2 ^ bit % 2 ^ 8) v)

  -- `v.(float64)`, where `v` holds a number of another type, panics.
  abbrev pub unless_scaled : F64 → Value ops → Option (Value ops)
  unless_scaled rate value = if is_scaled ops rate then none else some value

  -- A value from the bytes that start at it.
  unfoldable pub parse_data : DataType → F64 → List ℕ → Option (Value ops)
  parse_data DataType.uint16 rate vp_data =
      parse_uint16_big_endian vp_data >>=? λ v. unless_scaled rate (of_uint16 v)
  parse_data DataType.int16 rate vp_data =
      parse_uint16_big_endian vp_data >>=? λ v. unless_scaled rate (of_int16 (int16 v))
  parse_data DataType.int32 rate vp_data =
      parse_uint32_big_endian vp_data >>=? λ v. unless_scaled rate (of_int32 (int32 v))
  parse_data DataType.float32 rate vp_data =
      parse_float32_big_endian ops vp_data >>=? λ v. unless_scaled rate (of_float32 v)
  parse_data DataType.int64 rate vp_data =
      parse_uint64_big_endian vp_data >>=? λ v. unless_scaled rate (of_int64 (int64 v))
  parse_data DataType.float64 rate vp_data = parse_float64_big_endian ops vp_data >>=? λ v.
      some (if is_scaled ops rate then of_float64 (f64_mul v rate) else of_float64 v)
  parse_data DataType.bool rate vp_data = some nil
  parse_data DataType.string rate vp_data = some nil
  parse_data DataType.number rate vp_data = some nil

  -- The switch on the data type, where the data of the item starts at `start`.
  unfoldable pub parse_switch : DataType → ℕ → F64 → ℕ → List ℕ → Option (Value ops)
  parse_switch DataType.bool bit rate start bytes =
      get_elem? bytes start >>=? λ v. some (of_bool (has_byte_bit bit v))
  parse_switch DataType.string bit rate start bytes = some nil
  parse_switch DataType.number bit rate start bytes = some nil
  parse_switch t bit rate start bytes = slice_from start bytes >>=? parse_data t rate

  unfoldable pub parse_value : List ℕ → VariableParse ops → Option (Value ops)
  parse_value bytes vp =
      parse_switch vp.variable.data_type vp.bit_address_or_length vp.variable.rate
        (vp.start_address + 4) bytes

  -- The copy that is handed on.
  abbrev pub copy_of : Variable ops → Variable ops
  copy_of v = record v { access_mode = read_only }

  unfoldable pub parse_variable_values :
      List ℕ → List (VariableParse ops) → Option (List (VariableParse ops) × List (Variable ops))
  parse_variable_values bytes [] = some ([], [])
  parse_variable_values bytes (vp ∷ vps) = parse_value bytes vp >>=? λ value.
      parse_variable_values bytes vps >>=? λ rest. some (
        record vp { variable = record (vp.variable) { value = value } } ∷ rest.0,
        copy_of (record (vp.variable) { value = value }) ∷ rest.1,
      )

  -- `ParseVariableValue` stores each value in the variable itself, and returns copies.
  unfoldable pub parse_variable_value :
      DataFrame ops → List ℕ → Option (DataFrame ops × List (Variable ops))
  parse_variable_value df bytes = parse_variable_values bytes df.variables >>=? λ parsed.
      some (record df { variables = parsed.0 }, parsed.1)
