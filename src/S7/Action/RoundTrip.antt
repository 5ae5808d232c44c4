-- ===== src/S7/Action/RoundTrip.antt =====
-- What is written to an S7 device is what is read from it.
use harns_gateway.Prelude.{ℕ, ◌<◌, ◌≡◌, ◌^◌, refl, List, ◌++◌, false, some}
use harns_gateway.Prelude.Int.{
  uint16, uint32, uint64, int16-uint16, int32-uint32, int64-uint64, uint16-lt, uint32-lt, uint64-lt,
}
use harns_gateway.Binutil.Float.{
  FloatOps, float32_to_bytes_big_endian, float64_to_bytes_big_endian, parse_float32_big_endian,
  parse_float64_big_endian,
}
use harns_gateway.Binutil.Encode.{
  uint16_to_bytes_big_endian, uint32_to_bytes_big_endian, uint64_to_bytes_big_endian,
}
use harns_gateway.Binutil.Parse.{
  parse_uint16_big_endian, parse_uint32_big_endian, parse_uint64_big_endian,
}
use harns_gateway.Constant.{DataType, abcd}
use harns_gateway.Modbus.Types.{Value}
use harns_gateway.Modbus.Layout.{parse16, bytes16, parse32, bytes32, parse64, bytes64}
use harns_gateway.Modbus.Layout.RoundTrip.{parse16-bytes16, parse32-bytes32, parse64-bytes64}
use harns_gateway.Modbus.Decode.{is_scaled}
use harns_gateway.Modbus.Action.RoundTrip.{IsValueOf}
use harns_gateway.S7.Response.{parse_data}
use harns_gateway.S7.Action.{data_byte}

word16 :
    (v : ℕ) (rest : List ℕ)
    → v < 2 ^ 16
    → parse_uint16_big_endian (uint16_to_bytes_big_endian v ++ rest) ≡ some v
unfolding parse16 bytes16
word16 v rest h = parse16-bytes16 abcd v rest h

word32 :
    (v : ℕ) (rest : List ℕ)
    → v < 2 ^ 32
    → parse_uint32_big_endian (uint32_to_bytes_big_endian v ++ rest) ≡ some v
unfolding parse32 bytes32
word32 v rest h = parse32-bytes32 abcd v rest h

word64 :
    (v : ℕ) (rest : List ℕ)
    → v < 2 ^ 64
    → parse_uint64_big_endian (uint64_to_bytes_big_endian v ++ rest) ≡ some v
unfolding parse64 bytes64
word64 v rest h = parse64-bytes64 abcd v rest h

module _ (ops : FloatOps) where
  -- The bytes that generateActionParameterDataItem writes for an S7 variable are read back by
  -- ParseVariableValue, whatever follows them: for every value of the data types int16, uint16,
  -- int32, int64, float32 and float64 in their range, at a rate that does not scale.
  pub data_byte-parse_data :
      (t : DataType) (rate : ops.F64) (value : Value ops) (rest : List ℕ)
      → IsValueOf ops t value
      → is_scaled ops rate ≡ false
      → (bytes : List ℕ) × (data_byte ops t rate value ≡ some bytes)
        × (parse_data ops t rate (bytes ++ rest) ≡ some value)
  unfolding data_byte parse_data float32_to_bytes_big_endian float64_to_bytes_big_endian
      parse_float32_big_endian parse_float64_big_endian
  data_byte-parse_data _ rate _ rest (IsValueOf.an_int16 z h) plain = (
    uint16_to_bytes_big_endian (uint16 z),
    rw plain refl,
    rw (plain, word16 _ rest (uint16-lt z), int16-uint16 z h) refl,
  )
  data_byte-parse_data _ rate _ rest (IsValueOf.a_uint16 n h) plain =
      (uint16_to_bytes_big_endian n, rw plain refl, rw (plain, word16 n rest h) refl)
  data_byte-parse_data _ rate _ rest (IsValueOf.an_int32 z h) plain = (
    uint32_to_bytes_big_endian (uint32 z),
    rw plain refl,
    rw (plain, word32 _ rest (uint32-lt z), int32-uint32 z h) refl,
  )
  data_byte-parse_data _ rate _ rest (IsValueOf.an_int64 z h) plain = (
    uint64_to_bytes_big_endian (uint64 z),
    rw plain refl,
    rw (plain, word64 _ rest (uint64-lt z), int64-uint64 z h) refl,
  )
  data_byte-parse_data _ rate _ rest (IsValueOf.a_float32 x) plain = (
    float32_to_bytes_big_endian ops x,
    rw plain refl,
    rw (plain, word32 _ rest (ops.float32_bits-lt x), ops.float32_from_bits-bits x) refl,
  )
  data_byte-parse_data _ rate _ rest (IsValueOf.a_float64 x) plain = (
    float64_to_bytes_big_endian ops x,
    rw plain refl,
    rw (plain, word64 _ rest (ops.float64_bits-lt x), ops.float64_from_bits-bits x) refl,
  )
