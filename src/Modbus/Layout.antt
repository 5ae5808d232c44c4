-- ===== src/Modbus/Layout.antt =====
-- The switches on the memory layout of a device in `ParseVariableValue` (runtime/type.go) and
-- `generateActionBytes` (modbusbroker.go), one for each width of a word.
pub mod RoundTrip
use harns_gateway.Prelude.{ℕ, List, Option}
use harns_gateway.Constant.{MemoryLayout, dcba, cdab, badc, abcd}
use harns_gateway.Binutil.Parse.{
  parse_uint16_big_endian, parse_uint16_little_endian, parse_uint32_big_endian,
  parse_uint32_big_endian_byte_swap, parse_uint32_little_endian,
  parse_uint32_little_endian_byte_swap, parse_uint64_big_endian, parse_uint64_big_endian_byte_swap,
  parse_uint64_little_endian, parse_uint64_little_endian_byte_swap,
}
use harns_gateway.Binutil.Encode.{
  uint16_to_bytes_big_endian, uint16_to_bytes_little_endian, uint32_to_bytes_big_endian,
  uint32_to_bytes_big_endian_byte_swap, uint32_to_bytes_little_endian,
  uint32_to_bytes_little_endian_byte_swap, uint64_to_bytes_big_endian,
  uint64_to_bytes_big_endian_byte_swap, uint64_to_bytes_little_endian,
  uint64_to_bytes_little_endian_byte_swap,
}

unfoldable pub parse16 : MemoryLayout → List ℕ → Option ℕ
parse16 abcd b = parse_uint16_big_endian b
parse16 cdab b = parse_uint16_big_endian b
parse16 badc b = parse_uint16_little_endian b
parse16 dcba b = parse_uint16_little_endian b

unfoldable pub parse32 : MemoryLayout → List ℕ → Option ℕ
parse32 abcd b = parse_uint32_big_endian b
parse32 badc b = parse_uint32_big_endian_byte_swap b
parse32 cdab b = parse_uint32_little_endian_byte_swap b
parse32 dcba b = parse_uint32_little_endian b

unfoldable pub parse64 : MemoryLayout → List ℕ → Option ℕ
parse64 abcd b = parse_uint64_big_endian b
parse64 badc b = parse_uint64_big_endian_byte_swap b
parse64 cdab b = parse_uint64_little_endian_byte_swap b
parse64 dcba b = parse_uint64_little_endian b

unfoldable pub bytes16 : MemoryLayout → ℕ → List ℕ
bytes16 abcd v = uint16_to_bytes_big_endian v
bytes16 cdab v = uint16_to_bytes_big_endian v
bytes16 badc v = uint16_to_bytes_little_endian v
bytes16 dcba v = uint16_to_bytes_little_endian v

unfoldable pub bytes32 : MemoryLayout → ℕ → List ℕ
bytes32 abcd v = uint32_to_bytes_big_endian v
bytes32 badc v = uint32_to_bytes_big_endian_byte_swap v
bytes32 cdab v = uint32_to_bytes_little_endian_byte_swap v
bytes32 dcba v = uint32_to_bytes_little_endian v

unfoldable pub bytes64 : MemoryLayout → ℕ → List ℕ
bytes64 abcd v = uint64_to_bytes_big_endian v
bytes64 badc v = uint64_to_bytes_big_endian_byte_swap v
bytes64 cdab v = uint64_to_bytes_little_endian_byte_swap v
bytes64 dcba v = uint64_to_bytes_little_endian v
