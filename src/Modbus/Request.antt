-- ===== src/Modbus/Request.antt =====
-- `GenerateReadMessage` of pkg/protocol/modbus/model: modbustcp.go, modbusrtu.go and
-- modbusrtuovertcp.go. `none` would be a panic.

pub mod Shape
use harns_gateway.Prelude.{
  ℕ, ◌+◌, ◌*◌, ◌/◌, ◌%◌, ◌^◌, List, [], ◌∷◌, ◌++◌, Option, none, some, ◌>>=◌, ◌==◌, set, replicate,
  if◌then◌else◌,
}
use harns_gateway.Binutil.Float.{FloatOps}
use harns_gateway.Binutil.Write.{write_from, write_uint16_big_endian}
use harns_gateway.Constant.{MemoryLayout}
use harns_gateway.Crc.{check_crc16sum}
use harns_gateway.Modbus.Types.{
  VariableParse, DataFrame, reads_bits, reads_registers, ModbusModel, tcp, rtu, rtu_over_tcp,
}

abbrev pub tcp_non_data_length : ℕ
tcp_non_data_length = 9

abbrev pub rtu_non_data_length : ℕ
rtu_non_data_length = 5

abbrev pub rtu_over_tcp_non_data_length : ℕ
rtu_over_tcp_non_data_length = 5

-- `bytesLength`, computed on uint: the bytes of the response that is waited for.
unfoldable pub bytes_length : ℕ → ℕ → ℕ → ℕ
bytes_length function_code max_data_size non_data_length =
    if reads_bits function_code
    then (if max_data_size % 8 == 0
        then (max_data_size / 8 + non_data_length) % 2 ^ 64
        else (max_data_size / 8 + 1 + non_data_length) % 2 ^ 64)
    else if reads_registers function_code
    then (max_data_size * 2 + non_data_length) % 2 ^ 64
    else 0

-- The twelve bytes of a request over TCP; the transaction id is written when it is sent.
unfoldable pub tcp_message : ℕ → ℕ → ℕ → ℕ → Option (List ℕ)
tcp_message slave function_code start_address max_data_size = do
  m1 ← write_from 2 (write_uint16_big_endian 0) (replicate 12 0)
  m2 ← write_from 4 (write_uint16_big_endian 6) m1
  let m3 = set (set m2 6 (slave % 256)) 7 function_code
  m4 ← write_from 8 (write_uint16_big_endian (start_address % 2 ^ 16)) m3
  write_from 10 (write_uint16_big_endian (max_data_size % 2 ^ 16)) m4

-- The eight bytes of a request on a serial line, its checksum last.
unfoldable pub rtu_message : ℕ → ℕ → ℕ → ℕ → Option (List ℕ)
rtu_message slave function_code start_address max_data_size = do
  let m1 = set (set (replicate 6 0) 0 (slave % 256)) 1 function_code
  m2 ← write_from 2 (write_uint16_big_endian (start_address % 2 ^ 16)) m1
  m3 ← write_from 4 (write_uint16_big_endian (max_data_size % 2 ^ 16)) m2
  sum ← check_crc16sum m3
  crc16 ← write_uint16_big_endian sum (replicate 2 0)
  some (m3 ++ crc16)

module _ (ops : FloatOps) where
  -- The data frame around a message.
  abbrev pub data_frame_of :
      ℕ → ℕ → ℕ → ℕ → List (VariableParse ops) → MemoryLayout → ℕ → List ℕ → DataFrame ops
  data_frame_of slave function_code start_address max_data_size variables layout length message =
      record {
        slave = slave;
        memory_layout = layout;
        start_address = start_address;
        function_code = function_code;
        max_data_size = max_data_size;
        transaction_id = 0;
        data_frame = message;
        response_data_frame = replicate length 0;
        variables = variables;
      }

  unfoldable pub tcp_generate_read_message :
      ℕ → ℕ → ℕ → ℕ → List (VariableParse ops) → MemoryLayout → Option (DataFrame ops)
  tcp_generate_read_message slave function_code start_address max_data_size variables layout = do
    message ← tcp_message slave function_code start_address max_data_size
    some (
        data_frame_of slave function_code start_address max_data_size variables layout
          (bytes_length function_code max_data_size tcp_non_data_length) message)

  unfoldable pub rtu_generate_read_message :
      ℕ → ℕ → ℕ → ℕ → List (VariableParse ops) → MemoryLayout → Option (DataFrame ops)
  rtu_generate_read_message slave function_code start_address max_data_size variables layout = do
    message ← rtu_message slave function_code start_address max_data_size
    some (
        data_frame_of slave function_code start_address max_data_size variables layout
          (bytes_length function_code max_data_size rtu_non_data_length) message)

  unfoldable pub rtu_over_tcp_generate_read_message :
      ℕ → ℕ → ℕ → ℕ → List (VariableParse ops) → MemoryLayout → Option (DataFrame ops)
  rtu_over_tcp_generate_read_message slave function_code start_address max_data_size variables
        layout =
      do
        message ← rtu_message slave function_code start_address max_data_size
        some (
            data_frame_of slave function_code start_address max_data_size variables layout
              (bytes_length function_code max_data_size rtu_over_tcp_non_data_length) message)

  -- The call through `ModbusModelers`.
  unfoldable pub generate_read_message :
      ModbusModel → ℕ → ℕ → ℕ → ℕ → List (VariableParse ops) → MemoryLayout → Option (DataFrame ops)
  generate_read_message tcp = tcp_generate_read_message
  generate_read_message rtu = rtu_generate_read_message
  generate_read_message rtu_over_tcp = rtu_over_tcp_generate_read_message
