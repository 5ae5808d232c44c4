-- ===== src/Modbus/Response.antt =====
-- `ValidateAndExtractMessage` of pkg/protocol/modbus/modbusbroker.go, and the transaction id that
-- `WriteTransactionId` (runtime/type.go) puts into a request.
pub mod Accepts
pub mod Checked
use harns_gateway.Prelude.{
  ℕ, ◌+◌, ◌%◌, ◌^◌, bit_and, List, [], ◌∷◌, Option, Bool, true, false, not, none, some, ◌==◌, ltb,
  length, get_elem?, if◌then◌else◌,
}
use harns_gateway.Binutil.Float.{FloatOps}
use harns_gateway.Binutil.Parse.{parse_uint16, parse_uint16_big_endian}
use harns_gateway.Binutil.Write.{write_uint16_big_endian}
use harns_gateway.Binutil.Bools.{expand_bool, dup}
use harns_gateway.Crc.{check_crc16sum}
use harns_gateway.Modbus.Types.{
  DataFrame, reads_bits, reads_registers, ModbusModel, tcp, rtu, rtu_over_tcp, Error,
  message_transaction, message_slave, message_function_code_error, message_data_length_not_enough,
  crc16_error, Result, ok, err, panic, or_panic, slice, slice_from, ◌>>=◌, ◌>>◌,
}

-- `NeedCheckTransaction` and `NeedCheckCrc16Sum` of a broker.
pub record Checks : Type 0 where
  pub transaction : Bool
  pub crc16sum : Bool

-- The switch on the model in `NewBroker`.
unfoldable pub checks_of : ModbusModel → Checks
checks_of tcp = record { transaction = true; crc16sum = false }
checks_of rtu = record { transaction = false; crc16sum = true }
checks_of rtu_over_tcp = record { transaction = false; crc16sum = true }

-- The header of a response over TCP: its transaction id is checked and its six bytes are cut off.
unfoldable pub check_transaction : Bool → ℕ → List ℕ → Result (List ℕ)
check_transaction false expected buf = ok buf
check_transaction true expected buf = do
  transaction_id ← or_panic (parse_uint16 buf)
  if transaction_id == expected then or_panic (slice_from 6 buf) else err message_transaction

-- The length, and on a serial line the checksum. The bounds of the slices are uint8, which wraps.
unfoldable pub check_length : Bool → ℕ → List ℕ → Result (Unit {0})
check_length true byte_data_length buf =
    if byte_data_length + 5 == length buf
    then (do
      check_buf_data ← or_panic (slice 0 ((byte_data_length + 3) % 256) buf)
      sum ← or_panic (check_crc16sum check_buf_data)
      crc_bytes ← or_panic (slice ((byte_data_length + 3) % 256) ((byte_data_length + 5) % 256) buf)
      crc ← or_panic (parse_uint16_big_endian crc_bytes)
      if sum == crc then ok tt else err crc16_error)
    else err message_data_length_not_enough
check_length false byte_data_length buf =
    if byte_data_length + 3 == length buf then ok tt else err message_data_length_not_enough

-- The data of a response by its function code.
unfoldable pub extract : ℕ → ℕ → List ℕ → Result (List ℕ)
extract function_code byte_data_length buf =
    if reads_bits function_code
    then (do body ← or_panic (slice_from 3 buf); or_panic (expand_bool body byte_data_length))
    else if reads_registers function_code
    then (do body ← or_panic (slice_from 3 buf); ok (dup body))
    else ok []

module _ (ops : FloatOps) where
  abbrev pub with_id : DataFrame ops → ℕ → Option (List ℕ) → Option (DataFrame ops)
  with_id df id none = none
  with_id df id (some bytes) = some (record df { transaction_id = id; data_frame = bytes })

  -- `WriteTransactionId`: a uint16 that wraps.
  unfoldable pub write_transaction_id : DataFrame ops → Option (DataFrame ops)
  write_transaction_id df =
      let id = (df.transaction_id + 1) % 2 ^ 16 in
      with_id df id (write_uint16_big_endian id df.data_frame)

  unfoldable pub validate_and_extract_message : Checks → DataFrame ops → Result (List ℕ)
  validate_and_extract_message checks df = do
    buf ← check_transaction checks.transaction df.transaction_id df.response_data_frame
    slave ← or_panic (get_elem? buf 0)
    if slave == df.slave
        then (do
          function_code ← or_panic (get_elem? buf 1)
          if ltb 0 (bit_and function_code 0x80) then err message_function_code_error else (do
            byte_data_length ← or_panic (get_elem? buf 2)
            check_length checks.crc16sum byte_data_length buf
            extract function_code byte_data_length buf))
        else err message_slave
