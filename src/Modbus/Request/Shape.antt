-- ===== src/Modbus/Request/Shape.antt =====
-- The bytes of a read request.
use harns_gateway.Prelude.{
  ℕ, ◌+◌, ◌*◌, ◌/◌, ◌%◌, ◌^◌, ◌<◌, ◌≡◌, arith, List, [], ◌∷◌, ◌++◌, some, All,
}
use harns_gateway.Binutil.Word.{IsByte, byte_at}
use harns_gateway.Binutil.Write.{write_uint16_big_endian}
use harns_gateway.Crc.Reference.{crc16}
use harns_gateway.Crc.Equivalence.{check_crc16sum-crc16, crc16-lt}
use harns_gateway.Crc.Residue.{crc16_residue}
use harns_gateway.Modbus.Request.{tcp_message, rtu_message}

abbrev pub high_byte : ℕ → ℕ
high_byte n = n / 256 % 256

abbrev pub low_byte : ℕ → ℕ
low_byte n = n % 256

pub word_high : (n : ℕ) → byte_at (n % 2 ^ 16) 8 ≡ high_byte n
word_high n = omega arith

pub word_low : (n : ℕ) → byte_at (n % 2 ^ 16) 0 ≡ low_byte n
word_low n = omega arith

pub sum_high : (w : ℕ) → w < 65536 → byte_at (w % 256 * 256 + w / 256) 8 ≡ w % 256
sum_high w h = omega arith

pub sum_low : (w : ℕ) → w < 65536 → byte_at (w % 256 * 256 + w / 256) 0 ≡ w / 256
sum_low w h = omega arith

-- A request over TCP: transaction 0, protocol 0, six bytes to come, slave, function code, the
-- address and the count, high byte first.
pub tcp_message_lem :
    (slave function_code start_address max_data_size : ℕ)
    → tcp_message slave function_code start_address max_data_size
      ≡ some (
          0
          ∷ 0
          ∷ 0
          ∷ 0
          ∷ 0
          ∷ 6
          ∷ low_byte slave
          ∷ function_code
          ∷ high_byte start_address
          ∷ low_byte start_address
          ∷ high_byte max_data_size
          ∷ low_byte max_data_size
          ∷ [])
unfolding tcp_message write_uint16_big_endian
tcp_message_lem slave code start size =
    cc (word_high start, word_low start, word_high size, word_low size)

-- The six bytes that the checksum of a request covers.
abbrev pub rtu_body : ℕ → ℕ → ℕ → ℕ → List ℕ
rtu_body slave function_code start_address max_data_size =
    low_byte slave
    ∷ function_code
    ∷ high_byte start_address
    ∷ low_byte start_address
    ∷ high_byte max_data_size
    ∷ low_byte max_data_size
    ∷ []

abbrev pub crc_of : List ℕ → ℕ
crc_of bytes = crc16 bytes 0xFFFF

-- Bytes with their CRC-16 behind them, low byte first.
abbrev pub with_crc : List ℕ → List ℕ
with_crc bytes = bytes ++ (crc_of bytes % 256 ∷ crc_of bytes / 256 ∷ [])

rtu_body-IsByte :
    (slave function_code start_address max_data_size : ℕ)
    → IsByte function_code
    → All IsByte (rtu_body slave function_code start_address max_data_size)
rtu_body-IsByte slave code start size h = omega arith

-- A request on a serial line: the body, and its CRC-16 in the order of the specification.
pub rtu_message_lem :
    (slave function_code start_address max_data_size : ℕ)
    → IsByte function_code
    → rtu_message slave function_code start_address max_data_size
      ≡ some (with_crc (rtu_body slave function_code start_address max_data_size))
unfolding rtu_message write_uint16_big_endian
rtu_message_lem slave code start size h =
    rw (word_high start, word_low start, word_high size, word_low size)
      (rw (check_crc16sum-crc16 body bytes)
        (cc (sum_high (crc_of body) fits, sum_low (crc_of body) fits)))
  where
    body : List ℕ
    body = rtu_body slave code start size

    bytes : All IsByte body
    bytes = rtu_body-IsByte slave code start size h

    fits : crc_of body < 65536
    fits = crc16-lt body 0xFFFF bytes (omega arith)

-- A read request on a serial line exists for every slave, address and count, and the CRC of the
-- specification over the whole of it is zero, so that a device accepts it. The function code is a
-- byte.
pub rtu_message_residue :
    (slave function_code start_address max_data_size : ℕ)
    → IsByte function_code
    → (message : List ℕ) × (rtu_message slave function_code start_address max_data_size
        ≡ some message)
      × (crc16 message 0xFFFF ≡ 0)
rtu_message_residue slave code start size h = (
  with_crc (rtu_body slave code start size),
  rtu_message_lem slave code start size h,
  crc16_residue (rtu_body slave code start size) 0xFFFF (rtu_body-IsByte slave code start size h)
      (omega arith),
)
