-- ===== src/Modbus/Deliver/Frame.antt =====
-- The frame that `DeliverAction` sends around a PDU.
use harns_gateway.Prelude.{ℕ, ◌+◌, ◌<◌, ◌≡◌, refl, arith, List, ◌∷◌, some, length, All}
use harns_gateway.Binutil.Word.{IsByte}
use harns_gateway.Binutil.Write.{write_uint16_big_endian}
use harns_gateway.Crc.Equivalence.{check_crc16sum-crc16, crc16-lt}
use harns_gateway.Modbus.Types.{tcp, rtu}
use harns_gateway.Modbus.Request.Shape.{
  high_byte, low_byte, with_crc, crc_of, word_high, word_low, sum_high, sum_low,
}
use harns_gateway.Modbus.Response.{checks_of}
use harns_gateway.Modbus.Deliver.{action_header, action_tail, action_frame}
use mathlib.Core.List.{append-nil}

-- The frame that DeliverAction sends over TCP around any PDU has the number of the frame as
-- transaction id, protocol zero, the length of slave and PDU, the low byte of the slave, and the
-- PDU.
pub action_frame-tcp :
    (slave i : ℕ) (pdu : List ℕ)
    → action_frame (checks_of tcp) slave i pdu
      ≡ some (
          high_byte i
          ∷ low_byte i
          ∷ 0
          ∷ 0
          ∷ high_byte (1 + length pdu)
          ∷ low_byte (1 + length pdu)
          ∷ low_byte slave
          ∷ pdu)
unfolding action_frame action_header action_tail checks_of write_uint16_big_endian
action_frame-tcp slave i pdu =
    rw
      (
        word_high i,
        word_low i,
        word_high (1 + length pdu),
        word_low (1 + length pdu),
        append-nil pdu,
      )
      refl

-- The frame that DeliverAction sends on a serial line around any PDU of bytes is the low byte of
-- the slave and the PDU, with their CRC-16 behind them in the order of the specification.
pub action_frame-rtu :
    (slave i : ℕ) (pdu : List ℕ)
    → All IsByte pdu
    → action_frame (checks_of rtu) slave i pdu ≡ some (with_crc (low_byte slave ∷ pdu))
unfolding action_frame action_header action_tail checks_of write_uint16_big_endian
action_frame-rtu slave i pdu bytes = rw (check_crc16sum-crc16 (low_byte slave ∷ pdu) all_bytes) (
    cc
      (sum_high (crc_of (low_byte slave ∷ pdu)) fits, sum_low (crc_of (low_byte slave ∷ pdu)) fits))
  where
    all_bytes : All IsByte (low_byte slave ∷ pdu)
    all_bytes = (omega arith, bytes)

    fits : crc_of (low_byte slave ∷ pdu) < 65536
    fits = crc16-lt (low_byte slave ∷ pdu) 0xFFFF all_bytes (omega arith)
