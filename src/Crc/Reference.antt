-- ===== src/Crc/Reference.antt =====
-- The CRC-16 of the Modbus serial line specification, bit by bit: polynomial 0xA001 (reflected),
-- initial value 0xFFFF, lowest bit first.
use harns_gateway.Prelude.{ℕ, zero, suc, ◌/◌, ◌%◌, ◌==◌, bit_xor, List, [], ◌∷◌, if◌then◌else◌}

-- Shift out one bit.
unfoldable pub shift_out : ℕ → ℕ
shift_out crc = if crc % 2 == 1 then bit_xor (crc / 2) 0xA001 else crc / 2

unfoldable pub shift_out_times : ℕ → ℕ → ℕ
shift_out_times zero crc = crc
shift_out_times (suc n) crc = shift_out_times n (shift_out crc)

unfoldable pub crc16 : List ℕ → ℕ → ℕ
crc16 [] crc = crc
crc16 (b ∷ rest) crc = crc16 rest (shift_out_times 8 (bit_xor crc b))
