-- ===== src/Tests/Crc.antt =====
-- pkg/utils/crcutil at concrete bytes.
use harns_gateway.Prelude.{ℕ, ◌+◌, ◌*◌, ◌/◌, ◌%◌, ◌≡◌, refl, arith, List, [], ◌∷◌, ◌≢◌, some}
use harns_gateway.Crc.{check_crc16sum, crc_loop, crc_hi, crc_lo}
use harns_gateway.Crc.Reference.{crc16}
use harns_gateway.Crc.Equivalence.{check_crc16sum-crc16}
use harns_gateway.Crc.Detection.{check_crc16sum_detects}

-- The request of the comment in modbusrtu.go.
abbrev sample : List ℕ
sample = 0x01 ∷ 0x03 ∷ 0x00 ∷ 0x00 ∷ 0x00 ∷ 0x0A ∷ []

check_crc16sum-sample : check_crc16sum sample ≡ some 0xC5CD
unfolding check_crc16sum crc_loop crc_hi crc_lo
check_crc16sum-sample = refl

check_crc16sum-crc16_example :
    check_crc16sum sample ≡ some (crc16 sample 0xFFFF % 256 * 256 + crc16 sample 0xFFFF / 256)
check_crc16sum-crc16_example = check_crc16sum-crc16 sample (omega arith)

damaged_sample : ¬ ((◌≡◌ {A = ℕ} 0x00 0x01) × (◌≡◌ {A = ℕ} 0x0A 0x0A))
damaged_sample e = absurd (omega (arith, e.0))

check_crc16sum_detects_example :
    check_crc16sum (0x01 ∷ 0x03 ∷ 0x00 ∷ 0x00 ∷ 0x00 ∷ 0x0A ∷ [])
    ≢ check_crc16sum (0x01 ∷ 0x03 ∷ 0x00 ∷ 0x00 ∷ 0x01 ∷ 0x0A ∷ [])
check_crc16sum_detects_example =
    check_crc16sum_detects (0x01 ∷ 0x03 ∷ 0x00 ∷ 0x00 ∷ []) [] 0x00 0x0A 0x01 0x0A (omega arith)
      (omega arith) (omega arith) (omega arith) damaged_sample
