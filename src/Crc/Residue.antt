-- ===== src/Crc/Residue.antt =====
-- The test of a receiver: over a frame and its checksum the CRC is zero.
use harns_gateway.Prelude.{
  ℕ, ◌+◌, ◌*◌, ◌/◌, ◌%◌, ◌<◌, ◌≡◌, refl, ap, ◌∙◌, arith, List, [], ◌∷◌, ◌++◌, All,
}
use harns_gateway.Prelude.Bits.{bit_xor_self, bit_xor-zero}
use harns_gateway.Binutil.Word.{IsByte}
use harns_gateway.Crc.Reference.{shift_out, shift_out_times, crc16}
use harns_gateway.Crc.Equivalence.{reference_step, crc16-lt}

pub crc16-append : (p s : List ℕ) (crc : ℕ) → crc16 (p ++ s) crc ≡ crc16 s (crc16 p crc)
unfolding crc16
crc16-append [] s crc = refl
crc16-append (b ∷ p) s crc = crc16-append p s _

shift_out-zero : shift_out_times 8 0 ≡ 0
unfolding shift_out_times shift_out
shift_out-zero = refl

-- A register that meets its own bytes, low one first, is cleared.
clears : (low high : ℕ) → IsByte low → IsByte high → crc16 (low ∷ high ∷ []) (high * 256 + low) ≡ 0
unfolding crc16
clears low high hl hh =
    rw (reference_step low low high hl hl hh, bit_xor_self low, shift_out-zero, bit_xor-zero high)
      (let e : 0 / 256 * 256 + high ≡ high = omega arith in
        rw (e, bit_xor_self high) shift_out-zero)

pub crc16_residue :
    (bytes : List ℕ) (crc : ℕ)
    → All IsByte bytes
    → crc < 65536
    → crc16 (bytes ++ (crc16 bytes crc % 256 ∷ crc16 bytes crc / 256 ∷ [])) crc ≡ 0
crc16_residue bytes crc hs h =
    let w = crc16 bytes crc in
    let lt : w < 65536 = crc16-lt bytes crc hs h in
    let e : w ≡ w / 256 * 256 + w % 256 = omega arith in
    crc16-append bytes (w % 256 ∷ w / 256 ∷ []) crc
    ∙ ap (crc16 (w % 256 ∷ w / 256 ∷ [])) e
    ∙ clears (w % 256) (w / 256) (omega arith) (omega arith)
