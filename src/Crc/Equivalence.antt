-- ===== src/Crc/Equivalence.antt =====
-- The table-driven loop computes the CRC-16 of the specification.
use harns_gateway.Prelude.{
  ℕ, zero, suc, ◌+◌, ◌*◌, ◌/◌, ◌%◌, ◌^◌, ◌<◌, ◌≡◌, refl, ap, ◌∙◌, arith, bit_xor, bit_or, List, [],
  ◌∷◌, some, All, inl, inr, ◌⊎◌,
}
use harns_gateway.Prelude.Bits.{
  bit_xor_split, bit_xor-zero, zero-bit_xor, bit_xor_assoc, bit_xor-lt, bit_or_fields,
}
use harns_gateway.Binutil.Word.{IsByte}
use harns_gateway.Crc.{crc_loop, check_crc16sum}
use harns_gateway.Crc.Reference.{shift_out, shift_out_times, crc16}
use harns_gateway.Crc.Tables.{remainder, crc_hi_lem, crc_lo_lem, remainder-lt}
use native.Mathlib.Nat.{pow-suc, div-add-mod, one-le-pow}

shift_out_even : (x : ℕ) → x % 2 ≡ 0 → shift_out x ≡ x / 2
unfolding shift_out
shift_out_even x h = ground arith

shift_out_odd : (x : ℕ) → x % 2 ≡ 1 → shift_out x ≡ bit_xor (x / 2) 0xA001
unfolding shift_out
shift_out_odd x h = ground arith

digit_cases : (a : ℕ) → (a % 2 ≡ 0) ⊎ (a % 2 ≡ 1)
digit_cases a = omega arith

-- An exclusive or with a number `m` splits at bit `n`.
xor_at :
    (n h l m : ℕ)
    → l < 2 ^ n
    → bit_xor (h * 2 ^ n + l) m ≡ bit_xor h (m / 2 ^ n) * 2 ^ n + bit_xor l (m % 2 ^ n)
xor_at n h l m lt =
    ap (bit_xor (h * 2 ^ n + l)) (omega (arith, div-add-mod m (2 ^ n)))
    ∙ bit_xor_split n h (m / 2 ^ n) l (m % 2 ^ n) lt (ground (arith, one-le-pow n 2))

low_part-lt : (n m : ℕ) → m % 2 ^ n < 2 ^ n
low_part-lt n m = ground (arith, one-le-pow n 2)

xor_low : (n l m : ℕ) → l < 2 ^ n → bit_xor l m ≡ m / 2 ^ n * 2 ^ n + bit_xor l (m % 2 ^ n)
xor_low n l m lt =
    let e : l ≡ 0 * 2 ^ n + l = omega arith in
    ap (λ (t : ℕ). bit_xor t m) e ∙ xor_at n 0 l m lt ∙ rw (zero-bit_xor (m / 2 ^ n)) refl

-- The bits above the `n` that are shifted out are added to the result unchanged.
shift_out_fields :
    (n h l : ℕ) → l < 2 ^ n → shift_out_times n (h * 2 ^ n + l) ≡ bit_xor h (shift_out_times n l)
unfolding shift_out_times
shift_out_fields zero h l lt = let e : l ≡ 0 = omega arith in rw (e, bit_xor-zero h) (omega arith)
shift_out_fields (suc n) h l lt = elim (digit_cases l) [
  | inl even ↦
      rw (shift_out_even (h * 2 ^ suc n + l) (omega (arith, double)), shift_out_even l even)
        (rw halves (shift_out_fields n h (l / 2) (omega (arith, pow-suc 2 n))))
  | inr odd ↦
      rw
        (
          shift_out_odd (h * 2 ^ suc n + l) (omega (arith, double)),
          shift_out_odd l odd,
          halves,
          xor_at n h (l / 2) 0xA001 half_fits,
          xor_low n (l / 2) 0xA001 half_fits,
          shift_out_fields n (bit_xor h (0xA001 / 2 ^ n)) (bit_xor (l / 2) (0xA001 % 2 ^ n))
              low_fits,
          shift_out_fields n (0xA001 / 2 ^ n) (bit_xor (l / 2) (0xA001 % 2 ^ n)) low_fits,
        )
        (bit_xor_assoc h (0xA001 / 2 ^ n) _)
]
  where
    half_fits : l / 2 < 2 ^ n
    half_fits = omega (arith, pow-suc 2 n)

    low_fits : bit_xor (l / 2) (0xA001 % 2 ^ n) < 2 ^ n
    low_fits = bit_xor-lt n (l / 2) (0xA001 % 2 ^ n) half_fits (low_part-lt n 0xA001)

    double : h * 2 ^ suc n ≡ 2 * (h * 2 ^ n)
    double = omega (arith, ap (λ (t : ℕ). h * t) (pow-suc 2 n))

    halves : (h * 2 ^ suc n + l) / 2 ≡ h * 2 ^ n + l / 2
    halves = omega (arith, double)

abbrev IsWord : ℕ → Type 0
IsWord x = x < 65536

-- One byte moves the table state as it moves the reference: `high` is the low byte of the word.
pub reference_step :
    (b high low : ℕ)
    → IsByte b
    → IsByte high
    → IsByte low
    → let i = bit_xor high b in
      shift_out_times 8 (bit_xor (low * 256 + high) b)
      ≡ remainder i / 256 * 256 + bit_xor low (remainder i % 256)
reference_step b high low hb hh hl =
    rw (index_split, shift_out_fields 8 low (bit_xor high b) (bit_xor-lt 8 high b hh hb))
      (ap (bit_xor low) (omega (arith, div-add-mod (remainder (bit_xor high b)) 256))
        ∙ result_split)
  where
    index_split : bit_xor (low * 256 + high) b ≡ low * 256 + bit_xor high b
    index_split = ground (arith, bit_xor_split 8 low 0 high b hh hb, bit_xor-zero low)

    result_split :
        bit_xor low (remainder (bit_xor high b) / 256 * 256 + remainder (bit_xor high b) % 256)
        ≡ remainder (bit_xor high b) / 256 * 256 + bit_xor low (remainder (bit_xor high b) % 256)
    result_split = ground (
      arith,
      bit_xor_split 8 0 (remainder (bit_xor high b) / 256) low (remainder (bit_xor high b) % 256) hl
          (omega arith),
      zero-bit_xor (remainder (bit_xor high b) / 256),
    )

index-IsByte : (b high : ℕ) → IsByte b → IsByte high → IsByte (bit_xor high b)
index-IsByte b high hb hh = bit_xor-lt 8 high b hh hb

-- One round of the loop, with the table entries put in.
pub crc_loop-cons :
    (b : ℕ) (rest : List ℕ) (high low : ℕ)
    → IsByte b
    → IsByte high
    → crc_loop (b ∷ rest) high low
      ≡ crc_loop rest
          (bit_xor low (remainder (bit_xor high b) % 256))
          (remainder (bit_xor high b) / 256)
unfolding crc_loop
crc_loop-cons b rest high low hb hh = rw (
  crc_hi_lem (bit_xor high b) (index-IsByte b high hb hh),
  crc_lo_lem (bit_xor high b) (index-IsByte b high hb hh),
)

pub crc_loop-crc16 :
    (bytes : List ℕ) (high low : ℕ)
    → All IsByte bytes
    → IsByte high
    → IsByte low
    → crc_loop bytes high low
      ≡ some (crc16 bytes (low * 256 + high) % 256, crc16 bytes (low * 256 + high) / 256)
unfolding crc16
crc_loop-crc16 [] high low hs hh hl =
    let e : (low * 256 + high) % 256 ≡ high = omega arith in
    let e' : (low * 256 + high) / 256 ≡ low = omega arith in rw (e, e') (unfold crc_loop in refl)
crc_loop-crc16 (b ∷ rest) high low hs hh hl =
    crc_loop-cons b rest high low hs.0 hh
    ∙ rw (reference_step b high low hs.0 hh hl) (
        crc_loop-crc16 rest (bit_xor low (remainder (bit_xor high b) % 256))
          (remainder (bit_xor high b) / 256) hs.1
          (bit_xor-lt 8 low (remainder (bit_xor high b) % 256) hl (omega arith))
          (omega (arith, remainder-lt (bit_xor high b) (index-IsByte b high hs.0 hh))))

pub crc16-lt : (bytes : List ℕ) (crc : ℕ) → All IsByte bytes → crc < 65536 → crc16 bytes crc < 65536
unfolding crc16
crc16-lt [] crc hs h = h
crc16-lt (b ∷ rest) crc hs h = crc16-lt rest _ hs.1 (
    rw (e, reference_step b (crc % 256) (crc / 256) hs.0 (omega arith) (omega arith))
      (omega (
        arith,
        remainder-lt (bit_xor (crc % 256) b) (index-IsByte b (crc % 256) hs.0 (omega arith)),
        bit_xor-lt 8 (crc / 256) (remainder (bit_xor (crc % 256) b) % 256) (omega arith)
            (omega arith),
      )))
  where
    e : crc ≡ crc / 256 * 256 + crc % 256
    e = omega arith

-- The table-driven CheckCrc16sum gives, for any bytes, the bitwise CRC-16 of the Modbus
-- specification with its two bytes exchanged.
pub check_crc16sum-crc16 :
    (bytes : List ℕ)
    → All IsByte bytes
    → check_crc16sum bytes ≡ some (crc16 bytes 0xFFFF % 256 * 256 + crc16 bytes 0xFFFF / 256)
unfolding check_crc16sum
check_crc16sum-crc16 bytes hs =
    rw (crc_loop-crc16 bytes 0xFF 0xFF hs (omega arith) (omega arith))
      (ap some (joined (crc16 bytes 0xFFFF) (crc16-lt bytes 0xFFFF hs (omega arith))))
  where
    joined :
        (w : ℕ) → w < 65536 → bit_or (w % 256 * 2 ^ 8 % 2 ^ 16) (w / 256) ≡ w % 256 * 256 + w / 256
    joined w h =
        let e : w % 256 * 2 ^ 8 % 2 ^ 16 ≡ w % 256 * 2 ^ 8 = omega arith in
        rw e (bit_or_fields 8 (w % 256) (w / 256) (omega arith))
