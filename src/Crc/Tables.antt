-- ===== src/Crc/Tables.antt =====
-- The two tables hold, for each byte, what eight shifts of the reference make of it.
use harns_gateway.Prelude.{
  ℕ, zero, suc, ◌+◌, ◌/◌, ◌%◌, ◌<◌, ◌≡◌, refl, arith, List, [], ◌∷◌, Bool, true, ◌&&◌, ◌==◌, some,
  get_elem?, length, ltb,
}
use harns_gateway.Crc.{crc_hi, crc_lo}
use harns_gateway.Crc.Reference.{shift_out, shift_out_times}

agrees : List ℕ → (ℕ → ℕ) → ℕ → Bool
agrees [] f i = true
agrees (x ∷ xs) f i = x == f i && agrees xs f (i + 1)

agrees_sound :
    (xs : List ℕ) (f : ℕ → ℕ) (i j k : ℕ)
    → agrees xs f i ≡ true
    → j < length xs
    → k ≡ i + j
    → get_elem? xs j ≡ some (f k)
unfolding agrees
agrees_sound [] f i j k h lt e = absurd (omega arith)
agrees_sound (x ∷ xs) f i zero k h lt e = let e' : k ≡ i = omega arith in rw e' (ground arith)
agrees_sound (x ∷ xs) f i (suc j) k h lt e =
    agrees_sound xs f (i + 1) j k (ground arith) (omega arith) (omega arith)

abbrev pub remainder : ℕ → ℕ
remainder i = shift_out_times 8 i

high_table : agrees crc_hi (λ i. remainder i % 256) 0 ≡ true
unfolding agrees crc_hi shift_out shift_out_times
high_table = refl

low_table : agrees crc_lo (λ i. remainder i / 256) 0 ≡ true
unfolding agrees crc_lo shift_out shift_out_times
low_table = refl

high_length : length crc_hi ≡ 256
unfolding crc_hi
high_length = refl

low_length : length crc_lo ≡ 256
unfolding crc_lo
low_length = refl

pub crc_hi_lem : (i : ℕ) → i < 256 → get_elem? crc_hi i ≡ some (remainder i % 256)
crc_hi_lem i h =
    agrees_sound crc_hi (λ j. remainder j % 256) 0 i i high_table (omega (arith, high_length))
      (omega arith)

pub crc_lo_lem : (i : ℕ) → i < 256 → get_elem? crc_lo i ≡ some (remainder i / 256)
crc_lo_lem i h =
    agrees_sound crc_lo (λ j. remainder j / 256) 0 i i low_table (omega (arith, low_length))
      (omega arith)

-- A test that every number under a bound passes, and what one of them has of it.
unfoldable pub passes : (ℕ → Bool) → ℕ → Bool
passes test zero = true
passes test (suc bound) = passes test bound && test bound

pub passes-at :
    (test : ℕ → Bool) (bound : ℕ) → passes test bound ≡ true → (i : ℕ) → i < bound → test i ≡ true
unfolding passes
passes-at test zero all i below = absurd (omega arith)
passes-at test (suc bound) all i below = ground (arith, passes-at test bound (ground arith) i)

remainder_bound : passes (λ i. ltb (remainder i) 65536) 256 ≡ true
unfolding passes shift_out shift_out_times
remainder_bound = refl

pub remainder-lt : (i : ℕ) → i < 256 → remainder i < 65536
remainder-lt i h = ground (arith, passes-at (λ j. ltb (remainder j) 65536) 256 remainder_bound i h)
