-- ===== src/Prelude/Bits.antt =====
-- Bitwise operations at variables. The native operations recurse on binary digits with fuel; here
-- the fuel is dropped, and a field of `k` low bits is split off at every width.
use Prim.Native.Nat.{
  ℕ, zero, suc, ◌+◌, ◌-◌, ◌*◌, ◌/◌, ◌%◌, ◌^◌, ◌≤◌, ◌<◌, max, bit_or, bit_xor, digits, bitwise,
  differ, bit_or-bitwise, bit_xor-bitwise,
}
use native.Mathlib.Nat.{pow-suc, le_refl}
use native.Mathlib.Omega.{arith}
use mathlib.Core.Path.{◌≡◌, refl, sym, ap, ◌∙◌}
use mathlib.Core.Logic.{◌⊎◌, inl, inr}

module _ (rest : ℕ → ℕ) (join : ℕ → ℕ → ℕ) where
  no_digits : (fuel y : ℕ) → digits rest join fuel 0 y ≡ rest y
  no_digits zero y = refl
  no_digits (suc fuel) y = refl

  -- Fuel that is left over makes no difference.
  spare_fuel :
      (fuel spare x y : ℕ)
      → x ≤ fuel
      → digits rest join (fuel + spare) x y ≡ digits rest join fuel x y
  spare_fuel fuel spare zero y h = no_digits (fuel + spare) y ∙ sym (no_digits fuel y)
  spare_fuel zero spare (suc x) y h = absurd (omega arith)
  spare_fuel (suc fuel) spare (suc x) y h =
      let one_less : suc fuel + spare ≡ suc (fuel + spare) = omega arith in
      rw one_less (rw (spare_fuel fuel spare (suc x / 2) (y / 2) (omega arith)) refl)

  -- The last digit of a number that is not zero.
  last_digit :
      (x y : ℕ)
      → bitwise rest join (suc x) y
        ≡ bitwise rest join (suc x / 2) (y / 2) * 2 + join (suc x % 2) (y % 2)
  last_digit x y =
      let half : ℕ = suc x / 2 in
      let enough : half + (x - half) ≡ x = omega arith in
      omega (arith, rw enough at (spare_fuel half (x - half) half (y / 2) (omega arith)))

pub bit_or-digit : (a b : ℕ) → bit_or a b ≡ bit_or (a / 2) (b / 2) * 2 + max (a % 2) (b % 2)
bit_or-digit zero b = simp bit_or-bitwise (omega arith)
bit_or-digit (suc a) b = simp bit_or-bitwise (last_digit (λ y. y) max a b)

digit_cases : (a : ℕ) → (a % 2 ≡ 0) ⊎ (a % 2 ≡ 1)
digit_cases a = omega arith

differ-zero : (b : ℕ) → b ≡ b / 2 * 2 + differ 0 (b % 2)
differ-zero b = omega arith

pub bit_xor-digit : (a b : ℕ) → bit_xor a b ≡ bit_xor (a / 2) (b / 2) * 2 + differ (a % 2) (b % 2)
bit_xor-digit zero b = simp bit_xor-bitwise (differ-zero b)
bit_xor-digit (suc a) b = simp bit_xor-bitwise (last_digit (λ y. y) differ a b)

-- A field of `k` bits is treated apart from what stands above it.
module _ (op f : ℕ → ℕ → ℕ)
    (digit : (a b : ℕ) → op a b ≡ op (a / 2) (b / 2) * 2 + f (a % 2) (b % 2))
    (zeros : op 0 0 ≡ 0) where
  split_fields :
      (k q s r t : ℕ)
      → r < 2 ^ k
      → t < 2 ^ k
      → op (q * 2 ^ k + r) (s * 2 ^ k + t) ≡ op q s * 2 ^ k + op r t
  split_fields zero q s r t hr ht =
      let er : r ≡ 0 = omega arith in
      let et : t ≡ 0 = omega arith in rw (er, et) (ground (arith, zeros))
  split_fields (suc k) q s r t hr ht = ground (
    arith,
    ap (λ (x : ℕ). q * x) (pow-suc 2 k),
    ap (λ (x : ℕ). s * x) (pow-suc 2 k),
    ap (λ (x : ℕ). op q s * x) (pow-suc 2 k),
    pow-suc 2 k,
    digit (q * 2 ^ suc k + r) (s * 2 ^ suc k + t),
    digit r t,
    split_fields k q s (r / 2) (t / 2) (omega arith) (omega arith),
  )

pub bit_xor_split :
    (k q s r t : ℕ)
    → r < 2 ^ k
    → t < 2 ^ k
    → bit_xor (q * 2 ^ k + r) (s * 2 ^ k + t) ≡ bit_xor q s * 2 ^ k + bit_xor r t
bit_xor_split = split_fields bit_xor differ bit_xor-digit refl

bit_or_split :
    (k q s r t : ℕ)
    → r < 2 ^ k
    → t < 2 ^ k
    → bit_or (q * 2 ^ k + r) (s * 2 ^ k + t) ≡ bit_or q s * 2 ^ k + bit_or r t
bit_or_split = split_fields bit_or max bit_or-digit refl

bit_or-zero_fuel : (n a : ℕ) → a ≤ n → bit_or a 0 ≡ a
bit_or-zero_fuel n zero h = refl
bit_or-zero_fuel zero (suc a) h = absurd (omega arith)
bit_or-zero_fuel (suc n) (suc a) h =
    omega (arith, bit_or-digit (suc a) 0, bit_or-zero_fuel n (suc a / 2) (omega arith))

pub zero-bit_or : (b : ℕ) → bit_or 0 b ≡ b
zero-bit_or b = bit_or-bitwise 0 b

-- `x | r` is a sum when `r` fits the `k` low bits, which `x` leaves clear.
pub bit_or_fields : (k q r : ℕ) → r < 2 ^ k → bit_or (q * 2 ^ k) r ≡ q * 2 ^ k + r
bit_or_fields k q r h = ground (arith, bit_or_split k q 0 0 r, bit_or-zero_fuel q q, zero-bit_or r)

pub zero-bit_xor : (b : ℕ) → bit_xor 0 b ≡ b
zero-bit_xor b = bit_xor-bitwise 0 b

bit_xor-zero_fuel : (n a : ℕ) → a ≤ n → bit_xor a 0 ≡ a
bit_xor-zero_fuel n zero h = refl
bit_xor-zero_fuel zero (suc a) h = absurd (omega arith)
bit_xor-zero_fuel (suc n) (suc a) h = elim (digit_cases (suc a)) [
  | inl e ↦
      rw (bit_xor-digit (suc a) 0, e) (omega (arith, bit_xor-zero_fuel n (suc a / 2) (omega arith)))
  | inr e ↦
      rw (bit_xor-digit (suc a) 0, e) (omega (arith, bit_xor-zero_fuel n (suc a / 2) (omega arith)))
]

pub bit_xor-zero : (a : ℕ) → bit_xor a 0 ≡ a
bit_xor-zero a = bit_xor-zero_fuel a a (le_refl a)

differ_self : (x : ℕ) → (x ≡ 0) ⊎ (x ≡ 1) → differ x x ≡ 0
differ_self x (inl e) = rw e
differ_self x (inr e) = rw e

bit_xor_self_fuel : (n a : ℕ) → a ≤ n → bit_xor a a ≡ 0
bit_xor_self_fuel n zero h = refl
bit_xor_self_fuel zero (suc a) h = absurd (omega arith)
bit_xor_self_fuel (suc n) (suc a) h = omega (
  arith,
  bit_xor-digit (suc a) (suc a),
  differ_self (suc a % 2) (digit_cases (suc a)),
  bit_xor_self_fuel n (suc a / 2) (omega arith),
)

pub bit_xor_self : (a : ℕ) → bit_xor a a ≡ 0
bit_xor_self a = bit_xor_self_fuel a a (le_refl a)

abbrev IsDigit : ℕ → Type 0
IsDigit x = (x ≡ 0) ⊎ (x ≡ 1)

differ-IsDigit : (x y : ℕ) → IsDigit x → IsDigit y → IsDigit (differ x y)
differ-IsDigit x y (inl e) h = rw e h
differ-IsDigit x y (inr e) (inl k) = rw (e, k) (inr refl)
differ-IsDigit x y (inr e) (inr k) = rw (e, k) (inl refl)

differ_assoc :
    (x y w : ℕ) → IsDigit x → IsDigit y → IsDigit w → differ (differ x y) w ≡ differ x (differ y w)
differ_assoc x y w (inl e) k l = rw e
differ_assoc x y w (inr e) (inl k) l = rw (e, k)
differ_assoc x y w (inr e) (inr k) (inl l) = rw (e, k, l)
differ_assoc x y w (inr e) (inr k) (inr l) = rw (e, k, l)

-- The halves and the digit of an exclusive or.
bit_xor_half : (a b : ℕ) → bit_xor a b / 2 ≡ bit_xor (a / 2) (b / 2)
bit_xor_half a b =
    omega (arith, bit_xor-digit a b, differ-IsDigit (a % 2) (b % 2) (digit_cases a) (digit_cases b))

bit_xor_low : (a b : ℕ) → bit_xor a b % 2 ≡ differ (a % 2) (b % 2)
bit_xor_low a b =
    omega (arith, bit_xor-digit a b, differ-IsDigit (a % 2) (b % 2) (digit_cases a) (digit_cases b))

bit_xor_assoc_fuel : (n a b c : ℕ) → a ≤ n → bit_xor (bit_xor a b) c ≡ bit_xor a (bit_xor b c)
bit_xor_assoc_fuel n zero b c h = rw (zero-bit_xor b, zero-bit_xor (bit_xor b c))
bit_xor_assoc_fuel zero (suc a) b c h = absurd (omega arith)
bit_xor_assoc_fuel (suc n) (suc a) b c h = rw (
  bit_xor-digit (bit_xor (suc a) b) c,
  bit_xor-digit (suc a) (bit_xor b c),
  bit_xor_half (suc a) b,
  bit_xor_half b c,
  bit_xor_low (suc a) b,
  bit_xor_low b c,
  differ_assoc (suc a % 2) (b % 2) (c % 2) (digit_cases (suc a)) (digit_cases b) (digit_cases c),
  bit_xor_assoc_fuel n (suc a / 2) (b / 2) (c / 2) (omega arith),
)

pub bit_xor_assoc : (a b c : ℕ) → bit_xor (bit_xor a b) c ≡ bit_xor a (bit_xor b c)
bit_xor_assoc a b c = bit_xor_assoc_fuel a a b c (le_refl a)

-- An exclusive or of two numbers of `k` bits has `k` bits.
pub bit_xor-lt : (k a b : ℕ) → a < 2 ^ k → b < 2 ^ k → bit_xor a b < 2 ^ k
bit_xor-lt zero a b ha hb =
    let ea : a ≡ 0 = omega arith in let eb : b ≡ 0 = omega arith in rw (ea, eb) (omega arith)
bit_xor-lt (suc k) a b ha hb = omega (
  arith,
  pow-suc 2 k,
  bit_xor-digit a b,
  differ-IsDigit (a % 2) (b % 2) (digit_cases a) (digit_cases b),
  bit_xor-lt k (a / 2) (b / 2) (omega (arith, pow-suc 2 k)) (omega (arith, pow-suc 2 k)),
)

-- A constant that was added by exclusive or can be taken out again.
pub bit_xor_cancel : (a b c : ℕ) → bit_xor c a ≡ bit_xor c b → a ≡ b
bit_xor_cancel a b c h =
    sym (zero-bit_xor a)
    ∙ ap (λ (x : ℕ). bit_xor x a) (sym (bit_xor_self c))
    ∙ bit_xor_assoc c c a
    ∙ ap (bit_xor c) h
    ∙ sym (bit_xor_assoc c c b)
    ∙ ap (λ (x : ℕ). bit_xor x b) (bit_xor_self c)
    ∙ zero-bit_xor b

pub bit_xor_cancel_right : (a b c : ℕ) → bit_xor a c ≡ bit_xor b c → a ≡ b
bit_xor_cancel_right a b c h =
    sym (bit_xor-zero a)
    ∙ ap (bit_xor a) (sym (bit_xor_self c))
    ∙ sym (bit_xor_assoc a c c)
    ∙ ap (λ (x : ℕ). bit_xor x c) h
    ∙ bit_xor_assoc b c c
    ∙ ap (bit_xor b) (bit_xor_self c)
    ∙ bit_xor-zero b
