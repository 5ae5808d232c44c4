-- ===== src/Tests/Floats.antt =====
-- A concrete instance of the float operations: a float is its bit pattern, and the arithmetic is
-- that of the patterns. It meets the laws that the development assumes.
use harns_gateway.Prelude.{ℕ, ◌*◌, ◌/◌, ◌%◌, ◌^◌, ◌<◌, ◌≡◌, arith, ◌==◌, ltb}
use harns_gateway.Prelude.Int.{uint32, uint64, int16, int32, int64}
use harns_gateway.Binutil.Float.{FloatOps}
use mathlib.Core.HLevel.{Σ_prop_path}
use native.Mathlib.Bridge.{le_prop}

abbrev pub Word : ℕ → Type 0
Word m = (n : ℕ) × (n < m)

pub mod-lt32 : (n : ℕ) → n % 2 ^ 32 < 2 ^ 32
mod-lt32 n = omega arith

pub mod-lt64 : (n : ℕ) → n % 2 ^ 64 < 2 ^ 64
mod-lt64 n = omega arith

abbrev pub word32 : ℕ → Word (2 ^ 32)
word32 n = (n % 2 ^ 32, mod-lt32 n)

abbrev pub word64 : ℕ → Word (2 ^ 64)
word64 n = (n % 2 ^ 64, mod-lt64 n)

pub word32_self : (x : Word (2 ^ 32)) → word32 x.0 ≡ x
word32_self x =
    let (n, h) = x in let e : n % 2 ^ 32 ≡ n = omega (arith, x.1) in Σ_prop_path (λ m. le_prop) e

pub word64_self : (x : Word (2 ^ 64)) → word64 x.0 ≡ x
word64_self x = let e : x.0 % 2 ^ 64 ≡ x.0 = omega (arith, x.1) in Σ_prop_path (λ m. le_prop) e

abbrev pub bit_floats : FloatOps
bit_floats = record {
  F32 = Word (2 ^ 32);
  F64 = Word (2 ^ 64);
  float32_bits = λ x. x.0;
  float32_from_bits = word32;
  float64_bits = λ x. x.0;
  float64_from_bits = word64;
  float32_from_bits-bits = word32_self;
  float64_from_bits-bits = word64_self;
  float32_bits-lt = λ x. x.1;
  float64_bits-lt = λ x. x.1;
  int_to_f32 = λ z. word32 (uint32 z);
  int_to_f64 = λ z. word64 (uint64 z);
  f32_to_f64 = λ x. word64 x.0;
  f64_to_f32 = λ x. word32 x.0;
  f64_to_int16 = λ x. int16 (x.0 % 2 ^ 16);
  f64_to_uint16 = λ x. x.0 % 2 ^ 16;
  f64_to_int32 = λ x. int32 (x.0 % 2 ^ 32);
  f64_to_int64 = λ x. int64 x.0;
  f32_mul = λ x y. word32 (x.0 * y.0);
  f64_mul = λ x y. word64 (x.0 * y.0);
  f64_div = λ x y. word64 (x.0 / y.0);
  f64_eq = λ x y. x.0 == y.0;
  f32_positive = λ x. ltb 0 x.0;
  f64_positive = λ x. ltb 0 x.0;
  zero64 = word64 0;
  one64 = word64 1;
}
