-- ===== src/S7/Response/Bytes.antt =====
-- What `ParseVariableValue` reads depends on the bytes of the value alone.
use harns_gateway.Prelude.{
  ℕ, ◌+◌, ◌-◌, ◌≤◌, ◌≡◌, refl, ap, ◌∙◌, arith, List, [], ◌∷◌, ◌++◌, zero, suc, some, get_elem?,
  length,
}
use harns_gateway.Binutil.Float.{FloatOps}
use harns_gateway.Constant.{DataType}
use harns_gateway.Modbus.Types.{slice_from}
use harns_gateway.S7.Types.{byte_length}
use harns_gateway.Binutil.Parse.{
  parse_uint16_big_endian, parse_uint32_big_endian, parse_uint64_big_endian,
}
use harns_gateway.Binutil.Float.{parse_float32_big_endian, parse_float64_big_endian}
use harns_gateway.S7.Response.{parse_switch, parse_data}
use harns_gateway.S7.Response.Data.{memory_bytes}
use mathlib.Core.List.{append_assoc}
use harns_gateway.S7.Response.Slices.{slice_from-append}

get_elem?-append :
    (front back : List ℕ) → get_elem? (front ++ back) (length front) ≡ get_elem? back 0
get_elem?-append [] back = refl
get_elem?-append (x ∷ front) back = get_elem?-append front back

slice_from_start : (bytes : List ℕ) → slice_from 0 bytes ≡ some bytes
slice_from_start bytes = slice_from-append [] bytes

module _ (ops : FloatOps) where
  -- What stands before the data of a value does not matter.
  pub parse_switch-append :
      (t : DataType) (bit : ℕ) (rate : ops.F64) (front back : List ℕ)
      → parse_switch ops t bit rate (length front) (front ++ back)
        ≡ parse_switch ops t bit rate 0 back
  unfolding parse_switch
  parse_switch-append DataType.bool bit rate front back = rw (get_elem?-append front back) refl
  parse_switch-append DataType.string bit rate front back = refl
  parse_switch-append DataType.number bit rate front back = refl
  parse_switch-append DataType.int16 bit rate front back =
      rw (slice_from-append front back, slice_from_start back) refl
  parse_switch-append DataType.uint16 bit rate front back =
      rw (slice_from-append front back, slice_from_start back) refl
  parse_switch-append DataType.int32 bit rate front back =
      rw (slice_from-append front back, slice_from_start back) refl
  parse_switch-append DataType.int64 bit rate front back =
      rw (slice_from-append front back, slice_from_start back) refl
  parse_switch-append DataType.float32 bit rate front back =
      rw (slice_from-append front back, slice_from_start back) refl
  parse_switch-append DataType.float64 bit rate front back =
      rw (slice_from-append front back, slice_from_start back) refl

  memory_bytes-append :
      (at : ℕ → ℕ) (start a b : ℕ)
      → memory_bytes at start (a + b) ≡ memory_bytes at start a ++ memory_bytes at (start + a) b
  memory_bytes-append at start zero b =
      let here : start ≡ start + 0 = omega arith in
      let same : 0 + b ≡ b = omega arith in
      ap (memory_bytes at start) same ∙ ap (λ from. memory_bytes at from b) here
  memory_bytes-append at start (suc a) b =
      let longer : suc a + b ≡ suc (a + b) = omega arith in
      ap (memory_bytes at start) longer
      ∙ ap (λ l. at start ∷ l) (memory_bytes-append at (start + 1) a b ∙ shifted)
    where
      shifted :
          memory_bytes at (start + 1) a ++ memory_bytes at (start + 1 + a) b
          ≡ memory_bytes at (start + 1) a ++ memory_bytes at (start + suc a) b
      shifted =
          let e : start + 1 + a ≡ start + suc a = omega arith in
          ap (λ from. memory_bytes at (start + 1) a ++ memory_bytes at from b) e

  -- What stands behind the bytes of a value does not matter.
  parse_switch-memory :
      (t : DataType) (bit : ℕ) (rate : ops.F64) (at : ℕ → ℕ) (start : ℕ) (rest : List ℕ)
      → parse_switch ops t bit rate 0 (memory_bytes at start (byte_length t) ++ rest)
        ≡ parse_switch ops t bit rate 0 (memory_bytes at start (byte_length t))
  unfolding parse_switch parse_data parse_uint16_big_endian parse_uint32_big_endian
      parse_uint64_big_endian parse_float32_big_endian parse_float64_big_endian
  parse_switch-memory DataType.bool bit rate at start rest = refl
  parse_switch-memory DataType.string bit rate at start rest = refl
  parse_switch-memory DataType.number bit rate at start rest = refl
  parse_switch-memory DataType.int16 bit rate at start rest =
      rw
        (
          slice_from_start (memory_bytes at start (byte_length DataType.int16) ++ rest),
          slice_from_start (memory_bytes at start (byte_length DataType.int16)),
        )
        refl
  parse_switch-memory DataType.uint16 bit rate at start rest =
      rw
        (
          slice_from_start (memory_bytes at start (byte_length DataType.uint16) ++ rest),
          slice_from_start (memory_bytes at start (byte_length DataType.uint16)),
        )
        refl
  parse_switch-memory DataType.int32 bit rate at start rest =
      rw
        (
          slice_from_start (memory_bytes at start (byte_length DataType.int32) ++ rest),
          slice_from_start (memory_bytes at start (byte_length DataType.int32)),
        )
        refl
  parse_switch-memory DataType.int64 bit rate at start rest =
      rw
        (
          slice_from_start (memory_bytes at start (byte_length DataType.int64) ++ rest),
          slice_from_start (memory_bytes at start (byte_length DataType.int64)),
        )
        refl
  parse_switch-memory DataType.float32 bit rate at start rest =
      rw
        (
          slice_from_start (memory_bytes at start (byte_length DataType.float32) ++ rest),
          slice_from_start (memory_bytes at start (byte_length DataType.float32)),
        )
        refl
  parse_switch-memory DataType.float64 bit rate at start rest =
      rw
        (
          slice_from_start (memory_bytes at start (byte_length DataType.float64) ++ rest),
          slice_from_start (memory_bytes at start (byte_length DataType.float64)),
        )
        refl

  -- The bytes of a value are the first of more bytes of the memory.
  pub parse_switch-longer :
      (t : DataType) (bit : ℕ) (rate : ops.F64) (at : ℕ → ℕ) (start n : ℕ) (rest : List ℕ)
      → byte_length t ≤ n
      → parse_switch ops t bit rate 0 (memory_bytes at start n ++ rest)
        ≡ parse_switch ops t bit rate 0 (memory_bytes at start (byte_length t))
  parse_switch-longer t bit rate at start n rest le =
      let parts : n ≡ byte_length t + (n - byte_length t) = omega arith in
      ap (λ k. parse_switch ops t bit rate 0 (memory_bytes at start k ++ rest)) parts
      ∙ ap (λ l. parse_switch ops t bit rate 0 (l ++ rest))
          (memory_bytes-append at start (byte_length t) (n - byte_length t))
      ∙ ap (parse_switch ops t bit rate 0)
          (append_assoc (memory_bytes at start (byte_length t)) _ rest)
      ∙ parse_switch-memory t bit rate at start _
