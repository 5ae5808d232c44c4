-- ===== src/Modbus/Decode/Poll.antt =====
-- One poll of a device, from its memory to the values that the gateway hands on.
use harns_gateway.Prelude.{ℕ, ◌≡◌, refl, List, [], ◌∷◌, ◌++◌, Option, true, some, ◌>>=◌, All, map}
use harns_gateway.Binutil.Float.{FloatOps}
use harns_gateway.Binutil.Parse.{
  parse_uint16_big_endian, parse_uint16_little_endian, parse_uint32_big_endian,
  parse_uint32_big_endian_byte_swap, parse_uint32_little_endian,
  parse_uint32_little_endian_byte_swap, parse_uint64_big_endian, parse_uint64_big_endian_byte_swap,
  parse_uint64_little_endian, parse_uint64_little_endian_byte_swap,
}
use harns_gateway.Constant.{DataType, MemoryLayout, dcba, cdab, badc, abcd, data_type_word}
use harns_gateway.Modbus.Types.{Value, Variable, VariableParse, reads_registers}
use harns_gateway.Modbus.Layout.{parse16, parse32, parse64}
use harns_gateway.Modbus.Plan.{of_registers}
use harns_gateway.Modbus.Plan.Bounds.{IsPlaced}
use harns_gateway.Modbus.Decode.{parse_registers, parse_variable_values, copy_of}
use harns_gateway.Modbus.Decode.Memory.{registers, memory_value, parse_value-memory}

word16_total :
    (layout : MemoryLayout) (memory : ℕ → ℕ) (a : ℕ)
    → (v : ℕ) × (parse16 layout (registers memory a 1) ≡ some v)
unfolding registers parse16 parse_uint16_big_endian parse_uint16_little_endian
word16_total abcd memory a = (_, refl)
word16_total cdab memory a = (_, refl)
word16_total badc memory a = (_, refl)
word16_total dcba memory a = (_, refl)

word32_total :
    (layout : MemoryLayout) (memory : ℕ → ℕ) (a : ℕ)
    → (v : ℕ) × (parse32 layout (registers memory a 2) ≡ some v)
unfolding registers parse32 parse_uint32_big_endian parse_uint32_big_endian_byte_swap
    parse_uint32_little_endian parse_uint32_little_endian_byte_swap
word32_total abcd memory a = (_, refl)
word32_total cdab memory a = (_, refl)
word32_total badc memory a = (_, refl)
word32_total dcba memory a = (_, refl)

word64_total :
    (layout : MemoryLayout) (memory : ℕ → ℕ) (a : ℕ)
    → (v : ℕ) × (parse64 layout (registers memory a 4) ≡ some v)
unfolding registers parse64 parse_uint64_big_endian parse_uint64_big_endian_byte_swap
    parse_uint64_little_endian parse_uint64_little_endian_byte_swap
word64_total abcd memory a = (_, refl)
word64_total cdab memory a = (_, refl)
word64_total badc memory a = (_, refl)
word64_total dcba memory a = (_, refl)

then_some :
    {A B : Type 0} (m : Option A) (g : A → B)
    → (a : A) × (m ≡ some a)
    → (b : B) × ((m >>= λ a. some (g a)) ≡ some b)
then_some m g (a, e) = (g a, rw e)

module _ (ops : FloatOps) where
  type_total :
      (layout : MemoryLayout) (t : DataType) (bits : ℕ) (rate : ops.F64) (memory : ℕ → ℕ) (a : ℕ)
      → (value : Value ops) × (parse_registers ops layout t bits rate
            (registers memory a (data_type_word t))
          ≡ some value)
  unfolding parse_registers data_type_word
  type_total l DataType.bool bits rate memory a = then_some _ _ (word16_total l memory a)
  type_total l DataType.int16 bits rate memory a = then_some _ _ (word16_total l memory a)
  type_total l DataType.uint16 bits rate memory a = then_some _ _ (word16_total l memory a)
  type_total l DataType.int32 bits rate memory a = then_some _ _ (word32_total l memory a)
  type_total l DataType.int64 bits rate memory a = then_some _ _ (word64_total l memory a)
  type_total l DataType.float32 bits rate memory a = then_some _ _ (word32_total l memory a)
  type_total l DataType.float64 bits rate memory a = then_some _ _ (word64_total l memory a)
  type_total l DataType.number bits rate memory a = (_, refl)
  type_total l DataType.string bits rate memory a = (_, refl)

  -- The values of all variables of a request.
  pub values_from_memory :
      (code : ℕ) (layout : MemoryLayout) (memory : ℕ → ℕ) (start size : ℕ) (tail : List ℕ)
      (vps : List (VariableParse ops))
      → reads_registers code ≡ true
      → All (IsPlaced ops of_registers start size) vps
      → (out : List (VariableParse ops) × List (Variable ops)) × (parse_variable_values ops code
            layout
            (registers memory start size ++ tail)
            vps
          ≡ some out)
        × (map (λ v. some v.value) out.1
            ≡ map (λ vp. memory_value ops layout memory vp.variable) vps)
        × (map (λ v. v.name) out.1 ≡ map (λ vp. vp.variable.name) vps)
  unfolding parse_variable_values copy_of
  values_from_memory code layout memory start size tail [] reads placed =
      (([], []), refl, refl, refl)
  values_from_memory code layout memory start size tail (vp ∷ vps) reads placed =
      let v = vp.variable in
      let (value, e) = type_total layout v.data_type v.bits v.rate memory v.address in
      let (out, e1, e2, e3) =
        values_from_memory code layout memory start size tail vps reads placed.1 in
      let read = parse_value-memory ops code layout memory start size tail vp reads placed.0 in
      (
        (
          record vp { variable = record v { value = value } } ∷ out.0,
          copy_of ops (record v { value = value }) ∷ out.1,
        ),
        rw (read, e, e1),
        cc (e, e2),
        cc e3,
      )
