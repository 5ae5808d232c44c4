-- ===== src/Modbus/Decode/Memory.antt =====
-- A device as a memory of registers, and what the gateway makes of its answers.
use harns_gateway.Prelude.{
  ℕ, zero, suc, ◌+◌, ◌-◌, ◌*◌, ◌≤◌, ◌≡◌, refl, sym, ap, ap₂, ◌∙◌, arith, List, [], ◌∷◌, ◌++◌,
  Option, true, some, ◌>>=◌, leb, length, length-append, drop,
}
use harns_gateway.Binutil.Float.{FloatOps}
use harns_gateway.Binutil.Parse.{
  parse_uint16_big_endian, parse_uint16_little_endian, parse_uint32_big_endian,
  parse_uint32_big_endian_byte_swap, parse_uint32_little_endian,
  parse_uint32_little_endian_byte_swap, parse_uint64_big_endian, parse_uint64_big_endian_byte_swap,
  parse_uint64_little_endian, parse_uint64_little_endian_byte_swap,
}
use harns_gateway.Constant.{DataType, MemoryLayout, dcba, cdab, badc, abcd, data_type_word}
use harns_gateway.Modbus.Types.{Value, Variable, VariableParse, reads_registers, slice_from}
use harns_gateway.Modbus.Layout.{parse16, parse32, parse64}
use harns_gateway.Modbus.Request.Shape.{high_byte, low_byte}
use harns_gateway.Modbus.Plan.{of_registers}
use harns_gateway.Modbus.Plan.Bounds.{IsPlaced}
use harns_gateway.Modbus.Decode.{parse_registers, parse_value}
use mathlib.Core.List.{append_assoc}

-- `count` registers of a memory from an address on, each high byte first.
unfoldable pub registers : (ℕ → ℕ) → ℕ → ℕ → List ℕ
registers memory address zero = []
registers memory address (suc count) =
    high_byte (memory address) ∷ low_byte (memory address) ∷ registers memory (address + 1) count

pub length-registers :
    (memory : ℕ → ℕ) (address count : ℕ) → length (registers memory address count) ≡ 2 * count
unfolding registers
length-registers memory address zero = refl
length-registers memory address (suc count) =
    omega (arith, length-registers memory (address + 1) count)

registers-suc :
    (memory : ℕ → ℕ) (address n : ℕ)
    → registers memory address (suc n)
      ≡ high_byte (memory address) ∷ low_byte (memory address) ∷ registers memory (address + 1) n
unfolding registers
registers-suc memory address n = refl

registers-append :
    (memory : ℕ → ℕ) (address m n : ℕ)
    → registers memory address (m + n)
      ≡ registers memory address m ++ registers memory (address + m) n
registers-append memory address zero n =
    let e : zero + n ≡ n = omega arith in
    let e' : address + zero ≡ address = omega arith in rw (e, e') (unfold registers in refl)
registers-append memory address (suc m) n =
    let e : suc m + n ≡ suc (m + n) = omega arith in
    let e' : address + suc m ≡ address + 1 + m = omega arith in
    rw (e, e', registers-suc memory address (m + n), registers-suc memory address m)
      (ap (λ l. high_byte (memory address) ∷ low_byte (memory address) ∷ l)
        (registers-append memory (address + 1) m n))

drop-length : (xs ys : List ℕ) (n : ℕ) → length xs ≡ n → drop n (xs ++ ys) ≡ ys
drop-length [] ys zero h = refl
drop-length [] ys (suc n) h = absurd (omega arith)
drop-length (x ∷ xs) ys zero h = absurd (omega arith)
drop-length (x ∷ xs) ys (suc n) h = drop-length xs ys n (omega arith)

-- Reading a word looks at its own bytes only.
parse16-append :
    (layout : MemoryLayout) (xs rest : List ℕ)
    → 2 ≤ length xs
    → parse16 layout (xs ++ rest) ≡ parse16 layout xs
unfolding parse16 parse_uint16_big_endian parse_uint16_little_endian
parse16-append layout [] rest h = absurd (omega arith)
parse16-append layout (a ∷ []) rest h = absurd (omega arith)
parse16-append abcd (a ∷ b ∷ _) rest h = refl
parse16-append cdab (a ∷ b ∷ _) rest h = refl
parse16-append badc (a ∷ b ∷ _) rest h = refl
parse16-append dcba (a ∷ b ∷ _) rest h = refl

parse32-append :
    (layout : MemoryLayout) (xs rest : List ℕ)
    → 4 ≤ length xs
    → parse32 layout (xs ++ rest) ≡ parse32 layout xs
unfolding parse32 parse_uint32_big_endian parse_uint32_big_endian_byte_swap
    parse_uint32_little_endian parse_uint32_little_endian_byte_swap
parse32-append layout [] rest h = absurd (omega arith)
parse32-append layout (a ∷ []) rest h = absurd (omega arith)
parse32-append layout (a ∷ b ∷ []) rest h = absurd (omega arith)
parse32-append layout (a ∷ b ∷ c ∷ []) rest h = absurd (omega arith)
parse32-append abcd (a ∷ b ∷ c ∷ d ∷ _) rest h = refl
parse32-append cdab (a ∷ b ∷ c ∷ d ∷ _) rest h = refl
parse32-append badc (a ∷ b ∷ c ∷ d ∷ _) rest h = refl
parse32-append dcba (a ∷ b ∷ c ∷ d ∷ _) rest h = refl

parse64-append :
    (layout : MemoryLayout) (xs rest : List ℕ)
    → 8 ≤ length xs
    → parse64 layout (xs ++ rest) ≡ parse64 layout xs
unfolding parse64 parse_uint64_big_endian parse_uint64_big_endian_byte_swap
    parse_uint64_little_endian parse_uint64_little_endian_byte_swap
parse64-append layout [] rest h = absurd (omega arith)
parse64-append layout (a ∷ []) rest h = absurd (omega arith)
parse64-append layout (a ∷ b ∷ []) rest h = absurd (omega arith)
parse64-append layout (a ∷ b ∷ c ∷ []) rest h = absurd (omega arith)
parse64-append layout (a ∷ b ∷ c ∷ d ∷ []) rest h = absurd (omega arith)
parse64-append layout (a ∷ b ∷ c ∷ d ∷ e ∷ []) rest h = absurd (omega arith)
parse64-append layout (a ∷ b ∷ c ∷ d ∷ e ∷ f ∷ []) rest h = absurd (omega arith)
parse64-append layout (a ∷ b ∷ c ∷ d ∷ e ∷ f ∷ g ∷ []) rest h = absurd (omega arith)
parse64-append abcd (a ∷ b ∷ c ∷ d ∷ e ∷ f ∷ g ∷ i ∷ _) rest h = refl
parse64-append cdab (a ∷ b ∷ c ∷ d ∷ e ∷ f ∷ g ∷ i ∷ _) rest h = refl
parse64-append badc (a ∷ b ∷ c ∷ d ∷ e ∷ f ∷ g ∷ i ∷ _) rest h = refl
parse64-append dcba (a ∷ b ∷ c ∷ d ∷ e ∷ f ∷ g ∷ i ∷ _) rest h = refl

cut_registers :
    (memory : ℕ → ℕ) (start before words left : ℕ) (tail : List ℕ)
    → slice_from (2 * before) (registers memory start (before + (words + left)) ++ tail)
      ≡ some (
          registers memory (start + before) words
          ++ (registers memory (start + before + words) left ++ tail))
unfolding slice_from
cut_registers memory start before words left tail =
    let front : List ℕ = registers memory start before in
    let back : List ℕ = registers memory (start + before) (words + left) ++ tail in
    let split : registers memory start (before + (words + left)) ++ tail ≡ front ++ back =
      rw (registers-append memory start before (words + left)) (append_assoc front _ tail) in
    let cut : drop (2 * before) (front ++ back) ≡ back =
      drop-length front back (2 * before) (length-registers memory start before) in
    let inside : leb (2 * before) (length (front ++ back)) ≡ true =
      ground (arith, length-append front back, length-registers memory start before) in
    rw (split, inside, cut)
      (ap some (rw (registers-append memory (start + before) words left) (append_assoc _ _ tail)))

module _ (ops : FloatOps) where
  register_switch :
      (code : ℕ) (layout : MemoryLayout) (bytes : List ℕ) (vp : VariableParse ops)
      → reads_registers code ≡ true
      → parse_value ops code layout bytes vp ≡ (
          slice_from vp.start bytes
          >>= parse_registers ops layout vp.variable.data_type vp.variable.bits vp.variable.rate)
  unfolding parse_value
  register_switch code layout bytes vp reads = ground arith

  parse_registers-append :
      (layout : MemoryLayout) (t : DataType) (bits : ℕ) (rate : ops.F64) (xs rest : List ℕ)
      → 2 * data_type_word t ≤ length xs
      → parse_registers ops layout t bits rate (xs ++ rest)
        ≡ parse_registers ops layout t bits rate xs
  unfolding parse_registers data_type_word
  parse_registers-append l DataType.bool bits rate xs rest h = rw (parse16-append l xs rest h)
  parse_registers-append l DataType.int16 bits rate xs rest h = rw (parse16-append l xs rest h)
  parse_registers-append l DataType.uint16 bits rate xs rest h = rw (parse16-append l xs rest h)
  parse_registers-append l DataType.int32 bits rate xs rest h = rw (parse32-append l xs rest h)
  parse_registers-append l DataType.int64 bits rate xs rest h = rw (parse64-append l xs rest h)
  parse_registers-append l DataType.float32 bits rate xs rest h = rw (parse32-append l xs rest h)
  parse_registers-append l DataType.float64 bits rate xs rest h = rw (parse64-append l xs rest h)
  parse_registers-append l DataType.number bits rate xs rest h = refl
  parse_registers-append l DataType.string bits rate xs rest h = refl

  -- The value of a variable by the memory of the device: that of the registers at its address.
  abbrev pub memory_value : MemoryLayout → (ℕ → ℕ) → Variable ops → Option (Value ops)
  memory_value layout memory v =
      parse_registers ops layout v.data_type v.bits v.rate
        (registers memory v.address (data_type_word v.data_type))

  -- The data of a request, cut at a variable that is placed in it.
  data_at :
      (memory : ℕ → ℕ) (start size : ℕ) (tail : List ℕ) (vp : VariableParse ops)
      → IsPlaced ops of_registers start size vp
      → (rest : List ℕ) × (slice_from vp.start (registers memory start size ++ tail)
          ≡ some
              (registers memory vp.variable.address (data_type_word vp.variable.data_type) ++ rest))
  data_at memory start size tail vp placed =
      let before : ℕ = vp.variable.address - start in
      let words : ℕ = data_type_word vp.variable.data_type in
      let left : ℕ = size - before - words in
      let at_start : vp.start ≡ 2 * before = omega (arith, placed.0) in
      let whole : size ≡ before + (words + left) = omega (arith, placed.0, placed.1) in
      let there : vp.variable.address ≡ start + before = omega (arith, placed.0) in
      (
        registers memory (start + before + words) left ++ tail,
        ap₂ (λ i n. slice_from i (registers memory start n ++ tail)) at_start whole
            ∙ cut_registers memory start before words left tail
            ∙ ap
                (λ a. some (
                  registers memory a words
                  ++ (registers memory (start + before + words) left ++ tail)))
                (sym there),
      )

  -- The value that is read from the answer to a request is the value in the memory of the device,
  -- at the address of the variable.
  pub parse_value-memory :
      (code : ℕ) (layout : MemoryLayout) (memory : ℕ → ℕ) (start size : ℕ) (tail : List ℕ)
      (vp : VariableParse ops)
      → reads_registers code ≡ true
      → IsPlaced ops of_registers start size vp
      → parse_value ops code layout (registers memory start size ++ tail) vp
        ≡ memory_value layout memory vp.variable
  parse_value-memory code layout memory start size tail vp reads placed =
      let (rest, e) = data_at memory start size tail vp placed in
      register_switch code layout _ vp reads
      ∙ rw e (
          parse_registers-append layout vp.variable.data_type vp.variable.bits vp.variable.rate
            (registers memory vp.variable.address (data_type_word vp.variable.data_type)) rest
            (omega (
              arith,
              length-registers memory vp.variable.address (data_type_word vp.variable.data_type),
            )))
