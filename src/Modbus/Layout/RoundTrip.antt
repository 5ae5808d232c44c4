-- ===== src/Modbus/Layout/RoundTrip.antt =====
-- Reading and writing a word in each memory layout.
use harns_gateway.Prelude.{
  ℕ, ◌+◌, ◌*◌, ◌%◌, ◌^◌, ◌<◌, ◌≡◌, ap, ◌∙◌, arith, bit_or, List, [], ◌∷◌, ◌++◌, some, All,
}
use harns_gateway.Prelude.Bits.{bit_or_fields, zero-bit_or}
use native.Mathlib.Nat.{mod-eq_of_lt, one-le-pow}
use native.Mathlib.Numerals.{towards_suc}
use harns_gateway.Constant.{MemoryLayout, dcba, cdab, badc, abcd}
use harns_gateway.Binutil.Word.{IsByte}
use harns_gateway.Binutil.Parse.{
  parse_uint16_big_endian, parse_uint16_little_endian, parse_uint32_big_endian,
  parse_uint32_big_endian_byte_swap, parse_uint32_little_endian,
  parse_uint32_little_endian_byte_swap, parse_uint64_big_endian, parse_uint64_big_endian_byte_swap,
  parse_uint64_little_endian, parse_uint64_little_endian_byte_swap,
}
use harns_gateway.Binutil.Encode.{
  uint16_to_bytes_big_endian, uint16_to_bytes_little_endian, uint32_to_bytes_big_endian,
  uint32_to_bytes_big_endian_byte_swap, uint32_to_bytes_little_endian,
  uint32_to_bytes_little_endian_byte_swap, uint64_to_bytes_big_endian,
  uint64_to_bytes_big_endian_byte_swap, uint64_to_bytes_little_endian,
  uint64_to_bytes_little_endian_byte_swap,
}
use harns_gateway.Modbus.Layout.{parse16, parse32, parse64, bytes16, bytes32, bytes64}

-- The number that bytes stand for, the highest first, above the accumulated `acc`.
abbrev pub big_endian : ℕ → List ℕ → ℕ
big_endian acc [] = acc
big_endian acc (b ∷ bs) = big_endian (acc * 256 + b) bs

abbrev swap_pairs : List ℕ → List ℕ
swap_pairs [] = []
swap_pairs (a ∷ []) = a ∷ []
swap_pairs (a ∷ b ∷ rest) = b ∷ a ∷ swap_pairs rest

abbrev backwards : List ℕ → List ℕ → List ℕ
backwards acc [] = acc
backwards acc (b ∷ bs) = backwards (b ∷ acc) bs

-- The bytes of one value as a layout puts them on the wire, brought into the order A B C D …:
-- B A D C swaps the bytes of each register, D C B A turns all round, and C D A B turns the
-- registers round and keeps their bytes.
abbrev pub in_order : MemoryLayout → List ℕ → List ℕ
in_order abcd bs = bs
in_order badc bs = swap_pairs bs
in_order dcba bs = backwards [] bs
in_order cdab bs = swap_pairs (backwards [] bs)

-- Within a single register only the two bytes can change places.
abbrev pub in_order16 : MemoryLayout → List ℕ → List ℕ
in_order16 abcd bs = bs
in_order16 cdab bs = bs
in_order16 badc bs = swap_pairs bs
in_order16 dcba bs = swap_pairs bs

-- One byte more below the bytes that are read: `|` adds it.
or_next :
    (s q x : ℕ)
    → x < 256
    → x * 2 ^ s < 2 ^ 64
    → bit_or (q * 2 ^ (s + 8)) (x * 2 ^ s % 2 ^ 64) ≡ (q * 256 + x) * 2 ^ s
or_next s q x hx fits =
    ap (bit_or (q * 2 ^ (s + 8))) (mod-eq_of_lt fits)
    ∙ bit_or_fields (s + 8) q (x * 2 ^ s) (grind (arith, power, one-le-pow s 2))
    ∙ omega (arith, ap (λ (t : ℕ). q * t) power)
  where
    power : 2 ^ (s + 8) ≡ 256 * 2 ^ s
    power = simp towards_suc (omega arith)

or_word :
    (a b c d e f g h : ℕ)
    → All IsByte (a ∷ b ∷ c ∷ d ∷ e ∷ f ∷ g ∷ h ∷ [])
    → bit_or
        (bit_or
          (bit_or
            (bit_or
              (bit_or
                (bit_or
                  (bit_or (bit_or 0 (a * 2 ^ 56 % 2 ^ 64)) (b * 2 ^ 48 % 2 ^ 64))
                  (c * 2 ^ 40 % 2 ^ 64))
                (d * 2 ^ 32 % 2 ^ 64))
              (e * 2 ^ 24 % 2 ^ 64))
            (f * 2 ^ 16 % 2 ^ 64))
          (g * 2 ^ 8 % 2 ^ 64))
        (h * 2 ^ 0 % 2 ^ 64)
      ≡ big_endian 0 (a ∷ b ∷ c ∷ d ∷ e ∷ f ∷ g ∷ h ∷ [])
or_word a b c d e f g h bytes =
    rw
      (
        zero-bit_or (a * 2 ^ 56 % 2 ^ 64),
        top,
        or_next 48 a b (omega arith) (omega arith),
        or_next 40 (a * 256 + b) c (omega arith) (omega arith),
        or_next 32 ((a * 256 + b) * 256 + c) d (omega arith) (omega arith),
        or_next 24 (((a * 256 + b) * 256 + c) * 256 + d) e (omega arith) (omega arith),
        or_next 16 ((((a * 256 + b) * 256 + c) * 256 + d) * 256 + e) f (omega arith) (omega arith),
        or_next 8 (((((a * 256 + b) * 256 + c) * 256 + d) * 256 + e) * 256 + f) g (omega arith)
            (omega arith),
        or_next 0 ((((((a * 256 + b) * 256 + c) * 256 + d) * 256 + e) * 256 + f) * 256 + g) h
            (omega arith) (omega arith),
      )
      (omega arith)
  where
    top : a * 2 ^ 56 % 2 ^ 64 ≡ a * 2 ^ 56
    top = omega arith

-- `ParseUint16…` in either byte order reads the two bytes in order, high byte first.
pub parse16-big_endian :
    (layout : MemoryLayout) (a b : ℕ) (rest : List ℕ)
    → IsByte a × IsByte b
    → parse16 layout (a ∷ b ∷ rest) ≡ some (big_endian 0 (in_order16 layout (a ∷ b ∷ [])))
unfolding parse16 parse_uint16_big_endian parse_uint16_little_endian
parse16-big_endian abcd a b rest h = ap some (omega arith)
parse16-big_endian cdab a b rest h = ap some (omega arith)
parse16-big_endian badc a b rest h = ap some (omega arith)
parse16-big_endian dcba a b rest h = ap some (omega arith)

pub parse32-big_endian :
    (layout : MemoryLayout) (a b c d : ℕ) (rest : List ℕ)
    → All IsByte (a ∷ b ∷ c ∷ d ∷ [])
    → parse32 layout (a ∷ b ∷ c ∷ d ∷ rest)
      ≡ some (big_endian 0 (in_order layout (a ∷ b ∷ c ∷ d ∷ [])))
unfolding parse32 parse_uint32_big_endian parse_uint32_big_endian_byte_swap
    parse_uint32_little_endian parse_uint32_little_endian_byte_swap
parse32-big_endian abcd a b c d rest h = ap some (omega arith)
parse32-big_endian badc a b c d rest h = ap some (omega arith)
parse32-big_endian dcba a b c d rest h = ap some (omega arith)
parse32-big_endian cdab a b c d rest h = ap some (omega arith)

pub parse64-big_endian :
    (layout : MemoryLayout) (a b c d e f g h : ℕ) (rest : List ℕ)
    → All IsByte (a ∷ b ∷ c ∷ d ∷ e ∷ f ∷ g ∷ h ∷ [])
    → parse64 layout (a ∷ b ∷ c ∷ d ∷ e ∷ f ∷ g ∷ h ∷ rest)
      ≡ some (big_endian 0 (in_order layout (a ∷ b ∷ c ∷ d ∷ e ∷ f ∷ g ∷ h ∷ [])))
unfolding parse64 parse_uint64_big_endian parse_uint64_big_endian_byte_swap
    parse_uint64_little_endian parse_uint64_little_endian_byte_swap
parse64-big_endian abcd a b c d e f g h rest k = ap some (or_word a b c d e f g h (omega arith))
parse64-big_endian badc a b c d e f g h rest k = ap some (or_word b a d c f e h g (omega arith))
parse64-big_endian dcba a b c d e f g h rest k = ap some (or_word h g f e d c b a (omega arith))
parse64-big_endian cdab a b c d e f g h rest k = ap some (or_word g h e f c d a b (omega arith))

pub parse16-bytes16 :
    (layout : MemoryLayout) (v : ℕ) (rest : List ℕ)
    → v < 2 ^ 16
    → parse16 layout (bytes16 layout v ++ rest) ≡ some v
unfolding bytes16 uint16_to_bytes_big_endian uint16_to_bytes_little_endian
parse16-bytes16 abcd v rest h =
    parse16-big_endian abcd _ _ rest (omega arith) ∙ ap some (omega arith)
parse16-bytes16 cdab v rest h =
    parse16-big_endian cdab _ _ rest (omega arith) ∙ ap some (omega arith)
parse16-bytes16 badc v rest h =
    parse16-big_endian badc _ _ rest (omega arith) ∙ ap some (omega arith)
parse16-bytes16 dcba v rest h =
    parse16-big_endian dcba _ _ rest (omega arith) ∙ ap some (omega arith)

-- A word below 2 ^ 32 that is written in one of the four memory layouts is read back in the same
-- layout, whatever follows it.
pub parse32-bytes32 :
    (layout : MemoryLayout) (v : ℕ) (rest : List ℕ)
    → v < 2 ^ 32
    → parse32 layout (bytes32 layout v ++ rest) ≡ some v
unfolding bytes32 uint32_to_bytes_big_endian uint32_to_bytes_big_endian_byte_swap
    uint32_to_bytes_little_endian uint32_to_bytes_little_endian_byte_swap
parse32-bytes32 abcd v rest h =
    parse32-big_endian abcd _ _ _ _ rest (omega arith) ∙ ap some (omega arith)
parse32-bytes32 cdab v rest h =
    parse32-big_endian cdab _ _ _ _ rest (omega arith) ∙ ap some (omega arith)
parse32-bytes32 badc v rest h =
    parse32-big_endian badc _ _ _ _ rest (omega arith) ∙ ap some (omega arith)
parse32-bytes32 dcba v rest h =
    parse32-big_endian dcba _ _ _ _ rest (omega arith) ∙ ap some (omega arith)

-- A word below 2 ^ 64 that is written in one of the four memory layouts is read back in the same
-- layout, whatever follows it.
pub parse64-bytes64 :
    (layout : MemoryLayout) (v : ℕ) (rest : List ℕ)
    → v < 2 ^ 64
    → parse64 layout (bytes64 layout v ++ rest) ≡ some v
unfolding bytes64 uint64_to_bytes_big_endian uint64_to_bytes_big_endian_byte_swap
    uint64_to_bytes_little_endian uint64_to_bytes_little_endian_byte_swap
parse64-bytes64 abcd v rest h =
    parse64-big_endian abcd _ _ _ _ _ _ _ _ rest (omega arith) ∙ ap some (omega arith)
parse64-bytes64 cdab v rest h =
    parse64-big_endian cdab _ _ _ _ _ _ _ _ rest (omega arith) ∙ ap some (omega arith)
parse64-bytes64 badc v rest h =
    parse64-big_endian badc _ _ _ _ _ _ _ _ rest (omega arith) ∙ ap some (omega arith)
parse64-bytes64 dcba v rest h =
    parse64-big_endian dcba _ _ _ _ _ _ _ _ rest (omega arith) ∙ ap some (omega arith)
