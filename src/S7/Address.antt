-- ===== src/S7/Address.antt =====
-- The addresses of S7 variables, pkg/protocol/s7/runtime/type.go: `Zone`, `BlockSize`,
-- `ParseVariableAddress` and `shortening`, with what they use of strings and strconv. `none` is a
-- run-time panic.
pub mod Forms
use harns_gateway.Prelude.{
  ℕ, zero, suc, ◌+◌, ◌-◌, ◌*◌, ◌%◌, ◌^◌, List, [], ◌∷◌, ◌||◌, ◌&&◌, Option, Bool, true, false, not,
  none, some, ◌>>=◌, ◌==◌, ltb, take, drop, if◌then◌else◌,
}
use harns_gateway.Modbus.Types.{slice, slice_from}
use harns_gateway.S7.Types.{Area, i, q, m, db}

-- `strings.HasPrefix`
unfoldable pub has_prefix : List ℕ → List ℕ → Bool
has_prefix s [] = true
has_prefix [] (p ∷ ps) = false
has_prefix (c ∷ s) (p ∷ ps) = c == p && has_prefix s ps

abbrev pub one_more : Option ℕ → Option ℕ
one_more none = none
one_more (some n) = some (suc n)

-- `strings.Index` and `strings.LastIndex` of one byte; `none` is their -1.
unfoldable pub index : ℕ → List ℕ → Option ℕ
index c [] = none
index c (x ∷ s) = let rest = one_more (index c s) in if x == c then some 0 else rest

abbrev pub last_of : Bool → Option ℕ → Option ℕ
last_of here (some n) = some (suc n)
last_of true none = some 0
last_of false none = none

unfoldable pub last_index : ℕ → List ℕ → Option ℕ
last_index c [] = none
last_index c (x ∷ s) = last_of (x == c) (last_index c s)

-- The digits of `strconv.ParseUint`: `none` is a byte that is no digit, and a number that is too
-- large ends the loop with the largest one.
unfoldable pub parse_digits : ℕ → List ℕ → Option ℕ
parse_digits n [] = some n
parse_digits n (c ∷ s) =
    let rest = parse_digits (n * 10 + (c - b'0')) s in
    if ltb c b'0' || ltb b'9' c
    then none
    else if ltb (2 ^ 64 - 1) (n * 10 + (c - b'0'))
    then some (2 ^ 64 - 1)
    else rest

unfoldable pub parse_number : List ℕ → Option ℕ
parse_number [] = none
parse_number (c ∷ s) = parse_digits 0 (c ∷ s)

-- The value of `strconv.Atoi` as a word of 64 bits, whether or not there is an error: 0 for what is
-- no number, and the bounds of int for one that is out of range.
abbrev pub positive_int : Option ℕ → ℕ
positive_int none = 0
positive_int (some n) = if ltb n (2 ^ 63) then n else 2 ^ 63 - 1

abbrev pub negative_int : Option ℕ → ℕ
negative_int none = 0
negative_int (some n) = if ltb (2 ^ 63) n then 2 ^ 63 else (2 ^ 64 - n) % 2 ^ 64

unfoldable pub atoi : List ℕ → ℕ
atoi [] = 0
atoi (c ∷ s) =
    if c == b'+'
    then positive_int (parse_number s)
    else if c == b'-'
    then negative_int (parse_number s)
    else positive_int (parse_number (c ∷ s))

unfoldable pub zone : List ℕ → Area
zone address =
    if has_prefix address (b'I' ∷ [])
    then i
    else if has_prefix address (b'M' ∷ [])
    then m
    else if has_prefix address (b'D' ∷ b'B' ∷ [])
    then db
    else if has_prefix address (b'Q' ∷ [])
    then q
    else db

-- The number of a data block, between "DB" and the first dot.
unfoldable pub block_number : List ℕ → Option ℕ
block_number address = do dot ← index b'.' address; digits ← slice 2 dot address; some (atoi digits)

unfoldable pub block_size : List ℕ → Option ℕ
block_size address =
    if has_prefix address (b'I' ∷ []) || has_prefix address (b'M' ∷ [])
    then some 0
    else if has_prefix address (b'D' ∷ b'B' ∷ [])
    then block_number address
    else some 0

unfoldable pub shortening : List ℕ → Bool
shortening s =
    not (
      has_prefix s (b'X' ∷ [])
      || has_prefix s (b'B' ∷ [])
      || has_prefix s (b'W' ∷ [])
      || has_prefix s (b'D' ∷ [])
      || has_prefix s (b'S' ∷ []))
    && not (
        has_prefix s (b'D' ∷ b'B' ∷ b'X' ∷ [])
        || has_prefix s (b'D' ∷ b'B' ∷ b'B' ∷ [])
        || has_prefix s (b'D' ∷ b'B' ∷ b'W' ∷ [])
        || has_prefix s (b'D' ∷ b'B' ∷ b'D' ∷ [])
        || has_prefix s (b'D' ∷ b'B' ∷ b'S' ∷ []))

-- The results of `ParseVariableAddress`: `address` is a uint32, `bit` a uint8.
pub record Place : Type 0 where
  pub area : Area
  pub area_size : ℕ
  pub address : ℕ
  pub bit : ℕ

-- The byte and the bit, apart at the last dot.
unfoldable pub split_place : Area → ℕ → List ℕ → Option ℕ → Place
split_place area area_size s none = record {
  area = area;
  area_size = area_size;
  address = atoi s % 2 ^ 32;
  bit = 0;
}
split_place area area_size s (some dot) = record {
  area = area;
  area_size = area_size;
  address = atoi (take dot s) % 2 ^ 32;
  bit = atoi (drop (suc dot) s) % 256;
}

-- The type letters that stand before the byte are cut off: one in the inputs, outputs and flags,
-- three in a data block.
unfoldable pub cut_letters : ℕ → List ℕ → Option (List ℕ)
cut_letters letters s = if shortening s then some s else slice_from letters s

unfoldable pub parse_in_area : Area → List ℕ → Option Place
parse_in_area area address = do
  byte_address ← slice_from 1 address
  s ← cut_letters 1 byte_address
  some (split_place area 0 s (last_index b'.' s))

unfoldable pub parse_in_block : List ℕ → Option Place
parse_in_block address = do
  dot ← index b'.' address
  digits ← slice 2 dot address
  byte_address ← slice_from (suc dot) address
  s ← cut_letters 3 byte_address
  some (split_place db (atoi digits) s (last_index b'.' s))

unfoldable pub parse_variable_address : List ℕ → Option Place
parse_variable_address address = elim (zone address) [
  | i ↦ parse_in_area i address
  | q ↦ parse_in_area q address
  | m ↦ parse_in_area m address
  | db ↦ parse_in_block address
]
