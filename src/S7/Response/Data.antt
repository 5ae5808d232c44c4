-- ===== src/S7/Response/Data.antt =====
-- An answer of a device as a text of 21 bytes, and the data of the items after it.
use harns_gateway.Prelude.{
  ℕ, zero, suc, ◌*◌, ◌/◌, ◌≤◌, refl, Option, none, some, ◌==◌, get_elem?, if◌then◌else◌, ◌+◌, ◌≡◌,
  sym, ap, ◌∙◌, arith, List, [], ◌∷◌, ◌++◌, length, length-append, inl, inr,
}
use harns_gateway.Constant.{DataType}
use harns_gateway.S7.Types.{
  Area, store_area_code, store_area_transport_size, byte_length, data_request_length,
  data_response_length,
}
use harns_gateway.S7.Address.{Place}
use harns_gateway.S7.Request.{Item, new_s7comm_read_parameter_item}
use harns_gateway.Binutil.Encode.{uint16_to_bytes_big_endian}
use harns_gateway.S7.Plan.{item_of}
use harns_gateway.S7.Plan.Layout.{InRange, Laid, At}
use mathlib.Core.List.{append_assoc}

byte_length_bound : (t : DataType) → byte_length t ≤ 8
byte_length_bound DataType.bool = omega arith
byte_length_bound DataType.int16 = omega arith
byte_length_bound DataType.uint16 = omega arith
byte_length_bound DataType.int32 = omega arith
byte_length_bound DataType.int64 = omega arith
byte_length_bound DataType.float32 = omega arith
byte_length_bound DataType.float64 = omega arith
byte_length_bound DataType.number = omega arith
byte_length_bound DataType.string = omega arith

-- The bytes of a memory from an address on.
abbrev pub memory_bytes : (ℕ → ℕ) → ℕ → ℕ → List ℕ
memory_bytes memory start zero = []
memory_bytes memory start (suc n) = memory start ∷ memory_bytes memory (start + 1) n

length-memory_bytes : (memory : ℕ → ℕ) (start n : ℕ) → length (memory_bytes memory start n) ≡ n
length-memory_bytes memory start zero = refl
length-memory_bytes memory start (suc n) = ap suc (length-memory_bytes memory (start + 1) n)

abbrev or_zero : Option ℕ → ℕ
or_zero none = 0
or_zero (some byte) = byte

abbrev byte_of : List ℕ → ℕ → ℕ
byte_of request k = or_zero (get_elem? request k)

-- What the bytes of the request for an item say, by the S7 protocol: how many bytes are asked for
-- (the units of the size 4 are words), of which block, from which byte on.
abbrev size_of : List ℕ → ℕ
size_of request =
    (byte_of request 4 * 256 + byte_of request 5) * (if byte_of request 3 == 4 then 2 else 1)

abbrev block_of : List ℕ → ℕ
block_of request = byte_of request 6 * 256 + byte_of request 7

abbrev start_of : List ℕ → ℕ
start_of request = (byte_of request 9 * 65536 + byte_of request 10 * 256 + byte_of request 11) / 8

-- What a device answers to a request: the bytes of its memory, by area, block and byte.
unfoldable pub data_of : (ℕ → ℕ → ℕ → ℕ) → List ℕ → List ℕ
data_of memory request =
    memory_bytes (memory (byte_of request 8) (block_of request)) (start_of request)
      (size_of request)

size_of_item :
    (t : DataType) (key : Area) (place : Place)
    → size_of (item_of key t place) ≡ data_response_length t key
unfolding new_s7comm_read_parameter_item uint16_to_bytes_big_endian data_request_length
    data_response_length store_area_transport_size
size_of_item t Area.i place = omega (arith, byte_length_bound t)
size_of_item t Area.q place = omega (arith, byte_length_bound t)
size_of_item t Area.m place = omega (arith, byte_length_bound t)
size_of_item DataType.bool Area.db place = refl
size_of_item DataType.int16 Area.db place = refl
size_of_item DataType.uint16 Area.db place = refl
size_of_item DataType.int32 Area.db place = refl
size_of_item DataType.int64 Area.db place = refl
size_of_item DataType.float32 Area.db place = refl
size_of_item DataType.float64 Area.db place = refl
size_of_item DataType.number Area.db place = refl
size_of_item DataType.string Area.db place = refl

block_of_item :
    (t : DataType) (key : Area) (place : Place)
    → InRange place
    → block_of (item_of key t place) ≡ place.area_size
unfolding new_s7comm_read_parameter_item uint16_to_bytes_big_endian
block_of_item t key place (address, block, bit) = omega arith

start_of_item :
    (t : DataType) (key : Area) (place : Place)
    → InRange place
    → start_of (item_of key t place) ≡ place.address
unfolding new_s7comm_read_parameter_item uint16_to_bytes_big_endian
start_of_item t key place (address, block, bit) = omega arith

zone_of_item :
    (t : DataType) (key : Area) (place : Place)
    → byte_of (item_of key t place) 8 ≡ store_area_code key
unfolding new_s7comm_read_parameter_item uint16_to_bytes_big_endian
zone_of_item t key place = refl

-- The answer to the request for an item holds the bytes at its place.
pub data_of_item :
    (memory : ℕ → ℕ → ℕ → ℕ) (t : DataType) (key : Area) (place : Place)
    → InRange place
    → data_of memory (item_of key t place)
      ≡ memory_bytes
          (memory (store_area_code key) place.area_size)
          place.address
          (data_response_length t key)
unfolding data_of
data_of_item memory t key place h =
    rw
      (
        size_of_item t key place,
        start_of_item t key place h,
        block_of_item t key place h,
        zone_of_item t key place,
      )
      refl

length-data_of :
    (memory : ℕ → ℕ → ℕ → ℕ) (t : DataType) (key : Area) (place : Place)
    → length (data_of memory (item_of key t place)) ≡ data_response_length t key
unfolding data_of
length-data_of memory t key place =
    length-memory_bytes _ _ (size_of (item_of key t place)) ∙ size_of_item t key place

-- The four bytes before the data of an item: its return code, the size of its unit, its length.
pub record Header : Type 0 where
  pub return_code : ℕ
  pub unit : ℕ
  pub high : ℕ
  pub low : ℕ

module _ (memory : ℕ → ℕ → ℕ → ℕ) (header_of : List ℕ → Header) where
  item_answer : List ℕ → List ℕ
  item_answer request =
      let h = header_of request in h.return_code ∷ h.unit ∷ h.high ∷ h.low ∷ data_of memory request

  -- The data of an answer.
  unfoldable pub answer_data : List Item → List ℕ
  answer_data [] = []
  answer_data (item ∷ items) =
      let h = header_of item.request_data in
      (h.return_code ∷ h.unit ∷ h.high ∷ h.low ∷ data_of memory item.request_data)
      ++ answer_data items

  -- It is as long as the frame says.
  pub length-answer_data :
      (key : Area) (items : List Item) (from to : ℕ)
      → Laid key from items to
      → from + length (answer_data items) ≡ to
  unfolding answer_data
  length-answer_data key [] from to e = omega arith
  length-answer_data key (item ∷ items) from to (s, (t, place, e, laid)) = omega (
    arith,
    length-append (data_of memory item.request_data) (answer_data items),
    ap (λ r. length (data_of memory r)) e,
    length-data_of memory t key place,
    length-answer_data key items (from + (4 + data_response_length t key)) to laid,
  )

  -- What stands where the data of an item starts.
  pub data_found :
      (key : Area) (items : List Item) (from to : ℕ) (request : List ℕ) (start : ℕ)
      → Laid key from items to
      → At items request start
      → (front : List ℕ) × (rest : List ℕ) × (answer_data items
          ≡ front ++ (data_of memory request ++ rest))
        × (from + length front ≡ start + 4)
  unfolding answer_data
  data_found key [] from to request start laid h = absurd h
  data_found key (item ∷ items) from to request start (s, (t, place, e, laid)) (inl (r, q)) =
      let h = header_of item.request_data in
      (
        h.return_code ∷ h.unit ∷ h.high ∷ h.low ∷ [],
        answer_data items,
        ap (λ r. h.return_code ∷ h.unit ∷ h.high ∷ h.low ∷ data_of memory r ++ answer_data items) r,
        omega (arith, s, q),
      )
  data_found key (item ∷ items) from to request start (s, (t, place, e, laid)) (inr found) =
      let h = header_of item.request_data in
      let own : List ℕ =
        h.return_code ∷ h.unit ∷ h.high ∷ h.low ∷ data_of memory item.request_data in
      let (front, rest, split, place_of) =
        data_found key items (from + (4 + data_response_length t key)) to request start laid
          found in
      (
        own ++ front,
        rest,
        ap (λ l. own ++ l) split ∙ sym (append_assoc own front (data_of memory request ++ rest)),
        omega (
          arith,
          place_of,
          length-append (data_of memory item.request_data) front,
          ap (λ r. length (data_of memory r)) e,
          length-data_of memory t key place,
        ),
      )
