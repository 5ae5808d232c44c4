-- ===== src/S7/Request/Shape.antt =====
-- The fields of S7 requests.
use harns_gateway.Prelude.{
  ℕ, ◌+◌, ◌*◌, ◌^◌, ◌<◌, ◌≡◌, refl, arith, List, [], ◌∷◌, length, length-append, All,
}
use harns_gateway.Binutil.Word.{byte_at}
use harns_gateway.Binutil.Encode.{uint16_to_bytes_big_endian}
use harns_gateway.S7.Request.{
  Item, new_s7comm_read_parameter_item, frame_header, request_data_of, read_frame,
}

pub length-item :
    (transport_size len db_number zone address bit_address : ℕ)
    → length (new_s7comm_read_parameter_item transport_size len db_number zone address bit_address)
      ≡ 12
unfolding new_s7comm_read_parameter_item uint16_to_bytes_big_endian
length-item transport_size len db_number zone address bit_address = refl

-- The last three bytes of an item hold the address of a bit, high byte first.
pub item_address :
    (transport_size len db_number zone address bit_address : ℕ)
    → address < 2 ^ 21
    → bit_address < 8
    → (high : ℕ) × (middle : ℕ) × (low : ℕ) × (new_s7comm_read_parameter_item transport_size len
          db_number zone address bit_address
        ≡ 0x12
          ∷ 0x0A
          ∷ 0x10
          ∷ transport_size
          ∷ byte_at len 8
          ∷ byte_at len 0
          ∷ byte_at db_number 8
          ∷ byte_at db_number 0
          ∷ zone
          ∷ high
          ∷ middle
          ∷ low
          ∷ [])
      × (high * 65536 + middle * 256 + low ≡ address * 8 + bit_address)
      × (high < 256)
      × (middle < 256)
      × (low < 256)
unfolding new_s7comm_read_parameter_item uint16_to_bytes_big_endian
item_address transport_size len db_number zone address bit_address h k =
    (_, _, _, refl, omega arith, omega arith, omega arith, omega arith)

abbrev pub TwelveBytes : Item → Type 0
TwelveBytes item = length item.request_data ≡ 12

length-request_data_of :
    (items : List Item) → All TwelveBytes items → length (request_data_of items) ≡ length items * 12
unfolding request_data_of
length-request_data_of [] h = omega arith
length-request_data_of (item ∷ items) h = omega (
  arith,
  length-append item.request_data (request_data_of items),
  length-request_data_of items h.1,
)

pub length-read_frame :
    (items : List Item) → All TwelveBytes items → length (read_frame items) ≡ 19 + length items * 12
unfolding read_frame frame_header uint16_to_bytes_big_endian
length-read_frame items h = omega (arith, length-request_data_of items h)
