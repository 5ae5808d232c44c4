-- ===== src/S7/Request.antt =====
-- The bytes of S7 requests, pkg/protocol/s7/s7broker.go: `newS7COMMReadParameterItem`,
-- `newS7COMMWriteDataItem`, `newS7DataFrame` and the frame of `DeliverAction`.
pub mod Shape
use harns_gateway.Prelude.{ℕ, ◌+◌, ◌*◌, ◌/◌, ◌%◌, ◌^◌, List, [], ◌∷◌, ◌++◌, length, replicate}
use harns_gateway.Binutil.Float.{FloatOps}
use harns_gateway.Binutil.Encode.{uint16_to_bytes_big_endian}
use harns_gateway.S7.Types.{Area, Variable}

-- The twelve bytes that ask for an item. `address << 3` is computed on uint32, and each of the last
-- three bytes is a uint8.
unfoldable pub new_s7comm_read_parameter_item : ℕ → ℕ → ℕ → ℕ → ℕ → ℕ → List ℕ
new_s7comm_read_parameter_item transport_size len db_number zone address bit_address =
    let shifted = address * 8 % 2 ^ 32 in
    (((0x12 ∷ 0x0A ∷ 0x10 ∷ []) ++ (transport_size ∷ [])) ++ uint16_to_bytes_big_endian len)
    ++ (uint16_to_bytes_big_endian db_number
        ++ (zone
            ∷ (shifted / 256 / 256 % 256)
            ∷ (shifted / 256 % 256 % 256)
            ∷ ((shifted % 256 + bit_address) % 256)
            ∷ []))

-- The data of a write. Whatever length is passed, it is 32.
unfoldable pub new_s7comm_write_data_item : ℕ → ℕ → List ℕ → List ℕ
new_s7comm_write_data_item transport_size len bytes =
    ((0 ∷ transport_size ∷ []) ++ uint16_to_bytes_big_endian 32) ++ bytes

-- `S7Item`
pub record Item : Type 0 where
  pub request_data : List ℕ
  pub start_address : ℕ

unfoldable pub request_data_of : List Item → List ℕ
request_data_of [] = []
request_data_of (item ∷ items) = item.request_data ++ request_data_of items

-- The seventeen bytes of the three headers and the lengths of parameters and data.
unfoldable pub frame_header : ℕ → ℕ → ℕ → List ℕ
frame_header max_bytes parameter_length data_length =
    (0x03
      ∷ 0x00
      ∷ 0x00
      ∷ (max_bytes % 256)
      ∷ 0x02
      ∷ 0xF0
      ∷ 0x80
      ∷ 0x32
      ∷ 0x01
      ∷ 0x00
      ∷ 0x00
      ∷ 0x00
      ∷ 0x01
      ∷ [])
    ++ (uint16_to_bytes_big_endian (parameter_length % 2 ^ 16)
        ++ uint16_to_bytes_big_endian (data_length % 2 ^ 16))

-- The frame that reads items.
unfoldable pub read_frame : List Item → List ℕ
read_frame items =
    (frame_header (7 + 10 + 2 + length items * 12) (2 + length items * 12) 0
      ++ (4 ∷ (length items % 256) ∷ []))
    ++ request_data_of items

-- `ParameterData`
pub record ParameterData : Type 0 where
  pub parameter_item : List ℕ
  pub data_item : List ℕ

-- The frame that `DeliverAction` makes of one variable.
unfoldable pub write_frame : ParameterData → List ℕ
write_frame pib =
    frame_header (7 + 10 + 2 + 1 * 12 + length pib.data_item) (2 + 1 * 12) (length pib.data_item)
    ++ ((5 ∷ 1 ∷ []) ++ (pib.parameter_item ++ pib.data_item))

module _ (ops : FloatOps) where
  -- `VariableParse`
  pub record VariableParse : Type 0 where
    pub variable : Variable ops
    pub start_address : ℕ
    pub bit_address_or_length : ℕ
    pub block_size : ℕ

  -- `S7DataFrame`
  pub record DataFrame : Type 0 where
    pub zone : Area
    pub data_frame : List ℕ
    pub item_count : ℕ
    pub data_length : ℕ
    pub response_data_frame : List ℕ
    pub variables : List VariableParse

  -- `newS7DataFrame`
  unfoldable pub new_s7_data_frame : Area → List VariableParse → List Item → ℕ → ℕ → DataFrame
  new_s7_data_frame key variable_parse items data_length pdu = record {
    zone = key;
    data_frame = read_frame items;
    item_count = length items % 256;
    data_length = data_length;
    response_data_frame = replicate pdu 0;
    variables = variable_parse;
  }
