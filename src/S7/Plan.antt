-- ===== src/S7/Plan.antt =====
-- The loop of `NewBroker`, pkg/protocol/s7/s7broker.go, that packs the sorted variables of an area
-- into data frames. `none` is a run-time panic in `ParseVariableAddress`.
pub mod Coverage
pub mod Bounds
pub mod Layout
use harns_gateway.Prelude.{
  ℕ, ◌+◌, ◌-◌, ◌/◌, ◌%◌, ◌^◌, List, [], ◌∷◌, ◌++◌, ◌&&◌, Option, Bool, none, some, ◌>>=◌, ◌==◌,
  length, if◌then◌else◌,
}
use harns_gateway.Binutil.Float.{FloatOps}
use harns_gateway.Constant.{DataType}
use harns_gateway.S7.Types.{
  Area, Variable, store_area_code, store_area_transport_size, data_request_length,
  data_response_length,
}
use harns_gateway.S7.Address.{Place, parse_variable_address}
use harns_gateway.S7.Request.{
  Item, new_s7comm_read_parameter_item, VariableParse, DataFrame, new_s7_data_frame,
}

-- The request for the data of a type at a place.
abbrev pub item_of : Area → DataType → Place → List ℕ
item_of key t place =
    new_s7comm_read_parameter_item (store_area_transport_size key) (data_request_length t key)
      (place.area_size % 2 ^ 16) (store_area_code key) place.address place.bit

-- `addressKey` of two variables is the same text.
unfoldable pub same_key : Place → Place → Bool
same_key a b =
    store_area_code a.area == store_area_code b.area
    && a.area_size == b.area_size
    && a.address == b.address

-- `itemMap[addressKey]`, the start address of an item.
unfoldable pub find : Place → List (Place × ℕ) → Option ℕ
find place [] = none
find place ((known, start) ∷ rest) =
    let later = find place rest in if same_key known place then some start else later

-- `(maxPdu - 19) / 12` on uint16.
unfoldable pub max_item_per_data_frame : ℕ → ℕ
max_item_per_data_frame pdu = (pdu + 2 ^ 16 - 19) % 2 ^ 16 / 12

module _ (ops : FloatOps) where
  -- The variables of the loop.
  pub record Packing : Type 0 where
    pub data_frames : List (DataFrame ops)
    pub item_map : List (Place × ℕ)
    pub items : List Item
    pub variable_parses : List (VariableParse ops)
    pub start_address_offset : ℕ

  abbrev pub parse_of : Variable ops → Place → ℕ → VariableParse ops
  parse_of v place start = record {
    variable = v;
    start_address = start;
    bit_address_or_length = place.bit;
    block_size = place.area_size;
  }

  -- The variable shares the item at its place, or a new item is made for it.
  unfoldable pub join : Area → Variable ops → Place → Packing → Option ℕ → Packing
  join key v place st (some start) = record st {
    variable_parses = st.variable_parses ++ (parse_of v place start ∷ []);
  }
  join key v place st none = record {
    data_frames = st.data_frames;
    item_map = (place, st.start_address_offset) ∷ st.item_map;
    items =
        st.items
        ++ (record {
          request_data = item_of key v.data_type place;
          start_address = st.start_address_offset;
        }
            ∷ []);
    variable_parses = st.variable_parses ++ (parse_of v place st.start_address_offset ∷ []);
    start_address_offset = st.start_address_offset + (4 + data_response_length v.data_type key);
  }

  unfoldable pub flush : Area → ℕ → Packing → Packing
  flush key pdu st = record {
    data_frames =
        st.data_frames
        ++ (new_s7_data_frame ops key st.variable_parses st.items st.start_address_offset pdu ∷ []);
    item_map = [];
    items = [];
    variable_parses = [];
    start_address_offset = 0;
  }

  -- A frame that is full is closed.
  unfoldable pub flush_full : Area → ℕ → Packing → Packing
  flush_full key pdu st =
      if length st.items % 2 ^ 16 == max_item_per_data_frame pdu then flush key pdu st else st

  unfoldable pub pack : Area → ℕ → List (Variable ops) → Packing → Option Packing
  pack key pdu [] st = some st
  pack key pdu (v ∷ vs) st = do
    place ← parse_variable_address v.address
    pack key pdu vs (flush_full key pdu (join key v place st (find place st.item_map)))

  -- `if len(items) > 0` after the loop.
  unfoldable pub finish : Area → ℕ → Packing → List (DataFrame ops)
  finish key pdu st = elim st.items [
    | [] ↦ st.data_frames
    | item ∷ items ↦ (flush key pdu st).data_frames
  ]

  abbrev pub packing_start : Packing
  packing_start = record {
    data_frames = [];
    item_map = [];
    items = [];
    variable_parses = [];
    start_address_offset = 0;
  }

  unfoldable pub plan : Area → ℕ → List (Variable ops) → Option (List (DataFrame ops))
  plan key pdu vs = do st ← pack key pdu vs packing_start; some (finish key pdu st)
