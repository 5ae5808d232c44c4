-- ===== src/S7/Response/Located.antt =====
-- The value of each variable in the data of an answer.
use harns_gateway.Prelude.{ℕ, ◌+◌, ◌<◌, ◌≤◌, ◌⊎◌, ◌≡◌, List, ◌++◌, some, length, All}
use harns_gateway.Binutil.Float.{FloatOps}
use harns_gateway.Constant.{DataType}
use harns_gateway.S7.Types.{Area, store_area_code, byte_length, data_response_length}
use harns_gateway.S7.Address.{Place, parse_variable_address}
use harns_gateway.S7.Request.{Item, VariableParse, DataFrame, read_frame}
use harns_gateway.S7.Response.{parse_switch, parse_value}
use harns_gateway.S7.Response.Data.{memory_bytes, Header, answer_data}

module _ (ops : FloatOps) where
  module _ (key : Area) (memory : ℕ → ℕ → ℕ → ℕ) (header_of : List ℕ → Header) where
    -- The memory of the block of a place.
    abbrev pub block_at : Place → ℕ → ℕ
    block_at own = memory (store_area_code key) own.area_size

    -- An item for values of the type `asked` is wide enough for the variable, whose value is what
    -- the memory holds at the variable's own place.
    abbrev pub IsWhole : DataType → Place → List Item → VariableParse ops → Type 0
    IsWhole asked own items vp =
        (byte_length vp.variable.data_type ≤ data_response_length asked key)
        × (parse_value ops (answer_data memory header_of items) vp
            ≡ parse_switch ops vp.variable.data_type own.bit vp.variable.rate 0
                (memory_bytes (block_at own) own.address (byte_length vp.variable.data_type)))

    -- The item is too short: the value is read from its bytes and those that follow in the answer.
    abbrev pub IsCut : DataType → Place → List Item → VariableParse ops → Type 0
    IsCut asked own items vp =
        (data_response_length asked key < byte_length vp.variable.data_type)
        × ((front rest : List ℕ) × (length front ≡ vp.start_address + 4)
            × (answer_data memory header_of items
                ≡ front
                  ++ (memory_bytes (block_at own) own.address (data_response_length asked key)
                      ++ rest))
            × (parse_value ops (answer_data memory header_of items) vp
                ≡ parse_switch ops vp.variable.data_type own.bit vp.variable.rate 0 (
                    memory_bytes (block_at own) own.address (data_response_length asked key)
                    ++ rest)))

    abbrev pub IsReadFrom : List Item → VariableParse ops → Type 0
    IsReadFrom items vp =
        (asked : DataType) × (own : Place) × (parse_variable_address vp.variable.address ≡ some own)
        × (IsWhole asked own items vp ⊎ IsCut asked own items vp)

    -- The answer to the frame holds the values of all of its variables.
    abbrev pub IsAnswered : DataFrame ops → Type 0
    IsAnswered df =
        (items : List Item) × (df.data_frame ≡ read_frame items)
        × (length (answer_data memory header_of items) ≡ df.data_length)
        × All (IsReadFrom items) df.variables
