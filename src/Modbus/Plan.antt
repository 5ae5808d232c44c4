-- ===== src/Modbus/Plan.antt =====
-- The loop of `NewBroker` in pkg/protocol/modbus/modbusbroker.go that packs the variables of one
-- function code into read requests. A request is what `GenerateReadMessage` is called with; that
-- function changes nothing, so it is applied afterwards (see Broker).
pub mod Coverage
pub mod Bounds
pub mod Overlap
use harns_gateway.Prelude.{
  ℕ, zero, suc, ◌+◌, ◌-◌, ◌*◌, ◌%◌, ◌^◌, List, [], ◌∷◌, ◌++◌, Option, Bool, true, false, none, some,
  ◌>>=◌, leb, length,
}
use harns_gateway.Binutil.Float.{FloatOps}
use harns_gateway.Constant.{data_type_word}
use harns_gateway.Modbus.Types.{
  Variable, VariableParse, per_request_max_coil, per_request_max_register,
}

-- `a + b` and `a - b` on uint.
abbrev pub add_uint : ℕ → ℕ → ℕ
add_uint a b = (a + b) % 2 ^ 64

abbrev pub sub_uint : ℕ → ℕ → ℕ
sub_uint a b = (a + 2 ^ 64 - b) % 2 ^ 64

-- The two cases of the switch on the function code that read something.
pub data Kind : Type 0 where
  of_bits of_registers : Kind

-- `dataFrameDataLength` for a request that starts at an address.
unfoldable pub data_length_from : Kind → ℕ → ℕ
data_length_from of_bits start = add_uint start per_request_max_coil
data_length_from of_registers start = add_uint start per_request_max_register

module _ (ops : FloatOps) where
  pub record Request : Type 0 where
    pub start_address : ℕ
    pub max_data_size : ℕ
    pub variables : List (VariableParse ops)

  -- The variables of the loop: `dfs`, `startAddress`, `dataFrameDataLength`, `maxDataSize`, `vps`.
  pub record Packing : Type 0 where
    pub requests : List Request
    pub start_address : ℕ
    pub data_frame_data_length : ℕ
    pub max_data_size : ℕ
    pub vps : List (VariableParse ops)

  -- Whether a variable still fits the request that is being packed.
  unfoldable pub fits : Kind → Packing → Variable ops → Bool
  fits of_bits st v = leb v.address st.data_frame_data_length
  fits of_registers st v =
      leb (add_uint v.address (data_type_word v.data_type)) st.data_frame_data_length

  -- The variable joins the request.
  unfoldable pub place : Kind → Packing → Variable ops → Packing
  place of_bits st v = record st {
    vps = st.vps ++ (record { variable = v; start = sub_uint v.address st.start_address } ∷ []);
    max_data_size = add_uint (sub_uint v.address st.start_address) 1;
  }
  place of_registers st v = record st {
    vps =
        st.vps
        ++ (record { variable = v; start = sub_uint v.address st.start_address * 2 % 2 ^ 64 } ∷ []);
    max_data_size = add_uint (sub_uint v.address st.start_address) (data_type_word v.data_type);
  }

  abbrev pub request_of : Packing → Request
  request_of st = record {
    start_address = st.start_address;
    max_data_size = st.max_data_size;
    variables = st.vps;
  }

  -- The request is complete, and the next one starts at the variable.
  unfoldable pub flush : Kind → Packing → Variable ops → Packing
  flush kind st v = record {
    requests = st.requests ++ (request_of st ∷ []);
    start_address = v.address;
    data_frame_data_length = data_length_from kind v.address;
    max_data_size = 0;
    vps = [];
  }

  -- `for i := 0; i < len(variables); i++`, where a flush is followed by `i--`. `none` means that the
  -- fuel ran out.
  unfoldable pub pack : ℕ → Kind → List (Variable ops) → Packing → Option Packing
  pack fuel kind [] st = some st
  pack zero kind (v ∷ vs) st = none
  pack (suc fuel) kind (v ∷ vs) st = elim (fits kind st v) [
    | true ↦ pack fuel kind vs (place kind st v)
    | false ↦ pack fuel kind (v ∷ vs) (flush kind st v)
  ]

  -- `if len(vps) > 0` after the loop.
  unfoldable pub finish : Packing → List Request
  finish st = elim st.vps [ [] ↦ st.requests | vp ∷ vps ↦ st.requests ++ (request_of st ∷ []) ]

  -- Where the loop starts, from the first variable and the position address of the device.
  unfoldable pub packing_start : Kind → ℕ → Variable ops → Packing
  packing_start kind position_address first =
      let start = sub_uint first.address position_address in
      record {
        requests = [];
        start_address = start;
        data_frame_data_length = data_length_from kind start;
        max_data_size = 0;
        vps = [];
      }

  -- The requests for the sorted variables of one function code. Each variable takes one round, or
  -- two when it starts a request.
  unfoldable pub plan : Kind → ℕ → List (Variable ops) → Option (List Request)
  plan kind position_address [] = some []
  plan kind position_address (v ∷ vs) = do
    st ← pack (2 * length (v ∷ vs)) kind (v ∷ vs) (packing_start kind position_address v)
    some (finish st)
