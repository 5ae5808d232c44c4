-- ===== src/S7/Broker.antt =====
-- `NewBroker` of pkg/protocol/s7/s7broker.go: the variables of a device, grouped by area, sorted and
-- packed into data frames.
pub mod Frames
use harns_gateway.Prelude.{
  ℕ, ◌+◌, List, [], ◌∷◌, ◌++◌, Option, Bool, none, some, ◌==◌, length, if◌then◌else◌,
}
use harns_gateway.Binutil.Float.{FloatOps}
use harns_gateway.S7.Types.{
  Area, Variable, store_area_code, Result, ok, err, panic, or_panic, ◌>>=◌, device_type,
  connect_device, device_empty_variable,
}
use harns_gateway.S7.Address.{zone}
use harns_gateway.S7.Request.{DataFrame}
use harns_gateway.S7.Plan.{plan}

module _ (ops : FloatOps) where
  -- The fields of `S7Device` that the broker reads. The model is S71500, the only one that
  -- `S7Modelers` knows.
  pub record Device : Type 0 where
    pub collector_cycle : ℕ
    pub rack : ℕ
    pub slot : ℕ
    pub variables : List (Variable ops)

  pub record Broker : Type 0 where
    pub device : Device
    pub store_address_data_frame_map : List (Area × List (DataFrame ops))
    pub variable_count : ℕ

  -- `storeAddressVariableMap[zone] = append(…, variable)`. A Go map is an association list; the
  -- order of its keys is that of their first use, where Go leaves it open.
  unfoldable pub add_variable :
      Variable ops → List (Area × List (Variable ops)) → List (Area × List (Variable ops))
  add_variable v [] = (zone v.address, v ∷ []) ∷ []
  add_variable v ((key, vs) ∷ rest) =
      if store_area_code key == store_area_code (zone v.address)
      then (key, vs ++ (v ∷ [])) ∷ rest
      else (key, vs) ∷ add_variable v rest

  unfoldable pub group_variables :
      List (Area × List (Variable ops)) → List (Variable ops) → List (Area × List (Variable ops))
  group_variables groups [] = groups
  group_variables groups (v ∷ vs) = group_variables (add_variable v groups) vs

  -- Every group is sorted and packed. `sort` is `sort.Sort(s7runtime.VariableSlice(variables))`.
  unfoldable pub frame_map :
      (List (Variable ops) → List (Variable ops))
      → ℕ
      → List (Area × List (Variable ops))
      → Result (List (Area × List (DataFrame ops)))
  frame_map sort max_pdu_length [] = ok []
  frame_map sort max_pdu_length ((key, vs) ∷ rest) = do
    dfs ← or_panic (plan ops key max_pdu_length (sort vs))
    frames ← frame_map sort max_pdu_length rest
    ok ((key, dfs) ∷ frames)

  -- `dataFrameCount`
  unfoldable pub frame_count : List (Area × List (DataFrame ops)) → ℕ
  frame_count [] = 0
  frame_count ((key, dfs) ∷ rest) = length dfs + frame_count rest

  -- What `NewBroker` is given: a device of some protocol.
  pub data AnyDevice : Type 0 where
    s7_device : Device → AnyDevice
    other_device : AnyDevice

  -- From the data frames on. `connect` says whether `NewClients` succeeds for so many of them.
  unfoldable pub assembled :
      (ℕ → Bool) → Device → List (Area × List (DataFrame ops)) → Result Broker
  assembled connect d frames =
      if frame_count frames == 0
      then err device_empty_variable
      else if connect (frame_count frames)
      then ok (record {
        device = d;
        store_address_data_frame_map = frames;
        variable_count = length d.variables;
      })
      else err connect_device

  -- From the length of a PDU on.
  unfoldable pub broker_of :
      (List (Variable ops) → List (Variable ops)) → (ℕ → Bool) → Device → ℕ → Result Broker
  broker_of sort connect d max_pdu_length = do
    frames ← frame_map sort max_pdu_length (group_variables [] d.variables)
    assembled connect d frames

  -- The error of the handshake is replaced.
  abbrev pub or_connect_device : Result ℕ → Result ℕ
  or_connect_device (err e) = err connect_device
  or_connect_device r = r

  -- `pdu_length` is what `GetS7DevicePDULength` gives for the device.
  unfoldable pub new_broker :
      (List (Variable ops) → List (Variable ops))
      → (Device → Result ℕ)
      → (ℕ → Bool)
      → AnyDevice
      → Result Broker
  new_broker sort pdu_length connect (s7_device d) = do
    max_pdu_length ← or_connect_device (pdu_length d)
    broker_of sort connect d max_pdu_length
  new_broker sort pdu_length connect other_device = err device_type
