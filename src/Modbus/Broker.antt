-- ===== src/Modbus/Broker.antt =====
-- `NewBroker` of pkg/protocol/modbus/modbusbroker.go: the variables of a device, grouped by function
-- code, sorted by address and packed into data frames.
pub mod Frames
use harns_gateway.Prelude.{
  ℕ, ◌+◌, List, [], ◌∷◌, ◌++◌, Option, Bool, none, some, ◌==◌, length, if◌then◌else◌,
}
use harns_gateway.Binutil.Float.{FloatOps}
use harns_gateway.Constant.{MemoryLayout}
use harns_gateway.Modbus.Types.{
  Variable, DataFrame, reads_bits, reads_registers, ModbusModel, Result, ok, err, or_panic, ◌>>=◌,
  device_type, connect_device, device_empty_variable,
}
use harns_gateway.Modbus.Request.{generate_read_message}
use harns_gateway.Modbus.Response.{Checks, checks_of}
use harns_gateway.Modbus.Plan.{of_bits, of_registers, Request, plan}

module _ (ops : FloatOps) where
  -- The fields of `ModBusDevice` that the broker reads. The model is one of the three that
  -- `ModbusModelers` knows.
  pub record Device : Type 0 where
    pub device_model : ModbusModel
    pub collector_cycle : ℕ
    pub slave : ℕ
    pub memory_layout : MemoryLayout
    pub position_address : ℕ
    pub variables : List (Variable ops)

  pub record Broker : Type 0 where
    pub checks : Checks
    pub device : Device
    pub function_code_data_frame_map : List (ℕ × List (DataFrame ops))
    pub variable_count : ℕ

  -- `functionCodeVariableMap[code] = append(…, variable)`. A Go map is an association list; the
  -- order of its keys is that of their first use, where Go leaves it open.
  unfoldable pub add_variable :
      Variable ops → List (ℕ × List (Variable ops)) → List (ℕ × List (Variable ops))
  add_variable v [] = (v.function_code, v ∷ []) ∷ []
  add_variable v ((code, vs) ∷ rest) =
      if code == v.function_code
      then (code, vs ++ (v ∷ [])) ∷ rest
      else (code, vs) ∷ add_variable v rest

  unfoldable pub group_variables :
      List (ℕ × List (Variable ops)) → List (Variable ops) → List (ℕ × List (Variable ops))
  group_variables groups [] = groups
  group_variables groups (v ∷ vs) = group_variables (add_variable v groups) vs

  -- `VariableCount`, added up over the groups.
  unfoldable pub count_variables : List (ℕ × List (Variable ops)) → ℕ
  count_variables [] = 0
  count_variables ((code, vs) ∷ rest) = length vs + count_variables rest

  -- The requests for the variables of one code. A code that reads nothing has none.
  unfoldable pub requests_for : ℕ → ℕ → List (Variable ops) → Option (List (Request ops))
  requests_for position_address code vs =
      if reads_bits code
      then plan ops of_bits position_address vs
      else if reads_registers code
      then plan ops of_registers position_address vs
      else some []

  -- Every group is sorted and packed. `none` is a packing loop that does not end.
  unfoldable pub plan_groups :
      (List (Variable ops) → List (Variable ops))
      → ℕ
      → List (ℕ × List (Variable ops))
      → Option (List (ℕ × List (Request ops)))
  plan_groups sort position_address [] = some []
  plan_groups sort position_address ((code, vs) ∷ rest) =
      elim (requests_for position_address code (sort vs)) [
        | none ↦ none
        | some rs ↦ elim (plan_groups sort position_address rest) [
          | none ↦ none
          | some groups ↦ some ((code, rs) ∷ groups)
        ]
      ]

  -- `GenerateReadMessage` for each request.
  unfoldable pub frames_of : Device → ℕ → List (Request ops) → Result (List (DataFrame ops))
  frames_of d code [] = ok []
  frames_of d code (r ∷ rs) = do
    df ← or_panic (
        generate_read_message ops d.device_model d.slave code r.start_address r.max_data_size
          r.variables d.memory_layout)
    dfs ← frames_of d code rs
    ok (df ∷ dfs)

  unfoldable pub frame_map :
      Device → List (ℕ × List (Request ops)) → Result (List (ℕ × List (DataFrame ops)))
  frame_map d [] = ok []
  frame_map d ((code, rs) ∷ rest) = do
    dfs ← frames_of d code rs
    map ← frame_map d rest
    ok ((code, dfs) ∷ map)

  -- `dataFrameCount`
  unfoldable pub frame_count : List (ℕ × List (DataFrame ops)) → ℕ
  frame_count [] = 0
  frame_count ((code, dfs) ∷ rest) = length dfs + frame_count rest

  -- What `NewBroker` is given: a device of some protocol.
  pub data AnyDevice : Type 0 where
    modbus_device : Device → AnyDevice
    other_device : AnyDevice

  -- The rest of `NewBroker`, from the requests. `connect` says whether `NewClients` succeeds for so
  -- many data frames.
  unfoldable pub broker_of :
      (ModbusModel → ℕ → Bool) → Device → ℕ → List (ℕ × List (Request ops)) → Result Broker
  broker_of connect d variable_count planned = do
    map ← frame_map d planned
    if frame_count map == 0
        then err device_empty_variable
        else if connect d.device_model (frame_count map)
        then ok (record {
          checks = checks_of d.device_model;
          device = d;
          function_code_data_frame_map = map;
          variable_count = variable_count;
        })
        else err connect_device

  -- `sort` is `sort.Sort(modbus.VariableSlice(variables))`. `none` is a call that does not return.
  unfoldable pub new_broker :
      (List (Variable ops) → List (Variable ops))
      → (ModbusModel → ℕ → Bool)
      → AnyDevice
      → Option (Result Broker)
  new_broker sort connect (modbus_device d) =
      let groups = group_variables [] d.variables in
      elim (plan_groups sort d.position_address groups) [
        | none ↦ none
        | some planned ↦ some (broker_of connect d (count_variables groups) planned)
      ]
  new_broker sort connect other_device = some (err device_type)
