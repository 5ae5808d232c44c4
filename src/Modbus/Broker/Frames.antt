-- ===== src/Modbus/Broker/Frames.antt =====
-- From the variables of a device to data frames that can be polled.
use harns_gateway.Prelude.{
  ℕ, ◌≤◌, ◌≡◌, refl, ◌∙◌, List, [], ◌∷◌, ◌++◌, true, Option, some, ◌>>=◌, All, inl, inr,
}
use harns_gateway.Binutil.Float.{FloatOps}
use harns_gateway.Binutil.Word.{IsByte}
use harns_gateway.Constant.{MemoryLayout}
use harns_gateway.Modbus.Types.{
  Variable, DataFrame, reads_registers, ModbusModel, tcp, rtu, rtu_over_tcp, ok,
}
use harns_gateway.Modbus.Request.{
  generate_read_message, tcp_generate_read_message, rtu_generate_read_message,
  rtu_over_tcp_generate_read_message, data_frame_of,
}
use harns_gateway.Modbus.Request.Shape.{tcp_message_lem, rtu_body, with_crc, rtu_message_lem}
use harns_gateway.Modbus.Plan.{of_registers, Request, plan}
use harns_gateway.Modbus.Plan.Coverage.{
  IsRegular, plan_ends, requested, variables_of, requested-plan,
}
use harns_gateway.Modbus.Plan.Bounds.{IsFitting, IsOrdered, plan-IsFitting}
use harns_gateway.Modbus.Response.Accepts.{register_code}
use harns_gateway.Modbus.Message.Memory.{IsPollable}
use harns_gateway.Modbus.Broker.{Device, requests_for, frames_of}

module _ (ops : FloatOps) where
  -- The bytes that ask a slave for registers or bits, with a function code.
  abbrev pub request_bytes : ModbusModel → ℕ → ℕ → ℕ → ℕ → List ℕ
  request_bytes tcp slave code start size = 0 ∷ 0 ∷ 0 ∷ 0 ∷ 0 ∷ 6 ∷ rtu_body slave code start size
  request_bytes rtu slave code start size = with_crc (rtu_body slave code start size)
  request_bytes rtu_over_tcp slave code start size = with_crc (rtu_body slave code start size)

  -- A data frame is for a slave and a function code, also in its bytes.
  abbrev pub IsFor : Device ops → ℕ → DataFrame ops → Type 0
  IsFor d code df =
      (df.slave ≡ d.slave)
      × (df.function_code ≡ code)
      × (df.data_frame
          ≡ request_bytes d.device_model d.slave code df.start_address df.max_data_size)

  -- A data frame asks for a request, of a slave and with a function code.
  record Asks (model : ModbusModel) (slave code : ℕ) (r : Request ops) (df : DataFrame ops)
      : Type 0 where
    of_bytes : df.data_frame ≡ request_bytes model slave code r.start_address r.max_data_size
    to_slave : df.slave ≡ slave
    with_code : df.function_code ≡ code
    from_start : df.start_address ≡ r.start_address
    of_size : df.max_data_size ≡ r.max_data_size
    of_variables : df.variables ≡ r.variables

  around :
      (model : ModbusModel) (slave code : ℕ) (r : Request ops) (layout : MemoryLayout) (length : ℕ)
      (m : Option (List ℕ))
      → m ≡ some (request_bytes model slave code r.start_address r.max_data_size)
      → (df : DataFrame ops) × ((m >>= λ message. some (
            data_frame_of ops slave code r.start_address r.max_data_size r.variables layout length
              message))
          ≡ some df)
        × Asks model slave code r df
  around model slave code r layout length m e = (
    data_frame_of ops slave code r.start_address r.max_data_size r.variables layout length
        (request_bytes model slave code r.start_address r.max_data_size),
    rw e refl,
    record {
      of_bytes = refl;
      to_slave = refl;
      with_code = refl;
      from_start = refl;
      of_size = refl;
      of_variables = refl;
    },
  )

  generated :
      (model : ModbusModel) (slave code : ℕ) (r : Request ops) (layout : MemoryLayout)
      → IsByte code
      → (df : DataFrame ops) × (generate_read_message ops model slave code r.start_address
            r.max_data_size r.variables layout
          ≡ some df)
        × Asks model slave code r df
  unfolding generate_read_message tcp_generate_read_message rtu_generate_read_message
      rtu_over_tcp_generate_read_message
  generated tcp slave code r layout h =
      around tcp slave code r layout _ _
        (tcp_message_lem slave code r.start_address r.max_data_size)
  generated rtu slave code r layout h =
      around rtu slave code r layout _ _
        (rtu_message_lem slave code r.start_address r.max_data_size h)
  generated rtu_over_tcp slave code r layout h =
      around rtu_over_tcp slave code r layout _ _
        (rtu_message_lem slave code r.start_address r.max_data_size h)

  abbrev pub carried : List (DataFrame ops) → List (Variable ops)
  carried [] = []
  carried (df ∷ dfs) = variables_of ops df.variables ++ carried dfs

  -- The frames of one function code, from its requests.
  framed :
      (d : Device ops) (code : ℕ) (rs : List (Request ops))
      → IsByte code
      → reads_registers code ≡ true
      → All (IsFitting ops of_registers) rs
      → (dfs : List (DataFrame ops)) × (frames_of ops d code rs ≡ ok dfs)
        × All (IsPollable ops) dfs
        × All (IsFor d code) dfs
        × (carried dfs ≡ requested ops rs)
  unfolding frames_of
  framed d code [] h reads all = ([], refl, tt, tt, refl)
  framed d code (r ∷ rs) h reads all =
      let (df, made, asks) = generated d.device_model d.slave code r d.memory_layout h in
      let (dfs, rest, pollable, meant, same) = framed d code rs h reads all.1 in
      (
        df ∷ dfs,
        rw (made, rest) refl,
        (
          (
            rw asks.with_code reads,
            rw asks.of_size all.0.0,
            rw (asks.of_size, asks.from_start, asks.of_variables) all.0.1,
          ),
          pollable,
        ),
        (
          (asks.to_slave, asks.with_code, rw (asks.of_size, asks.from_start) (asks.of_bytes)),
          meant,
        ),
        rw (asks.of_variables, same) refl,
      )

  register_requests :
      (position code : ℕ) (vs : List (Variable ops))
      → reads_registers code ≡ true
      → requests_for ops position code vs ≡ plan ops of_registers position vs
  unfolding requests_for
  register_requests position code vs h = elim (register_code code h) [
    | inl e ↦ rw e refl
    | inr e ↦ rw e refl
  ]

  -- For the register variables of a device NewBroker makes data frames that can be polled: each
  -- reads at most 123 registers and its variables lie in them at their offsets; it has the slave
  -- of the device and the function code of the variables, and its bytes are the request to that
  -- slave, with that code, for its registers; and the frames together carry every variable once
  -- and in order. The function code is a byte, the variables come in the order of their addresses
  -- and of their ends, the position address is not above the first, and no address is within 2000
  -- of the end of uint.
  pub frames-IsPollable :
      (d : Device ops) (code : ℕ) (v : Variable ops) (vs : List (Variable ops))
      → IsByte code
      → reads_registers code ≡ true
      → All (IsRegular ops) (v ∷ vs)
      → IsOrdered ops of_registers (v ∷ vs)
      → d.position_address ≤ v.address
      → (rs : List (Request ops)) × (dfs : List (DataFrame ops)) × (requests_for ops
            d.position_address code
            (v ∷ vs)
          ≡ some rs)
        × (frames_of ops d code rs ≡ ok dfs)
        × All (IsPollable ops) dfs
        × All (IsFor d code) dfs
        × (carried dfs ≡ v ∷ vs)
  frames-IsPollable d code v vs h reads regular ordered below =
      let (rs, planned) = plan_ends ops of_registers d.position_address (v ∷ vs) regular in
      let fitting =
        plan-IsFitting ops of_registers d.position_address v vs regular below ordered rs planned in
      let (dfs, made, pollable, meant, same) = framed d code rs h reads fitting in
      (
        rs,
        dfs,
        register_requests d.position_address code (v ∷ vs) reads ∙ planned,
        made,
        pollable,
        meant,
        same ∙ requested-plan ops of_registers d.position_address (v ∷ vs) rs planned,
      )
