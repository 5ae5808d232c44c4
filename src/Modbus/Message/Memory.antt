-- ===== src/Modbus/Message/Memory.antt =====
-- A poll of a device that answers with its registers.
use harns_gateway.Prelude.{
  ℕ, zero, suc, ◌+◌, ◌/◌, ◌%◌, ◌^◌, ◌≤◌, ◌≡◌, refl, ap, arith, List, [], ◌∷◌, map, true, some,
  length, All,
}
use harns_gateway.Binutil.Float.{FloatOps}
use harns_gateway.Binutil.Word.{IsByte, byte_at}
use harns_gateway.Binutil.Write.{write_uint16_big_endian}
use harns_gateway.Modbus.Types.{Variable, VariableParse, DataFrame, reads_registers, ok, tcp, rtu}
use harns_gateway.Modbus.Messenger.{Messenger}
use harns_gateway.Modbus.Plan.{of_registers}
use harns_gateway.Modbus.Plan.Bounds.{IsPlaced}
use harns_gateway.Modbus.Request.Shape.{crc_of, high_byte, low_byte}
use harns_gateway.Modbus.Response.{
  Checks, checks_of, write_transaction_id, validate_and_extract_message,
}
use harns_gateway.Modbus.Response.Accepts.{
  serial_response, tcp_response, validate-serial_response, validate-tcp_response,
}
use harns_gateway.Modbus.Decode.{parse_variable_value, parse_variable_values}
use harns_gateway.Modbus.Decode.Memory.{registers, length-registers, memory_value}
use harns_gateway.Modbus.Decode.Poll.{values_from_memory}
use harns_gateway.Modbus.Message.{
  try_result, number_frame, ask, ask_numbered, try_once, after_try, retry, hand_on, hand_on_parsed,
  message,
}
use mathlib.Core.List.{append-nil}

registers-IsByte :
    (memory : ℕ → ℕ) (address count : ℕ) → All IsByte (registers memory address count)
unfolding registers
registers-IsByte memory address zero = tt
registers-IsByte memory address (suc count) =
    (omega arith, (omega arith, registers-IsByte memory (address + 1) count))

-- The transaction id that the next request over TCP carries.
abbrev pub next_id : {ops : FloatOps} → DataFrame ops → ℕ
next_id df = (df.transaction_id + 1) % 2 ^ 16

module _ (ops : FloatOps) where
  -- The values of a poll are those that the memory holds for the variables, in their order.
  abbrev pub IsFrom : (ℕ → ℕ) → DataFrame ops → List (Variable ops) → Type 0
  IsFrom memory df variables =
      (map (λ v. some v.value) variables
        ≡ map (λ vp. memory_value ops df.memory_layout memory vp.variable) df.variables)
      × (map (λ v. v.name) variables ≡ map (λ vp. vp.variable.name) df.variables)

  -- The variables of the frame lie in the registers that it asks for.
  abbrev pub IsPollable : DataFrame ops → Type 0
  IsPollable df =
      (reads_registers df.function_code ≡ true)
      × (df.max_data_size ≤ 123)
      × All (IsPlaced ops of_registers df.start_address df.max_data_size) df.variables

module _ (ops : FloatOps) {W : Type 0} (messenger : Messenger W) where
  -- A request that is answered with good data at once is the only one.
  first_try :
      (checks : Checks) (w w' : W) (df numbered answered df' : DataFrame ops)
      (response buf : List ℕ) (n : ℕ) (variables : List (Variable ops))
      → number_frame ops messenger checks df ≡ some numbered
      → messenger.ask_at_least w numbered.data_frame numbered.response_data_frame 6
        ≡ record { world = w'; response = response; result = ok n }
      → validate_and_extract_message ops checks (record numbered { response_data_frame = response })
        ≡ ok buf
      → parse_variable_value ops (record numbered { response_data_frame = response }) buf
        ≡ some (df', variables)
      → message ops messenger checks w df ≡ record {
        world = w';
        frame = df';
        sent = some (record { err = []; variable_slice = variables });
      }
  unfolding message retry try_once ask_numbered ask after_try try_result hand_on hand_on_parsed
  first_try checks w w' df numbered answered df' response buf n variables e1 e2 e3 e4 =
      rw (e1, e2, e3, e4) refl

  values_stored :
      (df : DataFrame ops) (bytes : List ℕ) (out : List (VariableParse ops) × List (Variable ops))
      → parse_variable_values ops df.function_code df.memory_layout bytes df.variables ≡ some out
      → parse_variable_value ops df bytes ≡ some (record df { variables = out.0 }, out.1)
  unfolding parse_variable_value
  values_stored df bytes out e = rw e refl

  id_written :
      (df : DataFrame ops) (a b : ℕ) (rest : List ℕ)
      → df.data_frame ≡ a ∷ b ∷ rest
      → write_uint16_big_endian (next_id df) df.data_frame
        ≡ some (high_byte (next_id df) ∷ low_byte (next_id df) ∷ rest)
  unfolding write_uint16_big_endian
  id_written df a b rest e = rw e (ground (arith, id_high, id_low))
    where
      id_high : byte_at (next_id df) 8 ≡ high_byte (next_id df)
      id_high = omega arith

      id_low : byte_at (next_id df) 0 ≡ low_byte (next_id df)
      id_low = omega arith

  numbered_frame :
      (df : DataFrame ops) (a b : ℕ) (rest : List ℕ)
      → df.data_frame ≡ a ∷ b ∷ rest
      → number_frame ops messenger (checks_of tcp) df
        ≡ some (record df {
          transaction_id = next_id df;
          data_frame = high_byte (next_id df) ∷ low_byte (next_id df) ∷ rest;
        })
  unfolding number_frame checks_of write_transaction_id
  numbered_frame df a b rest e = rw (id_written df a b rest e) refl

  -- A device on a serial line that answers with the registers that are asked for: message hands
  -- on, after one request and without an error, the values that the device's memory holds for the
  -- variables of the frame, in their order and with their names. The frame reads at most 123
  -- registers and its variables lie in them.
  pub message_serial :
      (memory : ℕ → ℕ) (w w' : W) (df : DataFrame ops) (n : ℕ)
      → IsPollable ops df
      → IsByte df.slave
      → messenger.ask_at_least w df.data_frame df.response_data_frame 6 ≡ record {
        world = w';
        response =
            serial_response df.slave df.function_code
              (registers memory df.start_address df.max_data_size);
        result = ok n;
      }
      → (variables : List (Variable ops)) × ((message ops messenger (checks_of rtu) w df).sent
          ≡ some (record { err = []; variable_slice = variables }))
        × ((message ops messenger (checks_of rtu) w df).world ≡ w')
        × IsFrom ops memory df variables
  message_serial memory w w' df n (reads, small, placed) slave answers =
      let payload : List ℕ = registers memory df.start_address df.max_data_size in
      let len : length payload ≤ 250 =
        omega (arith, length-registers memory df.start_address df.max_data_size) in
      let answered : DataFrame ops = record df {
        response_data_frame = serial_response df.slave df.function_code payload;
      } in
      let valid =
        validate-serial_response ops answered df.function_code payload
          (registers-IsByte memory df.start_address df.max_data_size) slave len reads refl in
      let sum : ℕ = crc_of (df.slave ∷ df.function_code ∷ length payload ∷ payload) in
      let (out, parsed, values, names) =
        values_from_memory ops df.function_code df.memory_layout memory df.start_address
          df.max_data_size (sum % 256 ∷ sum / 256 ∷ []) df.variables reads placed in
      let sent =
        first_try (checks_of rtu) w w' df df answered (record answered { variables = out.0 }) _ _ n
          out.1 (unfold number_frame checks_of in refl) answers valid
          (values_stored answered _ out parsed) in
      (out.1, ap (λ m. m.sent) sent, ap (λ m. m.world) sent, (values, names))

  -- A device over TCP that answers the next transaction with the registers that are asked for:
  -- message hands on, after one request and without an error, the values that the device's memory
  -- holds for the variables of the frame, in their order and with their names. The frame reads at
  -- most 123 registers, its variables lie in them, and its request has a transaction id.
  pub message_tcp :
      (memory : ℕ → ℕ) (w w' : W) (df : DataFrame ops) (a b : ℕ) (rest : List ℕ) (n : ℕ)
      → IsPollable ops df
      → df.data_frame ≡ a ∷ b ∷ rest
      → messenger.ask_at_least w
          (high_byte (next_id df) ∷ low_byte (next_id df) ∷ rest)
          df.response_data_frame
          6
        ≡ record {
          world = w';
          response =
              tcp_response
                (next_id df)
                df.slave
                df.function_code
                (registers memory df.start_address df.max_data_size);
          result = ok n;
        }
      → (variables : List (Variable ops)) × ((message ops messenger (checks_of tcp) w df).sent
          ≡ some (record { err = []; variable_slice = variables }))
        × ((message ops messenger (checks_of tcp) w df).world ≡ w')
        × IsFrom ops memory df variables
  message_tcp memory w w' df a b rest n (reads, small, placed) framed answers =
      let payload : List ℕ = registers memory df.start_address df.max_data_size in
      let numbered : DataFrame ops = record df {
        transaction_id = next_id df;
        data_frame = high_byte (next_id df) ∷ low_byte (next_id df) ∷ rest;
      } in
      let answered : DataFrame ops = record numbered {
        response_data_frame = tcp_response (next_id df) df.slave df.function_code payload;
      } in
      let valid =
        validate-tcp_response ops answered df.function_code payload (omega arith) reads refl in
      let (out, parsed, values, names) =
        values_from_memory ops df.function_code df.memory_layout memory df.start_address
          df.max_data_size [] df.variables reads placed in
      let sent =
        first_try (checks_of tcp) w w' df numbered answered (record answered { variables = out.0 })
          _ _ n out.1 (numbered_frame df a b rest framed) answers valid
          (values_stored answered payload out (rw (append-nil payload) at parsed)) in
      (out.1, ap (λ m. m.sent) sent, ap (λ m. m.world) sent, (values, names))
