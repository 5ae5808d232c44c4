-- ===== src/Tests/Modbus.antt =====
-- pkg/protocol/modbus at concrete devices.
use harns_gateway.Prelude.{ℕ, ◌+◌, ◌<◌, get_elem?, ◌≡◌, refl, arith, List, [], ◌∷◌, ◌++◌, some, All}
use harns_gateway.Prelude.{drop}
use harns_gateway.Prelude.Int.{negsuc}
use harns_gateway.Modbus.Decode.{is_scaled, parse_registers}
use harns_gateway.Modbus.Action.{register_action}
use harns_gateway.Modbus.Action.RoundTrip.{an_int32, register_action-parse_registers}
use harns_gateway.Modbus.Broker.{Device, requests_for, frames_of}
use harns_gateway.Modbus.Broker.Frames.{IsFor, carried, frames-IsPollable}
use harns_gateway.Modbus.Message.Memory.{IsPollable}
use harns_gateway.Tests.Floats.{bit_floats, word64}
use harns_gateway.Constant.{DataType, data_type_word, abcd, cdab, read_only}
use harns_gateway.Crc.Reference.{crc16}
use harns_gateway.Modbus.Types.{Variable, DataFrame, nil, of_int32, ok, tcp}
use harns_gateway.Modbus.Layout.{parse64, bytes64}
use harns_gateway.Modbus.Layout.RoundTrip.{parse64-bytes64}
use harns_gateway.Modbus.Request.{rtu_message}
use harns_gateway.Modbus.Request.Shape.{rtu_message_lem, rtu_message_residue, with_crc, rtu_body}
use harns_gateway.Modbus.Plan.{
  of_registers, Request, plan, pack, packing_start, data_length_from, fits, place, flush, finish,
}
use harns_gateway.Modbus.Plan.Coverage.{requested-plan, plan_ends, requested, variables_of}
use harns_gateway.Modbus.Plan.Bounds.{plan-IsFitting, IsFitting, IsOrdered}
use harns_gateway.Modbus.Plan.Overlap.{IsInReach, plan_overlap}

parse64-bytes64_example :
    parse64 cdab (bytes64 cdab 0x123456789ABCDEF0 ++ []) ≡ some 0x123456789ABCDEF0
parse64-bytes64_example = parse64-bytes64 cdab 0x123456789ABCDEF0 [] (omega arith)

rtu_message_lem_example : rtu_message 1 3 0 10 ≡ some (with_crc (rtu_body 1 3 0 10))
rtu_message_lem_example = rtu_message_lem 1 3 0 10 (omega arith)

rtu_message_residue_example :
    (message : List ℕ) × (rtu_message 1 3 0 10 ≡ some message) × (crc16 message 0xFFFF ≡ 0)
rtu_message_residue_example = rtu_message_residue 1 3 0 10 (omega arith)

abbrev variable_at : ℕ → DataType → Variable bit_floats
variable_at address t = record {
  data_type = t;
  name = "level";
  address = address;
  bits = 0;
  function_code = 3;
  rate = word64 1;
  amount = 1;
  default_value = nil;
  value = nil;
  access_mode = read_only;
}

abbrev frame_with : ℕ → List ℕ → DataFrame bit_floats
frame_with id response = record {
  slave = 1;
  memory_layout = abcd;
  start_address = 0;
  function_code = 3;
  max_data_size = 1;
  transaction_id = id;
  data_frame = [];
  response_data_frame = response;
  variables = [];
}

abbrev two_variables : List (Variable bit_floats)
two_variables = variable_at 10 DataType.int32 ∷ variable_at 200 DataType.int16 ∷ []

abbrev two_requests : List (Request bit_floats)
two_requests =
    record {
      start_address = 10;
      max_data_size = 2;
      variables = record { variable = variable_at 10 DataType.int32; start = 0 } ∷ [];
    }
    ∷ record {
      start_address = 200;
      max_data_size = 1;
      variables = record { variable = variable_at 200 DataType.int16; start = 0 } ∷ [];
    }
    ∷ []

two_plan : plan bit_floats of_registers 0 two_variables ≡ some two_requests
unfolding plan pack packing_start data_length_from fits place flush finish data_type_word
two_plan = refl

requested-plan_example : requested bit_floats two_requests ≡ two_variables
requested-plan_example =
    requested-plan bit_floats of_registers 0 two_variables two_requests two_plan

plan_ends_example :
    (rs : List (Request bit_floats)) × (plan bit_floats of_registers 0 two_variables ≡ some rs)
plan_ends_example = plan_ends bit_floats of_registers 0 two_variables (omega arith)

two-IsOrdered : IsOrdered bit_floats of_registers two_variables
unfolding data_type_word
two-IsOrdered = omega arith

plan-IsFitting_example : All (IsFitting bit_floats of_registers) two_requests
plan-IsFitting_example =
    plan-IsFitting bit_floats of_registers 0 (variable_at 10 DataType.int32)
      (variable_at 200 DataType.int16 ∷ []) (omega arith) (omega arith) two-IsOrdered two_requests
      two_plan

ends_first : 11 + data_type_word DataType.int16 < 10 + data_type_word DataType.int64
unfolding data_type_word
ends_first = omega arith

-- Eight bytes at 10, with two at 11 behind it, from a device with a position of 3.
abbrev overlapping : List (Variable bit_floats)
overlapping = variable_at 10 DataType.int64 ∷ variable_at 11 DataType.int16 ∷ []

overlapping-IsInReach : All (IsInReach bit_floats 7) overlapping
unfolding data_type_word
overlapping-IsInReach = omega arith

plan_overlap_example :
    (r : Request bit_floats) × (plan bit_floats of_registers 3 overlapping ≡ some (r ∷ []))
    × (variables_of bit_floats r.variables ≡ overlapping)
    × (get_elem? (variables_of bit_floats r.variables) 0 ≡ some (variable_at 10 DataType.int64))
    × (r.start_address + r.max_data_size < 10 + data_type_word DataType.int64)
plan_overlap_example =
    plan_overlap bit_floats 3 0 (variable_at 10 DataType.int64) (variable_at 10 DataType.int64)
      (variable_at 11 DataType.int16) [] (omega arith) (omega arith) overlapping-IsInReach refl
      ends_first

register_action-parse_registers_example :
    (code : ℕ) × (body : List ℕ) × (register_action bit_floats cdab DataType.int32
        (word64 1)
        (of_int32 (negsuc 4))
      ≡ some (code, body))
    × (parse_registers bit_floats cdab DataType.int32 0 (word64 1) (drop 3 body)
        ≡ some (of_int32 (negsuc 4)))
register_action-parse_registers_example =
    register_action-parse_registers bit_floats cdab DataType.int32 0 (word64 1)
      (of_int32 (negsuc 4)) (an_int32 (negsuc 4) (omega arith)) (unfold is_scaled in refl)

abbrev tank : Device bit_floats
tank = record {
  device_model = tcp;
  collector_cycle = 5;
  slave = 1;
  memory_layout = abcd;
  position_address = 0;
  variables = two_variables;
}

frames-IsPollable_example :
    (rs : List (Request bit_floats)) × (dfs : List (DataFrame bit_floats)) × (requests_for
        bit_floats 0 3 two_variables
      ≡ some rs)
    × (frames_of bit_floats tank 3 rs ≡ ok dfs)
    × All (IsPollable bit_floats) dfs
    × All (IsFor bit_floats tank 3) dfs
    × (carried bit_floats dfs ≡ two_variables)
frames-IsPollable_example =
    frames-IsPollable bit_floats tank 3 (variable_at 10 DataType.int32)
      (variable_at 200 DataType.int16 ∷ []) (omega arith) refl (omega arith) two-IsOrdered
      (omega arith)
