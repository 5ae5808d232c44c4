-- ===== src/Tests/Message.antt =====
-- One poll of pkg/protocol/modbus over concrete connections, whose world is the count of requests or
-- the pieces that a port still has.
use harns_gateway.Prelude.{ℕ, suc, ◌+◌, ◌*◌, ◌≤◌, ◌≡◌, refl, arith, List, [], ◌∷◌, true, some}
use harns_gateway.Tests.Floats.{bit_floats, word64}
use harns_gateway.Constant.{DataType, abcd, data_type_word, read_only}
use harns_gateway.Binutil.Parse.{parse_uint16}
use harns_gateway.Binutil.Write.{write_uint16_big_endian}
use harns_gateway.Binutil.Bools.{dup}
use harns_gateway.Modbus.Types.{
  Variable, VariableParse, DataFrame, ok, err, modbus_bad_conn, nil, tcp, rtu, slice_from,
}
use harns_gateway.Modbus.Messenger.{Asked, Messenger, Port, serial_ask_at_least}
use harns_gateway.Modbus.Messenger.Serial.{serial_ask_at_least_ends}
use harns_gateway.Modbus.Messenger.Collect.{last, more, serial_ask_at_least_collects}
use harns_gateway.Modbus.Response.{
  checks_of, write_transaction_id, validate_and_extract_message, check_transaction, check_length,
  extract,
}
use harns_gateway.Modbus.Response.Accepts.{serial_response, tcp_response}
use harns_gateway.Modbus.Decode.Memory.{registers}
use harns_gateway.Modbus.Message.{
  message, retry, try_once, number_frame, ask_numbered, ask, after_try, try_result,
}
use harns_gateway.Modbus.Message.Retry.{IsAnswer, retry-IsValidated, message_count}
use harns_gateway.Modbus.Message.Memory.{IsFrom, message_serial, message_tcp}

abbrev pieces_port : Port (List (List ℕ))
pieces_port = record {
  write = λ w request. (w, true);
  set_read_timeout = λ w timeout. (w, true);
  read = λ w size. elim w [ [] ↦ ([], some []) | piece ∷ pieces ↦ (pieces, some piece) ];
}

abbrev two_pieces : List (List ℕ)
two_pieces = (1 ∷ 3 ∷ []) ∷ (2 ∷ []) ∷ []

serial_ask_at_least_ends_example :
    (asked : Asked (List (List ℕ))) × (serial_ask_at_least pieces_port 3 two_pieces
        (1 ∷ [])
        (0 ∷ 0 ∷ [])
        6
      ≡ some asked)
serial_ask_at_least_ends_example =
    serial_ask_at_least_ends pieces_port 3 two_pieces (1 ∷ []) (0 ∷ 0 ∷ []) 6

serial_ask_at_least_collects_example :
    serial_ask_at_least pieces_port 3 two_pieces (1 ∷ []) (0 ∷ 0 ∷ 0 ∷ []) 6
    ≡ some (record { world = []; response = 1 ∷ 3 ∷ 2 ∷ []; result = ok 3 })
serial_ask_at_least_collects_example =
    serial_ask_at_least_collects pieces_port 3 two_pieces (1 ∷ []) (0 ∷ 0 ∷ 0 ∷ []) 6 two_pieces
      two_pieces [] two_pieces refl refl
      (more two_pieces 1 (3 ∷ []) ((2 ∷ []) ∷ []) ((2 ∷ []) ∷ []) [] refl
        (last ((2 ∷ []) ∷ []) 2 [] [] refl))
      refl

abbrev answering : List ℕ → Messenger ℕ
answering response = record {
  ask_at_least = λ w request old min. record { world = suc w; response = response; result = ok 6 };
  close = λ w. w;
  renew = λ w. (w, ok tt);
}

abbrev failing : Messenger ℕ
failing = record {
  ask_at_least =
      λ w request old min. record { world = w + 1; response = old; result = err modbus_bad_conn };
  close = λ w. w;
  renew = λ w. (w, ok tt);
}

abbrev level : VariableParse bit_floats
level = record {
  variable = record {
    data_type = DataType.int16;
    name = "level";
    address = 10;
    bits = 0;
    function_code = 3;
    rate = word64 1;
    amount = 1;
    default_value = nil;
    value = nil;
    access_mode = read_only;
  };
  start = 0;
}

abbrev level_frame : DataFrame bit_floats
level_frame = record {
  slave = 1;
  memory_layout = abcd;
  start_address = 10;
  function_code = 3;
  max_data_size = 1;
  transaction_id = 6;
  data_frame = 0 ∷ 6 ∷ 0 ∷ 0 ∷ 0 ∷ 6 ∷ 1 ∷ 3 ∷ 0 ∷ 10 ∷ 0 ∷ 1 ∷ [];
  response_data_frame = [];
  variables = level ∷ [];
}

level_ends : 0 + 2 * data_type_word DataType.int16 ≤ 2 * 1
unfolding data_type_word
level_ends = omega arith

abbrev constant_memory : ℕ → ℕ
constant_memory address = 0x1234

message_count_example : (message bit_floats failing (checks_of tcp) 0 level_frame).world ≤ 0 + 3
message_count_example =
    message_count bit_floats failing (checks_of tcp) (λ w. w)
      (record {
        asking = λ w request response min. omega arith;
        closing = λ w. omega arith;
        renewing = λ w. omega arith;
      })
      0 level_frame

abbrev device_response : List ℕ
device_response = tcp_response 7 1 3 (0x12 ∷ 0x34 ∷ [])

level_read :
    (retry bit_floats (answering device_response) (checks_of tcp) 3 0 level_frame).result
    ≡ ok (0x12 ∷ 0x34 ∷ [])
unfolding retry try_once number_frame ask_numbered ask after_try try_result checks_of
    write_transaction_id validate_and_extract_message check_transaction check_length extract
    slice_from dup parse_uint16 write_uint16_big_endian
level_read = refl

retry-IsValidated_example :
    (validate_and_extract_message bit_floats
        (checks_of tcp)
        ((retry bit_floats (answering device_response) (checks_of tcp) 3 0 level_frame).frame)
      ≡ ok (0x12 ∷ 0x34 ∷ []))
    × IsAnswer bit_floats
        (answering device_response)
        (checks_of tcp)
        ((retry bit_floats (answering device_response) (checks_of tcp) 3 0 level_frame).frame)
retry-IsValidated_example =
    retry-IsValidated bit_floats (answering device_response) (checks_of tcp) 3 0 level_frame
      (0x12 ∷ 0x34 ∷ []) level_read

abbrev tcp_device : Messenger ℕ
tcp_device = answering (tcp_response 7 1 3 (registers constant_memory 10 1))

message_tcp_example :
    (variables : List (Variable bit_floats)) × ((message bit_floats tcp_device
        (checks_of tcp)
        0
        level_frame).sent
      ≡ some (record { err = []; variable_slice = variables }))
    × ((message bit_floats tcp_device (checks_of tcp) 0 level_frame).world ≡ 1)
    × IsFrom bit_floats constant_memory level_frame variables
message_tcp_example =
    message_tcp bit_floats tcp_device constant_memory 0 1 level_frame 0 6
      (0 ∷ 0 ∷ 0 ∷ 6 ∷ 1 ∷ 3 ∷ 0 ∷ 10 ∷ 0 ∷ 1 ∷ []) 6
      (refl, omega arith, ((omega arith, level_ends), tt)) refl refl

abbrev serial_device : Messenger ℕ
serial_device = answering (serial_response 1 3 (registers constant_memory 10 1))

message_serial_example :
    (variables : List (Variable bit_floats)) × ((message bit_floats serial_device
        (checks_of rtu)
        0
        level_frame).sent
      ≡ some (record { err = []; variable_slice = variables }))
    × ((message bit_floats serial_device (checks_of rtu) 0 level_frame).world ≡ 1)
    × IsFrom bit_floats constant_memory level_frame variables
message_serial_example =
    message_serial bit_floats serial_device constant_memory 0 1 level_frame 6
      (refl, omega arith, ((omega arith, level_ends), tt)) (omega arith) refl
