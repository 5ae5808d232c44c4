-- ===== src/Tests/S7.antt =====
-- pkg/protocol/s7 at concrete addresses, frames and devices.
use harns_gateway.Prelude.{
  ℕ, zero, suc, ◌+◌, ◌≤◌, ◌≡◌, refl, arith, List, [], ◌∷◌, ◌++◌, Option, some, none, All, Ends,
  get_elem?,
}
use harns_gateway.Tests.Floats.{bit_floats, word64}
use harns_gateway.Prelude.Int.{pos}
use harns_gateway.Constant.{DataType, read_only}
use harns_gateway.Modbus.Types.{nil, of_bool, of_int16, slice_from}
use harns_gateway.Modbus.Decode.{is_scaled}
use harns_gateway.Modbus.Action.RoundTrip.{IsValueOf}
use harns_gateway.Binutil.Parse.{parse_uint16_big_endian}
use harns_gateway.Binutil.Encode.{uint16_to_bytes_big_endian}
use harns_gateway.S7.Types.{
  Area, Variable, store_area_code, store_area_transport_size, data_request_length,
  data_response_length, Error, io_error, ok, err,
}
use harns_gateway.S7.Address.{
  has_prefix, index, last_index, parse_digits, parse_number, atoi, zone, shortening, split_place,
  cut_letters, parse_in_block, Place, parse_variable_address,
}
use harns_gateway.S7.Address.Forms.{parse-block_bit, short_form}
use harns_gateway.S7.Request.{
  new_s7comm_read_parameter_item, Item, VariableParse, DataFrame, new_s7_data_frame,
}
use harns_gateway.S7.Plan.{
  item_of, find, max_item_per_data_frame, join, flush, flush_full, pack, finish, plan,
}
use harns_gateway.S7.Plan.Bounds.{FitsPdu, plan-FitsPdu}
use harns_gateway.S7.Response.{
  parse_variable_value, parse_variable_values, parse_value, parse_switch, parse_data,
}
use harns_gateway.S7.Response.Data.{Header}
use harns_gateway.S7.Response.Accepts.{answer_head}
use harns_gateway.S7.Response.Scaled.{scaled_panics}
use harns_gateway.S7.Message.{Messenger, message}
use harns_gateway.S7.Message.Ends.{Breaks, message_never, message-Ends}
use harns_gateway.S7.Message.Answered.{message_answered}
use harns_gateway.S7.Action.{data_byte}
use harns_gateway.S7.Action.RoundTrip.{data_byte-parse_data}

-- "DB7.DBX29.5"
parse-block_bit_example :
    parse_variable_address
      (b'D' ∷ b'B' ∷ b'7' ∷ b'.' ∷ b'D' ∷ b'B' ∷ b'X' ∷ b'2' ∷ b'9' ∷ b'.' ∷ b'5' ∷ [])
    ≡ some (record { area = Area.db; area_size = 7; address = 29; bit = 5 })
parse-block_bit_example =
    parse-block_bit (b'7' ∷ []) (b'2' ∷ b'9' ∷ []) (b'5' ∷ []) b'X' (omega arith) (omega arith)
      (omega arith)

-- "DB1.B22"
short_form_example :
    parse_variable_address (b'D' ∷ b'B' ∷ b'1' ∷ b'.' ∷ b'B' ∷ b'2' ∷ b'2' ∷ [])
    ≡ some (record { area = Area.db; area_size = 1; address = 0; bit = 0 })
short_form_example = short_form (b'1' ∷ []) [] b'2' b'2' (omega arith) (omega arith) (omega arith)

-- "DB1.DBW4"
abbrev pub speed : Variable bit_floats
speed = record {
  data_type = DataType.int16;
  name = "speed";
  address = b'D' ∷ b'B' ∷ b'1' ∷ b'.' ∷ b'D' ∷ b'B' ∷ b'W' ∷ b'4' ∷ [];
  rate = word64 1;
  default_value = nil;
  value = nil;
  access_mode = read_only;
}

abbrev pub speed_place : Place
speed_place = record { area = Area.db; area_size = 1; address = 4; bit = 0 }

pub speed_at : parse_variable_address speed.address ≡ some speed_place
unfolding parse_variable_address zone has_prefix parse_in_block index cut_letters shortening
    slice_from split_place last_index atoi parse_number parse_digits
    harns_gateway.Modbus.Types.slice
speed_at = refl

abbrev speed_item : List ℕ
speed_item = 0x12 ∷ 0x0A ∷ 0x10 ∷ 4 ∷ 0 ∷ 1 ∷ 0 ∷ 1 ∷ 132 ∷ 0 ∷ 0 ∷ 32 ∷ []

speed_request : item_of Area.db DataType.int16 speed_place ≡ speed_item
unfolding new_s7comm_read_parameter_item uint16_to_bytes_big_endian store_area_transport_size
    data_request_length store_area_code
speed_request = refl

abbrev speed_parse : VariableParse bit_floats
speed_parse = record {
  variable = speed;
  start_address = 0;
  bit_address_or_length = 0;
  block_size = 1;
}

abbrev speed_items : List Item
speed_items =
    record { request_data = item_of Area.db DataType.int16 speed_place; start_address = 0 } ∷ []

abbrev pub speed_frame : DataFrame bit_floats
speed_frame = new_s7_data_frame bit_floats Area.db (speed_parse ∷ []) speed_items 6 240

pub speed_planned : plan bit_floats Area.db 240 (speed ∷ []) ≡ some (speed_frame ∷ [])
unfolding plan pack join find flush_full max_item_per_data_frame flush finish data_response_length
speed_planned = rw speed_at refl

plan-FitsPdu_example : All (FitsPdu bit_floats 240) (speed_frame ∷ [])
plan-FitsPdu_example =
    plan-FitsPdu bit_floats Area.db 240 (speed ∷ []) (speed_frame ∷ []) (omega arith) (omega arith)
      (omega arith) speed_planned

-- A device whose bytes are their own addresses.
abbrev counting : ℕ → ℕ → ℕ → ℕ
counting area block byte = byte

abbrev plain_header : List ℕ → Header
plain_header request = record { return_code = 255; unit = 4; high = 0; low = 16 }

-- A connection that answers with the same bytes, and one that breaks.
abbrev answering : List ℕ → Messenger ℕ
answering response = record {
  ask_at_least = λ w request old min. record { world = suc w; response = response; result = ok 27 };
  close = λ w. w;
  renew = λ w. (w, ok tt);
}

abbrev breaking : Messenger ℕ
breaking = record {
  ask_at_least = λ w request old min. record { world = w; response = old; result = err io_error };
  close = λ w. w;
  renew = λ w. (w, ok tt);
}

message_never_example : message bit_floats breaking 100 0 speed_frame ≡ none
message_never_example =
    message_never bit_floats breaking
      (record { asking = λ w request response min. (io_error, refl); renewing = λ w. refl }) 100 0
      speed_frame

-- A connection that breaks as often as the world says, and then answers with nothing.
abbrev failing_twice : Messenger ℕ
failing_twice = record {
  ask_at_least = λ w request old min. elim w [
    | zero ↦ record { world = 0; response = old; result = ok 27 }
    | suc left ↦ record { world = left; response = old; result = err io_error }
  ];
  close = λ w. w;
  renew = λ w. (w, ok tt);
}

fewer_left : Breaks bit_floats failing_twice (λ w. w)
fewer_left = record {
  failing = one_fewer;
  asking = none_more;
  closing = λ w. omega arith;
  renewing = λ w. omega arith;
}
  where
    one_fewer :
        (w : ℕ) (request response : List ℕ) (min : ℕ) (e : Error)
        → (failing_twice.ask_at_least w request response min).result ≡ err e
        → (failing_twice.ask_at_least w request response min).world + 1 ≤ w
    one_fewer zero request response min e h = cc
    one_fewer (suc left) request response min e h = omega arith

    none_more :
        (w : ℕ) (request response : List ℕ) (min : ℕ)
        → (failing_twice.ask_at_least w request response min).world ≤ w
    none_more zero request response min = omega arith
    none_more (suc left) request response min = omega arith

message-Ends_example : Ends (message bit_floats failing_twice 5 2 speed_frame)
message-Ends_example =
    message-Ends bit_floats failing_twice (λ w. w) fewer_left 5 2 speed_frame (omega arith)

abbrev or_zero : Option ℕ → ℕ
or_zero none = 0
or_zero (some byte) = byte

-- The first bytes of the answer.
abbrev plain_head : ℕ → ℕ
plain_head k =
    or_zero (get_elem? (3 ∷ 0 ∷ 0 ∷ 27 ∷ 2 ∷ 240 ∷ 128 ∷ 50 ∷ 3 ∷ 0 ∷ 0 ∷ 0 ∷ 1 ∷ 0 ∷ 2 ∷ []) k)

abbrev speed_answer : List ℕ
speed_answer = answer_head plain_head 6 0 0 ++ (255 ∷ 4 ∷ 0 ∷ 16 ∷ 1 ∷ 2 ∷ [])

abbrev speed_answered : DataFrame bit_floats
speed_answered = record speed_frame { response_data_frame = speed_answer }

abbrev measured : Variable bit_floats
measured = record speed { value = of_int16 (pos 258) }

speed_measured :
    parse_variable_value bit_floats speed_answered (255 ∷ 4 ∷ 0 ∷ 16 ∷ 1 ∷ 2 ∷ [])
    ≡ some (
      record speed_answered { variables = record speed_parse { variable = measured } ∷ [] },
      measured ∷ [],
    )
unfolding parse_variable_value parse_variable_values parse_value parse_switch parse_data slice_from
    parse_uint16_big_endian is_scaled new_s7_data_frame
speed_measured = refl

message_answered_example :
    message bit_floats (answering (speed_answer ++ [])) 1 0 speed_frame
    ≡ some (record {
      world = 1;
      frame = record speed_answered { variables = record speed_parse { variable = measured } ∷ [] };
      sent = some (record { err = []; variable_slice = measured ∷ [] });
    })
unfolding new_s7_data_frame
message_answered_example =
    message_answered bit_floats (answering (speed_answer ++ [])) 0 0 1 speed_frame
      (record speed_answered { variables = record speed_parse { variable = measured } ∷ [] })
      plain_head (255 ∷ 4 ∷ 0 ∷ 16 ∷ 1 ∷ 2 ∷ []) [] (measured ∷ []) (omega arith) refl refl
      speed_measured

-- The same variable at a rate of two.
abbrev scaled_parse : VariableParse bit_floats
scaled_parse = record speed_parse { variable = record speed { rate = word64 2 } }

scaled_panics_example :
    parse_variable_value bit_floats
      (record speed_frame { variables = speed_parse ∷ scaled_parse ∷ [] })
      speed_answer
    ≡ none
unfolding is_scaled
scaled_panics_example =
    scaled_panics bit_floats (record speed_frame { variables = speed_parse ∷ scaled_parse ∷ [] })
      speed_answer (speed_parse ∷ []) scaled_parse [] refl tt refl

data_byte-parse_data_example :
    (bytes : List ℕ) × (data_byte bit_floats DataType.int16 (word64 1) (of_int16 (pos 258))
      ≡ some bytes)
    × (parse_data bit_floats DataType.int16 (word64 1) (bytes ++ (7 ∷ []))
        ≡ some (of_int16 (pos 258)))
unfolding is_scaled
data_byte-parse_data_example =
    data_byte-parse_data bit_floats DataType.int16 (word64 1) (of_int16 (pos 258)) (7 ∷ [])
      (IsValueOf.an_int16 (pos 258) (omega arith)) refl
