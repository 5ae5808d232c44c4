-- ===== src/Tests/S7Connect.antt =====
-- pkg/protocol/s7: connections, a broker and a write, at concrete inputs.
use harns_gateway.Prelude.{ℕ, ◌+◌, ◌-◌, ◌≡◌, refl, List, [], ◌∷◌, true, false, some, All}
use harns_gateway.Tests.Floats.{bit_floats}
use harns_gateway.Tests.S7.{speed, speed_place, speed_at, speed_planned, speed_frame}
use harns_gateway.Binutil.Encode.{uint16_to_bytes_big_endian}
use harns_gateway.Constant.{DataType}
use harns_gateway.Modbus.Types.{of_bool, of_int16}
use harns_gateway.Modbus.Decode.{is_scaled}
use harns_gateway.Prelude.Int.{pos}
use harns_gateway.S7.Types.{Area, Variable, ok}
use harns_gateway.S7.Address.{zone, has_prefix}
use harns_gateway.S7.Request.{ParameterData}
use harns_gateway.S7.Action.{
  data_byte, parameter_data, transport_size, generate_from, generate_action_parameter_data_item,
}
use harns_gateway.S7.Action.Transport.{IsOfBits, written_bits}
use harns_gateway.S7.Connect.{Network, new_s7_messenger, get_s7_device_pdu_length}
use harns_gateway.S7.Connect.Balance.{handshakes_leave}
use harns_gateway.S7.Broker.{
  Device, Broker, add_variable, group_variables, frame_map, frame_count, assembled, broker_of,
  s7_device, new_broker,
}
use harns_gateway.S7.Broker.Frames.{polled, new_broker-perm}
use mathlib.Core.List.{Perm}
use mathlib.Core.List.Perm

-- A network whose devices accept connections and answer nothing; the world counts those that are
-- open.
abbrev silent : Network ℕ
silent = record {
  dial = λ w. (w + 1, some 7);
  write = λ t w message. (w, true);
  read_at_least = λ t w len min. (w, [], false);
  close = λ t w. w - 1;
}

handshakes_leave_example :
    ((new_s7_messenger silent 0 1 4).0 ≡ 4 + 1) × ((get_s7_device_pdu_length silent 0 1 4).0 ≡ 4)
handshakes_leave_example =
    handshakes_leave silent (λ w. w)
      (record {
        dialling = λ w. refl;
        writing = λ t w message. refl;
        reading = λ t w len min. refl;
        closing = λ t w. refl;
      })
      0 1 4

abbrev press : Device bit_floats
press = record { collector_cycle = 5; rack = 0; slot = 1; variables = speed ∷ [] }

abbrev press_broker : Broker bit_floats
press_broker = record {
  device = press;
  store_address_data_frame_map = (Area.db, speed_frame ∷ []) ∷ [];
  variable_count = 1;
}

press_started :
    new_broker bit_floats (λ vs. vs) (λ d. ok 240) (λ n. true) (s7_device press) ≡ ok press_broker
unfolding new_broker broker_of group_variables add_variable frame_map frame_count assembled zone
    has_prefix
press_started = rw speed_planned refl

new_broker-perm_example :
    Perm (polled bit_floats press_broker.store_address_data_frame_map) (speed ∷ [])
new_broker-perm_example =
    new_broker-perm bit_floats (λ vs. vs) (λ vs. Perm.rfl) (λ d. ok 240) (λ n. true) press
      press_broker press_started

-- A Boolean and a number in one request.
abbrev switch_on : Variable bit_floats
switch_on = record speed { data_type = DataType.bool; value = of_bool true }

abbrev speed_up : Variable bit_floats
speed_up = record speed { value = of_int16 (pos 7) }

abbrev both_items : List ParameterData
both_items =
    parameter_data bit_floats switch_on 1 speed_place (0 ∷ 1 ∷ [])
    ∷ parameter_data bit_floats speed_up 1 speed_place (0 ∷ 7 ∷ [])
    ∷ []

both_generated :
    generate_action_parameter_data_item bit_floats (switch_on ∷ speed_up ∷ []) ≡ some both_items
unfolding generate_action_parameter_data_item generate_from data_byte transport_size is_scaled
    uint16_to_bytes_big_endian
both_generated = rw speed_at refl

written_bits_example : All IsOfBits both_items
written_bits_example =
    written_bits bit_floats switch_on (speed_up ∷ []) both_items refl both_generated
