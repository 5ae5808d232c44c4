-- ===== src/S7/Connect.antt =====
-- The connections of pkg/protocol/s7/model/s71500.go: `newS7Messenger`, `GetS7DevicePDULength` and
-- `NewClients`. `W` is the state of the world outside.
pub mod Balance
use harns_gateway.Prelude.{
  ℕ, ◌+◌, ◌*◌, ◌/◌, ◌%◌, ◌^◌, List, [], ◌∷◌, Option, Bool, none, some, ◌==◌, get_elem?, replicate,
  if◌then◌else◌,
}
use harns_gateway.Binutil.Parse.{parse_uint16}
use harns_gateway.Modbus.Types.{slice_from}
use harns_gateway.Modbus.Messenger.{overwrite}
use harns_gateway.Modbus.Clients.{Clients, dial_all, pooled}
use harns_gateway.S7.Types.{
  connect_s7_device_cotp_message, connect_s7_device_s7comm_message, io_error, Result, ok, err,
  panic, or_panic,
}

-- What the handshake calls of the package net: connections have numbers. A dial, a write and a
-- read with a buffer of a length succeed or not; a read gives the bytes that came.
pub record Network (W : Type 0) : Type 0 where
  pub dial : W → W × Option ℕ
  pub write : ℕ → W → List ℕ → W × Bool
  pub read_at_least : ℕ → W → ℕ → ℕ → W × List ℕ × Bool
  pub close : ℕ → W → W

-- `newCOTPConnectMessage`: the rack and the slot are one byte.
unfoldable pub new_cotp_connect_message : ℕ → ℕ → List ℕ
new_cotp_connect_message rack slot =
    let rack_slot_byte = (rack * 2 % 256 * 16 % 256 + slot) % 256 in
    0x03 ∷ 0x00 ∷ 0x00 ∷ 0x16 ∷ 0x11 ∷ 0xE0 ∷ 0x00 ∷ 0x00 ∷ 0x00 ∷ 0x01 ∷ 0x00 ∷ 0xC0 ∷ 0x01 ∷ 0x0A
    ∷ 0xC1 ∷ 0x02 ∷ 0x01 ∷ 0x00 ∷ 0xC2 ∷ 0x02 ∷ 0x01 ∷ rack_slot_byte ∷ []

-- `newS7COMMSetupMessage`
unfoldable pub new_s7comm_setup_message : List ℕ
new_s7comm_setup_message =
    0x03 ∷ 0x00 ∷ 0x00 ∷ 0x19 ∷ 0x02 ∷ 0xF0 ∷ 0x80 ∷ 0x32 ∷ 0x01 ∷ 0x00 ∷ 0x00 ∷ 0x04 ∷ 0x00 ∷ 0x00
    ∷ 0x08 ∷ 0x00 ∷ 0x00 ∷ 0xF0 ∷ 0x00 ∷ 0x00 ∷ 0x01 ∷ 0x00 ∷ 0x01 ∷ 0x01 ∷ 0xE0 ∷ []

-- A result, and the world after it.
abbrev pub Run : Type 0 → Type 0 → Type 0
Run W A = W × Result A

infixl 5 ◌then◌
unfoldable pub ◌then◌ : {W A B : Type 0} → Run W A → (W → A → Run W B) → Run W B
(w, ok a) then next = next w a
(w, err e) then next = (w, err e)
(w, panic) then next = (w, panic)

module _ {W : Type 0} (network : Network W) where
  -- A message is written, and a buffer of a length is filled with the answer.
  abbrev pub filled : ℕ → W × List ℕ × Bool → Run W (List ℕ)
  filled len (w, bytes, whole) =
      (w, if whole then ok (overwrite (replicate len 0) 0 bytes) else err io_error)

  unfoldable pub exchange : ℕ → List ℕ → ℕ → W → Run W (List ℕ)
  exchange tunnel message len w =
      let wrote = network.write tunnel w message in
      if wrote.1
      then filled len (network.read_at_least tunnel wrote.0 len len)
      else (wrote.0, err io_error)

  -- `int(cotpResponse[5]) != 208`
  unfoldable pub check_cotp : List ℕ → Result (Unit {0})
  check_cotp cotp_response = elim (get_elem? cotp_response 5) [
    | none ↦ panic
    | some kind ↦ if kind == 208 then ok tt else err connect_s7_device_cotp_message
  ]

  -- `s7Response[8] != 3`
  unfoldable pub check_setup : List ℕ → Result (Unit {0})
  check_setup s7_response = elim (get_elem? s7_response 8) [
    | none ↦ panic
    | some kind ↦ if kind == 3 then ok tt else err connect_s7_device_s7comm_message
  ]

  -- The two exchanges on a connection, which give the answer to the second.
  unfoldable pub handshake : ℕ → ℕ → ℕ → W → Run W (List ℕ)
  handshake rack slot tunnel w =
      exchange tunnel (new_cotp_connect_message rack slot) 22 w then λ w cotp_response.
      (w, check_cotp cotp_response) then λ w u.
      exchange tunnel new_s7comm_setup_message 27 w then λ w s7_response.
      (w, check_setup s7_response) then λ w u. (w, ok s7_response)

  abbrev pub dialled : W × Option ℕ → Run W ℕ
  dialled (w, none) = (w, err io_error)
  dialled (w, some tunnel) = (w, ok tunnel)

  -- `newS7Messenger`, whose messenger is the connection.
  unfoldable pub new_s7_messenger : ℕ → ℕ → W → Run W ℕ
  new_s7_messenger rack slot w = dialled (network.dial w) then λ w tunnel.
      handshake rack slot tunnel w then λ w s7_response. (w, ok tunnel)

  -- The last two bytes of the second answer.
  unfoldable pub pdu_length : List ℕ → Result ℕ
  pdu_length s7_response = elim (slice_from 25 s7_response) [
    | none ↦ panic
    | some response_pdu_length ↦ or_panic (parse_uint16 response_pdu_length)
  ]

  -- The deferred `tunnel.Close()`.
  abbrev pub closed : {A : Type 0} → ℕ → Run W A → Run W A
  closed tunnel (w, result) = (network.close tunnel w, result)

  unfoldable pub get_s7_device_pdu_length : ℕ → ℕ → W → Run W ℕ
  get_s7_device_pdu_length rack slot w = dialled (network.dial w) then λ w tunnel.
      closed tunnel (handshake rack slot tunnel w then λ w s7_response. (w, pdu_length s7_response))

  abbrev pub as_dial : Run W ℕ → W × Option ℕ
  as_dial (w, ok tunnel) = (w, some tunnel)
  as_dial (w, _) = (w, none)

  -- `NewClients`: the loop and the pool are those of Modbus.
  unfoldable pub new_clients : ℕ → ℕ → ℕ → W → W × Option Clients
  new_clients rack slot data_frame_count w =
      let channel = data_frame_count / 5 + 1 in
      pooled (λ w. as_dial (new_s7_messenger rack slot w)) channel
        (dial_all (λ w. as_dial (new_s7_messenger rack slot w)) channel w)
