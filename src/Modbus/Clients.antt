-- ===== src/Modbus/Clients.antt =====
-- `Clients` of pkg/protocol/modbus/runtime/clients.go, the pool of connections that the data frames
-- of a device share, and `NewClients` of pkg/protocol/modbus/model. A messenger is a pointer: a
-- number here. Each function is the work that is done under the mutex at once.
pub mod System
pub mod Invariant
pub mod Start
pub mod Broken
use harns_gateway.Prelude.{
  ℕ, zero, suc, ◌+◌, ◌-◌, ◌/◌, ◌%◌, ◌^◌, List, [], ◌∷◌, ◌++◌, Option, Bool, true, false, not, ◌&&◌,
  none, some, ◌==◌, ltb, length, if◌then◌else◌,
}
use harns_gateway.Modbus.Types.{ModbusModel, tcp, rtu, rtu_over_tcp}

-- The keys of `ConnRequests` stand for the map; a channel is named by its key.
pub record Clients : Type 0 where
  pub messengers : List ℕ
  pub max : ℕ
  pub idle : ℕ
  pub conn_requests : List ℕ
  pub next_request : ℕ

-- What `GetMessenger` finds under the lock: a messenger, a channel to wait on, or a panic, when
-- `Front` is nil.
pub data Got : Type 0 where
  messenger : ℕ → Clients → Got
  waiting : ℕ → Clients → Got
  crash : Got

-- `nextRequestKey`: a uint64 that wraps.
unfoldable pub next_request_key : Clients → ℕ × Clients
next_request_key c = (c.next_request, record c { next_request = (c.next_request + 1) % 2 ^ 64 })

abbrev pub add_request : ℕ × Clients → Got
add_request (key, c) = waiting key (record c { conn_requests = c.conn_requests ++ (key ∷ []) })

abbrev pub take_front : Clients → List ℕ → Got
take_front c [] = crash
take_front c (m ∷ rest) = messenger m (record c { messengers = rest })

unfoldable pub get_messenger : Clients → Got
get_messenger c =
    if ltb 0 c.idle
    then take_front (record c { idle = c.idle - 1 }) c.messengers
    else add_request (next_request_key c)

-- `delete(t.ConnRequests, key)`
unfoldable pub remove : ℕ → List ℕ → List ℕ
remove key [] = []
remove key (k ∷ ks) = let rest = remove key ks in if k == key then rest else k ∷ rest

-- The test of `ReleaseMessenger`.
unfoldable pub hands_over : Clients → Bool
hands_over c = c.idle == 0 && ltb 0 (length c.conn_requests)

-- `ReleaseMessenger` when it hands over, to the channel of a key that the range over the map meets
-- first, and when it does not.
unfoldable pub hand_over : ℕ → Clients → Clients
hand_over key c = record c { conn_requests = remove key c.conn_requests }

unfoldable pub put_back : ℕ → Clients → Clients
put_back m c = record c { messengers = c.messengers ++ (m ∷ []); idle = c.idle + 1 }

-- `GetMessenger` after its context is done: the request is deleted, and a messenger that stands in
-- the channel is pushed to the back.
unfoldable pub cancel : ℕ → Clients → Clients
cancel key c = record c { conn_requests = remove key c.conn_requests }

unfoldable pub push_cancelled : ℕ → Bool → Clients → Clients
push_cancelled m available c =
    if available then record c { messengers = c.messengers ++ (m ∷ []) } else c

-- `Destroy` closes the messengers, here in its first result, and takes them out; it closes the
-- channels of the requests.
unfoldable pub destroy : Clients → List ℕ × List ℕ × Clients
destroy c = (c.messengers, c.conn_requests, record c { messengers = [] })

-- The pool of so many connections.
unfoldable pub fresh_clients : ℕ → List ℕ → Clients
fresh_clients channel ms = record {
  messengers = ms;
  max = channel;
  idle = channel;
  conn_requests = [];
  next_request = 1;
}

-- The number of connections of a model for so many data frames.
unfoldable pub channel_count : ModbusModel → ℕ → ℕ
channel_count tcp data_frame_count = data_frame_count / 5 + 1
channel_count rtu data_frame_count = 1
channel_count rtu_over_tcp data_frame_count = data_frame_count / 5 + 1

module _ {W : Type 0} (dial : W → W × Option ℕ) where
  abbrev pub push : ℕ → W × Option (List ℕ) → W × Option (List ℕ)
  push m (w, none) = (w, none)
  push m (w, some ms) = (w, some (m ∷ ms))

  abbrev pub dialled : (W → W × Option (List ℕ)) → W × Option ℕ → W × Option (List ℕ)
  dialled next (w, none) = (w, none)
  dialled next (w, some m) = push m (next w)

  -- The loop of `NewClients`: the first connection that fails ends it.
  unfoldable pub dial_all : ℕ → W → W × Option (List ℕ)
  dial_all zero w = (w, some [])
  dial_all (suc n) w = dialled (dial_all n) (dial w)

  abbrev pub pooled : ℕ → W × Option (List ℕ) → W × Option Clients
  pooled channel (w, none) = (w, none)
  pooled channel (w, some ms) = (w, some (fresh_clients channel ms))

  -- `NewClients`, where `dial` is `net.Dial` or `serial.Open`.
  unfoldable pub new_clients : ModbusModel → ℕ → W → W × Option Clients
  new_clients model data_frame_count w =
      let channel = channel_count model data_frame_count in pooled channel (dial_all channel w)
