-- ===== src/Modbus/Clients/System.antt =====
-- The pool, the messengers that stand in channels and those that callers hold: the interleaved steps
-- of `GetMessenger` and `ReleaseMessenger`.
use harns_gateway.Prelude.{ℕ, ◌≡◌, List, ◌∷◌, ◌++◌, true, false}
use harns_gateway.Modbus.Clients.{
  Clients, messenger, waiting, get_messenger, hands_over, hand_over, put_back, cancel,
}
use mathlib.Core.List.{Mem}

pub record System : Type 0 where
  pub clients : Clients
  -- A messenger that was sent to the channel of a key and is not received yet.
  pub sent : List (ℕ × ℕ)
  pub held : List ℕ

-- One step of one caller. A context that ends while its channel is empty is `give_up`.
pub data Step : System → System → Type 0 where
  take :
      (s : System) (m : ℕ) (c : Clients)
      → get_messenger s.clients ≡ messenger m c
      → Step s (record { clients = c; sent = s.sent; held = m ∷ s.held })
  wait :
      (s : System) (key : ℕ) (c : Clients)
      → get_messenger s.clients ≡ waiting key c
      → Step s (record s { clients = c })
  hand :
      (s : System) (before : List ℕ) (m : ℕ) (after : List ℕ) (key : ℕ)
      → s.held ≡ before ++ m ∷ after
      → hands_over s.clients ≡ true
      → Mem key s.clients.conn_requests
      → Step s (record {
        clients = hand_over key s.clients;
        sent = (key, m) ∷ s.sent;
        held = before ++ after;
      })
  give_back :
      (s : System) (before : List ℕ) (m : ℕ) (after : List ℕ)
      → s.held ≡ before ++ m ∷ after
      → hands_over s.clients ≡ false
      → Step s (record { clients = put_back m s.clients; sent = s.sent; held = before ++ after })
  receive :
      (s : System) (before : List (ℕ × ℕ)) (key m : ℕ) (after : List (ℕ × ℕ))
      → s.sent ≡ before ++ (key, m) ∷ after
      → Step s (record { clients = s.clients; sent = before ++ after; held = m ∷ s.held })
  give_up :
      (s : System) (key : ℕ)
      → Mem key s.clients.conn_requests
      → Step s (record s { clients = cancel key s.clients })

pub data Reaches : System → System → Type 0 where
  done : (s : System) → Reaches s s
  step : (s t u : System) → Step s t → Reaches t u → Reaches s u
