-- ===== src/Modbus/Clients/Start.antt =====
-- The pool that `NewClients` returns.
use harns_gateway.Prelude.{
  ℕ, zero, suc, ◌+◌, ◌*◌, ◌<◌, ◌≤◌, ◌≡◌, refl, sym, ap, arith, List, Option, some, none, length,
}
use harns_gateway.Modbus.Types.{ModbusModel, tcp, rtu, rtu_over_tcp}
use harns_gateway.Modbus.Clients.{
  Clients, push, dialled, dial_all, pooled, channel_count, fresh_clients, new_clients,
}
use harns_gateway.Modbus.Clients.Invariant.{WellFormed, fresh-WellFormed}

-- All connections or none.
abbrev IsFull : ℕ → Option (List ℕ) → Type 0
IsFull n none = Unit {0}
IsFull n (some ms) = length ms ≡ n

-- One connection on a serial line, and otherwise one for each five data frames and one more.
abbrev pub IsSized : ModbusModel → ℕ → ℕ → Type 0
IsSized rtu frames n = n ≡ 1
IsSized tcp frames n = (frames < 5 * n) × (5 * n ≤ frames + 5)
IsSized rtu_over_tcp frames n = (frames < 5 * n) × (5 * n ≤ frames + 5)

channel_count-IsSized :
    (model : ModbusModel) (frames : ℕ) → IsSized model frames (channel_count model frames)
unfolding channel_count
channel_count-IsSized rtu frames = refl
channel_count-IsSized tcp frames = (omega arith, omega arith)
channel_count-IsSized rtu_over_tcp frames = (omega arith, omega arith)

abbrev IsReady : ModbusModel → ℕ → Option Clients → Type 0
IsReady model frames none = Unit {0}
IsReady model frames (some c) =
    WellFormed c
    × IsSized model frames (length c.messengers)
    × (c.idle ≡ length c.messengers)
    × (c.max ≡ length c.messengers)

module _ {W : Type 0} (dial : W → W × Option ℕ) where
  push-IsFull :
      (m n : ℕ) (r : W × Option (List ℕ)) → IsFull n r.1 → IsFull (suc n) (push dial m r).1
  push-IsFull m n (w, none) h = tt
  push-IsFull m n (w, some ms) h = ap suc h

  dialled-IsFull :
      (n : ℕ) (next : W → W × Option (List ℕ)) (r : W × Option ℕ)
      → ((w : W) → IsFull n (next w).1)
      → IsFull (suc n) (dialled dial next r).1
  dialled-IsFull n next (w, none) h = tt
  dialled-IsFull n next (w, some m) h = push-IsFull m n (next w) (h w)

  dial_all-IsFull : (n : ℕ) (w : W) → IsFull n (dial_all dial n w).1
  unfolding dial_all
  dial_all-IsFull zero w = refl
  dial_all-IsFull (suc n) w = dialled-IsFull n (dial_all dial n) (dial w) (dial_all-IsFull n)

  pooled-IsReady :
      (model : ModbusModel) (frames : ℕ) (r : W × Option (List ℕ))
      → IsFull (channel_count model frames) r.1
      → IsReady model frames (pooled dial (channel_count model frames) r).1
  unfolding fresh_clients
  pooled-IsReady model frames (w, none) full = tt
  pooled-IsReady model frames (w, some ms) full = (
    fresh-WellFormed (channel_count model frames) ms full,
    rw full (channel_count-IsSized model frames),
    sym full,
    sym full,
  )

  some-IsReady :
      (model : ModbusModel) (frames : ℕ) (r : Option Clients) (c : Clients)
      → IsReady model frames r
      → r ≡ some c
      → IsReady model frames (some c)
  some-IsReady model frames r c h e = rw e at h

  -- A pool that NewClients returns is well formed: it has one connection for each five data frames
  -- and one more, or a single one on a serial line, and Idle and Max are the number of its
  -- connections.
  pub new_clients-WellFormed :
      (model : ModbusModel) (frames : ℕ) (w : W) (c : Clients)
      → (new_clients dial model frames w).1 ≡ some c
      → WellFormed c
        × IsSized model frames (length c.messengers)
        × (c.idle ≡ length c.messengers)
        × (c.max ≡ length c.messengers)
  unfolding new_clients
  new_clients-WellFormed model frames w c = some-IsReady model frames _ c (
      pooled-IsReady model frames (dial_all dial (channel_count model frames) w)
        (dial_all-IsFull _ w))
