-- ===== src/Tests/Clients.antt =====
-- The pool of pkg/protocol/modbus with two connections.
use harns_gateway.Prelude.{ℕ, suc, ◌≡◌, ◌≢◌, refl, arith, [], ◌∷◌, length, Option, true, some}
use harns_gateway.Modbus.Types.{tcp}
use harns_gateway.Modbus.Clients.{
  Clients, crash, messenger, get_messenger, push_cancelled, destroy, add_request, next_request_key,
  fresh_clients, dial_all, channel_count, new_clients,
}
use harns_gateway.Modbus.Clients.System.{System, take, Reaches, done, step}
use harns_gateway.Modbus.Clients.Invariant.{
  WellFormed, fresh, fresh-WellFormed, count, total, pool-WellFormed, pool_total,
}
use harns_gateway.Modbus.Clients.Start.{IsSized, new_clients-WellFormed}
use harns_gateway.Modbus.Clients.Broken.{cancelled_waits, destroy_crashes}

abbrev one_left : Clients
one_left = record { messengers = 8 ∷ []; max = 2; idle = 1; conn_requests = []; next_request = 1 }

abbrev one_taken : System
one_taken = record { clients = one_left; sent = []; held = 7 ∷ [] }

took : get_messenger (fresh_clients 2 (7 ∷ 8 ∷ [])) ≡ messenger 7 one_left
unfolding get_messenger fresh_clients
took = refl

one_run : Reaches (fresh (7 ∷ 8 ∷ [])) one_taken
one_run =
    step (fresh (7 ∷ 8 ∷ [])) one_taken one_taken (take (fresh (7 ∷ 8 ∷ [])) 7 one_left took)
      (done one_taken)

pool-WellFormed_example : WellFormed one_left × (get_messenger one_left ≢ crash)
pool-WellFormed_example = pool-WellFormed (7 ∷ 8 ∷ []) one_taken one_run

pool_total_example : total 7 one_taken ≡ count 7 (7 ∷ 8 ∷ [])
pool_total_example = pool_total (7 ∷ 8 ∷ []) one_taken one_run 7

abbrev numbered_dial : ℕ → ℕ × Option ℕ
numbered_dial w = (suc w, some w)

dialled_two : (new_clients numbered_dial tcp 5 0).1 ≡ some (fresh_clients 2 (0 ∷ 1 ∷ []))
unfolding new_clients dial_all channel_count
dialled_two = refl

new_clients-WellFormed_example :
    WellFormed (fresh_clients 2 (0 ∷ 1 ∷ []))
    × IsSized tcp 5 (length (fresh_clients 2 (0 ∷ 1 ∷ [])).messengers)
    × ((fresh_clients 2 (0 ∷ 1 ∷ [])).idle ≡ length (fresh_clients 2 (0 ∷ 1 ∷ [])).messengers)
    × ((fresh_clients 2 (0 ∷ 1 ∷ [])).max ≡ length (fresh_clients 2 (0 ∷ 1 ∷ [])).messengers)
new_clients-WellFormed_example =
    new_clients-WellFormed numbered_dial tcp 5 0 (fresh_clients 2 (0 ∷ 1 ∷ [])) dialled_two

cancelled_waits_example :
    ((push_cancelled 7 true (fresh_clients 0 [])).messengers ≡ 7 ∷ [])
    × (get_messenger (push_cancelled 7 true (fresh_clients 0 []))
        ≡ add_request (next_request_key (push_cancelled 7 true (fresh_clients 0 []))))
cancelled_waits_example =
    cancelled_waits (fresh_clients 0 []) 7 (fresh-WellFormed 0 [] refl)
      (unfold fresh_clients in refl)

destroy_crashes_example : get_messenger ((destroy one_left).2) ≡ crash
destroy_crashes_example = destroy_crashes one_left (omega arith)
