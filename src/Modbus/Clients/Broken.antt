-- ===== src/Modbus/Clients/Broken.antt =====
-- Where the pool goes wrong: a context that ends late, and a pool that was destroyed.
use harns_gateway.Prelude.{ℕ, ◌<◌, ◌≡◌, refl, arith, List, [], ◌∷◌, true, length, ltb}
use harns_gateway.Modbus.Clients.{
  Clients, add_request, crash, get_messenger, next_request_key, push_cancelled, destroy,
}
use harns_gateway.Modbus.Clients.Invariant.{WellFormed}

-- When no messenger is idle, a caller whose context ends after a messenger was sent to it pushes
-- the messenger back without counting it, so that it lies in the list and the next caller waits
-- all the same.
pub cancelled_waits :
    (c : Clients) (m : ℕ)
    → WellFormed c
    → c.idle ≡ 0
    → ((push_cancelled m true c).messengers ≡ m ∷ [])
      × (get_messenger (push_cancelled m true c)
          ≡ add_request (next_request_key (push_cancelled m true c)))
unfolding push_cancelled get_messenger
cancelled_waits c m w h =
    let e : c.messengers ≡ [] = no_elements c.messengers (omega (arith, w.counted)) in
    (rw e refl, rw h refl)
  where
    no_elements : (xs : List ℕ) → length xs ≡ 0 → xs ≡ []
    no_elements [] h = refl
    no_elements (x ∷ xs) h = absurd (omega arith)

-- Destroy empties the list of messengers and leaves the count of idle ones: if it was not zero, a
-- later GetMessenger panics.
pub destroy_crashes : (c : Clients) → 0 < c.idle → get_messenger ((destroy c).2) ≡ crash
unfolding destroy get_messenger
destroy_crashes c h = let busy : ltb 0 c.idle ≡ true = ground arith in rw busy refl
