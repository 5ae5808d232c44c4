-- ===== src/Modbus/Clients/Invariant.antt =====
-- The pool keeps its count of idle messengers and loses none, whatever the interleaving.
use harns_gateway.Prelude.{
  ℕ, ◌+◌, ◌<◌, ◌≡◌, ◌≢◌, refl, ap, ◌∙◌, arith, List, [], ◌∷◌, ◌++◌, true, false, ◌==◌, length,
  length-append, Bool-cases, List-cases, inl, inr, if◌then◌else◌, ltb,
}
use harns_gateway.Modbus.Clients.{
  Clients, Got, messenger, waiting, crash, next_request_key, get_messenger, remove, hands_over,
  hand_over, put_back, cancel, fresh_clients,
}
use harns_gateway.Modbus.Clients.System.{
  System, Step, take, wait, hand, give_back, receive, give_up, Reaches, done, step,
}

-- `Idle` counts the messengers of the list, and nobody waits while one is idle.
pub record WellFormed (c : Clients) : Type 0 where
  pub counted : c.idle ≡ length c.messengers
  pub unasked : 0 < c.idle → c.conn_requests ≡ []

-- How often a messenger occurs in a list.
abbrev pub count : ℕ → List ℕ → ℕ
count n [] = 0
count n (m ∷ ms) = (if m == n then 1 else 0) + count n ms

count-append : (n : ℕ) (xs ys : List ℕ) → count n (xs ++ ys) ≡ count n xs + count n ys
count-append n [] ys = omega arith
count-append n (x ∷ xs) ys = omega (arith, count-append n xs ys)

count-middle :
    (n : ℕ) (xs : List ℕ) (m : ℕ) (ys : List ℕ)
    → count n (xs ++ m ∷ ys) ≡ (if m == n then 1 else 0) + count n (xs ++ ys)
count-middle n xs m ys = omega (arith, count-append n xs (m ∷ ys), count-append n xs ys)

abbrev pub passengers : List (ℕ × ℕ) → List ℕ
passengers [] = []
passengers ((key, m) ∷ rest) = m ∷ passengers rest

passengers-append : (xs ys : List (ℕ × ℕ)) → passengers (xs ++ ys) ≡ passengers xs ++ passengers ys
passengers-append [] ys = refl
passengers-append ((key, m) ∷ xs) ys = ap (◌∷◌ m) (passengers-append xs ys)

-- How often a messenger occurs anywhere in the system.
abbrev pub total : ℕ → System → ℕ
total n s = count n s.clients.messengers + count n (passengers s.sent) + count n s.held

abbrev IsSound : Clients → Got → Type 0
IsSound c (messenger m c') = WellFormed c' × (c.messengers ≡ m ∷ c'.messengers)
IsSound c (waiting key c') = WellFormed c' × (c.messengers ≡ c'.messengers)
IsSound c crash = ⊥

get_messenger-IsSound : (c : Clients) → WellFormed c → IsSound c (get_messenger c)
unfolding get_messenger next_request_key
get_messenger-IsSound c w = elim (Bool-cases (ltb 0 c.idle)) [
  | inl some_idle ↦ elim (List-cases c.messengers) [
    | inl e ↦ absurd (ground (arith, w.counted, e))
    | inr (m, rest, e) ↦
        rw (some_idle, e)
          (
            record {
              counted = ground (arith, w.counted, e);
              unasked = λ h. w.unasked (ground arith);
            },
            refl,
          )
  ]
  | inr none_idle ↦
      rw none_idle (record { counted = w.counted; unasked = λ h. absurd (ground arith) }, refl)
]

-- A pool that is well formed has a messenger in front when it counts one: `GetMessenger` does not
-- panic.
get_messenger-total : (c : Clients) → WellFormed c → get_messenger c ≢ crash
get_messenger-total c w e = rw e at (get_messenger-IsSound c w)

remove-nil : (key : ℕ) (ks : List ℕ) → ks ≡ [] → remove key ks ≡ []
unfolding remove
remove-nil key ks e = rw e refl

handing : (c : Clients) → hands_over c ≡ true → c.idle ≡ 0
unfolding hands_over
handing c e = ground arith

keeping : (c : Clients) → WellFormed c → hands_over c ≡ false → c.conn_requests ≡ []
unfolding hands_over
keeping c w e = elim (List-cases c.conn_requests) [
  | inl none ↦ none
  | inr (key, rest, some) ↦ elim (Bool-cases (ltb 0 c.idle)) [
    | inl idle ↦ w.unasked (ground arith)
    | inr busy ↦ absurd (ground (arith, some))
  ]
]

Step-WellFormed : {s t : System} → Step s t → WellFormed s.clients → WellFormed t.clients
unfolding hand_over put_back cancel
Step-WellFormed (take s m c e) w = (rw e at (get_messenger-IsSound s.clients w)).0
Step-WellFormed (wait s key c e) w = (rw e at (get_messenger-IsSound s.clients w)).0
Step-WellFormed (hand s before m after key e h i) w = record {
  counted = w.counted;
  unasked = λ busy. absurd (omega (arith, handing s.clients h));
}
Step-WellFormed (give_back s before m after e h) w = record {
  counted = omega (arith, w.counted, length-append s.clients.messengers (m ∷ []));
  unasked = λ busy. keeping s.clients w h;
}
Step-WellFormed (receive s before key m after e) w = w
Step-WellFormed (give_up s key i) w = record {
  counted = w.counted;
  unasked = λ busy. remove-nil key s.clients.conn_requests (w.unasked busy);
}

-- A step neither loses nor doubles a messenger.
Step-total : (n : ℕ) {s t : System} → Step s t → WellFormed s.clients → total n t ≡ total n s
unfolding hand_over put_back cancel
Step-total n (take s m c e) w =
    let kept : s.clients.messengers ≡ m ∷ c.messengers =
      (rw e at (get_messenger-IsSound s.clients w)).1 in
    omega (arith, ap (count n) kept)
Step-total n (wait s key c e) w =
    let kept : s.clients.messengers ≡ c.messengers =
      (rw e at (get_messenger-IsSound s.clients w)).1 in
    omega (arith, ap (count n) kept)
Step-total n (hand s before m after key e h i) w =
    omega (arith, ap (count n) e, count-middle n before m after)
Step-total n (give_back s before m after e h) w = omega (
  arith,
  ap (count n) e,
  count-middle n before m after,
  count-append n s.clients.messengers (m ∷ []),
)
Step-total n (receive s before key m after e) w = omega (
  arith,
  ap (λ l. count n (passengers l)) e,
  ap (count n) (passengers-append before ((key, m) ∷ after)),
  ap (count n) (passengers-append before after),
  count-middle n (passengers before) m (passengers after),
)
Step-total n (give_up s key i) w = refl

pub Reaches-WellFormed : {s t : System} → Reaches s t → WellFormed s.clients → WellFormed t.clients
Reaches-WellFormed (done s) w = w
Reaches-WellFormed (step s t u st r) w = Reaches-WellFormed r (Step-WellFormed st w)

pub Reaches-total :
    (n : ℕ) {s t : System} → Reaches s t → WellFormed s.clients → total n t ≡ total n s
Reaches-total n (done s) w = refl
Reaches-total n (step s t u st r) w = Reaches-total n r (Step-WellFormed st w) ∙ Step-total n st w

-- A device whose connections are all idle.
abbrev pub fresh : List ℕ → System
fresh ms = record { clients = fresh_clients (length ms) ms; sent = []; held = [] }

pub fresh-WellFormed :
    (channel : ℕ) (ms : List ℕ) → length ms ≡ channel → WellFormed (fresh_clients channel ms)
unfolding fresh_clients
fresh-WellFormed channel ms full = record { counted = omega arith; unasked = λ h. refl }

-- From a pool of idle connections, under any interleaving of GetMessenger, ReleaseMessenger and
-- contexts that end before a messenger was sent: the count of idle messengers is the length of the
-- list, nobody waits while a messenger is idle, and the next GetMessenger does not panic.
pub pool-WellFormed :
    (ms : List ℕ) (s : System)
    → Reaches (fresh ms) s
    → WellFormed s.clients × (get_messenger s.clients ≢ crash)
pool-WellFormed ms s r =
    let w = Reaches-WellFormed r (fresh-WellFormed (length ms) ms refl) in
    (w, get_messenger-total s.clients w)

-- From a pool of idle connections, under any interleaving of GetMessenger, ReleaseMessenger and
-- contexts that end before a messenger was sent, no connection is lost and none is doubled: each
-- occurs among the idle ones, in the channels and in the hands of callers together as often as at
-- the start.
pub pool_total :
    (ms : List ℕ) (s : System) → Reaches (fresh ms) s → (n : ℕ) → total n s ≡ count n ms
pool_total ms s r n =
    Reaches-total n r (fresh-WellFormed (length ms) ms refl) ∙ unfold fresh_clients in omega arith
