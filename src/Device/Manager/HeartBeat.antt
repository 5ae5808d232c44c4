-- ===== src/Device/Manager/HeartBeat.antt =====
-- A tick of `heartBeatDetection` keeps the manager in order.
use harns_gateway.Prelude.{
  ℕ, ◌≡◌, ◌≢◌, refl, sym, ap, ◌∙◌, List, [], ◌∷◌, ◌++◌, map, true, false, none, some, All,
  Option-cases, some_injective, inl, inr,
}
use harns_gateway.Device.Types.{
  collecting, unconnected, empty_variable, Started, broker, no_connection, no_variables, failure,
}
use harns_gateway.Device.Manager.{
  Manager, put, set_collect_status, set_broker, ready_collect, forget, visit, resumed_too, go_on,
  range, forget_all, heart_beat,
}
use harns_gateway.Device.Manager.Invariant.{
  is_collecting, In, WellFormed, put-same, put-other, eq-cases, Local-trans,
  set_collect_status-Local, set_broker-Local, change-WellFormed,
}
use harns_gateway.Device.Manager.Collect.{settle}
use mathlib.Core.List.{append-nil}

-- No name is visited twice.
abbrev pub Distinct : List ℕ → Type 0
Distinct [] = Unit {0}
Distinct (id ∷ ids) = All (λ other. other ≢ id) ids × Distinct ids

missing : {r : ℕ} → none ≡ some r → ⊥
missing e = cc

-- A device that waits has no broker.
off :
    (resumed : List ℕ) (m : Manager) (id ref : ℕ)
    → WellFormed resumed m
    → (In resumed id → ⊥)
    → m.heart_beat_devices id ≡ some ref
    → (m.objects ref).id ≡ id
    → m.brokers (m.objects ref).id ≡ false
off resumed m id ref wf fresh h named = elim (wf.idle id ref h) [
  | inl u ↦ ap m.brokers named ∙ wf.runs id ref (wf.waits id ref h) ∙ ap is_collecting u
  | inr within ↦ absurd (fresh within)
]

-- A visit that resumes a device.
resume_broker :
    (resumed : List ℕ) (m : Manager) (id ref : ℕ)
    → WellFormed resumed m
    → m.heart_beat_devices id ≡ some ref
    → WellFormed (id ∷ resumed) (visit broker ref m).0
unfolding visit ready_collect set_broker set_collect_status
resume_broker resumed m id ref wf h =
    let (named, known) = wf.own id ref (wf.waits id ref h) in
    let own = (m.objects ref).id in
    let first = set_collect_status-Local ref collecting m in
    change-WellFormed resumed (id ∷ resumed) ref m (visit broker ref m).0 wf (λ x w. inr w)
      (λ x n w. elim w [ inl e ↦ absurd (n (e ∙ sym named)) | inr within ↦ within ])
      (ap m.devices named ∙ wf.waits id ref h)
      (Local-trans ref m (set_collect_status ref collecting m) _ first
        (rw first.id at (set_broker-Local ref true (set_collect_status ref collecting m))))
      (settle (id ∷ resumed) ref (visit broker ref m).0 own collecting true (some ref)
        (ap (λ d. d.id) (put-same m.objects ref _))
        (ap (λ d. d.collect_status) (put-same m.objects ref _)) (put-same m.brokers own true)
        (ap m.heart_beat_devices named ∙ h) refl (λ r e. sym (some_injective e)) (λ e. cc)
        (λ r e. inr (inl named)) (λ w e. cc))

resume_empty :
    (resumed : List ℕ) (m : Manager) (id ref : ℕ)
    → WellFormed resumed m
    → (In resumed id → ⊥)
    → m.heart_beat_devices id ≡ some ref
    → WellFormed (id ∷ resumed) (visit no_variables ref m).0
unfolding visit ready_collect set_collect_status
resume_empty resumed m id ref wf fresh h =
    let (named, known) = wf.own id ref (wf.waits id ref h) in
    let own = (m.objects ref).id in
    change-WellFormed resumed (id ∷ resumed) ref m (visit no_variables ref m).0 wf (λ x w. inr w)
      (λ x n w. elim w [ inl e ↦ absurd (n (e ∙ sym named)) | inr within ↦ within ])
      (ap m.devices named ∙ wf.waits id ref h) (set_collect_status-Local ref empty_variable m)
      (settle (id ∷ resumed) ref (visit no_variables ref m).0 own empty_variable false (some ref)
        (ap (λ d. d.id) (put-same m.objects ref _))
        (ap (λ d. d.collect_status) (put-same m.objects ref _))
        (off resumed m id ref wf fresh h named) (ap m.heart_beat_devices named ∙ h) refl
        (λ r e. sym (some_injective e)) (λ e. cc) (λ r e. inr (inl named)) (λ w e. cc))

stay_unconnected :
    (resumed : List ℕ) (m : Manager) (id ref : ℕ)
    → WellFormed resumed m
    → (In resumed id → ⊥)
    → m.heart_beat_devices id ≡ some ref
    → WellFormed resumed (visit no_connection ref m).0
unfolding visit ready_collect set_collect_status
stay_unconnected resumed m id ref wf fresh h =
    let (named, known) = wf.own id ref (wf.waits id ref h) in
    let own = (m.objects ref).id in
    change-WellFormed resumed resumed ref m (visit no_connection ref m).0 wf (λ x w. w) (λ x n w. w)
      (ap m.devices named ∙ wf.waits id ref h) (set_collect_status-Local ref unconnected m)
      (settle resumed ref (visit no_connection ref m).0 own unconnected false (some ref)
        (ap (λ d. d.id) (put-same m.objects ref _))
        (ap (λ d. d.collect_status) (put-same m.objects ref _))
        (off resumed m id ref wf fresh h named) (ap m.heart_beat_devices named ∙ h) refl
        (λ r e. sym (some_injective e)) (λ e. refl) (λ r e. inl refl)
        (λ w e. fresh (rw named at w)))

-- A device that was resumed is forgotten.
forget-WellFormed :
    (id : ℕ) (ids : List ℕ) (m : Manager) → WellFormed (id ∷ ids) m → WellFormed ids (forget id m)
unfolding forget
forget-WellFormed id ids m wf = record {
  own = wf.own;
  waits = λ x r h. wf.waits x r (kept x r h).1;
  runs = wf.runs;
  gone = wf.gone;
  retried = λ x r d u. elim (eq-cases x id) [
    | inl e ↦ absurd (wf.connected x r (inl e) d u)
    | inr n ↦ put-other m.heart_beat_devices id none x n ∙ wf.retried x r d u
  ];
  idle = λ x r h.
      let (n, before) = kept x r h in
      elim (wf.idle x r before) [
        | inl u ↦ inl u
        | inr (inl e) ↦ absurd (n e)
        | inr (inr within) ↦ inr within
      ];
  connected = λ x r within d. wf.connected x r (inr within) d;
}
  where
    kept :
        (x r : ℕ)
        → put m.heart_beat_devices id none x ≡ some r
        → (x ≢ id) × (m.heart_beat_devices x ≡ some r)
    kept x r h = elim (eq-cases x id) [
      | inl e ↦ absurd (
          missing (
            sym (put-same m.heart_beat_devices id none)
            ∙ ap (put m.heart_beat_devices id none) (sym e)
            ∙ h))
      | inr n ↦ (n, sym (put-other m.heart_beat_devices id none x n) ∙ h)
    ]

forget_all-WellFormed :
    (ids : List ℕ) (m : Manager) → WellFormed ids m → WellFormed [] (forget_all ids m)
unfolding forget_all
forget_all-WellFormed [] m wf = wf
forget_all-WellFormed (id ∷ ids) m wf =
    forget_all-WellFormed ids (forget id m) (forget-WellFormed id ids m wf)

In-middle :
    (front back : List ℕ) (id x : ℕ) → In (front ++ (id ∷ back)) x → In (id ∷ (front ++ back)) x
In-middle [] back id x h = h
In-middle (y ∷ front) back id x (inl e) = inr (inl e)
In-middle (y ∷ front) back id x (inr h) = elim (In-middle front back id x h) [
  | inl e ↦ inl e
  | inr within ↦ inr (inr within)
]

In-moved :
    (front back : List ℕ) (id x : ℕ) → In (id ∷ (front ++ back)) x → In (front ++ (id ∷ back)) x
In-moved [] back id x h = h
In-moved (y ∷ front) back id x (inl e) = inr (In-moved front back id x (inl e))
In-moved (y ∷ front) back id x (inr (inl e)) = inl e
In-moved (y ∷ front) back id x (inr (inr h)) = inr (In-moved front back id x (inr h))

-- Only what is in the list of resumed devices matters.
same_resumed :
    (ids ids' : List ℕ) (m : Manager)
    → ((x : ℕ) → In ids x → In ids' x)
    → ((x : ℕ) → In ids' x → In ids x)
    → WellFormed ids m
    → WellFormed ids' m
same_resumed ids ids' m f g wf = record {
  own = wf.own;
  waits = wf.waits;
  runs = wf.runs;
  gone = wf.gone;
  retried = wf.retried;
  idle = λ id r h. elim (wf.idle id r h) [ inl u ↦ inl u | inr within ↦ inr (f id within) ];
  connected = λ id r within. wf.connected id r (g id within);
}

abbrev pub names : List (ℕ × Started) → List ℕ
names visits = map (λ v. v.0) visits

-- What holds after a part of a tick.
abbrev AfterRange : List ℕ → Manager × List ℕ → Type 0
AfterRange resumed (m, ids) = WellFormed (ids ++ resumed) m

abbrev Later : List (ℕ × Started) → Type 0
Later rest =
    (resumed : List ℕ) (m : Manager)
    → WellFormed resumed m
    → All (λ n. In resumed n → ⊥) (names rest)
    → AfterRange resumed (range rest m)

resumed_too-WellFormed :
    (resumed : List ℕ) (id : ℕ) (later : Manager × List ℕ)
    → AfterRange (id ∷ resumed) later
    → AfterRange resumed (resumed_too id later)
resumed_too-WellFormed resumed id (m, ids) wf =
    same_resumed (ids ++ (id ∷ resumed)) (id ∷ (ids ++ resumed)) m (In-middle ids resumed id)
      (In-moved ids resumed id) wf

still_fresh :
    (ids : List ℕ) (id : ℕ) (resumed : List ℕ)
    → All (λ n. In resumed n → ⊥) ids
    → All (λ other. other ≢ id) ids
    → All (λ n. In (id ∷ resumed) n → ⊥) ids
still_fresh [] id resumed h k = tt
still_fresh (x ∷ ids) id resumed (h, hs) (k, ks) =
    (λ w. elim w [ inl e ↦ k e | inr within ↦ h within ], still_fresh ids id resumed hs ks)

go_on-WellFormed :
    (rest : List (ℕ × Started)) (resumed : List ℕ) (m : Manager) (id ref : ℕ) (started : Started)
    → Later rest
    → WellFormed resumed m
    → (In resumed id → ⊥)
    → All (λ n. In (id ∷ resumed) n → ⊥) (names rest)
    → m.heart_beat_devices id ≡ some ref
    → AfterRange resumed (go_on id (range rest) (visit started ref m))
unfolding visit ready_collect
go_on-WellFormed rest resumed m id ref broker later wf fresh fresh' h =
    resumed_too-WellFormed resumed id (range rest (visit broker ref m).0)
      (later (id ∷ resumed) (visit broker ref m).0 (resume_broker resumed m id ref wf h) fresh')
go_on-WellFormed rest resumed m id ref no_variables later wf fresh fresh' h =
    resumed_too-WellFormed resumed id (range rest (visit no_variables ref m).0) (
      later (id ∷ resumed) (visit no_variables ref m).0 (resume_empty resumed m id ref wf fresh h)
        fresh')
go_on-WellFormed rest resumed m id ref no_connection later wf fresh fresh' h =
    stay_unconnected resumed m id ref wf fresh h
go_on-WellFormed rest resumed m id ref failure later wf fresh fresh' h = wf

range-WellFormed : (visits : List (ℕ × Started)) → Distinct (names visits) → Later visits
unfolding range
range-WellFormed [] distinct resumed m wf fresh = wf
range-WellFormed ((id, started) ∷ rest) (apart, distinct) resumed m wf (fresh, others) =
    elim (Option-cases (m.heart_beat_devices id)) [
      | inl e ↦ rw e (range-WellFormed rest distinct resumed m wf others)
      | inr (ref, e) ↦ rw e (
          go_on-WellFormed rest resumed m id ref started (range-WellFormed rest distinct) wf fresh
            (still_fresh (names rest) id resumed others apart) e)
    ]

nothing_resumed : (ids : List ℕ) → All (λ n. In [] n → ⊥) ids
nothing_resumed [] = tt
nothing_resumed (id ∷ ids) = (λ within. within, nothing_resumed ids)

pub heart_beat-WellFormed :
    (visits : List (ℕ × Started)) (m : Manager)
    → Distinct (names visits)
    → WellFormed [] m
    → WellFormed [] (heart_beat visits m)
unfolding heart_beat
heart_beat-WellFormed visits m distinct wf =
    let ranged = range visits m in
    let after = range-WellFormed visits distinct [] m wf (nothing_resumed (names visits)) in
    forget_all-WellFormed ranged.1 ranged.0 (rw (append-nil ranged.1) at after)
