-- ===== src/Device/Manager/Invariant.antt =====
-- Which devices have a broker, and which wait for a connection.
use harns_gateway.Prelude.{
  ℕ, ◌<◌, ◌≡◌, ◌≢◌, ◌⊎◌, refl, sym, ap, ◌∙◌, arith, List, [], ◌∷◌, Bool, true, false, none, some,
  ◌==◌, Bool-cases, some_injective, inl, inr,
}
use harns_gateway.Device.Types.{CollectStatus, collecting, collecting_error, unconnected}
use harns_gateway.Device.Manager.{
  Manager, put, set_collect_status, wait_for_connection, forget, set_broker,
}

-- A device that is collected has a broker.
abbrev pub is_collecting : CollectStatus → Bool
is_collecting collecting = true
is_collecting collecting_error = true
is_collecting _ = false

-- One of the names in a list.
abbrev pub In : List ℕ → ℕ → Type 0
In [] id = ⊥
In (first ∷ ids) id = (id ≡ first) ⊎ In ids id

-- The manager is in order, but for devices that are no longer to wait.
pub record WellFormed (resumed : List ℕ) (m : Manager) : Type 0 where
  -- A device has its own pointer.
  pub own : (id ref : ℕ) → m.devices id ≡ some ref → ((m.objects ref).id ≡ id) × (ref < m.next)
  -- What waits is the device itself.
  pub waits : (id r : ℕ) → m.heart_beat_devices id ≡ some r → m.devices id ≡ some r
  -- A broker runs for the devices whose status says so.
  pub runs :
      (id ref : ℕ)
      → m.devices id ≡ some ref
      → m.brokers id ≡ is_collecting (m.objects ref).collect_status
  pub gone : (id : ℕ) → m.devices id ≡ none → m.brokers id ≡ false
  -- A device without a connection waits for one.
  pub retried :
      (id ref : ℕ)
      → m.devices id ≡ some ref
      → (m.objects ref).collect_status ≡ unconnected
      → m.heart_beat_devices id ≡ some ref
  -- A device that waits has no connection, if it has not been resumed, and a device that was
  -- resumed has one.
  pub idle :
      (id r : ℕ)
      → m.heart_beat_devices id ≡ some r
      → ((m.objects r).collect_status ≡ unconnected) ⊎ In resumed id
  pub connected :
      (id ref : ℕ)
      → In resumed id
      → m.devices id ≡ some ref
      → (m.objects ref).collect_status ≢ unconnected

pub put-same {ℓ} : {A : Type ℓ} (f : ℕ → A) (k : ℕ) (v : A) → put f k v k ≡ v
put-same f k v = let e : (k == k) ≡ true = ground arith in rw e refl

pub put-other {ℓ} : {A : Type ℓ} (f : ℕ → A) (k : ℕ) (v : A) (x : ℕ) → x ≢ k → put f k v x ≡ f x
put-other f k v x h = let e : (x == k) ≡ false = ground arith in rw e refl

-- A change that concerns one device.
pub record Local (ref : ℕ) (m m' : Manager) : Type 0 where
  pub next : m'.next ≡ m.next
  pub devices : (x : ℕ) → m'.devices x ≡ m.devices x
  pub id : (m'.objects ref).id ≡ (m.objects ref).id
  pub objects : (x : ℕ) → x ≢ ref → m'.objects x ≡ m.objects x
  pub heart_beat_devices :
      (x : ℕ) → x ≢ (m.objects ref).id → m'.heart_beat_devices x ≡ m.heart_beat_devices x
  pub brokers : (x : ℕ) → x ≢ (m.objects ref).id → m'.brokers x ≡ m.brokers x

pub Local-refl : (ref : ℕ) (m : Manager) → Local ref m m
Local-refl ref m = record {
  next = refl;
  devices = λ x. refl;
  id = refl;
  objects = λ x h. refl;
  heart_beat_devices = λ x h. refl;
  brokers = λ x h. refl;
}

pub Local-trans :
    (ref : ℕ) (m m' m'' : Manager) → Local ref m m' → Local ref m' m'' → Local ref m m''
Local-trans ref m m' m'' f g = record {
  next = g.next ∙ f.next;
  devices = λ x. g.devices x ∙ f.devices x;
  id = g.id ∙ f.id;
  objects = λ x h. g.objects x h ∙ f.objects x h;
  heart_beat_devices = λ x h. g.heart_beat_devices x (λ e. h (e ∙ f.id)) ∙ f.heart_beat_devices x h;
  brokers = λ x h. g.brokers x (λ e. h (e ∙ f.id)) ∙ f.brokers x h;
}

pub set_collect_status-Local :
    (ref : ℕ) (s : CollectStatus) (m : Manager) → Local ref m (set_collect_status ref s m)
unfolding set_collect_status
set_collect_status-Local ref s m = record {
  next = refl;
  devices = λ x. refl;
  id = ap (λ d. d.id) (put-same m.objects ref _);
  objects = λ x h. put-other m.objects ref _ x h;
  heart_beat_devices = λ x h. refl;
  brokers = λ x h. refl;
}

pub wait_for_connection-Local : (ref : ℕ) (m : Manager) → Local ref m (wait_for_connection ref m)
unfolding wait_for_connection
wait_for_connection-Local ref m = record {
  next = refl;
  devices = λ x. refl;
  id = refl;
  objects = λ x h. refl;
  heart_beat_devices = λ x h. put-other m.heart_beat_devices _ _ x h;
  brokers = λ x h. refl;
}

pub forget-Local : (ref : ℕ) (m : Manager) → Local ref m (forget (m.objects ref).id m)
unfolding forget
forget-Local ref m = record {
  next = refl;
  devices = λ x. refl;
  id = refl;
  objects = λ x h. refl;
  heart_beat_devices = λ x h. put-other m.heart_beat_devices _ _ x h;
  brokers = λ x h. refl;
}

pub set_broker-Local :
    (ref : ℕ) (runs : Bool) (m : Manager) → Local ref m (set_broker (m.objects ref).id runs m)
unfolding set_broker
set_broker-Local ref runs m = record {
  next = refl;
  devices = λ x. refl;
  id = refl;
  objects = λ x h. refl;
  heart_beat_devices = λ x h. refl;
  brokers = λ x h. put-other m.brokers _ _ x h;
}

-- A device that is in order after a change.
pub record Settled (resumed : List ℕ) (ref : ℕ) (m : Manager) : Type 0 where
  pub runs : m.brokers (m.objects ref).id ≡ is_collecting (m.objects ref).collect_status
  pub waits : (r : ℕ) → m.heart_beat_devices (m.objects ref).id ≡ some r → r ≡ ref
  pub retried :
      (m.objects ref).collect_status ≡ unconnected
      → m.heart_beat_devices (m.objects ref).id ≡ some ref
  pub idle :
      (r : ℕ)
      → m.heart_beat_devices (m.objects ref).id ≡ some r
      → ((m.objects ref).collect_status ≡ unconnected) ⊎ In resumed (m.objects ref).id
  pub connected : In resumed (m.objects ref).id → (m.objects ref).collect_status ≢ unconnected

pub eq-cases : (a b : ℕ) → (a ≡ b) ⊎ (a ≢ b)
eq-cases a b = elim (Bool-cases (a == b)) [
  | inl e ↦ inl (ground arith)
  | inr e ↦ inr (λ h. ground arith)
]

pub change-WellFormed :
    (resumed resumed' : List ℕ) (ref : ℕ) (m m' : Manager)
    → WellFormed resumed m
    → ((x : ℕ) → In resumed x → In resumed' x)
    → ((x : ℕ) → x ≢ (m.objects ref).id → In resumed' x → In resumed x)
    → m.devices (m.objects ref).id ≡ some ref
    → Local ref m m'
    → Settled resumed' ref m'
    → WellFormed resumed' m'
change-WellFormed resumed resumed' ref m m' wf grow only listed local settled = record {
  own = λ id r d.
      let (named, known) = wf.own id r (sym (local.devices id) ∙ d) in
      (same_id r ∙ named, rw (local.next) known);
  waits = λ id r h. elim (eq-cases id (m.objects ref).id) [
    | inl e ↦
        local.devices id
        ∙ ap m.devices e
        ∙ listed
        ∙ ap some (sym (settled.waits r (ap m'.heart_beat_devices (local.id ∙ sym e) ∙ h)))
    | inr n ↦ local.devices id ∙ wf.waits id r (sym (local.heart_beat_devices id n) ∙ h)
  ];
  runs = λ id r d. elim (eq-cases id (m.objects ref).id) [
    | inl e ↦
        let it = alone r (ap m.devices (sym e) ∙ sym (local.devices id) ∙ d) in
        ap m'.brokers (e ∙ sym local.id)
        ∙ settled.runs
        ∙ ap (λ x. is_collecting (m'.objects x).collect_status) (sym it)
    | inr n ↦
        local.brokers id n
        ∙ wf.runs id r (sym (local.devices id) ∙ d)
        ∙ ap (λ o. is_collecting o.collect_status) (sym (local.objects r (other id r n d)))
  ];
  gone = λ id d. elim (eq-cases id (m.objects ref).id) [
    | inl e ↦ absurd (missing (sym d ∙ local.devices id ∙ ap m.devices e ∙ listed))
    | inr n ↦ local.brokers id n ∙ wf.gone id (sym (local.devices id) ∙ d)
  ];
  retried = λ id r d u. elim (eq-cases id (m.objects ref).id) [
    | inl e ↦
        let it = alone r (ap m.devices (sym e) ∙ sym (local.devices id) ∙ d) in
        ap m'.heart_beat_devices (e ∙ sym local.id)
        ∙ settled.retried (ap (λ x. (m'.objects x).collect_status) (sym it) ∙ u)
        ∙ ap some (sym it)
    | inr n ↦
        local.heart_beat_devices id n
        ∙ wf.retried id r (sym (local.devices id) ∙ d)
            (ap (λ o. o.collect_status) (sym (local.objects r (other id r n d))) ∙ u)
  ];
  idle = λ id r h. elim (eq-cases id (m.objects ref).id) [
    | inl e ↦
        let own_wait = ap m'.heart_beat_devices (local.id ∙ sym e) ∙ h in
        rw (settled.waits r own_wait, e ∙ sym local.id) (settled.idle r own_wait)
    | inr n ↦
        let before = sym (local.heart_beat_devices id n) ∙ h in
        let same =
          local.objects r
            (λ e. n (sym (wf.own id r (wf.waits id r before)).0 ∙ ap (λ x. (m.objects x).id) e)) in
        rw same (still id (wf.idle id r before))
  ];
  connected = λ id r within d u. elim (eq-cases id (m.objects ref).id) [
    | inl e ↦
        let it = alone r (ap m.devices (sym e) ∙ sym (local.devices id) ∙ d) in
        settled.connected (rw (e ∙ sym local.id) at within)
          (ap (λ x. (m'.objects x).collect_status) (sym it) ∙ u)
    | inr n ↦
        wf.connected id r (only id n within) (sym (local.devices id) ∙ d)
          (ap (λ o. o.collect_status) (sym (local.objects r (other id r n d))) ∙ u)
  ];
}
  where
    missing : {r : ℕ} → none ≡ some r → ⊥
    missing e = cc

    still : {A : Type 0} (x : ℕ) → A ⊎ In resumed x → A ⊎ In resumed' x
    still x (inl a) = inl a
    still x (inr within) = inr (grow x within)

    alone : (r : ℕ) → m.devices (m.objects ref).id ≡ some r → r ≡ ref
    alone r e = some_injective (sym e ∙ listed)

    same_id : (r : ℕ) → (m'.objects r).id ≡ (m.objects r).id
    same_id r = elim (eq-cases r ref) [
      | inl e ↦ rw e local.id
      | inr n ↦ ap (λ o. o.id) (local.objects r n)
    ]

    other : (id r : ℕ) → id ≢ (m.objects ref).id → m'.devices id ≡ some r → r ≢ ref
    other id r n d e =
        n (sym (wf.own id r (sym (local.devices id) ∙ d)).0 ∙ ap (λ x. (m.objects x).id) e)
