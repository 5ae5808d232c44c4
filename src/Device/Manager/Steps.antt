-- ===== src/Device/Manager/Steps.antt =====
-- The manager as a system: what is asked of it, what its brokers report, and its ticks.
use harns_gateway.Prelude.{
  ℕ, ◌≡◌, refl, sym, ap, ◌∙◌, List, [], Bool, true, false, none, some, Option-cases, some_injective,
  inl, inr, if◌then◌else◌,
}
use harns_gateway.Device.Types.{
  CollectStatus, collecting, collecting_error, stopped, DeviceStatusCh, Device, Started,
}
use harns_gateway.Device.Manager.{
  Manager, set_collect_status, listen, create_device, delete_device, heart_beat, receive,
}
use harns_gateway.Device.Manager.Invariant.{
  is_collecting, WellFormed, put-same, set_collect_status-Local,
}
use harns_gateway.Device.Manager.Collect.{settle, Orders}
use harns_gateway.Device.Manager.Reachable.{
  ordered-WellFormed, switched-WellFormed, load_device-WellFormed, delete_device-WellFormed,
}
use harns_gateway.Device.Manager.HeartBeat.{Distinct, names, heart_beat-WellFormed}

-- `NewManager`, where nothing has a pointer yet.
abbrev pub no_device : Device
no_device = record { id = 0; version = 0; collect_status = stopped; get_variable = λ name. none }

abbrev pub new_manager : Manager
new_manager = record {
  objects = λ ref. no_device;
  next = 0;
  devices = λ id. none;
  heart_beat_devices = λ id. none;
  brokers = λ id. false;
}

-- A device that is created has a new name and is stopped, a result comes from a broker that runs,
-- and a tick visits no name twice.
pub data Step (m : Manager) : Manager → Type 0 where
  created :
      (stored : Bool) (started : Started) (d : Device)
      → m.devices d.id ≡ none
      → d.collect_status ≡ stopped
      → Step m (create_device stored started d m)
  deleted : (id version : ℕ) → Step m (delete_device id version m)
  switched :
      (id : ℕ) (status : DeviceStatusCh) (started : Started) (m' : Manager)
      → listen id status started m ≡ some m'
      → Step m m'
  beaten : (visits : List (ℕ × Started)) → Distinct (names visits) → Step m (heart_beat visits m)
  received : (id : ℕ) (errors : Bool) → m.brokers id ≡ true → Step m (receive id errors m)

pub data Reaches : Manager → Manager → Type 0 where
  here : (m : Manager) → Reaches m m
  next : (m m' m'' : Manager) → Reaches m m' → Step m' m'' → Reaches m m''

new_manager-WellFormed : WellFormed [] new_manager
new_manager-WellFormed = record {
  own = λ id ref e. absurd (missing e);
  waits = λ id r h. absurd (missing h);
  runs = λ id ref e. absurd (missing e);
  gone = λ id e. refl;
  retried = λ id ref e u. absurd (missing e);
  idle = λ id r h. absurd (missing h);
  connected = λ id r within e. absurd within;
}
  where
    missing : {r : ℕ} → none ≡ some r → ⊥
    missing e = cc

create_device-WellFormed :
    (stored : Bool) (started : Started) (d : Device) (m : Manager)
    → WellFormed [] m
    → m.devices d.id ≡ none
    → d.collect_status ≡ stopped
    → WellFormed [] (create_device stored started d m)
unfolding create_device
create_device-WellFormed true started d m wf free halted =
    load_device-WellFormed started d m wf free halted
create_device-WellFormed false started d m wf free halted = wf

listen-WellFormed :
    (id : ℕ) (status : DeviceStatusCh) (started : Started) (m m' : Manager)
    → WellFormed [] m
    → listen id status started m ≡ some m'
    → WellFormed [] m'
unfolding listen
listen-WellFormed id status started m m' wf e = elim (Option-cases (m.devices id)) [
  | inl f ↦ absurd (missing (rw f at e))
  | inr (ref, f) ↦
      rw (some_injective (rw f at e)) at (switched-WellFormed m id ref status started wf f)
]
  where
    missing : none ≡ some m' → ⊥
    missing e = cc

received-Orders :
    (m : Manager) (id ref : ℕ) (status : CollectStatus)
    → WellFormed [] m
    → m.devices id ≡ some ref
    → m.brokers id ≡ true
    → is_collecting status ≡ true
    → Orders ref m (set_collect_status ref status m)
unfolding set_collect_status
received-Orders m id ref status wf listed on good =
    let (named, known) = wf.own id ref listed in
    record {
      local = set_collect_status-Local ref status m;
      settled =
          settle [] ref (set_collect_status ref status m) id status true (m.heart_beat_devices id)
            (ap (λ d. d.id) (put-same m.objects ref _) ∙ named)
            (ap (λ d. d.collect_status) (put-same m.objects ref _)) on refl (sym good)
            (λ r h. some_injective (sym (wf.waits id r h) ∙ listed))
            (λ u. absurd (differ (sym good ∙ ap is_collecting u))) (λ r h. absurd (not_waiting r h))
            (λ within. absurd within);
    }
  where
    differ : true ≡ false → ⊥
    differ e = cc

    not_waiting : (r : ℕ) → m.heart_beat_devices id ≡ some r → ⊥
    not_waiting r h = elim (wf.idle id r h) [
      | inl u ↦ differ (sym on ∙ wf.runs id r (wf.waits id r h) ∙ ap is_collecting u)
      | inr within ↦ within
    ]

receive-WellFormed :
    (id : ℕ) (errors : Bool) (m : Manager)
    → WellFormed [] m
    → m.brokers id ≡ true
    → WellFormed [] (receive id errors m)
unfolding receive
receive-WellFormed id errors m wf on = elim (Option-cases (m.devices id)) [
  | inl e ↦ rw e wf
  | inr (ref, e) ↦ rw e (
      ordered-WellFormed m _ id ref wf e (
        received-Orders m id ref (if errors then collecting_error else collecting) wf e on
          (either errors)))
]
  where
    either :
        (errors : Bool) → is_collecting (if errors then collecting_error else collecting) ≡ true
    either true = refl
    either false = refl

step-WellFormed : (m m' : Manager) → WellFormed [] m → Step m m' → WellFormed [] m'
step-WellFormed m _ wf (created stored started d free halted) =
    create_device-WellFormed stored started d m wf free halted
step-WellFormed m _ wf (deleted id version) = delete_device-WellFormed id version m wf
step-WellFormed m m' wf (switched id status started _ e) =
    listen-WellFormed id status started m m' wf e
step-WellFormed m _ wf (beaten visits distinct) = heart_beat-WellFormed visits m distinct wf
step-WellFormed m _ wf (received id errors on) = receive-WellFormed id errors m wf on

kept-WellFormed : (m m' : Manager) → WellFormed [] m → Reaches m m' → WellFormed [] m'
kept-WellFormed m _ wf (here _) = wf
kept-WellFormed m m'' wf (next _ m' _ before step) =
    step-WellFormed m' m'' (kept-WellFormed m m' wf before) step

-- Whatever sequence of creations, deletions, switches of status, ticks and results a new device
-- manager sees, a broker runs for exactly the devices whose status is collecting or
-- collectingError, a device whose status is unconnected waits for a connection, and all that waits
-- is an unconnected device of the manager. A device is created stopped and under a new name, a
-- result comes from a broker that runs, and a tick visits no name twice; updates are left out.
pub reached-WellFormed : (m : Manager) → Reaches new_manager m → WellFormed [] m
reached-WellFormed m reached = kept-WellFormed new_manager m new_manager-WellFormed reached
