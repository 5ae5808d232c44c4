-- ===== src/Device/Manager/Collect.antt =====
-- Starting and stopping the collection of one device.
use harns_gateway.Prelude.{
  ℕ, ◌≡◌, ◌≢◌, ◌⊎◌, refl, sym, ap, ◌∙◌, List, [], Option, Bool, true, false, none, some,
  some_injective, inl, inr,
}
use harns_gateway.Device.Types.{
  CollectStatus, collecting, collecting_error, unconnected, empty_variable, stopped, error,
  DeviceStatusCh, restart, start, stop, Started, broker, no_connection, no_variables, failure,
}
use harns_gateway.Device.Manager.{
  Manager, put, set_collect_status, wait_for_connection, forget, set_broker, cancel_collect,
  ready_collect, start_collect, restart_collect, switch_from,
}
use harns_gateway.Device.Manager.Invariant.{
  is_collecting, In, put-same, Local, Local-refl, Local-trans, set_collect_status-Local,
  wait_for_connection-Local, forget-Local, set_broker-Local, Settled,
}

pub settle :
    (resumed : List ℕ) (ref : ℕ) (m : Manager) (id : ℕ) (s : CollectStatus) (b : Bool)
    (w : Option ℕ)
    → (m.objects ref).id ≡ id
    → (m.objects ref).collect_status ≡ s
    → m.brokers id ≡ b
    → m.heart_beat_devices id ≡ w
    → b ≡ is_collecting s
    → ((r : ℕ) → w ≡ some r → r ≡ ref)
    → (s ≡ unconnected → w ≡ some ref)
    → ((r : ℕ) → w ≡ some r → (s ≡ unconnected) ⊎ In resumed id)
    → (In resumed id → s ≢ unconnected)
    → Settled resumed ref m
settle resumed ref m id s b w named now runs wait r1 r2 r3 r4 r5 = record {
  runs = rw (named, now, runs) r1;
  waits = λ r h. r2 r (sym wait ∙ ap m.heart_beat_devices (sym named) ∙ h);
  retried = λ u. ap m.heart_beat_devices named ∙ wait ∙ r3 (sym now ∙ u);
  idle = λ r h. rw (named, now) (r4 r (sym wait ∙ ap m.heart_beat_devices (sym named) ∙ h));
  connected = λ within u. r5 (rw named at within) (sym now ∙ u);
}

cancel_collect-Local : (ref : ℕ) (m : Manager) → Local ref m (cancel_collect ref m)
unfolding cancel_collect
cancel_collect-Local ref m =
    let halted = set_collect_status ref stopped m in
    let named : (halted.objects ref).id ≡ (m.objects ref).id =
      (set_collect_status-Local ref stopped m).id in
    let let_go = forget (m.objects ref).id halted in
    let first = set_collect_status-Local ref stopped m in
    let second : Local ref halted let_go = rw named at (forget-Local ref halted) in
    let third : Local ref let_go (set_broker (m.objects ref).id false let_go) =
      rw (second.id ∙ named) at (set_broker-Local ref false let_go) in
    Local-trans ref m halted _ first (Local-trans ref halted let_go _ second third)

pub cancel_collect-Settled :
    (resumed : List ℕ) (ref : ℕ) (m : Manager)
    → Settled resumed ref (cancel_collect ref m)
      × ((cancel_collect ref m).brokers (m.objects ref).id ≡ false)
unfolding cancel_collect set_collect_status forget set_broker
cancel_collect-Settled resumed ref m =
    let id = (m.objects ref).id in
    (
      settle resumed ref (cancel_collect ref m) id stopped false none
          (ap (λ d. d.id) (put-same m.objects ref _))
          (ap (λ d. d.collect_status) (put-same m.objects ref _)) (put-same m.brokers id false)
          (put-same m.heart_beat_devices id none) refl (λ r e. cc) (λ e. cc) (λ r e. cc)
          (λ within e. cc),
      put-same m.brokers id false,
    )

start_collect-Local :
    (started : Started) (ref : ℕ) (m : Manager) → Local ref m (start_collect started ref m)
unfolding start_collect ready_collect
start_collect-Local broker ref m =
    let first = set_collect_status-Local ref collecting m in
    Local-trans ref m (set_collect_status ref collecting m) _ first
      (rw first.id at (set_broker-Local ref true (set_collect_status ref collecting m)))
start_collect-Local no_connection ref m =
    Local-trans ref m (set_collect_status ref unconnected m) _
      (set_collect_status-Local ref unconnected m)
      (wait_for_connection-Local ref (set_collect_status ref unconnected m))
start_collect-Local no_variables ref m = set_collect_status-Local ref empty_variable m
start_collect-Local failure ref m = Local-refl ref m

-- A device that has no broker is started.
start_collect-Settled :
    (started : Started) (ref : ℕ) (m : Manager)
    → Settled [] ref m
    → m.brokers (m.objects ref).id ≡ false
    → ((r : ℕ) → m.heart_beat_devices (m.objects ref).id ≢ some r)
    → Settled [] ref (start_collect started ref m)
unfolding start_collect ready_collect set_collect_status set_broker wait_for_connection
start_collect-Settled broker ref m before off alone =
    let id = (m.objects ref).id in
    settle [] ref (start_collect broker ref m) id collecting true (m.heart_beat_devices id)
      (ap (λ d. d.id) (put-same m.objects ref _))
      (ap (λ d. d.collect_status) (put-same m.objects ref _)) (put-same m.brokers id true) refl refl
      before.waits (λ e. cc) (λ r e. absurd (alone r e)) (λ within. absurd within)
start_collect-Settled no_connection ref m before off alone =
    let id = (m.objects ref).id in
    let named : (put m.objects ref (record (m.objects ref) { collect_status = unconnected }) ref).id
        ≡ id =
      ap (λ d. d.id) (put-same m.objects ref _) in
    settle [] ref (start_collect no_connection ref m) id unconnected false (some ref) named
      (ap (λ d. d.collect_status) (put-same m.objects ref _)) off
      (rw named (put-same m.heart_beat_devices id (some ref))) refl (λ r e. sym (some_injective e))
      (λ e. refl) (λ r e. inl refl) (λ within. absurd within)
start_collect-Settled no_variables ref m before off alone =
    let id = (m.objects ref).id in
    settle [] ref (start_collect no_variables ref m) id empty_variable false
      (m.heart_beat_devices id) (ap (λ d. d.id) (put-same m.objects ref _))
      (ap (λ d. d.collect_status) (put-same m.objects ref _)) off refl refl before.waits (λ e. cc)
      (λ r e. absurd (alone r e)) (λ within. absurd within)
start_collect-Settled failure ref m before off alone = before

-- A change of one device that puts it in order.
pub record Orders (ref : ℕ) (m m' : Manager) : Type 0 where
  pub local : Local ref m m'
  pub settled : Settled [] ref m'

pub cancelled-Orders : (ref : ℕ) (m : Manager) → Orders ref m (cancel_collect ref m)
cancelled-Orders ref m = record {
  local = cancel_collect-Local ref m;
  settled = (cancel_collect-Settled [] ref m).0;
}

restarted-Orders :
    (started : Started) (ref : ℕ) (m : Manager) → Orders ref m (restart_collect started ref m)
unfolding set_collect_status
restarted-Orders started ref m =
    let halted = cancel_collect ref m in
    let local = cancel_collect-Local ref m in
    let (settled, off) = cancel_collect-Settled [] ref m in
    let let_go : halted.heart_beat_devices (m.objects ref).id ≡ none =
      unfold cancel_collect forget set_broker in
      put-same m.heart_beat_devices (m.objects ref).id none in
    record {
      local = Local-trans ref m halted _ local (start_collect-Local started ref halted);
      settled =
          start_collect-Settled started ref halted settled (ap halted.brokers local.id ∙ off)
            (λ r e. nothing (sym let_go ∙ ap halted.heart_beat_devices (sym local.id) ∙ e));
    }
  where
    nothing : {r : ℕ} → none ≡ some r → ⊥
    nothing e = cc

pub started-Orders :
    (started : Started) (ref : ℕ) (m : Manager)
    → Settled [] ref m
    → (m.objects ref).collect_status ≡ stopped
    → Orders ref m (start_collect started ref m)
started-Orders started ref m before halted = record {
  local = start_collect-Local started ref m;
  settled =
      start_collect-Settled started ref m before (before.runs ∙ ap is_collecting halted)
        (λ r e. not_waiting (before.idle r e));
}
  where
    not_waiting : ((m.objects ref).collect_status ≡ unconnected) ⊎ In [] (m.objects ref).id → ⊥
    not_waiting (inl u) = let clash : stopped ≡ unconnected = sym halted ∙ u in cc clash
    not_waiting (inr within) = within

same-Orders : (ref : ℕ) (m : Manager) → Settled [] ref m → Orders ref m m
same-Orders ref m before = record { local = Local-refl ref m; settled = before }

pub switch_from-Orders :
    (now : CollectStatus) (status : DeviceStatusCh) (started : Started) (ref : ℕ) (m : Manager)
    → (m.objects ref).collect_status ≡ now
    → Settled [] ref m
    → Orders ref m (switch_from now status started ref m)
unfolding switch_from
switch_from-Orders collecting start started ref m e before = same-Orders ref m before
switch_from-Orders collecting restart started ref m e before = restarted-Orders started ref m
switch_from-Orders collecting stop started ref m e before = cancelled-Orders ref m
switch_from-Orders stopped stop started ref m e before = same-Orders ref m before
switch_from-Orders stopped restart started ref m e before = started-Orders started ref m before e
switch_from-Orders stopped start started ref m e before = started-Orders started ref m before e
switch_from-Orders collecting_error stop started ref m e before = cancelled-Orders ref m
switch_from-Orders collecting_error start started ref m e before = restarted-Orders started ref m
switch_from-Orders collecting_error restart started ref m e before = restarted-Orders started ref m
switch_from-Orders error stop started ref m e before = cancelled-Orders ref m
switch_from-Orders error start started ref m e before = restarted-Orders started ref m
switch_from-Orders error restart started ref m e before = restarted-Orders started ref m
switch_from-Orders unconnected stop started ref m e before = cancelled-Orders ref m
switch_from-Orders unconnected start started ref m e before = restarted-Orders started ref m
switch_from-Orders unconnected restart started ref m e before = restarted-Orders started ref m
switch_from-Orders empty_variable stop started ref m e before = cancelled-Orders ref m
switch_from-Orders empty_variable start started ref m e before = restarted-Orders started ref m
switch_from-Orders empty_variable restart started ref m e before = restarted-Orders started ref m
