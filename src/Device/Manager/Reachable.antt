-- ===== src/Device/Manager/Reachable.antt =====
-- The manager keeps in order, whatever is asked of it.
use harns_gateway.Prelude.{
  ℕ, ◌+◌, ◌<◌, ◌≡◌, ◌≢◌, refl, sym, ap, ◌∙◌, arith, [], Option, false, none, some, ◌==◌, Bool-cases,
  Option-cases, some_injective, inl, inr,
}
use harns_gateway.Device.Types.{unconnected, stopped, DeviceStatusCh, Device, Started}
use harns_gateway.Device.Manager.{
  Manager, put, set_collect_status, cancel_collect, forget, set_broker, switch_device_status,
  add_device, load_device, folded, fold_device, delete_device,
}
use harns_gateway.Device.Manager.Invariant.{
  is_collecting, WellFormed, put-same, put-other, eq-cases, Settled, change-WellFormed,
}
use harns_gateway.Device.Manager.Collect.{settle, Orders, started-Orders, switch_from-Orders}

pub listed_in_order :
    (m : Manager) (id ref : ℕ) → WellFormed [] m → m.devices id ≡ some ref → Settled [] ref m
listed_in_order m id ref wf listed =
    let (named, known) = wf.own id ref listed in
    settle [] ref m id (m.objects ref).collect_status (m.brokers id) (m.heart_beat_devices id) named
      refl refl refl (wf.runs id ref listed)
      (λ r h. some_injective (sym (wf.waits id r h) ∙ listed)) (wf.retried id ref listed)
      (λ r h.
        let it : r ≡ ref = some_injective (sym (wf.waits id r h) ∙ listed) in
        rw it at (wf.idle id r h))
      (λ within. absurd within)

pub ordered-WellFormed :
    (m m' : Manager) (id ref : ℕ)
    → WellFormed [] m
    → m.devices id ≡ some ref
    → Orders ref m m'
    → WellFormed [] m'
ordered-WellFormed m m' id ref wf listed orders =
    let (named, known) = wf.own id ref listed in
    change-WellFormed [] [] ref m m' wf (λ x h. h) (λ x n h. h) (ap m.devices named ∙ listed)
      orders.local orders.settled

pub switched-WellFormed :
    (m : Manager) (id ref : ℕ) (status : DeviceStatusCh) (started : Started)
    → WellFormed [] m
    → m.devices id ≡ some ref
    → WellFormed [] (switch_device_status status started ref m)
unfolding switch_device_status
switched-WellFormed m id ref status started wf listed = ordered-WellFormed m _ id ref wf listed (
    switch_from-Orders (m.objects ref).collect_status status started ref m refl
      (listed_in_order m id ref wf listed))

add_device-WellFormed :
    (d : Device) (m : Manager)
    → WellFormed [] m
    → m.devices d.id ≡ none
    → d.collect_status ≡ stopped
    → WellFormed [] (add_device d m)
unfolding add_device
add_device-WellFormed d m wf free halted = record {
  own = λ id r e. elim (eq-cases id d.id) [
    | inl n ↦
        let it = new_pointer id r n e in
        (rw it (ap (λ o. o.id) (put-same m.objects m.next d) ∙ sym n), omega (arith, it))
    | inr n ↦
        let (named, known) = wf.own id r (old id r n e) in
        (
          ap (λ o. o.id) (put-other m.objects m.next d r (omega arith)) ∙ named,
          omega (arith, known),
        )
  ];
  waits = λ id r h. put-other m.devices d.id (some m.next) id (not_new id r h) ∙ wf.waits id r h;
  runs = λ id r e. elim (eq-cases id d.id) [
    | inl n ↦
        let it = new_pointer id r n e in
        ap m.brokers n
        ∙ wf.gone d.id free
        ∙ ap is_collecting (sym halted)
        ∙ ap (λ o. is_collecting o.collect_status)
            (sym (put-same m.objects m.next d) ∙ ap (put m.objects m.next d) (sym it))
    | inr n ↦
        let (named, known) = wf.own id r (old id r n e) in
        wf.runs id r (old id r n e)
        ∙ ap (λ o. is_collecting o.collect_status)
            (sym (put-other m.objects m.next d r (omega arith)))
  ];
  gone = λ id e. elim (eq-cases id d.id) [
    | inl n ↦ ap m.brokers n ∙ wf.gone d.id free
    | inr n ↦ wf.gone id (sym (put-other m.devices d.id (some m.next) id n) ∙ e)
  ];
  retried = λ id r e u. elim (eq-cases id d.id) [
    | inl n ↦
        let it = new_pointer id r n e in
        let clash : stopped ≡ unconnected =
          sym halted
          ∙ ap (λ o. o.collect_status)
              (sym (put-same m.objects m.next d) ∙ ap (put m.objects m.next d) (sym it))
          ∙ u in
        absurd (differ clash)
    | inr n ↦
        let (named, known) = wf.own id r (old id r n e) in
        wf.retried id r (old id r n e)
          (ap (λ o. o.collect_status) (sym (put-other m.objects m.next d r (omega arith))) ∙ u)
  ];
  idle = λ id r h.
      let (named, known) = wf.own id r (wf.waits id r h) in
      rw (put-other m.objects m.next d r (omega arith)) (wf.idle id r h);
  connected = λ id r within e. absurd within;
}
  where
    differ : stopped ≡ unconnected → ⊥
    differ e = cc

    missing : {r : ℕ} → none ≡ some r → ⊥
    missing e = cc

    new_pointer : (id r : ℕ) → id ≡ d.id → put m.devices d.id (some m.next) id ≡ some r → r ≡ m.next
    new_pointer id r n e =
        some_injective
          (sym e ∙ ap (put m.devices d.id (some m.next)) n ∙ put-same m.devices d.id (some m.next))

    old :
        (id r : ℕ)
        → id ≢ d.id
        → put m.devices d.id (some m.next) id ≡ some r
        → m.devices id ≡ some r
    old id r n e = sym (put-other m.devices d.id (some m.next) id n) ∙ e

    not_new : (id r : ℕ) → m.heart_beat_devices id ≡ some r → id ≢ d.id
    not_new id r h n = missing (sym free ∙ ap m.devices (sym n) ∙ wf.waits id r h)

pub load_device-WellFormed :
    (started : Started) (d : Device) (m : Manager)
    → WellFormed [] m
    → m.devices d.id ≡ none
    → d.collect_status ≡ stopped
    → WellFormed [] (load_device started d m)
unfolding load_device
load_device-WellFormed started d m wf free halted =
    let added = add_device d m in
    let wf' = add_device-WellFormed d m wf free halted in
    let listed : added.devices d.id ≡ some m.next =
      unfold add_device in put-same m.devices d.id (some m.next) in
    let now : (added.objects m.next).collect_status ≡ stopped =
      unfold add_device in ap (λ o. o.collect_status) (put-same m.objects m.next d) ∙ halted in
    ordered-WellFormed added _ d.id m.next wf' listed
      (started-Orders started m.next added (listed_in_order added d.id m.next wf' listed) now)

-- A device is taken out, and what it is stays where it was.
removed-WellFormed :
    (m : Manager) (id : ℕ) (objects : ℕ → Device)
    → WellFormed [] m
    → ((r : ℕ) → r < m.next → objects r ≡ m.objects r)
    → WellFormed [] (record {
      objects = objects;
      next = m.next + 1;
      devices = put m.devices id none;
      heart_beat_devices = put m.heart_beat_devices id none;
      brokers = put m.brokers id false;
    })
removed-WellFormed m id objects wf same = record {
  own = λ x r e.
      let (named, known) = wf.own x r (kept x r e) in
      (ap (λ o. o.id) (same r known) ∙ named, omega (arith, known));
  waits = λ x r h.
      put-other m.devices id none x (other m.heart_beat_devices x r h)
      ∙ wf.waits x r (held m.heart_beat_devices x r h);
  runs = λ x r e.
      put-other m.brokers id false x (other m.devices x r e)
      ∙ wf.runs x r (kept x r e)
      ∙ ap (λ o. is_collecting o.collect_status) (sym (same r (wf.own x r (kept x r e)).1));
  gone = λ x e. elim (eq-cases x id) [
    | inl h ↦ ap (put m.brokers id false) h ∙ put-same m.brokers id false
    | inr n ↦
        put-other m.brokers id false x n ∙ wf.gone x (sym (put-other m.devices id none x n) ∙ e)
  ];
  retried = λ x r e u.
      put-other m.heart_beat_devices id none x (other m.devices x r e)
      ∙ wf.retried x r (kept x r e)
          (ap (λ o. o.collect_status) (sym (same r (wf.own x r (kept x r e)).1)) ∙ u);
  idle = λ x r h.
      let before = held m.heart_beat_devices x r h in
      rw (same r (wf.own x r (wf.waits x r before)).1) (wf.idle x r before);
  connected = λ x r within e. absurd within;
}
  where
    missing : {r : ℕ} → none ≡ some r → ⊥
    missing e = cc

    other : (f : ℕ → Option ℕ) (x r : ℕ) → put f id none x ≡ some r → x ≢ id
    other f x r e h = missing (sym (put-same f id none) ∙ ap (put f id none) (sym h) ∙ e)

    held : (f : ℕ → Option ℕ) (x r : ℕ) → put f id none x ≡ some r → f x ≡ some r
    held f x r e = sym (put-other f id none x (other f x r e)) ∙ e

    kept : (x r : ℕ) → put m.devices id none x ≡ some r → m.devices x ≡ some r
    kept = held m.devices

renamed-WellFormed :
    (m : Manager) (id listed key : ℕ) (objects : ℕ → Device)
    → WellFormed [] m
    → ((r : ℕ) → r < m.next → objects r ≡ m.objects r)
    → listed ≡ id
    → key ≡ id
    → WellFormed [] (record {
      objects = objects;
      next = m.next + 1;
      devices = put m.devices listed none;
      heart_beat_devices = put m.heart_beat_devices key none;
      brokers = put m.brokers key false;
    })
renamed-WellFormed m id listed key objects wf same e f =
    rw (e, f) (removed-WellFormed m id objects wf same)

deleted-WellFormed :
    (id ref : ℕ) (m : Manager)
    → WellFormed [] m
    → m.devices id ≡ some ref
    → WellFormed [] (
        let cancelled = cancel_collect m.next (fold_device ref m) in
        record cancelled { devices = put cancelled.devices (m.objects ref).id none })
unfolding cancel_collect forget set_broker set_collect_status fold_device
deleted-WellFormed id ref m wf listed =
    let named = (wf.own id ref listed).0 in
    renamed-WellFormed m id _ _ _ wf
      (λ r h.
        put-other (fold_device ref m).objects m.next _ r (omega (arith, h))
        ∙ put-other m.objects m.next (folded (m.objects ref)) r (omega (arith, h)))
      named (ap (λ d. d.id) (put-same m.objects m.next (folded (m.objects ref))) ∙ named)

pub delete_device-WellFormed :
    (id version : ℕ) (m : Manager) → WellFormed [] m → WellFormed [] (delete_device id version m)
unfolding delete_device
delete_device-WellFormed id version m wf = elim (Option-cases (m.devices id)) [
  | inl e ↦ rw e wf
  | inr (ref, e) ↦ elim (Bool-cases ((m.objects ref).version == version)) [
    | inl v ↦ rw (e, v) (deleted-WellFormed id ref m wf e)
    | inr v ↦ rw (e, v) wf
  ]
]
