-- ===== src/Device/Manager/Renewed.antt =====
-- A device that waits for a connection is updated, and then a tick comes.
use harns_gateway.Prelude.{
  ℕ, ◌<◌, ◌≡◌, ◌≢◌, refl, sym, ap, ◌∙◌, arith, [], ◌∷◌, Option, true, some, ◌==◌,
}
use harns_gateway.Device.Types.{collecting, unconnected, Device, broker}
use harns_gateway.Device.Manager.{
  Manager, put, set_collect_status, forget, set_broker, ready_collect, add_device,
  update_device_by_id, visit, range, forget_all, heart_beat,
}
use harns_gateway.Device.Manager.Invariant.{WellFormed, put-same, put-other}

-- The device in the map after the tick, and whether it has a broker.
abbrev pub Stale : ℕ → ℕ → Manager → Type 0
Stale id ref m =
    (m.devices id ≡ some ref)
    × ((m.objects ref).collect_status ≡ unconnected)
    × (m.brokers id ≡ true)

resumed : ℕ → ℕ → Manager → Manager
resumed id ref m =
    forget id (set_broker (m.objects ref).id true (set_collect_status ref collecting m))

tick-resumed :
    (id ref : ℕ) (m : Manager)
    → m.heart_beat_devices id ≡ some ref
    → heart_beat ((id, broker) ∷ []) m ≡ resumed id ref m
unfolding heart_beat range visit ready_collect forget_all resumed
tick-resumed id ref m waiting = rw waiting refl

resumed-Stale :
    (id ref : ℕ) (d : Device) (m : Manager)
    → (m.objects ref).id ≡ id
    → ref < m.next
    → d.id ≡ id
    → d.collect_status ≡ unconnected
    → Stale id m.next (resumed id ref (add_device d m))
unfolding resumed forget set_broker set_collect_status add_device
resumed-Stale id ref d m named known same halted =
    let older : m.next ≢ ref = omega (arith, known) in
    let kept : put m.objects m.next d ref ≡ m.objects ref =
      put-other m.objects m.next d ref (λ e. older (sym e)) in
    (
      ap (put m.devices d.id (some m.next)) (sym same) ∙ put-same m.devices d.id (some m.next),
      ap (λ o. o.collect_status)
            (put-other (put m.objects m.next d) ref _ m.next older ∙ put-same m.objects m.next d)
          ∙ halted,
      ap (put m.brokers (put m.objects m.next d ref).id true) (sym (ap (λ o. o.id) kept ∙ named))
          ∙ put-same m.brokers (put m.objects m.next d ref).id true,
    )

updated :
    (id ref : ℕ) (changed : Device → Option Device) (d : Device) (m : Manager)
    → m.devices id ≡ some ref
    → changed (m.objects ref) ≡ some d
    → update_device_by_id id (m.objects ref).version changed m ≡ add_device d m
unfolding update_device_by_id
updated id ref changed d m listed made =
    let same : ((m.objects ref).version == (m.objects ref).version) ≡ true = ground arith in
    rw (listed, same, made) refl

-- When a device that waits for a connection is updated, without a change of its name or status,
-- and the next tick visits that device alone and gives it a broker, the device of the manager
-- keeps the status unconnected while the broker runs. The manager was in order before.
pub update_device_by_id-Stale :
    (id ref : ℕ) (changed : Device → Option Device) (d : Device) (m : Manager)
    → WellFormed [] m
    → m.devices id ≡ some ref
    → (m.objects ref).collect_status ≡ unconnected
    → changed (m.objects ref) ≡ some d
    → d.id ≡ id
    → d.collect_status ≡ unconnected
    → Stale id m.next
        (heart_beat ((id, broker) ∷ []) (update_device_by_id id (m.objects ref).version changed m))
update_device_by_id-Stale id ref changed d m wf listed lost made same halted =
    let (named, known) = wf.own id ref listed in
    let waiting : (add_device d m).heart_beat_devices id ≡ some ref =
      unfold add_device in wf.retried id ref listed lost in
    rw (updated id ref changed d m listed made, tick-resumed id ref (add_device d m) waiting)
      (resumed-Stale id ref d m named known same halted)
