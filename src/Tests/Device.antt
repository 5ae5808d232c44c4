-- ===== src/Tests/Device.antt =====
-- pkg/device/manager.go at concrete inputs.
use harns_gateway.Prelude.{◌≡◌, refl, [], ◌∷◌, Option, true, none, some}
use harns_gateway.Device.Types.{
  unconnected, stopped, string_to_device_status_ch, stop, Device, broker, no_connection,
}
use harns_gateway.Device.Manager.{
  Manager, set_collect_status, wait_for_connection, forget, set_broker, ready_collect,
  start_collect, add_device, load_device, create_device, update_device_by_id, visit, range,
  forget_all, heart_beat,
}
use harns_gateway.Device.Manager.Renewed.{Stale, update_device_by_id-Stale}
use harns_gateway.Device.Manager.Invariant.{WellFormed}
use harns_gateway.Device.Manager.Steps.{
  new_manager, Reaches, here, next, created, beaten, reached-WellFormed,
}

abbrev press : Device
press = record { id = 7; version = 1; collect_status = stopped; get_variable = λ name. none }

-- A device that cannot be reached at first, and can at the next tick.
abbrev after_creation : Manager
after_creation = create_device true no_connection press new_manager

abbrev after_tick : Manager
after_tick = heart_beat ((7, broker) ∷ []) after_creation

creation_reached : Reaches new_manager after_creation
creation_reached =
    next new_manager new_manager after_creation (here new_manager)
      (created true no_connection press refl refl)

tick_reached : Reaches new_manager after_tick
tick_reached =
    next new_manager after_creation after_tick creation_reached (beaten ((7, broker) ∷ []) (tt, tt))

tick_collects : after_tick.brokers 7 ≡ true
unfolding heart_beat range visit ready_collect forget_all forget set_broker create_device
    load_device start_collect wait_for_connection add_device set_collect_status
tick_collects = refl

stop_read : string_to_device_status_ch "stop" ≡ some stop
unfolding string_to_device_status_ch
stop_read = refl

reached-WellFormed_example : WellFormed [] after_tick
reached-WellFormed_example = reached-WellFormed after_tick tick_reached

-- An update that only raises the version.
abbrev renewed : Device → Option Device
renewed d = some (record d { version = 2 })

waits_after_creation : after_creation.heart_beat_devices 7 ≡ some 0
unfolding create_device load_device start_collect ready_collect wait_for_connection add_device
    set_collect_status
waits_after_creation = refl

update_device_by_id-Stale_example : Stale 7 after_creation.next (
    heart_beat
      ((7, broker) ∷ [])
      (update_device_by_id 7 (after_creation.objects 0).version renewed after_creation))
unfolding create_device load_device start_collect ready_collect wait_for_connection add_device
    set_collect_status
update_device_by_id-Stale_example =
    update_device_by_id-Stale 7 0 renewed
      (record { id = 7; version = 2; collect_status = unconnected; get_variable = λ name. none })
      after_creation (reached-WellFormed after_creation creation_reached) refl refl refl refl refl
