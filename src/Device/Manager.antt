-- ===== src/Device/Manager.antt =====
-- `Manager` of pkg/device/manager.go: which devices are collected, and which wait for a connection.
pub mod Invariant
pub mod Collect
pub mod HeartBeat
pub mod Reachable
pub mod Steps
pub mod Renewed
use harns_gateway.Prelude.{
  ℕ, ◌+◌, List, [], ◌∷◌, Option, Bool, true, false, none, some, ◌==◌, if◌then◌else◌,
}
use harns_gateway.Device.Types.{
  CollectStatus, collecting, collecting_error, unconnected, empty_variable, stopped, error,
  DeviceStatusCh, restart, start, stop, Device, Started, broker, no_connection, no_variables,
  failure,
}

-- Devices are pointers: `objects` is what they point to, and pointers from `next` on are free. The
-- maps are functions, `none` and `false` for a key that they do not have.
pub record Manager : Type 0 where
  pub objects : ℕ → Device
  pub next : ℕ
  pub devices : ℕ → Option ℕ
  pub heart_beat_devices : ℕ → Option ℕ
  pub brokers : ℕ → Bool

-- A map with another value at a key.
abbrev pub put {ℓ} : {A : Type ℓ} → (ℕ → A) → ℕ → A → ℕ → A
put f key value x = if x == key then value else f x

-- What is done with a device that is found, or when there is none.
abbrev pub found {ℓ} : {A : Type ℓ} → Option ℕ → A → (ℕ → A) → A
found none missing use_it = missing
found (some ref) missing use_it = use_it ref

-- `SetCollectStatus`
unfoldable pub set_collect_status : ℕ → CollectStatus → Manager → Manager
set_collect_status ref status m = record m {
  objects = put m.objects ref (record (m.objects ref) { collect_status = status });
}

-- `heartBeatDevices.Store`
unfoldable pub wait_for_connection : ℕ → Manager → Manager
wait_for_connection ref m = record m {
  heart_beat_devices = put m.heart_beat_devices (m.objects ref).id (some ref);
}

-- `heartBeatDevices.Delete`
unfoldable pub forget : ℕ → Manager → Manager
forget id m = record m { heart_beat_devices = put m.heart_beat_devices id none }

-- `m.brokers[id] = broker` and `delete(m.brokers, id)`.
unfoldable pub set_broker : ℕ → Bool → Manager → Manager
set_broker id runs m = record m { brokers = put m.brokers id runs }

unfoldable pub cancel_collect : ℕ → Manager → Manager
cancel_collect ref m =
    let id = (m.objects ref).id in
    set_broker id false (forget id (set_collect_status ref stopped m))

-- The error of `readyCollect`.
pub data Ready : Type 0 where
  fine not_connected failed : Ready

unfoldable pub ready_collect : Started → ℕ → Manager → Manager × Ready
ready_collect broker ref m =
    (set_broker (m.objects ref).id true (set_collect_status ref collecting m), fine)
ready_collect no_connection ref m = (set_collect_status ref unconnected m, not_connected)
ready_collect no_variables ref m = (set_collect_status ref empty_variable m, fine)
ready_collect failure ref m = (m, failed)

abbrev pub is_fine : Ready → Bool
is_fine fine = true
is_fine not_connected = false
is_fine failed = false

abbrev pub or_wait : ℕ → Manager × Ready → Manager
or_wait ref (m, fine) = m
or_wait ref (m, not_connected) = wait_for_connection ref m
or_wait ref (m, failed) = m

-- `readyCollect`, and a device without a connection waits for one.
unfoldable pub start_collect : Started → ℕ → Manager → Manager
start_collect started ref m = or_wait ref (ready_collect started ref m)

abbrev pub restart_collect : Started → ℕ → Manager → Manager
restart_collect started ref m = start_collect started ref (cancel_collect ref m)

-- The cases of `switchDeviceStatus`.
unfoldable pub switch_from : CollectStatus → DeviceStatusCh → Started → ℕ → Manager → Manager
switch_from collecting start started ref m = m
switch_from collecting restart started ref m = restart_collect started ref m
switch_from collecting stop started ref m = cancel_collect ref m
switch_from stopped stop started ref m = m
switch_from stopped restart started ref m = start_collect started ref m
switch_from stopped start started ref m = start_collect started ref m
switch_from _ stop started ref m = cancel_collect ref m
switch_from _ _ started ref m = restart_collect started ref m

unfoldable pub switch_device_status : DeviceStatusCh → Started → ℕ → Manager → Manager
switch_device_status status started ref m =
    switch_from (m.objects ref).collect_status status started ref m

-- `listeningDeviceStatusCh` for one message. `none` is a panic: a device that is not found is
-- logged and used all the same.
unfoldable pub listen : ℕ → DeviceStatusCh → Started → Manager → Option Manager
listen id status started m =
    found (m.devices id) none (λ ref. some (switch_device_status status started ref m))

-- A device of the store or of a request gets a pointer.
unfoldable pub add_device : Device → Manager → Manager
add_device d m = record {
  objects = put m.objects m.next d;
  next = m.next + 1;
  devices = put m.devices d.id (some m.next);
  heart_beat_devices = m.heart_beat_devices;
  brokers = m.brokers;
}

-- One turn of `Init`, and `CreateDevice` from the stored device on.
unfoldable pub load_device : Started → Device → Manager → Manager
load_device started d m = start_collect started m.next (add_device d m)

-- `CreateDevice`: `stored` says whether the store takes the device. Its error for a device that
-- cannot be started leaves it in the store and among the devices.
unfoldable pub create_device : Bool → Started → Device → Manager → Manager
create_device stored started d m = if stored then load_device started d m else m

-- `foldDevice`: a copy without the variables, with a pointer of its own.
abbrev pub folded : Device → Device
folded d = record d { get_variable = λ name. none }

unfoldable pub fold_device : ℕ → Manager → Manager
fold_device ref m = record {
  objects = put m.objects m.next (folded (m.objects ref));
  next = m.next + 1;
  devices = m.devices;
  heart_beat_devices = m.heart_beat_devices;
  brokers = m.brokers;
}

-- `DeleteDevice`, where the goroutine that calls `cancelCollect` on the folded device runs at once.
-- The managers of the protocols delete every device that they are given.
unfoldable pub delete_device : ℕ → ℕ → Manager → Manager
delete_device id version m = found (m.devices id) m (λ ref.
    if (m.objects ref).version == version
    then (let cancelled = cancel_collect m.next (fold_device ref m) in
        record cancelled { devices = put cancelled.devices (m.objects ref).id none })
    else m)

-- A device that was changed has a pointer of its own.
abbrev pub or_unchanged : Manager → Option Device → Manager
or_unchanged m none = m
or_unchanged m (some d) = add_device d m

-- `UpdateDeviceById`: a copy of the device is changed and stored, where `changed` is what
-- `UpdateValidation`, `UpdateDevice` and the store make of it.
unfoldable pub update_device_by_id : ℕ → ℕ → (Device → Option Device) → Manager → Manager
update_device_by_id id version changed m = found (m.devices id) m (λ ref.
    if (m.objects ref).version == version then or_unchanged m (changed (m.objects ref)) else m)

-- One call of the function that `heartBeatDetection` gives to `Range`: whether it goes on.
unfoldable pub visit : Started → ℕ → Manager → Manager × Bool
visit started ref m = let r = ready_collect started ref m in (r.0, is_fine r.1)

abbrev pub resumed_too : ℕ → Manager × List ℕ → Manager × List ℕ
resumed_too id (m, ids) = (m, id ∷ ids)

abbrev pub go_on : ℕ → (Manager → Manager × List ℕ) → Manager × Bool → Manager × List ℕ
go_on id next (m, true) = resumed_too id (next m)
go_on id next (m, false) = (m, [])

-- `Range` over the devices that wait, in an order that Go leaves open, with what their brokers
-- give; the devices that are resumed.
unfoldable pub range : List (ℕ × Started) → Manager → Manager × List ℕ
range [] m = (m, [])
range ((id, started) ∷ rest) m =
    found (m.heart_beat_devices id) (range rest m)
      (λ ref. go_on id (range rest) (visit started ref m))

unfoldable pub forget_all : List ℕ → Manager → Manager
forget_all [] m = m
forget_all (id ∷ ids) m = forget_all ids (forget id m)

-- One tick of `heartBeatDetection`.
unfoldable pub heart_beat : List (ℕ × Started) → Manager → Manager
heart_beat visits m = let ranged = range visits m in forget_all ranged.1 ranged.0

-- A result of a broker: the status follows its errors. What is published of it is left out.
unfoldable pub receive : ℕ → Bool → Manager → Manager
receive id errors m =
    found (m.devices id) m
      (λ ref. set_collect_status ref (if errors then collecting_error else collecting) m)
