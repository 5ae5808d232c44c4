-- ===== src/Device/Types.antt =====
-- pkg/runtime/meta.go: the status of a device and its names, and what a device manager sees of a
-- device. Names of devices, that is their UUIDs, are numbers here.
use Prim.Native.String.{String}
use text.Mathlib.Text.{◌==◌ as str_eq}
use harns_gateway.Prelude.{ℕ, Option, none, some, if◌then◌else◌}
use harns_gateway.Constant.{AccessMode}

-- `CollectStatus`
pub data CollectStatus : Type 0 where
  collecting collecting_error unconnected empty_variable stopped error : CollectStatus

-- `DeviceStatusCh`
pub data DeviceStatusCh : Type 0 where
  restart start stop : DeviceStatusCh

-- `StringToDeviceStatusCh`
unfoldable pub string_to_device_status_ch : String → Option DeviceStatusCh
string_to_device_status_ch s =
    if str_eq s "restart"
    then some restart
    else if str_eq s "start"
    then some start
    else if str_eq s "stop"
    then some stop
    else none

-- What the manager reads and writes of a device. `get_variable` gives the access mode of the
-- variable of a name.
pub record Device : Type 0 where
  pub id : ℕ
  pub version : ℕ
  pub collect_status : CollectStatus
  pub get_variable : String → Option AccessMode

-- What `NewBroker` of the device's type gives: a broker, `ErrConnectDevice`,
-- `ErrDeviceEmptyVariable` or another error.
pub data Started : Type 0 where
  broker no_connection no_variables failure : Started
