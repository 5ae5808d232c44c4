-- ===== src/Modbus/Types.antt =====
-- pkg/protocol/modbus/runtime/type.go and constant.go: variables, data frames, function codes and
-- errors. A field of type `uint` is below 2 ^ 64, one of type `uint8` below 256.
use Prim.Native.String.{String}
use harns_gateway.Prelude.{
  ℕ, Bool, List, ◌||◌, ◌&&◌, ◌==◌, Option, none, some, leb, length, take, drop, if◌then◌else◌,
}
use harns_gateway.Prelude.Int.{ℤ}
use harns_gateway.Binutil.Float.{FloatOps}
use harns_gateway.Constant.{DataType, MemoryLayout, AccessMode}

-- What an `interface{}` of the program holds here.
pub data Value (ops : FloatOps) : Type 0 where
  nil : Value ops
  of_bool : Bool → Value ops
  of_int16 : ℤ → Value ops
  of_uint16 : ℕ → Value ops
  of_int32 : ℤ → Value ops
  of_int64 : ℤ → Value ops
  of_float32 : ops.F32 → Value ops
  of_float64 : ops.F64 → Value ops

pub record Variable (ops : FloatOps) : Type 0 where
  pub data_type : DataType
  pub name : String
  pub address : ℕ
  pub bits : ℕ
  pub function_code : ℕ
  pub rate : ops.F64
  pub amount : ℕ
  pub default_value : Value ops
  pub value : Value ops
  pub access_mode : AccessMode

pub record VariableParse (ops : FloatOps) : Type 0 where
  pub variable : Variable ops
  pub start : ℕ

pub record DataFrame (ops : FloatOps) : Type 0 where
  pub slave : ℕ
  pub memory_layout : MemoryLayout
  pub start_address : ℕ
  pub function_code : ℕ
  pub max_data_size : ℕ
  pub transaction_id : ℕ
  pub data_frame : List ℕ
  pub response_data_frame : List ℕ
  pub variables : List (VariableParse ops)

-- `FunctionCode`
abbrev pub read_coil_status : ℕ
read_coil_status = 1

abbrev pub read_input_status : ℕ
read_input_status = 2

abbrev pub read_hold_register : ℕ
read_hold_register = 3

abbrev pub read_input_register : ℕ
read_input_register = 4

abbrev pub write_single_coil : ℕ
write_single_coil = 5

abbrev pub write_single_register : ℕ
write_single_register = 6

abbrev pub write_multiple_register : ℕ
write_multiple_register = 16

-- `case modbus.ReadCoilStatus, modbus.ReadInputStatus:`
abbrev pub reads_bits : ℕ → Bool
reads_bits code = code == read_coil_status || code == read_input_status

-- `case modbus.ReadHoldRegister, modbus.ReadInputRegister:`
abbrev pub reads_registers : ℕ → Bool
reads_registers code = code == read_hold_register || code == read_input_register

abbrev pub per_request_max_coil : ℕ
per_request_max_coil = 1983

abbrev pub per_request_max_register : ℕ
per_request_max_register = 123

-- The errors of constant.go, and those of pkg/runtime/constant/constants.go that a broker returns.
pub data Error : Type 0 where
  modbus_bad_conn modbus_server_bad_resp message_transaction message_slave : Error
  message_data_length_not_enough message_function_code_error many_retry crc16_error : Error
  device_type connect_device device_server_closed device_empty_variable : Error
  -- An error of a package that the program calls.
  io_error : Error

-- Go's (value, error) pair. `panic` is a run-time panic.
pub data Result {ℓ} (A : Type ℓ) : Type ℓ where
  ok : A → Result A
  err : Error → Result A
  panic : Result A

infixl 5 ◌>>=◌ ◌>>◌
abbrev pub ◌>>=◌ {ℓ κ} : {A : Type ℓ} {B : Type κ} → Result A → (A → Result B) → Result B
ok a >>= f = f a
err e >>= f = err e
panic >>= f = panic

abbrev pub ◌>>◌ {ℓ} : {B : Type ℓ} → Result (Unit {0}) → Result B → Result B
m >> k = m >>= λ _. k

-- An index or a slice out of range ends the caller too.
abbrev pub or_panic {ℓ} : {A : Type ℓ} → Option A → Result A
or_panic none = panic
or_panic (some a) = ok a

-- `buf[lo:hi]`
unfoldable pub slice : ℕ → ℕ → List ℕ → Option (List ℕ)
slice lo hi buf = if leb lo hi && leb hi (length buf) then some (drop lo (take hi buf)) else none

-- `buf[lo:]`
unfoldable pub slice_from : ℕ → List ℕ → Option (List ℕ)
slice_from lo buf = if leb lo (length buf) then some (drop lo buf) else none

-- `ModbusModel`
pub data ModbusModel : Type 0 where
  tcp rtu rtu_over_tcp : ModbusModel
