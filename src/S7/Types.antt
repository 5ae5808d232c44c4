-- ===== src/S7/Types.antt =====
-- pkg/protocol/s7/runtime/type.go and constant.go: areas, variables and their lengths, errors. A
-- string of an address is the list of its bytes.
use Prim.Native.String.{String}
use harns_gateway.Prelude.{ℕ, ◌≡◌, refl, List, Option, none, some}
use harns_gateway.Binutil.Float.{FloatOps}
use harns_gateway.Constant.{DataType, AccessMode}
use harns_gateway.Modbus.Types.{Value}

-- `S7StoreArea`
pub data Area : Type 0 where
  i q m db : Area

-- `StoreAreaCode`
unfoldable pub store_area_code : Area → ℕ
store_area_code i = 129
store_area_code q = 130
store_area_code m = 131
store_area_code db = 132

-- `StoreAreaTransportSize`
unfoldable pub store_area_transport_size : Area → ℕ
store_area_transport_size i = 2
store_area_transport_size q = 2
store_area_transport_size m = 2
store_area_transport_size db = 4

pub record Variable (ops : FloatOps) : Type 0 where
  pub data_type : DataType
  pub name : String
  pub address : List ℕ
  pub rate : ops.F64
  pub default_value : Value ops
  pub value : Value ops
  pub access_mode : AccessMode

-- The length of a data type in the inputs, outputs and flags, which are read by bytes.
abbrev pub byte_length : DataType → ℕ
byte_length DataType.bool = 1
byte_length DataType.string = 1
byte_length DataType.uint16 = 2
byte_length DataType.int16 = 2
byte_length DataType.int32 = 4
byte_length DataType.float32 = 4
byte_length DataType.int64 = 8
byte_length DataType.float64 = 8
byte_length _ = 1

-- `DataRequestLength`: a data block is read by words.
unfoldable pub data_request_length : DataType → Area → ℕ
data_request_length t i = byte_length t
data_request_length t q = byte_length t
data_request_length t m = byte_length t
data_request_length DataType.int32 db = 2
data_request_length DataType.float32 db = 2
data_request_length DataType.int64 db = 4
data_request_length DataType.float64 db = 4
data_request_length _ db = 1

-- `DataResponseLength`, in bytes.
unfoldable pub data_response_length : DataType → Area → ℕ
data_response_length t i = byte_length t
data_response_length t q = byte_length t
data_response_length t m = byte_length t
data_response_length DataType.int32 db = 4
data_response_length DataType.float32 db = 4
data_response_length DataType.int64 db = 8
data_response_length DataType.float64 db = 8
data_response_length _ db = 2

-- `DataTypeBitLength`
unfoldable pub data_type_bit_length : DataType → ℕ
data_type_bit_length DataType.bool = 1
data_type_bit_length DataType.int32 = 32
data_type_bit_length DataType.float32 = 32
data_type_bit_length DataType.int64 = 64
data_type_bit_length DataType.float64 = 64
data_type_bit_length _ = 16

-- The errors of constant.go, and those of pkg/runtime/constant/constants.go that a broker returns.
pub data Error : Type 0 where
  bad_conn command_failed server_bad_resp many_retry : Error
  connect_s7_device_cotp_message connect_s7_device_s7comm_message : Error
  message_data_length_not_enough message_s7_response : Error
  device_type connect_device device_empty_variable io_error : Error

-- Go's (value, error) pair. `panic` is a run-time panic.
pub data Result {ℓ} (A : Type ℓ) : Type ℓ where
  ok : A → Result A
  err : Error → Result A
  panic : Result A

infixl 5 ◌>>=◌
abbrev pub ◌>>=◌ {ℓ κ} : {A : Type ℓ} {B : Type κ} → Result A → (A → Result B) → Result B
◌>>=◌ (ok x) next = next x
◌>>=◌ (err why) next = err why
◌>>=◌ panic next = panic

abbrev pub or_panic {ℓ} : {A : Type ℓ} → Option A → Result A
or_panic none = panic
or_panic (some a) = ok a

-- A chain ends well when its first step does, and then the rest.
pub after-ok {ℓ κ} :
    {A : Type ℓ} {B : Type κ} (first : Result A) (rest : A → Result B) {end : B}
    → (first >>= rest) ≡ ok end
    → (x : A) × (first ≡ ok x) × (rest x ≡ ok end)
after-ok panic rest e = cc e
after-ok (err why) rest e = cc e
after-ok (ok x) rest e = (x, refl, e)

pub or_panic-ok {ℓ} : {A : Type ℓ} (m : Option A) {a : A} → or_panic m ≡ ok a → m ≡ some a
or_panic-ok none h = cc
or_panic-ok (some a) h = cc

pub ok_injective {ℓ} : {A : Type ℓ} {a b : A} → ok a ≡ ok b → a ≡ b
ok_injective e = cc

pub err≢ok {ℓ} : {A : Type ℓ} {why : Error} {a : A} → err why ≡ ok a → ⊥
err≢ok e = cc
