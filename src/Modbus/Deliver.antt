-- ===== src/Modbus/Deliver.antt =====
-- `DeliverAction` of pkg/protocol/modbus/modbusbroker.go, up to the frames: the values of a request
-- are converted to the types of their variables, and each PDU is framed.
pub mod Frame
pub mod Reply
use Prim.Native.String.{String}
use text.Mathlib.Text.{◌==◌ as str_eq}
use harns_gateway.Prelude.{
  ℕ, ◌+◌, ◌%◌, ◌^◌, List, [], ◌∷◌, ◌++◌, Option, Bool, none, some, ◌>>=◌, length, replicate,
  if◌then◌else◌,
}
use harns_gateway.Binutil.Float.{FloatOps}
use harns_gateway.Binutil.Write.{write_from, write_uint16_big_endian}
use harns_gateway.Constant.{DataType}
use harns_gateway.Crc.{check_crc16sum}
use harns_gateway.Modbus.Types.{
  Value, nil, of_bool, of_int16, of_uint16, of_int32, of_int64, of_float32, of_float64, Variable,
}
use harns_gateway.Modbus.Response.{Checks}

-- What the JSON of a request holds.
pub data Json (ops : FloatOps) : Type 0 where
  json_bool : Bool → Json ops
  json_string : String → Json ops
  json_number : ops.F64 → Json ops
  json_other : Json ops

-- The errors that end `DeliverAction` before anything is sent.
pub data Refusal : Type 0 where
  boolean_invalid integer16_invalid integer32_invalid integer64_invalid : Refusal
  float32_invalid float64_invalid : Refusal

-- A conversion, a refusal of a variable by name, or a panic.
pub data Prepared {ℓ} (A : Type ℓ) : Type ℓ where
  ready : A → Prepared A
  refused : String → Refusal → Prepared A
  crashed : Prepared A

-- The bytes around a PDU, which is the `i`th. The length of the header counts the slave and the PDU.
unfoldable pub action_header : Bool → ℕ → List ℕ → Option (List ℕ)
action_header check_transaction i pdu =
    if check_transaction
    then (do
      h1 ← write_from 0 (write_uint16_big_endian (i % 2 ^ 16)) (replicate 6 0)
      h2 ← write_from 2 (write_uint16_big_endian 0) h1
      write_from 4 (write_uint16_big_endian ((1 + length pdu) % 2 ^ 16)) h2)
    else some []

unfoldable pub action_tail : Bool → List ℕ → Option (List ℕ)
action_tail check_crc bytes =
    if check_crc
    then (do sum ← check_crc16sum bytes; write_uint16_big_endian sum (replicate 2 0))
    else some []

unfoldable pub action_frame : Checks → ℕ → ℕ → List ℕ → Option (List ℕ)
action_frame checks slave i pdu = do
  head ← action_header checks.transaction i pdu
  let bytes = (head ++ (slave % 256 ∷ [])) ++ pdu
  tail ← action_tail checks.crc16sum bytes
  some (bytes ++ tail)

module _ (ops : FloatOps) (parse_bool : String → Option Bool) where
  open ops use {f64_to_int16, f64_to_uint16, f64_to_int32, f64_to_int64, f64_to_f32}

  unfoldable pub parsed_bool : String → Option Bool → Prepared (Value ops)
  parsed_bool name none = refused name boolean_invalid
  parsed_bool name (some b) = ready (of_bool b)

  -- The switch on the data type. `parse_bool` is `strconv.ParseBool`. A variable of another type
  -- keeps the value nil.
  unfoldable pub action_value : String → DataType → Json ops → Prepared (Value ops)
  action_value name DataType.bool (json_bool b) = ready (of_bool b)
  action_value name DataType.bool (json_string s) = parsed_bool name (parse_bool s)
  action_value name DataType.bool _ = refused name boolean_invalid
  action_value name DataType.int16 (json_number x) = ready (of_int16 (f64_to_int16 x))
  action_value name DataType.int16 _ = refused name integer16_invalid
  action_value name DataType.uint16 (json_number x) = ready (of_uint16 (f64_to_uint16 x))
  action_value name DataType.uint16 _ = refused name integer16_invalid
  action_value name DataType.int32 (json_number x) = ready (of_int32 (f64_to_int32 x))
  action_value name DataType.int32 _ = refused name integer32_invalid
  action_value name DataType.int64 (json_number x) = ready (of_int64 (f64_to_int64 x))
  action_value name DataType.int64 _ = refused name integer64_invalid
  action_value name DataType.float32 (json_number x) = ready (of_float32 (f64_to_f32 x))
  action_value name DataType.float32 _ = refused name float32_invalid
  action_value name DataType.float64 (json_number x) = ready (of_float64 x)
  action_value name DataType.float64 _ = refused name float64_invalid
  action_value name DataType.number _ = ready nil
  action_value name DataType.string _ = ready nil

  abbrev pub or_else : Option (Variable ops) → Option (Variable ops) → Option (Variable ops)
  or_else (some v) w = some v
  or_else none w = w

  -- `GetVariable` on the map that `IndexDevice` makes: of variables of one name, the last.
  unfoldable pub get_variable : List (Variable ops) → String → Option (Variable ops)
  get_variable [] key = none
  get_variable (v ∷ vs) key =
      or_else (get_variable vs key) (if str_eq v.name key then some v else none)

  abbrev pub with_value : Variable ops → Prepared (Value ops) → Prepared (Variable ops)
  with_value v (ready value) = ready (record v { default_value = nil; value = value })
  with_value v (refused name why) = refused name why
  with_value v crashed = crashed

  -- The copy of a variable with its value. A name without a variable panics in the type assertion.
  unfoldable pub action_variable :
      String → Json ops → Option (Variable ops) → Prepared (Variable ops)
  action_variable name value none = crashed
  action_variable name value (some v) = with_value v (action_value name v.data_type value)

  abbrev pub prepend :
      Prepared (Variable ops) → Prepared (List (Variable ops)) → Prepared (List (Variable ops))
  prepend (ready v) (ready vs) = ready (v ∷ vs)
  prepend (ready v) rest = rest
  prepend (refused name why) rest = refused name why
  prepend crashed rest = crashed

  -- The loop over the request, whose order Go leaves open.
  unfoldable pub prepare_action :
      List (Variable ops) → List (String × Json ops) → Prepared (List (Variable ops))
  prepare_action variables [] = ready []
  prepare_action variables ((name, value) ∷ rest) =
      prepend (action_variable name value (get_variable variables name))
        (prepare_action variables rest)
