-- ===== src/S7/Response/Scaled.antt =====
-- Variables with a rate: the assertion `v.(float64)` on a number of another type.
use harns_gateway.Prelude.{ℕ, ◌+◌, ◌≡◌, refl, List, [], ◌∷◌, ◌++◌, Option, true, some, none, ◌>>=◌}
use harns_gateway.Binutil.Float.{FloatOps, parse_float32_big_endian}
use harns_gateway.Binutil.Parse.{
  parse_uint16_big_endian, parse_uint32_big_endian, parse_uint64_big_endian,
}
use harns_gateway.Constant.{DataType}
use harns_gateway.Modbus.Types.{slice_from}
use harns_gateway.Modbus.Decode.{is_scaled}
use harns_gateway.S7.Request.{VariableParse, DataFrame}
use harns_gateway.S7.Response.{
  parse_data, parse_switch, parse_value, parse_variable_values, parse_variable_value,
}

-- The data types of numbers but float64.
abbrev pub IsOther : DataType → Type 0
IsOther DataType.int16 = Unit {0}
IsOther DataType.uint16 = Unit {0}
IsOther DataType.int32 = Unit {0}
IsOther DataType.int64 = Unit {0}
IsOther DataType.float32 = Unit {0}
IsOther _ = ⊥

no_value {ℓ κ} :
    {A : Type ℓ} {B : Type κ} (m : Option A) (f : A → Option B)
    → ((a : A) → f a ≡ none)
    → (m >>= f) ≡ none
no_value none f h = refl
no_value (some a) f h = h a

module _ (ops : FloatOps) where
  parse_data_panics :
      (t : DataType) (rate : ops.F64) (vp_data : List ℕ)
      → IsOther t
      → is_scaled ops rate ≡ true
      → parse_data ops t rate vp_data ≡ none
  unfolding parse_data
  parse_data_panics DataType.uint16 rate vp_data other e =
      no_value (parse_uint16_big_endian vp_data) _ (λ v. rw e refl)
  parse_data_panics DataType.int16 rate vp_data other e =
      no_value (parse_uint16_big_endian vp_data) _ (λ v. rw e refl)
  parse_data_panics DataType.int32 rate vp_data other e =
      no_value (parse_uint32_big_endian vp_data) _ (λ v. rw e refl)
  parse_data_panics DataType.int64 rate vp_data other e =
      no_value (parse_uint64_big_endian vp_data) _ (λ v. rw e refl)
  parse_data_panics DataType.float32 rate vp_data other e =
      no_value (parse_float32_big_endian ops vp_data) _ (λ v. rw e refl)
  parse_data_panics DataType.bool rate vp_data other e = absurd other
  parse_data_panics DataType.string rate vp_data other e = absurd other
  parse_data_panics DataType.number rate vp_data other e = absurd other
  parse_data_panics DataType.float64 rate vp_data other e = absurd other

  parse_switch_panics :
      (t : DataType) (bit : ℕ) (rate : ops.F64) (start : ℕ) (bytes : List ℕ)
      → IsOther t
      → is_scaled ops rate ≡ true
      → parse_switch ops t bit rate start bytes ≡ none
  unfolding parse_switch
  parse_switch_panics DataType.uint16 bit rate start bytes other e =
      no_value (slice_from start bytes) _ (λ d. parse_data_panics DataType.uint16 rate d tt e)
  parse_switch_panics DataType.int16 bit rate start bytes other e =
      no_value (slice_from start bytes) _ (λ d. parse_data_panics DataType.int16 rate d tt e)
  parse_switch_panics DataType.int32 bit rate start bytes other e =
      no_value (slice_from start bytes) _ (λ d. parse_data_panics DataType.int32 rate d tt e)
  parse_switch_panics DataType.int64 bit rate start bytes other e =
      no_value (slice_from start bytes) _ (λ d. parse_data_panics DataType.int64 rate d tt e)
  parse_switch_panics DataType.float32 bit rate start bytes other e =
      no_value (slice_from start bytes) _ (λ d. parse_data_panics DataType.float32 rate d tt e)
  parse_switch_panics DataType.bool bit rate start bytes other e = absurd other
  parse_switch_panics DataType.string bit rate start bytes other e = absurd other
  parse_switch_panics DataType.number bit rate start bytes other e = absurd other
  parse_switch_panics DataType.float64 bit rate start bytes other e = absurd other

  one_panics :
      (bytes : List ℕ) (front : List (VariableParse ops)) (vp : VariableParse ops)
      (back : List (VariableParse ops))
      → parse_value ops bytes vp ≡ none
      → parse_variable_values ops bytes (front ++ (vp ∷ back)) ≡ none
  unfolding parse_variable_values
  one_panics bytes [] vp back e = rw e refl
  one_panics bytes (other ∷ front) vp back e =
      no_value (parse_value ops bytes other) _ (λ value. rw (one_panics bytes front vp back e) refl)

  -- A variable of the type int16, uint16, int32, int64 or float32 whose rate scales makes
  -- ParseVariableValue of the S7 broker panic on any data, for the whole frame that carries it.
  pub scaled_panics :
      (df : DataFrame ops) (bytes : List ℕ) (front : List (VariableParse ops))
      (vp : VariableParse ops) (back : List (VariableParse ops))
      → df.variables ≡ front ++ (vp ∷ back)
      → IsOther vp.variable.data_type
      → is_scaled ops vp.variable.rate ≡ true
      → parse_variable_value ops df bytes ≡ none
  unfolding parse_variable_value
  scaled_panics df bytes front vp back split other scaled =
      let panics : parse_value ops bytes vp ≡ none =
        unfold parse_value in
        parse_switch_panics vp.variable.data_type vp.bit_address_or_length vp.variable.rate
          (vp.start_address + 4) bytes other scaled in
      rw (split, one_panics bytes front vp back panics) refl
