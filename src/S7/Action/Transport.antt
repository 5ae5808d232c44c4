-- ===== src/S7/Action/Transport.antt =====
-- The transport size of the variables that are written after a Boolean.
use harns_gateway.Prelude.{
  ℕ, ◌≡◌, refl, sym, ap, ◌∙◌, List, [], ◌∷◌, some, get_elem?, All, >>=-eq-some, some_injective,
}
use harns_gateway.Binutil.Float.{FloatOps}
use harns_gateway.Constant.{DataType}
use harns_gateway.S7.Types.{Variable}
use harns_gateway.S7.Address.{Place, parse_variable_address}
use harns_gateway.S7.Request.{
  new_s7comm_read_parameter_item, new_s7comm_write_data_item, ParameterData,
}
use harns_gateway.S7.Action.{
  data_byte, switched, transport_size, parameter_data, generate_from,
  generate_action_parameter_data_item,
}

-- The parameter and the data of the item are of bits.
abbrev pub IsOfBits : ParameterData → Type 0
IsOfBits p = (get_elem? p.parameter_item 3 ≡ some 1) × (get_elem? p.data_item 1 ≡ some 1)

switched_bits : (t : DataType) → switched t 1 ≡ 1
switched_bits DataType.bool = refl
switched_bits DataType.int16 = refl
switched_bits DataType.uint16 = refl
switched_bits DataType.int32 = refl
switched_bits DataType.int64 = refl
switched_bits DataType.float32 = refl
switched_bits DataType.float64 = refl
switched_bits DataType.number = refl
switched_bits DataType.string = refl

module _ (ops : FloatOps) where
  bits_item :
      (v : Variable ops) (place : Place) (bytes : List ℕ)
      → IsOfBits (parameter_data ops v 1 place bytes)
  unfolding new_s7comm_read_parameter_item new_s7comm_write_data_item
  bits_item v place bytes = (refl, refl)

  -- One turn of a loop that comes to its end.
  generate_turn :
      (size : ℕ) (v : Variable ops) (vs : List (Variable ops)) (pibs : List ParameterData)
      → generate_from ops size (v ∷ vs) ≡ some pibs
      → (bytes : List ℕ) × (place : Place) × (rest : List ParameterData) × (generate_from ops
            (transport_size place (switched v.data_type size))
            vs
          ≡ some rest)
        × (pibs
            ≡ parameter_data ops v (transport_size place (switched v.data_type size)) place bytes
              ∷ rest)
  unfolding generate_from
  generate_turn size v vs pibs e =
      let (bytes, e1, f1) = >>=-eq-some (data_byte ops v.data_type v.rate v.value) _ e in
      let (place, e2, f2) = >>=-eq-some (parse_variable_address v.address) _ f1 in
      let (rest, e3, f3) = >>=-eq-some (generate_from ops _ vs) _ f2 in
      (bytes, place, rest, e3, sym (some_injective f3))

  stays : (place : Place) → transport_size place 1 ≡ 1
  unfolding transport_size
  stays place = refl

  from_bits :
      (vs : List (Variable ops)) (pibs : List ParameterData)
      → generate_from ops 1 vs ≡ some pibs
      → All IsOfBits pibs
  from_bits [] pibs e =
      let none_left : pibs ≡ [] = unfold generate_from in sym (some_injective e) in rw none_left tt
  from_bits (v ∷ vs) pibs e =
      let (bytes, place, rest, more, split) = generate_turn 1 v vs pibs e in
      let still : transport_size place (switched v.data_type 1) ≡ 1 =
        ap (transport_size place) (switched_bits v.data_type) ∙ stays place in
      let others = from_bits vs rest (rw still at more) in
      rw (split, still) (bits_item v place bytes, others)

  -- When the first variable of an action is a Boolean, the items for all further variables that
  -- generateActionParameterDataItem writes have the transport size of a bit, whatever their data
  -- types.
  pub written_bits :
      (v : Variable ops) (vs : List (Variable ops)) (pibs : List ParameterData)
      → v.data_type ≡ DataType.bool
      → generate_action_parameter_data_item ops (v ∷ vs) ≡ some pibs
      → All IsOfBits pibs
  unfolding generate_action_parameter_data_item
  written_bits v vs pibs t e =
      let (bytes, place, rest, more, split) = generate_turn 0 v vs pibs e in
      let of_bits : transport_size place (switched v.data_type 0) ≡ 1 =
        ap (λ t. transport_size place (switched t 0)) t ∙ stays place in
      let others = from_bits vs rest (rw of_bits at more) in
      rw (split, of_bits) (bits_item v place bytes, others)
