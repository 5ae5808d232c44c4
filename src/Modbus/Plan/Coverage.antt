-- ===== src/Modbus/Plan/Coverage.antt =====
-- The packing loop ends, and no variable is lost, doubled or moved.
use harns_gateway.Prelude.{
  ℕ, zero, suc, ◌+◌, ◌*◌, ◌^◌, ◌≤◌, ◌<◌, ◌≡◌, refl, sym, ap, ◌∙◌, arith, List, [], ◌∷◌, ◌++◌, true,
  false, some, length, map, All, Bool-cases, List-cases, >>=-eq-some, some_injective, inl, inr,
}
use harns_gateway.Binutil.Float.{FloatOps}
use harns_gateway.Constant.{data_type_word, DataType}
use harns_gateway.Modbus.Types.{Variable, VariableParse}
use harns_gateway.Modbus.Plan.{
  Kind, of_bits, of_registers, Request, Packing, data_length_from, fits, place, flush, pack, finish,
  packing_start, plan,
}
use mathlib.Core.List.{append_assoc, append-nil, map-append}

pub word_bound : (t : DataType) → (1 ≤ data_type_word t) × (data_type_word t ≤ 4)
unfolding data_type_word
word_bound DataType.bool = omega arith
word_bound DataType.int16 = omega arith
word_bound DataType.float32 = omega arith
word_bound DataType.float64 = omega arith
word_bound DataType.int32 = omega arith
word_bound DataType.int64 = omega arith
word_bound DataType.uint16 = omega arith
word_bound DataType.number = omega arith
word_bound DataType.string = omega arith

module _ (ops : FloatOps) where
  -- An address far enough from the end of uint for a whole request to start at it.
  abbrev pub IsRegular : Variable ops → Type 0
  IsRegular v = v.address + 2000 < 2 ^ 64

  -- A variable always fits the request that starts at it.
  pub fits-flush :
      (kind : Kind) (st : Packing ops) (v : Variable ops)
      → IsRegular v
      → fits ops kind (flush ops kind st v) v ≡ true
  unfolding fits flush data_length_from
  fits-flush of_bits st v h = ground arith
  fits-flush of_registers st v h = ground (arith, word_bound v.data_type)

  -- The two rounds of the loop.
  pub pack-place :
      (fuel : ℕ) (kind : Kind) (v : Variable ops) (vs : List (Variable ops)) (st : Packing ops)
      → fits ops kind st v ≡ true
      → pack ops (suc fuel) kind (v ∷ vs) st ≡ pack ops fuel kind vs (place ops kind st v)
  pack-place fuel kind v vs st e = unfold pack in rw (e, pack)

  pub pack-flush :
      (fuel : ℕ) (kind : Kind) (v : Variable ops) (vs : List (Variable ops)) (st : Packing ops)
      → fits ops kind st v ≡ false
      → pack ops (suc fuel) kind (v ∷ vs) st ≡ pack ops fuel kind (v ∷ vs) (flush ops kind st v)
  pack-flush fuel kind v vs st e = unfold pack in rw (e, pack)

  pub pack_ends :
      (fuel : ℕ) (kind : Kind) (vs : List (Variable ops)) (st : Packing ops)
      → All IsRegular vs
      → 2 * length vs ≤ fuel
      → (st' : Packing ops) × (pack ops fuel kind vs st ≡ some st')
  pack_ends fuel kind [] st h le = (st, unfold pack in refl)
  pack_ends zero kind (v ∷ vs) st h le = absurd (omega arith)
  pack_ends (suc zero) kind (v ∷ vs) st h le = absurd (omega arith)
  pack_ends (suc (suc fuel)) kind (v ∷ vs) st h le = elim (Bool-cases (fits ops kind st v)) [
    | inl e ↦
        rw (pack-place (suc fuel) kind v vs st e)
          (pack_ends (suc fuel) kind vs (place ops kind st v) h.1 (omega arith))
    | inr e ↦
        rw
          (
            pack-flush (suc fuel) kind v vs st e,
            pack-place fuel kind v vs (flush ops kind st v) (fits-flush kind st v h.0),
          )
          (pack_ends fuel kind vs (place ops kind (flush ops kind st v) v) h.1 (omega arith))
  ]

  -- The variables of requests, in order.
  abbrev pub variables_of : List (VariableParse ops) → List (Variable ops)
  variables_of vps = map (λ vp. vp.variable) vps

  abbrev pub requested : List (Request ops) → List (Variable ops)
  requested [] = []
  requested (r ∷ rs) = variables_of r.variables ++ requested rs

  requested-append :
      (rs : List (Request ops)) (r : Request ops)
      → requested (rs ++ (r ∷ [])) ≡ requested rs ++ variables_of r.variables
  requested-append [] r = append-nil (variables_of r.variables)
  requested-append (q ∷ rs) r =
      ap (◌++◌ (variables_of q.variables)) (requested-append rs r)
      ∙ sym (append_assoc (variables_of q.variables) (requested rs) (variables_of r.variables))

  -- What a state of the loop has taken in.
  abbrev taken : Packing ops → List (Variable ops)
  taken st = requested st.requests ++ variables_of st.vps

  taken-place :
      (kind : Kind) (st : Packing ops) (v : Variable ops)
      → taken (place ops kind st v) ≡ taken st ++ (v ∷ [])
  unfolding place
  taken-place of_bits st v = simp (map-append, append_assoc)
  taken-place of_registers st v = simp (map-append, append_assoc)

  taken-flush :
      (kind : Kind) (st : Packing ops) (v : Variable ops) → taken (flush ops kind st v) ≡ taken st
  unfolding flush
  taken-flush kind st v = simp (requested-append, append-nil)

  taken-pack :
      (fuel : ℕ) (kind : Kind) (vs : List (Variable ops)) (st st' : Packing ops)
      → pack ops fuel kind vs st ≡ some st'
      → taken st' ≡ taken st ++ vs
  taken-pack fuel kind [] st st' e =
      let same : st ≡ st' = unfold pack in some_injective e in
      ap taken (sym same) ∙ sym (append-nil (taken st))
  taken-pack zero kind (v ∷ vs) st st' e = unfold pack in cc e
  taken-pack (suc fuel) kind (v ∷ vs) st st' e = elim (Bool-cases (fits ops kind st v)) [
    | inl t ↦
        taken-pack fuel kind vs (place ops kind st v) st' (sym (pack-place fuel kind v vs st t) ∙ e)
        ∙ rw (taken-place kind st v) (append_assoc (taken st) (v ∷ []) vs)
    | inr t ↦
        taken-pack fuel kind (v ∷ vs) (flush ops kind st v) st'
          (sym (pack-flush fuel kind v vs st t) ∙ e)
        ∙ rw (taken-flush kind st v)
  ]

  taken-finish : (st : Packing ops) → requested (finish ops st) ≡ taken st
  unfolding finish
  taken-finish st = elim (List-cases st.vps) [
    | inl e ↦ rw e (sym (append-nil (requested st.requests)))
    | inr (vp, vps, e) ↦ rw e (requested-append st.requests _)
  ]

  -- The requests that NewBroker packs carry every variable once, in the order of the variables.
  pub requested-plan :
      (kind : Kind) (position : ℕ) (vs : List (Variable ops)) (rs : List (Request ops))
      → plan ops kind position vs ≡ some rs
      → requested rs ≡ vs
  unfolding plan
  requested-plan kind position [] rs e = ap requested (sym (some_injective e))
  requested-plan kind position (v ∷ vs) rs e =
      let (st, ended, done) =
        >>=-eq-some
          (pack ops (2 * length (v ∷ vs)) kind (v ∷ vs) (packing_start ops kind position v))
          (λ st. some (finish ops st)) e in
      sym (ap requested (some_injective done))
      ∙ taken-finish st
      ∙ taken-pack _ kind (v ∷ vs) _ st ended
      ∙ unfold packing_start in refl

  -- The packing loop of NewBroker, which takes a variable again after a request is closed, ends
  -- for every list of variables whose addresses are not within 2000 of the end of uint: twice as
  -- many turns as variables are enough.
  pub plan_ends :
      (kind : Kind) (position : ℕ) (vs : List (Variable ops))
      → All IsRegular vs
      → (rs : List (Request ops)) × (plan ops kind position vs ≡ some rs)
  plan_ends kind position [] h = ([], unfold plan in refl)
  plan_ends kind position (v ∷ vs) h =
      let (st, ended) =
        pack_ends (2 * length (v ∷ vs)) kind (v ∷ vs) (packing_start ops kind position v) h
          (omega arith) in
      (finish ops st, unfold plan in rw ended)
