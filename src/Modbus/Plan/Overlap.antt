-- ===== src/Modbus/Plan/Overlap.antt =====
-- What the packing loop does when a variable ends before one that stands below it.
use harns_gateway.Prelude.{
  ℕ, zero, suc, ◌+◌, ◌-◌, ◌*◌, ◌^◌, ◌≤◌, ◌<◌, ◌≡◌, refl, sym, ap, ◌∙◌, arith, List, [], ◌∷◌, ◌++◌,
  true, some, length, length-append, get_elem?, All, List-cases, inl, inr,
}
use harns_gateway.Binutil.Float.{FloatOps}
use harns_gateway.Constant.{data_type_word}
use harns_gateway.Modbus.Types.{Variable}
use harns_gateway.Modbus.Plan.{
  of_registers, Request, Packing, data_length_from, fits, place, request_of, pack, finish,
  packing_start, plan,
}
use harns_gateway.Modbus.Plan.Coverage.{
  IsRegular, word_bound, pack-place, variables_of, requested-plan,
}
use mathlib.Core.List.{append-nil}

get_elem?-front {ℓ} :
    {A : Type ℓ} (xs ys : List A) (i : ℕ) (x : A)
    → get_elem? xs i ≡ some x
    → get_elem? (xs ++ ys) i ≡ some x
get_elem?-front [] ys i x e = cc
get_elem?-front (y ∷ xs) ys zero x e = e
get_elem?-front (y ∷ xs) ys (suc i) x e = get_elem?-front xs ys i x e

module _ (ops : FloatOps) where
  -- Where the registers of a variable end.
  abbrev pub end_of : Variable ops → ℕ
  end_of v = v.address + data_type_word v.data_type

  -- All registers of a variable are in reach of a request that starts at an address.
  abbrev pub IsInReach : ℕ → Variable ops → Type 0
  IsInReach start v = (start ≤ v.address) × (end_of v ≤ start + 123)

  -- A loop that has made no request yet.
  abbrev StartsAt : ℕ → Packing ops → Type 0
  StartsAt start st =
      (st.requests ≡ []) × (st.start_address ≡ start) × (st.data_frame_data_length ≡ start + 123)

  reach-fits :
      (start : ℕ) (v : Variable ops) (st : Packing ops)
      → start + 2000 < 2 ^ 64
      → IsInReach start v
      → StartsAt start st
      → fits ops of_registers st v ≡ true
  unfolding fits
  reach-fits start v st regular reach (none, from, to) = ground (arith, word_bound v.data_type)

  -- Variables in reach of a request are placed one after another, the last one last.
  packed_in_reach :
      (fuel start : ℕ) (vs : List (Variable ops)) (w : Variable ops) (st : Packing ops)
      → start + 2000 < 2 ^ 64
      → All (IsInReach start) (vs ++ (w ∷ []))
      → StartsAt start st
      → length vs < fuel
      → (last : Packing ops) × StartsAt start last
        × (pack ops fuel of_registers (vs ++ (w ∷ [])) st ≡ some (place ops of_registers last w))
  packed_in_reach zero start vs w st regular reach at_start enough = absurd (omega arith)
  packed_in_reach (suc fuel) start [] w st regular reach at_start enough = (
    st,
    at_start,
    pack-place ops fuel of_registers w [] st (reach-fits start w st regular reach.0 at_start)
        ∙ (unfold pack in refl),
  )
  packed_in_reach (suc fuel) start (v ∷ vs) w st regular reach at_start enough =
      let (last, last_start, packed) =
        packed_in_reach fuel start vs w (place ops of_registers st v) regular reach.1
          (unfold place in at_start) (omega arith) in
      (
        last,
        last_start,
        pack-place ops fuel of_registers v (vs ++ (w ∷ [])) st
              (reach-fits start v st regular reach.0 at_start)
            ∙ packed,
      )

  finish-place :
      (st : Packing ops) (w : Variable ops)
      → st.requests ≡ []
      → finish ops (place ops of_registers st w) ≡ request_of ops (place ops of_registers st w) ∷ []
  unfolding finish place
  finish-place st w none = elim (List-cases st.vps) [
    | inl e ↦ rw (e, none) refl
    | inr (vp, vps, e) ↦ rw (e, none) refl
  ]

  last_size :
      (start : ℕ) (st : Packing ops) (w : Variable ops)
      → start + 2000 < 2 ^ 64
      → IsInReach start w
      → StartsAt start st
      → (request_of ops (place ops of_registers st w)).start_address
          + (request_of ops (place ops of_registers st w)).max_data_size
        ≡ end_of w
  unfolding place
  last_size start st w regular reach (none, from, to) = omega (arith, word_bound w.data_type)

  -- When all register variables of a list are in reach of one request, and the last one ends
  -- before an earlier one, NewBroker makes one request that carries them all and is too short for
  -- the earlier one: it ends before the registers of that variable do. The position address is not
  -- above the first address, which is not within 2000 of the end of uint.
  pub plan_overlap :
      (position i : ℕ) (first u w : Variable ops) (middle : List (Variable ops))
      → IsRegular ops first
      → position ≤ first.address
      → All (IsInReach (first.address - position)) (first ∷ (middle ++ (w ∷ [])))
      → get_elem? (first ∷ middle) i ≡ some u
      → end_of w < end_of u
      → (r : Request ops) × (plan ops of_registers position (first ∷ (middle ++ (w ∷ [])))
          ≡ some (r ∷ []))
        × (variables_of ops r.variables ≡ first ∷ (middle ++ (w ∷ [])))
        × (get_elem? (variables_of ops r.variables) i ≡ some u)
        × (r.start_address + r.max_data_size < end_of u)
  plan_overlap position i first u w middle regular below reach known longer =
      let start = first.address - position in
      let (last, last_start, packed) =
        packed_in_reach (2 * length (first ∷ (middle ++ (w ∷ [])))) start (first ∷ middle) w
          (packing_start ops of_registers position first) (omega arith) reach
          (unfold packing_start data_length_from in (refl, omega arith, omega arith))
          (omega (arith, length-append middle (w ∷ []))) in
      let made : plan ops of_registers position (first ∷ (middle ++ (w ∷ [])))
          ≡ some (request_of ops (place ops of_registers last w) ∷ []) =
        unfold plan in rw packed (ap some (finish-place last w last_start.0)) in
      let whole = requested-plan ops of_registers position (first ∷ (middle ++ (w ∷ []))) _ made in
      let carried = sym (append-nil _) ∙ whole in
      (
        request_of ops (place ops of_registers last w),
        made,
        carried,
        rw carried (get_elem?-front (first ∷ middle) (w ∷ []) i u known),
        omega (
          arith,
          longer,
          last_size start last w (omega arith) (reached (first ∷ middle) reach) last_start,
        ),
      )
    where
      reached :
          {start : ℕ} (vs : List (Variable ops))
          → All (IsInReach start) (vs ++ (w ∷ []))
          → IsInReach start w
      reached [] h = h.0
      reached (v ∷ vs) h = reached vs h.1
