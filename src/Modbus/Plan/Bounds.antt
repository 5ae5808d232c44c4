-- ===== src/Modbus/Plan/Bounds.antt =====
-- Every request is small enough for the protocol, and covers the variables that it carries.
use harns_gateway.Prelude.{
  ℕ, zero, suc, ◌+◌, ◌*◌, ◌≤◌, ◌≡◌, refl, sym, ◌∙◌, arith, List, [], ◌∷◌, true, some, length, All,
  All-append, Bool-cases, List-cases, >>=-eq-some, some_injective, inl, inr,
}
use harns_gateway.Binutil.Float.{FloatOps}
use harns_gateway.Constant.{data_type_word}
use harns_gateway.Modbus.Types.{Variable, VariableParse}
use harns_gateway.Modbus.Plan.{
  Kind, of_bits, of_registers, Request, Packing, data_length_from, fits, place, flush, pack, finish,
  packing_start, plan,
}
use harns_gateway.Modbus.Plan.Coverage.{IsRegular, word_bound, pack-place, pack-flush}

-- The coils or registers that one request may ask for.
abbrev pub most : Kind → ℕ
most of_bits = 1984
most of_registers = 123

module _ (ops : FloatOps) where
  -- The coils or registers of a variable.
  abbrev pub width : Kind → Variable ops → ℕ
  width of_bits v = 1
  width of_registers v = data_type_word v.data_type

  -- The addresses do not fall, nor do the ends of the variables: no variable ends before one that
  -- stands below it. With coils this is the order of addresses alone.
  abbrev pub Follows : Kind → ℕ → ℕ → List (Variable ops) → Type 0
  Follows kind lo end [] = Unit {0}
  Follows kind lo end (v ∷ vs) =
      (lo ≤ v.address)
      × (end ≤ v.address + width kind v)
      × Follows kind v.address (v.address + width kind v) vs

  abbrev pub IsOrdered : Kind → List (Variable ops) → Type 0
  IsOrdered kind [] = Unit {0}
  IsOrdered kind (v ∷ vs) = Follows kind v.address (v.address + width kind v) vs

  -- The variable is found at its offset in the data of a request, and all of it. For registers the
  -- offset counts bytes.
  abbrev pub IsPlaced : Kind → ℕ → ℕ → VariableParse ops → Type 0
  IsPlaced of_bits start size vp = (start + vp.start ≡ vp.variable.address) × (vp.start + 1 ≤ size)
  IsPlaced of_registers start size vp =
      (2 * start + vp.start ≡ 2 * vp.variable.address)
      × (vp.start + 2 * data_type_word vp.variable.data_type ≤ 2 * size)

  abbrev pub IsFitting : Kind → Request ops → Type 0
  IsFitting kind r =
      (r.max_data_size ≤ most kind)
      × All (IsPlaced kind r.start_address r.max_data_size) r.variables

  -- A request that grows still covers what it carries.
  IsPlaced-grow :
      (kind : Kind) (start : ℕ) {m n : ℕ} (vps : List (VariableParse ops))
      → m ≤ n
      → All (IsPlaced kind start m) vps
      → All (IsPlaced kind start n) vps
  IsPlaced-grow kind start [] h all = tt
  IsPlaced-grow of_bits start (vp ∷ vps) h all =
      ((all.0.0, omega arith), IsPlaced-grow of_bits start vps h all.1)
  IsPlaced-grow of_registers start (vp ∷ vps) h all =
      ((all.0.0, omega arith), IsPlaced-grow of_registers start vps h all.1)

  -- The invariant of the loop, when no later variable begins below `lo` or ends below `end`.
  record Inv (kind : Kind) (lo end : ℕ) (st : Packing ops) : Type 0 where
    limit : data_length_from kind st.start_address ≡ st.data_frame_data_length
    below : st.start_address ≤ lo
    short : st.start_address + st.max_data_size ≤ end
    small : st.max_data_size ≤ most kind
    placed : All (IsPlaced kind st.start_address st.max_data_size) st.vps
    fitting : All (IsFitting kind) st.requests

  place-Inv :
      (kind : Kind) (lo end : ℕ) (st : Packing ops) (v : Variable ops)
      → IsRegular ops v
      → lo ≤ v.address
      → end ≤ v.address + width kind v
      → fits ops kind st v ≡ true
      → Inv kind lo end st
      → Inv kind v.address (v.address + width kind v) (place ops kind st v)
  unfolding fits place data_length_from
  place-Inv of_bits lo end st v h below short t i = record {
    limit = i.limit;
    below = omega arith;
    short = omega arith;
    small = ground arith;
    placed =
        All-append _ st.vps _ (IsPlaced-grow of_bits st.start_address st.vps (omega arith) i.placed)
          ((omega arith, omega arith), tt);
    fitting = i.fitting;
  }
  place-Inv of_registers lo end st v h below short t i = record {
    limit = i.limit;
    below = omega arith;
    short = omega (arith, word_bound v.data_type);
    small = ground (arith, word_bound v.data_type);
    placed =
        All-append _ st.vps _
          (IsPlaced-grow of_registers st.start_address st.vps
            (omega (arith, word_bound v.data_type)) i.placed)
          ((ground (arith, word_bound v.data_type), ground (arith, word_bound v.data_type)), tt);
    fitting = i.fitting;
  }

  flush-Inv :
      (kind : Kind) (lo end : ℕ) (st : Packing ops) (v : Variable ops)
      → lo ≤ v.address
      → Inv kind lo end st
      → Inv kind v.address (v.address + width kind v) (flush ops kind st v)
  unfolding flush
  flush-Inv kind lo end st v below i = record {
    limit = refl;
    below = omega arith;
    short = omega arith;
    small = omega arith;
    placed = tt;
    fitting = All-append (IsFitting kind) st.requests _ i.fitting ((i.small, i.placed), tt);
  }

  finish-IsFitting :
      (kind : Kind) (lo end : ℕ) (st : Packing ops)
      → Inv kind lo end st
      → All (IsFitting kind) (finish ops st)
  unfolding finish
  finish-IsFitting kind lo end st i = elim (List-cases st.vps) [
    | inl e ↦ rw e i.fitting
    | inr (vp, vps, e) ↦
        rw e (All-append (IsFitting kind) st.requests _ i.fitting ((i.small, rw e at i.placed), tt))
  ]

  pack-IsFitting :
      (fuel : ℕ) (kind : Kind) (lo end : ℕ) (vs : List (Variable ops)) (st st' : Packing ops)
      → All (IsRegular ops) vs
      → Follows kind lo end vs
      → Inv kind lo end st
      → pack ops fuel kind vs st ≡ some st'
      → All (IsFitting kind) (finish ops st')
  pack-IsFitting fuel kind lo end [] st st' h f i e =
      let same : st ≡ st' = unfold pack in some_injective e in
      rw same at (finish-IsFitting kind lo end st i)
  pack-IsFitting zero kind lo end (v ∷ vs) st st' h f i e = unfold pack in cc e
  pack-IsFitting (suc fuel) kind lo end (v ∷ vs) st st' h f i e =
      elim (Bool-cases (fits ops kind st v)) [
        | inl t ↦
            pack-IsFitting fuel kind v.address (v.address + width kind v) vs (place ops kind st v)
              st' h.1 f.2 (place-Inv kind lo end st v h.0 f.0 f.1 t i)
              (sym (pack-place ops fuel kind v vs st t) ∙ e)
        | inr t ↦
            pack-IsFitting fuel kind v.address (v.address + width kind v) (v ∷ vs)
              (flush ops kind st v) st' h (omega arith, omega arith, f.2)
              (flush-Inv kind lo end st v f.0 i) (sym (pack-flush ops fuel kind v vs st t) ∙ e)
      ]

  start-Inv :
      (kind : Kind) (position : ℕ) (v : Variable ops)
      → IsRegular ops v
      → position ≤ v.address
      → Inv kind v.address (v.address + width kind v) (packing_start ops kind position v)
  unfolding packing_start
  start-Inv kind position v h at_most = record {
    limit = refl;
    below = omega arith;
    short = omega arith;
    small = omega arith;
    placed = tt;
    fitting = tt;
  }

  -- Every read request that NewBroker packs stays within the 1984 coils or 123 registers of the
  -- protocol, and each variable that it carries lies within the data that it asks for, at the
  -- offset that is computed for it. The variables come in the order of their addresses and of
  -- their ends, the position address is not above the first, and no address is within 2000 of the
  -- end of uint.
  pub plan-IsFitting :
      (kind : Kind) (position : ℕ) (v : Variable ops) (vs : List (Variable ops))
      → All (IsRegular ops) (v ∷ vs)
      → position ≤ v.address
      → IsOrdered kind (v ∷ vs)
      → (rs : List (Request ops)) → plan ops kind position (v ∷ vs) ≡ some rs
      → All (IsFitting kind) rs
  unfolding plan
  plan-IsFitting kind position v vs h at_most ordered rs e =
      let (st, ended, done) =
        >>=-eq-some
          (pack ops (2 * length (v ∷ vs)) kind (v ∷ vs) (packing_start ops kind position v))
          (λ st. some (finish ops st)) e in
      rw (some_injective done) at (
        pack-IsFitting _ kind v.address (v.address + width kind v) (v ∷ vs) _ st h
          (omega arith, omega arith, ordered) (start-Inv kind position v h.0 at_most) ended)
