-- ===== src/S7/Plan/Coverage.antt =====
-- No variable of an area is lost between the data frames.
use harns_gateway.Prelude.{
  ℕ, ◌≡◌, All, refl, sym, ap, ◌∙◌, List, [], ◌∷◌, ◌++◌, map, some, none, Option, ◌==◌, length, ◌%◌,
  ◌^◌, Bool-cases, Option-cases, List-cases, >>=-eq-some, some_injective, inl, inr,
}
use harns_gateway.Binutil.Float.{FloatOps}
use harns_gateway.S7.Types.{Area, Variable}
use harns_gateway.S7.Address.{Place, parse_variable_address}
use harns_gateway.S7.Request.{VariableParse, DataFrame, new_s7_data_frame}
use harns_gateway.S7.Plan.{
  Packing, find, max_item_per_data_frame, join, flush, flush_full, pack, finish, packing_start,
  plan,
}
use mathlib.Core.List.{append-nil, append_assoc, map-append}

one_at_least {ℓ} : {A : Type ℓ} (xs : List A) (x : A) → xs ++ (x ∷ []) ≡ [] → ⊥
one_at_least [] x e = cc e
one_at_least (y ∷ xs) x e = cc e

none_found :
    (place : Place) (m : List (Place × ℕ)) (start : ℕ) → m ≡ [] → find place m ≡ some start → ⊥
unfolding find
none_found place [] start h e = cc e
none_found place (p ∷ m) start h e = cc h

module _ (ops : FloatOps) where
  -- One turn of a loop that comes to its end.
  pack_turn :
      (key : Area) (pdu : ℕ) (v : Variable ops) (vs : List (Variable ops)) (st st' : Packing ops)
      → pack ops key pdu (v ∷ vs) st ≡ some st'
      → (place : Place) × (parse_variable_address v.address ≡ some place)
        × (pack ops key pdu vs
              (flush_full ops key pdu (join ops key v place st (find place st.item_map)))
            ≡ some st')
  unfolding pack
  pack_turn key pdu v vs st st' e = >>=-eq-some (parse_variable_address v.address) _ e

  -- What holds of the state before each turn of the loop, by what holds of it in between, holds at
  -- the end, where something holds of each variable.
  pub pack_rule_on {ℓ} :
      (V : Variable ops → Type 0) (P Q : Packing ops → Type ℓ) (key : Area) (pdu : ℕ)
      → ((v : Variable ops) (place : Place) (st : Packing ops)
          → V v
          → parse_variable_address v.address ≡ some place
          → P st
          → Q (join ops key v place st (find place st.item_map)))
      → ((st : Packing ops) → Q st → P (flush_full ops key pdu st))
      → (vs : List (Variable ops)) (st st' : Packing ops) → All V vs
      → pack ops key pdu vs st ≡ some st'
      → P st
      → P st'
  pack_rule_on V P Q key pdu joined flushed [] st st' h e p =
      let same : st ≡ st' = unfold pack in some_injective e in rw same at p
  pack_rule_on V P Q key pdu joined flushed (v ∷ vs) st st' h e p =
      let (place, parsed, rest) = pack_turn key pdu v vs st st' e in
      pack_rule_on V P Q key pdu joined flushed vs _ st' h.1 rest
        (flushed _ (joined v place st h.0 parsed p))

  any : (vs : List (Variable ops)) → All (λ v. Unit {0}) vs
  any [] = tt
  any (v ∷ vs) = (tt, any vs)

  pub pack_rule {ℓ} :
      (P Q : Packing ops → Type ℓ) (key : Area) (pdu : ℕ)
      → ((v : Variable ops) (place : Place) (st : Packing ops)
          → parse_variable_address v.address ≡ some place
          → P st
          → Q (join ops key v place st (find place st.item_map)))
      → ((st : Packing ops) → Q st → P (flush_full ops key pdu st))
      → (vs : List (Variable ops)) (st st' : Packing ops) → pack ops key pdu vs st ≡ some st'
      → P st
      → P st'
  pack_rule P Q key pdu joined flushed vs st st' e p =
      pack_rule_on (λ v. Unit {0}) P Q key pdu (λ v place st u parsed h. joined v place st parsed h)
        flushed vs st st' (any vs) e p

  abbrev pub variables_of : List (VariableParse ops) → List (Variable ops)
  variables_of vps = map (λ vp. vp.variable) vps

  -- The variables of data frames, in order.
  abbrev pub carried : List (DataFrame ops) → List (Variable ops)
  carried [] = []
  carried (df ∷ dfs) = variables_of df.variables ++ carried dfs

  carried-append :
      (dfs : List (DataFrame ops)) (df : DataFrame ops)
      → carried (dfs ++ (df ∷ [])) ≡ carried dfs ++ variables_of df.variables
  carried-append [] df = append-nil (variables_of df.variables)
  carried-append (d ∷ dfs) df =
      ap (◌++◌ (variables_of d.variables)) (carried-append dfs df)
      ∙ sym (append_assoc (variables_of d.variables) (carried dfs) (variables_of df.variables))

  -- What a state of the loop has taken in.
  abbrev pub taken : Packing ops → List (Variable ops)
  taken st = carried st.data_frames ++ variables_of st.variable_parses

  taken-join :
      (key : Area) (v : Variable ops) (place : Place) (st : Packing ops) (found : Option ℕ)
      → taken (join ops key v place st found) ≡ taken st ++ (v ∷ [])
  unfolding join
  taken-join key v place st none = simp (map-append, append_assoc)
  taken-join key v place st (some start) = simp (map-append, append_assoc)

  taken-flush : (key : Area) (pdu : ℕ) (st : Packing ops) → taken (flush ops key pdu st) ≡ taken st
  unfolding flush new_s7_data_frame
  taken-flush key pdu st = simp (carried-append, append-nil)

  taken-flush_full :
      (key : Area) (pdu : ℕ) (st : Packing ops) → taken (flush_full ops key pdu st) ≡ taken st
  unfolding flush_full
  taken-flush_full key pdu st =
      elim (Bool-cases (length st.items % 2 ^ 16 == max_item_per_data_frame pdu)) [
        | inl e ↦ rw e (taken-flush key pdu st)
        | inr e ↦ rw e refl
      ]

  taken-pack :
      (key : Area) (pdu : ℕ) (vs : List (Variable ops)) (st st' : Packing ops)
      → pack ops key pdu vs st ≡ some st'
      → taken st' ≡ taken st ++ vs
  taken-pack key pdu [] st st' e =
      let same : st ≡ st' = unfold pack in some_injective e in
      ap taken (sym same) ∙ sym (append-nil (taken st))
  taken-pack key pdu (v ∷ vs) st st' e =
      let (place, parsed, rest) = pack_turn key pdu v vs st st' e in
      taken-pack key pdu vs _ st' rest
      ∙ ap (λ l. l ++ vs)
          (taken-flush_full key pdu _ ∙ taken-join key v place st (find place st.item_map))
      ∙ append_assoc (taken st) (v ∷ []) vs

  -- A state whose items are empty has no variables that wait for a frame.
  abbrev IsSettled : Packing ops → Type 0
  IsSettled st = st.items ≡ [] → (st.variable_parses ≡ []) × (st.item_map ≡ [])

  join-IsSettled :
      (key : Area) (v : Variable ops) (place : Place) (st : Packing ops)
      → IsSettled st
      → IsSettled (join ops key v place st (find place st.item_map))
  unfolding join
  join-IsSettled key v place st settled = elim (Option-cases (find place st.item_map)) [
    | inl e ↦ rw e (λ h. absurd (one_at_least st.items _ h))
    | inr (start, e) ↦ rw e (λ h. absurd (none_found place st.item_map start (settled h).1 e))
  ]

  flush_full-IsSettled :
      (key : Area) (pdu : ℕ) (st : Packing ops)
      → IsSettled st
      → IsSettled (flush_full ops key pdu st)
  unfolding flush_full flush
  flush_full-IsSettled key pdu st settled =
      elim (Bool-cases (length st.items % 2 ^ 16 == max_item_per_data_frame pdu)) [
        | inl e ↦ rw e (λ h. (refl, refl))
        | inr e ↦ rw e settled
      ]

  taken-finish :
      (key : Area) (pdu : ℕ) (st : Packing ops)
      → IsSettled st
      → carried (finish ops key pdu st) ≡ taken st
  unfolding finish new_s7_data_frame
  taken-finish key pdu st settled = elim (List-cases st.items) [
    | inl e ↦ rw e (
        sym (append-nil (carried st.data_frames))
        ∙ ap (λ l. carried st.data_frames ++ variables_of l) (sym (settled e).0))
    | inr (item, items, e) ↦ rw e (unfold flush in (carried-append st.data_frames _))
  ]

  pub carried-plan :
      (key : Area) (pdu : ℕ) (vs : List (Variable ops)) (dfs : List (DataFrame ops))
      → plan ops key pdu vs ≡ some dfs
      → carried dfs ≡ vs
  unfolding plan
  carried-plan key pdu vs dfs e =
      let (st, packed, done) =
        >>=-eq-some (pack ops key pdu vs (packing_start ops)) (λ st. some (finish ops key pdu st))
          e in
      let settled =
        pack_rule IsSettled IsSettled key pdu
          (λ v place st parsed h. join-IsSettled key v place st h) (flush_full-IsSettled key pdu) vs
          (packing_start ops) st packed (λ h. (refl, refl)) in
      sym (ap carried (some_injective done))
      ∙ taken-finish key pdu st settled
      ∙ taken-pack key pdu vs (packing_start ops) st packed
