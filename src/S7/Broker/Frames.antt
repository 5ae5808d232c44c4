-- ===== src/S7/Broker/Frames.antt =====
-- The frames of a device and its variables.
use harns_gateway.Prelude.{ℕ, ◌≡◌, sym, ap, List, [], ◌∷◌, ◌++◌, Bool, ◌==◌, Bool-cases, inl, inr}
use harns_gateway.Binutil.Float.{FloatOps}
use harns_gateway.S7.Types.{
  Area, Variable, store_area_code, Result, ok, or_panic, after-ok, or_panic-ok, ok_injective,
  err≢ok,
}
use harns_gateway.S7.Address.{zone}
use harns_gateway.S7.Request.{DataFrame}
use harns_gateway.S7.Plan.{plan}
use harns_gateway.S7.Plan.Coverage.{carried, carried-plan}
use harns_gateway.S7.Broker.{
  Device, Broker, add_variable, group_variables, frame_map, frame_count, s7_device,
  or_connect_device, assembled, broker_of, new_broker,
}
use mathlib.Core.List.{Perm, append-nil, append_assoc, perm_middle}
use mathlib.Core.List.Perm

module _ (ops : FloatOps) where
  -- The variables of groups, one group after another.
  abbrev pub grouped : List (Area × List (Variable ops)) → List (Variable ops)
  grouped [] = []
  grouped ((key, vs) ∷ rest) = vs ++ grouped rest

  -- The variables that the frames of a broker carry.
  abbrev pub polled : List (Area × List (DataFrame ops)) → List (Variable ops)
  polled [] = []
  polled ((key, dfs) ∷ rest) = carried ops dfs ++ polled rest

  add_variable-perm :
      (v : Variable ops) (groups : List (Area × List (Variable ops)))
      → Perm (grouped (add_variable ops v groups)) (v ∷ grouped groups)
  unfolding add_variable
  add_variable-perm v [] = Perm.rfl
  add_variable-perm v ((key, vs) ∷ rest) =
      elim (Bool-cases (store_area_code key == store_area_code (zone v.address))) [
        | inl e ↦ rw (e, append_assoc vs (v ∷ []) (grouped rest)) (perm_middle vs (grouped rest))
        | inr e ↦ rw e (
            Perm.trans (Perm.append_left vs (add_variable-perm v rest))
              (perm_middle vs (grouped rest)))
      ]

  group_variables-perm :
      (groups : List (Area × List (Variable ops))) (vs : List (Variable ops))
      → Perm (grouped (group_variables ops groups vs)) (grouped groups ++ vs)
  unfolding group_variables
  group_variables-perm groups [] = rw (append-nil (grouped groups)) Perm.rfl
  group_variables-perm groups (v ∷ vs) =
      Perm.trans (group_variables-perm (add_variable ops v groups) vs) (
        Perm.trans (Perm.append_right vs (add_variable-perm v groups))
          (Perm.symm (perm_middle (grouped groups) vs)))

  assembled_frames :
      (connect : ℕ → Bool) (d : Device ops) (frames : List (Area × List (DataFrame ops)))
      (b : Broker ops)
      → assembled ops connect d frames ≡ ok b
      → b.store_address_data_frame_map ≡ frames
  unfolding assembled
  assembled_frames connect d frames b e = elim (Bool-cases (frame_count ops frames == 0)) [
    | inl z ↦ absurd (err≢ok (rw z at e))
    | inr z ↦ elim (Bool-cases (connect (frame_count ops frames))) [
      | inl c ↦ sym (ap (λ b. b.store_address_data_frame_map) (ok_injective (rw (z, c) at e)))
      | inr c ↦ absurd (err≢ok (rw (z, c) at e))
    ]
  ]

  module _ (sort : List (Variable ops) → List (Variable ops))
      (sort-perm : (vs : List (Variable ops)) → Perm (sort vs) vs) where
    frame_map-perm :
        (pdu : ℕ) (groups : List (Area × List (Variable ops)))
        (frames : List (Area × List (DataFrame ops)))
        → frame_map ops sort pdu groups ≡ ok frames
        → Perm (polled frames) (grouped groups)
    unfolding frame_map
    frame_map-perm pdu [] frames e = rw (sym (ok_injective e)) Perm.rfl
    frame_map-perm pdu ((key, vs) ∷ rest) frames e =
        let (dfs, planned, e1) = after-ok (or_panic (plan ops key pdu (sort vs))) _ e in
        let (others, mapped, e2) = after-ok (frame_map ops sort pdu rest) _ e1 in
        rw (sym (ok_injective e2)) (
          Perm.append
            (rw (carried-plan ops key pdu (sort vs) dfs (or_panic-ok _ planned)) (sort-perm vs))
            (frame_map-perm pdu rest others mapped))

    -- The data frames of a broker that the S7 NewBroker returns carry the variables of the device,
    -- each as often as the device has it, where sort.Sort permutes its argument.
    pub new_broker-perm :
        (pdu_length : Device ops → Result ℕ) (connect : ℕ → Bool) (d : Device ops) (b : Broker ops)
        → new_broker ops sort pdu_length connect (s7_device d) ≡ ok b
        → Perm (polled b.store_address_data_frame_map) d.variables
    unfolding new_broker broker_of
    new_broker-perm pdu_length connect d b e =
        let (pdu, asked, e1) = after-ok (or_connect_device ops (pdu_length d)) _ e in
        let (frames, mapped, e2) =
          after-ok (frame_map ops sort pdu (group_variables ops [] d.variables)) _ e1 in
        rw (assembled_frames connect d frames b e2)
          (Perm.trans (frame_map-perm pdu _ frames mapped) (group_variables-perm [] d.variables))
