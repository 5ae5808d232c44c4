-- ===== src/S7/Plan/Bounds.antt =====
-- The frames of an area keep to the length of a PDU.
use harns_gateway.Prelude.{
  ℕ, ◌+◌, ◌-◌, ◌*◌, ◌/◌, ◌%◌, ◌^◌, ◌≤◌, ◌<◌, ◌≡◌, ◌≢◌, arith, List, [], ◌∷◌, false, some, none,
  Option, ◌==◌, length, length-append, All, All-append, Bool-cases, >>=-eq-some, some_injective,
  inl, inr,
}
use harns_gateway.Binutil.Float.{FloatOps}
use harns_gateway.Constant.{DataType}
use harns_gateway.S7.Types.{Area, Variable, data_response_length}
use harns_gateway.S7.Address.{Place}
use harns_gateway.S7.Request.{DataFrame, new_s7_data_frame}
use harns_gateway.S7.Request.Shape.{TwelveBytes, length-item, length-read_frame}
use harns_gateway.S7.Plan.{
  Packing, find, max_item_per_data_frame, join, flush, flush_full, pack, finish, packing_start,
  plan,
}
use harns_gateway.S7.Plan.Coverage.{pack_rule}

response_bound : (t : DataType) (key : Area) → data_response_length t key ≤ 8
unfolding data_response_length
response_bound DataType.bool Area.i = omega arith
response_bound DataType.bool Area.q = omega arith
response_bound DataType.bool Area.m = omega arith
response_bound DataType.bool Area.db = omega arith
response_bound DataType.int16 Area.i = omega arith
response_bound DataType.int16 Area.q = omega arith
response_bound DataType.int16 Area.m = omega arith
response_bound DataType.int16 Area.db = omega arith
response_bound DataType.float32 Area.i = omega arith
response_bound DataType.float32 Area.q = omega arith
response_bound DataType.float32 Area.m = omega arith
response_bound DataType.float32 Area.db = omega arith
response_bound DataType.float64 Area.i = omega arith
response_bound DataType.float64 Area.q = omega arith
response_bound DataType.float64 Area.m = omega arith
response_bound DataType.float64 Area.db = omega arith
response_bound DataType.int32 Area.i = omega arith
response_bound DataType.int32 Area.q = omega arith
response_bound DataType.int32 Area.m = omega arith
response_bound DataType.int32 Area.db = omega arith
response_bound DataType.int64 Area.i = omega arith
response_bound DataType.int64 Area.q = omega arith
response_bound DataType.int64 Area.m = omega arith
response_bound DataType.int64 Area.db = omega arith
response_bound DataType.uint16 Area.i = omega arith
response_bound DataType.uint16 Area.q = omega arith
response_bound DataType.uint16 Area.m = omega arith
response_bound DataType.uint16 Area.db = omega arith
response_bound DataType.number Area.i = omega arith
response_bound DataType.number Area.q = omega arith
response_bound DataType.number Area.m = omega arith
response_bound DataType.number Area.db = omega arith
response_bound DataType.string Area.i = omega arith
response_bound DataType.string Area.q = omega arith
response_bound DataType.string Area.m = omega arith
response_bound DataType.string Area.db = omega arith

-- The items that fill a frame.
abbrev pub most : ℕ → ℕ
most pdu = (pdu - 19) / 12

max_item-eq : (pdu : ℕ) → 19 ≤ pdu → pdu < 2 ^ 16 → max_item_per_data_frame pdu ≡ most pdu
unfolding max_item_per_data_frame
max_item-eq pdu h k = omega arith

module _ (ops : FloatOps) where
  -- The frame fits a PDU, and so does the answer to it: 21 bytes and the data.
  abbrev pub FitsPdu : ℕ → DataFrame ops → Type 0
  FitsPdu pdu df = (length df.data_frame ≤ pdu) × (21 + df.data_length ≤ pdu)

  -- The invariant of the loop.
  record Inv (pdu bound : ℕ) (st : Packing ops) : Type 0 where
    few : length st.items ≤ bound
    twelve : All TwelveBytes st.items
    short : st.start_address_offset ≤ length st.items * 12
    fitting : All (FitsPdu pdu) st.data_frames

  join-Inv :
      (pdu bound : ℕ) (key : Area) (v : Variable ops) (place : Place) (st : Packing ops)
      (found : Option ℕ)
      → Inv pdu bound st
      → Inv pdu (bound + 1) (join ops key v place st found)
  unfolding join
  join-Inv pdu bound key v place st (some start) i = record {
    few = omega (arith, i.few);
    twelve = i.twelve;
    short = i.short;
    fitting = i.fitting;
  }
  join-Inv pdu bound key v place st none i = record {
    few = omega (arith, i.few, length-append st.items (_ ∷ []));
    twelve = All-append TwelveBytes st.items _ i.twelve (length-item _ _ _ _ _ _, tt);
    short = omega (arith, i.short, response_bound v.data_type key, length-append st.items (_ ∷ []));
    fitting = i.fitting;
  }

  -- A frame of items that a PDU has room for.
  flush-Inv :
      (pdu bound : ℕ) (key : Area) (st : Packing ops)
      → 2 ≤ (pdu - 19) % 12
      → bound ≤ most pdu
      → Inv pdu bound st
      → Inv pdu 0 (flush ops key pdu st)
  unfolding flush new_s7_data_frame
  flush-Inv pdu bound key st room le i = record {
    few = omega arith;
    twelve = tt;
    short = omega arith;
    fitting = All-append (FitsPdu pdu) st.data_frames _ i.fitting (
      (omega (arith, i.few, length-read_frame st.items i.twelve), omega (arith, i.few, i.short)),
      tt,
    );
  }

  flush_full-Inv :
      (pdu : ℕ) (key : Area) (st : Packing ops)
      → 31 ≤ pdu
      → pdu < 2 ^ 16
      → 2 ≤ (pdu - 19) % 12
      → Inv pdu (most pdu) st
      → Inv pdu (most pdu - 1) (flush_full ops key pdu st)
  unfolding flush_full
  flush_full-Inv pdu key st long word room i =
      elim (Bool-cases (length st.items % 2 ^ 16 == max_item_per_data_frame pdu)) [
        | inl e ↦
            let empty = flush-Inv pdu (most pdu) key st room (omega arith) i in
            rw e (record {
              few = omega (arith, empty.few);
              twelve = empty.twelve;
              short = empty.short;
              fitting = empty.fitting;
            })
        | inr e ↦ rw e (record {
          few = ground (arith, i.few, max_item-eq pdu (omega arith) word, not_full e);
          twelve = i.twelve;
          short = i.short;
          fitting = i.fitting;
        })
      ]
    where
      not_full :
          (length st.items % 2 ^ 16 == max_item_per_data_frame pdu) ≡ false
          → length st.items % 2 ^ 16 ≢ max_item_per_data_frame pdu
      not_full e h = ground arith

  finish-FitsPdu :
      (pdu : ℕ) (key : Area) (st : Packing ops)
      → 2 ≤ (pdu - 19) % 12
      → Inv pdu (most pdu - 1) st
      → All (FitsPdu pdu) (finish ops key pdu st)
  unfolding finish
  finish-FitsPdu pdu key st room i =
      elim st.items
        as (λ items. All (FitsPdu pdu) (elim items [
          | [] ↦ st.data_frames
          | item ∷ items ↦ (flush ops key pdu st).data_frames
        ])) [
          | [] ↦ i.fitting
          | item ∷ items ↦ (flush-Inv pdu (most pdu - 1) key st room (omega arith) i).fitting
        ]

  -- A data frame that the S7 NewBroker makes is no longer than the PDU, and neither is an answer
  -- to it of 21 bytes and the data that the frame expects. The PDU is a uint16 of at least 31
  -- bytes, and 19 less it leaves neither 0 nor 1 when divided by 12.
  pub plan-FitsPdu :
      (key : Area) (pdu : ℕ) (vs : List (Variable ops)) (dfs : List (DataFrame ops))
      → 31 ≤ pdu
      → pdu < 2 ^ 16
      → 2 ≤ (pdu - 19) % 12
      → plan ops key pdu vs ≡ some dfs
      → All (FitsPdu pdu) dfs
  unfolding plan
  plan-FitsPdu key pdu vs dfs long word room e =
      let (st, packed, done) =
        >>=-eq-some (pack ops key pdu vs (packing_start ops)) (λ st. some (finish ops key pdu st))
          e in
      let inv =
        pack_rule ops (Inv pdu (most pdu - 1)) (Inv pdu (most pdu)) key pdu
          (λ v place st parsed i. one_more pdu key v place st (find place st.item_map) long i)
          (λ st i. flush_full-Inv pdu key st long word room i) vs (packing_start ops) st packed
          (record { few = omega arith; twelve = tt; short = omega arith; fitting = tt }) in
      rw (some_injective done) at (finish-FitsPdu pdu key st room inv)
    where
      one_more :
          (pdu : ℕ) (key : Area) (v : Variable ops) (place : Place) (st : Packing ops)
          (found : Option ℕ)
          → 31 ≤ pdu
          → Inv pdu (most pdu - 1) st
          → Inv pdu (most pdu) (join ops key v place st found)
      one_more pdu key v place st found long i =
          let back : most pdu - 1 + 1 ≡ most pdu = omega arith in
          rw back at (join-Inv pdu (most pdu - 1) key v place st found i)
