-- ===== src/S7/Plan/Layout.antt =====
-- Where the data of the variables of an area lies in the answers.
use harns_gateway.Prelude.{
  ℕ, ◌+◌, ◌<◌, ◌≡◌, refl, sym, ◌∙◌, arith, List, [], ◌∷◌, ◌++◌, true, some, ◌==◌, length, ◌%◌, ◌^◌,
  ◌⊎◌, inl, inr, All, All-append, Bool-cases, Option-cases, >>=-eq-some, some_injective,
}
use harns_gateway.Binutil.Float.{FloatOps}
use harns_gateway.Constant.{DataType}
use harns_gateway.S7.Types.{Area, Variable, store_area_code, data_response_length}
use harns_gateway.S7.Address.{Place, parse_variable_address}
use harns_gateway.S7.Request.{Item, VariableParse, DataFrame, read_frame, new_s7_data_frame}
use harns_gateway.S7.Plan.{
  item_of, same_key, find, max_item_per_data_frame, Packing, join, flush, flush_full, pack, finish,
  packing_start, plan,
}
use harns_gateway.S7.Plan.Coverage.{pack_rule_on}

-- An S7 request can name the place.
abbrev pub InRange : Place → Type 0
InRange place = (place.address < 2 ^ 21) × (place.area_size < 2 ^ 16) × (place.bit < 8)

-- Items from an offset of the data of an answer to another: each asks for the data of a type, and
-- starts where the four bytes before that data stand.
abbrev pub Laid : Area → ℕ → List Item → ℕ → Type 0
Laid key from [] to = from ≡ to
Laid key from (item ∷ items) to =
    (item.start_address ≡ from)
    × ((t : DataType) × (place : Place) × (item.request_data ≡ item_of key t place)
        × Laid key (from + (4 + data_response_length t key)) items to)

-- One of the items makes the request, and its answer starts there.
abbrev pub At : List Item → List ℕ → ℕ → Type 0
At [] request start = ⊥
At (item ∷ items) request start =
    ((item.request_data ≡ request) × (item.start_address ≡ start)) ⊎ At items request start

-- The places are in one area and block, at one byte.
abbrev pub SamePlace : Place → Place → Type 0
SamePlace a b =
    (store_area_code a.area ≡ store_area_code b.area)
    × (a.area_size ≡ b.area_size)
    × (a.address ≡ b.address)

same_key-SamePlace : (a b : Place) → same_key a b ≡ true → SamePlace a b
unfolding same_key
same_key-SamePlace a b e = (ground arith, ground arith, ground arith)

Laid-append :
    (key : Area) (t : DataType) (place : Place) (from to : ℕ) (items : List Item)
    → Laid key from items to
    → Laid key from
        (items ++ (record { request_data = item_of key t place; start_address = to } ∷ []))
        (to + (4 + data_response_length t key))
Laid-append key t place from to [] e = (sym e, (t, place, refl, rw e refl))
Laid-append key t place from to (item ∷ items) (s, (t', place', e, laid)) = (
  s,
  (t', place', e, Laid-append key t place (from + (4 + data_response_length t' key)) to items laid),
)

At-append :
    (items more : List Item) (request : List ℕ) (start : ℕ)
    → At items request start
    → At (items ++ more) request start
At-append [] more request start h = absurd h
At-append (item ∷ items) more request start (inl e) = inl e
At-append (item ∷ items) more request start (inr h) = inr (At-append items more request start h)

At-last :
    (items : List Item) (item : Item)
    → At (items ++ (item ∷ [])) item.request_data item.start_address
At-last [] item = inl (refl, refl)
At-last (other ∷ items) item = inr (At-last items item)

-- A place whose item is known is asked for, and its data starts there.
abbrev IsKnown : Area → List Item → Place × ℕ → Type 0
IsKnown key items (place, start) =
    InRange place × (t : DataType) × At items (item_of key t place) start

IsKnown-append :
    (key : Area) (items more : List Item) (known : List (Place × ℕ))
    → All (IsKnown key items) known
    → All (IsKnown key (items ++ more)) known
IsKnown-append key items more [] h = tt
IsKnown-append key items more ((place, start) ∷ known) ((fine, t, h), hs) =
    ((fine, t, At-append items more _ _ h), IsKnown-append key items more known hs)

-- What `find` finds is the item of the same place.
find-IsKnown :
    (key : Area) (items : List Item) (place : Place) (known : List (Place × ℕ)) (start : ℕ)
    → All (IsKnown key items) known
    → find place known ≡ some start
    → (t : DataType) × (other : Place) × InRange other
      × At items (item_of key t other) start
      × SamePlace other place
unfolding find
find-IsKnown key items place [] start h e = cc
find-IsKnown key items place ((other, s) ∷ known) start ((fine, t, h), hs) e =
    elim (Bool-cases (same_key other place)) [
      | inl b ↦
          let found : some s ≡ some start = rw b at e in
          (t, other, fine, rw (some_injective found) at h, same_key-SamePlace other place b)
      | inr b ↦ find-IsKnown key items place known start hs (rw b at e)
    ]

module _ (ops : FloatOps) where
  -- The variable stands at the byte that one of the items asks for, and its value is read where
  -- the data of that item starts.
  abbrev pub IsCarried : Area → List Item → VariableParse ops → Type 0
  IsCarried key items vp =
      (t : DataType) × (asked own : Place) × (parse_variable_address vp.variable.address ≡ some own)
      × InRange asked
      × SamePlace asked own
      × (vp.bit_address_or_length ≡ own.bit)
      × (vp.block_size ≡ own.area_size)
      × At items (item_of key t asked) vp.start_address

  -- The address of the variable is in range.
  abbrev pub IsAddressed : Variable ops → Type 0
  IsAddressed v = (place : Place) × (parse_variable_address v.address ≡ some place) × InRange place

  -- The frame reads items that are laid one after another, for all of its variables.
  abbrev pub IsLaidOut : Area → DataFrame ops → Type 0
  IsLaidOut key df =
      (items : List Item) × (df.data_frame ≡ read_frame items)
      × Laid key 0 items df.data_length
      × All (IsCarried key items) df.variables

  record Inv (key : Area) (st : Packing ops) : Type 0 where
    laid : Laid key 0 st.items st.start_address_offset
    known : All (IsKnown key st.items) st.item_map
    carried : All (IsCarried key st.items) st.variable_parses
    frames : All (IsLaidOut key) st.data_frames

  IsCarried-append :
      (key : Area) (items more : List Item) (vps : List (VariableParse ops))
      → All (IsCarried key items) vps
      → All (IsCarried key (items ++ more)) vps
  IsCarried-append key items more [] h = tt
  IsCarried-append key items more (vp ∷ vps)
        ((t, asked, own, parsed, fine, same, bit, size, at_item), hs) =
      (
        (t, asked, own, parsed, fine, same, bit, size, At-append items more _ _ at_item),
        IsCarried-append key items more vps hs,
      )

  join-Inv :
      (key : Area) (v : Variable ops) (place : Place) (st : Packing ops)
      → InRange place
      → parse_variable_address v.address ≡ some place
      → Inv key st
      → Inv key (join ops key v place st (find place st.item_map))
  unfolding join
  join-Inv key v place st fine parsed i = elim (Option-cases (find place st.item_map)) [
    | inl e ↦
        let last = At-last st.items (record {
          request_data = item_of key v.data_type place;
          start_address = st.start_address_offset;
        }) in
        rw e (record {
          laid = Laid-append key v.data_type place 0 st.start_address_offset st.items i.laid;
          known = ((fine, v.data_type, last), IsKnown-append key st.items _ st.item_map i.known);
          carried =
              All-append (IsCarried key (st.items ++ _)) st.variable_parses _
                (IsCarried-append key st.items _ st.variable_parses i.carried)
                (
                  (v.data_type, place, place, parsed, fine, (refl, refl, refl), refl, refl, last),
                  tt,
                );
          frames = i.frames;
        })
    | inr (start, e) ↦
        let (t, other, near, at_item, same) =
          find-IsKnown key st.items place st.item_map start i.known e in
        rw e (record {
          laid = i.laid;
          known = i.known;
          carried =
              All-append (IsCarried key st.items) st.variable_parses _ i.carried
                ((t, other, place, parsed, near, same, refl, refl, at_item), tt);
          frames = i.frames;
        })
  ]

  closed_frames :
      (key : Area) (pdu : ℕ) (st : Packing ops)
      → Inv key st
      → All (IsLaidOut key) (flush ops key pdu st).data_frames
  unfolding flush new_s7_data_frame
  closed_frames key pdu st i =
      All-append (IsLaidOut key) st.data_frames _ i.frames ((st.items, refl, i.laid, i.carried), tt)

  flush_full-Inv :
      (key : Area) (pdu : ℕ) (st : Packing ops) → Inv key st → Inv key (flush_full ops key pdu st)
  unfolding flush_full flush new_s7_data_frame
  flush_full-Inv key pdu st i =
      elim (Bool-cases (length st.items % 2 ^ 16 == max_item_per_data_frame pdu)) [
        | inl e ↦
            rw e (record {
              laid = refl;
              known = tt;
              carried = tt;
              frames = closed_frames key pdu st i;
            })
        | inr e ↦ rw e i
      ]

  finish-IsLaidOut :
      (key : Area) (pdu : ℕ) (st : Packing ops)
      → Inv key st
      → All (IsLaidOut key) (finish ops key pdu st)
  unfolding finish
  finish-IsLaidOut key pdu st i =
      elim st.items
        as (λ items. All (IsLaidOut key) (elim items [
          | [] ↦ st.data_frames
          | item ∷ items ↦ (flush ops key pdu st).data_frames
        ])) [ [] ↦ i.frames | item ∷ items ↦ closed_frames key pdu st i ]

  -- Every data frame is laid out for its variables.
  pub plan-IsLaidOut :
      (key : Area) (pdu : ℕ) (vs : List (Variable ops)) (dfs : List (DataFrame ops))
      → All IsAddressed vs
      → plan ops key pdu vs ≡ some dfs
      → All (IsLaidOut key) dfs
  unfolding plan
  plan-IsLaidOut key pdu vs dfs addressed e =
      let (st, packed, done) =
        >>=-eq-some (pack ops key pdu vs (packing_start ops)) (λ st. some (finish ops key pdu st))
          e in
      let inv =
        pack_rule_on ops IsAddressed (Inv key) (Inv key) key pdu turn (flush_full-Inv key pdu) vs
          (packing_start ops) st addressed packed
          (record { laid = refl; known = tt; carried = tt; frames = tt }) in
      rw (some_injective done) at (finish-IsLaidOut key pdu st inv)
    where
      turn :
          (v : Variable ops) (place : Place) (st : Packing ops)
          → IsAddressed v
          → parse_variable_address v.address ≡ some place
          → Inv key st
          → Inv key (join ops key v place st (find place st.item_map))
      turn v place st (own, found, fine) parsed i =
          join-Inv key v place st (rw (some_injective (sym found ∙ parsed)) at fine) parsed i
