-- ===== src/Modbus/Messenger/Collect.antt =====
-- What `SerialClient.AskAtLeast` makes of a response that comes in pieces.
use harns_gateway.Prelude.{
  ℕ, zero, suc, ◌+◌, ◌<◌, ◌≡◌, refl, sym, ap, ◌∙◌, arith, List, [], ◌∷◌, ◌++◌, some, true, false,
  length, length-append, length-drop, drop, leb, ◌==◌,
}
use harns_gateway.Modbus.Types.{ok}
use harns_gateway.Modbus.Messenger.{
  Port, stop, go, overwrite, serial_done, serial_take, serial_got, serial_loop, serial_ask_at_least,
}
use harns_gateway.Modbus.Messenger.Serial.{overwrite-append}
use mathlib.Core.List.{append_assoc, append-nil}

abbrev pub concat : List (List ℕ) → List ℕ
concat [] = []
concat (piece ∷ pieces) = piece ++ concat pieces

drop-all : (xs : List ℕ) → drop (length xs) xs ≡ []
drop-all [] = refl
drop-all (x ∷ xs) = drop-all xs

module _ {W : Type 0} where
  -- From one world to another, the port gives these pieces, one for each read and none empty.
  pub data Delivers (port : Port W) : W → List (List ℕ) → W → Type 0 where
    last :
        (w : W) (b : ℕ) (bs : List ℕ) (w' : W)
        → port.read w 256 ≡ (w', some (b ∷ bs))
        → Delivers port w ((b ∷ bs) ∷ []) w'
    more :
        (w : W) (b : ℕ) (bs : List ℕ) (w' : W) (pieces : List (List ℕ)) (w'' : W)
        → port.read w 256 ≡ (w', some (b ∷ bs))
        → Delivers port w' pieces w''
        → Delivers port w ((b ∷ bs) ∷ pieces) w''

  Delivers-nonempty :
      {port : Port W} {w w' : W} {pieces : List (List ℕ)}
      → Delivers port w pieces w'
      → 0 < length (concat pieces)
  Delivers-nonempty (last w b bs w' e) = omega (arith, length-append (b ∷ bs) [])
  Delivers-nonempty (more w b bs w' pieces w'' e d) =
      omega (arith, length-append (b ∷ bs) (concat pieces))

  -- A piece that fills the buffer ends the loop.
  take-full :
      (w : W) (front back : List ℕ) (b : ℕ) (bs : List ℕ)
      → length (b ∷ bs) ≡ length back
      → serial_take w (front ++ back) (length front) (b ∷ bs)
        ≡ stop (record {
          world = w;
          response = front ++ b ∷ bs;
          result = ok (length (front ++ b ∷ bs));
        })
  unfolding serial_take serial_done
  take-full w front back b bs e = rw (fits, full, filled, same, same') refl
    where
      fits : leb (length front + length (b ∷ bs)) (length (front ++ back)) ≡ true
      fits = ground (arith, length-append front back)

      full : (length front + length (b ∷ bs) == length (front ++ back)) ≡ true
      full = ground (arith, length-append front back)

      filled : overwrite (front ++ back) (length front) (b ∷ bs) ≡ front ++ b ∷ bs
      filled =
          overwrite-append front back (b ∷ bs) (omega arith)
          ∙ ap (λ n. (front ++ b ∷ bs) ++ drop n back) e
          ∙ rw (drop-all back) (append-nil _)

      same : (length (front ++ b ∷ bs) == length front + length (b ∷ bs)) ≡ true
      same = ground (arith, length-append front (b ∷ bs))

      same' : length (front ++ b ∷ bs) ≡ length front + length (b ∷ bs)
      same' = length-append front (b ∷ bs)

  -- A piece that does not is kept.
  take-part :
      (w : W) (front back : List ℕ) (b : ℕ) (bs : List ℕ)
      → length (b ∷ bs) < length back
      → serial_take w (front ++ back) (length front) (b ∷ bs)
        ≡ go w ((front ++ b ∷ bs) ++ drop (length (b ∷ bs)) back) (length (front ++ b ∷ bs))
  unfolding serial_take
  take-part w front back b bs e = rw (fits, full, filled, length-append front (b ∷ bs)) refl
    where
      fits : leb (length front + length (b ∷ bs)) (length (front ++ back)) ≡ true
      fits = ground (arith, length-append front back)

      full : (length front + length (b ∷ bs) == length (front ++ back)) ≡ false
      full = ground (arith, length-append front back)

      filled :
          overwrite (front ++ back) (length front) (b ∷ bs)
          ≡ (front ++ b ∷ bs) ++ drop (length (b ∷ bs)) back
      filled = overwrite-append front back (b ∷ bs) (omega arith)

  collects :
      (port : Port W) (fuel : ℕ) (front back : List ℕ) {w w' : W} {pieces : List (List ℕ)}
      → Delivers port w pieces w'
      → length (concat pieces) ≡ length back
      → length back < fuel
      → serial_loop port fuel w (front ++ back) (length front)
        ≡ some (record {
          world = w';
          response = front ++ concat pieces;
          result = ok (length (front ++ concat pieces));
        })
  unfolding serial_loop serial_got
  collects port zero front back d e h = absurd (omega arith)
  collects port (suc fuel) front back (last w b bs w' r) e h =
      let whole : length (b ∷ bs) ≡ length back = omega (arith, length-append (b ∷ bs) []) in
      rw (r, take-full w' front back b bs whole, append-nil bs) refl
  collects port (suc fuel) front back (more w b bs w' pieces w'' r d) e h =
      let total : length (b ∷ bs) + length (concat pieces) ≡ length back =
        sym (length-append (b ∷ bs) (concat pieces)) ∙ e in
      let part : length (b ∷ bs) < length back = omega (arith, Delivers-nonempty d) in
      let rest : length (concat pieces) ≡ length (drop (length (b ∷ bs)) back) =
        omega (arith, length-drop (length (b ∷ bs)) back) in
      rw (r, take-part w' front back b bs part)
        (rw (append_assoc front (b ∷ bs) (concat pieces)) at
          (collects port fuel (front ++ b ∷ bs) (drop (length (b ∷ bs)) back) d rest (omega arith)))

  -- A response on a serial line that comes in pieces, none of them empty, and that is as long as
  -- the buffer is put together in the order of the pieces, when the write and the timeout succeed.
  pub serial_ask_at_least_collects :
      (port : Port W) (timeout : ℕ) (w : W) (request response : List ℕ) (min : ℕ) (w1 w2 w3 : W)
      (pieces : List (List ℕ))
      → port.write w request ≡ (w1, true)
      → port.set_read_timeout w1 timeout ≡ (w2, true)
      → Delivers port w2 pieces w3
      → length (concat pieces) ≡ length response
      → serial_ask_at_least port timeout w request response min
        ≡ some (record { world = w3; response = concat pieces; result = ok (length response) })
  unfolding serial_ask_at_least
  serial_ask_at_least_collects port timeout w request response min w1 w2 w3 pieces wrote deadline d
        e =
      rw (wrote, deadline)
        (rw e at (collects port (suc (length response)) [] response d e (omega arith)))
