-- ===== src/Modbus/Messenger/Serial.antt =====
-- The read loop of `SerialClient.AskAtLeast`: it ends, and what it collects.
use harns_gateway.Prelude.{
  ℕ, zero, suc, ◌+◌, ◌≤◌, ◌<◌, ◌≡◌, refl, ap, arith, List, [], ◌∷◌, ◌++◌, Option, some, none,
  length, Ends, Ends-some, drop, Bool, Bool-cases, inl, inr, leb, ◌==◌,
}
use harns_gateway.Modbus.Messenger.{
  Asked, Port, Turn, stop, go, overwrite, serial_take, serial_got, after_turn, serial_loop,
  serial_ask_at_least,
}

pub length-overwrite :
    (buf : List ℕ) (start : ℕ) (bytes : List ℕ) → length (overwrite buf start bytes) ≡ length buf
unfolding overwrite
length-overwrite [] start bytes = refl
length-overwrite (x ∷ buf) zero [] = refl
length-overwrite (x ∷ buf) zero (b ∷ bytes) = ap suc (length-overwrite buf zero bytes)
length-overwrite (x ∷ buf) (suc start) bytes = ap suc (length-overwrite buf start bytes)

pub overwrite-append :
    (front back bytes : List ℕ)
    → length bytes ≤ length back
    → overwrite (front ++ back) (length front) bytes ≡ (front ++ bytes) ++ drop (length bytes) back
unfolding overwrite
overwrite-append [] [] [] h = refl
overwrite-append [] (x ∷ back) [] h = refl
overwrite-append [] [] (b ∷ bytes) h = absurd (omega arith)
overwrite-append [] (x ∷ back) (b ∷ bytes) h =
    ap (◌∷◌ b) (overwrite-append [] back bytes (omega arith))
overwrite-append (f ∷ front) back bytes h = ap (◌∷◌ f) (overwrite-append front back bytes h)

module _ {W : Type 0} where
  -- A turn that goes on has added bytes, and has not filled the buffer.
  abbrev IsProgress : List ℕ → ℕ → Turn W → Type 0
  IsProgress response current (stop asked) = Unit {0}
  IsProgress response current (go w filled more) =
      (current < more) × (more < length response) × (length filled ≡ length response)

  take-IsProgress :
      (w : W) (response : List ℕ) (current : ℕ) (bytes : List ℕ)
      → IsProgress response current (serial_take w response current bytes)
  unfolding serial_take
  take-IsProgress w response current [] = tt
  take-IsProgress w response current (b ∷ bs) =
      elim (Bool-cases (leb (current + length (b ∷ bs)) (length response))) [
        | inr e ↦ rw e tt
        | inl e ↦ elim (Bool-cases ((current + length (b ∷ bs)) == length response)) [
          | inl f ↦ rw (e, f) tt
          | inr f ↦
              rw (e, f) (omega arith, ground arith, length-overwrite response current (b ∷ bs))
        ]
      ]

  got-IsProgress :
      (response : List ℕ) (current : ℕ) (got : W × Option (List ℕ))
      → IsProgress response current (serial_got response current got)
  unfolding serial_got
  got-IsProgress response current (w, none) = tt
  got-IsProgress response current (w, some bytes) = take-IsProgress w response current bytes

  after_turn-Ends :
      (loop : W → List ℕ → ℕ → Option (Asked W)) (response : List ℕ) (current : ℕ) (turn : Turn W)
      → ((w : W) (filled : List ℕ) (more : ℕ)
          → IsProgress response current (go w filled more)
          → Ends (loop w filled more))
      → IsProgress response current turn
      → Ends (after_turn loop turn)
  after_turn-Ends loop response current (stop asked) h p = tt
  after_turn-Ends loop response current (go w filled more) h p = h w filled more p

  serial_loop-Ends :
      (port : Port W) (fuel : ℕ) (w : W) (response : List ℕ) (current : ℕ)
      → length response < current + fuel
      → current ≤ length response
      → Ends (serial_loop port fuel w response current)
  unfolding serial_loop
  serial_loop-Ends port zero w response current h le = absurd (omega arith)
  serial_loop-Ends port (suc fuel) w response current h le =
      after_turn-Ends (serial_loop port fuel) response current _
        (λ w' filled more p. serial_loop-Ends port fuel w' filled more (omega arith) (omega arith))
        (got-IsProgress response current (port.read w 256))

  -- A request on a serial line returns, whatever the port does: the loop has enough fuel, since
  -- each turn that does not end it adds a byte.
  pub serial_ask_at_least_ends :
      (port : Port W) (timeout : ℕ) (w : W) (request response : List ℕ) (min : ℕ)
      → (asked : Asked W) × (serial_ask_at_least port timeout w request response min ≡ some asked)
  unfolding serial_ask_at_least
  serial_ask_at_least_ends port timeout w request response min = Ends-some _ ends
    where
      wrote : W × Bool
      wrote = port.write w request

      deadline : W × Bool
      deadline = port.set_read_timeout wrote.0 timeout

      ended : Ends (serial_loop port (suc (length response)) deadline.0 response 0)
      ended =
          serial_loop-Ends port (suc (length response)) deadline.0 response 0 (omega arith)
            (omega arith)

      ends : Ends (serial_ask_at_least port timeout w request response min)
      ends = elim (Bool-cases (wrote.1)) [
        | inr e ↦ rw e tt
        | inl e ↦ elim (Bool-cases (deadline.1)) [ inr f ↦ rw (e, f) tt | inl f ↦ rw (e, f) ended ]
      ]
