-- ===== src/S7/Connect/Balance.antt =====
-- How many connections are open after a handshake.
use harns_gateway.Prelude.{
  ℕ, ◌+◌, ◌-◌, ◌≡◌, refl, ◌∙◌, arith, List, Option, some, none, Bool-cases, inl, inr,
}
use harns_gateway.S7.Types.{Result, ok, err, panic}
use harns_gateway.S7.Connect.{
  Network, new_cotp_connect_message, new_s7comm_setup_message, Run, ◌then◌, exchange, check_cotp,
  check_setup, handshake, dialled, closed, new_s7_messenger, pdu_length, get_s7_device_pdu_length,
}

-- One connection, when there is one.
abbrev pub one_if : Option ℕ → ℕ
one_if none = 0
one_if (some tunnel) = 1

module _ {W : Type 0} (network : Network W) where
  -- A count of open connections.
  pub record Tracks (opened : W → ℕ) : Type 0 where
    pub dialling : (w : W) → opened (network.dial w).0 ≡ opened w + one_if (network.dial w).1
    pub writing :
        (t : ℕ) (w : W) (message : List ℕ) → opened (network.write t w message).0 ≡ opened w
    pub reading :
        (t : ℕ) (w : W) (len min : ℕ) → opened (network.read_at_least t w len min).0 ≡ opened w
    pub closing : (t : ℕ) (w : W) → opened (network.close t w) ≡ opened w - 1

  module _ (opened : W → ℕ) (tracks : Tracks opened) where
    -- A run leaves so many connections open.
    record Leaves {A : Type 0} (n : ℕ) (r : Run W A) : Type 0 where
      left : opened r.0 ≡ n

    -- A step that opens and closes nothing.
    then-Leaves :
        {A B : Type 0} {n : ℕ} {r : Run W A} {next : W → A → Run W B}
        → Leaves n r
        → ((w : W) (a : A) → opened w ≡ n → Leaves n (next w a))
        → Leaves n (r then next)
    unfolding ◌then◌
    then-Leaves {r = (w, ok a)} e h = h w a e.left
    then-Leaves {r = (w, err x)} e h = record { left = e.left }
    then-Leaves {r = (w, panic)} e h = record { left = e.left }

    exchange-opened :
        (tunnel : ℕ) (message : List ℕ) (len : ℕ) (w : W)
        → opened (exchange network tunnel message len w).0 ≡ opened w
    unfolding exchange
    exchange-opened tunnel message len w = elim (Bool-cases (network.write tunnel w message).1) [
      | inl e ↦ rw e (tracks.reading tunnel _ len len ∙ tracks.writing tunnel w message)
      | inr e ↦ rw e (tracks.writing tunnel w message)
    ]

    exchange-Leaves :
        {n : ℕ} (tunnel : ℕ) (message : List ℕ) (len : ℕ) (w : W)
        → opened w ≡ n
        → Leaves n (exchange network tunnel message len w)
    exchange-Leaves tunnel message len w e = record {
      left = exchange-opened tunnel message len w ∙ e;
    }

    still-Leaves :
        {A : Type 0} {n : ℕ} (w : W) (result : Result A) → opened w ≡ n → Leaves n (w, result)
    still-Leaves w result e = record { left = e }

    handshake-Leaves :
        {n : ℕ} (rack slot tunnel : ℕ) (w : W)
        → opened w ≡ n
        → Leaves n (handshake network rack slot tunnel w)
    unfolding handshake
    handshake-Leaves rack slot tunnel w e =
        then-Leaves (exchange-Leaves tunnel (new_cotp_connect_message rack slot) 22 w e) (λ w c e.
          then-Leaves (still-Leaves w (check_cotp network c) e) (λ w u e.
            then-Leaves (exchange-Leaves tunnel new_s7comm_setup_message 27 w e) (λ w s e.
              then-Leaves (still-Leaves w (check_setup network s) e)
                (λ w u e. still-Leaves w (ok s) e))))

    dialled-Leaves :
        (w : W) → Leaves (opened w + one_if (network.dial w).1) (dialled network (network.dial w))
    dialled-Leaves w = record { left = same_world (network.dial w) ∙ tracks.dialling w }
      where
        same_world : (d : W × Option ℕ) → opened (dialled network d).0 ≡ opened d.0
        same_world (w, none) = refl
        same_world (w, some t) = refl

    messenger-Leaves :
        (rack slot : ℕ) (w : W)
        → Leaves (opened w + one_if (network.dial w).1) (new_s7_messenger network rack slot w)
    unfolding new_s7_messenger
    messenger-Leaves rack slot w = then-Leaves (dialled-Leaves w) (λ w' t e.
        then-Leaves (handshake-Leaves rack slot t w' e) (λ w' s e. still-Leaves w' (ok t) e))

    closed-Leaves :
        {A : Type 0} {n : ℕ} (tunnel : ℕ) (r : Run W A)
        → Leaves (n + 1) r
        → Leaves n (closed network tunnel r)
    closed-Leaves tunnel (w, result) e = record {
      left = omega (arith, e.left, tracks.closing tunnel w);
    }

    asked-Leaves :
        (rack slot tunnel n : ℕ) (w : W)
        → opened w ≡ n + 1
        → Leaves n (
            closed network tunnel (
              handshake network rack slot tunnel w then λ w s7_response.
              (w, pdu_length network s7_response)))
    asked-Leaves rack slot tunnel n w e = closed-Leaves tunnel _ (
        then-Leaves (handshake-Leaves rack slot tunnel w e)
          (λ w s e. still-Leaves w (pdu_length network s) e))

    dial-Leaves :
        {A : Type 0} (n : ℕ) (d : W × Option ℕ) (next : W → ℕ → Run W A)
        → opened d.0 ≡ n + one_if d.1
        → ((w : W) (tunnel : ℕ) → opened w ≡ n + 1 → Leaves n (next w tunnel))
        → Leaves n (dialled network d then next)
    unfolding ◌then◌
    dial-Leaves n (w', none) next e h = record { left = omega (arith, e) }
    dial-Leaves n (w', some t) next e h = h w' t e

    pdu-Leaves :
        (rack slot : ℕ) (w : W) → Leaves (opened w) (get_s7_device_pdu_length network rack slot w)
    unfolding get_s7_device_pdu_length
    pdu-Leaves rack slot w =
        dial-Leaves (opened w) (network.dial w) _ (tracks.dialling w)
          (λ w' t e. asked-Leaves rack slot t (opened w) w' e)

    -- newS7Messenger leaves one connection more open than before whenever dialling succeeds, also
    -- when the handshake after it fails; GetS7DevicePDULength leaves as many as before. The count
    -- rises by one with a connection that is dialled, falls by one with each that is closed, and
    -- does not change with writes and reads.
    pub handshakes_leave :
        (rack slot : ℕ) (w : W)
        → (opened (new_s7_messenger network rack slot w).0 ≡ opened w + one_if (network.dial w).1)
          × (opened (get_s7_device_pdu_length network rack slot w).0 ≡ opened w)
    handshakes_leave rack slot w =
        ((messenger-Leaves rack slot w).left, (pdu-Leaves rack slot w).left)
