-- ===== src/S7/Message/Ends.antt =====
-- Whether the loop of `retry` comes to an end: `i = i - 1` takes back a try that met a broken
-- connection.
use harns_gateway.Prelude.{
  ℕ, zero, suc, ◌+◌, ◌-◌, ◌≤◌, ◌≡◌, refl, ap, ◌∙◌, arith, List, Option, none, true, false,
  Bool-cases, Ends, Ends-some, inl, inr,
}
use harns_gateway.Binutil.Float.{FloatOps}
use harns_gateway.S7.Types.{Error, server_bad_resp, Result, ok, err, panic}
use harns_gateway.S7.Request.{DataFrame}
use harns_gateway.S7.Response.{validate_message}
use harns_gateway.S7.Message.{
  Messenger, is_bad_conn, as_server_error, Tried, try_result, try_once, after_renew, after_try,
  retry, message,
}

server_error_is : (x e : Error) → as_server_error (err x) ≡ err e → server_bad_resp ≡ e
server_error_is x e h = cc

module _ (ops : FloatOps) {W : Type 0} (messenger : Messenger W) where
  -- Every request fails, and every new connection is made.
  pub record AlwaysBroken : Type 0 where
    pub asking :
        (w : W) (request response : List ℕ) (min : ℕ)
        → (e : Error) × ((messenger.ask_at_least w request response min).result ≡ err e)
    pub renewing : (w : W) → (messenger.renew w).1 ≡ ok tt

  again_after_renew :
      (again : W → DataFrame ops → Option (Tried ops W)) (df : DataFrame ops)
      (renewed : W × Result (Unit {0}))
      → ((w : W) (df : DataFrame ops) → again w df ≡ none)
      → renewed.1 ≡ ok tt
      → after_renew ops messenger again df renewed ≡ none
  unfolding after_renew
  again_after_renew again df (w, ok u) h e = h w df
  again_after_renew again df (w, err x) h e = cc
  again_after_renew again df (w, panic) h e = cc

  broken_turn :
      AlwaysBroken
      → (again next : W → DataFrame ops → Option (Tried ops W)) (w : W) (df : DataFrame ops)
      → ((w : W) (df : DataFrame ops) → again w df ≡ none)
      → after_try ops messenger again next
          (try_once ops messenger w df).world
          (try_once ops messenger w df).frame
          (try_once ops messenger w df).result
        ≡ none
  unfolding try_once try_result after_try is_bad_conn
  broken_turn broken again next w df h =
      let asked = messenger.ask_at_least w df.data_frame df.response_data_frame 19 in
      let (e, failed) = broken.asking w df.data_frame df.response_data_frame 19 in
      rw failed (
        again_after_renew again (record df { response_data_frame = asked.response })
          (messenger.renew (messenger.close asked.world)) h
          (broken.renewing (messenger.close asked.world)))

  retry_never :
      AlwaysBroken
      → (fuel tries : ℕ) (w : W) (df : DataFrame ops)
      → retry ops messenger fuel (suc tries) w df ≡ none
  unfolding retry
  retry_never broken zero tries w df = refl
  retry_never broken (suc fuel) tries w df =
      broken_turn broken (retry ops messenger fuel (suc tries)) (retry ops messenger fuel tries) w
        df (retry_never broken fuel tries)

  -- When every request of an S7 messenger fails and every new connection is made, the loop of
  -- retry does not end within any count of turns, so that message never returns.
  pub message_never :
      AlwaysBroken
      → (fuel : ℕ) (w : W) (df : DataFrame ops) → message ops messenger fuel w df ≡ none
  unfolding message
  message_never broken fuel w df = rw (retry_never broken fuel 2 w df) refl

  -- A bound on the requests that still fail.
  pub record Breaks (left : W → ℕ) : Type 0 where
    pub failing :
        (w : W) (request response : List ℕ) (min : ℕ) (e : Error)
        → (messenger.ask_at_least w request response min).result ≡ err e
        → left (messenger.ask_at_least w request response min).world + 1 ≤ left w
    pub asking :
        (w : W) (request response : List ℕ) (min : ℕ)
        → left (messenger.ask_at_least w request response min).world ≤ left w
    pub closing : (w : W) → left (messenger.close w) ≤ left w
    pub renewing : (w : W) → left (messenger.renew w).0 ≤ left w

  after_renew-Ends :
      (left : W → ℕ) (n : ℕ) (again : W → DataFrame ops → Option (Tried ops W)) (df : DataFrame ops)
      (renewed : W × Result (Unit {0}))
      → ((w : W) (df : DataFrame ops) → left w ≤ n → Ends (again w df))
      → left renewed.0 ≤ n
      → Ends (after_renew ops messenger again df renewed)
  unfolding after_renew
  after_renew-Ends left n again df (w, ok u) h le = h w df le
  after_renew-Ends left n again df (w, err x) h le = tt
  after_renew-Ends left n again df (w, panic) h le = tt

  -- A try that met a broken connection leaves one less of them.
  turn-Ends :
      (left : W → ℕ) (n : ℕ) (again next : W → DataFrame ops → Option (Tried ops W)) (w : W)
      (df : DataFrame ops) (result : Result (List ℕ))
      → Breaks left
      → ((w : W) (df : DataFrame ops) → left w + 1 ≤ n → Ends (again w df))
      → ((w : W) (df : DataFrame ops) → left w ≤ n → Ends (next w df))
      → ((e : Error) → result ≡ err e → is_bad_conn e ≡ true → left w + 1 ≤ n)
      → left w ≤ n
      → Ends (after_try ops messenger again next w df result)
  unfolding after_try
  turn-Ends left n again next w df (ok buf) breaks h k fell le = tt
  turn-Ends left n again next w df panic breaks h k fell le = tt
  turn-Ends left n again next w df (err e) breaks h k fell le = elim (Bool-cases (is_bad_conn e)) [
    | inl b ↦
        let less = fell e refl b in
        let made = messenger.renew (messenger.close w) in
        rw b (
          after_renew-Ends left (left w) again df made (λ w' df' le'. h w' df' (omega arith))
            (omega (arith, breaks.closing w, breaks.renewing (messenger.close w))))
    | inr b ↦ rw b (k w df le)
  ]

  -- An error of a bad connection is an error of the request.
  fails_by_request :
      (df : DataFrame ops) (asked : Result ℕ) (e : Error)
      → try_result ops df asked ≡ err e
      → is_bad_conn e ≡ true
      → (why : Error) × (asked ≡ err why)
  unfolding try_result is_bad_conn
  fails_by_request df (err why) e h b = (why, refl)
  fails_by_request df panic e h b = cc
  fails_by_request df (ok n) e h b = absurd (not_server (validate_message ops df n) e h b)
    where
      not_server :
          (validated : Result (List ℕ)) (e : Error)
          → as_server_error validated ≡ err e
          → is_bad_conn e ≡ true
          → ⊥
      not_server (ok buf) e h b = cc
      not_server (err x) e h b =
          let bad : false ≡ true = ap is_bad_conn (server_error_is x e h) ∙ b in cc bad
      not_server panic e h b = cc

  fewer :
      (left : W → ℕ)
      → Breaks left
      → (w : W) (df : DataFrame ops) (e : Error) → (try_once ops messenger w df).result ≡ err e
      → is_bad_conn e ≡ true
      → left (try_once ops messenger w df).world + 1 ≤ left w
  unfolding try_once
  fewer left breaks w df e failed bad =
      let (why, broke) = fails_by_request _ _ e failed bad in
      breaks.failing w df.data_frame df.response_data_frame 19 why broke

  asked_less :
      (left : W → ℕ)
      → Breaks left
      → (w : W) (df : DataFrame ops) → left (try_once ops messenger w df).world ≤ left w
  unfolding try_once
  asked_less left breaks w df = breaks.asking w df.data_frame df.response_data_frame 19

  retry-Ends :
      (left : W → ℕ)
      → Breaks left
      → (fuel tries : ℕ) (w : W) (df : DataFrame ops) → tries + left w ≤ fuel
      → Ends (retry ops messenger fuel tries w df)
  unfolding retry
  retry-Ends left breaks fuel zero w df le = tt
  retry-Ends left breaks zero (suc tries) w df le = absurd (omega arith)
  retry-Ends left breaks (suc fuel) (suc tries) w df le =
      let tried = try_once ops messenger w df in
      turn-Ends left (fuel - tries) (retry ops messenger fuel (suc tries))
        (retry ops messenger fuel tries) tried.world tried.frame tried.result breaks
        (λ w df h. retry-Ends left breaks fuel (suc tries) w df (omega (arith, h)))
        (λ w df h. retry-Ends left breaks fuel tries w df (omega (arith, h)))
        (λ e failed bad. omega (arith, fewer left breaks w df e failed bad))
        (omega (arith, asked_less left breaks w df))

  -- message of the S7 broker returns when only so many requests can still fail: three turns of the
  -- loop of retry, and one for each of these, are enough. A request that fails lowers the bound,
  -- and no request, close or new connection raises it.
  pub message-Ends :
      (left : W → ℕ)
      → Breaks left
      → (fuel : ℕ) (w : W) (df : DataFrame ops) → 3 + left w ≤ fuel
      → Ends (message ops messenger fuel w df)
  unfolding message
  message-Ends left breaks fuel w df le =
      let (tried, e) = Ends-some _ (retry-Ends left breaks fuel 3 w df le) in rw e tt
