-- ===== src/Modbus/Message/Retry.antt =====
-- What `retry` promises: at most three requests, and only validated data.
use harns_gateway.Prelude.{
  ℕ, zero, suc, ◌+◌, ◌≤◌, ◌≡◌, refl, arith, List, Option, none, some, Bool-cases, Option-cases, inl,
  inr,
}
use harns_gateway.Binutil.Float.{FloatOps}
use harns_gateway.Modbus.Types.{DataFrame, Result, ok, err, panic}
use harns_gateway.Modbus.Messenger.{Messenger}
use harns_gateway.Modbus.Decode.{parse_variable_value}
use harns_gateway.Modbus.Response.{Checks, validate_and_extract_message}
use harns_gateway.Modbus.Response.Checked.{HasId, IsReply, validate_and_extract_message-IsReply}
use harns_gateway.Modbus.Message.{
  is_bad_conn, try_result, Tried, number_frame, ask, ask_numbered, try_once, after_renew, after_try,
  retry, hand_on, hand_on_parsed, message,
}
use harns_gateway.Modbus.Message.Numbered.{numbered-HasId}

try_result-ok :
    (asked : Result ℕ) (validated : Result (List ℕ)) (buf : List ℕ)
    → try_result asked validated ≡ ok buf
    → (n : ℕ) × (asked ≡ ok n) × (validated ≡ ok buf)
unfolding try_result
try_result-ok (ok n) (ok b) buf e = (n, refl, e)
try_result-ok (ok n) (err x) buf e = absurd cc
try_result-ok (ok n) panic buf e = absurd cc
try_result-ok (err x) validated buf e = absurd cc
try_result-ok panic validated buf e = absurd cc

module _ (ops : FloatOps) {W : Type 0} (messenger : Messenger W) (checks : Checks) where
  -- The frame holds the answer to its own request, with the transaction id of the request, from
  -- the slave and without an error.
  abbrev pub IsAnswer : DataFrame ops → Type 0
  IsAnswer df =
      (w : W) × (old : List ℕ) × (n : ℕ) × ((messenger.ask_at_least w df.data_frame old 6).result
        ≡ ok n)
      × ((messenger.ask_at_least w df.data_frame old 6).response ≡ df.response_data_frame)
      × HasId checks.transaction df.transaction_id df.data_frame
      × HasId checks.transaction df.transaction_id df.response_data_frame
      × IsReply checks.transaction df.slave df.response_data_frame

  -- The data of a try is that of the response it left in the frame.
  abbrev IsValidated : Tried ops W → Type 0
  IsValidated tried =
      (buf : List ℕ)
      → tried.result ≡ ok buf
      → (validate_and_extract_message ops checks tried.frame ≡ ok buf) × IsAnswer tried.frame

  ask-IsValidated :
      (w : W) (df : DataFrame ops)
      → HasId checks.transaction df.transaction_id df.data_frame
      → IsValidated (ask ops messenger checks w df)
  unfolding ask
  ask-IsValidated w df numbered buf e =
      let asked = messenger.ask_at_least w df.data_frame df.response_data_frame 6 in
      let answered : DataFrame ops = record df { response_data_frame = asked.response } in
      let (n, asked_ok, valid) = try_result-ok asked.result _ buf e in
      let (has_id, reply) = validate_and_extract_message-IsReply ops checks answered buf valid in
      (valid, (w, df.response_data_frame, n, asked_ok, refl, numbered, has_id, reply))

  ask_numbered-IsValidated :
      (w : W) (df : DataFrame ops) (numbered : Option (DataFrame ops))
      → number_frame ops messenger checks df ≡ numbered
      → IsValidated (ask_numbered ops messenger checks w df numbered)
  unfolding ask_numbered
  ask_numbered-IsValidated w df none made = λ buf e. absurd cc
  ask_numbered-IsValidated w df (some numbered) made =
      ask-IsValidated w numbered (numbered-HasId ops messenger checks df numbered made)

  try_once-IsValidated :
      (w : W) (df : DataFrame ops) → IsValidated (try_once ops messenger checks w df)
  unfolding try_once
  try_once-IsValidated w df = ask_numbered-IsValidated w df _ refl

  after_renew-IsValidated :
      (next : W → DataFrame ops → Tried ops W) (df : DataFrame ops)
      (renewed : W × Result (Unit {0}))
      → ((w : W) (df : DataFrame ops) → IsValidated (next w df))
      → IsValidated (after_renew ops messenger checks next df renewed)
  unfolding after_renew
  after_renew-IsValidated next df (w, ok u) h = h w df
  after_renew-IsValidated next df (w, err e) h = λ buf f. absurd cc
  after_renew-IsValidated next df (w, panic) h = λ buf f. absurd cc

  after_try-IsValidated :
      (next : W → DataFrame ops → Tried ops W) (w : W) (df : DataFrame ops)
      (result : Result (List ℕ))
      → ((w : W) (df : DataFrame ops) → IsValidated (next w df))
      → IsValidated (record { world = w; frame = df; result = result })
      → IsValidated (after_try ops messenger checks next w df result)
  unfolding after_try
  after_try-IsValidated next w df (ok buf) h v = v
  after_try-IsValidated next w df panic h v = v
  after_try-IsValidated next w df (err e) h v = elim (Bool-cases (is_bad_conn e)) [
    | inl b ↦ rw b (after_renew-IsValidated next df (messenger.renew (messenger.close w)) h)
    | inr b ↦ rw b (h w df)
  ]

  -- However many tries are made and fail, the data that retry returns is what
  -- ValidateAndExtractMessage takes from the response in the frame. That response is what the
  -- messenger gave for the request in the same frame, without an error; it has the byte of the
  -- slave and a function code without the bit of an error, and over TCP request and response start
  -- with the transaction id of the frame.
  pub retry-IsValidated :
      (n : ℕ) (w : W) (df : DataFrame ops) (buf : List ℕ)
      → (retry ops messenger checks n w df).result ≡ ok buf
      → (validate_and_extract_message ops checks (retry ops messenger checks n w df).frame ≡ ok buf)
        × IsAnswer (retry ops messenger checks n w df).frame
  unfolding retry
  retry-IsValidated zero w df = λ buf e. absurd cc
  retry-IsValidated (suc n) w df =
      let tried = try_once ops messenger checks w df in
      after_try-IsValidated (retry ops messenger checks n) tried.world tried.frame tried.result
        (retry-IsValidated n) (try_once-IsValidated w df)

  -- A count of requests: a request adds one, a change of the connection none.
  pub record Counts (requests : W → ℕ) : Type 0 where
    pub asking :
        (w : W) (request response : List ℕ) (min : ℕ)
        → requests (messenger.ask_at_least w request response min).world ≤ requests w + 1
    pub closing : (w : W) → requests (messenger.close w) ≤ requests w
    pub renewing : (w : W) → requests (messenger.renew w).0 ≤ requests w

  ask_numbered_count :
      (requests : W → ℕ)
      → Counts requests
      → (w : W) (df : DataFrame ops) (numbered : Option (DataFrame ops))
      → requests (ask_numbered ops messenger checks w df numbered).world ≤ requests w + 1
  unfolding ask_numbered ask
  ask_numbered_count requests counts w df none = omega arith
  ask_numbered_count requests counts w df (some numbered) = counts.asking w _ _ 6

  after_renew_count :
      (requests : W → ℕ) (next : W → DataFrame ops → Tried ops W) (n : ℕ) (df : DataFrame ops)
      (renewed : W × Result (Unit {0}))
      → ((w : W) (df : DataFrame ops) → requests (next w df).world ≤ requests w + n)
      → requests (after_renew ops messenger checks next df renewed).world ≤ requests renewed.0 + n
  unfolding after_renew
  after_renew_count requests next n df (w, ok u) h = h w df
  after_renew_count requests next n df (w, err e) h = omega arith
  after_renew_count requests next n df (w, panic) h = omega arith

  after_try_count :
      (requests : W → ℕ)
      → Counts requests
      → (next : W → DataFrame ops → Tried ops W) (n : ℕ) (w : W) (df : DataFrame ops)
        (result : Result (List ℕ))
      → ((w : W) (df : DataFrame ops) → requests (next w df).world ≤ requests w + n)
      → requests (after_try ops messenger checks next w df result).world ≤ requests w + n
  unfolding after_try
  after_try_count requests counts next n w df (ok buf) h = omega arith
  after_try_count requests counts next n w df panic h = omega arith
  after_try_count requests counts next n w df (err e) h = elim (Bool-cases (is_bad_conn e)) [
    | inl b ↦ rw b (
        omega (
          arith,
          counts.closing w,
          counts.renewing (messenger.close w),
          after_renew_count requests next n df (messenger.renew (messenger.close w)) h,
        ))
    | inr b ↦ rw b (h w df)
  ]

  -- A loop of `n` tries sends at most `n` requests.
  pub retry_count :
      (requests : W → ℕ)
      → Counts requests
      → (n : ℕ) (w : W) (df : DataFrame ops)
      → requests (retry ops messenger checks n w df).world ≤ requests w + n
  unfolding retry try_once
  retry_count requests counts zero w df = omega arith
  retry_count requests counts (suc n) w df =
      let tried = try_once ops messenger checks w df in
      omega (
        arith,
        ask_numbered_count requests counts w df (number_frame ops messenger checks df),
        after_try_count requests counts (retry ops messenger checks n) n tried.world tried.frame
            tried.result (retry_count requests counts n),
      )

  hand_on-world :
      (w : W) (df : DataFrame ops) (result : Result (List ℕ))
      → (hand_on ops messenger checks w df result).world ≡ w
  unfolding hand_on hand_on_parsed
  hand_on-world w df (err e) = refl
  hand_on-world w df panic = refl
  hand_on-world w df (ok buf) = elim (Option-cases (parse_variable_value ops df buf)) [
    | inl e ↦ rw e refl
    | inr (parsed, e) ↦ rw e refl
  ]

  -- A poll of a data frame sends at most three requests, whatever comes back and however often the
  -- connection is renewed, where the count of requests rises by at most one with a request and
  -- does not rise when a connection is closed or opened.
  pub message_count :
      (requests : W → ℕ)
      → Counts requests
      → (w : W) (df : DataFrame ops)
      → requests (message ops messenger checks w df).world ≤ requests w + 3
  unfolding message
  message_count requests counts w df =
      let tried = retry ops messenger checks 3 w df in
      rw (hand_on-world tried.world tried.frame tried.result) (retry_count requests counts 3 w df)
