-- ===== src/S7/Message.antt =====
-- `message` and `retry` of pkg/protocol/s7/s7broker.go: one data frame is sent, validated and parsed.
-- The messenger is taken from `Clients` before. `W` is the state of the world outside.
pub mod Ends
pub mod Answered
use harns_gateway.Prelude.{
  ℕ, zero, suc, List, [], ◌∷◌, Option, Bool, true, false, none, some, ◌>>=◌, if◌then◌else◌,
}
use harns_gateway.Binutil.Float.{FloatOps}
use harns_gateway.Modbus.Types.{slice_from}
use harns_gateway.S7.Types.{
  Variable, Error, bad_conn, server_bad_resp, many_retry, Result, ok, err, panic,
}
use harns_gateway.S7.Request.{DataFrame}
use harns_gateway.S7.Response.{validate_message, parse_variable_value}

-- What a request leaves behind: the world, the response buffer, and the count of bytes or an error.
pub record Asked (W : Type 0) : Type 0 where
  pub world : W
  pub response : List ℕ
  pub result : Result ℕ

-- `Messenger`, with the function `NewMessenger` of `Clients`, whose connection takes the place of
-- the old one (`Reset`).
pub record Messenger (W : Type 0) : Type 0 where
  pub ask_at_least : W → List ℕ → List ℕ → ℕ → Asked W
  pub close : W → W
  pub renew : W → W × Result (Unit {0})

-- `errors.Is(err, s7runtime.ErrBadConn)`
unfoldable pub is_bad_conn : Error → Bool
is_bad_conn bad_conn = true
is_bad_conn _ = false

abbrev pub as_server_error : Result (List ℕ) → Result (List ℕ)
as_server_error (ok buf) = ok buf
as_server_error (err e) = err server_bad_resp
as_server_error panic = panic

module _ (ops : FloatOps) where
  -- `ParseVariableResult`
  pub record ParseVariableResult : Type 0 where
    pub err : List Error
    pub variable_slice : List (Variable ops)

  -- Where a try, or all of them, left the world and the data frame, and what it gave.
  pub record Tried (W : Type 0) : Type 0 where
    pub world : W
    pub frame : DataFrame ops
    pub result : Result (List ℕ)

  -- Where `message` left them, and what it put into the channel. A panic is recovered, and nothing
  -- is put in; the frame is then the one before the values were stored.
  pub record Messaged (W : Type 0) : Type 0 where
    pub world : W
    pub frame : DataFrame ops
    pub sent : Option ParseVariableResult

  -- The error of the connection and that of the answer are replaced. The answer is looked at when
  -- there is one.
  unfoldable pub try_result : DataFrame ops → Result ℕ → Result (List ℕ)
  try_result df (err e) = err bad_conn
  try_result df panic = panic
  try_result df (ok least) = as_server_error (validate_message ops df least)

  module _ {W : Type 0} (messenger : Messenger W) where
    -- The function that `message` gives to `retry`.
    unfoldable pub try_once : W → DataFrame ops → Tried W
    try_once w df =
        let asked = messenger.ask_at_least w df.data_frame df.response_data_frame 19 in
        let answered = record df { response_data_frame = asked.response } in
        record { world = asked.world; frame = answered; result = try_result answered asked.result }

    -- A connection in place of the old one, or the error of `NewMessenger`.
    unfoldable pub after_renew :
        (W → DataFrame ops → Option (Tried W))
        → DataFrame ops
        → W × Result (Unit {0})
        → Option (Tried W)
    after_renew again df (w, ok u) = again w df
    after_renew again df (w, err e) = some (record { world = w; frame = df; result = err e })
    after_renew again df (w, panic) = some (record { world = w; frame = df; result = panic })

    -- The body of the loop after a try. `again` is the loop at the same count, to which
    -- `i = i - 1` and `i++` lead, and `next` the loop at the next.
    unfoldable pub after_try :
        (W → DataFrame ops → Option (Tried W))
        → (W → DataFrame ops → Option (Tried W))
        → W
        → DataFrame ops
        → Result (List ℕ)
        → Option (Tried W)
    after_try again next w df (ok buf) = some (record { world = w; frame = df; result = ok buf })
    after_try again next w df panic = some (record { world = w; frame = df; result = panic })
    after_try again next w df (err e) =
        if is_bad_conn e
        then after_renew again df (messenger.renew (messenger.close w))
        else next w df

    -- The loop, with so many tries left. `none` is too little fuel: a turn takes one.
    unfoldable pub retry : ℕ → ℕ → W → DataFrame ops → Option (Tried W)
    retry fuel zero w df = some (record { world = w; frame = df; result = err many_retry })
    retry zero (suc tries) w df = none
    retry (suc fuel) (suc tries) w df =
        let tried = try_once w df in
        after_try (retry fuel (suc tries)) (retry fuel tries) tried.world tried.frame tried.result

    unfoldable pub hand_on_parsed :
        W → DataFrame ops → Option (DataFrame ops × List (Variable ops)) → Messaged W
    hand_on_parsed w df none = record { world = w; frame = df; sent = none }
    hand_on_parsed w df (some (df', variables)) = record {
      world = w;
      frame = df';
      sent = some (record { err = []; variable_slice = variables });
    }

    unfoldable pub hand_on_data : W → DataFrame ops → Option (List ℕ) → Messaged W
    hand_on_data w df none = record { world = w; frame = df; sent = none }
    hand_on_data w df (some bytes) = hand_on_parsed w df (parse_variable_value ops df bytes)

    -- The end of `message`.
    unfoldable pub hand_on : W → DataFrame ops → Result (List ℕ) → Messaged W
    hand_on w df (ok buf) = hand_on_data w df (slice_from 21 buf)
    hand_on w df (err e) = record {
      world = w;
      frame = df;
      sent = some (record { err = e ∷ []; variable_slice = [] });
    }
    hand_on w df panic = record { world = w; frame = df; sent = none }

    unfoldable pub message : ℕ → W → DataFrame ops → Option (Messaged W)
    message fuel w df = do
      tried ← retry fuel 3 w df
      some (hand_on tried.world tried.frame tried.result)
