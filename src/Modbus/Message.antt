-- ===== src/Modbus/Message.antt =====
-- `message` and `retry` of pkg/protocol/modbus/modbusbroker.go: one data frame is sent, validated and
-- parsed, with three tries in all. The messenger is taken from `Clients` before.
pub mod Numbered
pub mod Retry
pub mod Memory
use harns_gateway.Prelude.{
  ℕ, zero, suc, List, [], ◌∷◌, Option, Bool, true, false, none, some, if◌then◌else◌,
}
use harns_gateway.Binutil.Float.{FloatOps}
use harns_gateway.Modbus.Types.{
  Variable, DataFrame, Error, modbus_bad_conn, modbus_server_bad_resp, many_retry, Result, ok, err,
  panic,
}
use harns_gateway.Modbus.Messenger.{Asked, Messenger}
use harns_gateway.Modbus.Response.{Checks, write_transaction_id, validate_and_extract_message}
use harns_gateway.Modbus.Decode.{parse_variable_value}

-- `errors.Is(err, modbus.ErrModbusBadConn)`
unfoldable pub is_bad_conn : Error → Bool
is_bad_conn modbus_bad_conn = true
is_bad_conn _ = false

-- What one try gives: the error of the connection and that of the response are replaced.
unfoldable pub try_result : Result ℕ → Result (List ℕ) → Result (List ℕ)
try_result (ok n) (ok buf) = ok buf
try_result (ok n) (err e) = err modbus_server_bad_resp
try_result (ok n) panic = panic
try_result (err e) validated = err modbus_bad_conn
try_result panic validated = panic

module _ (ops : FloatOps) where
  -- `ParseVariableResult`
  pub record ParseVariableResult : Type 0 where
    pub err : List Error
    pub variable_slice : List (Variable ops)

  -- Where a try, or all of them, left the world and the data frame, and what it gave.
  pub record Tried (W : Type 0) : Type 0 where
    pub world : W
    pub frame : DataFrame ops
    pub result : Result (List ℕ)

  -- Where `message` left them, and what it put into the channel. A panic is recovered, and nothing
  -- is put in; the frame is then the one before the values were stored.
  pub record Messaged (W : Type 0) : Type 0 where
    pub world : W
    pub frame : DataFrame ops
    pub sent : Option ParseVariableResult

  module _ {W : Type 0} (messenger : Messenger W) (checks : Checks) where
    -- The transaction id, when there is one.
    unfoldable pub number_frame : DataFrame ops → Option (DataFrame ops)
    number_frame df = if checks.transaction then write_transaction_id ops df else some df

    unfoldable pub ask : W → DataFrame ops → Tried W
    ask w df =
        let asked = messenger.ask_at_least w df.data_frame df.response_data_frame 6 in
        let answered = record df { response_data_frame = asked.response } in
        record {
          world = asked.world;
          frame = answered;
          result = try_result asked.result (validate_and_extract_message ops checks answered);
        }

    unfoldable pub ask_numbered : W → DataFrame ops → Option (DataFrame ops) → Tried W
    ask_numbered w df none = record { world = w; frame = df; result = panic }
    ask_numbered w df (some numbered) = ask w numbered

    -- The function that `message` gives to `retry`.
    unfoldable pub try_once : W → DataFrame ops → Tried W
    try_once w df = ask_numbered w df (number_frame df)

    -- A connection in place of the old one, or the error of `NewMessenger`.
    unfoldable pub after_renew :
        (W → DataFrame ops → Tried W) → DataFrame ops → W × Result (Unit {0}) → Tried W
    after_renew next df (w, ok u) = next w df
    after_renew next df (w, err e) = record { world = w; frame = df; result = err e }
    after_renew next df (w, panic) = record { world = w; frame = df; result = panic }

    -- The body of the loop of `retry` after a try, where `next` is the rest of the loop.
    unfoldable pub after_try :
        (W → DataFrame ops → Tried W) → W → DataFrame ops → Result (List ℕ) → Tried W
    after_try next w df (ok buf) = record { world = w; frame = df; result = ok buf }
    after_try next w df panic = record { world = w; frame = df; result = panic }
    after_try next w df (err e) =
        if is_bad_conn e
        then after_renew next df (messenger.renew (messenger.close w))
        else next w df

    unfoldable pub retry : ℕ → W → DataFrame ops → Tried W
    retry zero w df = record { world = w; frame = df; result = err many_retry }
    retry (suc n) w df =
        let tried = try_once w df in after_try (retry n) tried.world tried.frame tried.result

    unfoldable pub hand_on_parsed :
        W → DataFrame ops → Option (DataFrame ops × List (Variable ops)) → Messaged W
    hand_on_parsed w df none = record { world = w; frame = df; sent = none }
    hand_on_parsed w df (some (df', variables)) = record {
      world = w;
      frame = df';
      sent = some (record { err = []; variable_slice = variables });
    }

    -- The end of `message`.
    unfoldable pub hand_on : W → DataFrame ops → Result (List ℕ) → Messaged W
    hand_on w df (ok buf) = hand_on_parsed w df (parse_variable_value ops df buf)
    hand_on w df (err e) = record {
      world = w;
      frame = df;
      sent = some (record { err = e ∷ []; variable_slice = [] });
    }
    hand_on w df panic = record { world = w; frame = df; sent = none }

    unfoldable pub message : W → DataFrame ops → Messaged W
    message w df = let tried = retry 3 w df in hand_on tried.world tried.frame tried.result
