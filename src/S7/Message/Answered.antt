-- ===== src/S7/Message/Answered.antt =====
-- A poll of a device that answers.
use harns_gateway.Prelude.{ℕ, suc, ◌+◌, ◌^◌, ◌<◌, ◌≡◌, refl, List, [], ◌++◌, some, length}
use harns_gateway.Binutil.Float.{FloatOps}
use harns_gateway.Modbus.Types.{slice_from}
use harns_gateway.S7.Types.{Variable, ok}
use harns_gateway.S7.Request.{DataFrame}
use harns_gateway.S7.Response.{parse_variable_value}
use harns_gateway.S7.Response.Slices.{slice_from-append}
use harns_gateway.S7.Response.Accepts.{answer_head, validate-answer}
use harns_gateway.S7.Message.{
  Messenger, try_result, try_once, after_try, retry, hand_on_parsed, hand_on_data, hand_on, message,
}

module _ (ops : FloatOps) {W : Type 0} (messenger : Messenger W) where
  data_of_answer :
      (head : ℕ → ℕ) (bytes : List ℕ)
      → slice_from 21 (answer_head head (length bytes) 0 0 ++ bytes) ≡ some bytes
  data_of_answer head bytes = slice_from-append (answer_head head (length bytes) 0 0) bytes

  -- When the first answer to an S7 data frame has the class and the code of an error at 0 and data
  -- as long as the frame expects, whatever the other bytes of its head are, message hands on,
  -- after one request and without an error, what ParseVariableValue reads from the data, whatever
  -- lies behind them in the buffer. The data are shorter than 2 ^ 16, and ParseVariableValue does
  -- not panic on them.
  pub message_answered :
      (fuel : ℕ) (w w' : W) (df df' : DataFrame ops) (head : ℕ → ℕ) (bytes rest : List ℕ)
      (variables : List (Variable ops))
      → length bytes < 2 ^ 16
      → df.data_length ≡ length bytes
      → messenger.ask_at_least w df.data_frame df.response_data_frame 19 ≡ record {
        world = w';
        response = (answer_head head (length bytes) 0 0 ++ bytes) ++ rest;
        result = ok (21 + length bytes);
      }
      → parse_variable_value ops
          (record df {
            response_data_frame = (answer_head head (length bytes) 0 0 ++ bytes) ++ rest;
          })
          bytes
        ≡ some (df', variables)
      → message ops messenger (suc fuel) w df
        ≡ some (record {
          world = w';
          frame = df';
          sent = some (record { err = []; variable_slice = variables });
        })
  unfolding message retry try_once try_result after_try hand_on hand_on_data hand_on_parsed
  message_answered fuel w w' df df' head bytes rest variables short len answers parsed =
      let answered : DataFrame ops = record df {
        response_data_frame = (answer_head head (length bytes) 0 0 ++ bytes) ++ rest;
      } in
      let valid = validate-answer ops answered head bytes rest short len refl in
      rw (answers, valid, data_of_answer head bytes, parsed) refl
