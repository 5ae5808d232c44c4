-- ===== src/S7/Action/Deliver.antt =====
-- `DeliverAction` of pkg/protocol/s7/s7broker.go: the values of a request are converted to the types
-- of their variables, and each variable is written in a frame of its own.
use Prim.Native.String.{String}
use text.Mathlib.Text.{◌==◌ as str_eq}
use harns_gateway.Prelude.{
  ℕ, List, [], ◌∷◌, map, Option, Bool, none, some, ◌==◌, get_elem?, replicate, if◌then◌else◌,
}
use harns_gateway.Binutil.Float.{FloatOps}
use harns_gateway.Constant.{DataType}
use harns_gateway.Modbus.Types.{Value, nil}
use harns_gateway.Modbus.Deliver.{Json, Prepared, ready, refused, crashed, action_value}
use harns_gateway.S7.Types.{
  Variable, Error, bad_conn, command_failed, Result, ok, err, panic, or_panic, ◌>>=◌,
}
use harns_gateway.S7.Request.{write_frame}
use harns_gateway.S7.Message.{Messenger}
use harns_gateway.S7.Action.{generate_action_parameter_data_item}

module _ (ops : FloatOps) (parse_bool : String → Option Bool) where
  abbrev pub or_else : Option (Variable ops) → Option (Variable ops) → Option (Variable ops)
  or_else (some v) w = some v
  or_else none w = w

  -- `GetVariable` on the map that `IndexDevice` makes: of variables of one name, the last.
  unfoldable pub get_variable : List (Variable ops) → String → Option (Variable ops)
  get_variable [] key = none
  get_variable (v ∷ vs) key =
      or_else (get_variable vs key) (if str_eq v.name key then some v else none)

  -- The switch on the data type is the one of the Modbus broker.
  unfoldable pub converted : String → DataType → Json ops → Prepared (Value ops)
  converted name t value = action_value ops parse_bool name t value

  abbrev pub with_value : Variable ops → Prepared (Value ops) → Prepared (Variable ops)
  with_value v (ready value) = ready (record v { default_value = nil; value = value })
  with_value v (refused name why) = refused name why
  with_value v crashed = crashed

  -- The copy of a variable with its value. A name without a variable panics in the type assertion.
  unfoldable pub action_variable :
      String → Json ops → Option (Variable ops) → Prepared (Variable ops)
  action_variable name value none = crashed
  action_variable name value (some v) = with_value v (converted name v.data_type value)

  abbrev pub prepend :
      Prepared (Variable ops) → Prepared (List (Variable ops)) → Prepared (List (Variable ops))
  prepend (ready v) (ready vs) = ready (v ∷ vs)
  prepend (ready v) rest = rest
  prepend (refused name why) rest = refused name why
  prepend crashed rest = crashed

  -- The loop over the request, whose order Go leaves open.
  unfoldable pub prepare_action :
      List (Variable ops) → List (String × Json ops) → Prepared (List (Variable ops))
  prepare_action variables [] = ready []
  prepare_action variables ((name, value) ∷ rest) =
      prepend (action_variable name value (get_variable variables name))
        (prepare_action variables rest)

-- `rp[21] != 255`
unfoldable pub check_reply : List ℕ → Result (Unit {0})
check_reply rp = do
  code ← or_panic (get_elem? rp 21)
  if code == 255 then ok tt else err command_failed

unfoldable pub reply_result : Result ℕ → List ℕ → Result (Unit {0})
reply_result (ok n) reply = check_reply reply
reply_result (err e) reply = err bad_conn
reply_result panic reply = panic

module _ {W : Type 0} (messenger : Messenger W) where
  abbrev pub add_error : Error → W × Result (List Error) → W × Result (List Error)
  add_error e (w, ok errs) = (w, ok (e ∷ errs))
  add_error e (w, err e') = (w, err e')
  add_error e (w, panic) = (w, panic)

  abbrev pub after_reply :
      (W → W × Result (List Error)) → W → Result (Unit {0}) → W × Result (List Error)
  after_reply next w (ok u) = next w
  after_reply next w (err e) = add_error e (next w)
  after_reply next w panic = (w, panic)

  -- The loop over the frames, which collects the errors. A reply is asked for in 22 bytes, of which
  -- 19 are enough for the messenger.
  unfoldable pub send_all : List (List ℕ) → W → W × Result (List Error)
  send_all [] w = (w, ok [])
  send_all (frame ∷ frames) w =
      let asked = messenger.ask_at_least w frame (replicate 22 0) 19 in
      after_reply (send_all frames) asked.world (reply_result asked.result asked.response)

  -- From the variables of a request on, with a messenger.
  unfoldable pub deliver : (ops : FloatOps) → List (Variable ops) → W → W × Result (List Error)
  deliver ops action w = elim (generate_action_parameter_data_item ops action) [
    | none ↦ (w, panic)
    | some pibs ↦ send_all (map write_frame pibs) w
  ]
