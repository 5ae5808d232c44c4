-- ===== src/Modbus/Deliver/Reply.antt =====
-- `DeliverAction` of pkg/protocol/modbus/modbusbroker.go, from the frames on: each is sent, and its
-- reply is checked.
pub mod Sound
use harns_gateway.Prelude.{
  ℕ, ◌+◌, ◌*◌, ◌%◌, ◌^◌, ◌≡◌, refl, arith, bit_and, List, [], ◌∷◌, Bool, true, false, ◌==◌, ltb,
  length, get_elem?, replicate, Option, some, none, Option-cases, inl, inr, if◌then◌else◌,
}
use harns_gateway.Binutil.Parse.{parse_uint16}
use harns_gateway.Modbus.Types.{
  Error, modbus_bad_conn, message_transaction, message_slave, message_function_code_error, Result,
  ok, err, panic, or_panic, slice_from, ◌>>=◌, ◌>>◌,
}
use harns_gateway.Modbus.Messenger.{Asked, Messenger}
use harns_gateway.Modbus.Response.{Checks}

-- The transaction id is compared with itself: both are parsed from the reply.
unfoldable pub check_reply_transaction : Bool → List ℕ → Result (List ℕ)
check_reply_transaction false rp = ok rp
check_reply_transaction true rp = do
  transaction_id ← or_panic (parse_uint16 rp)
  request_transaction_id ← or_panic (parse_uint16 rp)
  if transaction_id == request_transaction_id
      then or_panic (slice_from 6 rp)
      else err message_transaction

unfoldable pub check_reply : Checks → ℕ → List ℕ → Result (Unit {0})
check_reply checks device_slave reply = do
  rp ← check_reply_transaction checks.transaction reply
  slave ← or_panic (get_elem? rp 0)
  if slave == device_slave
      then (do
        function_code ← or_panic (get_elem? rp 1)
        if ltb 0 (bit_and function_code 0x80) then err message_function_code_error else ok tt)
      else err message_slave

-- A reply is put aside with its error, if any; a panic ends the loop.
unfoldable pub reply_result : Checks → ℕ → Result ℕ → List ℕ → Result (Unit {0})
reply_result checks slave (ok n) reply = check_reply checks slave reply
reply_result checks slave (err e) reply = err modbus_bad_conn
reply_result checks slave panic reply = panic

module _ {W : Type 0} (messenger : Messenger W) (checks : Checks) (slave : ℕ) where
  abbrev pub add_error : Error → W × Result (List Error) → W × Result (List Error)
  add_error e (w, ok errs) = (w, ok (e ∷ errs))
  add_error e (w, err e') = (w, err e')
  add_error e (w, panic) = (w, panic)

  abbrev pub after_reply :
      (W → W × Result (List Error)) → W → Result (Unit {0}) → W × Result (List Error)
  after_reply next w (ok u) = next w
  after_reply next w (err e) = add_error e (next w)
  after_reply next w panic = (w, panic)

  -- The loop over the frames, which collects the errors. The buffer of a reply is as long as the
  -- frame.
  unfoldable pub send_all : List (List ℕ) → W → W × Result (List Error)
  send_all [] w = (w, ok [])
  send_all (frame ∷ frames) w =
      let asked = messenger.ask_at_least w frame (replicate (length frame) 0) 6 in
      after_reply (send_all frames) asked.world
        (reply_result checks slave asked.result asked.response)

-- The check of DeliverAction on a reply over TCP does not depend on the two bytes of the
-- transaction id in it, so that a reply to another request is taken for its own.
pub reply_transaction_unchecked :
    (checks : Checks) (slave a b a' b' : ℕ) (rest : List ℕ)
    → checks.transaction ≡ true
    → check_reply checks slave (a ∷ b ∷ rest) ≡ check_reply checks slave (a' ∷ b' ∷ rest)
unfolding check_reply check_reply_transaction parse_uint16 slice_from
reply_transaction_unchecked checks slave a b a' b' rest e = rw (e, same a b, same a' b') refl
  where
    id_of : ℕ → ℕ → ℕ
    id_of a b = ((0 + a * 2 ^ 8 % 2 ^ 16) % 2 ^ 16 + b * 2 ^ 0 % 2 ^ 16) % 2 ^ 16

    same : (a b : ℕ) → (id_of a b == id_of a b) ≡ true
    same a b = ground arith
