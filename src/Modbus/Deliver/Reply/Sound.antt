-- ===== src/Modbus/Deliver/Reply/Sound.antt =====
-- When `DeliverAction` reports no error.
use harns_gateway.Prelude.{
  ℕ, zero, suc, ◌+◌, ◌*◌, ◌%◌, ◌^◌, ◌<◌, ◌↔◌, leb, ltb, drop, bit_and, ◌≡◌, refl, ap, ◌∙◌, arith,
  List, [], ◌∷◌, Bool, true, false, some, ◌==◌, length, replicate, get_elem?, if◌then◌else◌,
}
use harns_gateway.Modbus.Types.{
  slice_from, or_panic, ◌>>=◌, message_transaction, Error, message_slave,
  message_function_code_error, Result, ok, err, panic,
}
use harns_gateway.Binutil.Parse.{parse_uint16}
use harns_gateway.Modbus.Messenger.{Messenger}
use harns_gateway.Modbus.Response.{Checks}
use harns_gateway.Modbus.Response.Checked.{
  bind-ok, or_panic-ok, unless-ok, refused-ok, header_of, IsReply, get_elem?-slice_from,
  get_elem?-drop, checked-IsReply,
}
use harns_gateway.Modbus.Deliver.Reply.{
  check_reply_transaction, check_reply, reply_result, add_error, after_reply, send_all,
}
use mathlib.Core.Path.{subst}

reply_result-ok :
    (checks : Checks) (slave : ℕ) (result : Result ℕ) (reply : List ℕ) (u : Unit {0})
    → reply_result checks slave result reply ≡ ok u
    → (n : ℕ) × (result ≡ ok n) × (check_reply checks slave reply ≡ ok u)
unfolding reply_result
reply_result-ok checks slave (ok n) reply u e = (n, refl, e)
reply_result-ok checks slave (err x) reply u e = absurd cc
reply_result-ok checks slave panic reply u e = absurd cc

-- A reply that the loop takes. Only that its transaction id is its own is checked of the six bytes
-- before the slave.
cut_reply :
    (transaction : Bool) (reply rp : List ℕ)
    → check_reply_transaction transaction reply ≡ ok rp
    → (i : ℕ) → get_elem? rp i ≡ get_elem? reply (header_of transaction + i)
unfolding check_reply_transaction
cut_reply false reply rp e i =
    let same : i ≡ 0 + i = omega arith in
    let all : rp ≡ reply = cc in ap (λ l. get_elem? l i) all ∙ ap (get_elem? reply) same
cut_reply true reply rp e i =
    let id_of = or_panic (parse_uint16 reply) in
    let tail = or_panic (slice_from 6 reply) in
    let (id, parsed, rest) =
      bind-ok id_of
        (λ id. id_of >>= λ own_id. if id == own_id then tail else err message_transaction) rp e in
    let (own_id, parsed_too, rest) =
      bind-ok id_of (λ own_id. if id == own_id then tail else err message_transaction) rp rest in
    let (same, cut) = unless-ok (id == own_id) tail message_transaction rp rest in
    get_elem?-slice_from 6 reply rp i (or_panic-ok _ rp cut)

check_reply-IsReply :
    (checks : Checks) (slave : ℕ) (reply : List ℕ)
    → check_reply checks slave reply ≡ ok tt
    → IsReply checks.transaction slave reply
unfolding check_reply
check_reply-IsReply checks slave reply e =
    let (rp, passed, rest) = bind-ok _ _ tt e in
    let (named, first, rest) = bind-ok _ _ tt rest in
    let (same, rest) = unless-ok (named == slave) _ message_slave tt rest in
    let (code, coded, rest) = bind-ok _ _ tt rest in
    let equal : named ≡ slave = ground arith in
    checked-IsReply checks.transaction slave code reply rp
      (cut_reply checks.transaction reply rp passed) (or_panic-ok _ named first ∙ ap some equal)
      (or_panic-ok _ code coded) (refused-ok _ _ message_function_code_error tt rest)

get_elem?-in_range :
    (bytes : List ℕ) (i byte : ℕ) → get_elem? bytes i ≡ some byte → i < length bytes
get_elem?-in_range [] i byte e = cc
get_elem?-in_range (x ∷ bytes) zero byte e = omega arith
get_elem?-in_range (x ∷ bytes) (suc i) byte e = omega (arith, get_elem?-in_range bytes i byte e)

-- A reply with seven bytes and more passes the check of its transaction id.
passed_transaction :
    (reply : List ℕ) (slave : ℕ)
    → get_elem? reply 6 ≡ some slave
    → check_reply_transaction true reply ≡ ok (drop 6 reply)
unfolding check_reply_transaction parse_uint16 slice_from
passed_transaction [] slave e = cc
passed_transaction (a ∷ []) slave e = cc
passed_transaction (a ∷ b ∷ rest) slave e =
    let long : leb 6 (length (a ∷ b ∷ rest)) ≡ true =
      ground (arith, get_elem?-in_range (a ∷ b ∷ rest) 6 slave e) in
    rw (same_id (((0 + a * 2 ^ 8 % 2 ^ 16) % 2 ^ 16 + b * 2 ^ 0 % 2 ^ 16) % 2 ^ 16), long) refl
  where
    same_id : (id : ℕ) → (id == id) ≡ true
    same_id id = ground arith

rest_of : Bool → List ℕ → List ℕ
rest_of true reply = drop 6 reply
rest_of false reply = reply

rest_passed :
    (transaction : Bool) (reply : List ℕ) (slave : ℕ)
    → get_elem? reply (header_of transaction) ≡ some slave
    → check_reply_transaction transaction reply ≡ ok (rest_of transaction reply)
unfolding rest_of
rest_passed true reply slave e = passed_transaction reply slave e
rest_passed false reply slave e = unfold check_reply_transaction in refl

rest_at :
    (transaction : Bool) (reply : List ℕ) (i : ℕ)
    → get_elem? (rest_of transaction reply) i ≡ get_elem? reply (header_of transaction + i)
unfolding rest_of
rest_at true reply i = get_elem?-drop 6 reply i
rest_at false reply i = let same : i ≡ 0 + i = omega arith in ap (get_elem? reply) same

IsReply-check_reply :
    (checks : Checks) (slave : ℕ) (reply : List ℕ)
    → IsReply checks.transaction slave reply
    → check_reply checks slave reply ≡ ok tt
unfolding check_reply
IsReply-check_reply checks slave reply (code, named, coded, clear) =
    let start : header_of checks.transaction + 0 ≡ header_of checks.transaction = omega arith in
    let own : (slave == slave) ≡ true = ground arith in
    let no_error : ltb 0 (bit_and code 0x80) ≡ false = ground arith in
    rw
      (
        rest_passed checks.transaction reply slave named,
        rest_at checks.transaction reply 0 ∙ ap (get_elem? reply) start ∙ named,
        own,
        rest_at checks.transaction reply 1 ∙ coded,
        no_error,
      )
      refl

module _ {W : Type 0} (messenger : Messenger W) (checks : Checks) (slave : ℕ) where
  -- From one world to another, each frame is sent, in order, and its reply names the slave and no
  -- error.
  pub data Answered : W → List (List ℕ) → W → Type 0 where
    all_answered : (w : W) → Answered w [] w
    answered :
        (w : W) (frame : List ℕ) (frames : List (List ℕ)) (n : ℕ) (w' : W)
        → (messenger.ask_at_least w frame (replicate (length frame) 0) 6).result ≡ ok n
        → IsReply checks.transaction slave
            (messenger.ask_at_least w frame (replicate (length frame) 0) 6).response
        → Answered (messenger.ask_at_least w frame (replicate (length frame) 0) 6).world frames w'
        → Answered w (frame ∷ frames) w'

  add_error-nonempty :
      (e : Error) (r : W × Result (List Error)) (w : W)
      → add_error messenger checks slave e r ≡ (w, ok [])
      → ⊥
  add_error-nonempty e (w', ok errs) w h = cc
  add_error-nonempty e (w', err x) w h = cc
  add_error-nonempty e (w', panic) w h = cc

  accepted_reply :
      (next : W → W × Result (List Error)) (w : W) (r : Result (Unit {0})) (w' : W)
      → after_reply messenger checks slave next w r ≡ (w', ok [])
      → (r ≡ ok tt) × (next w ≡ (w', ok []))
  accepted_reply next w (ok u) w' h = (refl, h)
  accepted_reply next w (err e) w' h = absurd (add_error-nonempty e (next w) w' h)
  accepted_reply next w panic w' h = absurd cc

  reported-Answered :
      (frames : List (List ℕ)) (w w' : W)
      → send_all messenger checks slave frames w ≡ (w', ok [])
      → Answered w frames w'
  unfolding send_all
  reported-Answered [] w w' h = subst (λ end. Answered w [] end) (ap (λ r. r.0) h) (all_answered w)
  reported-Answered (frame ∷ frames) w w' h =
      let asked = messenger.ask_at_least w frame (replicate (length frame) 0) 6 in
      let (accepted, rest) =
        accepted_reply (send_all messenger checks slave frames) asked.world _ w' h in
      let (n, asked_ok, checked) =
        reply_result-ok checks slave asked.result asked.response tt accepted in
      answered w frame frames n w' asked_ok
        (check_reply-IsReply checks slave asked.response checked)
        (reported-Answered frames asked.world w' rest)

  Answered-reported :
      (frames : List (List ℕ)) (w w' : W)
      → Answered w frames w'
      → send_all messenger checks slave frames w ≡ (w', ok [])
  unfolding send_all reply_result
  Answered-reported _ w _ (all_answered _) = refl
  Answered-reported _ w w' (answered _ frame frames n _ asked_ok reply rest) =
      rw (asked_ok, IsReply-check_reply checks slave _ reply) (Answered-reported frames _ w' rest)

  -- DeliverAction reports no error for its frames exactly when each frame was sent, in order, each
  -- request returned without an error, and each reply has the byte of the slave and, after it, a
  -- function code without the bit of an error, both behind six bytes over TCP.
  pub send_all-Answered :
      (frames : List (List ℕ)) (w w' : W)
      → (send_all messenger checks slave frames w ≡ (w', ok [])) ↔ Answered w frames w'
  send_all-Answered frames w w' = (reported-Answered frames w w', Answered-reported frames w w')
