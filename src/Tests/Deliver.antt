-- ===== src/Tests/Deliver.antt =====
-- `DeliverAction` of pkg/protocol/modbus at concrete frames.
use harns_gateway.Prelude.{ℕ, suc, ◌↔◌, ◌≡◌, refl, arith, List, [], ◌∷◌, some, length}
use harns_gateway.Modbus.Types.{ok, tcp, rtu}
use harns_gateway.Modbus.Messenger.{Messenger}
use harns_gateway.Modbus.Request.Shape.{with_crc}
use harns_gateway.Modbus.Response.{checks_of}
use harns_gateway.Modbus.Deliver.{action_frame}
use harns_gateway.Modbus.Deliver.Frame.{action_frame-tcp, action_frame-rtu}
use harns_gateway.Modbus.Deliver.Reply.{
  check_reply, check_reply_transaction, reply_result, send_all, reply_transaction_unchecked,
}
use harns_gateway.Modbus.Deliver.Reply.Sound.{Answered, send_all-Answered}

abbrev write_pdu : List ℕ
write_pdu = 6 ∷ 0 ∷ 10 ∷ 0x12 ∷ 0x34 ∷ []

action_frame-tcp_example :
    action_frame (checks_of tcp) 1 2 write_pdu
    ≡ some (0 ∷ 2 ∷ 0 ∷ 0 ∷ 0 ∷ 6 ∷ 1 ∷ 6 ∷ 0 ∷ 10 ∷ 0x12 ∷ 0x34 ∷ [])
action_frame-tcp_example = action_frame-tcp 1 2 write_pdu

action_frame-rtu_example :
    action_frame (checks_of rtu) 1 0 write_pdu ≡ some (with_crc (1 ∷ write_pdu))
action_frame-rtu_example = action_frame-rtu 1 0 write_pdu (omega arith)

reply_transaction_unchecked_example :
    check_reply (checks_of tcp) 1 (0 ∷ 2 ∷ 0 ∷ 0 ∷ 0 ∷ 6 ∷ 1 ∷ 6 ∷ [])
    ≡ check_reply (checks_of tcp) 1 (7 ∷ 7 ∷ 0 ∷ 0 ∷ 0 ∷ 6 ∷ 1 ∷ 6 ∷ [])
reply_transaction_unchecked_example =
    reply_transaction_unchecked (checks_of tcp) 1 0 2 7 7 (0 ∷ 0 ∷ 0 ∷ 6 ∷ 1 ∷ 6 ∷ [])
      (unfold checks_of in refl)

-- A device that sends back what it gets.
abbrev echoing : Messenger ℕ
echoing = record {
  ask_at_least = λ w request old min. record {
    world = suc w;
    response = request;
    result = ok (length request);
  };
  close = λ w. w;
  renew = λ w. (w, ok tt);
}

abbrev echoed_frames : List (List ℕ)
echoed_frames = (1 ∷ write_pdu) ∷ []

echoed : send_all echoing (checks_of rtu) 1 echoed_frames 0 ≡ (1, ok [])
unfolding send_all reply_result check_reply check_reply_transaction checks_of
echoed = refl

send_all-Answered_example :
    (send_all echoing (checks_of rtu) 1 echoed_frames 0 ≡ (1, ok []))
    ↔ Answered echoing (checks_of rtu) 1 0 echoed_frames 1
send_all-Answered_example = send_all-Answered echoing (checks_of rtu) 1 echoed_frames 0 1
