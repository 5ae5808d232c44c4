-- ===== src/Modbus/Message/Numbered.antt =====
-- The transaction id that a request over TCP carries.
use harns_gateway.Prelude.{
  ℕ, ◌/◌, ◌%◌, ◌^◌, ◌<◌, ◌∙◌, ◌≡◌, refl, sym, ap, arith, List, [], ◌∷◌, Option, none, some,
  some_injective, Bool-cases, inl, inr,
}
use harns_gateway.Binutil.Float.{FloatOps}
use harns_gateway.Modbus.Types.{DataFrame}
use harns_gateway.Modbus.Messenger.{Messenger}
use harns_gateway.Modbus.Response.{Checks, with_id, write_transaction_id}
use harns_gateway.Modbus.Response.Checked.{HasId}
use harns_gateway.Binutil.Word.{byte_at}
use harns_gateway.Binutil.Parse.{parse_uint16}
use harns_gateway.Binutil.Write.{write_uint16_big_endian}
use harns_gateway.Modbus.Message.{number_frame}

-- The id that WriteTransactionId writes is in the first two bytes.
write_uint16-parse_uint16 :
    (id : ℕ) (bytes written : List ℕ)
    → id < 2 ^ 16
    → write_uint16_big_endian id bytes ≡ some written
    → parse_uint16 written ≡ some id
unfolding write_uint16_big_endian parse_uint16
write_uint16-parse_uint16 id [] written h e = cc
write_uint16-parse_uint16 id (a ∷ []) written h e = cc
write_uint16-parse_uint16 id (a ∷ b ∷ rest) written h e =
    let put : write_uint16_big_endian id (a ∷ b ∷ rest)
        ≡ some ((id / 256 % 256) ∷ (id % 256) ∷ rest) =
      ground (arith, high, low) in
    let bytes_written : some ((id / 256 % 256) ∷ (id % 256) ∷ rest) ≡ some written = sym put ∙ e in
    rw (sym (some_injective bytes_written)) (ap some (omega arith))
  where
    high : byte_at id 8 ≡ id / 256 % 256
    high = omega arith

    low : byte_at id 0 ≡ id % 256
    low = omega arith

module _ (ops : FloatOps) {W : Type 0} (messenger : Messenger W) (checks : Checks) where
  pub numbered-HasId :
      (df numbered : DataFrame ops)
      → number_frame ops messenger checks df ≡ some numbered
      → HasId checks.transaction numbered.transaction_id numbered.data_frame
  unfolding number_frame write_transaction_id
  numbered-HasId df numbered e = elim (Bool-cases checks.transaction) [
    | inl b ↦
        rw b (written _ _ (write_uint16-parse_uint16 _ df.data_frame) (rw b at e) (omega arith))
    | inr b ↦ rw b tt
  ]
    where
      written :
          (id : ℕ) (bytes : Option (List ℕ))
          → ((out : List ℕ) → id < 2 ^ 16 → bytes ≡ some out → parse_uint16 out ≡ some id)
          → with_id ops df id bytes ≡ some numbered
          → id < 2 ^ 16
          → parse_uint16 numbered.data_frame ≡ some numbered.transaction_id
      written id none h e fits = absurd cc
      written id (some bytes) h e fits =
          let same : record df { transaction_id = id; data_frame = bytes } ≡ numbered =
            some_injective e in
          ap (λ d. parse_uint16 d.data_frame) (sym same)
          ∙ h bytes fits refl
          ∙ ap (λ d. some d.transaction_id) same
