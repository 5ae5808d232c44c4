-- ===== src/S7/Response/Accepts.antt =====
-- The answers that `ValidateMessage` takes and those that it refuses.
use harns_gateway.Prelude.{
  ℕ, ◌+◌, ◌/◌, ◌%◌, ◌^◌, ◌<◌, ◌≡◌, ◌≢◌, ◌⊎◌, refl, ap, ap₂, ◌∙◌, arith, List, [], ◌∷◌, ◌++◌, true,
  some, ◌==◌, length, Bool-cases, inl, inr, if◌then◌else◌,
}
use harns_gateway.Binutil.Float.{FloatOps}
use harns_gateway.Binutil.Parse.{parse_uint16}
use harns_gateway.Modbus.Types.{slice, slice_from}
use harns_gateway.S7.Types.{Error, ok, err, message_data_length_not_enough, message_s7_response}
use harns_gateway.S7.Request.{DataFrame}
use harns_gateway.S7.Response.{check_message, validate_message}
use harns_gateway.S7.Response.Slices.{slice-append, slice_from-append}

-- The 21 bytes before the data of an answer: the length of the data, the class and the code of an
-- error, and 17 others.
abbrev pub answer_head : (ℕ → ℕ) → ℕ → ℕ → ℕ → List ℕ
answer_head head len class code =
    head 0
    ∷ head 1
    ∷ head 2
    ∷ head 3
    ∷ head 4
    ∷ head 5
    ∷ head 6
    ∷ head 7
    ∷ head 8
    ∷ head 9
    ∷ head 10
    ∷ head 11
    ∷ head 12
    ∷ head 13
    ∷ head 14
    ∷ (len / 256 % 256)
    ∷ (len % 256)
    ∷ class
    ∷ code
    ∷ head 19
    ∷ head 20
    ∷ []

length_field :
    (len : ℕ) (rest : List ℕ)
    → len < 2 ^ 16
    → parse_uint16 ((len / 256 % 256) ∷ (len % 256) ∷ rest) ≡ some len
unfolding parse_uint16
length_field len rest h = ap some (omega arith)

data_field :
    (head : ℕ → ℕ) (len class code : ℕ) (bytes : List ℕ)
    → slice_from 15 (answer_head head len class code ++ bytes)
      ≡ some ((len / 256 % 256) ∷ (len % 256) ∷ class ∷ code ∷ head 19 ∷ head 20 ∷ bytes)
data_field head len class code bytes =
    slice_from-append
      (head 0
        ∷ head 1
        ∷ head 2
        ∷ head 3
        ∷ head 4
        ∷ head 5
        ∷ head 6
        ∷ head 7
        ∷ head 8
        ∷ head 9
        ∷ head 10
        ∷ head 11
        ∷ head 12
        ∷ head 13
        ∷ head 14
        ∷ [])
      _

module _ (ops : FloatOps) where
  cut_answer :
      (df : DataFrame ops) (head : ℕ → ℕ) (class code : ℕ) (bytes rest : List ℕ)
      → df.response_data_frame ≡ (answer_head head (length bytes) class code ++ bytes) ++ rest
      → validate_message ops df (21 + length bytes)
        ≡ check_message ops df (answer_head head (length bytes) class code ++ bytes)
  unfolding validate_message
  cut_answer df head class code bytes rest e =
      let buf : List ℕ = answer_head head (length bytes) class code ++ bytes in
      let whole : 21 + length bytes ≡ length buf = omega arith in
      let cut : slice 0 (21 + length bytes) df.response_data_frame ≡ some buf =
        ap₂ (slice 0) whole e ∙ slice-append buf rest in
      rw cut refl

  -- The checks on such an answer, in their order.
  check-answer :
      (df : DataFrame ops) (head : ℕ → ℕ) (class code : ℕ) (bytes : List ℕ)
      → length bytes < 2 ^ 16
      → check_message ops df (answer_head head (length bytes) class code ++ bytes) ≡ (
          if length bytes == df.data_length % 2 ^ 16
          then (if class == 0
              then (if code == 0
                  then ok (answer_head head (length bytes) class code ++ bytes)
                  else err message_s7_response)
              else err message_s7_response)
          else err message_data_length_not_enough)
  unfolding check_message
  check-answer df head class code bytes short =
      rw
        (
          data_field head (length bytes) class code bytes,
          length_field (length bytes) (class ∷ code ∷ head 19 ∷ head 20 ∷ bytes) short,
        )
        refl

  -- An answer of the right length and without an error is taken.
  pub validate-answer :
      (df : DataFrame ops) (head : ℕ → ℕ) (bytes rest : List ℕ)
      → length bytes < 2 ^ 16
      → df.data_length ≡ length bytes
      → df.response_data_frame ≡ (answer_head head (length bytes) 0 0 ++ bytes) ++ rest
      → validate_message ops df (21 + length bytes)
        ≡ ok (answer_head head (length bytes) 0 0 ++ bytes)
  validate-answer df head bytes rest short len e =
      let right : (length bytes == df.data_length % 2 ^ 16) ≡ true = ground arith in
      cut_answer df head 0 0 bytes rest e ∙ check-answer df head 0 0 bytes short ∙ rw right refl

  -- An answer of another length, or with an error, is refused.
  pub validate_refuses :
      (df : DataFrame ops) (head : ℕ → ℕ) (class code : ℕ) (bytes rest : List ℕ)
      → length bytes < 2 ^ 16
      → df.response_data_frame ≡ (answer_head head (length bytes) class code ++ bytes) ++ rest
      → (df.data_length % 2 ^ 16 ≢ length bytes) ⊎ ((class ≢ 0) ⊎ (code ≢ 0))
      → (why : Error) × (validate_message ops df (21 + length bytes) ≡ err why)
  validate_refuses df head class code bytes rest short e wrong =
      let checked =
        cut_answer df head class code bytes rest e ∙ check-answer df head class code bytes short in
      elim (Bool-cases (length bytes == df.data_length % 2 ^ 16)) [
        | inr b ↦ (message_data_length_not_enough, checked ∙ rw b refl)
        | inl b ↦ elim (Bool-cases (class == 0)) [
          | inr c ↦ (message_s7_response, checked ∙ rw (b, c) refl)
          | inl c ↦ elim (Bool-cases (code == 0)) [
            | inr d ↦ (message_s7_response, checked ∙ rw (b, c, d) refl)
            | inl d ↦ absurd (ground arith)
          ]
        ]
      ]
