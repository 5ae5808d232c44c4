-- ===== src/Modbus/Response/Accepts.antt =====
-- What a device answers, and that the broker accepts it and takes the data out.
use harns_gateway.Prelude.{
  ℕ, ◌+◌, ◌*◌, ◌/◌, ◌%◌, ◌^◌, ◌≤◌, ◌<◌, ◌≡◌, ap, arith, bit_and, List, [], ◌∷◌, ◌++◌, true, false,
  some, ◌==◌, length, length-append, take, take-append, take-length, drop-append, All, ◌⊎◌, inl,
  inr,
}
use harns_gateway.Binutil.Float.{FloatOps}
use harns_gateway.Binutil.Word.{IsByte}
use harns_gateway.Binutil.Parse.{parse_uint16, parse_uint16_big_endian}
use harns_gateway.Binutil.Bools.{dup}
use harns_gateway.Crc.Equivalence.{check_crc16sum-crc16, crc16-lt}
use harns_gateway.Modbus.Types.{DataFrame, reads_registers, tcp, rtu, ok, slice, slice_from}
use harns_gateway.Modbus.Request.Shape.{with_crc, crc_of, high_byte, low_byte}
use harns_gateway.Modbus.Response.{
  checks_of, check_transaction, check_length, extract, validate_and_extract_message,
}

slice-prefix : (xs ys : List ℕ) → slice 0 (length xs) (xs ++ ys) ≡ some xs
unfolding slice
slice-prefix xs ys = rw (take-append xs ys) (ground (arith, length-append xs ys))

slice-suffix : (xs ys : List ℕ) → slice (length xs) (length xs + length ys) (xs ++ ys) ≡ some ys
unfolding slice
slice-suffix xs ys =
    let whole : take (length xs + length ys) (xs ++ ys) ≡ xs ++ ys =
      rw (← length-append xs ys) (take-length (xs ++ ys)) in
    rw (whole, drop-append xs ys) (ground (arith, length-append xs ys))

crc_bytes :
    (w : ℕ)
    → w < 65536
    → parse_uint16_big_endian (w % 256 ∷ w / 256 ∷ []) ≡ some (w % 256 * 256 + w / 256)
unfolding parse_uint16_big_endian
crc_bytes w h = ap some (omega arith)

-- The checksum of a device passes.
check_length-with_crc :
    (n : ℕ) (body : List ℕ)
    → All IsByte body
    → length body ≡ n + 3
    → n ≤ 250
    → check_length true n (with_crc body) ≡ ok tt
unfolding check_length
check_length-with_crc n body bytes len small =
    rw
      (
        passes,
        lower,
        upper,
        slice-prefix body tail,
        check_crc16sum-crc16 body bytes,
        slice-suffix body tail,
        crc_bytes (crc_of body) (crc16-lt body 0xFFFF bytes (omega arith)),
      )
      (unfold parse_uint16_big_endian in ground arith)
  where
    tail : List ℕ
    tail = crc_of body % 256 ∷ crc_of body / 256 ∷ []

    passes : (n + 5 == length (body ++ tail)) ≡ true
    passes = ground (arith, length-append body tail)

    lower : (n + 3) % 256 ≡ length body
    lower = omega arith

    upper : (n + 5) % 256 ≡ length body + length tail
    upper = omega arith

-- A response on a serial line, and one over TCP.
abbrev pub serial_response : ℕ → ℕ → List ℕ → List ℕ
serial_response slave code payload = with_crc (slave ∷ code ∷ length payload ∷ payload)

abbrev pub tcp_response : ℕ → ℕ → ℕ → List ℕ → List ℕ
tcp_response id slave code payload =
    high_byte id
    ∷ low_byte id
    ∷ 0
    ∷ 0
    ∷ high_byte (length payload + 3)
    ∷ low_byte (length payload + 3)
    ∷ slave
    ∷ code
    ∷ length payload
    ∷ payload

pub register_code : (code : ℕ) → reads_registers code ≡ true → (code ≡ 3) ⊎ (code ≡ 4)
register_code code h = ground arith

no_error_bit : (code : ℕ) → reads_registers code ≡ true → bit_and code 0x80 ≡ 0
no_error_bit code h = elim (register_code code h) [ inl e ↦ rw e | inr e ↦ rw e ]

extract-registers :
    (a b c code n : ℕ) (body : List ℕ)
    → reads_registers code ≡ true
    → extract code n (a ∷ b ∷ c ∷ body) ≡ ok body
unfolding extract slice_from dup
extract-registers a b c code n body h = elim (register_code code h) [
  | inl e ↦ rw e (ground arith)
  | inr e ↦ rw e (ground arith)
]

header_taken :
    (id a b c d : ℕ) (rest : List ℕ)
    → id < 2 ^ 16
    → check_transaction true id (high_byte id ∷ low_byte id ∷ a ∷ b ∷ c ∷ d ∷ rest) ≡ ok rest
unfolding check_transaction parse_uint16 slice_from
header_taken id a b c d rest h = rw read_back (ground arith)
  where
    read_back :
        ((0 + high_byte id * 2 ^ 8 % 2 ^ 16) % 2 ^ 16 + low_byte id * 2 ^ 0 % 2 ^ 16) % 2 ^ 16 ≡ id
    read_back = omega arith

check_length-exact : (n : ℕ) (buf : List ℕ) → length buf ≡ n + 3 → check_length false n buf ≡ ok tt
unfolding check_length
check_length-exact n buf h = ground arith

module _ (ops : FloatOps) where
  -- ValidateAndExtractMessage takes the registers out of a serial response of at most 250 bytes
  -- whose slave, function code and length are right and whose checksum is that of the
  -- specification; the two bytes of the checksum stay behind the data.
  pub validate-serial_response :
      (df : DataFrame ops) (code : ℕ) (payload : List ℕ)
      → All IsByte payload
      → IsByte df.slave
      → length payload ≤ 250
      → reads_registers code ≡ true
      → df.response_data_frame ≡ serial_response df.slave code payload
      → validate_and_extract_message ops (checks_of rtu) df
        ≡ ok (
            payload
            ++ (crc_of (df.slave ∷ code ∷ length payload ∷ payload) % 256
                ∷ crc_of (df.slave ∷ code ∷ length payload ∷ payload) / 256
                ∷ []))
  unfolding validate_and_extract_message checks_of check_transaction
  validate-serial_response df code payload bytes slave small reads e =
      rw
        (
          e,
          slave_eq,
          no_error_bit code reads,
          check_length-with_crc (length payload) (df.slave ∷ code ∷ length payload ∷ payload)
              all_bytes (omega arith) small,
        )
        (extract-registers df.slave code (length payload) code (length payload) _ reads)
    where
      slave_eq : (df.slave == df.slave) ≡ true
      slave_eq = ground arith

      all_bytes : All IsByte (df.slave ∷ code ∷ length payload ∷ payload)
      all_bytes = (slave, (ground arith, (omega arith, bytes)))

  -- ValidateAndExtractMessage takes exactly the registers out of a TCP response to its
  -- transaction, whose id is a uint16.
  pub validate-tcp_response :
      (df : DataFrame ops) (code : ℕ) (payload : List ℕ)
      → df.transaction_id < 2 ^ 16
      → reads_registers code ≡ true
      → df.response_data_frame ≡ tcp_response df.transaction_id df.slave code payload
      → validate_and_extract_message ops (checks_of tcp) df ≡ ok payload
  unfolding validate_and_extract_message checks_of
  validate-tcp_response df code payload id reads e =
      rw
        (
          e,
          header_taken df.transaction_id _ _ _ _ _ id,
          slave_eq,
          no_error_bit code reads,
          check_length-exact (length payload) (df.slave ∷ code ∷ length payload ∷ payload)
              (omega arith),
        )
        (extract-registers df.slave code (length payload) code (length payload) _ reads)
    where
      slave_eq : (df.slave == df.slave) ≡ true
      slave_eq = ground arith
