-- ===== src/Modbus/Response/Checked.antt =====
-- What a response that passed the checks has: the slave, and no bit of an error.
use harns_gateway.Prelude.{
  ℕ, zero, suc, ◌+◌, ◌≡◌, refl, sym, ap, ◌∙◌, arith, bit_and, List, [], ◌∷◌, Option, Bool, true,
  false, none, some, ◌==◌, ltb, leb, length, get_elem?, drop, Bool-cases, some_injective, inl, inr,
  if◌then◌else◌,
}
use harns_gateway.Binutil.Float.{FloatOps}
use harns_gateway.Binutil.Parse.{parse_uint16}
use harns_gateway.Modbus.Types.{
  DataFrame, Error, message_function_code_error, message_slave, Result, ok, err, panic, or_panic,
  slice_from, ◌>>=◌,
}
use harns_gateway.Modbus.Response.{Checks, check_transaction, validate_and_extract_message}

pub bind-ok {ℓ κ} :
    {A : Type ℓ} {B : Type κ} (m : Result A) (f : A → Result B) (b : B)
    → (m >>= f) ≡ ok b
    → (a : A) × (m ≡ ok a) × (f a ≡ ok b)
bind-ok (ok a) f b e = (a, refl, e)
bind-ok (err x) f b e = absurd cc
bind-ok panic f b e = absurd cc

pub or_panic-ok {ℓ} : {A : Type ℓ} (m : Option A) (a : A) → or_panic m ≡ ok a → m ≡ some a
or_panic-ok none a e = cc
or_panic-ok (some x) a e = cc

pub unless-ok {ℓ} :
    {A : Type ℓ} (b : Bool) (m : Result A) (e : Error) (a : A)
    → (if b then m else err e) ≡ ok a
    → (b ≡ true) × (m ≡ ok a)
unless-ok true m e a h = (refl, h)
unless-ok false m e a h = absurd cc

pub refused-ok {ℓ} :
    {A : Type ℓ} (b : Bool) (m : Result A) (e : Error) (a : A)
    → (if b then err e else m) ≡ ok a
    → b ≡ false
refused-ok true m e a h = absurd cc
refused-ok false m e a h = refl

-- How many bytes of a response stand before the slave: over TCP there are six.
abbrev pub header_of : Bool → ℕ
header_of true = 6
header_of false = 0

-- The response names the slave, and its function code has no bit of an error.
abbrev pub IsReply : Bool → ℕ → List ℕ → Type 0
IsReply transaction slave response =
    (code : ℕ) × (get_elem? response (header_of transaction) ≡ some slave)
    × (get_elem? response (header_of transaction + 1) ≡ some code)
    × (bit_and code 0x80 ≡ 0)

pub get_elem?-drop :
    (n : ℕ) (bytes : List ℕ) (i : ℕ) → get_elem? (drop n bytes) i ≡ get_elem? bytes (n + i)
get_elem?-drop zero bytes i = let e : i ≡ 0 + i = omega arith in ap (get_elem? bytes) e
get_elem?-drop (suc n) [] i = let e : suc (n + i) ≡ suc n + i = omega arith in ap (get_elem? []) e
get_elem?-drop (suc n) (byte ∷ bytes) i =
    let e : suc (n + i) ≡ suc n + i = omega arith in
    get_elem?-drop n bytes i ∙ ap (get_elem? (byte ∷ bytes)) e

pub get_elem?-slice_from :
    (n : ℕ) (bytes tail : List ℕ) (i : ℕ)
    → slice_from n bytes ≡ some tail
    → get_elem? tail i ≡ get_elem? bytes (n + i)
unfolding slice_from
get_elem?-slice_from n bytes tail i e = elim (Bool-cases (leb n (length bytes))) [
  | inl b ↦
      let same : drop n bytes ≡ tail = some_injective (rw b at e) in
      ap (λ l. get_elem? l i) (sym same) ∙ get_elem?-drop n bytes i
  | inr b ↦ absurd (missing (rw b at e))
]
  where
    missing : none ≡ some tail → ⊥
    missing e = cc

-- The two checks behind the header.
pub checked-IsReply :
    (transaction : Bool) (slave code : ℕ) (response rp : List ℕ)
    → ((i : ℕ) → get_elem? rp i ≡ get_elem? response (header_of transaction + i))
    → get_elem? rp 0 ≡ some slave
    → get_elem? rp 1 ≡ some code
    → ltb 0 (bit_and code 0x80) ≡ false
    → IsReply transaction slave response
checked-IsReply transaction slave code response rp cut named coded clear =
    let start : header_of transaction ≡ header_of transaction + 0 = omega arith in
    (code, ap (get_elem? response) start ∙ sym (cut 0) ∙ named, sym (cut 1) ∙ coded, ground arith)

-- The transaction id in the response is the one that was expected.
abbrev pub HasId : Bool → ℕ → List ℕ → Type 0
HasId true id bytes = parse_uint16 bytes ≡ some id
HasId false id bytes = Unit {0}

check_transaction-ok :
    (transaction : Bool) (expected : ℕ) (response rp : List ℕ)
    → check_transaction transaction expected response ≡ ok rp
    → HasId transaction expected response
      × ((i : ℕ) → get_elem? rp i ≡ get_elem? response (header_of transaction + i))
unfolding check_transaction
check_transaction-ok false expected response rp e = (tt, whole)
  where
    whole : (i : ℕ) → get_elem? rp i ≡ get_elem? response (0 + i)
    whole i =
        let same : i ≡ 0 + i = omega arith in
        let all : rp ≡ response = cc in ap (λ l. get_elem? l i) all ∙ ap (get_elem? response) same
check_transaction-ok true expected response rp e =
    let (id, parsed, rest) = bind-ok _ _ rp e in
    let (same, cut) = unless-ok (id == expected) _ _ rp rest in
    let equal : id ≡ expected = ground arith in
    (
      or_panic-ok _ id parsed ∙ ap some equal,
      λ i. get_elem?-slice_from 6 response rp i (or_panic-ok _ rp cut),
    )

-- A response that ValidateAndExtractMessage takes.
pub validate_and_extract_message-IsReply :
    (ops : FloatOps) (checks : Checks) (df : DataFrame ops) (buf : List ℕ)
    → validate_and_extract_message ops checks df ≡ ok buf
    → HasId checks.transaction df.transaction_id df.response_data_frame
      × IsReply checks.transaction df.slave df.response_data_frame
unfolding validate_and_extract_message
validate_and_extract_message-IsReply ops checks df buf e =
    let (rp, passed, rest) = bind-ok _ _ buf e in
    let (has_id, cut) = check_transaction-ok checks.transaction df.transaction_id _ rp passed in
    let (slave, named, rest) = bind-ok _ _ buf rest in
    let (same, rest) = unless-ok (slave == df.slave) _ message_slave buf rest in
    let (code, coded, rest) = bind-ok _ _ buf rest in
    let equal : slave ≡ df.slave = ground arith in
    (
      has_id,
      checked-IsReply checks.transaction df.slave code _ rp cut
          (or_panic-ok _ slave named ∙ ap some equal) (or_panic-ok _ code coded)
          (refused-ok _ _ message_function_code_error buf rest),
    )
