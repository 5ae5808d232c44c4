-- ===== src/S7/Address/Forms.antt =====
-- What `ParseVariableAddress` makes of addresses in the forms that its comments list.
use harns_gateway.Prelude.{
  ℕ, suc, ◌+◌, ◌-◌, ◌*◌, ◌%◌, ◌^◌, ◌≤◌, ◌<◌, ◌≡◌, refl, ap, ◌∙◌, arith, List, [], ◌∷◌, ◌++◌, false,
  none, some, ◌==◌, length, length-append, drop, take-append, All,
}
use harns_gateway.Modbus.Types.{slice, slice_from}
use harns_gateway.S7.Types.{Area}
use harns_gateway.S7.Address.{
  has_prefix, index, last_index, parse_digits, parse_number, atoi, zone, shortening, split_place,
  cut_letters, parse_in_block, parse_variable_address,
}

abbrev pub IsDigit : ℕ → Type 0
IsDigit c = (b'0' ≤ c) × (c ≤ b'9')

-- The number that digits mean, after others that mean `n`.
abbrev pub decimal : ℕ → List ℕ → ℕ
decimal n [] = n
decimal n (c ∷ s) = decimal (n * 10 + (c - b'0')) s

no_dot : (c : ℕ) → IsDigit c → (c == b'.') ≡ false
no_dot c h = ground arith

index-digits : (s rest : List ℕ) → All IsDigit s → index b'.' (s ++ b'.' ∷ rest) ≡ some (length s)
unfolding index
index-digits [] rest h = refl
index-digits (c ∷ s) rest h = rw (no_dot c h.0, index-digits s rest h.1) refl

last_index-digits : (s : List ℕ) → All IsDigit s → last_index b'.' s ≡ none
unfolding last_index
last_index-digits [] h = refl
last_index-digits (c ∷ s) h = rw (no_dot c h.0, last_index-digits s h.1) refl

last_index-dot : (s u : List ℕ) → All IsDigit u → last_index b'.' (s ++ b'.' ∷ u) ≡ some (length s)
unfolding last_index
last_index-dot [] u h = rw (last_index-digits u h) refl
last_index-dot (c ∷ s) u h = rw (last_index-dot s u h) refl

decimal-le : (n : ℕ) (s : List ℕ) → n ≤ decimal n s
decimal-le n [] = omega arith
decimal-le n (c ∷ s) = omega (arith, decimal-le (n * 10 + (c - b'0')) s)

parse_digits-decimal :
    (n : ℕ) (s : List ℕ)
    → All IsDigit s
    → decimal n s < 2 ^ 64
    → parse_digits n s ≡ some (decimal n s)
unfolding parse_digits
parse_digits-decimal n [] h fits = refl
parse_digits-decimal n (c ∷ s) h fits =
    let next = n * 10 + (c - b'0') in
    ground (arith, decimal-le next s, parse_digits-decimal next s h.1 fits)

-- Digits that mean a number below 2 ^ 63 are read as that number.
pub atoi-decimal :
    (c : ℕ) (s : List ℕ)
    → All IsDigit (c ∷ s)
    → decimal 0 (c ∷ s) < 2 ^ 63
    → atoi (c ∷ s) ≡ decimal 0 (c ∷ s)
unfolding atoi parse_number
atoi-decimal c s h fits = rw (parse_digits-decimal 0 (c ∷ s) h (omega arith)) (ground arith)

-- A decimal number below 2 ^ 63, of at least one digit.
abbrev pub IsNumber : List ℕ → Type 0
IsNumber [] = ⊥
IsNumber (c ∷ s) = All IsDigit (c ∷ s) × (decimal 0 (c ∷ s) < 2 ^ 63)

IsNumber-digits : (s : List ℕ) → IsNumber s → All IsDigit s
IsNumber-digits [] h = absurd h
IsNumber-digits (c ∷ s) h = h.0

atoi-IsNumber : (s : List ℕ) → IsNumber s → atoi s ≡ decimal 0 s
atoi-IsNumber [] h = absurd h
atoi-IsNumber (c ∷ s) h = atoi-decimal c s h.0 h.1

passed : (xs ys : List ℕ) → drop (suc (length xs)) (xs ++ b'.' ∷ ys) ≡ ys
passed [] ys = refl
passed (x ∷ xs) ys = passed xs ys

-- An address in a data block, by what stands after its first dot.
in_block :
    (block rest s : List ℕ)
    → IsNumber block
    → cut_letters 3 rest ≡ some s
    → parse_variable_address (b'D' ∷ b'B' ∷ block ++ b'.' ∷ rest)
      ≡ some (split_place Area.db (decimal 0 block) s (last_index b'.' s))
unfolding parse_variable_address zone has_prefix parse_in_block
in_block block rest s h cut = rw (dot, digits, after, cut, atoi-IsNumber block h) refl
  where
    whole : List ℕ
    whole = b'D' ∷ b'B' ∷ block ++ b'.' ∷ rest

    dot : index b'.' whole ≡ some (suc (suc (length block)))
    dot = unfold index in rw (index-digits block rest (IsNumber-digits block h)) refl

    long : length (block ++ b'.' ∷ rest) ≡ length block + suc (length rest)
    long = length-append block (b'.' ∷ rest)

    digits : slice 2 (suc (suc (length block))) whole ≡ some block
    digits = unfold slice in rw (take-append block (b'.' ∷ rest)) (ground (arith, long))

    after : slice_from (suc (suc (suc (length block)))) whole ≡ some rest
    after = unfold slice_from in rw (passed block rest) (ground (arith, long))

three_letters : (letter : ℕ) (s : List ℕ) → cut_letters 3 (b'D' ∷ b'B' ∷ letter ∷ s) ≡ some s
unfolding cut_letters shortening has_prefix slice_from
three_letters letter s = ground arith

split_bit :
    (n : ℕ) (byte bit : List ℕ)
    → IsNumber byte
    → IsNumber bit
    → split_place Area.db n (byte ++ b'.' ∷ bit) (last_index b'.' (byte ++ b'.' ∷ bit)) ≡ record {
      area = Area.db;
      area_size = n;
      address = decimal 0 byte % 2 ^ 32;
      bit = decimal 0 bit % 256;
    }
unfolding split_place
split_bit n byte bit h k =
    rw
      (
        last_index-dot byte bit (IsNumber-digits bit k),
        take-append byte (b'.' ∷ bit),
        passed byte bit,
      )
      (rw (atoi-IsNumber byte h, atoi-IsNumber bit k) refl)

-- ParseVariableAddress reads an address of the form DB1.DBX29.5, with any numbers and one letter
-- for the type, as the data block, the byte modulo 2 ^ 32 and the bit modulo 256 that it names.
-- The numbers have digits only and are below 2 ^ 63.
pub parse-block_bit :
    (block byte bit : List ℕ) (letter : ℕ)
    → IsNumber block
    → IsNumber byte
    → IsNumber bit
    → parse_variable_address
        (b'D' ∷ b'B' ∷ block ++ b'.' ∷ b'D' ∷ b'B' ∷ letter ∷ (byte ++ b'.' ∷ bit))
      ≡ some (record {
        area = Area.db;
        area_size = decimal 0 block;
        address = decimal 0 byte % 2 ^ 32;
        bit = decimal 0 bit % 256;
      })
parse-block_bit block byte bit letter h k l =
    in_block block (b'D' ∷ b'B' ∷ letter ∷ (byte ++ b'.' ∷ bit)) (byte ++ b'.' ∷ bit) h
      (three_letters letter (byte ++ b'.' ∷ bit))
    ∙ ap some (split_bit (decimal 0 block) byte bit k l)

pub parse-block_word :
    (block byte : List ℕ) (letter : ℕ)
    → IsNumber block
    → IsNumber byte
    → parse_variable_address (b'D' ∷ b'B' ∷ block ++ b'.' ∷ b'D' ∷ b'B' ∷ letter ∷ byte)
      ≡ some (record {
        area = Area.db;
        area_size = decimal 0 block;
        address = decimal 0 byte % 2 ^ 32;
        bit = 0;
      })
parse-block_word block byte letter h k =
    in_block block (b'D' ∷ b'B' ∷ letter ∷ byte) byte h (three_letters letter byte)
    ∙ unfold split_place in
      rw (last_index-digits byte (IsNumber-digits byte k), atoi-IsNumber byte k) refl

-- ParseVariableAddress reads an address of the form DB1.B22, with one letter and two digits, and
-- more digits after them or none, as a byte without the two digits.
pub short_form :
    (block rest : List ℕ) (a b : ℕ)
    → IsNumber block
    → All IsDigit (a ∷ b ∷ rest)
    → decimal 0 rest < 2 ^ 63
    → parse_variable_address (b'D' ∷ b'B' ∷ block ++ b'.' ∷ b'B' ∷ a ∷ b ∷ rest)
      ≡ some (record {
        area = Area.db;
        area_size = decimal 0 block;
        address = decimal 0 rest % 2 ^ 32;
        bit = 0;
      })
short_form block rest a b h digits fits =
    in_block block (b'B' ∷ a ∷ b ∷ rest) rest h cut
    ∙ unfold split_place in
      rw (last_index-digits rest digits.1.1, atoi_of rest digits.1.1 fits) refl
  where
    cut : cut_letters 3 (b'B' ∷ a ∷ b ∷ rest) ≡ some rest
    cut = unfold cut_letters shortening has_prefix slice_from in ground arith

    atoi_of : (s : List ℕ) → All IsDigit s → decimal 0 s < 2 ^ 63 → atoi s ≡ decimal 0 s
    atoi_of [] h fits = unfold atoi in refl
    atoi_of (c ∷ s) h fits = atoi-decimal c s h fits
