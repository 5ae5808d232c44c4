-- ===== src/Binutil/Word.antt =====
-- What the functions of pkg/utils/binutil/bytes.go are built from: a shifted byte, a byte of a
-- word, reads and stores at listed places.
use harns_gateway.Prelude.{
  ℕ, ◌+◌, ◌*◌, ◌/◌, ◌%◌, ◌^◌, ◌<◌, bit_or, List, [], ◌∷◌, Option, none, some, ◌>>=◌, get_elem?, set,
  ltb, length, if◌then◌else◌,
}

abbrev pub IsByte : ℕ → Type 0
IsByte b = b < 256

-- `byte(value >> shift)`
abbrev pub byte_at : ℕ → ℕ → ℕ
byte_at value shift = value / 2 ^ shift % 256

-- `a | uint64(b[i]) << s | …`: the pairs are the index and the shift, from left to right.
abbrev pub or_bytes : List ℕ → ℕ → List (ℕ × ℕ) → Option ℕ
or_bytes b acc [] = some acc
or_bytes b acc ((i, s) ∷ rest) = do
  x ← get_elem? b i
  or_bytes b (bit_or acc (x * 2 ^ s % 2 ^ 64)) rest

-- `a + uintW(b[i])<<s + …` on words of `w` bits.
abbrev pub add_bytes : ℕ → List ℕ → ℕ → List (ℕ × ℕ) → Option ℕ
add_bytes w b acc [] = some acc
add_bytes w b acc ((i, s) ∷ rest) = do
  x ← get_elem? b i
  add_bytes w b ((acc + x * 2 ^ s % 2 ^ w) % 2 ^ w) rest

-- `buf[i] = byte(value >> s)` in turn, on a buffer that was made long enough.
abbrev pub store_bytes : ℕ → List (ℕ × ℕ) → List ℕ → List ℕ
store_bytes v [] buf = buf
store_bytes v ((i, s) ∷ rest) buf = store_bytes v rest (set buf i (byte_at v s))

-- `buf[i] = x`, which panics out of range.
abbrev pub put : List ℕ → ℕ → ℕ → Option (List ℕ)
put buf i x = if ltb i (length buf) then some (set buf i x) else none

-- `buf[i] = byte(value >> s)` in turn, on the buffer of a caller.
abbrev pub put_bytes : ℕ → List (ℕ × ℕ) → List ℕ → Option (List ℕ)
put_bytes v [] buf = some buf
put_bytes v ((i, s) ∷ rest) buf = do buf' ← put buf i (byte_at v s); put_bytes v rest buf'
