-- ===== src/Binutil/Bools.antt =====
-- The Boolean helpers of pkg/utils/binutil/bytes.go, from `BoolToAscii` to `ExpandBool`.
use harns_gateway.Prelude.{
  ℕ, zero, suc, ◌+◌, ◌*◌, ◌/◌, ◌%◌, ◌^◌, bit_and, List, [], ◌∷◌, Option, some, ◌>>=◌, Bool, map,
  ltb, ◌==◌, length, get_elem?, set, replicate, if◌then◌else◌,
}

unfoldable pub bool_to_ascii : List ℕ → List ℕ
bool_to_ascii buf = map (λ x. if x == 0 then b'0' else b'1') buf

unfoldable pub ascii_to_bool : List ℕ → List ℕ
ascii_to_bool buf = map (λ x. if x == b'0' then 0 else 1) buf

-- A copy of the bytes. A list has no identity, so the copy is the list.
unfoldable pub dup : List ℕ → List ℕ
dup buf = buf

unfoldable pub bool_to_byte : List Bool → List ℕ
bool_to_byte buf = map (λ v. if v then 1 else 0) buf

unfoldable pub byte_to_bool : List ℕ → List Bool
byte_to_bool buf = map (λ v. ltb 0 v) buf

-- `b[i>>3] += 1 << (i & 0x07)` for each `buf[i] > 0`, from index `i` on; a byte wraps at 256.
shrink_loop : List ℕ → ℕ → List ℕ → Option (List ℕ)
shrink_loop [] i b = some b
shrink_loop (x ∷ xs) i b = do
  old ← get_elem? b (i / 8)
  let new = if ltb 0 x then set b (i / 8) ((old + 2 ^ bit_and i 0x07) % 256) else b
  shrink_loop xs (i + 1) new

unfoldable pub shrink_bool : List ℕ → Option (List ℕ)
unfolding shrink_loop
shrink_bool buf =
    let n = length buf in
    let ln = if ltb 0 (bit_and n 0x07) then n / 8 + 1 else n / 8 in
    shrink_loop buf 0 (replicate ln 0)

-- `buf[i>>3] & (1 << (i & 0x07)) > 0` for the indices from `i` on, `left` of them.
expand_loop : List ℕ → ℕ → ℕ → Option (List ℕ)
expand_loop buf zero i = some []
expand_loop buf (suc left) i = do
  x ← get_elem? buf (i / 8)
  rest ← expand_loop buf left (i + 1)
  some ((if ltb 0 (bit_and x (2 ^ bit_and i 0x07)) then 1 else 0) ∷ rest)

unfoldable pub expand_bool : List ℕ → ℕ → Option (List ℕ)
unfolding expand_loop
expand_bool buf count =
    let n = if ltb (length buf) count then length buf else count in expand_loop buf (n * 8) 0
