-- ===== src/Binutil/Parse.antt =====
-- The readers of pkg/utils/binutil/bytes.go, from `ParseUint64` to `ParseUint16LittleEndian`.
use harns_gateway.Prelude.{ℕ, List, [], ◌∷◌, Option}
use harns_gateway.Binutil.Word.{or_bytes, add_bytes}

unfoldable pub parse_uint64 : List ℕ → Option ℕ
parse_uint64 b =
    or_bytes b 0 ((0, 56) ∷ (1, 48) ∷ (2, 40) ∷ (3, 32) ∷ (4, 24) ∷ (5, 16) ∷ (6, 8) ∷ (7, 0) ∷ [])

unfoldable pub parse_uint64_big_endian : List ℕ → Option ℕ
parse_uint64_big_endian b =
    or_bytes b 0 ((0, 56) ∷ (1, 48) ∷ (2, 40) ∷ (3, 32) ∷ (4, 24) ∷ (5, 16) ∷ (6, 8) ∷ (7, 0) ∷ [])

unfoldable pub parse_uint64_big_endian_byte_swap : List ℕ → Option ℕ
parse_uint64_big_endian_byte_swap b =
    or_bytes b 0 ((1, 56) ∷ (0, 48) ∷ (3, 40) ∷ (2, 32) ∷ (5, 24) ∷ (4, 16) ∷ (7, 8) ∷ (6, 0) ∷ [])

unfoldable pub parse_uint64_little_endian : List ℕ → Option ℕ
parse_uint64_little_endian b =
    or_bytes b 0 ((7, 56) ∷ (6, 48) ∷ (5, 40) ∷ (4, 32) ∷ (3, 24) ∷ (2, 16) ∷ (1, 8) ∷ (0, 0) ∷ [])

unfoldable pub parse_uint64_little_endian_byte_swap : List ℕ → Option ℕ
parse_uint64_little_endian_byte_swap b =
    or_bytes b 0 ((6, 56) ∷ (7, 48) ∷ (4, 40) ∷ (5, 32) ∷ (2, 24) ∷ (3, 16) ∷ (0, 8) ∷ (1, 0) ∷ [])

unfoldable pub parse_uint32 : List ℕ → Option ℕ
parse_uint32 b = add_bytes 32 b 0 ((0, 24) ∷ (1, 16) ∷ (2, 8) ∷ (3, 0) ∷ [])

unfoldable pub parse_uint32_big_endian : List ℕ → Option ℕ
parse_uint32_big_endian b = add_bytes 32 b 0 ((0, 24) ∷ (1, 16) ∷ (2, 8) ∷ (3, 0) ∷ [])

unfoldable pub parse_uint32_big_endian_byte_swap : List ℕ → Option ℕ
parse_uint32_big_endian_byte_swap b = add_bytes 32 b 0 ((1, 24) ∷ (0, 16) ∷ (3, 8) ∷ (2, 0) ∷ [])

unfoldable pub parse_uint32_little_endian : List ℕ → Option ℕ
parse_uint32_little_endian b = add_bytes 32 b 0 ((3, 24) ∷ (2, 16) ∷ (1, 8) ∷ (0, 0) ∷ [])

unfoldable pub parse_uint32_little_endian_byte_swap : List ℕ → Option ℕ
parse_uint32_little_endian_byte_swap b = add_bytes 32 b 0 ((2, 24) ∷ (3, 16) ∷ (0, 8) ∷ (1, 0) ∷ [])

unfoldable pub parse_uint16 : List ℕ → Option ℕ
parse_uint16 b = add_bytes 16 b 0 ((0, 8) ∷ (1, 0) ∷ [])

unfoldable pub parse_uint16_big_endian : List ℕ → Option ℕ
parse_uint16_big_endian b = add_bytes 16 b 0 ((0, 8) ∷ (1, 0) ∷ [])

unfoldable pub parse_uint16_little_endian : List ℕ → Option ℕ
parse_uint16_little_endian b = add_bytes 16 b 0 ((1, 8) ∷ (0, 0) ∷ [])
