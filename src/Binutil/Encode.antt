-- ===== src/Binutil/Encode.antt =====
-- The encoders of pkg/utils/binutil/bytes.go, from `Uint32ToBytesBigEndian` to
-- `Uint16ToBytesLittleEndian`. Each stores into a slice that it makes, so none can panic.
use harns_gateway.Prelude.{ℕ, List, [], ◌∷◌, replicate}
use harns_gateway.Binutil.Word.{store_bytes}

unfoldable pub uint32_to_bytes_big_endian : ℕ → List ℕ
uint32_to_bytes_big_endian value =
    store_bytes value ((0, 24) ∷ (1, 16) ∷ (2, 8) ∷ (3, 0) ∷ []) (replicate 4 0)

unfoldable pub uint32_to_bytes_big_endian_byte_swap : ℕ → List ℕ
uint32_to_bytes_big_endian_byte_swap value =
    store_bytes value ((1, 24) ∷ (0, 16) ∷ (3, 8) ∷ (2, 0) ∷ []) (replicate 4 0)

unfoldable pub uint32_to_bytes_little_endian : ℕ → List ℕ
uint32_to_bytes_little_endian value =
    store_bytes value ((3, 24) ∷ (2, 16) ∷ (1, 8) ∷ (0, 0) ∷ []) (replicate 4 0)

unfoldable pub uint32_to_bytes_little_endian_byte_swap : ℕ → List ℕ
uint32_to_bytes_little_endian_byte_swap value =
    store_bytes value ((2, 24) ∷ (3, 16) ∷ (0, 8) ∷ (1, 0) ∷ []) (replicate 4 0)

unfoldable pub uint64_to_bytes_big_endian : ℕ → List ℕ
uint64_to_bytes_big_endian value =
    store_bytes value
      ((0, 56) ∷ (1, 48) ∷ (2, 40) ∷ (3, 32) ∷ (4, 24) ∷ (5, 16) ∷ (6, 8) ∷ (7, 0) ∷ [])
      (replicate 8 0)

unfoldable pub uint64_to_bytes_big_endian_byte_swap : ℕ → List ℕ
uint64_to_bytes_big_endian_byte_swap value =
    store_bytes value
      ((1, 56) ∷ (0, 48) ∷ (3, 40) ∷ (2, 32) ∷ (5, 24) ∷ (4, 16) ∷ (7, 8) ∷ (6, 0) ∷ [])
      (replicate 8 0)

unfoldable pub uint64_to_bytes_little_endian : ℕ → List ℕ
uint64_to_bytes_little_endian value =
    store_bytes value
      ((7, 56) ∷ (6, 48) ∷ (5, 40) ∷ (4, 32) ∷ (3, 24) ∷ (2, 16) ∷ (1, 8) ∷ (0, 0) ∷ [])
      (replicate 8 0)

unfoldable pub uint64_to_bytes_little_endian_byte_swap : ℕ → List ℕ
uint64_to_bytes_little_endian_byte_swap value =
    store_bytes value
      ((6, 56) ∷ (7, 48) ∷ (4, 40) ∷ (5, 32) ∷ (2, 24) ∷ (3, 16) ∷ (0, 8) ∷ (1, 0) ∷ [])
      (replicate 8 0)

unfoldable pub uint16_to_bytes_big_endian : ℕ → List ℕ
uint16_to_bytes_big_endian value = store_bytes value ((0, 8) ∷ (1, 0) ∷ []) (replicate 2 0)

unfoldable pub uint16_to_bytes_little_endian : ℕ → List ℕ
uint16_to_bytes_little_endian value = store_bytes value ((1, 8) ∷ (0, 0) ∷ []) (replicate 2 0)
