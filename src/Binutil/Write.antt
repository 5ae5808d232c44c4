-- ===== src/Binutil/Write.antt =====
-- The writers of pkg/utils/binutil/bytes.go, from `WriteUint64BigEndian` to
-- `WriteUint16LittleEndian`, and a write through a slice of a buffer.
use harns_gateway.Prelude.{
  ℕ, List, [], ◌∷◌, ◌++◌, Option, none, some, ◌>>=◌, length, take, drop, leb, if◌then◌else◌,
}
use harns_gateway.Binutil.Word.{put_bytes}

-- A write to `buf[off:]`, which shares its storage with `buf`. The slice expression panics when
-- `off` is past the end.
abbrev pub write_from : ℕ → (List ℕ → Option (List ℕ)) → List ℕ → Option (List ℕ)
write_from off write buf =
    if leb off (length buf)
    then (do tail ← write (drop off buf); some (take off buf ++ tail))
    else none

unfoldable pub write_uint64_big_endian : ℕ → List ℕ → Option (List ℕ)
write_uint64_big_endian value buf =
    put_bytes value
      ((0, 56) ∷ (1, 48) ∷ (2, 40) ∷ (3, 32) ∷ (4, 24) ∷ (5, 16) ∷ (6, 8) ∷ (7, 0) ∷ []) buf

unfoldable pub write_uint64_big_endian_byte_swap : ℕ → List ℕ → Option (List ℕ)
write_uint64_big_endian_byte_swap value buf =
    put_bytes value
      ((1, 56) ∷ (0, 48) ∷ (3, 40) ∷ (2, 32) ∷ (5, 24) ∷ (4, 16) ∷ (7, 8) ∷ (6, 0) ∷ []) buf

unfoldable pub write_uint64_little_endian : ℕ → List ℕ → Option (List ℕ)
write_uint64_little_endian value buf =
    put_bytes value
      ((7, 56) ∷ (6, 48) ∷ (5, 40) ∷ (4, 32) ∷ (3, 24) ∷ (2, 16) ∷ (1, 8) ∷ (0, 0) ∷ []) buf

unfoldable pub write_uint64_little_endian_byte_swap : ℕ → List ℕ → Option (List ℕ)
write_uint64_little_endian_byte_swap value buf =
    put_bytes value
      ((6, 56) ∷ (7, 48) ∷ (4, 40) ∷ (5, 32) ∷ (2, 24) ∷ (3, 16) ∷ (0, 8) ∷ (1, 0) ∷ []) buf

unfoldable pub write_uint32_big_endian : ℕ → List ℕ → Option (List ℕ)
write_uint32_big_endian value buf = put_bytes value ((0, 24) ∷ (1, 16) ∷ (2, 8) ∷ (3, 0) ∷ []) buf

unfoldable pub write_uint32_big_endian_byte_swap : ℕ → List ℕ → Option (List ℕ)
write_uint32_big_endian_byte_swap value buf =
    put_bytes value ((1, 24) ∷ (0, 16) ∷ (3, 8) ∷ (2, 0) ∷ []) buf

unfoldable pub write_uint32_little_endian : ℕ → List ℕ → Option (List ℕ)
write_uint32_little_endian value buf =
    put_bytes value ((3, 24) ∷ (2, 16) ∷ (1, 8) ∷ (0, 0) ∷ []) buf

unfoldable pub write_uint32_little_endian_byte_swap : ℕ → List ℕ → Option (List ℕ)
write_uint32_little_endian_byte_swap value buf =
    put_bytes value ((2, 24) ∷ (3, 16) ∷ (0, 8) ∷ (1, 0) ∷ []) buf

unfoldable pub write_uint24_big_endian : ℕ → List ℕ → Option (List ℕ)
write_uint24_big_endian value buf = put_bytes value ((0, 16) ∷ (1, 8) ∷ (2, 0) ∷ []) buf

unfoldable pub write_uint24_little_endian : ℕ → List ℕ → Option (List ℕ)
write_uint24_little_endian value buf = put_bytes value ((2, 16) ∷ (1, 8) ∷ (0, 0) ∷ []) buf

unfoldable pub write_uint16_big_endian : ℕ → List ℕ → Option (List ℕ)
write_uint16_big_endian value buf = put_bytes value ((0, 8) ∷ (1, 0) ∷ []) buf

unfoldable pub write_uint16_little_endian : ℕ → List ℕ → Option (List ℕ)
write_uint16_little_endian value buf = put_bytes value ((1, 8) ∷ (0, 0) ∷ []) buf
