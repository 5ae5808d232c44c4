-- ===== src/S7/Response/Slices.antt =====
-- Slices of bytes that are put together.
use harns_gateway.Prelude.{
  ℕ, ◌≡◌, refl, arith, List, ◌++◌, true, some, leb, length, length-append, take-append, drop-append,
}
use harns_gateway.Modbus.Types.{slice, slice_from}

pub slice-append : (front rest : List ℕ) → slice 0 (length front) (front ++ rest) ≡ some front
unfolding slice
slice-append front rest =
    let start : leb 0 (length front) ≡ true = ground arith in
    let inside : leb (length front) (length (front ++ rest)) ≡ true =
      ground (arith, length-append front rest) in
    rw (start, inside, take-append front rest) refl

pub slice_from-append :
    (front back : List ℕ) → slice_from (length front) (front ++ back) ≡ some back
unfolding slice_from
slice_from-append front back =
    let inside : leb (length front) (length (front ++ back)) ≡ true =
      ground (arith, length-append front back) in
    rw (inside, drop-append front back) refl
