-- ===== src/Crc/Detection.antt =====
-- What the checksum of a frame detects.
use harns_gateway.Prelude.{
  ℕ, suc, ◌+◌, ◌*◌, ◌/◌, ◌%◌, ◌<◌, ◌≡◌, refl, sym, ap, ◌∙◌, arith, bit_xor, List, [], ◌∷◌, ◌++◌,
  true, false, ◌==◌, ◌>>=◌, All, All-append, ◌≢◌,
}
use harns_gateway.Prelude.Bits.{bit_xor_cancel, bit_xor_cancel_right, bit_xor-lt}
use harns_gateway.Binutil.Word.{IsByte}
use harns_gateway.Crc.{crc_lo, crc_loop, check_crc16sum}
use harns_gateway.Crc.Reference.{shift_out, shift_out_times, crc16}
use harns_gateway.Crc.Tables.{remainder, remainder-lt, passes, passes-at}
use harns_gateway.Crc.Equivalence.{crc_loop-cons, crc_loop-crc16, check_crc16sum-crc16, crc16-lt}

-- The place of a byte in the low table.
place : List ℕ → ℕ → ℕ
place [] x = 0
place (y ∷ ys) x = let later = suc (place ys x) in elim (y == x) [ true ↦ 0 | false ↦ later ]

place_table : passes (λ i. place crc_lo (remainder i / 256) == i) 256 ≡ true
unfolding passes place crc_lo shift_out shift_out_times
place_table = refl

place_back : (i : ℕ) → i < 256 → place crc_lo (remainder i / 256) ≡ i
place_back i h =
    ground (arith, passes-at (λ j. place crc_lo (remainder j / 256) == j) 256 place_table i h)

remainder_injective : (i j : ℕ) → i < 256 → j < 256 → remainder i / 256 ≡ remainder j / 256 → i ≡ j
remainder_injective i j hi hj e = sym (place_back i hi) ∙ ap (place crc_lo) e ∙ place_back j hj

-- Bytes after which two different states are still different.
abbrev Keeps : List ℕ → Type 0
Keeps s =
    (h l h' l' : ℕ)
    → IsByte h
    → IsByte l
    → IsByte h'
    → IsByte l'
    → crc_loop s h l ≡ crc_loop s h' l'
    → (h ≡ h') × (l ≡ l')

index_injective :
    (i j l l' : ℕ)
    → i < 256
    → j < 256
    → bit_xor l (remainder i % 256) ≡ bit_xor l' (remainder j % 256)
    → remainder i / 256 ≡ remainder j / 256
    → (i ≡ j) × (l ≡ l')
index_injective i j l l' hi hj eh el =
    let e : i ≡ j = remainder_injective i j hi hj el in
    (e, bit_xor_cancel_right l l' (remainder j % 256) (rw e at eh))

next_state :
    (b h l : ℕ)
    → IsByte b
    → IsByte h
    → IsByte l
    → IsByte (bit_xor l (remainder (bit_xor h b) % 256)) × IsByte (remainder (bit_xor h b) / 256)
next_state b h l hb hh hl = (
  bit_xor-lt 8 l (remainder (bit_xor h b) % 256) hl (omega arith),
  omega (arith, remainder-lt (bit_xor h b) (bit_xor-lt 8 h b hh hb)),
)

-- One byte more: the indices and the low halves agree.
cons_injective :
    (s : List ℕ)
    → Keeps s
    → (b h l b' h' l' : ℕ) → IsByte b × IsByte h × IsByte l
    → IsByte b' × IsByte h' × IsByte l'
    → crc_loop (b ∷ s) h l ≡ crc_loop (b' ∷ s) h' l'
    → (bit_xor h b ≡ bit_xor h' b') × (l ≡ l')
cons_injective s keeps b h l b' h' l' (hb, hh, hl) (hb', hh', hl') e =
    let (n, n') = next_state b h l hb hh hl in
    let (m, m') = next_state b' h' l' hb' hh' hl' in
    let (eh, el) =
      keeps _ _ _ _ n n' m m'
        (sym (crc_loop-cons b s h l hb hh) ∙ e ∙ crc_loop-cons b' s h' l' hb' hh') in
    index_injective (bit_xor h b) (bit_xor h' b') l l' (bit_xor-lt 8 h b hh hb)
      (bit_xor-lt 8 h' b' hh' hb') eh el

-- The same bytes lead different states to different states.
crc_loop-Keeps : (s : List ℕ) → All IsByte s → Keeps s
crc_loop-Keeps [] hs h l h' l' bh bl bh' bl' e = unfold crc_loop in ground (arith, e)
crc_loop-Keeps (b ∷ s) hs h l h' l' bh bl bh' bl' e =
    let (ei, el) =
      cons_injective s (crc_loop-Keeps s hs.1) b h l b h' l' (hs.0, bh, bl) (hs.0, bh', bl') e in
    (bit_xor_cancel_right h h' b ei, el)

crc_loop-append :
    (p s : List ℕ) (h l : ℕ)
    → All IsByte p
    → IsByte h
    → IsByte l
    → crc_loop (p ++ s) h l ≡ (crc_loop p h l >>= λ st. crc_loop s st.0 st.1)
crc_loop-append [] s h l hp hh hl = unfold crc_loop in refl
crc_loop-append (b ∷ p) s h l hp hh hl =
    let (n, n') = next_state b h l hp.0 hh hl in
    rw (crc_loop-cons b (p ++ s) h l hp.0 hh, crc_loop-cons b p h l hp.0 hh)
      (crc_loop-append p s _ _ hp.1 n n')

-- Equal checksums come from equal states at the end.
same_state :
    (x y : List ℕ)
    → All IsByte x
    → All IsByte y
    → check_crc16sum x ≡ check_crc16sum y
    → crc_loop x 0xFF 0xFF ≡ crc_loop y 0xFF 0xFF
same_state x y hx hy e = rw (
  crc_loop-crc16 x 0xFF 0xFF hx (omega arith) (omega arith),
  crc_loop-crc16 y 0xFF 0xFF hy (omega arith) (omega arith),
  words (crc16 x 0xFFFF) (crc16 y 0xFFFF) (crc16-lt x 0xFFFF hx (omega arith))
      (crc16-lt y 0xFFFF hy (omega arith))
      (ground (arith, e, check_crc16sum-crc16 x hx, check_crc16sum-crc16 y hy)),
)
  where
    words :
        (v w : ℕ)
        → v < 65536
        → w < 65536
        → v % 256 * 256 + v / 256 ≡ w % 256 * 256 + w / 256
        → v ≡ w
    words v w hv hw h = omega arith

window :
    (a b a' b' : ℕ) (s : List ℕ) (h l : ℕ)
    → IsByte a × IsByte b
    → IsByte a' × IsByte b'
    → All IsByte s
    → IsByte h
    → IsByte l
    → crc_loop (a ∷ b ∷ s) h l ≡ crc_loop (a' ∷ b' ∷ s) h l
    → (a ≡ a') × (b ≡ b')
window a b a' b' s h l (ha, hb) (ha', hb') hs hh hl e =
    let (n, n') = next_state a h l ha hh hl in
    let (m, m') = next_state a' h l ha' hh hl in
    let (e1, e2) =
      cons_injective s (crc_loop-Keeps s hs) b _ _ b' _ _ (hb, n, n') (hb', m, m')
        (sym (crc_loop-cons a (b ∷ s) h l ha hh) ∙ e ∙ crc_loop-cons a' (b' ∷ s) h l ha' hh) in
    let i : bit_xor h a ≡ bit_xor h a' =
      remainder_injective _ _ (bit_xor-lt 8 h a hh ha) (bit_xor-lt 8 h a' hh ha') e2 in
    (bit_xor_cancel a a' h i, bit_xor_cancel b b' _ (rw i at e1))

same_bytes :
    (p s : List ℕ) (a b a' b' : ℕ)
    → All IsByte p
    → All IsByte s
    → IsByte a × IsByte b
    → IsByte a' × IsByte b'
    → check_crc16sum (p ++ (a ∷ b ∷ s)) ≡ check_crc16sum (p ++ (a' ∷ b' ∷ s))
    → (a ≡ a') × (b ≡ b')
same_bytes p s a b a' b' hp hs hab hab' e =
    window a b a' b' s (w % 256) (w / 256) hab hab' hs (omega arith)
      (omega (arith, crc16-lt p 0xFFFF hp (omega arith))) (sym (after a b) ∙ ends ∙ after a' b')
  where
    w : ℕ
    w = crc16 p 0xFFFF

    after :
        (x y : ℕ) → crc_loop (p ++ (x ∷ y ∷ s)) 0xFF 0xFF ≡ crc_loop (x ∷ y ∷ s) (w % 256) (w / 256)
    after x y =
        crc_loop-append p (x ∷ y ∷ s) 0xFF 0xFF hp (omega arith) (omega arith)
        ∙ rw (crc_loop-crc16 p 0xFF 0xFF hp (omega arith) (omega arith))

    ends : crc_loop (p ++ (a ∷ b ∷ s)) 0xFF 0xFF ≡ crc_loop (p ++ (a' ∷ b' ∷ s)) 0xFF 0xFF
    ends =
        same_state _ _ (All-append IsByte p (a ∷ b ∷ s) hp (hab.0, (hab.1, hs)))
          (All-append IsByte p (a' ∷ b' ∷ s) hp (hab'.0, (hab'.1, hs))) e

-- Damage to one byte or to two neighbouring bytes of a message changes the sum that CheckCrc16sum
-- gives.
pub check_crc16sum_detects :
    (p s : List ℕ) (a b a' b' : ℕ)
    → All IsByte p
    → All IsByte s
    → IsByte a × IsByte b
    → IsByte a' × IsByte b'
    → ¬ ((a ≡ a') × (b ≡ b'))
    → check_crc16sum (p ++ (a ∷ b ∷ s)) ≢ check_crc16sum (p ++ (a' ∷ b' ∷ s))
check_crc16sum_detects p s a b a' b' hp hs hab hab' damaged e =
    damaged (same_bytes p s a b a' b' hp hs hab hab' e)
