-- ===== src/Digest/Md5/Stream/Final.antt =====
-- `caml_MD5Final` on a context that holds a message gives the MD5 of that message.
use trav_lang.Common.{
  ℕ, suc, ◌+◌, ◌-◌, ◌*◌, ◌/◌, ◌%◌, ◌^◌, ◌≤◌, ◌<◌, ◌≡◌, refl, sym, ◌∙◌, ap, inl, inr, [], ◌∷◌, ◌++◌,
  append_assoc, length, take, drop, blit, replicate, length-append, length-replicate, replicate-add,
  length-blit, length-drop, take_all, take-append, drop-append, take-blit_after, take-blit,
  fold_blocks, Bool-cases, ltb, ltb→lt, ltb→le, arith,
}
use trav_lang.Common.Words.{shr, le_bytes}
use trav_lang.Digest.Md5.Transform.{Buf, transform, Bytes}
use trav_lang.Digest.Md5.Reference.{initial_buf, absorb, zeros, bit_length, md5_streamed}
use trav_lang.Digest.Md5.Stream.{tail_of, Holds, absorb_step}
use trav_lang.Digest.Md5.Stream.Update.{absorb-append}
use trav_lang.Digest.Md5.{Md5Context, digest_bytes, md5_final}

absorb_one : (h : Buf) (w : Bytes) → length w ≡ 64 → absorb h w ≡ transform h w
unfolding fold_blocks
absorb_one h w e = let q : length w / 64 ≡ 1 = omega arith in rw (q, take_all 64 w (omega arith))

absorb_two :
    (h : Buf) (v w : Bytes)
    → length v ≡ 64
    → length w ≡ 64
    → absorb h (v ++ w) ≡ transform (transform h v) w
absorb_two h v w ev ew =
    let n : length (v ++ w) ≡ length v + length w = length-append v w in
    let (f, t) = absorb_step h (v ++ w) (omega arith) in
    sym f
    ∙ ap (λ b. absorb (transform h b) (drop 64 (v ++ w))) (take-append v w 64 (sym ev))
    ∙ ap (λ b. absorb (transform h v) b) (drop-append v w 64 (sym ev))
    ∙ absorb_one (transform h v) w ew

-- A buffer of 64 bytes that begins with 64 known bytes is those bytes.
take_exact : (buf w : Bytes) → length buf ≡ 64 → length w ≡ 64 → take (length w) buf ≡ w → buf ≡ w
take_exact buf w e f h = sym (take_all (length w) buf (omega arith)) ∙ h

-- The two writes at the end of the buffer, at 0x80 and the zeros behind it.
module _ (buf p : Bytes) (full : length buf ≡ 64) (less : length p < 64)
    (starts : take (length p) buf ≡ p) where
  marked_zeros :
      (k : ℕ)
      → length p + 1 + k ≤ 64
      → let r = blit (blit buf (length p) (0x80 ∷ [])) (length p + 1) (replicate k 0) in
        (take (length p + 1 + k) r ≡ p ++ (0x80 ∷ replicate k 0)) × (length r ≡ 64)
  marked_zeros k le =
      let w = p ++ (0x80 ∷ []) in
      let b = blit buf (length p) (0x80 ∷ []) in
      let n : length w ≡ length p + 1 = length-append p (0x80 ∷ []) in
      let z : length (replicate {A = ℕ} k 0) ≡ k = length-replicate k 0 in
      let first : take (length w) b ≡ w =
        ap (λ i. take i b) n ∙ take-blit_after buf p (0x80 ∷ []) (omega arith) starts in
      let lb : length b ≡ 64 = length-blit buf (0x80 ∷ []) (length p) (omega arith) ∙ full in
      let r = blit b (length p + 1) (replicate k 0) in
      let e : length p + 1 + k ≡ length w + length (replicate {A = ℕ} k 0) = omega arith in
      let t' : take (length w + length (replicate {A = ℕ} k 0)) r ≡ w ++ replicate k 0 =
        rw (← n) (take-blit_after b w (replicate k 0) (omega arith) first) in
      (
        ap (λ i. take i r) e ∙ t' ∙ append_assoc p (0x80 ∷ []) (replicate k 0),
        length-blit b (replicate k 0) (length p + 1) (omega arith) ∙ lb,
      )

-- Eight bytes are written over the end of a buffer.
last_block :
    (buf w bits : Bytes)
    → length buf ≡ 64
    → length w ≡ 56
    → length bits ≡ 8
    → take 56 buf ≡ w
    → (blit buf 56 bits ≡ w ++ bits) × (length (w ++ bits) ≡ 64)
last_block buf w bits full lw lb starts =
    let b : length (blit buf 56 bits) ≡ 64 = length-blit buf bits 56 (omega arith) ∙ full in
    let e : length (w ++ bits) ≡ 64 = rw (length-append, lw, lb) in
    let t : take (length w + length bits) (blit buf (length w) bits) ≡ w ++ bits =
      take-blit_after buf w bits (omega arith) (rw lw starts) in
    let u : take 64 (blit buf 56 bits) ≡ w ++ bits = rw (lw, lb) at t in
    (take_exact _ (w ++ bits) b e (ap (λ k. take k (blit buf 56 bits)) e ∙ u), e)

-- The counted bits are the length field of the padding.
bits-bit_length :
    (c : Md5Context) (n : ℕ)
    → c.bits0 + 2 ^ 32 * c.bits1 ≡ (8 * n) % 2 ^ 64
    → c.bits0 < 2 ^ 32
    → c.bits1 < 2 ^ 32
    → le_bytes 4 c.bits0 ++ le_bytes 4 c.bits1 ≡ bit_length n
bits-bit_length c n h lt0 lt1 =
    let low : c.bits0 ≡ (8 * n) % 2 ^ 32 = omega arith in
    let high : c.bits1 ≡ (8 * n) / 2 ^ 32 % 2 ^ 32 = omega arith in rw (low, high)

-- The padding behind the pending bytes, as the code writes it: in one block or in two.
module _ (h : Buf) (buf p bits : Bytes) (full : length buf ≡ 64) (less : length p < 64)
    (starts : take (length p) buf ≡ p) (eight : length bits ≡ 8) where
  one_block :
      (z : ℕ)
      → z + length p ≡ 55
      → transform h
          (blit (blit (blit buf (length p) (0x80 ∷ [])) (length p + 1) (replicate z 0)) 56 bits)
        ≡ absorb h (p ++ (0x80 ∷ (replicate z 0 ++ bits)))
  one_block z e =
      let f = blit (blit buf (length p) (0x80 ∷ [])) (length p + 1) (replicate z 0) in
      let w = p ++ (0x80 ∷ replicate z 0) in
      let lz : length (replicate {A = ℕ} z 0) ≡ z = length-replicate z 0 in
      let lw : length w ≡ length p + suc (length (replicate {A = ℕ} z 0)) =
        length-append p (0x80 ∷ replicate z 0) in
      let (m, lm) = marked_zeros buf p full less starts z (omega arith) in
      let k : 56 ≡ length p + 1 + z = omega arith in
      let (b, lb) = last_block f w bits lm (omega arith) eight (ap (λ i. take i f) k ∙ m) in
      let assoc : w ++ bits ≡ p ++ (0x80 ∷ (replicate z 0 ++ bits)) =
        append_assoc p (0x80 ∷ replicate z 0) bits in
      ap (transform h) b ∙ sym (absorb_one h (w ++ bits) lb) ∙ ap (absorb h) assoc

  two_blocks :
      (z : ℕ)
      → z + length p ≡ 63
      → let f = blit (blit buf (length p) (0x80 ∷ [])) (length p + 1) (replicate z 0) in
        transform (transform h f) (blit (blit f 0 (replicate 56 0)) 56 bits)
        ≡ absorb h (p ++ (0x80 ∷ (replicate (z + 56) 0 ++ bits)))
  two_blocks z e =
      let f = blit (blit buf (length p) (0x80 ∷ [])) (length p + 1) (replicate z 0) in
      let v = p ++ (0x80 ∷ replicate z 0) in
      let w : Bytes = replicate 56 0 in
      let lz : length (replicate {A = ℕ} z 0) ≡ z = length-replicate z 0 in
      let lv : length v ≡ length p + suc (length (replicate {A = ℕ} z 0)) =
        length-append p (0x80 ∷ replicate z 0) in
      let (m, lm) = marked_zeros buf p full less starts z (omega arith) in
      let k : length v ≡ length p + 1 + z = omega arith in
      let first : f ≡ v = take_exact f v lm (omega arith) (ap (λ i. take i f) k ∙ m) in
      let lc : length (blit f 0 w) ≡ 64 = length-blit f w 0 (omega arith) ∙ lm in
      let (b, lb) = last_block (blit f 0 w) w bits lc refl eight (take-blit f w 0 (omega arith)) in
      let assoc : v ++ (w ++ bits) ≡ p ++ (0x80 ∷ (replicate (z + 56) 0 ++ bits)) =
        append_assoc p (0x80 ∷ replicate z 0) (w ++ bits)
        ∙ ap (λ x. p ++ (0x80 ∷ x)) (sym (append_assoc (replicate z 0) w bits))
        ∙ ap (λ x. p ++ (0x80 ∷ (x ++ bits))) (sym (replicate-add z 56 0)) in
      ap (transform (transform h f)) b
      ∙ ap (λ x. transform (transform h x) (w ++ bits)) first
      ∙ sym (absorb_two h v (w ++ bits) (omega arith) lb)
      ∙ ap (absorb h) assoc

-- `caml_MD5Final` on a context that holds the message `m` gives the MD5 of `m`.
pub final-streamed : (c : Md5Context) (m : Bytes) → Holds c m → (md5_final c).0 ≡ md5_streamed m
unfolding md5_final md5_streamed
final-streamed c m holds =
    let p = tail_of m in
    let n : length p ≡ length m - 64 * (length m / 64) = length-drop (64 * (length m / 64)) m in
    let r : length p ≡ length m % 64 = omega arith in
    let count : length p ≡ shr c.bits0 3 % 64 = omega (arith, holds.counted, holds.narrow0) in
    let starts : take (length p) c.inp ≡ p = ap (λ k. take k c.inp) r ∙ holds.absorbed.pending in
    let bits = bits-bit_length c (length m) holds.counted holds.narrow0 holds.narrow1 in
    let whole =
      absorb-append initial_buf m
        (0x80 ∷ (replicate (zeros (length m)) 0 ++ bit_length (length m))) in
    let folded = holds.absorbed.folded in
    elim (Bool-cases (ltb (64 - 1 - length p) 8)) [
      | inl two ↦
          let z : zeros (length m) ≡ 64 - 1 - length p + 56 = omega (arith, ltb→lt _ _ two) in
          let t =
            two_blocks c.buf c.inp p (bit_length (length m)) holds.absorbed.whole (omega arith)
              starts refl (64 - 1 - length p) (omega arith) in
          rw (← count, two, bits, ← whole, ← folded, z) (ap digest_bytes t)
      | inr one ↦
          let le = ltb→le _ _ one in
          let z : zeros (length m) ≡ 64 - 1 - length p - 8 = omega arith in
          let t =
            one_block c.buf c.inp p (bit_length (length m)) holds.absorbed.whole (omega arith)
              starts refl (64 - 1 - length p - 8) (omega arith) in
          rw (← count, one, bits, ← whole, ← folded, z) (ap digest_bytes t)
    ]
