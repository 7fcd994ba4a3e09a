-- ===== src/Digest/Md5/Stream/Update.antt =====
-- A context holds a message; `caml_MD5Update` adds bytes to it.
use trav_lang.Common.{
  ◌+◌, ◌-◌, ◌*◌, ◌/◌, ◌%◌, ◌≤◌, ◌<◌, ◌≡◌, refl, sym, ◌∙◌, ap, inl, inr, [], ◌∷◌, ◌++◌, length, take,
  length-append, length-drop, drop_prefix, drop-drop, fold_blocks_prefix, fold_blocks-add,
  Bool-cases, ltb, ==_iff, ltb→lt, ltb→le, ◌==◌, arith,
}
use trav_lang.Common.Words.{shr}
use trav_lang.Digest.Md5.Transform.{Buf, transform, Bytes}
use trav_lang.Digest.Md5.Reference.{initial_buf, absorb}
use trav_lang.Digest.Md5.Stream.{
  tail_of, Absorbed, SameBits, Holds, add_bits_counted, md5_chunks-Absorbed, small-Absorbed,
  large-Absorbed,
}
use trav_lang.Digest.Md5.{Md5Context, add_bits, md5_update}

empty : (p : Bytes) → length p ≡ 0 → p ≡ []
empty [] h = refl
empty (x ∷ p) h = absurd (omega arith)

-- All the ways together: the pending bytes and the data are taken in as one.
update-Absorbed :
    (c : Md5Context) (p m : Bytes)
    → length c.inp ≡ 64
    → length p ≡ shr c.bits0 3 % 64
    → take (length p) c.inp ≡ p
    → Absorbed c.buf (p ++ m) (md5_update c m) × SameBits (add_bits c (length m)) (md5_update c m)
unfolding md5_update
update-Absorbed c p m full count starts =
    let c' = add_bits c (length m) in
    let less : length p < 64 = omega arith in
    elim (Bool-cases (length p == 0)) [
      | inl whole ↦
          let e : p ≡ [] = empty p ((==_iff (length p) 0).0 whole) in
          rw (← count, whole, e) (md5_chunks-Absorbed (length m) c' m full (omega arith))
      | inr part ↦ elim (Bool-cases (ltb (length m) (64 - length p))) [
        | inl small ↦
            rw (← count, part, small)
              (small-Absorbed c' p m full less starts (ltb→lt _ _ small), (refl, refl))
        | inr large ↦
            rw (← count, part, large) (large-Absorbed c' p m full less starts (ltb→le _ _ large))
      ]
    ]

-- Absorbing in two parts: the whole blocks of the first message, then what follows them.
module _ (h : Buf) (m d : Bytes) where
  parts_sizes :
      (length (m ++ d) / 64 ≡ length m / 64 + length (tail_of m ++ d) / 64)
      × (length (m ++ d) % 64 ≡ length (tail_of m ++ d) % 64)
      × (64 * (length m / 64) ≤ length m)
  parts_sizes =
      let n : length (tail_of m) ≡ length m - 64 * (length m / 64) =
        length-drop (64 * (length m / 64)) m in
      let a : length (m ++ d) ≡ length m + length d = length-append m d in
      let b : length (tail_of m ++ d) ≡ length (tail_of m) + length d =
        length-append (tail_of m) d in
      omega arith

  pub absorb-append : absorb (absorb h m) (tail_of m ++ d) ≡ absorb h (m ++ d)
  absorb-append =
      let (q, r, le) = parts_sizes in
      let k = length m / 64 in
      sym (
        rw (
          q,
          fold_blocks-add 64 transform k (length (tail_of m ++ d) / 64) h (m ++ d),
          fold_blocks_prefix 64 transform k h m d le,
          drop_prefix (64 * k) m d le,
        ))

  tail_of-append : tail_of (tail_of m ++ d) ≡ tail_of (m ++ d)
  tail_of-append =
      let (q, r, le) = parts_sizes in
      let k = length m / 64 in
      let j = length (tail_of m ++ d) / 64 in
      let e : 64 * (k + j) ≡ 64 * k + 64 * j = omega arith in
      sym (rw (q, e, ← drop-drop (64 * k) (64 * j) (m ++ d), drop_prefix (64 * k) m d le))

-- Every call of `caml_MD5Update` appends its data to the message that the context holds.
pub update-Holds : (c : Md5Context) (m d : Bytes) → Holds c m → Holds (md5_update c d) (m ++ d)
update-Holds c m d holds =
    let n : length (tail_of m) ≡ length m - 64 * (length m / 64) =
      length-drop (64 * (length m / 64)) m in
    let r : length (tail_of m) ≡ length m % 64 = omega arith in
    let starts : take (length (tail_of m)) c.inp ≡ tail_of m =
      ap (λ k. take k c.inp) r ∙ holds.absorbed.pending in
    let (a, (low, high)) =
      update-Absorbed c (tail_of m) d holds.absorbed.whole (omega arith) starts in
    let (sum, lt0, lt1) = add_bits_counted c (length m) (length d) holds.counted holds.narrow0 in
    let size : length (m ++ d) ≡ length m + length d = length-append m d in
    let (q, s, le) = parts_sizes initial_buf m d in
    record {
      absorbed = record {
        whole = a.whole;
        folded =
            a.folded
            ∙ ap (λ b. absorb b (tail_of m ++ d)) holds.absorbed.folded
            ∙ absorb-append initial_buf m d;
        pending =
            ap (λ k. take k (md5_update c d).inp) s ∙ a.pending ∙ tail_of-append initial_buf m d;
      };
      counted = rw (low, high, size) sum;
      narrow0 = rw low lt0;
      narrow1 = rw high lt1;
    }
