-- ===== src/Digest/Blake2/Stream/Update.antt =====
-- A context holds a message; `caml_BLAKE2Update` adds bytes to it.
use trav_lang.Common.{
  ◌+◌, ◌-◌, ◌*◌, ◌≤◌, ◌<◌, ◌≡◌, sym, ◌∙◌, ap, inl, inr, [], ◌∷◌, ◌++◌, length, take, drop, blit,
  length-append, length-take, length-drop, take_past, drop_past, take_all, drop_prefix, drop-drop,
  length-blit, take-blit, fold_blocks_prefix, fold_blocks-add, Bool-cases, ltb, leb, le→ltb, lt→ltb,
  true, leb→le, leb→lt, arith,
}
use trav_lang.Digest.Blake2.Compress.{Bytes, Chaining}
use trav_lang.Digest.Blake2.Reference.{middle, before_last, absorb, last_of}
use trav_lang.Digest.Blake2.Stream.{Absorbed, absorb_step, kept-Absorbed, chunks-Absorbed}
use trav_lang.Digest.Blake2.{Blake2Context, blake2_chunks, blake2_update}

-- The data does not fit behind the pending bytes: fill the buffer, compress it, and go on.
module _ (c : Blake2Context) (p m : Bytes) (full : length c.buffer ≡ 128) (le : length p ≤ 128)
    (starts : take (length p) c.buffer ≡ p) (over : 128 - length p < length m) where
  filled_block : blit c.buffer (length p) (take (128 - length p) m) ≡ take 128 (p ++ m)
  filled_block =
      let n = 128 - length p in
      let filled = blit c.buffer (length p) (take n m) in
      let k : length (take n m) ≡ n = rw (length-take n m) (omega arith) in
      let size : length filled ≡ 128 =
        length-blit c.buffer (take n m) (length p) (omega arith) ∙ full in
      let all : 128 ≡ length p + length (take n m) = omega arith in
      sym (take_all 128 filled (omega arith))
      ∙ ap (λ i. take i filled) all
      ∙ take-blit c.buffer (take n m) (length p) (omega arith)
      ∙ ap (λ b. b ++ take n m) starts
      ∙ sym (take_past 128 p m le)

  more-Absorbed :
      let n = 128 - length p in
      let filled = blit c.buffer (length p) (take n m) in
      let c' : Blake2Context = record c {
        buffer = filled;
        chaining = middle c.chaining filled;
        numbytes = length p;
      } in
      Absorbed c.chaining (p ++ m) (blake2_chunks (length m) c' (drop n m))
  more-Absorbed =
      let n = 128 - length p in
      let filled = blit c.buffer (length p) (take n m) in
      let c' : Blake2Context = record c {
        buffer = filled;
        chaining = middle c.chaining filled;
        numbytes = length p;
      } in
      let k : length (take n m) ≡ n = rw (length-take n m) (omega arith) in
      let w : length (p ++ m) ≡ length p + length m = length-append p m in
      let size : length filled ≡ 128 =
        length-blit c.buffer (take n m) (length p) (omega arith) ∙ full in
      let rest : drop n m ≡ drop 128 (p ++ m) = sym (drop_past 128 p m le) in
      let a = chunks-Absorbed (length m) c' (drop n m) size (rw (length-drop n m) (omega arith)) in
      let (f, t) = absorb_step c.chaining (p ++ m) (omega arith) in
      record {
        whole = a.whole;
        folded =
            a.folded
            ∙ ap (λ b. absorb (middle c.chaining b) (drop n m)) filled_block
            ∙ ap (λ b. absorb (middle c.chaining (take 128 (p ++ m))) b) rest
            ∙ f;
        counted = a.counted ∙ ap (λ b. length (last_of b)) rest ∙ ap length t;
        pending = a.pending ∙ ap last_of rest ∙ t;
      }

-- All the ways together: the pending bytes and the data are taken in as one.
update-Absorbed :
    (c : Blake2Context) (p m : Bytes)
    → length c.buffer ≡ 128
    → length p ≤ 128
    → c.numbytes ≡ length p
    → take (length p) c.buffer ≡ p
    → Absorbed c.chaining (p ++ m) (blake2_update c m)
unfolding blake2_update
update-Absorbed c [] m full le count starts =
    rw (le→ltb 0 c.numbytes (omega arith)) (chunks-Absorbed (length m) c m full (omega arith))
update-Absorbed c (x ∷ p) m full le count starts =
    let w = x ∷ p in
    let pos : ltb 0 c.numbytes ≡ true = lt→ltb 0 c.numbytes (omega arith) in
    elim (Bool-cases (leb (length m) (128 - length w))) [
      | inl fits ↦
          rw pos
            (simp (count, fits) (kept-Absorbed c w m full (omega (arith, leb→le _ _ fits)) starts))
      | inr over ↦
          rw pos (simp (count, over) (more-Absorbed c w m full le starts (leb→lt _ _ over)))
    ]

-- Absorbing in two parts: the blocks of the first message, then what follows them.
module _ (m d : Bytes) where
  pub parts_sizes :
      (length (last_of m) ≡ length m - 128 * before_last (length m))
      × (before_last (length (m ++ d))
          ≡ before_last (length m) + before_last (length (last_of m ++ d)))
      × (128 * before_last (length m) ≤ length m)
  parts_sizes =
      let n : length (last_of m) ≡ length m - 128 * before_last (length m) =
        length-drop (128 * before_last (length m)) m in
      let a : length (m ++ d) ≡ length m + length d = length-append m d in
      let b : length (last_of m ++ d) ≡ length (last_of m) + length d =
        length-append (last_of m) d in
      omega arith

  pub absorb-append : (s : Chaining) → absorb (absorb s m) (last_of m ++ d) ≡ absorb s (m ++ d)
  absorb-append s =
      let (n, q, le) = parts_sizes in
      let k = before_last (length m) in
      let j = before_last (length (last_of m ++ d)) in
      sym (
        rw (
          q,
          fold_blocks-add 128 middle k j s (m ++ d),
          fold_blocks_prefix 128 middle k s m d le,
          drop_prefix (128 * k) m d le,
        ))

  pub last_of-append : last_of (last_of m ++ d) ≡ last_of (m ++ d)
  last_of-append =
      let (n, q, le) = parts_sizes in
      let k = before_last (length m) in
      let j = before_last (length (last_of m ++ d)) in
      let e : 128 * (k + j) ≡ 128 * k + 128 * j = omega arith in
      sym (rw (q, e, ← drop-drop (128 * k) (128 * j) (m ++ d), drop_prefix (128 * k) m d le))

-- Every call of `caml_BLAKE2Update` appends its data to the message that the context holds.
pub update-appends :
    (s : Chaining) (c : Blake2Context) (m d : Bytes)
    → Absorbed s m c
    → Absorbed s (m ++ d) (blake2_update c d)
update-appends s c m d h =
    let (n, q, le) = parts_sizes m d in
    let starts : take (length (last_of m)) c.buffer ≡ last_of m =
      ap (λ k. take k c.buffer) (sym h.counted) ∙ h.pending in
    let a = update-Absorbed c (last_of m) d h.whole (omega arith) h.counted starts in
    let t = last_of-append m d in
    record {
      whole = a.whole;
      folded = a.folded ∙ ap (λ b. absorb b (last_of m ++ d)) h.folded ∙ absorb-append m d s;
      counted = a.counted ∙ ap length t;
      pending = a.pending ∙ t;
    }
