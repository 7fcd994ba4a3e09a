-- ===== src/Digest/Blake2/Stream.antt =====
-- `caml_BLAKE2Update` on a context that holds a message. The last block stays in the buffer.
pub mod Update
use native.Mathlib.Nat.{zero-add}
use trav_lang.Common.{
  ℕ, zero, suc, ◌+◌, ◌-◌, ◌*◌, ◌/◌, ◌≤◌, ◌<◌, ◌≡◌, refl, sym, ◌∙◌, ap, inl, inr, [], ◌++◌, length,
  take, drop, blit, length-append, length-take, length-drop, take_past, drop_past, take_all,
  take-append, drop-drop, length-blit, take-blit, blit_whole, fold_blocks, Bool-cases, ltb, leb,
  ltb→lt, ltb→le, true, false, arith,
}
use trav_lang.Digest.Blake2.Compress.{Bytes, Chaining, compress}
use trav_lang.Digest.Blake2.Reference.{middle, before_last, absorb, last_of}
use trav_lang.Digest.Blake2.{Blake2Context, blake2_chunks}

-- What a context says of the bytes `m`, taken in from the state `s` on.
pub record Absorbed (s : Chaining) (m : Bytes) (c : Blake2Context) : Type 0 where
  pub whole : length c.buffer ≡ 128
  pub folded : c.chaining ≡ absorb s m
  pub counted : c.numbytes ≡ length (last_of m)
  pub pending : take c.numbytes c.buffer ≡ last_of m

-- One block with data behind it, then the rest.
absorb_step :
    (s : Chaining) (m : Bytes)
    → 128 < length m
    → (absorb (middle s (take 128 m)) (drop 128 m) ≡ absorb s m)
      × (last_of (drop 128 m) ≡ last_of m)
unfolding fold_blocks
absorb_step s m lt =
    let k = before_last (length m - 128) in
    let e : before_last (length m) ≡ suc k = omega arith in
    let t : 128 + 128 * k ≡ 128 * suc k = omega arith in
    (rw (length-drop 128 m, e), rw (length-drop 128 m, e, drop-drop 128 (128 * k) m, t))

-- Data that fits behind a pending part in the buffer.
pub kept-Absorbed :
    (c : Blake2Context) (p m : Bytes)
    → length c.buffer ≡ 128
    → length p + length m ≤ 128
    → take (length p) c.buffer ≡ p
    → Absorbed c.chaining
        (p ++ m)
        (record c { buffer = blit c.buffer (length p) m; numbytes = length p + length m })
unfolding fold_blocks
kept-Absorbed c p m full le starts =
    let n : length (p ++ m) ≡ length p + length m = length-append p m in
    let e : before_last (length (p ++ m)) ≡ 0 = omega arith in
    record {
      whole = length-blit c.buffer m (length p) (omega arith) ∙ full;
      folded = rw e;
      counted = rw e (sym n);
      pending = rw (e, take-blit c.buffer m (length p) (omega arith), starts);
    }

-- Data that fits in an empty buffer.
copy-Absorbed :
    (c : Blake2Context) (m : Bytes)
    → length c.buffer ≡ 128
    → length m ≤ 128
    → Absorbed c.chaining m (record c { buffer = blit c.buffer 0 m; numbytes = length m })
copy-Absorbed c m full le =
    let k = kept-Absorbed c [] m full (omega arith) refl in rw (zero-add (length m)) at k

-- The loop over whole blocks, with enough fuel, takes in all the data.
pub chunks-Absorbed :
    (fuel : ℕ) (c : Blake2Context) (m : Bytes)
    → length c.buffer ≡ 128
    → length m ≤ fuel
    → Absorbed c.chaining m (blake2_chunks fuel c m)
unfolding blake2_chunks
chunks-Absorbed zero c m full le = copy-Absorbed c m full (omega arith)
chunks-Absorbed (suc fuel) c m full le = elim (Bool-cases (ltb 128 (length m))) [
  | inl more ↦
      let big = ltb→lt 128 (length m) more in
      let c' : Blake2Context = record c { chaining = middle c.chaining (take 128 m) } in
      let a = chunks-Absorbed fuel c' (drop 128 m) full (rw (length-drop 128 m) (omega arith)) in
      let (f, t) = absorb_step c.chaining m big in
      rw more (record {
        whole = a.whole;
        folded = a.folded ∙ f;
        counted = a.counted ∙ ap length t;
        pending = a.pending ∙ t;
      })
  | inr done ↦ rw done (copy-Absorbed c m full (ltb→le 128 (length m) done))
]
