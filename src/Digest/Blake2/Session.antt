-- ===== src/Digest/Blake2/Session.antt =====
-- Whole digests: `caml_BLAKE2Init` with a key or without, any number of calls of `caml_BLAKE2Update`,
-- and `caml_BLAKE2Final`.
use mathlib.Core.List.{flatten}
use trav_lang.Common.{
  ℕ, suc, ◌+◌, ◌-◌, ◌*◌, ◌≤◌, ◌≡◌, refl, sym, ◌∙◌, ap, inl, inr, List, [], ◌∷◌, ◌++◌, true,
  append_assoc, append-nil, length, take, blit, replicate, length-append, length-take, length-drop,
  length-replicate, length-blit, take-blit, take_all, blit_tail, fold_blocks, Bool-cases, ltb,
  ltb→lt, ltb→le, lt→ltb, min, arith,
}
use trav_lang.Digest.Blake2.Compress.{Bytes, Chaining, compress}
use trav_lang.Digest.Blake2.Reference.{
  before_last, absorb, last_of, pad_block, key_block, blake2_streamed, blake2_streamed-reference,
}
use trav_lang.Digest.Blake2.Rfc7693.{blake2_reference}
use trav_lang.Digest.Blake2.Stream.{Absorbed}
use trav_lang.Digest.Blake2.Stream.Update.{update-appends}
use trav_lang.Digest.Blake2.{
  Blake2Context, initial_chaining, blake2_init, blake2_update, extract, blake2_final,
}

-- One call after another.
unfoldable pub updates : Blake2Context → List Bytes → Blake2Context
updates c [] = c
updates c (d ∷ ds) = updates (blake2_update c d) ds

-- The key and zeros fill the buffer.
keyed_buffer :
    (garbage key : Bytes) (k : ℕ)
    → length garbage ≡ 128
    → k ≤ 64
    → length (take 64 key) ≡ k
    → take k key ≡ take 64 key
    → blit (blit garbage 0 (take k key)) k (replicate (128 - k) 0) ≡ pad_block (take 64 key)
keyed_buffer garbage key k full le e same =
    let z : length (replicate {A = ℕ} (128 - k) 0) ≡ 128 - k = length-replicate (128 - k) 0 in
    let lk : length (take k key) ≡ k = ap length same ∙ e in
    let b : length (blit garbage 0 (take k key)) ≡ 128 =
      length-blit garbage (take k key) 0 (omega arith) ∙ full in
    let t : take k (blit garbage 0 (take k key)) ≡ take 64 key =
      let i : k ≡ 0 + length (take k key) = omega arith in
      ap (λ j. take j (blit garbage 0 (take k key))) i
      ∙ take-blit garbage (take k key) 0 (omega arith)
      ∙ same in
    blit_tail _ (take 64 key) (replicate (128 - k) 0) k (omega arith) t
    ∙ ap (λ j. take 64 key ++ replicate (128 - j) 0) (sym e)

-- A buffer with the key's block in it holds that block.
key-Absorbed :
    (s : Chaining) (garbage key : Bytes) (k : ℕ)
    → length garbage ≡ 128
    → k ≤ 64
    → length (take 64 key) ≡ k
    → take k key ≡ take 64 key
    → Absorbed s (pad_block (take 64 key)) (record {
      chaining = s;
      numbytes = 128;
      buffer = blit (blit garbage 0 (take k key)) k (replicate (128 - k) 0);
    })
unfolding fold_blocks
key-Absorbed s garbage key k full le e same =
    let b = keyed_buffer garbage key k full le e same in
    let z : length (replicate {A = ℕ} (128 - length (take 64 key)) 0) ≡ 128 - k =
      length-replicate _ 0 ∙ ap (λ j. 128 - j) e in
    let n : length (pad_block (take 64 key)) ≡ 128 = length-append (take 64 key) _ ∙ omega arith in
    let q : before_last (length (pad_block (take 64 key))) ≡ 0 = rw n in
    record {
      whole = ap length b ∙ n;
      folded = rw q;
      counted = rw q (sym n);
      pending = rw q (ap (take 128) b ∙ take_all 128 _ (omega arith));
    }

init-Absorbed :
    (garbage : Bytes) (hashlen : ℕ) (key : Bytes)
    → length garbage ≡ 128
    → Absorbed
        (initial_chaining hashlen (length key))
        (key_block key)
        (blake2_init garbage hashlen key)
unfolding blake2_init fold_blocks
init-Absorbed garbage hashlen [] full = record {
  whole = full;
  folded = refl;
  counted = refl;
  pending = refl;
}
init-Absorbed garbage hashlen (x ∷ key) full =
    let w = x ∷ key in
    let pos : ltb 0 (suc (length key)) ≡ true = lt→ltb 0 _ (omega arith) in
    let n : length (take 64 w) ≡ min 64 (length w) = length-take 64 w in
    let s = initial_chaining hashlen (length w) in
    elim (Bool-cases (ltb 64 (suc (length key)))) [
      | inl long ↦
          let lt = ltb→lt 64 (suc (length key)) long in
          rw (pos, long) (key-Absorbed s garbage w 64 full (omega arith) (omega arith) refl)
      | inr short ↦
          let le = ltb→le 64 (suc (length key)) short in
          let same : take (length w) w ≡ take 64 w =
            take_all (length w) w (omega arith) ∙ sym (take_all 64 w (omega arith)) in
          rw (pos, short) (key-Absorbed s garbage w (length w) full le (omega arith) same)
    ]

-- `caml_BLAKE2Final` marks the last block, padded with zeros.
final-streamed :
    (s : Chaining) (c : Blake2Context) (m : Bytes) (hashlen : ℕ)
    → Absorbed s m c
    → length (last_of m) ≤ 128
    → blake2_final c hashlen
      ≡ extract hashlen 0
          (compress (absorb s m) (pad_block (last_of m)) (length (last_of m)) true).h
unfolding blake2_final
final-streamed s c m hashlen a le =
    let z : length (replicate {A = ℕ} (128 - c.numbytes) 0) ≡ 128 - c.numbytes =
      length-replicate (128 - c.numbytes) 0 in
    let n = a.counted in
    let padded =
      blit_tail c.buffer (last_of m) (replicate (128 - c.numbytes) 0) c.numbytes
        (a.whole ∙ omega arith) a.pending in
    rw (padded, a.folded)
      (ap
        (λ k.
          extract hashlen 0 (compress (absorb s m) (last_of m ++ replicate (128 - k) 0) k true).h)
        n)

updates-Absorbed :
    (s : Chaining) (c : Blake2Context) (m : Bytes) (ds : List Bytes)
    → Absorbed s m c
    → Absorbed s (m ++ flatten ds) (updates c ds)
unfolding updates flatten
updates-Absorbed s c m [] a = rw (append-nil m) a
updates-Absorbed s c m (d ∷ ds) a =
    rw (← append_assoc m d (flatten ds))
      (updates-Absorbed s (blake2_update c d) (m ++ d) ds (update-appends s c m d a))

-- For any key the digest of a stream depends on the parameters and the bytes alone.
stream-streamed :
    (garbage : Bytes) (hashlen : ℕ) (key : Bytes) (ds : List Bytes)
    → length garbage ≡ 128
    → blake2_final (updates (blake2_init garbage hashlen key) ds) hashlen
      ≡ blake2_streamed hashlen key (flatten ds)
unfolding blake2_streamed
stream-streamed garbage hashlen key ds full =
    let all = key_block key ++ flatten ds in
    let le : length (last_of all) ≤ 128 =
      rw (length-drop (128 * before_last (length all)) all) (omega arith) in
    final-streamed (initial_chaining hashlen (length key)) _ all hashlen
      (updates-Absorbed (initial_chaining hashlen (length key)) _ (key_block key) ds
        (init-Absorbed garbage hashlen key full))
      le

-- The digest of a stream depends on the parameters and on the bytes alone, not on how they are cut into
-- calls of `caml_BLAKE2Update` nor on what the buffer of 128 bytes held before: for a digest and a key of at
-- most 64 bytes it is the BLAKE2b of RFC 7693 of all the bytes in order.
pub blake2_stream-reference :
    (garbage : Bytes) (hashlen : ℕ) (key : Bytes) (ds : List Bytes)
    → length garbage ≡ 128
    → hashlen ≤ 64
    → length key ≤ 64
    → blake2_final (updates (blake2_init garbage hashlen key) ds) hashlen
      ≡ blake2_reference hashlen key (flatten ds)
blake2_stream-reference garbage hashlen key ds full h k =
    stream-streamed garbage hashlen key ds full
    ∙ blake2_streamed-reference hashlen key (flatten ds) h k
