-- ===== src/Digest/Blake2.antt =====
-- runtime/blake2.c and runtime/caml/blake2.h: the context, `caml_BLAKE2Init`, `caml_BLAKE2Update`,
-- `caml_BLAKE2Final`, and `caml_blake2_string`, which runs them. `Compress` has the block function.
pub mod Compress
pub mod Rfc7693
pub mod Blocks
pub mod Reference
pub mod Stream
pub mod Session
use Prim.Native.Nat.{bit_or, bit_xor}
use trav_lang.Common.{
  ℕ, zero, suc, ◌+◌, ◌-◌, ◌*◌, ◌/◌, ◌%◌, ◌^◌, Bool, true, false, List, [], ◌∷◌, length, take, drop,
  get_or, set, replicate, blit, min, ltb, leb, if◌then◌else◌,
}
use trav_lang.Common.Words.{shr}
use Compress.{Bytes, Chaining, iv, compress}

-- `struct BLAKE2_context`: `h` and `len` are the chaining state.
pub record Blake2Context : Type 0 where
  pub chaining : Chaining
  pub numbytes : ℕ
  pub buffer : Bytes

-- `s->h[i] = iv[i]`, then `s->h[0] ^= 0x01010000 | (keylen << 8) | hashlen`.
abbrev pub initial_chaining : ℕ → ℕ → Chaining
initial_chaining hashlen keylen =
    let param = bit_or (bit_or 0x01010000 (keylen * 256)) hashlen in
    record { h = set iv 0 (bit_xor (get_or iv 0 0) param); len0 = 0; len1 = 0 }

-- `caml_BLAKE2Init`; the contents of the buffer before is a parameter.
unfoldable pub blake2_init : Bytes → ℕ → Bytes → Blake2Context
blake2_init garbage hashlen key =
    let start : Blake2Context = record {
      chaining = initial_chaining hashlen (length key);
      numbytes = 0;
      buffer = garbage;
    } in
    let keylen = if ltb 64 (length key) then 64 else length key in
    let keyed = blit (blit garbage 0 (take keylen key)) keylen (replicate (128 - keylen) 0) in
    if ltb 0 (length key) then record start { buffer = keyed; numbytes = 128 } else start

-- `while (len > BLAKE2_BLOCKSIZE)`, and the copy of the remaining data.
unfoldable pub blake2_chunks : ℕ → Blake2Context → Bytes → Blake2Context
blake2_chunks zero s data' = record s { buffer = blit s.buffer 0 data'; numbytes = length data' }
blake2_chunks (suc fuel) s data' =
    let s' = record s { chaining = compress s.chaining (take 128 data') 128 false } in
    let rest = blake2_chunks fuel s' (drop 128 data') in
    if ltb 128 (length data')
    then rest
    else record s { buffer = blit s.buffer 0 data'; numbytes = length data' }

-- `caml_BLAKE2Update`.
unfoldable pub blake2_update : Blake2Context → Bytes → Blake2Context
blake2_update s data' =
    let n = 128 - s.numbytes in
    let kept = record s {
      buffer = blit s.buffer s.numbytes data';
      numbytes = s.numbytes + length data';
    } in
    let filled = blit s.buffer s.numbytes (take n data') in
    let flushed = record s { buffer = filled; chaining = compress s.chaining filled 128 false } in
    let more = blake2_chunks (length data') flushed (drop n data') in
    let fresh = blake2_chunks (length data') s data' in
    if ltb 0 s.numbytes then if leb (length data') n then kept else more else fresh

-- `hash[i] = s->h[i / 8] >> (8 * (i % 8))`, an `unsigned char`, for `count` places from `i` on.
unfoldable pub extract : ℕ → ℕ → List ℕ → Bytes
extract zero i h = []
extract (suc count) i h = (shr (get_or h (i / 8) 0) (8 * (i % 8)) % 256) ∷ extract count (i + 1) h

-- `caml_BLAKE2Final`.
unfoldable pub blake2_final : Blake2Context → ℕ → Bytes
blake2_final s hashlen =
    let padded = blit s.buffer s.numbytes (replicate (128 - s.numbytes) 0) in
    let last = compress s.chaining padded s.numbytes true in extract hashlen 0 last.h

-- `caml_blake2_string`, at the range of the string that it digests.
unfoldable pub blake2_string : Bytes → ℕ → Bytes → Bytes → Bytes
unfolding blake2_init blake2_update blake2_final
blake2_string garbage hashlen key buf =
    blake2_final (blake2_update (blake2_init garbage hashlen key) buf) hashlen
