-- ===== src/Digest/Blake2/Reference.antt =====
-- A whole message in blocks of 128 bytes: an optional block with the key, then the message; the last block,
-- which may be whole, is padded with zeros and marked. With the block function this is BLAKE2b of RFC 7693.
use Prim.Native.Nat.{bit_or, bit_xor}
use trav_lang.Common.Bits.{or_sum}
use trav_lang.Common.Words.{of_le_bytes}
use trav_lang.Digest.Blake2.Compress.{iv}
use trav_lang.Digest.Blake2.Rfc7693.{
  blake2_reference, rfc_hash, rfc_start, rfc_key_block, rfc_f, rfc_bytes, rfc_blocks,
}
use trav_lang.Digest.Blake2.Blocks.{fold-rfc_blocks, compress-rfc_f, extract-rfc_bytes}
use trav_lang.Common.{
  ℕ, ◌+◌, ◌^◌, ◌≤◌, ◌<◌, ◌≡◌, refl, ap, ◌∙◌, ◌∷◌, get_or, set, take_all, length-drop, arith, ◌-◌,
  ◌*◌, ◌/◌, true, false, [], ◌++◌, length, take, drop, replicate, ltb, if◌then◌else◌, fold_blocks,
}
use trav_lang.Digest.Blake2.Compress.{Bytes, Chaining, compress}
use trav_lang.Digest.Blake2.{initial_chaining, extract}

abbrev pub middle : Chaining → Bytes → Chaining
middle s b = compress s b 128 false

-- The blocks before the last, which is never empty unless the message is.
abbrev pub before_last : ℕ → ℕ
before_last n = (n - 1) / 128

abbrev pub absorb : Chaining → Bytes → Chaining
absorb s m = fold_blocks 128 middle (before_last (length m)) s m

abbrev pub last_of : Bytes → Bytes
last_of m = drop (128 * before_last (length m)) m

abbrev pub pad_block : Bytes → Bytes
pad_block p = p ++ replicate (128 - length p) 0

-- The first block of a keyed digest: at most 64 bytes of the key.
abbrev pub key_block : Bytes → Bytes
key_block key = if ltb 0 (length key) then pad_block (take 64 key) else []

-- What the streaming code is to give, by the block function of blake2.c.
unfoldable pub blake2_streamed : ℕ → Bytes → Bytes → Bytes
blake2_streamed hashlen key m =
    let all = key_block key ++ m in
    let s = absorb (initial_chaining hashlen (length key)) all in
    let last = compress s (pad_block (last_of all)) (length (last_of all)) true in
    extract hashlen 0 last.h

start_word :
    (nn kk : ℕ)
    → nn < 2 ^ 8
    → kk < 2 ^ 8
    → bit_or (bit_or 0x01010000 (kk * 256)) nn ≡ of_le_bytes (nn ∷ kk ∷ 1 ∷ 1 ∷ [])
start_word nn kk h k =
    let inner : bit_or 0x01010000 (kk * 256) ≡ 0x01010000 + kk * 256 =
      or_sum 16 0x101 (kk * 256) (omega arith) in
    let split : 0x01010000 + kk * 256 ≡ (0x10100 + kk) * 2 ^ 8 = omega arith in
    ap (λ x. bit_or x nn) (inner ∙ split) ∙ or_sum 8 (0x10100 + kk) nn h ∙ omega arith

initial-rfc_start :
    (nn kk : ℕ) → nn < 2 ^ 8 → kk < 2 ^ 8 → (initial_chaining nn kk).h ≡ rfc_start nn kk
initial-rfc_start nn kk h k = ap (λ x. set iv 0 (bit_xor (get_or iv 0 0) x)) (start_word nn kk h k)

key_block-rfc_key_block : (key : Bytes) → length key ≤ 64 → key_block key ≡ rfc_key_block key
key_block-rfc_key_block key h = rw (take_all 64 key h) refl

last_small : (n : ℕ) → n - 128 * ((n - 1) / 128) ≤ 128
last_small n = omega arith

all_counted : (n : ℕ) → 0 + 128 * ((n - 1) / 128) + (n - 128 * ((n - 1) / 128)) ≡ n
all_counted n = omega arith

streamed-rfc_hash :
    (hashlen kk : ℕ) (all : Bytes)
    → hashlen < 2 ^ 8
    → kk < 2 ^ 8
    → extract hashlen 0
        (compress
          (absorb (initial_chaining hashlen kk) all)
          (pad_block (last_of all))
          (length (last_of all))
          true).h
      ≡ rfc_hash hashlen kk all
unfolding rfc_hash
streamed-rfc_hash hashlen kk all h k =
    let start : Chaining = initial_chaining hashlen kk in
    let before = before_last (length all) in
    let f = fold-rfc_blocks before 0 start all (refl, refl) in
    let s : Chaining = absorb start all in
    let n = length (last_of all) in
    let l : n ≡ length all - 128 * before = length-drop (128 * before) all in
    let small : n ≤ 128 = rw l (last_small (length all)) in
    let t : 0 + 128 * before + n ≡ length all = rw l (all_counted (length all)) in
    extract-rfc_bytes hashlen 0 (compress s (pad_block (last_of all)) n true).h
    ∙ ap (rfc_bytes hashlen 0) (
        compress-rfc_f (0 + 128 * before) n s (pad_block (last_of all)) true small (f.1)
        ∙ ap (λ x. rfc_f s.h (pad_block (last_of all)) x true) t
        ∙ ap (λ x. rfc_f x (pad_block (last_of all)) (length all) true)
            (f.0 ∙ ap (λ x. rfc_blocks before 0 x all) (initial-rfc_start hashlen kk h k)))

-- For keys of at most 64 bytes this is the BLAKE2b of RFC 7693.
pub blake2_streamed-reference :
    (hashlen : ℕ) (key m : Bytes)
    → hashlen ≤ 64
    → length key ≤ 64
    → blake2_streamed hashlen key m ≡ blake2_reference hashlen key m
unfolding blake2_streamed blake2_reference
blake2_streamed-reference hashlen key m h k =
    streamed-rfc_hash hashlen (length key) (key_block key ++ m) (omega arith) (omega arith)
    ∙ ap (λ b. rfc_hash hashlen (length key) (b ++ m)) (key_block-rfc_key_block key k)
