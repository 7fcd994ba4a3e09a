-- ===== src/Digest/Blake2/Rfc7693.antt =====
-- BLAKE2b as RFC 7693 describes it, against which the code is proved.
use Prim.Native.Nat.{bit_or, bit_xor}
use trav_lang.Common.{
  ℕ, zero, suc, ◌+◌, ◌-◌, ◌*◌, ◌/◌, ◌%◌, ◌^◌, Bool, true, false, List, [], ◌∷◌, ◌++◌, length, take,
  drop, replicate, get_or, set, ltb, if◌then◌else◌,
}
use trav_lang.Common.Words.{le_bytes, of_le_bytes}

-- Section 2.6: the initialization vector.
abbrev pub rfc_iv : List ℕ
rfc_iv =
    0x6a09e667f3bcc908 ∷ 0xbb67ae8584caa73b ∷ 0x3c6ef372fe94f82b ∷ 0xa54ff53a5f1d36f1
    ∷ 0x510e527fade682d1 ∷ 0x9b05688c2b3e6c1f ∷ 0x1f83d9abfb41bd6b ∷ 0x5be0cd19137e2179 ∷ []

-- Section 2.7: the ten message schedules.
abbrev pub rfc_sigma : List (List ℕ)
rfc_sigma =
    (0 ∷ 1 ∷ 2 ∷ 3 ∷ 4 ∷ 5 ∷ 6 ∷ 7 ∷ 8 ∷ 9 ∷ 10 ∷ 11 ∷ 12 ∷ 13 ∷ 14 ∷ 15 ∷ [])
    ∷ (14 ∷ 10 ∷ 4 ∷ 8 ∷ 9 ∷ 15 ∷ 13 ∷ 6 ∷ 1 ∷ 12 ∷ 0 ∷ 2 ∷ 11 ∷ 7 ∷ 5 ∷ 3 ∷ [])
    ∷ (11 ∷ 8 ∷ 12 ∷ 0 ∷ 5 ∷ 2 ∷ 15 ∷ 13 ∷ 10 ∷ 14 ∷ 3 ∷ 6 ∷ 7 ∷ 1 ∷ 9 ∷ 4 ∷ [])
    ∷ (7 ∷ 9 ∷ 3 ∷ 1 ∷ 13 ∷ 12 ∷ 11 ∷ 14 ∷ 2 ∷ 6 ∷ 5 ∷ 10 ∷ 4 ∷ 0 ∷ 15 ∷ 8 ∷ [])
    ∷ (9 ∷ 0 ∷ 5 ∷ 7 ∷ 2 ∷ 4 ∷ 10 ∷ 15 ∷ 14 ∷ 1 ∷ 11 ∷ 12 ∷ 6 ∷ 8 ∷ 3 ∷ 13 ∷ [])
    ∷ (2 ∷ 12 ∷ 6 ∷ 10 ∷ 0 ∷ 11 ∷ 8 ∷ 3 ∷ 4 ∷ 13 ∷ 7 ∷ 5 ∷ 15 ∷ 14 ∷ 1 ∷ 9 ∷ [])
    ∷ (12 ∷ 5 ∷ 1 ∷ 15 ∷ 14 ∷ 13 ∷ 4 ∷ 10 ∷ 0 ∷ 7 ∷ 6 ∷ 3 ∷ 9 ∷ 2 ∷ 8 ∷ 11 ∷ [])
    ∷ (13 ∷ 11 ∷ 7 ∷ 14 ∷ 12 ∷ 1 ∷ 3 ∷ 9 ∷ 5 ∷ 0 ∷ 15 ∷ 4 ∷ 8 ∷ 6 ∷ 2 ∷ 10 ∷ [])
    ∷ (6 ∷ 15 ∷ 14 ∷ 9 ∷ 11 ∷ 3 ∷ 0 ∷ 8 ∷ 12 ∷ 2 ∷ 13 ∷ 7 ∷ 1 ∷ 4 ∷ 10 ∷ 5 ∷ [])
    ∷ (10 ∷ 2 ∷ 8 ∷ 4 ∷ 7 ∷ 6 ∷ 1 ∷ 5 ∷ 15 ∷ 11 ∷ 9 ∷ 14 ∷ 3 ∷ 12 ∷ 13 ∷ 0 ∷ [])
    ∷ []

-- Section 2.3: rotation to the right.
abbrev pub turned_right : ℕ → ℕ → ℕ
turned_right x n = bit_or (x / 2 ^ n) (x * 2 ^ (64 - n) % 2 ^ 64)

-- Section 3.1: the mixing function G, with the rotations 32, 24, 16 and 63.
unfoldable pub mix_g : ℕ → ℕ → ℕ → ℕ → ℕ → ℕ → List ℕ → List ℕ
mix_g a b c d x y v =
    let va = (get_or v a 0 + get_or v b 0 + x) % 2 ^ 64 in
    let vd = turned_right (bit_xor (get_or v d 0) va) 32 in
    let vc = (get_or v c 0 + vd) % 2 ^ 64 in
    let vb = turned_right (bit_xor (get_or v b 0) vc) 24 in
    let va' = (va + vb + y) % 2 ^ 64 in
    let vd' = turned_right (bit_xor vd va') 16 in
    let vc' = (vc + vd') % 2 ^ 64 in
    let vb' = turned_right (bit_xor vb vc') 63 in set (set (set (set v a va') b vb') c vc') d vd'

abbrev pub message_word : List ℕ → ℕ → ℕ
message_word block i = of_le_bytes (take 8 (drop (8 * i) block))

-- Four mixes of columns and four of diagonals.
unfoldable pub rfc_round : List ℕ → List ℕ → List ℕ → List ℕ
unfolding mix_g
rfc_round block s v =
    let m : ℕ → ℕ = λ i. message_word block (get_or s i 0) in
    let v1 = mix_g 0 4 8 12 (m 0) (m 1) v in
    let v2 = mix_g 1 5 9 13 (m 2) (m 3) v1 in
    let v3 = mix_g 2 6 10 14 (m 4) (m 5) v2 in
    let v4 = mix_g 3 7 11 15 (m 6) (m 7) v3 in
    let v5 = mix_g 0 5 10 15 (m 8) (m 9) v4 in
    let v6 = mix_g 1 6 11 12 (m 10) (m 11) v5 in
    let v7 = mix_g 2 7 8 13 (m 12) (m 13) v6 in mix_g 3 4 9 14 (m 14) (m 15) v7

-- The last `left` rounds, from round `i` on.
unfoldable pub rfc_rounds : ℕ → ℕ → List ℕ → List ℕ → List ℕ
unfolding rfc_round
rfc_rounds zero i block v = v
rfc_rounds (suc left) i block v =
    rfc_rounds left (i + 1) block (rfc_round block (get_or rfc_sigma (i % 10) []) v)

abbrev pub xor3 : List ℕ → List ℕ → List ℕ → List ℕ
xor3 (x ∷ h) (l ∷ lo) (u ∷ hi) = bit_xor x (bit_xor l u) ∷ xor3 h lo hi
xor3 _ _ _ = []

-- Section 3.2: the compression function F, with the offset counter t and the final block flag.
unfoldable pub rfc_f : List ℕ → List ℕ → ℕ → Bool → List ℕ
unfolding rfc_rounds
rfc_f h block t last =
    let v12 = bit_xor (get_or rfc_iv 4 0) (t % 2 ^ 64) in
    let v13 = bit_xor (get_or rfc_iv 5 0) (t / 2 ^ 64 % 2 ^ 64) in
    let v14 = if last then bit_xor (get_or rfc_iv 6 0) 0xffffffffffffffff else get_or rfc_iv 6 0 in
    let v = h ++ (take 4 rfc_iv ++ (v12 ∷ v13 ∷ v14 ∷ get_or rfc_iv 7 0 ∷ [])) in
    let r = rfc_rounds 12 0 block v in xor3 h (take 8 r) (drop 8 r)

-- Section 2.5: the first word of the parameter block has the bytes nn, kk, 1 and 1.
abbrev pub rfc_start : ℕ → ℕ → List ℕ
rfc_start nn kk = set rfc_iv 0 (bit_xor (get_or rfc_iv 0 0) (of_le_bytes (nn ∷ kk ∷ 1 ∷ 1 ∷ [])))

-- Section 3.3: the blocks before the last one, from offset t on.
unfoldable pub rfc_blocks : ℕ → ℕ → List ℕ → List ℕ → List ℕ
unfolding rfc_f
rfc_blocks zero t h m = h
rfc_blocks (suc k) t h m =
    rfc_blocks k (t + 128) (rfc_f h (take 128 m) (t + 128) false) (drop 128 m)

-- Padding with zeros to a block.
abbrev pub zero_padded : List ℕ → List ℕ
zero_padded p = p ++ replicate (128 - length p) 0

-- A key makes a block of its own.
abbrev pub rfc_key_block : List ℕ → List ℕ
rfc_key_block key = if ltb 0 (length key) then zero_padded key else []

-- The first bytes of the words, low byte first, from byte i on.
unfoldable pub rfc_bytes : ℕ → ℕ → List ℕ → List ℕ
rfc_bytes zero i h = []
rfc_bytes (suc count) i h =
    get_or (le_bytes 8 (get_or h (i / 8) 0)) (i % 8) 0 ∷ rfc_bytes count (i + 1) h

-- The digest of nn bytes of the blocks of a message, for a key of kk bytes that makes the first block.
unfoldable pub rfc_hash : ℕ → ℕ → List ℕ → List ℕ
unfolding rfc_blocks rfc_bytes
rfc_hash nn kk m =
    let before = (length m - 1) / 128 in
    let h = rfc_blocks before 0 (rfc_start nn kk) m in
    rfc_bytes nn 0 (rfc_f h (zero_padded (drop (128 * before) m)) (length m) true)

-- The digest of nn bytes of a message, with a key or without.
unfoldable pub blake2_reference : ℕ → List ℕ → List ℕ → List ℕ
unfolding rfc_hash
blake2_reference nn key message = rfc_hash nn (length key) (rfc_key_block key ++ message)
