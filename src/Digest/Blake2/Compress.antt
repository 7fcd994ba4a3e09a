-- ===== src/Digest/Blake2/Compress.antt =====
-- runtime/blake2.c: `U8TO64LE`, `ROTR64`, the constants, `MIX2B` and `caml_BLAKE2Compress`.
-- A `uint64_t` is a number below 2 ^ 64. The sixteen words v0 to v15 are a list.
use Prim.Native.Nat.{bit_or, bit_xor}
use trav_lang.Common.{
  ℕ, ◌+◌, ◌-◌, ◌*◌, ◌%◌, ◌^◌, Bool, List, [], ◌∷◌, ◌++◌, take, drop, get_or, set, ltb,
  if◌then◌else◌,
}
use trav_lang.Common.Words.{shl, shr, complement, of_le_bytes}

abbrev pub Bytes : Type 0
Bytes = List ℕ

-- `h[8]` and `len[2]` of `struct BLAKE2_context`.
pub record Chaining : Type 0 where
  pub h : List ℕ
  pub len0 : ℕ
  pub len1 : ℕ

unfoldable pub u8_to_64le : Bytes → ℕ → ℕ
u8_to_64le src i = of_le_bytes (take 8 (drop (8 * i) src))

unfoldable pub rotr64 : ℕ → ℕ → ℕ
rotr64 x amount = bit_or (shr x amount) (shl 64 x (64 - amount))

abbrev pub iv : List ℕ
iv =
    0x6a09e667f3bcc908 ∷ 0xbb67ae8584caa73b ∷ 0x3c6ef372fe94f82b ∷ 0xa54ff53a5f1d36f1
    ∷ 0x510e527fade682d1 ∷ 0x9b05688c2b3e6c1f ∷ 0x1f83d9abfb41bd6b ∷ 0x5be0cd19137e2179 ∷ []

unfoldable pub sigma : List (List ℕ)
sigma =
    (0 ∷ 1 ∷ 2 ∷ 3 ∷ 4 ∷ 5 ∷ 6 ∷ 7 ∷ 8 ∷ 9 ∷ 10 ∷ 11 ∷ 12 ∷ 13 ∷ 14 ∷ 15 ∷ [])
    ∷ (14 ∷ 10 ∷ 4 ∷ 8 ∷ 9 ∷ 15 ∷ 13 ∷ 6 ∷ 1 ∷ 12 ∷ 0 ∷ 2 ∷ 11 ∷ 7 ∷ 5 ∷ 3 ∷ [])
    ∷ (11 ∷ 8 ∷ 12 ∷ 0 ∷ 5 ∷ 2 ∷ 15 ∷ 13 ∷ 10 ∷ 14 ∷ 3 ∷ 6 ∷ 7 ∷ 1 ∷ 9 ∷ 4 ∷ [])
    ∷ (7 ∷ 9 ∷ 3 ∷ 1 ∷ 13 ∷ 12 ∷ 11 ∷ 14 ∷ 2 ∷ 6 ∷ 5 ∷ 10 ∷ 4 ∷ 0 ∷ 15 ∷ 8 ∷ [])
    ∷ (9 ∷ 0 ∷ 5 ∷ 7 ∷ 2 ∷ 4 ∷ 10 ∷ 15 ∷ 14 ∷ 1 ∷ 11 ∷ 12 ∷ 6 ∷ 8 ∷ 3 ∷ 13 ∷ [])
    ∷ (2 ∷ 12 ∷ 6 ∷ 10 ∷ 0 ∷ 11 ∷ 8 ∷ 3 ∷ 4 ∷ 13 ∷ 7 ∷ 5 ∷ 15 ∷ 14 ∷ 1 ∷ 9 ∷ [])
    ∷ (12 ∷ 5 ∷ 1 ∷ 15 ∷ 14 ∷ 13 ∷ 4 ∷ 10 ∷ 0 ∷ 7 ∷ 6 ∷ 3 ∷ 9 ∷ 2 ∷ 8 ∷ 11 ∷ [])
    ∷ (13 ∷ 11 ∷ 7 ∷ 14 ∷ 12 ∷ 1 ∷ 3 ∷ 9 ∷ 5 ∷ 0 ∷ 15 ∷ 4 ∷ 8 ∷ 6 ∷ 2 ∷ 10 ∷ [])
    ∷ (6 ∷ 15 ∷ 14 ∷ 9 ∷ 11 ∷ 3 ∷ 0 ∷ 8 ∷ 12 ∷ 2 ∷ 13 ∷ 7 ∷ 1 ∷ 4 ∷ 10 ∷ 5 ∷ [])
    ∷ (10 ∷ 2 ∷ 8 ∷ 4 ∷ 7 ∷ 6 ∷ 1 ∷ 5 ∷ 15 ∷ 11 ∷ 9 ∷ 14 ∷ 3 ∷ 12 ∷ 13 ∷ 0 ∷ [])
    ∷ (0 ∷ 1 ∷ 2 ∷ 3 ∷ 4 ∷ 5 ∷ 6 ∷ 7 ∷ 8 ∷ 9 ∷ 10 ∷ 11 ∷ 12 ∷ 13 ∷ 14 ∷ 15 ∷ [])
    ∷ (14 ∷ 10 ∷ 4 ∷ 8 ∷ 9 ∷ 15 ∷ 13 ∷ 6 ∷ 1 ∷ 12 ∷ 0 ∷ 2 ∷ 11 ∷ 7 ∷ 5 ∷ 3 ∷ [])
    ∷ []

-- `MIX2B(va, vb, vc, vd, x, y)` on the words at the places a, b, c and d.
unfoldable pub mix2b : ℕ → ℕ → ℕ → ℕ → ℕ → ℕ → List ℕ → List ℕ
unfolding rotr64
mix2b a b c d x y v =
    let va = (get_or v a 0 + (get_or v b 0 + x)) % 2 ^ 64 in
    let vd = rotr64 (bit_xor (get_or v d 0) va) 32 in
    let vc = (get_or v c 0 + vd) % 2 ^ 64 in
    let vb = rotr64 (bit_xor (get_or v b 0) vc) 24 in
    let va' = (va + (vb + y)) % 2 ^ 64 in
    let vd' = rotr64 (bit_xor vd va') 16 in
    let vc' = (vc + vd') % 2 ^ 64 in
    let vb' = rotr64 (bit_xor vb vc') 63 in set (set (set (set v a va') b vb') c vc') d vd'

-- One round: the eight mixes, in the order of the source; `word i` is `m[sigma[i]]`.
unfoldable pub mix_round : Bytes → List ℕ → List ℕ → List ℕ
unfolding mix2b u8_to_64le
mix_round data' row v =
    let word : ℕ → ℕ = λ i. u8_to_64le data' (get_or row i 0) in
    let v1 = mix2b 0 4 8 12 (word 0) (word 1) v in
    let v2 = mix2b 1 5 9 13 (word 2) (word 3) v1 in
    let v3 = mix2b 2 6 10 14 (word 4) (word 5) v2 in
    let v4 = mix2b 3 7 11 15 (word 6) (word 7) v3 in
    let v5 = mix2b 0 5 10 15 (word 8) (word 9) v4 in
    let v6 = mix2b 1 6 11 12 (word 10) (word 11) v5 in
    let v7 = mix2b 2 7 8 13 (word 12) (word 13) v6 in mix2b 3 4 9 14 (word 14) (word 15) v7

unfoldable pub mix_rounds : Bytes → List (List ℕ) → List ℕ → List ℕ
unfolding mix_round
mix_rounds data' [] v = v
mix_rounds data' (row ∷ rows) v = mix_rounds data' rows (mix_round data' row v)

-- `s->h[i] ^= v[i] ^ v[i + 8]`.
unfoldable pub xor_state : List ℕ → List ℕ → List ℕ → List ℕ
xor_state [] lo hi = []
xor_state (x ∷ h) [] hi = []
xor_state (x ∷ h) (l ∷ lo) [] = []
xor_state (x ∷ h) (l ∷ lo) (u ∷ hi) = bit_xor x (bit_xor l u) ∷ xor_state h lo hi

-- `caml_BLAKE2Compress(s, data, numbytes, is_last_block)`.
unfoldable pub compress : Chaining → Bytes → ℕ → Bool → Chaining
unfolding sigma mix_rounds xor_state
compress s data' numbytes is_last_block =
    let len0 = (s.len0 + numbytes) % 2 ^ 64 in
    let len1 = if ltb len0 numbytes then (s.len1 + 1) % 2 ^ 64 else s.len1 in
    let v12 = bit_xor (get_or iv 4 0) len0 in
    let v13 = bit_xor (get_or iv 5 0) len1 in
    let v14 = if is_last_block then complement 64 (get_or iv 6 0) else get_or iv 6 0 in
    let v = s.h ++ (take 4 iv ++ (v12 ∷ v13 ∷ v14 ∷ get_or iv 7 0 ∷ [])) in
    let r = mix_rounds data' sigma v in
    record { h = xor_state s.h (take 8 r) (drop 8 r); len0 = len0; len1 = len1 }
