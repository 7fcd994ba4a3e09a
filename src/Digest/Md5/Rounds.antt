-- ===== src/Digest/Md5/Rounds.antt =====
-- The block function of MD5 as section 3.4 of RFC 1321 describes it: the auxiliary functions, the table T,
-- and in step i of a round the word of the block and the number of places to turn by.
use Prim.Native.Nat.{bit_and, bit_or, bit_xor}
use trav_lang.Common.{ℕ, zero, suc, ◌+◌, ◌-◌, ◌*◌, ◌/◌, ◌%◌, ◌^◌, List, [], ◌∷◌, get_or, take, drop}
use trav_lang.Common.Words.{of_le_bytes}
use trav_lang.Digest.Md5.Transform.{Buf, Bytes}

abbrev pub not32 : ℕ → ℕ
not32 x = 2 ^ 32 - 1 - x

-- F(X,Y,Z) = XY v not(X) Z, G(X,Y,Z) = XZ v Y not(Z), H(X,Y,Z) = X xor Y xor Z, I(X,Y,Z) = Y xor (X v not(Z)).
unfoldable pub aux_f : ℕ → ℕ → ℕ → ℕ
aux_f x y z = bit_or (bit_and x y) (bit_and (not32 x) z)

unfoldable pub aux_g : ℕ → ℕ → ℕ → ℕ
aux_g x y z = bit_or (bit_and x z) (bit_and y (not32 z))

unfoldable pub aux_h : ℕ → ℕ → ℕ → ℕ
aux_h x y z = bit_xor (bit_xor x y) z

unfoldable pub aux_i : ℕ → ℕ → ℕ → ℕ
aux_i x y z = bit_xor y (bit_or x (not32 z))

-- The integer parts of 4294967296 times abs(sin(i)), for i from 1 to 64.
abbrev pub sines : List ℕ
sines =
    0xd76aa478 ∷ 0xe8c7b756 ∷ 0x242070db ∷ 0xc1bdceee ∷ 0xf57c0faf ∷ 0x4787c62a ∷ 0xa8304613
    ∷ 0xfd469501 ∷ 0x698098d8 ∷ 0x8b44f7af ∷ 0xffff5bb1 ∷ 0x895cd7be ∷ 0x6b901122 ∷ 0xfd987193
    ∷ 0xa679438e ∷ 0x49b40821 ∷ 0xf61e2562 ∷ 0xc040b340 ∷ 0x265e5a51 ∷ 0xe9b6c7aa ∷ 0xd62f105d
    ∷ 0x02441453 ∷ 0xd8a1e681 ∷ 0xe7d3fbc8 ∷ 0x21e1cde6 ∷ 0xc33707d6 ∷ 0xf4d50d87 ∷ 0x455a14ed
    ∷ 0xa9e3e905 ∷ 0xfcefa3f8 ∷ 0x676f02d9 ∷ 0x8d2a4c8a ∷ 0xfffa3942 ∷ 0x8771f681 ∷ 0x6d9d6122
    ∷ 0xfde5380c ∷ 0xa4beea44 ∷ 0x4bdecfa9 ∷ 0xf6bb4b60 ∷ 0xbebfbc70 ∷ 0x289b7ec6 ∷ 0xeaa127fa
    ∷ 0xd4ef3085 ∷ 0x04881d05 ∷ 0xd9d4d039 ∷ 0xe6db99e5 ∷ 0x1fa27cf8 ∷ 0xc4ac5665 ∷ 0xf4292244
    ∷ 0x432aff97 ∷ 0xab9423a7 ∷ 0xfc93a039 ∷ 0x655b59c3 ∷ 0x8f0ccc92 ∷ 0xffeff47d ∷ 0x85845dd1
    ∷ 0x6fa87e4f ∷ 0xfe2ce6e0 ∷ 0xa3014314 ∷ 0x4e0811a1 ∷ 0xf7537e82 ∷ 0xbd3af235 ∷ 0x2ad7d2bb
    ∷ 0xeb86d391 ∷ []

-- Which word of the block a step of each round takes.
abbrev pub word1 : ℕ → ℕ
word1 i = i

abbrev pub word2 : ℕ → ℕ
word2 i = (1 + 5 * i) % 16

abbrev pub word3 : ℕ → ℕ
word3 i = (5 + 3 * i) % 16

abbrev pub word4 : ℕ → ℕ
word4 i = 7 * i % 16

-- Rotation to the left by s places.
abbrev pub rotated : ℕ → ℕ → ℕ
rotated x s = bit_or (x * 2 ^ s % 2 ^ 32) (x / 2 ^ (32 - s))

abbrev pub word_of : Bytes → ℕ → ℕ
word_of block k = of_le_bytes (take 4 (drop (4 * k) block))

-- a = b + ((a + f(b,c,d) + X[k] + T[i]) <<< s); the next step has the registers d, a, b and c in these places.
unfoldable pub rfc_step : (ℕ → ℕ → ℕ → ℕ) → Bytes → ℕ → ℕ → ℕ → Buf → Buf
rfc_step f block k t s h = record {
  a = h.d;
  b = (h.b + rotated ((h.a + f h.b h.c h.d + word_of block k + t) % 2 ^ 32) s) % 2 ^ 32;
  c = h.b;
  d = h.c;
}

-- The last `left` of the sixteen steps of a round, from step `i` on; T starts at `from`.
unfoldable pub rfc_steps : ℕ → (ℕ → ℕ → ℕ → ℕ) → (ℕ → ℕ) → ℕ → List ℕ → Bytes → ℕ → Buf → Buf
unfolding rfc_step
rfc_steps zero f word from turns block i h = h
rfc_steps (suc left) f word from turns block i h =
    rfc_steps left f word from turns block (i + 1)
      (rfc_step f block (word i) (get_or sines (from + i) 0) (get_or turns (i % 4) 0) h)

unfoldable pub rfc_rounds : Buf → Bytes → Buf
unfolding aux_f aux_g aux_h aux_i rfc_steps
rfc_rounds h block =
    let r1 = rfc_steps 16 aux_f word1 0 (7 ∷ 12 ∷ 17 ∷ 22 ∷ []) block 0 h in
    let r2 = rfc_steps 16 aux_g word2 16 (5 ∷ 9 ∷ 14 ∷ 20 ∷ []) block 0 r1 in
    let r3 = rfc_steps 16 aux_h word3 32 (4 ∷ 11 ∷ 16 ∷ 23 ∷ []) block 0 r2 in
    rfc_steps 16 aux_i word4 48 (6 ∷ 10 ∷ 15 ∷ 21 ∷ []) block 0 r3

abbrev pub registers_sum : Buf → Buf → Buf
registers_sum h r = record {
  a = (h.a + r.a) % 2 ^ 32;
  b = (h.b + r.b) % 2 ^ 32;
  c = (h.c + r.c) % 2 ^ 32;
  d = (h.d + r.d) % 2 ^ 32;
}

-- The four rounds, and the sums with the registers at the start.
unfoldable pub rfc_transform : Buf → Bytes → Buf
rfc_transform h block = registers_sum h (rfc_rounds h block)
