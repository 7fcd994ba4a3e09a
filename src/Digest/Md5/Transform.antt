-- ===== src/Digest/Md5/Transform.antt =====
-- `caml_MD5Transform` of runtime/md5.c, with the macros `F1` to `F4` and `MD5STEP`.
-- The 64 steps of the source are the four lists below, in order. Each step of the source names the
-- registers one place further round, so a step here turns the four registers.
use Prim.Native.Nat.{bit_and, bit_or, bit_xor}
use trav_lang.Common.{ℕ, ◌+◌, ◌-◌, ◌*◌, ◌%◌, ◌^◌, List, [], ◌∷◌, take, drop}
use trav_lang.Common.Words.{shl, shr, complement, of_le_bytes}

abbrev pub Bytes : Type 0
Bytes = List ℕ

-- `uint32_t buf[4]`, which the transform loads into a, b, c and d.
pub record Buf : Type 0 where
  pub a : ℕ
  pub b : ℕ
  pub c : ℕ
  pub d : ℕ

unfoldable pub f1 : ℕ → ℕ → ℕ → ℕ
f1 x y z = bit_xor z (bit_and x (bit_xor y z))

unfoldable pub f2 : ℕ → ℕ → ℕ → ℕ
unfolding f1
f2 x y z = f1 z x y

unfoldable pub f3 : ℕ → ℕ → ℕ → ℕ
f3 x y z = bit_xor (bit_xor x y) z

unfoldable pub f4 : ℕ → ℕ → ℕ → ℕ
f4 x y z = bit_xor y (bit_or x (complement 32 z))

-- `in[i]`: the words of the block.
unfoldable pub word : Bytes → ℕ → ℕ
word inp i = of_le_bytes (take 4 (drop (4 * i) inp))

-- `w += f(x, y, z) + data, w = w << s | w >> (32 - s), w += x`.
unfoldable pub md5_step : (ℕ → ℕ → ℕ → ℕ) → ℕ → ℕ → ℕ → ℕ → ℕ → ℕ → ℕ
md5_step f w x y z data' s =
    let sum = (w + (f x y z + data')) % 2 ^ 32 in
    let turned = bit_or (shl 32 sum s) (shr sum (32 - s)) in (turned + x) % 2 ^ 32

-- One line of the transform: the index into `in`, the constant and the shift.
abbrev pub Line : Type 0
Line = ℕ × ℕ × ℕ

-- The lines of one round, all with the same function.
unfoldable pub round : (ℕ → ℕ → ℕ → ℕ) → Bytes → List Line → Buf → Buf
unfolding md5_step word
round f inp [] h = h
round f inp ((i, k, s) ∷ lines) h =
    round f inp lines
      (record { a = h.d; b = md5_step f h.a h.b h.c h.d (word inp i + k) s; c = h.b; d = h.c })

unfoldable pub lines1 : List Line
lines1 =
    (0, 0xd76aa478, 7)
    ∷ (1, 0xe8c7b756, 12)
    ∷ (2, 0x242070db, 17)
    ∷ (3, 0xc1bdceee, 22)
    ∷ (4, 0xf57c0faf, 7)
    ∷ (5, 0x4787c62a, 12)
    ∷ (6, 0xa8304613, 17)
    ∷ (7, 0xfd469501, 22)
    ∷ (8, 0x698098d8, 7)
    ∷ (9, 0x8b44f7af, 12)
    ∷ (10, 0xffff5bb1, 17)
    ∷ (11, 0x895cd7be, 22)
    ∷ (12, 0x6b901122, 7)
    ∷ (13, 0xfd987193, 12)
    ∷ (14, 0xa679438e, 17)
    ∷ (15, 0x49b40821, 22)
    ∷ []

unfoldable pub lines2 : List Line
lines2 =
    (1, 0xf61e2562, 5)
    ∷ (6, 0xc040b340, 9)
    ∷ (11, 0x265e5a51, 14)
    ∷ (0, 0xe9b6c7aa, 20)
    ∷ (5, 0xd62f105d, 5)
    ∷ (10, 0x02441453, 9)
    ∷ (15, 0xd8a1e681, 14)
    ∷ (4, 0xe7d3fbc8, 20)
    ∷ (9, 0x21e1cde6, 5)
    ∷ (14, 0xc33707d6, 9)
    ∷ (3, 0xf4d50d87, 14)
    ∷ (8, 0x455a14ed, 20)
    ∷ (13, 0xa9e3e905, 5)
    ∷ (2, 0xfcefa3f8, 9)
    ∷ (7, 0x676f02d9, 14)
    ∷ (12, 0x8d2a4c8a, 20)
    ∷ []

unfoldable pub lines3 : List Line
lines3 =
    (5, 0xfffa3942, 4)
    ∷ (8, 0x8771f681, 11)
    ∷ (11, 0x6d9d6122, 16)
    ∷ (14, 0xfde5380c, 23)
    ∷ (1, 0xa4beea44, 4)
    ∷ (4, 0x4bdecfa9, 11)
    ∷ (7, 0xf6bb4b60, 16)
    ∷ (10, 0xbebfbc70, 23)
    ∷ (13, 0x289b7ec6, 4)
    ∷ (0, 0xeaa127fa, 11)
    ∷ (3, 0xd4ef3085, 16)
    ∷ (6, 0x04881d05, 23)
    ∷ (9, 0xd9d4d039, 4)
    ∷ (12, 0xe6db99e5, 11)
    ∷ (15, 0x1fa27cf8, 16)
    ∷ (2, 0xc4ac5665, 23)
    ∷ []

unfoldable pub lines4 : List Line
lines4 =
    (0, 0xf4292244, 6)
    ∷ (7, 0x432aff97, 10)
    ∷ (14, 0xab9423a7, 15)
    ∷ (5, 0xfc93a039, 21)
    ∷ (12, 0x655b59c3, 6)
    ∷ (3, 0x8f0ccc92, 10)
    ∷ (10, 0xffeff47d, 15)
    ∷ (1, 0x85845dd1, 21)
    ∷ (8, 0x6fa87e4f, 6)
    ∷ (15, 0xfe2ce6e0, 10)
    ∷ (6, 0xa3014314, 15)
    ∷ (13, 0x4e0811a1, 21)
    ∷ (4, 0xf7537e82, 6)
    ∷ (11, 0xbd3af235, 10)
    ∷ (2, 0x2ad7d2bb, 15)
    ∷ (9, 0xeb86d391, 21)
    ∷ []

-- `in` is 64 bytes; the sums with `buf` wrap.
unfoldable pub transform : Buf → Bytes → Buf
unfolding f1 f2 f3 f4 round lines1 lines2 lines3 lines4
transform h inp =
    let r =
      round f4 inp lines4 (round f3 inp lines3 (round f2 inp lines2 (round f1 inp lines1 h))) in
    record {
      a = (h.a + r.a) % 2 ^ 32;
      b = (h.b + r.b) % 2 ^ 32;
      c = (h.c + r.c) % 2 ^ 32;
      d = (h.d + r.d) % 2 ^ 32;
    }
