-- ===== src/Digest/Md5/Reference.antt =====
-- MD5 of a whole message, as RFC 1321 states it, and what the streaming code is proved to give first.
use trav_lang.Common.{
  ℕ, zero, suc, ◌-◌, ◌*◌, ◌/◌, ◌%◌, ◌^◌, ◌≡◌, refl, ap, ◌∙◌, ◌∷◌, ◌++◌, length, replicate, take,
  drop, fold_blocks, arith,
}
use trav_lang.Common.Words.{le_bytes}
use trav_lang.Digest.Md5.Transform.{Buf, transform, Bytes}
use trav_lang.Digest.Md5.Rounds.{rfc_transform}
use trav_lang.Digest.Md5.Blocks.{IsWords, transform-rfc_transform, rfc_transform-IsWords}
use trav_lang.Digest.Md5.{digest_bytes}

abbrev pub initial_buf : Buf
initial_buf = record { a = 0x67452301; b = 0xefcdab89; c = 0x98badcfe; d = 0x10325476 }

-- The zeros between the byte 0x80 and the length, which end at 56 modulo 64.
abbrev pub zeros : ℕ → ℕ
zeros n = (119 - n % 64) % 64

-- The length in bits modulo 2 ^ 64, low word first.
abbrev pub bit_length : ℕ → Bytes
bit_length n = le_bytes 4 ((8 * n) % 2 ^ 32) ++ le_bytes 4 ((8 * n) / 2 ^ 32 % 2 ^ 32)

abbrev pub pad : Bytes → Bytes
pad m = m ++ (0x80 ∷ (replicate (zeros (length m)) 0 ++ bit_length (length m)))

-- The buffer after all the whole blocks of a message.
abbrev pub absorb : Buf → Bytes → Buf
absorb h m = fold_blocks 64 transform (length m / 64) h m

-- What the streaming code is to give, by the block function of md5.c.
unfoldable pub md5_streamed : Bytes → Bytes
md5_streamed m = digest_bytes (absorb initial_buf (pad m))

-- The output is a, b, c and d, low byte first.
abbrev pub output : Buf → Bytes
output h = le_bytes 4 h.a ++ (le_bytes 4 h.b ++ (le_bytes 4 h.c ++ le_bytes 4 h.d))

-- The MD5 of RFC 1321: the padded message in blocks of 64 bytes, through its block function.
unfoldable pub md5_reference : Bytes → Bytes
md5_reference m = output (fold_blocks 64 rfc_transform (length (pad m) / 64) initial_buf (pad m))

fold_transform :
    (k : ℕ) (h : Buf) (m : Bytes)
    → IsWords h
    → fold_blocks 64 transform k h m ≡ fold_blocks 64 rfc_transform k h m
unfolding fold_blocks
fold_transform zero h m w = refl
fold_transform (suc k) h m w =
    ap (λ b. fold_blocks 64 transform k b (drop 64 m)) (transform-rfc_transform h (take 64 m) w)
    ∙ fold_transform k (rfc_transform h (take 64 m)) (drop 64 m)
        (rfc_transform-IsWords h (take 64 m))

pub md5_streamed-reference : (m : Bytes) → md5_streamed m ≡ md5_reference m
unfolding md5_streamed md5_reference
md5_streamed-reference m = ap output (
    fold_transform (length (pad m) / 64) initial_buf (pad m) (record {
      a_word = omega arith;
      b_word = omega arith;
      c_word = omega arith;
      d_word = omega arith;
    }))
