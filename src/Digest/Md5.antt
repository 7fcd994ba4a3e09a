-- ===== src/Digest/Md5.antt =====
-- runtime/md5.c and runtime/caml/md5.h: the context, `caml_MD5Init`, `caml_MD5Update`, `caml_MD5Final`,
-- `caml_MD5Transform` and `caml_md5_block`, on a little-endian machine, where `byteReverse` is empty.
-- A `uint32_t` is a number below 2 ^ 32; `unsigned char` buffers are lists of bytes.
pub mod Transform
pub mod Rounds
pub mod Blocks
pub mod Reference
pub mod Stream
pub mod Session
use trav_lang.Common.{
  ℕ, zero, suc, ◌+◌, ◌-◌, ◌*◌, ◌/◌, ◌%◌, ◌^◌, List, [], ◌∷◌, ◌++◌, length, take, drop, replicate,
  blit, ltb, leb, ◌==◌, if◌then◌else◌,
}
use trav_lang.Common.Words.{shr, le_bytes}
use Transform.{Buf, transform, Bytes}

-- `struct MD5Context`: `buf[4]`, `bits[2]` and `in[64]`.
pub record Md5Context : Type 0 where
  pub buf : Buf
  pub bits0 : ℕ
  pub bits1 : ℕ
  pub inp : Bytes

-- The source leaves `in` uninitialised: its contents is a parameter.
unfoldable pub md5_init : Bytes → Md5Context
md5_init garbage = record {
  buf = record { a = 0x67452301; b = 0xefcdab89; c = 0x98badcfe; d = 0x10325476 };
  bits0 = 0;
  bits1 = 0;
  inp = garbage;
}

-- The bit count: carry from low to high, then the high bits of the length.
unfoldable pub add_bits : Md5Context → ℕ → Md5Context
add_bits ctx len =
    let t = ctx.bits0 in
    let low = (t + (len % 2 ^ 32 * 8) % 2 ^ 32) % 2 ^ 32 in
    let carry = if ltb low t then ctx.bits1 + 1 else ctx.bits1 in
    record ctx { bits0 = low; bits1 = (carry % 2 ^ 32 + shr len 29) % 2 ^ 32 }

-- `while (len >= 64)`: `fuel` bounds the rounds. The last line copies the remaining bytes.
unfoldable pub md5_chunks : ℕ → Md5Context → Bytes → Md5Context
md5_chunks zero ctx data' = record ctx { inp = blit ctx.inp 0 data' }
md5_chunks (suc fuel) ctx data' =
    let inp' = blit ctx.inp 0 (take 64 data') in
    let rest =
      md5_chunks fuel (record ctx { buf = transform ctx.buf inp'; inp = inp' }) (drop 64 data') in
    if leb 64 (length data') then rest else record ctx { inp = blit ctx.inp 0 data' }

-- `caml_MD5Update`; the length of the data is `len`.
unfoldable pub md5_update : Md5Context → Bytes → Md5Context
unfolding add_bits
md5_update ctx data' =
    let t = shr ctx.bits0 3 % 64 in
    let counted = add_bits ctx (length data') in
    let room = 64 - t in
    let small = record counted { inp = blit counted.inp t data' } in
    let filled = blit counted.inp t (take room data') in
    let large =
      md5_chunks (length data')
        (record counted { buf = transform counted.buf filled; inp = filled }) (drop room data') in
    let whole = md5_chunks (length data') counted data' in
    if t == 0 then whole else if ltb (length data') room then small else large

-- The bytes of `buf[4]` in memory.
abbrev pub digest_bytes : Buf → Bytes
digest_bytes h = le_bytes 4 h.a ++ (le_bytes 4 h.b ++ (le_bytes 4 h.c ++ le_bytes 4 h.d))

-- `memset(ctx, 0, sizeof(*ctx))`.
abbrev pub cleared : Md5Context
cleared = record {
  buf = record { a = 0; b = 0; c = 0; d = 0 };
  bits0 = 0;
  bits1 = 0;
  inp = replicate 64 0;
}

-- `caml_MD5Final`: the digest, and the context afterwards. `in[14]` and `in[15]` are the bytes 56
-- to 63; `memset(p, 0, n)` writes n zeros.
unfoldable pub md5_final : Md5Context → Bytes × Md5Context
md5_final ctx =
    let count = shr ctx.bits0 3 % 64 in
    let marked = blit ctx.inp count (0x80 ∷ []) in
    let pad = 64 - 1 - count in
    let full = blit marked (count + 1) (replicate pad 0) in
    let buf' = if ltb pad 8 then transform ctx.buf full else ctx.buf in
    let padded =
      if ltb pad 8
      then blit full 0 (replicate 56 0)
      else blit marked (count + 1) (replicate (pad - 8) 0) in
    let last = blit padded 56 (le_bytes 4 ctx.bits0 ++ le_bytes 4 ctx.bits1) in
    (digest_bytes (transform buf' last), cleared)

-- `caml_md5_block`, and `caml_md5_string` at the range of the string that it digests.
unfoldable pub md5_block : Bytes → Bytes → Bytes
unfolding md5_init md5_update md5_final
md5_block garbage data' = (md5_final (md5_update (md5_init garbage) data')).0
