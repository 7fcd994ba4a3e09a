-- ===== src/Marshal/Bytes.antt =====
-- runtime/extern.c and runtime/intern.c: the bytes of words are read back.
use trav_lang.Common.{ℕ, ◌+◌, ◌*◌, ◌/◌, ◌%◌, ◌^◌, ◌≡◌, refl, true, List, ◌++◌, some, arith}
use trav_lang.Common.Int.{ℤ}
use trav_lang.Marshal.Output.{store16, store32, store64, to_word, fits}
use trav_lang.Marshal.Input.{read16u, read32u, read64u, to_signed}

pub read16u-store16 : (w : ℕ) (src : List ℕ) → read16u (store16 w ++ src) ≡ some (w % 2 ^ 16, src)
unfolding read16u
read16u-store16 w src =
    let e : (w / 2 ^ 8 % 256 * 2 ^ 8 + w % 256) % 2 ^ 16 ≡ w % 2 ^ 16 = omega arith in rw e refl

pub read32u-store32 : (w : ℕ) (src : List ℕ) → read32u (store32 w ++ src) ≡ some (w % 2 ^ 32, src)
unfolding read32u
read32u-store32 w src =
    let e : (w / 2 ^ 24 % 256 * 2 ^ 24
            + w / 2 ^ 16 % 256 * 2 ^ 16
            + w / 2 ^ 8 % 256 * 2 ^ 8
            + w % 256)
          % 2 ^ 32
        ≡ w % 2 ^ 32 =
      omega arith in
    rw e refl

-- A number is at most its word.
pub to_signed_word8 : (n : ℤ) → fits 7 n ≡ true → to_signed 8 (to_word n % 256) ≡ n
to_signed_word8 n h = ground arith

pub to_signed_word16 : (n : ℤ) → fits 15 n ≡ true → to_signed 16 (to_word n % 2 ^ 16) ≡ n
to_signed_word16 n h = ground arith

pub to_signed_word32 : (n : ℤ) → fits 31 n ≡ true → to_signed 32 (to_word n % 2 ^ 32) ≡ n
to_signed_word32 n h = ground arith

pub to_signed_word63 : (n : ℤ) → fits 62 n ≡ true → to_signed 63 (to_word n % 2 ^ 63) ≡ n
to_signed_word63 n h = ground arith

pub read64u-store64 : (w : ℕ) (src : List ℕ) → read64u (store64 w ++ src) ≡ some (w % 2 ^ 64, src)
unfolding read64u
read64u-store64 w src =
    let e : (w / 2 ^ 56 % 256 * 2 ^ 56
            + w / 2 ^ 48 % 256 * 2 ^ 48
            + w / 2 ^ 40 % 256 * 2 ^ 40
            + w / 2 ^ 32 % 256 * 2 ^ 32
            + w / 2 ^ 24 % 256 * 2 ^ 24
            + w / 2 ^ 16 % 256 * 2 ^ 16
            + w / 2 ^ 8 % 256 * 2 ^ 8
            + w % 256)
          % 2 ^ 64
        ≡ w % 2 ^ 64 =
      omega arith in
    rw e refl
