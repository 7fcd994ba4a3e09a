-- ===== src/Marshal/Texts.antt =====
-- runtime/extern.c and runtime/intern.c: strings are read back.
use trav_lang.Common.{
  ℕ, ◌+◌, ◌%◌, ◌^◌, ◌<◌, ◌≡◌, refl, ◌∙◌, ap, Bool, true, false, ◌&&◌, List, ◌++◌, length, leb, ltb,
  some, arith, Bool-cases, inl, inr, ltb→lt, append_assoc, length-append, take-append, drop-append,
}
use trav_lang.Marshal.Output.{writebyte, writecode8, writecode32, writecode64, extern_string}
use trav_lang.Marshal.Input.{string, read_item, read_string, as_string}
use trav_lang.Marshal.Bytes.{read32u-store32, read64u-store64}
use trav_lang.Marshal.Codes.{ReadsBack, Marshalled}

string_at :
    (bytes src : List ℕ) → read_string (length bytes) (bytes ++ src) ≡ some (string bytes, src)
string_at bytes src =
    let l = length-append bytes src in
    let t : leb (length bytes) (length (bytes ++ src)) ≡ true = ground arith in
    simp (t, take-append bytes src (length bytes) refl, drop-append bytes src (length bytes) refl)
      refl

-- A string of a length modulo the width of its code.
string_of_length :
    (n : ℕ) (bytes src : List ℕ)
    → n ≡ length bytes
    → read_string n (bytes ++ src) ≡ some (string bytes, src)
string_of_length n bytes src e = rw e (string_at bytes src)

-- The code of the length, with the bytes behind it.
Announces : List ℕ → List ℕ → Type 0
Announces bytes code =
    (src : List ℕ) → read_item (code ++ (bytes ++ src)) ≡ some (string bytes, src)

small_string :
    (bytes : List ℕ) → length bytes < 0x20 → Announces bytes (writebyte (0x20 + length bytes))
unfolding read_item Announces
small_string bytes h src =
    let e : (0x20 + length bytes) % 256 ≡ 0x20 + length bytes = omega arith in
    let t : leb 0x40 (0x20 + length bytes) ≡ false = ground arith in
    let t' : leb 0x20 (0x20 + length bytes) ≡ true = ground arith in
    let s = string_of_length ((0x20 + length bytes) % 0x20) bytes src (omega arith) in
    simp (e, t, t') s

string8 : (bytes : List ℕ) → length bytes < 0x100 → Announces bytes (writecode8 9 (length bytes))
unfolding read_item Announces
string8 bytes h src = string_of_length (length bytes % 256) bytes src (omega arith)

string32 :
    (bytes : List ℕ) → length bytes < 2 ^ 32 → Announces bytes (writecode32 0xa (length bytes))
unfolding read_item Announces
string32 bytes h src =
    ap as_string (read32u-store32 (length bytes) (bytes ++ src))
    ∙ string_of_length (length bytes % 2 ^ 32) bytes src (omega arith)

string64 :
    (bytes : List ℕ) → length bytes < 2 ^ 64 → Announces bytes (writecode64 0x15 (length bytes))
unfolding read_item Announces
string64 bytes h src =
    ap as_string (read64u-store64 (length bytes) (bytes ++ src))
    ∙ string_of_length (length bytes % 2 ^ 64) bytes src (omega arith)

announced : (bytes code : List ℕ) → Announces bytes code → ReadsBack (string bytes) (code ++ bytes)
unfolding Announces
announced bytes code h src = rw (append_assoc code bytes src) (h src)

-- extern_string writes a string so that it is read back, whatever follows; it fails only for COMPAT_32 and a
-- string of more than 0xfffffb bytes.
pub extern_string-Marshalled :
    (compat32 : Bool) (bytes : List ℕ)
    → length bytes < 2 ^ 64
    → Marshalled compat32 (0xfffffb < length bytes) (string bytes) (extern_string compat32 bytes)
unfolding extern_string
extern_string-Marshalled compat32 bytes h =
    let len = length bytes in
    elim (Bool-cases (ltb len 0x20)) [
      | inl t ↦
          simp t (announced bytes (writebyte (0x20 + len)) (small_string bytes (ltb→lt len 0x20 t)))
      | inr t ↦ elim (Bool-cases (ltb len 0x100)) [
        | inl u ↦
            simp (t, u) (announced bytes (writecode8 9 len) (string8 bytes (ltb→lt len 0x100 u)))
        | inr u ↦ elim (Bool-cases (ltb 0xfffffb len && compat32)) [
          | inl v ↦ simp (t, u, v) (ground arith, ground arith)
          | inr v ↦ elim (Bool-cases (ltb len (2 ^ 32))) [
            | inl z ↦
                simp (t, u, v, z)
                  (announced bytes (writecode32 0xa len) (string32 bytes (ltb→lt len (2 ^ 32) z)))
            | inr z ↦ simp (t, u, v, z) (announced bytes (writecode64 0x15 len) (string64 bytes h))
          ]
        ]
      ]
    ]
