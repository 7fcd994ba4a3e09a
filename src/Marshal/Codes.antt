-- ===== src/Marshal/Codes.antt =====
-- runtime/extern.c and runtime/intern.c: what a code stands for is read back.
use trav_lang.Common.{
  ℕ, ◌+◌, ◌%◌, ◌^◌, ◌<◌, ◌≡◌, refl, ◌∙◌, ap, Bool, true, false, not, List, ◌++◌, leb, ltb,
  if◌then◌else◌, Option, none, some, arith, Bool-cases, inl, inr,
}
use trav_lang.Common.Int.{ℤ, pos, negsuc}
use trav_lang.Marshal.Output.{
  to_word, fits, writebyte, store16, store32, store64, writecode8, writecode16, writecode32,
  writecode64, extern_int,
}
use trav_lang.Marshal.Input.{to_signed, Item, long, read_item, as_item, read16u, read32u, read64u}
use trav_lang.Marshal.Bytes.{
  read16u-store16, read32u-store32, read64u-store64, to_signed_word8, to_signed_word16,
  to_signed_word32, to_signed_word63,
}

abbrev pub ReadsBack : Item → List ℕ → Type 0
ReadsBack item bytes = (src : List ℕ) → read_item (bytes ++ src) ≡ some (item, src)

-- Bytes that are read as the item, whatever follows them; there are none only for `COMPAT_32` and an item that
-- a machine of 32 bits has no room for.
abbrev pub Marshalled : Bool → Type 0 → Item → Option (List ℕ) → Type 0
Marshalled compat32 Large item none = (compat32 ≡ true) × Large
Marshalled compat32 Large item (some bytes) = ReadsBack item bytes

-- Words of each width behind a code.
pub coded16 :
    (f : ℕ → Item) (w x : ℕ) (src : List ℕ)
    → w % 2 ^ 16 ≡ x
    → as_item f (read16u (store16 w ++ src)) ≡ some (f x, src)
coded16 f w x src e = rw (read16u-store16 w src, e) refl

pub coded32 :
    (f : ℕ → Item) (w x : ℕ) (src : List ℕ)
    → w % 2 ^ 32 ≡ x
    → as_item f (read32u (store32 w ++ src)) ≡ some (f x, src)
coded32 f w x src e = rw (read32u-store32 w src, e) refl

pub coded64 :
    (f : ℕ → Item) (w x : ℕ) (src : List ℕ)
    → w % 2 ^ 64 ≡ x
    → as_item f (read64u (store64 w ++ src)) ≡ some (f x, src)
coded64 f w x src e = rw (read64u-store64 w src, e) refl

small_word : (n : ℕ) → n < 0x40 → (0x40 + n % 2 ^ 64) % 256 ≡ 0x40 + n
small_word n h = omega arith

small_int : (n : ℕ) → n < 0x40 → ReadsBack (long (pos n)) (writebyte (0x40 + to_word (pos n)))
unfolding read_item
small_int n h src =
    let e : (0x40 + n % 2 ^ 64) % 256 ≡ 0x40 + n = small_word n h in
    let t : leb 0x40 (0x40 + n) ≡ true = ground arith in
    let t' : leb 0x80 (0x40 + n) ≡ false = ground arith in
    let e' : (0x40 + n) % 0x40 ≡ n = omega arith in simp (e, t, t', e') refl

int8 : (n : ℤ) → fits 7 n ≡ true → ReadsBack (long n) (writecode8 0 (to_word n))
unfolding read_item
int8 n h src = rw (to_signed_word8 n h) refl

int16 : (n : ℤ) → fits 15 n ≡ true → ReadsBack (long n) (writecode16 1 (to_word n))
unfolding read_item
int16 n h src =
    coded16 (λ x. long (to_signed 16 x)) (to_word n) (to_word n % 2 ^ 16) src refl
    ∙ ap (λ z. some (long z, src)) (to_signed_word16 n h)

int32 : (n : ℤ) → fits 31 n ≡ true → ReadsBack (long n) (writecode32 2 (to_word n))
unfolding read_item
int32 n h src =
    coded32 (λ x. long (to_signed 32 x)) (to_word n) (to_word n % 2 ^ 32) src refl
    ∙ ap (λ z. some (long z, src)) (to_signed_word32 n h)

halved : (w : ℕ) → w % 2 ^ 64 % 2 ^ 63 ≡ w % 2 ^ 63
halved w = omega arith

int64 : (n : ℤ) → fits 62 n ≡ true → ReadsBack (long n) (writecode64 3 (to_word n))
unfolding read_item
int64 n h src =
    coded64 (λ x. long (to_signed 63 (x % 2 ^ 63))) (to_word n) (to_word n % 2 ^ 64) src refl
    ∙ ap (λ z. some (long (to_signed 63 z), src)) (halved (to_word n))
    ∙ ap (λ z. some (long z, src)) (to_signed_word63 n h)

wider : (n : ℤ) → fits 30 n ≡ true → fits 31 n ≡ true
wider n h = ground arith

longer_int :
    (compat32 : Bool) (n : ℤ)
    → fits 62 n ≡ true
    → fits 30 n ≡ false
    → Marshalled compat32
        (fits 30 n ≡ false)
        (long n)
        (if compat32 then none else some (writecode64 3 (to_word n)))
longer_int true n h k = (refl, k)
longer_int false n h k = int64 n h

large_int :
    (compat32 : Bool) (n : ℤ)
    → fits 62 n ≡ true
    → Marshalled compat32 (fits 30 n ≡ false) (long n) (
        if fits 7 n
        then some (writecode8 0 (to_word n))
        else if fits 15 n
        then some (writecode16 1 (to_word n))
        else if not (fits 30 n)
        then (if compat32 then none else some (writecode64 3 (to_word n)))
        else some (writecode32 2 (to_word n)))
large_int compat32 n h = elim (Bool-cases (fits 7 n)) [
  | inl t ↦ simp t (int8 n t)
  | inr t ↦ elim (Bool-cases (fits 15 n)) [
    | inl t' ↦ simp (t, t') (int16 n t')
    | inr t' ↦ elim (Bool-cases (fits 30 n)) [
      | inl u ↦ simp (t, t', u) (int32 n (wider n u))
      | inr u ↦ let l = longer_int compat32 n h u in simp (t, t', u) (simp u at l)
    ]
  ]
]

-- extern_int writes an integer of 63 bits so that it is read back, whatever follows; it fails only for COMPAT_32
-- and an integer of more than 31 bits.
pub extern_int-Marshalled :
    (compat32 : Bool) (n : ℤ)
    → fits 62 n ≡ true
    → Marshalled compat32 (fits 30 n ≡ false) (long n) (extern_int compat32 n)
unfolding extern_int
extern_int-Marshalled compat32 (negsuc n) h = large_int compat32 (negsuc n) h
extern_int-Marshalled compat32 (pos n) h = elim (Bool-cases (ltb n 0x40)) [
  | inl t ↦ simp t (small_int n (ground arith))
  | inr t ↦ let l = large_int compat32 (pos n) h in simp t l
]
