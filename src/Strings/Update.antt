-- ===== src/Strings/Update.antt =====
-- runtime/str.c: the checked writes of 8, 16, 32 and 64 bits, `memmove` and `memset`, on the content.
use trav_lang.Common.{
  ℕ, zero, suc, ◌+◌, ◌*◌, ◌/◌, ◌%◌, ◌^◌, ◌≤◌, ◌<◌, ◌≡◌, refl, ◌∙◌, ap, sym, List, ◌++◌, length,
  take, drop, replicate, blit, length-blit, arith, Option, none, some, leb, if◌then◌else◌,
  Bool-cases, Option-cases, leb→le, inl, inr, take_prefix, take-append, drop-append, drop_prefix,
  length-take, length-drop, append_assoc, length-replicate, IfSome,
}
use native.Mathlib.Nat.{
  pow-suc, mod-one, one-le-pow, mod-add-div, mod-lt, add-mul-mod_self_left, mod-eq_of_lt,
}
use mathlib.Core.Path.{subst}
use trav_lang.Common.Int.{ℤ, pos, negsuc}
use trav_lang.Common.Words.{of_le_bytes, le_bytes}
use trav_lang.Strings.Layout.{image, string_length-image, padding, pad_length}
use trav_lang.Strings.Access.{
  read, Reads, string_get-Reads, string_get16-Reads, string_get32-Reads, string_get64-Reads,
}
use trav_lang.Strings.{
  Block, string_get, string_get16, string_get32, string_get64, bytes_set, bytes_set16, bytes_set32,
  bytes_set64, blit_bytes, fill_bytes,
}
use trav_lang.Strings.Written.{bytes_to, length-le_bytes, bytes_to-image}

-- The low `n` bytes of `v` written at `i`; none where they do not all lie in the content.
abbrev pub write : ℕ → List ℕ → ℤ → ℕ → Option (List ℕ)
write n xs (negsuc i) v = none
write n xs (pos i) v = if leb (i + n) (length xs) then some (blit xs i (le_bytes n v)) else none

abbrev pub stored : Option (List ℕ) → Option Block
stored none = none
stored (some xs) = some (image xs)

abbrev Writes : ℕ → (Block → ℤ → ℕ → Option Block) → Type 0
Writes n put = (xs : List ℕ) (i : ℤ) (v : ℕ) → put (image xs) i v ≡ stored (write n xs i v)

bytes_set-Writes : Writes 1 bytes_set
unfolding bytes_set bytes_to
bytes_set-Writes xs (negsuc i) v = refl
bytes_set-Writes xs (pos i) v = ground (arith, string_length-image xs, bytes_to-image 1 xs i v)

bytes_set16-Writes : Writes 2 bytes_set16
unfolding bytes_set16 bytes_to
bytes_set16-Writes xs (negsuc i) v = refl
bytes_set16-Writes xs (pos i) v = ground (arith, string_length-image xs, bytes_to-image 2 xs i v)

bytes_set32-Writes : Writes 4 bytes_set32
unfolding bytes_set32 bytes_to
bytes_set32-Writes xs (negsuc i) v = refl
bytes_set32-Writes xs (pos i) v = ground (arith, string_length-image xs, bytes_to-image 4 xs i v)

bytes_set64-Writes : Writes 8 bytes_set64
unfolding bytes_set64 bytes_to
bytes_set64-Writes xs (negsuc i) v = refl
bytes_set64-Writes xs (pos i) v = ground (arith, string_length-image xs, bytes_to-image 8 xs i v)

-- `bytes_set`, `bytes_set16`, `bytes_set32` and `bytes_set64` write the low 1, 2, 4 and 8 bytes of the
-- value to the content in little-endian order and leave the length and the padding alone, and raise where
-- these bytes do not all lie in the content, whatever the index.
pub bytes_set-write :
    (xs : List ℕ) (i : ℤ) (v : ℕ)
    → (bytes_set (image xs) i v ≡ stored (write 1 xs i v))
      × (bytes_set16 (image xs) i v ≡ stored (write 2 xs i v))
      × (bytes_set32 (image xs) i v ≡ stored (write 4 xs i v))
      × (bytes_set64 (image xs) i v ≡ stored (write 8 xs i v))
bytes_set-write xs i v = (
  bytes_set-Writes xs i v,
  bytes_set16-Writes xs i v,
  bytes_set32-Writes xs i v,
  bytes_set64-Writes xs i v,
)

mod_low_byte : (v m : ℕ) → 0 < m → v % (m * 256) ≡ v % 256 + 256 * (v / 256 % m)
mod_low_byte v m h =
    let q = v / 256 in
    let r = v % 256 + 256 * (q % m) in
    let e : v ≡ r + m * 256 * (q / m) = omega (arith, mod-add-div q m) in
    let small : r < m * 256 = omega (arith, mod-lt q h) in
    ap (λ x. x % (m * 256)) e ∙ (add-mul-mod_self_left r (m * 256) (q / m) ∙ mod-eq_of_lt small)

of_le_bytes-le_bytes : (n v : ℕ) → of_le_bytes (le_bytes n v) ≡ v % 256 ^ n
of_le_bytes-le_bytes zero v = sym (mod-one v)
of_le_bytes-le_bytes (suc n) v =
    rw (of_le_bytes-le_bytes n (v / 256), pow-suc)
      (sym (mod_low_byte v (256 ^ n) (one-le-pow n 256 (omega arith))))

-- A copy read back.
take-drop-blit :
    (xs w : List ℕ) (i n : ℕ) → n ≡ length w → i + n ≤ length xs → take n (drop i (blit xs i w)) ≡ w
unfolding blit
take-drop-blit xs w i n e h =
    let front : length (take i xs) ≡ i = rw length-take (omega arith) in
    rw (drop-append (take i xs) (w ++ drop (i + length w) xs) i (omega (arith, front)))
      (take-append w (drop (i + length w) xs) n e)

-- A write that goes through, and the read of the same place.
read-write :
    (n : ℕ) (xs : List ℕ) (i : ℤ) (v : ℕ)
    → IfSome (λ ys. read n ys i ≡ some (v % 256 ^ n)) (write n xs i v)
read-write n xs (negsuc i) v = tt
read-write n xs (pos i) v =
    let back : (i + n ≤ length xs) → take n (drop i (blit xs i (le_bytes n v))) ≡ le_bytes n v =
      λ h. take-drop-blit xs (le_bytes n v) i n (sym (length-le_bytes n v)) h in
    let same : (i + n ≤ length xs) → length (blit xs i (le_bytes n v)) ≡ length xs =
      λ h. length-blit xs (le_bytes n v) i (omega (arith, length-le_bytes n v)) in
    elim (Bool-cases (leb (i + n) (length xs))) [
      | inl h ↦
          rw
            (
              h,
              same (leb→le (i + n) (length xs) h),
              h,
              back (leb→le (i + n) (length xs) h),
              of_le_bytes-le_bytes n v,
            )
            refl
      | inr h ↦ rw h tt
    ]

-- A write and the read of the same width.
put-get :
    (n : ℕ) (put : Block → ℤ → ℕ → Option Block) (get : Block → ℤ → Option ℕ)
    → Writes n put
    → Reads n get
    → (xs : List ℕ) (i : ℤ) (v : ℕ)
    → IfSome (λ s. get s i ≡ some (v % 256 ^ n)) (put (image xs) i v)
put-get n put get p g xs i v = elim (Option-cases (write n xs i v)) [
  | inl e ↦ rw (p xs i v, e) tt
  | inr (ys, e) ↦
      let back : IfSome (λ ys. read n ys i ≡ some (v % 256 ^ n)) (some ys) =
        subst (λ o. IfSome (λ ys. read n ys i ≡ some (v % 256 ^ n)) o) e (read-write n xs i v) in
      rw (p xs i v, e) (g ys i ∙ back)
]

-- Where a write of 8, 16, 32 or 64 bits goes through, the read of the same width at the same index gives
-- the value modulo 2 ^ 8, 2 ^ 16, 2 ^ 32 or 2 ^ 64.
pub bytes_set-get :
    (xs : List ℕ) (i : ℤ) (v : ℕ)
    → IfSome (λ s. string_get s i ≡ some (v % 2 ^ 8)) (bytes_set (image xs) i v)
      × IfSome (λ s. string_get16 s i ≡ some (v % 2 ^ 16)) (bytes_set16 (image xs) i v)
      × IfSome (λ s. string_get32 s i ≡ some (v % 2 ^ 32)) (bytes_set32 (image xs) i v)
      × IfSome (λ s. string_get64 s i ≡ some (v % 2 ^ 64)) (bytes_set64 (image xs) i v)
bytes_set-get xs i v = (
  put-get 1 bytes_set string_get bytes_set-Writes string_get-Reads xs i v,
  put-get 2 bytes_set16 string_get16 bytes_set16-Writes string_get16-Reads xs i v,
  put-get 4 bytes_set32 string_get32 bytes_set32-Writes string_get32-Reads xs i v,
  put-get 8 bytes_set64 string_get64 bytes_set64-Writes string_get64-Reads xs i v,
)

blit-append :
    (xs ys w : List ℕ) (i : ℕ) → i + length w ≤ length xs → blit (xs ++ ys) i w ≡ blit xs i w ++ ys
unfolding blit
blit-append xs ys w i h = rw (
  take_prefix i xs ys (omega arith),
  drop_prefix (i + length w) xs ys h,
  append_assoc,
  append_assoc,
)

blit-image :
    (xs w : List ℕ) (i : ℕ) → i + length w ≤ length xs → blit (image xs) i w ≡ image (blit xs i w)
blit-image xs w i h = rw (blit-append xs (padding (pad_length xs)) w i h, length-blit xs w i h) refl

-- `caml_blit_bytes`, in bounds, copies between the contents.
pub blit_bytes-image :
    (xs ys : List ℕ) (ofs1 ofs2 n : ℕ)
    → ofs1 + n ≤ length xs
    → ofs2 + n ≤ length ys
    → blit_bytes (image xs) ofs1 (image ys) ofs2 n ≡ image (blit ys ofs2 (take n (drop ofs1 xs)))
unfolding blit_bytes
blit_bytes-image xs ys ofs1 ofs2 n h k =
    let e : length (take n (drop ofs1 xs)) ≡ n = rw (length-take, length-drop) (omega arith) in
    rw
      (
        drop_prefix ofs1 xs (padding (pad_length xs)) (omega arith),
        take_prefix n (drop ofs1 xs) (padding (pad_length xs)) (rw length-drop (omega arith)),
      )
      (blit-image ys (take n (drop ofs1 xs)) ofs2 (omega arith))

-- `caml_fill_bytes`, in bounds, fills the content.
pub fill_bytes-image :
    (xs : List ℕ) (offset len init : ℕ)
    → offset + len ≤ length xs
    → fill_bytes (image xs) offset len init ≡ image (blit xs offset (replicate len (init % 256)))
unfolding fill_bytes
fill_bytes-image xs offset len init h =
    blit-image xs (replicate len (init % 256)) offset
      (omega (arith, length-replicate len (init % 256)))
