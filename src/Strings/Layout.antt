-- ===== src/Strings/Layout.antt =====
-- runtime/alloc.c and runtime/str.c: what a block holds for a string, and its length.
use trav_lang.Common.{
  ℕ, zero, suc, ◌+◌, ◌-◌, ◌*◌, ◌/◌, ◌%◌, ◌<◌, ◌≡◌, refl, ◌∙◌, ap, List, [], ◌∷◌, ◌++◌, length,
  get_or, set, take, drop, replicate, blit, length-append, length-replicate, append_assoc,
  length-take, arith, drop_past, drop_all, Option, none, some, ◌||◌, true,
}
use native.Mathlib.Nat.{zero-add, suc-add}
use trav_lang.Common.Int.{ℤ, pos, negsuc, ltb_ℤ}
use trav_lang.Strings.{
  Block, max_length, create_bytes, string_length, alloc_string, alloc_initialized_string,
}

-- The last bytes: `n` zeros and their number.
abbrev pub padding : ℕ → List ℕ
padding n = replicate n 0 ++ (n ∷ [])

abbrev pub pad_length : List ℕ → ℕ
pad_length xs = 7 - length xs % 8

-- The block of the string with the bytes `xs`.
abbrev pub image : List ℕ → Block
image xs = xs ++ padding (pad_length xs)

pub get_or_prefix :
    (xs ys : List ℕ) (i d : ℕ) → i < length xs → get_or (xs ++ ys) i d ≡ get_or xs i d
get_or_prefix [] ys i d h = absurd (omega arith)
get_or_prefix (x ∷ xs) ys zero d h = refl
get_or_prefix (x ∷ xs) ys (suc i) d h = get_or_prefix xs ys i d (omega arith)

pub get_or_last : (xs : List ℕ) (x d : ℕ) → get_or (xs ++ (x ∷ [])) (length xs) d ≡ x
get_or_last [] x d = refl
get_or_last (y ∷ xs) x d = get_or_last xs x d

pub set_prefix : (xs ys : List ℕ) (i v : ℕ) → i < length xs → set (xs ++ ys) i v ≡ set xs i v ++ ys
set_prefix [] ys i v h = absurd (omega arith)
set_prefix (x ∷ xs) ys zero v h = refl
set_prefix (x ∷ xs) ys (suc i) v h = rw (set_prefix xs ys i v (omega arith))

pub set_last : (xs : List ℕ) (x v : ℕ) → set (xs ++ (x ∷ [])) (length xs) v ≡ xs ++ (v ∷ [])
set_last [] x v = refl
set_last (y ∷ xs) x v = rw (set_last xs x v)

pub length-padding : (n : ℕ) → length (padding n) ≡ n + 1
length-padding n = rw (length-append, length-replicate) refl

pub length-image : (xs : List ℕ) → length (image xs) ≡ 8 * (length xs / 8 + 1)
length-image xs = rw (length-append, length-padding) (omega arith)

-- The last byte of a block with its padding.
pub last_byte : (xs : List ℕ) (n : ℕ) → get_or (xs ++ padding n) (length xs + n) 0 ≡ n
last_byte xs n =
    let e : length xs + n ≡ length (xs ++ replicate n 0) =
      rw (length-append, length-replicate) refl in
    rw (← append_assoc, e) (get_or_last (xs ++ replicate n 0) n 0)

pub string_length-image : (xs : List ℕ) → string_length (image xs) ≡ length xs
unfolding string_length
string_length-image xs =
    let e : length (image xs) - 1 ≡ length xs + pad_length xs =
      rw (length-append, length-padding) (omega arith) in
    rw (e, last_byte xs (pad_length xs)) (omega arith)

drop_zeros : (j n : ℕ) (ys : List ℕ) → drop j (replicate (j + n) 0 ++ ys) ≡ replicate n 0 ++ ys
drop_zeros zero n ys = rw (zero-add n)
drop_zeros (suc j) n ys = rw (suc-add j n) (drop_zeros j n ys)

-- A new block: its words, the last one cleared, and the last byte.
abbrev tail_word : ℕ → List ℕ
tail_word len = replicate 7 0 ++ ((7 - len % 8) ∷ [])

set_word_end :
    (xs ys : List ℕ) (v : ℕ)
    → set (xs ++ (replicate 8 0 ++ ys)) (length xs + 7) v ≡ xs ++ (replicate 7 0 ++ (v ∷ ys))
set_word_end [] ys v = refl
set_word_end (x ∷ xs) ys v = rw (suc-add (length xs) 7, set_word_end xs ys v)

get_or_word_end :
    (xs : List ℕ) (v : ℕ) → get_or (xs ++ (replicate 7 0 ++ (v ∷ []))) (length xs + 7) 0 ≡ v
get_or_word_end [] v = refl
get_or_word_end (x ∷ xs) v = rw (suc-add (length xs) 7) (get_or_word_end xs v)

alloc_string-words :
    (memory : ℕ → Block) (len : ℕ)
    → ((n : ℕ) → length (memory n) ≡ 8 * n)
    → alloc_string memory len ≡ take (8 * (len / 8)) (memory ((len + 8) / 8)) ++ tail_word len
unfolding alloc_string blit
alloc_string-words memory len h =
    let m = memory ((len + 8) / 8) in
    let k = 8 * (len / 8) in
    let e0 : 8 * ((len + 8) / 8 - 1) ≡ k = omega arith in
    let e1 : drop (k + 8) m ≡ [] = drop_all (k + 8) m (omega (arith, h ((len + 8) / 8))) in
    let e2 : 8 * ((len + 8) / 8) - 1 - len ≡ 7 - len % 8 = omega arith in
    let e3 : 8 * ((len + 8) / 8) - 1 ≡ length (take k m) + 7 =
      rw (length-take, h ((len + 8) / 8)) (omega arith) in
    rw (e2, e3, e0, e1) (set_word_end (take k m) [] (7 - len % 8))

-- `caml_alloc_initialized_string` makes the image of the bytes, whatever the memory held.
pub alloc_initialized_string-image :
    (memory : ℕ → Block) (p : List ℕ)
    → ((n : ℕ) → length (memory n) ≡ 8 * n)
    → alloc_initialized_string memory p ≡ image p
unfolding alloc_initialized_string blit
alloc_initialized_string-image memory p h =
    let n = length p in
    let front = take (8 * (n / 8)) (memory ((n + 8) / 8)) in
    let e : length front ≡ 8 * (n / 8) = rw (length-take, h ((n + 8) / 8)) (omega arith) in
    let past : drop n (front ++ tail_word n) ≡ drop (n - length front) (tail_word n) =
      drop_past n front (tail_word n) (omega arith) in
    let zeros : drop (n % 8) (tail_word n) ≡ padding (pad_length p) =
      let split : 7 ≡ n % 8 + (7 - n % 8) = omega arith in
      ap (λ k. drop (n % 8) (replicate k 0 ++ ((7 - n % 8) ∷ []))) split
      ∙ drop_zeros (n % 8) (7 - n % 8) _ in
    let r : n - length front ≡ n % 8 = omega arith in
    rw (zero-add n, alloc_string-words memory n h, past, r, zeros)

-- A request for a string that is negative or longer than the longest block is refused.
abbrev pub Created : ℤ → Option Block → Type 0
Created size none = ltb_ℤ size (pos 0) || ltb_ℤ (pos max_length) size ≡ true
Created size (some s) = (pos (string_length s) ≡ size) × (length s % 8 ≡ 0)

alloc_string-length :
    (memory : ℕ → Block) (len : ℕ)
    → ((n : ℕ) → length (memory n) ≡ 8 * n)
    → (string_length (alloc_string memory len) ≡ len) × (length (alloc_string memory len) % 8 ≡ 0)
unfolding string_length
alloc_string-length memory len h =
    let front = take (8 * (len / 8)) (memory ((len + 8) / 8)) in
    let e : length front ≡ 8 * (len / 8) = rw (length-take, h ((len + 8) / 8)) (omega arith) in
    let size : length (front ++ tail_word len) ≡ length front + 8 =
      length-append front (tail_word len) in
    let last : get_or (front ++ tail_word len) (length front + 7) 0 ≡ 7 - len % 8 =
      get_or_word_end front (7 - len % 8) in
    let top : length (front ++ tail_word len) - 1 ≡ length front + 7 = omega arith in
    rw (alloc_string-words memory len h) (rw (top, last) (omega arith), omega arith)

-- `caml_create_bytes` makes a block of whole words for a string of the given length, whatever the memory
-- held, unless the length is negative or more than the longest block can hold.
pub create_bytes-Created :
    (memory : ℕ → Block) (size : ℤ)
    → ((n : ℕ) → length (memory n) ≡ 8 * n)
    → Created size (create_bytes memory size)
unfolding create_bytes
create_bytes-Created memory (negsuc n) h = ground arith
create_bytes-Created memory (pos size) h = ground (arith, alloc_string-length memory size h)
