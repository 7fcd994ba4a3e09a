-- ===== src/Strings.antt =====
-- runtime/str.c, with `caml_alloc_string` and `caml_alloc_initialized_string` of runtime/alloc.c.
-- A string is the bytes of its block: whole words of eight bytes, on a little-endian machine. An integer
-- that is stored is the word of its two's complement, and the bytes shifted into their places, which do
-- not overlap, are added up. `none` is the exception that the function raises.
pub mod Layout
pub mod Access
pub mod Written
pub mod Update
pub mod Equality
pub mod Order
pub mod Names
use trav_lang.Common.{
  ℕ, zero, suc, ◌+◌, ◌-◌, ◌*◌, ◌/◌, ◌%◌, ◌^◌, Bool, true, false, not, List, [], Option, none, some,
  ltb, leb, ◌==◌, if◌then◌else◌, length, get_or, set, take, drop, replicate, blit,
}
use trav_lang.Common.Int.{ℤ, pos, negsuc, pos_part, ltb_ℤ, eqb_ℤ}
use trav_lang.Common.Words.{shr, of_le_bytes}

abbrev pub Block : Type 0
Block = List ℕ

-- `caml_string_length`: the last byte of the block says how much of its end is padding.
unfoldable pub string_length : Block → ℕ
string_length s = let temp = length s - 1 in temp - get_or s temp 0

-- `memory` is what the words of a new block hold. `Field(result, wosize - 1) = 0` clears the last word.
unfoldable pub alloc_string : (ℕ → Block) → ℕ → Block
unfolding blit
alloc_string memory len =
    let wosize = (len + 8) / 8 in
    let offset_index = 8 * wosize - 1 in
    let cleared = blit (memory wosize) (8 * (wosize - 1)) (replicate 8 0) in
    set cleared offset_index (offset_index - len)

unfoldable pub alloc_initialized_string : (ℕ → Block) → Block → Block
unfolding alloc_string blit
alloc_initialized_string memory p = blit (alloc_string memory (length p)) 0 p

-- `size > Bsize_wsize (Max_wosize) - 1`, where a negative length is a large `mlsize_t`.
abbrev pub max_length : ℕ
max_length = 8 * (2 ^ 54 - 1) - 1

unfoldable pub create_bytes : (ℕ → Block) → ℤ → Option Block
unfolding alloc_string
create_bytes memory (negsuc n) = none
create_bytes memory (pos size) =
    if ltb max_length size then none else some (alloc_string memory size)

-- `idx < 0 || idx + k >= caml_string_length(str)`.
abbrev pub out_of_bounds : Block → ℤ → ℕ → Bool
unfolding string_length
out_of_bounds str (negsuc n) k = true
out_of_bounds str (pos idx) k = leb (string_length str) (idx + k)

-- `Byte_u(str, idx + k)`.
abbrev pub byte : Block → ℤ → ℕ → ℕ
byte str idx k = get_or str (pos_part idx + k) 0

abbrev pub set_byte : Block → ℤ → ℕ → ℕ → Block
set_byte str idx k b = set str (pos_part idx + k) b

-- `0xFF & val >> k`.
abbrev pub byte_of : ℕ → ℕ → ℕ
byte_of val k = shr val k % 256

unfoldable pub string_get : Block → ℤ → Option ℕ
unfolding string_length
string_get str idx = if out_of_bounds str idx 0 then none else some (byte str idx 0)

unfoldable pub bytes_set : Block → ℤ → ℕ → Option Block
unfolding string_length
bytes_set str idx newval =
    if out_of_bounds str idx 0 then none else some (set_byte str idx 0 (newval % 256))

unfoldable pub string_get16 : Block → ℤ → Option ℕ
unfolding string_length
string_get16 str idx =
    if out_of_bounds str idx 1 then none else some (byte str idx 1 * 2 ^ 8 + byte str idx 0)

unfoldable pub string_get32 : Block → ℤ → Option ℕ
unfolding string_length
string_get32 str idx =
    if out_of_bounds str idx 3
    then none
    else some (
        byte str idx 3 * 2 ^ 24 + byte str idx 2 * 2 ^ 16 + byte str idx 1 * 2 ^ 8 + byte str idx 0)

unfoldable pub string_get64 : Block → ℤ → Option ℕ
unfolding string_length
string_get64 str idx =
    if out_of_bounds str idx 7
    then none
    else some (
        byte str idx 7 * 2 ^ 56
        + byte str idx 6 * 2 ^ 48
        + byte str idx 5 * 2 ^ 40
        + byte str idx 4 * 2 ^ 32
        + byte str idx 3 * 2 ^ 24
        + byte str idx 2 * 2 ^ 16
        + byte str idx 1 * 2 ^ 8
        + byte str idx 0)

unfoldable pub bytes_set16 : Block → ℤ → ℕ → Option Block
unfolding string_length
bytes_set16 str idx val =
    let s0 = set_byte str idx 0 (byte_of val 0) in
    let s1 = set_byte s0 idx 1 (byte_of val 8) in if out_of_bounds str idx 1 then none else some s1

unfoldable pub bytes_set32 : Block → ℤ → ℕ → Option Block
unfolding string_length
bytes_set32 str idx val =
    let s0 = set_byte str idx 0 (byte_of val 0) in
    let s1 = set_byte s0 idx 1 (byte_of val 8) in
    let s2 = set_byte s1 idx 2 (byte_of val 16) in
    let s3 = set_byte s2 idx 3 (byte_of val 24) in if out_of_bounds str idx 3 then none else some s3

unfoldable pub bytes_set64 : Block → ℤ → ℕ → Option Block
unfolding string_length
bytes_set64 str idx val =
    let s0 = set_byte str idx 0 (byte_of val 0) in
    let s1 = set_byte s0 idx 1 (byte_of val 8) in
    let s2 = set_byte s1 idx 2 (byte_of val 16) in
    let s3 = set_byte s2 idx 3 (byte_of val 24) in
    let s4 = set_byte s3 idx 4 (byte_of val 32) in
    let s5 = set_byte s4 idx 5 (byte_of val 40) in
    let s6 = set_byte s5 idx 6 (byte_of val 48) in
    let s7 = set_byte s6 idx 7 (byte_of val 56) in if out_of_bounds str idx 7 then none else some s7

-- The loop of `caml_string_equal`, on words.
unfoldable pub words_equal : ℕ → Block → Block → Bool
words_equal zero p1 p2 = true
words_equal (suc sz) p1 p2 =
    let rest = words_equal sz (drop 8 p1) (drop 8 p2) in
    if of_le_bytes (take 8 p1) == of_le_bytes (take 8 p2) then rest else false

-- `same` is `s1 == s2`, the comparison of the pointers.
unfoldable pub string_equal : Bool → Block → Block → Bool
unfolding words_equal
string_equal same s1 s2 =
    let sz1 = length s1 / 8 in
    let sz2 = length s2 / 8 in
    let words = words_equal sz1 s1 s2 in if same then true else if sz1 == sz2 then words else false

abbrev pub string_notequal : Bool → Block → Block → Bool
unfolding string_equal
string_notequal same s1 s2 = not (string_equal same s1 s2)

-- `memcmp` of C: the sign of the first difference among `n` bytes.
unfoldable pub memcmp : ℕ → Block → Block → ℤ
memcmp zero p q = pos 0
memcmp (suc n) p q =
    let a = get_or p 0 0 in
    let b = get_or q 0 0 in
    let rest = memcmp n (drop 1 p) (drop 1 q) in
    if ltb a b then negsuc 0 else if ltb b a then pos 1 else rest

unfoldable pub string_compare : Bool → Block → Block → ℤ
unfolding string_length memcmp
string_compare same s1 s2 =
    let len1 = string_length s1 in
    let len2 = string_length s2 in
    let res = memcmp (if leb len1 len2 then len1 else len2) s1 s2 in
    if same
    then pos 0
    else if ltb_ℤ res (pos 0)
    then negsuc 0
    else if ltb_ℤ (pos 0) res
    then pos 1
    else if ltb len1 len2
    then negsuc 0
    else if ltb len2 len1
    then pos 1
    else pos 0

abbrev pub string_lessthan : Bool → Block → Block → Bool
unfolding string_compare
string_lessthan same s1 s2 = ltb_ℤ (string_compare same s1 s2) (pos 0)

abbrev pub string_lessequal : Bool → Block → Block → Bool
unfolding string_compare
string_lessequal same s1 s2 = not (ltb_ℤ (pos 0) (string_compare same s1 s2))

abbrev pub string_greaterthan : Bool → Block → Block → Bool
unfolding string_compare
string_greaterthan same s1 s2 = ltb_ℤ (pos 0) (string_compare same s1 s2)

abbrev pub string_greaterequal : Bool → Block → Block → Bool
unfolding string_compare
string_greaterequal same s1 s2 = not (ltb_ℤ (string_compare same s1 s2) (pos 0))

-- `memmove` reads the whole source before it writes, so `s1` and `s2` may be the same block.
unfoldable pub blit_bytes : Block → ℕ → Block → ℕ → ℕ → Block
unfolding blit
blit_bytes s1 ofs1 s2 ofs2 n = blit s2 ofs2 (take n (drop ofs1 s1))

unfoldable pub fill_bytes : Block → ℕ → ℕ → ℕ → Block
unfolding blit
fill_bytes s offset len init = blit s offset (replicate len (init % 256))
