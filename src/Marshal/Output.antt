-- ===== src/Marshal/Output.antt =====
-- runtime/extern.c: the codes of marshalled data, on a 64-bit machine. The output is the list of the bytes that
-- are written, where the buffer of the C code grows, and `none` is an exception.
use trav_lang.Common.{
  ℕ, zero, suc, ◌+◌, ◌-◌, ◌*◌, ◌/◌, ◌%◌, ◌^◌, Bool, false, not, ◌&&◌, List, [], ◌∷◌, ◌++◌, length,
  leb, ltb, ◌==◌, if◌then◌else◌, Option, none, some, ◌>>=◌,
}
use trav_lang.Common.Int.{ℤ, pos, negsuc}

-- The word of an `intnat`.
abbrev pub to_word : ℤ → ℕ
to_word (pos n) = n % 2 ^ 64
to_word (negsuc n) = 2 ^ 64 - 1 - n % 2 ^ 64

abbrev pub store16 : ℕ → List ℕ
store16 n = (n / 2 ^ 8 % 256) ∷ (n % 256) ∷ []

abbrev pub store32 : ℕ → List ℕ
store32 n = (n / 2 ^ 24 % 256) ∷ (n / 2 ^ 16 % 256) ∷ (n / 2 ^ 8 % 256) ∷ (n % 256) ∷ []

abbrev pub store64 : ℕ → List ℕ
store64 n =
    (n / 2 ^ 56 % 256)
    ∷ (n / 2 ^ 48 % 256)
    ∷ (n / 2 ^ 40 % 256)
    ∷ (n / 2 ^ 32 % 256)
    ∷ (n / 2 ^ 24 % 256)
    ∷ (n / 2 ^ 16 % 256)
    ∷ (n / 2 ^ 8 % 256)
    ∷ (n % 256)
    ∷ []

-- The second loop of `storevlq`, which writes backwards; a word has at most ten digits of seven bits.
unfoldable pub vlq_digits : ℕ → ℕ → List ℕ → List ℕ
vlq_digits zero n dst = dst
vlq_digits (suc fuel) n dst =
    let more = vlq_digits fuel (n / 2 ^ 7) ((0x80 + n % 0x80) ∷ dst) in if n == 0 then dst else more

unfoldable pub storevlq : ℕ → List ℕ
unfolding vlq_digits
storevlq n = vlq_digits 9 (n / 2 ^ 7) ((n % 0x80) ∷ [])

abbrev pub writebyte : ℕ → List ℕ
writebyte c = (c % 256) ∷ []

abbrev pub writecode8 : ℕ → ℕ → List ℕ
writecode8 code val = code ∷ (val % 256) ∷ []

abbrev pub writecode16 : ℕ → ℕ → List ℕ
writecode16 code val = code ∷ store16 val

abbrev pub writecode32 : ℕ → ℕ → List ℕ
writecode32 code val = code ∷ store32 val

abbrev pub writecode64 : ℕ → ℕ → List ℕ
writecode64 code val = code ∷ store64 val

-- `n >= -(1 << k) && n < (1 << k)`.
abbrev pub fits : ℕ → ℤ → Bool
fits k (pos n) = ltb n (2 ^ k)
fits k (negsuc n) = ltb n (2 ^ k)

-- `n >= 0 && n < 0x40`.
abbrev pub is_small : ℤ → Bool
is_small (pos n) = ltb n 0x40
is_small (negsuc n) = false

-- `compat32` is the flag `COMPAT_32`.
unfoldable pub extern_int : Bool → ℤ → Option (List ℕ)
extern_int compat32 n =
    if is_small n
    then some (writebyte (0x40 + to_word n))
    else if fits 7 n
    then some (writecode8 0 (to_word n))
    else if fits 15 n
    then some (writecode16 1 (to_word n))
    else if not (fits 30 n)
    then (if compat32 then none else some (writecode64 3 (to_word n)))
    else some (writecode32 2 (to_word n))

unfoldable pub extern_shared_reference : ℕ → List ℕ
extern_shared_reference d =
    if ltb d 0x100
    then writecode8 4 d
    else if ltb d 0x10000
    then writecode16 5 d
    else if leb (2 ^ 32) d
    then writecode64 0x14 d
    else writecode32 6 d

-- `Make_header(sz, tag, NOT_MARKABLE)`, without reserved bits.
abbrev pub make_header : ℕ → ℕ → ℕ
make_header sz tag = (sz * 2 ^ 10 + 3 * 2 ^ 8 + tag) % 2 ^ 64

unfoldable pub extern_header : Bool → ℕ → ℕ → Option (List ℕ)
extern_header compat32 sz tag =
    let hd = make_header sz tag in
    if ltb tag 16 && ltb sz 8
    then some (writebyte (0x80 + tag + sz * 2 ^ 4))
    else if ltb 0x3fffff sz && compat32
    then none
    else if ltb hd (2 ^ 32)
    then some (writecode32 8 hd)
    else some (writecode64 0x13 hd)

-- The code of a string's length.
unfoldable pub string_code : Bool → ℕ → Option (List ℕ)
string_code compat32 len =
    if ltb len 0x20
    then some (writebyte (0x20 + len))
    else if ltb len 0x100
    then some (writecode8 9 len)
    else if ltb 0xfffffb len && compat32
    then none
    else if ltb len (2 ^ 32)
    then some (writecode32 0xa len)
    else some (writecode64 0x15 len)

unfoldable pub extern_string : Bool → List ℕ → Option (List ℕ)
unfolding string_code
extern_string compat32 bytes = do code ← string_code compat32 (length bytes); some (code ++ bytes)
