-- ===== src/Integers/Words.antt =====
-- runtime/ints.c: the operations on the 32-bit, 64-bit and native integers of a 64-bit machine.
-- An integer is the word of its two's complement, a natural number below 2 ^ 32 or 2 ^ 64, and the C
-- operators are those on words, with the wrap-around written out. Bytes moved to disjoint places are added
-- up.
use trav_lang.Common.{
  ℕ, ◌+◌, ◌-◌, ◌*◌, ◌/◌, ◌%◌, ◌^◌, Bool, true, false, not, ltb, leb, ◌==◌, if◌then◌else◌,
}
use trav_lang.Common.Int.{ℤ, pos, negsuc}

-- The C operators on words of `w` bits. The sign is the top bit.
abbrev pub wrap : ℕ → ℕ → ℕ
wrap w x = x % 2 ^ w

abbrev pub absolute : ℕ → ℕ → ℕ
absolute w x = if ltb x (2 ^ (w - 1)) then x else 2 ^ w - x

abbrev pub with_sign : ℕ → Bool → ℕ → ℕ
with_sign w negative n = if negative then wrap w (2 ^ w - n) else n

abbrev pub is_negative : ℕ → ℕ → Bool
is_negative w x = leb (2 ^ (w - 1)) x

abbrev pub xor : Bool → Bool → Bool
xor true b = not b
xor false b = b

-- What a division gives: a word, the exception of `caml_raise_zero_divide`, or what C leaves undefined, where
-- processors trap.
pub data Division : Type 0 where
  yields : ℕ → Division
  raises : Division
  undefined : Division

-- C does not define the division by zero and that of the least integer by -1.
abbrev pub is_undefined : ℕ → ℕ → ℕ → Bool
is_undefined w a b = if b == 0 then true else if a == 2 ^ (w - 1) then b == 2 ^ w - 1 else false

abbrev pub rounded : ℕ → ℕ → ℕ → ℕ
rounded w a b = with_sign w (xor (is_negative w a) (is_negative w b)) (absolute w a / absolute w b)

abbrev pub rest_of : ℕ → ℕ → ℕ → ℕ
rest_of w a b = with_sign w (is_negative w a) (absolute w a % absolute w b)

-- `a / b` and `a % b` of C: the quotient is rounded to zero, the remainder has the sign of `a`.
unfoldable pub quotient : ℕ → ℕ → ℕ → Division
quotient w a b = if is_undefined w a b then undefined else yields (rounded w a b)

unfoldable pub remainder : ℕ → ℕ → ℕ → Division
remainder w a b = if is_undefined w a b then undefined else yields (rest_of w a b)

-- `COMPARE_INT`, on signed words.
unfoldable pub compare_int : ℕ → ℕ → ℕ → ℤ
compare_int w a b =
    let less =
      if is_negative w a
      then (if is_negative w b then ltb a b else true)
      else if is_negative w b
      then false
      else ltb a b in
    if a == b then pos 0 else if less then negsuc 0 else pos 1

unfoldable pub int32_neg : ℕ → ℕ
int32_neg v = wrap 32 (2 ^ 32 - v)

unfoldable pub int32_add : ℕ → ℕ → ℕ
int32_add v1 v2 = wrap 32 (v1 + v2)

unfoldable pub int32_sub : ℕ → ℕ → ℕ
int32_sub v1 v2 = wrap 32 (v1 + (2 ^ 32 - v2))

unfoldable pub int32_mul : ℕ → ℕ → ℕ
int32_mul v1 v2 = wrap 32 (v1 * v2)

unfoldable pub int32_div : ℕ → ℕ → Division
unfolding quotient
int32_div dividend divisor =
    if divisor == 0
    then raises
    else if if dividend == 2 ^ 31 then divisor == 2 ^ 32 - 1 else false
    then yields dividend
    else quotient 32 dividend divisor

unfoldable pub int32_mod : ℕ → ℕ → Division
unfolding remainder
int32_mod dividend divisor =
    if divisor == 0
    then raises
    else if if dividend == 2 ^ 31 then divisor == 2 ^ 32 - 1 else false
    then yields 0
    else remainder 32 dividend divisor

unfoldable pub int64_neg : ℕ → ℕ
int64_neg v = wrap 64 (2 ^ 64 - v)

unfoldable pub int64_add : ℕ → ℕ → ℕ
int64_add v1 v2 = wrap 64 (v1 + v2)

unfoldable pub int64_sub : ℕ → ℕ → ℕ
int64_sub v1 v2 = wrap 64 (v1 + (2 ^ 64 - v2))

unfoldable pub int64_mul : ℕ → ℕ → ℕ
int64_mul v1 v2 = wrap 64 (v1 * v2)

unfoldable pub int64_div : ℕ → ℕ → Division
unfolding quotient
int64_div dividend divisor =
    if divisor == 0
    then raises
    else if if dividend == 2 ^ 63 then divisor == 2 ^ 64 - 1 else false
    then yields dividend
    else quotient 64 dividend divisor

unfoldable pub int64_mod : ℕ → ℕ → Division
unfolding remainder
int64_mod dividend divisor =
    if divisor == 0
    then raises
    else if if dividend == 2 ^ 63 then divisor == 2 ^ 64 - 1 else false
    then yields 0
    else remainder 64 dividend divisor

unfoldable pub nativeint_neg : ℕ → ℕ
nativeint_neg v = wrap 64 (2 ^ 64 - v)

unfoldable pub nativeint_add : ℕ → ℕ → ℕ
nativeint_add v1 v2 = wrap 64 (v1 + v2)

unfoldable pub nativeint_sub : ℕ → ℕ → ℕ
nativeint_sub v1 v2 = wrap 64 (v1 + (2 ^ 64 - v2))

unfoldable pub nativeint_mul : ℕ → ℕ → ℕ
nativeint_mul v1 v2 = wrap 64 (v1 * v2)

unfoldable pub nativeint_div : ℕ → ℕ → Division
unfolding quotient
nativeint_div dividend divisor =
    if divisor == 0
    then raises
    else if if dividend == 2 ^ 63 then divisor == 2 ^ 64 - 1 else false
    then yields dividend
    else quotient 64 dividend divisor

unfoldable pub nativeint_mod : ℕ → ℕ → Division
unfolding remainder
nativeint_mod dividend divisor =
    if divisor == 0
    then raises
    else if if dividend == 2 ^ 63 then divisor == 2 ^ 64 - 1 else false
    then yields 0
    else remainder 64 dividend divisor

-- Byte `k` of `x`.
abbrev pub swap_byte : ℕ → ℕ → ℕ
swap_byte x k = x / 2 ^ (8 * k) % 256

unfoldable pub swap32 : ℕ → ℕ
swap32 x = swap_byte x 0 * 2 ^ 24 + swap_byte x 1 * 2 ^ 16 + swap_byte x 2 * 2 ^ 8 + swap_byte x 3

unfoldable pub swap64 : ℕ → ℕ
swap64 x =
    swap_byte x 0 * 2 ^ 56
    + swap_byte x 1 * 2 ^ 48
    + swap_byte x 2 * 2 ^ 40
    + swap_byte x 3 * 2 ^ 32
    + swap_byte x 4 * 2 ^ 24
    + swap_byte x 5 * 2 ^ 16
    + swap_byte x 6 * 2 ^ 8
    + swap_byte x 7

unfoldable pub bswap16 : ℕ → ℕ
bswap16 x = swap_byte x 0 * 2 ^ 8 + swap_byte x 1

-- `caml_int32_of_int`, `caml_int64_of_int32` and the like: truncation, and sign extension.
unfoldable pub int32_of_int : ℕ → ℕ
int32_of_int v = wrap 32 v

unfoldable pub int64_of_int32 : ℕ → ℕ
int64_of_int32 v = if is_negative 32 v then v + (2 ^ 64 - 2 ^ 32) else v

-- `int32_cmp` and `caml_int32_compare`.
unfoldable pub int32_cmp : ℕ → ℕ → ℤ
unfolding compare_int
int32_cmp v1 v2 = compare_int 32 v1 v2

unfoldable pub int32_compare : ℕ → ℕ → ℤ
unfolding compare_int
int32_compare v1 v2 = compare_int 32 v1 v2

-- `int64_cmp` and `caml_int64_compare`.
unfoldable pub int64_cmp : ℕ → ℕ → ℤ
unfolding compare_int
int64_cmp v1 v2 = compare_int 64 v1 v2

unfoldable pub int64_compare : ℕ → ℕ → ℤ
unfolding compare_int
int64_compare v1 v2 = compare_int 64 v1 v2

-- `nativeint_cmp` and `caml_nativeint_compare`.
unfoldable pub nativeint_cmp : ℕ → ℕ → ℤ
unfolding compare_int
nativeint_cmp v1 v2 = compare_int 64 v1 v2

unfoldable pub nativeint_compare : ℕ → ℕ → ℤ
unfolding compare_int
nativeint_compare v1 v2 = compare_int 64 v1 v2

unfoldable pub int32_bswap : ℕ → ℕ
unfolding swap32
int32_bswap v = wrap 32 (swap32 v)

unfoldable pub int64_bswap : ℕ → ℕ
int64_bswap x =
    swap_byte x 0 * 2 ^ 56
    + swap_byte x 1 * 2 ^ 48
    + swap_byte x 2 * 2 ^ 40
    + swap_byte x 3 * 2 ^ 32
    + swap_byte x 4 * 2 ^ 24
    + swap_byte x 5 * 2 ^ 16
    + swap_byte x 6 * 2 ^ 8
    + swap_byte x 7

unfoldable pub nativeint_bswap : ℕ → ℕ
unfolding swap64
nativeint_bswap v = swap64 v
