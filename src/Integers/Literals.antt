-- ===== src/Integers/Literals.antt =====
-- runtime/ints.c: `parse_sign_and_base`, `parse_digit`, `parse_intnat` and `caml_int64_of_string`.
-- A string is its bytes, read with the zero that follows them in its block. Words are natural numbers
-- below 2 ^ 64; `none` is `caml_failwith`.
use trav_lang.Common.{
  ℕ, ◌+◌, ◌-◌, ◌*◌, ◌/◌, ◌%◌, ◌^◌, Bool, true, false, ◌&&◌, List, [], ◌∷◌, Option, none, some,
  ◌>>=◌, ltb, leb, ◌==◌, if◌then◌else◌, get_or, drop,
}

-- `*p`, and `p + n`.
abbrev pub peek : List ℕ → ℕ
peek p = get_or p 0 0

-- What `parse_sign_and_base` leaves: the rest of the string, `*base`, `*signedness`, and whether `*sign < 0`.
pub record Prefix : Type 0 where
  pub rest : List ℕ
  pub base : ℕ
  pub signedness : Bool
  pub negative : Bool

abbrev pub is_either : ℕ → ℕ → ℕ → Bool
is_either c a b = if c == a then true else c == b

-- The switch on `p[1]`.
unfoldable pub parse_base : Bool → List ℕ → Prefix
parse_base negative p =
    let c = get_or p 1 0 in
    let at : ℕ → Prefix =
      λ b. record { rest = drop 2 p; base = b; signedness = false; negative = negative } in
    let decimal : Prefix = record { rest = p; base = 10; signedness = true; negative = negative } in
    if peek p == b'0'
    then if is_either c b'x' b'X'
      then at 16
      else if is_either c b'o' b'O'
      then at 8
      else if is_either c b'b' b'B'
      then at 2
      else if is_either c b'u' b'U'
      then at 10
      else decimal
    else decimal

unfoldable pub parse_sign_and_base : List ℕ → Prefix
unfolding parse_base
parse_sign_and_base p =
    if peek p == b'-'
    then parse_base true (drop 1 p)
    else if peek p == b'+'
    then parse_base false (drop 1 p)
    else parse_base false p

-- none is -1.
unfoldable pub parse_digit : ℕ → Option ℕ
parse_digit c =
    if leb b'0' c && leb c b'9'
    then some (c - b'0')
    else if leb b'A' c && leb c b'F'
    then some (c - b'A' + 10)
    else if leb b'a' c && leb c b'f'
    then some (c - b'a' + 10)
    else none

-- `d = parse_digit(c)` with the test `d < 0 || d >= base`.
unfoldable pub digit_in : ℕ → ℕ → Option ℕ
unfolding parse_digit
digit_in base c = parse_digit c >>= (λ d. if leb base d then none else some d)

-- The loop from `for` to the test that it has stopped at the end of the string.
unfoldable pub parse_loop : ℕ → ℕ → ℕ → List ℕ → Option ℕ
unfolding digit_in
parse_loop base threshold res [] = some res
parse_loop base threshold res (c ∷ p) =
    let skipped = parse_loop base threshold res p in
    let next : ℕ → Option ℕ = λ d. parse_loop base threshold ((base * res + d) % 2 ^ 64) p in
    let sum : ℕ → ℕ = λ d. (base * res + d) % 2 ^ 64 in
    if c == b'_'
    then skipped
    else digit_in base c
      >>= (λ d. if ltb threshold res then none else if ltb (sum d) d then none else next d)

-- The digits: the first one is wanted.
unfoldable pub parse_digits : ℕ → List ℕ → Option ℕ
unfolding digit_in parse_loop
parse_digits base p =
    digit_in base (peek p) >>= (λ d. parse_loop base ((2 ^ 64 - 1) / base) d (drop 1 p))

-- `-((intnat) res)` for a negative sign.
abbrev pub apply_sign : Bool → ℕ → ℕ
apply_sign negative res = if negative then (2 ^ 64 - res) % 2 ^ 64 else res

-- The range checks of `parse_intnat`.
unfoldable pub check_range : ℕ → Prefix → ℕ → Bool
check_range nbits q res =
    if q.signedness
    then if q.negative then leb res (2 ^ (nbits - 1)) else ltb res (2 ^ (nbits - 1))
    else if ltb nbits 64
    then ltb res (2 ^ nbits)
    else true

unfoldable pub parse_intnat : ℕ → List ℕ → Option ℕ
unfolding parse_sign_and_base parse_digits check_range
parse_intnat nbits s =
    let q = parse_sign_and_base s in
    parse_digits q.base q.rest
    >>= (λ res. if check_range nbits q res then some (apply_sign q.negative res) else none)

unfoldable pub int64_of_string : List ℕ → Option ℕ
unfolding parse_sign_and_base parse_digits
int64_of_string s =
    let q = parse_sign_and_base s in
    let fits : ℕ → Bool = λ res.
      if q.signedness then if q.negative then leb res (2 ^ 63) else ltb res (2 ^ 63) else true in
    parse_digits q.base q.rest
    >>= (λ res. if fits res then some (apply_sign q.negative res) else none)

-- `caml_int_of_string`, as the untagged number modulo 2 ^ 63 that `Val_long` keeps.
unfoldable pub int_of_string : List ℕ → Option ℕ
unfolding parse_intnat
int_of_string s = parse_intnat 63 s >>= (λ n. some (n % 2 ^ 63))

unfoldable pub int32_of_string : List ℕ → Option ℕ
unfolding parse_intnat
int32_of_string s = parse_intnat 32 s >>= (λ n. some (n % 2 ^ 32))

unfoldable pub nativeint_of_string : List ℕ → Option ℕ
unfolding parse_intnat
nativeint_of_string s = parse_intnat 64 s
