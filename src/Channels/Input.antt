-- ===== src/Channels/Input.antt =====
-- runtime/io.c: buffered input. The buffer holds what was read in the places from `curr` to `max`.
use trav_lang.Common.{
  ℕ, zero, suc, ◌+◌, ◌-◌, ◌*◌, ◌^◌, min, Bool, List, [], ◌∷◌, ◌++◌, ltb, leb, ◌==◌, if◌then◌else◌,
  length, take, drop, blit, get_or,
}

-- What a call of the operating system's `read` gives: some of the bytes that there are, at most so many, or
-- `EINTR`, or another error.
pub data Reading : Type 0 where
  granted : ℕ → Reading
  interrupted : Reading
  failed : Reading

-- An input channel, with the bytes that are still to be read and the replies of the system.
pub record InputChannel : Type 0 where
  pub buff : List ℕ
  pub curr : ℕ
  pub max : ℕ
  pub offset : ℕ
  pub text_mode : Bool
  pub file : List ℕ
  pub readings : List Reading

pub data Given {ℓ} (A : Type ℓ) : Type ℓ where
  given : A → InputChannel → Given A
  end_of_file : InputChannel → Given A
  raised : InputChannel → Given A
  waiting : Given A
  no_fuel : Given A

abbrev pub and_then {ℓ κ} :
    {A : Type ℓ} {B : Type κ} → Given A → (A → InputChannel → Given B) → Given B
and_then (given a c) f = f a c
and_then (end_of_file c) f = end_of_file c
and_then (raised c) f = raised c
and_then waiting f = waiting
and_then no_fuel f = no_fuel

-- `caml_read_fd` into the buffer, again where it was interrupted.
unfoldable pub read_fd : List Reading → InputChannel → Given ℕ
unfolding blit
read_fd [] c = waiting
read_fd (granted k ∷ rs) c =
    let n = min k (min (length c.buff) (length c.file)) in
    given n (record c { buff = blit c.buff 0 (take n c.file); file = drop n c.file; readings = rs })
read_fd (interrupted ∷ rs) c = read_fd rs c
read_fd (failed ∷ rs) c = raised (record c { readings = rs })

unfoldable pub refill : InputChannel → Given ℕ
unfolding read_fd
refill c = and_then (read_fd c.readings c) (λ n c'.
    if n == 0
    then end_of_file c'
    else given (get_or c'.buff 0 0) (record c' { offset = c.offset + n; max = n; curr = 1 }))

unfoldable pub getch : InputChannel → Given ℕ
unfolding refill
getch c =
    if leb c.max c.curr
    then refill c
    else given (get_or c.buff c.curr 0) (record c { curr = c.curr + 1 })

unfoldable pub getword : InputChannel → Given ℕ
unfolding getch
getword c =
    if c.text_mode
    then raised c
    else and_then (getch c) (λ a c1. and_then (getch c1) (λ b c2.
      and_then (getch c2)
        (λ d c3. and_then (getch c3) (λ e c4. given (((a * 256 + b) * 256 + d) * 256 + e) c4))))

-- The `n` bytes from `curr` on.
abbrev pub copied_from : ℕ → InputChannel → Given (List ℕ)
copied_from n c = given (take n (drop c.curr c.buff)) (record c { curr = c.curr + n })

-- `caml_getblock` gives the bytes that it copies.
unfoldable pub getblock : InputChannel → ℕ → Given (List ℕ)
unfolding read_fd
getblock c len =
    let n = min len (2 ^ 31 - 1) in
    let avail = c.max - c.curr in
    if leb n avail
    then copied_from n c
    else if ltb 0 avail
    then copied_from avail c
    else and_then (read_fd c.readings c) (λ nread c'.
      copied_from (min n nread) (record c' { offset = c.offset + nread; max = nread; curr = 0 }))

-- The loop of `caml_really_getblock`.
unfoldable pub getblock_loop : ℕ → InputChannel → ℕ → Given (List ℕ)
unfolding getblock
getblock_loop zero c k = no_fuel
getblock_loop (suc fuel) c k =
    if k == 0
    then given [] c
    else and_then (getblock c k) (λ bs c'.
      if length bs == 0
      then given [] c'
      else and_then (getblock_loop fuel c' (k - length bs)) (λ rest c''. given (bs ++ rest) c''))

unfoldable pub really_getblock : InputChannel → ℕ → Given (List ℕ)
unfolding getblock_loop
really_getblock c n = getblock_loop (n + 1) c n
