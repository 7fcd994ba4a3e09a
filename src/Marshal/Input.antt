-- ===== src/Marshal/Input.antt =====
-- runtime/intern.c: the codes of marshalled data, on a 64-bit machine. The input is the list of the bytes to be
-- read, and `none` a read behind its end.
use trav_lang.Common.{
  ℕ, ◌+◌, ◌-◌, ◌*◌, ◌/◌, ◌%◌, ◌^◌, Bool, false, not, ◌||◌, List, [], ◌∷◌, length, take, drop, leb,
  ltb, ◌==◌, if◌then◌else◌, Option, none, some,
}
use trav_lang.Common.Int.{ℤ, pos, negsuc}

-- The signed number of a word of `w` bits.
abbrev pub to_signed : ℕ → ℕ → ℤ
to_signed w x = if ltb x (2 ^ (w - 1)) then pos x else negsuc (2 ^ w - 1 - x)

-- A reader leaves the bytes that follow.
abbrev pub Read : Type 0 → Type 0
Read A = List ℕ → Option (A × List ℕ)

unfoldable pub read8u : Read ℕ
read8u (a ∷ src) = some (a, src)
read8u _ = none

unfoldable pub read16u : Read ℕ
read16u (a ∷ b ∷ src) = some ((a * 2 ^ 8 + b) % 2 ^ 16, src)
read16u _ = none

unfoldable pub read32u : Read ℕ
read32u (a ∷ b ∷ c ∷ d ∷ src) = some ((a * 2 ^ 24 + b * 2 ^ 16 + c * 2 ^ 8 + d) % 2 ^ 32, src)
read32u _ = none

unfoldable pub read64u : Read ℕ
read64u (a ∷ b ∷ c ∷ d ∷ e ∷ f ∷ g ∷ h ∷ src) = some (
  (a * 2 ^ 56 + b * 2 ^ 48 + c * 2 ^ 40 + d * 2 ^ 32 + e * 2 ^ 24 + f * 2 ^ 16 + g * 2 ^ 8 + h)
      % 2 ^ 64,
  src,
)
read64u _ = none

-- `readvlq`: the first component tells whether the number does not fit into a word.
unfoldable pub readvlq_loop : ℕ → Bool → ℕ → Read (Bool × ℕ)
readvlq_loop c retcode n [] = if ltb c 0x80 then some ((retcode, n), []) else none
readvlq_loop c retcode n (c' ∷ src) =
    let n7 = n * 2 ^ 7 % 2 ^ 64 in
    let rest = readvlq_loop c' (retcode || not (n == n7 / 2 ^ 7)) (n7 + c' % 0x80) src in
    if ltb c 0x80 then some ((retcode, n), c' ∷ src) else rest

unfoldable pub readvlq : Read (Bool × ℕ)
unfolding readvlq_loop
readvlq [] = none
readvlq (c ∷ src) = readvlq_loop c false (c % 0x80) src

-- What `intern_rec` finds at the head of an item: an integer, a reference to an object, the size and the tag of
-- a block, a string, or another code, which this is not about.
pub data Item : Type 0 where
  long : ℤ → Item
  shared : ℕ → Item
  block : ℕ → ℕ → Item
  string : List ℕ → Item
  other : ℕ → Item

abbrev pub read_string : ℕ → Read Item
read_string len src =
    if leb len (length src) then some (string (take len src), drop len src) else none

-- `Wosize_hd(header)` and `Tag_hd(header)`.
abbrev pub header_block : ℕ → Item
header_block header = block (header / 2 ^ 10) (header % 2 ^ 8)

abbrev pub as_item : (ℕ → Item) → Option (ℕ × List ℕ) → Option (Item × List ℕ)
as_item f none = none
as_item f (some (x, src)) = some (f x, src)

abbrev pub as_string : Option (ℕ × List ℕ) → Option (Item × List ℕ)
as_string none = none
as_string (some (len, src)) = read_string len src

-- The codes below the prefixes.
unfoldable pub read_code : ℕ → Read Item
unfolding read8u read16u read32u read64u
read_code code src =
    if code == 0
    then as_item (λ x. long (to_signed 8 x)) (read8u src)
    else if code == 1
    then as_item (λ x. long (to_signed 16 x)) (read16u src)
    else if code == 2
    then as_item (λ x. long (to_signed 32 x)) (read32u src)
    else if code == 3
    then as_item (λ x. long (to_signed 63 (x % 2 ^ 63))) (read64u src)
    else if code == 4
    then as_item shared (read8u src)
    else if code == 5
    then as_item shared (read16u src)
    else if code == 6
    then as_item shared (read32u src)
    else if code == 0x14
    then as_item shared (read64u src)
    else if code == 8
    then as_item header_block (read32u src)
    else if code == 0x13
    then as_item header_block (read64u src)
    else if code == 9
    then as_string (read8u src)
    else if code == 0xa
    then as_string (read32u src)
    else if code == 0x15
    then as_string (read64u src)
    else some (other code, src)

unfoldable pub read_item : Read Item
unfolding read_code
read_item [] = none
read_item (code ∷ src) =
    if leb 0x40 code
    then if leb 0x80 code
      then some (block (code / 2 ^ 4 % 8) (code % 16), src)
      else some (long (pos (code % 0x40)), src)
    else if leb 0x20 code
    then read_string (code % 0x20) src
    else read_code code src
