-- ===== src/Strings/Access.antt =====
-- runtime/str.c: the checked reads and writes of 8, 16, 32 and 64 bits, on the content of a string.
use trav_lang.Common.{
  ℕ, zero, suc, ◌+◌, ◌*◌, ◌≤◌, ◌<◌, ◌≡◌, refl, List, [], ◌∷◌, length, get_or, take, drop, arith,
  Option, none, some, leb, if◌then◌else◌,
}
use native.Mathlib.Nat.{suc-add}
use trav_lang.Common.Int.{ℤ, pos, negsuc}
use trav_lang.Common.Words.{of_le_bytes}
use trav_lang.Strings.Layout.{image, get_or_prefix, string_length-image, padding, pad_length}
use trav_lang.Strings.{Block, string_get, string_get16, string_get32, string_get64}

-- `n` bytes at `i`, as a number; none where they do not all lie in the content.
abbrev pub read : ℕ → List ℕ → ℤ → Option ℕ
read n xs (negsuc i) = none
read n xs (pos i) =
    if leb (i + n) (length xs) then some (of_le_bytes (take n (drop i xs))) else none

-- A read of the content starts with its first byte.
read_byte :
    (n : ℕ) (xs : List ℕ) (i : ℕ)
    → i < length xs
    → of_le_bytes (take (suc n) (drop i xs))
      ≡ get_or xs i 0 + 256 * of_le_bytes (take n (drop (i + 1) xs))
read_byte n [] i h = absurd (omega arith)
read_byte n (x ∷ xs) zero h = refl
read_byte n (x ∷ xs) (suc i) h = rw (suc-add i 1) (read_byte n xs i (omega arith))

-- The value of the first `n` bytes from `i` on, byte by byte.
bytes_from : ℕ → List ℕ → ℕ → ℕ
bytes_from zero xs i = 0
bytes_from (suc n) xs i = get_or xs i 0 + 256 * bytes_from n xs (i + 1)

bytes_from-read :
    (n : ℕ) (xs : List ℕ) (i : ℕ)
    → i + n ≤ length xs
    → of_le_bytes (take n (drop i xs)) ≡ bytes_from n xs i
unfolding bytes_from
bytes_from-read zero xs i h = refl
bytes_from-read (suc n) xs i h =
    rw (read_byte n xs i (omega arith), bytes_from-read n xs (i + 1) (omega arith))

byte_at :
    (xs : List ℕ) (i k : ℕ) → i + k < length xs → get_or (image xs) (i + k) 0 ≡ get_or xs (i + k) 0
byte_at xs i k h = get_or_prefix xs (padding (pad_length xs)) (i + k) 0 h

-- Each read of a string's image is the read of its content.
abbrev pub Reads : ℕ → (Block → ℤ → Option ℕ) → Type 0
Reads n get = (xs : List ℕ) (i : ℤ) → get (image xs) i ≡ read n xs i

pub string_get-Reads : Reads 1 string_get
unfolding string_get bytes_from
string_get-Reads xs (negsuc i) = refl
string_get-Reads xs (pos i) =
    ground (arith, string_length-image xs, bytes_from-read 1 xs i, byte_at xs i 0)

pub string_get16-Reads : Reads 2 string_get16
unfolding string_get16 bytes_from
string_get16-Reads xs (negsuc i) = refl
string_get16-Reads xs (pos i) =
    ground (arith, string_length-image xs, bytes_from-read 2 xs i, byte_at xs i 0, byte_at xs i 1)

pub string_get32-Reads : Reads 4 string_get32
unfolding string_get32 bytes_from
string_get32-Reads xs (negsuc i) = refl
string_get32-Reads xs (pos i) = ground (
  arith,
  string_length-image xs,
  bytes_from-read 4 xs i,
  byte_at xs i 0,
  byte_at xs i 1,
  byte_at xs i 2,
  byte_at xs i 3,
)

pub string_get64-Reads : Reads 8 string_get64
unfolding string_get64 bytes_from
string_get64-Reads xs (negsuc i) = refl
string_get64-Reads xs (pos i) = ground (
  arith,
  string_length-image xs,
  bytes_from-read 8 xs i,
  byte_at xs i 0,
  byte_at xs i 1,
  byte_at xs i 2,
  byte_at xs i 3,
  byte_at xs i 4,
  byte_at xs i 5,
  byte_at xs i 6,
  byte_at xs i 7,
)

-- `string_get`, `string_get16`, `string_get32` and `string_get64` read 1, 2, 4 and 8 bytes of the content
-- in little-endian order, and raise where these do not all lie in it, whatever the index.
pub string_get-read :
    (xs : List ℕ) (i : ℤ)
    → (string_get (image xs) i ≡ read 1 xs i)
      × (string_get16 (image xs) i ≡ read 2 xs i)
      × (string_get32 (image xs) i ≡ read 4 xs i)
      × (string_get64 (image xs) i ≡ read 8 xs i)
string_get-read xs i = (
  string_get-Reads xs i,
  string_get16-Reads xs i,
  string_get32-Reads xs i,
  string_get64-Reads xs i,
)
