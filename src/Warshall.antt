-- ===== src/Warshall.antt =====
-- yacc/warshall.c: the transitive closure of a relation, as a matrix of bits in words of 32 bits.
pub mod Bits
pub mod Rows
pub mod Closure
pub mod Paths
pub mod Diagonal
use Prim.Native.Nat.{bit_or}
use trav_lang.Common.{
  ℕ, zero, suc, ◌+◌, ◌*◌, ◌/◌, ◌%◌, ◌^◌, Bool, true, false, List, [], ◌∷◌, get_or, set, ◌==◌,
  if◌then◌else◌,
}
use trav_lang.Common.Words.{shl}

-- The rows of the matrix `R`.
abbrev pub Matrix : Type 0
Matrix = List (List ℕ)

-- `while (rowj < rend) *rowj++ |= *rp++;`
abbrev pub or_row : List ℕ → List ℕ → List ℕ
or_row (a ∷ rowj) (b ∷ rp) = bit_or a b ∷ or_row rowj rp
or_row rowj rp = rowj

-- `*ccol & mask`, where the mask has one bit.
abbrev pub has_bit : ℕ → ℕ → Bool
has_bit word mask = word / mask % 2 == 1

-- The loop's body at row `j`, for the row `i` and the column in the word `cword` under the mask.
unfoldable pub close_row : ℕ → ℕ → ℕ → ℕ → Matrix → Matrix
close_row i cword mask j r =
    let rowj = get_or r j [] in
    if has_bit (get_or rowj cword 0) mask then set r j (or_row rowj (get_or r i [])) else r

-- The loop over the last `n` rows, from row `j` on.
unfoldable pub close_rows : ℕ → ℕ → ℕ → ℕ → ℕ → Matrix → Matrix
unfolding close_row
close_rows zero i cword mask j r = r
close_rows (suc n) i cword mask j r = close_rows n i cword mask (j + 1) (close_row i cword mask j r)

-- `mask <<= 1; if (mask == 0) { mask = 1; cword++; }`
abbrev pub next_mask : ℕ → ℕ
next_mask mask = if shl 32 mask 1 == 0 then 1 else shl 32 mask 1

abbrev pub next_word : ℕ → ℕ → ℕ
next_word mask cword = if shl 32 mask 1 == 0 then cword + 1 else cword

-- The loop over the last `left` of `n` rows, from row `i` on.
unfoldable pub closure_loop : ℕ → ℕ → ℕ → ℕ → ℕ → Matrix → Matrix
unfolding close_rows
closure_loop zero n i cword mask r = r
closure_loop (suc left) n i cword mask r =
    closure_loop left n (i + 1) (next_word mask cword) (next_mask mask)
      (close_rows n i cword mask 0 r)

unfoldable pub transitive_closure : Matrix → ℕ → Matrix
unfolding closure_loop
transitive_closure r n = closure_loop n n 0 0 1 r

-- `*rp |= mask;` at the diagonal of the last `left` rows, from row `i` on.
unfoldable pub diagonal_loop : ℕ → ℕ → ℕ → ℕ → Matrix → Matrix
diagonal_loop zero i rp mask r = r
diagonal_loop (suc left) i rp mask r =
    let row = get_or r i [] in
    diagonal_loop left (i + 1) (next_word mask rp) (next_mask mask)
      (set r i (set row rp (bit_or (get_or row rp 0) mask)))

unfoldable pub reflexive_transitive_closure : Matrix → ℕ → Matrix
unfolding transitive_closure diagonal_loop
reflexive_transitive_closure r n = diagonal_loop n 0 0 1 (transitive_closure r n)
