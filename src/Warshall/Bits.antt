-- ===== src/Warshall/Bits.antt =====
-- yacc/warshall.c: the bits of words and of rows.
use Prim.Native.Nat.{bit_or}
use trav_lang.Common.{
  ℕ, zero, suc, ◌^◌, ◌≡◌, refl, ap, Bool, false, ◌||◌, List, [], ◌∷◌, length, get_or, arith,
}
use trav_lang.Common.Bits.{no_bit, or_bit}
use trav_lang.Warshall.{or_row, has_bit}

-- The bit of a disjunction.
pub has_bit-or : (a b i : ℕ) → has_bit (bit_or a b) (2 ^ i) ≡ has_bit a (2 ^ i) || has_bit b (2 ^ i)
has_bit-or a b i = let e = or_bit a b i in ground arith

-- The bit of a row.
abbrev pub row_bit : List ℕ → ℕ → ℕ → Bool
row_bit row w i = has_bit (get_or row w 0) (2 ^ i)

pub zero_bit : (i : ℕ) → has_bit 0 (2 ^ i) ≡ false
zero_bit i = let e = no_bit i in ground arith

pub row_bit-or_row :
    (row row' : List ℕ) (w i : ℕ)
    → length row ≡ length row'
    → row_bit (or_row row row') w i ≡ row_bit row w i || row_bit row' w i
row_bit-or_row [] [] w i h = rw (zero_bit i) refl
row_bit-or_row [] (b ∷ row') w i h = absurd (omega arith)
row_bit-or_row (a ∷ row) [] w i h = absurd (omega arith)
row_bit-or_row (a ∷ row) (b ∷ row') zero i h = has_bit-or a b i
row_bit-or_row (a ∷ row) (b ∷ row') (suc w) i h = row_bit-or_row row row' w i (omega arith)

pub length-or_row : (row row' : List ℕ) → length (or_row row row') ≡ length row
length-or_row [] row' = refl
length-or_row (a ∷ row) [] = refl
length-or_row (a ∷ row) (b ∷ row') = ap suc (length-or_row row row')
