-- ===== src/Warshall/Rows.antt =====
-- yacc/warshall.c: what the loop over the rows does to the entries of the matrix.
use mathlib.Core.Path.{subst}
use trav_lang.Common.{
  ℕ, zero, suc, ◌+◌, ◌/◌, ◌%◌, ◌^◌, ◌≤◌, ◌<◌, ◌≡◌, ◌≢◌, refl, sym, ◌∙◌, ap, Bool, true, false, ◌&&◌,
  ◌||◌, List, [], ◌∷◌, length, length-set, get_or, set, ◌==◌, ==_iff, ==→ne, arith, Bool-cases, inl,
  inr, ◌⊎◌,
}
use trav_lang.Warshall.{Matrix, or_row, has_bit, close_row, close_rows}
use trav_lang.Warshall.Bits.{row_bit, row_bit-or_row, length-or_row}

-- The entry of row a and column b.
unfoldable pub entry : Matrix → ℕ → ℕ → Bool
entry r a b = row_bit (get_or r a []) (b / 32) (b % 32)

-- A matrix of `n` rows of `size` words.
pub record IsMatrix (n size : ℕ) (r : Matrix) : Type 0 where
  pub rows : length r ≡ n
  pub sizes : (j : ℕ) → j < n → length (get_or r j []) ≡ size

pub get_or-set-same :
    (r : Matrix) (j : ℕ) (row : List ℕ) → j < length r → get_or (set r j row) j [] ≡ row
get_or-set-same [] j row h = absurd (omega arith)
get_or-set-same (x ∷ r) zero row h = refl
get_or-set-same (x ∷ r) (suc j) row h = get_or-set-same r j row (omega arith)

pub get_or-set-other :
    (r : Matrix) (j a : ℕ) (row : List ℕ) → a ≢ j → get_or (set r j row) a [] ≡ get_or r a []
get_or-set-other [] j a row h = refl
get_or-set-other (x ∷ r) zero zero row h = absurd (h refl)
get_or-set-other (x ∷ r) zero (suc a) row h = refl
get_or-set-other (x ∷ r) (suc j) zero row h = refl
get_or-set-other (x ∷ r) (suc j) (suc a) row h = get_or-set-other r j a row (λ e. h (ap suc e))

close_row-IsMatrix :
    (n size i w m j : ℕ) (r : Matrix)
    → j < n
    → IsMatrix n size r
    → IsMatrix n size (close_row i w m j r)
unfolding close_row
close_row-IsMatrix n size i w m j r h k =
    elim (Bool-cases (has_bit (get_or (get_or r j []) w 0) m)) [
      | inl t ↦ simp t (record {
        rows = length-set r j (or_row (get_or r j []) (get_or r i [])) ∙ k.rows;
        sizes = λ a l. elim (Bool-cases (a == j)) [
          | inl u ↦
              let e : a ≡ j = (==_iff a j).0 u in
              rw
                (
                  e,
                  get_or-set-same r j (or_row (get_or r j []) (get_or r i []))
                      (omega (arith, k.rows)),
                  length-or_row,
                )
                (k.sizes j h)
          | inr u ↦
              rw (get_or-set-other r j a (or_row (get_or r j []) (get_or r i [])) (==→ne a j u))
                (k.sizes a l)
        ];
      })
      | inr t ↦ simp t k
    ]

pub or_false : (x : Bool) → x ≡ x || false
or_false true = refl
or_false false = refl

-- A row that is reached gets the entries of row `i` where it has column `c`.
close_row_same :
    (n size i c j b : ℕ) (r : Matrix)
    → j < n
    → i < n
    → IsMatrix n size r
    → entry (close_row i (c / 32) (2 ^ (c % 32)) j r) j b
      ≡ entry r j b || (entry r j c && entry r i b)
unfolding close_row entry
close_row_same n size i c j b r h l k =
    elim (Bool-cases (has_bit (get_or (get_or r j []) (c / 32) 0) (2 ^ (c % 32)))) [
      | inl t ↦
          let rows =
            row_bit-or_row (get_or r j []) (get_or r i []) (b / 32) (b % 32)
              (k.sizes j h ∙ sym (k.sizes i l)) in
          simp
            (
              t,
              get_or-set-same r j (or_row (get_or r j []) (get_or r i [])) (omega (arith, k.rows)),
            )
            rows
      | inr t ↦ simp t (or_false (row_bit (get_or r j []) (b / 32) (b % 32)))
    ]

close_row_other :
    (i w m j a b : ℕ) (r : Matrix) → a ≢ j → entry (close_row i w m j r) a b ≡ entry r a b
unfolding close_row entry
close_row_other i w m j a b r h = elim (Bool-cases (has_bit (get_or (get_or r j []) w 0) m)) [
  | inl t ↦ simp (t, get_or-set-other r j a (or_row (get_or r j []) (get_or r i [])) h) refl
  | inr t ↦ simp t refl
]

or_absorbs : (x y : Bool) → x || (y && x) ≡ x
or_absorbs true y = refl
or_absorbs false true = refl
or_absorbs false false = refl

-- The row `i` itself stays.
close_row_stays :
    (n size i c j b : ℕ) (r : Matrix)
    → j < n
    → i < n
    → IsMatrix n size r
    → entry (close_row i (c / 32) (2 ^ (c % 32)) j r) i b ≡ entry r i b
close_row_stays n size i c j b r h l k = elim (Bool-cases (i == j)) [
  | inl t ↦
      let e : i ≡ j = (==_iff i j).0 t in
      subst (λ x. entry (close_row i (c / 32) (2 ^ (c % 32)) x r) i b ≡ entry r i b) e
        (close_row_same n size i c i b r l l k ∙ or_absorbs (entry r i b) (entry r i c))
  | inr t ↦ close_row_other i (c / 32) (2 ^ (c % 32)) j i b r (==→ne i j t)
]

-- What the entry of row `a` and column `b` is to be.
abbrev pub stepped : ℕ → Matrix → ℕ → ℕ → Bool
stepped i r a b = entry r a b || (entry r a i && entry r i b)

abbrev pub Reached : ℕ → ℕ → ℕ → Matrix → Matrix → Type 0
Reached n i j r r' =
    (a b : ℕ)
    → ((j ≤ a) × (a < j + n) → entry r' a b ≡ stepped i r a b)
      × ((a < j) ⊎ (j + n ≤ a) → entry r' a b ≡ entry r a b)

other_stepped :
    (n size i j a b : ℕ) (r : Matrix)
    → a ≢ j
    → j < n
    → i < n
    → IsMatrix n size r
    → stepped i (close_row i (i / 32) (2 ^ (i % 32)) j r) a b ≡ stepped i r a b
other_stepped n size i j a b r ne h l k =
    let w = i / 32 in
    let q = 2 ^ (i % 32) in
    rw
      (
        close_row_other i w q j a b r ne,
        close_row_other i w q j a i r ne,
        close_row_stays n size i i j b r h l k,
      )
      refl

further : (j a n : ℕ) → (a < j) ⊎ (j + suc n ≤ a) → (a < j + 1) ⊎ (j + 1 + n ≤ a)
further j a n (inl h) = inl (omega arith)
further j a n (inr h) = inr (omega arith)

outside : (j a n : ℕ) → (a < j) ⊎ (j + suc n ≤ a) → a ≢ j
outside j a n (inl h) e = omega arith
outside j a n (inr h) e = omega arith

-- The rows from `j` on become what they are to be, and the others stay.
pub close_rows-Reached :
    (m n size i j : ℕ) (r : Matrix)
    → j + n ≡ m
    → i < m
    → IsMatrix m size r
    → IsMatrix m size (close_rows n i (i / 32) (2 ^ (i % 32)) j r)
      × Reached n i j r (close_rows n i (i / 32) (2 ^ (i % 32)) j r)
unfolding close_rows
close_rows-Reached m zero size i j r h l k = (k, λ a b. (λ p. absurd (omega (arith, p)), λ p. refl))
close_rows-Reached m (suc n) size i j r h l k =
    let w = i / 32 in
    let q = 2 ^ (i % 32) in
    let r' : Matrix = close_row i w q j r in
    let f =
      close_rows-Reached m n size i (j + 1) r' (omega arith) l
        (close_row-IsMatrix m size i w q j r (omega arith) k) in
    (
      f.0,
      λ a b. (
        λ p. elim (Bool-cases (a == j)) [
          | inl t ↦
              let e : a ≡ j = (==_iff a j).0 t in
              (f.1 a b).1 (inl (omega (arith, e)))
              ∙ subst (λ x. entry r' x b ≡ stepped i r x b) (sym e)
                  (close_row_same m size i i j b r (omega arith) l k)
          | inr t ↦
              let ne = ==→ne a j t in
              (f.1 a b).0 (omega (arith, ne, p.0), omega (arith, p.1))
              ∙ other_stepped m size i j a b r ne (omega arith) l k
        ],
        λ p. (f.1 a b).1 (further j a n p) ∙ close_row_other i w q j a b r (outside j a n p),
      ),
    )
