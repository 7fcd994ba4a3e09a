-- ===== src/Warshall/Diagonal.antt =====
-- yacc/warshall.c: the reflexive closure sets the diagonal.
use native.Mathlib.Nat.{pow-suc}
use trav_lang.Common.{
  ℕ, zero, suc, ◌+◌, ◌*◌, ◌/◌, ◌%◌, ◌^◌, ◌≤◌, ◌<◌, ◌≡◌, ◌↔◌, refl, sym, ◌∙◌, ap, Bool, true, false,
  ◌&&◌, ◌||◌, List, [], ◌∷◌, length, length-set, get_or, set, ◌==◌, if◌then◌else◌, ==_iff, ==→ne,
  arith, inl, inr, ◌⊎◌, Bool-cases,
}
use Prim.Native.Nat.{bit_or}
use trav_lang.Warshall.{
  Matrix, diagonal_loop, transitive_closure, reflexive_transitive_closure, has_bit,
}
use trav_lang.Common.Bits.{halved, no_bit}
use trav_lang.Warshall.Bits.{has_bit-or, row_bit}
use trav_lang.Warshall.Rows.{entry, IsMatrix, get_or-set-same, get_or-set-other, or_false}
use trav_lang.Warshall.Closure.{next_column, PathIn}
use trav_lang.Warshall.Paths.{transitive_closure-PathIn, transitive_closure-IsMatrix}

-- A mask has one bit.
power_bit : (m i : ℕ) → 2 ^ m / 2 ^ i % 2 ≡ (if m == i then 1 else 0)
power_bit zero zero = refl
power_bit zero (suc i) =
    let e : 2 ^ zero / 2 ≡ 0 = omega arith in rw (halved (2 ^ zero) i, e, no_bit i) (ground arith)
power_bit (suc m) zero = let e = pow-suc 2 m in ground arith
power_bit (suc m) (suc i) =
    let e : 2 ^ suc m / 2 ≡ 2 ^ m = omega (arith, pow-suc 2 m) in
    rw (halved (2 ^ suc m) i, e) (power_bit m i ∙ ground arith)

mask_bit : (m i : ℕ) → has_bit (2 ^ m) (2 ^ i) ≡ (m == i)
mask_bit m i = let e = power_bit m i in ground arith

same_suc : (a b : ℕ) → (a == b) ≡ (suc a == suc b)
same_suc a b = ground arith

row_bit-set :
    (row : List ℕ) (w m w' i : ℕ)
    → w < length row
    → row_bit (set row w (bit_or (get_or row w 0) (2 ^ m))) w' i
      ≡ row_bit row w' i || ((w == w') && (m == i))
row_bit-set [] w m w' i h = absurd (omega arith)
row_bit-set (x ∷ row) zero m zero i h =
    has_bit-or x (2 ^ m) i ∙ ap (λ b. has_bit x (2 ^ i) || b) (mask_bit m i)
row_bit-set (x ∷ row) zero m (suc w') i h =
    let t : 0 == suc w' ≡ false = ground arith in simp t (or_false (row_bit row w' i))
row_bit-set (x ∷ row) (suc w) m zero i h =
    let t : suc w == 0 ≡ false = ground arith in simp t (or_false (has_bit x (2 ^ i)))
row_bit-set (x ∷ row) (suc w) m (suc w') i h =
    row_bit-set row w m w' i (omega arith)
    ∙ ap (λ c. row_bit row w' i || (c && (m == i))) (same_suc w w')

-- One bit of the diagonal.
set_diagonal : ℕ → Matrix → Matrix
set_diagonal i r =
    let row = get_or r i [] in
    set r i (set row (i / 32) (bit_or (get_or row (i / 32) 0) (2 ^ (i % 32))))

set_diagonal-IsMatrix :
    (n size i : ℕ) (r : Matrix) → i < n → IsMatrix n size r → IsMatrix n size (set_diagonal i r)
unfolding set_diagonal
set_diagonal-IsMatrix n size i r h k =
    let row = get_or r i [] in
    let row' : List ℕ = set row (i / 32) (bit_or (get_or row (i / 32) 0) (2 ^ (i % 32))) in
    record {
      rows = length-set r i row' ∙ k.rows;
      sizes = λ a l. elim (Bool-cases (a == i)) [
        | inl u ↦
            let e : a ≡ i = (==_iff a i).0 u in
            rw (e, get_or-set-same r i row' (omega (arith, k.rows)))
              (length-set row (i / 32) (bit_or (get_or row (i / 32) 0) (2 ^ (i % 32)))
                ∙ k.sizes i h)
        | inr u ↦ rw (get_or-set-other r i a row' (==→ne a i u)) (k.sizes a l)
      ];
    }

same_place : (i b : ℕ) → ((i / 32 == b / 32) && (i % 32 == b % 32)) ≡ (i == b)
same_place i b = ground arith

entry-set_diagonal :
    (n size i a b : ℕ) (r : Matrix)
    → i < n
    → n ≤ 32 * size
    → IsMatrix n size r
    → entry (set_diagonal i r) a b ≡ entry r a b || ((a == i) && (i == b))
unfolding set_diagonal entry
entry-set_diagonal n size i a b r h l k =
    let row = get_or r i [] in
    let row' : List ℕ = set row (i / 32) (bit_or (get_or row (i / 32) 0) (2 ^ (i % 32))) in
    elim (Bool-cases (a == i)) [
      | inl u ↦
          let e : a ≡ i = (==_iff a i).0 u in
          let t : i == i ≡ true = ground arith in
          let s =
            row_bit-set row (i / 32) (i % 32) (b / 32) (b % 32) (omega (arith, k.sizes i h)) in
          rw (e, get_or-set-same r i row' (omega (arith, k.rows)))
            (simp t (s ∙ ap (λ c. row_bit row (b / 32) (b % 32) || c) (same_place i b)))
      | inr u ↦
          simp (u, get_or-set-other r i a row' (==→ne a i u))
            (or_false (row_bit (get_or r a []) (b / 32) (b % 32)))
    ]

Diagonal : ℕ → ℕ → ℕ → ℕ → Type 0
Diagonal i n a b = (i ≤ a) × (a < n) × (a ≡ b)

down :
    (i n a b : ℕ) (x y : Bool)
    → y ≡ x || ((a == i) && (i == b))
    → i < n
    → (y ≡ true) ⊎ Diagonal (i + 1) n a b
    → (x ≡ true) ⊎ Diagonal i n a b
unfolding Diagonal
down i n a b true y g l s = inl refl
down i n a b false y g l (inl h) =
    let t : (a == i) && (i == b) ≡ true = sym g ∙ h in inr (ground arith)
down i n a b false y g l (inr p) = inr (ground arith)

up :
    (i n a b : ℕ) (x y : Bool)
    → y ≡ x || ((a == i) && (i == b))
    → (x ≡ true) ⊎ Diagonal i n a b
    → (y ≡ true) ⊎ Diagonal (i + 1) n a b
unfolding Diagonal
up i n a b true y g s = inl g
up i n a b false y g (inl h) = absurd (cc h)
up i n a b false y g (inr p) = ground arith

-- The loop sets the diagonal from `i` on.
diagonal_entry :
    (left n size i a b : ℕ) (r : Matrix)
    → left + i ≡ n
    → n ≤ 32 * size
    → IsMatrix n size r
    → (entry (diagonal_loop left i (i / 32) (2 ^ (i % 32)) r) a b ≡ true)
      ↔ ((entry r a b ≡ true) ⊎ ((i ≤ a) × (a < n) × (a ≡ b)))
unfolding diagonal_loop set_diagonal Diagonal
diagonal_entry zero n size i a b r e l k =
    (inl, λ s. elim s [ inl h ↦ h | inr p ↦ absurd (omega (arith, p.0, p.1)) ])
diagonal_entry (suc left) n size i a b r e l k =
    let next = next_column i in
    let f =
      diagonal_entry left n size (i + 1) a b (set_diagonal i r) (omega arith) l
        (set_diagonal-IsMatrix n size i r (omega arith) k) in
    let g = entry-set_diagonal n size i a b r (omega arith) l k in
    rw (next.0, next.1)
      (
        λ h. down i n a b (entry r a b) (entry (set_diagonal i r) a b) g (omega arith) (f.0 h),
        λ s. f.1 (up i n a b (entry r a b) (entry (set_diagonal i r) a b) g s),
      )

-- For a matrix of n rows of the same length, with room for n columns, reflexive_transitive_closure sets the bit
-- in row a and column b exactly if a is b, or there is a path from a to b along the bits of the matrix.
pub reflexive_transitive_closure-PathIn :
    (n size : ℕ) (r : Matrix)
    → IsMatrix n size r
    → n ≤ 32 * size
    → (a b : ℕ) → a < n
    → (entry (reflexive_transitive_closure r n) a b ≡ true) ↔ ((a ≡ b) ⊎ PathIn r a b)
unfolding reflexive_transitive_closure
reflexive_transitive_closure-PathIn n size r k l a b h =
    let p = transitive_closure-PathIn n size r k a b in
    let d =
      diagonal_entry n n size 0 a b (transitive_closure r n) (omega arith) l
        (transitive_closure-IsMatrix n size r k) in
    (
      λ e. elim (d.0 e) [ inl t ↦ inr (p.0 t) | inr q ↦ inl q.2 ],
      λ s. d.1 (elim s [ inl q ↦ inr (omega arith, h, q) | inr q ↦ inl (p.1 q) ]),
    )
