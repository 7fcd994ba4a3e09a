-- ===== src/Warshall/Paths.antt =====
-- yacc/warshall.c: the entries of the closures are the paths of the matrix.
use mathlib.Core.Path.{subst}
use trav_lang.Common.{
  ℕ, zero, suc, ◌+◌, ◌/◌, ◌%◌, ◌^◌, ◌≤◌, ◌<◌, ◌≡◌, ◌↔◌, refl, ◌∙◌, true, false, [], ◌∷◌, length,
  get_or, arith, inl, inr, leb, Bool-cases, leb→le, leb→lt,
}
use trav_lang.Warshall.{Matrix, close_rows, closure_loop, transitive_closure}
use trav_lang.Warshall.Bits.{zero_bit}
use trav_lang.Warshall.Rows.{entry, IsMatrix, stepped, close_rows-Reached}
use trav_lang.Warshall.Closure.{next_column, PathIn, edge, join, Closing, next-Closing}

no_row : (r : Matrix) (a : ℕ) → length r ≤ a → get_or r a [] ≡ []
no_row [] a h = refl
no_row (x ∷ r) zero h = absurd (omega arith)
no_row (x ∷ r) (suc a) h = no_row r a (omega arith)

pub no_entry : (r : Matrix) (a b : ℕ) → length r ≤ a → entry r a b ≡ false
unfolding entry
no_entry r a b h = rw (no_row r a h) (zero_bit (b % 32))

inside : (n size : ℕ) (r : Matrix) (a b : ℕ) → IsMatrix n size r → entry r a b ≡ true → a < n
inside n size r a b k h = elim (Bool-cases (leb n a)) [
  | inl t ↦ absurd (cc (h, no_entry r a b (omega (arith, leb→le n a t, k.rows))))
  | inr t ↦ leb→lt n a t
]

-- All rows are what they are to be.
round :
    (n size i : ℕ) (r : Matrix) (a b : ℕ)
    → i < n
    → IsMatrix n size r
    → entry (close_rows n i (i / 32) (2 ^ (i % 32)) 0 r) a b ≡ stepped i r a b
round n size i r a b l k =
    let f = (close_rows-Reached n n size i 0 r (omega arith) l k).1 a b in
    elim (Bool-cases (leb n a)) [
      | inl t ↦
          let h = leb→le n a t in
          let g : length r ≤ a = omega (arith, h, k.rows) in
          f.1 (inr (omega arith)) ∙ simp (no_entry r a b g, no_entry r a i g) refl
      | inr t ↦ let h = leb→lt n a t in f.0 (omega arith, omega arith)
    ]

closure_loop-Closing :
    (left n size i : ℕ) (r0 r : Matrix)
    → left + i ≡ n
    → IsMatrix n size r
    → Closing i r0 r
    → IsMatrix n size (closure_loop left n i (i / 32) (2 ^ (i % 32)) r)
      × Closing n r0 (closure_loop left n i (i / 32) (2 ^ (i % 32)) r)
unfolding closure_loop
closure_loop-Closing zero n size i r0 r e k c =
    let e' : i ≡ n = omega arith in (k, subst (λ x. Closing x r0 r) e' c)
closure_loop-Closing (suc left) n size i r0 r e k c =
    let r' : Matrix = close_rows n i (i / 32) (2 ^ (i % 32)) 0 r in
    let next = next_column i in
    let k' = (close_rows-Reached n n size i 0 r (omega arith) (omega arith) k).0 in
    let c' : Closing (i + 1) r0 r' =
      subst (λ x. Closing x r0 r') (omega arith)
        (next-Closing i r0 r r' (λ a b. round n size i r a b (omega arith) k) c) in
    rw (next.0, next.1) (closure_loop-Closing left n size (i + 1) r0 r' (omega arith) k' c')

start-Closing : (r : Matrix) → Closing 0 r r
start-Closing r = record {
  contains = λ a b h. h;
  within = edge;
  closed = λ a c b l. absurd (omega arith);
}

path_entry :
    (n size : ℕ) (r0 r : Matrix) (a b : ℕ)
    → IsMatrix n size r
    → Closing n r0 r
    → PathIn r0 a b
    → entry r a b ≡ true
path_entry n size r0 r _ _ k c (edge a b h) = c.contains a b h
path_entry n size r0 r _ _ k c (join a m b p q) =
    let h = path_entry n size r0 r m b k c q in
    c.closed a m b (inside n size r m b k h) (path_entry n size r0 r a m k c p) h

pub transitive_closure-IsMatrix :
    (n size : ℕ) (r : Matrix) → IsMatrix n size r → IsMatrix n size (transitive_closure r n)
unfolding transitive_closure
transitive_closure-IsMatrix n size r k =
    (closure_loop-Closing n n size 0 r r (omega arith) k (start-Closing r)).0

-- For a matrix of n rows of the same length, transitive_closure sets the bit in row a and column b exactly if
-- there is a path from a to b along the bits of the matrix.
pub transitive_closure-PathIn :
    (n size : ℕ) (r : Matrix)
    → IsMatrix n size r
    → (a b : ℕ) → (entry (transitive_closure r n) a b ≡ true) ↔ PathIn r a b
unfolding transitive_closure
transitive_closure-PathIn n size r k a b =
    let p = closure_loop-Closing n n size 0 r r (omega arith) k (start-Closing r) in
    (p.1.within a b, path_entry n size r (transitive_closure r n) a b p.0 p.1)
