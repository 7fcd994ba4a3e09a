-- ===== src/Bigarray/Views.antt =====
-- runtime/bigarray.c: the order of dimensions and indices in the views of an array.
use mathlib.Core.List.{reverse, reverse-append, reverse-cons}
use trav_lang.Common.{
  ℕ, zero, suc, ◌+◌, ◌-◌, ◌*◌, ◌≡◌, refl, sym, ◌∙◌, ap, inl, inr, List, [], ◌∷◌, ◌++◌, map, Option,
  none, some, ◌>>=◌, Option-cases, Bool-cases, length, take, drop, take-append-drop, replicate, ltb,
  arith,
}
use trav_lang.Common.Int.{ℤ, pos}
use trav_lang.Bigarray.Offsets.{size_of, rank, rank-append, rank_shift}
use trav_lang.Bigarray.Bounds.{digits}
use trav_lang.Bigarray.{Layout, c_layout, fortran_layout, from_base, in_order, completed, remaining}

zeros :
    (o : ℕ) (es : List ℕ) (k : ℕ)
    → rank o es (replicate (length es) 0) ≡ some k
    → k ≡ o * size_of es
unfolding rank
zeros o [] k e = ground arith
zeros o (d ∷ es) k e = elim (Bool-cases (ltb 0 d)) [
  | inl t ↦
      let e' : rank (o * d + 0) es (replicate (length es) 0) ≡ some k = simp t at e in
      zeros (o * d + 0) es k e' ∙ (omega arith)
  | inr t ↦ let e' : Path (Option ℕ) none (some k) = simp t at e in absurd (cc e')
]

-- Where the first indices and zeros have a number, they have, with others, the one that is so much further.
pub slice_rank :
    (ds es vs ws : List ℕ) (k : ℕ)
    → length vs ≡ length ds
    → rank 0 (ds ++ es) (vs ++ replicate (length es) 0) ≡ some k
    → rank 0 (ds ++ es) (vs ++ ws) ≡ (rank 0 es ws >>= λ j. some (k + j))
slice_rank ds es vs ws k h e =
    let f = sym (rank-append 0 ds es vs (replicate (length es) 0) h) ∙ e in
    elim (Option-cases (rank 0 ds vs)) [
      | inl g ↦ let e' : Path (Option ℕ) none (some k) = simp g at f in absurd (cc e')
      | inr (o, g) ↦
          let e' : rank o es (replicate (length es) 0) ≡ some k = simp g at f in
          let k' : k ≡ o * size_of es = zeros o es k e' in
          let r : rank 0 (ds ++ es) (vs ++ ws) ≡ rank o es ws =
            rank-append 0 ds es vs ws h ∙ simp g refl in
          r ∙ rank_shift o es ws ∙ ap (λ n. rank 0 es ws >>= λ j. some (n + j)) (sym k')
    ]

-- The indices of an array that those of the slice stand for.
abbrev pub joined : Layout → List ℤ → List ℤ → List ℤ
joined c_layout vind js = vind ++ js
joined fortran_layout vind js = js ++ vind

-- The dimensions that a slice drops.
abbrev pub cut : Layout → ℕ → List ℕ → List ℕ
cut c_layout n dim = take n dim
cut fortran_layout n dim = drop (length dim - n) dim

pub dim_order :
    (l : Layout) (n : ℕ) (dim : List ℕ)
    → in_order l dim ≡ in_order l (cut l n dim) ++ in_order l (remaining l n dim)
dim_order c_layout n dim = sym (take-append-drop n dim)
dim_order fortran_layout n dim =
    let m = length dim - n in
    ap reverse (sym (take-append-drop m dim)) ∙ reverse-append (take m dim) (drop m dim)

pub map-append : (f : ℤ → ℕ) (xs ys : List ℤ) → map f (xs ++ ys) ≡ map f xs ++ map f ys
map-append f [] ys = refl
map-append f (x ∷ xs) ys = ap (λ zs. f x ∷ zs) (map-append f xs ys)

pub joined_order :
    (l : Layout) (vind js : List ℤ) → digits l (joined l vind js) ≡ digits l vind ++ digits l js
joined_order c_layout vind js = map-append (from_base c_layout) vind js
joined_order fortran_layout vind js =
    ap reverse (map-append (from_base fortran_layout) js vind)
    ∙ reverse-append (map (from_base fortran_layout) js) (map (from_base fortran_layout) vind)

map-replicate : (f : ℤ → ℕ) (n : ℕ) (z : ℤ) → map f (replicate n z) ≡ replicate n (f z)
map-replicate f zero z = refl
map-replicate f (suc n) z = ap (λ zs. f z ∷ zs) (map-replicate f n z)

replicate_end : (n a : ℕ) → replicate n a ++ (a ∷ []) ≡ a ∷ replicate n a
replicate_end zero a = refl
replicate_end (suc n) a = ap (λ xs. a ∷ xs) (replicate_end n a)

reverse-replicate : (n a : ℕ) → reverse (replicate n a) ≡ replicate n a
reverse-replicate zero a = refl
reverse-replicate (suc n) a =
    reverse-cons a (replicate n a)
    ∙ ap (λ xs. xs ++ (a ∷ [])) (reverse-replicate n a)
    ∙ replicate_end n a

pub completed_order :
    (l : Layout) (n : ℕ) (vind : List ℤ)
    → digits l (completed l n vind) ≡ digits l vind ++ replicate n 0
completed_order c_layout n vind =
    map-append (from_base c_layout) vind (replicate n (pos 0))
    ∙ ap (λ xs. map (from_base c_layout) vind ++ xs) (map-replicate (from_base c_layout) n (pos 0))
completed_order fortran_layout n vind =
    joined_order fortran_layout vind (replicate n (pos 1))
    ∙ ap (λ xs. digits fortran_layout vind ++ xs)
        (ap reverse (map-replicate (from_base fortran_layout) n (pos 1)) ∙ reverse-replicate n 0)
