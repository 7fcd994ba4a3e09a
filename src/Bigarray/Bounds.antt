-- ===== src/Bigarray/Bounds.antt =====
-- runtime/bigarray.c: which indices are in bounds, and the digits that the loop of `caml_ba_offset` reads.
use mathlib.Core.List.{reverse, reverse-cons}
use trav_lang.Common.{
  ℕ, suc, ◌+◌, ◌*◌, ◌^◌, ◌≤◌, ◌<◌, ◌≡◌, refl, sym, ◌∙◌, ap, ◌↔◌, List, [], ◌∷◌, ◌++◌, map, length,
  length-append, arith,
}
use trav_lang.Common.Int.{ℤ, pos, negsuc}
use trav_lang.Bigarray.Offsets.{size_of, Within}
use trav_lang.Bigarray.{
  Layout, c_layout, fortran_layout, Bigarray, element_size, from_base, in_order,
}

-- A number of 63 bits, as in a tagged integer.
abbrev pub IsLong : ℤ → Type 0
IsLong (pos n) = n < 2 ^ 62
IsLong (negsuc n) = n < 2 ^ 62

abbrev pub AllLong : List ℤ → Type 0
AllLong [] = Unit
AllLong (z ∷ zs) = IsLong z × AllLong zs

abbrev pub AllBelow : ℕ → List ℕ → Type 0
AllBelow m [] = Unit
AllBelow m (d ∷ ds) = (d < m) × AllBelow m ds

-- An array whose dimensions are tagged integers and whose data have a size in a word.
pub record IsBigarray (b : Bigarray) : Type 0 where
  pub fits : size_of b.dim * element_size b.kind < 2 ^ 64
  pub longs : AllBelow (2 ^ 62) b.dim

-- Indices count from 0 in the layout of C, and from 1 in that of Fortran.
abbrev pub IsIndex : Layout → ℕ → ℤ → Type 0
IsIndex c_layout d (pos n) = n < d
IsIndex fortran_layout d (pos n) = (0 < n) × (n ≤ d)
IsIndex l d (negsuc n) = ⊥

abbrev pub InBounds : Layout → List ℕ → List ℤ → Type 0
InBounds l [] [] = Unit
InBounds l (d ∷ ds) (z ∷ zs) = IsIndex l d z × InBounds l ds zs
InBounds l _ _ = ⊥

pub size_of-append : (ds es : List ℕ) → size_of (ds ++ es) ≡ size_of ds * size_of es
size_of-append [] es = omega arith
size_of-append (d ∷ ds) es = ap (λ n. d * n) (size_of-append ds es) ∙ (omega arith)

pub size_of-reverse : (ds : List ℕ) → size_of (reverse ds) ≡ size_of ds
size_of-reverse [] = refl
size_of-reverse (d ∷ ds) =
    ap size_of (reverse-cons d ds)
    ∙ size_of-append (reverse ds) (d ∷ [])
    ∙ ap (λ n. n * (d * 1)) (size_of-reverse ds)
    ∙ (omega arith)

pub size_of-in_order : (l : Layout) (ds : List ℕ) → size_of (in_order l ds) ≡ size_of ds
size_of-in_order c_layout ds = refl
size_of-in_order fortran_layout ds = size_of-reverse ds

pub length-reverse {ℓ} : {A : Type ℓ} (xs : List A) → length (reverse xs) ≡ length xs
length-reverse [] = refl
length-reverse (x ∷ xs) =
    let e : length (reverse (x ∷ xs)) ≡ length (reverse xs) + 1 =
      ap length (reverse-cons x xs) ∙ length-append (reverse xs) (x ∷ []) in
    let e' = length-reverse xs in omega arith

pub length-in_order {ℓ} :
    {A : Type ℓ} (l : Layout) (xs : List A) → length (in_order l xs) ≡ length xs
length-in_order c_layout xs = refl
length-in_order fortran_layout xs = length-reverse xs

pub length-map {ℓ κ} :
    {A : Type ℓ} {B : Type κ} (f : A → B) (xs : List A) → length (map f xs) ≡ length xs
length-map f [] = refl
length-map f (x ∷ xs) = ap (λ n. suc n) (length-map f xs)

-- The test of one index.
IsIndex-Within :
    (l : Layout) (d : ℕ) (z : ℤ) → d < 2 ^ 62 → IsLong z → (from_base l z < d) ↔ IsIndex l d z
IsIndex-Within c_layout d (pos n) h k = ground arith
IsIndex-Within c_layout d (negsuc n) h k = ground arith
IsIndex-Within fortran_layout d (pos n) h k = ground arith
IsIndex-Within fortran_layout d (negsuc n) h k = ground arith

Within-InBounds :
    (l : Layout) (ds : List ℕ) (zs : List ℤ)
    → AllBelow (2 ^ 62) ds
    → AllLong zs
    → length zs ≡ length ds
    → Within ds (map (from_base l) zs) ↔ InBounds l ds zs
Within-InBounds l [] [] h k e = ((λ w. tt), (λ w. tt))
Within-InBounds l [] (z ∷ zs) h k e = absurd (omega arith)
Within-InBounds l (d ∷ ds) [] h k e = absurd (omega arith)
Within-InBounds l (d ∷ ds) (z ∷ zs) (h, h') (k, k') e =
    let (f, g) = IsIndex-Within l d z h k in
    let (f', g') = Within-InBounds l ds zs h' k' (omega arith) in
    ((λ w. (f w.0, f' w.1)), (λ w. (g w.0, g' w.1)))

Within-append :
    (ds es is js : List ℕ)
    → length is ≡ length ds
    → Within (ds ++ es) (is ++ js) ↔ (Within ds is × Within es js)
Within-append [] es [] js e = ((λ w. (tt, w)), (λ w. w.1))
Within-append [] es (i ∷ is) js e = absurd (omega arith)
Within-append (d ∷ ds) es [] js e = absurd (omega arith)
Within-append (d ∷ ds) es (i ∷ is) js e =
    let (f, g) = Within-append ds es is js (omega arith) in
    ((λ w. let p = f w.1 in ((w.0, p.0), p.1)), (λ w. (w.0.0, g (w.0.1, w.1))))

Within-reverse :
    (ds is : List ℕ) → length is ≡ length ds → Within (reverse ds) (reverse is) ↔ Within ds is
Within-reverse [] [] e = ((λ w. tt), (λ w. tt))
Within-reverse [] (i ∷ is) e = absurd (omega arith)
Within-reverse (d ∷ ds) [] e = absurd (omega arith)
Within-reverse (d ∷ ds) (i ∷ is) e =
    let l : length (reverse is) ≡ length (reverse ds) =
      length-reverse is ∙ (omega arith) ∙ sym (length-reverse ds) in
    let (f, g) = Within-append (reverse ds) (d ∷ []) (reverse is) (i ∷ []) l in
    let (f', g') = Within-reverse ds is (omega arith) in
    rw (reverse-cons d ds, reverse-cons i is)
      ((λ w. let p = f w in (p.1.0, f' p.0)), (λ w. g (g' w.1, (w.0, tt))))

Within-in_order :
    (l : Layout) (ds is : List ℕ)
    → length is ≡ length ds
    → Within (in_order l ds) (in_order l is) ↔ Within ds is
Within-in_order c_layout ds is e = ((λ w. w), (λ w. w))
Within-in_order fortran_layout ds is e = Within-reverse ds is e

-- The digits of an index, in the order of the loop.
abbrev pub digits : Layout → List ℤ → List ℕ
digits l index = in_order l (map (from_base l) index)

pub digits-InBounds :
    (b : Bigarray) (index : List ℤ)
    → IsBigarray b
    → AllLong index
    → length index ≡ length b.dim
    → Within (in_order b.layout b.dim) (digits b.layout index) ↔ InBounds b.layout b.dim index
digits-InBounds b index h k e =
    let l : length (map (from_base b.layout) index) ≡ length b.dim =
      length-map (from_base b.layout) index ∙ e in
    let (f, g) = Within-in_order b.layout b.dim (map (from_base b.layout) index) l in
    let (f', g') = Within-InBounds b.layout b.dim index h.longs k e in
    ((λ w. f' (f w)), (λ w. g (g' w)))
