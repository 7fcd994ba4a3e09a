-- ===== src/Bigarray/Layouts.antt =====
-- runtime/bigarray.c: an access to an array in the other layout is one to the array itself.
use mathlib.Core.List.{reverse, reverse-cons, reverse-reverse}
use trav_lang.Common.{
  ℕ, suc, ◌^◌, ◌≡◌, refl, sym, ◌∙◌, ap, List, [], ◌∷◌, ◌++◌, map, false, length, arith, dec_lt, inl,
  inr,
}
use trav_lang.Common.Int.{ℤ, pos, negsuc, ◌+ℤ◌, ◌-ℤ◌}
use trav_lang.Bigarray.Offsets.{size_of, rank}
use trav_lang.Bigarray.Bounds.{IsBigarray, AllBelow, digits, length-reverse, size_of-reverse}
use trav_lang.Bigarray.Elements.{ba_offset-rank}
use trav_lang.Bigarray.Made.{array, alloc_view-cases, alloc_view_fits}
use trav_lang.Bigarray.Views.{map-append}
use trav_lang.Bigarray.{
  Layout, c_layout, fortran_layout, Bigarray, Checked, checked, out_of_memory, from_base, in_order,
  ba_offset, element, same_layout, change_layout,
}

-- The index of the same element in the other layout: counted from the other base, in the other order.
abbrev pub rebased : Layout → ℤ → ℤ
rebased c_layout z = z +ℤ pos 1
rebased fortran_layout z = z -ℤ pos 1

abbrev pub flipped : Layout → List ℤ → List ℤ
flipped l index = reverse (map (rebased l) index)

abbrev pub other : Layout → Layout
other c_layout = fortran_layout
other fortran_layout = c_layout

rebased_digit : (l : Layout) (z : ℤ) → from_base (other l) (rebased l z) ≡ from_base l z
unfolding ◌+ℤ◌ ◌-ℤ◌
rebased_digit c_layout (pos n) = ground arith
rebased_digit c_layout (negsuc n) = ground arith
rebased_digit fortran_layout (pos n) = ground arith
rebased_digit fortran_layout (negsuc n) = ground arith

map-reverse : (f : ℤ → ℕ) (xs : List ℤ) → map f (reverse xs) ≡ reverse (map f xs)
map-reverse f [] = refl
map-reverse f (x ∷ xs) =
    ap (map f) (reverse-cons x xs)
    ∙ map-append f (reverse xs) (x ∷ [])
    ∙ ap (λ ys. ys ++ (f x ∷ [])) (map-reverse f xs)
    ∙ sym (reverse-cons (f x) (map f xs))

map-rebased :
    (l : Layout) (xs : List ℤ)
    → map (from_base (other l)) (map (rebased l) xs) ≡ map (from_base l) xs
map-rebased l [] = refl
map-rebased l (x ∷ xs) =
    ap (λ i. i ∷ map (from_base (other l)) (map (rebased l) xs)) (rebased_digit l x)
    ∙ ap (λ is. from_base l x ∷ is) (map-rebased l xs)

digits-flipped : (l : Layout) (xs : List ℤ) → digits (other l) (flipped l xs) ≡ digits l xs
digits-flipped c_layout xs =
    ap reverse (
      map-reverse (from_base fortran_layout) (map (rebased c_layout) xs)
      ∙ ap reverse (map-rebased c_layout xs))
    ∙ reverse-reverse (map (from_base c_layout) xs)
digits-flipped fortran_layout xs =
    map-reverse (from_base c_layout) (map (rebased fortran_layout) xs)
    ∙ ap reverse (map-rebased fortran_layout xs)

flipped_dims : (l : Layout) (ds : List ℕ) → in_order (other l) (reverse ds) ≡ in_order l ds
flipped_dims c_layout ds = reverse-reverse ds
flipped_dims fortran_layout ds = refl

below-append : (m : ℕ) (ds es : List ℕ) → AllBelow m ds → AllBelow m es → AllBelow m (ds ++ es)
below-append m [] es h k = k
below-append m (d ∷ ds) es (h, h') k = (h, below-append m ds es h' k)

below-reverse : (m : ℕ) (ds : List ℕ) → AllBelow m ds → AllBelow m (reverse ds)
below-reverse m [] h = tt
below-reverse m (d ∷ ds) (h, h') =
    rw (reverse-cons d ds) (below-append m (reverse ds) (d ∷ []) (below-reverse m ds h') (h, tt))

length-rebased : (l : Layout) (xs : List ℤ) → length (map (rebased l) xs) ≡ length xs
length-rebased l [] = refl
length-rebased l (x ∷ xs) = ap (λ n. suc n) (length-rebased l xs)

other_differs : (l : Layout) → same_layout (other l) l ≡ false
other_differs c_layout = refl
other_differs fortran_layout = refl

-- The array in the other layout.
abbrev turned : Bigarray → Bigarray
turned b = array b.kind (other b.layout) b.start_of_data (reverse b.dim)

turned-IsBigarray : (b : Bigarray) → IsBigarray b → IsBigarray (turned b)
turned-IsBigarray b h = record {
  fits = rw (size_of-reverse b.dim) h.fits;
  longs = below-reverse (2 ^ 62) b.dim h.longs;
}

element-turned :
    (b : Bigarray) (index : List ℤ)
    → IsBigarray b
    → element (turned b) (flipped b.layout index) ≡ element b index
unfolding element
element-turned b index h =
    let o : ba_offset (turned b) (flipped b.layout index) ≡ ba_offset b index =
      ba_offset-rank (turned b) (flipped b.layout index) (turned-IsBigarray b h)
      ∙ ap (λ ds. rank 0 ds (digits (other b.layout) (flipped b.layout index)))
          (flipped_dims b.layout b.dim)
      ∙ ap (rank 0 (in_order b.layout b.dim)) (digits-flipped b.layout index)
      ∙ sym (ba_offset-rank b index h) in
    let p : length (flipped b.layout index) ≡ length index =
      length-reverse (map (rebased b.layout) index) ∙ length-rebased b.layout index in
    simp (o, p, length-reverse b.dim) refl

-- What caml_ba_change_layout gives.
abbrev pub Turned : Bigarray → Checked Bigarray → Type 0
Turned b (checked c) =
    IsBigarray c
    × (c.layout ≡ other b.layout)
    × ((index : List ℤ) → element c (flipped b.layout index) ≡ element b index)
Turned b out_of_memory = size_of b.dim ≡ 0
Turned b _ = ⊥

-- caml_ba_change_layout of an array to the other layout gives an array, each access to which at an index in
-- the other order, counted from the other base, is the access to the first array, errors included. It is out
-- of memory only for an array without elements.
pub change_layout-Turned :
    (b : Bigarray) → IsBigarray b → Turned b (change_layout b (other b.layout))
unfolding change_layout
change_layout-Turned b h =
    let t = other_differs b.layout in
    elim (dec_lt 0 (size_of b.dim)) [
      | yes p ↦
          let v =
            alloc_view_fits b.kind (other b.layout) b.start_of_data (reverse b.dim)
              (rw (size_of-reverse b.dim) p) (rw (size_of-reverse b.dim) h.fits) in
          simp (t, v) (turned-IsBigarray b h, refl, λ index. element-turned b index h)
      | no p ↦
          let z : size_of b.dim ≡ 0 = omega arith in
          elim (alloc_view-cases b.kind (other b.layout) b.start_of_data (reverse b.dim)) [
            | inl v ↦ simp (t, v) z
            | inr (v, s) ↦
                simp (t, v) (turned-IsBigarray b h, refl, λ index. element-turned b index h)
          ]
    ]
