-- ===== src/Bigarray/Distinct.antt =====
-- runtime/bigarray.c: different indices are at different places, if in the bounds of an array.
use mathlib.Core.List.{reverse, reverse-reverse}
use trav_lang.Common.{
  ℕ, suc, ◌^◌, ◌<◌, ◌≡◌, ◌≢◌, refl, sym, ◌∙◌, ap, List, [], ◌∷◌, map, length, arith,
}
use trav_lang.Common.Int.{ℤ, pos, negsuc}
use trav_lang.Bigarray.Offsets.{rank_injective}
use trav_lang.Bigarray.Bounds.{
  AllLong, AllBelow, IsBigarray, IsIndex, InBounds, digits, digits-InBounds, length-in_order,
  length-map,
}
use trav_lang.Bigarray.Elements.{ba_offset-rank}
use trav_lang.Bigarray.{Layout, c_layout, fortran_layout, Bigarray, from_base, in_order, ba_offset}

from_base_injective :
    (l : Layout) (d : ℕ) (y z : ℤ)
    → d < 2 ^ 62
    → IsIndex l d y
    → IsIndex l d z
    → from_base l y ≡ from_base l z
    → y ≡ z
from_base_injective c_layout d (pos m) (pos n) h i j e = ground arith
from_base_injective fortran_layout d (pos m) (pos n) h i j e = ground arith
from_base_injective c_layout d (pos m) (negsuc n) h i j e = elim j [ ]
from_base_injective fortran_layout d (pos m) (negsuc n) h i j e = elim j [ ]
from_base_injective c_layout d (negsuc m) z h i j e = elim i [ ]
from_base_injective fortran_layout d (negsuc m) z h i j e = elim i [ ]

map_injective :
    (l : Layout) (ds : List ℕ) (ys zs : List ℤ)
    → AllBelow (2 ^ 62) ds
    → InBounds l ds ys
    → InBounds l ds zs
    → map (from_base l) ys ≡ map (from_base l) zs
    → ys ≡ zs
map_injective l [] [] [] h i j e = refl
map_injective l [] [] (z ∷ zs) h i j e = elim j [ ]
map_injective l [] (y ∷ ys) zs h i j e = elim i [ ]
map_injective l (d ∷ ds) [] zs h i j e = elim i [ ]
map_injective l (d ∷ ds) (y ∷ ys) [] h i j e = elim j [ ]
map_injective l (d ∷ ds) (y ∷ ys) (z ∷ zs) (h, h') (i, i') (j, j') e =
    let f : from_base l y ≡ from_base l z = cc e in
    let g : map (from_base l) ys ≡ map (from_base l) zs = cc e in
    let p = from_base_injective l d y z h i j f in
    let q = map_injective l ds ys zs h' i' j' g in cc (p, q)

in_order_injective : (l : Layout) (xs ys : List ℕ) → in_order l xs ≡ in_order l ys → xs ≡ ys
in_order_injective c_layout xs ys e = e
in_order_injective fortran_layout xs ys e =
    sym (reverse-reverse xs) ∙ ap reverse e ∙ reverse-reverse ys

pub length-digits :
    (l : Layout) (ds : List ℕ) (zs : List ℤ)
    → length zs ≡ length ds
    → length (digits l zs) ≡ length (in_order l ds)
length-digits l ds zs e =
    length-in_order l (map (from_base l) zs)
    ∙ length-map (from_base l) zs
    ∙ e
    ∙ sym (length-in_order l ds)

bounds_length : (l : Layout) (ds : List ℕ) (zs : List ℤ) → InBounds l ds zs → length zs ≡ length ds
bounds_length l [] [] i = refl
bounds_length l [] (z ∷ zs) i = elim i [ ]
bounds_length l (d ∷ ds) [] i = elim i [ ]
bounds_length l (d ∷ ds) (z ∷ zs) (i, i') = ap (λ n. suc n) (bounds_length l ds zs i')

ba_offset_injective :
    (b : Bigarray) (is js : List ℤ)
    → IsBigarray b
    → AllLong is
    → AllLong js
    → InBounds b.layout b.dim is
    → InBounds b.layout b.dim js
    → ba_offset b is ≡ ba_offset b js
    → is ≡ js
ba_offset_injective b is js h k k' i j e =
    let m = bounds_length b.layout b.dim is i in
    let n = bounds_length b.layout b.dim js j in
    let w = (digits-InBounds b is h k m).1 i in
    let w' = (digits-InBounds b js h k' n).1 j in
    let r = sym (ba_offset-rank b is h) ∙ e ∙ ba_offset-rank b js h in
    let d =
      rank_injective 0 0 (in_order b.layout b.dim) (digits b.layout is) (digits b.layout js)
        (length-digits b.layout b.dim is m) (length-digits b.layout b.dim js n) w w' r in
    map_injective b.layout b.dim is js h.longs i j
      (in_order_injective b.layout (map (from_base b.layout) is) (map (from_base b.layout) js) d.1)

-- caml_ba_offset gives two different indices in the bounds of an array, made of tagged integers, two different
-- offsets.
pub ba_offset_distinct :
    (b : Bigarray) (is js : List ℤ)
    → IsBigarray b
    → AllLong is
    → AllLong js
    → InBounds b.layout b.dim is
    → InBounds b.layout b.dim js
    → is ≢ js
    → ba_offset b is ≢ ba_offset b js
ba_offset_distinct b is js h k k' i j ne e = ne (ba_offset_injective b is js h k k' i j e)
