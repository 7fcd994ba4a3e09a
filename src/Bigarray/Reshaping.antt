-- ===== src/Bigarray/Reshaping.antt =====
-- runtime/bigarray.c: an array in another shape has the same number of elements.
use native.Mathlib.Nat.{mul-le-mul_left}
use trav_lang.Common.{
  ℕ, ◌*◌, ◌^◌, ◌≤◌, ◌<◌, ◌≡◌, ◌≢◌, refl, sym, ◌∙◌, ◌⊎◌, inl, inr, List, map, Bool-cases, length,
  ltb, ltb→lt, ltb→le, ◌==◌, ==→ne, ==_iff, arith,
}
use trav_lang.Common.Int.{ℤ, pos}
use trav_lang.Bigarray.Offsets.{size_of}
use trav_lang.Bigarray.Bounds.{IsBigarray, AllLong, AllBelow}
use trav_lang.Bigarray.Elements.{num_elts_exact, num_elts-size, elements_fit, element_size_pos}
use trav_lang.Bigarray.Made.{alloc_view-cases, HasNegative, natural_dims-cases}
use trav_lang.Bigarray.{
  Bigarray, Checked, checked, invalid_argument, out_of_memory, element_size, num_elts,
  num_elts_from, alloc_view, reshape,
}

fits_alone : (n size : ℕ) → 1 ≤ size → n * size < 2 ^ 64 → n < 2 ^ 64
fits_alone n size h h' = let l : n * 1 ≤ n * size = mul-le-mul_left n h in omega arith

same_num_elts :
    (b : Bigarray) (ds : List ℕ)
    → IsBigarray b
    → size_of ds ≡ size_of b.dim
    → num_elts_from 1 ds ≡ num_elts b
same_num_elts b ds h e =
    let l = elements_fit b h in num_elts_exact ds (omega arith) ∙ e ∙ sym (num_elts-size b h)

-- Dimensions with the number of elements of the array.
abbrev SameSize : Bigarray → List ℕ → Type 0
SameSize b ds = size_of ds ≡ size_of b.dim

-- What caml_ba_reshape gives.
abbrev pub Reshaped : Bigarray → List ℤ → Checked Bigarray → Type 0
Reshaped b vdim (checked c) =
    IsBigarray c
    × (map (λ d. pos d) c.dim ≡ vdim)
    × SameSize b c.dim
    × (c.start_of_data ≡ b.start_of_data)
    × (c.kind ≡ b.kind)
    × (c.layout ≡ b.layout)
Reshaped b vdim invalid_argument =
    (16 < length vdim)
    ⊎ (HasNegative vdim
        ⊎ ((ds : List ℕ) × (map (λ d. pos d) ds ≡ vdim) × (size_of ds ≢ size_of b.dim)))
Reshaped b vdim out_of_memory = length vdim ≤ 16
Reshaped b vdim _ = ⊥

Reshaped-view :
    (b : Bigarray) (vdim : List ℤ) (ds : List ℕ)
    → IsBigarray b
    → length vdim ≤ 16
    → map (λ d. pos d) ds ≡ vdim
    → AllBelow (2 ^ 62) ds
    → num_elts_from 1 ds ≡ num_elts b
    → Reshaped b vdim (alloc_view b.kind b.layout b.start_of_data ds)
Reshaped-view b vdim ds h s e below n = elim (alloc_view-cases b.kind b.layout b.start_of_data ds) [
  | inl v ↦ simp v s
  | inr (v, f) ↦
      let f' : size_of ds < 2 ^ 64 =
        fits_alone (size_of ds) (element_size b.kind) (element_size_pos b.kind) f in
      let m : size_of ds ≡ size_of b.dim = sym (num_elts_exact ds f') ∙ n ∙ num_elts-size b h in
      simp v (record { fits = f; longs = below }, e, m, refl, refl, refl)
]

-- caml_ba_reshape of an array, with tagged integers as dimensions, gives an array of these dimensions on the
-- same data, with as many elements, also where the product of the dimensions wraps around, or is out of
-- memory. It raises Invalid_argument only for more than 16 dimensions, for a negative one, or for another
-- number of elements.
pub reshape-Reshaped :
    (b : Bigarray) (vdim : List ℤ) → IsBigarray b → AllLong vdim → Reshaped b vdim (reshape b vdim)
unfolding reshape
reshape-Reshaped b vdim h k = elim (Bool-cases (ltb 16 (length vdim))) [
  | inl t ↦ simp t (inl (ltb→lt 16 (length vdim) t))
  | inr t ↦
      let s : length vdim ≤ 16 = ltb→le 16 (length vdim) t in
      elim (natural_dims-cases vdim k) [
        | inl (g, e) ↦ simp (t, e) (inr (inl g))
        | inr (ds, e, f, below) ↦ elim (Bool-cases (num_elts_from 1 ds == num_elts b)) [
          | inl q ↦
              simp (t, e, q)
                (Reshaped-view b vdim ds h s f below
                  ((==_iff (num_elts_from 1 ds) (num_elts b)).0 q))
          | inr q ↦
              let ne = ==→ne (num_elts_from 1 ds) (num_elts b) q in
              simp (t, e, q) (inr (inr (ds, f, λ z. ne (same_num_elts b ds h z))))
        ]
      ]
]
