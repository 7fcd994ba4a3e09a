-- ===== src/Bigarray/Made.antt =====
-- runtime/bigarray.c: the arrays that are made have dimensions and sizes in bounds.
use native.Mathlib.Nat.{mul_assoc, mul-le-mul_left, le-mul_of_pos_right}
use trav_lang.Common.{
  ℕ, zero, suc, ◌*◌, ◌^◌, ◌≤◌, ◌<◌, ◌≡◌, refl, sym, ◌∙◌, ap, ◌⊎◌, inl, inr, List, [], ◌∷◌, map,
  Option, none, some, Option-cases, true, Bool-cases, length, ltb, ltb→lt, ltb→le, lt→ltb, arith,
}
use trav_lang.Common.Int.{ℤ, pos, negsuc}
use trav_lang.Bigarray.Offsets.{size_of}
use trav_lang.Bigarray.Bounds.{AllLong, AllBelow, IsBigarray}
use trav_lang.Bigarray.Elements.{element_size_pos}
use trav_lang.Bigarray.{
  Kind, Layout, Bigarray, Checked, checked, invalid_argument, out_of_memory, and_then, element_size,
  umul_overflow, alloc_elts, alloc_size, alloc_view, allocated, natural_dims, create,
}

pub factors_pos : (a b : ℕ) → 0 < a * b → (0 < a) × (0 < b)
factors_pos zero b h = absurd (omega arith)
factors_pos (suc a) zero h = absurd (omega arith)
factors_pos (suc a) (suc b) h = (omega arith, omega arith)

alloc_elts-product : (n m : ℕ) (ds : List ℕ) → alloc_elts n ds ≡ some m → m ≡ n * size_of ds
unfolding alloc_elts
alloc_elts-product n m [] e = ground arith
alloc_elts-product n m (d ∷ ds) e = elim (Bool-cases (ltb (n * d) (2 ^ 64))) [
  | inl t ↦
      let e' : alloc_elts (n * d) ds ≡ some m = simp t at e in
      alloc_elts-product (n * d) m ds e' ∙ mul_assoc n d (size_of ds)
  | inr t ↦ let e' : Path (Option ℕ) none (some m) = simp t at e in absurd (cc e')
]

pub alloc_size-product :
    (k : Kind) (ds : List ℕ) (size : ℕ)
    → alloc_size k ds ≡ some size
    → size_of ds * element_size k < 2 ^ 64
unfolding alloc_size
alloc_size-product k ds size e = elim (Option-cases (alloc_elts 1 ds)) [
  | inl f ↦ let e' : Path (Option ℕ) none (some size) = simp f at e in absurd (cc e')
  | inr (m, f) ↦
      let p : m ≡ size_of ds = alloc_elts-product 1 m ds f ∙ (omega arith) in
      let e' : umul_overflow m (element_size k) ≡ some size = simp f at e in
      let q : m * element_size k < 2 ^ 64 = ground arith in rw (sym p) q
]

abbrev pub array : Kind → Layout → ℕ → List ℕ → Bigarray
array k l start dims = record { start_of_data = start; dim = dims; kind = k; layout = l }

pub alloc_view-cases :
    (k : Kind) (l : Layout) (start : ℕ) (ds : List ℕ)
    → (alloc_view k l start ds ≡ out_of_memory)
      ⊎ ((alloc_view k l start ds ≡ checked (array k l start ds))
          × (size_of ds * element_size k < 2 ^ 64))
unfolding alloc_view
alloc_view-cases k l start ds = elim (Option-cases (alloc_size k ds)) [
  | inl e ↦ inl (simp e refl)
  | inr (size, e) ↦ inr (simp e refl, alloc_size-product k ds size e)
]

alloc_elts_fits :
    (n : ℕ) (ds : List ℕ)
    → 0 < size_of ds
    → n * size_of ds < 2 ^ 64
    → alloc_elts n ds ≡ some (n * size_of ds)
unfolding alloc_elts
alloc_elts_fits n [] h h' = ap (λ m. some m) (omega arith)
alloc_elts_fits n (d ∷ ds) h h' =
    let p : 0 < size_of ds = (factors_pos d (size_of ds) h).1 in
    let e : n * d * size_of ds ≡ n * (d * size_of ds) = mul_assoc n d (size_of ds) in
    let l : n * d ≤ n * d * size_of ds = le-mul_of_pos_right (n * d) p in
    let t : ltb (n * d) (2 ^ 64) ≡ true = lt→ltb (n * d) (2 ^ 64) (omega arith) in
    simp t (alloc_elts_fits (n * d) ds p (omega arith) ∙ ap (λ m. some m) e)

-- An array that fits, with no empty dimension, is made on data that are there.
pub alloc_view_fits :
    (k : Kind) (l : Layout) (start : ℕ) (ds : List ℕ)
    → 0 < size_of ds
    → size_of ds * element_size k < 2 ^ 64
    → alloc_view k l start ds ≡ checked (array k l start ds)
unfolding alloc_view alloc_size
alloc_view_fits k l start ds h h' =
    let m : size_of ds * 1 ≤ size_of ds * element_size k =
      mul-le-mul_left (size_of ds) (element_size_pos k) in
    let e : alloc_elts 1 ds ≡ some (size_of ds) =
      alloc_elts_fits 1 ds h (omega arith) ∙ ap (λ n. some n) (omega arith) in
    let t : ltb (size_of ds * element_size k) (2 ^ 64) ≡ true =
      lt→ltb (size_of ds * element_size k) (2 ^ 64) h' in
    simp (e, t) refl

abbrev pub HasNegative : List ℤ → Type 0
HasNegative [] = ⊥
HasNegative (negsuc n ∷ zs) = Unit
HasNegative (pos n ∷ zs) = HasNegative zs

-- The dimensions as natural numbers.
pub natural_dims-cases :
    (zs : List ℤ)
    → AllLong zs
    → (HasNegative zs × (natural_dims zs ≡ none))
      ⊎ ((ds : List ℕ) × (natural_dims zs ≡ some ds)
          × (map (λ d. pos d) ds ≡ zs)
          × AllBelow (2 ^ 62) ds)
unfolding natural_dims
natural_dims-cases [] h = inr ([], refl, refl, tt)
natural_dims-cases (negsuc n ∷ zs) h = inl (tt, refl)
natural_dims-cases (pos n ∷ zs) (h, h') = elim (natural_dims-cases zs h') [
  | inl (g, e) ↦ inl (g, simp e refl)
  | inr (ds, e, f, b) ↦ inr (n ∷ ds, simp e refl, ap (λ ys. pos n ∷ ys) f, (h, b))
]

-- What caml_ba_create gives: an array of the dimensions asked for, or the error for its dimensions.
abbrev pub Made : Kind → Layout → List ℤ → Checked Bigarray → Type 0
Made k l vdim (checked b) =
    IsBigarray b
    × (map (λ d. pos d) b.dim ≡ vdim)
    × (length vdim ≤ 16)
    × (b.kind ≡ k)
    × (b.layout ≡ l)
Made k l vdim invalid_argument = (16 < length vdim) ⊎ HasNegative vdim
Made k l vdim out_of_memory = length vdim ≤ 16
Made k l vdim _ = ⊥

Made-array :
    (k : Kind) (l : Layout) (start : ℕ) (vdim : List ℤ) (ds : List ℕ)
    → length vdim ≤ 16
    → map (λ d. pos d) ds ≡ vdim
    → AllBelow (2 ^ 62) ds
    → Made k l vdim (alloc_view k l start ds)
Made-array k l start vdim ds h e b = elim (alloc_view-cases k l start ds) [
  | inl f ↦ simp f h
  | inr (f, s) ↦ simp f (record { fits = s; longs = b }, e, h, refl, refl)
]

Made-in_memory :
    (malloc : ℕ → Option ℕ) (k : Kind) (l : Layout) (size : ℕ) (vdim : List ℤ) (ds : List ℕ)
    → length vdim ≤ 16
    → map (λ d. pos d) ds ≡ vdim
    → AllBelow (2 ^ 62) ds
    → Made k l vdim (and_then (allocated malloc size) (λ start. alloc_view k l start ds))
Made-in_memory malloc k l zero vdim ds h e b = Made-array k l _ vdim ds h e b
Made-in_memory malloc k l (suc size) vdim ds h e b = elim (Option-cases (malloc (suc size))) [
  | inl f ↦ simp f h
  | inr (start, f) ↦ simp f (Made-array k l start vdim ds h e b)
]

-- caml_ba_create with tagged integers as dimensions makes an array of these dimensions, whose data have a
-- size in a word, or is out of memory; it raises Invalid_argument only for more than 16 dimensions or for a
-- negative one.
pub create-Made :
    (malloc : ℕ → Option ℕ) (k : Kind) (l : Layout) (vdim : List ℤ)
    → AllLong vdim
    → Made k l vdim (create malloc k l vdim)
unfolding create alloc_view
create-Made malloc k l vdim h = elim (Bool-cases (ltb 16 (length vdim))) [
  | inl t ↦ simp t (inl (ltb→lt 16 (length vdim) t))
  | inr t ↦
      let s : length vdim ≤ 16 = ltb→le 16 (length vdim) t in
      elim (natural_dims-cases vdim h) [
        | inl (g, e) ↦ simp (t, e) (inr g)
        | inr (ds, e, f, b) ↦ elim (Option-cases (alloc_size k ds)) [
          | inl o ↦ simp (t, e, o) s
          | inr (size, o) ↦
              let m = Made-in_memory malloc k l size vdim ds s f b in simp (t, e, o) (simp o at m)
        ]
      ]
]
