-- ===== src/Bigarray/Slices.antt =====
-- runtime/bigarray.c: an access to a slice is one to the array itself.
use native.Mathlib.Nat.{mul_comm, mul-le-mul_right, le-mul_of_pos_right}
use trav_lang.Common.{
  ℕ, zero, suc, ◌+◌, ◌-◌, ◌*◌, ◌^◌, ◌≤◌, ◌<◌, ◌≡◌, refl, sym, ◌∙◌, ap, inl, inr, List, [], ◌∷◌,
  ◌++◌, map, Option, none, some, ◌>>=◌, Option-cases, true, false, Bool-cases, length,
  length-append, length-drop, length-take, take, drop, take-append-drop, replicate, ltb, ltb→lt,
  ltb→le, ◌==◌, arith, ℕ_discrete,
}
use trav_lang.Common.Int.{ℤ}
use trav_lang.Bigarray.Offsets.{size_of, rank, rank-outside, within_dec, Within-positive}
use trav_lang.Bigarray.Bounds.{
  IsBigarray, AllBelow, digits, length-in_order, length-map, size_of-append, size_of-in_order,
}
use trav_lang.Bigarray.Elements.{ba_offset-rank}
use trav_lang.Bigarray.Made.{array, alloc_view_fits, factors_pos}
use trav_lang.Bigarray.Views.{slice_rank, joined, cut, dim_order, joined_order, completed_order}
use trav_lang.Bigarray.{
  Layout, c_layout, fortran_layout, Bigarray, Checked, checked, invalid_argument, bound_error,
  and_then, element_size, from_base, in_order, ba_offset, or_bound_error, element, completed,
  remaining, slice,
}

length-remaining : (l : Layout) (n : ℕ) (dim : List ℕ) → length (remaining l n dim) ≡ length dim - n
length-remaining c_layout n dim = length-drop n dim
length-remaining fortran_layout n dim = length-take (length dim - n) dim ∙ (omega arith)

length-cut : (l : Layout) (n : ℕ) (dim : List ℕ) → n ≤ length dim → length (cut l n dim) ≡ n
length-cut c_layout n dim h = length-take n dim ∙ (omega arith)
length-cut fortran_layout n dim h = length-drop (length dim - n) dim ∙ (omega arith)

length-joined :
    (l : Layout) (vind js : List ℤ) → length (joined l vind js) ≡ length vind + length js
length-joined c_layout vind js = length-append vind js
length-joined fortran_layout vind js = length-append js vind ∙ (omega arith)

below_take : (m n : ℕ) (ds : List ℕ) → AllBelow m ds → AllBelow m (take n ds)
below_take m zero ds h = tt
below_take m (suc n) [] h = tt
below_take m (suc n) (d ∷ ds) (h, h') = (h, below_take m n ds h')

below_drop : (m n : ℕ) (ds : List ℕ) → AllBelow m ds → AllBelow m (drop n ds)
below_drop m zero ds h = h
below_drop m (suc n) [] h = tt
below_drop m (suc n) (d ∷ ds) (h, h') = below_drop m n ds h'

below_remaining :
    (l : Layout) (m n : ℕ) (ds : List ℕ) → AllBelow m ds → AllBelow m (remaining l n ds)
below_remaining c_layout m n ds h = below_drop m n ds h
below_remaining fortran_layout m n ds h = below_take m (length ds - n) ds h

-- The slice that starts at element `k`.
abbrev slice_at : Bigarray → ℕ → ℕ → Bigarray
slice_at b n k =
    array b.kind b.layout (b.start_of_data + k * element_size b.kind) (remaining b.layout n b.dim)

slice_offset :
    (b : Bigarray) (vind js : List ℤ) (k : ℕ)
    → IsBigarray b
    → IsBigarray (slice_at b (length vind) k)
    → length vind ≤ length b.dim
    → ba_offset b (completed b.layout (length b.dim - length vind) vind) ≡ some k
    → ba_offset b (joined b.layout vind js)
      ≡ (ba_offset (slice_at b (length vind) k) js >>= λ j. some (k + j))
slice_offset b vind js k h h' m e =
    let l = b.layout in
    let n = length vind in
    let ds = in_order l (cut l n b.dim) in
    let es = in_order l (remaining l n b.dim) in
    let dims : in_order l b.dim ≡ ds ++ es = dim_order l n b.dim in
    let size : length b.dim - n ≡ length es =
      sym (length-in_order l (remaining l n b.dim) ∙ length-remaining l n b.dim) in
    let count : length (digits l vind) ≡ length ds =
      length-in_order l (map (from_base l) vind)
      ∙ length-map (from_base l) vind
      ∙ sym (length-in_order l (cut l n b.dim) ∙ length-cut l n b.dim m) in
    let first : rank 0 (ds ++ es) (digits l vind ++ replicate (length es) 0) ≡ some k =
      ap (λ r. rank 0 (ds ++ es) (digits l vind ++ replicate r 0)) (sym size)
      ∙ ap (rank 0 (ds ++ es)) (sym (completed_order l (length b.dim - n) vind))
      ∙ ap (λ xs. rank 0 xs (digits l (completed l (length b.dim - n) vind))) (sym dims)
      ∙ sym (ba_offset-rank b (completed l (length b.dim - n) vind) h)
      ∙ e in
    ba_offset-rank b (joined l vind js) h
    ∙ ap (λ xs. rank 0 xs (digits l (joined l vind js))) dims
    ∙ ap (rank 0 (ds ++ es)) (joined_order l vind js)
    ∙ slice_rank ds es (digits l vind) (digits l js) k count first
    ∙ ap (λ o. o >>= λ j. some (k + j)) (sym (ba_offset-rank (slice_at b n k) js h'))

-- The addresses.
further :
    (s k size : ℕ) (o : Option ℕ)
    → and_then (or_bound_error o) (λ j. checked (s + k * size + j * size))
      ≡ and_then (or_bound_error (o >>= λ j. some (k + j))) (λ j. checked (s + j * size))
further s k size none = refl
further s k size (some j) = ap (λ n. checked n) (omega arith)

slice_element :
    (b : Bigarray) (vind js : List ℤ) (k : ℕ)
    → IsBigarray b
    → IsBigarray (slice_at b (length vind) k)
    → length vind ≤ length b.dim
    → ba_offset b (completed b.layout (length b.dim - length vind) vind) ≡ some k
    → element (slice_at b (length vind) k) js ≡ element b (joined b.layout vind js)
unfolding element
slice_element b vind js k h h' m e =
    let o = slice_offset b vind js k h h' m e in
    let p = length-joined b.layout vind js in
    let q = length-remaining b.layout (length vind) b.dim in
    elim (ℕ_discrete (length vind + length js) (length b.dim)) [
      | yes y ↦
          let t : length js == length (remaining b.layout (length vind) b.dim) ≡ true =
            ground arith in
          let t' : length (joined b.layout vind js) == length b.dim ≡ true = ground arith in
          simp (t, t', o)
            (further b.start_of_data k (element_size b.kind)
              (ba_offset (slice_at b (length vind) k) js))
      | no y ↦
          let t : length js == length (remaining b.layout (length vind) b.dim) ≡ false =
            ground arith in
          let t' : length (joined b.layout vind js) == length b.dim ≡ false = ground arith in
          simp (t, t') refl
    ]

parts_size :
    (l : Layout) (n : ℕ) (dim : List ℕ)
    → size_of dim ≡ size_of (cut l n dim) * size_of (remaining l n dim)
parts_size c_layout n dim =
    ap size_of (sym (take-append-drop n dim)) ∙ size_of-append (take n dim) (drop n dim)
parts_size fortran_layout n dim =
    let m = length dim - n in
    ap size_of (sym (take-append-drop m dim))
    ∙ size_of-append (take m dim) (drop m dim)
    ∙ mul_comm (size_of (take m dim)) (size_of (drop m dim))

-- An array in which some index is in bounds has elements.
offset_pos :
    (b : Bigarray) (index : List ℤ) (k : ℕ)
    → IsBigarray b
    → ba_offset b index ≡ some k
    → 0 < size_of b.dim
offset_pos b index k h e =
    let ds = in_order b.layout b.dim in
    let f : rank 0 ds (digits b.layout index) ≡ some k = sym (ba_offset-rank b index h) ∙ e in
    elim (within_dec ds (digits b.layout index)) [
      | yes w ↦
          rw (sym (size_of-in_order b.layout b.dim)) (Within-positive ds (digits b.layout index) w)
      | no w ↦
          let g : Path (Option ℕ) none (some k) =
            sym (rank-outside 0 ds (digits b.layout index) w) ∙ f in
          absurd (cc g)
    ]

-- A part of the dimensions of an array with elements has elements, and is no larger.
slice_fits :
    (b : Bigarray) (n : ℕ)
    → IsBigarray b
    → 0 < size_of b.dim
    → (0 < size_of (remaining b.layout n b.dim))
      × (size_of (remaining b.layout n b.dim) * element_size b.kind < 2 ^ 64)
slice_fits b n h p =
    let c = size_of (cut b.layout n b.dim) in
    let r = size_of (remaining b.layout n b.dim) in
    let e : size_of b.dim ≡ c * r = parts_size b.layout n b.dim in
    let q : 0 < c * r = omega arith in
    let (pc, pr) = factors_pos c r q in
    let m : r ≤ c * r = rw (mul_comm c r) (le-mul_of_pos_right r pc) in
    let m' : r * element_size b.kind ≤ c * r * element_size b.kind =
      mul-le-mul_right (element_size b.kind) m in
    let f : c * r * element_size b.kind < 2 ^ 64 = rw (sym e) h.fits in (pr, omega arith)

-- What caml_ba_slice gives.
abbrev pub Sliced : Bigarray → List ℤ → Checked Bigarray → Type 0
Sliced b vind (checked c) =
    IsBigarray c × ((js : List ℤ) → element c js ≡ element b (joined b.layout vind js))
Sliced b vind invalid_argument = length b.dim < length vind
Sliced b vind bound_error =
    ba_offset b (completed b.layout (length b.dim - length vind) vind) ≡ none
Sliced b vind _ = ⊥

-- caml_ba_slice of an array gives an array, each access to which is the access to the first array with the
-- indices of the slice put before the others, or behind them in the layout of Fortran, errors included. It
-- raises Invalid_argument only for more indices than dimensions, and so not for as many, and an error of
-- bounds only if these with the least others are out of bounds.
pub slice-Sliced : (b : Bigarray) (vind : List ℤ) → IsBigarray b → Sliced b vind (slice b vind)
unfolding slice
slice-Sliced b vind h = elim (Bool-cases (ltb (length b.dim) (length vind))) [
  | inl t ↦ simp t (ltb→lt (length b.dim) (length vind) t)
  | inr t ↦
      elim (Option-cases (ba_offset b (completed b.layout (length b.dim - length vind) vind))) [
        | inl e ↦ simp (t, e) refl
        | inr (k, e) ↦
            let (p, f) = slice_fits b (length vind) h (offset_pos b _ k h e) in
            let v =
              alloc_view_fits b.kind b.layout (b.start_of_data + k * element_size b.kind)
                (remaining b.layout (length vind) b.dim) p f in
            let h' : IsBigarray (slice_at b (length vind) k) = record {
              fits = f;
              longs = below_remaining b.layout (2 ^ 62) (length vind) b.dim h.longs;
            } in
            simp (t, e, v)
              (h', λ js. slice_element b vind js k h h' (ltb→le (length b.dim) (length vind) t) e)
      ]
]
