-- ===== src/Bigarray/Elements.antt =====
-- runtime/bigarray.c: which indices name an element, and where it lies in the data.
use native.Mathlib.Nat.{mul_assoc, mul-le-mul_left}
use trav_lang.Common.{
  ℕ, ◌+◌, ◌*◌, ◌/◌, ◌%◌, ◌^◌, ◌≤◌, ◌<◌, ◌≡◌, ◌≢◌, ◌∙◌, ap, List, [], ◌∷◌, true, false, length, ◌==◌,
  arith, ℕ_discrete,
}
use trav_lang.Common.Int.{ℤ}
use trav_lang.Bigarray.Offsets.{
  size_of, rank, rank-Within, rank-outside, within_dec, offset_loop_exact,
}
use trav_lang.Bigarray.Bounds.{
  AllLong, IsBigarray, InBounds, size_of-in_order, digits, digits-InBounds,
}
use trav_lang.Bigarray.{
  Kind, Bigarray, Checked, checked, invalid_argument, bound_error, element_size, in_order,
  ba_offset, element, num_elts, num_elts_from,
}

pub element_size_pos : (k : Kind) → 1 ≤ element_size k
element_size_pos k = ground arith

pub elements_fit : (b : Bigarray) → IsBigarray b → size_of b.dim < 2 ^ 64
elements_fit b h =
    let l : size_of b.dim * 1 ≤ size_of b.dim * element_size b.kind =
      mul-le-mul_left (size_of b.dim) (element_size_pos b.kind) in
    let l' = h.fits in omega arith

pub ba_offset-rank :
    (b : Bigarray) (index : List ℤ)
    → IsBigarray b
    → ba_offset b index ≡ rank 0 (in_order b.layout b.dim) (digits b.layout index)
unfolding ba_offset
ba_offset-rank b index h =
    let e = size_of-in_order b.layout b.dim in
    let l = elements_fit b h in
    offset_loop_exact (in_order b.layout b.dim) (digits b.layout index) (omega arith)

mod-mul : (x p : ℕ) → x % 2 ^ 64 * p % 2 ^ 64 ≡ x * p % 2 ^ 64
mod-mul x p =
    let q = x / 2 ^ 64 in
    let r = x % 2 ^ 64 in
    let e : x ≡ 2 ^ 64 * q + r = omega arith in
    let f : x * p ≡ (2 ^ 64 * q + r) * p = ap (λ y. y * p) e in
    let g : (2 ^ 64 * q + r) * p ≡ 2 ^ 64 * (q * p) + r * p = omega arith in omega arith

pub num_elts-product :
    (n : ℕ) (ds : List ℕ) → n < 2 ^ 64 → num_elts_from n ds ≡ n * size_of ds % 2 ^ 64
num_elts-product n [] h = omega arith
num_elts-product n (d ∷ ds) h =
    num_elts-product (n * d % 2 ^ 64) ds (omega arith)
    ∙ mod-mul (n * d) (size_of ds)
    ∙ ap (λ m. m % 2 ^ 64) (mul_assoc n d (size_of ds))

pub num_elts_exact : (ds : List ℕ) → size_of ds < 2 ^ 64 → num_elts_from 1 ds ≡ size_of ds
num_elts_exact ds h = num_elts-product 1 ds (omega arith) ∙ (omega arith)

pub num_elts-size : (b : Bigarray) → IsBigarray b → num_elts b ≡ size_of b.dim
num_elts-size b h = num_elts_exact b.dim (elements_fit b h)

-- What an access gives.
pub data Access (b : Bigarray) (index : List ℤ) : Checked ℕ → Type 0 where
  wrong_number : (length index ≢ length b.dim) → Access b index invalid_argument
  outside :
      (length index ≡ length b.dim) → ¬ (InBounds b.layout b.dim index) → Access b index bound_error
  found :
      (k : ℕ)
      → InBounds b.layout b.dim index
      → k < num_elts b
      → Access b index (checked (b.start_of_data + k * element_size b.kind))

-- An access to an array with tagged integers as indices raises Invalid_argument for a wrong number of
-- indices, and an error of bounds exactly if some index is out of the bounds of its layout; else it is at the
-- place of an element, with a number less than that of the elements.
pub element-Access :
    (b : Bigarray) (index : List ℤ)
    → IsBigarray b
    → AllLong index
    → Access b index (element b index)
unfolding element
element-Access b index h k = elim (ℕ_discrete (length index) (length b.dim)) [
  | no n ↦ let t : length index == length b.dim ≡ false = ground arith in simp t (wrong_number n)
  | yes e ↦
      let t : length index == length b.dim ≡ true = ground arith in
      let (f, g) = digits-InBounds b index h k e in
      let r = ba_offset-rank b index h in
      elim (within_dec (in_order b.layout b.dim) (digits b.layout index)) [
        | no w ↦
            let o = r ∙ rank-outside 0 (in_order b.layout b.dim) (digits b.layout index) w in
            simp (t, o) (outside e (λ i. w (g i)))
        | yes w ↦
            let (n, o, l, l') = rank-Within 0 (in_order b.layout b.dim) (digits b.layout index) w in
            let s = size_of-in_order b.layout b.dim in
            let c = num_elts-size b h in simp (t, r ∙ o) (found n (f w) (omega arith))
      ]
]
