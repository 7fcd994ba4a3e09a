-- ===== src/Bigarray.antt =====
-- runtime/bigarray.c and runtime/caml/bigarray.h: the layout of big arrays, and views of one on the data of
-- another. An array is its descriptor, with the address of its data, a number. The conversions of the kinds
-- of elements, the proxies that keep shared data alive, and the flags for these are left out.
pub mod Offsets
pub mod Bounds
pub mod Elements
pub mod Distinct
pub mod Made
pub mod Reshaping
pub mod Views
pub mod Slices
pub mod Layouts
use mathlib.Core.List.{reverse}
use trav_lang.Common.{
  ℕ, zero, suc, ◌+◌, ◌-◌, ◌*◌, ◌%◌, ◌^◌, List, [], ◌∷◌, ◌++◌, map, Option, none, some, ◌>>=◌, Bool,
  true, false, length, take, drop, replicate, ltb, leb, ◌==◌, if◌then◌else◌,
}
use trav_lang.Common.Int.{ℤ, pos, negsuc, ◌-ℤ◌}

pub data Kind : Type 0 where
  float32 float64 sint8 uint8 sint16 uint16 int32 int64 caml_int native_int : Kind
  complex32 complex64 char float16 : Kind

pub data Layout : Type 0 where
  c_layout fortran_layout : Layout

pub record Bigarray : Type 0 where
  pub start_of_data : ℕ
  pub dim : List ℕ
  pub kind : Kind
  pub layout : Layout

-- What a primitive gives or raises. A read of a dimension that the array does not have, which the C code
-- does not check, is a fault.
pub data Checked {ℓ} (A : Type ℓ) : Type ℓ where
  checked : A → Checked A
  invalid_argument bound_error out_of_memory fault : Checked A

abbrev pub and_then {ℓ κ} : {A : Type ℓ} {B : Type κ} → Checked A → (A → Checked B) → Checked B
and_then (checked a) f = f a
and_then invalid_argument f = invalid_argument
and_then bound_error f = bound_error
and_then out_of_memory f = out_of_memory
and_then fault f = fault

abbrev pub element_size : Kind → ℕ
element_size float32 = 4
element_size float64 = 8
element_size sint8 = 1
element_size uint8 = 1
element_size sint16 = 2
element_size uint16 = 2
element_size int32 = 4
element_size int64 = 8
element_size caml_int = 8
element_size native_int = 8
element_size complex32 = 8
element_size complex64 = 16
element_size char = 1
element_size float16 = 2

-- The product of the dimensions, as a word.
abbrev pub num_elts_from : ℕ → List ℕ → ℕ
num_elts_from n [] = n
num_elts_from n (d ∷ ds) = num_elts_from (n * d % 2 ^ 64) ds

abbrev pub num_elts : Bigarray → ℕ
num_elts b = num_elts_from 1 b.dim

abbrev pub byte_size : Bigarray → ℕ
byte_size b = num_elts b * element_size b.kind % 2 ^ 64

-- The product, unless it overflows a word.
abbrev pub umul_overflow : ℕ → ℕ → Option ℕ
umul_overflow a b = if ltb (a * b) (2 ^ 64) then some (a * b) else none

unfoldable pub alloc_elts : ℕ → List ℕ → Option ℕ
alloc_elts n [] = some n
alloc_elts n (d ∷ ds) = umul_overflow n d >>= (λ m. alloc_elts m ds)

unfoldable pub alloc_size : Kind → List ℕ → Option ℕ
unfolding alloc_elts
alloc_size k ds = alloc_elts 1 ds >>= (λ n. umul_overflow n (element_size k))

abbrev pub or_out_of_memory {ℓ} : {A : Type ℓ} → Option A → Checked A
or_out_of_memory none = out_of_memory
or_out_of_memory (some a) = checked a

-- `caml_ba_alloc` on data that is there. The null pointer, which only arrays without elements may have, and
-- for which `malloc` is called again, is left out.
unfoldable pub alloc_view : Kind → Layout → ℕ → List ℕ → Checked Bigarray
unfolding alloc_size
alloc_view k l start dims =
    and_then (or_out_of_memory (alloc_size k dims))
      (λ size. checked (record { start_of_data = start; dim = dims; kind = k; layout = l }))

-- `caml_ba_alloc` with data of its own: `malloc` gives no address, or that of so many bytes.
abbrev pub allocated : (ℕ → Option ℕ) → ℕ → Checked ℕ
allocated malloc zero = or_out_of_memory (some (elim (malloc 0) [ none ↦ 0 | some p ↦ p ]))
allocated malloc (suc size) = or_out_of_memory (malloc (suc size))

-- The dimensions of `vdim`, none of which is negative.
unfoldable pub natural_dims : List ℤ → Option (List ℕ)
natural_dims [] = some []
natural_dims (negsuc n ∷ zs) = none
natural_dims (pos n ∷ zs) = natural_dims zs >>= (λ ds. some (n ∷ ds))

abbrev pub or_invalid {ℓ} : {A : Type ℓ} → Option A → Checked A
or_invalid none = invalid_argument
or_invalid (some a) = checked a

-- `Wosize_val(vdim) > CAML_BA_MAX_NUM_DIMS`, and the loop over `vdim`.
abbrev pub dimensions : List ℤ → Checked (List ℕ)
dimensions vdim = if ltb 16 (length vdim) then invalid_argument else or_invalid (natural_dims vdim)

unfoldable pub create : (ℕ → Option ℕ) → Kind → Layout → List ℤ → Checked Bigarray
unfolding natural_dims alloc_size alloc_view
create malloc k l vdim = and_then (dimensions vdim) (λ dims.
    and_then (or_out_of_memory (alloc_size k dims))
      (λ size. and_then (allocated malloc size) (λ start. alloc_view k l start dims)))

-- `(uintnat) z`, and `(uintnat) (z - 1)`.
abbrev pub to_uintnat : ℤ → ℕ
to_uintnat (pos n) = n % 2 ^ 64
to_uintnat (negsuc n) = 2 ^ 64 - 1 - n % 2 ^ 64

abbrev pub from_one : ℤ → ℕ
from_one z = (to_uintnat z + (2 ^ 64 - 1)) % 2 ^ 64

-- The loop of `caml_ba_offset` on the dimensions and the indices in its order.
unfoldable pub offset_loop : ℕ → List ℕ → List ℕ → Option ℕ
offset_loop offset [] index = some offset
offset_loop offset (d ∷ ds) [] = none
offset_loop offset (d ∷ ds) (i ∷ index) =
    let rest = offset_loop ((offset * d + i) % 2 ^ 64) ds index in if ltb i d then rest else none

-- The dimensions in the order of the loop, and the indices, counted from 0.
abbrev pub in_order {ℓ} : {A : Type ℓ} → Layout → List A → List A
in_order c_layout xs = xs
in_order fortran_layout xs = reverse xs

abbrev pub from_base : Layout → ℤ → ℕ
from_base c_layout z = to_uintnat z
from_base fortran_layout z = from_one z

unfoldable pub ba_offset : Bigarray → List ℤ → Option ℕ
unfolding offset_loop
ba_offset b index =
    offset_loop 0 (in_order b.layout b.dim) (in_order b.layout (map (from_base b.layout) index))

abbrev pub or_bound_error {ℓ} : {A : Type ℓ} → Option A → Checked A
or_bound_error none = bound_error
or_bound_error (some a) = checked a

-- The address of an element for `caml_ba_get_N` and `caml_ba_set_aux`, their checks included.
unfoldable pub element : Bigarray → List ℤ → Checked ℕ
unfolding ba_offset
element b index =
    if length index == length b.dim
    then and_then (or_bound_error (ba_offset b index))
        (λ offset. checked (b.start_of_data + offset * element_size b.kind))
    else invalid_argument

-- The indices that `caml_ba_slice` completes, with `rest` more dimensions, and the dimensions that it leaves.
abbrev pub completed : Layout → ℕ → List ℤ → List ℤ
completed c_layout rest vind = vind ++ replicate rest (pos 0)
completed fortran_layout rest vind = replicate rest (pos 1) ++ vind

abbrev pub remaining : Layout → ℕ → List ℕ → List ℕ
remaining c_layout num_inds dim = drop num_inds dim
remaining fortran_layout num_inds dim = take (length dim - num_inds) dim

unfoldable pub slice : Bigarray → List ℤ → Checked Bigarray
unfolding ba_offset alloc_view
slice b vind =
    let num_inds : ℕ = length vind in
    if ltb (length b.dim) num_inds
    then invalid_argument
    else and_then (or_bound_error (ba_offset b (completed b.layout (length b.dim - num_inds) vind)))
        (λ offset.
          alloc_view b.kind b.layout (b.start_of_data + offset * element_size b.kind)
            (remaining b.layout num_inds b.dim))

-- The other layout, with the dimensions reversed.
abbrev pub same_layout : Layout → Layout → Bool
same_layout c_layout c_layout = true
same_layout fortran_layout fortran_layout = true
same_layout _ _ = false

unfoldable pub change_layout : Bigarray → Layout → Checked Bigarray
unfolding alloc_view
change_layout b l =
    if same_layout l b.layout
    then checked b
    else alloc_view b.kind l b.start_of_data (reverse b.dim)

unfoldable pub reshape : Bigarray → List ℤ → Checked Bigarray
unfolding natural_dims alloc_view
reshape b vdim = and_then (dimensions vdim) (λ dims.
    if num_elts_from 1 dims == num_elts b
    then alloc_view b.kind b.layout b.start_of_data dims
    else invalid_argument)

-- `ofs` from 0, and the number of elements for each index of the dimension that changes.
abbrev pub from_first : Layout → ℤ → ℤ
from_first c_layout ofs = ofs
from_first fortran_layout ofs = ofs -ℤ pos 1

abbrev pub others : Layout → List ℕ → List ℕ
others c_layout dim = drop 1 dim
others fortran_layout dim = take (length dim - 1) dim

-- The check and the new array, with the dimensions in the order that begins with the one that changes.
abbrev pub sub_at : Bigarray → ℤ → ℤ → List ℕ → Checked Bigarray
sub_at b (pos ofs) (pos len) (d ∷ rest) =
    if leb (ofs + len) d
    then and_then
        (alloc_view b.kind b.layout
          (b.start_of_data + ofs * num_elts_from 1 (others b.layout b.dim) * element_size b.kind)
          b.dim)
        (λ c. checked (record c { dim = in_order b.layout (len ∷ rest) }))
    else invalid_argument
sub_at b ofs len (d ∷ rest) = invalid_argument
sub_at b ofs len [] = fault

unfoldable pub sub : Bigarray → ℤ → ℤ → Checked Bigarray
unfolding alloc_view ◌-ℤ◌
sub b ofs len = sub_at b (from_first b.layout ofs) len (in_order b.layout b.dim)
