-- ===== src/Tests/Bigarrays.antt =====
-- Big arrays at concrete dimensions and indices.
use trav_lang.Common.{◌^◌, ◌≡◌, ◌≢◌, refl, List, [], ◌∷◌, some, arith}
use trav_lang.Common.Int.{ℤ, pos, negsuc}
use trav_lang.Bigarray.{
  Bigarray, sint16, float64, c_layout, fortran_layout, checked, bound_error, out_of_memory, fault,
  sub, create, slice, change_layout, reshape, element, ba_offset,
}
use trav_lang.Bigarray.Bounds.{IsBigarray}
use trav_lang.Bigarray.Elements.{Access, element-Access}
use trav_lang.Bigarray.Distinct.{ba_offset_distinct}
use trav_lang.Bigarray.Made.{Made, create-Made}
use trav_lang.Bigarray.Slices.{Sliced, slice-Sliced}
use trav_lang.Bigarray.Layouts.{Turned, change_layout-Turned}
use trav_lang.Bigarray.Reshaping.{Reshaped, reshape-Reshaped}

abbrev two_by_three : Bigarray
two_by_three = record { start_of_data = 100; dim = 2 ∷ 3 ∷ []; kind = sint16; layout = c_layout }

two_by_three-IsBigarray : IsBigarray two_by_three
two_by_three-IsBigarray = record { fits = omega arith; longs = (omega arith, (omega arith, tt)) }

abbrev one_two : List ℤ
one_two = pos 1 ∷ pos 2 ∷ []

last_element : element two_by_three one_two ≡ checked 110
unfolding element
last_element = refl

element_outside : element two_by_three (pos 1 ∷ negsuc 0 ∷ []) ≡ bound_error
unfolding element
element_outside = refl

first_row :
    slice two_by_three (pos 1 ∷ [])
    ≡ checked (record two_by_three { start_of_data = 106; dim = 3 ∷ [] })
unfolding slice
first_row = refl

turned_dims :
    change_layout two_by_three fortran_layout
    ≡ checked (record two_by_three { dim = 3 ∷ 2 ∷ []; layout = fortran_layout })
unfolding change_layout
turned_dims = refl

last_columns :
    sub (record two_by_three { layout = fortran_layout }) (pos 2) (pos 2)
    ≡ checked
        (record two_by_three { start_of_data = 104; dim = 2 ∷ 2 ∷ []; layout = fortran_layout })
unfolding sub
last_columns = refl

-- An array without dimensions has no first one to restrict.
sub_of_scalar : sub (record two_by_three { dim = [] }) (pos 0) (pos 0) ≡ fault
unfolding sub
sub_of_scalar = refl

-- The order of the dimensions matters for what is out of memory.
empty_made :
    create (λ size. some 0) float64 c_layout (pos 0 ∷ pos (2 ^ 40) ∷ pos (2 ^ 40) ∷ [])
    ≡ checked (record {
      start_of_data = 0;
      dim = 0 ∷ 2 ^ 40 ∷ 2 ^ 40 ∷ [];
      kind = float64;
      layout = c_layout;
    })
unfolding create
empty_made = refl

empty_not_made :
    create (λ size. some 0) float64 c_layout (pos (2 ^ 40) ∷ pos (2 ^ 40) ∷ pos 0 ∷ [])
    ≡ out_of_memory
unfolding create
empty_not_made = refl

element-Access_example : Access two_by_three one_two (element two_by_three one_two)
element-Access_example =
    element-Access two_by_three one_two two_by_three-IsBigarray (omega arith, (omega arith, tt))

ba_offset_distinct_example :
    ba_offset two_by_three one_two ≢ ba_offset two_by_three (pos 0 ∷ pos 2 ∷ [])
ba_offset_distinct_example =
    ba_offset_distinct two_by_three one_two (pos 0 ∷ pos 2 ∷ []) two_by_three-IsBigarray
      (omega arith, (omega arith, tt)) (omega arith, (omega arith, tt))
      (omega arith, (omega arith, tt)) (omega arith, (omega arith, tt)) (λ e. absurd (cc e))

create-Made_example :
    Made sint16 c_layout one_two (create (λ size. some 100) sint16 c_layout one_two)
create-Made_example =
    create-Made (λ size. some 100) sint16 c_layout one_two (omega arith, (omega arith, tt))

slice-Sliced_example : Sliced two_by_three (pos 1 ∷ []) (slice two_by_three (pos 1 ∷ []))
slice-Sliced_example = slice-Sliced two_by_three (pos 1 ∷ []) two_by_three-IsBigarray

change_layout-Turned_example : Turned two_by_three (change_layout two_by_three fortran_layout)
change_layout-Turned_example = change_layout-Turned two_by_three two_by_three-IsBigarray

reshape-Reshaped_example : Reshaped two_by_three (pos 6 ∷ []) (reshape two_by_three (pos 6 ∷ []))
reshape-Reshaped_example =
    reshape-Reshaped two_by_three (pos 6 ∷ []) two_by_three-IsBigarray (omega arith, tt)
