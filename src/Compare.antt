-- ===== src/Compare.antt =====
-- runtime/compare.c: structural comparison, with its stack of blocks that are still to be compared. Pending
-- actions are left out. Integers are taken to have 63 bits, and lengths, sizes and tags fit into words, so their
-- differences are written without a wrap-around; none is `UNORDERED`, which only floating-point numbers and
-- custom blocks give, so the tests have no `res != UNORDERED`.
pub mod Reference
pub mod Turns
pub mod Kinds
pub mod Loop
pub mod Order
pub mod Signs
pub mod Agreement
pub mod Results
use trav_lang.Common.{
  ℕ, zero, suc, ◌+◌, ◌-◌, ◌*◌, ◌^◌, Bool, true, false, not, ◌&&◌, List, [], ◌∷◌, length, leb, ltb,
  ◌==◌, if◌then◌else◌,
}
use trav_lang.Common.Int.{ℤ, pos, negsuc, ◌-ℤ◌, ltb_ℤ, eqb_ℤ}
use trav_lang.Strings.{memcmp}
use trav_lang.Trees.{
  Opaque, closure, inner_closure, Tree, immediate, text, object, forward, opaque, node, Forest, end,
  child, tag_of, opaque_tag, count_fields, size,
}

-- What a comparison gives: its result or an exception; `UNORDERED` is for floating-point numbers. An item without fields is a fault.
pub data Comparison : Type 0 where
  result : ℤ → Comparison
  incomparable : Comparison
  out_of_memory : Comparison
  fault : Comparison
  no_fuel : Comparison

-- `struct compare_item`: the fields of two blocks from `offset` on.
pub record CompareItem : Type 0 where
  pub fields1 : Forest
  pub fields2 : Forest

abbrev pub Stack : Type 0
Stack = List CompareItem

-- Where the loop goes on: with two values, or with the next item of the stack.
pub data Turn : Type 0 where
  done : Comparison → Turn
  again : Tree → Tree → Stack → Turn
  next_item : Stack → Turn

abbrev pub less : Comparison
less = result (negsuc 0)

abbrev pub greater : Comparison
greater = result (pos 1)

-- `String_tag`.
unfoldable pub compare_strings : List ℕ → List ℕ → Stack → Turn
unfolding memcmp ◌-ℤ◌
compare_strings s1 s2 stk =
    let len1 = length s1 in
    let len2 = length s2 in
    let res = memcmp (if leb len1 len2 then len1 else len2) s1 s2 in
    if ltb_ℤ res (pos 0)
    then done less
    else if ltb_ℤ (pos 0) res
    then done greater
    else if len1 == len2
    then next_item stk
    else done (result (pos len1 -ℤ pos len2))

-- `compare_resize_stack` gives up at `COMPARE_STACK_MAX_SIZE`, so the largest stack has half of it.
abbrev pub push_item : Tree → Tree → Forest → Forest → Stack → Turn
push_item v1 v2 end g stk = again v1 v2 stk
push_item v1 v2 f g stk =
    if leb (2 ^ 19) (length stk)
    then done out_of_memory
    else again v1 v2 (record { fields1 = f; fields2 = g } ∷ stk)

-- The first fields go on, and the others are remembered.
abbrev pub first_fields : Forest → Forest → Stack → Turn
first_fields (child v1 f) (child v2 g) stk = push_item v1 v2 f g stk
first_fields _ _ stk = next_item stk

-- Blocks of fields.
unfoldable pub compare_blocks : Forest → Forest → Stack → Turn
unfolding ◌-ℤ◌
compare_blocks f g stk =
    if count_fields f == count_fields g
    then first_fields f g stk
    else done (result (pos (count_fields f) -ℤ pos (count_fields g)))

-- `if (t1 == Infix_tag) t1 = Closure_tag;`
abbrev pub merged_tag : ℕ → ℕ
merged_tag t = if t == 249 then 247 else t

-- Different tags.
unfoldable pub compare_tags : Tree → Tree → Comparison
unfolding ◌-ℤ◌
compare_tags v1 v2 = result (pos (merged_tag (tag_of v1)) -ℤ pos (merged_tag (tag_of v2)))

-- The loop's body; `eq` tells whether the pointers are equal, which matters behind `total` for integers and
-- strings.
unfoldable pub compare_by_kind : Bool → Tree → Tree → Stack → Turn
unfolding compare_strings compare_blocks compare_tags ◌-ℤ◌
compare_by_kind eq (immediate a) (immediate b) stk =
    if eqb_ℤ a b then next_item stk else done (result (a -ℤ b))
compare_by_kind eq (immediate a) (forward v2) stk = again (immediate a) v2 stk
compare_by_kind eq (immediate a) v2 stk = done less
compare_by_kind eq (forward v1) (immediate b) stk = again v1 (immediate b) stk
compare_by_kind eq v1 (immediate b) stk = done greater
compare_by_kind eq (forward v1) (forward v2) stk = again v1 v2 stk
compare_by_kind eq (forward v1) v2 stk = again v1 v2 stk
compare_by_kind eq v1 (forward v2) stk = again v1 v2 stk
compare_by_kind eq (text s1) (text s2) stk = if eq then next_item stk else compare_strings s1 s2 stk
compare_by_kind eq (object oid1) (object oid2) stk =
    if oid1 == oid2 then next_item stk else done (result (pos oid1 -ℤ pos oid2))
compare_by_kind eq (opaque o) (opaque p) stk =
    if merged_tag (opaque_tag o) == merged_tag (opaque_tag p)
    then done incomparable
    else done (compare_tags (opaque o) (opaque p))
compare_by_kind eq (node t f) (node u g) stk =
    if t == u then compare_blocks f g stk else done (compare_tags (node t f) (node u g))
compare_by_kind eq v1 v2 stk = done (compare_tags v1 v2)

-- `next_item`.
abbrev pub pushed_rest : Forest → Forest → Stack → Stack
pushed_rest end g stk = stk
pushed_rest f g stk = record { fields1 = f; fields2 = g } ∷ stk

abbrev pub pop_fields : Forest → Forest → Stack → Turn
pop_fields (child v1 f) (child v2 g) stk = again v1 v2 (pushed_rest f g stk)
pop_fields _ _ stk = done fault

unfoldable pub pop_item : Stack → Turn
pop_item [] = done (result (pos 0))
pop_item (item ∷ stk) = pop_fields item.fields1 item.fields2 stk

-- One turn of the loop's body leads to the next one, `go`.
abbrev pub go_on : (Tree → Tree → Stack → Comparison) → Turn → Comparison
go_on go (done c) = c
go_on go (again v1 v2 stk) = go v1 v2 stk
go_on go (next_item stk) = fault

unfoldable pub settle : Turn → Turn
unfolding pop_item
settle (next_item stk) = pop_item stk
settle (done c) = done c
settle (again v1 v2 stk) = again v1 v2 stk

abbrev pub on_result : (ℤ → ℤ) → Comparison → Comparison
on_result f (result z) = result (f z)
on_result f c = c

-- The Booleans are the integers 0 and 1.
abbrev pub val_bool : Bool → ℤ
val_bool true = pos 1
val_bool false = pos 0

-- `same` tells whether two pointers are equal.
module _ (same : Tree → Tree → Bool) where
  unfoldable pub compare_turn : Bool → Tree → Tree → Stack → Turn
  unfolding compare_by_kind settle
  compare_turn total v1 v2 stk =
      if same v1 v2 && total
      then settle (next_item stk)
      else settle (compare_by_kind (same v1 v2) v1 v2 stk)

  unfoldable pub compare_loop : ℕ → Bool → Tree → Tree → Stack → Comparison
  unfolding compare_turn
  compare_loop zero total v1 v2 stk = no_fuel
  compare_loop (suc fuel) total v1 v2 stk =
      go_on (compare_loop fuel total) (compare_turn total v1 v2 stk)

  unfoldable pub compare_val : Tree → Tree → Bool → Comparison
  unfolding compare_loop
  compare_val v1 v2 total = compare_loop (size v1 + size v2) total v1 v2 []

  -- The sign of the result, and the tests on it.
  unfoldable pub caml_compare : Tree → Tree → Comparison
  unfolding compare_val
  caml_compare v1 v2 =
      on_result
        (λ res. if ltb_ℤ res (pos 0) then negsuc 0 else if ltb_ℤ (pos 0) res then pos 1 else pos 0)
        (compare_val v1 v2 true)

  unfoldable pub caml_equal : Tree → Tree → Comparison
  unfolding compare_val
  caml_equal v1 v2 = on_result (λ res. val_bool (eqb_ℤ res (pos 0))) (compare_val v1 v2 false)

  unfoldable pub caml_notequal : Tree → Tree → Comparison
  unfolding compare_val
  caml_notequal v1 v2 =
      on_result (λ res. val_bool (not (eqb_ℤ res (pos 0)))) (compare_val v1 v2 false)

  unfoldable pub caml_lessthan : Tree → Tree → Comparison
  unfolding compare_val
  caml_lessthan v1 v2 = on_result (λ res. val_bool (ltb_ℤ res (pos 0))) (compare_val v1 v2 false)

  unfoldable pub caml_lessequal : Tree → Tree → Comparison
  unfolding compare_val
  caml_lessequal v1 v2 =
      on_result (λ res. val_bool (not (ltb_ℤ (pos 0) res))) (compare_val v1 v2 false)

  unfoldable pub caml_greaterthan : Tree → Tree → Comparison
  unfolding compare_val
  caml_greaterthan v1 v2 = on_result (λ res. val_bool (ltb_ℤ (pos 0) res)) (compare_val v1 v2 false)

  unfoldable pub caml_greaterequal : Tree → Tree → Comparison
  unfolding compare_val
  caml_greaterequal v1 v2 =
      on_result (λ res. val_bool (not (ltb_ℤ res (pos 0)))) (compare_val v1 v2 false)
