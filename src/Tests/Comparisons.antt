-- ===== src/Tests/Comparisons.antt =====
-- Structural comparison at concrete values.
use trav_lang.Common.{◌≡◌, refl, ap, Bool, true, false, [], ◌∷◌, inl, arith, ◌==◌, ==_iff}
use trav_lang.Common.Int.{pos, negsuc}
use trav_lang.Trees.{
  size, IsValue, Comparable, depth, Tree, immediate, text, object, forward, opaque, node, end,
  child, closure, continuation, inner_closure, strip,
}
use trav_lang.Compare.{
  result, incomparable, compare_val, caml_compare, caml_equal, caml_notequal, caml_lessthan,
  caml_lessequal, caml_greaterthan, caml_greaterequal,
}
use trav_lang.Compare.Reference.{order}
use trav_lang.Compare.Loop.{compare_val-order}
use trav_lang.Compare.Results.{Ordered, Tests, caml_compare-Ordered, compare_tests-Decided}

-- Objects are told apart by their numbers; other blocks are all at different addresses.
same_address : Tree → Tree → Bool
same_address (object oid1) (object oid2) = oid1 == oid2
same_address v w = false

same_address_equal : (v w : Tree) → same_address v w ≡ true → v ≡ w
unfolding same_address
same_address_equal (object a) (object b) h = ap object ((==_iff a b).0 h)
same_address_equal v w h = absurd (cc h)

abbrev three : Tree
three = immediate (pos 3)

-- Some "hi", and a lazy value that has been forced to it.
abbrev greeting : Tree
greeting = node 0 (child (text (b'h' ∷ b'i' ∷ [])) (child three end))

abbrev lazy_greeting : Tree
lazy_greeting = node 0 (child (forward (text (b'h' ∷ b'i' ∷ []))) (child (forward three) end))

abbrev longer_greeting : Tree
longer_greeting = node 0 (child (text (b'h' ∷ b'i' ∷ b'!' ∷ [])) (child (immediate (negsuc 0)) end))

forced_is_equal : caml_compare same_address greeting lazy_greeting ≡ result (pos 0)
unfolding caml_compare same_address size
forced_is_equal = refl

later_field_decides : caml_compare same_address greeting longer_greeting ≡ result (negsuc 0)
unfolding caml_compare same_address size
later_field_decides = refl

count_decides :
    compare_val same_address (node 0 (child three end)) greeting false ≡ result (negsuc 0)
unfolding compare_val same_address size
count_decides = refl

tag_decides :
    compare_val same_address (node 3 end) (node 1 (child three end)) false ≡ result (pos 2)
unfolding compare_val same_address size
tag_decides = refl

functions_raise : caml_equal same_address (opaque closure) (opaque inner_closure) ≡ incomparable
unfolding caml_equal same_address size
functions_raise = refl

-- An object is equal to itself without a look at its class.
same_object : caml_lessequal same_address (object 7) (object 7) ≡ result (pos 1)
unfolding caml_lessequal same_address size
same_object = refl

compare_val-order_example :
    compare_val same_address
      (node 0 (child (opaque continuation) end))
      (node 0 (child (forward (opaque continuation)) end))
      false
    ≡ order
        (strip (node 0 (child (opaque continuation) end)))
        (strip (node 0 (child (forward (opaque continuation)) end)))
unfolding IsValue depth
compare_val-order_example =
    compare_val-order same_address same_address_equal false
      (node 0 (child (opaque continuation) end))
      (node 0 (child (forward (opaque continuation)) end)) tt (inl (omega arith), (tt, tt))
      (inl (omega arith), (tt, tt)) (omega arith)

caml_compare-Ordered_example :
    Ordered
      (strip greeting)
      (strip longer_greeting)
      (caml_compare same_address greeting longer_greeting)
unfolding IsValue Comparable depth
caml_compare-Ordered_example =
    caml_compare-Ordered same_address same_address_equal greeting longer_greeting (tt, (tt, tt))
      (tt, (tt, tt)) (inl (omega arith), (tt, (tt, tt))) (inl (omega arith), (tt, (tt, tt)))
      (omega arith)

compare_tests-Decided_example :
    Tests
      (strip greeting)
      (strip lazy_greeting)
      (caml_equal same_address greeting lazy_greeting)
      (caml_notequal same_address greeting lazy_greeting)
      (caml_lessthan same_address greeting lazy_greeting)
      (caml_lessequal same_address greeting lazy_greeting)
      (caml_greaterthan same_address greeting lazy_greeting)
      (caml_greaterequal same_address greeting lazy_greeting)
unfolding IsValue Comparable depth
compare_tests-Decided_example =
    compare_tests-Decided same_address same_address_equal greeting lazy_greeting (tt, (tt, tt))
      (tt, (tt, tt)) (inl (omega arith), (tt, (tt, tt))) (inl (omega arith), (tt, (tt, tt)))
      (omega arith)
