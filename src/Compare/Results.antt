-- ===== src/Compare/Results.antt =====
-- runtime/compare.c: what `caml_compare` and the tests say of two values.
use trav_lang.Common.{
  ℕ, zero, suc, ◌^◌, ◌≤◌, ◌≡◌, refl, sym, ◌⊎◌, inl, inr, Bool, true, false, not, if◌then◌else◌,
  arith,
}
use mathlib.Core.Path.{subst}
use trav_lang.Common.Int.{ℤ, pos, negsuc, ltb_ℤ, eqb_ℤ}
use trav_lang.Trees.{Tree, Comparable, strip, IsValue, depth}
use trav_lang.Compare.{
  Comparison, result, incomparable, out_of_memory, no_fuel, fault, on_result, val_bool,
  caml_compare, caml_equal, caml_notequal, caml_lessthan, caml_lessequal, caml_greaterthan,
  caml_greaterequal,
}
use trav_lang.Compare.Reference.{order}
use trav_lang.Compare.Loop.{compare_val-order}
use trav_lang.Compare.Order.{Less, Less-irrefl, Less-trans}
use trav_lang.Compare.Signs.{Signed}
use trav_lang.Compare.Agreement.{order-Signed}

-- What the three results say.
abbrev pub Ordered : Tree → Tree → Comparison → Type 0
Ordered v w (result (negsuc zero)) = Less v w
Ordered v w (result (pos zero)) = v ≡ w
Ordered v w (result (pos (suc zero))) = Less w v
Ordered v w _ = ⊥

-- A test that gives whether P holds.
abbrev pub Decides : Type 0 → Comparison → Type 0
Decides P c = ((c ≡ result (val_bool true)) × P) ⊎ ((c ≡ result (val_bool false)) × (P → ⊥))

sign_of : ℤ → ℤ
sign_of res = if ltb_ℤ res (pos 0) then negsuc 0 else if ltb_ℤ (pos 0) res then pos 1 else pos 0

sign_above : (n : ℕ) → sign_of (pos (suc n)) ≡ pos 1
unfolding sign_of
sign_above n = ground arith

sign_below : (n : ℕ) → sign_of (negsuc n) ≡ negsuc 0
unfolding sign_of
sign_below n = ground arith

sign-Ordered :
    (v w : Tree) (c : Comparison)
    → Signed (Less v w) (v ≡ w) (Less w v) c
    → Ordered v w (on_result sign_of c)
unfolding sign_of
sign-Ordered v w (result (negsuc n)) h = subst (λ z. Ordered v w (result z)) (sym (sign_below n)) h
sign-Ordered v w (result (pos zero)) h = h
sign-Ordered v w (result (pos (suc n))) h =
    subst (λ z. Ordered v w (result z)) (sym (sign_above n)) h
sign-Ordered v w incomparable h = elim h [ ]
sign-Ordered v w out_of_memory h = elim h [ ]
sign-Ordered v w fault h = elim h [ ]
sign-Ordered v w no_fuel h = elim h [ ]

not_both : (v w : Tree) → Less v w → Less w v ⊎ (v ≡ w) → ⊥
not_both v w h (inl k) = Less-irrefl v (Less-trans v w v h k)
not_both v w h (inr e) = Less-irrefl w (subst (λ x. Less x w) e h)

not_below : (v w : Tree) → v ≡ w → Less v w → ⊥
not_below v w e h = not_both v w h (inr e)

swapped : (v w : Tree) → Less v w ⊎ (v ≡ w) → Less v w ⊎ (w ≡ v)
swapped v w (inl h) = inl h
swapped v w (inr e) = inr (sym e)

-- The six tests on two values.
abbrev pub Tests :
    Tree
    → Tree
    → (Comparison → Comparison → Comparison → Comparison → Comparison → Comparison → Type 0)
Tests v w equal notequal lessthan lessequal greaterthan greaterequal =
    Decides (v ≡ w) equal
    × Decides (v ≡ w → ⊥) notequal
    × Decides (Less v w) lessthan
    × Decides (Less v w ⊎ (v ≡ w)) lessequal
    × Decides (Less w v) greaterthan
    × Decides (Less w v ⊎ (v ≡ w)) greaterequal

sign-Tests :
    (v w : Tree) (c : Comparison)
    → Signed (Less v w) (v ≡ w) (Less w v) c
    → Tests v w
        (on_result (λ res. val_bool (eqb_ℤ res (pos 0))) c)
        (on_result (λ res. val_bool (not (eqb_ℤ res (pos 0)))) c)
        (on_result (λ res. val_bool (ltb_ℤ res (pos 0))) c)
        (on_result (λ res. val_bool (not (ltb_ℤ (pos 0) res))) c)
        (on_result (λ res. val_bool (ltb_ℤ (pos 0) res)) c)
        (on_result (λ res. val_bool (not (ltb_ℤ res (pos 0)))) c)
sign-Tests v w (result (negsuc n)) h = (
  inr (ground arith, λ e. not_below v w e h),
  inl (ground arith, λ e. not_below v w e h),
  inl (ground arith, h),
  inl (ground arith, inl h),
  inr (ground arith, λ k. not_both v w h (inl k)),
  inr (ground arith, not_both v w h),
)
sign-Tests v w (result (pos zero)) h = (
  inl (refl, h),
  inr (refl, λ k. k h),
  inr (refl, not_below v w h),
  inl (refl, inr h),
  inr (refl, not_below w v (sym h)),
  inl (refl, inr h),
)
sign-Tests v w (result (pos (suc n))) h = (
  inr (ground arith, λ e. not_below w v (sym e) h),
  inl (ground arith, λ e. not_below w v (sym e) h),
  inr (ground arith, λ k. not_both v w k (inl h)),
  inr (ground arith, λ k. not_both w v h (swapped v w k)),
  inl (ground arith, h),
  inl (ground arith, inl h),
)
sign-Tests v w incomparable h = elim h [ ]
sign-Tests v w out_of_memory h = elim h [ ]
sign-Tests v w fault h = elim h [ ]
sign-Tests v w no_fuel h = elim h [ ]

module _ (same : Tree → Tree → Bool) (same_equal : (v w : Tree) → same v w ≡ true → v ≡ w) where
  -- On values that can be compared, the first of them nested at most 2 ^ 19 deep, caml_compare ends with -1, 0
  -- or 1 as the first value, behind its forwarding blocks, is less than, the same as or greater than the
  -- second one: integers before blocks, blocks by tag, then by their number of fields, then by the first field
  -- that differs, and strings like dictionaries' words.
  pub caml_compare-Ordered :
      (v1 v2 : Tree)
      → Comparable v1
      → Comparable v2
      → IsValue v1
      → IsValue v2
      → depth v1 ≤ 2 ^ 19
      → Ordered (strip v1) (strip v2) (caml_compare same v1 v2)
  unfolding caml_compare sign_of
  caml_compare-Ordered v1 v2 a b i j d = rw (compare_val-order same same_equal true v1 v2 a i j d) (
      sign-Ordered (strip v1) (strip v2) (order (strip v1) (strip v2)) (order-Signed v1 v2 a b i j))

  -- On such values the tests for equality and order end, and give whether the values behind their forwarding
  -- blocks are the same, or in that order.
  pub compare_tests-Decided :
      (v1 v2 : Tree)
      → Comparable v1
      → Comparable v2
      → IsValue v1
      → IsValue v2
      → depth v1 ≤ 2 ^ 19
      → Tests
          (strip v1)
          (strip v2)
          (caml_equal same v1 v2)
          (caml_notequal same v1 v2)
          (caml_lessthan same v1 v2)
          (caml_lessequal same v1 v2)
          (caml_greaterthan same v1 v2)
          (caml_greaterequal same v1 v2)
  unfolding caml_equal caml_notequal caml_lessthan caml_lessequal caml_greaterthan caml_greaterequal
  compare_tests-Decided v1 v2 a b i j d =
      let e = compare_val-order same same_equal false v1 v2 tt i j d in
      rw e (
        sign-Tests (strip v1) (strip v2) (order (strip v1) (strip v2)) (order-Signed v1 v2 a b i j))
