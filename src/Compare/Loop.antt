-- ===== src/Compare/Loop.antt =====
-- runtime/compare.c: the loop with its stack gives what the recursion gives, on its fuel.
use mathlib.Core.Path.{subst}
use trav_lang.Common.{
  ℕ, zero, suc, ◌+◌, ◌^◌, ◌≤◌, ◌<◌, ◌≡◌, refl, sym, ◌∙◌, ap, inl, inr, Bool, true, false, ◌&&◌,
  Bool-cases, [], ◌∷◌, length, arith,
}
use trav_lang.Common.Int.{pos}
use trav_lang.Trees.{
  Tree, Forest, end, child, count_fields, strip, strip_forest, size_pos, IsValue, AreValues, size,
  size_forest, depth, depth_forest,
}
use trav_lang.Compare.{
  Comparison, result, Stack, Turn, done, again, next_item, compare_by_kind, pop_item, pop_fields,
  settle, go_on, compare_turn, compare_loop, compare_val,
}
use trav_lang.Compare.Reference.{order, order_forest, after, after_assoc, after_right, order_self}
use trav_lang.Compare.Turns.{
  Allowed, AllowedForest, pending, weight, Good, Sound, Allowed-first, Ready, Settled,
}
use trav_lang.Compare.Kinds.{compare_by_kind-Sound}

pop_fields-Sound :
    (total : Bool) (f g : Forest) (stk : Stack) (w : ℕ)
    → count_fields f ≡ count_fields g
    → 1 ≤ count_fields f
    → length stk + 1 + depth_forest f ≤ 2 ^ 19
    → AllowedForest total f
    → AreValues f
    → AreValues g
    → Good total stk
    → size_forest f + size_forest g + weight stk < w
    → Sound total
        (after (order_forest (strip_forest f) (strip_forest g)) (pending stk))
        w
        (pop_fields f g stk)
unfolding order strip size depth IsValue pending weight Good
pop_fields-Sound total end g stk w c o d a i j k h = absurd (omega arith)
pop_fields-Sound total (child v f) end stk w c o d a i j k h = absurd (omega arith)
pop_fields-Sound total (child v end) (child u end) stk w c o d a i j k h =
    let p = Allowed-first total v end a in
    (
      ap (λ x. after x (pending stk)) (sym (after_right (order (strip v) (strip u)))),
      k,
      omega arith,
      p.0,
      i.0,
      j.0,
      omega arith,
    )
pop_fields-Sound total (child v end) (child u (child u' g)) stk w c o d a i j k h =
    absurd (omega arith)
pop_fields-Sound total (child v (child v' f)) (child u end) stk w c o d a i j k h =
    absurd (omega arith)
pop_fields-Sound total (child v (child v' f)) (child u (child u' g)) stk w c o d a i j k h =
    let p = Allowed-first total v (child v' f) a in
    (
      sym (
          after_assoc (order (strip v) (strip u))
            (order_forest (strip_forest (child v' f)) (strip_forest (child u' g))) (pending stk)),
      (omega arith, omega arith, omega arith, p.1, i.1, j.1, k),
      omega arith,
      p.0,
      i.0,
      j.0,
      omega arith,
    )

pop_item-Sound :
    (total : Bool) (stk : Stack) (w : ℕ)
    → Good total stk
    → weight stk < w
    → Sound total (pending stk) w (pop_item stk)
unfolding pop_item pending Good weight
pop_item-Sound total [] w g h = refl
pop_item-Sound total (item ∷ stk) w (c, o, d, a, i, j, k) h =
    pop_fields-Sound total item.fields1 item.fields2 stk w c o d a i j k h

settle-Sound :
    (total : Bool) (c : Comparison) (w : ℕ) (turn : Turn)
    → Sound total c w turn
    → Sound total c w (settle turn)
unfolding settle
settle-Sound total c w (done d) h = h
settle-Sound total c w (again v1 v2 stk) h = h
settle-Sound total c w (next_item stk) (e, g, h) =
    let s = pop_item-Sound total stk w g h in subst (λ x. Sound total x w (pop_item stk)) e s

-- A settled turn is no `next_item`.
abbrev Settles : Turn → Type 0
Settles (next_item stk) = ⊥
Settles _ = Unit

pop_fields-Settles : (f g : Forest) (stk : Stack) → Settles (pop_fields f g stk)
pop_fields-Settles (child v f) (child u g) stk = tt
pop_fields-Settles (child v f) end stk = tt
pop_fields-Settles end g stk = tt

settle-Settles : (turn : Turn) → Settles (settle turn)
unfolding settle pop_item
settle-Settles (done d) = tt
settle-Settles (again v1 v2 stk) = tt
settle-Settles (next_item []) = tt
settle-Settles (next_item (item ∷ stk)) = pop_fields-Settles item.fields1 item.fields2 stk

module _ (same : Tree → Tree → Bool) (same_equal : (v w : Tree) → same v w ≡ true → v ≡ w) where
  equal_pointers :
      (total : Bool) (v1 v2 : Tree) (stk : Stack)
      → Allowed total v1
      → same v1 v2 && total ≡ true
      → order (strip v1) (strip v2) ≡ result (pos 0)
  equal_pointers false v1 v2 stk a e = absurd (ground arith)
  equal_pointers true v1 v2 stk a e =
      let t : same v1 v2 ≡ true = ground arith in
      ap (λ v. order (strip v1) (strip v)) (sym (same_equal v1 v2 t)) ∙ order_self v1 a

  turn-Sound :
      (total : Bool) (v1 v2 : Tree) (stk : Stack) (w : ℕ)
      → Ready total v1 v2 stk w
      → Settled total v1 v2 stk w (compare_turn same total v1 v2 stk)
  unfolding compare_turn
  turn-Sound total v1 v2 stk w (k, d, a, i, j, h) = elim (Bool-cases (same v1 v2 && total)) [
    | inl t ↦
        let e : after (order (strip v1) (strip v2)) (pending stk) ≡ pending stk =
          ap (λ c. after c (pending stk)) (equal_pointers total v1 v2 stk a t) in
        let l = size_pos v1 in
        simp (t, e) (settle-Sound total (pending stk) w (next_item stk) (refl, k, omega arith))
    | inr t ↦ simp t (
        settle-Sound total (after (order (strip v1) (strip v2)) (pending stk)) w
          (compare_by_kind (same v1 v2) v1 v2 stk)
          (compare_by_kind-Sound total (same v1 v2) v1 v2 stk w (same_equal v1 v2)
            (k, d, a, i, j, h)))
  ]

  turn-Settles :
      (total : Bool) (v1 v2 : Tree) (stk : Stack) → Settles (compare_turn same total v1 v2 stk)
  unfolding compare_turn
  turn-Settles total v1 v2 stk = elim (Bool-cases (same v1 v2 && total)) [
    | inl t ↦ simp t (settle-Settles (next_item stk))
    | inr t ↦ simp t (settle-Settles (compare_by_kind (same v1 v2) v1 v2 stk))
  ]

  go_on-Sound :
      (total : Bool) (c : Comparison) (w : ℕ) (turn : Turn) (go : Tree → Tree → Stack → Comparison)
      → Sound total c w turn
      → Settles turn
      → ((v1 v2 : Tree) (stk : Stack) (n : ℕ)
          → Ready total v1 v2 stk n
          → n < w
          → go v1 v2 stk ≡ after (order (strip v1) (strip v2)) (pending stk))
      → go_on go turn ≡ c
  go_on-Sound total c w (done d) go s t r = s
  go_on-Sound total c w (next_item stk) go s t r = elim t [ ]
  go_on-Sound total c w (again v1 v2 stk) go (e, g, d, a, i, j, h) t r =
      r v1 v2 stk (size v1 + size v2 + weight stk) (g, d, a, i, j, omega arith) h ∙ e

  loop-order :
      (fuel : ℕ) (total : Bool) (v1 v2 : Tree) (stk : Stack) (w : ℕ)
      → Ready total v1 v2 stk w
      → w ≤ fuel
      → compare_loop same fuel total v1 v2 stk ≡ after (order (strip v1) (strip v2)) (pending stk)
  unfolding compare_loop
  loop-order zero total v1 v2 stk w (k, d, a, i, j, h) l =
      let s = size_pos v1 in absurd (omega arith)
  loop-order (suc fuel) total v1 v2 stk w r l =
      go_on-Sound total (after (order (strip v1) (strip v2)) (pending stk)) w
        (compare_turn same total v1 v2 stk) (compare_loop same fuel total)
        (turn-Sound total v1 v2 stk w r) (turn-Settles total v1 v2 stk)
        (λ u1 u2 stk' n q m. loop-order fuel total u1 u2 stk' n q (omega arith))

  -- compare_val ends, and gives what the recursion on the values behind forwarding blocks gives: for the
  -- tests, which go into equal pointers, in result and exception; for caml_compare, which does not, on values
  -- without closures, continuations and abstract blocks. The first value is nested less than 2 ^ 19 deep, so
  -- the stack never overflows.
  pub compare_val-order :
      (total : Bool) (v1 v2 : Tree)
      → Allowed total v1
      → IsValue v1
      → IsValue v2
      → depth v1 ≤ 2 ^ 19
      → compare_val same v1 v2 total ≡ order (strip v1) (strip v2)
  unfolding compare_val pending weight Good
  compare_val-order total v1 v2 a i j d =
      loop-order (size v1 + size v2) total v1 v2 [] (size v1 + size v2)
        (tt, omega arith, a, i, j, omega arith) (omega arith)
      ∙ after_right (order (strip v1) (strip v2))
