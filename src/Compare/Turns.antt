-- ===== src/Compare/Turns.antt =====
-- runtime/compare.c: each turn of the loop keeps what the comparison is to give, with less work left.
use trav_lang.Common.{
  ℕ, suc, ◌+◌, ◌^◌, ◌≤◌, ◌<◌, ◌≡◌, ◌≢◌, refl, sym, ap, inl, inr, Bool, true, false, Bool-cases, [],
  ◌∷◌, length, leb, ◌==◌, ==→ne, arith,
}
use trav_lang.Common.Int.{ℤ, pos, ◌-ℤ◌, eqb_ℤ}
use trav_lang.Trees.{
  Tree, node, Forest, end, child, count_fields, Comparable, AllComparable, strip, strip_forest,
  IsValue, AreValues, size, size_forest, depth, depth_forest,
}
use trav_lang.Compare.{
  Comparison, result, Stack, Turn, done, again, next_item, compare_blocks, first_fields, push_item,
}
use trav_lang.Compare.Reference.{order, order_forest, after, after_assoc, after_right, decided}

-- Where equal pointers end a comparison, the values have to be comparable.
abbrev pub Allowed : Bool → Tree → Type 0
Allowed true v = Comparable v
Allowed false v = Unit

abbrev pub AllowedForest : Bool → Forest → Type 0
AllowedForest true f = AllComparable f
AllowedForest false f = Unit

-- What the stack still asks for.
unfoldable pub pending : Stack → Comparison
unfolding order strip
pending [] = result (pos 0)
pending (item ∷ stk) =
    after (order_forest (strip_forest item.fields1) (strip_forest item.fields2)) (pending stk)

unfoldable pub weight : Stack → ℕ
unfolding size
weight [] = 0
weight (item ∷ stk) = size_forest item.fields1 + size_forest item.fields2 + weight stk

-- A stack of items with as many fields on both sides, with room for the blocks inside them.
unfoldable pub Good : Bool → Stack → Type 0
unfolding depth
Good total [] = Unit
Good total (item ∷ stk) =
    (count_fields item.fields1 ≡ count_fields item.fields2)
    × (1 ≤ count_fields item.fields1)
    × (length stk + 1 + depth_forest item.fields1 ≤ 2 ^ 19)
    × AllowedForest total item.fields1
    × AreValues item.fields1
    × AreValues item.fields2
    × Good total stk

-- A turn that leads to the comparison `c` with less work than `w`.
abbrev pub Sound : Bool → Comparison → ℕ → Turn → Type 0
Sound total c w (done d) = d ≡ c
Sound total c w (again v1 v2 stk) =
    (after (order (strip v1) (strip v2)) (pending stk) ≡ c)
    × Good total stk
    × (length stk + depth v1 ≤ 2 ^ 19)
    × Allowed total v1
    × IsValue v1
    × IsValue v2
    × (size v1 + size v2 + weight stk < w)
Sound total c w (next_item stk) = (pending stk ≡ c) × Good total stk × (weight stk < w)

pub decided-Sound :
    (total : Bool) (z : ℤ) (stk : Stack) (w : ℕ)
    → Good total stk
    → weight stk < w
    → Sound total (after (result z) (pending stk)) w (decided z stk)
decided-Sound total z stk w g h = elim (Bool-cases (eqb_ℤ z (pos 0))) [
  | inl t ↦ simp t (refl, g, h)
  | inr t ↦ simp t refl
]

-- A difference decides.
pub kept :
    (a b : ℕ) (c : Comparison) → a ≢ b → result (pos a -ℤ pos b) ≡ after (result (pos a -ℤ pos b)) c
unfolding ◌-ℤ◌
kept a b c h = ground arith

pub Allowed-fields :
    (total : Bool) (t : ℕ) (f : Forest) → Allowed total (node t f) → AllowedForest total f
unfolding Comparable
Allowed-fields true t f h = h
Allowed-fields false t f h = h

pub Allowed-first :
    (total : Bool) (v : Tree) (f : Forest)
    → AllowedForest total (child v f)
    → Allowed total v × AllowedForest total f
unfolding Comparable
Allowed-first true v f h = h
Allowed-first false v f h = (h, h)

-- A block's first fields, with the others pushed.
pub push_item-Sound :
    (total : Bool) (v1 v2 : Tree) (f g : Forest) (stk : Stack) (w : ℕ)
    → count_fields f ≡ count_fields g
    → Good total stk
    → length stk + suc (depth_forest (child v1 f)) ≤ 2 ^ 19
    → AllowedForest total (child v1 f)
    → AreValues (child v1 f)
    → AreValues (child v2 g)
    → size_forest (child v1 f) + size_forest (child v2 g) + weight stk < w
    → Sound total
        (after (order_forest (strip_forest (child v1 f)) (strip_forest (child v2 g))) (pending stk))
        w
        (push_item v1 v2 f g stk)
unfolding order strip IsValue size depth pending Good weight
push_item-Sound total v1 v2 end end stk w c g d a i j h =
    let p = Allowed-first total v1 end a in
    (
      ap (λ o. after o (pending stk)) (sym (after_right (order (strip v1) (strip v2)))),
      g,
      omega arith,
      p.0,
      i.0,
      j.0,
      omega arith,
    )
push_item-Sound total v1 v2 end (child w2 g) stk w c k d a i j h = absurd (omega arith)
push_item-Sound total v1 v2 (child w1 f) end stk w c k d a i j h = absurd (omega arith)
push_item-Sound total v1 v2 (child w1 f) (child w2 g) stk w c k d a i j h =
    let p = Allowed-first total v1 (child w1 f) a in
    let t : leb (2 ^ 19) (length stk) ≡ false = ground arith in
    simp t (
      sym (
          after_assoc (order (strip v1) (strip v2))
            (order_forest (strip_forest (child w1 f)) (strip_forest (child w2 g))) (pending stk)),
      (c, omega arith, omega arith, p.1, i.1, j.1, k),
      omega arith,
      p.0,
      i.0,
      j.0,
      omega arith,
    )

pub first_fields-Sound :
    (total : Bool) (f g : Forest) (stk : Stack) (w : ℕ)
    → count_fields f ≡ count_fields g
    → Good total stk
    → length stk + suc (depth_forest f) ≤ 2 ^ 19
    → AllowedForest total f
    → AreValues f
    → AreValues g
    → size_forest f + size_forest g + weight stk < w
    → Sound total
        (after (order_forest (strip_forest f) (strip_forest g)) (pending stk))
        w
        (first_fields f g stk)
unfolding order strip size
first_fields-Sound total end end stk w c k d a i j h = (refl, k, omega arith)
first_fields-Sound total end (child v g) stk w c k d a i j h = absurd (omega arith)
first_fields-Sound total (child v f) end stk w c k d a i j h = absurd (omega arith)
first_fields-Sound total (child v f) (child u g) stk w c k d a i j h =
    push_item-Sound total v u f g stk w (omega arith) k d a i j h

-- The conditions on a turn between two values.
abbrev pub Ready : Bool → Tree → Tree → Stack → ℕ → Type 0
Ready total v1 v2 stk w =
    Good total stk
    × (length stk + depth v1 ≤ 2 ^ 19)
    × Allowed total v1
    × IsValue v1
    × IsValue v2
    × (size v1 + size v2 + weight stk ≤ w)

abbrev pub Settled : Bool → Tree → Tree → Stack → ℕ → Turn → Type 0
Settled total v1 v2 stk w turn =
    Sound total (after (order (strip v1) (strip v2)) (pending stk)) w turn

pub count-strip : (f : Forest) → count_fields (strip_forest f) ≡ count_fields f
unfolding strip
count-strip end = refl
count-strip (child v f) = ap (λ n. suc n) (count-strip f)

pub compare_blocks-Sound :
    (total : Bool) (t u : ℕ) (f g : Forest) (stk : Stack) (w : ℕ)
    → t ≡ u
    → Ready total (node t f) (node u g) stk w
    → Settled total (node t f) (node u g) stk w (compare_blocks f g stk)
unfolding compare_blocks order strip size depth IsValue ◌-ℤ◌
compare_blocks-Sound total t u f g stk w e (k, d, a, (i, i'), (j, j'), h) =
    let q : t == u ≡ true = ground arith in
    let x = count-strip f in
    let y = count-strip g in
    elim (Bool-cases (count_fields f == count_fields g)) [
      | inl c ↦
          let c' : count_fields (strip_forest f) == count_fields (strip_forest g) ≡ true =
            ground arith in
          simp (q, c, c')
            (first_fields-Sound total f g stk w (ground arith) k (omega arith)
              (Allowed-fields total t f a) i' j' (omega arith))
      | inr c ↦
          let c' : count_fields (strip_forest f) == count_fields (strip_forest g) ≡ false =
            ground arith in
          simp (q, c, x, y)
            (kept (count_fields f) (count_fields g) (pending stk)
              (==→ne (count_fields f) (count_fields g) c))
    ]
