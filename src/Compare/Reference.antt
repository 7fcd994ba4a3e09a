-- ===== src/Compare/Reference.antt =====
-- runtime/compare.c: structural comparison by recursion on the values behind forwarding blocks.
use trav_lang.Common.{
  ℕ, suc, ◌≡◌, refl, ◌∙◌, ap, true, false, List, [], ◌∷◌, length, ltb, leb, ◌==◌, if◌then◌else◌,
  arith, Bool-cases, inl, inr,
}
use trav_lang.Common.Int.{ℤ, pos, negsuc, ◌-ℤ◌, ltb_ℤ, eqb_ℤ}
use trav_lang.Strings.{memcmp}
use trav_lang.Trees.{
  Tree, immediate, text, object, forward, opaque, node, Forest, end, child, opaque_tag,
  count_fields, Comparable, AllComparable, strip, strip_forest,
}
use trav_lang.Compare.{
  Comparison, result, incomparable, less, greater, merged_tag, compare_tags, Stack, Turn, done,
  next_item, compare_strings,
}

-- The order of strings: the sign of the first difference, or the difference of the lengths.
unfoldable pub order_strings : List ℕ → List ℕ → ℤ
unfolding ◌-ℤ◌
order_strings [] ys = pos 0 -ℤ pos (length ys)
order_strings (x ∷ xs) [] = pos (suc (length xs))
order_strings (x ∷ xs) (y ∷ ys) =
    let rest = order_strings xs ys in if ltb x y then negsuc 0 else if ltb y x then pos 1 else rest

-- A second comparison, where the first one finds no difference.
abbrev pub after : Comparison → Comparison → Comparison
after (result z) c = if eqb_ℤ z (pos 0) then c else result z
after c d = c

-- Integers come before blocks, then the tag decides, then the number of fields, then the fields in order.
unfoldable mutual
  unfolding order_strings compare_tags ◌-ℤ◌

  pub order : Tree → Tree → Comparison
  order (immediate a) (immediate b) = result (a -ℤ b)
  order (immediate a) w = less
  order v (immediate b) = greater
  order (text xs) (text ys) = result (order_strings xs ys)
  order (object oid1) (object oid2) = result (pos oid1 -ℤ pos oid2)
  order (opaque o) (opaque p) =
      if merged_tag (opaque_tag o) == merged_tag (opaque_tag p)
      then incomparable
      else compare_tags (opaque o) (opaque p)
  order (node t f) (node u g) =
      let fields = order_forest f g in
      if t == u
      then if count_fields f == count_fields g
        then fields
        else result (pos (count_fields f) -ℤ pos (count_fields g))
      else compare_tags (node t f) (node u g)
  order v w = compare_tags v w

  pub order_forest : Forest → Forest → Comparison
  order_forest (child v f) (child w g) = after (order v w) (order_forest f g)
  order_forest _ _ = result (pos 0)

pub after_assoc : (c d e : Comparison) → after (after c d) e ≡ after c (after d e)
after_assoc c d e = ground arith

pub after_right : (c : Comparison) → after c (result (pos 0)) ≡ c
after_right c = ground arith

pub order_strings_self : (xs : List ℕ) → order_strings xs xs ≡ pos 0
unfolding order_strings ◌-ℤ◌
order_strings_self [] = refl
order_strings_self (x ∷ xs) = ground (arith, order_strings_self xs)

mutual
  unfolding order strip Comparable ◌-ℤ◌

  order_self_lem : (v : Tree) → Comparable v → order (strip v) (strip v) ≡ result (pos 0)
  order_self_lem (immediate a) h = ground arith
  order_self_lem (text xs) h = ap result (order_strings_self xs)
  order_self_lem (object oid) h = ground arith
  order_self_lem (forward v) h = order_self_lem v h
  order_self_lem (opaque o) h = elim h [ ]
  order_self_lem (node t f) h = ground (arith, order_forest_self f h)

  order_forest_self :
      (f : Forest)
      → AllComparable f
      → order_forest (strip_forest f) (strip_forest f) ≡ result (pos 0)
  order_forest_self end h = refl
  order_forest_self (child v f) (h, h') = ground (arith, order_self_lem v h, order_forest_self f h')

-- A comparable value is equal to itself.
pub order_self : (v : Tree) → Comparable v → order (strip v) (strip v) ≡ result (pos 0)
order_self v h = order_self_lem v h

-- What the comparison of strings says is what their order says.
abbrev pub decided : ℤ → Stack → Turn
decided z stk = if eqb_ℤ z (pos 0) then next_item stk else done (result z)

by_memcmp : ℤ → ℕ → ℕ → Stack → Turn
unfolding ◌-ℤ◌
by_memcmp res len1 len2 stk =
    if ltb_ℤ res (pos 0)
    then done less
    else if ltb_ℤ (pos 0) res
    then done greater
    else if len1 == len2
    then next_item stk
    else done (result (pos len1 -ℤ pos len2))

by_memcmp_nil : (stk : Stack) → by_memcmp (pos 0) 0 0 stk ≡ decided (pos 0 -ℤ pos 0) stk
unfolding by_memcmp ◌-ℤ◌
by_memcmp_nil stk = refl

by_memcmp_short :
    (b : ℕ) (stk : Stack) → by_memcmp (pos 0) 0 (suc b) stk ≡ decided (pos 0 -ℤ pos (suc b)) stk
unfolding by_memcmp ◌-ℤ◌
by_memcmp_short b stk = ground arith

by_memcmp_long : (a : ℕ) (stk : Stack) → by_memcmp (pos 0) (suc a) 0 stk ≡ decided (pos (suc a)) stk
unfolding by_memcmp ◌-ℤ◌
by_memcmp_long a stk = ground arith

by_memcmp-suc :
    (res : ℤ) (a b : ℕ) (stk : Stack) → by_memcmp res (suc a) (suc b) stk ≡ by_memcmp res a b stk
unfolding by_memcmp ◌-ℤ◌
by_memcmp-suc res a b stk = ground arith

by_memcmp_first :
    (x y a b : ℕ) (m o : ℤ) (stk : Stack)
    → by_memcmp m a b stk ≡ decided o stk
    → by_memcmp (if ltb x y then negsuc 0 else if ltb y x then pos 1 else m) a b stk
      ≡ decided (if ltb x y then negsuc 0 else if ltb y x then pos 1 else o) stk
unfolding by_memcmp
by_memcmp_first x y a b m o stk e = elim (Bool-cases (ltb x y)) [
  | inl t ↦ simp t refl
  | inr t ↦ elim (Bool-cases (ltb y x)) [ inl t' ↦ simp (t, t') refl | inr t' ↦ simp (t, t') e ]
]

by_memcmp-order :
    (xs ys : List ℕ) (stk : Stack)
    → by_memcmp
        (memcmp (if leb (length xs) (length ys) then length xs else length ys) xs ys)
        (length xs)
        (length ys)
        stk
      ≡ decided (order_strings xs ys) stk
unfolding memcmp order_strings
by_memcmp-order [] [] stk = by_memcmp_nil stk
by_memcmp-order [] (y ∷ ys) stk =
    let t : leb 0 (suc (length ys)) ≡ true = ground arith in
    simp t (by_memcmp_short (length ys) stk)
by_memcmp-order (x ∷ xs) [] stk =
    let t : leb (suc (length xs)) 0 ≡ false = ground arith in
    simp t (by_memcmp_long (length xs) stk)
by_memcmp-order (x ∷ xs) (y ∷ ys) stk =
    let a = length xs in
    let b = length ys in
    let e : (if leb (suc a) (suc b) then suc a else suc b) ≡ suc (if leb a b then a else b) =
      ground arith in
    let m : ℤ = memcmp (if leb a b then a else b) xs ys in
    rw e (
      by_memcmp-suc (if ltb x y then negsuc 0 else if ltb y x then pos 1 else m) a b stk
      ∙ by_memcmp_first x y a b m (order_strings xs ys) stk (by_memcmp-order xs ys stk))

pub compare_strings-order :
    (xs ys : List ℕ) (stk : Stack) → compare_strings xs ys stk ≡ decided (order_strings xs ys) stk
unfolding compare_strings by_memcmp
compare_strings-order xs ys stk = by_memcmp-order xs ys stk
