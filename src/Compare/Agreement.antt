-- ===== src/Compare/Agreement.antt =====
-- runtime/compare.c: the comparison by recursion agrees with the order as a relation.
use trav_lang.Common.{
  ℕ, zero, suc, ◌<◌, ◌≡◌, ◌≢◌, refl, sym, ap, inl, inr, false, Bool-cases, ◌==◌, ==→ne, ==_iff,
  arith,
}
use trav_lang.Common.Int.{pos, negsuc}
use trav_lang.Strings.Order.{Precedes}
use trav_lang.Trees.{
  Tree, immediate, text, object, forward, opaque, node, Forest, end, child, tag_of, count_fields,
  Comparable, AllComparable, strip, strip_forest, IsPlain, IsValue, AreValues,
}
use trav_lang.Compare.{
  Comparison, result, incomparable, out_of_memory, no_fuel, fault, merged_tag, compare_tags,
}
use trav_lang.Compare.Order.{Less, LessForest}
use trav_lang.Compare.Reference.{order, order_forest, order_strings, after}
use trav_lang.Compare.Signs.{Signed, order_strings-Signed, Signed-difference, Signed-longs}

Signed-after :
    (v w : Tree) (f g : Forest) (c d : Comparison)
    → Signed (Less v w) (v ≡ w) (Less w v) c
    → Signed (LessForest f g) (f ≡ g) (LessForest g f) d
    → Signed
        (LessForest (child v f) (child w g))
        (child v f ≡ child w g)
        (LessForest (child w g) (child v f))
        (after c d)
unfolding Less
Signed-after v w f g (result (negsuc n)) d h k = inl h
Signed-after v w f g (result (pos (suc n))) d h k =
    let e : suc n == 0 ≡ false = ground arith in simp e (inl h)
Signed-after v w f g (result (pos zero)) (result (negsuc n)) h k = inr (h, k)
Signed-after v w f g (result (pos zero)) (result (pos zero)) h k = rw (h, k)
Signed-after v w f g (result (pos zero)) (result (pos (suc n))) h k = inr (sym h, k)
Signed-after v w f g (result (pos zero)) incomparable h k = elim k [ ]
Signed-after v w f g (result (pos zero)) out_of_memory h k = elim k [ ]
Signed-after v w f g (result (pos zero)) fault h k = elim k [ ]
Signed-after v w f g (result (pos zero)) no_fuel h k = elim k [ ]
Signed-after v w f g incomparable d h k = elim h [ ]
Signed-after v w f g out_of_memory d h k = elim h [ ]
Signed-after v w f g fault d h k = elim h [ ]
Signed-after v w f g no_fuel d h k = elim h [ ]

Signed-weaken :
    (L E G L' E' G' : Type 0) (c : Comparison)
    → (L → L')
    → (E → E')
    → (G → G')
    → Signed L E G c
    → Signed L' E' G' c
Signed-weaken L E G L' E' G' (result (negsuc n)) l e g h = l h
Signed-weaken L E G L' E' G' (result (pos zero)) l e g h = e h
Signed-weaken L E G L' E' G' (result (pos (suc n))) l e g h = g h
Signed-weaken L E G L' E' G' incomparable l e g h = elim h [ ]
Signed-weaken L E G L' E' G' out_of_memory l e g h = elim h [ ]
Signed-weaken L E G L' E' G' fault l e g h = elim h [ ]
Signed-weaken L E G L' E' G' no_fuel l e g h = elim h [ ]

-- Blocks of different tags.
Signed-tags :
    (v w : Tree) (t u : ℕ)
    → tag_of v ≡ t
    → tag_of w ≡ u
    → merged_tag t ≡ t
    → merged_tag u ≡ u
    → t ≢ u
    → Signed (t < u) (v ≡ w) (u < t) (compare_tags v w)
unfolding compare_tags
Signed-tags v w t u e e' i j n =
    rw (e, e', i, j)
      (Signed-difference (t < u) (v ≡ w) (u < t) t u (λ h. h) (λ h. absurd (n h)) (λ h. h))

plain_merged : (t : ℕ) → IsPlain t → merged_tag t ≡ t
plain_merged t i = ground arith

Signed-nodes :
    (t u : ℕ) (f g : Forest)
    → IsPlain t
    → IsPlain u
    → (count_fields f ≡ count_fields g
        → Signed (LessForest f g) (f ≡ g) (LessForest g f) (order_forest f g))
    → Signed
        (Less (node t f) (node u g))
        (node t f ≡ node u g)
        (Less (node u g) (node t f))
        (order (node t f) (node u g))
unfolding Less order
Signed-nodes t u f g i j h = elim (Bool-cases (t == u)) [
  | inl q ↦
      let e : t ≡ u = (==_iff t u).0 q in
      elim (Bool-cases (count_fields f == count_fields g)) [
        | inl q' ↦
            let e' : count_fields f ≡ count_fields g =
              (==_iff (count_fields f) (count_fields g)).0 q' in
            simp (q, q')
              (Signed-weaken (LessForest f g) (f ≡ g) (LessForest g f) (Less (node t f) (node u g))
                (node t f ≡ node u g) (Less (node u g) (node t f)) (order_forest f g)
                (λ k. inr (e, inr (e', k))) (λ k. rw (e, k)) (λ k. inr (sym e, inr (sym e', k)))
                (h e'))
        | inr q' ↦
            let ne = ==→ne (count_fields f) (count_fields g) q' in
            simp (q, q')
              (Signed-difference (Less (node t f) (node u g)) (node t f ≡ node u g)
                (Less (node u g) (node t f)) (count_fields f) (count_fields g) (λ k. inr (e, inl k))
                (λ k. absurd (ne k)) (λ k. inr (sym e, inl k)))
      ]
  | inr q ↦ simp q (
      Signed-weaken (t < u) (node t f ≡ node u g) (u < t) (Less (node t f) (node u g))
        (node t f ≡ node u g) (Less (node u g) (node t f)) (compare_tags (node t f) (node u g))
        (λ k. inl k) (λ k. k) (λ k. inl k)
        (Signed-tags (node t f) (node u g) t u refl refl (plain_merged t i) (plain_merged u j)
          (==→ne t u q)))
]

mutual
  unfolding order strip Comparable IsValue Less

  order-Signed_lem :
      (v w : Tree)
      → Comparable v
      → Comparable w
      → IsValue v
      → IsValue w
      → Signed
          (Less (strip v) (strip w))
          (strip v ≡ strip w)
          (Less (strip w) (strip v))
          (order (strip v) (strip w))
  order-Signed_lem (forward v) w a b i j = order-Signed_lem v w a b i j
  order-Signed_lem v (forward w) a b i j = order-Signed_lem v w a b i j
  order-Signed_lem (immediate x) (immediate y) a b i j = Signed-longs x y
  order-Signed_lem (immediate x) w a b i j = tt
  order-Signed_lem v (immediate y) a b i j = tt
  order-Signed_lem (text xs) (text ys) a b i j =
      Signed-weaken (Precedes xs ys) (xs ≡ ys) (Precedes ys xs) (Precedes xs ys) (text xs ≡ text ys)
        (Precedes ys xs) (result (order_strings xs ys)) (λ k. k) (λ k. ap text k) (λ k. k)
        (order_strings-Signed xs ys)
  order-Signed_lem (object x) (object y) a b i j =
      Signed-difference (x < y) (object x ≡ object y) (y < x) x y (λ k. k) (λ k. ap object k)
        (λ k. k)
  order-Signed_lem (node t f) (node u g) a b (i, i') (j, j') =
      Signed-nodes t u (strip_forest f) (strip_forest g) i j
        (λ e. order_forest-Signed f g a b i' j' e)
  order-Signed_lem (opaque o) w a b i j = elim a [ ]
  order-Signed_lem v (opaque o) a b i j = elim b [ ]
  order-Signed_lem (text xs) (object y) a b i j = omega arith
  order-Signed_lem (object x) (text ys) a b i j = omega arith
  order-Signed_lem (text xs) (node u g) a b i (j, j') =
      Signed-tags (text xs) (node u (strip_forest g)) 252 u refl refl refl (plain_merged u j)
        (ground arith)
  order-Signed_lem (node t f) (text ys) a b (i, i') j =
      Signed-tags (node t (strip_forest f)) (text ys) t 252 refl refl (plain_merged t i) refl
        (ground arith)
  order-Signed_lem (object x) (node u g) a b i (j, j') =
      Signed-tags (object x) (node u (strip_forest g)) 248 u refl refl refl (plain_merged u j)
        (ground arith)
  order-Signed_lem (node t f) (object y) a b (i, i') j =
      Signed-tags (node t (strip_forest f)) (object y) t 248 refl refl (plain_merged t i) refl
        (ground arith)

  order_forest-Signed :
      (f g : Forest)
      → AllComparable f
      → AllComparable g
      → AreValues f
      → AreValues g
      → count_fields (strip_forest f) ≡ count_fields (strip_forest g)
      → Signed
          (LessForest (strip_forest f) (strip_forest g))
          (strip_forest f ≡ strip_forest g)
          (LessForest (strip_forest g) (strip_forest f))
          (order_forest (strip_forest f) (strip_forest g))
  order_forest-Signed end end a b i j e = refl
  order_forest-Signed end (child w g) a b i j e = absurd (omega arith)
  order_forest-Signed (child v f) end a b i j e = absurd (omega arith)
  order_forest-Signed (child v f) (child w g) (a, a') (b, b') (i, i') (j, j') e =
      Signed-after (strip v) (strip w) (strip_forest f) (strip_forest g) (order (strip v) (strip w))
        (order_forest (strip_forest f) (strip_forest g)) (order-Signed_lem v w a b i j)
        (order_forest-Signed f g a' b' i' j' (omega arith))

-- The comparison of values that can be compared ends in an integer, whose sign says how they are ordered.
pub order-Signed :
    (v w : Tree)
    → Comparable v
    → Comparable w
    → IsValue v
    → IsValue w
    → Signed
        (Less (strip v) (strip w))
        (strip v ≡ strip w)
        (Less (strip w) (strip v))
        (order (strip v) (strip w))
order-Signed v w a b i j = order-Signed_lem v w a b i j
