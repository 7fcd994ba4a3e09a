-- ===== src/Compare/Order.antt =====
-- runtime/compare.c: the order of values that `caml_compare` and the tests decide, as a relation.
use trav_lang.Common.{ℕ, ◌<◌, ◌≡◌, sym, ◌∙◌, ◌⊎◌, inl, inr, true, arith}
use mathlib.Core.Path.{subst}
use trav_lang.Common.Int.{ℤ, ltb_ℤ}
use trav_lang.Strings.Order.{Precedes, Precedes-irrefl, Precedes-trans}
use trav_lang.Trees.{
  Tree, immediate, text, object, forward, opaque, node, Forest, end, child, tag_of, count_fields,
}

-- Integers come before blocks, then the tag decides, then the number of fields, then the first field that
-- differs; strings are ordered like dictionaries' words.
unfoldable mutual
  pub Less : Tree → Tree → Type 0
  Less (immediate a) (immediate b) = ltb_ℤ a b ≡ true
  Less (immediate a) w = Unit
  Less v (immediate b) = ⊥
  Less (text xs) (text ys) = Precedes xs ys
  Less (object oid1) (object oid2) = oid1 < oid2
  Less (node t f) (node u g) =
      (t < u)
      ⊎ ((t ≡ u)
          × ((count_fields f < count_fields g)
              ⊎ ((count_fields f ≡ count_fields g) × LessForest f g)))
  Less v w = tag_of v < tag_of w

  pub LessForest : Forest → Forest → Type 0
  LessForest (child v f) (child w g) = Less v w ⊎ ((v ≡ w) × LessForest f g)
  LessForest _ _ = ⊥

ltb_irrefl : (a : ℤ) → ltb_ℤ a a ≡ true → ⊥
ltb_irrefl a h = ground arith

ltb_trans : (a b c : ℤ) → ltb_ℤ a b ≡ true → ltb_ℤ b c ≡ true → ltb_ℤ a c ≡ true
ltb_trans a b c h k = ground arith

Less-nodes :
    (t t' t'' : ℕ) (f g l : Forest)
    → (LessForest f g → LessForest g l → LessForest f l)
    → Less (node t f) (node t' g)
    → Less (node t' g) (node t'' l)
    → Less (node t f) (node t'' l)
unfolding Less
Less-nodes t t' t'' f g l trans h k = ground (arith, trans)

-- The order is strict.
mutual
  unfolding Less

  pub Less-irrefl : (v : Tree) → Less v v → ⊥
  Less-irrefl (immediate a) h = ltb_irrefl a h
  Less-irrefl (text xs) h = Precedes-irrefl xs h
  Less-irrefl (node t f) (inl h) = omega arith
  Less-irrefl (node t f) (inr (e, inl h)) = omega arith
  Less-irrefl (node t f) (inr (e, inr (e', h))) = LessForest-irrefl f h
  Less-irrefl (object x) h = omega arith
  Less-irrefl (forward v) h = omega arith
  Less-irrefl (opaque o) h = omega arith

  LessForest-irrefl : (f : Forest) → LessForest f f → ⊥
  LessForest-irrefl end h = h
  LessForest-irrefl (child v f) (inl h) = Less-irrefl v h
  LessForest-irrefl (child v f) (inr (e, h)) = LessForest-irrefl f h

mutual
  unfolding Less

  pub Less-trans : (u v w : Tree) → Less u v → Less v w → Less u w
  Less-trans (immediate a) (immediate b) (immediate c) h k = ltb_trans a b c h k
  Less-trans (immediate a) (text ys) (immediate c) h k = elim k [ ]
  Less-trans (immediate a) (object y) (immediate c) h k = elim k [ ]
  Less-trans (immediate a) (forward v) (immediate c) h k = elim k [ ]
  Less-trans (immediate a) (opaque o) (immediate c) h k = elim k [ ]
  Less-trans (immediate a) (node t f) (immediate c) h k = elim k [ ]
  Less-trans (immediate a) v w h k = tt
  Less-trans (text xs) (text ys) (text zs) h k = Precedes-trans xs ys zs h k
  Less-trans (node t f) (node t' g) (node t'' l) h k =
      Less-nodes t t' t'' f g l (LessForest-trans f g l) h k
  Less-trans u v w h k = ground arith

  LessForest-trans : (f g l : Forest) → LessForest f g → LessForest g l → LessForest f l
  LessForest-trans (child u f) (child v g) (child w l) (inl h) (inl k) = inl (Less-trans u v w h k)
  LessForest-trans (child u f) (child v g) (child w l) (inl h) (inr (e, k)) =
      inl (subst (Less u) e h)
  LessForest-trans (child u f) (child v g) (child w l) (inr (e, h)) (inl k) =
      inl (subst (λ x. Less x w) (sym e) k)
  LessForest-trans (child u f) (child v g) (child w l) (inr (e, h)) (inr (e', k)) =
      inr (e ∙ e', LessForest-trans f g l h k)
  LessForest-trans (child u f) (child v g) end h k = elim k [ ]
  LessForest-trans (child u f) end l h k = elim h [ ]
  LessForest-trans end g l h k = elim h [ ]
