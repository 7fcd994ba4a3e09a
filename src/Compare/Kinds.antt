-- ===== src/Compare/Kinds.antt =====
-- runtime/compare.c: each kind of values keeps what the comparison is to give.
use trav_lang.Common.{
  ℕ, ◌≡◌, ◌≢◌, refl, sym, ◌∙◌, ap, inl, inr, Bool, true, false, Bool-cases, List, [], ◌==◌, ==→ne,
  ==_iff, if◌then◌else◌, arith,
}
use trav_lang.Common.Int.{ℤ, pos, ◌-ℤ◌, eqb_ℤ}
use trav_lang.Trees.{
  Opaque, Tree, immediate, text, object, forward, opaque, node, Forest, opaque_tag, Comparable,
  strip, IsPlain, IsValue, size, depth,
}
use trav_lang.Compare.{
  result, incomparable, merged_tag, compare_tags, Stack, done, next_item, compare_strings,
  compare_blocks, compare_by_kind,
}
use trav_lang.Compare.Reference.{order, order_strings, order_strings_self, compare_strings-order}
use trav_lang.Compare.Turns.{
  Allowed, pending, decided-Sound, kept, Ready, Settled, compare_blocks-Sound,
}

pub same_longs :
    (total : Bool) (a b : ℤ) (stk : Stack) (w : ℕ)
    → Ready total (immediate a) (immediate b) stk w
    → Settled total
        (immediate a)
        (immediate b)
        stk
        w
        (if eqb_ℤ a b then next_item stk else done (result (a -ℤ b)))
unfolding order strip size ◌-ℤ◌
same_longs total a b stk w (k, d, al, i, j, h) = ground arith

pub same_objects :
    (total : Bool) (a b : ℕ) (stk : Stack) (w : ℕ)
    → Ready total (object a) (object b) stk w
    → Settled total
        (object a)
        (object b)
        stk
        w
        (if a == b then next_item stk else done (result (pos a -ℤ pos b)))
unfolding order strip size ◌-ℤ◌
same_objects total a b stk w (k, d, al, i, j, h) = ground arith

pub opaque_pair :
    (total : Bool) (o p : Opaque) (stk : Stack) (w : ℕ)
    → Settled total (opaque o) (opaque p) stk w (
        if merged_tag (opaque_tag o) == merged_tag (opaque_tag p)
        then done incomparable
        else done (compare_tags (opaque o) (opaque p)))
unfolding order strip compare_tags ◌-ℤ◌
opaque_pair total o p stk w = ground arith

pub Allowed-forward : (total : Bool) (v : Tree) → Allowed total (forward v) → Allowed total v
unfolding Comparable
Allowed-forward true v h = h
Allowed-forward false v h = h

pub merged_differ : (t u : ℕ) → IsPlain t → IsPlain u → t ≢ u → merged_tag t ≢ merged_tag u
merged_differ t u i j h = ground arith

pub opaque_node : (o : Opaque) (t : ℕ) → IsPlain t → merged_tag (opaque_tag o) ≢ merged_tag t
opaque_node o t i = ground arith

pub node_pair :
    (total : Bool) (t u : ℕ) (f g : Forest) (stk : Stack) (w : ℕ)
    → Ready total (node t f) (node u g) stk w
    → Settled total
        (node t f)
        (node u g)
        stk
        w
        (if t == u then compare_blocks f g stk else done (compare_tags (node t f) (node u g)))
unfolding order strip IsValue compare_tags
node_pair total t u f g stk w r = elim (Bool-cases (t == u)) [
  | inl c ↦
      let e : t ≡ u = (==_iff t u).0 c in
      let s = compare_blocks-Sound total t u f g stk w e r in simp c (simp c at s)
  | inr c ↦
      let (k, d, a, (i, i'), (j, j'), h) = r in
      let ne : t ≢ u = ==→ne t u c in
      simp c (kept (merged_tag t) (merged_tag u) (pending stk) (merged_differ t u i j ne))
]

text_of : Tree → List ℕ
text_of (text xs) = xs
text_of v = []

text_pair :
    (total eq : Bool) (xs ys : List ℕ) (stk : Stack) (w : ℕ)
    → (eq ≡ true → text xs ≡ text ys)
    → Ready total (text xs) (text ys) stk w
    → Settled total
        (text xs)
        (text ys)
        stk
        w
        (if eq then next_item stk else compare_strings xs ys stk)
unfolding order strip size text_of
text_pair total false xs ys stk w p (k, d, a, i, j, h) =
    rw (compare_strings-order xs ys stk)
      (decided-Sound total (order_strings xs ys) stk w k (omega arith))
text_pair total true xs ys stk w p (k, d, a, i, j, h) =
    let e : xs ≡ ys = ap text_of (p refl) in
    let s : order_strings xs ys ≡ pos 0 = ap (order_strings xs) (sym e) ∙ order_strings_self xs in
    rw s (refl, k, omega arith)

pub compare_by_kind-Sound :
    (total eq : Bool) (v1 v2 : Tree) (stk : Stack) (w : ℕ)
    → (eq ≡ true → v1 ≡ v2)
    → Ready total v1 v2 stk w
    → Settled total v1 v2 stk w (compare_by_kind eq v1 v2 stk)
unfolding compare_by_kind order strip size depth IsValue compare_tags
compare_by_kind-Sound total eq (immediate a) (immediate b) stk w p r = same_longs total a b stk w r
compare_by_kind-Sound total eq (immediate a) (forward v) stk w p (k, d, al, i, j, h) =
    (refl, k, d, al, i, j, omega arith)
compare_by_kind-Sound total eq (forward v) (immediate b) stk w p (k, d, al, i, j, h) =
    (refl, k, d, Allowed-forward total v al, i, j, omega arith)
compare_by_kind-Sound total eq (forward v) (forward u) stk w p (k, d, al, i, j, h) =
    (refl, k, d, Allowed-forward total v al, i, j, omega arith)
compare_by_kind-Sound total eq (text xs) (text ys) stk w p r = text_pair total eq xs ys stk w p r
compare_by_kind-Sound total eq (node t f) (node u g) stk w p r = node_pair total t u f g stk w r
compare_by_kind-Sound total eq (object a) (object b) stk w p r = same_objects total a b stk w r
compare_by_kind-Sound total eq (opaque o) (opaque o') stk w p r = opaque_pair total o o' stk w
compare_by_kind-Sound total eq (immediate a) v stk w p r = refl
compare_by_kind-Sound total eq v (immediate b) stk w p r = refl
compare_by_kind-Sound total eq (forward v) u stk w p (k, d, al, i, j, h) =
    (refl, k, d, Allowed-forward total v al, i, j, omega arith)
compare_by_kind-Sound total eq v (forward u) stk w p (k, d, al, i, j, h) =
    (refl, k, d, al, i, j, omega arith)
compare_by_kind-Sound total eq (text xs) (object b) stk w p r = refl
compare_by_kind-Sound total eq (object a) (text ys) stk w p r = refl
compare_by_kind-Sound total eq (text xs) (opaque o) stk w p r =
    kept 252 (merged_tag (opaque_tag o)) (pending stk) (ground arith)
compare_by_kind-Sound total eq (opaque o) (text xs) stk w p r =
    kept (merged_tag (opaque_tag o)) 252 (pending stk) (ground arith)
compare_by_kind-Sound total eq (object a) (opaque o) stk w p r =
    kept 248 (merged_tag (opaque_tag o)) (pending stk) (ground arith)
compare_by_kind-Sound total eq (opaque o) (object a) stk w p r =
    kept (merged_tag (opaque_tag o)) 248 (pending stk) (ground arith)
compare_by_kind-Sound total eq (text xs) (node u g) stk w p (k, d, al, i, (j, j'), h) =
    kept 252 (merged_tag u) (pending stk) (ground arith)
compare_by_kind-Sound total eq (node t f) (text ys) stk w p (k, d, al, (i, i'), j, h) =
    kept (merged_tag t) 252 (pending stk) (ground arith)
compare_by_kind-Sound total eq (object a) (node u g) stk w p (k, d, al, i, (j, j'), h) =
    kept 248 (merged_tag u) (pending stk) (ground arith)
compare_by_kind-Sound total eq (node t f) (object b) stk w p (k, d, al, (i, i'), j, h) =
    kept (merged_tag t) 248 (pending stk) (ground arith)
compare_by_kind-Sound total eq (opaque o) (node u g) stk w p (k, d, al, i, (j, j'), h) =
    kept (merged_tag (opaque_tag o)) (merged_tag u) (pending stk) (opaque_node o u j)
compare_by_kind-Sound total eq (node t f) (opaque o) stk w p (k, d, al, (i, i'), j, h) =
    kept (merged_tag t) (merged_tag (opaque_tag o)) (pending stk) (λ e. opaque_node o t i (sym e))
