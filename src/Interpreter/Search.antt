-- ===== src/Interpreter/Search.antt =====
-- runtime/interp.c: the binary search of a method ends at the place of its label.
use trav_lang.Common.{
  ℕ, zero, suc, ◌+◌, ◌-◌, ◌*◌, ◌/◌, ◌≤◌, ◌<◌, ◌≡◌, refl, sym, ◌∙◌, ap, dec_lt, ◌⊎◌, inl, inr, true,
  false, List, some, ltb, if◌then◌else◌, arith,
}
use trav_lang.Interpreter.Arithmetic.{signed_lt}
use trav_lang.Interpreter.Methods.{label, middle, side, search_loop, find_label, method_at}
use trav_lang.Interpreter.{Value, Block, field}

-- A table of `n` methods: the label of each, in order, and behind its label the method.
pub record IsTable (heap : List Block) (meths : Value) (n : ℕ) (labels : ℕ → ℕ)
    (methods : ℕ → Value) : Type 0 where
  pub size : label heap meths 0 ≡ some (2 * n + 1)
  pub labelled : (i : ℕ) → i < n → label heap meths (2 * i + 3) ≡ some (labels i)
  pub filled : (i : ℕ) → i < n → field heap meths (2 * i + 2) ≡ some (methods i)
  pub ascending : (i j : ℕ) → i < j → j < n → signed_lt (labels i) (labels j) ≡ true

pub signed_lt-asymmetric : (a b : ℕ) → signed_lt a b ≡ true → signed_lt b a ≡ false
unfolding signed_lt
signed_lt-asymmetric a b h = ground arith

pub signed_lt-irreflexive : (a : ℕ) → signed_lt a a ≡ false
unfolding signed_lt
signed_lt-irreflexive a = ground arith

-- The test of the loop tells on which side of the middle the label is.
pub test-lower :
    {heap : List Block} {meths : Value} {n : ℕ} {labels : ℕ → ℕ} {methods : ℕ → Value} (k c : ℕ)
    → IsTable heap meths n labels methods
    → k < n
    → c < n
    → (k < c × (signed_lt (labels k) (labels c) ≡ true))
      ⊎ (c ≤ k × (signed_lt (labels k) (labels c) ≡ false))
test-lower {labels = labels} k c t h h' = elim (dec_lt k c) [
  | yes l ↦ inl (l, t.ascending k c l h')
  | no l ↦ elim (dec_lt c k) [
    | yes l' ↦ inr (omega arith, signed_lt-asymmetric (labels c) (labels k) (t.ascending c k l' h))
    | no l' ↦
        let e : k ≡ c = omega arith in
        inr (
          omega arith,
          ap (λ i. signed_lt (labels i) (labels c)) e ∙ signed_lt-irreflexive (labels c),
        )
  ]
]

pub middle-places : (a b : ℕ) → middle (2 * a + 3) (2 * b + 3) ≡ 2 * ((a + b + 1) / 2) + 3
middle-places a b = omega arith

pub search_loop-done :
    (fuel : ℕ) (heap : List Block) (meths : Value) (tag p : ℕ)
    → search_loop (suc fuel) heap meths tag p p ≡ some (some p)
unfolding search_loop
search_loop-done fuel heap meths tag p = ground arith

-- One round, on a table.
pub search_loop-round :
    (fuel : ℕ) (heap : List Block) (meths : Value) (tag li hi w : ℕ)
    → li < hi
    → label heap meths (middle li hi) ≡ some w
    → search_loop (suc fuel) heap meths tag li hi ≡ (
        if signed_lt tag w
        then search_loop fuel heap meths tag li (middle li hi - 2)
        else search_loop fuel heap meths tag (middle li hi) hi)
unfolding search_loop side
search_loop-round fuel heap meths tag li hi w h e =
    let l : ltb li hi ≡ true = ground arith in simp (l, e) refl

pub search_loop-finds :
    {heap : List Block} {meths : Value} {n : ℕ} {labels : ℕ → ℕ} {methods : ℕ → Value}
    (fuel a b k : ℕ)
    → IsTable heap meths n labels methods
    → a ≤ k
    → k ≤ b
    → b < n
    → b - a < fuel
    → search_loop fuel heap meths (labels k) (2 * a + 3) (2 * b + 3) ≡ some (some (2 * k + 3))
search_loop-finds zero a b k t h h' h'' f = absurd (omega arith)
search_loop-finds {heap = heap} {meths = meths} {labels = labels} (suc fuel) a b k t h h' h'' f =
    elim (dec_lt a b) [
      | yes l ↦
          let c : ℕ = (a + b + 1) / 2 in
          let tag : ℕ = labels k in
          let mi : ℕ = middle (2 * a + 3) (2 * b + 3) in
          let place : mi ≡ 2 * c + 3 = middle-places a b in
          let below : mi - 2 ≡ 2 * (c - 1) + 3 = omega arith in
          let e : label heap meths mi ≡ some (labels c) =
            ap (label heap meths) place ∙ t.labelled c (omega arith) in
          search_loop-round fuel heap meths tag (2 * a + 3) (2 * b + 3) (labels c) (omega arith) e
          ∙ elim (test-lower k c t (omega arith) (omega arith)) [
            | inl (m, q) ↦ simp q (
                ap (search_loop fuel heap meths tag (2 * a + 3)) below
                ∙ search_loop-finds fuel a (c - 1) k t h (omega arith) (omega arith) (omega arith))
            | inr (m, q) ↦ simp q (
                ap (λ p. search_loop fuel heap meths tag p (2 * b + 3)) place
                ∙ search_loop-finds fuel c b k t m h' h'' (omega arith))
          ]
      | no l ↦
          let e : a ≡ k = omega arith in
          let e' : b ≡ k = omega arith in
          ap (λ p. search_loop (suc fuel) heap meths (labels k) (2 * a + 3) (2 * p + 3))
            (e' ∙ sym e)
          ∙ search_loop-done fuel heap meths (labels k) (2 * a + 3)
          ∙ ap (λ p. some (some (2 * p + 3))) e
    ]

pub find_label-finds :
    {heap : List Block} {meths : Value} {n : ℕ} {labels : ℕ → ℕ} {methods : ℕ → Value} (k : ℕ)
    → IsTable heap meths n labels methods
    → k < n
    → find_label heap meths (labels k) ≡ some (some (2 * k + 3))
unfolding find_label
find_label-finds {heap = heap} {meths = meths} {n = n} {labels = labels} k t h =
    let e : 2 * n + 1 ≡ 2 * (n - 1) + 3 = omega arith in
    simp (t.size) (
      ap (search_loop (2 * n + 1 + 1) heap meths (labels k) 3) e
      ∙ search_loop-finds (2 * n + 1 + 1) 0 (n - 1) k t (omega arith) (omega arith) (omega arith)
          (omega arith))

pub method_at-finds :
    {heap : List Block} {meths : Value} {n : ℕ} {labels : ℕ → ℕ} {methods : ℕ → Value} (k : ℕ)
    → IsTable heap meths n labels methods
    → k < n
    → method_at heap meths (labels k) ≡ some (methods k)
unfolding method_at
method_at-finds {heap = heap} {meths = meths} {n = n} {labels = labels} k t h =
    let e : 2 * k + 3 - 1 ≡ 2 * k + 2 = omega arith in
    simp (find_label-finds k t h, e, t.filled k h) refl
