-- ===== src/Warshall/Closure.antt =====
-- yacc/warshall.c: the loops give the transitive closure.
use native.Mathlib.Nat.{pow-suc, pow-le-pow_right}
use mathlib.Core.Path.{subst}
use trav_lang.Common.{
  ℕ, suc, ◌+◌, ◌/◌, ◌%◌, ◌^◌, ◌≤◌, ◌<◌, ◌≡◌, refl, sym, ◌∙◌, Bool, true, false, ◌&&◌, ◌||◌, ◌==◌,
  arith, Bool-cases, inl, inr, ◌⊎◌,
}
use trav_lang.Common.Words.{shl}
use trav_lang.Warshall.{Matrix, next_mask, next_word}
use trav_lang.Warshall.Rows.{entry, stepped}

-- The mask and the word of the next column.
shifted_last : shl 32 (2 ^ 31) 1 ≡ 0
shifted_last = refl

power_bounds : (i : ℕ) → i < 31 → (1 ≤ 2 ^ suc i) × (2 ^ suc i ≤ 2 ^ 31)
power_bounds i h = (
  pow-le-pow_right {n = 2} (omega arith) {i = 0} {j = suc i} (omega arith),
  pow-le-pow_right {n = 2} (omega arith) {i = suc i} {j = 31} (omega arith),
)

shifted : (i : ℕ) → i < 31 → shl 32 (2 ^ i) 1 ≡ 2 ^ suc i
shifted i h = let p = power_bounds i h in let e = pow-suc 2 i in omega (arith, p.0, p.1, e)

not_zero : (i : ℕ) → i < 31 → 2 ^ suc i == 0 ≡ false
not_zero i h = let p = power_bounds i h in let l : 1 ≤ 2 ^ suc i = p.0 in ground arith

pub next_column :
    (i : ℕ)
    → (next_mask (2 ^ (i % 32)) ≡ 2 ^ ((i + 1) % 32))
      × (next_word (2 ^ (i % 32)) (i / 32) ≡ (i + 1) / 32)
next_column i = elim (Bool-cases (i % 32 == 31)) [
  | inl t ↦
      let e : i % 32 ≡ 31 = ground arith in
      let z : (i + 1) % 32 ≡ 0 = omega arith in
      let d : (i + 1) / 32 ≡ i / 32 + 1 = omega arith in rw (e, z, d) (refl, refl)
  | inr t ↦
      let h : i % 32 < 31 = ground arith in
      let z : (i + 1) % 32 ≡ suc (i % 32) = omega arith in
      let d : (i + 1) / 32 ≡ i / 32 = omega arith in
      simp (shifted (i % 32) h, not_zero (i % 32) h, z, d) (refl, refl)
]

-- A path along entries of the matrix, of at least one step.
pub data PathIn (r : Matrix) : ℕ → ℕ → Type 0 where
  edge : (a b : ℕ) → entry r a b ≡ true → PathIn r a b
  join : (a b c : ℕ) → PathIn r a b → PathIn r b c → PathIn r a c

-- What holds of the matrix `r` behind `i` rounds from the matrix `r₀`.
pub record Closing (i : ℕ) (r0 r : Matrix) : Type 0 where
  pub contains : (a b : ℕ) → entry r0 a b ≡ true → entry r a b ≡ true
  pub within : (a b : ℕ) → entry r a b ≡ true → PathIn r0 a b
  pub closed : (a c b : ℕ) → c < i → entry r a c ≡ true → entry r c b ≡ true → entry r a b ≡ true

either : (x y z : Bool) → x || (y && z) ≡ true → (x ≡ true) ⊎ ((y ≡ true) × (z ≡ true))
either true y z h = inl refl
either false true true h = inr (refl, refl)
either false true false h = absurd (cc h)
either false false z h = absurd (cc h)

from_left : (x y z : Bool) → x ≡ true → x || (y && z) ≡ true
from_left x y z h = rw h refl

from_right : (x y z : Bool) → y ≡ true → z ≡ true → x || (y && z) ≡ true
from_right true y z h k = refl
from_right false y z h k = rw (h, k) refl

-- A round closes the matrix through one more row.
pub next-Closing :
    (i : ℕ) (r0 r r' : Matrix)
    → ((a b : ℕ) → entry r' a b ≡ stepped i r a b)
    → Closing i r0 r
    → Closing (suc i) r0 r'
next-Closing i r0 r r' e k = record {
  contains =
      λ a b h. e a b ∙ from_left (entry r a b) (entry r a i) (entry r i b) (k.contains a b h);
  within = λ a b h. within a b (either (entry r a b) (entry r a i) (entry r i b) (sym (e a b) ∙ h));
  closed = λ a c b l h h'.
      e a b
      ∙ joined a c b (one_more c l)
          (either (entry r a c) (entry r a i) (entry r i c) (sym (e a c) ∙ h))
          (either (entry r c b) (entry r c i) (entry r i b) (sym (e c b) ∙ h'));
}
  where
    within :
        (a b : ℕ)
        → (entry r a b ≡ true) ⊎ ((entry r a i ≡ true) × (entry r i b ≡ true))
        → PathIn r0 a b
    within a b (inl h) = k.within a b h
    within a b (inr (h, h')) = join a i b (k.within a i h) (k.within i b h')

    left : (a b : ℕ) → entry r a b ≡ true → stepped i r a b ≡ true
    left a b h = from_left (entry r a b) (entry r a i) (entry r i b) h

    right : (a b : ℕ) → entry r a i ≡ true → entry r i b ≡ true → stepped i r a b ≡ true
    right a b h h' = from_right (entry r a b) (entry r a i) (entry r i b) h h'

    one_more : (c : ℕ) → c < suc i → (c < i) ⊎ (c ≡ i)
    one_more c h = omega arith

    joined :
        (a c b : ℕ)
        → (c < i) ⊎ (c ≡ i)
        → (entry r a c ≡ true) ⊎ ((entry r a i ≡ true) × (entry r i c ≡ true))
        → (entry r c b ≡ true) ⊎ ((entry r c i ≡ true) × (entry r i b ≡ true))
        → stepped i r a b ≡ true
    joined a c b (inl l) (inl h) (inl h') = left a b (k.closed a c b l h h')
    joined a c b (inl l) (inl h) (inr (h', h'')) = right a b (k.closed a c i l h h') h''
    joined a c b (inl l) (inr (h, h')) (inl h'') = right a b h (k.closed i c b l h' h'')
    joined a c b s (inr (h, h')) (inr (g, g')) = right a b h g'
    joined a c b (inr e') (inl h) (inl h') =
        right a b (subst (λ x. entry r a x ≡ true) e' h) (subst (λ x. entry r x b ≡ true) e' h')
    joined a c b (inr e') (inl h) (inr (h', h'')) =
        right a b (subst (λ x. entry r a x ≡ true) e' h) h''
    joined a c b (inr e') (inr (h, h')) (inl h'') =
        right a b h (subst (λ x. entry r x b ≡ true) e' h'')
