-- ===== src/Compare/Signs.antt =====
-- runtime/compare.c: the sign of a comparison by recursion says how the two values are ordered.
use trav_lang.Common.{
  ℕ, zero, suc, ◌+◌, ◌-◌, ◌<◌, ◌≡◌, refl, sym, ap, ◌⊎◌, inl, inr, true, List, [], ◌∷◌, length,
  arith,
}
use trav_lang.Common.Int.{ℤ, pos, negsuc, ◌-ℤ◌, ltb_ℤ}
use trav_lang.Strings.Order.{Precedes}
use trav_lang.Trees.{immediate}
use trav_lang.Compare.{Comparison, result}
use trav_lang.Compare.Reference.{order_strings}

-- What the sign of a result says.
abbrev pub Signed : Type 0 → Type 0 → Type 0 → Comparison → Type 0
Signed L E G (result (pos zero)) = E
Signed L E G (result (pos (suc n))) = G
Signed L E G (result (negsuc n)) = L
Signed L E G c = ⊥

pub Signed-strings :
    (x y : ℕ) (xs ys : List ℕ) (z : ℤ)
    → x ≡ y
    → Signed (Precedes xs ys) (xs ≡ ys) (Precedes ys xs) (result z)
    → Signed (Precedes (x ∷ xs) (y ∷ ys)) (x ∷ xs ≡ y ∷ ys) (Precedes (y ∷ ys) (x ∷ xs)) (result z)
Signed-strings x y xs ys (pos zero) e h = rw (e, h)
Signed-strings x y xs ys (pos (suc n)) e h = inr (sym e, h)
Signed-strings x y xs ys (negsuc n) e h = inr (e, h)

pub order_strings-Signed :
    (xs ys : List ℕ)
    → Signed (Precedes xs ys) (xs ≡ ys) (Precedes ys xs) (result (order_strings xs ys))
unfolding order_strings ◌-ℤ◌
order_strings-Signed [] [] = refl
order_strings-Signed [] (y ∷ ys) =
    let e : pos 0 -ℤ pos (suc (length ys)) ≡ negsuc (length ys) = ground arith in rw e tt
order_strings-Signed (x ∷ xs) [] = tt
order_strings-Signed (x ∷ xs) (y ∷ ys) = ground (
  arith,
  λ (e : x ≡ y). Signed-strings x y xs ys (order_strings xs ys) e (order_strings-Signed xs ys),
)

below : (a b : ℕ) → a < b → pos a -ℤ pos b ≡ negsuc (b - a - 1)
unfolding ◌-ℤ◌
below a b h = ground arith

above : (a b : ℕ) → b < a → pos a -ℤ pos b ≡ pos (suc (a - b - 1))
unfolding ◌-ℤ◌
above a b h = ground arith

level : (a b : ℕ) → a ≡ b → pos a -ℤ pos b ≡ pos 0
unfolding ◌-ℤ◌
level a b h = ground arith

negative_difference : (a b : ℕ) → negsuc a -ℤ negsuc b ≡ pos b -ℤ pos a
unfolding ◌-ℤ◌
negative_difference a b = ground arith

above_negative : (a b : ℕ) → pos a -ℤ negsuc b ≡ pos (suc (a + b))
unfolding ◌-ℤ◌
above_negative a b = ground arith

below_zero : (a b : ℕ) → negsuc a -ℤ pos b ≡ negsuc (a + b)
unfolding ◌-ℤ◌
below_zero a b = ground arith

trichotomy : (a b : ℕ) → (a < b) ⊎ ((a ≡ b) ⊎ (b < a))
trichotomy a b = omega arith

-- The sign of a difference.
pub Signed-difference :
    (L E G : Type 0) (a b : ℕ)
    → (a < b → L)
    → (a ≡ b → E)
    → (b < a → G)
    → Signed L E G (result (pos a -ℤ pos b))
Signed-difference L E G a b l e g = elim (trichotomy a b) [
  | inl h ↦ rw (below a b h) (l h)
  | inr (inl h) ↦ rw (level a b h) (e h)
  | inr (inr h) ↦ rw (above a b h) (g h)
]

pub Signed-longs :
    (a b : ℤ)
    → Signed (ltb_ℤ a b ≡ true) (immediate a ≡ immediate b) (ltb_ℤ b a ≡ true) (result (a -ℤ b))
Signed-longs (pos a) (pos b) =
    Signed-difference (ltb_ℤ (pos a) (pos b) ≡ true) (immediate (pos a) ≡ immediate (pos b))
      (ltb_ℤ (pos b) (pos a) ≡ true) a b (λ h. ground arith) (λ h. ap (λ n. immediate (pos n)) h)
      (λ h. ground arith)
Signed-longs (negsuc a) (negsuc b) =
    let e : negsuc a -ℤ negsuc b ≡ pos b -ℤ pos a = negative_difference a b in
    rw e (
      Signed-difference (ltb_ℤ (negsuc a) (negsuc b) ≡ true)
        (immediate (negsuc a) ≡ immediate (negsuc b)) (ltb_ℤ (negsuc b) (negsuc a) ≡ true) b a
        (λ h. ground arith) (λ h. ap (λ n. immediate (negsuc n)) (sym h)) (λ h. ground arith))
Signed-longs (pos a) (negsuc b) = rw (above_negative a b) (ground arith)
Signed-longs (negsuc a) (pos b) = rw (below_zero a b) (ground arith)
