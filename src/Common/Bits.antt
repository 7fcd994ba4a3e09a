-- ===== src/Common/Bits.antt =====
-- The binary digits of numbers under the bitwise operations.
use Prim.Native.Nat.{
  bit_and, bit_or, bit_xor, digits, differ, bit_and-bitwise, bit_or-bitwise, bit_xor-bitwise,
}
use native.Mathlib.Nat.{div-div-eq-div-mul, pow-succ', pow-suc, mul_assoc, mul_comm}
use trav_lang.Common.{
  ℕ, zero, suc, ◌+◌, ◌-◌, ◌*◌, ◌/◌, ◌%◌, ◌^◌, ◌≤◌, ◌<◌, ◌≡◌, refl, sym, ◌∙◌, ap, max, min, arith,
  ◌⊎◌, inl, inr,
}

pub halved : (x i : ℕ) → x / 2 ^ suc i ≡ x / 2 / 2 ^ i
halved x i = ap (λ d. x / d) (pow-succ' 2 i) ∙ sym (div-div-eq-div-mul x 2 (2 ^ i))

pub no_bit : (i : ℕ) → 0 / 2 ^ i % 2 ≡ 0
no_bit zero = omega arith
no_bit (suc i) = rw (halved 0 i) (no_bit i)

-- An operation on digits, with what it does where the first number has run out.
module _ (z : ℕ → ℕ) (f : ℕ → ℕ → ℕ) (small : (p q : ℕ) → p < 2 → q < 2 → f p q < 2)
    (rest : (b i : ℕ) → z b / 2 ^ i % 2 ≡ f 0 (b / 2 ^ i % 2)) where
  none_left : (b i : ℕ) → z b / 2 ^ i % 2 ≡ f (0 / 2 ^ i % 2) (b / 2 ^ i % 2)
  none_left b i = rw (no_bit i) (rest b i)

  digits_bit :
      (n a b i : ℕ) → a ≤ n → digits z f n a b / 2 ^ i % 2 ≡ f (a / 2 ^ i % 2) (b / 2 ^ i % 2)
  digits_bit zero zero b i h = none_left b i
  digits_bit zero (suc a) b i h = absurd (omega arith)
  digits_bit (suc n) zero b i h = none_left b i
  digits_bit (suc n) (suc a) b zero h =
      let d : ℕ = digits z f n (suc a / 2) (b / 2) in
      let p : ℕ = f (suc a % 2) (b % 2) in
      let l : p < 2 = small (suc a % 2) (b % 2) (omega arith) (omega arith) in
      let e : (d * 2 + p) / 1 % 2 ≡ p = omega arith in
      let one_a : suc a / 1 ≡ suc a = omega arith in
      let one_b : b / 1 ≡ b = omega arith in rw (one_a, one_b) e
  digits_bit (suc n) (suc a) b (suc i) h =
      let d : ℕ = digits z f n (suc a / 2) (b / 2) in
      let p : ℕ = f (suc a % 2) (b % 2) in
      let l : p < 2 = small (suc a % 2) (b % 2) (omega arith) (omega arith) in
      let e : (d * 2 + p) / 2 ≡ d = omega arith in
      rw (halved (d * 2 + p) i, halved (suc a) i, halved b i, e)
        (digits_bit n (suc a / 2) (b / 2) i (omega arith))

differ_small : (p q : ℕ) → p < 2 → q < 2 → differ p q < 2
differ_small zero q h k = k
differ_small (suc p) zero h k = h
differ_small (suc zero) (suc q) h k = omega arith
differ_small (suc (suc p)) (suc q) h k = absurd (omega arith)

pub and_bit : (a b i : ℕ) → bit_and a b / 2 ^ i % 2 ≡ min (a / 2 ^ i % 2) (b / 2 ^ i % 2)
and_bit a b i =
    ap (λ w. w / 2 ^ i % 2) (λ j. bit_and-bitwise a b j)
    ∙ digits_bit (λ b. 0) min (λ p q h k. omega arith) (λ b i. no_bit i ∙ omega arith) a a b i
        (omega arith)

pub or_bit : (a b i : ℕ) → bit_or a b / 2 ^ i % 2 ≡ max (a / 2 ^ i % 2) (b / 2 ^ i % 2)
or_bit a b i =
    ap (λ w. w / 2 ^ i % 2) (λ j. bit_or-bitwise a b j)
    ∙ digits_bit (λ b. b) max (λ p q h k. omega arith) (λ b i. omega arith) a a b i (omega arith)

pub xor_bit : (a b i : ℕ) → bit_xor a b / 2 ^ i % 2 ≡ differ (a / 2 ^ i % 2) (b / 2 ^ i % 2)
xor_bit a b i =
    ap (λ w. w / 2 ^ i % 2) (λ j. bit_xor-bitwise a b j)
    ∙ digits_bit (λ b. b) differ differ_small (λ b i. refl) a a b i (omega arith)

-- Numbers with the same digits are the same.
same_digits : (n a b : ℕ) → a ≤ n → b ≤ n → ((i : ℕ) → a / 2 ^ i % 2 ≡ b / 2 ^ i % 2) → a ≡ b
same_digits zero a b h k e = omega arith
same_digits (suc n) a b h k e =
    let low : a / 1 % 2 ≡ b / 1 % 2 = e 0 in
    let high : a / 2 ≡ b / 2 =
      same_digits n (a / 2) (b / 2) (omega arith) (omega arith)
        (λ i. ap (λ x. x % 2) (sym (halved a i)) ∙ e (suc i) ∙ ap (λ x. x % 2) (halved b i)) in
    omega arith

pub eq_of_bits : (a b : ℕ) → ((i : ℕ) → a / 2 ^ i % 2 ≡ b / 2 ^ i % 2) → a ≡ b
eq_of_bits a b e = same_digits (a + b) a b (omega arith) (omega arith) e

-- The digits of a complement of `w` digits.
pub complement_bit :
    (w x i : ℕ)
    → x < 2 ^ w
    → ((2 ^ w - 1 - x) / 2 ^ i % 2 + x / 2 ^ i % 2 ≡ 1)
      ⊎ (((2 ^ w - 1 - x) / 2 ^ i % 2 ≡ 0) × ((y : ℕ) → y < 2 ^ w → y / 2 ^ i % 2 ≡ 0))
complement_bit zero x i h =
    let nothing : 2 ^ 0 - 1 - x ≡ 0 = omega arith in
    inr (
      ap (λ y. y / 2 ^ i % 2) nothing ∙ no_bit i,
      λ y l. let none : y ≡ 0 = omega arith in ap (λ y. y / 2 ^ i % 2) none ∙ no_bit i,
    )
complement_bit (suc w) x zero h = inl (let p = pow-suc 2 w in omega arith)
complement_bit (suc w) x (suc i) h =
    let p = pow-suc 2 w in
    let e : (2 ^ suc w - 1 - x) / 2 ≡ 2 ^ w - 1 - x / 2 = omega arith in
    elim (complement_bit w (x / 2) i (omega arith)) [
      | inl k ↦ inl (rw (halved (2 ^ suc w - 1 - x) i, halved x i, e) k)
      | inr k ↦ inr (
        rw (halved (2 ^ suc w - 1 - x) i, e) (k.0),
        λ y l. rw (halved y i) (k.1 (y / 2) (omega arith)),
      )
    ]

doubled : (a k : ℕ) → a * 2 ^ suc k ≡ 2 * (a * 2 ^ k)
doubled a k = ap (λ x. a * x) (pow-suc 2 k) ∙ sym (mul_assoc a (2 ^ k) 2) ∙ mul_comm (a * 2 ^ k) 2

sum_bit :
    (k a b i : ℕ)
    → b < 2 ^ k
    → (a * 2 ^ k + b) / 2 ^ i % 2 ≡ max (a * 2 ^ k / 2 ^ i % 2) (b / 2 ^ i % 2)
sum_bit zero a b i h =
    let none : b ≡ 0 = omega arith in
    let e : a * 2 ^ 0 + b ≡ a * 2 ^ 0 = omega arith in
    let z : b / 2 ^ i % 2 ≡ 0 = ap (λ y. y / 2 ^ i % 2) none ∙ no_bit i in
    ap (λ y. y / 2 ^ i % 2) e ∙ larger (a * 2 ^ 0 / 2 ^ i % 2) (b / 2 ^ i % 2) z
  where
    larger : (p q : ℕ) → q ≡ 0 → p ≡ max p q
    larger p q h = omega arith
sum_bit (suc k) a b zero h =
    let c : ℕ = a * 2 ^ k in let e : a * 2 ^ suc k ≡ 2 * c = doubled a k in omega arith
sum_bit (suc k) a b (suc i) h =
    let p = pow-suc 2 k in
    let half_a : a * 2 ^ suc k / 2 ≡ a * 2 ^ k = let e = doubled a k in omega arith in
    let half : (a * 2 ^ suc k + b) / 2 ≡ a * 2 ^ k + b / 2 = let e = doubled a k in omega arith in
    rw (halved (a * 2 ^ suc k + b) i, halved (a * 2 ^ suc k) i, halved b i, half_a, half)
      (sum_bit k a (b / 2) i (omega arith))

-- A disjunction of numbers in different places is their sum.
pub or_sum : (k a b : ℕ) → b < 2 ^ k → bit_or (a * 2 ^ k) b ≡ a * 2 ^ k + b
or_sum k a b h =
    eq_of_bits (bit_or (a * 2 ^ k) b) (a * 2 ^ k + b)
      (λ i. or_bit (a * 2 ^ k) b i ∙ sym (sum_bit k a b i h))
