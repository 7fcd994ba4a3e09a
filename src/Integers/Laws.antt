-- ===== src/Integers/Laws.antt =====
-- runtime/ints.c: the operations on words are those on integers, modulo 2 ^ 32 or 2 ^ 64.
use trav_lang.Common.{
  ℕ, ◌+◌, ◌-◌, ◌*◌, ◌/◌, ◌%◌, ◌^◌, ◌≤◌, ◌<◌, ◌≡◌, ◌≢◌, refl, ◌⊎◌, inl, inr, Bool, false, arith,
  Bool-cases, ==→ne, ◌==◌, if◌then◌else◌,
}
use native.Mathlib.Nat.{mod-add-div, mod-lt, div-le_self}
use mathlib.Core.List.{reverse}
use trav_lang.Common.Words.{le_bytes, of_le_bytes}
use trav_lang.Common.Int.{ℤ, pos, negsuc, ◌+ℤ◌, ◌-ℤ◌, ltb_ℤ}
use trav_lang.Integers.Words.{
  wrap, absolute, is_negative, xor, with_sign, Division, yields, raises, rounded, rest_of, quotient,
  remainder, compare_int, int32_cmp, int32_compare, int64_cmp, int64_compare, nativeint_cmp,
  nativeint_compare, int32_neg, int32_add, int32_sub, int32_div, int32_mod, int64_neg, int64_add,
  int64_sub, int64_div, int64_mod, nativeint_neg, nativeint_add, nativeint_sub, nativeint_div,
  nativeint_mod, swap32, int32_bswap, int64_bswap, nativeint_bswap, swap64, bswap16, int32_of_int,
  int64_of_int32,
}

-- The integer of a word of `w` bits, and the word of an integer.
abbrev pub to_ℤ : ℕ → ℕ → ℤ
to_ℤ w x = if is_negative w x then negsuc (2 ^ w - 1 - x) else pos x

abbrev pub of_ℤ : ℕ → ℤ → ℕ
of_ℤ w (pos n) = n % 2 ^ w
of_ℤ w (negsuc n) = 2 ^ w - 1 - n % 2 ^ w

-- Division of words of `w` bits as C defines it.
pub record IsDivision (w a b q r : ℕ) : Type 0 where
  pub exact : absolute w a ≡ absolute w q * absolute w b + absolute w r
  pub small : absolute w r < absolute w b
  pub sign_r : (r ≡ 0) ⊎ (is_negative w r ≡ is_negative w a)
  pub sign_q : (q ≡ 0) ⊎ (is_negative w q ≡ xor (is_negative w a) (is_negative w b))

double : (q B A : ℕ) → 2 ≤ B → q * B ≤ A → 2 * q ≤ A
double q B A h k = grind arith

-- The quotient of absolute values, as it is used below.
division_facts :
    (A B : ℕ)
    → 0 < B
    → (A ≡ A / B * B + A % B) × (A % B < B) × (A / B ≤ A) × (2 ≤ B → 2 * (A / B) ≤ A)
division_facts A B h = (
  omega (arith, mod-add-div A B),
  mod-lt A h,
  div-le_self A B,
  λ k. double (A / B) B A k (omega (arith, mod-add-div A B)),
)

abbrev IsWidth : ℕ → Type 0
IsWidth w = (w ≡ 32) ⊎ (w ≡ 64)

signed_division :
    (w a b q r : ℕ)
    → IsWidth w
    → a < 2 ^ w
    → b < 2 ^ w
    → q ≤ absolute w a
    → (2 ≤ absolute w b → 2 * q ≤ absolute w a)
    → r < absolute w b
    → (a ≡ 2 ^ (w - 1) → b ≢ 2 ^ w - 1)
    → (absolute w (with_sign w (xor (is_negative w a) (is_negative w b)) q) ≡ q)
      × (absolute w (with_sign w (is_negative w a) r) ≡ r)
      × ((with_sign w (is_negative w a) r ≡ 0)
          ⊎ (is_negative w (with_sign w (is_negative w a) r) ≡ is_negative w a))
      × ((with_sign w (xor (is_negative w a) (is_negative w b)) q ≡ 0)
          ⊎ (is_negative w (with_sign w (xor (is_negative w a) (is_negative w b)) q)
              ≡ xor (is_negative w a) (is_negative w b)))
signed_division w a b q r p h k l m n o = (ground arith, ground arith, ground arith, ground arith)

rounded-IsDivision :
    (w a b : ℕ)
    → IsWidth w
    → a < 2 ^ w
    → b < 2 ^ w
    → b ≢ 0
    → (a ≡ 2 ^ (w - 1) → b ≢ 2 ^ w - 1)
    → IsDivision w a b (rounded w a b) (rest_of w a b)
rounded-IsDivision w a b p h k z o =
    let facts = division_facts (absolute w a) (absolute w b) (ground arith) in
    let (abs_q, abs_r, sign_r, sign_q) =
      signed_division w a b (absolute w a / absolute w b) (absolute w a % absolute w b) p h k
        (facts.2) (facts.3) (facts.1) o in
    record {
      exact = rw (abs_q, abs_r) (facts.0);
      small = rw abs_r (facts.1);
      sign_r = sign_r;
      sign_q = sign_q;
    }

-- What a division and a remainder may give: both raise for a zero divisor; the least integer by -1 gives
-- itself and 0; else they are the quotient rounded to zero and its remainder.
abbrev pub Divided : ℕ → ℕ → ℕ → Division → Division → Type 0
Divided w a b raises raises = b ≡ 0
Divided w a b (yields q) (yields r) =
    (b ≢ 0) × (IsDivision w a b q r ⊎ ((a ≡ 2 ^ (w - 1)) × (b ≡ 2 ^ w - 1) × (q ≡ a) × (r ≡ 0)))
Divided w a b _ _ = ⊥

overflow_test : ℕ → ℕ → ℕ → Bool
overflow_test w a b = if a == 2 ^ (w - 1) then b == 2 ^ w - 1 else false

guarded_division :
    (w a b : ℕ)
    → IsWidth w
    → a < 2 ^ w
    → b < 2 ^ w
    → Divided w a b
        (if b == 0 then raises else if overflow_test w a b then yields a else quotient w a b)
        (if b == 0 then raises else if overflow_test w a b then yields 0 else remainder w a b)
unfolding overflow_test quotient remainder
guarded_division w a b p h k = elim (Bool-cases (b == 0)) [
  | inl t ↦ rw t (ground arith)
  | inr t ↦ elim (Bool-cases (overflow_test w a b)) [
    | inl u ↦ simp (t, u) (ground arith)
    | inr u ↦
        simp (t, u) (==→ne b 0 t, inl (rounded-IsDivision w a b p h k (==→ne b 0 t) (ground arith)))
  ]
]

-- Division and remainder of 32-bit, 64-bit and native integers are those of C, and never run into a
-- division that C leaves undefined, by zero or of the least integer by -1: they raise exactly for a zero
-- divisor, and the least integer by -1 gives itself and 0.
pub div_mod-Divided :
    (a b c d : ℕ)
    → a < 2 ^ 32
    → b < 2 ^ 32
    → c < 2 ^ 64
    → d < 2 ^ 64
    → Divided 32 a b (int32_div a b) (int32_mod a b)
      × Divided 64 c d (int64_div c d) (int64_mod c d)
      × Divided 64 c d (nativeint_div c d) (nativeint_mod c d)
unfolding int32_div int32_mod int64_div int64_mod nativeint_div nativeint_mod overflow_test
div_mod-Divided a b c d h k l m = (
  guarded_division 32 a b (inl refl) h k,
  guarded_division 64 c d (inr refl) l m,
  guarded_division 64 c d (inr refl) l m,
)

-- Negation, sum and difference of 32-bit, 64-bit and native integers are those of integers, modulo 2 ^ 32
-- or 2 ^ 64.
abbrev pub RingOps : ℕ → (ℕ → ℕ) → (ℕ → ℕ → ℕ) → (ℕ → ℕ → ℕ) → ℕ → ℕ → Type 0
RingOps w neg add sub a b =
    (neg a ≡ of_ℤ w (pos 0 -ℤ to_ℤ w a))
    × (add a b ≡ of_ℤ w (to_ℤ w a +ℤ to_ℤ w b))
    × (sub a b ≡ of_ℤ w (to_ℤ w a -ℤ to_ℤ w b))

wrap-RingOps :
    (w a b : ℕ)
    → IsWidth w
    → a < 2 ^ w
    → b < 2 ^ w
    → RingOps w
        (λ v. wrap w (2 ^ w - v))
        (λ v1 v2. wrap w (v1 + v2))
        (λ v1 v2. wrap w (v1 + (2 ^ w - v2)))
        a
        b
unfolding ◌+ℤ◌ ◌-ℤ◌
wrap-RingOps w a b p h k = (ground arith, ground arith, ground arith)

pub add_sub-RingOps :
    (a b c d : ℕ)
    → a < 2 ^ 32
    → b < 2 ^ 32
    → c < 2 ^ 64
    → d < 2 ^ 64
    → RingOps 32 int32_neg int32_add int32_sub a b
      × RingOps 64 int64_neg int64_add int64_sub c d
      × RingOps 64 nativeint_neg nativeint_add nativeint_sub c d
unfolding int32_neg int32_add int32_sub int64_neg int64_add int64_sub nativeint_neg nativeint_add
    nativeint_sub
add_sub-RingOps a b c d h k l m = (
  wrap-RingOps 32 a b (inl refl) h k,
  wrap-RingOps 64 c d (inr refl) l m,
  wrap-RingOps 64 c d (inr refl) l m,
)

-- The byte swaps of 16, 32 and 64 bits write the low bytes of the word in the reverse order.
pub swap-reverse :
    (x : ℕ)
    → (of_le_bytes (reverse (le_bytes 2 x)) ≡ bswap16 x)
      × (of_le_bytes (reverse (le_bytes 4 x)) ≡ swap32 x)
      × (of_le_bytes (reverse (le_bytes 8 x)) ≡ swap64 x)
unfolding bswap16 swap32 swap64
swap-reverse x = (omega arith, omega arith, omega arith)

-- The byte swaps of 32-bit, 64-bit and native integers are their own inverses.
bswap_involutive :
    (x y : ℕ)
    → x < 2 ^ 32
    → y < 2 ^ 64
    → (int32_bswap (int32_bswap x) ≡ x)
      × (int64_bswap (int64_bswap y) ≡ y)
      × (nativeint_bswap (nativeint_bswap y) ≡ y)
unfolding int32_bswap int64_bswap nativeint_bswap swap32 swap64
bswap_involutive x y h k = (omega arith, omega arith, omega arith)

abbrev pub order : ℕ → ℕ → ℕ → ℤ
order w a b =
    if ltb_ℤ (to_ℤ w a) (to_ℤ w b)
    then negsuc 0
    else if ltb_ℤ (to_ℤ w b) (to_ℤ w a)
    then pos 1
    else pos 0

compare_int-order :
    (w a b : ℕ) → IsWidth w → a < 2 ^ w → b < 2 ^ w → compare_int w a b ≡ order w a b
unfolding compare_int
compare_int-order w a b p h k = ground arith

-- The comparisons of 32-bit, 64-bit and native integers, those of the custom blocks and the primitives,
-- give -1, 0 or 1 as the integers are ordered.
pub compare-order :
    (a b c d : ℕ)
    → a < 2 ^ 32
    → b < 2 ^ 32
    → c < 2 ^ 64
    → d < 2 ^ 64
    → ((int32_cmp a b ≡ order 32 a b) × (int32_compare a b ≡ order 32 a b))
      × ((int64_cmp c d ≡ order 64 c d) × (int64_compare c d ≡ order 64 c d))
      × ((nativeint_cmp c d ≡ order 64 c d) × (nativeint_compare c d ≡ order 64 c d))
unfolding int32_cmp int32_compare int64_cmp int64_compare nativeint_cmp nativeint_compare
compare-order a b c d h k l m =
    let narrow = compare_int-order 32 a b (inl refl) h k in
    let wide = compare_int-order 64 c d (inr refl) l m in
    ((narrow, narrow), (wide, wide), (wide, wide))

-- Widening a 32-bit integer keeps its value, and narrowing it again gives it back.
pub widen-narrow :
    (v : ℕ)
    → v < 2 ^ 32
    → (to_ℤ 64 (int64_of_int32 v) ≡ to_ℤ 32 v) × (int32_of_int (int64_of_int32 v) ≡ v)
unfolding int64_of_int32 int32_of_int
widen-narrow v h = (ground arith, ground arith)
