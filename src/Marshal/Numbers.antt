-- ===== src/Marshal/Numbers.antt =====
-- runtime/extern.c and runtime/intern.c: numbers of digits of seven bits are read back.
use trav_lang.Common.{
  ℕ, zero, suc, ◌+◌, ◌*◌, ◌/◌, ◌%◌, ◌^◌, ◌<◌, ◌≡◌, refl, ◌∙◌, Bool, true, false, not, ◌||◌, List,
  [], ◌∷◌, ◌++◌, ltb, ◌==◌, Option, none, some, arith, Bool-cases, inl, inr,
}
use native.Mathlib.Nat.{pow-suc}
use trav_lang.Marshal.Output.{vlq_digits, storevlq}
use trav_lang.Marshal.Input.{readvlq_loop, readvlq}

-- The reader with the number `n` behind it, in front of a further digit.
read_on : ℕ → List ℕ → Option ((Bool × ℕ) × List ℕ)
unfolding readvlq_loop
read_on n [] = none
read_on n (c ∷ src) =
    readvlq_loop c (false || not (n == n * 2 ^ 7 % 2 ^ 64 / 2 ^ 7)) (n * 2 ^ 7 % 2 ^ 64 + c % 0x80)
      src

read_on_again :
    (n d : ℕ) (src : List ℕ)
    → n < 2 ^ 57
    → read_on (n / 2 ^ 7) ((0x80 + n % 0x80) ∷ d ∷ src) ≡ read_on n (d ∷ src)
unfolding read_on readvlq_loop
read_on_again n d src h =
    let e : n / 2 ^ 7 == n / 2 ^ 7 * 2 ^ 7 % 2 ^ 64 / 2 ^ 7 ≡ true = ground arith in
    let e' : n / 2 ^ 7 * 2 ^ 7 % 2 ^ 64 + (0x80 + n % 0x80) % 0x80 ≡ n = omega arith in
    let t : ltb (0x80 + n % 0x80) 0x80 ≡ false = ground arith in simp (e, e', t) refl

read_on_last :
    (n : ℕ) (src : List ℕ)
    → n < 2 ^ 64
    → read_on (n / 2 ^ 7) ((n % 0x80) ∷ src) ≡ some ((false, n), src)
unfolding read_on readvlq_loop
read_on_last n [] h =
    let e : n / 2 ^ 7 == n / 2 ^ 7 * 2 ^ 7 % 2 ^ 64 / 2 ^ 7 ≡ true = ground arith in
    let e' : n / 2 ^ 7 * 2 ^ 7 % 2 ^ 64 + n % 0x80 % 0x80 ≡ n = omega arith in
    let t : ltb (n % 0x80) 0x80 ≡ true = ground arith in simp (e, e', t) refl
read_on_last n (c ∷ src) h =
    let e : n / 2 ^ 7 == n / 2 ^ 7 * 2 ^ 7 % 2 ^ 64 / 2 ^ 7 ≡ true = ground arith in
    let e' : n / 2 ^ 7 * 2 ^ 7 % 2 ^ 64 + n % 0x80 % 0x80 ≡ n = omega arith in
    let t : ltb (n % 0x80) 0x80 ≡ true = ground arith in simp (e, e', t) refl

digits_read :
    (fuel n d : ℕ) (dst src : List ℕ)
    → n < 2 ^ 57
    → n < 128 ^ fuel
    → read_on 0 (vlq_digits fuel n (d ∷ dst) ++ src) ≡ read_on n ((d ∷ dst) ++ src)
unfolding vlq_digits
digits_read zero n d dst src h k = let e : n ≡ 0 = omega arith in rw e refl
digits_read (suc fuel) n d dst src h k = elim (Bool-cases (n == 0)) [
  | inl t ↦ let e : n ≡ 0 = ground arith in rw e refl
  | inr t ↦ simp t (
      digits_read fuel (n / 2 ^ 7) (0x80 + n % 0x80) (d ∷ dst) src (omega arith)
        (let p = pow-suc 128 fuel in omega arith)
      ∙ read_on_again n d (dst ++ src) h)
]

first_digit : (src : List ℕ) → readvlq src ≡ read_on 0 src
unfolding readvlq read_on
first_digit [] = refl
first_digit (c ∷ src) = let e : 0 + c % 0x80 ≡ c % 0x80 = omega arith in simp e refl

-- A number of 64 bits is read back as storevlq has written it, without an overflow, whatever follows it.
pub readvlq-storevlq :
    (n : ℕ) (src : List ℕ) → n < 2 ^ 64 → readvlq (storevlq n ++ src) ≡ some ((false, n), src)
unfolding storevlq
readvlq-storevlq n src h =
    first_digit (vlq_digits 9 (n / 2 ^ 7) ((n % 0x80) ∷ []) ++ src)
    ∙ digits_read 9 (n / 2 ^ 7) (n % 0x80) [] src (omega arith) (omega arith)
    ∙ read_on_last n src h
