-- ===== src/Integers/Overflow.antt =====
-- runtime/ints.c: the overflow checks of integer literals reject exactly the numbers out of range.
use trav_lang.Common.{
  ℕ, ◌+◌, ◌-◌, ◌*◌, ◌/◌, ◌%◌, ◌^◌, ◌≤◌, ◌<◌, ◌≡◌, refl, ◌∙◌, Bool, true, false, List, [], ◌∷◌,
  Option, none, some, ◌>>=◌, ltb, ◌==◌, if◌then◌else◌, drop, IfSome, arith, ◌⊎◌, inl, inr,
  Option-cases, IfSome-bind, Bool-cases,
}
use native.Mathlib.Nat.{pow-le-pow_right, mod-eq_of_lt}
use mathlib.Core.Path.{subst}
use trav_lang.Integers.Literals.{
  Prefix, peek, parse_sign_and_base, parse_base, parse_digit, digit_in, parse_loop, parse_digits,
  apply_sign, check_range, parse_intnat, int64_of_string,
}

-- The number that the digits denote, with no bound: underscores are skipped.
unfoldable pub digits_value : ℕ → ℕ → List ℕ → Option ℕ
digits_value base acc [] = some acc
digits_value base acc (c ∷ p) =
    let skipped = digits_value base acc p in
    let next : ℕ → Option ℕ = λ d. digits_value base (base * acc + d) p in
    if c == b'_' then skipped else digit_in base c >>= next

-- The bases of `parse_sign_and_base`.
abbrev IsBase : ℕ → Type 0
IsBase b = (b ≡ 2) ⊎ (b ≡ 8) ⊎ (b ≡ 10) ⊎ (b ≡ 16)

abbrev in_word : Option ℕ → Option ℕ
in_word none = none
in_word (some n) = if ltb n (2 ^ 64) then some n else none

digit_in-lt : (base c : ℕ) → IfSome (λ d. d < base) (digit_in base c)
unfolding digit_in
digit_in-lt base c = IfSome-bind (λ d. d < base) (parse_digit c) _ (λ d. ground arith)

digits_value-grows :
    (base : ℕ) (acc : ℕ) (p : List ℕ)
    → IsBase base
    → IfSome (λ n. acc ≤ n) (digits_value base acc p)
unfolding digits_value
digits_value-grows base acc [] h = omega arith
digits_value-grows base acc (c ∷ p) h = elim (Bool-cases (c == b'_')) [
  | inl t ↦ rw t (digits_value-grows base acc p h)
  | inr t ↦ rw t (
      IfSome-bind (λ n. acc ≤ n) (digit_in base c) (λ d. digits_value base (base * acc + d) p)
        (λ d. ground (arith, digits_value-grows base (base * acc + d) p h)))
]

-- Once the value has left the word, no further digit brings it back.
digits_value-large :
    (base acc : ℕ) (p : List ℕ)
    → IsBase base
    → 2 ^ 64 ≤ acc
    → in_word (digits_value base acc p) ≡ none
digits_value-large base acc p h k = ground (arith, digits_value-grows base acc p h)

digit_in-below : (base c d : ℕ) → digit_in base c ≡ some d → d < base
digit_in-below base c d e = subst (IfSome (λ d. d < base)) e (digit_in-lt base c)

-- One digit: the two tests reject exactly the values that leave the word.
overflow_tests :
    (base res d : ℕ) (rest : Option ℕ) (exact : Option ℕ)
    → IsBase base
    → res < 2 ^ 64
    → d < base
    → (base * res + d < 2 ^ 64 → rest ≡ in_word exact)
    → (2 ^ 64 ≤ base * res + d → in_word exact ≡ none)
    → (if ltb ((2 ^ 64 - 1) / base) res
        then none
        else if ltb ((base * res + d) % 2 ^ 64) d
        then none
        else rest)
      ≡ in_word exact
overflow_tests base res d rest exact h k l fits leaves = ground arith

parse_loop-value :
    (base res : ℕ) (p : List ℕ)
    → IsBase base
    → res < 2 ^ 64
    → parse_loop base ((2 ^ 64 - 1) / base) res p ≡ in_word (digits_value base res p)
unfolding parse_loop digits_value
parse_loop-value base res [] h k = ground arith
parse_loop-value base res (c ∷ p) h k = elim (Bool-cases (c == b'_')) [
  | inl t ↦ rw t (parse_loop-value base res p h k)
  | inr t ↦ rw t (elim (Option-cases (digit_in base c)) [
    | inl e ↦ rw e refl
    | inr (d, e) ↦ rw e (
        overflow_tests base res d _ (digits_value base (base * res + d) p) h k
          (digit_in-below base c d e)
          (λ r. rw (mod-eq_of_lt r) (parse_loop-value base (base * res + d) p h r))
          (digits_value-large base (base * res + d) p h))
  ])
]

parse_base-IsBase : (negative : Bool) (p : List ℕ) → IsBase (parse_base negative p).base
unfolding parse_base
parse_base-IsBase negative p = ground arith

sign_and_base-IsBase : (p : List ℕ) → IsBase (parse_sign_and_base p).base
unfolding parse_sign_and_base
sign_and_base-IsBase p = ground (
  arith,
  parse_base-IsBase true (drop 1 p),
  parse_base-IsBase false (drop 1 p),
  parse_base-IsBase false p,
)

-- The number after the prefix, with no bound.
unfoldable pub magnitude : Prefix → Option ℕ
unfolding digits_value
magnitude q = digit_in q.base (peek q.rest) >>= (λ d. digits_value q.base d (drop 1 q.rest))

parse_digits-magnitude :
    (q : Prefix) → IsBase q.base → parse_digits q.base q.rest ≡ in_word (magnitude q)
unfolding parse_digits magnitude
parse_digits-magnitude q h = elim (Option-cases (digit_in q.base (peek q.rest))) [
  | inl e ↦ rw e refl
  | inr (d, e) ↦
      let l : d < q.base = digit_in-below q.base (peek q.rest) d e in
      rw e (parse_loop-value q.base d (drop 1 q.rest) h (ground arith))
]

-- The first number out of range: signed literals span the `nbits`-bit numbers, and those with a base
-- prefix have any magnitude of `nbits` bits, with either sign.
unfoldable pub limit : ℕ → Prefix → ℕ
limit nbits q =
    if q.signedness then if q.negative then 2 ^ (nbits - 1) + 1 else 2 ^ (nbits - 1) else 2 ^ nbits

-- What a literal of `nbits` bits means: its magnitude, if below the limit, with its sign.
unfoldable pub literal : ℕ → List ℕ → Option ℕ
unfolding magnitude limit parse_sign_and_base
literal nbits s =
    let q = parse_sign_and_base s in
    magnitude q >>= (λ n. if ltb n (limit nbits q) then some (apply_sign q.negative n) else none)

check_range-limit :
    (nbits : ℕ) (q : Prefix) (o : Option ℕ)
    → 1 ≤ nbits
    → nbits ≤ 64
    → (in_word o >>= (λ n. if check_range nbits q n then some (apply_sign q.negative n) else none))
      ≡ (o >>= (λ n. if ltb n (limit nbits q) then some (apply_sign q.negative n) else none))
unfolding check_range limit
check_range-limit nbits q none h k = refl
check_range-limit nbits q (some n) h k =
    let p1 : 2 ^ nbits ≤ 2 ^ 64 = pow-le-pow_right (omega arith) k in
    let below : nbits - 1 ≤ 63 = omega arith in
    let p2 : 2 ^ (nbits - 1) ≤ 2 ^ 63 = pow-le-pow_right (omega arith) below in
    let p3 : 64 ≤ nbits → 2 ^ 64 ≤ 2 ^ nbits = λ l. pow-le-pow_right (omega arith) l in ground arith

pub parse_intnat-literal :
    (nbits : ℕ) (s : List ℕ) → 1 ≤ nbits → nbits ≤ 64 → parse_intnat nbits s ≡ literal nbits s
unfolding parse_intnat literal
parse_intnat-literal nbits s h k =
    let q = parse_sign_and_base s in
    rw (parse_digits-magnitude q (sign_and_base-IsBase s))
      (check_range-limit nbits q (magnitude q) h k)

-- `caml_int64_of_string` on any string gives the meaning of the literal of 64 bits.
pub int64_of_string-literal : (s : List ℕ) → int64_of_string s ≡ literal 64 s
unfolding int64_of_string parse_intnat check_range
int64_of_string-literal s =
    let same : int64_of_string s ≡ parse_intnat 64 s = refl in
    same ∙ parse_intnat-literal 64 s (omega arith) (omega arith)
