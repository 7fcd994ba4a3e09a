-- ===== src/Interpreter/Tagged.antt =====
-- runtime/interp.c: arithmetic on tagged words is that on integers, modulo 2 ^ 63.
use trav_lang.Common.{
  ℕ, suc, ◌≡◌, refl, ap, List, ◌∷◌, Bool, true, not, Option, some, length, leb, arith,
}
use trav_lang.Common.Int.{ℤ, pos, negsuc, ◌+ℤ◌, ◌-ℤ◌, ltb_ℤ, eqb_ℤ}
use trav_lang.Interpreter.Opcodes.{negint, addint, subint, eq, neq, ltint, leint, gtint, geint}
use trav_lang.Interpreter.{Value, word, State, val_long, val_bool, popped}
use trav_lang.Interpreter.Arithmetic.{
  exec_int, add_tagged, sub_tagged, neg_tagged, negated, signed_lt, same_value, binary, on_words,
  test_words,
}
use trav_lang.Interpreter.Traps.{IsLong}

add_tagged-sum : (x y : ℤ) → add_tagged (val_long x) (val_long y) ≡ val_long (x +ℤ y)
unfolding add_tagged val_long ◌+ℤ◌
add_tagged-sum x y = ground arith

sub_tagged-difference : (x y : ℤ) → sub_tagged (val_long x) (val_long y) ≡ val_long (x -ℤ y)
unfolding sub_tagged val_long ◌-ℤ◌
sub_tagged-difference x y = ground arith

neg_tagged-negation : (x : ℤ) → neg_tagged (val_long x) ≡ val_long (pos 0 -ℤ x)
unfolding neg_tagged val_long ◌-ℤ◌
neg_tagged-negation x = ground arith

signed_lt-order : (x y : ℤ) → IsLong x → IsLong y → signed_lt (val_long x) (val_long y) ≡ ltb_ℤ x y
unfolding signed_lt val_long
signed_lt-order (pos a) (pos b) h k = ground arith
signed_lt-order (pos a) (negsuc b) h k = ground arith
signed_lt-order (negsuc a) (pos b) h k = ground arith
signed_lt-order (negsuc a) (negsuc b) h k = ground arith

same_value-equality :
    (x y : ℤ) → IsLong x → IsLong y → same_value (word (val_long x)) (word (val_long y)) ≡ eqb_ℤ x y
unfolding same_value val_long
same_value-equality (pos a) (pos b) h k = ground arith
same_value-equality (pos a) (negsuc b) h k = ground arith
same_value-equality (negsuc a) (pos b) h k = ground arith
same_value-equality (negsuc a) (negsuc b) h k = ground arith

-- The instruction has replaced `accu`, or `accu` and `sp[0]`, by its result.
abbrev pub result : Value → List Value → State → Option State
result v rest s = some (record s { accu = v; sp = rest })

binary-result :
    (f : Value → Value → Option Value) (a b v : Value) (rest : List Value) (s : State)
    → s.accu ≡ a
    → s.sp ≡ b ∷ rest
    → f a b ≡ some v
    → binary f s ≡ result v rest s
unfolding binary popped
binary-result f a b v rest s e e' h =
    let l : leb 1 (suc (length rest)) ≡ true = ground arith in simp (e', e, h, l) refl

words-result :
    (f : ℕ → ℕ → ℕ) (a b c : ℕ) (rest : List Value) (s : State)
    → s.accu ≡ word a
    → s.sp ≡ word b ∷ rest
    → f a b ≡ c
    → on_words f s ≡ result (word c) rest s
words-result f a b c rest s e e' h =
    binary-result _ (word a) (word b) (word c) rest s e e' (ap (λ w. some (word w)) h)

test-result :
    (f : ℕ → ℕ → Bool) (a b : ℕ) (c : Bool) (rest : List Value) (s : State)
    → s.accu ≡ word a
    → s.sp ≡ word b ∷ rest
    → f a b ≡ c
    → test_words f s ≡ result (val_bool c) rest s
test-result f a b c rest s e e' h =
    binary-result _ (word a) (word b) (val_bool c) rest s e e' (ap (λ w. some (val_bool w)) h)

-- On tagged integers, ADDINT, SUBINT and NEGINT give the tagged sum, difference and negation, whatever the
-- integers, so the results wrap around with the words.
pub arithmetic-integers :
    (x y : ℤ) (rest : List Value) (s : State)
    → s.accu ≡ word (val_long x)
    → s.sp ≡ word (val_long y) ∷ rest
    → (exec_int addint s ≡ result (word (val_long (x +ℤ y))) rest s)
      × (exec_int subint s ≡ result (word (val_long (x -ℤ y))) rest s)
      × (exec_int negint s ≡ some (record s { accu = word (val_long (pos 0 -ℤ x)) }))
unfolding exec_int negated
arithmetic-integers x y rest s e e' = (
  words-result add_tagged (val_long x) (val_long y) _ rest s e e' (add_tagged-sum x y),
  words-result sub_tagged (val_long x) (val_long y) _ rest s e e' (sub_tagged-difference x y),
  simp (e, neg_tagged-negation x) refl,
)

-- On tagged integers of 63 bits, EQ, NEQ, LTINT, LEINT, GTINT and GEINT compare the integers.
pub comparisons-integers :
    (x y : ℤ) (rest : List Value) (s : State)
    → IsLong x
    → IsLong y
    → s.accu ≡ word (val_long x)
    → s.sp ≡ word (val_long y) ∷ rest
    → (exec_int eq s ≡ result (val_bool (eqb_ℤ x y)) rest s)
      × (exec_int neq s ≡ result (val_bool (not (eqb_ℤ x y))) rest s)
      × (exec_int ltint s ≡ result (val_bool (ltb_ℤ x y)) rest s)
      × (exec_int leint s ≡ result (val_bool (not (ltb_ℤ y x))) rest s)
      × (exec_int gtint s ≡ result (val_bool (ltb_ℤ y x)) rest s)
      × (exec_int geint s ≡ result (val_bool (not (ltb_ℤ x y))) rest s)
unfolding exec_int
comparisons-integers x y rest s h k e e' =
    let a = val_long x in
    let b = val_long y in
    let same = same_value-equality x y h k in
    let less = signed_lt-order x y h k in
    let more = signed_lt-order y x k h in
    let test_eq : Value → Value → Option Value = λ v v'. some (val_bool (same_value v v')) in
    let test_neq : Value → Value → Option Value = λ v v'. some (val_bool (not (same_value v v'))) in
    (
      binary-result test_eq (word a) (word b) _ rest s e e' (ap (λ t. some (val_bool t)) same),
      binary-result test_neq (word a) (word b) _ rest s e e'
          (ap (λ t. some (val_bool (not t))) same),
      test-result signed_lt a b _ rest s e e' less,
      test-result _ a b _ rest s e e' (ap not more),
      test-result _ a b _ rest s e e' more,
      test-result _ a b _ rest s e e' (ap not less),
    )
