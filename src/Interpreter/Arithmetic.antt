-- ===== src/Interpreter/Arithmetic.antt =====
-- runtime/interp.c: integer constants, arithmetic and comparisons, on tagged words.
use Prim.Native.Nat.{bit_and, bit_or, bit_xor}
use trav_lang.Common.{
  ℕ, ◌+◌, ◌-◌, ◌*◌, ◌/◌, ◌%◌, ◌^◌, Bool, false, not, Option, none, some, ◌>>=◌, get_elem?, leb, ltb,
  ◌==◌, if◌then◌else◌,
}
use trav_lang.Common.Int.{ℤ, pos, negsuc}
use trav_lang.Integers.Words.{Division, yields, quotient, remainder}
use trav_lang.Interpreter.Opcodes.{
  IntOp, const0, const1, const2, const3, constint, pushconst0, pushconst1, pushconst2, pushconst3,
  pushconstint, negint, addint, subint, mulint, andint, orint, xorint, lslint, lsrint, asrint, eq,
  neq, ltint, leint, gtint, geint, ultint, ugeint, offsetint, offsetref, isint,
}
use trav_lang.Interpreter.Blocks.{with_operand}
use trav_lang.Interpreter.{
  Value, word, atom, code, block, State, val_unit, val_bool, val_long, field, set_field, pushed,
  popped,
}

-- `accu = Val_int(z)`.
unfoldable pub constant : ℤ → State → Option State
unfolding val_long
constant z s = some (record s { accu = word (val_long z) })

-- `(intnat) accu >> 1`, as a word.
abbrev pub untag : ℕ → ℕ
untag w = if ltb w (2 ^ 63) then w / 2 else 2 ^ 63 + w / 2

-- `Val_long` of a word.
abbrev pub retag : ℕ → ℕ
retag w = (2 * w + 1) % 2 ^ 64

-- The operations on the words in `accu` and in `sp[0]`.
unfoldable pub add_tagged : ℕ → ℕ → ℕ
add_tagged a b = (a + b + (2 ^ 64 - 1)) % 2 ^ 64

unfoldable pub sub_tagged : ℕ → ℕ → ℕ
sub_tagged a b = (a + (2 ^ 64 - b) + 1) % 2 ^ 64

unfoldable pub mul_tagged : ℕ → ℕ → ℕ
mul_tagged a b = retag (untag a * untag b)

unfoldable pub neg_tagged : ℕ → ℕ
neg_tagged a = (2 + (2 ^ 64 - a)) % 2 ^ 64

unfoldable pub negated : Value → Option Value
unfolding neg_tagged
negated (word a) = some (word (neg_tagged a))
negated _ = none

unfoldable pub lsl_tagged : ℕ → ℕ → ℕ
lsl_tagged a b = ((a + (2 ^ 64 - 1)) % 2 ^ 64 * 2 ^ untag b + 1) % 2 ^ 64

unfoldable pub lsr_tagged : ℕ → ℕ → ℕ
lsr_tagged a b = bit_or (a / 2 ^ untag b) 1

-- The sign is copied in from the left.
unfoldable pub asr_tagged : ℕ → ℕ → ℕ
asr_tagged a b =
    if ltb a (2 ^ 63)
    then bit_or (a / 2 ^ untag b) 1
    else bit_or (2 ^ 64 - 1 - (2 ^ 64 - 1 - a) / 2 ^ untag b) 1

-- `(intnat) a < (intnat) b`: the top bit turned over.
unfoldable pub signed_lt : ℕ → ℕ → Bool
signed_lt a b = ltb ((a + 2 ^ 63) % 2 ^ 64) ((b + 2 ^ 63) % 2 ^ 64)

-- The comparison of two values for equality: values of different kinds differ.
unfoldable pub same_value : Value → Value → Bool
same_value (word a) (word b) = a == b
same_value (atom a) (atom b) = a == b
same_value (code a) (code b) = a == b
same_value (block a i) (block b j) = if a == b then i == j else false
same_value _ _ = false

-- The operations that take `*sp++` too. Those on words are left out for pointers.
abbrev pub of_words : (ℕ → ℕ → Option Value) → Value → Value → Option Value
of_words f (word a) (word b) = f a b
of_words f _ _ = none

unfoldable pub binary : (Value → Value → Option Value) → State → Option State
unfolding popped
binary f s = do
  v ← get_elem? s.sp 0
  rest ← popped 1 s.sp
  r ← f s.accu v
  some (record s { accu = r; sp = rest })

abbrev pub on_words : (ℕ → ℕ → ℕ) → State → Option State
on_words f s = binary (of_words (λ a b. some (word (f a b)))) s

abbrev pub test_words : (ℕ → ℕ → Bool) → State → Option State
test_words f s = binary (of_words (λ a b. some (val_bool (f a b)))) s

-- A division that C leaves undefined is a fault.
abbrev pub retagged : Division → Option ℕ
retagged (yields q) = some (retag q)
retagged _ = none

unfoldable pub div_tagged : ℕ → ℕ → Option ℕ
unfolding quotient
div_tagged a b = retagged (quotient 64 (untag a) (untag b))

unfoldable pub mod_tagged : ℕ → ℕ → Option ℕ
unfolding remainder
mod_tagged a b = retagged (remainder 64 (untag a) (untag b))

-- `accu += z << 1`, and the same on field 0, for `z` of 31 bits.
abbrev pub plus_twice : ℤ → Value → Option Value
plus_twice (pos n) (word w) = some (word ((w + 2 * n) % 2 ^ 64))
plus_twice (negsuc n) (word w) = some (word ((w + (2 ^ 64 - 2 * (n + 1) % 2 ^ 64)) % 2 ^ 64))
plus_twice z _ = none

unfoldable pub offset_int : ℤ → State → Option State
offset_int z s = do v ← plus_twice z s.accu; some (record s { accu = v })

unfoldable pub offset_ref : ℤ → State → Option State
unfolding field set_field
offset_ref z s = do
  v ← field s.heap s.accu 0
  v' ← plus_twice z v
  heap ← set_field s.heap s.accu 0 v'
  some (record s { heap = heap; accu = val_unit })

-- `Val_long(accu & 1)`: pointers are even.
abbrev pub is_int : Value → Value
is_int (word w) = word (2 * (w % 2) + 1)
is_int _ = word 1

unfoldable pub exec_int : IntOp → State → Option State
unfolding constant add_tagged sub_tagged mul_tagged negated lsl_tagged lsr_tagged asr_tagged
    signed_lt same_value binary offset_int offset_ref with_operand
exec_int const0 s = constant (pos 0) s
exec_int const1 s = constant (pos 1) s
exec_int const2 s = constant (pos 2) s
exec_int const3 s = constant (pos 3) s
exec_int pushconst0 s = constant (pos 0) (pushed s)
exec_int pushconst1 s = constant (pos 1) (pushed s)
exec_int pushconst2 s = constant (pos 2) (pushed s)
exec_int pushconst3 s = constant (pos 3) (pushed s)
exec_int pushconstint s = with_operand constant (pushed s)
exec_int constint s = with_operand constant s
exec_int negint s = do v ← negated s.accu; some (record s { accu = v })
exec_int addint s = on_words add_tagged s
exec_int subint s = on_words sub_tagged s
exec_int mulint s = on_words mul_tagged s
exec_int andint s = on_words bit_and s
exec_int orint s = on_words bit_or s
exec_int xorint s = on_words (λ a b. bit_or (bit_xor a b) 1) s
exec_int lslint s = on_words lsl_tagged s
exec_int lsrint s = on_words lsr_tagged s
exec_int asrint s = on_words asr_tagged s
exec_int eq s = binary (λ a b. some (val_bool (same_value a b))) s
exec_int neq s = binary (λ a b. some (val_bool (not (same_value a b)))) s
exec_int ltint s = test_words signed_lt s
exec_int leint s = test_words (λ a b. not (signed_lt b a)) s
exec_int gtint s = test_words (λ a b. signed_lt b a) s
exec_int geint s = test_words (λ a b. not (signed_lt a b)) s
exec_int ultint s = test_words ltb s
exec_int ugeint s = test_words (λ a b. leb b a) s
exec_int offsetint s = with_operand offset_int s
exec_int offsetref s = with_operand offset_ref s
exec_int isint s = some (record s { accu = is_int s.accu })
