-- ===== src/Interpreter/Control.antt =====
-- runtime/interp.c: branches, exceptions and calls of C functions.
use trav_lang.Common.{
  ℕ, zero, suc, ◌+◌, ◌-◌, ◌%◌, ◌^◌, Bool, true, false, not, List, ◌∷◌, Option, none, some, ◌>>=◌,
  get_elem?, length, leb, ltb, ◌==◌, drop, take, if◌then◌else◌,
}
use trav_lang.Common.Int.{ℤ, pos, negsuc, ltb_ℤ, eqb_ℤ}
use trav_lang.Interpreter.Opcodes.{
  ControlOp, branch, branchif, branchifnot, switch, boolnot, beq, bneq, bltint, bleint, bgtint,
  bgeint, bultint, bugeint, pushtrap, poptrap, raise_notrace, reraise, raise, divint, modint,
  check_signals, c_call1, c_call2, c_call3, c_call4, c_call5, c_calln, stop,
}
use trav_lang.Interpreter.Arithmetic.{same_value, untag, div_tagged, mod_tagged}
use trav_lang.Interpreter.{
  Value, word, atom, code, block, Block, State, val_bool, val_long, long_val, peek, count, offset,
  advance, pushed, popped,
}

-- What an instruction leads to: the next one, the value of STOP, or an exception that nothing traps.
pub data Outcome : Type 0 where
  next : State → Outcome
  stopped : Value → State → Outcome
  uncaught : Value → State → Outcome
  fault : Outcome

abbrev pub outcome : Option State → Outcome
outcome none = fault
outcome (some s) = next s

-- What a C function does: it returns or raises a value, on a heap that it may have changed.
pub data Reply : Type 0 where
  returned : Value → List Block → Reply
  raised : Value → List Block → Reply

-- `pc += *pc`, and the branch not taken.
unfoldable pub jump : State → Option State
unfolding peek
jump s = do z ← peek s 0; pc ← offset s.pc z; some (record s { pc = pc })

abbrev pub jump_if : Bool → State → Option State
jump_if true s = jump s
jump_if false s = some (advance 1 s)

-- `if (*pc++ tst (typ) Long_val(accu)) pc += *pc; else pc++;`
unfoldable pub compare_jump : (ℤ → ℤ → Bool) → State → Option State
unfolding peek long_val jump
compare_jump tst s = do
  z ← peek s 0
  elim s.accu [ word w ↦ jump_if (tst z (long_val w)) (advance 1 s) | _ ↦ none ]

-- A signed number, read as unsigned: the conversion of the operand to `uintnat`.
abbrev pub unsigned_lt : ℤ → ℤ → Bool
unsigned_lt (pos a) (pos b) = ltb a b
unsigned_lt (pos a) (negsuc b) = true
unsigned_lt (negsuc a) (pos b) = false
unsigned_lt (negsuc a) (negsuc b) = ltb b a

-- `Tag_val(accu)` of a pointer to the start of a block.
unfoldable pub tag_val : List Block → Value → Option ℕ
tag_val heap (block a zero) = get_elem? heap a >>= (λ b. some b.tag)
tag_val heap (block a (suc j)) = some 249
tag_val heap (atom t) = some t
tag_val heap _ = none

-- The jump tables follow the word of their sizes: that of the integers, then that of the blocks.
unfoldable pub switch_index : ℕ → State → Option ℕ
unfolding long_val tag_val
switch_index sizes s = elim s.accu [
  | word w ↦ (elim (long_val w) [ pos i ↦ some i | negsuc i ↦ none ])
  | other ↦ (tag_val s.heap other >>= (λ t. some (sizes % 2 ^ 16 + t)))
]

-- `uint32_t sizes = *pc++`.
abbrev pub to_uint32 : ℤ → ℕ
to_uint32 (pos n) = n % 2 ^ 32
to_uint32 (negsuc n) = 2 ^ 32 - 1 - n % 2 ^ 32

unfoldable pub switch_jump : State → Option State
unfolding switch_index peek
switch_jump s = do
  sizes ← peek s 0
  i ← switch_index (to_uint32 sizes) s
  z ← peek s (1 + i)
  pc ← offset (s.pc + 1) z
  some (record s { pc = pc })

-- `Val_not(accu)`, which is `Val_false + Val_true - accu`.
unfoldable pub bool_not : State → Option State
bool_not s = elim s.accu [
  | word w ↦ some (record s { accu = word ((4 + (2 ^ 64 - w)) % 2 ^ 64) })
  | _ ↦ none
]

-- `sp - Stack_high`, for a stack with `n` words in use.
abbrev pub below_top : ℕ → ℤ
below_top zero = pos 0
below_top (suc n) = negsuc n

unfoldable pub push_trap : State → Option State
unfolding peek val_long
push_trap s = do
  z ← peek s 0
  handler ← offset s.pc z
  let sp : List Value =
      code handler
      ∷ word (val_long s.trap_sp_off)
      ∷ s.env
      ∷ word (val_long (pos s.extra_args))
      ∷ s.sp
  some (record s { sp = sp; trap_sp_off = below_top (length sp); pc = s.pc + 1 })

abbrev pub as_long : Value → Option ℤ
as_long (word w) = some (long_val w)
as_long _ = none

unfoldable pub pop_trap : State → Option State
unfolding long_val popped
pop_trap s = do
  link ← get_elem? s.sp 1 >>= as_long
  rest ← popped 4 s.sp
  some (record s { trap_sp_off = link; sp = rest })

-- `raise_notrace` with a trap: its frame is the last `depth` words of the stack.
abbrev pub resume_at : Value → ℤ → Value → ℤ → List Value → State → Option State
resume_at (code pc) link env (pos extra) rest s =
    some (record s { pc = pc; trap_sp_off = link; env = env; extra_args = extra; sp = rest })
resume_at _ link env _ rest s = none

unfoldable pub resume_frame : List Value → State → Option State
unfolding popped long_val
resume_frame frame s = do
  handler ← get_elem? frame 0
  link ← get_elem? frame 1 >>= as_long
  env ← get_elem? frame 2
  extra ← get_elem? frame 3 >>= as_long
  rest ← popped 4 frame
  resume_at handler link env extra rest s

unfoldable pub unwind : ℕ → State → Option State
unfolding resume_frame
unwind depth s =
    if leb depth (length s.sp) then resume_frame (drop (length s.sp - depth) s.sp) s else none

unfoldable pub raise_value : State → Outcome
unfolding unwind
raise_value s = elim s.trap_sp_off [
  | pos zero ↦ fault
  | pos (suc n) ↦ uncaught s.accu s
  | negsuc n ↦ outcome (unwind (suc n) s)
]

-- After a C function: its arguments go, or its exception is raised.
abbrev pub after_call : ℕ → State → Reply → Outcome
after_call n s (returned v heap) = outcome (
    popped n s.sp >>= (λ rest. some (record s { accu = v; heap = heap; sp = rest; pc = s.pc + 1 })))
after_call n s (raised v heap) = raise_value (record s { accu = v; heap = heap })

abbrev pub as_bits : Value → Option ℕ
as_bits (word w) = some w
as_bits _ = none

abbrev pub or_fault : {A : Type 0} → Option A → (A → Outcome) → Outcome
or_fault none f = fault
or_fault (some a) f = f a

-- DIVINT and MODINT, with the exception that `caml_raise_zero_divide` raises.
unfoldable pub divide : Value → (ℕ → ℕ → Option ℕ) → State → Outcome
unfolding popped raise_value
divide zero_divide f s = or_fault (get_elem? s.sp 0 >>= as_bits) (λ b.
    or_fault (as_bits s.accu) (λ a. or_fault (popped 1 s.sp) (λ rest.
      if untag b == 0
      then raise_value (record s { accu = zero_divide; sp = rest })
      else or_fault (f a b) (λ q. next (record s { accu = word q; sp = rest })))))

-- The C functions by their numbers, with the arguments they are given and the heap.
module _ (primitive : ℕ → List Value → List Block → Reply) where
  -- `accu` and `n` further arguments.
  unfoldable pub c_call : ℕ → State → Outcome
  unfolding count popped raise_value
  c_call n s = or_fault (count s 0) (λ p.
      or_fault (popped n s.sp) (λ _. after_call n s (primitive p (s.accu ∷ take n s.sp) s.heap)))

  unfoldable pub c_call_many : ℕ → State → Outcome
  unfolding count popped raise_value
  c_call_many nargs s = or_fault (count s 0) (λ p.
      or_fault (popped nargs s.sp) (λ _. after_call nargs s (primitive p (take nargs s.sp) s.heap)))

  -- `zero_divide` is the exception of a division by zero.
  unfoldable pub exec_control : Value → ControlOp → State → Outcome
  unfolding jump compare_jump switch_jump bool_not push_trap pop_trap raise_value divide c_call
      c_call_many count same_value div_tagged mod_tagged
  exec_control zero_divide branch s = outcome (jump s)
  exec_control zero_divide branchif s =
      outcome (jump_if (not (same_value s.accu (val_bool false))) s)
  exec_control zero_divide branchifnot s = outcome (jump_if (same_value s.accu (val_bool false)) s)
  exec_control zero_divide switch s = outcome (switch_jump s)
  exec_control zero_divide boolnot s = outcome (bool_not s)
  exec_control zero_divide beq s = outcome (compare_jump eqb_ℤ s)
  exec_control zero_divide bneq s = outcome (compare_jump (λ a b. not (eqb_ℤ a b)) s)
  exec_control zero_divide bltint s = outcome (compare_jump ltb_ℤ s)
  exec_control zero_divide bleint s = outcome (compare_jump (λ a b. not (ltb_ℤ b a)) s)
  exec_control zero_divide bgtint s = outcome (compare_jump (λ a b. ltb_ℤ b a) s)
  exec_control zero_divide bgeint s = outcome (compare_jump (λ a b. not (ltb_ℤ a b)) s)
  exec_control zero_divide bultint s = outcome (compare_jump unsigned_lt s)
  exec_control zero_divide bugeint s = outcome (compare_jump (λ a b. not (unsigned_lt a b)) s)
  exec_control zero_divide pushtrap s = outcome (push_trap s)
  exec_control zero_divide poptrap s = outcome (pop_trap s)
  exec_control zero_divide raise_notrace s = raise_value s
  exec_control zero_divide reraise s = raise_value s
  exec_control zero_divide raise s = raise_value s
  exec_control zero_divide divint s = divide zero_divide div_tagged s
  exec_control zero_divide modint s = divide zero_divide mod_tagged s
  exec_control zero_divide check_signals s = next s
  exec_control zero_divide c_call1 s = c_call 0 s
  exec_control zero_divide c_call2 s = c_call 1 s
  exec_control zero_divide c_call3 s = c_call 2 s
  exec_control zero_divide c_call4 s = c_call 3 s
  exec_control zero_divide c_call5 s = c_call 4 s
  exec_control zero_divide c_calln s =
      or_fault (count s 0) (λ nargs. c_call_many nargs (advance 1 (pushed s)))
  exec_control zero_divide stop s = stopped s.accu s
