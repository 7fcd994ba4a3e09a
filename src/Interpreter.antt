-- ===== src/Interpreter.antt =====
-- runtime/interp.c: the state of `caml_interprete`, and what its instructions share.
-- A stack is a list with `sp[0]` at its head, and an address of the heap is the number of a block: nothing
-- is collected. A value that is no pointer is its tagged word of 64 bits. A read or write outside a block,
-- the stack or the code, which the C code does not check, is `none`. One fiber runs, with the trace, the
-- debugger, backtraces and pending signals off, and the stack is large enough.
pub mod Opcodes
pub mod Access
pub mod Blocks
pub mod Calls
pub mod Arithmetic
pub mod Control
pub mod Methods
pub mod Machine
pub mod Compact
pub mod Currying
pub mod Traps
pub mod Tagged
pub mod Search
pub mod Lookup
use trav_lang.Common.{
  ℕ, zero, suc, ◌+◌, ◌-◌, ◌*◌, ◌/◌, ◌%◌, ◌^◌, ◌++◌, Bool, true, false, List, [], ◌∷◌, Option, none,
  some, ◌>>=◌, ltb, leb, ◌==◌, if◌then◌else◌, length, get_elem?, take, drop, store,
}
use trav_lang.Common.Int.{ℤ, pos, negsuc}
use trav_lang.Interpreter.Opcodes.{Opcode}

-- A `value`: a word that is no pointer, `Atom(tag)`, a pointer into the code, or one to a field of a block.
pub data Value : Type 0 where
  word : ℕ → Value
  atom : ℕ → Value
  code : ℕ → Value
  block : ℕ → ℕ → Value

pub record Block : Type 0 where
  pub tag : ℕ
  pub fields : List Value

-- `Val_long` and `Long_val`.
unfoldable pub val_long : ℤ → ℕ
val_long (pos n) = (2 * n + 1) % 2 ^ 64
val_long (negsuc n) = 2 ^ 64 - 1 - (2 * n) % 2 ^ 64

unfoldable pub long_val : ℕ → ℤ
long_val w = if ltb w (2 ^ 63) then pos (w / 2) else negsuc ((2 ^ 64 - 1 - w) / 2)

abbrev pub val_unit : Value
val_unit = word 1

abbrev pub val_bool : Bool → Value
val_bool true = word 3
val_bool false = word 1

-- A word of the code.
pub data Cell : Type 0 where
  opcode : Opcode → Cell
  operand : ℤ → Cell

-- The registers, the heap, and the program, which keeps the caches of methods.
pub record State : Type 0 where
  pub program : List Cell
  pub pc : ℕ
  pub accu : Value
  pub sp : List Value
  pub env : Value
  pub extra_args : ℕ
  pub trap_sp_off : ℤ
  pub global_data : List Value
  pub heap : List Block

-- `Field(v, i)`, with `i` counted from the field that `v` points to.
unfoldable pub field : List Block → Value → ℕ → Option Value
field heap (block a j) i = do b ← get_elem? heap a; get_elem? b.fields (j + i)
field heap _ i = none

unfoldable pub set_field : List Block → Value → ℕ → Value → Option (List Block)
set_field heap (block a j) i v = do
  b ← get_elem? heap a
  fields ← store b.fields (j + i) v
  store heap a (record b { fields = fields })
set_field heap _ i v = none

-- A new block stands behind the others.
abbrev pub alloc : ℕ → List Value → State → State
alloc tag fields s = record s {
  accu = block (length s.heap) 0;
  heap = s.heap ++ (record { tag = tag; fields = fields } ∷ []);
}

-- `*pc`, where an operand has to be, and a count.
abbrev pub operand_of : Option Cell → Option ℤ
operand_of (some (operand z)) = some z
operand_of _ = none

unfoldable pub peek : State → ℕ → Option ℤ
peek s i = operand_of (get_elem? s.program (s.pc + i))

abbrev pub natural : ℤ → Option ℕ
natural (pos n) = some n
natural (negsuc n) = none

unfoldable pub count : State → ℕ → Option ℕ
unfolding peek
count s i = peek s i >>= natural

-- `pc + z`.
abbrev pub offset : ℕ → ℤ → Option ℕ
offset pc (pos n) = some (pc + n)
offset pc (negsuc n) = if ltb n pc then some (pc - n - 1) else none

-- `pc += k`, `*--sp = accu`, and `sp += n`.
abbrev pub advance : ℕ → State → State
advance k s = record s { pc = s.pc + k }

abbrev pub pushed : State → State
pushed s = record s { sp = s.accu ∷ s.sp }

unfoldable pub popped : ℕ → List Value → Option (List Value)
popped n sp = if leb n (length sp) then some (drop n sp) else none

-- `Code_val(v)`.
unfoldable pub code_val : List Block → Value → Option ℕ
unfolding field
code_val heap v = field heap v 0 >>= (λ c. elim c [ code pc ↦ some pc | _ ↦ none ])

-- `pc = Code_val(accu); env = accu`, and the number of further arguments.
unfoldable pub enter_closure : ℕ → State → Option State
unfolding code_val
enter_closure extra s = do
  pc ← code_val s.heap s.accu
  some (record s { pc = pc; env = s.accu; extra_args = extra })

-- `Make_closinfo(0, delta)`, and the tags of closures.
abbrev pub closinfo : ℕ → Value
closinfo delta = word (2 * delta + 1)

abbrev pub closure_tag : ℕ
closure_tag = 247

abbrev pub infix_tag : ℕ
infix_tag = 249
