-- ===== src/Interpreter/Blocks.antt =====
-- runtime/interp.c: closures of a recursive group, global variables, blocks, fields and arrays.
use trav_lang.Common.{
  ℕ, zero, suc, ◌%◌, ◌∷◌, Option, none, some, ◌>>=◌, get_elem?, store, length, take,
}
use trav_lang.Common.Int.{ℤ, pos, negsuc}
use trav_lang.Interpreter.Opcodes.{
  BlockOp, offsetclosurem3, offsetclosure0, offsetclosure3, offsetclosure, pushoffsetclosurem3,
  pushoffsetclosure0, pushoffsetclosure3, pushoffsetclosure, getglobal, pushgetglobal,
  getglobalfield, pushgetglobalfield, setglobal, atom0, pushatom0, pushatom, makeblock, makeblock1,
  makeblock2, makeblock3, getfield0, getfield1, getfield2, getfield3, getfield, setfield0,
  setfield1, setfield2, setfield3, setfield, vectlength, getvectitem, setvectitem,
}
use trav_lang.Interpreter.Access.{with_count}
use trav_lang.Interpreter.{
  Value, word, code, block, State, val_unit, val_long, long_val, field, set_field, alloc, peek,
  count, offset, advance, pushed, popped,
}

-- `env + z * sizeof(value)`, into the block that `env` points into; with 0 it is `env`, whatever that is.
abbrev pub offset_value : ℤ → Value → Option Value
offset_value (pos zero) v = some v
offset_value z (block a j) = offset j z >>= (λ k. some (block a k))
offset_value z v = none

-- `accu = env + z * sizeof(value)`.
unfoldable pub offset_closure : ℤ → State → Option State
offset_closure z s = do v ← offset_value z s.env; some (record s { accu = v })

unfoldable pub global : ℕ → State → Option State
global n s = do v ← get_elem? s.global_data n; some (record s { accu = v })

unfoldable pub set_global : ℕ → State → Option State
set_global n s = do
  globals ← store s.global_data n s.accu
  some (record s { global_data = globals; accu = val_unit })

-- `accu = Field(accu, n)`, and `caml_modify(&Field(accu, n), *sp++)`.
unfoldable pub get_field : ℕ → State → Option State
unfolding field
get_field n s = do v ← field s.heap s.accu n; some (record s { accu = v })

unfoldable pub modify_field : ℕ → State → Option State
unfolding set_field popped
modify_field n s = do
  v ← get_elem? s.sp 0
  heap ← set_field s.heap s.accu n v
  rest ← popped 1 s.sp
  some (record s { heap = heap; sp = rest; accu = val_unit })

-- A block of `accu` and the `wosize - 1` values on the stack. The field 0 is written whatever the size.
unfoldable pub make_block : ℕ → ℕ → State → Option State
unfolding popped
make_block zero tag s = none
make_block (suc n) tag s = do
  rest ← popped n s.sp
  some (record (alloc (tag % 256) (s.accu ∷ take n s.sp) s) { sp = rest })

unfoldable pub with_operand : (ℤ → State → Option State) → State → Option State
unfolding peek
with_operand f s = do z ← peek s 0; f z (advance 1 s)

unfoldable pub with_counts : (ℕ → ℕ → State → Option State) → State → Option State
unfolding count
with_counts f s = do m ← count s 0; n ← count s 1; f m n (advance 2 s)

unfoldable pub global_field : ℕ → ℕ → State → Option State
unfolding global get_field
global_field m n s = do s' ← global m s; get_field n s'

abbrev pub get_atom : ℕ → State → Option State
get_atom t s = some (record s { accu = Value.atom t })

-- `Long_val(sp[0])`, where it has to be an index.
unfoldable pub as_index : Value → Option ℕ
unfolding long_val
as_index (word w) = elim (long_val w) [ pos i ↦ some i | negsuc i ↦ none ]
as_index _ = none

abbrev pub index : State → Option ℕ
index s = get_elem? s.sp 0 >>= as_index

unfoldable pub vect_length : State → Option State
unfolding val_long
vect_length s = elim s.accu [
  | block a zero ↦ (do
    b ← get_elem? s.heap a
    some (record s { accu = word (val_long (pos (length b.fields))) }))
  | block a (suc j) ↦ none
  | word w ↦ none
  | Value.atom t ↦ some (record s { accu = word 1 })
  | code p ↦ none
]

unfoldable pub get_item : State → Option State
unfolding as_index field popped
get_item s = do
  i ← index s
  v ← field s.heap s.accu i
  rest ← popped 1 s.sp
  some (record s { accu = v; sp = rest })

unfoldable pub set_item : State → Option State
unfolding as_index set_field popped
set_item s = do
  i ← index s
  v ← get_elem? s.sp 1
  heap ← set_field s.heap s.accu i v
  rest ← popped 2 s.sp
  some (record s { heap = heap; accu = val_unit; sp = rest })

unfoldable pub exec_block : BlockOp → State → Option State
unfolding offset_closure global set_global get_field modify_field make_block with_operand with_count
    with_counts global_field vect_length get_item set_item
exec_block pushoffsetclosure s = with_operand offset_closure (pushed s)
exec_block offsetclosure s = with_operand offset_closure s
exec_block pushoffsetclosurem3 s = offset_closure (negsuc 2) (pushed s)
exec_block offsetclosurem3 s = offset_closure (negsuc 2) s
exec_block pushoffsetclosure0 s = some (record (pushed s) { accu = s.env })
exec_block offsetclosure0 s = some (record s { accu = s.env })
exec_block pushoffsetclosure3 s = offset_closure (pos 3) (pushed s)
exec_block offsetclosure3 s = offset_closure (pos 3) s
exec_block pushgetglobal s = with_count global (pushed s)
exec_block getglobal s = with_count global s
exec_block pushgetglobalfield s = with_counts global_field (pushed s)
exec_block getglobalfield s = with_counts global_field s
exec_block setglobal s = with_count set_global s
exec_block pushatom0 s = get_atom 0 (pushed s)
exec_block atom0 s = get_atom 0 s
exec_block pushatom s = with_count get_atom (pushed s)
exec_block BlockOp.atom s = with_count get_atom s
exec_block makeblock s = with_counts make_block s
exec_block makeblock1 s = with_count (make_block 1) s
exec_block makeblock2 s = with_count (make_block 2) s
exec_block makeblock3 s = with_count (make_block 3) s
exec_block getfield0 s = get_field 0 s
exec_block getfield1 s = get_field 1 s
exec_block getfield2 s = get_field 2 s
exec_block getfield3 s = get_field 3 s
exec_block getfield s = with_count get_field s
exec_block setfield0 s = modify_field 0 s
exec_block setfield1 s = modify_field 1 s
exec_block setfield2 s = modify_field 2 s
exec_block setfield3 s = modify_field 3 s
exec_block setfield s = with_count modify_field s
exec_block vectlength s = vect_length s
exec_block getvectitem s = get_item s
exec_block setvectitem s = set_item s
