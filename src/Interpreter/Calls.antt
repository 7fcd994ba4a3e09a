-- ===== src/Interpreter/Calls.antt =====
-- runtime/interp.c: function application, and the making of closures.
use trav_lang.Common.{
  ℕ, zero, suc, ◌+◌, ◌-◌, ◌*◌, List, [], ◌∷◌, ◌++◌, Option, none, some, ◌>>=◌, get_elem?, length,
  leb, ltb, drop, take, if◌then◌else◌,
}
use trav_lang.Common.Int.{pos, negsuc}
use trav_lang.Interpreter.Opcodes.{
  CallOp, push_retaddr, apply, apply1, apply2, apply3, appterm, appterm1, appterm2, appterm3,
  return, restart, grab, closure, closurerec,
}
use trav_lang.Interpreter.Access.{with_count}
use trav_lang.Interpreter.Blocks.{with_counts}
use trav_lang.Interpreter.{
  Value, word, code, block, State, val_long, long_val, field, alloc, peek, offset, pushed, popped,
  enter_closure, closinfo, closure_tag, infix_tag,
}

abbrev frame : ℕ → State → List Value
frame pc s = code pc ∷ s.env ∷ word (val_long (pos s.extra_args)) ∷ []

unfoldable pub push_frame : State → Option State
unfolding val_long peek
push_frame s = do
  z ← peek s 0
  target ← offset s.pc z
  some (record s { sp = frame target s ++ s.sp; pc = s.pc + 1 })

-- `extra_args = n - 1` for `n` arguments, and at least one.
unfoldable pub apply_to : ℕ → State → Option State
unfolding enter_closure
apply_to zero s = none
apply_to (suc n) s = enter_closure n s

-- APPLY1, APPLY2 and APPLY3: the frame goes below the arguments.
unfoldable pub apply_framed : ℕ → State → Option State
unfolding val_long enter_closure popped
apply_framed zero s = none
apply_framed (suc n) s = do
  rest ← popped (suc n) s.sp
  enter_closure n (record s { sp = take (suc n) s.sp ++ (frame s.pc s ++ rest) })

-- APPTERM: the arguments slide up over the frame, from the last one on, and `extra_args += nargs - 1`.
unfoldable pub tail_apply : ℕ → ℕ → State → Option State
unfolding enter_closure popped
tail_apply zero slotsize s = none
tail_apply (suc n) slotsize s = do
  rest ← popped slotsize s.sp
  if leb (suc n) slotsize
      then enter_closure (s.extra_args + n) (record s { sp = take (suc n) s.sp ++ rest })
      else none

-- `do_return`, on a stack that is not that of a fiber that ends.
abbrev pub restore_frame : Value → Value → Value → List Value → State → Option State
restore_frame (code pc) env (word w) sp s = elim (long_val w) [
  | pos extra ↦ some (record s { pc = pc; env = env; extra_args = extra; sp = sp })
  | negsuc n ↦ none
]
restore_frame _ env _ sp s = none

unfoldable pub do_return : State → Option State
unfolding long_val popped
do_return s = do
  pc ← get_elem? s.sp 0
  env ← get_elem? s.sp 1
  extra ← get_elem? s.sp 2
  rest ← popped 3 s.sp
  restore_frame pc env extra rest s

unfoldable pub return_from : ℕ → State → Option State
unfolding popped enter_closure do_return
return_from n s = do
  rest ← popped n s.sp
  let s' : State = record s { sp = rest }
  if ltb 0 s.extra_args then enter_closure (s.extra_args - 1) s' else do_return s'

-- RESTART: the fields behind the environment go back to the stack.
unfoldable pub restart_closure : State → Option State
unfolding field
restart_closure s = elim s.env [
  | block a zero ↦ (do
    b ← get_elem? s.heap a
    env ← field s.heap s.env 2
    if leb 3 (length b.fields)
        then some (record s {
          sp = drop 3 b.fields ++ s.sp;
          env = env;
          extra_args = s.extra_args + (length b.fields - 3);
        })
        else none)
  | block a (suc j) ↦ none
  | word w ↦ none
  | Value.atom t ↦ none
  | code p ↦ none
]

-- GRAB, its operand read: with arguments missing, those that are there go to a closure for the RESTART
-- that stands before the GRAB.
abbrev pub partial_closure : ℕ → List Value → Value → List Value
partial_closure pc args env = code pc ∷ closinfo 2 ∷ env ∷ args

unfoldable pub grab_arguments : ℕ → State → Option State
unfolding popped do_return
grab_arguments required s =
    if leb required s.extra_args
    then some (record s { extra_args = s.extra_args - required })
    else (do
      rest ← popped (s.extra_args + 1) s.sp
      pc ← offset s.pc (negsuc 2)
      do_return
          (record (alloc closure_tag (partial_closure pc (take (s.extra_args + 1) s.sp) s.env) s) {
            sp = rest;
          }))

abbrev pushed_if : ℕ → State → State
pushed_if zero s = s
pushed_if (suc n) s = pushed s

unfoldable pub make_closure : ℕ → State → Option State
unfolding peek popped
make_closure nvars s = do
  z ← peek s 0
  target ← offset s.pc z
  let s' : State = pushed_if nvars s
  rest ← popped nvars s'.sp
  some (record (alloc closure_tag (code target ∷ closinfo 2 ∷ take nvars s'.sp) s') {
    sp = rest;
    pc = s.pc + 1;
  })

-- CLOSUREREC: for each further function an infix header, its code and its closure information; the pointers
-- to the functions go to the stack, the last one on top.
unfoldable pub further_functions : ℕ → ℕ → ℕ → State → Option (List Value)
unfolding peek
further_functions zero i envofs s = some []
further_functions (suc n) i envofs s = do
  z ← peek s i
  target ← offset s.pc z
  rest ← further_functions n (i + 1) (envofs - 3) s
  some (word (i * 3 * 1024 + infix_tag) ∷ code target ∷ closinfo (envofs - 3) ∷ rest)

abbrev push_functions : ℕ → ℕ → ℕ → List Value → List Value
push_functions zero i a sp = sp
push_functions (suc n) i a sp = push_functions n (i + 1) a (block a (3 * i) ∷ sp)

unfoldable pub make_closures : ℕ → ℕ → State → Option State
unfolding peek popped further_functions
make_closures zero nvars s = none
make_closures (suc more) nvars s = do
  z ← peek s 0
  target ← offset s.pc z
  let s' : State = pushed_if nvars s
  let envofs : ℕ = 3 * suc more - 1
  functions ← further_functions more 1 envofs s
  rest ← popped nvars s'.sp
  let made : State =
      alloc closure_tag (code target ∷ closinfo envofs ∷ (functions ++ take nvars s'.sp)) s'
  some (record made { sp = push_functions (suc more) 0 (length s.heap) rest; pc = s.pc + suc more })

unfoldable pub exec_call : CallOp → State → Option State
unfolding push_frame apply_to apply_framed tail_apply return_from restart_closure grab_arguments
    make_closure make_closures with_count with_counts
exec_call push_retaddr s = push_frame s
exec_call apply s = with_count apply_to s
exec_call apply1 s = apply_framed 1 s
exec_call apply2 s = apply_framed 2 s
exec_call apply3 s = apply_framed 3 s
exec_call appterm s = with_counts tail_apply s
exec_call appterm1 s = with_count (tail_apply 1) s
exec_call appterm2 s = with_count (tail_apply 2) s
exec_call appterm3 s = with_count (tail_apply 3) s
exec_call return s = with_count return_from s
exec_call restart s = restart_closure s
exec_call grab s = with_count grab_arguments s
exec_call closure s = with_count make_closure s
exec_call closurerec s = with_counts make_closures s
