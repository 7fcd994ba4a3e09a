-- ===== src/Interpreter/Machine.antt =====
-- runtime/interp.c: one turn of the loop of `caml_interprete`, and its run from a state.
use trav_lang.Common.{ℕ, zero, suc, List, Option, some, get_elem?}
use trav_lang.Common.Int.{pos}
use trav_lang.Interpreter.Opcodes.{Opcode, access, call, of_block, of_int, control, object}
use trav_lang.Interpreter.{Value, atom, Block, State, Cell, opcode, val_unit, advance}
use trav_lang.Interpreter.Access.{exec_access}
use trav_lang.Interpreter.Blocks.{exec_block}
use trav_lang.Interpreter.Calls.{exec_call}
use trav_lang.Interpreter.Arithmetic.{exec_int}
use trav_lang.Interpreter.Control.{Outcome, next, fault, outcome, Reply, exec_control}
use trav_lang.Interpreter.Methods.{exec_object}

-- The registers at the start, on the stack, the globals and the heap that there are.
abbrev pub start : List Cell → List Value → List Value → List Block → State
start program sp globals heap = record {
  program = program;
  pc = 0;
  accu = val_unit;
  sp = sp;
  env = atom 0;
  extra_args = 0;
  trap_sp_off = pos 1;
  global_data = globals;
  heap = heap;
}

module _ (zero_divide : Value) (primitive : ℕ → List Value → List Block → Reply) where
  -- `dispatch_instr`, behind the opcode.
  unfoldable pub exec : Opcode → State → Outcome
  unfolding exec_access exec_block exec_call exec_int exec_control exec_object
  exec (access op) s = outcome (exec_access op s)
  exec (call op) s = outcome (exec_call op s)
  exec (of_block op) s = outcome (exec_block op s)
  exec (of_int op) s = outcome (exec_int op s)
  exec (control op) s = exec_control primitive zero_divide op s
  exec (object op) s = outcome (exec_object op s)

  abbrev pub dispatch_cell : Option Cell → State → Outcome
  dispatch_cell (some (opcode op)) s = exec op s
  dispatch_cell _ s = fault

  -- `curr_instr = *pc++`.
  unfoldable pub step : State → Outcome
  unfolding exec
  step s = dispatch_cell (get_elem? s.program s.pc) (advance 1 s)

  -- So many instructions, or fewer if the run ends.
  unfoldable pub run : ℕ → State → Outcome
  unfolding step
  run zero s = next s
  run (suc fuel) s = let rest = run fuel in elim (step s) [ next s' ↦ rest s' | other ↦ other ]
