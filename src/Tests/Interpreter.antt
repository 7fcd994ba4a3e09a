-- ===== src/Tests/Interpreter.antt =====
-- The bytecode interpreter on short programs.
use trav_lang.Common.{
  ℕ, zero, suc, ◌++◌, true, ◌+◌, ◌*◌, ◌<◌, ◌≡◌, refl, List, [], ◌∷◌, Option, some, none, ◌>>=◌,
  arith, ◌⊎◌,
}
use trav_lang.Common.Int.{pos, negsuc, ◌+ℤ◌, ◌-ℤ◌}
use trav_lang.Interpreter.Opcodes.{
  acc1, acc4, push, pushacc3, push_retaddr, apply, restart, grab, return, closure, constint, const0,
  addint, subint, negint, branch, pushtrap, poptrap, divint, stop, access, call, of_int, control,
}
use trav_lang.Interpreter.{
  Value, word, atom, code, block, Block, Cell, opcode, operand, State, val_long, peek, field,
  enter_closure,
}
use trav_lang.Interpreter.Arithmetic.{exec_int, signed_lt}
use trav_lang.Interpreter.Calls.{grab_arguments}
use trav_lang.Interpreter.Control.{
  Outcome, next, stopped, Reply, returned, raised, raise_value, push_trap, pop_trap, below_top,
}
use trav_lang.Interpreter.Methods.{label, get_dynamic, get_public}
use trav_lang.Interpreter.Machine.{start, step, run}
use trav_lang.Interpreter.Compact.{general_form, StandsFor, general_form-StandsFor}
use trav_lang.Interpreter.Currying.{
  framed, partial_block, suspended, restarted, partial_application,
}
use trav_lang.Interpreter.Traps.{IsInside, unwound, trap_restores, trap_frame}
use trav_lang.Interpreter.Tagged.{result, arithmetic-integers}
use trav_lang.Interpreter.Search.{IsTable}
use trav_lang.Interpreter.Lookup.{got, get_dynamic-method, get_public-method}

abbrev division_by_zero : Value
division_by_zero = atom 7

-- C functions that give back their first argument.
abbrev first_argument : ℕ → List Value → List Block → Reply
first_argument p [] heap = raised (word 1) heap
first_argument p (v ∷ args) heap = returned v heap

abbrev started : List Cell → State
started program = start program [] [] []

abbrev answer : Outcome → Option Value
answer (stopped v s) = some v
answer other = none

-- The sum of its two arguments, applied to 20 and the result of that to 22.
abbrev sum_program : List Cell
sum_program =
    opcode (control branch)
    ∷ operand (pos 8)
    ∷ opcode (call restart)
    ∷ opcode (call grab)
    ∷ operand (pos 1)
    ∷ opcode (access acc1)
    ∷ opcode (of_int addint)
    ∷ opcode (call return)
    ∷ operand (pos 1)
    ∷ opcode (call closure)
    ∷ operand (pos 0)
    ∷ operand (negsuc 7)
    ∷ opcode (access push)
    ∷ opcode (call push_retaddr)
    ∷ operand (pos 7)
    ∷ opcode (of_int constint)
    ∷ operand (pos 20)
    ∷ opcode (access push)
    ∷ opcode (access acc4)
    ∷ opcode (call apply)
    ∷ operand (pos 1)
    ∷ opcode (access push)
    ∷ opcode (call push_retaddr)
    ∷ operand (pos 7)
    ∷ opcode (of_int constint)
    ∷ operand (pos 22)
    ∷ opcode (access push)
    ∷ opcode (access acc4)
    ∷ opcode (call apply)
    ∷ operand (pos 1)
    ∷ opcode (control stop)
    ∷ []

sum_run : answer (run division_by_zero first_argument 40 (started sum_program)) ≡ some (word 85)
unfolding run
sum_run = refl

-- A division by zero under a trap.
abbrev trap_program : List Cell
trap_program =
    opcode (control pushtrap)
    ∷ operand (pos 8)
    ∷ opcode (of_int const0)
    ∷ opcode (access push)
    ∷ opcode (of_int constint)
    ∷ operand (pos 7)
    ∷ opcode (control divint)
    ∷ opcode (control poptrap)
    ∷ opcode (control stop)
    ∷ opcode (control stop)
    ∷ []

trap_run :
    run division_by_zero first_argument 6 (started trap_program)
    ≡ stopped division_by_zero (record (started trap_program) { pc = 10; accu = division_by_zero })
unfolding run
trap_run = refl

abbrev two_slots : State
two_slots = record (started (operand (pos 3) ∷ [])) {
  accu = word (val_long (pos 20));
  sp = word (val_long (pos 22)) ∷ word 5 ∷ word 7 ∷ word 9 ∷ [];
}

general_form-StandsFor_example :
    StandsFor division_by_zero first_argument
      (general_form (access pushacc3))
      (access pushacc3)
      two_slots
unfolding peek
general_form-StandsFor_example =
    general_form-StandsFor division_by_zero first_argument (access pushacc3) two_slots refl

arithmetic-integers_example :
    (exec_int addint two_slots
      ≡ result (word (val_long (pos 42))) (word 5 ∷ word 7 ∷ word 9 ∷ []) two_slots)
    × (exec_int subint two_slots
        ≡ result (word (val_long (negsuc 1))) (word 5 ∷ word 7 ∷ word 9 ∷ []) two_slots)
    × (exec_int negint two_slots ≡ some (record two_slots { accu = word (val_long (negsuc 19)) }))
unfolding ◌+ℤ◌ ◌-ℤ◌
arithmetic-integers_example =
    arithmetic-integers (pos 20) (pos 22) (word 5 ∷ word 7 ∷ word 9 ∷ []) two_slots refl refl

abbrev three_left : List Value
three_left = word 5 ∷ word 7 ∷ word 9 ∷ []

-- In the GRAB of the sum, with one argument, and later with the closure to apply.
abbrev in_grab : State
in_grab = record (started sum_program) { pc = 5; sp = word 41 ∷ framed 21 (atom 0) 0 [] }

abbrev applying : State
applying = record (started sum_program) {
  accu = block 0 0;
  heap = partial_block 5 (atom 0) (word 41 ∷ []) ∷ [];
  sp = word 45 ∷ [];
}

partial_application_example :
    (grab_arguments 1 in_grab ≡ some (suspended 21 (atom 0) 0 (word 41 ∷ []) [] in_grab))
    × ((enter_closure 0 applying >>= λ u. some (step division_by_zero first_argument u))
        ≡ some (next (restarted 5 (atom 0) (word 41 ∷ []) 0 applying)))
partial_application_example =
    partial_application division_by_zero first_argument 1 21 0 0 (atom 0) (word 41 ∷ []) [] in_grab
      applying (omega arith) (omega arith) (omega arith) refl refl refl refl refl

abbrev at_trap : State
at_trap = record (started trap_program) { pc = 1 }

abbrev in_trap : List Value → State
in_trap inner = record at_trap {
  sp = inner ++ (trap_frame 9 at_trap ++ []);
  trap_sp_off = below_top 4;
  pc = 6;
}

trap_restores_example :
    ((v : State) × (push_trap at_trap ≡ some v) × IsInside 9 [] at_trap v × (v.pc ≡ 2))
    × (raise_value (in_trap (word 5 ∷ [])) ≡ next (unwound 9 at_trap (in_trap (word 5 ∷ []))))
    × (pop_trap (in_trap []) ≡ some (record (in_trap []) { sp = []; trap_sp_off = pos 1 }))
unfolding peek
trap_restores_example =
    trap_restores (word 5 ∷ []) at_trap (in_trap (word 5 ∷ [])) (in_trap []) (pos 8) 9 (omega arith)
      (omega arith) refl refl (record { stack = refl; trap = refl })
      (record { stack = refl; trap = refl })

-- An object with two methods, and the two places of the table.
abbrev two_labels : ℕ → ℕ
two_labels zero = 11
two_labels (suc i) = 21

abbrev two_methods : ℕ → Value
two_methods zero = code 100
two_methods (suc i) = code 101

abbrev objects : List Block
objects =
    record { tag = 248; fields = block 1 0 ∷ word 3 ∷ [] }
    ∷ record { tag = 0; fields = word 5 ∷ word 31 ∷ code 100 ∷ word 11 ∷ code 101 ∷ word 21 ∷ [] }
    ∷ []

objects-labelled : (i : ℕ) → i < 2 → label objects (block 1 0) (2 * i + 3) ≡ some (two_labels i)
unfolding label field
objects-labelled zero h = refl
objects-labelled (suc zero) h = refl
objects-labelled (suc (suc i)) h = absurd (omega arith)

objects-filled : (i : ℕ) → i < 2 → field objects (block 1 0) (2 * i + 2) ≡ some (two_methods i)
unfolding field
objects-filled zero h = refl
objects-filled (suc zero) h = refl
objects-filled (suc (suc i)) h = absurd (omega arith)

labels-ascending : (i j : ℕ) → i < j → j < 2 → signed_lt (two_labels i) (two_labels j) ≡ true
unfolding signed_lt
labels-ascending zero (suc j) h h' = refl
labels-ascending zero zero h h' = absurd (omega arith)
labels-ascending (suc i) j h h' = absurd (omega arith)

objects-size : label objects (block 1 0) 0 ≡ some 5
unfolding label field
objects-size = refl

objects-IsTable : IsTable objects (block 1 0) 2 two_labels two_methods
objects-IsTable = record {
  size = objects-size;
  labelled = objects-labelled;
  filled = objects-filled;
  ascending = labels-ascending;
}

abbrev sending : State
sending = record (started []) { accu = word 21; sp = block 0 0 ∷ []; heap = objects }

abbrev sending_public : State
sending_public = record (started (operand (pos 10) ∷ operand (pos 0) ∷ [])) {
  accu = block 0 0;
  heap = objects;
}

get_dynamic-method_example : get_dynamic sending ≡ some (record sending { accu = code 101 })
unfolding field
get_dynamic-method_example =
    get_dynamic-method sending (block 0 0) (block 1 0) 2 1 two_labels two_methods refl refl
      objects-IsTable (omega arith) refl

get_public-method_example :
    (get_public sending_public ≡ some (got (code 101) sending_public.program sending_public))
    ⊎ (get_public sending_public
        ≡ some (got (code 101) (operand (pos 10) ∷ operand (pos 16) ∷ []) sending_public))
unfolding field label peek val_long
get_public-method_example =
    get_public-method sending_public (block 1 0) 2 1 0 31 two_labels two_methods (pos 10) (pos 0)
      refl refl refl refl refl (omega arith) objects-IsTable (omega arith) refl
