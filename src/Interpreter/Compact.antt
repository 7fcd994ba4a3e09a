-- ===== src/Interpreter/Compact.antt =====
-- runtime/interp.c: the compact instructions against the general ones that they stand for.
use trav_lang.Common.{ℕ, ◌≡◌, Bool, true, false, List, Option, none, some, if◌then◌else◌, arith}
use trav_lang.Common.Int.{ℤ, pos, negsuc}
use trav_lang.Interpreter.Opcodes.{
  AccessOp, acc0, acc1, acc2, acc3, acc4, acc5, acc6, acc7, acc, pushacc0, pushacc1, pushacc2,
  pushacc3, pushacc4, pushacc5, pushacc6, pushacc7, pushacc, envacc1, envacc2, envacc3, envacc4,
  envacc, pushenvacc1, pushenvacc2, pushenvacc3, pushenvacc4, pushenvacc, BlockOp, offsetclosurem3,
  offsetclosure0, offsetclosure3, offsetclosure, pushoffsetclosurem3, pushoffsetclosure0,
  pushoffsetclosure3, pushoffsetclosure, getglobal, pushgetglobal, getglobalfield,
  pushgetglobalfield, atom0, atom, pushatom0, pushatom, getfield0, getfield1, getfield2, getfield3,
  getfield, setfield0, setfield1, setfield2, setfield3, setfield, IntOp, const0, const1, const2,
  const3, constint, pushconst0, pushconst1, pushconst2, pushconst3, pushconstint, Opcode, access,
  call, of_block, of_int, control, object,
}
use trav_lang.Interpreter.{Value, Block, State, peek, count, advance, pushed}
use trav_lang.Interpreter.Access.{exec_access}
use trav_lang.Interpreter.Blocks.{exec_block}
use trav_lang.Interpreter.Arithmetic.{exec_int}
use trav_lang.Interpreter.Control.{Outcome, next, Reply}
use trav_lang.Interpreter.Machine.{exec}

-- A general form: whether the accumulator is pushed first, the instruction, and an operand given to it.
pub record Expansion : Type 0 where
  pub pushes : Bool
  pub general : Opcode
  pub given : Option ℤ

abbrev form : Bool → Opcode → Expansion
form p op = record { pushes = p; general = op; given = none }

abbrev form_of : Bool → Opcode → ℕ → Expansion
form_of p op n = record { pushes = p; general = op; given = some (pos n) }

abbrev access_form : AccessOp → Option Expansion
access_form acc0 = some (form_of false (access acc) 0)
access_form acc1 = some (form_of false (access acc) 1)
access_form acc2 = some (form_of false (access acc) 2)
access_form acc3 = some (form_of false (access acc) 3)
access_form acc4 = some (form_of false (access acc) 4)
access_form acc5 = some (form_of false (access acc) 5)
access_form acc6 = some (form_of false (access acc) 6)
access_form acc7 = some (form_of false (access acc) 7)
access_form pushacc0 = some (form_of true (access acc) 0)
access_form pushacc1 = some (form_of true (access acc) 1)
access_form pushacc2 = some (form_of true (access acc) 2)
access_form pushacc3 = some (form_of true (access acc) 3)
access_form pushacc4 = some (form_of true (access acc) 4)
access_form pushacc5 = some (form_of true (access acc) 5)
access_form pushacc6 = some (form_of true (access acc) 6)
access_form pushacc7 = some (form_of true (access acc) 7)
access_form pushacc = some (form true (access acc))
access_form envacc1 = some (form_of false (access envacc) 1)
access_form envacc2 = some (form_of false (access envacc) 2)
access_form envacc3 = some (form_of false (access envacc) 3)
access_form envacc4 = some (form_of false (access envacc) 4)
access_form pushenvacc1 = some (form_of true (access envacc) 1)
access_form pushenvacc2 = some (form_of true (access envacc) 2)
access_form pushenvacc3 = some (form_of true (access envacc) 3)
access_form pushenvacc4 = some (form_of true (access envacc) 4)
access_form pushenvacc = some (form true (access envacc))
access_form _ = none

abbrev block_form : BlockOp → Option Expansion
block_form offsetclosurem3 =
    some (record { pushes = false; general = of_block offsetclosure; given = some (negsuc 2) })
block_form offsetclosure3 = some (form_of false (of_block offsetclosure) 3)
block_form pushoffsetclosurem3 =
    some (record { pushes = true; general = of_block offsetclosure; given = some (negsuc 2) })
block_form offsetclosure0 = some (form_of false (of_block offsetclosure) 0)
block_form pushoffsetclosure0 = some (form_of true (of_block offsetclosure) 0)
block_form pushoffsetclosure3 = some (form_of true (of_block offsetclosure) 3)
block_form pushoffsetclosure = some (form true (of_block offsetclosure))
block_form pushgetglobal = some (form true (of_block getglobal))
block_form pushgetglobalfield = some (form true (of_block getglobalfield))
block_form atom0 = some (form_of false (of_block atom) 0)
block_form pushatom0 = some (form_of true (of_block atom) 0)
block_form pushatom = some (form true (of_block atom))
block_form getfield0 = some (form_of false (of_block getfield) 0)
block_form getfield1 = some (form_of false (of_block getfield) 1)
block_form getfield2 = some (form_of false (of_block getfield) 2)
block_form getfield3 = some (form_of false (of_block getfield) 3)
block_form setfield0 = some (form_of false (of_block setfield) 0)
block_form setfield1 = some (form_of false (of_block setfield) 1)
block_form setfield2 = some (form_of false (of_block setfield) 2)
block_form setfield3 = some (form_of false (of_block setfield) 3)
block_form _ = none

abbrev int_form : IntOp → Option Expansion
int_form const0 = some (form_of false (of_int constint) 0)
int_form const1 = some (form_of false (of_int constint) 1)
int_form const2 = some (form_of false (of_int constint) 2)
int_form const3 = some (form_of false (of_int constint) 3)
int_form pushconst0 = some (form_of true (of_int constint) 0)
int_form pushconst1 = some (form_of true (of_int constint) 1)
int_form pushconst2 = some (form_of true (of_int constint) 2)
int_form pushconst3 = some (form_of true (of_int constint) 3)
int_form pushconstint = some (form true (of_int constint))
int_form _ = none

abbrev pub general_form : Opcode → Option Expansion
general_form (access op) = access_form op
general_form (of_block op) = block_form op
general_form (of_int op) = int_form op
general_form _ = none

-- Whether the code has the operand that is given.
abbrev Given : State → Option ℤ → Type 0
Given s none = Unit
Given s (some z) = peek s 0 ≡ some z

abbrev pub HasOperand : Option Expansion → State → Type 0
HasOperand none s = Unit
HasOperand (some e) s = Given s e.given

abbrev width : Option ℤ → ℕ
width none = 0
width (some z) = 1

abbrev moved : ℕ → Outcome → Outcome
moved k (next s) = next (advance k s)
moved k other = other

module _ (zero_divide : Value) (primitive : ℕ → List Value → List Block → Reply) where
  abbrev general_run : Expansion → State → Outcome
  general_run e s = exec zero_divide primitive e.general (if e.pushes then pushed s else s)

  -- The general form, behind a push or not, does what the compact instruction does, and takes its operand.
  abbrev pub StandsFor : Option Expansion → Opcode → State → Type 0
  StandsFor none op s = Unit
  StandsFor (some e) op s =
      general_run e s ≡ moved (width e.given) (exec zero_divide primitive op s)

  access_op-StandsFor :
      (op : AccessOp) (s : State)
      → HasOperand (access_form op) s
      → StandsFor (access_form op) (access op) s
  unfolding exec exec_access peek
  access_op-StandsFor acc0 s h = ground arith
  access_op-StandsFor _ s h = ground arith

  block_op-StandsFor :
      (op : BlockOp) (s : State)
      → HasOperand (block_form op) s
      → StandsFor (block_form op) (of_block op) s
  unfolding exec exec_block peek count
  block_op-StandsFor atom0 s h = ground arith
  block_op-StandsFor _ s h = ground arith

  int_op-StandsFor :
      (op : IntOp) (s : State) → HasOperand (int_form op) s → StandsFor (int_form op) (of_int op) s
  unfolding exec exec_int peek
  int_op-StandsFor const0 s h = ground arith
  int_op-StandsFor _ s h = ground arith

  -- Each compact instruction on the stack, the environment, closures, globals, atoms, fields and constants does
  -- what its general form does that has its operand in the code, OFFSETCLOSURE0 what OFFSETCLOSURE does with 0
  -- included, behind PUSH where its name says so.
  pub general_form-StandsFor :
      (op : Opcode) (s : State) → HasOperand (general_form op) s → StandsFor (general_form op) op s
  general_form-StandsFor (access op) s h = access_op-StandsFor op s h
  general_form-StandsFor (of_block op) s h = block_op-StandsFor op s h
  general_form-StandsFor (of_int op) s h = int_op-StandsFor op s h
  general_form-StandsFor (call op) s h = tt
  general_form-StandsFor (control op) s h = tt
  general_form-StandsFor (object op) s h = tt
