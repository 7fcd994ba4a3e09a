-- ===== src/Interpreter/Opcodes.antt =====
-- runtime/caml/instruct.h: the opcodes, under the headings of the interpreter. Those on strings, floating-point
-- blocks, fibers and debugging are left out.
-- Basic stack operations, and access to the environment.
pub data AccessOp : Type 0 where
  acc0 acc1 acc2 acc3 acc4 acc5 acc6 acc7 acc : AccessOp
  push pushacc0 pushacc1 pushacc2 pushacc3 pushacc4 pushacc5 pushacc6 pushacc7 pushacc : AccessOp
  pop assign : AccessOp
  envacc1 envacc2 envacc3 envacc4 envacc : AccessOp
  pushenvacc1 pushenvacc2 pushenvacc3 pushenvacc4 pushenvacc : AccessOp

-- Function application, and closures.
pub data CallOp : Type 0 where
  push_retaddr apply apply1 apply2 apply3 : CallOp
  appterm appterm1 appterm2 appterm3 : CallOp
  return restart grab closure closurerec : CallOp

-- Closures of a recursive group, global variables, blocks and arrays.
pub data BlockOp : Type 0 where
  offsetclosurem3 offsetclosure0 offsetclosure3 offsetclosure : BlockOp
  pushoffsetclosurem3 pushoffsetclosure0 pushoffsetclosure3 pushoffsetclosure : BlockOp
  getglobal pushgetglobal getglobalfield pushgetglobalfield setglobal : BlockOp
  atom0 atom pushatom0 pushatom : BlockOp
  makeblock makeblock1 makeblock2 makeblock3 : BlockOp
  getfield0 getfield1 getfield2 getfield3 getfield : BlockOp
  setfield0 setfield1 setfield2 setfield3 setfield : BlockOp
  vectlength getvectitem setvectitem : BlockOp

-- Integer constants, arithmetic and comparisons.
pub data IntOp : Type 0 where
  const0 const1 const2 const3 constint : IntOp
  pushconst0 pushconst1 pushconst2 pushconst3 pushconstint : IntOp
  negint addint subint mulint : IntOp
  andint orint xorint lslint lsrint asrint : IntOp
  eq neq ltint leint gtint geint ultint ugeint : IntOp
  offsetint offsetref isint : IntOp

-- Branches, exceptions, divisions, which may raise one, calls of C functions, and the end.
pub data ControlOp : Type 0 where
  branch branchif branchifnot switch boolnot : ControlOp
  beq bneq bltint bleint bgtint bgeint bultint bugeint : ControlOp
  pushtrap poptrap raise_notrace reraise raise divint modint : ControlOp
  check_signals c_call1 c_call2 c_call3 c_call4 c_call5 c_calln stop : ControlOp

-- Method look-up.
pub data ObjectOp : Type 0 where
  getmethod getpubmet getdynmet : ObjectOp

pub data Opcode : Type 0 where
  access : AccessOp → Opcode
  call : CallOp → Opcode
  of_block : BlockOp → Opcode
  of_int : IntOp → Opcode
  control : ControlOp → Opcode
  object : ObjectOp → Opcode
