-- ===== src/Parsing.antt =====
-- runtime/parsing.c: `caml_parse_engine`, the pushdown automaton of the parsers.
-- Integers are untagged. `V` stands for semantic values and `P` for positions. A read or write outside a
-- table or a stack, which the C code does not check, is `none`. Traces to stderr are left out.
pub mod Engine
pub mod Total
pub mod Steps
pub mod Stacks
use trav_lang.Common.{
  ℕ, zero, suc, ◌+◌, ◌-◌, ◌*◌, Bool, true, false, List, Option, none, some, ◌>>=◌, get_elem?, ltb,
  leb, ◌==◌, if◌then◌else◌,
}
use trav_lang.Common.Int.{ℤ, pos, negsuc, ◌+ℤ◌, eqb_ℤ}
use trav_lang.Lexing.{short}

-- `struct parser_tables`, without the semantic actions, the error function and the names.
pub record ParserTables : Type 0 where
  pub transl_const : List ℤ
  pub transl_block : List ℤ
  pub lhs : List ℕ
  pub len : List ℕ
  pub defred : List ℕ
  pub dgoto : List ℕ
  pub sindex : List ℕ
  pub rindex : List ℕ
  pub gindex : List ℕ
  pub tablesize : ℕ
  pub table : List ℕ
  pub check : List ℕ

-- `struct parser_env`.
pub record ParserEnv (V P : Type 0) : Type 0 where
  pub s_stack : List ℤ
  pub v_stack : List V
  pub symb_start_stack : List P
  pub symb_end_stack : List P
  pub stacksize : ℕ
  pub stackbase : ℕ
  pub curr_char : ℤ
  pub lval : V
  pub symb_start : P
  pub symb_end : P
  pub asp : ℕ
  pub rule_len : ℤ
  pub rule_number : ℤ
  pub sp : ℕ
  pub state : ℤ
  pub errflag : ℕ

-- The local variables that `SAVE` and `RESTORE` copy.
pub record Locals : Type 0 where
  pub sp : ℕ
  pub state : ℤ
  pub errflag : ℕ

-- A token: a constant constructor, or a block with its tag and its first field.
pub data Token (V : Type 0) : Type 0 where
  const_token : ℕ → Token V
  block_token : ℕ → V → Token V

-- Input codes, with the argument where the command reads it.
pub data Command (V : Type 0) : Type 0 where
  start : Command V
  token_read : Token V → Command V
  stacks_grown_1 : Command V
  stacks_grown_2 : Command V
  semantic_action_computed : V → Command V
  error_detected : Command V

-- Output codes.
pub data Output : Type 0 where
  read_token raise_parse_error grow_stacks_1 grow_stacks_2 : Output
  compute_semantic_action call_error_function : Output

-- `Short(tbl, n)` at an `int`.
abbrev pub short_at : List ℕ → ℤ → Option ℤ
short_at tbl (pos n) = short tbl n
short_at tbl (negsuc n) = none

abbrev pub is_nonneg : ℤ → Bool
is_nonneg (pos n) = true
is_nonneg (negsuc n) = false

-- `n1 != 0 && n2 >= 0 && n2 <= tablesize && check[n2] == key`: the index that passes, if one does.
abbrev pub checked : ParserTables → ℤ → ℤ → ℤ → Option (Option ℕ)
checked tbl n1 (negsuc n2) key = some none
checked tbl n1 (pos n2) key =
    let read = short tbl.check n2 >>= (λ k. some (if eqb_ℤ k key then some n2 else none)) in
    if eqb_ℤ n1 (pos 0) then some none else if leb n2 tbl.tablesize then read else some none

-- A look-up in one of the index tables, at a row and a key.
unfoldable pub find_entry : ParserTables → List ℕ → ℤ → ℤ → Option (Option ℕ)
find_entry tbl index row key = do n1 ← short_at index row; checked tbl n1 (n1 +ℤ key) key

-- `sp - m`, the place below the popped frame: none where the unsigned subtraction would wrap.
abbrev pub below_frame : ℕ → ℤ → Option ℕ
below_frame sp (pos m) = if leb m sp then some (sp - m) else none
below_frame sp (negsuc k) = some (sp + suc k)

module _ {V P : Type 0} where
  -- `SAVE`.
  abbrev pub save : ParserEnv V P → Locals → ParserEnv V P
  save env l = record env { sp = l.sp; state = l.state; errflag = l.errflag }

  -- `RESTORE`.
  abbrev pub restore : ParserEnv V P → Locals
  restore env = record { sp = env.sp; state = env.state; errflag = env.errflag }
