-- ===== src/Parsing/Engine.antt =====
-- The labels of `caml_parse_engine`: each is a function, and a `goto` is a call. Only `goto loop` goes back,
-- so it is a result of its own, `again`.
use trav_lang.Common.{
  ℕ, zero, suc, ◌+◌, ◌-◌, Option, none, some, ◌>>=◌, get_elem?, store, ltb, leb, if◌then◌else◌,
}
use trav_lang.Common.Int.{ℤ, pos, negsuc, eqb_ℤ}
use trav_lang.Lexing.{short}
use trav_lang.Parsing.{
  ParserTables, ParserEnv, Locals, Token, const_token, block_token, Command, start, token_read,
  stacks_grown_1, stacks_grown_2, semantic_action_computed, error_detected, Output, read_token,
  raise_parse_error, grow_stacks_1, grow_stacks_2, compute_semantic_action, call_error_function,
  short_at, is_nonneg, find_entry, below_frame, save, restore,
}

pub data Next (V P : Type 0) : Type 0 where
  stop : Output → ParserEnv V P → Next V P
  again : ParserEnv V P → Locals → Next V P

-- How a call ends: an output code, an access out of bounds, or, for the model only, no fuel.
pub data Outcome (V P : Type 0) : Type 0 where
  output : Output → ParserEnv V P → Outcome V P
  fault : Outcome V P
  no_fuel : Outcome V P

-- `#define ERRCODE 256`.
abbrev pub errcode : ℤ
errcode = pos 256

-- The state after a reduction to `m`, over the state `state1`.
unfoldable pub goto_state : ParserTables → ℤ → ℤ → Option ℤ
goto_state tbl m state1 = do
  e ← find_entry tbl tbl.gindex m state1
  elim e [ some n2 ↦ short tbl.table n2 | none ↦ short_at tbl.dgoto m ]

module _ {V P : Type 0} where
  -- `push:`
  unfoldable pub push : ParserEnv V P → Locals → Option (Next V P)
  push env l = do
    s ← store env.s_stack l.sp l.state
    v ← store env.v_stack l.sp env.lval
    a ← store env.symb_start_stack l.sp env.symb_start
    b ← store env.symb_end_stack l.sp env.symb_end
    some (
        again (record env { s_stack = s; v_stack = v; symb_start_stack = a; symb_end_stack = b }) l)

  -- `push` where the stacks have room.
  unfoldable pub push_or_grow : ParserEnv V P → Locals → Option (Next V P)
  unfolding push
  push_or_grow env l =
      if ltb l.sp env.stacksize then push env l else some (stop grow_stacks_1 (save env l))

  -- `shift_recover:`
  unfoldable pub shift_recover : ParserTables → ParserEnv V P → Locals → ℕ → Option (Next V P)
  unfolding push_or_grow
  shift_recover tbl env l n2 = do
    state ← short tbl.table n2
    push_or_grow env (record l { state = state; sp = l.sp + 1 })

  -- `shift:`
  unfoldable pub shift : ParserTables → ParserEnv V P → Locals → ℕ → Option (Next V P)
  unfolding shift_recover
  shift tbl env l n2 =
      shift_recover tbl (record env { curr_char = negsuc 0 }) (record l { errflag = l.errflag - 1 })
        n2

  -- `semantic_action:`, or the request to grow the stacks.
  abbrev pub act_or_grow : ParserEnv V P → Locals → Next V P
  act_or_grow env l =
      if ltb l.sp env.stacksize
      then stop compute_semantic_action (save env l)
      else stop grow_stacks_2 (save env l)

  -- `reduce:`
  unfoldable pub reduce : ParserTables → ParserEnv V P → Locals → ℤ → Option (Next V P)
  reduce tbl env l n = do
    m ← short_at tbl.len n
    below ← below_frame l.sp m
    left_side ← short_at tbl.lhs n
    state1 ← get_elem? env.s_stack below
    state ← goto_state tbl left_side state1
    some (
        act_or_grow (record env { asp = l.sp; rule_number = n; rule_len = m })
          (record l { sp = below + 1; state = state }))

  -- The `while (1)` of `recover:`, which discards states down to the base of the stack.
  unfoldable pub recover_scan : ParserTables → ParserEnv V P → Locals → ℕ → Option (Next V P)
  recover_scan tbl env l zero = do
    state1 ← get_elem? env.s_stack 0
    e ← find_entry tbl tbl.sindex state1 errcode
    elim e [
      | some n2 ↦ shift_recover tbl env (record l { sp = 0 }) n2
      | none ↦ some (stop raise_parse_error env)
    ]
  recover_scan tbl env l (suc sp) =
      let rest = recover_scan tbl env l sp in
      get_elem? env.s_stack (suc sp) >>= (λ state1.
        find_entry tbl tbl.sindex state1 errcode >>= (λ e. elim e [
          | some n2 ↦ shift_recover tbl env (record l { sp = suc sp }) n2
          | none ↦ if leb (suc sp) env.stackbase then some (stop raise_parse_error env) else rest
        ]))

  -- `recover:`
  unfoldable pub recover : ParserTables → ParserEnv V P → Locals → Option (Next V P)
  recover tbl env l =
      if ltb l.errflag 3
      then recover_scan tbl env (record l { errflag = 3 }) l.sp
      else if eqb_ℤ env.curr_char (pos 0)
      then some (stop raise_parse_error env)
      else some (again (record env { curr_char = negsuc 0 }) l)

  -- `testshift:`, after the look-up in `sindex`, and after that in `rindex`.
  unfoldable pub testreduce : ParserTables → ParserEnv V P → Locals → Option (Next V P)
  testreduce tbl env l = do
    e ← find_entry tbl tbl.rindex l.state env.curr_char
    elim e [
      | some n2 ↦ short tbl.table n2 >>= reduce tbl env l
      | none ↦
          if ltb 0 l.errflag
          then recover tbl env l
          else some (stop call_error_function (save env l))
    ]

  unfoldable pub testshift : ParserTables → ParserEnv V P → Locals → Option (Next V P)
  unfolding shift
  testshift tbl env l = do
    e ← find_entry tbl tbl.sindex l.state env.curr_char
    elim e [ some n2 ↦ shift tbl env l n2 | none ↦ testreduce tbl env l ]

  -- `loop:`
  unfoldable pub loop_round : ParserTables → ParserEnv V P → Locals → Option (Next V P)
  loop_round tbl env l = do
    n ← short_at tbl.defred l.state
    if eqb_ℤ n (pos 0)
        then if is_nonneg env.curr_char
          then testshift tbl env l
          else some (stop read_token (save env l))
        else reduce tbl env l n

  -- What a label leads to, given the rounds of `loop` that may follow.
  abbrev pub after : (ParserEnv V P → Locals → Outcome V P) → Option (Next V P) → Outcome V P
  after next none = fault
  after next (some (stop out env)) = output out env
  after next (some (again env l)) = next env l

  -- `goto loop`, on fuel.
  unfoldable pub loop : ℕ → ParserTables → ParserEnv V P → Locals → Outcome V P
  loop zero tbl env l = no_fuel
  loop (suc fuel) tbl env l = after (loop fuel tbl) (loop_round tbl env l)

  -- The token read becomes the current one. `unit` is `Val_long(0)`.
  unfoldable pub read_in : V → ParserTables → ParserEnv V P → Token V → Option (ParserEnv V P)
  read_in unit tbl env (block_token tag v) = do
    c ← get_elem? tbl.transl_block tag
    some (record env { curr_char = c; lval = v })
  read_in unit tbl env (const_token n) = do
    c ← get_elem? tbl.transl_const n
    some (record env { curr_char = c; lval = unit })

  -- `case SEMANTIC_ACTION_COMPUTED`, up to `goto loop`.
  unfoldable pub computed : ParserEnv V P → V → Option (Next V P)
  computed env arg = do
    s ← store env.s_stack env.sp env.state
    v ← store env.v_stack env.sp arg
    e ← get_elem? env.symb_end_stack env.asp
    b ← store env.symb_end_stack env.sp e
    e' ← get_elem? b env.asp
    a ←
        if ltb env.asp env.sp
        then store env.symb_start_stack env.sp e'
        else some env.symb_start_stack
    some (
        again (record env { s_stack = s; v_stack = v; symb_start_stack = a; symb_end_stack = b })
          (restore env))

  -- The `switch` up to the first `goto loop`.
  unfoldable pub enter : V → ParserTables → ParserEnv V P → Command V → Option (Next V P)
  unfolding push read_in computed
  enter unit tbl env start = some (again env (record { sp = env.sp; state = pos 0; errflag = 0 }))
  enter unit tbl env (token_read tok) = do
    env' ← read_in unit tbl env tok
    testshift tbl env' (restore env)
  enter unit tbl env error_detected = recover tbl env (restore env)
  enter unit tbl env stacks_grown_1 = push env (restore env)
  enter unit tbl env stacks_grown_2 = some (stop compute_semantic_action (save env (restore env)))
  enter unit tbl env (semantic_action_computed arg) = computed env arg

  -- `caml_parse_engine`. Three rounds of `loop` are enough.
  unfoldable pub parse_engine : V → ParserTables → ParserEnv V P → Command V → Outcome V P
  unfolding enter loop
  parse_engine unit tbl env cmd = after (loop 3 tbl) (enter unit tbl env cmd)
