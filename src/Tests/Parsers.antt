-- ===== src/Tests/Parsers.antt =====
-- A parser for one token, and the theorems on it.
use trav_lang.Common.{ℕ, ◌≡◌, ◌≢◌, refl, [], ◌∷◌, replicate, none, arith}
use trav_lang.Common.Int.{pos, negsuc, ◌+ℤ◌}
use trav_lang.Lexing.{short, ushort}
use trav_lang.Parsing.{
  ParserTables, ParserEnv, const_token, start, token_read, semantic_action_computed, stacks_grown_1,
  read_token, compute_semantic_action, find_entry,
}
use trav_lang.Parsing.Engine.{
  output, no_fuel, loop_round, testshift, testreduce, recover, recover_scan, reduce, goto_state,
  enter, parse_engine,
}
use trav_lang.Parsing.Total.{parse_engine_ends}
use trav_lang.Parsing.Steps.{IsSound}
use trav_lang.Parsing.Stacks.{Replied, parse_engine-Replied, stack_writes_fit}

-- The token 1 is shifted from state 0 to state 1, where rule 1, of length 1, is reduced.
abbrev one_token : ParserTables
one_token = record {
  transl_const = pos 1 ∷ pos 2 ∷ [];
  transl_block = [];
  lhs = 0 ∷ 0 ∷ 0 ∷ 0 ∷ [];
  len = 2 ∷ 0 ∷ 1 ∷ 0 ∷ [];
  defred = 0 ∷ 0 ∷ 1 ∷ 0 ∷ 0 ∷ 0 ∷ [];
  dgoto = 2 ∷ 0 ∷ [];
  sindex = 1 ∷ 0 ∷ 0 ∷ 0 ∷ 0 ∷ 0 ∷ [];
  rindex = replicate 6 0;
  gindex = replicate 6 0;
  tablesize = 3;
  table = 0 ∷ 0 ∷ 0 ∷ 0 ∷ 1 ∷ 0 ∷ 0 ∷ 0 ∷ [];
  check = 0xff ∷ 0xff ∷ 0xff ∷ 0xff ∷ 1 ∷ 0 ∷ 0xff ∷ 0xff ∷ [];
}

abbrev fresh : ParserEnv ℕ ℕ
fresh = record {
  s_stack = pos 0 ∷ pos 0 ∷ pos 0 ∷ [];
  v_stack = replicate 3 0;
  symb_start_stack = replicate 3 0;
  symb_end_stack = replicate 3 0;
  stacksize = 3;
  stackbase = 1;
  curr_char = negsuc 0;
  lval = 0;
  symb_start = 0;
  symb_end = 0;
  asp = 0;
  rule_len = pos 0;
  rule_number = pos 0;
  sp = 0;
  state = pos 0;
  errflag = 0;
}

program : Unit {0}
unfolding parse_engine loop_round testshift testreduce recover recover_scan reduce goto_state
    find_entry short ushort ◌+ℤ◌
program = tt

start_reads : parse_engine 0 one_token fresh start ≡ output read_token fresh
unfolding program
start_reads = refl

-- Reading the token shifts it, and asks for the action of rule 1.
token_reduces :
    parse_engine 0 one_token fresh (token_read (const_token 0))
    ≡ output compute_semantic_action (record fresh {
      s_stack = pos 0 ∷ pos 1 ∷ pos 0 ∷ [];
      asp = 1;
      rule_len = pos 1;
      rule_number = pos 1;
      sp = 1;
      state = pos 2;
    })
unfolding program
token_reduces = refl

fresh-IsSound : IsSound fresh
fresh-IsSound = record {
  s_size = refl;
  v_size = refl;
  start_size = refl;
  end_size = refl;
  asp_inside = omega arith;
  flag = omega arith;
}

parse_engine_ends_example : parse_engine 0 one_token fresh (token_read (const_token 0)) ≢ no_fuel
parse_engine_ends_example = parse_engine_ends 0 one_token fresh (token_read (const_token 0))

parse_engine-Replied_example : Replied (parse_engine 0 one_token fresh (token_read (const_token 0)))
parse_engine-Replied_example =
    parse_engine-Replied 0 one_token fresh (token_read (const_token 0)) fresh-IsSound (omega arith)

stack_writes_fit_example :
    (enter 0 one_token fresh (semantic_action_computed 5) ≢ none)
    × (enter 0 one_token fresh stacks_grown_1 ≢ none)
stack_writes_fit_example = stack_writes_fit 0 one_token fresh 5 fresh-IsSound (omega arith)
