-- ===== src/Parsing/Stacks.antt =====
-- The four stacks keep their common size, and the stack pointer stays inside, or asks for more room.
use trav_lang.Common.{
  ℕ, zero, suc, ◌<◌, ◌≡◌, ◌≢◌, refl, Option, none, some, IfSome, length, ◌>>=◌, length-set, set,
  store-set, ◌∙◌, get_elem?-lt, ltb, if◌then◌else◌, arith,
}
use trav_lang.Parsing.{
  ParserTables, ParserEnv, Locals, Token, const_token, block_token, Command, start, token_read,
  stacks_grown_1, stacks_grown_2, semantic_action_computed, error_detected, restore,
}
use trav_lang.Parsing.Engine.{
  Next, stop, again, Outcome, output, fault, no_fuel, push, testshift, loop_round, after, loop,
  read_in, computed, enter, parse_engine,
}
use trav_lang.Parsing.Total.{weight, loop_round-weight}
use trav_lang.Parsing.Steps.{
  IsSound, Answered, Going, Entered, recover-Going, testshift-Going, loop_round-Going,
}

module _ {V P : Type 0} where
  -- How a call ends: with an answer, unless it reads outside the tables or the stacks.
  abbrev pub Replied : Outcome V P → Type 0
  Replied (output out env) = Answered out env
  Replied fault = Unit {0}
  Replied no_fuel = ⊥

  loop-Replied :
      (tbl : ParserTables) (fuel : ℕ) (env : ParserEnv V P) (l : Locals)
      → Entered env l
      → weight env l < fuel
      → Replied (loop fuel tbl env l)
  unfolding loop
  loop-Replied tbl zero env l h lt = absurd (omega arith)
  loop-Replied tbl (suc fuel) env l h lt =
      go (loop_round tbl env l) (loop_round-Going tbl env l h)
        (λ e k u. loop_round-weight tbl env l e k u) (loop-Replied tbl fuel)
    where
      go :
          (r : Option (Next V P))
          → IfSome Going r
          → ((env' : ParserEnv V P) (l' : Locals)
              → r ≡ some (again env' l')
              → weight env' l' < weight env l)
          → ((env' : ParserEnv V P) (l' : Locals)
              → Entered env' l'
              → weight env' l' < fuel
              → Replied (loop fuel tbl env' l'))
          → Replied (after (loop fuel tbl) r)
      go none g u ih = tt
      go (some (stop out env')) g u ih = g
      go (some (again env' l')) g u ih = ih env' l' g (omega (arith, u env' l' refl))

  -- With the stacks sound and the pointer inside, the writes of an action's result go through.
  computed-Going :
      (env : ParserEnv V P) (arg : V)
      → IsSound env
      → env.sp < env.stacksize
      → (n : Next V P) × (computed env arg ≡ some n) × Going n
  unfolding computed
  computed-Going env arg s inside =
      let (e, he) =
        get_elem?-lt env.symb_end_stack env.asp (omega (arith, s.asp_inside, s.end_size)) in
      let b = set env.symb_end_stack env.sp e in
      let lb : length b ≡ env.stacksize = length-set env.symb_end_stack env.sp e ∙ s.end_size in
      let (e', he') = get_elem?-lt b env.asp (omega (arith, s.asp_inside)) in
      let a =
        if ltb env.asp env.sp then set env.symb_start_stack env.sp e' else env.symb_start_stack in
      (
        again
            (record env {
              s_stack = set env.s_stack env.sp env.state;
              v_stack = set env.v_stack env.sp arg;
              symb_start_stack = a;
              symb_end_stack = b;
            })
            (restore env),
        ground (
          arith,
          store-set env.s_stack env.sp env.state,
          store-set env.v_stack env.sp arg,
          store-set env.symb_end_stack env.sp e,
          store-set env.symb_start_stack env.sp e',
        ),
        ground (
          arith,
          length-set env.s_stack env.sp env.state,
          length-set env.v_stack env.sp arg,
          length-set env.symb_start_stack env.sp e',
        ),
      )

  push-Going :
      (env : ParserEnv V P)
      → IsSound env
      → env.sp < env.stacksize
      → (n : Next V P) × (push env (restore env) ≡ some n) × Going n
  unfolding push
  push-Going env s inside = (
    again
        (record env {
          s_stack = set env.s_stack env.sp env.state;
          v_stack = set env.v_stack env.sp env.lval;
          symb_start_stack = set env.symb_start_stack env.sp env.symb_start;
          symb_end_stack = set env.symb_end_stack env.sp env.symb_end;
        })
        (restore env),
    ground (
      arith,
      store-set env.s_stack env.sp env.state,
      store-set env.v_stack env.sp env.lval,
      store-set env.symb_start_stack env.sp env.symb_start,
      store-set env.symb_end_stack env.sp env.symb_end,
    ),
    ground (
      arith,
      length-set env.s_stack env.sp env.state,
      length-set env.v_stack env.sp env.lval,
      length-set env.symb_start_stack env.sp env.symb_start,
      length-set env.symb_end_stack env.sp env.symb_end,
    ),
  )

  read_in-Entered :
      (unit : V) (tbl : ParserTables) (env : ParserEnv V P) (tok : Token V)
      → IsSound env
      → env.sp < env.stacksize
      → IfSome (λ e. Entered e (restore env)) (read_in unit tbl env tok)
  unfolding read_in
  read_in-Entered unit tbl env (const_token n) s inside = ground arith
  read_in-Entered unit tbl env (block_token n v) s inside = ground arith

  enter-Going :
      (unit : V) (tbl : ParserTables) (env : ParserEnv V P) (cmd : Command V)
      → IsSound env
      → env.sp < env.stacksize
      → IfSome Going (enter unit tbl env cmd)
  unfolding enter
  enter-Going unit tbl env start s inside = ground arith
  enter-Going unit tbl env (token_read tok) s inside =
      go (read_in unit tbl env tok) (read_in-Entered unit tbl env tok s inside)
    where
      go :
          (r : Option (ParserEnv V P))
          → IfSome (λ e. Entered e (restore env)) r
          → IfSome Going (r >>= (λ e. testshift tbl e (restore env)))
      go none h = tt
      go (some e) h = testshift-Going tbl e (restore env) h
  enter-Going unit tbl env error_detected s inside =
      recover-Going tbl env (restore env) (ground arith)
  enter-Going unit tbl env stacks_grown_1 s inside =
      let (n, e, g) = push-Going env s inside in rw e g
  enter-Going unit tbl env stacks_grown_2 s inside = (s, inside)
  enter-Going unit tbl env (semantic_action_computed arg) s inside =
      let (n, e, g) = computed-Going env arg s inside in rw e g

  -- From stacks of the recorded size, with `asp` and the stack pointer in them and an error flag of at
  -- most 3, every command ends. Unless it reads outside the tables, or a reduction reads outside the
  -- stacks, since the rule's length does not fit what is there, it leaves stacks of the recorded size,
  -- `asp` in them and the flag at most 3; and the saved pointer is in the stacks, but for the two
  -- requests to grow: there it is at the first free place, or for a reduction at least that far.
  pub parse_engine-Replied :
      (unit : V) (tbl : ParserTables) (env : ParserEnv V P) (cmd : Command V)
      → IsSound env
      → env.sp < env.stacksize
      → Replied (parse_engine unit tbl env cmd)
  unfolding parse_engine
  parse_engine-Replied unit tbl env cmd s inside =
      go (enter unit tbl env cmd) (enter-Going unit tbl env cmd s inside)
    where
      go : (r : Option (Next V P)) → IfSome Going r → Replied (after (loop 3 tbl) r)
      go none g = tt
      go (some (stop out env')) g = g
      go (some (again env' l')) g = loop-Replied tbl 3 env' l' g (ground arith)

  -- Under the same conditions the commands that write the stacks, after an action and after the stacks
  -- have grown for a shift, make all their reads and writes in bounds.
  pub stack_writes_fit :
      (unit : V) (tbl : ParserTables) (env : ParserEnv V P) (arg : V)
      → IsSound env
      → env.sp < env.stacksize
      → (enter unit tbl env (semantic_action_computed arg) ≢ none)
        × (enter unit tbl env stacks_grown_1 ≢ none)
  unfolding enter
  stack_writes_fit unit tbl env arg s inside =
      let (n, e, g) = computed-Going env arg s inside in
      let (m, f, h) = push-Going env s inside in (λ k. cc, λ k. cc)
