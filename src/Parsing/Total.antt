-- ===== src/Parsing/Total.antt =====
-- Every call of the engine ends: between two returns to `loop` the current token is consumed or thrown
-- away, or the error flag rises to 3 with the token kept, which happens at most once.
use trav_lang.Common.{
  ℕ, zero, suc, ◌<◌, ◌≡◌, ◌≢◌, refl, true, Option, none, some, ltb, if◌then◌else◌, arith,
}
use trav_lang.Common.Int.{ℤ}
use trav_lang.Parsing.{ParserTables, ParserEnv, Locals, Command, is_nonneg}
use trav_lang.Parsing.Engine.{
  Next, stop, again, no_fuel, shift_recover, reduce, recover_scan, recover, testreduce, testshift,
  loop_round, after, loop, enter, parse_engine,
}

module _ {V P : Type 0} where
  -- Rounds of `loop` that can still go on.
  abbrev pub weight : ParserEnv V P → Locals → ℕ
  weight env l = if is_nonneg env.curr_char then if ltb l.errflag 3 then 2 else 1 else 0

  -- A state found by the recovery keeps the token and the error flag.
  recover_scan-again :
      (tbl : ParserTables) (env : ParserEnv V P) (l : Locals) (sp : ℕ) {env' : ParserEnv V P}
      {l' : Locals}
      → recover_scan tbl env l sp ≡ some (again env' l')
      → (env'.curr_char ≡ env.curr_char) × (l'.errflag ≡ l.errflag)
  unfolding recover_scan shift_recover
  recover_scan-again tbl env l zero h = ground arith
  recover_scan-again tbl env l (suc sp) {env'} {l'} h =
      ground (arith, recover_scan-again tbl env l sp {env' = env'} {l' = l'})

  -- With a token at hand, a label that returns to `loop` loses weight.
  recover-weight :
      (tbl : ParserTables) (env : ParserEnv V P) (l : Locals) (env' : ParserEnv V P) (l' : Locals)
      → is_nonneg env.curr_char ≡ true
      → recover tbl env l ≡ some (again env' l')
      → weight env' l' < weight env l
  unfolding recover
  recover-weight tbl env l env' l' c h =
      ground
        (arith, recover_scan-again tbl env (record l { errflag = 3 }) l.sp {env' = env'} {l' = l'})

  reduce-stops :
      (tbl : ParserTables) (env : ParserEnv V P) (l : Locals) (n : ℤ) (env' : ParserEnv V P)
      (l' : Locals)
      → reduce tbl env l n ≢ some (again env' l')
  unfolding reduce
  reduce-stops tbl env l n env' l' h = ground arith

  testreduce-weight :
      (tbl : ParserTables) (env : ParserEnv V P) (l : Locals) (env' : ParserEnv V P) (l' : Locals)
      → is_nonneg env.curr_char ≡ true
      → testreduce tbl env l ≡ some (again env' l')
      → weight env' l' < weight env l
  unfolding testreduce
  testreduce-weight tbl env l env' l' c h =
      grind (arith, recover-weight tbl env l env' l' c, reduce-stops)

  testshift-weight :
      (tbl : ParserTables) (env : ParserEnv V P) (l : Locals) (env' : ParserEnv V P) (l' : Locals)
      → is_nonneg env.curr_char ≡ true
      → testshift tbl env l ≡ some (again env' l')
      → weight env' l' < weight env l
  unfolding testshift
  testshift-weight tbl env l env' l' c h = ground (arith, testreduce-weight tbl env l env' l' c)

  pub loop_round-weight :
      (tbl : ParserTables) (env : ParserEnv V P) (l : Locals) (env' : ParserEnv V P) (l' : Locals)
      → loop_round tbl env l ≡ some (again env' l')
      → weight env' l' < weight env l
  unfolding loop_round
  loop_round-weight tbl env l env' l' h =
      grind (arith, testshift-weight tbl env l env' l', reduce-stops)

  loop-ends :
      (tbl : ParserTables) (fuel : ℕ) (env : ParserEnv V P) (l : Locals)
      → weight env l < fuel
      → loop fuel tbl env l ≢ no_fuel
  unfolding loop
  loop-ends tbl zero env l h = absurd (omega arith)
  loop-ends tbl (suc fuel) env l h =
      go (loop_round tbl env l) (λ e k u. loop_round-weight tbl env l e k u) (loop-ends tbl fuel)
    where
      go :
          (r : Option (Next V P))
          → ((env' : ParserEnv V P) (l' : Locals)
              → r ≡ some (again env' l')
              → weight env' l' < weight env l)
          → ((env' : ParserEnv V P) (l' : Locals)
              → weight env' l' < fuel
              → loop fuel tbl env' l' ≢ no_fuel)
          → after (loop fuel tbl) r ≢ no_fuel
      go none u ih = λ e. cc
      go (some (stop out env')) u ih = λ e. cc
      go (some (again env' l')) u ih = ih env' l' (omega (arith, u env' l' refl))

  -- A call of `caml_parse_engine` with any command ends, whatever the tables and the environment: three
  -- rounds of `loop` are enough.
  pub parse_engine_ends :
      (unit : V) (tbl : ParserTables) (env : ParserEnv V P) (cmd : Command V)
      → parse_engine unit tbl env cmd ≢ no_fuel
  unfolding parse_engine
  parse_engine_ends unit tbl env cmd = go (enter unit tbl env cmd)
    where
      go : (r : Option (Next V P)) → after (loop 3 tbl) r ≢ no_fuel
      go none = λ e. cc
      go (some (stop out env')) = λ e. cc
      go (some (again env' l')) = loop-ends tbl 3 env' l' (ground arith)
