-- ===== src/Parsing/Steps.antt =====
-- runtime/parsing.c: each step keeps the size of the four stacks and the stack pointer inside, or asks for room.
use trav_lang.Common.{
  ℕ, zero, suc, ◌+◌, ◌-◌, ◌≤◌, ◌<◌, ◌≡◌, Option, none, some, IfSome, IfSome-bind, length, get_elem?,
  length-store, arith,
}
use trav_lang.Common.Int.{ℤ, negsuc}
use trav_lang.Lexing.{short}
use trav_lang.Parsing.{
  ParserTables, ParserEnv, Locals, Output, raise_parse_error, grow_stacks_1, grow_stacks_2,
  find_entry,
}
use trav_lang.Parsing.Engine.{
  Next, stop, again, push_or_grow, shift_recover, shift, reduce, recover_scan, recover, testreduce,
  testshift, loop_round, errcode,
}

module _ {V P : Type 0} where
  -- The stacks have the recorded size; `asp` points into them; the error flag is at most 3.
  pub record IsSound (env : ParserEnv V P) : Type 0 where
    pub s_size : length env.s_stack ≡ env.stacksize
    pub v_size : length env.v_stack ≡ env.stacksize
    pub start_size : length env.symb_start_stack ≡ env.stacksize
    pub end_size : length env.symb_end_stack ≡ env.stacksize
    pub asp_inside : env.asp < env.stacksize
    pub flag : env.errflag ≤ 3

  -- An output: the pointer is inside, or just above where the stacks have to grow.
  abbrev pub Answered : Output → ParserEnv V P → Type 0
  Answered grow_stacks_1 env = IsSound env × (env.sp ≡ env.stacksize)
  Answered grow_stacks_2 env = IsSound env × (env.stacksize ≤ env.sp)
  Answered _ env = IsSound env × (env.sp < env.stacksize)

  abbrev pub Going : Next V P → Type 0
  Going (stop out env) = Answered out env
  Going (again env l) =
      IsSound env × (env.sp < env.stacksize) × (l.sp < env.stacksize) × (l.errflag ≤ 3)

  pub push_or_grow-Going :
      (env : ParserEnv V P) (l : Locals)
      → IsSound env
      → env.sp < env.stacksize
      → l.sp ≤ env.stacksize
      → l.errflag ≤ 3
      → IfSome Going (push_or_grow env l)
  unfolding push_or_grow
  push_or_grow-Going env l s inside le flag = ground (
    arith,
    length-store env.s_stack l.sp l.state,
    length-store env.v_stack l.sp env.lval,
    length-store env.symb_start_stack l.sp env.symb_start,
    length-store env.symb_end_stack l.sp env.symb_end,
  )

  -- What each label is given.
  abbrev pub Entered : ParserEnv V P → Locals → Type 0
  Entered env l = IsSound env × (env.sp < env.stacksize) × (l.sp < env.stacksize) × (l.errflag ≤ 3)

  pub shift_recover-Going :
      (tbl : ParserTables) (env : ParserEnv V P) (l : Locals) (n : ℕ)
      → Entered env l
      → IfSome Going (shift_recover tbl env l n)
  unfolding shift_recover
  shift_recover-Going tbl env l n (s, inside, top, flag) =
      IfSome-bind Going (short tbl.table n) _ λ z.
        push_or_grow-Going env (record l { state = z; sp = l.sp + 1 }) s inside (omega arith) flag

  pub shift-Going :
      (tbl : ParserTables) (env : ParserEnv V P) (l : Locals) (n : ℕ)
      → Entered env l
      → IfSome Going (shift tbl env l n)
  unfolding shift
  shift-Going tbl env l n h =
      shift_recover-Going tbl (record env { curr_char = negsuc 0 })
        (record l { errflag = l.errflag - 1 }) n (ground arith)

  pub reduce-Going :
      (tbl : ParserTables) (env : ParserEnv V P) (l : Locals) (n : ℤ)
      → Entered env l
      → IfSome Going (reduce tbl env l n)
  unfolding reduce
  reduce-Going tbl env l n h = ground arith

  pub recover_scan-Going :
      (tbl : ParserTables) (env : ParserEnv V P) (l : Locals) (sp : ℕ)
      → Entered env (record l { sp = sp })
      → IfSome Going (recover_scan tbl env l sp)
  unfolding recover_scan
  recover_scan-Going tbl env l zero h = IfSome-bind Going (get_elem? env.s_stack 0) _ λ s1.
      IfSome-bind Going (find_entry tbl tbl.sindex s1 errcode) _ λ e.
        elim e
          as (λ e. IfSome Going (elim e as (λ _. Option (Next V P)) [
            | none ↦ some (stop raise_parse_error env)
            | some n2 ↦ shift_recover tbl env (record l { sp = 0 }) n2
          ])) [
            | none ↦ (h.0, h.1)
            | some n2 ↦ shift_recover-Going tbl env (record l { sp = 0 }) n2 h
          ]
  recover_scan-Going tbl env l (suc sp) h =
      let ih = recover_scan-Going tbl env l sp (ground arith) in
      IfSome-bind Going (get_elem? env.s_stack (suc sp)) _ λ s1.
        IfSome-bind Going (find_entry tbl tbl.sindex s1 errcode) _
          λ e. grind (arith, shift_recover-Going tbl env (record l { sp = suc sp }))

  pub recover-Going :
      (tbl : ParserTables) (env : ParserEnv V P) (l : Locals)
      → Entered env l
      → IfSome Going (recover tbl env l)
  unfolding recover
  recover-Going tbl env l h =
      ground (arith, recover_scan-Going tbl env (record l { errflag = 3 }) l.sp)

  pub testreduce-Going :
      (tbl : ParserTables) (env : ParserEnv V P) (l : Locals)
      → Entered env l
      → IfSome Going (testreduce tbl env l)
  unfolding testreduce
  testreduce-Going tbl env l h = grind (arith, recover-Going tbl env l, reduce-Going tbl env l)

  pub testshift-Going :
      (tbl : ParserTables) (env : ParserEnv V P) (l : Locals)
      → Entered env l
      → IfSome Going (testshift tbl env l)
  unfolding testshift
  testshift-Going tbl env l h =
      IfSome-bind Going (find_entry tbl tbl.sindex l.state env.curr_char) _
        λ e. grind (arith, shift-Going tbl env l, testreduce-Going tbl env l)

  pub loop_round-Going :
      (tbl : ParserTables) (env : ParserEnv V P) (l : Locals)
      → Entered env l
      → IfSome Going (loop_round tbl env l)
  unfolding loop_round
  loop_round-Going tbl env l h = grind (arith, testshift-Going tbl env l, reduce-Going tbl env l)
