-- ===== src/Interpreter/Currying.antt =====
-- runtime/interp.c: partial application. GRAB makes a closure of the arguments that are there, and applying
-- it goes through RESTART.
use trav_lang.Common.{
  ℕ, suc, ◌+◌, ◌-◌, ◌^◌, ◌≤◌, ◌<◌, ◌≡◌, refl, sym, ◌∙◌, ap, List, [], ◌∷◌, ◌++◌, true, false, some,
  ◌>>=◌, get_elem?, length, take, leb, arith, length-append, take-append, drop-append,
}
use trav_lang.Common.Int.{pos, negsuc}
use trav_lang.Interpreter.{
  Value, word, code, block, Block, State, opcode, val_long, long_val, field, alloc, offset, popped,
  code_val, enter_closure, closinfo, closure_tag,
}
use trav_lang.Interpreter.Opcodes.{call, restart}
use trav_lang.Interpreter.Calls.{
  restore_frame, do_return, partial_closure, restart_closure, grab_arguments, exec_call,
}
use trav_lang.Interpreter.Control.{next, Reply, outcome}
use trav_lang.Interpreter.Machine.{exec, step}

pub long_val-val_long : (n : ℕ) → n < 2 ^ 62 → long_val (val_long (pos n)) ≡ pos n
unfolding val_long long_val
long_val-val_long n h = ground arith

popped-append : (xs ys : List Value) (n : ℕ) → n ≡ length xs → popped n (xs ++ ys) ≡ some ys
unfolding popped
popped-append xs ys n e = ground (arith, length-append {0} xs ys, drop-append xs ys n e)

-- The return to a frame: the code, the environment and the number of further arguments that it holds.
abbrev pub framed : ℕ → Value → ℕ → List Value → List Value
framed pc env extra rest = code pc ∷ env ∷ word (val_long (pos extra)) ∷ rest

abbrev pub back : ℕ → Value → ℕ → List Value → State → State
back pc env extra rest s = record s { pc = pc; env = env; extra_args = extra; sp = rest }

restore_frame-framed :
    (pc extra : ℕ) (env : Value) (rest : List Value) (s : State)
    → extra < 2 ^ 62
    → restore_frame (code pc) env (word (val_long (pos extra))) rest s
      ≡ some (back pc env extra rest s)
restore_frame-framed pc extra env rest s h = ground (arith, long_val-val_long extra h)

pub do_return-framed :
    (s : State) (pc extra : ℕ) (env : Value) (rest : List Value)
    → extra < 2 ^ 62
    → s.sp ≡ framed pc env extra rest
    → do_return s ≡ some (back pc env extra rest s)
unfolding do_return popped
do_return-framed s pc extra env rest h e =
    let l : leb 3 (length (framed pc env extra rest)) ≡ true = ground arith in
    simp (e, l, restore_frame-framed pc extra env rest s h) refl

-- The closure that GRAB makes at `pc`, behind its operand: the code of the RESTART before it, the
-- environment and the arguments.
abbrev pub partial_block : ℕ → Value → List Value → Block
partial_block pc env args = record {
  tag = closure_tag;
  fields = code (pc - 3) ∷ closinfo 2 ∷ env ∷ args;
}

-- The state behind a GRAB that lacks arguments: the caller's, with the closure.
abbrev pub suspended : ℕ → Value → ℕ → List Value → List Value → State → State
suspended pc env extra args rest s = record s {
  accu = block (length s.heap) 0;
  heap = s.heap ++ (partial_block s.pc s.env args ∷ []);
  pc = pc;
  env = env;
  extra_args = extra;
  sp = rest;
}

pub grab_arguments-suspended :
    (required pc extra : ℕ) (env : Value) (args rest : List Value) (s : State)
    → s.extra_args < required
    → 3 ≤ s.pc
    → extra < 2 ^ 62
    → length args ≡ s.extra_args + 1
    → s.sp ≡ args ++ framed pc env extra rest
    → grab_arguments required s ≡ some (suspended pc env extra args rest s)
unfolding grab_arguments
grab_arguments-suspended required pc extra env args rest s h k l n e =
    let few : leb required s.extra_args ≡ false = ground arith in
    let popped_args : popped (s.extra_args + 1) s.sp ≡ some (framed pc env extra rest) =
      simp e (popped-append args (framed pc env extra rest) (s.extra_args + 1) (sym n)) in
    let taken : take (s.extra_args + 1) s.sp ≡ args =
      simp e (take-append args (framed pc env extra rest) (s.extra_args + 1) (sym n)) in
    let before : offset s.pc (negsuc 2) ≡ some (s.pc - 3) = ground arith in
    let made : State = record (alloc closure_tag (partial_closure (s.pc - 3) args s.env) s) {
      sp = framed pc env extra rest;
    } in
    simp (few, popped_args, taken, before) (do_return-framed made pc extra env rest l refl)

-- The state behind the RESTART: all arguments are on the stack, in the environment of the function.
abbrev pub restarted : ℕ → Value → List Value → ℕ → State → State
restarted pc env args m t = record t {
  pc = pc - 2;
  sp = args ++ t.sp;
  env = env;
  extra_args = m + length args;
}

enter_closure-partial :
    (a m pc : ℕ) (env : Value) (args : List Value) (t : State)
    → get_elem? t.heap a ≡ some (partial_block pc env args)
    → t.accu ≡ block a 0
    → enter_closure m t ≡ some (record t { pc = pc - 3; env = block a 0; extra_args = m })
unfolding enter_closure code_val field
enter_closure-partial a m pc env args t e f = simp (f, e) refl

restart-partial :
    (a m pc : ℕ) (env : Value) (args : List Value) (t : State)
    → get_elem? t.heap a ≡ some (partial_block pc env args)
    → restart_closure (record t { pc = pc - 3 + 1; env = block a 0; extra_args = m })
      ≡ some
          (record t { pc = pc - 3 + 1; sp = args ++ t.sp; env = env; extra_args = m + length args })
unfolding restart_closure field
restart-partial a m pc env args t e =
    let l : leb 3 (suc (suc (suc (length args)))) ≡ true = ground arith in
    let n : suc (suc (suc (length args))) - 3 ≡ length args = omega arith in simp (e, l, n) refl

module _ (zero_divide : Value) (primitive : ℕ → List Value → List Block → Reply) where
  step-restart :
      (a m pc : ℕ) (env : Value) (args : List Value) (t : State)
      → 3 ≤ pc
      → get_elem? t.heap a ≡ some (partial_block pc env args)
      → get_elem? t.program (pc - 3) ≡ some (opcode (call restart))
      → step zero_divide primitive (record t { pc = pc - 3; env = block a 0; extra_args = m })
        ≡ next (restarted pc env args m t)
  unfolding step exec exec_call
  step-restart a m pc env args t h e o =
      let place : pc - 3 + 1 ≡ pc - 2 = omega arith in
      simp o (
        ap outcome (restart-partial a m pc env args t e)
        ∙ ap
            (λ k.
              next
                (record t { pc = k; sp = args ++ t.sp; env = env; extra_args = m + length args }))
            place)

  -- Partial application. A GRAB that lacks arguments returns to the caller's frame with a closure of those
  -- that are there. In any later state in which the accumulator is that closure, still in the heap, applying
  -- it to more arguments enters the RESTART before the GRAB, and this leaves the GRAB to run with the kept
  -- arguments on top of the new ones, counted with them, in the function's environment. This holds of an
  -- argument count below 2 ^ 62 in the caller's frame.
  pub partial_application :
      (required pc extra m : ℕ) (env : Value) (args rest : List Value) (s t : State)
      → s.extra_args < required
      → 3 ≤ s.pc
      → extra < 2 ^ 62
      → length args ≡ s.extra_args + 1
      → s.sp ≡ args ++ framed pc env extra rest
      → t.accu ≡ block (length s.heap) 0
      → get_elem? t.heap (length s.heap) ≡ some (partial_block s.pc s.env args)
      → get_elem? t.program (s.pc - 3) ≡ some (opcode (call restart))
      → (grab_arguments required s ≡ some (suspended pc env extra args rest s))
        × ((enter_closure m t >>= λ u. some (step zero_divide primitive u))
            ≡ some (next (restarted s.pc s.env args m t)))
  partial_application required pc extra m env args rest s t h k l n e f g o = (
    grab_arguments-suspended required pc extra env args rest s h k l n e,
    simp
        (
          enter_closure-partial (length s.heap) m s.pc s.env args t g f,
          step-restart (length s.heap) m s.pc s.env args t k g o,
        )
        refl,
  )
