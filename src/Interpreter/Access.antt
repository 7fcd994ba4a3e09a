-- ===== src/Interpreter/Access.antt =====
-- runtime/interp.c: basic stack operations, and access to the environment.
use trav_lang.Common.{ℕ, Option, some, ◌>>=◌, get_elem?, store}
use trav_lang.Interpreter.Opcodes.{
  AccessOp, acc0, acc1, acc2, acc3, acc4, acc5, acc6, acc7, acc, push, pushacc0, pushacc1, pushacc2,
  pushacc3, pushacc4, pushacc5, pushacc6, pushacc7, pushacc, pop, assign, envacc1, envacc2, envacc3,
  envacc4, envacc, pushenvacc1, pushenvacc2, pushenvacc3, pushenvacc4, pushenvacc,
}
use trav_lang.Interpreter.{State, val_unit, field, count, advance, pushed, popped}

-- `accu = sp[n]`, and `accu = Field(env, n)`.
unfoldable pub stack_slot : ℕ → State → Option State
stack_slot n s = do v ← get_elem? s.sp n; some (record s { accu = v })

unfoldable pub env_slot : ℕ → State → Option State
unfolding field
env_slot n s = do v ← field s.heap s.env n; some (record s { accu = v })

-- The forms that take their number from `*pc++`.
unfoldable pub with_count : (ℕ → State → Option State) → State → Option State
unfolding count
with_count f s = do n ← count s 0; f n (advance 1 s)

unfoldable pub pop_slots : ℕ → State → Option State
unfolding popped
pop_slots n s = do rest ← popped n s.sp; some (record s { sp = rest })

unfoldable pub assign_slot : ℕ → State → Option State
assign_slot n s = do sp ← store s.sp n s.accu; some (record s { sp = sp; accu = val_unit })

unfoldable pub exec_access : AccessOp → State → Option State
unfolding stack_slot env_slot with_count pop_slots assign_slot
exec_access acc0 s = stack_slot 0 s
exec_access acc1 s = stack_slot 1 s
exec_access acc2 s = stack_slot 2 s
exec_access acc3 s = stack_slot 3 s
exec_access acc4 s = stack_slot 4 s
exec_access acc5 s = stack_slot 5 s
exec_access acc6 s = stack_slot 6 s
exec_access acc7 s = stack_slot 7 s
exec_access push s = some (pushed s)
exec_access pushacc0 s = some (pushed s)
exec_access pushacc1 s = stack_slot 1 (pushed s)
exec_access pushacc2 s = stack_slot 2 (pushed s)
exec_access pushacc3 s = stack_slot 3 (pushed s)
exec_access pushacc4 s = stack_slot 4 (pushed s)
exec_access pushacc5 s = stack_slot 5 (pushed s)
exec_access pushacc6 s = stack_slot 6 (pushed s)
exec_access pushacc7 s = stack_slot 7 (pushed s)
exec_access pushacc s = with_count stack_slot (pushed s)
exec_access acc s = with_count stack_slot s
exec_access pop s = with_count pop_slots s
exec_access assign s = with_count assign_slot s
exec_access envacc1 s = env_slot 1 s
exec_access envacc2 s = env_slot 2 s
exec_access envacc3 s = env_slot 3 s
exec_access envacc4 s = env_slot 4 s
exec_access pushenvacc1 s = env_slot 1 (pushed s)
exec_access pushenvacc2 s = env_slot 2 (pushed s)
exec_access pushenvacc3 s = env_slot 3 (pushed s)
exec_access pushenvacc4 s = env_slot 4 (pushed s)
exec_access pushenvacc s = with_count env_slot (pushed s)
exec_access envacc s = with_count env_slot s
