-- ===== src/Interpreter/Traps.antt =====
-- runtime/interp.c: what PUSHTRAP saves, POPTRAP and a raised exception restore.
use trav_lang.Common.{
  ℕ, suc, ◌+◌, ◌-◌, ◌^◌, ◌<◌, ◌≡◌, refl, ◌∙◌, ap, List, [], ◌∷◌, ◌++◌, true, some, length, drop,
  leb, arith, length-append, drop-append,
}
use trav_lang.Common.Int.{ℤ, pos, negsuc}
use trav_lang.Interpreter.{Value, word, code, State, val_long, long_val, peek, offset, popped}
use trav_lang.Interpreter.Control.{
  next, push_trap, pop_trap, unwind, resume_frame, raise_value, below_top,
}

-- A signed number of 62 bits and its sign.
abbrev pub IsLong : ℤ → Type 0
IsLong (pos n) = n < 2 ^ 62
IsLong (negsuc n) = n < 2 ^ 62

pub long_val-val_long : (z : ℤ) → IsLong z → long_val (val_long z) ≡ z
unfolding val_long long_val
long_val-val_long (pos n) h = ground arith
long_val-val_long (negsuc n) h = ground arith

-- The frame of a trap.
abbrev pub trap_frame : ℕ → State → List Value
trap_frame handler s =
    code handler ∷ word (val_long s.trap_sp_off) ∷ s.env ∷ word (val_long (pos s.extra_args)) ∷ []

-- A state in which the trap that `s` set is the innermost, with `inner` on the stack above its frame.
pub record IsInside (handler : ℕ) (inner : List Value) (s t : State) : Type 0 where
  pub stack : t.sp ≡ inner ++ (trap_frame handler s ++ s.sp)
  pub trap : t.trap_sp_off ≡ below_top (length (trap_frame handler s ++ s.sp))

-- The handler runs, or the instruction after POPTRAP, with the stack, the environment, the argument count and
-- the trap that there were.
abbrev pub unwound : ℕ → State → State → State
unwound pc s t = record t {
  pc = pc;
  sp = s.sp;
  env = s.env;
  extra_args = s.extra_args;
  trap_sp_off = s.trap_sp_off;
}

resume_frame-unwound :
    (handler : ℕ) (s t : State)
    → s.extra_args < 2 ^ 62
    → IsLong s.trap_sp_off
    → resume_frame (trap_frame handler s ++ s.sp) t ≡ some (unwound handler s t)
unfolding resume_frame popped
resume_frame-unwound handler s t h k =
    let l : leb 4 (suc (suc (suc (suc (length s.sp))))) ≡ true = ground arith in
    simp (long_val-val_long s.trap_sp_off k, long_val-val_long (pos s.extra_args) h, l) refl

unwind-unwound :
    (handler : ℕ) (inner : List Value) (s t : State)
    → s.extra_args < 2 ^ 62
    → IsLong s.trap_sp_off
    → t.sp ≡ inner ++ (trap_frame handler s ++ s.sp)
    → unwind (length (trap_frame handler s ++ s.sp)) t ≡ some (unwound handler s t)
unfolding unwind
unwind-unwound handler inner s t h k e =
    let outer = trap_frame handler s ++ s.sp in
    let size : length t.sp ≡ length inner + length outer =
      ap length e ∙ length-append inner outer in
    let inside : leb (length outer) (length t.sp) ≡ true = ground arith in
    let frame : drop (length t.sp - length outer) t.sp ≡ outer =
      simp e (drop-append inner outer _ (rw (length-append inner outer) (omega arith))) in
    simp (inside, frame) (resume_frame-unwound handler s t h k)

-- PUSHTRAP: the new trap is the innermost, and the code goes on behind it.
push_trap-IsInside :
    (s : State) (z : ℤ) (handler : ℕ)
    → peek s 0 ≡ some z
    → offset s.pc z ≡ some handler
    → (t : State) × (push_trap s ≡ some t) × IsInside handler [] s t × (t.pc ≡ s.pc + 1)
unfolding push_trap
push_trap-IsInside s z handler e f =
    let t : State = record s {
      sp = trap_frame handler s ++ s.sp;
      trap_sp_off = below_top (length (trap_frame handler s ++ s.sp));
      pc = s.pc + 1;
    } in
    (t, simp (e, f) refl, record { stack = refl; trap = refl }, refl)

raise_value-unwound :
    (handler : ℕ) (inner : List Value) (s t : State)
    → s.extra_args < 2 ^ 62
    → IsLong s.trap_sp_off
    → IsInside handler inner s t
    → raise_value t ≡ next (unwound handler s t)
unfolding raise_value
raise_value-unwound handler inner s t h k i =
    ground (arith, unwind-unwound handler inner s t h k i.stack)

pop_trap-unwound :
    (handler : ℕ) (s t : State)
    → s.extra_args < 2 ^ 62
    → IsLong s.trap_sp_off
    → IsInside handler [] s t
    → pop_trap t ≡ some (record t { sp = s.sp; trap_sp_off = s.trap_sp_off })
unfolding pop_trap popped
pop_trap-unwound handler s t h k i =
    let l : leb 4 (suc (suc (suc (suc (length s.sp))))) ≡ true = ground arith in
    simp (i.stack, long_val-val_long s.trap_sp_off k, l) refl

-- A trap that PUSHTRAP sets, with a handler in the code, holds whatever the code inside it has put on the
-- stack. While it is the innermost one, an exception goes to the handler, with the exception in the
-- accumulator and the stack, the environment, the argument count and the trap as they were before PUSHTRAP;
-- and POPTRAP, with nothing above the frame, gives back that stack and that trap. Argument count and trap
-- are numbers below 2 ^ 62.
pub trap_restores :
    (inner : List Value) (s t u : State) (z : ℤ) (handler : ℕ)
    → s.extra_args < 2 ^ 62
    → IsLong s.trap_sp_off
    → peek s 0 ≡ some z
    → offset s.pc z ≡ some handler
    → IsInside handler inner s t
    → IsInside handler [] s u
    → ((v : State) × (push_trap s ≡ some v) × IsInside handler [] s v × (v.pc ≡ s.pc + 1))
      × (raise_value t ≡ next (unwound handler s t))
      × (pop_trap u ≡ some (record u { sp = s.sp; trap_sp_off = s.trap_sp_off }))
trap_restores inner s t u z handler h k e f i j = (
  push_trap-IsInside s z handler e f,
  raise_value-unwound handler inner s t h k i,
  pop_trap-unwound handler s u h k j,
)
