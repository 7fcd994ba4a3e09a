-- ===== src/Lexing/Refill.antt =====
-- Refilling the buffer is invisible: a call that stops for a refill, the refill, and the reentry do what
-- one call does on the longer buffer.
use trav_lang.Common.{
  ℕ, zero, suc, ◌+◌, ◌≤◌, ◌<◌, ◌≡◌, refl, sym, ◌∙◌, false, List, ◌++◌, Option, none, some, length,
  take, get_elem?, get_elem?-take, get_elem?_prefix, length-take, arith,
}
use trav_lang.Common.Int.{ℤ, pos, negsuc}
use trav_lang.Lexing.{LexingTable, LexerBuffer, Round, returned, empty_token, continue, lex_round}
use trav_lang.Lexing.Total.{left, lex_round-left}
use trav_lang.Lexing.Positions.{IsOrdered, Rounded, Ready, lex_round-Rounded}
use trav_lang.Lexing.Engine.{
  Result, result, failure, fault, no_fuel, after, lex_loop, run_engine, first_entry, lex_engine,
}

-- The characters that a refill adds behind the valid part of the buffer.
abbrev pub extend : List ℕ → LexerBuffer → LexerBuffer
extend xs lb = record lb {
  lex_buffer = take lb.lex_buffer_len lb.lex_buffer ++ xs;
  lex_buffer_len = lb.lex_buffer_len + length xs;
  lex_eof_reached = false;
}

-- The valid part of the buffer is there, and its end is not the end of the input.
pub record IsOpen (lb : LexerBuffer) : Type 0 where
  pub backed : lb.lex_buffer_len ≤ length lb.lex_buffer
  pub more_input : lb.lex_eof_reached ≡ false

get_elem?-extend :
    (xs : List ℕ) (lb : LexerBuffer) (i : ℕ)
    → lb.lex_buffer_len ≤ length lb.lex_buffer
    → i < lb.lex_buffer_len
    → get_elem? (take lb.lex_buffer_len lb.lex_buffer ++ xs) i ≡ get_elem? lb.lex_buffer i
get_elem?-extend xs lb i backed h =
    let n : length (take lb.lex_buffer_len lb.lex_buffer) ≡ lb.lex_buffer_len =
      length-take lb.lex_buffer_len lb.lex_buffer ∙ omega arith in
    get_elem?_prefix (take lb.lex_buffer_len lb.lex_buffer) xs i (omega arith)
    ∙ get_elem?-take lb.lex_buffer_len lb.lex_buffer i h

module _ (tbl : LexingTable) (xs : List ℕ) where
  -- The round on the longer buffer, beside the round on the shorter one.
  abbrev RoundResumes : ℕ → Option Round → Option Round → Type 0
  RoundResumes state none r = Unit {0}
  RoundResumes state (some (returned (pos a) b)) r = r ≡ some (returned (pos a) (extend xs b))
  RoundResumes state (some (returned (negsuc s) b)) r =
      (s ≡ state) × (r ≡ lex_round tbl state (extend xs b))
  RoundResumes state (some (empty_token b)) r = r ≡ some (empty_token (extend xs b))
  RoundResumes state (some (continue s b)) r = (r ≡ some (continue s (extend xs b))) × IsOpen b

  lex_round-Resumes :
      (state : ℕ) (lb : LexerBuffer)
      → IsOrdered lb
      → IsOpen lb
      → RoundResumes state (lex_round tbl state lb) (lex_round tbl state (extend xs lb))
  unfolding lex_round
  lex_round-Resumes state lb h o = ground (arith, get_elem?-extend xs lb lb.lex_curr_pos o.backed)

-- The loop by one round.
abbrev loop_on : LexingTable → ℕ → Option Round → Result
loop_on tbl fuel = after (lex_loop (lex_round tbl) fuel)

loop_step :
    (tbl : LexingTable) (fuel state : ℕ) (lb : LexerBuffer)
    → lex_loop (lex_round tbl) (suc fuel) state lb ≡ loop_on tbl fuel (lex_round tbl state lb)
unfolding lex_loop
loop_step tbl fuel state lb = refl

-- Fuel beyond what is needed changes nothing.
fuel_irrelevant :
    (tbl : LexingTable) (f g state : ℕ) (lb : LexerBuffer)
    → left lb < f
    → left lb < g
    → lex_loop (lex_round tbl) f state lb ≡ lex_loop (lex_round tbl) g state lb
fuel_irrelevant tbl zero g state lb h k = absurd (omega arith)
fuel_irrelevant tbl (suc f) zero state lb h k = absurd (omega arith)
fuel_irrelevant tbl (suc f) (suc g) state lb h k =
    rw (loop_step tbl f state lb, loop_step tbl g state lb)
      (go (lex_round tbl state lb) (λ s r e. lex_round-left tbl state lb e)
        (fuel_irrelevant tbl f g))
  where
    go :
        (r : Option Round)
        → ((s : ℕ) (lb' : LexerBuffer) → r ≡ some (continue s lb') → left lb' < left lb)
        → ((s : ℕ) (lb' : LexerBuffer)
            → left lb' < f
            → left lb' < g
            → lex_loop (lex_round tbl) f s lb' ≡ lex_loop (lex_round tbl) g s lb')
        → loop_on tbl f r ≡ loop_on tbl g r
    go none u ih = refl
    go (some (returned v lb')) u ih = refl
    go (some (empty_token lb')) u ih = refl
    go (some (continue s lb')) u ih =
        ih s lb' (omega (arith, u s lb' refl)) (omega (arith, u s lb' refl))

module _ (tbl : LexingTable) (xs : List ℕ) where
  -- What the call on the longer buffer ends in, beside the call on the shorter one.
  abbrev pub Resumes : Result → Result → Type 0
  Resumes (result (pos a) b) r = r ≡ result (pos a) (extend xs b)
  Resumes (result (negsuc s) b) r = r ≡ lex_engine tbl (negsuc s) (extend xs b)
  Resumes (failure b) r = r ≡ failure (extend xs b)
  Resumes fault r = Unit {0}
  Resumes no_fuel r = ⊥

  -- From one round on.
  round-Resumes :
      (f g state : ℕ) (lb : LexerBuffer) (r r' : Option Round)
      → Rounded lb r
      → RoundResumes tbl xs state r r'
      → ((s : ℕ) (b : LexerBuffer) → r' ≡ some (continue s b) → left b < g)
      → ((s : ℕ) (b : LexerBuffer) → r ≡ some (continue s b) → left b < f)
      → left (extend xs lb) < suc g
      → lb.lex_curr_pos ≤ lb.lex_buffer_len
      → ((s : ℕ) (b : LexerBuffer)
          → IsOrdered b
          → IsOpen b
          → left b < f
          → left (extend xs b) < g
          → Resumes (lex_loop (lex_round tbl) f s b) (lex_loop (lex_round tbl) g s (extend xs b)))
      → Resumes (loop_on tbl f r) (loop_on tbl g r')
  unfolding lex_engine run_engine
  round-Resumes f g state lb none r' e m u v lt inside ih = tt
  round-Resumes f g state lb (some (returned (pos a) b)) r' e m u v lt inside ih = rw m
  round-Resumes f g state lb (some (returned (negsuc s) b)) r' (k, full, more) (same, m) u v lt
        inside ih =
      rw (m, same)
        (sym (loop_step tbl g state (extend xs b))
          ∙ fuel_irrelevant tbl (suc g) _ state (extend xs b) (omega arith) (omega arith))
  round-Resumes f g state lb (some (empty_token b)) r' e m u v lt inside ih = rw m
  round-Resumes f g state lb (some (continue s b)) r' e (m, o) u v lt inside ih =
      rw m (ih s b e.ordered o (v s b refl) (u s (extend xs b) m))

  lex_loop-Resumes :
      (f g state : ℕ) (lb : LexerBuffer)
      → IsOrdered lb
      → IsOpen lb
      → left lb < f
      → left (extend xs lb) < g
      → Resumes
          (lex_loop (lex_round tbl) f state lb)
          (lex_loop (lex_round tbl) g state (extend xs lb))
  lex_loop-Resumes zero g state lb h o lf lg = absurd (omega arith)
  lex_loop-Resumes (suc f) zero state lb h o lf lg = absurd (omega arith)
  lex_loop-Resumes (suc f) (suc g) state lb h o lf lg =
      rw (loop_step tbl f state lb, loop_step tbl g state (extend xs lb))
        (round-Resumes f g state lb (lex_round tbl state lb) (lex_round tbl state (extend xs lb))
          (lex_round-Rounded tbl state lb h) (lex_round-Resumes tbl xs state lb h o)
          (λ s b e. omega (arith, lex_round-left tbl state (extend xs lb) e))
          (λ s b e. omega (arith, lex_round-left tbl state lb e)) lg h.inside
          (lex_loop-Resumes f g))

-- Where a call of `caml_lex_engine` ends in a token or in the failure on an empty token, it does so on
-- the buffer with more characters behind it too, at the same positions. Where it stops for a refill, the
-- reentry after the refill does what the call on the longer buffer does from the start. This holds
-- of a buffer whose valid part is there, whose positions are in order, whose end is not the end of the
-- input, and of calls that read nothing outside the tables.
pub lex_engine-Resumes :
    (tbl : LexingTable) (xs : List ℕ) (start_state : ℤ) (lb : LexerBuffer)
    → Ready start_state lb
    → IsOpen lb
    → Resumes tbl xs (lex_engine tbl start_state lb) (lex_engine tbl start_state (extend xs lb))
unfolding lex_engine run_engine
lex_engine-Resumes tbl xs (pos state) lb h o =
    lex_loop-Resumes tbl xs _ _ state (first_entry lb) (ground arith) (ground arith) (ground arith)
      (ground arith)
lex_engine-Resumes tbl xs (negsuc state) lb h o =
    lex_loop-Resumes tbl xs _ _ state lb h o (ground arith) (ground arith)
