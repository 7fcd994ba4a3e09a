-- ===== src/Lexing/Positions.antt =====
-- What a call of `caml_lex_engine` leaves in the buffer.
use trav_lang.Common.{ℕ, zero, suc, ◌≤◌, ◌<◌, ◌≡◌, refl, ◌∙◌, false, Option, none, some, arith}
use trav_lang.Common.Int.{ℤ, pos, negsuc}
use trav_lang.Lexing.{LexingTable, LexerBuffer, Round, returned, empty_token, continue, lex_round}
use trav_lang.Lexing.Total.{left, lex_round-left}
use trav_lang.Lexing.Engine.{
  Result, result, failure, fault, no_fuel, after, lex_loop, run_engine, first_entry, lex_engine,
}

-- A recorded action: none, which is -1, or the number of an action.
abbrev pub IsAction : ℤ → Type 0
IsAction (pos n) = Unit {0}
IsAction (negsuc n) = n ≡ 0

-- The token read so far lies in the buffer, and its last backtrack point in the token.
pub record IsOrdered (lb : LexerBuffer) : Type 0 where
  pub start : lb.lex_start_pos ≤ lb.lex_last_pos
  pub last : lb.lex_last_pos ≤ lb.lex_curr_pos
  pub inside : lb.lex_curr_pos ≤ lb.lex_buffer_len
  pub action : IsAction lb.lex_last_action

-- The buffer itself and the start of the token are left alone.
pub record Kept (lb r : LexerBuffer) : Type 0 where
  pub same_buffer : r.lex_buffer ≡ lb.lex_buffer
  pub same_len : r.lex_buffer_len ≡ lb.lex_buffer_len
  pub same_start : r.lex_start_pos ≡ lb.lex_start_pos
  pub same_mem : r.lex_mem ≡ lb.lex_mem
  pub ordered : IsOrdered r

-- A refill is asked for when the buffer is used up and its end is not the end of the input.
abbrev pub Ended : LexerBuffer → Result → Type 0
Ended lb (result (pos action) r) = Kept lb r
Ended lb (result (negsuc state) r) =
    Kept lb r × (r.lex_curr_pos ≡ r.lex_buffer_len) × (r.lex_eof_reached ≡ false)
Ended lb (failure r) = Kept lb r × (r.lex_last_action ≡ negsuc 0)
Ended lb fault = Unit {0}
Ended lb no_fuel = ⊥

-- One round.
abbrev pub Rounded : LexerBuffer → Option Round → Type 0
Rounded lb none = Unit {0}
Rounded lb (some (returned v r)) = Ended lb (result v r)
Rounded lb (some (empty_token r)) = Ended lb (failure r)
Rounded lb (some (continue s r)) = Kept lb r

pub lex_round-Rounded :
    (tbl : LexingTable) (state : ℕ) (lb : LexerBuffer)
    → IsOrdered lb
    → Rounded lb (lex_round tbl state lb)
unfolding lex_round
lex_round-Rounded tbl state lb h = ground arith

Kept-trans : {a b c : LexerBuffer} → Kept a b → Kept b c → Kept a c
Kept-trans h k = record {
  same_buffer = k.same_buffer ∙ h.same_buffer;
  same_len = k.same_len ∙ h.same_len;
  same_start = k.same_start ∙ h.same_start;
  same_mem = k.same_mem ∙ h.same_mem;
  ordered = k.ordered;
}

Ended-trans : {a b : LexerBuffer} → Kept a b → (r : Result) → Ended b r → Ended a r
Ended-trans h (result (pos action) r) e = Kept-trans h e
Ended-trans h (result (negsuc state) r) (k, full, open') = (Kept-trans h k, full, open')
Ended-trans h (failure r) (k, none_yet) = (Kept-trans h k, none_yet)
Ended-trans h fault e = tt
Ended-trans h no_fuel e = e

module _ (tbl : LexingTable) where
  lex_loop-Ended :
      (fuel state : ℕ) (lb : LexerBuffer)
      → IsOrdered lb
      → left lb < fuel
      → Ended lb (lex_loop (lex_round tbl) fuel state lb)
  unfolding lex_loop
  lex_loop-Ended zero state lb h lt = absurd (omega arith)
  lex_loop-Ended (suc fuel) state lb h lt =
      go (lex_round tbl state lb) (λ s r e. lex_round-left tbl state lb e)
        (lex_round-Rounded tbl state lb h) (lex_loop-Ended fuel)
    where
      go :
          (r : Option Round)
          → ((s : ℕ) (lb' : LexerBuffer) → r ≡ some (continue s lb') → left lb' < left lb)
          → Rounded lb r
          → ((s : ℕ) (lb' : LexerBuffer)
              → IsOrdered lb'
              → left lb' < fuel
              → Ended lb' (lex_loop (lex_round tbl) fuel s lb'))
          → Ended lb (after (lex_loop (lex_round tbl) fuel) r)
      go none u e ih = tt
      go (some (returned v lb')) u e ih = e
      go (some (empty_token lb')) u e ih = e
      go (some (continue s lb')) u e ih =
          Ended-trans e (lex_loop (lex_round tbl) fuel s lb')
            (ih s lb' e.ordered (omega (arith, u s lb' refl)))

-- What the two ways in ask of the buffer, and the buffer that the loop starts from.
abbrev pub Ready : ℤ → LexerBuffer → Type 0
Ready (pos state) lb = lb.lex_curr_pos ≤ lb.lex_buffer_len
Ready (negsuc state) lb = IsOrdered lb

abbrev pub entered : ℤ → LexerBuffer → LexerBuffer
entered (pos state) lb = first_entry lb
entered (negsuc state) lb = lb

-- A call of `caml_lex_engine` on a buffer whose position is in it, and on reentry whose recorded
-- positions are in order, ends without running out of fuel. Unless it reads outside its tables, it
-- leaves the buffer, its length, the start of the token and the memory alone and the positions start,
-- last, current and length in order; it asks for a refill only at the end of a buffer that is not the
-- last one; and it fails with an empty token only with no action recorded.
pub lex_engine-Ended :
    (tbl : LexingTable) (start_state : ℤ) (lb : LexerBuffer)
    → Ready start_state lb
    → Ended (entered start_state lb) (lex_engine tbl start_state lb)
unfolding lex_engine run_engine
lex_engine-Ended tbl (pos state) lb h =
    lex_loop-Ended tbl _ state (first_entry lb) (ground arith) (ground arith)
lex_engine-Ended tbl (negsuc state) lb h = lex_loop-Ended tbl _ state lb h (ground arith)
