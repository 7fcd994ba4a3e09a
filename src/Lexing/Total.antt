-- ===== src/Lexing/Total.antt =====
-- Every call of an engine ends: a round that goes on has read a character, or has used up the end of the
-- input, so that the rounds counted at the start are enough.
use trav_lang.Common.{
  ℕ, zero, suc, ◌+◌, ◌-◌, ◌<◌, ◌≡◌, ◌≢◌, refl, Option, none, some, if◌then◌else◌, arith,
}
use trav_lang.Common.Int.{ℤ, pos, negsuc}
use trav_lang.Lexing.{LexingTable, LexerBuffer, Round, returned, empty_token, continue, lex_round}
use trav_lang.Lexing.Engine.{
  no_fuel, after, lex_loop, run_engine, first_entry, lex_engine, new_lex_engine, new_lex_round,
}

-- What is left to read.
abbrev pub left : LexerBuffer → ℕ
left lb = lb.lex_buffer_len - lb.lex_curr_pos + (if lb.lex_eof_reached then 1 else 0)

pub lex_round-left :
    (tbl : LexingTable) (state : ℕ) (lb : LexerBuffer) {s : ℕ} {lb' : LexerBuffer}
    → lex_round tbl state lb ≡ some (continue s lb')
    → left lb' < left lb
unfolding lex_round
lex_round-left tbl state lb h = ground arith

pub new_lex_round-left :
    (tbl : LexingTable) (state : ℕ) (lb : LexerBuffer) {s : ℕ} {lb' : LexerBuffer}
    → new_lex_round tbl state lb ≡ some (continue s lb')
    → left lb' < left lb
unfolding new_lex_round
new_lex_round-left tbl state lb h = ground arith

-- A loop whose rounds use up the input.
module _ (step : ℕ → LexerBuffer → Option Round)
    (uses : (state : ℕ) (lb : LexerBuffer) (s : ℕ) (lb' : LexerBuffer)
      → step state lb ≡ some (continue s lb')
      → left lb' < left lb) where
  lex_loop-ends :
      (fuel state : ℕ) (lb : LexerBuffer) → left lb < fuel → lex_loop step fuel state lb ≢ no_fuel
  unfolding lex_loop
  lex_loop-ends zero state lb h = absurd (omega arith)
  lex_loop-ends (suc fuel) state lb h = go (step state lb) (uses state lb) (lex_loop-ends fuel)
    where
      go :
          (r : Option Round)
          → ((s : ℕ) (lb' : LexerBuffer) → r ≡ some (continue s lb') → left lb' < left lb)
          → ((s : ℕ) (lb' : LexerBuffer) → left lb' < fuel → lex_loop step fuel s lb' ≢ no_fuel)
          → after (lex_loop step fuel) r ≢ no_fuel
      go none u ih = λ e. cc
      go (some (returned v lb')) u ih = λ e. cc
      go (some (empty_token lb')) u ih = λ e. cc
      go (some (continue s lb')) u ih = ih s lb' (omega (arith, u s lb' refl))

  run_engine-ends : (start_state : ℤ) (lb : LexerBuffer) → run_engine step start_state lb ≢ no_fuel
  unfolding run_engine
  run_engine-ends (pos state) lb = lex_loop-ends _ state (first_entry lb) (ground arith)
  run_engine-ends (negsuc state) lb = lex_loop-ends _ state lb (ground arith)

-- Both engines end, whatever the tables, the state and the buffer: the rounds counted when the call
-- begins are enough.
pub engines_end :
    (tbl : LexingTable) (start_state : ℤ) (lb : LexerBuffer)
    → (lex_engine tbl start_state lb ≢ no_fuel) × (new_lex_engine tbl start_state lb ≢ no_fuel)
unfolding lex_engine new_lex_engine
engines_end tbl start_state lb = (
  run_engine-ends (lex_round tbl) (λ s b s' b' h. lex_round-left tbl s b h) start_state lb,
  run_engine-ends (new_lex_round tbl) (λ s b s' b' h. new_lex_round-left tbl s b h) start_state lb,
)
