-- ===== src/Lexing/Memory.antt =====
-- The engine with memory scans as the engine without: the memory moves do not change the token.
use trav_lang.Common.{ℕ, zero, suc, ◌<◌, ◌≡◌, refl, List, Option, none, some, arith}
use trav_lang.Common.Int.{ℤ, pos, negsuc}
use trav_lang.Lexing.{LexingTable, LexerBuffer, Round, returned, empty_token, continue, lex_round}
use trav_lang.Lexing.Total.{left, new_lex_round-left}
use trav_lang.Lexing.Engine.{
  Result, result, failure, fault, no_fuel, after, lex_loop, run_engine, first_entry, lex_engine,
  new_lex_round, new_lex_engine,
}

-- A buffer with another memory.
abbrev pub with_mem : List ℤ → LexerBuffer → LexerBuffer
with_mem mem lb = record lb { lex_mem = mem }

module _ (mem : List ℤ) where
  -- The round without memory, beside the round with it.
  abbrev RoundAgrees : Option Round → Option Round → Type 0
  RoundAgrees none r = Unit {0}
  RoundAgrees (some (returned v b)) r = r ≡ some (returned v (with_mem mem b))
  RoundAgrees (some (empty_token b)) r = r ≡ some (empty_token (with_mem mem b))
  RoundAgrees (some (continue s b)) r = r ≡ some (continue s (with_mem mem b))

  -- The call without memory, beside the call with it.
  abbrev pub Agrees : Result → Result → Type 0
  Agrees (result v b) r = r ≡ result v (with_mem mem b)
  Agrees (failure b) r = r ≡ failure (with_mem mem b)
  Agrees fault r = Unit {0}
  Agrees no_fuel r = ⊥

module _ (tbl : LexingTable) (mem : List ℤ) where
  round-Agrees :
      (state : ℕ) (lb : LexerBuffer)
      → RoundAgrees mem (new_lex_round tbl state lb) (lex_round tbl state (with_mem mem lb))
  unfolding new_lex_round lex_round
  round-Agrees state lb = ground arith

  lex_loop-Agrees :
      (fuel state : ℕ) (lb : LexerBuffer)
      → left lb < fuel
      → Agrees mem
          (lex_loop (new_lex_round tbl) fuel state lb)
          (lex_loop (lex_round tbl) fuel state (with_mem mem lb))
  unfolding lex_loop
  lex_loop-Agrees zero state lb lt = absurd (omega arith)
  lex_loop-Agrees (suc fuel) state lb lt =
      go (new_lex_round tbl state lb) (lex_round tbl state (with_mem mem lb))
        (round-Agrees state lb) (λ s b e. new_lex_round-left tbl state lb e) (lex_loop-Agrees fuel)
    where
      go :
          (r r' : Option Round)
          → RoundAgrees mem r r'
          → ((s : ℕ) (b : LexerBuffer) → r ≡ some (continue s b) → left b < left lb)
          → ((s : ℕ) (b : LexerBuffer)
              → left b < fuel
              → Agrees mem
                  (lex_loop (new_lex_round tbl) fuel s b)
                  (lex_loop (lex_round tbl) fuel s (with_mem mem b)))
          → Agrees mem
              (after (lex_loop (new_lex_round tbl) fuel) r)
              (after (lex_loop (lex_round tbl) fuel) r')
      go none r' m u ih = tt
      go (some (returned v b)) r' m u ih = rw m
      go (some (empty_token b)) r' m u ih = rw m
      go (some (continue s b)) r' m u ih = rw m (ih s b (omega (arith, u s b refl)))

-- A call of `caml_new_lex_engine` that makes no access out of bounds ends as `caml_lex_engine` does on the
-- same tables and buffer, in value or failure and in every position and flag: only the memory may
-- differ, which `caml_lex_engine` leaves as it is.
pub new_lex_engine-Agrees :
    (tbl : LexingTable) (start_state : ℤ) (lb : LexerBuffer) (mem : List ℤ)
    → Agrees mem (new_lex_engine tbl start_state lb) (lex_engine tbl start_state (with_mem mem lb))
unfolding new_lex_engine lex_engine run_engine
new_lex_engine-Agrees tbl (pos state) lb mem =
    lex_loop-Agrees tbl mem _ state (first_entry lb) (ground arith)
new_lex_engine-Agrees tbl (negsuc state) lb mem = lex_loop-Agrees tbl mem _ state lb (ground arith)
