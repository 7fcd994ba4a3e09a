-- ===== src/Tests/Lexers.antt =====
-- A lexer for runs of the letter a, and the theorems on it.
use trav_lang.Common.{ℕ, ◌≡◌, ◌≢◌, refl, Bool, true, false, List, [], ◌∷◌, ◌++◌, replicate, arith}
use trav_lang.Common.Int.{pos, negsuc}
use trav_lang.Lexing.{LexingTable, LexerBuffer, short, ushort}
use trav_lang.Lexing.Engine.{result, no_fuel, run_moves, lex_engine, new_lex_engine}
use trav_lang.Lexing.Positions.{Ended, entered, lex_engine-Ended}
use trav_lang.Lexing.Refill.{Resumes, extend, lex_engine-Resumes}
use trav_lang.Lexing.Memory.{Agrees, with_mem, new_lex_engine-Agrees}
use trav_lang.Lexing.Total.{engines_end}

-- State 0 goes to state 1 on a; state 1 accepts with action 0 and stays on a.
abbrev letters : LexingTable
letters = record {
  lex_base = 0 ∷ 0 ∷ 1 ∷ 0 ∷ [];
  lex_backtrk = 0xff ∷ 0xff ∷ 0 ∷ 0 ∷ [];
  lex_default = replicate 4 0xff;
  lex_trans = replicate 194 0 ++ (1 ∷ 0 ∷ 1 ∷ 0 ∷ replicate 318 0);
  lex_check = replicate 194 0xff ++ (0 ∷ 0 ∷ 1 ∷ 0 ∷ replicate 318 0xff);
  lex_base_code = replicate 4 0;
  lex_backtrk_code = replicate 4 0;
  lex_default_code = replicate 4 0;
  lex_trans_code = replicate 516 0;
  lex_check_code = replicate 516 0xff;
  lex_code = 0xff ∷ [];
}

abbrev buffer_of : List ℕ → ℕ → Bool → LexerBuffer
buffer_of chars n eof = record {
  lex_buffer = chars;
  lex_buffer_len = n;
  lex_start_pos = 0;
  lex_curr_pos = 0;
  lex_last_pos = 0;
  lex_last_action = negsuc 0;
  lex_eof_reached = eof;
  lex_mem = [];
}

abbrev aab : LexerBuffer
aab = buffer_of (b'a' ∷ b'a' ∷ b'b' ∷ []) 3 true

abbrev after_aab : LexerBuffer
after_aab = record aab { lex_curr_pos = 2; lex_last_pos = 2; lex_last_action = pos 0 }

-- The longest run of a is the token.
lex_aab : lex_engine letters (pos 0) aab ≡ result (pos 0) after_aab
unfolding lex_engine short ushort
lex_aab = refl

new_lex_aab : new_lex_engine letters (pos 0) aab ≡ result (pos 0) after_aab
unfolding new_lex_engine short ushort run_moves
new_lex_aab = refl

abbrev aa_open : LexerBuffer
aa_open = buffer_of (b'a' ∷ b'a' ∷ 0 ∷ 0 ∷ []) 2 false

-- A buffer that ends inside a run asks for a refill in state 1.
lex_aa :
    lex_engine letters (pos 0) aa_open
    ≡ result
        (negsuc 1)
        (record aa_open { lex_curr_pos = 2; lex_last_pos = 2; lex_last_action = pos 0 })
unfolding lex_engine short ushort
lex_aa = refl

engines_end_example :
    (lex_engine letters (pos 0) aab ≢ no_fuel) × (new_lex_engine letters (pos 0) aab ≢ no_fuel)
engines_end_example = engines_end letters (pos 0) aab

lex_engine-Ended_example : Ended (entered (pos 0) aab) (lex_engine letters (pos 0) aab)
lex_engine-Ended_example = lex_engine-Ended letters (pos 0) aab (omega arith)

lex_engine-Resumes_example :
    Resumes letters
      (b'a' ∷ b'b' ∷ [])
      (lex_engine letters (pos 0) aa_open)
      (lex_engine letters (pos 0) (extend (b'a' ∷ b'b' ∷ []) aa_open))
lex_engine-Resumes_example =
    lex_engine-Resumes letters (b'a' ∷ b'b' ∷ []) (pos 0) aa_open (omega arith)
      (record { backed = omega arith; more_input = refl })

new_lex_engine-Agrees_example :
    Agrees
      (pos 7 ∷ [])
      (new_lex_engine letters (pos 0) aab)
      (lex_engine letters (pos 0) (with_mem (pos 7 ∷ []) aab))
new_lex_engine-Agrees_example = new_lex_engine-Agrees letters (pos 0) aab (pos 7 ∷ [])
