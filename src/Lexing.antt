-- ===== src/Lexing.antt =====
-- runtime/lexing.c: the table-driven automata `caml_lex_engine` and `caml_new_lex_engine`.
-- The integers of the buffer are untagged. A read or write outside a table, the buffer or the memory,
-- which the C code does not check, is `none`.
pub mod Engine
pub mod Total
pub mod Positions
pub mod Refill
pub mod Memory
use trav_lang.Common.{
  ℕ, zero, suc, ◌+◌, ◌-◌, ◌*◌, ◌/◌, ◌%◌, ◌^◌, Bool, true, false, List, [], ◌∷◌, Option, none, some,
  ◌>>=◌, get_elem?, length, set, drop, ltb, leb, ◌==◌, if◌then◌else◌,
}
use trav_lang.Common.Int.{ℤ, pos, negsuc, eqb_ℤ}

-- `struct lexing_table`: strings of 16-bit entries, and the code of the memory moves.
pub record LexingTable : Type 0 where
  pub lex_base : List ℕ
  pub lex_backtrk : List ℕ
  pub lex_default : List ℕ
  pub lex_trans : List ℕ
  pub lex_check : List ℕ
  pub lex_base_code : List ℕ
  pub lex_backtrk_code : List ℕ
  pub lex_default_code : List ℕ
  pub lex_trans_code : List ℕ
  pub lex_check_code : List ℕ
  pub lex_code : List ℕ

-- The fields of `struct lexer_buffer` that the engines read or write.
pub record LexerBuffer : Type 0 where
  pub lex_buffer : List ℕ
  pub lex_buffer_len : ℕ
  pub lex_start_pos : ℕ
  pub lex_curr_pos : ℕ
  pub lex_last_pos : ℕ
  pub lex_last_action : ℤ
  pub lex_eof_reached : Bool
  pub lex_mem : List ℤ

-- `UShort(tbl, n)`.
unfoldable pub ushort : List ℕ → ℕ → Option ℕ
ushort tbl n = do lo ← get_elem? tbl (2 * n); hi ← get_elem? tbl (2 * n + 1); some (lo + 256 * hi)

abbrev pub signed16 : ℕ → ℤ
signed16 x = if ltb x (2 ^ 15) then pos x else negsuc (2 ^ 16 - x - 1)

-- `Short(tbl, n)`.
unfoldable pub short : List ℕ → ℕ → Option ℤ
unfolding ushort
short tbl n = do x ← ushort tbl n; some (signed16 x)

-- The character read: a refill is needed, or the pseudo-character 256 at the end of the input, or a byte.
pub data Input : Type 0 where
  need_refill : Input
  char : ℕ → LexerBuffer → Input

-- `if (lexbuf->lex_curr_pos >= lexbuf->lex_buffer_len) … else …`.
unfoldable pub next_char : LexerBuffer → Option Input
next_char lb =
    let read =
      get_elem? lb.lex_buffer lb.lex_curr_pos
      >>= (λ c. some (char c (record lb { lex_curr_pos = lb.lex_curr_pos + 1 }))) in
    if leb lb.lex_buffer_len lb.lex_curr_pos
    then if lb.lex_eof_reached then some (char 256 lb) else some need_refill
    else read

-- `if (backtrk >= 0) …`.
abbrev pub backtrack_point : ℤ → LexerBuffer → LexerBuffer
backtrack_point (pos backtrk) lb = record lb {
  lex_last_pos = lb.lex_curr_pos;
  lex_last_action = pos backtrk;
}
backtrack_point (negsuc _) lb = lb

-- The next state.
unfoldable pub next_state : LexingTable → ℕ → ℕ → ℕ → Option ℤ
next_state tbl state base c = do
  k ← short tbl.lex_check (base + c)
  if eqb_ℤ k (pos state) then short tbl.lex_trans (base + c) else short tbl.lex_default state

-- How one round of the loop ends.
pub data Round : Type 0 where
  returned : ℤ → LexerBuffer → Round
  empty_token : LexerBuffer → Round
  continue : ℕ → LexerBuffer → Round

-- No transition: return to the last backtrack point.
abbrev pub give_up : LexerBuffer → Round
give_up lb =
    let back = record lb { lex_curr_pos = lb.lex_last_pos } in
    if eqb_ℤ lb.lex_last_action (negsuc 0)
    then empty_token back
    else returned lb.lex_last_action back

-- Erase the EOF condition if the pseudo-character was consumed.
abbrev pub erase_eof : ℕ → LexerBuffer → LexerBuffer
erase_eof c lb = if c == 256 then record lb { lex_eof_reached = false } else lb

abbrev pub follow : ℕ → LexerBuffer → ℤ → Round
follow c lb (negsuc _) = give_up lb
follow c lb (pos state) = continue state (erase_eof c lb)

-- From the character on.
unfoldable pub consume : LexingTable → ℕ → ℕ → ℕ → LexerBuffer → Option Round
unfolding next_state
consume tbl state base c lb = do s ← next_state tbl state base c; some (follow c lb s)

-- With the backtrack point recorded.
unfoldable pub advance : LexingTable → ℕ → ℕ → LexerBuffer → Option Round
unfolding next_char consume
advance tbl state base lb = do
  input ← next_char lb
  elim input [
    | need_refill ↦ some (returned (negsuc state) lb)
    | char c lb' ↦ consume tbl state base c lb'
  ]

unfoldable pub dispatch : LexingTable → ℕ → LexerBuffer → ℤ → Option Round
unfolding advance
dispatch tbl state lb (negsuc action) = some (returned (pos action) lb)
dispatch tbl state lb (pos base) = do
  backtrk ← short tbl.lex_backtrk state
  advance tbl state base (backtrack_point backtrk lb)

-- One round of the `while (1)` of `caml_lex_engine`.
unfoldable pub lex_round : LexingTable → ℕ → LexerBuffer → Option Round
unfolding dispatch
lex_round tbl state lb = do base ← short tbl.lex_base state; dispatch tbl state lb base
