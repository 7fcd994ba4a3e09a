-- ===== src/Lexing/Engine.antt =====
-- The loops of the two engines, and the memory moves of the second.
use trav_lang.Common.{
  ℕ, zero, suc, ◌+◌, ◌-◌, List, [], ◌∷◌, Option, none, some, ◌>>=◌, get_elem?, store, drop, ltb,
  ◌==◌, if◌then◌else◌,
}
use trav_lang.Common.Int.{ℤ, pos, negsuc, eqb_ℤ}
use trav_lang.Lexing.{
  LexingTable, LexerBuffer, Round, returned, empty_token, continue, need_refill, char, ushort,
  short, next_char, next_state, backtrack_point, give_up, erase_eof, lex_round,
}

-- What a call ends in: a value, `caml_failwith("lexing: empty token")`, an access out of bounds, or,
-- for the model only, no fuel.
pub data Result : Type 0 where
  result : ℤ → LexerBuffer → Result
  failure : LexerBuffer → Result
  fault : Result
  no_fuel : Result

-- What a round leads to, given what follows it.
abbrev pub after : (ℕ → LexerBuffer → Result) → Option Round → Result
after next none = fault
after next (some (returned v lb)) = result v lb
after next (some (empty_token lb)) = failure lb
after next (some (continue state lb)) = next state lb

-- `while (1)`, for the rounds of either engine.
unfoldable pub lex_loop : (ℕ → LexerBuffer → Option Round) → ℕ → ℕ → LexerBuffer → Result
lex_loop step zero state lb = no_fuel
lex_loop step (suc fuel) state lb = after (lex_loop step fuel) (step state lb)

-- The first entry.
abbrev pub first_entry : LexerBuffer → LexerBuffer
first_entry lb = record lb {
  lex_last_pos = lb.lex_curr_pos;
  lex_start_pos = lb.lex_curr_pos;
  lex_last_action = negsuc 0;
}

-- Rounds that are enough: one for each character left, one for the end of the input, one to stop.
abbrev pub rounds : LexerBuffer → ℕ
rounds lb = lb.lex_buffer_len - lb.lex_curr_pos + 2

-- From a state on, which is nonnegative on first entry and `- state - 1` on reentry after a refill.
unfoldable pub run_engine : (ℕ → LexerBuffer → Option Round) → ℤ → LexerBuffer → Result
unfolding lex_loop
run_engine step (pos state) lb = let lb' = first_entry lb in lex_loop step (rounds lb') state lb'
run_engine step (negsuc state) lb = lex_loop step (rounds lb) state lb

-- `caml_lex_engine`.
unfoldable pub lex_engine : LexingTable → ℤ → LexerBuffer → Result
unfolding run_engine lex_round
lex_engine tbl start_state lb = run_engine (lex_round tbl) start_state lb

-- What a move writes: `fresh`, or the field at `src`.
abbrev pub move_value : List ℤ → ℤ → ℕ → Option ℤ
move_value mem fresh src = if src == 0xff then some fresh else get_elem? mem src

-- `run_mem` with the current position as `fresh`, and `run_tag` with -1.
unfoldable pub run_moves : List ℕ → ℤ → List ℤ → Option (List ℤ)
run_moves [] fresh mem = none
run_moves (dst ∷ []) fresh mem = if dst == 0xff then some mem else none
run_moves (dst ∷ src ∷ pc) fresh mem =
    let go = move_value mem fresh src >>= (λ v. store mem dst v >>= run_moves pc fresh) in
    if dst == 0xff then some mem else go

unfoldable pub run_mem : List ℕ → List ℤ → ℕ → Option (List ℤ)
unfolding run_moves
run_mem pc mem curr_pos = run_moves pc (pos curr_pos) mem

unfoldable pub run_tag : List ℕ → List ℤ → Option (List ℤ)
unfolding run_moves
run_tag pc mem = run_moves pc (negsuc 0) mem

-- `run_tag(Bp_val(tbl->lex_code) + pc_off, lexbuf->lex_mem)`, with the offset of the state.
unfoldable pub tag_at : LexingTable → List ℕ → ℕ → LexerBuffer → Option LexerBuffer
unfolding run_tag
tag_at tbl offsets state lb = do
  pc_off ← ushort offsets state
  mem ← run_tag (drop pc_off tbl.lex_code) lb.lex_mem
  some (record lb { lex_mem = mem })

-- `if (backtrk >= 0) …` of the second engine.
unfoldable pub new_backtrack_point : LexingTable → ℕ → ℤ → LexerBuffer → Option LexerBuffer
unfolding tag_at
new_backtrack_point tbl state (pos backtrk) lb = do
  lb' ← tag_at tbl tbl.lex_backtrk_code state lb
  some (backtrack_point (pos backtrk) lb')
new_backtrack_point tbl state (negsuc n) lb = some lb

-- The offset of the memory moves of a transition.
unfoldable pub moves_offset : LexingTable → ℕ → ℕ → Option ℕ
moves_offset tbl pstate c = do
  base_code ← ushort tbl.lex_base_code pstate
  k ← short tbl.lex_check_code (base_code + c)
  if eqb_ℤ k (pos pstate)
      then ushort tbl.lex_trans_code (base_code + c)
      else ushort tbl.lex_default_code pstate

-- `if (pc_off > 0) run_mem(…)`.
unfoldable pub moves_at : LexingTable → ℕ → LexerBuffer → Option LexerBuffer
unfolding run_mem
moves_at tbl pc_off lb =
    let run =
      run_mem (drop pc_off tbl.lex_code) lb.lex_mem lb.lex_curr_pos
      >>= (λ mem. some (record lb { lex_mem = mem })) in
    if ltb 0 pc_off then run else some lb

unfoldable pub new_follow : LexingTable → ℕ → ℕ → LexerBuffer → ℤ → Option Round
unfolding moves_offset moves_at
new_follow tbl pstate c lb (negsuc _) = some (give_up lb)
new_follow tbl pstate c lb (pos state) = do
  pc_off ← moves_offset tbl pstate c
  lb' ← moves_at tbl pc_off lb
  some (continue state (erase_eof c lb'))

unfoldable pub new_advance : LexingTable → ℕ → ℕ → LexerBuffer → Option Round
unfolding next_char next_state new_follow
new_advance tbl state base lb = do
  input ← next_char lb
  elim input [
    | need_refill ↦ some (returned (negsuc state) lb)
    | char c lb' ↦ next_state tbl state base c >>= new_follow tbl state c lb'
  ]

unfoldable pub new_dispatch : LexingTable → ℕ → LexerBuffer → ℤ → Option Round
unfolding tag_at new_backtrack_point new_advance
new_dispatch tbl state lb (negsuc action) = do
  lb' ← tag_at tbl tbl.lex_base_code state lb
  some (returned (pos action) lb')
new_dispatch tbl state lb (pos base) = do
  backtrk ← short tbl.lex_backtrk state
  lb' ← new_backtrack_point tbl state backtrk lb
  new_advance tbl state base lb'

-- One round of the `while (1)` of `caml_new_lex_engine`.
unfoldable pub new_lex_round : LexingTable → ℕ → LexerBuffer → Option Round
unfolding new_dispatch
new_lex_round tbl state lb = do base ← short tbl.lex_base state; new_dispatch tbl state lb base

-- `caml_new_lex_engine`.
unfoldable pub new_lex_engine : LexingTable → ℤ → LexerBuffer → Result
unfolding run_engine new_lex_round
new_lex_engine tbl start_state lb = run_engine (new_lex_round tbl) start_state lb
