-- ===== src/Channels.antt =====
-- runtime/io.c: buffered output, with input in a module of its own. `end` is the length of the buffer, and `curr` the place after its last byte.
-- Signals, locks and the flags of the platform are left out.
pub mod Output
pub mod Puts
pub mod Input
pub mod Reads
pub mod Gets
use trav_lang.Common.{
  ℕ, zero, suc, ◌+◌, ◌-◌, ◌/◌, ◌%◌, ◌^◌, min, Bool, true, false, List, [], ◌∷◌, ◌++◌, ltb, leb,
  ◌==◌, if◌then◌else◌, length, set, take, drop, blit,
}

-- What a call of the operating system's `write` gives: the bytes it takes, at most those it is given, or
-- `EINTR`, or one of `EBADF`, `EPIPE` and `ECONNRESET`, or another error.
pub data Reply : Type 0 where
  written : ℕ → Reply
  interrupted : Reply
  broken : Reply
  failed : Reply

-- An output channel, with the bytes that the system has taken and the replies it is going to give.
pub record Channel : Type 0 where
  pub buff : List ℕ
  pub curr : ℕ
  pub offset : ℕ
  pub text_mode : Bool
  pub sent : List ℕ
  pub replies : List Reply

-- The outcome of a call: its value, an exception, or that it waits for the next reply.
pub data Result (A : Type 0) : Type 0 where
  finished : A → Channel → Result A
  raised : Channel → Result A
  waiting : Result A
  no_fuel : Result A

abbrev pub and_then : {A B : Type 0} → Result A → (A → Channel → Result B) → Result B
and_then (finished a c) f = f a c
and_then (raised c) f = raised c
and_then waiting f = waiting
and_then no_fuel f = no_fuel

-- `caml_flush_partial` with `towrite > 0`: an interrupted call is repeated, and a permanent failure discards
-- what is buffered.
unfoldable pub write_out : List Reply → Channel → Result Bool
unfolding blit
write_out [] c = waiting
write_out (written k ∷ replies) c =
    let n = min k c.curr in
    let rest = drop n (take c.curr c.buff) in
    finished (c.curr - n == 0) (record c {
      buff = blit c.buff 0 rest;
      curr = c.curr - n;
      offset = c.offset + n;
      sent = c.sent ++ take n c.buff;
      replies = replies;
    })
write_out (interrupted ∷ replies) c = write_out replies c
write_out (broken ∷ replies) c = raised (record c { curr = 0; replies = replies })
write_out (failed ∷ replies) c = raised (record c { replies = replies })

unfoldable pub flush_partial : Channel → Result Bool
unfolding write_out
flush_partial c = if c.curr == 0 then finished true c else write_out c.replies c

-- The loop of `caml_flush`.
unfoldable pub flush_loop : ℕ → Channel → Result Unit
unfolding flush_partial
flush_loop zero c = no_fuel
flush_loop (suc fuel) c =
    and_then (flush_partial c) (λ empty c'. if empty then finished tt c' else flush_loop fuel c')

unfoldable pub flush : Channel → Result Unit
unfolding flush_loop
flush c = flush_loop (c.curr + 1) c

abbrev pub append_byte : ℕ → Channel → Result Unit
append_byte ch c = finished tt (record c { buff = set c.buff c.curr (ch % 256); curr = c.curr + 1 })

unfoldable pub putch : Channel → ℕ → Result Unit
unfolding flush_partial
putch c ch =
    let flushed = and_then (flush_partial c) (λ _ c'. append_byte ch c') in
    if leb (length c.buff) c.curr then flushed else append_byte ch c

unfoldable pub putword : Channel → ℕ → Result Unit
unfolding putch
putword c w =
    if c.text_mode
    then raised c
    else and_then (putch c (w / 2 ^ 24)) (λ _ c1.
      and_then (putch c1 (w / 2 ^ 16))
        (λ _ c2. and_then (putch c2 (w / 2 ^ 8)) (λ _ c3. putch c3 w)))

-- `caml_putblock` gives the number of bytes that it has buffered.
unfoldable pub putblock : Channel → List ℕ → Result ℕ
unfolding flush_partial blit
putblock c p =
    let n = min (length p) (2 ^ 31 - 1) in
    let free = length c.buff - c.curr in
    let full = record c { buff = blit c.buff c.curr (take free p); curr = length c.buff } in
    if ltb n free
    then finished n (record c { buff = blit c.buff c.curr (take n p); curr = c.curr + n })
    else and_then (flush_partial full) (λ _ c'. finished free c')

-- The loop of `caml_really_putblock`.
unfoldable pub putblock_loop : ℕ → Channel → List ℕ → Result Unit
unfolding putblock
putblock_loop zero c p = no_fuel
putblock_loop (suc fuel) c p =
    if length p == 0
    then finished tt c
    else and_then (putblock c p) (λ n c'. putblock_loop fuel c' (drop n p))

unfoldable pub really_putblock : Channel → List ℕ → Result Unit
unfolding putblock_loop
really_putblock c p = putblock_loop (length p + 2) c p

unfoldable pub pos_out : Channel → ℕ
pos_out c = c.offset + c.curr
