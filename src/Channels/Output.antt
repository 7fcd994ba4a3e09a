-- ===== src/Channels/Output.antt =====
-- runtime/io.c: what is put into an output channel leaves it in order, however the system cuts its writes.
use trav_lang.Common.{
  ℕ, zero, suc, ◌+◌, ◌-◌, ◌≤◌, ◌<◌, ◌≡◌, refl, ◌∙◌, ap, sym, min, Bool, true, false, List, [], ◌∷◌,
  ◌++◌, ◌==◌, if◌then◌else◌, length, take, drop, blit, arith, append_assoc, append-nil,
  length-append, length-take, length-drop, length-blit, take-append-drop, take-append, Bool-cases,
  ==→ne, ◌≢◌, ◌⊎◌, inl, inr, take_prefix,
}
use native.Mathlib.Nat.{zero-add}
use trav_lang.Channels.{
  Reply, written, interrupted, broken, failed, Channel, Result, finished, raised, waiting, no_fuel,
  and_then, write_out, flush_partial, flush_loop, flush, pos_out,
}

-- A system that takes at least one byte of what it is given, as `write` does.
abbrev pub Serves : List Reply → Type 0
Serves [] = Unit
Serves (written k ∷ rs) = (1 ≤ k) × Serves rs
Serves (interrupted ∷ rs) = Serves rs
Serves (broken ∷ rs) = Serves rs
Serves (failed ∷ rs) = Serves rs

-- All that was put into a channel: what the system has taken, and what is buffered.
abbrev pub output : Channel → List ℕ
output c = c.sent ++ take c.curr c.buff

-- A channel that was opened at the position `base`, with a buffer of `size` bytes.
pub record IsOpen (base size : ℕ) (c : Channel) : Type 0 where
  pub buffer : length c.buff ≡ size
  pub inside : c.curr ≤ size
  pub position : c.offset ≡ base + length c.sent
  pub serves : Serves c.replies

-- After a write there is room, and the same bytes are there in the same order.
abbrev pub Flushed : ℕ → ℕ → Channel → Result Bool → Type 0
Flushed base size c (finished empty c') =
    IsOpen base size c'
    × (output c' ≡ output c)
    × ((c'.curr < c.curr) ⊎ ((c.curr ≡ 0) × (c'.curr ≡ 0)))
    × (empty ≡ (c'.curr == 0))
Flushed base size c (raised c') = IsOpen base size c'
Flushed base size c waiting = Unit
Flushed base size c no_fuel = ⊥

-- What `memmove` leaves of the buffer follows what was taken.
left_over :
    (buff : List ℕ) (curr n : ℕ)
    → curr ≤ length buff
    → n ≤ curr
    → take n buff ++ take (curr - n) (blit buff 0 (drop n (take curr buff))) ≡ take curr buff
unfolding blit
left_over buff curr n h k =
    let w = take curr buff in
    let e : curr - n ≡ length (drop n w) = rw (length-drop, length-take) (omega arith) in
    let back : take (curr - n) (drop n w ++ drop (0 + length (drop n w)) buff) ≡ drop n w =
      take-append (drop n w) (drop (0 + length (drop n w)) buff) (curr - n) e in
    let small : n ≤ length w = rw length-take (omega arith) in
    let front : take n buff ≡ take n w =
      ap (take n) (sym (take-append-drop curr buff)) ∙ take_prefix n w (drop curr buff) small in
    rw (back, front) (take-append-drop n w)

write_out-Flushed :
    (base size : ℕ) (rs : List Reply) (c : Channel)
    → Serves rs
    → IsOpen base size c
    → 1 ≤ c.curr
    → Flushed base size c (write_out rs c)
unfolding write_out blit
write_out-Flushed base size [] c s o h = tt
write_out-Flushed base size (written k ∷ rs) c s o h =
    let n = min k c.curr in
    let size_taken : length (take n c.buff) ≡ n =
      length-take n c.buff ∙ omega (arith, o.inside, o.buffer) in
    (
      record {
        buffer =
            length-blit c.buff (drop n (take c.curr c.buff)) 0 (
              rw (zero-add (length (drop n (take c.curr c.buff))), length-drop, length-take)
                (omega (arith, o.inside, o.buffer)))
            ∙ o.buffer;
        inside = omega (arith, o.inside);
        position = rw length-append (omega (arith, o.position, size_taken));
        serves = s.1;
      },
      rw (append_assoc, left_over c.buff c.curr n (omega (arith, o.inside, o.buffer)) (omega arith))
          refl,
      inl (omega (arith, s.0)),
      refl,
    )
write_out-Flushed base size (interrupted ∷ rs) c s o h = write_out-Flushed base size rs c s o h
write_out-Flushed base size (broken ∷ rs) c s o h = record {
  buffer = o.buffer;
  inside = omega arith;
  position = o.position;
  serves = s;
}
write_out-Flushed base size (failed ∷ rs) c s o h = record {
  buffer = o.buffer;
  inside = o.inside;
  position = o.position;
  serves = s;
}

==→eq : (a b : ℕ) → (a == b) ≡ true → a ≡ b
==→eq a b h = ground arith

pos_of : (a : ℕ) → a ≢ 0 → 1 ≤ a
pos_of a h = omega arith

append-nil_of : (d : Channel) → d.curr ≡ 0 → output d ≡ d.sent
append-nil_of d e = rw (e, append-nil) refl

pub flush_partial-Flushed :
    (base size : ℕ) (c : Channel) → IsOpen base size c → Flushed base size c (flush_partial c)
unfolding flush_partial
flush_partial-Flushed base size c o = elim (Bool-cases (c.curr == 0)) [
  | inl t ↦ rw t (o, refl, inr (==→eq c.curr 0 t, ==→eq c.curr 0 t), sym t)
  | inr t ↦
      rw t (write_out-Flushed base size c.replies c o.serves o (pos_of c.curr (==→ne c.curr 0 t)))
]

-- A complete flush: the system has taken all.
abbrev pub Emptied : ℕ → ℕ → Channel → Result Unit → Type 0
Emptied base size c (finished u c') = IsOpen base size c' × (c'.curr ≡ 0) × (c'.sent ≡ output c)
Emptied base size c (raised c') = IsOpen base size c'
Emptied base size c waiting = Unit
Emptied base size c no_fuel = ⊥

Emptied-from :
    (base size : ℕ) (c c' : Channel) (r : Result Unit)
    → output c' ≡ output c
    → Emptied base size c' r
    → Emptied base size c r
Emptied-from base size c c' (finished u d) e (o, z, h) = (o, z, h ∙ e)
Emptied-from base size c c' (raised d) e h = h
Emptied-from base size c c' waiting e h = tt
Emptied-from base size c c' no_fuel e h = h

after_flush :
    (base size fuel : ℕ) (c : Channel) (r : Result Bool)
    → ((d : Channel) → IsOpen base size d → d.curr < fuel → Emptied base size d (flush_loop fuel d))
    → Flushed base size c r
    → c.curr < suc fuel
    → Emptied base size c
        (and_then r (λ empty c'. if empty then finished tt c' else flush_loop fuel c'))
after_flush base size fuel c (finished true d) ih (o, e, l, z) h =
    let nought : d.curr ≡ 0 = ==→eq d.curr 0 (sym z) in
    (o, nought, sym (append-nil_of d nought) ∙ e)
after_flush base size fuel c (finished false d) ih (o, e, l, z) h =
    let some_left : d.curr ≢ 0 = ==→ne d.curr 0 (sym z) in
    Emptied-from base size c d (flush_loop fuel d) e (ih d o (omega arith))
after_flush base size fuel c (raised d) ih k h = k
after_flush base size fuel c waiting ih k h = tt
after_flush base size fuel c no_fuel ih k h = k

flush_loop-Emptied :
    (base size fuel : ℕ) (c : Channel)
    → IsOpen base size c
    → c.curr < fuel
    → Emptied base size c (flush_loop fuel c)
unfolding flush_loop
flush_loop-Emptied base size zero c o h = absurd (omega arith)
flush_loop-Emptied base size (suc fuel) c o h =
    after_flush base size fuel c (flush_partial c) (flush_loop-Emptied base size fuel)
      (flush_partial-Flushed base size c o) h

-- `caml_flush` of an open channel whose system takes at least a byte at each write ends, unless it waits for
-- the system: it raises, or the system has taken all that was put into the channel, in order.
pub flush-Emptied :
    (base size : ℕ) (c : Channel) → IsOpen base size c → Emptied base size c (flush c)
unfolding flush
flush-Emptied base size c o = flush_loop-Emptied base size (c.curr + 1) c o (omega arith)

-- `caml_pos_out` of an open channel is the position behind all that was put into it.
pos_out-output :
    (base size : ℕ) (c : Channel) → IsOpen base size c → pos_out c ≡ base + length (output c)
unfolding pos_out
pos_out-output base size c o =
    rw (length-append, length-take) (omega (arith, o.position, o.inside, o.buffer))
