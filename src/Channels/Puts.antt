-- ===== src/Channels/Puts.antt =====
-- runtime/io.c: `caml_putch` and `caml_really_putblock` put their bytes behind what is there.
use trav_lang.Common.{
  ℕ, zero, suc, ◌+◌, ◌-◌, ◌/◌, ◌%◌, ◌^◌, ◌≤◌, ◌<◌, ◌≡◌, refl, ◌∙◌, sym, min, Bool, true, false,
  List, [], ◌∷◌, ◌++◌, ltb, leb, ◌==◌, if◌then◌else◌, length, set, take, drop, blit, arith,
  append_assoc, append-nil, length-take, length-drop, length-blit, take-blit, take-append-drop,
  Bool-cases, leb→lt, ltb→lt, ltb→le, ◌⊎◌, inl, inr, length-set,
}
use native.Mathlib.Nat.{suc-add}
use trav_lang.Channels.{
  Channel, Result, finished, raised, waiting, no_fuel, and_then, flush_partial, putch, putword,
  append_byte, putblock, putblock_loop, really_putblock,
}
use trav_lang.Channels.Output.{IsOpen, output, Flushed, flush_partial-Flushed}

-- A call that puts `bytes`: where it finishes, these follow what was there.
abbrev pub Puts : {A : Type 0} → ℕ → ℕ → List ℕ → Channel → Result A → Type 0
Puts base size bytes c (finished a c') = IsOpen base size c' × (output c' ≡ output c ++ bytes)
Puts base size bytes c (raised c') = IsOpen base size c'
Puts base size bytes c waiting = Unit
Puts base size bytes c no_fuel = ⊥

take-set :
    (xs : List ℕ) (i b : ℕ) → i < length xs → take (i + 1) (set xs i b) ≡ take i xs ++ (b ∷ [])
take-set [] i b h = absurd (omega arith)
take-set (x ∷ xs) zero b h = refl
take-set (x ∷ xs) (suc i) b h = rw (suc-add i 1, take-set xs i b (omega arith))

append_byte-Puts :
    (base size ch : ℕ) (c d : Channel)
    → IsOpen base size d
    → d.curr < size
    → output d ≡ output c
    → Puts base size ((ch % 256) ∷ []) c (append_byte ch d)
append_byte-Puts base size ch c d o h e = (
  record {
    buffer = length-set d.buff d.curr (ch % 256) ∙ o.buffer;
    inside = omega arith;
    position = o.position;
    serves = o.serves;
  },
  rw (take-set d.buff d.curr (ch % 256) (omega (arith, o.buffer)), ← append_assoc, e) refl,
)

put_after :
    (base size ch : ℕ) (c : Channel) (r : Result Bool)
    → 1 ≤ size
    → c.curr ≤ size
    → Flushed base size c r
    → Puts base size ((ch % 256) ∷ []) c (and_then r (λ _ c'. append_byte ch c'))
put_after base size ch c (finished empty d) z h (o, e, l, k) =
    append_byte-Puts base size ch c d o (omega arith) e
put_after base size ch c (raised d) z h k = k
put_after base size ch c waiting z h k = tt
put_after base size ch c no_fuel z h k = k

-- `caml_putch` on an open channel puts the low byte of its argument.
pub putch-Puts :
    (base size ch : ℕ) (c : Channel)
    → 1 ≤ size
    → IsOpen base size c
    → Puts base size ((ch % 256) ∷ []) c (putch c ch)
unfolding putch
putch-Puts base size ch c z o = elim (Bool-cases (leb (length c.buff) c.curr)) [
  | inl t ↦
      rw t (
        put_after base size ch c (flush_partial c) z o.inside (flush_partial-Flushed base size c o))
  | inr t ↦ rw t (
      append_byte-Puts base size ch c c o (omega (arith, o.buffer, leb→lt (length c.buff) c.curr t))
        refl)
]

-- A copy behind what is buffered.
copied :
    (base size m : ℕ) (c : Channel) (p : List ℕ)
    → IsOpen base size c
    → m ≡ c.curr + length p
    → m ≤ size
    → Puts base size p c (finished tt (record c { buff = blit c.buff c.curr p; curr = m }))
copied base size m c p o e h = (
  record {
    buffer = length-blit c.buff p c.curr (omega (arith, o.buffer)) ∙ o.buffer;
    inside = h;
    position = o.position;
    serves = o.serves;
  },
  rw (e, take-blit c.buff p c.curr (omega (arith, o.buffer)), append_assoc) refl,
)

-- A round of `caml_putblock`: the bytes that it counts are put, and it leaves room or has put some.
abbrev Round : ℕ → ℕ → List ℕ → Channel → Result ℕ → Type 0
Round base size p c (finished n d) =
    IsOpen base size d
    × (output d ≡ output c ++ take n p)
    × (d.curr < size)
    × ((1 ≤ n) ⊎ (c.curr ≡ size))
Round base size p c (raised d) = IsOpen base size d
Round base size p c waiting = Unit
Round base size p c no_fuel = ⊥

round_after :
    (base size n : ℕ) (p : List ℕ) (c full : Channel) (r : Result Bool)
    → 1 ≤ size
    → full.curr ≤ size
    → output full ≡ output c ++ take n p
    → (1 ≤ n) ⊎ (c.curr ≡ size)
    → Flushed base size full r
    → Round base size p c (and_then r (λ _ c'. finished n c'))
round_after base size n p c full (finished empty d) z h e k (o, same, l, m) =
    (o, same ∙ e, omega arith, k)
round_after base size n p c full (raised d) z h e k m = m
round_after base size n p c full waiting z h e k m = tt
round_after base size n p c full no_fuel z h e k m = m

putblock-Round :
    (base size : ℕ) (c : Channel) (p : List ℕ)
    → 1 ≤ size
    → IsOpen base size c
    → 1 ≤ length p
    → Round base size p c (putblock c p)
unfolding putblock
putblock-Round base size c p z o h =
    let n = min (length p) (2 ^ 31 - 1) in
    let free = length c.buff - c.curr in
    elim (Bool-cases (ltb n free)) [
      | inl t ↦
          let l : n < free = ltb→lt n free t in
          let len : length (take n p) ≡ n = length-take n p ∙ omega arith in
          let (o', e) =
            copied base size (c.curr + n) c (take n p) o (omega arith) (omega (arith, o.buffer)) in
          rw t (o', e, omega (arith, o.buffer), inl (omega arith))
      | inr t ↦
          let l : free ≤ n = ltb→le n free t in
          let len : length (take free p) ≡ free = length-take free p ∙ omega arith in
          let (o', e) =
            copied base size (length c.buff) c (take free p) o (omega (arith, o.inside, o.buffer))
              (omega (arith, o.buffer)) in
          let full : Channel = record c {
            buff = blit c.buff c.curr (take free p);
            curr = length c.buff;
          } in
          rw t (
            round_after base size free p c full (flush_partial full) z (omega (arith, o.buffer)) e
              (omega (arith, o.inside, o.buffer)) (flush_partial-Flushed base size full o'))
    ]

Puts-after :
    (base size : ℕ) (p q whole : List ℕ) (c d : Channel) (r : Result Unit)
    → output d ≡ output c ++ p
    → p ++ q ≡ whole
    → Puts base size q d r
    → Puts base size whole c r
Puts-after base size p q whole c d (finished u d') e w (o, h) =
    (o, h ∙ rw (e, append_assoc, w) refl)
Puts-after base size p q whole c d (raised d') e w h = h
Puts-after base size p q whole c d waiting e w h = tt
Puts-after base size p q whole c d no_fuel e w h = h

loop_after :
    (base size fuel : ℕ) (c : Channel) (p : List ℕ) (r : Result ℕ)
    → ((d : Channel) (q : List ℕ)
        → IsOpen base size d
        → d.curr < size
        → length q < fuel
        → Puts base size q d (putblock_loop fuel d q))
    → 1 ≤ length p
    → (length p < fuel) ⊎ ((c.curr < size) × (length p ≤ fuel))
    → Round base size p c r
    → Puts base size p c (and_then r (λ n c'. putblock_loop fuel c' (drop n p)))
loop_after base size fuel c p (finished n d) ih z h (o, e, room, k) =
    Puts-after base size (take n p) (drop n p) p c d (putblock_loop fuel d (drop n p)) e
      (take-append-drop n p) (ih d (drop n p) o room (omega (arith, length-drop n p)))
loop_after base size fuel c p (raised d) ih z h k = k
loop_after base size fuel c p waiting ih z h k = tt
loop_after base size fuel c p no_fuel ih z h k = k

putblock_loop-Puts :
    (base size fuel : ℕ) (c : Channel) (p : List ℕ)
    → 1 ≤ size
    → IsOpen base size c
    → (length p + 1 < fuel) ⊎ ((c.curr < size) × (length p < fuel))
    → Puts base size p c (putblock_loop fuel c p)
unfolding putblock_loop
putblock_loop-Puts base size zero c p z o h = absurd (omega arith)
putblock_loop-Puts base size (suc fuel) c [] z o h = (o, sym (append-nil (output c)))
putblock_loop-Puts base size (suc fuel) c (x ∷ p) z o h =
    let more : (length (x ∷ p) == 0) ≡ false = ground arith in
    rw more (
      loop_after base size fuel c (x ∷ p) (putblock c (x ∷ p))
        (λ d q o' room k. putblock_loop-Puts base size fuel d q z o' (inr (room, k))) (omega arith)
        (omega arith) (putblock-Round base size c (x ∷ p) z o (omega arith)))

-- `caml_really_putblock` on an open channel, whose system takes at least a byte at each write, ends unless
-- it waits for the system: it raises, or it has put all its bytes in order behind what was there.
pub really_putblock-Puts :
    (base size : ℕ) (c : Channel) (p : List ℕ)
    → 1 ≤ size
    → IsOpen base size c
    → Puts base size p c (really_putblock c p)
unfolding really_putblock
really_putblock-Puts base size c p z o =
    putblock_loop-Puts base size (length p + 2) c p z o (inl (omega arith))

-- One call after another.
then-Puts :
    (base size : ℕ) (p q : List ℕ) (c : Channel) (r : Result Unit) (f : Channel → Result Unit)
    → ((d : Channel) → IsOpen base size d → Puts base size q d (f d))
    → Puts base size p c r
    → Puts base size (p ++ q) c (and_then r (λ _ d. f d))
then-Puts base size p q c (finished u d) f g (o, e) =
    Puts-after base size p q (p ++ q) c d (f d) e refl (g d o)
then-Puts base size p q c (raised d) f g h = h
then-Puts base size p q c waiting f g h = tt
then-Puts base size p q c no_fuel f g h = h

unless_text :
    (base size : ℕ) (p : List ℕ) (c : Channel) (text : Bool) (r : Result Unit)
    → IsOpen base size c
    → Puts base size p c r
    → Puts base size p c (if text then raised c else r)
unless_text base size p c true r o h = o
unless_text base size p c false r o h = h

-- `caml_putword` on an open channel, whose system takes at least a byte at each write, puts the four bytes
-- of a word, the highest first, or raises, or waits for the system.
pub putword-Puts :
    (base size w : ℕ) (c : Channel)
    → 1 ≤ size
    → IsOpen base size c
    → Puts base size
        (w / 2 ^ 24 % 256 ∷ w / 2 ^ 16 % 256 ∷ w / 2 ^ 8 % 256 ∷ w % 256 ∷ [])
        c
        (putword c w)
unfolding putword
putword-Puts base size w c z o =
    let put : (ch : ℕ) (d : Channel)
        → IsOpen base size d
        → Puts base size (ch % 256 ∷ []) d (putch d ch) =
      λ ch d o'. putch-Puts base size ch d z o' in
    unless_text base size _ c c.text_mode _ o (
      then-Puts base size (w / 2 ^ 24 % 256 ∷ []) _ c (putch c (w / 2 ^ 24)) _
        (λ d1 o1.
          then-Puts base size (w / 2 ^ 16 % 256 ∷ []) _ d1 (putch d1 (w / 2 ^ 16)) _
            (λ d2 o2.
              then-Puts base size (w / 2 ^ 8 % 256 ∷ []) _ d2 (putch d2 (w / 2 ^ 8)) _ (put w)
                (put (w / 2 ^ 8) d2 o2))
            (put (w / 2 ^ 16) d1 o1))
        (put (w / 2 ^ 24) c o))
