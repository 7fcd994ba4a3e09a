-- ===== src/Channels/Reads.antt =====
-- runtime/io.c: a read into the buffer of an input channel, and a copy out of it, lose nothing.
use trav_lang.Common.{
  ℕ, zero, suc, ◌+◌, ◌-◌, ◌^◌, ◌≤◌, ◌<◌, ◌≡◌, refl, ◌∙◌, ap, sym, min, List, [], ◌∷◌, ◌++◌, ltb,
  leb, length, take, drop, blit, arith, Bool-cases, append_assoc, length-take, length-drop,
  length-blit, take-append-drop, drop-drop, take-blit, ◌⊎◌, inl, inr, ltb→lt, ltb→le, leb→le,
  leb→lt,
}
use trav_lang.Channels.Input.{
  Reading, granted, interrupted, failed, InputChannel, Given, given, end_of_file, raised, waiting,
  no_fuel, and_then, read_fd, copied_from, getblock,
}

-- A system that gives at least one byte where there is one, as `read` does.
abbrev pub Serves : List Reading → Type 0
Serves [] = Unit
Serves (granted k ∷ rs) = (1 ≤ k) × Serves rs
Serves (interrupted ∷ rs) = Serves rs
Serves (failed ∷ rs) = Serves rs

-- All that is still to come: what is buffered, and then what is in the file.
abbrev pub input : InputChannel → List ℕ
input c = take (c.max - c.curr) (drop c.curr c.buff) ++ c.file

pub record IsReadable (c : InputChannel) : Type 0 where
  pub room : 1 ≤ length c.buff
  pub ordered : c.curr ≤ c.max
  pub inside : c.max ≤ length c.buff
  pub serves : Serves c.readings

-- The first bytes are given, and the others are still to come; or none of them is lost.
abbrev pub Split : List ℕ → List ℕ → InputChannel → Type 0
Split xs bs c = IsReadable c × (bs ++ input c ≡ xs)

-- A read: with nothing buffered, so many bytes come into the buffer, none only at the end.
abbrev pub ReadIn : InputChannel → Given ℕ → Type 0
ReadIn c (given n c') =
    (length c'.buff ≡ length c.buff)
    × (n ≤ length c.buff)
    × (take n c'.buff ++ c'.file ≡ c.file)
    × ((n ≡ 0) → c.file ≡ [])
    × Serves c'.readings
ReadIn c (raised c') =
    (c'.buff ≡ c.buff)
    × (c'.curr ≡ c.curr)
    × (c'.max ≡ c.max)
    × (c'.file ≡ c.file)
    × Serves c'.readings
ReadIn c waiting = Unit
ReadIn c _ = ⊥

pub nothing_left :
    (k size : ℕ) (file : List ℕ) → 1 ≤ k → 1 ≤ size → min k (min size (length file)) ≡ 0 → file ≡ []
nothing_left k size [] h h' e = refl
nothing_left k size (x ∷ file) h h' e = absurd (omega arith)

pub read_fd-ReadIn :
    (c : InputChannel) (rs : List Reading) → 1 ≤ length c.buff → Serves rs → ReadIn c (read_fd rs c)
unfolding read_fd
read_fd-ReadIn c [] h s = tt
read_fd-ReadIn c (granted k ∷ rs) h (s, s') =
    let n = min k (min (length c.buff) (length c.file)) in
    let src = take n c.file in
    let e : length src ≡ n = length-take n c.file ∙ (omega arith) in
    let t : take (0 + length src) (blit c.buff 0 src) ≡ src =
      take-blit c.buff src 0 (omega arith) in
    let z : 0 + length src ≡ n = omega arith in
    (
      length-blit c.buff src 0 (omega arith),
      omega arith,
      ap (λ m. take m (blit c.buff 0 src) ++ drop n c.file) (sym z)
          ∙ ap (λ xs. xs ++ drop n c.file) t
          ∙ take-append-drop n c.file,
      nothing_left k (length c.buff) c.file s h,
      s',
    )
read_fd-ReadIn c (interrupted ∷ rs) h s = read_fd-ReadIn c rs h s
read_fd-ReadIn c (failed ∷ rs) h s = (refl, refl, refl, refl, s)

-- What a call that asks for `k` of the bytes `xs` gives.
abbrev pub Got : List ℕ → ℕ → Given (List ℕ) → Type 0
Got xs k (given bs c) = Split xs bs c × (length bs ≤ k) × ((length bs ≡ 0) → (k ≡ 0) ⊎ (xs ≡ []))
Got xs k (raised c) = IsReadable c × (input c ≡ xs)
Got xs k waiting = Unit
Got xs k _ = ⊥

pub take-nil : (n : ℕ) → take {A = ℕ} n [] ≡ []
take-nil zero = refl
take-nil (suc n) = refl

pub take_parts : (m n : ℕ) (xs : List ℕ) → take m xs ++ take n (drop m xs) ≡ take (m + n) xs
take_parts zero n xs = ap (λ p. take p xs) (omega arith)
take_parts (suc m) n [] = take-nil n ∙ sym (take-nil (suc m + n))
take_parts (suc m) n (x ∷ xs) =
    let e : suc (m + n) ≡ suc m + n = omega arith in
    ap (λ ys. x ∷ ys) (take_parts m n xs) ∙ ap (λ p. take p (x ∷ xs)) e

-- A copy of bytes that are in the buffer.
pub copied_from-Split :
    (c : InputChannel) (n : ℕ)
    → IsReadable c
    → n ≤ c.max - c.curr
    → Split (input c) (take n (drop c.curr c.buff)) (record c { curr = c.curr + n })
copied_from-Split c n h l =
    let o = h.ordered in
    let i = h.inside in
    let ys = drop c.curr c.buff in
    let m : c.max - (c.curr + n) ≡ c.max - c.curr - n = omega arith in
    let d : drop (c.curr + n) c.buff ≡ drop n ys = sym (drop-drop c.curr n c.buff) in
    let b : n + (c.max - c.curr - n) ≡ c.max - c.curr = omega arith in
    (
      record { room = h.room; ordered = omega arith; inside = h.inside; serves = h.serves },
      ap (λ p. take n ys ++ (take p (drop (c.curr + n) c.buff) ++ c.file)) m
          ∙ ap (λ zs. take n ys ++ (take (c.max - c.curr - n) zs ++ c.file)) d
          ∙ sym (append_assoc (take n ys) (take (c.max - c.curr - n) (drop n ys)) c.file)
          ∙ ap (λ zs. zs ++ c.file) (take_parts n (c.max - c.curr - n) ys ∙ ap (λ p. take p ys) b),
    )

-- A copy after a read into the empty buffer.
pub Got-after :
    (c : InputChannel) (k n : ℕ)
    → IsReadable c
    → c.max - c.curr ≡ 0
    → n ≤ k
    → 1 ≤ n
    → (r : Given ℕ) → ReadIn c r
    → Got (input c) k (
        and_then r (λ nread c'.
          copied_from
            (min n nread)
            (record c' { offset = c.offset + nread; max = nread; curr = 0 })))
Got-after c k n h e l l' (given m c') (b, i, f, z, s) =
    let d : InputChannel = record c' { offset = c.offset + m; max = m; curr = 0 } in
    let g : input d ≡ c.file = ap (λ p. take p c'.buff ++ c'.file) (omega arith) ∙ f in
    let xs : input c ≡ c.file = ap (λ p. take p (drop c.curr c.buff) ++ c.file) e in
    let r = h.room in
    let hd : IsReadable d = record {
      room = omega arith;
      ordered = omega arith;
      inside = omega arith;
      serves = s;
    } in
    let (q, w) = copied_from-Split d (min n m) hd (omega arith) in
    let e' : length (take (min n m) c'.buff) ≡ min n m =
      length-take (min n m) c'.buff ∙ (omega arith) in
    ((q, w ∙ g ∙ sym xs), (omega arith), λ y. inr (xs ∙ z (omega arith)))
Got-after c k n h e l l' (raised c') (b, p, m, f, s) =
    let o = h.ordered in
    let i = h.inside in
    let r = h.room in
    let l = ap length b in
    (
      record { room = omega arith; ordered = omega arith; inside = omega arith; serves = s },
      ap (λ q. take (q - c'.curr) (drop c'.curr c'.buff) ++ c'.file) m
          ∙ ap (λ q. take (c.max - q) (drop q c'.buff) ++ c'.file) p
          ∙ ap (λ ys. take (c.max - c.curr) (drop c.curr ys) ++ c'.file) b
          ∙ ap (λ zs. take (c.max - c.curr) (drop c.curr c.buff) ++ zs) f,
    )
Got-after c k n h e l l' waiting u = tt
Got-after c k n h e l l' (end_of_file c') u = u
Got-after c k n h e l l' no_fuel u = u

pub getblock-Got : (c : InputChannel) (k : ℕ) → IsReadable c → Got (input c) k (getblock c k)
unfolding getblock
getblock-Got c k h =
    let n = min k (2 ^ 31 - 1) in
    let avail = c.max - c.curr in
    let i = h.inside in
    elim (Bool-cases (leb n avail)) [
      | inl t ↦
          let l : n ≤ avail = leb→le n avail t in
          let e : length (take n (drop c.curr c.buff)) ≡ n =
            length-take n (drop c.curr c.buff)
            ∙ ap (min n) (length-drop c.curr c.buff)
            ∙ (omega arith) in
          simp t (copied_from-Split c n h l, (omega arith), λ z. inl (omega arith))
      | inr t ↦
          let l : avail < n = leb→lt n avail t in
          elim (Bool-cases (ltb 0 avail)) [
            | inl t' ↦
                let l' : 0 < avail = ltb→lt 0 avail t' in
                let e : length (take avail (drop c.curr c.buff)) ≡ avail =
                  length-take avail (drop c.curr c.buff)
                  ∙ ap (min avail) (length-drop c.curr c.buff)
                  ∙ (omega arith) in
                simp (t, t')
                  (
                    copied_from-Split c avail h (omega arith),
                    (omega arith),
                    λ z. absurd (omega arith),
                  )
            | inr t' ↦
                let u = ltb→le 0 avail t' in
                let l' : avail ≡ 0 = omega arith in
                simp (t, t')
                  (Got-after c k n h l' (omega arith) (omega arith) (read_fd c.readings c)
                    (read_fd-ReadIn c c.readings h.room h.serves))
          ]
    ]
