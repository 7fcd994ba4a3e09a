-- ===== src/Channels/Gets.antt =====
-- runtime/io.c: what is read from an input channel is what there is, in order, however the system cuts it.
use trav_lang.Common.{
  ℕ, zero, suc, ◌+◌, ◌-◌, ◌≤◌, ◌<◌, ◌≡◌, ◌∙◌, ap, sym, true, false, List, [], ◌∷◌, ◌++◌, ◌==◌,
  if◌then◌else◌, length, take, drop, arith, take_past, drop_past, drop-nil, ℕ_discrete, ◌⊎◌, inl,
  inr,
}
use trav_lang.Channels.Input.{
  InputChannel, Given, given, end_of_file, raised, waiting, no_fuel, and_then, getblock,
  getblock_loop, really_getblock,
}
use trav_lang.Channels.Reads.{input, IsReadable, Split, Got, take-nil, getblock-Got}

-- What caml_really_getblock gives for `k` bytes of `xs`: these bytes, or all that there are.
abbrev pub Gets : List ℕ → ℕ → Given (List ℕ) → Type 0
Gets xs k (given bs c) = IsReadable c × (bs ≡ take k xs) × (input c ≡ drop k xs)
Gets xs k (raised c) = IsReadable c
Gets xs k waiting = Unit
Gets xs k _ = ⊥

-- The rest of the loop.
Gets-after :
    (xs bs : List ℕ) (k : ℕ) (d : InputChannel)
    → bs ++ input d ≡ xs
    → length bs ≤ k
    → (r : Given (List ℕ)) → Gets (input d) (k - length bs) r
    → Gets xs k (and_then r (λ rest c'. given (bs ++ rest) c'))
Gets-after xs bs k d e l (given rest c') (h, f, g) =
    let q : length bs + (k - length bs) ≡ k = omega arith in
    (
      h,
      ap (λ ys. bs ++ ys) f ∙ sym (take_past k bs (input d) l) ∙ ap (take k) e,
      g ∙ sym (drop_past k bs (input d) l) ∙ ap (drop k) e,
    )
Gets-after xs bs k d e l (raised c') h = h
Gets-after xs bs k d e l waiting h = tt
Gets-after xs bs k d e l (end_of_file c') h = h
Gets-after xs bs k d e l no_fuel h = h

nothing_got :
    (xs bs : List ℕ) (k : ℕ) (c : InputChannel)
    → Split xs bs c
    → length bs ≡ 0
    → (k ≡ 0) ⊎ (xs ≡ [])
    → Gets xs k (given [] c)
nothing_got xs [] k c (h, e) z (inl q) =
    (h, ap (λ n. take n xs) (sym q), e ∙ ap (λ n. drop n xs) (sym q))
nothing_got xs [] k c (h, e) z (inr q) =
    (h, sym (ap (take k) q ∙ take-nil k), e ∙ q ∙ sym (ap (drop k) q ∙ drop-nil k))
nothing_got xs (b ∷ bs) k c s z q = absurd (omega arith)

-- A round of the loop, whose other rounds are `go`.
round-Gets :
    (xs : List ℕ) (k : ℕ) (r : Given (List ℕ)) (go : InputChannel → ℕ → Given (List ℕ))
    → Got xs k r
    → ((d : InputChannel) (j : ℕ) → IsReadable d → j < k → Gets (input d) j (go d j))
    → Gets xs k (
        and_then r (λ bs c'.
          if length bs == 0
          then given [] c'
          else and_then (go c' (k - length bs)) (λ rest c''. given (bs ++ rest) c'')))
round-Gets xs k (given bs c) go (s, l, z) h = elim (ℕ_discrete (length bs) 0) [
  | yes y ↦ let t : length bs == 0 ≡ true = ground arith in simp t (nothing_got xs bs k c s y (z y))
  | no y ↦
      let t : length bs == 0 ≡ false = ground arith in
      simp t
        (Gets-after xs bs k c s.1 l (go c (k - length bs)) (h c (k - length bs) s.0 (omega arith)))
]
round-Gets xs k (raised c) go (s, e) h = s
round-Gets xs k waiting go s h = tt
round-Gets xs k (end_of_file c) go s h = s
round-Gets xs k no_fuel go s h = s

getblock_loop-Gets :
    (fuel : ℕ) (c : InputChannel) (k : ℕ)
    → IsReadable c
    → k < fuel
    → Gets (input c) k (getblock_loop fuel c k)
unfolding getblock_loop
getblock_loop-Gets zero c k h l = absurd (omega arith)
getblock_loop-Gets (suc fuel) c k h l = elim (ℕ_discrete k 0) [
  | yes y ↦
      let t : k == 0 ≡ true = ground arith in
      simp t (h, ap (λ n. take n (input c)) (sym y), ap (λ n. drop n (input c)) (sym y))
  | no y ↦
      let t : k == 0 ≡ false = ground arith in
      simp t (
        round-Gets (input c) k (getblock c k) (getblock_loop fuel) (getblock-Got c k h)
          (λ d j r m. getblock_loop-Gets fuel d j r (omega arith)))
]

-- caml_really_getblock on a channel whose system gives at least a byte at each read that is not at the end of
-- the file ends unless it waits for the system: it raises, or it has the next bytes of the buffer and the
-- file, so many as it is asked for or all that there are, and the others are still to come.
pub really_getblock-Gets :
    (c : InputChannel) (n : ℕ) → IsReadable c → Gets (input c) n (really_getblock c n)
unfolding really_getblock
really_getblock-Gets c n h = getblock_loop-Gets (n + 1) c n h (omega arith)
