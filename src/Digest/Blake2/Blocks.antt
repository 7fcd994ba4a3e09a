-- ===== src/Digest/Blake2/Blocks.antt =====
-- runtime/blake2.c: `caml_BLAKE2Compress` is the compression function of RFC 7693.
use Prim.Native.Nat.{bit_xor}
use mathlib.Core.Path.{subst}
use trav_lang.Common.{
  ℕ, zero, suc, ◌+◌, ◌*◌, ◌/◌, ◌%◌, ◌^◌, ◌≤◌, ◌<◌, ◌≡◌, refl, sym, ◌∙◌, ap, Bool, true, false, List,
  [], ◌∷◌, ◌++◌, take, drop, get_or, ltb, if◌then◌else◌, arith, fold_blocks,
}
use trav_lang.Common.Words.{complement, le_bytes}
use trav_lang.Digest.Blake2.Compress.{
  Bytes, Chaining, compress, iv, sigma, mix2b, mix_round, mix_rounds, xor_state, u8_to_64le, rotr64,
}
use trav_lang.Digest.Blake2.{extract}
use trav_lang.Digest.Blake2.Rfc7693.{
  rfc_iv, rfc_sigma, mix_g, rfc_round, rfc_rounds, xor3, rfc_f, rfc_blocks, rfc_bytes,
}

sum3 : (a b c : ℕ) → a + (b + c) ≡ a + b + c
sum3 a b c = omega arith

mix2b-mix_g : (a b c d x y : ℕ) (v : List ℕ) → mix2b a b c d x y v ≡ mix_g a b c d x y v
unfolding mix2b mix_g rotr64
mix2b-mix_g a b c d x y v = simp sum3 refl

round-rfc_round : (block row : Bytes) (v : List ℕ) → mix_round block row v ≡ rfc_round block row v
unfolding mix_round rfc_round u8_to_64le
round-rfc_round block row v = simp mix2b-mix_g refl

-- The schedules from round i on.
schedules : ℕ → ℕ → List (List ℕ)
schedules zero i = []
schedules (suc left) i = get_or rfc_sigma (i % 10) [] ∷ schedules left (i + 1)

rounds-rfc_rounds :
    (left i : ℕ) (block : Bytes) (v : List ℕ)
    → mix_rounds block (schedules left i) v ≡ rfc_rounds left i block v
unfolding mix_rounds rfc_rounds schedules
rounds-rfc_rounds zero i block v = refl
rounds-rfc_rounds (suc left) i block v =
    ap (mix_rounds block (schedules left (i + 1)))
      (round-rfc_round block (get_or rfc_sigma (i % 10) []) v)
    ∙ rounds-rfc_rounds left (i + 1) block (rfc_round block (get_or rfc_sigma (i % 10) []) v)

sigma-schedules : sigma ≡ schedules 12 0
unfolding sigma schedules
sigma-schedules = refl

xor_state-xor3 : (h lo hi : List ℕ) → xor_state h lo hi ≡ xor3 h lo hi
unfolding xor_state
xor_state-xor3 [] lo hi = refl
xor_state-xor3 (x ∷ h) [] hi = refl
xor_state-xor3 (x ∷ h) (l ∷ lo) [] = refl
xor_state-xor3 (x ∷ h) (l ∷ lo) (u ∷ hi) =
    ap (λ t. bit_xor x (bit_xor l u) ∷ t) (xor_state-xor3 h lo hi)

-- The count of bytes in two words.
abbrev pub Counted : ℕ → Chaining → Type 0
Counted t s = (s.len0 ≡ t % 2 ^ 64) × (s.len1 ≡ t / 2 ^ 64 % 2 ^ 64)

counted_low : (t n : ℕ) → (t % 2 ^ 64 + n) % 2 ^ 64 ≡ (t + n) % 2 ^ 64
counted_low t n = omega arith

counted_high :
    (t n : ℕ)
    → n ≤ 128
    → (if ltb ((t % 2 ^ 64 + n) % 2 ^ 64) n
        then (t / 2 ^ 64 % 2 ^ 64 + 1) % 2 ^ 64
        else t / 2 ^ 64 % 2 ^ 64)
      ≡ (t + n) / 2 ^ 64 % 2 ^ 64
counted_high t n h = ground arith

compress-Counted :
    (t n : ℕ) (s : Chaining) (block : Bytes) (last : Bool)
    → n ≤ 128
    → Counted t s
    → Counted (t + n) (compress s block n last)
unfolding compress
compress-Counted t n s block last h (e, e') = rw (e, e') (counted_low t n, counted_high t n h)

counted0 : (t : ℕ) (s : Chaining) → Counted t s → s.len0 ≡ t % 2 ^ 64
counted0 t s c = c.0

counted1 : (t : ℕ) (s : Chaining) → Counted t s → s.len1 ≡ t / 2 ^ 64 % 2 ^ 64
counted1 t s c = c.1

-- The work on the sixteen words, for the counts and the word of the flag.
mixed : List ℕ → Bytes → ℕ → ℕ → ℕ → List ℕ
mixed h block len0 len1 v14 =
    let v12 = bit_xor (get_or rfc_iv 4 0) len0 in
    let v13 = bit_xor (get_or rfc_iv 5 0) len1 in
    let v = h ++ (take 4 rfc_iv ++ (v12 ∷ v13 ∷ v14 ∷ get_or rfc_iv 7 0 ∷ [])) in
    let r = rfc_rounds 12 0 block v in xor3 h (take 8 r) (drop 8 r)

mixed_code : List ℕ → Bytes → ℕ → ℕ → ℕ → List ℕ
mixed_code h block len0 len1 v14 =
    let v12 = bit_xor (get_or iv 4 0) len0 in
    let v13 = bit_xor (get_or iv 5 0) len1 in
    let v = h ++ (take 4 iv ++ (v12 ∷ v13 ∷ v14 ∷ get_or iv 7 0 ∷ [])) in
    let r = mix_rounds block sigma v in xor_state h (take 8 r) (drop 8 r)

mixed_code-mixed :
    (h : List ℕ) (block : Bytes) (len0 len1 v14 : ℕ)
    → mixed_code h block len0 len1 v14 ≡ mixed h block len0 len1 v14
unfolding mixed mixed_code
mixed_code-mixed h block len0 len1 v14 =
    let v12 = bit_xor (get_or iv 4 0) len0 in
    let v13 = bit_xor (get_or iv 5 0) len1 in
    let v : List ℕ = h ++ (take 4 iv ++ (v12 ∷ v13 ∷ v14 ∷ get_or iv 7 0 ∷ [])) in
    let r : mix_rounds block sigma v ≡ rfc_rounds 12 0 block v =
      ap (λ l. mix_rounds block l v) sigma-schedules ∙ rounds-rfc_rounds 12 0 block v in
    ap (λ x. xor_state h (take 8 x) (drop 8 x)) r
    ∙ xor_state-xor3 h (take 8 (rfc_rounds 12 0 block v)) (drop 8 (rfc_rounds 12 0 block v))

flag_word :
    (last : Bool)
    → (if last then complement 64 (get_or iv 6 0) else get_or iv 6 0)
      ≡ (if last then bit_xor (get_or rfc_iv 6 0) 0xffffffffffffffff else get_or rfc_iv 6 0)
flag_word true = refl
flag_word false = refl

-- Where the context has counted t bytes, caml_BLAKE2Compress is the compression function at t and n bytes.
pub compress-rfc_f :
    (t n : ℕ) (s : Chaining) (block : Bytes) (last : Bool)
    → n ≤ 128
    → Counted t s
    → (compress s block n last).h ≡ rfc_f s.h block (t + n) last
unfolding compress rfc_f mixed mixed_code
compress-rfc_f t n s block last h c =
    let after = compress-Counted t n s block last h c in
    let len0 = (t + n) % 2 ^ 64 in
    let len1 = (t + n) / 2 ^ 64 % 2 ^ 64 in
    let next : Chaining = compress s block n last in
    let v14 = if last then complement 64 (get_or iv 6 0) else get_or iv 6 0 in
    mixed_code-mixed s.h block next.len0 next.len1 v14
    ∙ ap (λ x. mixed s.h block x next.len1 v14) (counted0 (t + n) next after)
    ∙ ap (λ x. mixed s.h block len0 x v14) (counted1 (t + n) next after)
    ∙ ap (mixed s.h block len0 len1) (flag_word last)

-- The blocks before the last one.
pub fold-rfc_blocks :
    (k t : ℕ) (s : Chaining) (m : Bytes)
    → Counted t s
    → ((fold_blocks 128 (λ s b. compress s b 128 false) k s m).h ≡ rfc_blocks k t s.h m)
      × Counted (t + 128 * k) (fold_blocks 128 (λ s b. compress s b 128 false) k s m)
unfolding fold_blocks rfc_blocks
fold-rfc_blocks zero t s m c = (refl, subst (λ x. Counted x s) (omega arith) c)
fold-rfc_blocks (suc k) t s m c =
    let s' : Chaining = compress s (take 128 m) 128 false in
    let rest =
      fold-rfc_blocks k (t + 128) s' (drop 128 m)
        (compress-Counted t 128 s (take 128 m) false (omega arith) c) in
    (
      rest.0
          ∙ ap (λ h. rfc_blocks k (t + 128) h (drop 128 m))
              (compress-rfc_f t 128 s (take 128 m) false (omega arith) c),
      subst (λ x. Counted x (fold_blocks 128 (λ s b. compress s b 128 false) k s' (drop 128 m)))
          (omega arith) (rest.1),
    )

-- The bytes of a word.
little_byte : (x j : ℕ) → j < 8 → get_or (le_bytes 8 x) j 0 ≡ x / 2 ^ (8 * j) % 256
little_byte x zero h = omega arith
little_byte x (suc zero) h = omega arith
little_byte x (suc (suc zero)) h = omega arith
little_byte x (suc (suc (suc zero))) h = omega arith
little_byte x (suc (suc (suc (suc zero)))) h = omega arith
little_byte x (suc (suc (suc (suc (suc zero))))) h = omega arith
little_byte x (suc (suc (suc (suc (suc (suc zero)))))) h = omega arith
little_byte x (suc (suc (suc (suc (suc (suc (suc zero))))))) h = omega arith
little_byte x (suc (suc (suc (suc (suc (suc (suc (suc j)))))))) h = absurd (omega arith)

pub extract-rfc_bytes : (count i : ℕ) (h : List ℕ) → extract count i h ≡ rfc_bytes count i h
unfolding extract rfc_bytes
extract-rfc_bytes zero i h = refl
extract-rfc_bytes (suc count) i h =
    ap (λ b. b ∷ extract count (i + 1) h)
      (sym (little_byte (get_or h (i / 8) 0) (i % 8) (omega arith)))
    ∙ ap (λ l. get_or (le_bytes 8 (get_or h (i / 8) 0)) (i % 8) 0 ∷ l)
        (extract-rfc_bytes count (i + 1) h)
