-- ===== src/Digest/Md5/Blocks.antt =====
-- runtime/md5.c: `caml_MD5Transform` is the block function of RFC 1321.
use Prim.Native.Nat.{bit_and, bit_or, bit_xor, differ}
use trav_lang.Common.{
  ℕ, zero, suc, ◌+◌, ◌/◌, ◌%◌, ◌^◌, ◌<◌, ◌≡◌, refl, sym, ◌∙◌, ap, max, min, List, [], ◌∷◌, ◌⊎◌, inl,
  inr, arith, get_or,
}
use trav_lang.Common.Bits.{and_bit, or_bit, xor_bit, eq_of_bits, complement_bit}
use trav_lang.Digest.Md5.Transform.{
  Buf, Bytes, transform, f1, f2, f3, f4, md5_step, word, Line, round, lines1, lines2, lines3,
  lines4,
}
use trav_lang.Digest.Md5.Rounds.{
  not32, aux_f, aux_g, aux_h, aux_i, sines, word1, word2, word3, word4, rotated, word_of, rfc_step,
  rfc_steps, rfc_transform, rfc_rounds, registers_sum,
}

is_digit : (d : ℕ) → d < 2 → (d ≡ 0) ⊎ (d ≡ 1)
is_digit d h = omega arith

-- One digit of the choice by x, whose complement is c; where all digits of the complement are 0, so are those of
-- x and z.
choose_one : (y z : ℕ) → y < 2 → z < 2 → differ z (min 1 (differ y z)) ≡ y
choose_one y z h k = elim (is_digit y h) [
  | inl e ↦ elim (is_digit z k) [ inl e' ↦ rw (e, e') refl | inr e' ↦ rw (e, e') refl ]
  | inr e ↦ elim (is_digit z k) [ inl e' ↦ rw (e, e') refl | inr e' ↦ rw (e, e') refl ]
]

choose_zero : (y z : ℕ) → z < 2 → differ z (min 0 (differ y z)) ≡ z
choose_zero y z k =
    let n : min 0 (differ y z) ≡ 0 = omega arith in
    rw n (elim (is_digit z k) [ inl e ↦ rw e refl | inr e ↦ rw e refl ])

choose_digit :
    (x y z c : ℕ)
    → x < 2
    → y < 2
    → z < 2
    → (c + x ≡ 1) ⊎ ((c ≡ 0) × (x ≡ 0) × (z ≡ 0))
    → differ z (min x (differ y z)) ≡ max (min x y) (min c z)
choose_digit x y z c h k l s = elim (is_digit x h) [
  | inl e ↦
      rw e
        (choose_zero y z l ∙ elim s [ inl t ↦ omega arith | inr t ↦ omega (arith, t.0, t.1, t.2) ])
  | inr e ↦
      rw e
        (choose_one y z k l ∙ elim s [ inl t ↦ omega arith | inr t ↦ omega (arith, t.0, t.1, t.2) ])
]

digit_small : (x i : ℕ) → x / 2 ^ i % 2 < 2
digit_small x i = omega arith

complement_cases :
    (x z i : ℕ)
    → x < 2 ^ 32
    → z < 2 ^ 32
    → (not32 x / 2 ^ i % 2 + x / 2 ^ i % 2 ≡ 1)
      ⊎ ((not32 x / 2 ^ i % 2 ≡ 0) × (x / 2 ^ i % 2 ≡ 0) × (z / 2 ^ i % 2 ≡ 0))
complement_cases x z i h k = elim (complement_bit 32 x i h) [
  | inl e ↦ inl e
  | inr e ↦ inr (e.0, e.1 x h, e.1 z k)
]

f1-aux_f : (x y z : ℕ) → x < 2 ^ 32 → z < 2 ^ 32 → f1 x y z ≡ aux_f x y z
unfolding f1 aux_f
f1-aux_f x y z h k =
    eq_of_bits (bit_xor z (bit_and x (bit_xor y z))) (bit_or (bit_and x y) (bit_and (not32 x) z))
      (λ i.
        xor_bit z (bit_and x (bit_xor y z)) i
        ∙ ap (differ (z / 2 ^ i % 2))
            (and_bit x (bit_xor y z) i ∙ ap (min (x / 2 ^ i % 2)) (xor_bit y z i))
        ∙ choose_digit (x / 2 ^ i % 2) (y / 2 ^ i % 2) (z / 2 ^ i % 2) (not32 x / 2 ^ i % 2)
            (digit_small x i) (digit_small y i) (digit_small z i) (complement_cases x z i h k)
        ∙ sym (
            or_bit (bit_and x y) (bit_and (not32 x) z) i
            ∙ rw (and_bit x y i, and_bit (not32 x) z i) refl))

choice_digit :
    (a b c d i : ℕ)
    → bit_or (bit_and a b) (bit_and c d) / 2 ^ i % 2
      ≡ max (min (a / 2 ^ i % 2) (b / 2 ^ i % 2)) (min (c / 2 ^ i % 2) (d / 2 ^ i % 2))
choice_digit a b c d i =
    or_bit (bit_and a b) (bit_and c d) i ∙ rw (and_bit a b i, and_bit c d i) refl

swapped : (p q r s : ℕ) → max (min p q) (min r s) ≡ max (min q p) (min s r)
swapped p q r s = omega arith

aux_f-aux_g : (x y z : ℕ) → aux_f z x y ≡ aux_g x y z
unfolding aux_f aux_g
aux_f-aux_g x y z =
    eq_of_bits (bit_or (bit_and z x) (bit_and (not32 z) y))
      (bit_or (bit_and x z) (bit_and y (not32 z)))
      (λ i.
        choice_digit z x (not32 z) y i
        ∙ swapped (z / 2 ^ i % 2) (x / 2 ^ i % 2) (not32 z / 2 ^ i % 2) (y / 2 ^ i % 2)
        ∙ sym (choice_digit x z y (not32 z) i))

-- Registers of 32 bits.
pub record IsWords (h : Buf) : Type 0 where
  pub a_word : h.a < 2 ^ 32
  pub b_word : h.b < 2 ^ 32
  pub c_word : h.c < 2 ^ 32
  pub d_word : h.d < 2 ^ 32

-- A function of md5.c is one of RFC 1321 on words.
Agrees : (ℕ → ℕ → ℕ → ℕ) → (ℕ → ℕ → ℕ → ℕ) → Type 0
Agrees f g = (x y z : ℕ) → x < 2 ^ 32 → y < 2 ^ 32 → z < 2 ^ 32 → f x y z ≡ g x y z

f1-Agrees : Agrees f1 aux_f
unfolding Agrees
f1-Agrees x y z h k l = f1-aux_f x y z h l

f2-Agrees : Agrees f2 aux_g
unfolding Agrees f2
f2-Agrees x y z h k l = f1-aux_f z x y l k ∙ aux_f-aux_g x y z

f3-Agrees : Agrees f3 aux_h
unfolding Agrees f3 aux_h
f3-Agrees x y z h k l = refl

f4-Agrees : Agrees f4 aux_i
unfolding Agrees f4 aux_i
f4-Agrees x y z h k l = refl

rfc_step-IsWords :
    (f : ℕ → ℕ → ℕ → ℕ) (block : Bytes) (k t s : ℕ) (h : Buf)
    → IsWords h
    → IsWords (rfc_step f block k t s h)
unfolding rfc_step
rfc_step-IsWords f block k t s h w = record {
  a_word = w.d_word;
  b_word = omega arith;
  c_word = w.b_word;
  d_word = w.c_word;
}

sum_order : (w f x t : ℕ) → w + (f + (x + t)) ≡ w + f + x + t
sum_order w f x t = omega arith

sum_comm : (x y : ℕ) → (x + y) % 2 ^ 32 ≡ (y + x) % 2 ^ 32
sum_comm x y = omega arith

step-rfc_step :
    (f g : ℕ → ℕ → ℕ → ℕ) (block : Bytes) (k t s : ℕ) (h : Buf)
    → Agrees f g
    → IsWords h
    → md5_step f h.a h.b h.c h.d (word block k + t) s
      ≡ (h.b + rotated ((h.a + g h.b h.c h.d + word_of block k + t) % 2 ^ 32) s) % 2 ^ 32
unfolding md5_step word Agrees
step-rfc_step f g block k t s h e w =
    rw (e h.b h.c h.d w.b_word w.c_word w.d_word, sum_order h.a (g h.b h.c h.d) (word_of block k) t)
      (sum_comm (rotated ((h.a + g h.b h.c h.d + word_of block k + t) % 2 ^ 32) s) h.b)

-- The lines of a round.
lines_of : ℕ → (ℕ → ℕ) → ℕ → List ℕ → ℕ → List Line
lines_of zero pick from turns i = []
lines_of (suc left) pick from turns i =
    (pick i, get_or sines (from + i) 0, get_or turns (i % 4) 0)
    ∷ lines_of left pick from turns (i + 1)

round-rfc_steps :
    (left : ℕ) (f g : ℕ → ℕ → ℕ → ℕ) (pick : ℕ → ℕ) (from : ℕ) (turns : List ℕ) (block : Bytes)
    (i : ℕ) (h : Buf)
    → Agrees f g
    → IsWords h
    → (round f block (lines_of left pick from turns i) h
        ≡ rfc_steps left g pick from turns block i h)
      × IsWords (rfc_steps left g pick from turns block i h)
unfolding round rfc_steps lines_of
round-rfc_steps zero f g pick from turns block i h e w = (refl, w)
round-rfc_steps (suc left) f g pick from turns block i h e w =
    let k = pick i in
    let t = get_or sines (from + i) 0 in
    let s = get_or turns (i % 4) 0 in
    let rest =
      round-rfc_steps left f g pick from turns block (i + 1) (rfc_step g block k t s h) e
        (rfc_step-IsWords g block k t s h w) in
    (
      ap
            (λ b.
              round f block (lines_of left pick from turns (i + 1))
                (record { a = h.d; b = b; c = h.b; d = h.c }))
            (step-rfc_step f g block k t s h e w)
          ∙ rest.0,
      rest.1,
    )

first_lines : lines1 ≡ lines_of 16 word1 0 (7 ∷ 12 ∷ 17 ∷ 22 ∷ []) 0
unfolding lines1 lines_of
first_lines = refl

second_lines : lines2 ≡ lines_of 16 word2 16 (5 ∷ 9 ∷ 14 ∷ 20 ∷ []) 0
unfolding lines2 lines_of
second_lines = refl

third_lines : lines3 ≡ lines_of 16 word3 32 (4 ∷ 11 ∷ 16 ∷ 23 ∷ []) 0
unfolding lines3 lines_of
third_lines = refl

fourth_lines : lines4 ≡ lines_of 16 word4 48 (6 ∷ 10 ∷ 15 ∷ 21 ∷ []) 0
unfolding lines4 lines_of
fourth_lines = refl

whole_round :
    (f g : ℕ → ℕ → ℕ → ℕ) (pick : ℕ → ℕ) (from : ℕ) (turns : List ℕ) (lines : List Line)
    (block : Bytes) (h : Buf)
    → lines ≡ lines_of 16 pick from turns 0
    → Agrees f g
    → IsWords h
    → (round f block lines h ≡ rfc_steps 16 g pick from turns block 0 h)
      × IsWords (rfc_steps 16 g pick from turns block 0 h)
whole_round f g pick from turns lines block h l e w =
    let p = round-rfc_steps 16 f g pick from turns block 0 h e w in
    (ap (λ x. round f block x h) l ∙ p.0, p.1)

-- On words caml_MD5Transform is the block function of RFC 1321.
pub transform-rfc_transform :
    (h : Buf) (block : Bytes) → IsWords h → transform h block ≡ rfc_transform h block
unfolding transform rfc_transform rfc_rounds
transform-rfc_transform h block w =
    let t1 : List ℕ = 7 ∷ 12 ∷ 17 ∷ 22 ∷ [] in
    let t2 : List ℕ = 5 ∷ 9 ∷ 14 ∷ 20 ∷ [] in
    let t3 : List ℕ = 4 ∷ 11 ∷ 16 ∷ 23 ∷ [] in
    let t4 : List ℕ = 6 ∷ 10 ∷ 15 ∷ 21 ∷ [] in
    let p1 = whole_round f1 aux_f word1 0 t1 lines1 block h first_lines f1-Agrees w in
    let r1 : Buf = rfc_steps 16 aux_f word1 0 t1 block 0 h in
    let p2 = whole_round f2 aux_g word2 16 t2 lines2 block r1 second_lines f2-Agrees (p1.1) in
    let r2 : Buf = rfc_steps 16 aux_g word2 16 t2 block 0 r1 in
    let p3 = whole_round f3 aux_h word3 32 t3 lines3 block r2 third_lines f3-Agrees (p2.1) in
    let r3 : Buf = rfc_steps 16 aux_h word3 32 t3 block 0 r2 in
    let p4 = whole_round f4 aux_i word4 48 t4 lines4 block r3 fourth_lines f4-Agrees (p3.1) in
    let q2 = ap (round f2 block lines2) (p1.0) ∙ p2.0 in
    let q3 = ap (round f3 block lines3) q2 ∙ p3.0 in
    ap (registers_sum h) (ap (round f4 block lines4) q3 ∙ p4.0)

registers_sum-IsWords : (h r : Buf) → IsWords (registers_sum h r)
registers_sum-IsWords h r = record {
  a_word = omega arith;
  b_word = omega arith;
  c_word = omega arith;
  d_word = omega arith;
}

pub rfc_transform-IsWords : (h : Buf) (block : Bytes) → IsWords (rfc_transform h block)
unfolding rfc_transform
rfc_transform-IsWords h block = registers_sum-IsWords h (rfc_rounds h block)
