-- ===== src/Bigarray/Offsets.antt =====
-- runtime/bigarray.c: the loop of `caml_ba_offset` without wrap-around, and what it counts.
use native.Mathlib.Nat.{suc-mul, mul-le-mul_right, le-mul_of_pos_right, mul-pos}
use trav_lang.Common.{
  ℕ, suc, ◌+◌, ◌*◌, ◌%◌, ◌^◌, ◌≤◌, ◌<◌, ◌≡◌, refl, sym, ◌∙◌, ap, List, [], ◌∷◌, ◌++◌, Option, none,
  some, ◌>>=◌, true, false, length, ltb, if◌then◌else◌, arith, dec_lt,
}
use trav_lang.Bigarray.{offset_loop}

-- The number of elements, without bounds.
abbrev pub size_of : List ℕ → ℕ
size_of [] = 1
size_of (d ∷ ds) = d * size_of ds

-- The number in the mixed radix of the dimensions whose digits are the indices.
unfoldable pub rank : ℕ → List ℕ → List ℕ → Option ℕ
rank a [] index = some a
rank a (d ∷ ds) [] = none
rank a (d ∷ ds) (i ∷ index) = let rest = rank (a * d + i) ds index in if ltb i d then rest else none

-- Indices that are all in bounds.
abbrev pub Within : List ℕ → List ℕ → Type 0
Within [] index = Unit
Within (d ∷ ds) [] = ⊥
Within (d ∷ ds) (i ∷ index) = (i < d) × Within ds index

pub digit_fits : (a d i p : ℕ) → i < d → (a * d + i + 1) * p ≤ (a + 1) * (d * p)
digit_fits a d i p h =
    let l : suc i * p ≤ d * p = mul-le-mul_right p h in
    let e : suc i * p ≡ i * p + p = suc-mul i p in omega arith

pub rank-Within :
    (a : ℕ) (ds index : List ℕ)
    → Within ds index
    → (k : ℕ) × (rank a ds index ≡ some k) × (a * size_of ds ≤ k) × (k < (a + 1) * size_of ds)
unfolding rank
rank-Within a [] index h = (a, refl, omega arith, omega arith)
rank-Within a (d ∷ ds) [] h = elim h [ ]
rank-Within a (d ∷ ds) (i ∷ index) (h, h') =
    let (k, e, l, l') = rank-Within (a * d + i) ds index h' in
    let b : ltb i d ≡ true = ground arith in
    let m = digit_fits a d i (size_of ds) h in (k, simp (b, e) refl, omega arith, omega arith)

pub rank-outside : (a : ℕ) (ds index : List ℕ) → ¬ (Within ds index) → rank a ds index ≡ none
unfolding rank
rank-outside a [] index h = absurd (h tt)
rank-outside a (d ∷ ds) [] h = refl
rank-outside a (d ∷ ds) (i ∷ index) h = elim (dec_lt i d) [
  | yes l ↦
      let b : ltb i d ≡ true = ground arith in
      simp (b, rank-outside (a * d + i) ds index (λ w. h (l, w))) refl
  | no l ↦ let b : ltb i d ≡ false = ground arith in simp b refl
]

pub Within-positive : (ds index : List ℕ) → Within ds index → 0 < size_of ds
Within-positive [] index h = omega arith
Within-positive (d ∷ ds) [] h = elim h [ ]
Within-positive (d ∷ ds) (i ∷ index) (h, h') =
    let l : 0 < d = omega arith in mul-pos l (Within-positive ds index h')

-- No wrap-around happens where the elements number less than 2 ^ 64.
pub offset_loop-rank :
    (a : ℕ) (ds index : List ℕ)
    → (a + 1) * size_of ds ≤ 2 ^ 64
    → Within ds index
    → offset_loop a ds index ≡ rank a ds index
unfolding offset_loop rank
offset_loop-rank a [] index h w = refl
offset_loop-rank a (d ∷ ds) [] h w = elim w [ ]
offset_loop-rank a (d ∷ ds) (i ∷ index) h (l, w) =
    let b : ltb i d ≡ true = ground arith in
    let p = Within-positive ds index w in
    let m = digit_fits a d i (size_of ds) l in
    let m' : a * d + i + 1 ≤ (a * d + i + 1) * size_of ds = le-mul_of_pos_right (a * d + i + 1) p in
    let e : (a * d + i) % 2 ^ 64 ≡ a * d + i = omega arith in
    simp (b, e) (offset_loop-rank (a * d + i) ds index (omega arith) w)

pub offset_loop-outside :
    (a : ℕ) (ds index : List ℕ) → ¬ (Within ds index) → offset_loop a ds index ≡ none
unfolding offset_loop
offset_loop-outside a [] index h = absurd (h tt)
offset_loop-outside a (d ∷ ds) [] h = refl
offset_loop-outside a (d ∷ ds) (i ∷ index) h = elim (dec_lt i d) [
  | yes l ↦
      let b : ltb i d ≡ true = ground arith in
      simp (b, offset_loop-outside ((a * d + i) % 2 ^ 64) ds index (λ w. h (l, w))) refl
  | no l ↦ let b : ltb i d ≡ false = ground arith in simp b refl
]

pub within_dec : (ds index : List ℕ) → Dec (Within ds index)
within_dec [] index = yes tt
within_dec (d ∷ ds) [] = no (λ w. w)
within_dec (d ∷ ds) (i ∷ index) = elim (dec_lt i d) [
  | yes l ↦ elim (within_dec ds index) [ yes w ↦ yes (l, w) | no w ↦ no (λ p. w p.1) ]
  | no l ↦ no (λ p. l p.0)
]

-- The loop computes the number of the indices.
pub offset_loop_exact :
    (ds index : List ℕ) → size_of ds ≤ 2 ^ 64 → offset_loop 0 ds index ≡ rank 0 ds index
offset_loop_exact ds index h = elim (within_dec ds index) [
  | yes w ↦ offset_loop-rank 0 ds index (omega arith) w
  | no w ↦ offset_loop-outside 0 ds index w ∙ sym (rank-outside 0 ds index w)
]

-- The first indices count the blocks that the others count within.
pub rank-append :
    (a : ℕ) (ds es is js : List ℕ)
    → length is ≡ length ds
    → rank a (ds ++ es) (is ++ js) ≡ (rank a ds is >>= λ o. rank o es js)
unfolding rank
rank-append a [] es [] js h = refl
rank-append a [] es (i ∷ is) js h = absurd (omega arith)
rank-append a (d ∷ ds) es [] js h = absurd (omega arith)
rank-append a (d ∷ ds) es (i ∷ is) js h =
    let e = rank-append (a * d + i) ds es is js (omega arith) in
    elim (dec_lt i d) [
      | yes l ↦ let b : ltb i d ≡ true = ground arith in simp (b, e) refl
      | no l ↦ let b : ltb i d ≡ false = ground arith in simp b refl
    ]

shift_bind :
    (a d i p : ℕ) (o : Option ℕ)
    → (o >>= λ k. some ((a * d + i) * p + k))
      ≡ (o >>= (λ k. some ((0 * d + i) * p + k)) >>= λ k. some (a * (d * p) + k))
shift_bind a d i p none = refl
shift_bind a d i p (some k) = ap (λ n. some n) (omega arith)

pub rank_shift :
    (a : ℕ) (ds js : List ℕ) → rank a ds js ≡ (rank 0 ds js >>= λ k. some (a * size_of ds + k))
unfolding rank
rank_shift a [] js = ground arith
rank_shift a (d ∷ ds) [] = refl
rank_shift a (d ∷ ds) (i ∷ js) = elim (dec_lt i d) [
  | yes l ↦
      let b : ltb i d ≡ true = ground arith in
      let e : rank (0 * d + i) ds js ≡ (rank 0 ds js >>= λ k. some ((0 * d + i) * size_of ds + k)) =
        rank_shift (0 * d + i) ds js in
      simp b (
        rank_shift (a * d + i) ds js
        ∙ shift_bind a d i (size_of ds) (rank 0 ds js)
        ∙ ap (λ o. o >>= λ k. some (a * (d * size_of ds) + k)) (sym e))
  | no l ↦ let b : ltb i d ≡ false = ground arith in simp b refl
]

digits_equal : (a b d i j : ℕ) → i < d → j < d → a * d + i ≡ b * d + j → (a ≡ b) × (i ≡ j)
digits_equal a b d i j h h' e = elim (dec_lt a b) [
  | yes l ↦
      let m : suc a * d ≤ b * d = mul-le-mul_right d l in
      let n : suc a * d ≡ a * d + d = suc-mul a d in absurd (omega arith)
  | no l ↦ elim (dec_lt b a) [
    | yes l' ↦
        let m : suc b * d ≤ a * d = mul-le-mul_right d l' in
        let n : suc b * d ≡ b * d + d = suc-mul b d in absurd (omega arith)
    | no l' ↦
        let f : a ≡ b = omega arith in let g : a * d ≡ b * d = ap (λ n. n * d) f in (f, omega arith)
  ]
]

-- Different indices have different numbers.
pub rank_injective :
    (a b : ℕ) (ds is js : List ℕ)
    → length is ≡ length ds
    → length js ≡ length ds
    → Within ds is
    → Within ds js
    → rank a ds is ≡ rank b ds js
    → (a ≡ b) × (is ≡ js)
unfolding rank
rank_injective a b [] [] [] h h' w w' e = ground arith
rank_injective a b [] (i ∷ is) js h h' w w' e = absurd (omega arith)
rank_injective a b [] [] (j ∷ js) h h' w w' e = absurd (omega arith)
rank_injective a b (d ∷ ds) [] js h h' w w' e = absurd (omega arith)
rank_injective a b (d ∷ ds) (i ∷ is) [] h h' w w' e = absurd (omega arith)
rank_injective a b (d ∷ ds) (i ∷ is) (j ∷ js) h h' (l, w) (l', w') e =
    let t : ltb i d ≡ true = ground arith in
    let t' : ltb j d ≡ true = ground arith in
    let e' : rank (a * d + i) ds is ≡ rank (b * d + j) ds js = simp (t, t') at e in
    let (f, g) =
      rank_injective (a * d + i) (b * d + j) ds is js (omega arith) (omega arith) w w' e' in
    let (p, q) = digits_equal a b d i j l l' f in (p, cc (q, g))
