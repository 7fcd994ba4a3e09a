-- ===== src/Strings/Equality.antt =====
-- runtime/str.c: `caml_string_equal` compares words; it decides whether the contents are the same.
use trav_lang.Common.{
  ℕ, zero, suc, ◌+◌, ◌*◌, ◌/◌, ◌<◌, ◌≡◌, refl, ◌∙◌, ap, sym, List, [], ◌∷◌, ◌++◌, length, take,
  drop, replicate, arith, Bool, true, false, ◌↔◌, length-take, length-drop, take-append-drop,
  take-append,
}
use trav_lang.Common.Words.{of_le_bytes}
use trav_lang.Strings.Layout.{image, string_length-image, padding, pad_length, length-image}
use trav_lang.Strings.{Block, string_length, words_equal, string_equal}

-- A list of bytes.
abbrev pub AreBytes : List ℕ → Type 0
AreBytes [] = Unit
AreBytes (x ∷ xs) = (x < 256) × AreBytes xs

pub append-AreBytes : (xs ys : List ℕ) → AreBytes xs → AreBytes ys → AreBytes (xs ++ ys)
append-AreBytes [] ys h k = k
append-AreBytes (x ∷ xs) ys (h, hs) k = (h, append-AreBytes xs ys hs k)

take-AreBytes : (n : ℕ) (xs : List ℕ) → AreBytes xs → AreBytes (take n xs)
take-AreBytes zero xs h = tt
take-AreBytes (suc n) [] h = tt
take-AreBytes (suc n) (x ∷ xs) (h, hs) = (h, take-AreBytes n xs hs)

drop-AreBytes : (n : ℕ) (xs : List ℕ) → AreBytes xs → AreBytes (drop n xs)
drop-AreBytes zero xs h = h
drop-AreBytes (suc n) [] h = tt
drop-AreBytes (suc n) (x ∷ xs) (h, hs) = drop-AreBytes n xs hs

replicate-AreBytes : (n : ℕ) → AreBytes (replicate n 0)
replicate-AreBytes zero = tt
replicate-AreBytes (suc n) = (omega arith, replicate-AreBytes n)

pub image-AreBytes : (xs : List ℕ) → AreBytes xs → AreBytes (image xs)
image-AreBytes xs h = append-AreBytes xs (padding (pad_length xs)) h (
    append-AreBytes (replicate (pad_length xs) 0) (pad_length xs ∷ [])
      (replicate-AreBytes (pad_length xs)) (omega arith, tt))

-- A word has one representation in bytes.
of_le_bytes_injective :
    (xs ys : List ℕ)
    → AreBytes xs
    → AreBytes ys
    → length xs ≡ length ys
    → of_le_bytes xs ≡ of_le_bytes ys
    → xs ≡ ys
of_le_bytes_injective [] [] h k e w = refl
of_le_bytes_injective [] (y ∷ ys) h k e w = absurd (omega arith)
of_le_bytes_injective (x ∷ xs) [] h k e w = absurd (omega arith)
of_le_bytes_injective (x ∷ xs) (y ∷ ys) (h, hs) (k, ks) e w =
    let first : x ≡ y = omega arith in
    let rest : xs ≡ ys = of_le_bytes_injective xs ys hs ks (omega arith) (omega arith) in
    rw (first, rest)

words_equal-same : (n : ℕ) (p : Block) → words_equal n p p ≡ true
unfolding words_equal
words_equal-same zero p = refl
words_equal-same (suc n) p = ground (arith, words_equal-same n (drop 8 p))

words_equal-equal :
    (n : ℕ) (p q : Block)
    → AreBytes p
    → AreBytes q
    → length p ≡ 8 * n
    → length q ≡ 8 * n
    → words_equal n p q ≡ true
    → p ≡ q
unfolding words_equal
words_equal-equal zero [] [] h k e e' w = refl
words_equal-equal zero (x ∷ p) q h k e e' w = absurd (omega arith)
words_equal-equal zero [] (y ∷ q) h k e e' w = absurd (omega arith)
words_equal-equal (suc n) p q h k e e' w =
    let first : of_le_bytes (take 8 p) ≡ of_le_bytes (take 8 q) = ground arith in
    let rest : words_equal n (drop 8 p) (drop 8 q) ≡ true = ground arith in
    let word : take 8 p ≡ take 8 q =
      of_le_bytes_injective (take 8 p) (take 8 q) (take-AreBytes 8 p h) (take-AreBytes 8 q k)
        (length-take 8 p ∙ (omega arith ∙ sym (length-take 8 q))) first in
    let words : drop 8 p ≡ drop 8 q =
      words_equal-equal n (drop 8 p) (drop 8 q) (drop-AreBytes 8 p h) (drop-AreBytes 8 q k)
        (rw length-drop (omega arith)) (rw length-drop (omega arith)) rest in
    sym (take-append-drop 8 p) ∙ rw (word, words) (take-append-drop 8 q)

-- The padding tells the length, so the block determines the content.
pub image_injective : (xs ys : List ℕ) → image xs ≡ image ys → xs ≡ ys
image_injective xs ys e =
    let same : length xs ≡ length ys =
      sym (string_length-image xs) ∙ (ap string_length e ∙ string_length-image ys) in
    let left : take (length xs) (image xs) ≡ xs = take-append xs (padding (pad_length xs)) _ refl in
    let right : take (length xs) (image ys) ≡ ys =
      take-append ys (padding (pad_length ys)) _ same in
    sym left ∙ (ap (take (length xs)) e ∙ right)

string_equal-blocks :
    (p q : Block) (m n : ℕ)
    → AreBytes p
    → AreBytes q
    → length p ≡ 8 * m
    → length q ≡ 8 * n
    → string_equal false p q ≡ true
    → p ≡ q
unfolding string_equal
string_equal-blocks p q m n h k e e' w =
    let sizes : length p / 8 ≡ length q / 8 = ground arith in
    let words : words_equal (length p / 8) p q ≡ true = ground arith in
    words_equal-equal (length p / 8) p q h k (omega arith) (omega arith) words

string_equal-same : (same : Bool) (p : Block) → string_equal same p p ≡ true
unfolding string_equal
string_equal-same same p = ground (arith, words_equal-same (length p / 8) p)

-- Where equal pointers are to equal contents, `caml_string_equal` on the blocks of two strings is true
-- exactly if the strings have the same bytes.
pub string_equal_iff :
    (same : Bool) (xs ys : List ℕ)
    → AreBytes xs
    → AreBytes ys
    → (same ≡ true → xs ≡ ys)
    → (string_equal same (image xs) (image ys) ≡ true) ↔ (xs ≡ ys)
string_equal_iff true xs ys h k p = (λ _. p refl, λ e. rw e (string_equal-same true (image ys)))
string_equal_iff false xs ys h k p = (
  λ w. image_injective xs ys (
      string_equal-blocks (image xs) (image ys) (length xs / 8 + 1) (length ys / 8 + 1)
        (image-AreBytes xs h) (image-AreBytes ys k) (length-image xs) (length-image ys) w),
  λ e. rw e (string_equal-same false (image ys)),
)
