-- ===== src/Strings/Order.antt =====
-- runtime/str.c: `caml_string_compare` and the tests on it decide the lexicographic order of the contents.
use trav_lang.Common.{
  ℕ, zero, suc, ◌<◌, ◌≡◌, refl, ◌∙◌, sym, List, [], ◌∷◌, ◌++◌, length, leb, not, arith, Bool, true,
  false, inl, inr, ◌⊎◌, ◌↔◌, if◌then◌else◌, ltb,
}
use mathlib.Core.Path.{subst}
use trav_lang.Common.Int.{ℤ, pos, negsuc, ltb_ℤ}
use trav_lang.Strings.Layout.{image, string_length-image, padding, pad_length}
use trav_lang.Strings.{
  memcmp, string_compare, string_lessthan, string_lessequal, string_greaterthan,
  string_greaterequal,
}

-- The lexicographic order on the contents.
abbrev pub Precedes : List ℕ → List ℕ → Type 0
Precedes xs [] = ⊥
Precedes [] (y ∷ ys) = Unit
Precedes (x ∷ xs) (y ∷ ys) = (x < y) ⊎ ((x ≡ y) × Precedes xs ys)

-- What the three results of a comparison say.
abbrev pub Compared : List ℕ → List ℕ → ℤ → Type 0
Compared xs ys (negsuc zero) = Precedes xs ys
Compared xs ys (pos zero) = xs ≡ ys
Compared xs ys (pos (suc zero)) = Precedes ys xs
Compared xs ys _ = ⊥

-- The comparison by `memcmp` on the common length and then by length, on the contents.
compare_contents : List ℕ → List ℕ → ℤ
compare_contents [] [] = pos 0
compare_contents [] (y ∷ ys) = negsuc 0
compare_contents (x ∷ xs) [] = pos 1
compare_contents (x ∷ xs) (y ∷ ys) =
    let rest = compare_contents xs ys in
    if ltb x y then negsuc 0 else if ltb y x then pos 1 else rest

compare_contents-cons :
    (x y : ℕ) (xs ys : List ℕ) (c : ℤ) → x ≡ y → Compared xs ys c → Compared (x ∷ xs) (y ∷ ys) c
compare_contents-cons x y xs ys (negsuc zero) e h = inr (e, h)
compare_contents-cons x y xs ys (negsuc (suc n)) e h = h
compare_contents-cons x y xs ys (pos zero) e h = rw (e, h)
compare_contents-cons x y xs ys (pos (suc zero)) e h = inr (sym e, h)
compare_contents-cons x y xs ys (pos (suc (suc n))) e h = h

compare_contents-Compared : (xs ys : List ℕ) → Compared xs ys (compare_contents xs ys)
unfolding compare_contents
compare_contents-Compared [] [] = refl
compare_contents-Compared [] (y ∷ ys) = tt
compare_contents-Compared (x ∷ xs) [] = tt
compare_contents-Compared (x ∷ xs) (y ∷ ys) = ground (
  arith,
  λ (e : x ≡ y).
      compare_contents-cons x y xs ys (compare_contents xs ys) e (compare_contents-Compared xs ys),
)

-- The code's way to the result.
by_length : ℤ → ℕ → ℕ → ℤ
by_length res len1 len2 =
    if ltb_ℤ res (pos 0)
    then negsuc 0
    else if ltb_ℤ (pos 0) res
    then pos 1
    else if ltb len1 len2
    then negsuc 0
    else if ltb len2 len1
    then pos 1
    else pos 0

memcmp-contents :
    (xs ys ps qs : List ℕ)
    → by_length
        (memcmp
          (if leb (length xs) (length ys) then length xs else length ys)
          (xs ++ ps)
          (ys ++ qs))
        (length xs)
        (length ys)
      ≡ compare_contents xs ys
unfolding by_length compare_contents memcmp
memcmp-contents [] [] ps qs = refl
memcmp-contents [] (y ∷ ys) ps qs = ground arith
memcmp-contents (x ∷ xs) [] ps qs = ground arith
memcmp-contents (x ∷ xs) (y ∷ ys) ps qs =
    let a = length xs in
    let b = length ys in
    let e : (if leb (suc a) (suc b) then suc a else suc b) ≡ suc (if leb a b then a else b) =
      ground arith in
    rw e (ground (arith, memcmp-contents xs ys ps qs))

-- Where equal pointers are to equal contents, `caml_string_compare` gives -1, 0 or 1 as the content of the
-- first string precedes, is or follows that of the second in lexicographic order, whatever the padding.
pub string_compare-Compared :
    (same : Bool) (xs ys : List ℕ)
    → (same ≡ true → xs ≡ ys)
    → Compared xs ys (string_compare same (image xs) (image ys))
unfolding string_compare by_length
string_compare-Compared true xs ys p = p refl
string_compare-Compared false xs ys p =
    let e : string_compare false (image xs) (image ys) ≡ compare_contents xs ys =
      rw (string_length-image, string_length-image)
        (memcmp-contents xs ys (padding (pad_length xs)) (padding (pad_length ys))) in
    rw e (compare_contents-Compared xs ys)

-- The order is strict and total, so at most one of the three answers is right.
pub Precedes-irrefl : (xs : List ℕ) → Precedes xs xs → ⊥
Precedes-irrefl [] h = h
Precedes-irrefl (x ∷ xs) (inl h) = omega arith
Precedes-irrefl (x ∷ xs) (inr (e, h)) = Precedes-irrefl xs h

pub Precedes-trans : (xs ys zs : List ℕ) → Precedes xs ys → Precedes ys zs → Precedes xs zs
Precedes-trans xs ys [] h k = k
Precedes-trans xs [] (z ∷ zs) h k = absurd h
Precedes-trans [] (y ∷ ys) (z ∷ zs) h k = tt
Precedes-trans (x ∷ xs) (y ∷ ys) (z ∷ zs) (inl h) (inl k) = inl (omega arith)
Precedes-trans (x ∷ xs) (y ∷ ys) (z ∷ zs) (inl h) (inr (e, k)) = inl (omega arith)
Precedes-trans (x ∷ xs) (y ∷ ys) (z ∷ zs) (inr (e, h)) (inl k) = inl (omega arith)
Precedes-trans (x ∷ xs) (y ∷ ys) (z ∷ zs) (inr (e, h)) (inr (e', k)) =
    inr (e ∙ e', Precedes-trans xs ys zs h k)

not_both : (xs ys : List ℕ) → Precedes xs ys → Precedes ys xs ⊎ (xs ≡ ys) → ⊥
not_both xs ys h (inl k) = Precedes-irrefl xs (Precedes-trans xs ys xs h k)
not_both xs ys h (inr e) = Precedes-irrefl ys (subst (λ l. Precedes l ys) e h)

swap_equal : (xs ys : List ℕ) → Precedes xs ys ⊎ (xs ≡ ys) → Precedes xs ys ⊎ (ys ≡ xs)
swap_equal xs ys (inl h) = inl h
swap_equal xs ys (inr e) = inr (sym e)

holds {ℓ} : {P : Type ℓ} → P → (true ≡ true) ↔ P
holds p = (λ _. p, λ _. refl)

fails {ℓ} : {P : Type ℓ} → (P → ⊥) → (false ≡ true) ↔ P
fails n = (λ e. absurd (cc e), λ p. absurd (n p))

-- What the four tests on the result of a comparison say of the contents.
abbrev pub Decided : List ℕ → List ℕ → Bool → Bool → Bool → Bool → Type 0
Decided xs ys less greater less_equal greater_equal =
    ((less ≡ true) ↔ Precedes xs ys)
    × ((greater ≡ true) ↔ Precedes ys xs)
    × ((less_equal ≡ true) ↔ (Precedes xs ys ⊎ (xs ≡ ys)))
    × ((greater_equal ≡ true) ↔ (Precedes ys xs ⊎ (xs ≡ ys)))

order-Decided :
    (c : ℤ) (xs ys : List ℕ)
    → Compared xs ys c
    → Decided xs ys
        (ltb_ℤ c (pos 0))
        (ltb_ℤ (pos 0) c)
        (not (ltb_ℤ (pos 0) c))
        (not (ltb_ℤ c (pos 0)))
order-Decided (negsuc zero) xs ys h =
    (holds h, fails (λ k. not_both xs ys h (inl k)), holds (inl h), fails (not_both xs ys h))
order-Decided (negsuc (suc n)) xs ys h = absurd h
order-Decided (pos zero) xs ys h = (
  fails (λ k. not_both xs ys k (inr h)),
  fails (λ k. not_both ys xs k (inr (sym h))),
  holds (inr h),
  holds (inr h),
)
order-Decided (pos (suc zero)) xs ys h = (
  fails (λ k. not_both xs ys k (inl h)),
  holds h,
  fails (λ k. not_both ys xs h (swap_equal xs ys k)),
  holds (inl h),
)
order-Decided (pos (suc (suc n))) xs ys h = absurd h

-- The tests `<`, `>`, `<=` and `>=` on two strings decide the lexicographic order of their contents.
pub string_tests-Decided :
    (same : Bool) (xs ys : List ℕ)
    → (same ≡ true → xs ≡ ys)
    → Decided xs ys
        (string_lessthan same (image xs) (image ys))
        (string_greaterthan same (image xs) (image ys))
        (string_lessequal same (image xs) (image ys))
        (string_greaterequal same (image xs) (image ys))
unfolding string_lessthan string_greaterthan string_lessequal string_greaterequal
string_tests-Decided same xs ys p =
    order-Decided (string_compare same (image xs) (image ys)) xs ys
      (string_compare-Compared same xs ys p)
