-- ===== src/Common/Lists.antt =====
-- Lists measured and indexed by native numbers, under the library's names, and `memcpy` into a list.
use Prim.Native.Nat.{ℕ, zero, suc, ◌+◌, ◌-◌, ◌≤◌, ◌<◌, min}
use mathlib.Core.Path.{◌≡◌, refl, ap, ◌∙◌}
use mathlib.Core.List.{List, [], ◌∷◌, ◌++◌, append_assoc, append-nil}
use mathlib.Core.Option.{Option, none, some}
use trav_lang.Common.Tests.{IfSome}
use native.Mathlib.Omega.{arith}
use native.Mathlib.Nat.{zero-add, suc-add, sub-zero}

module _ {ℓ} {A : Type ℓ} where
  abbrev pub length : List A → ℕ
  length [] = 0
  length (x ∷ xs) = suc (length xs)

  abbrev pub get_elem? : List A → ℕ → Option A
  get_elem? [] i = none
  get_elem? (x ∷ xs) zero = some x
  get_elem? (x ∷ xs) (suc i) = get_elem? xs i

  abbrev pub get_or : List A → ℕ → A → A
  get_or [] i d = d
  get_or (x ∷ xs) zero d = x
  get_or (x ∷ xs) (suc i) d = get_or xs i d

  -- A write out of bounds changes nothing.
  abbrev pub set : List A → ℕ → A → List A
  set [] i v = []
  set (x ∷ xs) zero v = v ∷ xs
  set (x ∷ xs) (suc i) v = x ∷ set xs i v

  abbrev pub take : ℕ → List A → List A
  take zero xs = []
  take (suc n) [] = []
  take (suc n) (x ∷ xs) = x ∷ take n xs

  abbrev pub drop : ℕ → List A → List A
  drop zero xs = xs
  drop (suc n) [] = []
  drop (suc n) (x ∷ xs) = drop n xs

  abbrev pub replicate : ℕ → A → List A
  replicate zero a = []
  replicate (suc n) a = a ∷ replicate n a

-- `Field(xs, i) = v`: a write out of bounds is a fault.
abbrev pub store {ℓ} : {A : Type ℓ} → List A → ℕ → A → Option (List A)
store [] i v = none
store (x ∷ xs) zero v = some (v ∷ xs)
store (x ∷ xs) (suc i) v = elim (store xs i v) [ none ↦ none | some ys ↦ some (x ∷ ys) ]

-- `memcpy(dst + i, src, length src)`.
unfoldable pub blit {ℓ} : {A : Type ℓ} → List A → ℕ → List A → List A
blit dst i src = take i dst ++ (src ++ drop (i + length src) dst)

module _ {ℓ} {A : Type ℓ} where
  pub length-append : (xs ys : List A) → length (xs ++ ys) ≡ length xs + length ys
  length-append [] ys = omega arith
  length-append (x ∷ xs) ys = omega (arith, length-append xs ys)

  pub length-set : (xs : List A) (i : ℕ) (v : A) → length (set xs i v) ≡ length xs
  length-set [] i v = refl
  length-set (x ∷ xs) zero v = refl
  length-set (x ∷ xs) (suc i) v = ap suc (length-set xs i v)

  pub length-store :
      (xs : List A) (i : ℕ) (v : A) → IfSome (λ ys. length ys ≡ length xs) (store xs i v)
  length-store [] i v = tt
  length-store (x ∷ xs) zero v = refl
  length-store (x ∷ xs) (suc i) v = ground (arith, length-store xs i v)

  -- A write in bounds goes through.
  pub store-set : (xs : List A) (i : ℕ) (v : A) → i < length xs → store xs i v ≡ some (set xs i v)
  store-set [] i v h = absurd (omega arith)
  store-set (x ∷ xs) zero v h = refl
  store-set (x ∷ xs) (suc i) v h = rw (store-set xs i v (omega arith))

  -- A write that goes through does so on a longer list too.
  pub store_prefix :
      (xs zs : List A) (i : ℕ) (v : A)
      → IfSome (λ ys. store (xs ++ zs) i v ≡ some (ys ++ zs)) (store xs i v)
  store_prefix [] zs i v = tt
  store_prefix (x ∷ xs) zs zero v = refl
  store_prefix (x ∷ xs) zs (suc i) v = ground (arith, store_prefix xs zs i v)

  -- A read that goes through does so on a longer list too.
  pub read_prefix :
      (xs zs : List A) (i : ℕ) → IfSome (λ x. get_elem? (xs ++ zs) i ≡ some x) (get_elem? xs i)
  read_prefix [] zs i = tt
  read_prefix (x ∷ xs) zs zero = refl
  read_prefix (x ∷ xs) zs (suc i) = read_prefix xs zs i

  pub get_elem?-lt : (xs : List A) (i : ℕ) → i < length xs → (x : A) × (get_elem? xs i ≡ some x)
  get_elem?-lt [] i h = absurd (omega arith)
  get_elem?-lt (x ∷ xs) zero h = (x, refl)
  get_elem?-lt (x ∷ xs) (suc i) h = get_elem?-lt xs i (omega arith)

  pub length-take : (n : ℕ) (xs : List A) → length (take n xs) ≡ min n (length xs)
  length-take zero xs = omega arith
  length-take (suc n) [] = omega arith
  length-take (suc n) (x ∷ xs) = omega (arith, length-take n xs)

  pub length-drop : (n : ℕ) (xs : List A) → length (drop n xs) ≡ length xs - n
  length-drop zero xs = omega arith
  length-drop (suc n) [] = omega arith
  length-drop (suc n) (x ∷ xs) = omega (arith, length-drop n xs)

  pub length-replicate : (n : ℕ) (a : A) → length (replicate n a) ≡ n
  length-replicate zero a = refl
  length-replicate (suc n) a = ap suc (length-replicate n a)

  pub take-append-drop : (n : ℕ) (xs : List A) → take n xs ++ drop n xs ≡ xs
  take-append-drop zero xs = refl
  take-append-drop (suc n) [] = refl
  take-append-drop (suc n) (x ∷ xs) = rw (take-append-drop n xs)

  -- A prefix that is long enough is all that `take` sees.
  pub take_prefix : (n : ℕ) (xs ys : List A) → n ≤ length xs → take n (xs ++ ys) ≡ take n xs
  take_prefix zero xs ys h = refl
  take_prefix (suc n) [] ys h = absurd (omega arith)
  take_prefix (suc n) (x ∷ xs) ys h = rw (take_prefix n xs ys (omega arith))

  pub drop_prefix : (n : ℕ) (xs ys : List A) → n ≤ length xs → drop n (xs ++ ys) ≡ drop n xs ++ ys
  drop_prefix zero xs ys h = refl
  drop_prefix (suc n) [] ys h = absurd (omega arith)
  drop_prefix (suc n) (x ∷ xs) ys h = drop_prefix n xs ys (omega arith)

  pub take_all : (n : ℕ) (xs : List A) → length xs ≤ n → take n xs ≡ xs
  take_all zero [] h = refl
  take_all zero (x ∷ xs) h = absurd (omega arith)
  take_all (suc n) [] h = refl
  take_all (suc n) (x ∷ xs) h = rw (take_all n xs (omega arith))

  pub drop_all : (n : ℕ) (xs : List A) → length xs ≤ n → drop n xs ≡ []
  drop_all zero [] h = refl
  drop_all zero (x ∷ xs) h = absurd (omega arith)
  drop_all (suc n) [] h = refl
  drop_all (suc n) (x ∷ xs) h = drop_all n xs (omega arith)

  -- `take` and `drop` at the seam of an append.
  pub take-append : (xs ys : List A) (n : ℕ) → n ≡ length xs → take n (xs ++ ys) ≡ xs
  take-append xs ys n e = take_prefix n xs ys (omega arith) ∙ take_all n xs (omega arith)

  pub drop-append : (xs ys : List A) (n : ℕ) → n ≡ length xs → drop n (xs ++ ys) ≡ ys
  drop-append xs ys n e = rw (drop_prefix n xs ys (omega arith), drop_all n xs (omega arith))

  pub drop-nil : (n : ℕ) → drop {A = A} n [] ≡ []
  drop-nil zero = refl
  drop-nil (suc n) = refl

  pub drop-drop : (m n : ℕ) (xs : List A) → drop n (drop m xs) ≡ drop (m + n) xs
  drop-drop zero n xs = rw (zero-add n)
  drop-drop (suc m) n [] = rw (drop-nil n, drop-nil (suc m + n))
  drop-drop (suc m) n (x ∷ xs) = rw (suc-add m n) (drop-drop m n xs)

  pub get_elem?-take :
      (n : ℕ) (xs : List A) (i : ℕ) → i < n → get_elem? (take n xs) i ≡ get_elem? xs i
  get_elem?-take zero xs i h = absurd (omega arith)
  get_elem?-take (suc n) [] i h = refl
  get_elem?-take (suc n) (x ∷ xs) zero h = refl
  get_elem?-take (suc n) (x ∷ xs) (suc i) h = get_elem?-take n xs i (omega arith)

  -- `take` and `drop` past the seam of an append.
  pub take_past :
      (n : ℕ) (xs ys : List A) → length xs ≤ n → take n (xs ++ ys) ≡ xs ++ take (n - length xs) ys
  take_past n [] ys h = rw (sub-zero n)
  take_past zero (x ∷ xs) ys h = absurd (omega arith)
  take_past (suc n) (x ∷ xs) ys h =
      let e : suc n - suc (length xs) ≡ n - length xs = omega arith in
      rw (e, take_past n xs ys (omega arith))

  pub drop_past :
      (n : ℕ) (xs ys : List A) → length xs ≤ n → drop n (xs ++ ys) ≡ drop (n - length xs) ys
  drop_past n [] ys h = rw (sub-zero n)
  drop_past zero (x ∷ xs) ys h = absurd (omega arith)
  drop_past (suc n) (x ∷ xs) ys h =
      let e : suc n - suc (length xs) ≡ n - length xs = omega arith in
      rw e (drop_past n xs ys (omega arith))

  -- A copy that covers the whole buffer leaves the source alone.
  pub blit_whole : (dst src : List A) → length src ≡ length dst → blit dst 0 src ≡ src
  unfolding blit
  blit_whole dst src e =
      rw (zero-add (length src), drop_all (length src) dst (omega arith), append-nil)

  pub length-blit :
      (dst src : List A) (i : ℕ)
      → i + length src ≤ length dst
      → length (blit dst i src) ≡ length dst
  unfolding blit
  length-blit dst src i h =
      rw (length-append, length-append, length-take, length-drop) (omega arith)

  pub replicate-add : (m n : ℕ) (a : A) → replicate (m + n) a ≡ replicate m a ++ replicate n a
  replicate-add zero n a = rw (zero-add n)
  replicate-add (suc m) n a = rw (suc-add m n, replicate-add m n a)

  -- What stands before the end of a copy.
  pub take-blit :
      (dst src : List A) (i : ℕ)
      → i + length src ≤ length dst
      → take (i + length src) (blit dst i src) ≡ take i dst ++ src
  unfolding blit
  take-blit dst src i h =
      let e : i + length src ≡ length (take i dst ++ src) =
        rw (length-append, length-take) (omega arith) in
      rw (← append_assoc) (take-append (take i dst ++ src) _ _ e)

  -- A copy that ends where the buffer ends.
  pub blit_tail :
      (dst w src : List A) (i : ℕ)
      → length dst ≡ i + length src
      → take i dst ≡ w
      → blit dst i src ≡ w ++ src
  unfolding blit
  blit_tail dst w src i e h = rw (h, drop_all (i + length src) dst (omega arith), append-nil)

  -- A copy behind a known prefix.
  pub take-blit_after :
      (dst w src : List A)
      → length w + length src ≤ length dst
      → take (length w) dst ≡ w
      → take (length w + length src) (blit dst (length w) src) ≡ w ++ src
  take-blit_after dst w src h e = take-blit dst src (length w) h ∙ ap (λ b. b ++ src) e

  pub get_elem?_prefix :
      (xs ys : List A) (i : ℕ) → i < length xs → get_elem? (xs ++ ys) i ≡ get_elem? xs i
  get_elem?_prefix [] ys i h = absurd (omega arith)
  get_elem?_prefix (x ∷ xs) ys zero h = refl
  get_elem?_prefix (x ∷ xs) ys (suc i) h = get_elem?_prefix xs ys i (omega arith)
