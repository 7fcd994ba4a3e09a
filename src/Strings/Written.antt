-- ===== src/Strings/Written.antt =====
-- runtime/str.c: the bytes that the checked writes leave in the content, one after another.
use trav_lang.Common.{
  ℕ, zero, suc, ◌+◌, ◌*◌, ◌/◌, ◌%◌, ◌^◌, ◌≤◌, ◌<◌, ◌≡◌, refl, ap, sym, List, [], ◌∷◌, ◌++◌, length,
  set, blit, length-set, length-blit, arith, take-append-drop,
}
use native.Mathlib.Nat.{zero-add, suc-add, div-div-eq-div-mul, pow-suc}
use trav_lang.Common.Words.{le_bytes}
use trav_lang.Strings.Layout.{image, set_prefix, padding, pad_length}

-- The writes of the source, one byte after another: byte `k` of `v` and the `n - 1` that follow it.
unfoldable pub bytes_to : ℕ → List ℕ → ℕ → ℕ → ℕ → List ℕ
bytes_to zero xs i v k = xs
bytes_to (suc n) xs i v k = bytes_to n (set xs (i + k) (v / 2 ^ (8 * k) % 256)) i v (k + 1)

pub blit_nil : (xs : List ℕ) (i : ℕ) → blit xs i [] ≡ xs
unfolding blit
blit_nil xs i = let e : i + 0 ≡ i = omega arith in rw e (take-append-drop i xs)

pub blit_cons :
    (xs bs : List ℕ) (i b : ℕ) → i < length xs → blit xs i (b ∷ bs) ≡ blit (set xs i b) (i + 1) bs
unfolding blit
blit_cons [] bs i b h = absurd (omega arith)
blit_cons (x ∷ xs) bs zero b h =
    rw (zero-add (suc (length bs)), suc-add 0 (length bs), zero-add (length bs))
blit_cons (x ∷ xs) bs (suc i) b h = rw (
  suc-add i (suc (length bs)),
  suc-add i 1,
  suc-add (i + 1) (length bs),
  blit_cons xs bs i b (omega arith),
)

pub pow_step : (k : ℕ) → 2 ^ (8 * (k + 1)) ≡ 2 ^ (8 * k) * 256
pow_step k =
    let e : 8 * (k + 1) ≡ suc (suc (suc (suc (suc (suc (suc (suc (8 * k)))))))) = omega arith in
    rw (e, pow-suc, pow-suc, pow-suc, pow-suc, pow-suc, pow-suc, pow-suc, pow-suc) (omega arith)

pub bytes_to-blit :
    (n : ℕ) (xs : List ℕ) (i v k : ℕ)
    → i + k + n ≤ length xs
    → bytes_to n xs i v k ≡ blit xs (i + k) (le_bytes n (v / 2 ^ (8 * k)))
unfolding bytes_to
bytes_to-blit zero xs i v k h = sym (blit_nil xs (i + k))
bytes_to-blit (suc n) xs i v k h =
    let e : v / 2 ^ (8 * (k + 1)) ≡ v / 2 ^ (8 * k) / 256 =
      rw (pow_step k) (sym (div-div-eq-div-mul v (2 ^ (8 * k)) 256)) in
    let e' : i + (k + 1) ≡ i + k + 1 = omega arith in
    rw
      (blit_cons xs (le_bytes n (v / 2 ^ (8 * k) / 256)) (i + k) (v / 2 ^ (8 * k) % 256)
        (omega arith))
      (rw (← e, ← e')
        (bytes_to-blit n (set xs (i + k) (v / 2 ^ (8 * k) % 256)) i v (k + 1)
          (rw length-set (omega arith))))

pub bytes_to-append :
    (n : ℕ) (xs ys : List ℕ) (i v k : ℕ)
    → i + k + n ≤ length xs
    → bytes_to n (xs ++ ys) i v k ≡ bytes_to n xs i v k ++ ys
unfolding bytes_to
bytes_to-append zero xs ys i v k h = refl
bytes_to-append (suc n) xs ys i v k h =
    rw (set_prefix xs ys (i + k) (v / 2 ^ (8 * k) % 256) (omega arith)) (
      bytes_to-append n (set xs (i + k) (v / 2 ^ (8 * k) % 256)) ys i v (k + 1)
        (rw length-set (omega arith)))

pub length-le_bytes : (n v : ℕ) → length (le_bytes n v) ≡ n
length-le_bytes zero v = refl
length-le_bytes (suc n) v = ap suc (length-le_bytes n (v / 256))

-- The writes to an image are the writes to its content.
pub bytes_to-image :
    (n : ℕ) (xs : List ℕ) (i v : ℕ)
    → i + n ≤ length xs
    → bytes_to n (image xs) i v 0 ≡ image (blit xs i (le_bytes n v))
unfolding bytes_to
bytes_to-image n xs i v h =
    let e0 : i + 0 ≡ i = omega arith in
    let whole : v / 2 ^ (8 * 0) ≡ v = omega arith in
    let e1 : bytes_to n xs i v 0 ≡ blit xs i (le_bytes n v) =
      rw (bytes_to-blit n xs i v 0 (omega arith), e0, whole) refl in
    rw
      (
        bytes_to-append n xs (padding (pad_length xs)) i v 0 (omega arith),
        e1,
        length-blit xs (le_bytes n v) i (rw length-le_bytes h),
      )
      refl
