-- ===== src/Common/Blocks.antt =====
-- A fold over the first blocks of a sequence, which the digests of the runtime are made of.
use Prim.Native.Nat.{ℕ, zero, suc, ◌+◌, ◌*◌, ◌≤◌}
use mathlib.Core.Path.{◌≡◌, refl}
use mathlib.Core.List.{List, ◌++◌}
use native.Mathlib.Omega.{arith}
use native.Mathlib.Nat.{zero-add, suc-add, mul-zero}
use trav_lang.Common.Lists.{length, take, drop, take_prefix, drop_prefix, drop-drop, length-drop}

module _ {ℓ κ} {A : Type ℓ} {S : Type κ} (size : ℕ) (f : S → List A → S) where
  -- The state after `k` blocks of `size` items.
  unfoldable pub fold_blocks : ℕ → S → List A → S
  fold_blocks zero s m = s
  fold_blocks (suc k) s m = fold_blocks k (f s (take size m)) (drop size m)

  -- What follows the blocks does not matter.
  pub fold_blocks_prefix :
      (k : ℕ) (s : S) (m d : List A)
      → size * k ≤ length m
      → fold_blocks k s (m ++ d) ≡ fold_blocks k s m
  unfolding fold_blocks
  fold_blocks_prefix zero s m d h = refl
  fold_blocks_prefix (suc k) s m d h =
      rw (take_prefix size m d (grind arith), drop_prefix size m d (grind arith))
        (fold_blocks_prefix k (f s (take size m)) (drop size m) d
          (rw (length-drop size m) (grind arith)))

  -- Blocks one after another.
  pub fold_blocks-add :
      (j k : ℕ) (s : S) (m : List A)
      → fold_blocks (j + k) s m ≡ fold_blocks k (fold_blocks j s m) (drop (size * j) m)
  unfolding fold_blocks
  fold_blocks-add zero k s m = rw (zero-add k, mul-zero size)
  fold_blocks-add (suc j) k s m =
      let e : size + size * j ≡ size * suc j = grind arith in
      rw (suc-add j k, ← e, ← drop-drop size (size * j) m)
        (fold_blocks-add j k (f s (take size m)) (drop size m))

  -- One block.
  pub fold_blocks-one : (s : S) (m : List A) → fold_blocks 1 s m ≡ f s (take size m)
  unfolding fold_blocks
  fold_blocks-one s m = refl
