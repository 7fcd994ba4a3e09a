-- ===== src/Trees.antt =====
-- Values as finite trees, for the parts of the runtime that walk through them: what runtime/caml/mlvalues.h
-- tells apart by tags. Sharing is not seen in a tree. Floating-point numbers and custom blocks are left out.
use trav_lang.Common.{ℕ, suc, ◌+◌, ◌<◌, ◌≤◌, ◌≡◌, ◌⊎◌, max, arith, List}
use trav_lang.Common.Int.{ℤ}

-- The blocks that cannot be compared.
pub data Opaque : Type 0 where
  continuation closure inner_closure abstract : Opaque

-- An immediate integer, a string, an object with its number, a forwarding block, or a block of fields.
mutual
  pub data Tree : Type 0 where
    immediate : ℤ → Tree
    text : List ℕ → Tree
    object : ℕ → Tree
    forward : Tree → Tree
    opaque : Opaque → Tree
    node : ℕ → Forest → Tree

  pub data Forest : Type 0 where
    end : Forest
    child : Tree → Forest → Forest

abbrev pub opaque_tag : Opaque → ℕ
opaque_tag continuation = 245
opaque_tag closure = 247
opaque_tag inner_closure = 249
opaque_tag abstract = 251

-- `Tag_val` of a block.
abbrev pub tag_of : Tree → ℕ
tag_of (immediate z) = 1000
tag_of (text xs) = 252
tag_of (object oid) = 248
tag_of (forward v) = 250
tag_of (opaque o) = opaque_tag o
tag_of (node t f) = t

-- `Wosize_val` of a block of fields.
abbrev pub count_fields : Forest → ℕ
count_fields end = 0
count_fields (child v f) = suc (count_fields f)

unfoldable mutual
  pub size : Tree → ℕ
  size (immediate z) = 1
  size (text xs) = 1
  size (object oid) = 1
  size (forward v) = suc (size v)
  size (opaque o) = 1
  size (node t f) = suc (size_forest f)

  pub size_forest : Forest → ℕ
  size_forest end = 0
  size_forest (child v f) = size v + size_forest f

unfoldable mutual
  pub depth : Tree → ℕ
  depth (immediate z) = 0
  depth (text xs) = 0
  depth (object oid) = 0
  depth (forward v) = depth v
  depth (opaque o) = 0
  depth (node t f) = suc (depth_forest f)

  pub depth_forest : Forest → ℕ
  depth_forest end = 0
  depth_forest (child v f) = max (depth v) (depth_forest f)

-- The tree behind all forwarding blocks.
unfoldable mutual
  pub strip : Tree → Tree
  strip (immediate z) = immediate z
  strip (text xs) = text xs
  strip (object oid) = object oid
  strip (forward v) = strip v
  strip (opaque o) = opaque o
  strip (node t f) = node t (strip_forest f)

  pub strip_forest : Forest → Forest
  strip_forest end = end
  strip_forest (child v f) = child (strip v) (strip_forest f)

-- Trees without opaque blocks.
unfoldable mutual
  pub Comparable : Tree → Type 0
  Comparable (immediate z) = Unit
  Comparable (text xs) = Unit
  Comparable (object oid) = Unit
  Comparable (forward v) = Comparable v
  Comparable (opaque o) = ⊥
  Comparable (node t f) = AllComparable f

  pub AllComparable : Forest → Type 0
  AllComparable end = Unit
  AllComparable (child v f) = Comparable v × AllComparable f

-- The tags that blocks of fields may have: those below the special ones, and that of lazy values.
abbrev pub IsPlain : ℕ → Type 0
IsPlain t = (t < 245) ⊎ (t ≡ 246)

unfoldable mutual
  pub IsValue : Tree → Type 0
  IsValue (immediate z) = Unit
  IsValue (text xs) = Unit
  IsValue (object oid) = Unit
  IsValue (forward v) = IsValue v
  IsValue (opaque o) = Unit
  IsValue (node t f) = IsPlain t × AreValues f

  pub AreValues : Forest → Type 0
  AreValues end = Unit
  AreValues (child v f) = IsValue v × AreValues f

pub size_pos : (v : Tree) → 1 ≤ size v
unfolding size
size_pos (immediate z) = omega arith
size_pos (text xs) = omega arith
size_pos (object oid) = omega arith
size_pos (forward v) = omega arith
size_pos (opaque o) = omega arith
size_pos (node t f) = omega arith
