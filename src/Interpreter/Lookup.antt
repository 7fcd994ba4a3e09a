-- ===== src/Interpreter/Lookup.antt =====
-- runtime/interp.c: the look-up of a method finds the method of the label, by search or by cache.
use Prim.Native.Nat.{bit_and}
use trav_lang.Common.{
  ℕ, zero, suc, ◌+◌, ◌-◌, ◌*◌, ◌/◌, ◌%◌, ◌<◌, ◌≡◌, ◌≢◌, refl, ap, dec_lt, ◌⊎◌, inl, inr, true,
  false, List, [], ◌∷◌, Option, some, ◌>>=◌, get_elem?, length, ◌==◌, set, store-set, ℕ_discrete,
  arith,
}
use trav_lang.Common.Int.{ℤ, pos}
use trav_lang.Interpreter.Arithmetic.{same_value}
use trav_lang.Interpreter.Methods.{label, get_dynamic, get_public, at_offset, bits, as_word}
use trav_lang.Interpreter.{
  Value, word, Block, State, Cell, operand, operand_of, val_long, field, peek, pushed,
}
use trav_lang.Interpreter.Search.{IsTable, signed_lt-irreflexive, find_label-finds, method_at-finds}

-- GETDYNMET puts the method of the label in `accu` into `accu`, for an object with a table of methods in
-- ascending order of their labels that has that label.
pub get_dynamic-method :
    (s : State) (obj meths : Value) (n k : ℕ) (labels : ℕ → ℕ) (methods : ℕ → Value)
    → get_elem? s.sp 0 ≡ some obj
    → field s.heap obj 0 ≡ some meths
    → IsTable s.heap meths n labels methods
    → k < n
    → s.accu ≡ word (labels k)
    → get_dynamic s ≡ some (record s { accu = methods k })
unfolding get_dynamic
get_dynamic-method s obj meths n k labels methods e e' t h f =
    simp (e, e', f, method_at-finds k t h) refl

as_word-word : (o : Option Value) (w : ℕ) → o >>= as_word ≡ some w → o ≡ some (word w)
as_word-word o w e = ground arith

-- The places of the table that the cache points to.
hit-label :
    {heap : List Block} {meths : Value} {n : ℕ} {labels : ℕ → ℕ} {methods : ℕ → Value} (i : ℕ)
    → IsTable heap meths n labels methods
    → i < n
    → (at_offset heap meths 3 (16 * i) ≡ some (word (labels i)))
      × (at_offset heap meths 2 (16 * i) ≡ some (methods i))
unfolding at_offset label
hit-label {heap = heap} {meths = meths} i t h =
    let e : 16 * i % 8 == 0 ≡ true = ground arith in
    let d : 16 * i / 8 ≡ 2 * i = omega arith in
    let p : 3 + 2 * i ≡ 2 * i + 3 = omega arith in
    let q : 2 + 2 * i ≡ 2 * i + 2 = omega arith in
    (simp (e, d, p) (as_word-word _ _ (t.labelled i h)), simp (e, d, q) (t.filled i h))

same-label :
    {heap : List Block} {meths : Value} {n : ℕ} {labels : ℕ → ℕ} {methods : ℕ → Value} (i k : ℕ)
    → IsTable heap meths n labels methods
    → i < n
    → k < n
    → labels i ≡ labels k
    → i ≡ k
same-label {labels = labels} i k t h h' e = elim (dec_lt i k) [
  | yes l ↦ absurd (cc (t.ascending i k l h', signed_lt-irreflexive (labels k), e))
  | no l ↦ elim (dec_lt k i) [
    | yes l' ↦ absurd (cc (t.ascending k i l' h, signed_lt-irreflexive (labels k), e))
    | no l' ↦ omega arith
  ]
]

cell-inside :
    (xs : List Cell) (i : ℕ) (z : ℤ) → operand_of (get_elem? xs i) ≡ some z → i < length xs
cell-inside [] i z e = ground arith
cell-inside (x ∷ xs) zero z e = omega arith
cell-inside (x ∷ xs) (suc i) z e = ground (arith, cell-inside xs i z e)

peek-inside : (s : State) (i : ℕ) (z : ℤ) → peek s i ≡ some z → s.pc + i < length s.program
unfolding peek
peek-inside s i z e = cell-inside s.program (s.pc + i) z e

same_word : (a b : ℕ) → a ≡ b → same_value (word a) (word b) ≡ true
unfolding same_value
same_word a b e = ground arith

other_word : (a b : ℕ) → a ≢ b → same_value (word a) (word b) ≡ false
unfolding same_value
other_word a b e = ground arith

-- The state behind GETPUBMET.
abbrev pub got : Value → List Cell → State → State
got v program s = record (pushed s) { pc = s.pc + 2; accu = v; program = program }

-- GETPUBMET, whose cache is masked to some place of the table, pushes the object and puts the method of its
-- label into `accu`, for an object with a table of methods in ascending order of their labels that has that
-- label. It leaves the program alone, or sets its cache to the place of the label.
pub get_public-method :
    (s : State) (meths : Value) (n k i mask : ℕ) (labels : ℕ → ℕ) (methods : ℕ → Value)
    (z cache : ℤ)
    → peek s 0 ≡ some z
    → peek s 1 ≡ some cache
    → field s.heap s.accu 0 ≡ some meths
    → label s.heap meths 1 ≡ some mask
    → bit_and (bits cache) mask ≡ 16 * i
    → i < n
    → IsTable s.heap meths n labels methods
    → k < n
    → val_long z ≡ labels k
    → (get_public s ≡ some (got (methods k) s.program s))
      ⊎ (get_public s
          ≡ some (got (methods k) (set s.program (s.pc + 1) (operand (pos (16 * k)))) s))
unfolding get_public
get_public-method s meths n k i mask labels methods z cache e e' o f m b t h v =
    let q : val_long z ≡ labels k = v in
    let hit = hit-label i t b in
    elim (ℕ_discrete (labels i) (labels k)) [
      | yes y ↦
          let same : i ≡ k = same-label i k t b h y in
          let l : same_value (word (labels i)) (word (labels k)) ≡ true = same_word _ _ y in
          inl (
            simp (e, e', o, f, m, v, hit.0, hit.1, l)
              (ap (λ j. some (got (methods j) s.program s)) same))
      | no y ↦
          let l : same_value (word (labels i)) (word (labels k)) ≡ false = other_word _ _ y in
          let d : (2 * k + 3 - 3) * 8 ≡ 16 * k = omega arith in
          let d' : 2 * k + 3 - 1 ≡ 2 * k + 2 = omega arith in
          let r =
            store-set s.program (s.pc + 1) (operand (pos (16 * k))) (peek-inside s 1 cache e') in
          inr (
            simp (e, e', o, f, m, v, hit.0, l, find_label-finds k t h, d, d', r, t.filled k h) refl)
    ]
