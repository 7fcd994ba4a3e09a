-- ===== src/Interpreter/Methods.antt =====
-- runtime/interp.c: method look-up, by binary search in the table of an object's methods, with a cache of one
-- place in the code. The table is a block with twice the number of methods and one, the mask of the caches,
-- and then each method with its label, the labels in order.
use Prim.Native.Nat.{bit_and}
use trav_lang.Common.{
  ℕ, zero, suc, ◌+◌, ◌-◌, ◌*◌, ◌/◌, ◌%◌, ◌^◌, List, Option, none, some, ◌>>=◌, get_elem?, ltb, ◌==◌,
  store, if◌then◌else◌,
}
use trav_lang.Common.Int.{ℤ, pos, negsuc}
use trav_lang.Interpreter.Opcodes.{ObjectOp, getmethod, getpubmet, getdynmet}
use trav_lang.Interpreter.Arithmetic.{signed_lt, same_value}
use trav_lang.Interpreter.Blocks.{as_index}
use trav_lang.Interpreter.{Value, word, Block, State, operand, val_long, field, peek, pushed}

abbrev pub as_word : Value → Option ℕ
as_word (word w) = some w
as_word _ = none

-- `Field(meths, i)`, where it has to be a word.
unfoldable pub label : List Block → Value → ℕ → Option ℕ
unfolding field
label heap meths i = field heap meths i >>= as_word

-- `((li+hi) >> 1) | 1`.
abbrev pub middle : ℕ → ℕ → ℕ
middle li hi = (li + hi) / 2 / 2 * 2 + 1

-- `if (tag < Field(meths,mi)) hi = mi-2; else li = mi;`
unfoldable pub side : ℕ → Option ℕ → Option (Option ℕ) → Option (Option ℕ) → Option (Option ℕ)
unfolding signed_lt
side tag none lower upper = some none
side tag (some w) lower upper = if signed_lt tag w then lower else upper

-- The loop, on fuel for each place of the table: none of none is that it runs out.
unfoldable pub search_loop : ℕ → List Block → Value → ℕ → ℕ → ℕ → Option (Option ℕ)
unfolding label side
search_loop zero heap meths tag li hi = none
search_loop (suc fuel) heap meths tag li hi =
    let mi = middle li hi in
    let lower = search_loop fuel heap meths tag li (mi - 2) in
    let upper = search_loop fuel heap meths tag mi hi in
    if ltb li hi then side tag (label heap meths mi) lower upper else some (some li)

abbrev pub search_to : List Block → Value → ℕ → Option ℕ → Option (Option ℕ)
search_to heap meths tag none = some none
search_to heap meths tag (some hi) = search_loop (hi + 1) heap meths tag 3 hi

-- The place of the label: `li` after the loop.
unfoldable pub find_label : List Block → Value → ℕ → Option (Option ℕ)
unfolding label search_loop
find_label heap meths tag = search_to heap meths tag (label heap meths 0)

abbrev pub flatten_place : Option (Option ℕ) → Option ℕ
flatten_place none = none
flatten_place (some p) = p

unfoldable pub method_at : List Block → Value → ℕ → Option Value
unfolding find_label field
method_at heap meths tag = do
  li ← flatten_place (find_label heap meths tag)
  field heap meths (li - 1)

unfoldable pub get_method : State → Option State
unfolding field as_index
get_method s = do
  obj ← get_elem? s.sp 0
  meths ← field s.heap obj 0
  i ← as_index s.accu
  v ← field s.heap meths i
  some (record s { accu = v })

unfoldable pub get_dynamic : State → Option State
unfolding field method_at
get_dynamic s = do
  obj ← get_elem? s.sp 0
  meths ← field s.heap obj 0
  tag ← as_word s.accu
  v ← method_at s.heap meths tag
  some (record s { accu = v })

-- `*(value*)(((char*)&Field(meths, i)) + ofs)`, at a whole number of words.
unfoldable pub at_offset : List Block → Value → ℕ → ℕ → Option Value
unfolding field
at_offset heap meths i ofs = if ofs % 8 == 0 then field heap meths (i + ofs / 8) else none

abbrev pub bits : ℤ → ℕ
bits (pos n) = n
bits (negsuc n) = 2 ^ 64 - 1 - n

-- GETPUBMET: the label and the cache are in the code. The cache keeps the offset of the label found last.
unfoldable pub get_public : State → Option State
unfolding field at_offset find_label val_long peek label
get_public s = do
  z ← peek s 0
  cache ← peek s 1
  meths ← field s.heap s.accu 0
  mask ← label s.heap meths 1
  let tag : ℕ = val_long z
  let ofs : ℕ = bit_and (bits cache) mask
  let s' : State = record (pushed s) { pc = s.pc + 2 }
  hit ← at_offset s.heap meths 3 ofs
  if same_value hit (word tag)
      then (do v ← at_offset s.heap meths 2 ofs; some (record s' { accu = v }))
      else (do
        li ← flatten_place (find_label s.heap meths tag)
        program ← store s.program (s.pc + 1) (operand (pos ((li - 3) * 8)))
        v ← field s.heap meths (li - 1)
        some (record s' { accu = v; program = program }))

unfoldable pub exec_object : ObjectOp → State → Option State
unfolding get_method get_dynamic get_public
exec_object getmethod s = get_method s
exec_object getpubmet s = get_public s
exec_object getdynmet s = get_dynamic s
