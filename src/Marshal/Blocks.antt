-- ===== src/Marshal/Blocks.antt =====
-- runtime/extern.c and runtime/intern.c: references, headers and strings are read back.
use trav_lang.Common.{
  ℕ, ◌+◌, ◌*◌, ◌/◌, ◌%◌, ◌^◌, ◌<◌, ◌≡◌, refl, ◌∙◌, ap, Bool, true, ◌&&◌, leb, ltb, if◌then◌else◌,
  none, some, arith, Bool-cases, inl, inr, ltb→lt,
}
use trav_lang.Marshal.Output.{
  writebyte, writecode32, writecode64, make_header, extern_shared_reference, extern_header,
}
use trav_lang.Marshal.Input.{shared, block, read_item, header_block}
use trav_lang.Marshal.Codes.{ReadsBack, Marshalled, coded16, coded32, coded64}

-- extern_shared_reference writes an offset so that it is read back, whatever follows.
pub shared_reference-ReadsBack :
    (d : ℕ) → d < 2 ^ 64 → ReadsBack (shared d) (extern_shared_reference d)
unfolding extern_shared_reference read_item
shared_reference-ReadsBack d h src = elim (Bool-cases (ltb d 0x100)) [
  | inl t ↦ let e : d % 256 ≡ d = ground arith in simp (t, e) refl
  | inr t ↦ elim (Bool-cases (ltb d 0x10000)) [
    | inl t' ↦ let c = coded16 shared d d src (ground arith) in simp (t, t') c
    | inr t' ↦ elim (Bool-cases (leb (2 ^ 32) d)) [
      | inl u ↦ let c = coded64 shared d d src (ground arith) in simp (t, t', u) c
      | inr u ↦ let c = coded32 shared d d src (ground arith) in simp (t, t', u) c
    ]
  ]
]

header_size : (sz tag : ℕ) → sz < 2 ^ 54 → tag < 2 ^ 8 → make_header sz tag / 2 ^ 10 ≡ sz
header_size sz tag h k = omega arith

header_tag : (sz tag : ℕ) → sz < 2 ^ 54 → tag < 2 ^ 8 → make_header sz tag % 2 ^ 8 ≡ tag
header_tag sz tag h k = omega arith

headed : (sz tag : ℕ) → sz < 2 ^ 54 → tag < 2 ^ 8 → header_block (make_header sz tag) ≡ block sz tag
headed sz tag h k = rw (header_size sz tag h k, header_tag sz tag h k) refl

small_block :
    (sz tag : ℕ)
    → tag < 16
    → sz < 8
    → ReadsBack (block sz tag) (writebyte (0x80 + tag + sz * 2 ^ 4))
unfolding read_item
small_block sz tag h k src =
    let e : (0x80 + tag + sz * 2 ^ 4) % 256 ≡ 0x80 + tag + sz * 2 ^ 4 = omega arith in
    let t : leb 0x40 (0x80 + tag + sz * 2 ^ 4) ≡ true = ground arith in
    let t' : leb 0x80 (0x80 + tag + sz * 2 ^ 4) ≡ true = ground arith in
    let a : (0x80 + tag + sz * 2 ^ 4) / 2 ^ 4 % 8 ≡ sz = omega arith in
    let b : (0x80 + tag + sz * 2 ^ 4) % 16 ≡ tag = omega arith in simp (e, t, t', a, b) refl

block32 :
    (sz tag : ℕ)
    → sz < 2 ^ 54
    → tag < 2 ^ 8
    → make_header sz tag < 2 ^ 32
    → ReadsBack (block sz tag) (writecode32 8 (make_header sz tag))
unfolding read_item
block32 sz tag h k l src =
    coded32 header_block (make_header sz tag) (make_header sz tag) src (omega arith)
    ∙ ap (λ b. some (b, src)) (headed sz tag h k)

block64 :
    (sz tag : ℕ)
    → sz < 2 ^ 54
    → tag < 2 ^ 8
    → ReadsBack (block sz tag) (writecode64 0x13 (make_header sz tag))
unfolding read_item
block64 sz tag h k src =
    coded64 header_block (make_header sz tag) (make_header sz tag) src (omega arith)
    ∙ ap (λ b. some (b, src)) (headed sz tag h k)

large_block :
    (compat32 : Bool) (sz tag : ℕ)
    → sz < 2 ^ 54
    → tag < 2 ^ 8
    → Marshalled compat32 (0x3fffff < sz) (block sz tag) (
        if ltb 0x3fffff sz && compat32
        then none
        else if ltb (make_header sz tag) (2 ^ 32)
        then some (writecode32 8 (make_header sz tag))
        else some (writecode64 0x13 (make_header sz tag)))
large_block compat32 sz tag h k = elim (Bool-cases (ltb 0x3fffff sz && compat32)) [
  | inl t ↦ simp t (ground arith, ground arith)
  | inr t ↦ elim (Bool-cases (ltb (make_header sz tag) (2 ^ 32))) [
    | inl u ↦ let b = block32 sz tag h k (ltb→lt (make_header sz tag) (2 ^ 32) u) in simp (t, u) b
    | inr u ↦ let b = block64 sz tag h k in simp (t, u) b
  ]
]

-- extern_header writes the size and the tag of a block so that they are read back, whatever follows; it fails
-- only for COMPAT_32 and a block of more than 0x3fffff fields.
pub extern_header-Marshalled :
    (compat32 : Bool) (sz tag : ℕ)
    → sz < 2 ^ 54
    → tag < 2 ^ 8
    → Marshalled compat32 (0x3fffff < sz) (block sz tag) (extern_header compat32 sz tag)
unfolding extern_header
extern_header-Marshalled compat32 sz tag h k = elim (Bool-cases (ltb tag 16 && ltb sz 8)) [
  | inl t ↦ let b = small_block sz tag (ground arith) (ground arith) in simp t b
  | inr t ↦ let b = large_block compat32 sz tag h k in simp t b
]
