-- ===== src/Tests/Marshalling.antt =====
-- The codes of marshalled data at concrete values.
use trav_lang.Common.{
  ◌≡◌, ◌<◌, ◌+◌, ◌-◌, refl, true, false, [], ◌∷◌, ◌++◌, replicate, none, some, arith, ◌^◌,
}
use trav_lang.Common.Int.{pos, negsuc}
use trav_lang.Marshal.Output.{extern_int, extern_header, extern_string, storevlq, fits}
use trav_lang.Marshal.Input.{readvlq, long, block, string}
use trav_lang.Marshal.Numbers.{readvlq-storevlq}
use trav_lang.Marshal.Codes.{Marshalled, extern_int-Marshalled}
use trav_lang.Marshal.Blocks.{extern_header-Marshalled}
use trav_lang.Marshal.Texts.{extern_string-Marshalled}

small_int_is_a_byte : extern_int false (pos 5) ≡ some (0x45 ∷ [])
unfolding extern_int
small_int_is_a_byte = refl

minus_one : extern_int true (negsuc 0) ≡ some (0 ∷ 0xff ∷ [])
unfolding extern_int
minus_one = refl

wide_int :
    extern_int false (negsuc (2 ^ 40))
    ≡ some (3 ∷ 0xff ∷ 0xff ∷ 0xfe ∷ 0xff ∷ 0xff ∷ 0xff ∷ 0xff ∷ 0xff ∷ [])
unfolding extern_int
wide_int = refl

wide_int_on_32_bits : extern_int true (negsuc (2 ^ 40)) ≡ none
unfolding extern_int
wide_int_on_32_bits = refl

three_hundred : storevlq 300 ≡ 0x82 ∷ 0x2c ∷ []
unfolding storevlq
three_hundred = refl

too_long_number : readvlq (replicate 10 0xff ++ 0 ∷ []) ≡ some ((true, 2 ^ 64 - 0x80), [])
unfolding readvlq
too_long_number = refl

pair_header : extern_header false 2 0 ≡ some (0xa0 ∷ [])
unfolding extern_header
pair_header = refl

extern_int-Marshalled_example :
    Marshalled true
      (fits 30 (negsuc 999) ≡ false)
      (long (negsuc 999))
      (extern_int true (negsuc 999))
extern_int-Marshalled_example = extern_int-Marshalled true (negsuc 999) refl

extern_header-Marshalled_example :
    Marshalled false (0x3fffff < 1000) (block 1000 246) (extern_header false 1000 246)
extern_header-Marshalled_example =
    extern_header-Marshalled false 1000 246 (omega arith) (omega arith)

extern_string-Marshalled_example :
    Marshalled false
      (0xfffffb < 40)
      (string (replicate 40 b'a'))
      (extern_string false (replicate 40 b'a'))
extern_string-Marshalled_example = extern_string-Marshalled false (replicate 40 b'a') (omega arith)

readvlq-storevlq_example :
    readvlq (storevlq (2 ^ 63 + 5) ++ 1 ∷ []) ≡ some ((false, 2 ^ 63 + 5), 1 ∷ [])
readvlq-storevlq_example = readvlq-storevlq (2 ^ 63 + 5) (1 ∷ []) (omega arith)
