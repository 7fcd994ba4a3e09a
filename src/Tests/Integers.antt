-- ===== src/Tests/Integers.antt =====
-- Integer literals and operations at concrete inputs.
use trav_lang.Common.{ℕ, ◌-◌, ◌^◌, ◌≡◌, refl, [], ◌∷◌, List, some, none, arith}
use trav_lang.Integers.Literals.{
  parse_intnat, parse_sign_and_base, parse_base, parse_digits, parse_digit, parse_loop, digit_in,
  check_range,
}
use trav_lang.Integers.Words.{
  int32_div, int32_mod, int64_div, int64_mod, nativeint_div, nativeint_mod,
}
use trav_lang.Integers.Laws.{Divided, div_mod-Divided}

abbrev hex : List ℕ
hex = b'0' ∷ b'x' ∷ b'f' ∷ b'_' ∷ b'f' ∷ []

hex_value : parse_intnat 63 hex ≡ some 255
unfolding parse_intnat parse_sign_and_base parse_base parse_digits parse_digit parse_loop digit_in
    check_range
hex_value = refl

bad_value : parse_intnat 63 (b'0' ∷ b'x' ∷ b'_' ∷ []) ≡ none
unfolding parse_intnat parse_sign_and_base parse_base parse_digits parse_digit parse_loop digit_in
    check_range
bad_value = refl

-- 128 does not fit 8 bits, -128 does.
small_ranges :
    (parse_intnat 8 (b'1' ∷ b'2' ∷ b'8' ∷ []) ≡ none)
    × (parse_intnat 8 (b'-' ∷ b'1' ∷ b'2' ∷ b'8' ∷ []) ≡ some (2 ^ 64 - 128))
unfolding parse_intnat parse_sign_and_base parse_base parse_digits parse_digit parse_loop digit_in
    check_range
small_ranges = (refl, refl)

div_mod-Divided_example :
    Divided 32 7 (2 ^ 32 - 2) (int32_div 7 (2 ^ 32 - 2)) (int32_mod 7 (2 ^ 32 - 2))
    × Divided 64
        (2 ^ 63)
        (2 ^ 64 - 1)
        (int64_div (2 ^ 63) (2 ^ 64 - 1))
        (int64_mod (2 ^ 63) (2 ^ 64 - 1))
    × Divided 64
        (2 ^ 63)
        (2 ^ 64 - 1)
        (nativeint_div (2 ^ 63) (2 ^ 64 - 1))
        (nativeint_mod (2 ^ 63) (2 ^ 64 - 1))
div_mod-Divided_example =
    div_mod-Divided 7 (2 ^ 32 - 2) (2 ^ 63) (2 ^ 64 - 1) (omega arith) (omega arith) (omega arith)
      (omega arith)
