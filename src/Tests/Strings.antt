-- ===== src/Tests/Strings.antt =====
-- Strings at concrete contents.
use trav_lang.Common.{
  ◌≡◌, refl, ◌↔◌, List, ℕ, [], ◌∷◌, replicate, ◌*◌, length-replicate, length, true, false, IfSome,
  none, some, blit, arith,
}
use trav_lang.Common.Int.{pos, negsuc}
use trav_lang.Strings.Layout.{image}
use trav_lang.Strings.Access.{read, string_get-read}
use trav_lang.Strings.Update.{stored, write, bytes_set-write, bytes_set-get}
use trav_lang.Strings.Equality.{string_equal_iff}
use trav_lang.Strings.Order.{Compared, string_compare-Compared}
use trav_lang.Strings.{
  alloc_initialized_string, string_get, string_get16, string_get32, string_get64, bytes_set,
  bytes_set16, bytes_set32, bytes_set64, string_equal, string_compare, memcmp, string_length,
  alloc_string, Block,
}

abbrev hello : List ℕ
hello = b'h' ∷ b'e' ∷ b'l' ∷ b'l' ∷ b'o' ∷ []

abbrev help : List ℕ
help = b'h' ∷ b'e' ∷ b'l' ∷ b'p' ∷ []

abbrev dirty : ℕ → Block
dirty n = replicate (8 * n) 0xff

hello_block :
    alloc_initialized_string dirty hello ≡ b'h' ∷ b'e' ∷ b'l' ∷ b'l' ∷ b'o' ∷ 0 ∷ 0 ∷ 2 ∷ []
unfolding alloc_initialized_string alloc_string blit
hello_block = refl

hello_length : string_length (image hello) ≡ 5
unfolding string_length
hello_length = refl

hello_get16 : string_get16 (image hello) (pos 1) ≡ some 0x6c65
unfolding string_get16 string_length
hello_get16 = refl

hello_get32_out : string_get32 (image hello) (pos 2) ≡ none
unfolding string_get32 string_length
hello_get32_out = refl

hello-help : string_compare false (image hello) (image help) ≡ negsuc 0
unfolding string_compare memcmp string_length
hello-help = refl

dirty-length : (n : ℕ) → length (dirty n) ≡ 8 * n
dirty-length n = length-replicate (8 * n) 0xff

string_get-read_example :
    (string_get (image hello) (pos 1) ≡ read 1 hello (pos 1))
    × (string_get16 (image hello) (pos 1) ≡ read 2 hello (pos 1))
    × (string_get32 (image hello) (pos 1) ≡ read 4 hello (pos 1))
    × (string_get64 (image hello) (pos 1) ≡ read 8 hello (pos 1))
string_get-read_example = string_get-read hello (pos 1)

bytes_set-write_example :
    (bytes_set (image hello) (pos 1) 0x12345 ≡ stored (write 1 hello (pos 1) 0x12345))
    × (bytes_set16 (image hello) (pos 1) 0x12345 ≡ stored (write 2 hello (pos 1) 0x12345))
    × (bytes_set32 (image hello) (pos 1) 0x12345 ≡ stored (write 4 hello (pos 1) 0x12345))
    × (bytes_set64 (image hello) (pos 1) 0x12345 ≡ stored (write 8 hello (pos 1) 0x12345))
bytes_set-write_example = bytes_set-write hello (pos 1) 0x12345

bytes_set-get_example :
    IfSome (λ s. string_get s (pos 1) ≡ some 0x45) (bytes_set (image hello) (pos 1) 0x12345)
    × IfSome (λ s. string_get16 s (pos 1) ≡ some 0x2345) (bytes_set16 (image hello) (pos 1) 0x12345)
    × IfSome
        (λ s. string_get32 s (pos 1) ≡ some 0x12345)
        (bytes_set32 (image hello) (pos 1) 0x12345)
    × IfSome
        (λ s. string_get64 s (pos 1) ≡ some 0x12345)
        (bytes_set64 (image hello) (pos 1) 0x12345)
bytes_set-get_example = bytes_set-get hello (pos 1) 0x12345

string_equal_iff_example : (string_equal false (image hello) (image help) ≡ true) ↔ (hello ≡ help)
string_equal_iff_example =
    string_equal_iff false hello help
      (omega arith, (omega arith, (omega arith, (omega arith, (omega arith, tt)))))
      (omega arith, (omega arith, (omega arith, (omega arith, tt)))) (λ e. absurd (cc e))

string_compare-Compared_example :
    Compared hello help (string_compare false (image hello) (image help))
string_compare-Compared_example = string_compare-Compared false hello help (λ e. absurd (cc e))
