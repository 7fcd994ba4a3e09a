-- ===== src/Strings/Names.antt =====
-- runtime/str.c: the primitives that only call others, or repeat their text.
use trav_lang.Common.{ℕ, Bool, Option}
use trav_lang.Common.Int.{ℤ}
use trav_lang.Strings.{
  Block, blit_bytes, bytes_set, create_bytes, fill_bytes, string_compare, string_equal, string_get,
  string_get16, string_get32, string_get64, string_greaterequal, string_greaterthan, string_length,
  string_lessequal, string_lessthan, string_notequal,
}

abbrev pub ml_string_length : Block → ℕ
ml_string_length s = string_length s

abbrev pub ml_bytes_length : Block → ℕ
ml_bytes_length s = string_length s

abbrev pub create_string : (ℕ → Block) → ℤ → Option Block
create_string memory len = create_bytes memory len

abbrev pub bytes_get : Block → ℤ → Option ℕ
bytes_get str index = string_get str index

abbrev pub bytes_get16 : Block → ℤ → Option ℕ
bytes_get16 str index = string_get16 str index

abbrev pub bytes_get32 : Block → ℤ → Option ℕ
bytes_get32 str index = string_get32 str index

abbrev pub bytes_get64 : Block → ℤ → Option ℕ
bytes_get64 str index = string_get64 str index

abbrev pub string_set : Block → ℤ → ℕ → Option Block
string_set str index newval = bytes_set str index newval

abbrev pub bytes_equal : Bool → Block → Block → Bool
bytes_equal same s1 s2 = string_equal same s1 s2

abbrev pub bytes_notequal : Bool → Block → Block → Bool
bytes_notequal same s1 s2 = string_notequal same s1 s2

abbrev pub bytes_compare : Bool → Block → Block → ℤ
bytes_compare same s1 s2 = string_compare same s1 s2

abbrev pub bytes_lessthan : Bool → Block → Block → Bool
bytes_lessthan same s1 s2 = string_lessthan same s1 s2

abbrev pub bytes_lessequal : Bool → Block → Block → Bool
bytes_lessequal same s1 s2 = string_lessequal same s1 s2

abbrev pub bytes_greaterthan : Bool → Block → Block → Bool
bytes_greaterthan same s1 s2 = string_greaterthan same s1 s2

abbrev pub bytes_greaterequal : Bool → Block → Block → Bool
bytes_greaterequal same s1 s2 = string_greaterequal same s1 s2

abbrev pub blit_string : Block → ℕ → Block → ℕ → ℕ → Block
blit_string s1 ofs1 s2 ofs2 n = blit_bytes s1 ofs1 s2 ofs2 n

abbrev pub fill_string : Block → ℕ → ℕ → ℕ → Block
fill_string s offset len init = fill_bytes s offset len init
