-- ===== src/Tests/Digests.antt =====
-- MD5 and BLAKE2 at concrete inputs.
use mathlib.Core.List.{flatten}
use trav_lang.Common.{◌≡◌, arith, refl, [], ◌∷◌, replicate, blit, fold_blocks}
use trav_lang.Digest.Md5.Transform.{Bytes, transform}
use trav_lang.Digest.Md5.Reference.{md5_reference}
use trav_lang.Digest.Md5.Rounds.{rfc_transform, rfc_rounds}
use trav_lang.Digest.Md5.Session.{updates, md5_stream-reference}
use trav_lang.Digest.Blake2
use trav_lang.Digest.Blake2.Compress.{compress}
use trav_lang.Digest.Blake2.Rfc7693.{blake2_reference}
use trav_lang.Digest.Blake2.Session.{blake2_stream-reference}
use trav_lang.Digest.Blake2.{blake2_init, blake2_chunks, blake2_final, blake2_string, extract}
use trav_lang.Digest.Md5.{md5_init, md5_chunks, md5_final, md5_block}

abbrev garbage : Bytes
garbage = replicate 64 7

abbrev abc : Bytes
abc = b'a' ∷ b'b' ∷ b'c' ∷ []

abbrev digest_abc : Bytes
digest_abc =
    0x90 ∷ 0x01 ∷ 0x50 ∷ 0x98 ∷ 0x3c ∷ 0xd2 ∷ 0x4f ∷ 0xb0 ∷ 0xd6 ∷ 0x96 ∷ 0x3f ∷ 0x7d ∷ 0x28 ∷ 0xe1
    ∷ 0x7f ∷ 0x72 ∷ []

-- The test vector of RFC 1321.
md5_block-abc : md5_block garbage abc ≡ digest_abc
unfolding md5_block md5_chunks transform blit
md5_block-abc = refl

md5_reference-abc : md5_reference abc ≡ digest_abc
unfolding md5_reference fold_blocks rfc_transform rfc_rounds
md5_reference-abc = refl

md5_stream-reference_example :
    (md5_final (updates (md5_init garbage) (abc ∷ replicate 70 1 ∷ abc ∷ []))).0
    ≡ md5_reference (flatten (abc ∷ replicate 70 1 ∷ abc ∷ []))
md5_stream-reference_example = md5_stream-reference garbage (abc ∷ replicate 70 1 ∷ abc ∷ []) refl

abbrev blake2_garbage : Blake2.Compress.Bytes
blake2_garbage = replicate 128 7

-- The first bytes of the digests of "abc" to eight bytes, with no key and with the key "kk".
blake2_string-abc :
    blake2_string blake2_garbage 8 [] abc
    ≡ 0xd8 ∷ 0xbb ∷ 0x14 ∷ 0xd8 ∷ 0x33 ∷ 0xd5 ∷ 0x95 ∷ 0x59 ∷ []
unfolding blake2_string blake2_chunks compress extract blit
blake2_string-abc = refl

blake2_string-keyed :
    blake2_string blake2_garbage 8 (b'k' ∷ b'k' ∷ []) abc
    ≡ 0xa0 ∷ 0x61 ∷ 0xf8 ∷ 0xff ∷ 0xbc ∷ 0xf6 ∷ 0xcb ∷ 0x77 ∷ []
unfolding blake2_string blake2_chunks compress extract blit
blake2_string-keyed = refl

blake2_reference-abc :
    blake2_reference 8 (b'k' ∷ b'k' ∷ []) abc
    ≡ 0xa0 ∷ 0x61 ∷ 0xf8 ∷ 0xff ∷ 0xbc ∷ 0xf6 ∷ 0xcb ∷ 0x77 ∷ []
unfolding blake2_reference
blake2_reference-abc = refl

blake2_stream-reference_example :
    blake2_final
      (Blake2.Session.updates
        (blake2_init blake2_garbage 8 (b'k' ∷ []))
        (abc ∷ replicate 300 1 ∷ abc ∷ []))
      8
    ≡ blake2_reference 8 (b'k' ∷ []) (flatten (abc ∷ replicate 300 1 ∷ abc ∷ []))
blake2_stream-reference_example =
    blake2_stream-reference blake2_garbage 8 (b'k' ∷ []) (abc ∷ replicate 300 1 ∷ abc ∷ []) refl
      (omega arith) (omega arith)
