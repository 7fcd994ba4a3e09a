-- ===== src/Digest/Md5/Session.antt =====
-- Whole digests: an initial context, any number of calls of `caml_MD5Update`, and `caml_MD5Final`.
use mathlib.Core.List.{flatten}
use trav_lang.Common.{
  ◌≡◌, ◌∙◌, refl, List, [], ◌∷◌, ◌++◌, append-nil, append_assoc, length, fold_blocks, arith,
}
use trav_lang.Digest.Md5.Transform.{Bytes}
use trav_lang.Digest.Md5.Reference.{md5_reference, md5_streamed-reference}
use trav_lang.Digest.Md5.Stream.{Holds}
use trav_lang.Digest.Md5.Stream.Update.{update-Holds}
use trav_lang.Digest.Md5.Stream.Final.{final-streamed}
use trav_lang.Digest.Md5.{Md5Context, md5_init, md5_update, md5_final}

-- One call after another.
unfoldable pub updates : Md5Context → List Bytes → Md5Context
updates c [] = c
updates c (d ∷ ds) = updates (md5_update c d) ds

-- The state that `caml_MD5Init` makes holds the empty message.
init-Holds : (garbage : Bytes) → length garbage ≡ 64 → Holds (md5_init garbage) []
unfolding md5_init fold_blocks
init-Holds garbage full = record {
  absorbed = record { whole = full; folded = refl; pending = refl };
  counted = refl;
  narrow0 = omega arith;
  narrow1 = omega arith;
}

updates-Holds :
    (c : Md5Context) (m : Bytes) (ds : List Bytes)
    → Holds c m
    → Holds (updates c ds) (m ++ flatten ds)
unfolding updates flatten
updates-Holds c m [] h = rw (append-nil m) h
updates-Holds c m (d ∷ ds) h =
    rw (← append_assoc m d (flatten ds))
      (updates-Holds (md5_update c d) (m ++ d) ds (update-Holds c m d h))

-- The digest of a stream depends on the bytes alone, not on how they are cut into calls of
-- `caml_MD5Update` nor on what the buffer held before: it is the MD5 of RFC 1321, with the block function
-- of its section 3.4, of all the bytes in order, if the buffer has its 64 bytes.
pub md5_stream-reference :
    (garbage : Bytes) (ds : List Bytes)
    → length garbage ≡ 64
    → (md5_final (updates (md5_init garbage) ds)).0 ≡ md5_reference (flatten ds)
md5_stream-reference garbage ds full =
    final-streamed _ (flatten ds) (updates-Holds (md5_init garbage) [] ds (init-Holds garbage full))
    ∙ md5_streamed-reference (flatten ds)
