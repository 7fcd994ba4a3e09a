-- ===== src/Digest/Md5/Stream.antt =====
-- `caml_MD5Update` on a context that holds a message.

pub mod Update
pub mod Final
use native.Mathlib.Nat.{sub-zero, add-zero}
use trav_lang.Common.{
  ℕ, zero, suc, ◌+◌, ◌-◌, ◌*◌, ◌/◌, ◌%◌, ◌^◌, ◌≤◌, ◌<◌, ◌≡◌, refl, sym, ◌∙◌, ◌⊎◌, inl, inr, List,
  [], ◌∷◌, ◌++◌, append_assoc, append-nil, length, take, drop, blit, length-append, length-take,
  length-drop, take_past, drop_past, take_prefix, drop_prefix, take-append-drop, blit_whole,
  length-blit, take-blit, take_all, drop-drop, fold_blocks, fold_blocks_prefix, fold_blocks-add,
  Bool-cases, ltb, leb, ◌==◌, true, false, ap, take-append, leb→le, leb→lt, ltb→lt, ltb→le, ==→ne,
  ==_iff, arith, if◌then◌else◌,
}
use trav_lang.Common.Words.{shr}
use trav_lang.Digest.Md5.Transform.{Buf, transform, Bytes}
use trav_lang.Digest.Md5.Reference.{initial_buf, absorb}
use trav_lang.Digest.Md5.{Md5Context, md5_init, add_bits, md5_chunks, md5_update}

-- The bytes behind the last whole block.
abbrev pub tail_of : Bytes → Bytes
tail_of m = drop (64 * (length m / 64)) m

-- What the buffers of `r` say of the bytes `m`, taken in from the buffer `h` on.
pub record Absorbed (h : Buf) (m : Bytes) (r : Md5Context) : Type 0 where
  pub whole : length r.inp ≡ 64
  pub folded : r.buf ≡ absorb h m
  pub pending : take (length m % 64) r.inp ≡ tail_of m

-- One block, then the rest.
pub absorb_step :
    (h : Buf) (m : Bytes)
    → 64 ≤ length m
    → (absorb (transform h (take 64 m)) (drop 64 m) ≡ absorb h m)
      × (tail_of (drop 64 m) ≡ tail_of m)
unfolding fold_blocks
absorb_step h m le =
    let e : length m / 64 ≡ suc ((length m - 64) / 64) = omega arith in
    let t : 64 + 64 * ((length m - 64) / 64) ≡ 64 * suc ((length m - 64) / 64) = omega arith in
    (
      rw (length-drop 64 m, e),
      rw (length-drop 64 m, e, drop-drop 64 (64 * ((length m - 64) / 64)) m, t),
    )

-- The bit count is left alone.
abbrev pub SameBits : Md5Context → Md5Context → Type 0
SameBits c r = (r.bits0 ≡ c.bits0) × (r.bits1 ≡ c.bits1)

copy-Absorbed :
    (c : Md5Context) (m : Bytes)
    → length c.inp ≡ 64
    → length m < 64
    → Absorbed c.buf m (record c { inp = blit c.inp 0 m })
unfolding fold_blocks blit
copy-Absorbed c m full less =
    let e : length m / 64 ≡ 0 = omega arith in
    let r : length m % 64 ≡ length m = omega arith in
    record {
      whole = length-blit c.inp m 0 (omega arith) ∙ full;
      folded = rw e;
      pending = rw (e, r) (take-append m _ (length m) refl);
    }

-- The loop over whole blocks, with enough fuel, takes in all the data.
pub md5_chunks-Absorbed :
    (fuel : ℕ) (c : Md5Context) (m : Bytes)
    → length c.inp ≡ 64
    → length m ≤ fuel
    → Absorbed c.buf m (md5_chunks fuel c m) × SameBits c (md5_chunks fuel c m)
unfolding md5_chunks
md5_chunks-Absorbed zero c m full le = (copy-Absorbed c m full (omega arith), (refl, refl))
md5_chunks-Absorbed (suc fuel) c m full le = elim (Bool-cases (leb 64 (length m))) [
  | inl more ↦
      let big : 64 ≤ length m = leb→le 64 (length m) more in
      let block : length (take 64 m) ≡ length c.inp = rw (length-take, full) (omega arith) in
      let inp' = blit c.inp 0 (take 64 m) in
      let same : inp' ≡ take 64 m = blit_whole c.inp (take 64 m) block in
      let c' : Md5Context = record c { buf = transform c.buf inp'; inp = inp' } in
      let (a, bits) =
        md5_chunks-Absorbed fuel c' (drop 64 m)
          (length-blit c.inp (take 64 m) 0 (omega arith) ∙ full)
          (rw (length-drop 64 m) (omega arith)) in
      let (f, t) = absorb_step c.buf m big in
      let r : length (drop 64 m) % 64 ≡ length m % 64 = rw (length-drop 64 m) (omega arith) in
      rw more (
        record {
          whole = a.whole;
          folded = a.folded ∙ ap (λ b. absorb (transform c.buf b) (drop 64 m)) same ∙ f;
          pending = ap (λ n. take n (md5_chunks fuel c' (drop 64 m)).inp) (sym r) ∙ a.pending ∙ t;
        },
        bits,
      )
  | inr done ↦ rw done (copy-Absorbed c m full (leb→lt 64 (length m) done), (refl, refl))
]

-- A message that a context holds: its whole blocks folded in, the rest pending, its length counted.
pub record Holds (c : Md5Context) (m : Bytes) : Type 0 where
  pub absorbed : Absorbed initial_buf m c
  pub counted : c.bits0 + 2 ^ 32 * c.bits1 ≡ (8 * length m) % 2 ^ 64
  pub narrow0 : c.bits0 < 2 ^ 32
  pub narrow1 : c.bits1 < 2 ^ 32

pub add_bits_counted :
    (c : Md5Context) (n k : ℕ)
    → c.bits0 + 2 ^ 32 * c.bits1 ≡ (8 * n) % 2 ^ 64
    → c.bits0 < 2 ^ 32
    → let r = add_bits c k in
      (r.bits0 + 2 ^ 32 * r.bits1 ≡ (8 * (n + k)) % 2 ^ 64)
      × (r.bits0 < 2 ^ 32)
      × (r.bits1 < 2 ^ 32)
unfolding add_bits
add_bits_counted c n k h narrow = ground arith

-- The three ways of `caml_MD5Update`, for a buffer that begins with the bytes `p`.
module _ (c : Md5Context) (p m : Bytes) (full : length c.inp ≡ 64) (less : length p < 64)
    (starts : take (length p) c.inp ≡ p) where
  pub small-Absorbed :
      length m < 64 - length p
      → Absorbed c.buf (p ++ m) (record c { inp = blit c.inp (length p) m })
  unfolding fold_blocks
  small-Absorbed h =
      let n : length (p ++ m) ≡ length p + length m = length-append p m in
      let e : length (p ++ m) / 64 ≡ 0 = omega arith in
      let r : length (p ++ m) % 64 ≡ length p + length m = omega arith in
      record {
        whole = length-blit c.inp m (length p) (omega arith) ∙ full;
        folded = rw e;
        pending = rw (e, r, take-blit c.inp m (length p) (omega arith), starts);
      }

  -- Filling the buffer makes the first block.
  filled_block :
      64 - length p ≤ length m → blit c.inp (length p) (take (64 - length p) m) ≡ take 64 (p ++ m)
  filled_block h =
      let room = 64 - length p in
      let filled = blit c.inp (length p) (take room m) in
      let n : length (take room m) ≡ room = rw (length-take room m) (omega arith) in
      let size : length filled ≡ 64 =
        length-blit c.inp (take room m) (length p) (omega arith) ∙ full in
      let all : 64 ≡ length p + length (take room m) = omega arith in
      sym (take_all 64 filled (omega arith))
      ∙ ap (λ k. take k filled) all
      ∙ take-blit c.inp (take room m) (length p) (omega arith)
      ∙ ap (λ b. b ++ take room m) starts
      ∙ sym (take_past 64 p m (omega arith))

  pub large-Absorbed :
      64 - length p ≤ length m
      → let filled = blit c.inp (length p) (take (64 - length p) m) in
        let c' : Md5Context = record c { buf = transform c.buf filled; inp = filled } in
        let r = md5_chunks (length m) c' (drop (64 - length p) m) in
        Absorbed c.buf (p ++ m) r × SameBits c r
  large-Absorbed h =
      let room = 64 - length p in
      let filled = blit c.inp (length p) (take room m) in
      let c' : Md5Context = record c { buf = transform c.buf filled; inp = filled } in
      let n : length (p ++ m) ≡ length p + length m = length-append p m in
      let ln : length (take room m) ≡ room = rw (length-take room m) (omega arith) in
      let size : length filled ≡ 64 =
        length-blit c.inp (take room m) (length p) (omega arith) ∙ full in
      let rest : drop room m ≡ drop 64 (p ++ m) = sym (drop_past 64 p m (omega arith)) in
      let (a, bits) =
        md5_chunks-Absorbed (length m) c' (drop room m) size
          (rw (length-drop room m) (omega arith)) in
      let (f, t) = absorb_step c.buf (p ++ m) (omega arith) in
      let r = md5_chunks (length m) c' (drop room m) in
      let k : length (drop room m) % 64 ≡ length (p ++ m) % 64 =
        rw (length-drop room m) (omega arith) in
      (
        record {
          whole = a.whole;
          folded =
              a.folded
              ∙ ap (λ b. absorb (transform c.buf b) (drop room m)) (filled_block h)
              ∙ ap (λ b. absorb (transform c.buf (take 64 (p ++ m))) b) rest
              ∙ f;
          pending = ap (λ i. take i r.inp) (sym k) ∙ a.pending ∙ ap tail_of rest ∙ t;
        },
        bits,
      )
