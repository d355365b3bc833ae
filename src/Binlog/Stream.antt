-- ===== src/Binlog/Stream.antt =====
-- binlog/binlog.go: `DecodeRecords` on a buffer.
use tunnelcat_server.Base.{
  nat_eq, ℕ, zero, suc, ◌≤◌, ◌<◌, ◌≡◌, refl, sym, ap, ◌∙◌, Bool, false, List, [], ◌∷◌, ◌++◌, none,
  some, eqb, ◌&&◌, length, length-append, drop, drop-append, append-nil, All, arith, Bool-cases,
  Option-cases, inl, inr,
}
use tunnelcat_server.Base.Bytes.{Bytes}
use tunnelcat_server.Binlog.{
  Record, append_record, find_magic, decode_next, decode_from, decode_records,
}
use tunnelcat_server.Binlog.Single.{
  IsRecord, framed, append_record-framed, decode_one_record-framed, length-framed, after_frame,
}

-- A writer: the records appended one after the other.
unfoldable pub append_all : Bytes → List Record → Bytes
unfolding append_record
append_all dst [] = dst
append_all dst (r ∷ rs) = append_all (append_record dst r) rs

unfoldable frames : List Record → Bytes
unfolding framed
frames [] = []
frames (r ∷ rs) = framed r (frames rs)

append_all-frames : (dst : Bytes) (rs : List Record) → append_all dst rs ≡ dst ++ frames rs
unfolding append_all frames
append_all-frames dst [] = sym (append-nil dst)
append_all-frames dst (r ∷ rs) =
    append_all-frames (append_record dst r) rs ∙ append_record-framed dst r (frames rs)

length-frames : (rs : List Record) → length rs ≤ length (frames rs)
unfolding frames
length-frames [] = omega arith
length-frames (r ∷ rs) = omega (arith, length-framed r (frames rs), length-frames rs)

abbrev is_start : ℕ → ℕ → Bool
is_start h l = eqb h 0xc5 && eqb l 0xa7

find_magic-none :
    (h l : ℕ) (bs : Bytes)
    → find_magic (h ∷ l ∷ bs) ≡ none
    → (is_start h l ≡ false) × (find_magic (l ∷ bs) ≡ none)
unfolding find_magic
find_magic-none h l bs e = elim (Bool-cases (is_start h l)) [
  | inl p ↦ ground arith
  | inr p ↦ elim (Option-cases (find_magic (l ∷ bs))) [
    | inl q ↦ (p, q)
    | inr (off, q) ↦ ground arith
  ]
]

-- Bytes in front of a start magic that hold none, its own first byte counted.
find_magic-append :
    (junk rest : Bytes)
    → find_magic (junk ++ 0xc5 ∷ []) ≡ none
    → find_magic (junk ++ 0xc5 ∷ 0xa7 ∷ rest) ≡ some (length junk)
unfolding find_magic
find_magic-append [] rest h = refl
find_magic-append (x ∷ []) rest h = ground arith
find_magic-append (x ∷ y ∷ junk) rest h =
    let (p, q) = find_magic-none x y (junk ++ 0xc5 ∷ []) h in
    rw (p, find_magic-append (y ∷ junk) rest q) refl

find_magic-shorter : (junk : Bytes) → find_magic (junk ++ 0xc5 ∷ []) ≡ none → find_magic junk ≡ none
unfolding find_magic
find_magic-shorter [] h = refl
find_magic-shorter (x ∷ []) h = refl
find_magic-shorter (x ∷ y ∷ junk) h =
    let (p, q) = find_magic-none x y (junk ++ 0xc5 ∷ []) h in
    rw (p, find_magic-shorter (y ∷ junk) q) refl

decode_from-next :
    (k : ℕ) (r : Record) (rest : Bytes)
    → IsRecord r
    → let more = decode_from k rest in decode_from (suc k) (framed r rest) ≡ (r ∷ more.0, more.1)
unfolding decode_from framed decode_next
decode_from-next k r rest h =
    rw (decode_one_record-framed r rest h, decode_next) (rw (after_frame r rest) refl)

decode_from-frames :
    (k : ℕ) (rs : List Record)
    → All IsRecord rs
    → length rs < k
    → decode_from k (frames rs) ≡ (rs, 0)
unfolding decode_from frames
decode_from-frames zero rs h l = absurd (omega arith)
decode_from-frames (suc k) [] h l = refl
decode_from-frames (suc k) (r ∷ rs) h l =
    rw (decode_from-next k r (frames rs) h.0) (rw (decode_from-frames k rs h.1 (omega arith)) refl)

decode_from-junk :
    (k : ℕ) (junk : Bytes) (rs : List Record)
    → find_magic (junk ++ 0xc5 ∷ []) ≡ none
    → decode_from (suc k) (junk ++ frames rs) ≡ decode_from (suc k) (frames rs)
unfolding decode_from frames framed
decode_from-junk k junk [] h = rw (append-nil junk, find_magic-shorter junk h, decode_from) refl
decode_from-junk k junk (r ∷ rs) h =
    let found : find_magic (junk ++ framed r (frames rs)) ≡ some (length junk) =
      find_magic-append junk (drop 2 (framed r (frames rs))) h in
    rw (found, decode_from)
      (ap (decode_next (decode_from k)) (drop-append junk (framed r (frames rs))))

-- The buffer that a writer of records fills, with payloads shorter than 2^64 bytes, is read back as
-- those records with none counted corrupt, also behind bytes that hold no start magic and do not end
-- in the first byte of one: what is left of an overwritten record.
pub decode_records-append_all :
    (junk : Bytes) (rs : List Record)
    → find_magic (junk ++ 0xc5 ∷ []) ≡ none
    → All IsRecord rs
    → decode_records (append_all junk rs) ≡ (rs, 0)
unfolding decode_records
decode_records-append_all junk rs h valid =
    let size = length-append junk (frames rs) in
    rw (append_all-frames junk rs) (
      decode_from-junk (length (junk ++ frames rs)) junk rs h
      ∙ decode_from-frames (suc (length (junk ++ frames rs))) rs valid
          (omega (arith, size, length-frames rs)))
