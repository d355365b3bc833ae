-- ===== src/Binlog/Single.antt =====
-- binlog/binlog.go: one record, written and read back.
use tunnelcat_server.Base.{
  nat_eq, ℕ, zero, suc, ◌+◌, ◌-◌, ◌/◌, ◌%◌, ◌^◌, ◌≤◌, ◌<◌, ◌≡◌, refl, ap, ◌∙◌, false, [], ◌∷◌, ◌++◌,
  some, ltb, length, length-append, take, drop, take-append, drop-append, append_assoc, arith,
  beq_refl,
}
use tunnelcat_server.Base.Bytes.{Bytes}
use tunnelcat_server.Binlog.{
  Record, crc16, append_uvarint, uvarint, put_uint16, uint16_at, uint8_at, end_magic, record_body,
  append_record, decode_body, decode_one_record,
}
use tunnelcat_server.Binlog.Uvarint.{uvarint-append_uvarint}

-- What `AppendRecord` is for: the length is a uint64.
pub record IsRecord (r : Record) : Type 0 where
  pub fits : length r.payload < 2 ^ 64

-- The checksum and the end magic, before what follows.
unfoldable trailer : ℕ → Bytes → Bytes
trailer crc rest = (crc / 256) ∷ (crc % 256) ∷ 0x7a ∷ 0x5c ∷ rest

unfoldable pub framed : Record → Bytes → Bytes
unfolding trailer record_body
framed r rest = 0xc5 ∷ 0xa7 ∷ (record_body r ++ trailer (crc16 (record_body r)) rest)

pub append_record-framed :
    (dst : Bytes) (r : Record) (rest : Bytes) → append_record dst r ++ rest ≡ dst ++ framed r rest
unfolding append_record framed trailer
append_record-framed dst r rest =
    let body = record_body r in
    append_assoc dst _ rest
    ∙ ap (λ (t : Bytes). dst ++ (0xc5 ∷ 0xa7 ∷ t))
        (append_assoc body (put_uint16 (crc16 body) ++ put_uint16 end_magic) rest)

drop_past : (k : ℕ) (xs ys : Bytes) → drop (length xs + k) (xs ++ ys) ≡ drop k ys
drop_past k [] ys = ap (λ (n : ℕ). drop n ys) (omega arith)
drop_past k (x ∷ xs) ys =
    let e : length (x ∷ xs) + k ≡ suc (length xs + k) = omega arith in rw e (drop_past k xs ys)

length-append_uvarint : (k v : ℕ) → 1 ≤ length (append_uvarint k v)
unfolding append_uvarint
length-append_uvarint zero v = omega arith
length-append_uvarint (suc k) v = ground arith

pub length-framed :
    (r : Record) (rest : Bytes) → length (framed r rest) ≡ length (record_body r) + 6 + length rest
unfolding framed trailer
length-framed r rest =
    omega (arith, length-append (record_body r) (trailer (crc16 (record_body r)) rest))

length-body :
    (r : Record)
    → length (record_body r) ≡ 1 + length (append_uvarint 9 (length r.payload)) + length r.payload
unfolding record_body
length-body r = omega (arith, length-append (append_uvarint 9 (length r.payload)) r.payload)

payload_part :
    (r : Record) (rest : Bytes)
    → take
        (length r.payload)
        (drop (suc (suc (suc (length (append_uvarint 9 (length r.payload)))))) (framed r rest))
      ≡ r.payload
unfolding framed record_body
payload_part r rest =
    let v = append_uvarint 9 (length r.payload) in
    let tail = trailer (crc16 (record_body r)) rest in
    ap (λ (t : Bytes). take (length r.payload) (drop (length v) t)) (append_assoc v r.payload tail)
    ∙ ap (λ (t : Bytes). take (length r.payload) t) (drop-append v (r.payload ++ tail))
    ∙ take-append r.payload tail

after_body :
    (r : Record) (rest : Bytes)
    → drop (suc (suc (length (record_body r)))) (framed r rest)
      ≡ trailer (crc16 (record_body r)) rest
unfolding framed
after_body r rest = drop-append (record_body r) (trailer (crc16 (record_body r)) rest)

past_body :
    (r : Record) (rest : Bytes)
    → drop (suc (suc (length (record_body r) + 2))) (framed r rest)
      ≡ drop 2 (trailer (crc16 (record_body r)) rest)
unfolding framed
past_body r rest = drop_past 2 (record_body r) (trailer (crc16 (record_body r)) rest)

body_part :
    (r : Record) (rest : Bytes)
    → take (length (record_body r)) (drop 2 (framed r rest)) ≡ record_body r
unfolding framed
body_part r rest = take-append (record_body r) (trailer (crc16 (record_body r)) rest)

tag_part : (r : Record) (rest : Bytes) → uint8_at (drop 2 (framed r rest)) ≡ r.tag
unfolding framed record_body uint8_at
tag_part r rest = refl

crc_part : (crc : ℕ) (rest : Bytes) → uint16_at (trailer crc rest) ≡ crc
unfolding uint16_at trailer
crc_part crc rest = omega arith

end_part : (crc : ℕ) (rest : Bytes) → uint16_at (drop 2 (trailer crc rest)) ≡ end_magic
unfolding uint16_at trailer
end_part crc rest = refl

uvarint_part :
    (r : Record) (rest : Bytes)
    → IsRecord r
    → uvarint (drop 3 (framed r rest))
      ≡ some (length r.payload, length (append_uvarint 9 (length r.payload)))
unfolding framed record_body
uvarint_part r rest h =
    let v = append_uvarint 9 (length r.payload) in
    let tail = trailer (crc16 (record_body r)) rest in
    ap uvarint (append_assoc v r.payload tail)
    ∙ uvarint-append_uvarint (length r.payload) (r.payload ++ tail) h.fits

decode_body-framed :
    (r : Record) (rest : Bytes)
    → decode_body
        (framed r rest)
        (length r.payload)
        (3 + length (append_uvarint 9 (length r.payload)))
      ≡ some (r, length (record_body r) + 6)
unfolding decode_body
decode_body-framed r rest =
    let body = record_body r in
    let n = length r.payload in
    let p = 3 + length (append_uvarint 9 n) in
    let tail = trailer (crc16 body) rest in
    let frame = framed r rest in
    let e₁ : p + n ≡ suc (suc (length body)) = omega (arith, length-body r) in
    let e₂ : p + n + 2 ≡ suc (suc (length body + 2)) = omega (arith, length-body r) in
    let e₃ : p + n - 2 ≡ length body = omega (arith, length-body r) in
    let e₄ : p ≡ suc (suc (suc (length (append_uvarint 9 n)))) = omega arith in
    let at_end : drop (p + n) frame ≡ tail = ap (λ (k : ℕ). drop k frame) e₁ ∙ after_body r rest in
    let past_end : drop (p + n + 2) frame ≡ drop 2 tail =
      ap (λ (k : ℕ). drop k frame) e₂ ∙ past_body r rest in
    let covered : take (p + n - 2) (drop 2 frame) ≡ body =
      ap (λ (k : ℕ). take k (drop 2 frame)) e₃ ∙ body_part r rest in
    let kept : take n (drop p frame) ≡ r.payload =
      ap (λ (k : ℕ). take n (drop k frame)) e₄ ∙ payload_part r rest in
    let size : p + n + 4 ≡ length body + 6 = omega (arith, length-body r) in
    let short : ltb (length frame) n ≡ false =
      ground (arith, length-framed r rest, length-body r) in
    let cut : ltb (length frame) (p + n + 4) ≡ false =
      ground (arith, length-framed r rest, length-body r) in
    rw (short, cut, at_end, past_end, covered, kept, tag_part r rest, size)
      (rw (crc_part (crc16 body) rest, end_part (crc16 body) rest, beq_refl (crc16 body)) refl)

-- What was appended for a record is read back as that record, all its bytes consumed, whatever
-- follows.
pub decode_one_record-framed :
    (r : Record) (rest : Bytes)
    → IsRecord r
    → decode_one_record (framed r rest) ≡ some (r, length (record_body r) + 6)
unfolding decode_one_record
decode_one_record-framed r rest h =
    let frame = framed r rest in
    let n = length r.payload in
    let v = append_uvarint 9 n in
    let long : ltb (length frame) 8 ≡ false =
      ground (arith, length-framed r rest, length-body r, length-append_uvarint 9 n) in
    rw (long, uvarint_part r rest h, decode_one_record) (decode_body-framed r rest)

pub after_frame :
    (r : Record) (rest : Bytes) → drop (length (record_body r) + 6) (framed r rest) ≡ rest
unfolding framed trailer
after_frame r rest =
    let body = record_body r in
    let e : length body + 6 ≡ suc (suc (length body + 4)) = omega arith in
    rw e (drop_past 4 body (trailer (crc16 body) rest))
