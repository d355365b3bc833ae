-- ===== src/Binlog.antt =====
-- binlog/binlog.go: the framing of log records. Bytes are numbers below 256; `append_uvarint` and
-- `uvarint` are what encoding/binary does. `bodyEnd < pos` is not tested: a length above that of the
-- buffer is refused first, and below it the sum cannot wrap.
pub mod Uvarint
pub mod Single
pub mod Stream
pub mod Fuel
pub mod Tests
use Prim.Native.Nat.{bit_xor}
use tunnelcat_server.Base.{
  nat_eq, ℕ, zero, suc, ◌+◌, ◌-◌, ◌*◌, ◌/◌, ◌%◌, Bool, true, false, not, List, [], ◌∷◌, ◌++◌,
  Option, none, some, leb, ltb, eqb, ◌&&◌, ◌||◌, if◌then◌else◌, length, take, drop,
}
use tunnelcat_server.Base.Bytes.{Bytes}

pub record Record : Type 0 where
  pub tag : ℕ
  pub payload : Bytes

-- One of the eight steps on an entry of the table.
abbrev table_step : ℕ → ℕ
table_step crc =
    if eqb (crc / 32_768 % 2) 1 then bit_xor (crc * 2 % 65_536) 0x1021 else crc * 2 % 65_536

unfoldable pub table_entry : ℕ → ℕ → ℕ
table_entry zero crc = crc
table_entry (suc n) crc = table_entry n (table_step crc)

unfoldable pub crc16_table : ℕ → ℕ
unfolding table_entry
crc16_table i = table_entry 8 (i * 256)

unfoldable pub crc16_from : ℕ → Bytes → ℕ
unfolding crc16_table
crc16_from crc [] = crc
crc16_from crc (b ∷ bs) =
    crc16_from (bit_xor (crc * 256 % 65_536) (crc16_table (bit_xor (crc / 256 % 256) b))) bs

unfoldable pub crc16 : Bytes → ℕ
unfolding crc16_from
crc16 = crc16_from 0xffff

-- `binary.PutUvarint`, with the number of bytes after the first as fuel: nine for a uint64.
unfoldable pub append_uvarint : ℕ → ℕ → Bytes
append_uvarint zero v = v ∷ []
append_uvarint (suc k) v =
    let rest = append_uvarint k (v / 128) in if ltb v 128 then v ∷ [] else (v % 128 + 128) ∷ rest

-- `binary.Uvarint` from byte `i` on, with the value and the place value so far: the value and the
-- number of bytes read, or `none` where that is not positive.
unfoldable pub uvarint_from : ℕ → ℕ → ℕ → Bytes → Option (ℕ × ℕ)
uvarint_from i x scale [] = none
uvarint_from i x scale (b ∷ bs) =
    let rest = uvarint_from (suc i) (x + b % 128 * scale) (scale * 128) bs in
    if eqb i 10
    then none
    else if ltb b 128
    then (if eqb i 9 && ltb 1 b then none else some (x + b * scale, suc i))
    else rest

unfoldable pub uvarint : Bytes → Option (ℕ × ℕ)
unfolding uvarint_from
uvarint = uvarint_from 0 0 1

-- A uint16 in two bytes, the high one first.
abbrev pub put_uint16 : ℕ → Bytes
put_uint16 n = (n / 256) ∷ (n % 256) ∷ []

unfoldable pub uint16_at : Bytes → ℕ
uint16_at (h ∷ l ∷ _) = h * 256 + l
uint16_at _ = 0

unfoldable pub uint8_at : Bytes → ℕ
uint8_at (b ∷ _) = b
uint8_at [] = 0

abbrev pub start_magic : ℕ
start_magic = 0xc5a7

abbrev pub end_magic : ℕ
end_magic = 0x7a5c

unfoldable pub record_body : Record → Bytes
unfolding append_uvarint
record_body r = r.tag ∷ (append_uvarint 9 (length r.payload) ++ r.payload)

unfoldable pub append_record : Bytes → Record → Bytes
unfolding record_body
append_record dst r =
    let body = record_body r in
    dst ++ (put_uint16 start_magic ++ (body ++ (put_uint16 (crc16 body) ++ put_uint16 end_magic)))

-- The checks after the length, with the length and the position of the payload.
unfoldable pub decode_body : Bytes → ℕ → ℕ → Option (Record × ℕ)
unfolding uint16_at uint8_at
decode_body b payload_len p =
    let body_end = p + payload_len in
    if ltb (length b) payload_len || ltb (length b) (body_end + 4)
    then none
    else if not (eqb (uint16_at (drop body_end b)) (crc16 (take (body_end - 2) (drop 2 b))))
    then none
    else if not (eqb (uint16_at (drop (body_end + 2) b)) end_magic)
    then none
    else some
        (record { tag = uint8_at (drop 2 b); payload = take payload_len (drop p b) }, body_end + 4)

-- The record, and the number of bytes consumed.
unfoldable pub decode_one_record : Bytes → Option (Record × ℕ)
unfolding uvarint decode_body
decode_one_record b = if ltb (length b) 8 then none else elim (uvarint (drop 3 b)) [
  | none ↦ none
  | some (payload_len, n) ↦ decode_body b payload_len (3 + n)
]

-- The offset of the first start magic.
unfoldable pub find_magic : Bytes → Option ℕ
find_magic [] = none
find_magic (h ∷ []) = none
find_magic (h ∷ l ∷ bs) =
    if eqb h 0xc5 && eqb l 0xa7
    then some 0
    else elim (find_magic (l ∷ bs)) [ none ↦ none | some off ↦ some (suc off) ]

-- The loop's body at a start magic; `more` is the loop from there on.
unfoldable pub decode_next : (Bytes → List Record × ℕ) → Bytes → List Record × ℕ
unfolding decode_one_record
decode_next more bytes = elim (decode_one_record bytes) [
  | none ↦ let rest = more (drop 1 bytes) in (rest.0, suc rest.1)
  | some (r, consumed) ↦ let rest = more (drop consumed bytes) in (r ∷ rest.0, rest.1)
]

-- The loop over what is left of the bytes, on fuel: the records, and the count of corrupt ones.
unfoldable pub decode_from : ℕ → Bytes → List Record × ℕ
unfolding find_magic decode_next
decode_from zero bytes = ([], 0)
decode_from (suc fuel) bytes = elim (find_magic bytes) [
  | none ↦ ([], 0)
  | some off ↦ decode_next (decode_from fuel) (drop off bytes)
]

unfoldable pub decode_records : Bytes → List Record × ℕ
unfolding decode_from
decode_records bytes = decode_from (suc (length bytes)) bytes

-- The text of a payload: without its marker, or nothing if it is marked as structured.
unfoldable pub payload_text : Bytes → Bytes
payload_text [] = []
payload_text (f ∷ bs) = if eqb f 0 then bs else if eqb f 1 then [] else f ∷ bs

unfoldable pub texts : List Record → Bytes
texts [] = []
texts (r ∷ rs) = payload_text r.payload ++ texts rs

unfoldable pub decode : Bytes → Bytes × ℕ
unfolding decode_records
decode bytes = let d = decode_records bytes in (texts d.0, d.1)
