-- ===== src/Binlog/Tests.antt =====
-- Runs of the record framing, and its theorems at concrete inputs.
use tunnelcat_server.Base.{nat_eq, ◌≡◌, refl, [], ◌∷◌, arith}
use tunnelcat_server.Binlog.{
  Record, crc16, crc16_from, crc16_table, table_entry, find_magic, decode_from, decode_records,
}
use tunnelcat_server.Binlog.Stream.{append_all, decode_records-append_all}
use tunnelcat_server.Binlog.Fuel.{decode_records_ends}

-- The check value of CRC-16/CCITT-FALSE: the digits 1 to 9.
check_value : crc16 (b'1' ∷ b'2' ∷ b'3' ∷ b'4' ∷ b'5' ∷ b'6' ∷ b'7' ∷ b'8' ∷ b'9' ∷ []) ≡ 0x29b1
unfolding crc16 crc16_from crc16_table table_entry
check_value = refl

abbrev hello : Record
hello = record { tag = 4; payload = 0xc5 ∷ 0xa7 ∷ 3 ∷ [] }

abbrev empty : Record
empty = record { tag = 0; payload = [] }

decode_records-append_all_example :
    decode_records (append_all (0x5c ∷ 0xc5 ∷ 9 ∷ []) (hello ∷ empty ∷ []))
    ≡ (hello ∷ empty ∷ [], 0)
unfolding find_magic
decode_records-append_all_example =
    decode_records-append_all (0x5c ∷ 0xc5 ∷ 9 ∷ []) (hello ∷ empty ∷ []) refl
      (record { fits = omega arith }, (record { fits = omega arith }, tt))

decode_records_ends_example :
    decode_from 70 (0xc5 ∷ 0xa7 ∷ 1 ∷ []) ≡ decode_records (0xc5 ∷ 0xa7 ∷ 1 ∷ [])
decode_records_ends_example = decode_records_ends 70 (0xc5 ∷ 0xa7 ∷ 1 ∷ []) (omega arith)
