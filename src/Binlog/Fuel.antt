-- ===== src/Binlog/Fuel.antt =====
-- binlog/binlog.go: the loop of `DecodeRecords` comes to its end.
use tunnelcat_server.Base.{
  nat_eq, ℕ, zero, suc, ◌+◌, ◌-◌, ◌≤◌, ◌<◌, ◌≡◌, refl, List, [], ◌∷◌, some, ltb, eqb, ◌||◌, length,
  length-drop, take, drop, arith, Bool-cases, Option-cases, inl, inr,
}
use tunnelcat_server.Base.Bytes.{Bytes}
use tunnelcat_server.Binlog.{
  Record, crc16, uvarint, uint16_at, end_magic, decode_body, decode_one_record, find_magic,
  decode_next, decode_from, decode_records,
}

decode_body_consumes :
    (b : Bytes) (n p c : ℕ) (r : Record) → decode_body b n p ≡ some (r, c) → 1 ≤ c
unfolding decode_body
decode_body_consumes b n p c r h =
    elim (Bool-cases (ltb (length b) n || ltb (length b) (p + n + 4))) [
      | inl e ↦ ground arith
      | inr e ↦
          elim (Bool-cases
            (eqb (uint16_at (drop (p + n) b)) (crc16 (take (p + n - 2) (drop 2 b))))) [
              | inl f ↦ elim (Bool-cases (eqb (uint16_at (drop (p + n + 2) b)) end_magic)) [
                | inl g ↦ ground arith
                | inr g ↦ ground arith
              ]
              | inr f ↦ ground arith
            ]
    ]

decode_one_record_consumes :
    (b : Bytes) (c : ℕ) (r : Record) → decode_one_record b ≡ some (r, c) → (1 ≤ c) × (8 ≤ length b)
unfolding decode_one_record
decode_one_record_consumes b c r h = elim (Bool-cases (ltb (length b) 8)) [
  | inl e ↦ ground arith
  | inr e ↦ elim (Option-cases (uvarint (drop 3 b))) [
    | inl f ↦ ground arith
    | inr ((n, m), f) ↦ (decode_body_consumes b n (3 + m) c r (ground arith), ground arith)
  ]
]

find_magic-le : (bytes : Bytes) (off : ℕ) → find_magic bytes ≡ some off → off + 2 ≤ length bytes
unfolding find_magic
find_magic-le [] off h = ground arith
find_magic-le (x ∷ []) off h = ground arith
find_magic-le (x ∷ y ∷ bs) off h = elim (Option-cases (find_magic (y ∷ bs))) [
  | inl e ↦ ground arith
  | inr (o, e) ↦ ground (arith, find_magic-le (y ∷ bs) o e)
]

-- Two continuations that agree on all that is shorter.
decode_next_agrees :
    (f g : Bytes → List Record × ℕ) (bytes : Bytes)
    → 1 ≤ length bytes
    → ((rest : Bytes) → length rest < length bytes → f rest ≡ g rest)
    → decode_next f bytes ≡ decode_next g bytes
unfolding decode_next
decode_next_agrees f g bytes l h = elim (Option-cases (decode_one_record bytes)) [
  | inl e ↦ rw (e, decode_next) (rw (h (drop 1 bytes) (omega (arith, length-drop 1 bytes))) refl)
  | inr ((r, c), e) ↦
      let (pos, _) = decode_one_record_consumes bytes c r e in
      rw (e, decode_next) (rw (h (drop c bytes) (omega (arith, length-drop c bytes))) refl)
]

decode_from_agrees :
    (k m : ℕ) (bytes : Bytes)
    → length bytes < k
    → length bytes < m
    → decode_from k bytes ≡ decode_from m bytes
unfolding decode_from
decode_from_agrees zero m bytes h l = absurd (omega arith)
decode_from_agrees (suc k) zero bytes h l = absurd (omega arith)
decode_from_agrees (suc k) (suc m) bytes h l = elim (Option-cases (find_magic bytes)) [
  | inl e ↦ rw (e, decode_from) refl
  | inr (off, e) ↦
      let le = find_magic-le bytes off e in
      let size = length-drop off bytes in
      rw (e, decode_from)
        (decode_next_agrees (decode_from k) (decode_from m) (drop off bytes) (omega arith)
          (λ rest s. decode_from_agrees k m rest (omega arith) (omega arith)))
]

-- On any bytes, more steps than `decode_records` allows itself change nothing: its loop has come to
-- its end.
pub decode_records_ends :
    (k : ℕ) (bytes : Bytes) → length bytes < k → decode_from k bytes ≡ decode_records bytes
unfolding decode_records
decode_records_ends k bytes h = decode_from_agrees k (suc (length bytes)) bytes h (omega arith)
