-- ===== src/Dht/Id/Hex.antt =====
-- The text form of an identifier.
use tunnelcat_server.Base.{ℕ, ◌/◌, ◌%◌, ◌<◌, ◌≡◌, refl, [], ◌∷◌, some, arith}
use tunnelcat_server.Base.Bytes.{Bytes, AreBytes}
use tunnelcat_server.Dht.Id.{NodeId, IsId, hex_digit, encode_hex, hex_value, decode_hex, parse_id}

hex_value-hex_digit : (n : ℕ) → n < 16 → hex_value (hex_digit n) ≡ some n
hex_value-hex_digit n h = ground arith

pub decode_hex-encode_hex : (bs : Bytes) → AreBytes bs → decode_hex (encode_hex bs) ≡ some bs
unfolding decode_hex encode_hex
decode_hex-encode_hex [] h = refl
decode_hex-encode_hex (b ∷ bs) h =
    rw
      (
        hex_value-hex_digit (b / 16) (omega arith),
        hex_value-hex_digit (b % 16) (omega arith),
        decode_hex-encode_hex bs h.1,
      )
      (ground arith)

-- An identifier is read back from its text.
pub parse_id-encode_hex : (id : NodeId) → IsId id → parse_id (encode_hex id) ≡ some id
unfolding parse_id
parse_id-encode_hex id h = ground (arith, decode_hex-encode_hex id h.bytes, h.size)
