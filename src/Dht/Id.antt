-- ===== src/Dht/Id.antt =====
-- dht/dht.go: node identifiers. An identifier is a list of 32 bytes.
pub mod Metric
pub mod Hex
use Prim.Native.Nat.{bit_xor}
use tunnelcat_server.Base.{
  nat_eq, list_eq, ℕ, zero, suc, ◌+◌, ◌-◌, ◌*◌, ◌/◌, ◌%◌, ◌≡◌, Bool, true, false, List, [], ◌∷◌,
  ◌++◌, Option, none, some, leb, ltb, eqb, ◌&&◌, if◌then◌else◌, length,
}
use tunnelcat_server.Base.Bytes.{Bytes, AreBytes}

abbrev pub id_bytes : ℕ
id_bytes = 32

abbrev pub id_bits : ℕ
id_bits = 256

abbrev pub NodeId : Type 0
NodeId = Bytes

pub record IsId (id : NodeId) : Type 0 where
  pub size : length id ≡ id_bytes
  pub bytes : AreBytes id

unfoldable pub xor : NodeId → NodeId → NodeId
xor (a ∷ as') (b ∷ bs) = bit_xor a b ∷ xor as' bs
xor _ _ = []

-- `bits.LeadingZeros8`
unfoldable pub leading_zeros8 : ℕ → ℕ
leading_zeros8 b =
    if leb 128 b
    then 0
    else if leb 64 b
    then 1
    else if leb 32 b
    then 2
    else if leb 16 b
    then 3
    else if leb 8 b
    then 4
    else if leb 4 b
    then 5
    else if leb 2 b
    then 6
    else if leb 1 b
    then 7
    else 8

-- The loop from byte `i` on.
unfoldable pub bucket_index_from : ℕ → NodeId → ℕ
bucket_index_from i [] = id_bits - 1
bucket_index_from i (b ∷ bs) =
    let rest = bucket_index_from (suc i) bs in if eqb b 0 then rest else i * 8 + leading_zeros8 b

unfoldable pub bucket_index : NodeId → ℕ
unfolding bucket_index_from
bucket_index = bucket_index_from 0

-- The comparison of two distances, byte by byte.
unfoldable pub less : NodeId → NodeId → Bool
less (x ∷ xs) (y ∷ ys) = if eqb x y then less xs ys else ltb x y
less _ _ = false

-- Whether `a` is nearer to `target` than `b`.
unfoldable pub closer : NodeId → NodeId → NodeId → Bool
unfolding less xor
closer a b target = less (xor a target) (xor b target)

-- The digits of `hex.EncodeToString`.
abbrev pub hex_digit : ℕ → ℕ
hex_digit n = if ltb n 10 then n + b'0' else n + 87

unfoldable pub encode_hex : Bytes → Bytes
encode_hex [] = []
encode_hex (b ∷ bs) = hex_digit (b / 16) ∷ hex_digit (b % 16) ∷ encode_hex bs

abbrev pub hex_value : ℕ → Option ℕ
hex_value c =
    if leb b'0' c && leb c b'9'
    then some (c - b'0')
    else if leb b'a' c && leb c b'f'
    then some (c - 87)
    else if leb b'A' c && leb c b'F'
    then some (c - 55)
    else none

abbrev pub hex_pair : Option ℕ → Option ℕ → Option Bytes → Option Bytes
hex_pair (some h) (some l) (some rest) = some ((h * 16 + l) ∷ rest)
hex_pair _ _ _ = none

-- `hex.DecodeString`; an odd length or a bad digit is an error.
unfoldable pub decode_hex : Bytes → Option Bytes
decode_hex [] = some []
decode_hex (c ∷ []) = none
decode_hex (c ∷ d ∷ cs) = hex_pair (hex_value c) (hex_value d) (decode_hex cs)

-- `none` is the error.
unfoldable pub parse_id : Bytes → Option NodeId
unfolding decode_hex
parse_id s = elim (decode_hex s) [
  | none ↦ none
  | some b ↦ if eqb (length b) id_bytes then some b else none
]
