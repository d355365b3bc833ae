-- ===== src/Dht/Wire.antt =====
-- dht/dht_wire.go: `Seal` and `Open`. The cipher is a parameter, what `rand.Read` gives is an
-- argument, and the payload is the bytes that `json.Marshal` made; that either of these fails is
-- not modelled. A plaintext of less than three bytes, on which Go would panic, gives `none`; the
-- length test keeps it out.
pub mod RoundTrip
pub mod Tests
use tunnelcat_server.Base.{
  nat_eq, ℕ, zero, suc, ◌+◌, ◌%◌, Bool, List, [], ◌∷◌, ◌++◌, Option, none, some, ltb, eqb,
  if◌then◌else◌, length, take, drop,
}
use tunnelcat_server.Base.Bytes.{Bytes}
use tunnelcat_server.Base.Aead.{Aead}

abbrev pub nonce_size : ℕ
nonce_size = 12

abbrev pub max_ttl : ℕ
max_ttl = 8

-- A message: its type, its remaining hops, and its payload.
abbrev pub Opened : Type 0
Opened = ℕ × ℕ × Bytes

abbrev pub effective_ttl : ℕ → ℕ
effective_ttl ttl = if eqb ttl 0 then max_ttl else ttl

abbrev pub pad_length : ℕ → ℕ
pad_length pad_byte = pad_byte % 16

-- `random` is the supply that the padding is taken from.
unfoldable pub plaintext : ℕ → ℕ → Bytes → ℕ → Bytes → Bytes
plaintext msg_type ttl body pad_byte random =
    msg_type ∷ effective_ttl ttl ∷ pad_length pad_byte ∷ (take (pad_length pad_byte) random ++ body)

unfoldable pub open_plain : Bytes → Option Opened
open_plain (msg_type ∷ ttl ∷ pad_len ∷ rest) =
    if ltb (3 + length rest) (3 + pad_len) then none else some (msg_type, ttl, drop pad_len rest)
open_plain _ = none

module _ (aead : Aead) where
  unfoldable pub seal : ℕ → ℕ → Bytes → ℕ → Bytes → Bytes → Bytes
  unfolding plaintext
  seal msg_type ttl body pad_byte random nonce =
      nonce ++ aead.encrypt nonce (plaintext msg_type ttl body pad_byte random)

  unfoldable pub open_packet : Bytes → Option Opened
  unfolding open_plain
  open_packet pkt =
      if ltb (length pkt) (nonce_size + 3 + aead.overhead)
      then none
      else elim (aead.decrypt (take nonce_size pkt) (drop nonce_size pkt)) [
        | none ↦ none
        | some plain ↦ open_plain plain
      ]
