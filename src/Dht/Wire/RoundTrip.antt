-- ===== src/Dht/Wire/RoundTrip.antt =====
-- dht/dht_wire.go: what one node seals, the other opens.
use tunnelcat_server.Base.{
  nat_eq, ℕ, ◌+◌, ◌≤◌, ◌≡◌, refl, subst, false, ◌++◌, some, ltb, length, length-append, length-take,
  take, drop, take-append, drop-append, arith,
}
use tunnelcat_server.Base.Bytes.{Bytes}
use tunnelcat_server.Base.Aead.{Aead, IsAead}
use tunnelcat_server.Dht.Wire.{
  nonce_size, effective_ttl, pad_length, plaintext, open_plain, seal, open_packet,
}

length-padding : (k : ℕ) (random : Bytes) → k ≤ length random → length (take k random) ≡ k
length-padding k random h = omega (arith, length-take k random)

drop-padding :
    (k : ℕ) (random body : Bytes) → k ≤ length random → drop k (take k random ++ body) ≡ body
drop-padding k random body h =
    subst (λ (n : ℕ). drop n (take k random ++ body) ≡ body) (length-padding k random h)
      (drop-append (take k random) body)

length-plaintext :
    (msg_type ttl pad_byte : ℕ) (body random : Bytes)
    → 3 ≤ length (plaintext msg_type ttl body pad_byte random)
unfolding plaintext
length-plaintext msg_type ttl pad_byte body random = omega arith

open_plain-plaintext :
    (msg_type ttl pad_byte : ℕ) (body random : Bytes)
    → pad_length pad_byte ≤ length random
    → open_plain (plaintext msg_type ttl body pad_byte random)
      ≡ some (msg_type, effective_ttl ttl, body)
unfolding open_plain plaintext
open_plain-plaintext msg_type ttl pad_byte body random h =
    let k = pad_length pad_byte in
    let whole : ltb (3 + length (take k random ++ body)) (3 + k) ≡ false =
      ground (arith, length-append (take k random) body, length-padding k random h) in
    rw (whole, drop-padding k random body h) refl

-- With a cipher that opens what it seals and grows it by its overhead, a nonce of 12 bytes, and
-- whatever padding is drawn: an opened datagram has the type and the payload that were sealed, and
-- their hops, or 8 of them where the sender gave none.
pub open_packet-seal :
    (aead : Aead) (msg_type ttl pad_byte : ℕ) (body random nonce : Bytes)
    → IsAead aead
    → length nonce ≡ nonce_size
    → pad_length pad_byte ≤ length random
    → open_packet aead (seal aead msg_type ttl body pad_byte random nonce)
      ≡ some (msg_type, effective_ttl ttl, body)
unfolding open_packet seal
open_packet-seal aead msg_type ttl pad_byte body random nonce a n h =
    let plain = plaintext msg_type ttl body pad_byte random in
    let cipher = aead.encrypt nonce plain in
    let front : take nonce_size (nonce ++ cipher) ≡ nonce =
      subst (λ (k : ℕ). take k (nonce ++ cipher) ≡ nonce) n (take-append nonce cipher) in
    let back : drop nonce_size (nonce ++ cipher) ≡ cipher =
      subst (λ (k : ℕ). drop k (nonce ++ cipher) ≡ cipher) n (drop-append nonce cipher) in
    let long : ltb (length (nonce ++ cipher)) (nonce_size + 3 + aead.overhead) ≡ false = ground (
      arith,
      length-append nonce cipher,
      a.grows nonce plain,
      length-plaintext msg_type ttl pad_byte body random,
    ) in
    rw (long, front, back, a.opens nonce plain, open_packet)
      (open_plain-plaintext msg_type ttl pad_byte body random h)
