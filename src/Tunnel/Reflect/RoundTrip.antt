-- ===== src/Tunnel/Reflect/RoundTrip.antt =====
-- snc/core/nat.go and snc-control/udp_reflector.go: the client learns its address.
use tunnelcat_server.Base.{
  nat_eq, ℕ, ◌+◌, ◌%◌, ◌≤◌, ◌<◌, ◌≡◌, ◌⊎◌, refl, ap, ◌∙◌, Bool, true, false, ◌++◌, Option, some,
  String, ltb, length, take, drop, length-append, take_all, arith, inl, inr, subst,
}
use tunnelcat_server.Base.Bytes.{Bytes}
use tunnelcat_server.Base.BigEndian.{
  uint, put_uint, length-put_uint, uint-put_uint, take-field, drop-field,
}
use tunnelcat_server.Base.Aead.{Aead, IsAead}
use tunnelcat_server.Control.Reflector.{Buckets}
use tunnelcat_server.Tunnel.Frames.{seal_frame}
use tunnelcat_server.Tunnel.Frames.Download.{length-seal_frame}
use tunnelcat_server.Tunnel.Datagrams.{NetIp, UdpAddr, family_of}
use tunnelcat_server.Tunnel.Datagrams.Relay.{IsNet, seen_addr, family-size}
use tunnelcat_server.Tunnel.Reflect.{
  is_in_window, is_fresh_plain, passes, reply_plain, parse_reply_ip, parse_reply_plain, then_reply,
  replied, build_request, is_valid_request, reply, serve, parse_endpoint,
}

-- Two clocks that are at most half a minute apart.
abbrev pub AreClose : ℕ → ℕ → Type 0
AreClose now ts = (now ≤ ts + 30_000) × (ts ≤ now + 30_000)

is_in_window-AreClose :
    (now ts : ℕ)
    → AreClose now ts
    → ts < 18_446_744_073_709_551_616
    → now < 18_446_744_073_709_551_616
    → is_in_window now ts ≡ true
unfolding is_in_window
is_in_window-AreClose now ts (late, early) real real_now = ground arith

take_time : (ms : ℕ) → uint (take 8 (put_uint 8 ms)) ≡ uint (put_uint 8 ms)
take_time ms = ap uint (
    subst (λ k. take k (put_uint 8 ms) ≡ put_uint 8 ms) (length-put_uint 8 ms)
      (take_all (put_uint 8 ms)))

decrypt_sealed :
    (aead : Aead) (nonce plain : Bytes)
    → IsAead aead
    → length nonce ≡ 12
    → let pkt = seal_frame aead nonce plain in aead.decrypt (take 12 pkt) (drop 12 pkt) ≡ some plain
unfolding seal_frame
decrypt_sealed aead nonce plain cipher fresh =
    let ct = aead.encrypt nonce plain in
    rw (take-field 12 nonce ct fresh, drop-field 12 nonce ct fresh) (cipher.opens nonce plain)

is_valid_request-build_request :
    (aead : Aead) (nonce : Bytes) (now ms : ℕ)
    → IsAead aead
    → length nonce ≡ 12
    → AreClose now ms
    → ms < 18_446_744_073_709_551_616
    → now < 18_446_744_073_709_551_616
    → is_valid_request aead now (build_request aead nonce ms) ≡ true
unfolding is_valid_request build_request is_fresh_plain
is_valid_request-build_request aead nonce now ms cipher fresh close real real_now =
    let plain = put_uint 8 ms in
    let size = length-seal_frame aead nonce plain cipher fresh in
    let long : ltb (length (seal_frame aead nonce plain)) (12 + 8 + aead.overhead) ≡ false =
      ground (arith, size, length-put_uint 8 ms) in
    let text : is_fresh_plain now plain ≡ true =
      ap (is_in_window now) (take_time ms ∙ uint-put_uint 8 ms real)
      ∙ is_in_window-AreClose now ms close real real_now in
    rw long (ap (passes (is_fresh_plain now)) (decrypt_sealed aead nonce plain cipher fresh) ∙ text)

parse_reply_ip-fields :
    (n : ℕ) (ip p : Bytes)
    → length ip ≡ n
    → length p ≡ 2
    → parse_reply_ip n (ip ++ p) ≡ some (record { ip = ip; port = uint p })
unfolding parse_reply_ip
parse_reply_ip-fields n ip p size two =
    let long : ltb (length (ip ++ p)) (n + 2) ≡ false = ground (arith, length-append ip p) in
    let whole : take 2 p ≡ p = subst (λ k. take k p ≡ p) two (take_all p) in
    rw (long, take-field n ip p size, drop-field n ip p size, whole) refl

parse_reply_plain-fields :
    (n family : ℕ) (f rest : Bytes)
    → length f ≡ 2
    → uint f ≡ family
    → 2 ≤ length rest
    → ((family ≡ 4) × (n ≡ 4)) ⊎ ((family ≡ 6) × (n ≡ 16))
    → parse_reply_plain (f ++ rest) ≡ parse_reply_ip n rest
unfolding parse_reply_plain
parse_reply_plain-fields n family f rest two value room kind =
    let long : ltb (length (f ++ rest)) 4 ≡ false = ground (arith, length-append f rest) in
    rw (long, take-field 2 f rest two, drop-field 2 f rest two, value)
      (elim kind [
        | inl (four, size4) ↦ rw (four, size4) refl
        | inr (six, size16) ↦ rw (six, size16) refl
      ])

-- The sizes of the fields of a reply, and what a client reads of it.
parse_reply_plain-reply_plain :
    (net : NetIp) (src : UdpAddr)
    → IsNet net
    → (length src.ip ≡ 4) ⊎ (length src.ip ≡ 16)
    → src.port < 65_536
    → (8 ≤ length (reply_plain net src))
      × (parse_reply_plain (reply_plain net src) ≡ some (seen_addr net src))
unfolding reply_plain
parse_reply_plain-reply_plain net src law valid real =
    let (family, ip) = family_of net src.ip in
    let (n, ip_size, kind) = family-size net src.ip law valid in
    let port = put_uint 2 src.port in
    let wrapped : src.port % 65_536 ≡ src.port = omega arith in
    let small : family < 65_536 = elim kind [
      | inl (f, e) ↦ omega arith
      | inr (f, e) ↦ omega arith
    ] in
    let four : 4 ≤ n = elim kind [ inl (f, e) ↦ omega arith | inr (f, e) ↦ omega arith ] in
    let size : length (ip ++ port) ≡ n + 2 =
      omega (arith, length-append ip port, length-put_uint 2 src.port) in
    let whole = length-append (put_uint 2 family) (ip ++ port) in
    let seen : ℕ → Option UdpAddr = λ k. some (record { ip = ip; port = k }) in
    rw wrapped (
      omega (arith, whole, length-put_uint 2 family),
      parse_reply_plain-fields n family (put_uint 2 family) (ip ++ port) (length-put_uint 2 family)
            (uint-put_uint 2 family small) (omega arith) kind
          ∙ parse_reply_ip-fields n ip port ip_size (length-put_uint 2 src.port)
          ∙ ap seen (uint-put_uint 2 src.port real),
    )

parse_endpoint-seal_frame :
    (aead : Aead) (nonce plain : Bytes)
    → IsAead aead
    → length nonce ≡ 12
    → 8 ≤ length plain
    → parse_endpoint aead (seal_frame aead nonce plain) ≡ parse_reply_plain plain
unfolding parse_endpoint
parse_endpoint-seal_frame aead nonce plain cipher fresh room =
    let long : ltb (length (seal_frame aead nonce plain)) (12 + 2 + 4 + 2 + aead.overhead) ≡ false =
      ground (arith, length-seal_frame aead nonce plain cipher fresh) in
    rw long (ap then_reply (decrypt_sealed aead nonce plain cipher fresh))

-- A request that is neither QUIC's nor the dht's.
abbrev pub IsOther : Option (Bytes → Bool) → Option (Bytes → Bool) → Bytes → Type 0
IsOther classify dht_opens pkt =
    (passes (λ (is_quic : Bytes → Bool). is_quic pkt) classify ≡ false)
    × (passes (λ (is_dht : Bytes → Bool). is_dht pkt) dht_opens ≡ false)

-- A client's request, that the control takes neither for QUIC nor for the dht's and whose clock is at
-- most 30 seconds away from the control's, is answered, without a change to the rate limits, and the
-- client reads from the answer the address that its request came from, in the bytes of its family, if that
-- address has 4 or 16 bytes and its port is a port, the nonces have 12 bytes, and the cipher opens what
-- it has sealed, and package net converts addresses to the sizes of their families.
pub parse_endpoint-serve :
    (aead : Aead) (net : NetIp) (classify dht_opens : Option (Bytes → Bool))
    → (now_ns now_ms ms : ℕ) (src : UdpAddr) (ip : String) (asked fresh : Bytes) (m : Buckets)
    → IsAead aead
    → IsNet net
    → length asked ≡ 12
    → length fresh ≡ 12
    → IsOther classify dht_opens (build_request aead asked ms)
    → AreClose now_ms ms
    → ms < 18_446_744_073_709_551_616
    → now_ms < 18_446_744_073_709_551_616
    → (length src.ip ≡ 4) ⊎ (length src.ip ≡ 16)
    → src.port < 65_536
    → (answer : Bytes) × (serve aead net classify dht_opens now_ns now_ms src ip fresh
          (build_request aead asked ms)
          m
        ≡ (m, replied answer))
      × (parse_endpoint aead answer ≡ some (seen_addr net src))
unfolding serve reply
parse_endpoint-serve aead net classify dht_opens now_ns now_ms ms src ip asked fresh m cipher law
      new_asked new_fresh (not_quic, not_dht) close real real_now valid port =
    let answered =
      is_valid_request-build_request aead asked now_ms ms cipher new_asked close real real_now in
    let (room, read) = parse_reply_plain-reply_plain net src law valid port in
    (
      reply aead net src fresh,
      rw (not_quic, not_dht, answered) refl,
      parse_endpoint-seal_frame aead fresh (reply_plain net src) cipher new_fresh room ∙ read,
    )
