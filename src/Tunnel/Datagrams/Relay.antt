-- ===== src/Tunnel/Datagrams/Relay.antt =====
-- snc/core/udp_assoc.go and snc-exit/handler.go: the frame of one datagram.
use tunnelcat_server.Base.{
  nat_eq, ℕ, ◌%◌, ◌<◌, ◌≡◌, ◌⊎◌, refl, ap, ◌∙◌, false, ◌∷◌, ◌++◌, Option, none, some, ltb, length,
  length-append, take_all, arith, ◌≤◌, inl, inr,
}
use tunnelcat_server.Base.Bytes.{Bytes, AreBytes}
use tunnelcat_server.Base.BigEndian.{
  uint, put_uint, length-put_uint, uint-put_uint, take-field, drop-field,
}
use tunnelcat_server.Dht.Id.{encode_hex}
use tunnelcat_server.Dht.Id.Hex.{decode_hex-encode_hex}
use tunnelcat_server.Tunnel.Datagrams.{
  NetIp, UdpAddr, pick_family, family_of, relay_plain, build_udp_relay_plain, parse_relay_tail,
  parse_relay_ip, parse_udp_relay_frame,
}

-- What package net says of the two conversions of an address of 4 or 16 bytes.
pub record IsNet (net : NetIp) : Type 0 where
  pub size4 : (ip b : Bytes) → net.to4 ip ≡ some b → length b ≡ 4
  pub size16 : (ip : Bytes) → (length ip ≡ 4) ⊎ (length ip ≡ 16) → length (net.to16 ip) ≡ 16

-- The tail of a frame by its fields.
parse_relay_tail-cut :
    (conn_id ip p q body : Bytes)
    → length p ≡ 2
    → length q ≡ 4
    → uint q ≡ length body
    → parse_relay_tail conn_id ip (p ++ (q ++ body))
      ≡ some (conn_id, record { ip = ip; port = uint p }, body)
unfolding parse_relay_tail
parse_relay_tail-cut conn_id ip p q body two four size =
    let long : ltb (length (p ++ (q ++ body))) 6 ≡ false =
      ground (arith, length-append p (q ++ body), length-append q body) in
    let whole : ltb (length body) (length body) ≡ false = ground arith in
    rw
      (
        long,
        drop-field 2 p (q ++ body) two,
        take-field 4 q body four,
        drop-field 4 q body four,
        size,
        whole,
        take-field 2 p (q ++ body) two,
        take_all body,
      )
      refl

parse_relay_tail-fields :
    (conn_id ip body : Bytes) (port : ℕ)
    → port < 65_536
    → length body < 4_294_967_296
    → parse_relay_tail conn_id ip (put_uint 2 port ++ (put_uint 4 (length body) ++ body))
      ≡ some (conn_id, record { ip = ip; port = port }, body)
parse_relay_tail-fields conn_id ip body port real fits =
    let frame : ℕ → Option (Bytes × UdpAddr × Bytes) =
      λ k. some (conn_id, record { ip = ip; port = k }, body) in
    parse_relay_tail-cut conn_id ip (put_uint 2 port) (put_uint 4 (length body)) body
      (length-put_uint 2 port) (length-put_uint 4 (length body))
      (uint-put_uint 4 (length body) fits)
    ∙ ap frame (uint-put_uint 2 port real)

parse_relay_ip-fields :
    (n : ℕ) (conn_id ip rest : Bytes)
    → length ip ≡ n
    → parse_relay_ip n conn_id (ip ++ rest) ≡ parse_relay_tail conn_id ip rest
unfolding parse_relay_ip
parse_relay_ip-fields n conn_id ip rest size =
    let long : ltb (length (ip ++ rest)) n ≡ false = ground (arith, length-append ip rest) in
    rw (long, take-field n ip rest size, drop-field n ip rest size) refl

-- The frame behind the id and the family.
abbrev frame_tail : UdpAddr → Bytes → Bytes → Bytes
frame_tail dst ip body = ip ++ (put_uint 2 dst.port ++ (put_uint 4 (length body) ++ body))

parse_udp_relay_frame-fields :
    (raw rest : Bytes) (family n : ℕ)
    → length raw ≡ 16
    → 10 ≤ length rest
    → ((family ≡ 4) × (n ≡ 4)) ⊎ ((family ≡ 6) × (n ≡ 16))
    → parse_udp_relay_frame (raw ++ (family ∷ rest)) ≡ parse_relay_ip n (encode_hex raw) rest
unfolding parse_udp_relay_frame
parse_udp_relay_frame-fields raw rest family n size room kind =
    let long : ltb (length (raw ++ (family ∷ rest))) 27 ≡ false =
      ground (arith, length-append raw (family ∷ rest)) in
    rw (long, drop-field 16 raw (family ∷ rest) size, take-field 16 raw (family ∷ rest) size)
      (elim kind [
        | inl (four, size4) ↦ rw (four, size4) refl
        | inr (six, size16) ↦ rw (six, size16) refl
      ])

-- The address that the exit sees: the family's bytes of the client's.
abbrev pub seen_addr : NetIp → UdpAddr → UdpAddr
unfolding family_of
seen_addr net dst = record { ip = (family_of net dst.ip).1; port = dst.port }

-- The sizes of the two families' addresses.
abbrev pub SizedFamily : ℕ × Bytes → Type 0
SizedFamily f = (n : ℕ) × (length f.1 ≡ n) × (((f.0 ≡ 4) × (n ≡ 4)) ⊎ ((f.0 ≡ 6) × (n ≡ 16)))

pick_family-size :
    (net : NetIp) (ip : Bytes) (o : Option Bytes)
    → IsNet net
    → (length ip ≡ 4) ⊎ (length ip ≡ 16)
    → net.to4 ip ≡ o
    → SizedFamily (pick_family (net.to16 ip) o)
pick_family-size net ip none law valid e = (16, law.size16 ip valid, inr (refl, refl))
pick_family-size net ip (some b) law valid e = (4, law.size4 ip b e, inl (refl, refl))

pub family-size :
    (net : NetIp) (ip : Bytes)
    → IsNet net
    → (length ip ≡ 4) ⊎ (length ip ≡ 16)
    → SizedFamily (family_of net ip)
unfolding family_of
family-size net ip law valid = pick_family-size net ip (net.to4 ip) law valid refl

build_for :
    (net : NetIp) (raw body : Bytes) (dst : UdpAddr)
    → AreBytes raw
    → length raw ≡ 16
    → build_udp_relay_plain net (encode_hex raw) dst body ≡ some (relay_plain net raw dst body)
unfolding build_udp_relay_plain
build_for net raw body dst bytes size =
    rw (decode_hex-encode_hex raw bytes, build_udp_relay_plain, size) refl

-- The client builds a frame for any datagram to an address of 4 or 16 bytes, and the exit parses from it
-- the same connection's id, the address in the bytes of its family, and the same body, if the id is 16
-- bytes in hexadecimal, the port is a port, the body is shorter than 2^32 bytes, and package net converts
-- addresses to the sizes of their families.
pub parse_udp_relay_frame-build_udp_relay_plain :
    (net : NetIp) (raw body : Bytes) (dst : UdpAddr)
    → IsNet net
    → (length dst.ip ≡ 4) ⊎ (length dst.ip ≡ 16)
    → AreBytes raw
    → length raw ≡ 16
    → dst.port < 65_536
    → length body < 4_294_967_296
    → (plain : Bytes) × (build_udp_relay_plain net (encode_hex raw) dst body ≡ some plain)
      × (parse_udp_relay_frame plain ≡ some (encode_hex raw, seen_addr net dst, body))
unfolding build_udp_relay_plain relay_plain
parse_udp_relay_frame-build_udp_relay_plain net raw body dst law valid bytes size real fits =
    let (family, ip) = family_of net dst.ip in
    let (n, ip_size, kind) = family-size net dst.ip law valid in
    let port : dst.port % 65_536 ≡ dst.port = omega arith in
    let whole : length body % 4_294_967_296 ≡ length body = omega arith in
    let tail = put_uint 2 dst.port ++ (put_uint 4 (length body) ++ body) in
    let four : 4 ≤ n = elim kind [ inl (f, e) ↦ omega arith | inr (f, e) ↦ omega arith ] in
    let room : 10 ≤ length (ip ++ tail) = omega (
      arith,
      length-append ip tail,
      length-append (put_uint 2 dst.port) (put_uint 4 (length body) ++ body),
      length-append (put_uint 4 (length body)) body,
      length-put_uint 2 dst.port,
      length-put_uint 4 (length body),
    ) in
    (
      relay_plain net raw dst body,
      build_for net raw body dst bytes size,
      rw (port, whole)
          (parse_udp_relay_frame-fields raw (ip ++ tail) family n size room kind
            ∙ parse_relay_ip-fields n (encode_hex raw) ip tail ip_size
            ∙ parse_relay_tail-fields (encode_hex raw) ip body dst.port real fits),
    )
