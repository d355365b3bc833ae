-- ===== src/Client/SocksUdp/RoundTrip.antt =====
-- snc/core/udp_assoc.go: the header of a datagram is parsed as it was built.
use tunnelcat_server.Base.{
  nat_eq, ℕ, ◌%◌, ◌<◌, ◌≡◌, ◌⊎◌, refl, ap, ◌∙◌, false, ◌++◌, Option, none, some, ltb, length,
  length-append, append_assoc, arith,
}
use tunnelcat_server.Base.Bytes.{Bytes}
use tunnelcat_server.Base.BigEndian.{
  uint, put_uint, length-put_uint, uint-put_uint, take-field, drop-field,
}
use tunnelcat_server.Tunnel.Datagrams.{NetIp, UdpAddr, pick_family, family_of}
use tunnelcat_server.Tunnel.Datagrams.Relay.{IsNet, seen_addr}
use tunnelcat_server.Client.SocksUdp.{
  Resolver, Parsed, parse_port, parse_ip_bytes, parse_socks5_udp_header, zeros, copy_into,
  header_of, build_socks5_udp_header,
}

parse_port-fields :
    (ip p payload : Bytes) (frag : ℕ)
    → length p ≡ 2
    → parse_port ip frag (p ++ payload) ≡ some (record { ip = ip; port = uint p }, payload, frag)
unfolding parse_port
parse_port-fields ip p payload frag two =
    let long : ltb (length (p ++ payload)) 2 ≡ false = ground (arith, length-append p payload) in
    rw (long, take-field 2 p payload two, drop-field 2 p payload two) refl

parse_ip_bytes-fields :
    (n frag : ℕ) (ip rest : Bytes)
    → length ip ≡ n
    → parse_ip_bytes n frag (ip ++ rest) ≡ parse_port ip frag rest
unfolding parse_ip_bytes
parse_ip_bytes-fields n frag ip rest size =
    let long : ltb (length (ip ++ rest)) n ≡ false = ground (arith, length-append ip rest) in
    rw (long, take-field n ip rest size, drop-field n ip rest size) refl

-- An address field of `n` bytes, the port and the payload.
parse_ip_bytes-built :
    (n port : ℕ) (ip payload : Bytes)
    → length ip ≡ n
    → port < 65_536
    → parse_ip_bytes n 0 ((copy_into n ip ++ put_uint 2 (port % 65_536)) ++ payload)
      ≡ some (record { ip = ip; port = port }, payload, 0)
parse_ip_bytes-built n port ip payload size real =
    let wrapped : port % 65_536 ≡ port = omega arith in
    let p = put_uint 2 (port % 65_536) in
    let parsed : ℕ → Parsed = λ k. some (record { ip = ip; port = k }, payload, 0) in
    ap (λ (field : Bytes). parse_ip_bytes n 0 ((field ++ p) ++ payload))
      (take-field n ip (zeros n) size)
    ∙ ap (parse_ip_bytes n 0) (append_assoc ip p payload)
    ∙ parse_ip_bytes-fields n 0 ip (p ++ payload) size
    ∙ parse_port-fields ip p payload 0 (length-put_uint 2 (port % 65_536))
    ∙ ap parsed (uint-put_uint 2 (port % 65_536) (omega arith) ∙ wrapped)

parse-header_of :
    (r : Resolver) (net : NetIp) (src : UdpAddr) (payload : Bytes) (o : Option Bytes)
    → IsNet net
    → (length src.ip ≡ 4) ⊎ (length src.ip ≡ 16)
    → src.port < 65_536
    → net.to4 src.ip ≡ o
    → parse_socks5_udp_header r (header_of (net.to16 src.ip) src.port o ++ payload)
      ≡ some (record { ip = (pick_family (net.to16 src.ip) o).1; port = src.port }, payload, 0)
unfolding parse_socks5_udp_header
parse-header_of r net src payload none law valid real e =
    parse_ip_bytes-built 16 src.port (net.to16 src.ip) payload (law.size16 src.ip valid) real
parse-header_of r net src payload (some b) law valid real e =
    parse_ip_bytes-built 4 src.port b payload (law.size4 src.ip b e) real

-- The parser reads from a header that the client built the source's address in the bytes of its family,
-- the payload, and no fragment number, if that address has 4 or 16 bytes, its port is a port, and package
-- net converts addresses to the sizes of their families.
pub parse_socks5_udp_header-build_socks5_udp_header :
    (r : Resolver) (net : NetIp) (src : UdpAddr) (payload : Bytes)
    → IsNet net
    → (length src.ip ≡ 4) ⊎ (length src.ip ≡ 16)
    → src.port < 65_536
    → parse_socks5_udp_header r (build_socks5_udp_header net src payload)
      ≡ some (seen_addr net src, payload, 0)
unfolding build_socks5_udp_header family_of
parse_socks5_udp_header-build_socks5_udp_header r net src payload law valid real =
    parse-header_of r net src payload (net.to4 src.ip) law valid real refl
