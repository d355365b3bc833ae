-- ===== src/Client/SocksUdp.antt =====
-- snc/core/udp_assoc.go: the header of a datagram between an application and the client, which is that of
-- RFC 1928. The addresses of package net and the resolver are parameters.
pub mod RoundTrip
use tunnelcat_server.Base.{
  nat_eq, ℕ, zero, suc, ◌%◌, List, [], ◌∷◌, ◌++◌, Option, none, some, String, ltb, eqb,
  if◌then◌else◌, length, take, drop,
}
use tunnelcat_server.Base.Bytes.{Bytes}
use tunnelcat_server.Base.BigEndian.{uint, put_uint}
use tunnelcat_server.Tunnel.Datagrams.{NetIp, UdpAddr}

-- `net.LookupHost`, `none` for an error, and `net.ParseIP`, which gives no bytes for what it cannot parse.
pub record Resolver : Type 0 where
  pub lookup_host : Bytes → Option (List String)
  pub parse_ip : String → Bytes

-- The address of the destination, the payload and the FRAG byte.
abbrev pub Parsed : Type 0
Parsed = Option (UdpAddr × Bytes × ℕ)

unfoldable pub parse_port : Bytes → ℕ → Bytes → Parsed
parse_port ip frag rest =
    if ltb (length rest) 2
    then none
    else some (record { ip = ip; port = uint (take 2 rest) }, drop 2 rest, frag)

unfoldable pub parse_ip_bytes : ℕ → ℕ → Bytes → Parsed
unfolding parse_port
parse_ip_bytes n frag rest =
    if ltb (length rest) n then none else parse_port (take n rest) frag (drop n rest)

-- The first address of a host.
abbrev pub first_ip : Resolver → Option (List String) → Option Bytes
first_ip r none = none
first_ip r (some []) = none
first_ip r (some (a ∷ more)) = some (r.parse_ip a)

abbrev pub then_port : ℕ → Bytes → Option Bytes → Parsed
unfolding parse_port
then_port frag rest none = none
then_port frag rest (some ip) = parse_port ip frag rest

unfoldable pub parse_domain : Resolver → ℕ → Bytes → Parsed
parse_domain r frag [] = none
parse_domain r frag (dlen ∷ rest) =
    if ltb (length rest) dlen
    then none
    else then_port frag (drop dlen rest) (first_ip r (r.lookup_host (take dlen rest)))

unfoldable pub parse_socks5_udp_header : Resolver → Bytes → Parsed
unfolding parse_ip_bytes parse_domain
parse_socks5_udp_header r [] = none
parse_socks5_udp_header r (a ∷ []) = none
parse_socks5_udp_header r (a ∷ b ∷ []) = none
parse_socks5_udp_header r (a ∷ b ∷ frag ∷ []) = none
parse_socks5_udp_header r (a ∷ b ∷ frag ∷ atyp ∷ rest) =
    if eqb atyp 1
    then parse_ip_bytes 4 frag rest
    else if eqb atyp 4
    then parse_ip_bytes 16 frag rest
    else if eqb atyp 3
    then parse_domain r frag rest
    else none

abbrev pub zeros : ℕ → Bytes
zeros zero = []
zeros (suc n) = 0 ∷ zeros n

-- `copy` into a field of `n` zero bytes.
abbrev pub copy_into : ℕ → Bytes → Bytes
copy_into n bs = take n (bs ++ zeros n)

abbrev pub header_of : Bytes → ℕ → Option Bytes → Bytes
header_of ip16 port none = 0 ∷ 0 ∷ 0 ∷ 4 ∷ (copy_into 16 ip16 ++ put_uint 2 (port % 65_536))
header_of ip16 port (some ip4) = 0 ∷ 0 ∷ 0 ∷ 1 ∷ (copy_into 4 ip4 ++ put_uint 2 (port % 65_536))

unfoldable pub build_socks5_udp_header : NetIp → UdpAddr → Bytes → Bytes
build_socks5_udp_header net src payload =
    header_of (net.to16 src.ip) src.port (net.to4 src.ip) ++ payload
