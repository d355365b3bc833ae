-- ===== src/Tunnel/Datagrams.antt =====
-- snc/core/udp_assoc.go, snc/core/tunnel.go and snc-exit/handler.go: datagrams in the tunnel. `To4` and
-- `To16` of package net are parameters.
pub mod Relay
pub mod Batch
use tunnelcat_server.Base.{
  nat_eq, ℕ, zero, suc, ◌+◌, ◌%◌, List, [], ◌∷◌, ◌++◌, Option, none, some, ltb, eqb, ◌||◌,
  if◌then◌else◌, length, take, drop,
}
use tunnelcat_server.Base.Bytes.{Bytes}
use tunnelcat_server.Base.BigEndian.{uint, put_uint}
use tunnelcat_server.Dht.Id.{encode_hex, decode_hex}

pub record NetIp : Type 0 where
  pub to4 : Bytes → Option Bytes
  pub to16 : Bytes → Bytes

-- `net.UDPAddr`
pub record UdpAddr : Type 0 where
  pub ip : Bytes
  pub port : ℕ

-- The family of an address and its bytes: those of IPv4 where there are such.
abbrev pub pick_family : Bytes → Option Bytes → ℕ × Bytes
pick_family ip16 none = (6, ip16)
pick_family ip16 (some ip4) = (4, ip4)

module _ (net : NetIp) where
  unfoldable pub family_of : Bytes → ℕ × Bytes
  family_of ip = pick_family (net.to16 ip) (net.to4 ip)

  unfoldable pub relay_plain : Bytes → UdpAddr → Bytes → Bytes
  unfolding family_of
  relay_plain raw dst body =
      let (family, ip) = family_of dst.ip in
      raw
      ++ (family
          ∷ (ip
              ++ (put_uint 2 (dst.port % 65_536)
                  ++ (put_uint 4 (length body % 4_294_967_296) ++ body))))

  unfoldable pub build_udp_relay_plain : Bytes → UdpAddr → Bytes → Option Bytes
  unfolding relay_plain
  build_udp_relay_plain conn_id dst body = elim (decode_hex conn_id) [
    | none ↦ none
    | some raw ↦ if eqb (length raw) 16 then some (relay_plain raw dst body) else none
  ]

-- The part of a relay frame behind the address.
unfoldable pub parse_relay_tail : Bytes → Bytes → Bytes → Option (Bytes × UdpAddr × Bytes)
parse_relay_tail conn_id ip rest =
    let at_len = drop 2 rest in
    let body_len = uint (take 4 at_len) in
    let body = drop 4 at_len in
    if ltb (length rest) (2 + 4)
    then none
    else if ltb (length body) body_len
    then none
    else some (conn_id, record { ip = ip; port = uint (take 2 rest) }, take body_len body)

unfoldable pub parse_relay_ip : ℕ → Bytes → Bytes → Option (Bytes × UdpAddr × Bytes)
unfolding parse_relay_tail
parse_relay_ip n conn_id rest =
    if ltb (length rest) n then none else parse_relay_tail conn_id (take n rest) (drop n rest)

unfoldable pub parse_udp_relay_frame : Bytes → Option (Bytes × UdpAddr × Bytes)
unfolding parse_relay_ip
parse_udp_relay_frame plain =
    if ltb (length plain) (16 + 1 + 4 + 2 + 4) then none else elim (drop 16 plain) [
      | [] ↦ none
      | family ∷ rest ↦
          let conn_id = encode_hex (take 16 plain) in
          if eqb family 4
          then parse_relay_ip 4 conn_id rest
          else if eqb family 6
          then parse_relay_ip 16 conn_id rest
          else none
    ]

unfoldable pub encode_frames : List Bytes → Bytes
encode_frames [] = []
encode_frames (f ∷ fs) = put_uint 4 (length f % 4_294_967_296) ++ (f ++ encode_frames fs)

unfoldable pub encode_datagram_batch : List Bytes → Bytes
unfolding encode_frames
encode_datagram_batch fs = put_uint 4 (length fs % 4_294_967_296) ++ encode_frames fs

abbrev pub cons_frame : Bytes → Option (List Bytes) → Option (List Bytes)
cons_frame f none = none
cons_frame f (some fs) = some (f ∷ fs)

unfoldable pub decode_frames : ℕ → Bytes → Option (List Bytes)
decode_frames zero src = some []
decode_frames (suc n) src =
    let flen = uint (take 4 src) in
    let rest = drop 4 src in
    let more = decode_frames n (drop flen rest) in
    if ltb (length src) 4 || ltb (length rest) flen then none else cons_frame (take flen rest) more

unfoldable pub decode_datagram_batch : Bytes → Option (List Bytes)
unfolding decode_frames
decode_datagram_batch [] = some []
decode_datagram_batch (b ∷ bs) =
    if ltb (length (b ∷ bs)) 4
    then none
    else decode_frames (uint (take 4 (b ∷ bs))) (drop 4 (b ∷ bs))
