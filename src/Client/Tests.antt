-- ===== src/Client/Tests.antt =====
-- Runs of a UDP association, and its theorems at concrete inputs.
use tunnelcat_server.Base.{
  string_eq, nat_eq, ◌≡◌, ◌⊎◌, refl, true, false, List, [], ◌∷◌, none, some, arith, inl,
}
use tunnelcat_server.Base.Map.{lookup, insert, delete}
use tunnelcat_server.Tunnel.Datagrams.{NetIp, UdpAddr}
use tunnelcat_server.Tunnel.Datagrams.Relay.{IsNet, seen_addr}
use tunnelcat_server.Client.SocksUdp.{Resolver, parse_socks5_udp_header, build_socks5_udp_header}
use tunnelcat_server.Client.SocksUdp.RoundTrip.{parse_socks5_udp_header-build_socks5_udp_header}
use tunnelcat_server.Client.Assoc.{
  Setup, Dst, direct, stats_of, counted, forward_outbound, on_known, after_send, note_send,
  unpin_failed, begin_dial, picked_dialer, pin, end_dial, is_admitted,
}
use tunnelcat_server.Client.Assoc.Pinned.{
  Event, sent, begun, ended, step, stats_after, Broken, dialer_kept,
}
use tunnelcat_server.Client.Assoc.Direct.{MayBeDirect, has_fallen_back, forward_outbound-IsDirect}

abbrev setup : Setup
setup = record { tunnel_only = false; wildcat_dns = false; realtime = some 3 }

-- The realtime dialer has failed; dialer 7 of the pool is pinned.
abbrev dialled : List Event
dialled = sent 6 false "a" ∷ ended true (some 7) "a" ∷ begun true "a" ∷ []

dialled_pinned : (stats_of "a" (stats_after setup dialled)).dialer ≡ some 7
unfolding stats_after step note_send end_dial begin_dial on_known after_send picked_dialer pin
    unpin_failed stats_of lookup insert delete
dialled_pinned = refl

dialer_kept_example :
    ((stats_of "a" (stats_after setup (sent 9 false "a" ∷ dialled))).dialer ≡ some 7)
    ⊎ Broken setup "a" 7 (sent 9 false "a") dialled
dialer_kept_example = dialer_kept setup "a" 7 (sent 9 false "a") dialled dialled_pinned

-- The fifth failure opens the circuit: nothing is sent for five seconds.
suppressed :
    is_admitted 5_000_000_012 "a" (
      stats_after setup
        (sent 13 false "a" ∷ sent 12 false "a" ∷ sent 11 false "a" ∷ sent 10 false "a" ∷ dialled))
    ≡ false
unfolding is_admitted stats_after step note_send end_dial begin_dial on_known after_send
    picked_dialer pin unpin_failed stats_of lookup insert delete
suppressed = refl

abbrev near : Dst
near = record { key = "n"; port = 99; is_ipv4 = true; is_bypass = true }

sent_directly : (forward_outbound setup 5 near (stats_after setup dialled)).1 ≡ direct
unfolding forward_outbound counted stats_after step note_send end_dial begin_dial on_known
    after_send picked_dialer pin unpin_failed stats_of lookup insert delete
sent_directly = refl

forward_outbound-IsDirect_example :
    MayBeDirect setup near (has_fallen_back setup "n" (begun true "a" ∷ []))
forward_outbound-IsDirect_example =
    forward_outbound-IsDirect setup 5 near (sent 6 false "a" ∷ ended true (some 7) "a" ∷ [])
      (begun true "a" ∷ []) (inl sent_directly)

-- A resolver that knows one host, and a package net that takes each address for 10.0.0.1.
abbrev resolver : Resolver
resolver = record {
  lookup_host = λ host. some ("10.0.0.1" ∷ []);
  parse_ip = λ text. 10 ∷ 0 ∷ 0 ∷ 1 ∷ [];
}

abbrev ten : NetIp
ten = record {
  to4 = λ ip. some (10 ∷ 0 ∷ 0 ∷ 1 ∷ []);
  to16 = λ ip. 0 ∷ 0 ∷ 0 ∷ 0 ∷ 0 ∷ 0 ∷ 0 ∷ 0 ∷ 0 ∷ 0 ∷ 255 ∷ 255 ∷ 10 ∷ 0 ∷ 0 ∷ 1 ∷ [];
}

ten-IsNet : IsNet ten
ten-IsNet = record { size4 = λ ip b e. ground arith; size16 = λ ip valid. refl }

abbrev src : UdpAddr
src = record { ip = 10 ∷ 0 ∷ 0 ∷ 1 ∷ []; port = 1_234 }

parse_socks5_udp_header-build_socks5_udp_header_example :
    parse_socks5_udp_header resolver (build_socks5_udp_header ten src (9 ∷ 8 ∷ []))
    ≡ some (seen_addr ten src, 9 ∷ 8 ∷ [], 0)
parse_socks5_udp_header-build_socks5_udp_header_example =
    parse_socks5_udp_header-build_socks5_udp_header resolver ten src (9 ∷ 8 ∷ []) ten-IsNet
      (inl refl) (omega arith)

-- The FRAG byte is passed on.
fragment_parsed :
    parse_socks5_udp_header resolver (0 ∷ 0 ∷ 1 ∷ 1 ∷ 1 ∷ 2 ∷ 3 ∷ 4 ∷ 0 ∷ 80 ∷ [])
    ≡ some (record { ip = 1 ∷ 2 ∷ 3 ∷ 4 ∷ []; port = 80 }, [], 1)
unfolding parse_socks5_udp_header
fragment_parsed = refl

-- The domain `a` at port 80.
domain_parsed :
    parse_socks5_udp_header resolver (0 ∷ 0 ∷ 0 ∷ 3 ∷ 1 ∷ 97 ∷ 0 ∷ 80 ∷ 7 ∷ [])
    ≡ some (record { ip = 10 ∷ 0 ∷ 0 ∷ 1 ∷ []; port = 80 }, 7 ∷ [], 0)
unfolding parse_socks5_udp_header
domain_parsed = refl

-- A domain that is cut off is refused.
cut_domain_refused : parse_socks5_udp_header resolver (0 ∷ 0 ∷ 0 ∷ 3 ∷ 5 ∷ 97 ∷ []) ≡ none
unfolding parse_socks5_udp_header
cut_domain_refused = refl
