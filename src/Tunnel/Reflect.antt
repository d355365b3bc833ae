-- ===== src/Tunnel/Reflect.antt =====
-- snc/core/nat.go and snc-control/udp_reflector.go: a client asks a control for the address that its
-- datagrams come from. The cipher and package net are parameters, as are the tests for QUIC and for a
-- packet of the dht, `none` where the control has neither. A datagram is no longer than its buffer.
pub mod RoundTrip
use tunnelcat_server.Base.{
  string_eq, nat_eq, ℕ, ◌+◌, ◌-◌, ◌%◌, Bool, true, false, List, [], ◌∷◌, ◌++◌, Option, none, some,
  String, ltb, leb, eqb, if◌then◌else◌, length, take, drop,
}
use tunnelcat_server.Base.Bytes.{Bytes}
use tunnelcat_server.Base.BigEndian.{uint, put_uint}
use tunnelcat_server.Base.Aead.{Aead}
use tunnelcat_server.Control.Reflector.{Buckets, allow}
use tunnelcat_server.Tunnel.Frames.{seal_frame}
use tunnelcat_server.Tunnel.Datagrams.{NetIp, UdpAddr, family_of}

-- 30 seconds in milliseconds.
abbrev time_window : ℕ
time_window = 30_000

-- 2 ^ 63 and 2 ^ 64
abbrev int64_limit : ℕ
int64_limit = 9_223_372_036_854_775_808

abbrev uint64_limit : ℕ
uint64_limit = 18_446_744_073_709_551_616

-- Whether the difference of two times, an int64 that wraps around, is within the window.
unfoldable pub is_in_window : ℕ → ℕ → Bool
is_in_window now ts =
    let age = (now + uint64_limit - ts) % uint64_limit in
    if ltb age int64_limit then leb age time_window else leb (uint64_limit - age) time_window

unfoldable pub is_fresh_plain : ℕ → Bytes → Bool
unfolding is_in_window
is_fresh_plain now plain =
    if ltb (length plain) 8 then false else is_in_window now (uint (take 8 plain))

abbrev pub passes {ℓ} : {A : Type ℓ} → (A → Bool) → Option A → Bool
passes p none = false
passes p (some a) = p a

unfoldable pub reply_plain : NetIp → UdpAddr → Bytes
unfolding family_of
reply_plain net src =
    let (family, ip) = family_of net src.ip in
    put_uint 2 family ++ (ip ++ put_uint 2 (src.port % 65_536))

-- The part of a reply behind the family, for an address of `n` bytes.
unfoldable pub parse_reply_ip : ℕ → Bytes → Option UdpAddr
parse_reply_ip n rest =
    if ltb (length rest) (n + 2)
    then none
    else some (record { ip = take n rest; port = uint (take 2 (drop n rest)) })

unfoldable pub parse_reply_plain : Bytes → Option UdpAddr
unfolding parse_reply_ip
parse_reply_plain resp =
    let family = uint (take 2 resp) in
    if ltb (length resp) 4
    then none
    else if eqb family 4
    then parse_reply_ip 4 (drop 2 resp)
    else if eqb family 6
    then parse_reply_ip 16 (drop 2 resp)
    else none

abbrev pub then_reply : Option Bytes → Option UdpAddr
unfolding parse_reply_plain
then_reply none = none
then_reply (some resp) = parse_reply_plain resp

-- What the control does with a datagram.
pub data Action : Type 0 where
  to_quic : Action
  to_dht : Action
  dropped : Action
  replied : Bytes → Action

module _ (aead : Aead) where
  unfoldable pub build_request : Bytes → ℕ → Bytes
  unfolding seal_frame
  build_request nonce ms = seal_frame aead nonce (put_uint 8 ms)

  unfoldable pub is_valid_request : ℕ → Bytes → Bool
  unfolding is_fresh_plain
  is_valid_request now pkt =
      if ltb (length pkt) (12 + 8 + aead.overhead)
      then false
      else passes (is_fresh_plain now) (aead.decrypt (take 12 pkt) (drop 12 pkt))

  unfoldable pub reply : NetIp → UdpAddr → Bytes → Bytes
  unfolding seal_frame reply_plain
  reply net src nonce = seal_frame aead nonce (reply_plain net src)

  -- One round of `Serve`: the times in nanoseconds and milliseconds, the sender and its text, and the
  -- nonce for a reply.
  unfoldable pub serve :
      NetIp
      → Option (Bytes → Bool)
      → Option (Bytes → Bool)
      → ℕ
      → ℕ
      → UdpAddr
      → String
      → Bytes
      → Bytes
      → Buckets
      → Buckets × Action
  unfolding is_valid_request reply allow
  serve net classify dht_opens now_ns now_ms src ip nonce pkt m =
      if passes (λ (is_quic : Bytes → Bool). is_quic pkt) classify
      then (let (next, ok) = allow now_ns ip m in (next, if ok then to_quic else dropped))
      else if passes (λ (is_dht : Bytes → Bool). is_dht pkt) dht_opens
      then (m, to_dht)
      else (m, if is_valid_request now_ms pkt then replied (reply net src nonce) else dropped)

  unfoldable pub parse_endpoint : Bytes → Option UdpAddr
  unfolding parse_reply_plain
  parse_endpoint pkt =
      if ltb (length pkt) (12 + 2 + 4 + 2 + aead.overhead)
      then none
      else then_reply (aead.decrypt (take 12 pkt) (drop 12 pkt))
