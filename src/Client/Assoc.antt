-- ===== src/Client/Assoc.antt =====
-- snc/core/udp_assoc.go: what a UDP association knows of its destinations: the direct sends with their
-- fallback to the tunnel, the circuit breaker, and the dialer that is pinned to a destination. Times are
-- nanoseconds; the zero time is 0. A dialer is a number, its pointer. Whether the realtime dialer has
-- failed, and what the pool picks, are arguments. `dialerFor` lets its mutex go while it picks, and is
-- two steps here.
pub mod Pinned
pub mod Direct
use tunnelcat_server.Base.{
  string_eq, nat_eq, ℕ, suc, ◌+◌, Bool, true, false, not, Option, none, some, String, leb, ltb, eqb,
  ◌&&◌, ◌||◌, if◌then◌else◌,
}
use tunnelcat_server.Base.Map.{Map, lookup, insert}

abbrev pub Dialer : Type 0
Dialer = ℕ

-- `socks5UDPFallbackSent`, `tunnelCBThreshold` and `tunnelCBCooldown`
abbrev pub fallback_sent : ℕ
fallback_sent = 3

abbrev pub cb_threshold : ℕ
cb_threshold = 5

abbrev pub cb_cooldown : ℕ
cb_cooldown = 5_000_000_000

pub record DstStats : Type 0 where
  pub sent_count : ℕ
  pub recv_count : ℕ
  pub first_sent_at : ℕ
  pub use_tunnel : Bool
  pub err_streak : ℕ
  pub blocked_until : ℕ
  pub dialer : Option Dialer

abbrev pub new_stats : DstStats
new_stats = record {
  sent_count = 0;
  recv_count = 0;
  first_sent_at = 0;
  use_tunnel = false;
  err_streak = 0;
  blocked_until = 0;
  dialer = none;
}

-- What a session is set up with.
pub record Setup : Type 0 where
  pub tunnel_only : Bool
  pub wildcat_dns : Bool
  pub realtime : Option Dialer

abbrev pub Stats : Type 0
Stats = Map String DstStats

-- A destination: its text, its port, whether it is an IPv4 address, and whether it is to be reached
-- without the tunnel.
pub record Dst : Type 0 where
  pub key : String
  pub port : ℕ
  pub is_ipv4 : Bool
  pub is_bypass : Bool

-- What happens to a datagram; `probe` starts the check for the fallback as well.
pub data Route : Type 0 where
  dropped : Route
  tunnel : Route
  direct : Route
  probe : Route

abbrev pub stats_or_new : Option DstStats → DstStats
stats_or_new none = new_stats
stats_or_new (some st) = st

unfoldable pub stats_of : String → Stats → DstStats
stats_of key m = stats_or_new (lookup key m)

unfoldable pub counted : ℕ → DstStats → DstStats
counted now st =
    if st.use_tunnel
    then st
    else if eqb st.sent_count 0
    then record st { first_sent_at = now; sent_count = 1 }
    else record st { sent_count = suc st.sent_count }

abbrev pub route_of : Setup → Dst → DstStats → Route
route_of c dst st =
    if st.use_tunnel || c.tunnel_only || not dst.is_bypass
    then tunnel
    else if eqb st.sent_count fallback_sent
    then probe
    else direct

unfoldable pub forward_outbound : Setup → ℕ → Dst → Stats → Stats × Route
unfolding stats_of counted
forward_outbound c now dst m =
    if not dst.is_ipv4
    then (m, dropped)
    else if eqb dst.port 53
    then (m, if c.wildcat_dns && not c.tunnel_only then direct else tunnel)
    else let st = counted now (stats_of dst.key m) in (insert dst.key st m, route_of c dst st)

-- What the check does when its time is up, to a destination that is known.
unfoldable pub fall_back : DstStats → DstStats
fall_back st = if st.use_tunnel || ltb 0 st.recv_count then st else record st { use_tunnel = true }

abbrev pub put_known : (DstStats → DstStats) → String → Stats → Option DstStats → Stats
put_known f key m none = m
put_known f key m (some st) = insert key (f st) m

-- A change of a destination that is known, which an unknown one does not become.
unfoldable pub on_known : (DstStats → DstStats) → String → Stats → Stats
on_known f key m = put_known f key m (lookup key m)

unfoldable pub check_fallback : String → Stats → Stats
unfolding on_known fall_back
check_fallback = on_known fall_back

unfoldable pub received : DstStats → DstStats
received st = record st { recv_count = suc st.recv_count }

unfoldable pub record_recv : String → Stats → Stats
unfolding on_known received
record_recv = on_known received

-- Whether a datagram goes into the queue of its destination's worker.
unfoldable pub is_admitted : ℕ → String → Stats → Bool
is_admitted now key m = elim (lookup key m) [ none ↦ true | some st ↦ leb st.blocked_until now ]

-- What the worker notes after a send.
unfoldable pub after_send : ℕ → Bool → DstStats → DstStats
after_send now ok st =
    if ok
    then record st { err_streak = 0 }
    else if leb cb_threshold (suc st.err_streak)
    then record st { blocked_until = now + cb_cooldown; err_streak = 0; dialer = none }
    else record st { err_streak = suc st.err_streak }

unfoldable pub note_send : ℕ → Bool → String → Stats → Stats
unfolding on_known after_send
note_send now ok = on_known (after_send now ok)

abbrev pub is_dialer : Option Dialer → Dialer → Bool
is_dialer none d = false
is_dialer (some r) d = eqb r d

abbrev pub unpin_if : (Dialer → Bool) → DstStats → Option Dialer → DstStats
unpin_if broken st none = st
unpin_if broken st (some d) = if broken d then record st { dialer = none } else st

-- The first part of `dialerFor`: the pin of a failed realtime dialer is taken away.
unfoldable pub unpin_failed : Setup → Bool → DstStats → DstStats
unpin_failed c failed st = unpin_if (λ d. is_dialer c.realtime d && failed) st st.dialer

unfoldable pub begin_dial : Setup → Bool → String → Stats → Stats
unfolding stats_of unpin_failed
begin_dial c failed key m = insert key (unpin_failed c failed (stats_of key m)) m

-- Between the parts: the realtime dialer unless it has failed, or else what the pool picks.
unfoldable pub picked_dialer : Setup → Bool → Option Dialer → Option Dialer
picked_dialer c failed pool = elim c.realtime [
  | none ↦ pool
  | some r ↦ if failed then pool else some r
]

-- The second part: a dialer is pinned if none is by now.
unfoldable pub pin : Option Dialer → DstStats → DstStats
pin none st = st
pin (some d) st = elim st.dialer [ none ↦ record st { dialer = some d } | some e ↦ st ]

unfoldable pub end_dial : Setup → Bool → Option Dialer → String → Stats → Stats
unfolding on_known picked_dialer pin
end_dial c failed pool = on_known (pin (picked_dialer c failed pool))
