-- ===== src/Lib.antt =====
-- A model of the server side of Tunnel Cat and the theorems that it satisfies.
--
-- The program. An exit (snc-exit) terminates the clients' tunnels and dials the targets. A control
-- (snc-control) picks exits, watches their health, answers address reflection, and replays logins. The
-- arbiter (snc-arbiter) is the account and node registry, with rate limits on its API. All of them, and
-- the clients, form a distributed hash table (dht) that finds relays and gossips manifests. Clients send
-- their logs as binary records (binlog), which the arbiter decodes.
--
-- Which file models what (paths from the repository's root):
--   Exit/Session      snc-exit/sessions.go: `session`, `deliverInOrder`
--   Exit/Pool         snc-exit/sessions.go: `sessionPool` and all its methods
--   Arbiter/Cooldown  snc-arbiter/ratelimit.go: `simpleRateLimiter`
--   Arbiter/Tiered    snc-arbiter/ratelimit.go: `tieredWindowLimiter`
--   Arbiter/Bucket    snc-arbiter/ratelimit.go: `tokenBucket`
--   Arbiter/ClientIp  snc-arbiter/ratelimit.go: `parseCIDRs`, `SetTrustedProxyCIDRs`, `clientIP`
--   Dht/Id            dht/dht.go: `ID`
--   Dht/Table         dht/dht.go: `Contact`, `bucket`, `RoutingTable`
--   Dht/Relays        dht/dht.go: `RelayEntry`; dht/dht_node.go: `relayStore`
--   Dht/Wire          dht/dht_wire.go: `Seal`, `Open`
--   Dht/Node          dht/dht_node.go, dht/dht_content.go: `Node`, its handlers (Handlers) and what it
--                     does of itself (Active)
--   Binlog            binlog/binlog.go
--   Control/Health    snc-control/exit_health.go: `probeOne`, `healthLoop` and what they call, and the
--                     round-trip times (Rtt)
--   Control/Exits     snc-control/exits.go: `ExitRegistry` with its cache; PickRandom and refresh (Refresh);
--                     PickFor and PickForClient (Pick)
--   Control/Reflector snc-control/udp_reflector.go: `ipRateLimiter`
--   Control/AuthCache snc-control/auth_cache.go: `authCache.lookup`
--   Tunnel/Frames     snc/core/tunnel.go with snc-exit/handler.go: the sealed frames, built on one side and
--                     parsed on the other
--   Tunnel/Datagrams  snc/core/udp_assoc.go, snc/core/tunnel.go with snc-exit/handler.go: the frames of
--                     datagrams and their batches
--   Tunnel/Reflect    snc-control/udp_reflector.go: `Serve`, `reply`; snc/core/nat.go: the request and the
--                     parser of the answer
--   Client/Assoc      snc/core/udp_assoc.go: what a UDP association knows of its destinations
--   Client/SocksUdp   snc/core/udp_assoc.go: the header of RFC 1928 around a datagram
--   Base              the tests, lists, maps, byte strings, integers, the cipher and the floating-point
--                     arithmetic that the models share
-- The modules below each of these hold its proofs, and the modules named Tests its runs.
--
-- How the code is read. A method that holds its mutex is one function from the state before to the state
-- after and the result; where a method lets its mutex go, as `getOrCreate` does while it dials, it is
-- several such steps. A Go map is an association list with one entry a key. Bytes are numbers below 256,
-- times are numbers of nanoseconds, and an int64 that may be negative is a ℤ. A failed write may have
-- sent a part of its payload. The addition of a duration
-- to a time does not overflow, and clocks do not run backwards where a theorem says so.
-- Package net, sorting, ciphers, base64, ed25519, decimal numbers, random bytes, and the answers of
-- sockets and of other servers are parameters or arguments, and a theorem that relies on them says on
-- what. A float64 is the number of its bit pattern, and its arithmetic is a parameter. The order in which
-- `range` visits a Go map is a parameter where it shows. refresh() lets the registry's mutex go while it asks
-- an exit: what the other goroutines do to the registry in between is a parameter. PickFor reads the
-- exits' health in several loops, and each loop finds a health map of its own. What a json.RawMessage
-- becomes in a message is a parameter.
--
-- Loops. Most are structural recursion. The drain loop of `deliver_in_order` has a round for each buffered
-- frame and one more; each round takes a frame out. The loop of `decode_records` has a round for each byte
-- and one more; each round moves on by a byte at least. The theorems show that this is enough.
--
-- The reader of a stream has a round for each byte; a frame has four bytes at least.
--
-- Not modelled: JSON otherwise, the persistence of the dht, the SQL store of the arbiter, the HTTP
-- handlers, and of the client all but its frames, the probe of its own address and its UDP
-- association with its codec.
pub mod Base
pub mod Exit
pub mod Arbiter
pub mod Dht
pub mod Binlog
pub mod Control
pub mod Tunnel
pub mod Client
