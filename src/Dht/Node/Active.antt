-- ===== src/Dht/Node/Active.antt =====
-- dht/dht_node.go and dht/dht_content.go: what the node does of itself: pings and their timeouts,
-- searches, announcements, gossip, and the callbacks' side of the node's state. A ping that waits for
-- its timeout is the goroutine of `pingAddr`: `ping_timeout` is what it does when the time is over.
use tunnelcat_server.Base.{
  string_eq, list_eq, nat_eq, ℕ, List, [], ◌∷◌, ◌++◌, Option, none, some, String, ltb, ◌==◌,
  if◌then◌else◌,
}
use tunnelcat_server.Base.Int.{pos, eqb_ℤ}
use tunnelcat_server.Base.Map.{lookup, insert, delete}
use tunnelcat_server.Dht.Id.{NodeId, parse_id, encode_hex}
use tunnelcat_server.Dht.Table.{Contact, k_max, rt_mark_missed, rt_all, suspect_contacts, closest}
use tunnelcat_server.Dht.Relays.{RelayEntry}
use tunnelcat_server.Dht.Node.State.{
  Message, ping, get_relays, find_node, announce, manifest_have, content_have, hole_punch,
  mirror_punch, Effect, send, Node, Env, own_contact,
}

-- `K * IDBits`
abbrev pub all_contacts : ℕ
all_contacts = 2048

abbrev pub bootstrap_alpha : ℕ
bootstrap_alpha = 3

-- The first contact with an address.
unfoldable pub with_addr : String → List Contact → Option Contact
with_addr addr [] = none
with_addr addr (c ∷ cs) = if c.addr == addr then some c else with_addr addr cs

unfoldable pub track : String → Option Contact → Node → Node
track addr none n = n
track addr (some c) n = record n { pending_pings = insert addr c.id n.pending_pings }

-- The goroutine after `pingTimeout`: it knows the address and the identifier of its ping.
unfoldable pub ping_timeout : String → NodeId → Node → Node
ping_timeout addr id n = elim (lookup addr n.pending_pings) [
  | none ↦ n
  | some _ ↦ record n { pending_pings = delete addr n.pending_pings; rt = rt_mark_missed id n.rt }
]

-- The loop over the contacts of `rt_all` that `ping_stale` makes.
unfoldable pub oldest_from : Contact → List Contact → Contact
oldest_from o [] = o
oldest_from o (c ∷ cs) = if ltb c.last_seen o.last_seen then oldest_from c cs else oldest_from o cs

abbrev pub update_entry : Option (Option RelayEntry) → Node → Node
update_entry none n = n
update_entry (some fresh) n = record n { own_entry = fresh }

module _ (env : Env) where
  -- One datagram, if the address resolves.
  unfoldable pub send_to : Message → String → List Effect
  send_to m addr = elim (env.resolve addr) [ none ↦ [] | some dst ↦ send dst m ∷ [] ]

  unfoldable pub send_all : Message → List Contact → List Effect
  send_all m [] = []
  send_all m (c ∷ cs) = send_to m c.addr ++ send_all m cs

  unfoldable pub ping_addr : String → Node → Node × List Effect
  ping_addr addr n = elim (env.resolve addr) [
    | none ↦ (n, [])
    | some dst ↦ (
      track addr (with_addr addr (closest env.sort n.id all_contacts n.rt)) n,
      send dst ping ∷ [],
    )
  ]

  unfoldable pub ping_each : List Contact → Node → Node × List Effect
  ping_each [] n = (n, [])
  ping_each (c ∷ cs) n =
      let (m, sent) = ping_addr c.addr n in let (o, more) = ping_each cs m in (o, sent ++ more)

  unfoldable pub reprobe_suspects : Node → Node × List Effect
  reprobe_suspects n = ping_each (suspect_contacts n.rt) n

  abbrev ping_oldest : List Contact → Node → Node × List Effect
  ping_oldest [] n = (n, [])
  ping_oldest (c ∷ cs) n = ping_addr (oldest_from c cs).addr n

  unfoldable pub ping_stale : Node → Node × List Effect
  ping_stale n = ping_oldest (rt_all n.rt) n

  unfoldable pub find_node_at : NodeId → Node → List Effect
  find_node_at target n =
      send_all (find_node (own_contact n) (encode_hex target))
        (closest env.sort target bootstrap_alpha n.rt)

  unfoldable pub find_node_direct : String → NodeId → Node → List Effect
  find_node_direct addr target n = send_to (find_node (own_contact n) (encode_hex target)) addr

  -- `Bootstrap` after `loadPeers`.
  unfoldable pub bootstrap : List String → Node → List Effect
  bootstrap [] n = find_node_at n.id n
  bootstrap (seed ∷ seeds) n = find_node_direct seed n.id n ++ bootstrap seeds n

  abbrev announce_entry : Option RelayEntry → Node → List Effect
  announce_entry none n = []
  announce_entry (some e) n = elim (parse_id e.node_id) [
    | none ↦ []
    | some id ↦ send_all (announce e) (closest env.sort id k_max n.rt)
  ]

  -- The argument is what the refresher gives: `none` if there is no refresher or it fails.
  unfoldable pub announce_self : Option (Option RelayEntry) → Node → Node × List Effect
  announce_self fresh n = let m = update_entry fresh n in (m, announce_entry m.own_entry m)

  unfoldable pub ask_relays : Node → List Effect
  ask_relays n = send_all get_relays (closest env.sort n.id k_max n.rt)

  unfoldable pub gossip_manifest_have : Node → List Effect
  gossip_manifest_have n =
      if eqb_ℤ n.manifest_ts (pos 0)
      then []
      else send_all (manifest_have n.manifest_ts) (closest env.sort n.id k_max n.rt)

  unfoldable pub gossip_content_have : Node → List Effect
  gossip_content_have n =
      if eqb_ℤ n.content_ts (pos 0)
      then []
      else send_all (content_have n.content_ts n.content_complete)
          (closest env.sort n.id k_max n.rt)

  unfoldable pub send_hole_punch : String → String → String → List Effect
  send_hole_punch relay own control = send_to (hole_punch (some (own, control))) relay

  unfoldable pub send_mirror_punch : String → String → List Effect
  send_mirror_punch peer own = send_to (mirror_punch (some own)) peer
