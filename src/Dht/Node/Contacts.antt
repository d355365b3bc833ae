-- ===== src/Dht/Node/Contacts.antt =====
-- dht/dht_node.go: what a datagram can do to the routing table and the relay store.
use tunnelcat_server.Base.{
  string_eq, list_eq, nat_eq, ℕ, ◌≡◌, refl, not, List, [], ◌∷◌, Option, none, some, String, ◌==◌,
  ◌&&◌, arith, Bool-cases, Option-cases, inl, inr,
}
use tunnelcat_server.Base.Bytes.{Bytes}
use tunnelcat_server.Base.Int.{ℤ}
use tunnelcat_server.Base.Map.{lookup}
use tunnelcat_server.Dht.Id.{NodeId, parse_id}
use tunnelcat_server.Dht.Table.{RoutingTable, closest}
use tunnelcat_server.Dht.Table.Invariant.{
  IsTable, new_routing_table-IsTable, apply-IsTable, adds, resets, misses, apply,
}
use tunnelcat_server.Dht.Relays.{RelayEntry, store}
use tunnelcat_server.Dht.Node.Active.{all_contacts, with_addr, track, ping_addr, ping_timeout}
use tunnelcat_server.Dht.Node.State.{
  ContactJson, Message, ping, pong, ack, get_relays, manifest_want, content_want, unknown,
  malformed, find_node, nodes, announce, relay_list, manifest_have, manifest, hole_punch,
  content_have, content, mirror_punch, Node, new_node, Env,
}
use tunnelcat_server.Dht.Node.Handlers.{
  seconds, add_contact, clear_suspect_by_addr, handle_ping, handle_manifest_have,
  handle_manifest_want, handle_manifest_data, handle_content_have, handle_content_want,
  handle_content_data, handle_hole_punch, handle_mirror_punch, handle_find_node, add_valid,
  handle_nodes, handle_announce, handle_get_relays, handle_relay_list, dispatch, handle_packet,
}

add_contact-IsTable :
    (now : ℕ) (j : ContactJson) (rt : RoutingTable) → IsTable rt → IsTable (add_contact now j rt)
unfolding add_contact apply
add_contact-IsTable now j rt t = elim (Option-cases (parse_id j.id)) [
  | inl e ↦ rw (e, add_contact) t
  | inr (id, e) ↦ rw (e, add_contact) (apply-IsTable (adds _) rt t)
]

clear_suspect_by_addr-IsTable :
    (src : String) (n : Node) → IsTable n.rt → IsTable (clear_suspect_by_addr src n).rt
unfolding clear_suspect_by_addr apply
clear_suspect_by_addr-IsTable src n t = elim (Option-cases (lookup src n.pending_pings)) [
  | inl e ↦ rw (e, clear_suspect_by_addr) t
  | inr (id, e) ↦ rw (e, clear_suspect_by_addr) (apply-IsTable (resets id) n.rt t)
]

-- What happens to a node: a datagram at a time from an address, a ping, or a timeout.
pub data Event : Type 0 where
  receives : ℕ → String → Message → Event
  pings : String → Event
  times_out : String → NodeId → Event

module _ (env : Env) where
  add_valid-IsTable :
      (now : ℕ) (js : List ContactJson) (rt : RoutingTable)
      → IsTable rt
      → IsTable (add_valid env now js rt)
  unfolding add_valid
  add_valid-IsTable now [] rt t = t
  add_valid-IsTable now (j ∷ js) rt t = elim (Bool-cases (env.is_valid_contact_addr j.addr)) [
    | inl e ↦ rw e (add_valid-IsTable now js _ (add_contact-IsTable now j rt t))
    | inr e ↦ rw e (add_valid-IsTable now js rt t)
  ]

  handle_nodes-IsTable :
      (now : ℕ) (from : ContactJson) (js : List ContactJson) (n : Node)
      → IsTable n.rt
      → IsTable (handle_nodes env now from js n).0.rt
  unfolding handle_nodes
  handle_nodes-IsTable now from js n t =
      elim (Bool-cases (not (from.id == []) && env.is_valid_contact_addr from.addr)) [
        | inl e ↦ rw e (add_valid-IsTable now js _ (add_contact-IsTable now from n.rt t))
        | inr e ↦ rw e (add_valid-IsTable now js n.rt t)
      ]

  handle_find_node-IsTable :
      (now : ℕ) (src : String) (from : ContactJson) (target : Bytes) (n : Node)
      → IsTable n.rt
      → IsTable (handle_find_node env now src from target n).0.rt
  unfolding handle_find_node
  handle_find_node-IsTable now src from target n t = elim (Option-cases (parse_id target)) [
    | inl e ↦ rw (e, handle_find_node) t
    | inr (id, e) ↦ rw (e, handle_find_node) (add_contact-IsTable now from n.rt t)
  ]

  handle_announce-rt :
      (now : ℕ) (src : String) (e : RelayEntry) (n : Node)
      → (handle_announce env now src e n).0.rt ≡ n.rt
  unfolding handle_announce
  handle_announce-rt now src e n = elim (Bool-cases (store env.crypto (seconds now) e n.relays).1) [
    | inl h ↦ rw h refl
    | inr h ↦ rw h refl
  ]

  hole_punch-state : (p : Option (String × String)) (n : Node) → (handle_hole_punch p n).0 ≡ n
  unfolding handle_hole_punch
  hole_punch-state none n = refl
  hole_punch-state (some (peer, control)) n = ground arith

  mirror_punch-state : (p : Option String) (n : Node) → (handle_mirror_punch p n).0 ≡ n
  unfolding handle_mirror_punch
  mirror_punch-state none n = refl
  mirror_punch-state (some peer) n = ground arith

  have-state : (src : String) (ts : ℤ) (n : Node) → (handle_manifest_have src ts n).0 ≡ n
  unfolding handle_manifest_have
  have-state src ts n = ground arith

  manifest-state : (ts : ℤ) (raw : Bytes) (n : Node) → (handle_manifest_data ts raw n).0 ≡ n
  unfolding handle_manifest_data
  manifest-state ts raw n = ground arith

  content-state : (ts : ℤ) (raw : Bytes) (n : Node) → (handle_content_data ts raw n).0 ≡ n
  unfolding handle_content_data
  content-state ts raw n = ground arith

  dispatch-IsTable :
      (now : ℕ) (src : String) (m : Message) (n : Node)
      → IsTable n.rt
      → IsTable (dispatch env now src m n).0.rt
  unfolding dispatch handle_ping handle_get_relays handle_manifest_want handle_content_want
      handle_relay_list handle_content_have
  dispatch-IsTable now src ping n t = t
  dispatch-IsTable now src pong n t = t
  dispatch-IsTable now src ack n t = t
  dispatch-IsTable now src get_relays n t = t
  dispatch-IsTable now src manifest_want n t = t
  dispatch-IsTable now src content_want n t = t
  dispatch-IsTable now src unknown n t = t
  dispatch-IsTable now src malformed n t = t
  dispatch-IsTable now src (find_node from target) n t =
      handle_find_node-IsTable now src from target n t
  dispatch-IsTable now src (nodes from js) n t = handle_nodes-IsTable now from js n t
  dispatch-IsTable now src (announce e) n t = rw (handle_announce-rt now src e n) t
  dispatch-IsTable now src (relay_list es) n t = t
  dispatch-IsTable now src (manifest_have ts) n t = rw (have-state src ts n) t
  dispatch-IsTable now src (manifest ts raw) n t = rw (manifest-state ts raw n) t
  dispatch-IsTable now src (hole_punch p) n t = rw (hole_punch-state p n) t
  dispatch-IsTable now src (content_have ts complete) n t = t
  dispatch-IsTable now src (content ts raw) n t = rw (content-state ts raw n) t
  dispatch-IsTable now src (mirror_punch p) n t = rw (mirror_punch-state p n) t

  handle_packet-IsTable :
      (now : ℕ) (src : String) (m : Message) (n : Node)
      → IsTable n.rt
      → IsTable (handle_packet env now src m n).0.rt
  unfolding handle_packet
  handle_packet-IsTable now src m n t =
      dispatch-IsTable now src m _ (clear_suspect_by_addr-IsTable src n t)

  ping_addr-rt : (addr : String) (n : Node) → (ping_addr env addr n).0.rt ≡ n.rt
  unfolding ping_addr track
  ping_addr-rt addr n = elim (Option-cases (env.resolve addr)) [
    | inl e ↦ rw (e, ping_addr) refl
    | inr (dst, e) ↦
        elim (Option-cases (with_addr addr (closest env.sort n.id all_contacts n.rt))) [
          | inl f ↦ rw (e, ping_addr, f) refl
          | inr (c, f) ↦ rw (e, ping_addr, f) refl
        ]
  ]

  ping_timeout-IsTable :
      (addr : String) (id : NodeId) (n : Node) → IsTable n.rt → IsTable (ping_timeout addr id n).rt
  unfolding ping_timeout apply
  ping_timeout-IsTable addr id n t = elim (Option-cases (lookup addr n.pending_pings)) [
    | inl e ↦ rw (e, ping_timeout) t
    | inr (i, e) ↦ rw (e, ping_timeout) (apply-IsTable (misses id) n.rt t)
  ]

  unfoldable pub happen : Event → Node → Node
  unfolding handle_packet ping_addr ping_timeout
  happen (receives now src m) n = (handle_packet env now src m n).0
  happen (pings addr) n = (ping_addr env addr n).0
  happen (times_out addr id) n = ping_timeout addr id n

  unfoldable pub happen_all : List Event → Node → Node
  unfolding happen
  happen_all [] n = n
  happen_all (x ∷ xs) n = happen_all xs (happen x n)

  happen-IsTable : (x : Event) (n : Node) → IsTable n.rt → IsTable (happen x n).rt
  unfolding happen
  happen-IsTable (receives now src m) n t = handle_packet-IsTable now src m n t
  happen-IsTable (pings addr) n t = rw (ping_addr-rt addr n) t
  happen-IsTable (times_out addr id) n t = ping_timeout-IsTable addr id n t

  happen_all-IsTable : (xs : List Event) (n : Node) → IsTable n.rt → IsTable (happen_all xs n).rt
  unfolding happen_all
  happen_all-IsTable [] n t = t
  happen_all-IsTable (x ∷ xs) n t = happen_all-IsTable xs (happen x n) (happen-IsTable x n t)

-- Whatever datagrams a new node receives, whatever it pings and whichever pings run out, its routing
-- table keeps its shape: at most eight different contacts a bucket, each in the bucket of its
-- distance, and never the node itself.
pub node-IsTable_sound :
    (env : Env) (id : NodeId) (local : String) (xs : List Event)
    → IsTable (happen_all env xs (new_node id local)).rt
unfolding new_node
node-IsTable_sound env id local xs =
    happen_all-IsTable env xs (new_node id local) (new_routing_table-IsTable id)
