-- ===== src/Dht/Node/Handlers.antt =====
-- dht/dht_node.go and dht/dht_content.go: `handlePacket` and the message handlers. A handler gives
-- the node's new state and its effects, in order. `learnContact` does nothing in the source.
use tunnelcat_server.Base.{
  string_eq, list_eq, nat_eq, ℕ, ◌/◌, Bool, not, List, [], ◌∷◌, Option, none, some, String, ◌==◌,
  ◌&&◌, if◌then◌else◌, map,
}
use tunnelcat_server.Base.Bytes.{Bytes}
use tunnelcat_server.Base.Int.{ℤ, ltb_ℤ, leb_ℤ}
use tunnelcat_server.Base.Map.{lookup, delete}
use tunnelcat_server.Dht.Id.{parse_id}
use tunnelcat_server.Dht.Table.{RoutingTable, k_max, rt_add, rt_reset_missed, closest}
use tunnelcat_server.Dht.Relays.{RelayEntry, store, store_each, all}
use tunnelcat_server.Dht.Node.State.{
  ContactJson, Message, ping, pong, ack, get_relays, manifest_want, content_want, unknown,
  malformed, find_node, nodes, announce, relay_list, manifest_have, manifest, hole_punch,
  content_have, content, mirror_punch, Effect, send, on_manifest, on_content, punch, mirror, Node,
  Env, self_addr, contact_to_json, contact_from_json, own_contact, record_peer,
}

abbrev pub seconds : ℕ → ℕ
seconds now = now / 1_000_000_000

-- A reply's effects on an unchanged node.
abbrev pub quiet : Node → Node × List Effect
quiet n = (n, [])

-- `if c, err := ContactFromJSON(j); err == nil { n.rt.Add(c) }`
unfoldable pub add_contact : ℕ → ContactJson → RoutingTable → RoutingTable
add_contact now j rt = elim (contact_from_json now j) [ none ↦ rt | some c ↦ rt_add c rt ]

unfoldable pub clear_suspect_by_addr : String → Node → Node
clear_suspect_by_addr src n = elim (lookup src n.pending_pings) [
  | none ↦ n
  | some id ↦ record n { pending_pings = delete src n.pending_pings; rt = rt_reset_missed id n.rt }
]

unfoldable pub handle_ping : String → Node → Node × List Effect
handle_ping src n = (n, send src pong ∷ [])

unfoldable pub handle_manifest_have : String → ℤ → Node → Node × List Effect
handle_manifest_have src ts n =
    if ltb_ℤ n.manifest_ts ts then (n, send src manifest_want ∷ []) else quiet n

-- The manifest that is sent, if there is one, and if it can be put into a message.
abbrev pub offer : String → (Bytes → Message) → Option Bytes → Bytes → List Effect
offer src m encoded [] = []
offer src m none (b ∷ bs) = []
offer src m (some raw) (b ∷ bs) = send src (m raw) ∷ []

unfoldable pub handle_manifest_want : (Bytes → Option Bytes) → String → Node → Node × List Effect
handle_manifest_want raw_json src n =
    (n, offer src (manifest n.manifest_ts) (raw_json n.manifest_raw) n.manifest_raw)

unfoldable pub handle_manifest_data : ℤ → Bytes → Node → Node × List Effect
handle_manifest_data ts raw n =
    if leb_ℤ ts n.manifest_ts
    then quiet n
    else if n.has_on_manifest
    then (n, on_manifest raw ∷ [])
    else quiet n

unfoldable pub handle_content_have : ℕ → String → ℤ → Bool → Node → Node × List Effect
unfolding record_peer
handle_content_have now src ts complete n = (
  record_peer now src ts complete n,
  (if ltb_ℤ n.content_ts ts then send src content_want ∷ [] else []),
)

unfoldable pub handle_content_want : (Bytes → Option Bytes) → String → Node → Node × List Effect
handle_content_want raw_json src n =
    (n, offer src (content n.content_ts) (raw_json n.content_raw) n.content_raw)

unfoldable pub handle_content_data : ℤ → Bytes → Node → Node × List Effect
handle_content_data ts raw n =
    if leb_ℤ ts n.content_ts
    then quiet n
    else if n.has_on_content
    then (n, on_content raw ∷ [])
    else quiet n

unfoldable pub handle_hole_punch : Option (String × String) → Node → Node × List Effect
handle_hole_punch none n = quiet n
handle_hole_punch (some (peer, control)) n =
    if peer == ""
    then quiet n
    else if not n.has_hole_punch
    then quiet n
    else if not (control == "") && control == self_addr n
    then quiet n
    else (n, punch peer control ∷ [])

unfoldable pub handle_mirror_punch : Option String → Node → Node × List Effect
handle_mirror_punch none n = quiet n
handle_mirror_punch (some peer) n =
    if peer == ""
    then quiet n
    else if not n.has_mirror_punch
    then quiet n
    else (n, mirror peer ∷ [])

module _ (env : Env) where
  unfoldable pub handle_find_node : ℕ → String → ContactJson → Bytes → Node → Node × List Effect
  unfolding add_contact
  handle_find_node now src from target_text n = elim (parse_id target_text) [
    | none ↦ quiet n
    | some target ↦
        let rt = add_contact now from n.rt in
        (
          record n { rt = rt },
          send src (nodes (own_contact n) (map contact_to_json (closest env.sort target k_max rt)))
              ∷ [],
        )
  ]

  -- The loop over the contacts of a reply.
  unfoldable pub add_valid : ℕ → List ContactJson → RoutingTable → RoutingTable
  unfolding add_contact
  add_valid now [] rt = rt
  add_valid now (j ∷ js) rt =
      add_valid now js (if env.is_valid_contact_addr j.addr then add_contact now j rt else rt)

  unfoldable pub handle_nodes : ℕ → ContactJson → List ContactJson → Node → Node × List Effect
  unfolding add_valid
  handle_nodes now from js n =
      let rt =
        (if not (from.id == []) && env.is_valid_contact_addr from.addr
          then add_contact now from n.rt
          else n.rt) in
      quiet (record n { rt = add_valid now js rt })

  unfoldable pub handle_announce : ℕ → String → RelayEntry → Node → Node × List Effect
  handle_announce now src e n =
      let r = store env.crypto (seconds now) e n.relays in
      (if r.1 then (record n { relays = r.0 }, send src ack ∷ []) else quiet n)

  unfoldable pub handle_get_relays : ℕ → String → Node → Node × List Effect
  handle_get_relays now src n = (n, send src (relay_list (all (seconds now) n.relays)) ∷ [])

  unfoldable pub handle_relay_list : ℕ → List RelayEntry → Node → Node × List Effect
  handle_relay_list now es n =
      quiet (record n { relays = store_each env.crypto (seconds now) es n.relays })

  -- The switch of `handlePacket`.
  unfoldable pub dispatch : ℕ → String → Message → Node → Node × List Effect
  dispatch now src ping n = handle_ping src n
  dispatch now src pong n = quiet n
  dispatch now src ack n = quiet n
  dispatch now src get_relays n = handle_get_relays now src n
  dispatch now src manifest_want n = handle_manifest_want env.raw_json src n
  dispatch now src content_want n = handle_content_want env.raw_json src n
  dispatch now src unknown n = quiet n
  dispatch now src malformed n = quiet n
  dispatch now src (find_node from target) n = handle_find_node now src from target n
  dispatch now src (nodes from js) n = handle_nodes now from js n
  dispatch now src (announce e) n = handle_announce now src e n
  dispatch now src (relay_list es) n = handle_relay_list now es n
  dispatch now src (manifest_have ts) n = handle_manifest_have src ts n
  dispatch now src (manifest ts raw) n = handle_manifest_data ts raw n
  dispatch now src (hole_punch p) n = handle_hole_punch p n
  dispatch now src (content_have ts complete) n = handle_content_have now src ts complete n
  dispatch now src (content ts raw) n = handle_content_data ts raw n
  dispatch now src (mirror_punch p) n = handle_mirror_punch p n

  -- A datagram that opens.
  unfoldable pub handle_packet : ℕ → String → Message → Node → Node × List Effect
  handle_packet now src m n = dispatch now src m (clear_suspect_by_addr src n)
