-- ===== src/Dht/Node/State.antt =====
-- dht/dht_node.go, dht/dht_content.go: the node's state, its messages, and what it
-- does to the outside. A message is the decoded payload; `malformed` is one that does not decode.
-- Addresses are compared as texts. Sealing stands in Dht/Wire; JSON and the socket are not modelled:
-- a `send` is a datagram on its way. Times are nanoseconds.
use tunnelcat_server.Base.{
  string_eq, ℕ, ◌+◌, Bool, false, List, [], ◌∷◌, Option, none, some, String, ltb, ◌==◌, ◌&&◌,
  if◌then◌else◌,
}
use tunnelcat_server.Base.Bytes.{Bytes}
use tunnelcat_server.Base.Int.{ℤ, pos, ltb_ℤ, eqb_ℤ}
use tunnelcat_server.Base.Map.{Map, insert}
use tunnelcat_server.Dht.Id.{NodeId, parse_id, encode_hex}
use tunnelcat_server.Dht.Table.{Contact, RoutingTable, Sorter, new_routing_table}
use tunnelcat_server.Dht.Relays.{RelayEntry, RelayStore, Crypto, new_relay_store}

pub record ContactJson : Type 0 where
  pub id : Bytes
  pub addr : String

pub data Message : Type 0 where
  ping pong ack get_relays manifest_want content_want unknown malformed : Message
  find_node : ContactJson → Bytes → Message
  nodes : ContactJson → List ContactJson → Message
  announce : RelayEntry → Message
  relay_list : List RelayEntry → Message
  manifest_have : ℤ → Message
  manifest : ℤ → Bytes → Message
  -- the peer and the control, or an empty payload
  hole_punch : Option (String × String) → Message
  content_have : ℤ → Bool → Message
  content : ℤ → Bytes → Message
  mirror_punch : Option String → Message

pub data Effect : Type 0 where
  send : String → Message → Effect
  on_manifest on_content : Bytes → Effect
  punch : String → String → Effect
  mirror : String → Effect

pub record CompletePeerEntry : Type 0 where
  pub ts : ℤ
  pub complete : Bool
  pub last_seen : ℕ

-- The callbacks are flags: whether one is registered.
pub record Node : Type 0 where
  pub id : NodeId
  pub own_addr : String
  pub local_addr : String
  pub rt : RoutingTable
  pub relays : RelayStore
  pub own_entry : Option RelayEntry
  pub pending_pings : Map String NodeId
  pub manifest_raw : Bytes
  pub manifest_ts : ℤ
  pub has_on_manifest : Bool
  pub content_raw : Bytes
  pub content_ts : ℤ
  pub content_complete : Bool
  pub has_on_content : Bool
  pub complete_peers : Map String CompletePeerEntry
  pub has_hole_punch : Bool
  pub has_mirror_punch : Bool

unfoldable pub new_node : NodeId → String → Node
new_node id local = record {
  id = id;
  own_addr = "";
  local_addr = local;
  rt = new_routing_table id;
  relays = new_relay_store;
  own_entry = none;
  pending_pings = [];
  manifest_raw = [];
  manifest_ts = pos 0;
  has_on_manifest = false;
  content_raw = [];
  content_ts = pos 0;
  content_complete = false;
  has_on_content = false;
  complete_peers = [];
  has_hole_punch = false;
  has_mirror_punch = false;
}

-- What the node uses of other packages.
pub record Env : Type 0 where
  pub sort : Sorter
  pub crypto : Crypto
  -- `isValidContactAddr`, which asks package net
  pub is_valid_contact_addr : String → Bool
  -- `net.ResolveUDPAddr`
  pub resolve : String → Option String
  -- What a peer decodes of bytes that `json.Marshal` has put into a message as a `json.RawMessage`: they
  -- are compacted and escaped; `none` is the error for bytes that are no JSON.
  pub raw_json : Bytes → Option Bytes

abbrev pub self_addr : Node → String
self_addr n = if n.own_addr == "" then n.local_addr else n.own_addr

abbrev pub contact_to_json : Contact → ContactJson
contact_to_json c = record { id = encode_hex c.id; addr = c.addr }

-- `none` is the error.
abbrev pub contact_from_json : ℕ → ContactJson → Option Contact
contact_from_json now j = elim (parse_id j.id) [
  | none ↦ none
  | some id ↦
      some (record { id = id; addr = j.addr; last_seen = now; missed_pings = 0; suspect = false })
]

abbrev pub own_contact : Node → ContactJson
own_contact n = record { id = encode_hex n.id; addr = self_addr n }

unfoldable pub set_manifest : Bytes → ℤ → Node → Node
set_manifest raw ts n =
    if ltb_ℤ n.manifest_ts ts then record n { manifest_raw = raw; manifest_ts = ts } else n

unfoldable pub set_content : Bytes → ℤ → Node → Node
set_content raw ts n =
    if ltb_ℤ n.content_ts ts
    then record n { content_raw = raw; content_ts = ts; content_complete = false }
    else n

unfoldable pub set_content_complete : ℤ → Bool → Node → Node
set_content_complete ts complete n =
    if eqb_ℤ ts n.content_ts then record n { content_complete = complete } else n

-- `completeStore.record`
unfoldable pub record_peer : ℕ → String → ℤ → Bool → Node → Node
record_peer now addr ts complete n = record n {
  complete_peers =
      insert addr (record { ts = ts; complete = complete; last_seen = now }) n.complete_peers;
}

-- `e.lastSeen.After(now - RelayTTL)`
unfoldable pub is_complete_for : ℕ → ℤ → CompletePeerEntry → Bool
is_complete_for now ts e = e.complete && (eqb_ℤ e.ts ts && ltb now (e.last_seen + 120_000_000_000))

unfoldable pub peers_for : ℕ → ℤ → Map String CompletePeerEntry → List String
peers_for now ts [] = []
peers_for now ts ((addr, e) ∷ m) =
    let rest = peers_for now ts m in if is_complete_for now ts e then addr ∷ rest else rest
