-- ===== src/Dht/Node/Gossip.antt =====
-- dht/dht_node.go and dht/dht_content.go: how a manifest travels between two nodes, and what the index
-- of complete peers answers.
use tunnelcat_server.Base.{
  string_eq, list_eq, nat_eq, ℕ, Option, none, some, ◌≡◌, refl, not, List, [], ◌∷◌, ◌++◌, String,
  ◌==◌, ◌&&◌, if◌then◌else◌, arith, beq_refl, append-nil, Bool-cases, Option-cases, inl, inr,
}
use tunnelcat_server.Base.Bytes.{Bytes}
use tunnelcat_server.Base.Int.{ℤ, leb_ℤ, ltb_ℤ}
use tunnelcat_server.Base.Map.{lookup}
use tunnelcat_server.Dht.Node.State.{
  Message, manifest_have, manifest_want, manifest, Effect, send, on_manifest, Node, Env,
}
use tunnelcat_server.Dht.Node.Handlers.{
  clear_suspect_by_addr, offer, handle_manifest_have, handle_manifest_want, handle_manifest_data,
  dispatch, handle_packet,
}

-- The datagrams for one address, each handled in turn.
unfoldable pub deliver : Env → ℕ → String → String → List Effect → Node → Node × List Effect
unfolding handle_packet
deliver env now src me [] n = (n, [])
deliver env now src me (send dst m ∷ es) n =
    if dst == me
    then (let (n', out) = handle_packet env now src m n in
        let (n'', more) = deliver env now src me es n' in (n'', out ++ more))
    else deliver env now src me es n
deliver env now src me (_ ∷ es) n = deliver env now src me es n

-- Node `a` tells node `b` of its manifest; the answers go back and forth. The result is what the last
-- datagram makes `b` do.
unfoldable pub exchange : Env → ℕ → String → String → Node → Node → List Effect
unfolding deliver
exchange env now at_a at_b a b =
    let first = handle_packet env now at_a (manifest_have a.manifest_ts) b in
    let second = deliver env now at_b at_a first.1 a in
    (deliver env now at_a at_b second.1 first.0).1

cleared-manifest :
    (src : String) (n : Node)
    → ((clear_suspect_by_addr src n).manifest_ts ≡ n.manifest_ts)
      × ((clear_suspect_by_addr src n).manifest_raw ≡ n.manifest_raw)
      × ((clear_suspect_by_addr src n).has_on_manifest ≡ n.has_on_manifest)
unfolding clear_suspect_by_addr
cleared-manifest src n = elim (Option-cases (lookup src n.pending_pings)) [
  | inl e ↦ rw (e, clear_suspect_by_addr) (refl, refl, refl)
  | inr (id, e) ↦ rw (e, clear_suspect_by_addr) (refl, refl, refl)
]

-- The callback, with the bytes that have come through.
abbrev pub handed : Option Bytes → List Effect
handed none = []
handed (some raw) = on_manifest raw ∷ []

-- What `b` does in the end.
abbrev pub passed_on : Env → Node → Node → List Effect
passed_on env a b =
    if ltb_ℤ b.manifest_ts a.manifest_ts && (not (a.manifest_raw == []) && b.has_on_manifest)
    then handed (env.raw_json a.manifest_raw)
    else []

data_effects :
    (env : Env) (now : ℕ) (src : String) (ts : ℤ) (raw : Bytes) (n : Node)
    → (handle_packet env now src (manifest ts raw) n).1 ≡ (
        if leb_ℤ ts n.manifest_ts
        then []
        else if n.has_on_manifest
        then on_manifest raw ∷ []
        else [])
unfolding handle_packet dispatch handle_manifest_data
data_effects env now src ts raw n =
    let (t, _, h) = cleared-manifest src n in rw (t, h) (ground arith)

want_effects :
    (env : Env) (now : ℕ) (src : String) (n : Node)
    → (handle_packet env now src manifest_want n).1
      ≡ offer src (manifest n.manifest_ts) (env.raw_json n.manifest_raw) n.manifest_raw
unfolding handle_packet dispatch handle_manifest_want
want_effects env now src n = let (t, r, _) = cleared-manifest src n in rw (t, r) refl

have_effects :
    (env : Env) (now : ℕ) (src : String) (ts : ℤ) (n : Node)
    → (handle_packet env now src (manifest_have ts) n).1
      ≡ (if ltb_ℤ n.manifest_ts ts then send src manifest_want ∷ [] else [])
unfolding handle_packet dispatch handle_manifest_have
have_effects env now src ts n = let (t, _, _) = cleared-manifest src n in rw t (ground arith)

have_state :
    (env : Env) (now : ℕ) (src : String) (ts : ℤ) (n : Node)
    → (handle_packet env now src (manifest_have ts) n).0 ≡ clear_suspect_by_addr src n
unfolding handle_packet dispatch handle_manifest_have
have_state env now src ts n = ground arith

deliver_one :
    (env : Env) (now : ℕ) (src me : String) (m : Message) (n : Node)
    → (deliver env now src me (send me m ∷ []) n).1 ≡ (handle_packet env now src m n).1
unfolding deliver
deliver_one env now src me m n = rw (beq_refl me, append-nil) refl

-- A node's offer, answered by the other.
offer_effects :
    (env : Env) (now : ℕ) (at_a at_b : String) (ts : ℤ) (encoded : Option Bytes) (raw : Bytes)
    (b : Node)
    → (deliver env now at_a at_b (offer at_b (manifest ts) encoded raw) b).1 ≡ (
        if leb_ℤ ts b.manifest_ts
        then []
        else if not (raw == []) && b.has_on_manifest
        then handed encoded
        else [])
unfolding deliver
offer_effects env now at_a at_b ts encoded [] b = ground arith
offer_effects env now at_a at_b ts none (x ∷ raw) b = ground arith
offer_effects env now at_a at_b ts (some out) (x ∷ raw) b =
    rw (deliver_one env now at_a at_b (manifest ts out) b)
      (rw (data_effects env now at_a ts out b) (ground arith))

-- The gossip of any two nodes, from the advertisement on, makes the second hand the first's manifest to its
-- callback, once and as the JSON encoding of a raw message leaves it, if that manifest is newer than
-- its own and not empty, a callback is registered, and the manifest is JSON at all; else it does
-- nothing with it.
pub exchange_passes_on :
    (env : Env) (now : ℕ) (at_a at_b : String) (a b : Node)
    → exchange env now at_a at_b a b ≡ passed_on env a b
unfolding exchange
exchange_passes_on env now at_a at_b a b =
    let (t, _, h) = cleared-manifest at_a b in
    rw
      (have_effects env now at_a a.manifest_ts b, have_state env now at_a a.manifest_ts b, exchange)
      (elim (Bool-cases (ltb_ℤ b.manifest_ts a.manifest_ts)) [
        | inl e ↦
            rw (e, deliver_one env now at_b at_a manifest_want a, want_effects env now at_b a)
              (rw
                (offer_effects env now at_a at_b a.manifest_ts (env.raw_json a.manifest_raw)
                  a.manifest_raw (clear_suspect_by_addr at_a b))
                (rw (t, h) (ground arith)))
        | inr e ↦ rw e (ground arith)
      ])
