-- ===== src/Dht/Node/Index.antt =====
-- dht/dht_content.go: the index of the peers that have a version in full.
use tunnelcat_server.Base.{
  string_eq, ℕ, ◌+◌, ◌≡◌, refl, ap, subst, ◌∙◌, Bool, false, List, [], ◌∷◌, Option, none, some,
  String, ◌==◌, ◌&&◌, ◌||◌, if◌then◌else◌, Bool-cases, inl, inr, ltb,
}
use tunnelcat_server.Base.Int.{ℤ, eqb_ℤ}
use tunnelcat_server.Base.Map.{Map, IsMap, lookup, insert, lookup-insert, insert-IsMap}
use tunnelcat_server.Dht.Node.State.{
  Node, CompletePeerEntry, is_complete_for, peers_for, record_peer,
}
use tunnelcat_server.Dht.Node.Handlers.{handle_content_have}

unfoldable pub is_listed : String → List String → Bool
is_listed addr [] = false
is_listed addr (a ∷ more) = a == addr || is_listed addr more

-- What the entry of an address says.
abbrev pub counts : ℕ → ℤ → Option CompletePeerEntry → Bool
counts now ts none = false
counts now ts (some e) = is_complete_for now ts e

is_listed-peers_for :
    (now : ℕ) (ts : ℤ) (addr : String) (m : Map String CompletePeerEntry)
    → IsMap m
    → is_listed addr (peers_for now ts m) ≡ counts now ts (lookup addr m)
unfolding is_listed peers_for lookup
is_listed-peers_for now ts addr [] h = refl
is_listed-peers_for now ts addr ((a, e) ∷ m) h =
    let ih = is_listed-peers_for now ts addr m h.1 in
    elim (Bool-cases (a == addr)) [
      | inl p ↦ elim (Bool-cases (is_complete_for now ts e)) [
        | inl q ↦ rw (p, q) (rw p refl)
        | inr q ↦
            rw (p, q)
              (ih
                ∙ ap (counts now ts)
                    (subst (λ k. lookup k m ≡ none) ((string_eq.beq_iff a addr).0 p) h.0))
      ]
      | inr p ↦ elim (Bool-cases (is_complete_for now ts e)) [
        | inl q ↦ rw (q, p, ih) refl
        | inr q ↦ rw (q, p, ih) refl
      ]
    ]

-- In an index with one entry an address: after an advertisement from a peer, the peer counts as complete for a version exactly if the
-- advertisement says so of that version and is less than 120 seconds old; what the index says of any
-- other peer stays.
pub peers_for-handle_content_have :
    (now later : ℕ) (src other : String) (ts version : ℤ) (complete : Bool) (n : Node)
    → IsMap n.complete_peers
    → let after = (handle_content_have now src ts complete n).0 in
      is_listed other (peers_for later version after.complete_peers) ≡ (
        if src == other
        then complete && (eqb_ℤ ts version && ltb later (now + 120_000_000_000))
        else is_listed other (peers_for later version n.complete_peers))
unfolding handle_content_have record_peer is_complete_for
peers_for-handle_content_have now later src other ts version complete n h =
    let e : CompletePeerEntry = record { ts = ts; complete = complete; last_seen = now } in
    rw
      (
        is_listed-peers_for later version other (insert src e n.complete_peers)
            (insert-IsMap src e n.complete_peers h),
        is_listed-peers_for later version other n.complete_peers h,
        lookup-insert src other e n.complete_peers,
      )
      (elim (Bool-cases (src == other)) [ inl p ↦ rw p refl | inr p ↦ rw p refl ])
