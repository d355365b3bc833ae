-- ===== src/Dht/Relays/Store.antt =====
-- What the relay store holds, whatever is stored and when.
use tunnelcat_server.Base.{
  nat_eq, list_eq, ℕ, ◌+◌, ◌≤◌, ◌≡◌, refl, ap, true, not, List, [], ◌∷◌, some, arith, All, ◌==◌,
  Bool-cases, inl, inr, map, keep, Eq, ◌||◌,
}
use tunnelcat_server.Base.Bytes.{Bytes}
use tunnelcat_server.Base.Int.{◌≤ℤ◌, pos_part, neg_part}
use tunnelcat_server.Base.Map.{Map, lookup, insert, delete, IsMap, insert-IsMap, lookup-insert}
use tunnelcat_server.Dht.Relays.{
  RelayEntry, Crypto, RelayStore, new_relay_store, is_old, is_early, is_newer, verify_relay_entry,
  store, all, relay_ttl,
}

abbrev text_eq : Eq Bytes
text_eq = list_eq

module _ (x : Crypto) where
  -- Every entry carries a good signature and stands under its own identifier.
  abbrev pub AreVerified : Map Bytes RelayEntry → Type 0
  AreVerified m = All (λ r. (verify_relay_entry x r.1 ≡ true) × (r.0 ≡ r.1.node_id)) m

  delete-AreVerified :
      (k : Bytes) (m : Map Bytes RelayEntry) → AreVerified m → AreVerified (delete k m)
  unfolding delete
  delete-AreVerified k [] h = tt
  delete-AreVerified k (r ∷ m) h = ground (arith, delete-AreVerified k m h.1)

  pub record IsStore (s : RelayStore) : Type 0 where
    pub unique : IsMap s.entries
    pub verified : AreVerified s.entries

  pub store-IsStore :
      (now : ℕ) (e : RelayEntry) (s : RelayStore) → IsStore s → IsStore (store x now e s).0
  unfolding store
  store-IsStore now e s v = elim (Bool-cases (verify_relay_entry x e)) [
    | inr bad ↦ rw bad v
    | inl good ↦ rw good (elim (Bool-cases (is_old now e || is_early now e)) [
      | inl stale ↦ rw stale v
      | inr fresh ↦ rw fresh (elim (Bool-cases (is_newer e (lookup e.node_id s.entries))) [
        | inl newer ↦ rw newer (record {
          unique = insert-IsMap e.node_id e s.entries v.unique;
          verified =
              unfold insert in ((good, refl), delete-AreVerified e.node_id s.entries v.verified);
        })
        | inr older ↦ rw older v
      ])
    ])
  ]

  -- A call to `store` with the time of the call.
  unfoldable pub stores : List (ℕ × RelayEntry) → RelayStore → RelayStore
  stores [] s = s
  stores ((now, e) ∷ cs) s = stores cs (store x now e s).0

  stores-IsStore : (cs : List (ℕ × RelayEntry)) (s : RelayStore) → IsStore s → IsStore (stores cs s)
  unfolding stores
  stores-IsStore [] s v = v
  stores-IsStore ((now, e) ∷ cs) s v =
      stores-IsStore cs (store x now e s).0 (store-IsStore now e s v)

  listed-All :
      (now : ℕ) (m : Map Bytes RelayEntry)
      → AreVerified m
      → All
          (λ e. (verify_relay_entry x e ≡ true) × (now + neg_part e.ts ≤ relay_ttl + pos_part e.ts))
          (keep (λ e. not (is_old now e)) (map (λ r. r.1) m))
  listed-All now [] h = tt
  listed-All now ((k, e) ∷ m) h = ground (arith, listed-All now m h.1)

  -- Whatever was stored before, and whenever, each entry that the store lists at time `now` has a
  -- valid signature and is at most two minutes old.
  pub all-verified :
      (cs : List (ℕ × RelayEntry)) (now : ℕ)
      → All
          (λ e. (verify_relay_entry x e ≡ true) × (now + neg_part e.ts ≤ relay_ttl + pos_part e.ts))
          (all now (stores cs new_relay_store))
  unfolding all
  all-verified cs now =
      listed-All now (stores cs new_relay_store).entries
        (stores-IsStore cs new_relay_store (record { unique = tt; verified = tt })).verified

  store_keeps :
      (now : ℕ) (id : Bytes) (d e : RelayEntry) (s : RelayStore)
      → lookup id s.entries ≡ some d
      → (d' : RelayEntry) × (lookup id (store x now e s).0.entries ≡ some d') × (d.ts ≤ℤ d'.ts)
  unfolding store
  store_keeps now id d e s h = elim (Bool-cases (verify_relay_entry x e)) [
    | inr bad ↦ rw bad (d, h, omega arith)
    | inl good ↦ rw good (elim (Bool-cases (is_old now e || is_early now e)) [
      | inl stale ↦ rw stale (d, h, omega arith)
      | inr fresh ↦ rw fresh (elim (Bool-cases (is_newer e (lookup e.node_id s.entries))) [
        | inr older ↦ rw older (d, h, omega arith)
        | inl newer ↦ rw newer (elim (Bool-cases (e.node_id == id)) [
          | inl same ↦
              let k = (text_eq.beq_iff e.node_id id).0 same in
              (
                e,
                ground (arith, lookup-insert e.node_id id e s.entries),
                ground (arith, ap (λ (j : Bytes). lookup j s.entries) k),
              )
          | inr other ↦ (d, ground (arith, lookup-insert e.node_id id e s.entries), omega arith)
        ])
      ])
    ])
  ]

  -- Once the store has an entry for a node it always has one, and its time stamp never falls.
  pub stores_monotone :
      (cs : List (ℕ × RelayEntry)) (id : Bytes) (d : RelayEntry) (s : RelayStore)
      → lookup id s.entries ≡ some d
      → (d' : RelayEntry) × (lookup id (stores cs s).entries ≡ some d') × (d.ts ≤ℤ d'.ts)
  unfolding stores
  stores_monotone [] id d s h = (d, h, omega arith)
  stores_monotone ((now, e) ∷ cs) id d s h =
      let (d1, h1, le1) = store_keeps now id d e s h in
      let (d2, h2, le2) = stores_monotone cs id d1 (store x now e s).0 h1 in (d2, h2, omega arith)
