-- ===== src/Dht/Relays.antt =====
-- dht/dht.go: relay entries and their signatures; dht/dht_node.go: the relay store.
-- `base64`, `ed25519` and `fmt`'s decimal numbers are parameters. Times are Unix seconds; `now` is not
-- negative. `now - e.TS` is compared as an integer: where the int64 difference would wrap, at a `TS`
-- of about -2^63, both readings refuse the entry.
pub mod Payload
pub mod Store
use tunnelcat_server.Base.{
  string_eq, nat_eq, list_eq, ℕ, ◌+◌, Bool, true, false, not, List, [], ◌∷◌, ◌++◌, Option, none,
  some, ltb, eqb, ◌==◌, ◌||◌, if◌then◌else◌, length, keep, map,
}
use tunnelcat_server.Base.Bytes.{Bytes}
use tunnelcat_server.Base.Int.{ℤ, pos_part, neg_part, leb_ℤ}
use tunnelcat_server.Base.Map.{Map, lookup, insert}
use tunnelcat_server.Dht.Id.{decode_hex}

pub record RelayEntry : Type 0 where
  pub node_id : Bytes
  pub addr : Bytes
  pub country_code : Bytes
  pub ts : ℤ
  pub sig : Bytes

-- `RelayTTL` in seconds.
abbrev pub relay_ttl : ℕ
relay_ttl = 120

-- What `VerifyRelayEntry` uses of other packages.
pub record Crypto : Type 0 where
  pub decimal : ℤ → Bytes
  pub base64_decode : Bytes → Option Bytes
  -- key, message, signature
  pub ed25519_verify : Bytes → Bytes → Bytes → Bool

abbrev pub bar : Bytes
bar = b'|' ∷ []

pub record RelayStore : Type 0 where
  pub entries : Map Bytes RelayEntry

abbrev pub new_relay_store : RelayStore
new_relay_store = record { entries = [] }

-- `now - ts > ttl`
abbrev pub is_old : ℕ → RelayEntry → Bool
is_old now e = ltb (relay_ttl + pos_part e.ts) (now + neg_part e.ts)

-- `now - ts < -ttl`
abbrev pub is_early : ℕ → RelayEntry → Bool
is_early now e = ltb (now + relay_ttl + neg_part e.ts) (pos_part e.ts)

abbrev pub is_newer : RelayEntry → Option RelayEntry → Bool
is_newer e none = true
is_newer e (some existing) = not (leb_ℤ e.ts existing.ts)

unfoldable pub all : ℕ → RelayStore → List RelayEntry
all now s = keep (λ e. not (is_old now e)) (map (λ r. r.1) s.entries)

module _ (x : Crypto) where
  unfoldable pub relay_entry_payload : RelayEntry → Bytes
  relay_entry_payload e =
      e.node_id ++ (bar ++ (e.addr ++ (bar ++ (e.country_code ++ (bar ++ x.decimal e.ts)))))

  -- The checks of `VerifyRelayEntry` on the identifier, the signature and the signed bytes.
  unfoldable pub verify_signed : Bytes → Bytes → Bytes → Bool
  verify_signed node_id sig_text payload =
      if not (eqb (length node_id) 64) then false else elim (decode_hex node_id) [
        | none ↦ false
        | some key ↦ elim (x.base64_decode sig_text) [
          | none ↦ false
          | some sig ↦ if not (eqb (length sig) 64) then false else x.ed25519_verify key payload sig
        ]
      ]

  -- `true` is the nil error.
  unfoldable pub verify_relay_entry : RelayEntry → Bool
  unfolding verify_signed relay_entry_payload
  verify_relay_entry e = verify_signed e.node_id e.sig (relay_entry_payload e)

  -- The new store, and whether the error is nil.
  unfoldable pub store : ℕ → RelayEntry → RelayStore → RelayStore × Bool
  store now e s =
      if not (verify_relay_entry e)
      then (s, false)
      else if is_old now e || is_early now e
      then (s, false)
      else if is_newer e (lookup e.node_id s.entries)
      then (record { entries = insert e.node_id e s.entries }, true)
      else (s, true)

  unfoldable pub store_each : ℕ → List RelayEntry → RelayStore → RelayStore
  unfolding store
  store_each now [] s = s
  store_each now (e ∷ es) s = store_each now es (store now e s).0
