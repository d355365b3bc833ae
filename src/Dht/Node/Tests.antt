-- ===== src/Dht/Node/Tests.antt =====
-- Runs of the relay store and of the node, and their theorems at concrete inputs.
use tunnelcat_server.Base.{
  string_eq, nat_eq, list_eq, ℕ, List, false, ◌++◌, ◌==◌, ◌+◌, ◌≤◌, ◌≡◌, refl, true, not, eqb, keep,
  [], ◌∷◌, some, arith, All,
}
use tunnelcat_server.Base.Bytes.{Bytes, codes}
use tunnelcat_server.Base.Int.{ℤ, pos, negsuc, pos_part, neg_part}
use tunnelcat_server.Dht.Table.{Contact, rt_all, suspect_contacts}
use tunnelcat_server.Dht.Table.Invariant.{IsTable}
use tunnelcat_server.Dht.Relays.{
  RelayEntry, Crypto, relay_ttl, new_relay_store, verify_relay_entry, all, store,
}
use tunnelcat_server.Base.Map.{lookup, insert}
use tunnelcat_server.Dht.Id.{decode_hex}
use tunnelcat_server.Dht.Relays.Store.{stores, all-verified}
use tunnelcat_server.Dht.Node.State.{nodes, on_manifest, Node, Env, new_node, own_contact}
use tunnelcat_server.Dht.Node.Active.{reprobe_suspects}
use tunnelcat_server.Dht.Node.Contacts.{receives, pings, times_out, happen_all, node-IsTable_sound}
use tunnelcat_server.Dht.Node.Gossip.{exchange, exchange_passes_on}
use tunnelcat_server.Dht.Node.Suspects.{AreAlone, reprobe_suspects_untracked}
use tunnelcat_server.Dht.Tests.{sort_by, sort_by-IsSorter, ident}

-- A sign and a number in one digit each.
abbrev short_decimal : ℤ → Bytes
short_decimal (pos n) = 0 ∷ n ∷ []
short_decimal (negsuc n) = 1 ∷ n ∷ []

short_decimal_injective : (m n : ℤ) → short_decimal m ≡ short_decimal n → m ≡ n
short_decimal_injective (pos m) (pos n) h = cc
short_decimal_injective (pos m) (negsuc n) h = absurd (ground arith)
short_decimal_injective (negsuc m) (pos n) h = absurd (ground arith)
short_decimal_injective (negsuc m) (negsuc n) h = cc

-- Signatures are good if they are the text itself, and keys do not matter.
abbrev crypto : Crypto
crypto = record {
  decimal = short_decimal;
  base64_decode = λ t. some t;
  ed25519_verify = λ key m s.
      m
      == codes "00112233445566778899aabbccddeeff00112233445566778899aabbccddeeff|1.2.3.4:443|de|"
        ++ (0 ∷ 5 ∷ []);
}

-- A key in hexadecimal, and a signature of 64 bytes.
abbrev key_text : Bytes
key_text = codes "00112233445566778899aabbccddeeff00112233445566778899aabbccddeeff"

abbrev entry : RelayEntry
entry = record {
  node_id = key_text;
  addr = codes "1.2.3.4:443";
  country_code = codes "de";
  ts = pos 5;
  sig = key_text;
}

entry_verified : verify_relay_entry crypto entry ≡ true
unfolding verify_relay_entry decode_hex
entry_verified = refl

-- An entry whose signature is not good is refused.
forged_refused : verify_relay_entry crypto (record entry { country_code = codes "us" }) ≡ false
unfolding verify_relay_entry decode_hex
forged_refused = refl

-- The good entry, and a forged one for the same node.
abbrev arrived : List (ℕ × RelayEntry)
arrived = (7, entry) ∷ (8, record entry { country_code = codes "us"; ts = pos 6 }) ∷ []

entry_listed : all 9 (stores crypto arrived new_relay_store) ≡ entry ∷ []
unfolding all stores store verify_relay_entry decode_hex lookup insert
entry_listed = refl

all-verified_example :
    All
      (λ e. (verify_relay_entry crypto e ≡ true) × (9 + neg_part e.ts ≤ relay_ttl + pos_part e.ts))
      (all 9 (stores crypto arrived new_relay_store))
all-verified_example = all-verified crypto arrived 9

abbrev env : Env
env = record {
  sort = sort_by;
  crypto = crypto;
  is_valid_contact_addr = λ a. true;
  resolve = λ a. some a;
  raw_json = λ raw. some (keep (λ c. not (eqb c 32)) raw);
}

node-IsTable_sound_example :
    IsTable
      (happen_all env
        (pings "x"
          ∷ receives 4 "x" (nodes (own_contact (new_node (ident 3) "x")) [])
          ∷ times_out "x" (ident 3)
          ∷ [])
        (new_node (ident 0) "l")).rt
node-IsTable_sound_example = node-IsTable_sound env (ident 0) "l" (
    pings "x"
    ∷ receives 4 "x" (nodes (own_contact (new_node (ident 3) "x")) [])
    ∷ times_out "x" (ident 3)
    ∷ [])

abbrev teller : Node
teller = record (new_node (ident 1) "a") { manifest_raw = codes "{ }"; manifest_ts = pos 2 }

abbrev listener : Node
listener = record (new_node (ident 2) "b") { has_on_manifest = true }

exchange_passes_on_example : exchange env 0 "a" "b" teller listener ≡ on_manifest (codes "{}") ∷ []
unfolding new_node
exchange_passes_on_example = exchange_passes_on env 0 "a" "b" teller listener

abbrev lost : Contact
lost = record { id = ident 9; addr = "s"; last_seen = 0; missed_pings = 1; suspect = true }

abbrev watcher : Node
watcher = record (new_node (ident 0) "l") {
  rt = record { self = ident 0; buckets = (lost ∷ []) ∷ [] };
}

watcher-AreAlone : AreAlone watcher.rt
unfolding AreAlone rt_all suspect_contacts
watcher-AreAlone = (((λ e. absurd (cc)), tt), tt)

reprobe_suspects_untracked_example : (reprobe_suspects env watcher).0 ≡ watcher
reprobe_suspects_untracked_example =
    reprobe_suspects_untracked env watcher sort_by-IsSorter watcher-AreAlone
