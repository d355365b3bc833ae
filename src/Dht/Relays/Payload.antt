-- ===== src/Dht/Relays/Payload.antt =====
-- What the signature of a relay entry covers.
use tunnelcat_server.Base.{
  nat_eq, list_eq, ◌≡◌, ◌≢◌, refl, ap, [], ◌∷◌, ◌++◌, arith, All, append_assoc,
}
use tunnelcat_server.Base.Bytes.{Bytes}
use tunnelcat_server.Base.Int.{ℤ}
use tunnelcat_server.Dht.Relays.{
  RelayEntry, Crypto, bar, relay_entry_payload, verify_signed, verify_relay_entry,
}

-- A text without bars.
abbrev pub NoBar : Bytes → Type 0
NoBar = All (λ c. c ≢ b'|')

-- Texts without bars that are followed by bars can be told apart.
cut_at_bar :
    (u v s t : Bytes) → NoBar u → NoBar v → u ++ (bar ++ s) ≡ v ++ (bar ++ t) → (u ≡ v) × (s ≡ t)
cut_at_bar [] [] s t hu hv e = (refl, ground arith)
cut_at_bar [] (d ∷ v) s t hu hv e = absurd (hv.0 (ground arith))
cut_at_bar (c ∷ u) [] s t hu hv e = absurd (hu.0 (ground arith))
cut_at_bar (c ∷ u) (d ∷ v) s t hu hv e =
    let (p, q) = cut_at_bar u v s t hu.1 hv.1 (ground arith) in (ground arith, q)

-- Two entries whose identifier, address and country hold no bar, and that are signed over the same
-- bytes, agree in all that is signed, if different numbers have different decimal forms.
pub relay_entry_payload-injective :
    (x : Crypto) (d e : RelayEntry)
    → ((m n : ℤ) → x.decimal m ≡ x.decimal n → m ≡ n)
    → NoBar d.node_id × NoBar d.addr × NoBar d.country_code
    → NoBar e.node_id × NoBar e.addr × NoBar e.country_code
    → relay_entry_payload x d ≡ relay_entry_payload x e
    → (d.node_id ≡ e.node_id)
      × (d.addr ≡ e.addr)
      × (d.country_code ≡ e.country_code)
      × (d.ts ≡ e.ts)
unfolding relay_entry_payload
relay_entry_payload-injective x d e inj (dn, da, dc) (en, ea, ec) h =
    let (n, h1) = cut_at_bar d.node_id e.node_id _ _ dn en h in
    let (a, h2) = cut_at_bar d.addr e.addr _ _ da ea h1 in
    let (c, h3) = cut_at_bar d.country_code e.country_code _ _ dc ec h2 in
    (n, a, c, inj d.ts e.ts h3)

payload_shift :
    (x : Crypto) (e : RelayEntry) (front back : Bytes)
    → e.addr ≡ front ++ (bar ++ back)
    → relay_entry_payload x e
      ≡ relay_entry_payload x
          (record e { addr = front; country_code = back ++ (bar ++ e.country_code) })
unfolding relay_entry_payload
payload_shift x e front back h = rw h (simp append_assoc)

-- With bars it is otherwise: a signature over an entry whose address is `front|back` is as good for
-- the entry with the address `front` and the country `back|cc`.
pub verify_relay_entry_ambiguous :
    (x : Crypto) (e : RelayEntry) (front back : Bytes)
    → e.addr ≡ front ++ (bar ++ back)
    → verify_relay_entry x e
      ≡ verify_relay_entry x
          (record e { addr = front; country_code = back ++ (bar ++ e.country_code) })
unfolding verify_relay_entry
verify_relay_entry_ambiguous x e front back h =
    ap (λ (p : Bytes). verify_signed x e.node_id e.sig p) (payload_shift x e front back h)
