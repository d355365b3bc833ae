-- ===== src/Control/AuthCache/Provenance.antt =====
-- snc-control/auth_cache.go: where the bodies that the cache serves come from.
use tunnelcat_server.Base.{
  string_eq, ℕ, ◌+◌, ◌≡◌, ◌⊎◌, refl, sym, ap, subst, ◌∙◌, Bool, false, List, [], ◌∷◌, Option, none,
  some, String, leb, ◌==◌, if◌then◌else◌, arith, Bool-cases, Option-cases, inl, inr,
}
use tunnelcat_server.Base.Bytes.{Bytes}
use tunnelcat_server.Base.Map.{
  IsMap, lookup, insert, kept, lookup-insert, lookup-sweep, insert-IsMap, sweep-IsMap,
}
use tunnelcat_server.Control.AuthCache.{
  auth_cache_ttl, AuthCacheEntry, Entries, is_fresh, drop_stale, body_of, local_hit, after_query,
  auth_lookup,
}

-- A call of `lookup`: its time, its device, and what an exit answers if it is asked.
pub record Call : Type 0 where
  pub now : ℕ
  pub device : String
  pub answer : Option Bytes

-- The entries after the calls of a list, the last one first.
unfoldable pub cache_after : List Call → Entries
unfolding auth_lookup
cache_after [] = []
cache_after (q ∷ earlier) = (auth_lookup q.now q.device q.answer (cache_after earlier)).0

-- An exit answered a call for this device with this body.
pub data Answered (device : String) (body : Bytes) : List Call → Type 0 where
  here :
      {q : Call} {qs : List Call}
      → q.device ≡ device
      → q.answer ≡ some body
      → Answered device body (q ∷ qs)
  earlier : {q : Call} {qs : List Call} → Answered device body qs → Answered device body (q ∷ qs)

after_query-IsMap :
    (now : ℕ) (device : String) (answer : Option Bytes) (m : Entries)
    → IsMap m
    → IsMap (after_query now device answer m).0
unfolding after_query drop_stale
after_query-IsMap now device none m h = h
after_query-IsMap now device (some body) m h = sweep-IsMap _ _ (insert-IsMap device _ m h)

auth_lookup-IsMap :
    (now : ℕ) (device : String) (answer : Option Bytes) (m : Entries)
    → IsMap m
    → IsMap (auth_lookup now device answer m).0
unfolding auth_lookup
auth_lookup-IsMap now device answer m h = elim (Bool-cases (device == "")) [
  | inl e ↦ rw e h
  | inr e ↦ elim (Option-cases (local_hit now (lookup device m))) [
    | inl f ↦ rw (e, f, auth_lookup) (after_query-IsMap now device answer m h)
    | inr (b, f) ↦ rw (e, f, auth_lookup) h
  ]
]

cache_after-IsMap : (qs : List Call) → IsMap (cache_after qs)
unfolding cache_after
cache_after-IsMap [] = tt
cache_after-IsMap (q ∷ qs) =
    auth_lookup-IsMap q.now q.device q.answer (cache_after qs) (cache_after-IsMap qs)

kept-some :
    (p : String → AuthCacheEntry → Bool) (k : String) (o : Option AuthCacheEntry)
    (e : AuthCacheEntry)
    → kept p k o ≡ some e
    → o ≡ some e
kept-some p k none e h = h
kept-some p k (some v) e h = elim (Bool-cases (p k v)) [
  | inl q ↦ subst (λ (b : Bool). (if b then some v else none) ≡ some e) q h
  | inr q ↦ absurd (ground arith)
]

-- What one query can have put in the cache.
after_query-lookup :
    (now : ℕ) (device other : String) (answer : Option Bytes) (m : Entries) (e : AuthCacheEntry)
    → IsMap m
    → lookup other (after_query now device answer m).0 ≡ some e
    → (lookup other m ≡ some e) ⊎ ((device ≡ other) × (answer ≡ some e.body))
unfolding after_query drop_stale
after_query-lookup now device other none m e h l = inl l
after_query-lookup now device other (some body) m e h l =
    let new : AuthCacheEntry = record { body = body; cached_at = now } in
    let swept = lookup-sweep _ other (insert device new m) (insert-IsMap device new m h) in
    let held = lookup-insert device other new m in
    let found =
      kept-some (λ _ v. leb now (v.cached_at + auth_cache_ttl)) other
        (lookup other (insert device new m)) e (sym swept ∙ l) in
    let case : (if device == other then some new else lookup other m) ≡ some e = sym held ∙ found in
    elim (Bool-cases (device == other)) [
      | inl p ↦ inr (
        (string_eq.beq_iff device other).0 p,
        ap body_of (subst (λ (b : Bool). (if b then some new else lookup other m) ≡ some e) p case),
      )
      | inr p ↦ inl (subst (λ (b : Bool). (if b then some new else lookup other m) ≡ some e) p case)
    ]

auth_lookup-lookup :
    (now : ℕ) (device other : String) (answer : Option Bytes) (m : Entries) (e : AuthCacheEntry)
    → IsMap m
    → lookup other (auth_lookup now device answer m).0 ≡ some e
    → (lookup other m ≡ some e) ⊎ ((device ≡ other) × (answer ≡ some e.body))
unfolding auth_lookup
auth_lookup-lookup now device other answer m e h = elim (Bool-cases (device == "")) [
  | inl p ↦ rw p (λ l. inl l)
  | inr p ↦ elim (Option-cases (local_hit now (lookup device m))) [
    | inl f ↦ rw (p, f, auth_lookup) (after_query-lookup now device other answer m e h)
    | inr (b, f) ↦ rw (p, f, auth_lookup) (λ l. inl l)
  ]
]

-- All that is cached for a device was answered for it.
cached_was-Answered :
    (device : String) (e : AuthCacheEntry) (qs : List Call)
    → lookup device (cache_after qs) ≡ some e
    → Answered device e.body qs
unfolding cache_after lookup
cached_was-Answered device e [] h = absurd (cc)
cached_was-Answered device e (q ∷ qs) h =
    elim (auth_lookup-lookup q.now q.device device q.answer (cache_after qs) e
      (cache_after-IsMap qs) h) [
        | inl old ↦ earlier (cached_was-Answered device e qs old)
        | inr (same, new) ↦ here same new
      ]

local_hit-entry :
    (now : ℕ) (o : Option AuthCacheEntry) (body : Bytes)
    → local_hit now o ≡ some body
    → body_of o ≡ some body
local_hit-entry now none body h = h
local_hit-entry now (some e) body h = elim (Bool-cases (is_fresh now e)) [
  | inl p ↦ subst (λ (b : Bool). (if b then some e.body else none) ≡ some body) p h
  | inr p ↦ absurd (ground arith)
]

entry_was-Answered :
    (device : String) (body : Bytes) (qs : List Call) (o : Option AuthCacheEntry)
    → lookup device (cache_after qs) ≡ o
    → body_of o ≡ some body
    → Answered device body qs
entry_was-Answered device body qs none h b = absurd (cc)
entry_was-Answered device body qs (some e) h b =
    subst (λ (x : Bytes). Answered device x qs) (ground arith) (cached_was-Answered device e qs h)

-- After any calls on an empty cache, a body that is served for a device was answered by an exit for that same device, to this call or to
-- an earlier one; and nothing is served for the empty device.
pub served_was-Answered :
    (q : Call) (qs : List Call) (body : Bytes)
    → (auth_lookup q.now q.device q.answer (cache_after qs)).1 ≡ some body
    → Answered q.device body (q ∷ qs) × ((q.device == "") ≡ false)
unfolding auth_lookup after_query
served_was-Answered q qs body =
    let m = cache_after qs in
    let entry = entry_was-Answered q.device body qs (lookup q.device m) refl in
    elim (Bool-cases (q.device == "")) [
      | inl p ↦ rw p (λ h. absurd (cc))
      | inr p ↦ elim (Option-cases (local_hit q.now (lookup q.device m))) [
        | inr (b, f) ↦
            rw (p, f, auth_lookup)
              (λ h.
                (earlier (entry (local_hit-entry q.now (lookup q.device m) body (f ∙ h))), refl))
        | inl f ↦ elim (Option-cases q.answer) [
          | inl a ↦ rw (p, f, auth_lookup, a) (λ h. (earlier (entry h), refl))
          | inr (b, a) ↦ rw (p, f, auth_lookup, a) (λ h. (here refl h, refl))
        ]
      ]
    ]
