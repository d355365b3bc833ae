-- ===== src/Exit/Pool/Ownership.antt =====
-- Who owns the connections of the pool: each is in one session, or was closed, once.
use tunnelcat_server.Base.{
  string_eq, ℕ, ◌+◌, ◌≡◌, refl, List, [], ◌∷◌, String, arith, eqb, inl, inr, Option-cases,
}
use tunnelcat_server.Base.Map.{lookup, IsMap, insert-IsMap, delete-IsMap, sweep-IsMap}
use tunnelcat_server.Exit.Session.{Session, new_session}
use tunnelcat_server.Exit.Pool.{
  SessionPool, new_session_pool, touch, flag_closed, count_up, name_country, update, reuse, adopt,
  store, get, mark_target_closed, record_activity, close, add_bytes_up, set_country, get_session,
  stale_conns, watchdog,
}
use tunnelcat_server.Exit.Pool.Count.{
  unit_if, count, count-cons, count-append, conns, count-delete, count-insert, count-sweep,
}

-- One locked section of the pool, with its arguments. `getOrCreate` is a `reuses` and, if it dials,
-- an `adopts` later on.
pub data Call : Type 0 where
  reuses gets activity sessions : String → ℕ → Call
  adopts stores : String → ℕ → String → ℕ → Call
  marks closes : String → Call
  adds : String → ℕ → Call
  countries : String → String → Call
  ticks : ℕ → Call

unfoldable pub step : Call → SessionPool → SessionPool
step (reuses id now) p = (reuse id now p).0
step (gets id now) p = (get id now p).0
step (activity id now) p = record_activity id now p
step (sessions id now) p = (get_session id now p).0
step (adopts id conn user now) p = (adopt id conn user now p).0
step (stores id conn user now) p = store id conn user now p
step (marks id) p = mark_target_closed id p
step (closes id) p = close id p
step (adds id n) p = add_bytes_up id n p
step (countries id country) p = set_country id country p
step (ticks now) p = watchdog now p

-- Any interleaving of the goroutines is such a list.
unfoldable pub run : List Call → SessionPool → SessionPool
run [] p = p
run (c ∷ cs) p = run cs (step c p)

-- The connections that a call hands to the pool.
unfoldable pub opened : List Call → List ℕ
opened [] = []
opened (adopts id conn user now ∷ cs) = conn ∷ opened cs
opened (stores id conn user now ∷ cs) = conn ∷ opened cs
opened (_ ∷ cs) = opened cs

pub owned : ℕ → SessionPool → ℕ
owned c p = count c (conns p.pool) + count c p.closed

update-IsMap :
    (id : String) (change : Session → Session) (p : SessionPool)
    → IsMap p.pool
    → IsMap (update id change p).pool
unfolding update
update-IsMap id change p h = elim (Option-cases (lookup id p.pool)) [
  | inl e ↦ rw (e, update) h
  | inr (s, e) ↦ rw (e, update) (insert-IsMap id (change s) p.pool h)
]

owned-update :
    (c : ℕ) (id : String) (change : Session → Session) (p : SessionPool)
    → ((s : Session) → (change s).conn ≡ s.conn)
    → IsMap p.pool
    → owned c (update id change p) ≡ owned c p
unfolding update owned
owned-update c id change p same h = elim (Option-cases (lookup id p.pool)) [
  | inl e ↦ rw (e, update) refl
  | inr (s, e) ↦ rw (e, update) (ground (arith, count-insert c id (change s) p.pool h, same s))
]

step-IsMap : (k : Call) (p : SessionPool) → IsMap p.pool → IsMap (step k p).pool
unfolding step reuse adopt store get mark_target_closed record_activity close add_bytes_up
    set_country get_session watchdog
step-IsMap (reuses id now) p h = ground (arith, update-IsMap id (touch now) p h)
step-IsMap (gets id now) p h = ground (arith, update-IsMap id (touch now) p h)
step-IsMap (activity id now) p h = update-IsMap id (touch now) p h
step-IsMap (sessions id now) p h = ground (arith, update-IsMap id (touch now) p h)
step-IsMap (adopts id conn user now) p h =
    ground
      (arith, update-IsMap id (touch now) p h, insert-IsMap id (new_session conn user now) p.pool h)
step-IsMap (stores id conn user now) p h =
    ground (arith, insert-IsMap id (new_session conn user now) p.pool h)
step-IsMap (marks id) p h = update-IsMap id _ p h
step-IsMap (closes id) p h = ground (arith, delete-IsMap id p.pool h)
step-IsMap (adds id n) p h = update-IsMap id _ p h
step-IsMap (countries id country) p h = update-IsMap id _ p h
step-IsMap (ticks now) p h = sweep-IsMap _ p.pool h

owned-adopt :
    (c conn : ℕ) (id user : String) (now : ℕ) (p : SessionPool)
    → IsMap p.pool
    → owned c (adopt id conn user now p).0 ≡ unit_if (eqb conn c) + owned c p
unfolding adopt owned
owned-adopt c conn id user now p h = ground (
  arith,
  count-insert c id (new_session conn user now) p.pool h,
  count-cons c conn p.closed,
  owned-update c id (touch now) p (λ s. refl) h,
)

owned-store :
    (c conn : ℕ) (id user : String) (now : ℕ) (p : SessionPool)
    → IsMap p.pool
    → owned c (store id conn user now p) ≡ unit_if (eqb conn c) + owned c p
unfolding store owned
owned-store c conn id user now p h = elim (Option-cases (lookup id p.pool)) [
  | inl e ↦ rw (e, store) (ground (arith, count-insert c id (new_session conn user now) p.pool h))
  | inr (s, e) ↦
      rw (e, store)
        (ground (
          arith,
          count-insert c id (new_session conn user now) p.pool h,
          count-cons c s.conn p.closed,
        ))
]

owned-close :
    (c : ℕ) (id : String) (p : SessionPool) → IsMap p.pool → owned c (close id p) ≡ owned c p
unfolding close owned
owned-close c id p h = elim (Option-cases (lookup id p.pool)) [
  | inl e ↦ rw (e, close) (ground (arith, count-delete c id p.pool h))
  | inr (s, e) ↦
      rw (e, close) (ground (arith, count-delete c id p.pool h, count-cons c s.conn p.closed))
]

owned-watchdog : (c now : ℕ) (p : SessionPool) → owned c (watchdog now p) ≡ owned c p
unfolding watchdog owned
owned-watchdog c now p =
    omega (arith, count-sweep c now p.pool, count-append c (stale_conns now p.pool) p.closed)

owned-step :
    (c : ℕ) (k : Call) (p : SessionPool)
    → IsMap p.pool
    → owned c (step k p) ≡ count c (opened (k ∷ [])) + owned c p
unfolding step opened count reuse get mark_target_closed record_activity add_bytes_up set_country
    get_session
owned-step c (reuses id now) p h = ground (arith, owned-update c id (touch now) p (λ s. refl) h)
owned-step c (gets id now) p h = ground (arith, owned-update c id (touch now) p (λ s. refl) h)
owned-step c (activity id now) p h = omega (arith, owned-update c id (touch now) p (λ s. refl) h)
owned-step c (sessions id now) p h = ground (arith, owned-update c id (touch now) p (λ s. refl) h)
owned-step c (adopts id conn user now) p h = omega (arith, owned-adopt c conn id user now p h)
owned-step c (stores id conn user now) p h = omega (arith, owned-store c conn id user now p h)
owned-step c (marks id) p h = omega (arith, owned-update c id flag_closed p (λ s. refl) h)
owned-step c (closes id) p h = omega (arith, owned-close c id p h)
owned-step c (adds id n) p h = omega (arith, owned-update c id (count_up n) p (λ s. refl) h)
owned-step c (countries id country) p h =
    omega (arith, owned-update c id (name_country country) p (λ s. refl) h)
owned-step c (ticks now) p h = omega (arith, owned-watchdog c now p)

count-opened :
    (c : ℕ) (k : Call) (ks : List Call)
    → count c (opened (k ∷ ks)) ≡ count c (opened (k ∷ [])) + count c (opened ks)
unfolding opened count
count-opened c (reuses id now) ks = omega arith
count-opened c (adopts id conn user now) ks = omega arith
count-opened c (stores id conn user now) ks = omega arith
count-opened c _ ks = omega arith

owned-run :
    (c : ℕ) (ks : List Call) (p : SessionPool)
    → IsMap p.pool
    → owned c (run ks p) ≡ count c (opened ks) + owned c p
unfolding run
owned-run c [] p h = unfold opened count in omega arith
owned-run c (k ∷ ks) p h =
    omega
      (arith, owned-run c ks (step k p) (step-IsMap k p h), owned-step c k p h, count-opened c k ks)

-- After any interleaving of the pool's calls from an empty pool, every connection stands in as many
-- sessions, plus as many entries of the list of closed connections, as it was handed to the pool.
-- So one that was opened once is in one session and not closed, or in none and closed once.
pub run_conserves :
    (c : ℕ) (ks : List Call)
    → let p = run ks new_session_pool in
      count c (conns p.pool) + count c p.closed ≡ count c (opened ks)
unfolding owned count conns
run_conserves c ks = omega (arith, owned-run c ks new_session_pool tt)
