-- ===== src/Exit/Pool/Lookups.antt =====
-- What the calls of the pool answer.
use tunnelcat_server.Base.{
  string_eq, All, ℕ, ◌+◌, ◌≡◌, ◌≢◌, ◌⊎◌, refl, Bool, true, false, List, [], ◌∷◌, Option, none, some,
  String, arith, not, inl, inr, ltb, Option-cases, Bool-cases, ◌==◌,
}
use tunnelcat_server.Base.Map.{lookup, IsMap, kept, lookup-insert, lookup-insert_self, lookup-sweep}
use tunnelcat_server.Exit.Session.{Session, new_session, session_timeout}
use tunnelcat_server.Exit.Pool.{
  SessionPool, touch, flag_closed, count_up, name_country, update, reuse, adopt, get_or_create, get,
  target_closed_reason, live, close_reason, mark_target_closed, record_activity, add_bytes_up,
  set_country, get_session, watchdog,
}
use tunnelcat_server.Exit.Pool.Ownership.{
  Call, reuses, gets, activity, sessions, adopts, stores, marks, closes, adds, countries, ticks,
  step, run,
}

-- In a pool with one session an identifier, a tick of the watchdog at `now` leaves exactly the sessions that were seen within the timeout,
-- unchanged, and removes every other.
pub lookup-watchdog :
    (id : String) (now : ℕ) (p : SessionPool)
    → IsMap p.pool
    → lookup id (watchdog now p).pool
      ≡ kept (λ _ s. not (ltb (s.last_seen + session_timeout) now)) id (lookup id p.pool)
unfolding watchdog
lookup-watchdog id now p h = lookup-sweep _ id p.pool h

-- `get` gives no connection exactly when `closeReason` has a reason, and otherwise the session's
-- connection, with `lastSeen` at the time of the call.
pub get-close_reason :
    (id : String) (now : ℕ) (p : SessionPool)
    → ((close_reason id p ≢ live) × (get id now p ≡ (p, none)))
      ⊎ ((close_reason id p ≡ live)
          × (s : Session) × (lookup id p.pool ≡ some s)
          × ((get id now p).1 ≡ some s.conn)
          × (lookup id (get id now p).0.pool ≡ some (touch now s)))
unfolding get close_reason update
get-close_reason id now p = elim (Option-cases (lookup id p.pool)) [
  | inl e ↦ inl (ground arith, ground arith)
  | inr (s, e) ↦ flagged s e s.target_closed refl
]
  where
    flagged :
        (s : Session)
        → lookup id p.pool ≡ some s
        → (b : Bool) → s.target_closed ≡ b
        → ((close_reason id p ≢ live) × (get id now p ≡ (p, none)))
          ⊎ ((close_reason id p ≡ live)
              × (s : Session) × (lookup id p.pool ≡ some s)
              × ((get id now p).1 ≡ some s.conn)
              × (lookup id (get id now p).0.pool ≡ some (touch now s)))
    flagged s e true f = inl (ground arith, ground arith)
    flagged s e false f = inr (
      ground arith,
      s,
      e,
      ground arith,
      ground (arith, lookup-insert_self id (touch now s) p.pool),
    )

update_self :
    (id : String) (change : Session → Session) (p : SessionPool) (s : Session)
    → lookup id p.pool ≡ some s
    → lookup id (update id change p).pool ≡ some (change s)
unfolding update
update_self id change p s e = rw (e, update) (lookup-insert_self id (change s) p.pool)

reuse_pooled :
    (id : String) (now : ℕ) (p : SessionPool)
    → ((reuse id now p).1 ≡ none)
      ⊎ ((s : Session) × ((reuse id now p).1 ≡ some s.conn)
          × (lookup id (reuse id now p).0.pool ≡ some (touch now s)))
unfolding reuse
reuse_pooled id now p = elim (Option-cases (lookup id p.pool)) [
  | inl e ↦ inl (rw (e, reuse))
  | inr (s, e) ↦ inr (s, rw (e, reuse), rw (e, reuse) (update_self id (touch now) p s e))
]

adopt_pooled :
    (id user : String) (conn now : ℕ) (p : SessionPool)
    → (s : Session) × (lookup id (adopt id conn user now p).0.pool ≡ some s)
      × (s.conn ≡ (adopt id conn user now p).1)
unfolding adopt
adopt_pooled id user conn now p = elim (Option-cases (lookup id p.pool)) [
  | inl e ↦ (
    new_session conn user now,
    rw (e, adopt) (lookup-insert_self id (new_session conn user now) p.pool),
    rw (e, adopt),
  )
  | inr (s, e) ↦ (touch now s, rw (e, adopt) (update_self id (touch now) p s e), rw (e, adopt))
]

-- A connection that `getOrCreate` returns, found or dialled, is the one of the session that the
-- pool then has under the identifier, whatever other goroutines did during the dial.
pub get_or_create_pooled :
    (id user : String) (now : ℕ) (dial : Option ℕ) (between : SessionPool → SessionPool) (later : ℕ)
    (p : SessionPool) (conn : ℕ)
    → (get_or_create id user now dial between later p).1 ≡ some conn
    → (s : Session) × (lookup id (get_or_create id user now dial between later p).0.pool ≡ some s)
      × (s.conn ≡ conn)
unfolding get_or_create
get_or_create_pooled id user now dial between later p conn h = elim (reuse_pooled id now p) [
  | inl e ↦ dialled dial e h
  | inr (s, e, l) ↦ (touch now s, ground arith, ground arith)
]
  where
    dialled :
        (d : Option ℕ)
        → (reuse id now p).1 ≡ none
        → (get_or_create id user now d between later p).1 ≡ some conn
        → (s : Session) × (lookup id (get_or_create id user now d between later p).0.pool ≡ some s)
          × (s.conn ≡ conn)
    dialled none e h = ground arith
    dialled (some c) e h =
        let (s, l, q) = adopt_pooled id user c later (between (reuse id now p).0) in
        (s, ground arith, ground arith)

-- The session of `id` is there, and its target has closed.
abbrev pub IsFlagged : String → SessionPool → Type 0
IsFlagged id p = (s : Session) × (lookup id p.pool ≡ some s) × (s.target_closed ≡ true)

-- The calls that can end a session or put another in its place.
abbrev pub replaces : Call → Bool
replaces (stores id conn user now) = true
replaces (closes id) = true
replaces (ticks now) = true
replaces _ = false

update-IsFlagged :
    (id j : String) (change : Session → Session) (p : SessionPool)
    → ((s : Session) → s.target_closed ≡ true → (change s).target_closed ≡ true)
    → IsFlagged id p
    → IsFlagged id (update j change p)
unfolding update
update-IsFlagged id j change p same (s, l, f) = elim (Option-cases (lookup j p.pool)) [
  | inl e ↦ rw (e, update) (s, l, f)
  | inr (t, e) ↦
      rw (e, update)
        (elim (Bool-cases (j == id)) [
          | inl hit ↦ (
            change t,
            ground (arith, lookup-insert j id (change t) p.pool),
            same t (ground (arith, string_eq.beq_iff j id)),
          )
          | inr miss ↦ (s, ground (arith, lookup-insert j id (change t) p.pool), f)
        ])
]

update-or-same-IsFlagged :
    (id j : String) (now : ℕ) (p q : SessionPool)
    → (q ≡ p) ⊎ (q ≡ update j (touch now) p)
    → IsFlagged id p
    → IsFlagged id q
update-or-same-IsFlagged id j now p q (inl e) v = rw e v
update-or-same-IsFlagged id j now p q (inr e) v =
    rw e (update-IsFlagged id j (touch now) p (λ s f. f) v)

reuse-update :
    (j : String) (now : ℕ) (p : SessionPool)
    → ((reuse j now p).0 ≡ p) ⊎ ((reuse j now p).0 ≡ update j (touch now) p)
unfolding reuse
reuse-update j now p = elim (Option-cases (lookup j p.pool)) [
  | inl e ↦ inl (rw (e, reuse))
  | inr (s, e) ↦ inr (rw (e, reuse))
]

get-update :
    (j : String) (now : ℕ) (p : SessionPool)
    → ((get j now p).0 ≡ p) ⊎ ((get j now p).0 ≡ update j (touch now) p)
unfolding get
get-update j now p = elim (Option-cases (lookup j p.pool)) [
  | inl e ↦ inl (rw (e, get))
  | inr (s, e) ↦ elim (Bool-cases s.target_closed) [
    | inl f ↦ inl (rw (e, get, f))
    | inr f ↦ inr (rw (e, get, f))
  ]
]

get_session-update :
    (j : String) (now : ℕ) (p : SessionPool)
    → ((get_session j now p).0 ≡ p) ⊎ ((get_session j now p).0 ≡ update j (touch now) p)
unfolding get_session
get_session-update j now p = elim (Option-cases (lookup j p.pool)) [
  | inl e ↦ inl (rw (e, get_session))
  | inr (s, e) ↦ inr (rw (e, get_session))
]

adopt-IsFlagged :
    (id j user : String) (conn now : ℕ) (p : SessionPool)
    → IsFlagged id p
    → IsFlagged id (adopt j conn user now p).0
unfolding adopt
adopt-IsFlagged id j user conn now p (s, l, f) = elim (Option-cases (lookup j p.pool)) [
  | inl e ↦
      rw (e, adopt)
        (
          s,
          ground (
            arith,
            string_eq.beq_iff j id,
            lookup-insert j id (new_session conn user now) p.pool,
          ),
          f,
        )
  | inr (t, e) ↦ rw (e, adopt) (update-IsFlagged id j (touch now) p (λ s f. f) (s, l, f))
]

step-IsFlagged :
    (id : String) (k : Call) (p : SessionPool)
    → replaces k ≡ false
    → IsFlagged id p
    → IsFlagged id (step k p)
unfolding step mark_target_closed record_activity add_bytes_up set_country
step-IsFlagged id (reuses j now) p h v =
    update-or-same-IsFlagged id j now p _ (reuse-update j now p) v
step-IsFlagged id (gets j now) p h v = update-or-same-IsFlagged id j now p _ (get-update j now p) v
step-IsFlagged id (activity j now) p h v = update-IsFlagged id j (touch now) p (λ s f. f) v
step-IsFlagged id (sessions j now) p h v =
    update-or-same-IsFlagged id j now p _ (get_session-update j now p) v
step-IsFlagged id (adopts j conn user now) p h v = adopt-IsFlagged id j user conn now p v
step-IsFlagged id (stores j conn user now) p h v = cc
step-IsFlagged id (marks j) p h v = update-IsFlagged id j flag_closed p (λ s f. refl) v
step-IsFlagged id (closes j) p h v = cc
step-IsFlagged id (adds j n) p h v = update-IsFlagged id j (count_up n) p (λ s f. f) v
step-IsFlagged id (countries j country) p h v =
    update-IsFlagged id j (name_country country) p (λ s f. f) v
step-IsFlagged id (ticks now) p h v = cc

run-IsFlagged :
    (id : String) (ks : List Call) (p : SessionPool)
    → All (λ k. replaces k ≡ false) ks
    → IsFlagged id p
    → IsFlagged id (run ks p)
unfolding run
run-IsFlagged id [] p h v = v
run-IsFlagged id (k ∷ ks) p h v = run-IsFlagged id ks (step k p) h.1 (step-IsFlagged id k p h.0 v)

-- Once the target of a session that is there has closed, `get` gives no connection for it, and
-- `closeReason` says that the target closed, whatever calls follow, `getOrCreate` and other
-- sessions' calls included, until a call of `store`, `close` or a tick of the watchdog.
pub mark_target_closed-sticks :
    (id : String) (s : Session) (ks : List Call) (p : SessionPool) (now : ℕ)
    → lookup id p.pool ≡ some s
    → All (λ k. replaces k ≡ false) ks
    → let q = run ks (mark_target_closed id p) in
      ((get id now q).1 ≡ none) × (close_reason id q ≡ target_closed_reason)
unfolding get close_reason mark_target_closed
mark_target_closed-sticks id s ks p now l h =
    let v : IsFlagged id (update id flag_closed p) =
      (flag_closed s, update_self id flag_closed p s l, refl) in
    let (t, e, f) = run-IsFlagged id ks (update id flag_closed p) h v in
    (ground arith, ground arith)
