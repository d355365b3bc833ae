-- ===== src/Arbiter/Tiered/Memory.antt =====
-- The sweep of the limiter's keys.
use tunnelcat_server.Base.{
  string_eq, ℕ, ◌≡◌, ◌≢◌, refl, true, false, List, [], ◌∷◌, ◌++◌, none, some, String, All, arith,
  Option-cases, inl, inr, ◌⊎◌,
}
use tunnelcat_server.Base.Map.{
  Map, lookup, insert, delete, sweep, lookup-insert, lookup-insert_self,
}
use tunnelcat_server.Arbiter.Tiered.{
  LimitTier, TieredWindowLimiter, new_tiered_window_limiter, events_of, within, check_tiers,
  has_events, sweep_empty, allow, Request, run,
}

-- Every key on record has an event.
abbrev pub NoneEmpty : Map String (List ℕ) → Type 0
NoneEmpty m = All (λ e. has_events e.0 e.1 ≡ true) m

sweep-NoneEmpty : (m : Map String (List ℕ)) → NoneEmpty m → sweep has_events m ≡ m
unfolding sweep
sweep-NoneEmpty [] h = refl
sweep-NoneEmpty ((k, es) ∷ m) h = ground (arith, sweep-NoneEmpty m h.1)

delete-NoneEmpty : (k : String) (m : Map String (List ℕ)) → NoneEmpty m → NoneEmpty (delete k m)
unfolding delete
delete-NoneEmpty k [] h = tt
delete-NoneEmpty k ((j, es) ∷ m) h = ground (arith, delete-NoneEmpty k m h.1)

has_events-append : (k : String) (es : List ℕ) (e : ℕ) → has_events k (es ++ e ∷ []) ≡ true
has_events-append k [] e = refl
has_events-append k (x ∷ es) e = refl

insert-NoneEmpty :
    (k : String) (es : List ℕ) (e : ℕ) (m : Map String (List ℕ))
    → NoneEmpty m
    → NoneEmpty (insert k (es ++ e ∷ []) m)
unfolding insert
insert-NoneEmpty k es e m h = (has_events-append k es e, delete-NoneEmpty k m h)

sweep_empty-NoneEmpty : (m : Map String (List ℕ)) → NoneEmpty m → sweep_empty m ≡ m
unfolding sweep_empty
sweep_empty-NoneEmpty m h = ground (arith, sweep-NoneEmpty m h)

-- An allowed event is put on record, and the sweep takes nothing away.
allow_recorded :
    (key : String) (tiers : List LimitTier) (now longest : ℕ) (l : TieredWindowLimiter)
    → NoneEmpty l.events
    → check_tiers tiers (events_of (lookup key l.events)) now 0 ≡ some longest
    → (allow key tiers now l).0.events
      ≡ insert key (within longest now (events_of (lookup key l.events)) ++ now ∷ []) l.events
unfolding allow
allow_recorded key tiers now longest l h e =
    rw (e, allow)
      (sweep_empty-NoneEmpty _ (
        insert-NoneEmpty key (within longest now (events_of (lookup key l.events))) now l.events h))

allow_refused :
    (key : String) (tiers : List LimitTier) (now : ℕ) (l : TieredWindowLimiter)
    → check_tiers tiers (events_of (lookup key l.events)) now 0 ≡ none
    → allow key tiers now l ≡ (l, false)
unfolding allow
allow_refused key tiers now l e = rw (e, allow)

-- The two ends of a call.
pub allow_cases :
    (key : String) (tiers : List LimitTier) (now : ℕ) (l : TieredWindowLimiter)
    → NoneEmpty l.events
    → (allow key tiers now l ≡ (l, false))
      ⊎ ((longest : ℕ) × (check_tiers tiers (events_of (lookup key l.events)) now 0 ≡ some longest)
          × (allow key tiers now l ≡ (
            record {
              events =
                  insert key
                    (within longest now (events_of (lookup key l.events)) ++ now ∷ [])
                    l.events;
            },
            true,
          )))
unfolding allow
allow_cases key tiers now l h =
    elim (Option-cases (check_tiers tiers (events_of (lookup key l.events)) now 0)) [
      | inl e ↦ inl (allow_refused key tiers now l e)
      | inr (longest, e) ↦ inr (
        longest,
        e,
        rw (e, allow)
            (rw
              (sweep_empty-NoneEmpty _ (
                insert-NoneEmpty key (within longest now (events_of (lookup key l.events))) now
                  l.events h))
              refl),
      )
    ]

pub allow-NoneEmpty :
    (key : String) (tiers : List LimitTier) (now : ℕ) (l : TieredWindowLimiter)
    → NoneEmpty l.events
    → NoneEmpty (allow key tiers now l).0.events
allow-NoneEmpty key tiers now l h = elim (allow_cases key tiers now l h) [
  | inl e ↦ rw e h
  | inr (longest, _, e) ↦
      rw e
        (insert-NoneEmpty key (within longest now (events_of (lookup key l.events))) now l.events h)
]

run-lookup :
    (key : String) (rs : List Request) (l : TieredWindowLimiter)
    → NoneEmpty l.events
    → lookup key l.events ≢ none
    → lookup key (run rs l).events ≢ none
unfolding run
run-lookup key [] l h known = known
run-lookup key (r ∷ rs) l h known =
    run-lookup key rs (allow r.key r.tiers r.time l).0 (allow-NoneEmpty r.key r.tiers r.time l h)
      (elim (allow_cases r.key r.tiers r.time l h) [
        | inl e ↦ rw e known
        | inr (longest, _, e) ↦ rw e λ gone. ground (
          arith,
          known,
          lookup-insert r.key key
              (within longest r.time (events_of (lookup r.key l.events)) ++ r.time ∷ []) l.events,
        )
      ])

run-NoneEmpty :
    (rs : List Request) (l : TieredWindowLimiter) → NoneEmpty l.events → NoneEmpty (run rs l).events
unfolding run
run-NoneEmpty [] l h = h
run-NoneEmpty (r ∷ rs) l h =
    run-NoneEmpty rs (allow r.key r.tiers r.time l).0 (allow-NoneEmpty r.key r.tiers r.time l h)

-- The sweep of the limiter never frees a key: whatever requests came before, a key whose request
-- was allowed is on record after any further requests, however old its events are.
pub run_keeps_keys :
    (before after : List Request) (key : String) (tiers : List LimitTier) (now : ℕ)
    → (allow key tiers now (run before new_tiered_window_limiter)).1 ≡ true
    → lookup key (run after (allow key tiers now (run before new_tiered_window_limiter)).0).events
      ≢ none
run_keeps_keys before after key tiers now allowed =
    let l = run before new_tiered_window_limiter in
    let h = run-NoneEmpty before new_tiered_window_limiter tt in
    run-lookup key after (allow key tiers now l).0 (allow-NoneEmpty key tiers now l h)
      (elim (allow_cases key tiers now l h) [
        | inl e ↦ absurd (cc)
        | inr (longest, _, e) ↦ rw e λ gone. ground (
          arith,
          lookup-insert_self key (within longest now (events_of (lookup key l.events)) ++ now ∷ [])
              l.events,
        )
      ])
