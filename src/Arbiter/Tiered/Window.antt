-- ===== src/Arbiter/Tiered/Window.antt =====
-- The promise of the limiter: in every window of a tier, at most as many events as it allows.
use tunnelcat_server.Base.{
  string_eq, ℕ, ◌+◌, ◌≤◌, ◌<◌, ◌≡◌, refl, List, [], ◌∷◌, ◌++◌, some, String, ltb, ◌&&◌,
  if◌then◌else◌, length, All, arith, ◌==◌, inl, inr, append-nil, append_assoc, Bool-cases, subst,
}
use tunnelcat_server.Base.Map.{lookup, lookup-insert}
use tunnelcat_server.Arbiter.Tiered.{
  LimitTier, TieredWindowLimiter, new_tiered_window_limiter, events_of, within, check_tiers, allow,
  Request,
}
use tunnelcat_server.Arbiter.Tiered.Memory.{NoneEmpty, allow_cases, allow-NoneEmpty}

-- The times at which requests for a key are allowed, oldest first.
unfoldable pub allowed_times : String → List Request → TieredWindowLimiter → List ℕ
allowed_times key [] l = []
allowed_times key (r ∷ rs) l =
    let a = allow r.key r.tiers r.time l in
    let rest = allowed_times key rs a.0 in if r.key == key && a.1 then r.time ∷ rest else rest

-- The clock does not run backwards.
abbrev pub Ordered : ℕ → List Request → Type 0
Ordered t [] = Unit {0}
Ordered t (r ∷ rs) = (t ≤ r.time) × Ordered r.time rs

abbrev pub latest : ℕ → List Request → ℕ
latest t [] = t
latest t (r ∷ rs) = latest r.time rs

within-append :
    (w now : ℕ) (xs ys : List ℕ)
    → length (within w now (xs ++ ys)) ≡ length (within w now xs) + length (within w now ys)
within-append w now [] ys = omega arith
within-append w now (x ∷ xs) ys = ground (arith, within-append w now xs ys)

within_mono :
    (w t now : ℕ) (xs : List ℕ) → t ≤ now → length (within w now xs) ≤ length (within w t xs)
within_mono w t now [] h = omega arith
within_mono w t now (x ∷ xs) h = ground (arith, within_mono w t now xs h)

-- Pruning by a longer window at an earlier time changes no later count.
within-within :
    (w longest t now : ℕ) (xs : List ℕ)
    → w ≤ longest
    → t ≤ now
    → length (within w now (within longest t xs)) ≡ length (within w now xs)
within-within w longest t now [] h k = refl
within-within w longest t now (x ∷ xs) h k = ground (arith, within-within w longest t now xs h k)

check_tiers-some :
    (ts : List LimitTier) (evs : List ℕ) (now least longest : ℕ)
    → check_tiers ts evs now least ≡ some longest
    → (least ≤ longest)
      × All (λ t. (t.window ≤ longest) × (length (within t.window now evs) < t.max)) ts
unfolding check_tiers
check_tiers-some [] evs now least longest e = (ground arith, tt)
check_tiers-some (t ∷ ts) evs now least longest e =
    let next = if ltb least t.window then t.window else least in
    let (lo, rest) = check_tiers-some ts evs now next longest (ground arith) in
    (ground arith, ((ground arith, ground arith), rest))

-- For one tier: the record counts what was allowed, at any time from `now` on, and the window that
-- ends at `now` is not over full.
abbrev Good : List ℕ → List ℕ → ℕ → LimitTier → Type 0
Good hist evs now t =
    ((n : ℕ) → now ≤ n → length (within t.window n hist) ≡ length (within t.window n evs))
    × (length (within t.window now hist) ≤ t.max)

Good-later :
    (hist evs : List ℕ) (now n : ℕ) (t : LimitTier)
    → now ≤ n
    → Good hist evs now t
    → Good hist evs n t
Good-later hist evs now n t h (same, full) =
    (λ m k. same m (omega arith), omega (arith, within_mono t.window now n hist h))

Good-allowed :
    (hist evs : List ℕ) (now longest : ℕ) (t : LimitTier)
    → (t.window ≤ longest) × (length (within t.window now evs) < t.max)
    → Good hist evs now t
    → Good (hist ++ now ∷ []) (within longest now evs ++ now ∷ []) now t
Good-allowed hist evs now longest t (w, room) (same, full) = (
  λ n k. omega (
    arith,
    within-append t.window n hist (now ∷ []),
    within-append t.window n (within longest now evs) (now ∷ []),
    within-within t.window longest now n evs w k,
    same n k,
  ),
  ground (arith, within-append t.window now hist (now ∷ []), same now),
)

All-zip {ℓ} :
    {A : Type ℓ} (P Q R : A → Type 0) (xs : List A)
    → ((x : A) → P x → Q x → R x)
    → All P xs
    → All Q xs
    → All R xs
All-zip P Q R [] f p q = tt
All-zip P Q R (x ∷ xs) f p q = (f x p.0 q.0, All-zip P Q R xs f p.1 q.1)

All-map {ℓ} :
    {A : Type ℓ} (P Q : A → Type 0) (xs : List A) → ((x : A) → P x → Q x) → All P xs → All Q xs
All-map P Q [] f p = tt
All-map P Q (x ∷ xs) f p = (f x p.0, All-map P Q xs f p.1)

module _ (key : String) (ts : List LimitTier) where
  evs_of : TieredWindowLimiter → List ℕ
  evs_of l = events_of (lookup key l.events)

  -- One request: what the history of the key becomes, and that it stays good.
  step-Good :
      (r : Request) (l : TieredWindowLimiter) (hist : List ℕ) (now : ℕ)
      → NoneEmpty l.events
      → (r.key ≡ key → r.tiers ≡ ts)
      → now ≤ r.time
      → All (Good hist (evs_of l) now) ts
      → let a = allow r.key r.tiers r.time l in
        All
          (Good (if r.key == key && a.1 then hist ++ r.time ∷ [] else hist) (evs_of a.0) r.time)
          ts
  unfolding evs_of
  step-Good r l hist now h uses order good = elim (allow_cases r.key r.tiers r.time l h) [
    | inl e ↦
        rw e (elim (Bool-cases (r.key == key)) [
          | inl same ↦ rw same later
          | inr other ↦ rw other later
        ])
    | inr (longest, c, e) ↦ rw e (elim (Bool-cases (r.key == key)) [
      | inl same ↦
          let k = (string_eq.beq_iff r.key key).0 same in
          rw same (
            subst (λ (evs : List ℕ). All (Good (hist ++ r.time ∷ []) evs r.time) ts)
              (ground (
                arith,
                lookup-insert r.key key
                    (within longest r.time (events_of (lookup r.key l.events)) ++ r.time ∷ [])
                    l.events,
                k,
              ))
              (All-zip _ _ _ ts (Good-allowed hist (evs_of l) r.time longest)
                (check_tiers-some ts (evs_of l) r.time 0 longest (ground (arith, uses k, k))).1
                later))
      | inr other ↦ rw other (
          subst (λ (evs : List ℕ). All (Good hist evs r.time) ts)
            (ground (
              arith,
              lookup-insert r.key key
                  (within longest r.time (events_of (lookup r.key l.events)) ++ r.time ∷ [])
                  l.events,
            ))
            later)
    ])
  ]
    where
      later : All (Good hist (evs_of l) r.time) ts
      later = All-map _ _ ts (λ t. Good-later hist (evs_of l) now r.time t order) good

  run-Good :
      (rs : List Request) (l : TieredWindowLimiter) (hist : List ℕ) (now n : ℕ)
      → NoneEmpty l.events
      → All (λ r. r.key ≡ key → r.tiers ≡ ts) rs
      → Ordered now rs
      → latest now rs ≤ n
      → All (Good hist (evs_of l) now) ts
      → All (λ t. length (within t.window n (hist ++ allowed_times key rs l)) ≤ t.max) ts
  unfolding allowed_times
  run-Good [] l hist now n h uses order last good =
      rw append-nil (All-map _ _ ts (λ t g. (Good-later hist (evs_of l) now n t last g).1) good)
  run-Good (r ∷ rs) l hist now n h uses order last good =
      let a = allow r.key r.tiers r.time l in
      let g = step-Good r l hist now h uses.0 order.0 good in
      let h' = allow-NoneEmpty r.key r.tiers r.time l h in
      elim (Bool-cases (r.key == key && a.1)) [
        | inl hit ↦ rw hit (
            rw (← append_assoc hist (r.time ∷ []) (allowed_times key rs a.0))
              (run-Good rs a.0 (hist ++ r.time ∷ []) r.time n h' uses.1 order.1 last (rw hit at g)))
        | inr miss ↦ rw miss (run-Good rs a.0 hist r.time n h' uses.1 order.1 last (rw miss at g))
      ]

  start-Good : All (Good [] [] 0) ts
  start-Good = every ts
    where
      every : (us : List LimitTier) → All (Good [] [] 0) us
      every [] = tt
      every (u ∷ us) = (((λ n k. refl), omega arith), every us)

  -- The limit is exact over sliding windows: with the same tiers at each request for a key and a
  -- clock that does not run backwards, whatever requests there are for other keys, at no time `n`
  -- from the last request on does the window of any tier that ends at `n` hold more allowed
  -- requests for the key than the tier's maximum.
  pub allowed_times_bounded :
      (rs : List Request) (n : ℕ)
      → All (λ r. r.key ≡ key → r.tiers ≡ ts) rs
      → Ordered 0 rs
      → latest 0 rs ≤ n
      → All
          (λ t. length (within t.window n (allowed_times key rs new_tiered_window_limiter)) ≤ t.max)
          ts
  unfolding evs_of lookup
  allowed_times_bounded rs n uses order last =
      run-Good rs new_tiered_window_limiter [] 0 n tt uses order last start-Good
