-- ===== src/Control/Exits/Pick/Choice.antt =====
-- snc-control/exits.go: PickFor and PickForClient always choose an exit, and which.
use tunnelcat_server.Base.{
  string_eq, ℕ, ◌≤◌, ◌≡◌, ◌⊎◌, refl, sym, ap, ◌∙◌, subst, Bool, true, false, List, [], ◌∷◌, String,
  ltb, if◌then◌else◌, length, keep, arith, Bool-cases, inl, inr,
}
use tunnelcat_server.Base.Bytes.{Bytes}
use tunnelcat_server.Base.Float.{Float64, Floats, IsArithmetic, one_point_three}
use tunnelcat_server.Control.Health.{Health}
use tunnelcat_server.Control.Health.Rtt.{ExitNode, best_of}
use tunnelcat_server.Control.Health.Rtt.Best.{best_of-cases, best_of-Beats}
use tunnelcat_server.Control.Exits.{ExitRegistry}
use tunnelcat_server.Control.Exits.Prefer.{
  Pick, no_exits, picked, any_of, IsIntn, Mem-keep, keep-Mem, any_of-picks,
}
use tunnelcat_server.Control.Exits.Pick.{
  excluded, excluded_for_client, candidates, effective_rtt, best_rtt, is_near, pool, pick_for, walk,
  last_of, sticky, pick_for_client, weight, fraction, total_weight,
}
use tunnelcat_server.Control.Exits.Pick.Rule.{
  Chosen, candidates-same, candidates-some, candidates-Chosen,
}
use mathlib.Core.List.{Memᴰ}
use mathlib.Core.List.Memᴰ.{head, tail}

some_of_Mem : (x : ExitNode) (es : List ExitNode) → Memᴰ x es → 1 ≤ length es
some_of_Mem x [] m = elim m [ ]
some_of_Mem x (e ∷ es) m = omega arith

some_Mem : (es : List ExitNode) → 1 ≤ length es → (x : ExitNode) × Memᴰ x es
some_Mem [] h = absurd (omega arith)
some_Mem (e ∷ es) h = (e, head refl)

-- The times of some exits are found the same by the two loops of PickFor, if at least five exits are
-- known: no new time is recorded for them between the loops.
abbrev pub IsSteady : (f : Floats) → Health → Health → ℕ → List ExitNode → Type 0
IsSteady f best near known es =
    5 ≤ known
    → (x : ExitNode) → Memᴰ x es
    → effective_rtt ⦃f = f⦄ near x ≡ effective_rtt ⦃f = f⦄ best x

module _ (f : Floats) (laws : IsArithmetic f) where
  -- The exit with the best time is near to itself.
  near_exists :
      (m : Health) (live : List ExitNode)
      → 1 ≤ length live
      → (x : ExitNode) × Memᴰ x live × (is_near ⦃f = f⦄ m (best_rtt ⦃f = f⦄ m live) x ≡ true)
  unfolding is_near best_rtt
  near_exists m live h =
      let best = best_of ⦃f = f⦄ (λ e. false) (effective_rtt ⦃f = f⦄ m) live 0 in
      elim (best_of-cases ⦃f = f⦄ (λ e. false) (effective_rtt ⦃f = f⦄ m) live 0) [
        | inl zero_best ↦
            let (x, listed) = some_Mem live h in
            (x, listed, rw (zero_best, laws.eq_zero) (ground arith))
        | inr t ↦ (t.node, t.listed, rw (t.is_time, laws.grows best t.positive) (ground arith))
      ]

  pool-some :
      (m near : Health) (known : ℕ) (live : List ExitNode)
      → 1 ≤ length live
      → IsSteady f m near known live
      → 1 ≤ length (pool ⦃f = f⦄ m near known live)
  unfolding pool is_near
  pool-some m near known live h steady = elim (Bool-cases (ltb known 5)) [
    | inl e ↦ rw e h
    | inr e ↦
        let test = is_near ⦃f = f⦄ near (best_rtt ⦃f = f⦄ m live) in
        let (x, listed, is) = near_exists m live h in
        let still : test x ≡ true = rw (steady (ground arith) x listed) is in
        rw e (some_of_Mem x (keep test live) (keep-Mem test x live listed still))
  ]

-- An exit of the pool is a candidate, and near to the best time if at least five exits are known.
pool-Mem :
    (f : Floats) (m later : Health) (known : ℕ) (live : List ExitNode) (x : ExitNode)
    → Memᴰ x (pool ⦃f = f⦄ m later known live)
    → Memᴰ x live × ((known ≤ 4) ⊎ (is_near ⦃f = f⦄ later (best_rtt ⦃f = f⦄ m live) x ≡ true))
unfolding pool
pool-Mem f m later known live x listed =
    let near = is_near ⦃f = f⦄ later (best_rtt ⦃f = f⦄ m live) in
    let fam : Bool → Type 0 = λ b. Memᴰ x (if b then live else keep near live) in
    elim (Bool-cases (ltb known 5)) [
      | inl e ↦ (subst fam e listed, inl (ground arith))
      | inr e ↦ let r = Mem-keep near x live (subst fam e listed) in (r.0, inr r.1)
    ]

-- The functions' test that there is an exit at all.
choose_from :
    (es : List ExitNode)
    → 1 ≤ length es
    → (p : Pick) → (elim es as (λ x. Pick) [ [] ↦ no_exits | e ∷ rest ↦ p ]) ≡ p
choose_from [] h p = absurd (omega arith)
choose_from (e ∷ es) h p = refl

-- PickFor's choice from an exit that is known.
pick_for_some :
    (f : Floats) (laws : IsArithmetic f) (intn : ℕ → ℕ) (client : String) (best near : Health)
    (r : ExitRegistry)
    → IsIntn intn
    → 1 ≤ length r.exits
    → IsSteady f best near (length r.exits) r.exits
    → (x : ExitNode) × (pick_for ⦃f = f⦄ intn client best near r ≡ picked x)
      × Memᴰ x (pool ⦃f = f⦄ best near (length r.exits) (candidates excluded client r))
unfolding pick_for
pick_for_some f laws intn client best near r law h steady =
    let live = candidates excluded client r in
    let es = pool ⦃f = f⦄ best near (length r.exits) live in
    let known : IsSteady f best near (length r.exits) live =
      λ many x m. steady many x (candidates-Chosen client r x m).listed in
    let (x, got, m) =
      any_of-picks intn es law
        (pool-some f laws best near (length r.exits) live (candidates-some client r h) known) in
    (x, choose_from r.exits h (any_of intn es) ∙ got, m)

-- PickFor, where any exit is known and, if at least five are, no new time is recorded for one while it
-- runs, does not panic: it chooses one of the known exits; a usable one if there is a
-- usable one; and if a usable one's country is unknown or neither the control's nor the client's, then
-- one of which that holds.
pub pick_for-Chosen :
    (f : Floats) (intn : ℕ → ℕ) (client : String) (best near : Health) (r : ExitRegistry)
    → IsArithmetic f
    → IsIntn intn
    → 1 ≤ length r.exits
    → IsSteady f best near (length r.exits) r.exits
    → (x : ExitNode) × (pick_for ⦃f = f⦄ intn client best near r ≡ picked x) × Chosen client r x
pick_for-Chosen f intn client best near r laws law h steady =
    let (x, got, m) = pick_for_some f laws intn client best near r law h steady in
    let among = pool-Mem f best near (length r.exits) (candidates excluded client r) x m in
    (x, got, candidates-Chosen client r x among.0)

-- The time of an exit is zero, or within 30% of some time that another exit's is not below.
abbrev pub IsFast : (f : Floats) → Health → Health → (x y : ExitNode) → Type 0
IsFast f first m x y =
    (f.eq (effective_rtt ⦃f = f⦄ m x) 0 ≡ true)
    ⊎ ((best : Float64) × (f.lt (effective_rtt ⦃f = f⦄ first y) best ≡ false)
        × (f.le (effective_rtt ⦃f = f⦄ m x) (f.mul best one_point_three) ≡ true))

near-IsFast :
    (f : Floats) (laws : IsArithmetic f) (first m : Health) (live : List ExitNode) (x y : ExitNode)
    → is_near ⦃f = f⦄ m (best_rtt ⦃f = f⦄ first live) x ≡ true
    → Memᴰ y live
    → f.lt 0 (effective_rtt ⦃f = f⦄ first y) ≡ true
    → IsFast f first m x y
unfolding is_near best_rtt
near-IsFast f laws first m live x y near listed pos =
    let best = best_of ⦃f = f⦄ (λ e. false) (effective_rtt ⦃f = f⦄ first) live 0 in
    let b =
      best_of-Beats ⦃f = f⦄ laws (λ e. false) (effective_rtt ⦃f = f⦄ first) live 0 y
        (inl laws.eq_zero) listed refl pos in
    let ne = laws.ne_of_positive best b.positive in
    elim (Bool-cases (f.eq (effective_rtt ⦃f = f⦄ m x) 0)) [
      | inl e ↦ inl e
      | inr e ↦ inr (best, b.least, ground arith)
    ]

-- PickFor, where at least five exits are known and no new time is recorded for one while it runs,
-- chooses one whose time is zero or within 30% of the best: of some time that is not above the time of
-- any candidate `y` with a time above zero.
pub pick_for-IsFast :
    (f : Floats) (intn : ℕ → ℕ) (client : String) (best near : Health) (r : ExitRegistry)
    (y : ExitNode)
    → IsArithmetic f
    → IsIntn intn
    → 5 ≤ length r.exits
    → IsSteady f best near (length r.exits) r.exits
    → Memᴰ y (candidates excluded client r)
    → f.lt 0 (effective_rtt ⦃f = f⦄ best y) ≡ true
    → (x : ExitNode) × (pick_for ⦃f = f⦄ intn client best near r ≡ picked x)
      × IsFast f best near x y
pick_for-IsFast f intn client best near r y laws law many steady listed pos =
    let (x, got, m) = pick_for_some f laws intn client best near r law (omega arith) steady in
    let live = candidates excluded client r in
    (
      x,
      got,
      elim (pool-Mem f best near (length r.exits) live x m).1 [
        | inl few ↦ absurd (omega arith)
        | inr close ↦ near-IsFast f laws best near live x y close listed pos
      ],
    )

walk-Mem :
    (f : Floats) (m : Health) (last : ExitNode) (target : Float64) (es : List ExitNode)
    → Memᴰ (walk ⦃f = f⦄ m last target es) es ⊎ (walk ⦃f = f⦄ m last target es ≡ last)
unfolding walk
walk-Mem f m last target [] = inr refl
walk-Mem f m last target (e ∷ es) =
    let left = f.sub target (weight ⦃f = f⦄ m e) in
    elim (Bool-cases (f.le left 0)) [
      | inl c ↦ rw c (inl (head refl))
      | inr c ↦ rw c (elim (walk-Mem f m last left es) [ inl w ↦ inl (tail w) | inr w ↦ inr w ])
    ]

last_of-Mem : (e : ExitNode) (es : List ExitNode) → Memᴰ (last_of e es) (e ∷ es)
last_of-Mem e [] = head refl
last_of-Mem e (x ∷ es) = tail (last_of-Mem x es)

sticky-Mem :
    (f : Floats) (sha256 : String → Bytes) (ip : String) (m : Health) (es : List ExitNode)
    → 1 ≤ length es
    → (x : ExitNode) × (sticky ⦃f = f⦄ sha256 ip m es ≡ picked x) × Memᴰ x es
unfolding sticky
sticky-Mem f sha256 ip m [] h = absurd (omega arith)
sticky-Mem f sha256 ip m (e ∷ []) h = (e, refl, head refl)
sticky-Mem f sha256 ip m (e ∷ x ∷ es) h =
    let last = last_of e (x ∷ es) in
    let live = e ∷ x ∷ es in
    let target = f.mul (fraction ⦃f = f⦄ sha256 ip) (total_weight ⦃f = f⦄ m 0 live) in
    (
      walk ⦃f = f⦄ m last target live,
      refl,
      elim (walk-Mem f m last target live) [
        | inl w ↦ w
        | inr w ↦ subst (λ y. Memᴰ y live) (sym w) (last_of-Mem e (x ∷ es))
      ],
    )

-- PickForClient, where any exit is known, keeps the rule of PickFor, whatever times it finds, and whatever
-- the arithmetic and the hash: it chooses one of the known exits; a usable one if there is a usable
-- one; and if a usable one's country is unknown or neither the control's nor the client's, then one of
-- which that holds.
pub pick_for_client-Chosen :
    (f : Floats) (sha256 : String → Bytes) (ip client : String) (weighed : Health)
    (r : ExitRegistry)
    → 1 ≤ length r.exits
    → (x : ExitNode) × (pick_for_client ⦃f = f⦄ sha256 ip client weighed r ≡ picked x)
      × Chosen client r x
unfolding pick_for_client
pick_for_client-Chosen f sha256 ip client weighed r h =
    let es = candidates excluded client r in
    let (x, got, m) = sticky-Mem f sha256 ip weighed es (candidates-some client r h) in
    (
      x,
      choose_from r.exits h
            (sticky ⦃f = f⦄ sha256 ip weighed (candidates excluded_for_client client r))
          ∙ ap (sticky ⦃f = f⦄ sha256 ip weighed) (candidates-same client r)
          ∙ got,
      candidates-Chosen client r x m,
    )
