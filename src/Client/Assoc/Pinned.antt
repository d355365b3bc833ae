-- ===== src/Client/Assoc/Pinned.antt =====
-- snc/core/udp_assoc.go: when a destination loses the dialer that is pinned to it.
use tunnelcat_server.Base.{
  string_eq, nat_eq, ℕ, suc, ◌≤◌, ◌≡◌, ◌≢◌, ◌⊎◌, refl, sym, ap, ◌∙◌, subst, Bool, true, false, not,
  List, [], ◌∷◌, Option, none, some, String, eqb, ◌==◌, ◌&&◌, if◌then◌else◌, arith, Bool-cases, inl,
  inr,
}
use tunnelcat_server.Base.Map.{lookup, insert, lookup-insert}
use tunnelcat_server.Client.Assoc.{
  Dialer, DstStats, new_stats, Setup, Stats, Dst, stats_or_new, stats_of, counted, forward_outbound,
  fall_back, put_known, on_known, check_fallback, received, record_recv, after_send, note_send,
  is_dialer, unpin_if, unpin_failed, begin_dial, picked_dialer, pin, end_dial,
}

-- What happens in an association: a datagram from the client, the check of a fallback, a datagram from
-- a destination, the end of a send, and the two parts of `dialerFor`.
pub data Event : Type 0 where
  forwarded : ℕ → Dst → Event
  checked : String → Event
  got : String → Event
  sent : ℕ → Bool → String → Event
  begun : Bool → String → Event
  ended : Bool → Option Dialer → String → Event

unfoldable pub step : Setup → Event → Stats → Stats
unfolding forward_outbound check_fallback record_recv note_send begin_dial end_dial
step c (forwarded now dst) m = (forward_outbound c now dst m).0
step c (checked key) m = check_fallback key m
step c (got key) m = record_recv key m
step c (sent now ok key) m = note_send now ok key m
step c (begun failed key) m = begin_dial c failed key m
step c (ended failed pool key) m = end_dial c failed pool key m

-- The statistics after events, the last one first.
unfoldable pub stats_after : Setup → List Event → Stats
unfolding step
stats_after c [] = []
stats_after c (e ∷ earlier) = step c e (stats_after c earlier)

-- How many of the last sends to a destination have failed in a row.
unfoldable pub failed_in_a_row : String → List Event → ℕ
failed_in_a_row key [] = 0
failed_in_a_row key (sent now ok k ∷ es) =
    let before = failed_in_a_row key es in
    if k == key then (if ok then 0 else suc before) else before
failed_in_a_row key (forwarded now dst ∷ es) = failed_in_a_row key es
failed_in_a_row key (checked k ∷ es) = failed_in_a_row key es
failed_in_a_row key (got k ∷ es) = failed_in_a_row key es
failed_in_a_row key (begun failed k ∷ es) = failed_in_a_row key es
failed_in_a_row key (ended failed pool k ∷ es) = failed_in_a_row key es

-- What an event does to a destination that is known.
abbrev pub touch : Setup → String → Event → DstStats → DstStats
touch c key (forwarded now dst) st =
    if dst.is_ipv4 && not (eqb dst.port 53) && dst.key == key then counted now st else st
touch c key (checked k) st = if k == key then fall_back st else st
touch c key (got k) st = if k == key then received st else st
touch c key (sent now ok k) st = if k == key then after_send now ok st else st
touch c key (begun failed k) st = if k == key then unpin_failed c failed st else st
touch c key (ended failed pool k) st = if k == key then pin (picked_dialer c failed pool) st else st

-- One event touches a destination, or it is not known before and after.
abbrev pub Touched : Setup → String → Event → DstStats → DstStats → Type 0
Touched c key e before after =
    (after ≡ touch c key e before) ⊎ ((before ≡ new_stats) × (after ≡ new_stats))

stats_of-insert :
    (k key : String) (st : DstStats) (m : Stats)
    → stats_of key (insert k st m) ≡ (if k == key then st else stats_of key m)
unfolding stats_of
stats_of-insert k key st m = ground (arith, lookup-insert k key st m)

stats_of-put_known :
    (f : DstStats → DstStats) (k key : String) (m : Stats) (o : Option DstStats)
    → lookup k m ≡ o
    → let st = stats_of key m in
      (stats_of key (put_known f k m o) ≡ (if k == key then f st else st))
      ⊎ ((st ≡ new_stats) × (stats_of key (put_known f k m o) ≡ new_stats))
unfolding stats_of
stats_of-put_known f k key m none e = elim (Bool-cases (k == key)) [
  | inr other ↦ inl (rw other refl)
  | inl same ↦
      let absent : stats_or_new (lookup key m) ≡ new_stats =
        ap stats_or_new (subst (λ x. lookup x m ≡ none) ((string_eq.beq_iff k key).0 same) e) in
      inr (absent, absent)
]
stats_of-put_known f k key m (some st) e = inl (
    stats_of-insert k key (f st) m ∙ elim (Bool-cases (k == key)) [
      | inr other ↦ rw other refl
      | inl same ↦
          let here : stats_or_new (lookup key m) ≡ st =
            ap stats_or_new
              (subst (λ x. lookup x m ≡ some st) ((string_eq.beq_iff k key).0 same) e) in
          rw (same, here) refl
    ])

stats_of-on_known :
    (f : DstStats → DstStats) (k key : String) (m : Stats)
    → let st = stats_of key m in
      (stats_of key (on_known f k m) ≡ (if k == key then f st else st))
      ⊎ ((st ≡ new_stats) × (stats_of key (on_known f k m) ≡ new_stats))
unfolding on_known
stats_of-on_known f k key m = stats_of-put_known f k key m (lookup k m) refl

at_key :
    (f : DstStats → DstStats) (k key : String) (m : Stats)
    → (if k == key then f (stats_of k m) else stats_of key m)
      ≡ (if k == key then f (stats_of key m) else stats_of key m)
at_key f k key m = elim (Bool-cases (k == key)) [
  | inl e ↦
      ap (λ x. if k == key then f (stats_of x m) else stats_of key m)
        ((string_eq.beq_iff k key).0 e)
  | inr e ↦ rw e refl
]

forward_touches :
    (c : Setup) (now : ℕ) (dst : Dst) (m : Stats) (key : String)
    → stats_of key (forward_outbound c now dst m).0
      ≡ touch c key (forwarded now dst) (stats_of key m)
unfolding forward_outbound
forward_touches c now dst m key = elim (Bool-cases dst.is_ipv4) [
  | inr e ↦ rw e refl
  | inl e ↦ elim (Bool-cases (eqb dst.port 53)) [
    | inl dns ↦ rw (e, dns) refl
    | inr other ↦
        rw (e, other)
          (stats_of-insert dst.key key (counted now (stats_of dst.key m)) m
            ∙ at_key (counted now) dst.key key m)
  ]
]

touch_streak :
    (c : Setup) (key : String) (e : Event) (es : List Event) (st : DstStats)
    → st.err_streak ≤ failed_in_a_row key es
    → (touch c key e st).err_streak ≤ failed_in_a_row key (e ∷ es)
unfolding failed_in_a_row counted fall_back received after_send unpin_failed pin picked_dialer
touch_streak c key (forwarded now dst) es st h = ground arith
touch_streak c key (checked k) es st h = ground arith
touch_streak c key (got k) es st h = ground arith
touch_streak c key (sent now ok k) es st h = ground arith
touch_streak c key (begun failed k) es st h = ground arith
touch_streak c key (ended failed pool k) es st h = ground arith

pub step-Touched :
    (c : Setup) (e : Event) (m : Stats) (key : String)
    → Touched c key e (stats_of key m) (stats_of key (step c e m))
unfolding step check_fallback record_recv note_send end_dial begin_dial
step-Touched c (checked k) m key = stats_of-on_known fall_back k key m
step-Touched c (got k) m key = stats_of-on_known received k key m
step-Touched c (sent now ok k) m key = stats_of-on_known (after_send now ok) k key m
step-Touched c (ended failed pool k) m key =
    stats_of-on_known (pin (picked_dialer c failed pool)) k key m
step-Touched c (begun failed k) m key = inl (
    stats_of-insert k key (unpin_failed c failed (stats_of k m)) m
    ∙ at_key (unpin_failed c failed) k key m)
step-Touched c (forwarded now dst) m key = inl (forward_touches c now dst m key)

-- The streak that the breaker keeps is not longer than the run of failed sends.
streak-le :
    (c : Setup) (key : String) (es : List Event)
    → (stats_of key (stats_after c es)).err_streak ≤ failed_in_a_row key es
unfolding stats_after failed_in_a_row stats_of lookup
streak-le c key [] = omega arith
streak-le c key (e ∷ es) =
    let m = stats_after c es in
    elim (step-Touched c e m key) [
      | inr (was, now_is) ↦
          subst (λ (st : DstStats). st.err_streak ≤ failed_in_a_row key (e ∷ es)) (sym now_is)
            (omega arith)
      | inl t ↦
          subst (λ (st : DstStats). st.err_streak ≤ failed_in_a_row key (e ∷ es)) (sym t)
            (touch_streak c key e es (stats_of key m) (streak-le c key es))
    ]

-- Why a dialer may be taken away at an event: the last five sends to the destination have failed, or
-- the dialer is the realtime one, which has failed.
abbrev pub Broken : Setup → String → Dialer → Event → List Event → Type 0
Broken c key d e es =
    (5 ≤ failed_in_a_row key (e ∷ es)) ⊎ ((e ≡ begun true key) × (c.realtime ≡ some d))

is_dialer-eq : (r : Option Dialer) (d : Dialer) → is_dialer r d ≡ true → r ≡ some d
is_dialer-eq none d h = absurd (ground arith)
is_dialer-eq (some r) d h = ap some (ground arith)

is_not_dialer : (r : Option Dialer) (d : Dialer) → is_dialer r d ≡ false → r ≢ some d
is_not_dialer none d h same = absurd (ground arith)
is_not_dialer (some r) d h same = ground arith

unpin_keeps :
    (c : Setup) (d : Dialer) (failed : Bool) (st : DstStats)
    → st.dialer ≡ some d
    → (is_dialer c.realtime d && failed) ≡ false
    → (unpin_failed c failed st).dialer ≡ some d
unfolding unpin_failed
unpin_keeps c d failed st had sound =
    let broken : Dialer → Bool = λ x. is_dialer c.realtime x && failed in
    ap (λ o. (unpin_if broken st o).dialer) had ∙ rw sound had

unpin-Broken :
    (c : Setup) (key : String) (d : Dialer) (failed : Bool) (k : String) (es : List Event)
    (st : DstStats)
    → st.dialer ≡ some d
    → (touch c key (begun failed k) st).dialer ≢ some d
    → Broken c key d (begun failed k) es
unpin-Broken c key d failed k es st had lost = elim (Bool-cases (k == key)) [
  | inr e ↦ absurd (lost (rw e had))
  | inl e ↦ elim (Bool-cases (is_dialer c.realtime d && failed)) [
    | inr sound ↦ absurd (lost (rw e (unpin_keeps c d failed st had sound)))
    | inl broken ↦
        let down : failed ≡ true = ground arith in
        let is : is_dialer c.realtime d ≡ true = ground arith in
        inr (rw (down, (string_eq.beq_iff k key).0 e) refl, is_dialer-eq c.realtime d is)
  ]
]

pin_keeps :
    (o : Option Dialer) (d : Dialer) (st : DstStats)
    → st.dialer ≡ some d
    → (pin o st).dialer ≡ some d
unfolding pin
pin_keeps none d st had = had
pin_keeps (some x) d st had = ground (arith, had)

ended_keeps :
    (c : Setup) (key : String) (d : Dialer) (failed : Bool) (pool : Option Dialer) (k : String)
    (st : DstStats)
    → st.dialer ≡ some d
    → (touch c key (ended failed pool k) st).dialer ≡ some d
ended_keeps c key d failed pool k st had = elim (Bool-cases (k == key)) [
  | inl e ↦ rw e (pin_keeps (picked_dialer c failed pool) d st had)
  | inr e ↦ rw e had
]

touch-Broken :
    (c : Setup) (key : String) (d : Dialer) (e : Event) (es : List Event) (st : DstStats)
    → st.err_streak ≤ failed_in_a_row key es
    → st.dialer ≡ some d
    → (touch c key e st).dialer ≢ some d
    → Broken c key d e es
unfolding failed_in_a_row counted fall_back received after_send pin
touch-Broken c key d (forwarded now dst) es st h had lost = absurd (lost (ground arith))
touch-Broken c key d (checked k) es st h had lost = absurd (lost (ground arith))
touch-Broken c key d (got k) es st h had lost = absurd (lost (ground arith))
touch-Broken c key d (sent now ok k) es st h had lost = inl (ground arith)
touch-Broken c key d (begun failed k) es st h had lost =
    unpin-Broken c key d failed k es st had lost
touch-Broken c key d (ended failed pool k) es st h had lost =
    absurd (lost (ended_keeps c key d failed pool k st had))

has_dialer : (st : DstStats) (d : Dialer) → (st.dialer ≡ some d) ⊎ (st.dialer ≢ some d)
has_dialer st d = elim (Bool-cases (is_dialer st.dialer d)) [
  | inl e ↦ inl (is_dialer-eq st.dialer d e)
  | inr e ↦ inr (λ h. is_not_dialer st.dialer d e h)
]

-- A destination keeps its dialer at every event of an association, unless the last five sends to it have
-- failed, or the dialer is the realtime one and `dialerFor` has just found that it failed.
pub dialer_kept :
    (c : Setup) (key : String) (d : Dialer) (e : Event) (es : List Event)
    → (stats_of key (stats_after c es)).dialer ≡ some d
    → ((stats_of key (stats_after c (e ∷ es))).dialer ≡ some d) ⊎ Broken c key d e es
unfolding stats_after
dialer_kept c key d e es had =
    let m = stats_after c es in
    let st = stats_of key m in
    elim (step-Touched c e m key) [
      | inr (was, now_is) ↦ inl (ap (λ (x : DstStats). x.dialer) (now_is ∙ sym was) ∙ had)
      | inl t ↦ elim (has_dialer (touch c key e st) d) [
        | inl kept ↦ inl (ap (λ (x : DstStats). x.dialer) t ∙ kept)
        | inr lost ↦ inr (touch-Broken c key d e es st (streak-le c key es) had lost)
      ]
    ]
