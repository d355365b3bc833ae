-- ===== src/Control/Reflector/Burst.antt =====
-- snc-control/udp_reflector.go: how many packets of one source pass in a short time.
use tunnelcat_server.Base.{
  string_eq, ℕ, suc, ◌+◌, ◌-◌, ◌≤◌, ◌<◌, ◌≡◌, subst, Bool, List, [], ◌∷◌, Option, none, some,
  String, leb, ◌==◌, ◌&&◌, if◌then◌else◌, All, arith, Bool-cases, inl, inr,
}
use tunnelcat_server.Base.Map.{lookup, lookup-insert}
use tunnelcat_server.Control.Reflector.{IpBucket, window, max_packets, Buckets, admit, allow}

-- How many packets of `ip` pass, of a sequence of packets with their times and sources.
unfoldable pub passed : String → List (ℕ × String) → Buckets → ℕ
unfolding allow
passed ip [] m = 0
passed ip ((now, src) ∷ ps) m =
    let r = allow now src m in
    let rest = passed ip ps r.0 in if r.1 && src == ip then suc rest else rest

abbrev pub Within : ℕ → List (ℕ × String) → Type 0
Within t = All (λ p. (t ≤ p.0) × (p.0 < t + window))

-- How many packets a bucket still lets through before a time, if it is not reset.
abbrev budget : ℕ → Option IpBucket → ℕ
budget t none = 50
budget t (some b) =
    if leb (t + window) (b.window_start + window) then 50 - b.count else 50 - b.count + 50

-- A packet that passes takes one from the budget, and one that does not takes nothing.
admit-budget :
    (t now : ℕ) (o : Option IpBucket)
    → t ≤ now
    → now < t + window
    → let r = admit now o in (if r.1 then 1 else 0) + budget t (some r.0) ≤ budget t o
unfolding admit
admit-budget t now none h l = ground arith
admit-budget t now (some b) h l = elim (Bool-cases (leb (b.window_start + window) now)) [
  | inl e ↦ rw e (ground arith)
  | inr e ↦ elim (Bool-cases (leb (suc b.count) max_packets)) [
    | inl f ↦ rw (e, f) (ground arith)
    | inr f ↦ rw (e, f) (ground arith)
  ]
]

budget-le : (t : ℕ) (o : Option IpBucket) → budget t o ≤ 100
budget-le t none = omega arith
budget-le t (some b) = ground arith

passed-budget :
    (t : ℕ) (ip : String) (ps : List (ℕ × String)) (m : Buckets)
    → Within t ps
    → passed ip ps m ≤ budget t (lookup ip m)
unfolding passed allow
passed-budget t ip [] m h = omega arith
passed-budget t ip ((now, src) ∷ ps) m h =
    let r = admit now (lookup src m) in
    let step = admit-budget t now (lookup src m) h.0.0 h.0.1 in
    let ih = passed-budget t ip ps (allow now src m).0 h.1 in
    let held : lookup ip (allow now src m).0 ≡ (if src == ip then some r.0 else lookup ip m) =
      lookup-insert src ip r.0 m in
    let bound = λ (c : Bool).
      passed ip ps (allow now src m).0 ≤ budget t (if c then some r.0 else lookup ip m) in
    let ih' =
      subst (λ (o : Option IpBucket). passed ip ps (allow now src m).0 ≤ budget t o) held ih in
    elim (Bool-cases (src == ip)) [
      | inl e ↦
          let rest = subst bound e ih' in
          let spent =
            subst
              (λ (i : String). (if r.1 then 1 else 0) + budget t (some r.0) ≤ budget t (lookup i m))
              ((string_eq.beq_iff src ip).0 e) step in
          elim (Bool-cases r.1) [
            | inl f ↦ rw (e, f) (ground arith)
            | inr f ↦ rw (e, f) (ground arith)
          ]
      | inr e ↦
          let rest = subst bound e ih' in
          elim (Bool-cases r.1) [ inl f ↦ rw (e, f) rest | inr f ↦ rw (e, f) rest ]
    ]

-- Of the packets that arrive within any one second, at most 100 of one source pass, whatever other
-- sources send: twice the limit of a window, since a window may end in that second.
pub passed_in_a_second :
    (t : ℕ) (ip : String) (ps : List (ℕ × String)) (m : Buckets)
    → Within t ps
    → passed ip ps m ≤ 100
passed_in_a_second t ip ps m h = omega (arith, passed-budget t ip ps m h, budget-le t (lookup ip m))
