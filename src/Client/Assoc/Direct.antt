-- ===== src/Client/Assoc/Direct.antt =====
-- snc/core/udp_assoc.go: which datagrams leave the client outside the tunnel.
use tunnelcat_server.Base.{
  string_eq, nat_eq, ℕ, ◌≡◌, ◌⊎◌, sym, ap, ◌∙◌, subst, Bool, true, false, not, List, [], ◌∷◌, ◌++◌,
  Option, none, some, String, eqb, ◌==◌, ◌&&◌, ◌||◌, if◌then◌else◌, arith, Bool-cases, inl, inr,
}
use tunnelcat_server.Base.Map.{insert}
use tunnelcat_server.Client.Assoc.{
  DstStats, Setup, Stats, Dst, Route, dropped, tunnel, direct, probe, stats_of, counted, route_of,
  forward_outbound, fall_back, received, after_send, unpin_failed, unpin_if, pin, is_dialer,
  picked_dialer,
}
use tunnelcat_server.Client.Assoc.Pinned.{
  Event, forwarded, checked, got, sent, begun, ended, stats_after, touch, step-Touched,
}

-- A datagram that is sent to its destination as it is.
abbrev pub IsDirect : Route → Type 0
IsDirect r = (r ≡ direct) ⊎ (r ≡ probe)

-- Whether the destination is reached through the tunnel for good.
abbrev pub has_fallen_back : Setup → String → List Event → Bool
has_fallen_back c key es = (stats_of key (stats_after c es)).use_tunnel

unpin_tunnel :
    (broken : ℕ → Bool) (st : DstStats) (o : Option ℕ)
    → st.use_tunnel ≡ true
    → (unpin_if broken st o).use_tunnel ≡ true
unpin_tunnel broken st none h = h
unpin_tunnel broken st (some d) h = ground arith

pin_tunnel : (o : Option ℕ) (st : DstStats) → st.use_tunnel ≡ true → (pin o st).use_tunnel ≡ true
unfolding pin
pin_tunnel none st h = h
pin_tunnel (some d) st h = ground arith

touch_tunnel :
    (c : Setup) (key : String) (e : Event) (st : DstStats)
    → st.use_tunnel ≡ true
    → (touch c key e st).use_tunnel ≡ true
unfolding counted fall_back received after_send unpin_failed
touch_tunnel c key (forwarded now dst) st h = ground arith
touch_tunnel c key (checked k) st h = ground arith
touch_tunnel c key (got k) st h = ground arith
touch_tunnel c key (sent now ok k) st h = ground arith
touch_tunnel c key (begun failed k) st h = elim (Bool-cases (k == key)) [
  | inl e ↦ rw e (unpin_tunnel (λ d. is_dialer c.realtime d && failed) st st.dialer h)
  | inr e ↦ rw e h
]
touch_tunnel c key (ended failed pool k) st h = elim (Bool-cases (k == key)) [
  | inl e ↦ rw e (pin_tunnel (picked_dialer c failed pool) st h)
  | inr e ↦ rw e h
]

step_tunnel :
    (c : Setup) (key : String) (e : Event) (es : List Event)
    → has_fallen_back c key es ≡ true
    → has_fallen_back c key (e ∷ es) ≡ true
unfolding stats_after
step_tunnel c key e es h =
    let m = stats_after c es in
    elim (step-Touched c e m key) [
      | inl t ↦ ap (λ (st : DstStats). st.use_tunnel) t ∙ touch_tunnel c key e (stats_of key m) h
      | inr (was, now_is) ↦ ap (λ (st : DstStats). st.use_tunnel) (now_is ∙ sym was) ∙ h
    ]

later_tunnel :
    (c : Setup) (key : String) (later earlier : List Event)
    → has_fallen_back c key earlier ≡ true
    → has_fallen_back c key (later ++ earlier) ≡ true
later_tunnel c key [] earlier h = h
later_tunnel c key (e ∷ later) earlier h =
    step_tunnel c key e (later ++ earlier) (later_tunnel c key later earlier h)

-- Why a datagram may be sent directly: it is a DNS query in WildCat mode, or its destination is to be
-- reached without the tunnel and has not fallen back to it.
abbrev pub MayBeDirect : Setup → Dst → Bool → Type 0
MayBeDirect c dst fallen =
    (c.tunnel_only ≡ false)
    × (((dst.port ≡ 53) × (c.wildcat_dns ≡ true)) ⊎ ((dst.is_bypass ≡ true) × (fallen ≡ false)))

not_dropped : {A : Type 0} → IsDirect dropped → A
not_dropped (inl e) = absurd (ground arith)
not_dropped (inr e) = absurd (ground arith)

not_tunnel : {A : Type 0} → IsDirect tunnel → A
not_tunnel (inl e) = absurd (ground arith)
not_tunnel (inr e) = absurd (ground arith)

counted_tunnel : (now : ℕ) (st : DstStats) → (counted now st).use_tunnel ≡ st.use_tunnel
unfolding counted
counted_tunnel now st = ground arith

route_direct :
    (c : Setup) (dst : Dst) (st : DstStats)
    → IsDirect (route_of c dst st)
    → (c.tunnel_only ≡ false) × (dst.is_bypass ≡ true) × (st.use_tunnel ≡ false)
route_direct c dst st h =
    let fam : Bool → Type 0 =
      λ b. IsDirect (if b then tunnel else if eqb st.sent_count 3 then probe else direct) in
    elim (Bool-cases (st.use_tunnel || c.tunnel_only || not dst.is_bypass)) [
      | inl e ↦ not_tunnel (subst fam e h)
      | inr e ↦ (ground arith, ground arith, ground arith)
    ]

forward_direct :
    (c : Setup) (now : ℕ) (dst : Dst) (m : Stats)
    → IsDirect (forward_outbound c now dst m).1
    → MayBeDirect c dst (stats_of dst.key m).use_tunnel
unfolding forward_outbound
forward_direct c now dst m h =
    let st = stats_of dst.key m in
    let dns_way : Bool → Route = λ b. if b then direct else tunnel in
    let result : Bool → Bool → Stats × Route = λ v4 dns.
      if not v4
      then (m, dropped)
      else if dns
      then (m, dns_way (c.wildcat_dns && not c.tunnel_only))
      else (insert dst.key (counted now st) m, route_of c dst (counted now st)) in
    let route : Bool → Bool → Route = λ v4 dns. (result v4 dns).1 in
    elim (Bool-cases dst.is_ipv4) [
      | inr e ↦ not_dropped (subst (λ b. IsDirect (route b (eqb dst.port 53))) e h)
      | inl e ↦
          let h1 = subst (λ b. IsDirect (route b (eqb dst.port 53))) e h in
          elim (Bool-cases (eqb dst.port 53)) [
            | inl dns ↦
                let h2 = subst (λ b. IsDirect (route true b)) dns h1 in
                elim (Bool-cases (c.wildcat_dns && not c.tunnel_only)) [
                  | inr w ↦ not_tunnel (subst (λ b. IsDirect (dns_way b)) w h2)
                  | inl w ↦ (ground arith, inl (ground arith, ground arith))
                ]
            | inr other ↦
                let (free, bypass, fresh) =
                  route_direct c dst (counted now st)
                    (subst (λ b. IsDirect (route true b)) other h1) in
                (free, inr (bypass, sym (counted_tunnel now st) ∙ fresh))
          ]
    ]

-- A datagram leaves an association outside the tunnel only if the association is not bound to the tunnel,
-- and it is a DNS query in WildCat mode, or its destination is one of those to be reached without the
-- tunnel and had not fallen back to it at any time before.
pub forward_outbound-IsDirect :
    (c : Setup) (now : ℕ) (dst : Dst) (later earlier : List Event)
    → IsDirect (forward_outbound c now dst (stats_after c (later ++ earlier))).1
    → MayBeDirect c dst (has_fallen_back c dst.key earlier)
forward_outbound-IsDirect c now dst later earlier h =
    let (open_way, why) = forward_direct c now dst (stats_after c (later ++ earlier)) h in
    (
      open_way,
      elim why [
        | inl dns ↦ inl dns
        | inr (bypass, not_now) ↦ inr (
          bypass,
          elim (Bool-cases (has_fallen_back c dst.key earlier)) [
            | inr never ↦ never
            | inl before ↦
                absurd (ground (arith, later_tunnel c dst.key later earlier before, not_now))
          ],
        )
      ],
    )
