-- ===== src/Control/Exits/Refresh/Gate.antt =====
-- snc-control/exits.go: what refresh() lets into the registry, and what its errors leave.
use tunnelcat_server.Base.{
  ℕ, ◌≡◌, ◌≢◌, ◌⊎◌, refl, sym, ap, ◌∙◌, subst, Bool, true, All, Option, none, some, String, ◌==◌,
  ◌||◌, arith, inl, inr, string_eq,
}
use tunnelcat_server.Base.Map.{lookup}
use tunnelcat_server.Control.Health.{is_alive}
use tunnelcat_server.Control.Health.Rtt.{ExitNode}
use tunnelcat_server.Control.Exits.{ExitRegistry, Signed, Saved, untouched, merge_signed, persist}
use tunnelcat_server.Control.Exits.Refresh.Origin.{cached_nodes, revived-origin}
use tunnelcat_server.Control.Exits.Prune.{IsCurrent}
use tunnelcat_server.Control.Exits.Prefer.{Pick, picked, IsIntn, Mem-keep}
use tunnelcat_server.Control.Exits.Latest.{latest, IsRange, latest-Mem, Distinct}
use tunnelcat_server.Control.Exits.Merge.{survivor, latest-merge_signed, merge_signed-IsCurrent}
use tunnelcat_server.Control.Exits.Refresh.{
  Outside, Verdict, crashed, refused, accepted, RefreshError, no_exit, revived, pick_random,
  verify_exit_fingerprint, verified_nodes, fetch_list, ask, apply_list, refresh,
}
use mathlib.Core.List.{Memᴰ}
use tunnelcat_server.Control.Exits.Refresh.Steps.{
  Authentic, pick_of-picks, ask-accepts, fetch_list_alive,
}

-- A refused list: it changes nothing, and nothing is written.
pub record Unchanged (r : ExitRegistry) (result : ExitRegistry × Verdict × Saved) : Type 0 where
  pub error : RefreshError
  pub verdict : result.1 ≡ refused error
  pub same : result.0 ≡ r
  pub unwritten : result.2 ≡ untouched

-- A list that was taken over: an exit of the registry at the start gave it, and it is authentic; it is
-- merged into the registry as it is by then, and the merged exits are handed to `persist`.
pub record TakenOver (o : Outside) (r now : ExitRegistry) (checked merged : ℕ)
    (result : ExitRegistry × Verdict × Saved) : Type 0 where
  pub signed : Signed
  pub verdict : result.1 ≡ accepted signed
  pub authentic : Authentic o r checked signed
  pub same : result.0 ≡ merge_signed o.order merged (verified_nodes o signed.nodes) signed now
  pub written : result.2 ≡ persist o.disk result.0

apply_list-cases :
    (o : Outside) (checked merged : ℕ) (r now : ExitRegistry) (x : ExitNode) (v : Verdict)
    → Memᴰ x r.exits
    → ask o r.has_pubkey checked (picked x) ≡ v
    → v ≢ crashed
    → let (next, file) = apply_list o merged now v in
      Unchanged now (next, v, file) ⊎ TakenOver o r now checked merged (next, v, file)
unfolding apply_list
apply_list-cases o checked merged r now x crashed m h alive = absurd (alive refl)
apply_list-cases o checked merged r now x (refused e) m h alive =
    inl (record { error = e; verdict = refl; same = refl; unwritten = refl })
apply_list-cases o checked merged r now x (accepted s) m h alive = inr (record {
  signed = s;
  verdict = refl;
  authentic = ask-accepts o r checked x s m h;
  same = refl;
  written = refl;
})

-- refresh() never panics. It either returns an error, and then it has changed nothing but what PickRandom
-- loaded, the registry is as the other goroutines have left it since, and the cache file is not
-- touched; or it takes over a list that was answered by an exit that the registry had after PickRandom,
-- not more than ten minutes old and signed if there is a key, merges it into the registry as the other
-- goroutines have left it by then, and hands the result to persist.
pub refresh_all_or_nothing :
    (o : Outside) (start checked merged : ℕ) (others : ExitRegistry → ExitRegistry)
    (r : ExitRegistry)
    → IsIntn o.intn
    → let r1 = revived o start r in
      let result = refresh o start checked merged others r in
      Unchanged (others r1) result ⊎ TakenOver o r1 (others r1) checked merged result
unfolding refresh pick_random ask
refresh_all_or_nothing o start checked merged others r law =
    let r1 = revived o start r in
    let alive : ExitNode → Bool = λ x. is_alive x.addr r1.health in
    let after : Pick → ExitRegistry × Verdict × Saved = λ k.
      let v = ask o r1.has_pubkey checked k in
      let (next, file) = apply_list o merged (others r1) v in (next, v, file) in
    let Claim : Pick → Type 0 =
      λ k. Unchanged (others r1) (after k) ⊎ TakenOver o r1 (others r1) checked merged (after k) in
    elim (pick_of-picks o.intn alive r1.exits law) [
      | inl e ↦
          subst Claim (sym e)
            (inl (record { error = no_exit; verdict = refl; same = refl; unwritten = refl }))
      | inr (x, got, m) ↦ subst Claim (sym got) (
          apply_list-cases o checked merged r1 (others r1) x (fetch_list o r1.has_pubkey checked x)
            m refl (fetch_list_alive o r1.has_pubkey checked x))
    ]

refused_accepted : (e : RefreshError) (s : Signed) → refused e ≢ accepted s
refused_accepted e s h = absurd (ground arith)

-- After a refresh() that takes a list over, no address is twice in the registry, and each exit in it was
-- last seen at most a day before the merge, whatever the other goroutines did during the request.
pub refresh-IsCurrent :
    (o : Outside) (start checked merged : ℕ) (others : ExitRegistry → ExitRegistry)
    (r : ExitRegistry) (s : Signed)
    → IsIntn o.intn
    → IsRange o.order
    → (refresh o start checked merged others r).1 ≡ accepted s
    → let next = (refresh o start checked merged others r).0 in
      Distinct next.exits × All (IsCurrent merged next.last_seen) next.exits
refresh-IsCurrent o start checked merged others r s law range took =
    elim (refresh_all_or_nothing o start checked merged others r law) [
      | inl u ↦ absurd (refused_accepted u.error s (sym u.verdict ∙ took))
      | inr t ↦
          subst
            (λ (next : ExitRegistry).
              Distinct next.exits × All (IsCurrent merged next.last_seen) next.exits)
            (sym t.same)
            (merge_signed-IsCurrent o.order merged (verified_nodes o t.signed.nodes) t.signed
              (others (revived o start r)) range)
    ]

survivor-cases :
    (now : ℕ) (new old : Option ExitNode) (seen : Option ℕ) (e : ExitNode)
    → survivor now new old seen ≡ some e
    → (old ≡ some e) ⊎ (new ≡ some e)
unfolding survivor
survivor-cases now (some x) old seen e h = inr h
survivor-cases now none none seen e h = inl h
survivor-cases now none (some x) none e h = inl h
survivor-cases now none (some x) (some t) e h = ground arith

-- What a list that was taken over says of an exit.
abbrev pub IsListed : Outside → ExitRegistry → ℕ → ExitNode → Type 0
IsListed o r checked e =
    (s : Signed) × Authentic o r checked s
    × Memᴰ e s.nodes
    × ((e.fingerprint == "" || verify_exit_fingerprint o e.addr e.fingerprint) ≡ true)

admitted :
    (o : Outside) (checked merged : ℕ) (r now : ExitRegistry) (s : Signed) (a : String)
    (e : ExitNode)
    → IsRange o.order
    → Authentic o r checked s
    → latest a (merge_signed o.order merged (verified_nodes o s.nodes) s now).exits ≡ some e
    → (latest a now.exits ≡ some e) ⊎ IsListed o r checked e
unfolding verified_nodes
admitted o checked merged r now s a e range auth h =
    let new = verified_nodes o s.nodes in
    let passes : ExitNode → Bool =
      λ x. x.fingerprint == "" || verify_exit_fingerprint o x.addr x.fingerprint in
    let left = sym (latest-merge_signed o.order merged new s now a range) ∙ h in
    elim (survivor-cases merged (latest a new) (latest a now.exits) (lookup a now.last_seen) e
      left) [
        | inl old ↦ inl old
        | inr fresh ↦
            let (listed, ok) = Mem-keep passes e s.nodes (latest-Mem a new e fresh) in
            inr (s, auth, listed, ok)
      ]

-- An exit that refresh() leaves under an address, which no other goroutine changed during the request, was
-- there before the call; or the unsigned cache file has it under that address, which PickRandom loads;
-- or it stands in a list that was fetched just now through an exit that the registry had after
-- PickRandom, not more than ten minutes old and signed if there is a key, and its certificate has the
-- fingerprint that the list gives for it, if it gives one.
pub refresh_admits :
    (o : Outside) (start checked merged : ℕ) (others : ExitRegistry → ExitRegistry)
    (r : ExitRegistry) (a : String) (e : ExitNode)
    → IsIntn o.intn
    → IsRange o.order
    → latest a (others (revived o start r)).exits ≡ latest a (revived o start r).exits
    → latest a (refresh o start checked merged others r).0.exits ≡ some e
    → (latest a r.exits ≡ some e)
      ⊎ ((latest a (cached_nodes o.cache_file) ≡ some e) ⊎ IsListed o (revived o start r) checked e)
unfolding revived
refresh_admits o start checked merged others r a e law range quiet h =
    let r1 = revived o start r in
    let Result =
      (latest a r.exits ≡ some e)
      ⊎ ((latest a (cached_nodes o.cache_file) ≡ some e) ⊎ IsListed o r1 checked e) in
    let origin : latest a (others r1).exits ≡ some e → Result = λ was.
      elim (revived-origin o start r r.exits a e range (sym quiet ∙ was)) [
        | inl old ↦ inl old
        | inr filed ↦ inr (inl filed)
      ] in
    elim (refresh_all_or_nothing o start checked merged others r law) [
      | inl u ↦ origin (ap (λ (x : ExitRegistry). latest a x.exits) (sym u.same) ∙ h)
      | inr t ↦
          elim (admitted o checked merged r1 (others r1) t.signed a e range t.authentic
            (ap (λ (x : ExitRegistry). latest a x.exits) (sym t.same) ∙ h)) [
              | inl was ↦ origin was
              | inr listed ↦ inr (inr listed)
            ]
    ]
