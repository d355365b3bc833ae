-- ===== src/Control/Exits/Pick/Rule.antt =====
-- snc-control/exits.go: which exits PickFor and PickForClient can choose.
use tunnelcat_server.Base.{
  string_eq, ◌≤◌, ◌≡◌, ◌⊎◌, refl, sym, ap, subst, Bool, true, false, not, List, [], ◌∷◌, String,
  eqb, ◌==◌, ◌&&◌, ◌||◌, length, arith, Bool-cases, inl, inr,
}
use tunnelcat_server.Base.Map.{Map, lookup}
use tunnelcat_server.Control.Health.Rtt.{ExitNode}
use tunnelcat_server.Control.Exits.{ExitRegistry}
use tunnelcat_server.Control.Exits.Prefer.{
  prefer, prefer-listed, prefer-passes, prefer-keeps, prefer-some,
}
use tunnelcat_server.Control.Exits.Pick.{
  is_usable, region_of, excluded, excluded_for_client, abroad_by, candidates,
}
use mathlib.Core.Path.{fun_ext}
use mathlib.Core.List.{Memᴰ}

-- What both functions promise of the exit that they choose for a client's country. The second and third
-- clause are about any other exit `y` of the registry.
pub record Chosen (client : String) (r : ExitRegistry) (x : ExitNode) : Type 0 where
  pub listed : Memᴰ x r.exits
  pub usable :
      (y : ExitNode) → Memᴰ y r.exits → is_usable r.health y ≡ true → is_usable r.health x ≡ true
  pub abroad :
      (y : ExitNode)
      → Memᴰ y r.exits
      → is_usable r.health y ≡ true
      → excluded r.my_region client (region_of r.exit_regions y) ≡ false
      → excluded r.my_region client (region_of r.exit_regions x) ≡ false

-- The two tests of a country agree.
pub excluded_for_client-excluded :
    (my client cc : String) → excluded_for_client my client cc ≡ excluded my client cc
unfolding excluded excluded_for_client
excluded_for_client-excluded my client cc = ground arith

-- Where nothing is filtered, no exit is excluded.
unfiltered :
    (my client : String) (regions : Map String String) (x : ExitNode)
    → ((not (my == "") || not (client == "")) && not (eqb (length regions) 0)) ≡ false
    → excluded my client (region_of regions x) ≡ false
unfolding excluded region_of lookup
unfiltered my client [] x h = refl
unfiltered my client (e ∷ regions) x h = ground arith

-- PickFor and PickForClient choose among the same exits, though they test countries differently.
pub candidates-same :
    (client : String) (r : ExitRegistry)
    → candidates excluded_for_client client r ≡ candidates excluded client r
candidates-same client r =
    ap (λ (out : String → String → String → Bool). candidates out client r)
      (fun_ext (λ my. fun_ext (λ c. fun_ext (λ cc. excluded_for_client-excluded my c cc))))

abbrev filters : String → String → Map String String → Bool
filters my client regions = (not (my == "") || not (client == "")) && not (eqb (length regions) 0)

abroad_by-cases :
    (out : String → Bool) (my client : String) (regions : Map String String) (live : List ExitNode)
    → (abroad_by out my client regions live ≡ prefer (λ e. not (out (region_of regions e))) live)
      ⊎ ((filters my client regions ≡ false) × (abroad_by out my client regions live ≡ live))
unfolding abroad_by
abroad_by-cases out my client regions live = elim (Bool-cases (filters my client regions)) [
  | inl e ↦ inl (rw e refl)
  | inr e ↦ inr (e, rw e refl)
]

-- The list that is left of the registry's exits, by the test of PickFor.
module _ (client : String) (r : ExitRegistry) where
  abbrev live : List ExitNode
  live = prefer (is_usable r.health) r.exits

  abbrev is_abroad : ExitNode → Bool
  is_abroad e = not (excluded r.my_region client (region_of r.exit_regions e))

  candidates-live : (x : ExitNode) → Memᴰ x (candidates excluded client r) → Memᴰ x live
  unfolding candidates
  candidates-live x m =
      elim (abroad_by-cases (excluded r.my_region client) r.my_region client r.exit_regions live) [
        | inl e ↦ prefer-listed is_abroad live x (subst (Memᴰ x) e m)
        | inr (_, e) ↦ subst (Memᴰ x) e m
      ]

  candidates-abroad :
      (x y : ExitNode)
      → Memᴰ x (candidates excluded client r)
      → Memᴰ y live
      → is_abroad y ≡ true
      → is_abroad x ≡ true
  unfolding candidates
  candidates-abroad x y m listed away =
      elim (abroad_by-cases (excluded r.my_region client) r.my_region client r.exit_regions live) [
        | inl e ↦ prefer-passes is_abroad live x y (subst (Memᴰ x) e m) listed away
        | inr (off, e) ↦ ap not (unfiltered r.my_region client r.exit_regions x off)
      ]

  pub candidates-some : 1 ≤ length r.exits → 1 ≤ length (candidates excluded client r)
  unfolding candidates
  candidates-some h =
      let left = prefer-some (is_usable r.health) r.exits h in
      elim (abroad_by-cases (excluded r.my_region client) r.my_region client r.exit_regions live) [
        | inl e ↦ subst (λ l. 1 ≤ length l) (sym e) (prefer-some is_abroad live left)
        | inr (_, e) ↦ subst (λ l. 1 ≤ length l) (sym e) left
      ]

  pub candidates-Chosen : (x : ExitNode) → Memᴰ x (candidates excluded client r) → Chosen client r x
  candidates-Chosen x m =
      let among = candidates-live x m in
      record {
        listed = prefer-listed (is_usable r.health) r.exits x among;
        usable = λ y. prefer-passes (is_usable r.health) r.exits x y among;
        abroad = λ y listed ok away.
            let out =
              candidates-abroad x y m (prefer-keeps (is_usable r.health) r.exits y listed ok)
                (ap not away) in
            ground arith;
      }
