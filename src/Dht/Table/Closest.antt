-- ===== src/Dht/Table/Closest.antt =====
-- The answer of `Closest`, for any sorting function.
use mathlib.Core.List.{Perm}
use tunnelcat_server.Base.{
  nat_eq, list_eq, ℕ, zero, suc, ◌≤◌, ◌≡◌, refl, sym, ap, subst, List, [], ◌∷◌, ◌++◌, ltb, leb,
  length, length-take, take, drop, All, arith, Bool-cases, inl, inr, ◌⊎◌,
}
use tunnelcat_server.Dht.Id.{NodeId}
use tunnelcat_server.Dht.Table.{Contact, RoutingTable, Sorter, candidates, distance64, closest}

-- Keys do not fall along the list.
abbrev pub IsSortedBy : (Contact → ℕ) → List Contact → Type 0
IsSortedBy key [] = Unit {0}
IsSortedBy key (c ∷ cs) = All (λ d. key c ≤ key d) cs × IsSortedBy key cs

-- What the code relies on: the result is sorted, and has the elements of the argument.
pub record IsSorter (sort : Sorter) : Type 0 where
  pub sorted : (key : Contact → ℕ) (cs : List Contact) → IsSortedBy key (sort key cs)
  pub same : (key : Contact → ℕ) (cs : List Contact) → Perm (sort key cs) cs

take-append-drop : (n : ℕ) (xs : List Contact) → take n xs ++ drop n xs ≡ xs
take-append-drop zero xs = refl
take-append-drop (suc n) [] = refl
take-append-drop (suc n) (x ∷ xs) = rw (take-append-drop n xs)

take_all : (n : ℕ) (xs : List Contact) → length xs ≤ n → (take n xs ≡ xs) × (drop n xs ≡ [])
take_all zero [] h = (refl, refl)
take_all zero (x ∷ xs) h = absurd (omega arith)
take_all (suc n) [] h = (refl, refl)
take_all (suc n) (x ∷ xs) h = let (t, d) = take_all n xs (omega arith) in (ap (◌∷◌ x) t, d)

All-drop : (P : Contact → Type 0) (n : ℕ) (xs : List Contact) → All P xs → All P (drop n xs)
All-drop P zero xs h = h
All-drop P (suc n) [] h = tt
All-drop P (suc n) (x ∷ xs) h = All-drop P n xs h.1

-- Sorted, the front is no further than the back.
front_before_back :
    (key : Contact → ℕ) (n : ℕ) (xs : List Contact)
    → IsSortedBy key xs
    → All (λ c. All (λ d. key c ≤ key d) (drop n xs)) (take n xs)
front_before_back key zero xs h = tt
front_before_back key (suc n) [] h = tt
front_before_back key (suc n) (x ∷ xs) h = (All-drop _ n xs h.0, front_before_back key n xs h.1)

closest-take :
    (sort : Sorter) (target : NodeId) (n : ℕ) (rt : RoutingTable)
    → closest sort target n rt ≡ take n (sort (distance64 target) (candidates rt))
unfolding closest
closest-take sort target n rt =
    elim (Bool-cases (ltb n (length (sort (distance64 target) (candidates rt))))) [
      | inl e ↦ rw e
      | inr e ↦ rw e (sym (take_all n (sort (distance64 target) (candidates rt)) (ground arith)).0)
    ]

-- With a sorting function that sorts and keeps the elements, `Closest` answers with `n` of the contacts that are not suspect, or with all if there are fewer,
-- and none of those that it leaves out is nearer to the target, as far as the first 64 bits of the
-- distance tell.
pub closest_nearest :
    (sort : Sorter) (target : NodeId) (n : ℕ) (rt : RoutingTable)
    → IsSorter sort
    → let near = closest sort target n rt in
      (rest : List Contact) × Perm (near ++ rest) (candidates rt)
      × All (λ c. All (λ d. distance64 target c ≤ distance64 target d) rest) near
      × ((length near ≡ n) ⊎ (rest ≡ []))
closest_nearest sort target n rt s =
    let all = sort (distance64 target) (candidates rt) in
    let e = closest-take sort target n rt in
    rw e (
      drop n all,
      subst (λ (cs : List Contact). Perm cs (candidates rt)) (sym (take-append-drop n all))
          (s.same (distance64 target) (candidates rt)),
      front_before_back (distance64 target) n all (s.sorted (distance64 target) (candidates rt)),
      elim (Bool-cases (leb n (length all))) [
        | inl h ↦ inl (ground (arith, length-take n all))
        | inr h ↦ inr (take_all n all (ground arith)).1
      ],
    )
