-- ===== src/Base/Map.antt =====
-- Go maps as association lists with one entry a key. A read of a missing key gives `none`.
use Prim.Native.Nat.{suc, ◌+◌, ◌≤◌}
use mathlib.Core.Path.{◌≡◌, refl}
use mathlib.Core.Bool.{Bool}
use mathlib.Core.List.{List, [], ◌∷◌}
use mathlib.Core.Option.{Option, none, some}
use native.Mathlib.Omega.{arith}
use tunnelcat_server.Base.Tests.{Eq, ◌==◌, if◌then◌else◌}
use tunnelcat_server.Base.Lists.{length}

abbrev pub Map {ℓ κ} : Type ℓ → Type κ → Type (ℓ ⊔ κ)
Map K V = List (K × V)

-- What a sweep leaves of one key.
abbrev pub kept {ℓ κ} : {K : Type ℓ} {V : Type κ} → (K → V → Bool) → K → Option V → Option V
kept p k none = none
kept p k (some v) = if p k v then some v else none

module _ {ℓ κ} {K : Type ℓ} {V : Type κ} ⦃e : Eq K⦄ where
  unfoldable pub lookup : K → Map K V → Option V
  lookup k [] = none
  lookup k ((j, v) ∷ m) = if j == k then some v else lookup k m

  unfoldable pub delete : K → Map K V → Map K V
  delete k [] = []
  delete k ((j, v) ∷ m) = if j == k then delete k m else (j, v) ∷ delete k m

  unfoldable pub insert : K → V → Map K V → Map K V
  unfolding delete
  insert k v m = (k, v) ∷ delete k m

  -- `for k, v := range m { if !keep(k, v) { delete(m, k) } }`
  unfoldable pub sweep : (K → V → Bool) → Map K V → Map K V
  sweep p [] = []
  sweep p ((k, v) ∷ m) = if p k v then (k, v) ∷ sweep p m else sweep p m

  -- One entry a key.
  abbrev pub IsMap : Map K V → Type κ
  IsMap [] = Unit {κ}
  IsMap ((k, v) ∷ m) = (lookup k m ≡ none) × IsMap m

  pub lookup-delete :
      (k j : K) (m : Map K V) → lookup j (delete k m) ≡ (if k == j then none else lookup j m)
  unfolding lookup delete
  lookup-delete k j [] = ground arith
  lookup-delete k j ((i, w) ∷ m) =
      ground (arith, e.beq_iff k j, e.beq_iff i k, e.beq_iff i j, lookup-delete k j m)

  pub lookup-insert :
      (k j : K) (v : V) (m : Map K V)
      → lookup j (insert k v m) ≡ (if k == j then some v else lookup j m)
  unfolding lookup insert
  lookup-insert k j v m = ground (arith, lookup-delete k j m)

  pub lookup-insert_self : (k : K) (v : V) (m : Map K V) → lookup k (insert k v m) ≡ some v
  lookup-insert_self k v m = ground (arith, lookup-insert k k v m, e.beq_iff k k)

  pub delete-IsMap : (k : K) (m : Map K V) → IsMap m → IsMap (delete k m)
  unfolding delete
  delete-IsMap k [] h = tt
  delete-IsMap k ((j, v) ∷ m) h = ground (arith, delete-IsMap k m h.1, lookup-delete k j m)

  pub insert-IsMap : (k : K) (v : V) (m : Map K V) → IsMap m → IsMap (insert k v m)
  unfolding insert
  insert-IsMap k v m h = ground (arith, delete-IsMap k m h, lookup-delete k k m, e.beq_iff k k)

  pub delete_absent : (k : K) (m : Map K V) → lookup k m ≡ none → delete k m ≡ m
  unfolding lookup delete
  delete_absent k [] h = refl
  delete_absent k ((j, v) ∷ m) h = ground (arith, delete_absent k m)

  pub length-delete-le : (k : K) (m : Map K V) → length (delete k m) ≤ length m
  unfolding delete
  length-delete-le k [] = omega arith
  length-delete-le k ((j, v) ∷ m) = ground (arith, length-delete-le k m)

  pub length-insert-le : (k : K) (v : V) (m : Map K V) → length (insert k v m) ≤ length m + 1
  unfolding insert
  length-insert-le k v m = omega (arith, length-delete-le k m)

  pub length-delete_present :
      (k : K) (v : V) (m : Map K V) → lookup k m ≡ some v → suc (length (delete k m)) ≤ length m
  unfolding lookup delete
  length-delete_present k v [] h = ground arith
  length-delete_present k v ((j, w) ∷ m) h =
      ground (arith, length-delete-le k m, length-delete_present k v m)

  pub length-insert_present :
      (k : K) (v w : V) (m : Map K V) → lookup k m ≡ some w → length (insert k v m) ≤ length m
  unfolding insert
  length-insert_present k v w m h = omega (arith, length-delete_present k w m h)

  lookup-sweep-none :
      (p : K → V → Bool) (k : K) (m : Map K V) → lookup k m ≡ none → lookup k (sweep p m) ≡ none
  unfolding lookup sweep
  lookup-sweep-none p k [] h = refl
  lookup-sweep-none p k ((j, v) ∷ m) h = ground (arith, lookup-sweep-none p k m)

  pub lookup-sweep :
      (p : K → V → Bool) (k : K) (m : Map K V)
      → IsMap m
      → lookup k (sweep p m) ≡ kept p k (lookup k m)
  unfolding lookup sweep
  lookup-sweep p k [] h = refl
  lookup-sweep p k ((j, v) ∷ m) h =
      ground (arith, e.beq_iff j k, lookup-sweep p k m h.1, lookup-sweep-none p j m h.0)

  pub sweep-IsMap : (p : K → V → Bool) (m : Map K V) → IsMap m → IsMap (sweep p m)
  unfolding sweep
  sweep-IsMap p [] h = tt
  sweep-IsMap p ((k, v) ∷ m) h = ground (arith, sweep-IsMap p m h.1, lookup-sweep-none p k m h.0)
