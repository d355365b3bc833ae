-- ===== src/Control/Exits/Prefer.antt =====
-- snc-control/exits.go: the filters of the three Pick functions, which fall back on the whole list where
-- they would leave none, and the random choice. `rand.Intn` is a parameter.
use tunnelcat_server.Base.{
  ℕ, zero, suc, ◌≤◌, ◌≡◌, ◌⊎◌, refl, sym, ap, ◌∙◌, subst, Bool, true, List, [], ◌∷◌, Option, none,
  some, if◌then◌else◌, length, keep, arith, Bool-cases, inl, inr,
}
use tunnelcat_server.Control.Health.Rtt.{ExitNode}
use mathlib.Core.List.{Memᴰ}
use mathlib.Core.List.Memᴰ
use mathlib.Core.List.Memᴰ.{head, tail}

-- An index out of range is a panic, `none`.
abbrev pub nth {ℓ} : {A : Type ℓ} → List A → ℕ → Option A
nth [] n = none
nth (x ∷ xs) zero = some x
nth (x ∷ xs) (suc n) = nth xs n

pub data Pick : Type 0 where
  no_exits : Pick
  panic : Pick
  picked : ExitNode → Pick

abbrev pub pick_at : Option ExitNode → Pick
pick_at none = panic
pick_at (some e) = picked e

-- `l[rand.Intn(len(l))]`
unfoldable pub any_of : (ℕ → ℕ) → List ExitNode → Pick
any_of intn l = pick_at (nth l (intn (length l)))

abbrev pub or_all : List ExitNode → List ExitNode → List ExitNode
or_all [] all = all
or_all (e ∷ es) all = e ∷ es

-- The exits that pass a test, or all where none does.
unfoldable pub prefer : (ExitNode → Bool) → List ExitNode → List ExitNode
prefer p all = or_all (keep p all) all

-- What package rand says of `Intn(n)`: it is below n, where n is above zero.
abbrev pub IsIntn : (ℕ → ℕ) → Type 0
IsIntn intn = (n : ℕ) → intn (suc n) ≤ n

pub Mem-keep :
    (p : ExitNode → Bool) (x : ExitNode) (es : List ExitNode)
    → Memᴰ x (keep p es)
    → Memᴰ x es × (p x ≡ true)
Mem-keep p x [] m = elim m [ ]
Mem-keep p x (e ∷ es) m =
    let fam : Bool → Type 0 = λ b. Memᴰ x (if b then e ∷ keep p es else keep p es) in
    elim (Bool-cases (p e)) [
      | inl t ↦ elim (Memᴰ.cases_cons (subst fam t m)) [
        | inl same ↦ (head same, ap p same ∙ t)
        | inr later ↦ let r = Mem-keep p x es later in (tail r.0, r.1)
      ]
      | inr t ↦ let r = Mem-keep p x es (subst fam t m) in (tail r.0, r.1)
    ]

pub keep-Mem :
    (p : ExitNode → Bool) (x : ExitNode) (es : List ExitNode)
    → Memᴰ x es
    → p x ≡ true
    → Memᴰ x (keep p es)
keep-Mem p x [] m t = elim m [ ]
keep-Mem p x (e ∷ es) (head same) t = rw (sym (ap p same) ∙ t) (head same)
keep-Mem p x (e ∷ es) (tail m) t = elim (Bool-cases (p e)) [
  | inl c ↦ rw c (tail (keep-Mem p x es m t))
  | inr c ↦ rw c (keep-Mem p x es m t)
]

or_all-cases :
    (few all : List ExitNode) → (or_all few all ≡ few) ⊎ ((few ≡ []) × (or_all few all ≡ all))
or_all-cases [] all = inr (refl, refl)
or_all-cases (e ∷ es) all = inl refl

or_all-some : (few all : List ExitNode) → 1 ≤ length all → 1 ≤ length (or_all few all)
or_all-some [] all h = h
or_all-some (e ∷ es) all h = omega arith

-- The filtered list, or the whole one where nothing passes.
prefer-cases :
    (p : ExitNode → Bool) (all : List ExitNode)
    → (prefer p all ≡ keep p all) ⊎ ((keep p all ≡ []) × (prefer p all ≡ all))
unfolding prefer
prefer-cases p all = or_all-cases (keep p all) all

pub prefer-listed :
    (p : ExitNode → Bool) (all : List ExitNode) (x : ExitNode) → Memᴰ x (prefer p all) → Memᴰ x all
prefer-listed p all x m = elim (prefer-cases p all) [
  | inl e ↦ (Mem-keep p x all (subst (Memᴰ x) e m)).0
  | inr (_, e) ↦ subst (Memᴰ x) e m
]

-- If any exit passes the test, then all that are left do.
pub prefer-passes :
    (p : ExitNode → Bool) (all : List ExitNode) (x y : ExitNode)
    → Memᴰ x (prefer p all)
    → Memᴰ y all
    → p y ≡ true
    → p x ≡ true
prefer-passes p all x y m listed passes = elim (prefer-cases p all) [
  | inl e ↦ (Mem-keep p x all (subst (Memᴰ x) e m)).1
  | inr (e, _) ↦ absurd (Memᴰ.not-nil (subst (Memᴰ y) e (keep-Mem p y all listed passes)))
]

pub prefer-keeps :
    (p : ExitNode → Bool) (all : List ExitNode) (y : ExitNode)
    → Memᴰ y all
    → p y ≡ true
    → Memᴰ y (prefer p all)
prefer-keeps p all y listed passes = elim (prefer-cases p all) [
  | inl e ↦ subst (Memᴰ y) (sym e) (keep-Mem p y all listed passes)
  | inr (_, e) ↦ subst (Memᴰ y) (sym e) listed
]

-- What is left is not empty, unless there was nothing.
pub prefer-some :
    (p : ExitNode → Bool) (all : List ExitNode) → 1 ≤ length all → 1 ≤ length (prefer p all)
unfolding prefer
prefer-some p all h = or_all-some (keep p all) all h

nth-Mem :
    (es : List ExitNode) (n : ℕ)
    → suc n ≤ length es
    → (x : ExitNode) × (nth es n ≡ some x) × Memᴰ x es
nth-Mem [] n h = absurd (omega arith)
nth-Mem (e ∷ es) zero h = (e, refl, head refl)
nth-Mem (e ∷ es) (suc n) h = let (x, at, m) = nth-Mem es n (omega arith) in (x, at, tail m)

-- The random choice from a list that is not empty is one of its exits, and no panic.
pub any_of-picks :
    (intn : ℕ → ℕ) (es : List ExitNode)
    → IsIntn intn
    → 1 ≤ length es
    → (x : ExitNode) × (any_of intn es ≡ picked x) × Memᴰ x es
unfolding any_of
any_of-picks intn [] law h = absurd (omega arith)
any_of-picks intn (e ∷ es) law h =
    let (x, at, m) = nth-Mem (e ∷ es) (intn (length (e ∷ es))) (omega (arith, law (length es))) in
    (x, ap pick_at at, m)
