-- ===== src/Dht/Table/Bucket.antt =====
-- One bucket: what each method does to the contact with a given identifier.
use tunnelcat_server.Base.{
  nat_eq, list_eq, suc, ◌≤◌, ◌<◌, ◌≡◌, ◌≢◌, ◌⊎◌, inl, inr, refl, false, [], ◌∷◌, ◌++◌, Option, none,
  some, leb, ◌==◌, if◌then◌else◌, length, drop, arith, Bool-cases, Option-cases, Eq,
}
use tunnelcat_server.Dht.Id.{NodeId}
use tunnelcat_server.Dht.Table.{
  Contact, Bucket, k_max, max_missed_pings, find, replace, add, remove, missed_once, unmissed,
  mark_missed, reset_missed,
}

abbrev pub id_eq : Eq NodeId
id_eq = list_eq

-- No two contacts of a bucket have one identifier.
abbrev pub Distinct : Bucket → Type 0
Distinct [] = Unit {0}
Distinct (c ∷ cs) = (find c.id cs ≡ none) × Distinct cs

pub find-append :
    (id : NodeId) (b : Bucket) (c : Contact)
    → find id (b ++ c ∷ [])
      ≡ (elim (find id b) [ some d ↦ some d | none ↦ if c.id == id then some c else none ])
unfolding find
find-append id [] c = refl
find-append id (e ∷ es) c = ground (arith, find-append id es c)

pub find-replace :
    (id : NodeId) (c d : Contact) (b : Bucket)
    → find c.id b ≡ some d
    → find id (replace c b) ≡ (if c.id == id then some c else find id b)
unfolding find replace
find-replace id c d [] h = ground arith
find-replace id c d (e ∷ es) h = ground (
  arith,
  find-replace id c d es,
  id_eq.beq_iff e.id c.id,
  id_eq.beq_iff c.id id,
  id_eq.beq_iff e.id id,
)

pub find-drop : (id : NodeId) (b : Bucket) → find id b ≡ none → find id (drop 1 b) ≡ none
unfolding find
find-drop id [] h = refl
find-drop id (e ∷ es) h = ground arith

-- An added contact is found, whether it was known, and room was there, or not.
pub find-add_self : (c : Contact) (b : Bucket) → find c.id (add c b) ≡ some c
unfolding add
find-add_self c b = elim (Option-cases (find c.id b)) [
  | inl e ↦
      rw (e, add)
        (elim (Bool-cases (leb k_max (length b))) [
          | inl full ↦ rw full (
              ground
                (arith, find-append c.id (drop 1 b) c, find-drop c.id b e, id_eq.beq_iff c.id c.id))
          | inr room ↦ rw room (ground (arith, find-append c.id b c, e, id_eq.beq_iff c.id c.id))
        ])
  | inr (d, e) ↦ rw (e, add) (ground (arith, find-replace c.id c d b e, id_eq.beq_iff c.id c.id))
]

-- Every other contact stays as it is, but that a full bucket loses its oldest for a new one.
pub find-add_other :
    (id : NodeId) (c : Contact) (b : Bucket)
    → (c.id == id) ≡ false
    → ((find c.id b ≢ none) ⊎ (length b < k_max) → find id (add c b) ≡ find id b)
      × ((find c.id b ≡ none) → (k_max ≤ length b) → find id (add c b) ≡ find id (drop 1 b))
unfolding add
find-add_other id c b ne = elim (Option-cases (find c.id b)) [
  | inl e ↦
      rw (e, add)
        (
          (λ h. elim (Bool-cases (leb k_max (length b))) [
            | inl full ↦ ground arith
            | inr room ↦ rw room (ground (arith, find-append id b c))
          ]),
          (λ _ full. ground (arith, find-append id (drop 1 b) c)),
        )
  | inr (d, e) ↦ rw (e, add) ((λ _. ground (arith, find-replace id c d b e)), (λ h _. cc))
]

pub find-remove_other :
    (id j : NodeId) (b : Bucket) → (id == j) ≡ false → find j (remove id b) ≡ find j b
unfolding find remove
find-remove_other id j [] h = refl
find-remove_other id j (c ∷ cs) h = ground (
  arith,
  find-remove_other id j cs h,
  id_eq.beq_iff c.id id,
  id_eq.beq_iff c.id j,
  id_eq.beq_iff id j,
)

pub find-remove :
    (id j : NodeId) (b : Bucket)
    → Distinct b
    → find j (remove id b) ≡ (if id == j then none else find j b)
unfolding find remove
find-remove id j [] h = ground arith
find-remove id j (c ∷ cs) h = ground (
  arith,
  find-remove id j cs h.1,
  id_eq.beq_iff c.id id,
  id_eq.beq_iff c.id j,
  id_eq.beq_iff id j,
  h.0,
)

-- What one more missed ping makes of a contact: the fourth removes it.
abbrev pub aged : Option Contact → Option Contact
aged none = none
aged (some c) = if leb max_missed_pings (suc c.missed_pings) then none else some (missed_once c)

pub find-mark_missed :
    (id j : NodeId) (b : Bucket)
    → Distinct b
    → find j (mark_missed id b) ≡ (if id == j then aged (find j b) else find j b)
unfolding find mark_missed
find-mark_missed id j [] h = ground arith
find-mark_missed id j (c ∷ cs) h = ground (
  arith,
  find-mark_missed id j cs h.1,
  id_eq.beq_iff c.id id,
  id_eq.beq_iff c.id j,
  id_eq.beq_iff id j,
  h.0,
)

abbrev pub cleared : Option Contact → Option Contact
cleared none = none
cleared (some c) = some (unmissed c)

pub find-reset_missed :
    (id j : NodeId) (b : Bucket)
    → find j (reset_missed id b) ≡ (if id == j then cleared (find j b) else find j b)
unfolding find reset_missed
find-reset_missed id j [] = ground arith
find-reset_missed id j (c ∷ cs) = ground (
  arith,
  find-reset_missed id j cs,
  id_eq.beq_iff c.id id,
  id_eq.beq_iff c.id j,
  id_eq.beq_iff id j,
)
