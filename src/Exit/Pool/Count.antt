-- ===== src/Exit/Pool/Count.antt =====
-- How often a connection stands in a list, and in a pool.
use tunnelcat_server.Base.{
  string_eq, ℕ, ◌+◌, ◌≡◌, refl, Bool, List, [], ◌∷◌, ◌++◌, Option, none, some, String, arith, eqb,
  not, if◌then◌else◌,
}
use tunnelcat_server.Base.Map.{Map, lookup, insert, delete, sweep, IsMap, delete_absent}
use tunnelcat_server.Exit.Session.{Session}
use tunnelcat_server.Exit.Pool.{is_stale, stale_conns}

abbrev pub unit_if : Bool → ℕ
unit_if b = if b then 1 else 0

unfoldable pub count : ℕ → List ℕ → ℕ
count c [] = 0
count c (x ∷ xs) = unit_if (eqb x c) + count c xs

pub count-cons : (c x : ℕ) (xs : List ℕ) → count c (x ∷ xs) ≡ unit_if (eqb x c) + count c xs
unfolding count
count-cons c x xs = refl

pub count-append : (c : ℕ) (xs ys : List ℕ) → count c (xs ++ ys) ≡ count c xs + count c ys
unfolding count
count-append c [] ys = omega arith
count-append c (x ∷ xs) ys = omega (arith, count-append c xs ys)

-- The connections of a pool's sessions.
unfoldable pub conns : Map String Session → List ℕ
conns [] = []
conns ((id, s) ∷ m) = s.conn ∷ conns m

abbrev pub held : ℕ → Option Session → ℕ
held c none = 0
held c (some s) = unit_if (eqb s.conn c)

pub count-delete :
    (c : ℕ) (id : String) (m : Map String Session)
    → IsMap m
    → count c (conns (delete id m)) + held c (lookup id m) ≡ count c (conns m)
unfolding count conns delete lookup
count-delete c id [] h = refl
count-delete c id ((j, s) ∷ m) h =
    ground (arith, count-delete c id m h.1, string_eq.beq_iff j id, delete_absent id m)

pub count-insert :
    (c : ℕ) (id : String) (s : Session) (m : Map String Session)
    → IsMap m
    → count c (conns (insert id s m)) + held c (lookup id m)
      ≡ unit_if (eqb s.conn c) + count c (conns m)
unfolding count conns insert
count-insert c id s m h = omega (arith, count-delete c id m h)

pub count-sweep :
    (c now : ℕ) (m : Map String Session)
    → count c (conns (sweep (λ id s. not (is_stale now s)) m)) + count c (stale_conns now m)
      ≡ count c (conns m)
unfolding count conns sweep stale_conns
count-sweep c now [] = refl
count-sweep c now ((id, s) ∷ m) = ground (arith, count-sweep c now m)
