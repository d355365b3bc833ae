-- ===== src/Control/Exits/Pick.antt =====
-- snc-control/exits.go: PickFor and PickForClient, over the machine's arithmetic. `rand.Intn` and
-- SHA-256 are parameters.
pub mod Rule
pub mod Choice
use tunnelcat_server.Base.{
  string_eq, list_eq, nat_eq, ℕ, ◌+◌, ◌*◌, Bool, true, false, not, List, [], ◌∷◌, Option, none,
  some, String, ltb, eqb, ◌==◌, ◌&&◌, ◌||◌, if◌then◌else◌, length, take, keep,
}
use tunnelcat_server.Base.Bytes.{Bytes}
use tunnelcat_server.Base.Map.{Map, lookup}
use tunnelcat_server.Base.Float.{Float64, Floats, one_point_zero, one_point_three}
use tunnelcat_server.Control.Health.{Health, is_alive}
use tunnelcat_server.Control.Health.Rtt.{ExitNode, own_or_reported, rtt_of, best_of}
use tunnelcat_server.Control.Exits.{ExitRegistry}
use tunnelcat_server.Control.Exits.Prefer.{Pick, no_exits, panic, picked, any_of, prefer}

-- The answer to the probes, and what the exit says of itself, if it has said anything.
unfoldable pub is_usable : Health → ExitNode → Bool
unfolding is_alive
is_usable m e = is_alive e.addr m && elim e.data_plane_ok [ none ↦ true | some b ↦ b ]

-- A missing entry of a map of strings reads as the empty string.
abbrev pub or_empty : Option String → String
or_empty none = ""
or_empty (some cc) = cc

unfoldable pub region_of : Map String String → ExitNode → String
region_of regions e = or_empty (lookup e.addr regions)

-- The two functions write the test of a country differently.
unfoldable pub excluded : String → String → String → Bool
excluded my client cc =
    if cc == ""
    then false
    else if not (my == "") && cc == my
    then true
    else if not (client == "") && cc == client
    then true
    else false

unfoldable pub excluded_for_client : String → String → String → Bool
excluded_for_client my client cc =
    if cc == "" then false else (not (my == "") && cc == my) || (not (client == "") && cc == client)

-- The exits of a list that are abroad, if a country and any region is known, and if there are any.
unfoldable pub abroad_by :
    (String → Bool) → String → String → Map String String → List ExitNode → List ExitNode
unfolding prefer region_of
abroad_by out my client regions live =
    if (not (my == "") || not (client == "")) && not (eqb (length regions) 0)
    then prefer (λ e. not (out (region_of regions e))) live
    else live

unfoldable pub candidates :
    (String → String → String → Bool) → String → ExitRegistry → List ExitNode
unfolding abroad_by is_usable prefer
candidates out client r =
    abroad_by (out r.my_region client) r.my_region client r.exit_regions
      (prefer (is_usable r.health) r.exits)

abbrev pub last_of : ExitNode → List ExitNode → ExitNode
last_of e [] = e
last_of e (x ∷ es) = last_of x es

abbrev pub big_endian : ℕ → Bytes → ℕ
big_endian n [] = n
big_endian n (b ∷ bs) = big_endian (n * 256 + b) bs

-- float64(math.MaxUint64)
abbrev pub max_uint64 : Float64
max_uint64 = 4895412794951729152

module _ ⦃f : Floats⦄ where
  unfoldable pub effective_load : Float64 → Float64
  effective_load x = if f.le x 0 then one_point_zero else x

  unfoldable pub effective_rtt : Health → ExitNode → Float64
  unfolding own_or_reported effective_load
  effective_rtt m e = f.mul (own_or_reported m e) (effective_load e.load)

  unfoldable pub best_rtt : Health → List ExitNode → Float64
  unfolding effective_rtt best_of
  best_rtt m live = best_of (λ e. false) (effective_rtt m) live 0

  -- Whether an exit is within 30% of the best time.
  unfoldable pub is_near : Health → Float64 → ExitNode → Bool
  unfolding effective_rtt
  is_near m best e =
      let rtt = effective_rtt m e in
      f.eq rtt 0 || f.eq best 0 || f.le rtt (f.mul best one_point_three)

  -- The exits of which one is taken at random; fewer than five known exits all stay. The loop that
  -- looks for the best time and the loop that compares with it each read the times anew.
  unfoldable pub pool : Health → Health → ℕ → List ExitNode → List ExitNode
  unfolding is_near best_rtt
  pool best near known live =
      if ltb known 5 then live else keep (is_near near (best_rtt best live)) live

  -- The health of the exits as the loop for the best time and the one behind it find it, and the
  -- registry with its health as the loop before finds it.
  unfoldable pub pick_for : (ℕ → ℕ) → String → Health → Health → ExitRegistry → Pick
  unfolding candidates excluded pool any_of
  pick_for intn client best near r = elim r.exits [
    | [] ↦ no_exits
    | e ∷ es ↦ any_of intn (pool best near (length r.exits) (candidates excluded client r))
  ]

  -- The time that a weight is made of: the measured one, the reported one, or 1 ms.
  unfoldable pub weighted_rtt : Health → ExitNode → Float64
  unfolding rtt_of effective_load
  weighted_rtt m e =
      let own = rtt_of e.addr m in
      let told = if f.le own 0 then e.rtt_ms else own in
      let rtt = if f.le told 0 then one_point_zero else told in f.mul rtt (effective_load e.load)

  unfoldable pub weight : Health → ExitNode → Float64
  unfolding weighted_rtt
  weight m e = f.div one_point_zero (weighted_rtt m e)

  unfoldable pub total_weight : Health → Float64 → List ExitNode → Float64
  unfolding weight
  total_weight m sum [] = sum
  total_weight m sum (e ∷ es) = total_weight m (f.add sum (weight m e)) es

  -- The walk along the weights; `last` is the exit for the case that it does not end before.
  unfoldable pub walk : Health → ExitNode → Float64 → List ExitNode → ExitNode
  unfolding weight
  walk m last target [] = last
  walk m last target (e ∷ es) =
      let left = f.sub target (weight m e) in
      let rest = walk m last left es in if f.le left 0 then e else rest

  -- The fraction that stands for a client's address.
  unfoldable pub fraction : (String → Bytes) → String → Float64
  fraction sha256 ip = f.div (f.of_nat (big_endian 0 (take 8 (sha256 ip)))) max_uint64

  unfoldable pub sticky : (String → Bytes) → String → Health → List ExitNode → Pick
  unfolding fraction total_weight walk
  sticky sha256 ip m [] = panic
  sticky sha256 ip m (e ∷ []) = picked e
  sticky sha256 ip m (e ∷ x ∷ es) =
      let live = e ∷ x ∷ es in
      picked (walk m (last_of e (x ∷ es)) (f.mul (fraction sha256 ip) (total_weight m 0 live)) live)

  -- The health of the exits as the loop that weighs them finds it, and the registry with its health as
  -- the loop before finds it.
  unfoldable pub pick_for_client : (String → Bytes) → String → String → Health → ExitRegistry → Pick
  unfolding candidates excluded_for_client sticky
  pick_for_client sha256 ip client weighed r = elim r.exits [
    | [] ↦ no_exits
    | e ∷ es ↦ sticky sha256 ip weighed (candidates excluded_for_client client r)
  ]
