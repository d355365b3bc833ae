-- ===== src/Arbiter/ClientIp.antt =====
-- snc-arbiter/ratelimit.go: the trusted proxies and `clientIP`. Texts are byte strings; the space
-- that is trimmed is ASCII's. `net.SplitHostPort` (its host), `net.ParseIP`, `net.ParseCIDR` and
-- `IPNet.Contains` are parameters.
pub mod Header
use tunnelcat_server.Base.{
  nat_eq, list_eq, ℕ, Bool, true, false, List, [], ◌∷◌, ◌++◌, Option, none, some, leb, eqb, ◌&&◌,
  ◌||◌, if◌then◌else◌,
}
use tunnelcat_server.Base.Bytes.{Bytes}
use mathlib.Core.List.{reverse}

-- Puts a byte in front of the first part.
abbrev pub prepend : ℕ → List Bytes → List Bytes
prepend c [] = (c ∷ []) ∷ []
prepend c (p ∷ ps) = (c ∷ p) ∷ ps

-- `strings.Split(s, ",")`
unfoldable pub split : Bytes → List Bytes
split [] = [] ∷ []
split (c ∷ cs) = let rest = split cs in if eqb c b',' then [] ∷ rest else prepend c rest

abbrev pub is_space : ℕ → Bool
is_space c = (leb 9 c && leb c 13) || eqb c 32

unfoldable pub trim_left : Bytes → Bytes
trim_left [] = []
trim_left (c ∷ cs) = if is_space c then trim_left cs else c ∷ cs

-- `strings.TrimSpace`
unfoldable pub trim_space : Bytes → Bytes
unfolding trim_left
trim_space s = reverse (trim_left (reverse (trim_left s)))

-- `parts[len(parts)-1]`
abbrev pub last_part : List Bytes → Bytes
last_part [] = []
last_part (p ∷ []) = p
last_part (p ∷ q ∷ ps) = last_part (q ∷ ps)

-- `xff` is the header's value, empty where there is none. The last part is the one that the
-- trusted proxy appended.
unfoldable pub forwarded : Bytes → Option Bytes
forwarded [] = none
forwarded (c ∷ cs) = elim (trim_space (last_part (split (c ∷ cs)))) [
  | [] ↦ none
  | d ∷ ds ↦ some (d ∷ ds)
]

-- The host of `host:port`, or the whole text where there is no port.
abbrev pub host_of : (Bytes → Option Bytes) → Bytes → Bytes
host_of split_host_port addr = elim (split_host_port addr) [ none ↦ addr | some host ↦ host ]

abbrev pub any_contains : {I N : Type 0} → (N → I → Bool) → List N → I → Bool
any_contains contains [] ip = false
any_contains contains (n ∷ ns) ip = contains n ip || any_contains contains ns ip

module _ {I N : Type 0} (split_host_port : Bytes → Option Bytes) (parse_ip : Bytes → Option I)
    (contains : N → I → Bool) where
  unfoldable pub remote_addr_trusted : List N → Bytes → Bool
  remote_addr_trusted nets remote = elim (parse_ip (host_of split_host_port remote)) [
    | none ↦ false
    | some ip ↦ any_contains contains nets ip
  ]

  unfoldable pub client_ip : List N → Bytes → Bytes → Bytes
  unfolding remote_addr_trusted forwarded
  client_ip nets remote xff =
      if remote_addr_trusted nets remote
      then elim (forwarded xff) [ none ↦ host_of split_host_port remote | some ip ↦ ip ]
      else host_of split_host_port remote

module _ {N : Type 0} (parse_cidr : Bytes → Option N) where
  -- The loop over the parts: blank parts are skipped, and the first bad one is an error.
  unfoldable pub parse_parts : List Bytes → List N → Option (List N)
  parse_parts [] out = some out
  parse_parts (p ∷ ps) out = elim (trim_space p) [
    | [] ↦ parse_parts ps out
    | c ∷ cs ↦ elim (parse_cidr (c ∷ cs)) [ none ↦ none | some n ↦ parse_parts ps (out ++ n ∷ []) ]
  ]

  unfoldable pub parse_cidrs : Bytes → Option (List N)
  unfolding parse_parts split
  parse_cidrs csv = parse_parts (split csv) []

  -- The new set of trusted nets, and whether the list was accepted.
  unfoldable pub set_trusted_proxy_cidrs : Bytes → List N → List N × Bool
  unfolding parse_cidrs
  set_trusted_proxy_cidrs csv nets = elim (parse_cidrs csv) [
    | none ↦ (nets, false)
    | some ns ↦ (ns, true)
  ]
