-- ===== src/Control/Exits/Refresh/Origin.antt =====
-- snc-control/exits.go: where the exits come from that refresh() starts with.
use tunnelcat_server.Base.{
  ℕ, ◌≡◌, ◌⊎◌, refl, sym, ◌∙◌, Bool, true, false, List, [], ◌∷◌, if◌then◌else◌, Option, none, some,
  String, inl, inr, string_eq,
}
use tunnelcat_server.Control.Health.Rtt.{ExitNode}
use tunnelcat_server.Control.Exits.{
  ExitRegistry, CacheFile, RangeOrder, missing, corrupt, legacy, wrapper, load_cached, merge_cached,
}
use tunnelcat_server.Control.Exits.Cache.{latest-merge_cached}
use tunnelcat_server.Control.Exits.Latest.{latest, IsRange, or_else}
use tunnelcat_server.Control.Exits.Refresh.{Outside}

-- The exits of the cache file, which nobody has signed.
abbrev pub cached_nodes : CacheFile → List ExitNode
cached_nodes missing = []
cached_nodes corrupt = []
cached_nodes (legacy nodes) = nodes
cached_nodes (wrapper nodes seen) = nodes

or_else-cases :
    (x y : Option ExitNode) (e : ExitNode) → or_else x y ≡ some e → (y ≡ some e) ⊎ (x ≡ some e)
or_else-cases none y e h = inl h
or_else-cases (some d) y e h = inr h

-- What a file brings in, if there is a cache file at all.
if_origin :
    (b : Bool) (x r : ExitRegistry) (a : String) (e : ExitNode) (filed : Option ExitNode)
    → latest a x.exits ≡ or_else filed (latest a r.exits)
    → latest a (if b then x else r).exits ≡ some e
    → (latest a r.exits ≡ some e) ⊎ (filed ≡ some e)
if_origin true x r a e filed from h = or_else-cases filed (latest a r.exits) e (sym from ∙ h)
if_origin false x r a e filed from h = inl h

load_cached-origin :
    (order : RangeOrder) (now : ℕ) (file : CacheFile) (r : ExitRegistry) (a : String) (e : ExitNode)
    → IsRange order
    → latest a (load_cached order now file r).exits ≡ some e
    → (latest a r.exits ≡ some e) ⊎ (latest a (cached_nodes file) ≡ some e)
unfolding load_cached latest
load_cached-origin order now missing r a e range h = if_origin r.has_cache r r a e none refl h
load_cached-origin order now corrupt r a e range h = if_origin r.has_cache r r a e none refl h
load_cached-origin order now (legacy nodes) r a e range h =
    if_origin r.has_cache (merge_cached order now nodes [] r) r a e (latest a nodes)
      (latest-merge_cached order now nodes [] r a range) h
load_cached-origin order now (wrapper nodes seen) r a e range h =
    if_origin r.has_cache (merge_cached order now nodes seen r) r a e (latest a nodes)
      (latest-merge_cached order now nodes seen r a range) h

-- The registry that PickRandom works with, by its exits.
abbrev revived_by : Outside → ℕ → ExitRegistry → List ExitNode → ExitRegistry
revived_by o now r es = elim es [ [] ↦ load_cached o.order now o.cache_file r | e ∷ es ↦ r ]

pub revived-origin :
    (o : Outside) (now : ℕ) (r : ExitRegistry) (es : List ExitNode) (a : String) (e : ExitNode)
    → IsRange o.order
    → latest a (revived_by o now r es).exits ≡ some e
    → (latest a r.exits ≡ some e) ⊎ (latest a (cached_nodes o.cache_file) ≡ some e)
revived-origin o now r [] a e range h = load_cached-origin o.order now o.cache_file r a e range h
revived-origin o now r (x ∷ es) a e range h = inl h
