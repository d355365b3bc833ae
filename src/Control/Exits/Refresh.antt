-- ===== src/Control/Exits/Refresh.antt =====
-- snc-control/exits.go: PickRandom and refresh. The HTTP request through an exit, the JSON decoder,
-- base64, ed25519 and the certificate that an exit shows are parameters, as is `rand.Intn`.
pub mod Steps
pub mod Origin
pub mod Gate
use tunnelcat_server.Base.{
  ℕ, ◌+◌, ◌*◌, Bool, true, false, List, [], ◌∷◌, Option, none, some, String, ltb, ◌==◌, ◌&&◌, ◌||◌,
  not, if◌then◌else◌, length, take, keep, eqb, string_eq, list_eq, nat_eq, zero, suc,
}
use tunnelcat_server.Base.Int.{ℤ, pos, negsuc}
use tunnelcat_server.Base.Bytes.{Bytes}
use tunnelcat_server.Control.Health.{is_alive}
use tunnelcat_server.Control.Health.Rtt.{ExitNode}
use tunnelcat_server.Control.Exits.{
  ExitRegistry, RangeOrder, CacheFile, Signed, second, load_cached, merge_signed, persist, Disk,
  Saved, untouched,
}
use tunnelcat_server.Control.Exits.Prefer.{Pick, no_exits, panic, picked, any_of, prefer}

-- The answer to a request: its status and, if it could be read, its body.
pub record Response : Type 0 where
  pub status : ℕ
  pub body : Option Bytes

-- What the code asks of the world. `certificate` is the fingerprint of the certificate that an exit
-- shows, `none` if the dial fails or it shows none.
pub record Outside : Type 0 where
  pub order : RangeOrder
  pub intn : ℕ → ℕ
  pub cache_file : CacheFile
  pub disk : Disk
  pub request_fails : String → Bool
  pub fetch : String → Option Response
  pub unmarshal : Bytes → Option Signed
  pub canonical : String → ℤ → List ExitNode → Bytes
  pub decode_sig : String → Option Bytes
  pub verify : Bytes → Bytes → Bool
  pub certificate : String → Option String
  pub upper : String → String

unfoldable pub revived : Outside → ℕ → ExitRegistry → ExitRegistry
unfolding load_cached
revived o now r = elim r.exits [ [] ↦ load_cached o.order now o.cache_file r | e ∷ es ↦ r ]

-- A random exit of those that pass a test, or of all where none does.
unfoldable pub pick_of : (ℕ → ℕ) → (ExitNode → Bool) → List ExitNode → Pick
unfolding any_of prefer
pick_of intn p [] = no_exits
pick_of intn p (e ∷ es) = any_of intn (prefer p (e ∷ es))

unfoldable pub pick_random : Outside → ℕ → ExitRegistry → ExitRegistry × Pick
unfolding revived pick_of is_alive
pick_random o now r =
    let r1 = revived o now r in (r1, pick_of o.intn (λ x. is_alive x.addr r1.health) r1.exits)

-- Whether the certificate of an exit has the expected fingerprint, in upper case.
unfoldable pub verify_exit_fingerprint : Outside → String → String → Bool
verify_exit_fingerprint o addr expected = elim (o.certificate addr) [
  | none ↦ false
  | some got ↦ got == o.upper expected
]

unfoldable pub verified_nodes : Outside → List ExitNode → List ExitNode
unfolding verify_exit_fingerprint
verified_nodes o nodes =
    keep (λ e. (e.fingerprint == "") || verify_exit_fingerprint o e.addr e.fingerprint) nodes

unfoldable pub is_signed : Outside → Signed → Bool
is_signed o s = elim (o.decode_sig s.sig) [
  | none ↦ false
  | some sig ↦ o.verify (o.canonical s.kind s.ts s.nodes) sig
]

-- Ten minutes.
abbrev pub max_age : ℕ
max_age = 600_000_000_000

-- Whether more than ten minutes have passed since a Unix time.
unfoldable pub is_too_old : ℕ → ℤ → Bool
is_too_old now (pos ts) = ltb (ts * second + max_age) now
is_too_old now (negsuc n) = ltb max_age (now + suc n * second)

pub data RefreshError : Type 0 where
  no_exit : RefreshError
  bad_request : RefreshError
  fetch_failed : RefreshError
  bad_status : ℕ → RefreshError
  read_failed : RefreshError
  parse_failed : RefreshError
  signature_failed : RefreshError
  too_old : RefreshError

pub data Verdict : Type 0 where
  crashed : Verdict
  refused : RefreshError → Verdict
  accepted : Signed → Verdict

-- The checks of the list that was fetched; `r.pubkey` is there if `has_pubkey`.
unfoldable pub check_list : Outside → Bool → ℕ → Signed → Verdict
unfolding is_signed is_too_old
check_list o has_pubkey now s =
    if has_pubkey && not (is_signed o s)
    then refused signature_failed
    else if is_too_old now s.ts
    then refused too_old
    else accepted s

unfoldable pub on_list : Outside → Bool → ℕ → Option Signed → Verdict
unfolding check_list
on_list o has_pubkey now none = refused parse_failed
on_list o has_pubkey now (some s) = check_list o has_pubkey now s

-- A body is read up to 1 MB.
unfoldable pub on_body : Outside → Bool → ℕ → Option Bytes → Verdict
unfolding on_list
on_body o has_pubkey now none = refused read_failed
on_body o has_pubkey now (some raw) = on_list o has_pubkey now (o.unmarshal (take 1_048_576 raw))

unfoldable pub on_response : Outside → Bool → ℕ → Option Response → Verdict
unfolding on_body
on_response o has_pubkey now none = refused fetch_failed
on_response o has_pubkey now (some resp) =
    if not (eqb resp.status 200)
    then refused (bad_status resp.status)
    else on_body o has_pubkey now resp.body

-- The request through an exit, up to the decision.
unfoldable pub fetch_list : Outside → Bool → ℕ → ExitNode → Verdict
unfolding on_response
fetch_list o has_pubkey now e =
    if o.request_fails e.addr
    then refused bad_request
    else on_response o has_pubkey now (o.fetch e.addr)

unfoldable pub ask : Outside → Bool → ℕ → Pick → Verdict
unfolding fetch_list
ask o has_pubkey now no_exits = refused no_exit
ask o has_pubkey now panic = crashed
ask o has_pubkey now (picked e) = fetch_list o has_pubkey now e

-- What the answer does to the registry and to the cache file, at the time of the merge.
unfoldable pub apply_list : Outside → ℕ → ExitRegistry → Verdict → ExitRegistry × Saved
unfolding merge_signed verified_nodes persist
apply_list o now r crashed = (r, untouched)
apply_list o now r (refused e) = (r, untouched)
apply_list o now r (accepted s) =
    let next = merge_signed o.order now (verified_nodes o s.nodes) s r in
    (next, persist o.disk next)

-- `refresh`, with the times of the exit's choice, of the age check and of the merge. The registry is not
-- locked between the choice and the merge: `others` is what the other goroutines do to it there. The
-- result is the registry, the verdict, and what becomes of the file.
unfoldable pub refresh :
    Outside
    → ℕ
    → ℕ
    → ℕ
    → (ExitRegistry → ExitRegistry)
    → ExitRegistry
    → ExitRegistry × Verdict × Saved
unfolding pick_random ask apply_list
refresh o start checked merged others r =
    let (r1, pick) = pick_random o start r in
    let v = ask o r1.has_pubkey checked pick in
    let (next, file) = apply_list o merged (others r1) v in (next, v, file)
