-- ===== src/Control/Exits/Refresh/Steps.antt =====
-- snc-control/exits.go: the checks of refresh(), one by one.
use tunnelcat_server.Base.{
  ℕ, ◌≡◌, ◌≢◌, ◌⊎◌, refl, ap, subst, Bool, true, false, not, List, [], ◌∷◌, Option, none, some,
  ◌&&◌, if◌then◌else◌, take, eqb, arith, inl, inr, string_eq,
}
use tunnelcat_server.Base.Bytes.{Bytes}
use tunnelcat_server.Control.Health.{is_alive}
use tunnelcat_server.Control.Health.Rtt.{ExitNode}
use tunnelcat_server.Control.Exits.{ExitRegistry, Signed}
use tunnelcat_server.Control.Exits.Prefer.{
  no_exits, picked, prefer, IsIntn, prefer-listed, prefer-some, any_of-picks,
}
use tunnelcat_server.Control.Exits.Refresh.{
  Outside, Response, Verdict, crashed, refused, accepted, RefreshError, revived, pick_of,
  pick_random, signature_failed, too_old, on_list, on_body, on_response, bad_status, bad_request,
  is_signed, is_too_old, check_list, fetch_list, ask,
}
use mathlib.Core.List.{Memᴰ}

-- What stands behind a list that was taken over: an exit of the registry gave it, it is signed if there
-- is a key to check it with, and it is not too old.
pub record Authentic (o : Outside) (r : ExitRegistry) (checked : ℕ) (s : Signed) : Type 0 where
  pub via : ExitNode
  pub listed : Memᴰ via r.exits
  pub raw : Bytes
  pub answer : o.fetch via.addr ≡ some (record { status = 200; body = some raw })
  pub decoded : o.unmarshal (take 1_048_576 raw) ≡ some s
  pub signature : r.has_pubkey ≡ true → is_signed o s ≡ true
  pub recent : is_too_old checked s.ts ≡ false

-- An accepted list has passed the test of a conditional.
if_accepted :
    (b : Bool) (e : RefreshError) (v : Verdict) (s : Signed)
    → (if b then refused e else v) ≡ accepted s
    → (b ≡ false) × (v ≡ accepted s)
if_accepted true e v s h = absurd (ground arith)
if_accepted false e v s h = (refl, h)

pub pick_of-picks :
    (intn : ℕ → ℕ) (p : ExitNode → Bool) (es : List ExitNode)
    → IsIntn intn
    → (pick_of intn p es ≡ no_exits) ⊎ ((x : ExitNode) × (pick_of intn p es ≡ picked x) × Memᴰ x es)
unfolding pick_of
pick_of-picks intn p [] law = inl refl
pick_of-picks intn p (e ∷ es) law =
    let (x, got, m) =
      any_of-picks intn (prefer p (e ∷ es)) law (prefer-some p (e ∷ es) (omega arith)) in
    inr (x, got, prefer-listed p (e ∷ es) x m)

-- What holds of an accepted list by itself.
abbrev Passes : Outside → Bool → ℕ → Signed → Type 0
Passes o key now s = (key ≡ true → is_signed o s ≡ true) × (is_too_old now s.ts ≡ false)

check_list-accepts :
    (o : Outside) (key : Bool) (now : ℕ) (s s' : Signed)
    → check_list o key now s ≡ accepted s'
    → (s ≡ s') × Passes o key now s
unfolding check_list
check_list-accepts o key now s s' h =
    let (signature, rest) =
      if_accepted (key && not (is_signed o s)) signature_failed
        (if is_too_old now s.ts then refused too_old else accepted s) s' h in
    let (recent, same) = if_accepted (is_too_old now s.ts) too_old (accepted s) s' rest in
    (ground arith, ((λ k. ground arith), recent))

on_list-accepts :
    (o : Outside) (key : Bool) (now : ℕ) (l : Option Signed) (s : Signed)
    → on_list o key now l ≡ accepted s
    → (l ≡ some s) × Passes o key now s
unfolding on_list
on_list-accepts o key now none s h = absurd (ground arith)
on_list-accepts o key now (some s') s h =
    let (same, passes) = check_list-accepts o key now s' s h in
    (ap some same, subst (Passes o key now) same passes)

-- The body that an accepted list was read from.
abbrev Body : Outside → Bool → ℕ → Option Bytes → Signed → Type 0
Body o key now body s =
    (raw : Bytes) × (body ≡ some raw)
    × (o.unmarshal (take 1_048_576 raw) ≡ some s)
    × Passes o key now s

on_body-accepts :
    (o : Outside) (key : Bool) (now : ℕ) (body : Option Bytes) (s : Signed)
    → on_body o key now body ≡ accepted s
    → Body o key now body s
unfolding on_body
on_body-accepts o key now none s h = absurd (ground arith)
on_body-accepts o key now (some raw) s h =
    let r = on_list-accepts o key now (o.unmarshal (take 1_048_576 raw)) s h in
    (raw, refl, r.0, r.1)

on_response-accepts :
    (o : Outside) (key : Bool) (now : ℕ) (resp : Option Response) (s : Signed)
    → on_response o key now resp ≡ accepted s
    → (raw : Bytes) × (resp ≡ some (record { status = 200; body = some raw }))
      × (o.unmarshal (take 1_048_576 raw) ≡ some s)
      × Passes o key now s
unfolding on_response
on_response-accepts o key now none s h = absurd (ground arith)
on_response-accepts o key now (some resp) s h =
    let (status, rest) =
      if_accepted (not (eqb resp.status 200)) (bad_status resp.status) (on_body o key now resp.body)
        s h in
    let (raw, got, decoded, passes) = on_body-accepts o key now resp.body s rest in
    let ok : resp.status ≡ 200 = ground arith in
    (raw, ap some (ground (arith, ok, got)), decoded, passes)

-- An accepted list comes from the exit that was asked.
pub ask-accepts :
    (o : Outside) (r : ExitRegistry) (now : ℕ) (x : ExitNode) (s : Signed)
    → Memᴰ x r.exits
    → ask o r.has_pubkey now (picked x) ≡ accepted s
    → Authentic o r now s
unfolding ask fetch_list
ask-accepts o r now x s m h =
    let (sent, rest) =
      if_accepted (o.request_fails x.addr) bad_request
        (on_response o r.has_pubkey now (o.fetch x.addr)) s h in
    let (raw, got, decoded, passes) =
      on_response-accepts o r.has_pubkey now (o.fetch x.addr) s rest in
    record {
      via = x;
      listed = m;
      raw = raw;
      answer = got;
      decoded = decoded;
      signature = passes.0;
      recent = passes.1;
    }

pick_random-picks :
    (o : Outside) (now : ℕ) (r : ExitRegistry)
    → IsIntn o.intn
    → let (r1, pick) = pick_random o now r in
      (pick ≡ no_exits) ⊎ ((x : ExitNode) × (pick ≡ picked x) × Memᴰ x r1.exits)
unfolding pick_random
pick_random-picks o now r law =
    pick_of-picks o.intn (λ x. is_alive x.addr (revived o now r).health) (revived o now r).exits law

if_alive :
    (b : Bool) (e : RefreshError) (v : Verdict)
    → v ≢ crashed
    → (if b then refused e else v) ≢ crashed
if_alive true e v alive h = absurd (ground arith)
if_alive false e v alive h = alive h

on_list_alive :
    (o : Outside) (key : Bool) (now : ℕ) (l : Option Signed) → on_list o key now l ≢ crashed
unfolding on_list check_list
on_list_alive o key now none h = absurd (ground arith)
on_list_alive o key now (some s) h =
    if_alive (key && not (is_signed o s)) signature_failed
      (if is_too_old now s.ts then refused too_old else accepted s)
      (if_alive (is_too_old now s.ts) too_old (accepted s) (λ same. ground arith)) h

on_body_alive :
    (o : Outside) (key : Bool) (now : ℕ) (body : Option Bytes) → on_body o key now body ≢ crashed
unfolding on_body
on_body_alive o key now none h = absurd (ground arith)
on_body_alive o key now (some raw) h = on_list_alive o key now (o.unmarshal (take 1_048_576 raw)) h

on_response_alive :
    (o : Outside) (key : Bool) (now : ℕ) (resp : Option Response)
    → on_response o key now resp ≢ crashed
unfolding on_response
on_response_alive o key now none h = absurd (ground arith)
on_response_alive o key now (some resp) h =
    if_alive (not (eqb resp.status 200)) (bad_status resp.status) (on_body o key now resp.body)
      (on_body_alive o key now resp.body) h

pub fetch_list_alive :
    (o : Outside) (key : Bool) (now : ℕ) (x : ExitNode) → fetch_list o key now x ≢ crashed
unfolding fetch_list
fetch_list_alive o key now x =
    if_alive (o.request_fails x.addr) bad_request (on_response o key now (o.fetch x.addr))
      (on_response_alive o key now (o.fetch x.addr))
