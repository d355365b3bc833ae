-- ===== src/Arbiter/ClientIp/Header.antt =====
-- What a client can and cannot do to the address that it is counted under.
use tunnelcat_server.Base.{
  ℕ, Bool, true, none, List, [], ◌∷◌, ◌++◌, Option, some, eqb, if◌then◌else◌, ◌≡◌, ◌≢◌, ◌⊎◌, refl,
  arith, All, ◌∙◌, ap, sym, inl, inr, Bool-cases,
}
use tunnelcat_server.Base.Bytes.{Bytes}
use tunnelcat_server.Arbiter.ClientIp.{
  prepend, split, trim_space, trim_left, last_part, host_of, remote_addr_trusted, forwarded,
  client_ip, set_trusted_proxy_cidrs,
}

-- A text without commas.
abbrev pub NoComma : Bytes → Type 0
NoComma = All (λ c. c ≢ b',')

split-NoComma : (s : Bytes) → NoComma s → split s ≡ s ∷ []
unfolding split
split-NoComma [] h = refl
split-NoComma (c ∷ cs) h = ground (arith, split-NoComma cs h.1)

split-cons : (s : Bytes) → (p : Bytes) × (ps : List Bytes) × (split s ≡ p ∷ ps)
unfolding split
split-cons [] = ([], [], refl)
split-cons (c ∷ cs) =
    let (p, ps, e) = split-cons cs in
    elim (Bool-cases (eqb c b',')) [
      | inl comma ↦ ([], p ∷ ps, rw (comma, e))
      | inr other ↦ (c ∷ p, ps, rw (other, e))
    ]

last_part-prepend :
    (c : ℕ) (p : Bytes) (q : Bytes) (ps : List Bytes)
    → last_part (prepend c (p ∷ q ∷ ps)) ≡ last_part (p ∷ q ∷ ps)
last_part-prepend c p q ps = refl

last_part-split :
    (front back : Bytes)
    → NoComma back
    → (p : Bytes) × (q : Bytes) × (ps : List Bytes) × (split (front ++ (b',' ∷ back)) ≡ p ∷ q ∷ ps)
      × (last_part (p ∷ q ∷ ps) ≡ back)
unfolding split
last_part-split [] back h = ([], back, [], rw (split-NoComma back h), refl)
last_part-split (c ∷ cs) back h =
    let (p, q, ps, e, l) = last_part-split cs back h in
    elim (Bool-cases (eqb c b',')) [
      | inl comma ↦ ([], p, q ∷ ps, rw (comma, e), l)
      | inr other ↦ (c ∷ p, q, ps, rw (other, e), l)
    ]

front-cons : (front back : Bytes) → (c : ℕ) × (cs : Bytes) × (front ++ (b',' ∷ back) ≡ c ∷ cs)
front-cons [] back = (b',', back, refl)
front-cons (c ∷ cs) back = (c, cs ++ (b',' ∷ back), refl)

-- A value, unless it is blank.
abbrev not_blank : Bytes → Option Bytes
not_blank [] = none
not_blank (d ∷ ds) = some (d ∷ ds)

-- The value of the header, or the host where it is blank.
abbrev pub or_host : Bytes → Bytes → Bytes
or_host [] host = host
or_host (d ∷ ds) host = d ∷ ds

abbrev forwarded_or : Bytes → Option Bytes → Bytes
forwarded_or host found = elim found [ none ↦ host | some ip ↦ ip ]

forwarded_or-not_blank : (host t : Bytes) → forwarded_or host (not_blank t) ≡ or_host t host
forwarded_or-not_blank host [] = refl
forwarded_or-not_blank host (d ∷ ds) = refl

not_blank-elim :
    (t : Bytes)
    → (elim t as (λ x. Option Bytes) [ [] ↦ none | d ∷ ds ↦ some (d ∷ ds) ]) ≡ not_blank t
not_blank-elim [] = refl
not_blank-elim (d ∷ ds) = refl

forwarded_last :
    (c : ℕ) (cs : Bytes) → forwarded (c ∷ cs) ≡ not_blank (trim_space (last_part (split (c ∷ cs))))
unfolding forwarded
forwarded_last c cs = not_blank-elim (trim_space (last_part (split (c ∷ cs))))

forwarded-append :
    (front back : Bytes)
    → NoComma back
    → forwarded (front ++ (b',' ∷ back)) ≡ not_blank (trim_space back)
forwarded-append front back h =
    let (c, cs, e) = front-cons front back in
    let (p, q, ps, s, l) = last_part-split front back h in
    let last : last_part (split (c ∷ cs)) ≡ back =
      ap (λ (t : Bytes). last_part (split t)) (sym e) ∙ ap last_part s ∙ l in
    ap forwarded e ∙ forwarded_last c cs ∙ ap (λ (t : Bytes). not_blank (trim_space t)) last

forwarded-NoComma : (back : Bytes) → NoComma back → forwarded back ≡ not_blank (trim_space back)
unfolding forwarded trim_space trim_left
forwarded-NoComma [] h = refl
forwarded-NoComma (c ∷ cs) h =
    forwarded_last c cs
    ∙ ap (λ (ps : List Bytes). not_blank (trim_space (last_part ps))) (split-NoComma (c ∷ cs) h)

module _ {I N : Type 0} (split_host_port : Bytes → Option Bytes) (parse_ip : Bytes → Option I)
    (contains : N → I → Bool) where
  -- From a peer that is no trusted proxy no header has any effect: the answer is the peer's own host.
  -- From a trusted one the answer is what follows the header's last comma, or the whole header where
  -- there is none, trimmed, and the peer's own host if that is blank: nothing that stands before that
  -- comma, which the client may have sent, has any effect.
  pub client_ip_unforgeable :
      (nets : List N) (remote front back xff : Bytes)
      → NoComma back
      → let trusted = remote_addr_trusted split_host_port parse_ip contains nets remote in
        let host = host_of split_host_port remote in
        let answer = if trusted then or_host (trim_space back) host else host in
        (client_ip split_host_port parse_ip contains nets remote (front ++ (b',' ∷ back)) ≡ answer)
        × (client_ip split_host_port parse_ip contains nets remote back ≡ answer)
        × ((trusted ≡ true) ⊎ (client_ip split_host_port parse_ip contains nets remote xff ≡ host))
  unfolding client_ip
  client_ip_unforgeable nets remote front back xff h =
      let host = host_of split_host_port remote in
      let shown = forwarded_or-not_blank host (trim_space back) in
      elim (Bool-cases (remote_addr_trusted split_host_port parse_ip contains nets remote)) [
        | inl on ↦ rw on (
          ap (forwarded_or host) (forwarded-append front back h) ∙ shown,
          ap (forwarded_or host) (forwarded-NoComma back h) ∙ shown,
          inl refl,
        )
        | inr off ↦ rw off (refl, refl, inr refl)
      ]

  -- With the empty list of proxies, which is accepted and replaces any other, the answer is the
  -- peer's own host whatever the header says.
  pub client_ip_no_proxies :
      (parse_cidr : Bytes → Option N) (nets : List N) (remote xff : Bytes)
      → let set = set_trusted_proxy_cidrs parse_cidr [] nets in
        (set.1 ≡ true)
        × (client_ip split_host_port parse_ip contains set.0 remote xff
            ≡ host_of split_host_port remote)
  unfolding client_ip set_trusted_proxy_cidrs trim_space
  client_ip_no_proxies parse_cidr nets remote xff = (refl, ground arith)
