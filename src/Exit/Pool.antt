-- ===== src/Exit/Pool.antt =====
-- snc-exit/sessions.go: the session pool. Each function holds `p.mu` for a whole step, but for
-- `getOrCreate`, which dials between two steps; other goroutines run in the gap. `closed` lists the
-- connections that the pool has closed, newest first.
pub mod Count
pub mod Ownership
pub mod Lookups
use tunnelcat_server.Base.{
  string_eq, ℕ, suc, ◌+◌, ◌%◌, ◌^◌, Bool, true, false, List, [], ◌∷◌, ◌++◌, Option, none, some,
  String, ltb, leb, not, if◌then◌else◌,
}
use tunnelcat_server.Base.Map.{Map, lookup, insert, delete, sweep}
use tunnelcat_server.Exit.Session.{Session, new_session, session_timeout}

pub record SessionPool : Type 0 where
  pub pool : Map String Session
  pub closed : List ℕ

abbrev pub new_session_pool : SessionPool
new_session_pool = record { pool = []; closed = [] }

abbrev pub touch : ℕ → Session → Session
touch now s = record s { last_seen = now }

abbrev pub flag_closed : Session → Session
flag_closed s = record s { target_closed = true }

-- int64 `s.bytesUp += n`, on the bit patterns.
abbrev pub count_up : ℕ → Session → Session
count_up n s = record s { bytes_up = (s.bytes_up + n) % 2 ^ 64 }

abbrev pub name_country : String → Session → Session
name_country cc s = record s { country = cc }

-- `if s := p.pool[connID]; s != nil { … }`, where the body writes fields of `s`.
unfoldable pub update : String → (Session → Session) → SessionPool → SessionPool
update id change p = elim (lookup id p.pool) [
  | none ↦ p
  | some s ↦ record p { pool = insert id (change s) p.pool }
]

-- The first locked section of `getOrCreate`: the connection that is there already.
unfoldable pub reuse : String → ℕ → SessionPool → SessionPool × Option ℕ
unfolding update
reuse id now p = elim (lookup id p.pool) [
  | none ↦ (p, none)
  | some s ↦ (update id (touch now) p, some s.conn)
]

-- The second one, after a dial: another goroutine may have stored a session meanwhile.
unfoldable pub adopt : String → ℕ → String → ℕ → SessionPool → SessionPool × ℕ
unfolding update
adopt id conn username now p = elim (lookup id p.pool) [
  | none ↦ (record p { pool = insert id (new_session conn username now) p.pool }, conn)
  | some s ↦ (record (update id (touch now) p) { closed = conn ∷ p.closed }, s.conn)
]

-- `dial` is what `net.DialTimeout` gave, `between` what other goroutines did while it ran.
unfoldable pub get_or_create :
    String
    → String
    → ℕ
    → Option ℕ
    → (SessionPool → SessionPool)
    → ℕ
    → SessionPool
    → SessionPool × Option ℕ
unfolding reuse adopt
get_or_create id username now dial between later p =
    let found = reuse id now p in
    elim found.1 [
      | some conn ↦ (found.0, some conn)
      | none ↦ elim dial [
        | none ↦ (between found.0, none)
        | some conn ↦ let r = adopt id conn username later (between found.0) in (r.0, some r.1)
      ]
    ]

unfoldable pub store : String → ℕ → String → ℕ → SessionPool → SessionPool
store id conn username now p = elim (lookup id p.pool) [
  | none ↦ record p { pool = insert id (new_session conn username now) p.pool }
  | some old ↦ record {
    pool = insert id (new_session conn username now) p.pool;
    closed = old.conn ∷ p.closed;
  }
]

unfoldable pub get : String → ℕ → SessionPool → SessionPool × Option ℕ
unfolding update
get id now p = elim (lookup id p.pool) [
  | none ↦ (p, none)
  | some s ↦ if s.target_closed then (p, none) else (update id (touch now) p, some s.conn)
]

-- The empty string is `live`.
pub data CloseReason : Type 0 where
  not_found target_closed_reason live : CloseReason

unfoldable pub close_reason : String → SessionPool → CloseReason
close_reason id p = elim (lookup id p.pool) [
  | none ↦ not_found
  | some s ↦ if s.target_closed then target_closed_reason else live
]

unfoldable pub mark_target_closed : String → SessionPool → SessionPool
unfolding update
mark_target_closed id = update id flag_closed

unfoldable pub record_activity : String → ℕ → SessionPool → SessionPool
unfolding update
record_activity id now = update id (touch now)

unfoldable pub close : String → SessionPool → SessionPool
close id p = elim (lookup id p.pool) [
  | none ↦ record p { pool = delete id p.pool }
  | some s ↦ record { pool = delete id p.pool; closed = s.conn ∷ p.closed }
]

unfoldable pub add_bytes_up : String → ℕ → SessionPool → SessionPool
unfolding update
add_bytes_up id n = update id (count_up n)

unfoldable pub set_country : String → String → SessionPool → SessionPool
unfolding update
set_country id cc = update id (name_country cc)

unfoldable pub get_session : String → ℕ → SessionPool → SessionPool × Option Session
unfolding update
get_session id now p = elim (lookup id p.pool) [
  | none ↦ (p, none)
  | some s ↦ (update id (touch now) p, some (touch now s))
]

unfoldable pub snapshot : String → SessionPool → Option (String × String × ℕ)
snapshot id p = elim (lookup id p.pool) [
  | none ↦ none
  | some s ↦ some (s.username, s.country, s.bytes_up)
]

-- `now.Sub(s.lastSeen) > sessionTimeout`
abbrev pub is_stale : ℕ → Session → Bool
is_stale now s = ltb (s.last_seen + session_timeout) now

-- The connections of the stale sessions, in the order in which a tick closes them.
unfoldable pub stale_conns : ℕ → Map String Session → List ℕ
stale_conns now [] = []
stale_conns now ((id, s) ∷ m) =
    if is_stale now s then s.conn ∷ stale_conns now m else stale_conns now m

-- One round of `watchdog`.
unfoldable pub watchdog : ℕ → SessionPool → SessionPool
unfolding stale_conns
watchdog now p = record {
  pool = sweep (λ id s. not (is_stale now s)) p.pool;
  closed = stale_conns now p.pool ++ p.closed;
}
