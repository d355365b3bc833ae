-- ===== src/Exit/Tests.antt =====
-- Runs of the session code, and its theorems at concrete inputs.
use tunnelcat_server.Base.{
  string_eq, nat_eq, ℕ, ◌+◌, ◌≤◌, ◌<◌, ◌≡◌, refl, List, [], ◌∷◌, some, arith,
}
use tunnelcat_server.Base.Map.{lookup, insert, delete}
use tunnelcat_server.Base.Bytes.{Bytes}
use tunnelcat_server.Exit.Session.{
  Session, new_session, deliver_in_order, delivered, drain, write_frame, Written, whole,
  failed_after,
}
use tunnelcat_server.Exit.Session.Drain.{joined}
use tunnelcat_server.Exit.Session.Order.{
  stream, Outcome, new_session-Settled, deliver_in_order-Settled,
}
use tunnelcat_server.Exit.Session.Complete.{deliver_all, deliver_all_reassembles, Arrives}
use tunnelcat_server.Exit.Pool.{SessionPool, new_session_pool, get_or_create}
use tunnelcat_server.Exit.Pool.Count.{count, conns}
use tunnelcat_server.Exit.Pool.Ownership.{Call, reuses, adopts, ticks, run, opened, run_conserves}

-- The payload of frame `k` is the one byte `k`.
abbrev frame : ℕ → Bytes
frame k = k ∷ []

abbrev always : List Bytes → Bytes → Written
always ps p = whole

abbrev fresh : Session
fresh = new_session 7 "u" 0

-- Frames 2 and 3 come before frame 1.
swapped : joined (deliver_all always frame (2 ∷ 3 ∷ 1 ∷ []) fresh).0.sent ≡ 1 ∷ 2 ∷ 3 ∷ []
unfolding deliver_all deliver_in_order drain write_frame lookup insert delete
swapped = refl

-- The third frame of two bytes breaks off after one.
abbrev pairs : ℕ → Bytes
pairs k = k ∷ k ∷ []

abbrev breaks : List Bytes → Bytes → Written
breaks [] p = whole
breaks (q ∷ []) p = whole
breaks (q ∷ r ∷ ps) p = failed_after 1

broken_off :
    joined (deliver_all breaks pairs (2 ∷ 3 ∷ 1 ∷ []) fresh).0.sent ≡ 1 ∷ 1 ∷ 2 ∷ 2 ∷ 3 ∷ []
unfolding deliver_all deliver_in_order drain write_frame lookup insert delete
broken_off = refl

deliver_in_order-Settled_example : Outcome pairs (deliver_in_order breaks 1 (pairs 1) fresh)
deliver_in_order-Settled_example =
    deliver_in_order-Settled pairs breaks 1 fresh (omega arith) (new_session-Settled pairs 7 "u" 0)

three_arrive : (k : ℕ) → 1 ≤ k → k ≤ 2 → Arrives k (2 ∷ 1 ∷ 2 ∷ [])
three_arrive k lo hi = ground arith

deliver_all_reassembles_example :
    let r = deliver_all always frame (2 ∷ 1 ∷ 2 ∷ []) fresh in
    (r.1 ≡ delivered) × (2 < r.0.reorder_next) × (joined r.0.sent ≡ stream frame r.0.reorder_next)
deliver_all_reassembles_example =
    deliver_all_reassembles always frame (λ ps p. refl) (2 ∷ 1 ∷ 2 ∷ []) 2 7 "u" 0 (omega arith)
      three_arrive (omega arith)

-- Two goroutines dial for one identifier; the second connection is closed.
abbrev race : List Call
race =
    reuses "a" 0
    ∷ reuses "a" 1
    ∷ adopts "a" 10 "u" 2
    ∷ adopts "a" 11 "u" 3
    ∷ ticks 90_000_000_000
    ∷ []

run_conserves_example :
    let p = run race new_session_pool in
    count 11 (conns p.pool) + count 11 p.closed ≡ count 11 (opened race)
run_conserves_example = run_conserves 11 race

abbrev one_session : SessionPool
one_session = record { pool = ("a", new_session 7 "u" 5) ∷ []; closed = [] }

one_session-lookup : lookup "a" one_session.pool ≡ some (new_session 7 "u" 5)
unfolding lookup
one_session-lookup = refl

dialled_twelve : (get_or_create "b" "u" 0 (some 12) (λ p. p) 1 one_session).1 ≡ some 12
unfolding get_or_create lookup
dialled_twelve = refl
