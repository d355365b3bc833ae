-- ===== src/Exit/Session.antt =====
-- snc-exit/sessions.go: one tunnel session and `deliverInOrder`.
-- A connection is a number (Go's pointer), with the payloads that it has taken so far in `sent`.
-- What becomes of a write is the environment's choice: `accepts sent payload`. Times are nanoseconds, and
-- the mutexes make each function one step.
pub mod Drain
pub mod Order
pub mod Complete
use tunnelcat_server.Base.{
  nat_eq, ℕ, zero, suc, ◌+◌, ◌%◌, ◌^◌, Bool, true, false, List, [], ◌∷◌, ◌++◌, Option, none, some,
  String, ltb, leb, if◌then◌else◌, length, take,
}
use tunnelcat_server.Base.Map.{Map, lookup, insert, delete}
use tunnelcat_server.Base.Bytes.{Bytes}

abbrev pub session_timeout : ℕ
session_timeout = 30_000_000_000

abbrev pub reorder_buf_max : ℕ
reorder_buf_max = 32

pub record Session : Type 0 where
  pub conn : ℕ
  pub last_seen : ℕ
  pub username : String
  -- the bit pattern of the int64
  pub bytes_up : ℕ
  pub country : String
  pub target_closed : Bool
  pub reorder_buf : Map ℕ Bytes
  -- a uint32
  pub reorder_next : ℕ
  pub sent : List Bytes

-- The literal that `getOrCreate` and `store` both write.
abbrev pub new_session : ℕ → String → ℕ → Session
new_session conn username now = record {
  conn = conn;
  last_seen = now;
  username = username;
  bytes_up = 0;
  country = "";
  target_closed = false;
  reorder_buf = [];
  reorder_next = 1;
  sent = [];
}

-- The error value of `deliverInOrder`. `stuck` is no Go value: the loop ran out of fuel.
pub data Delivery : Type 0 where
  delivered buffer_full write_failed stuck : Delivery

-- What `Write` does: it takes the whole payload, or fails after so many bytes of it.
pub data Written : Type 0 where
  whole : Written
  failed_after : ℕ → Written

-- uint32 `s.reorderNext++`
abbrev pub bump_next : Session → Session
bump_next s = record s { reorder_next = (s.reorder_next + 1) % 2 ^ 32 }

abbrev pub buffer_frame : ℕ → Bytes → Session → Session
buffer_frame seq payload s = record s { reorder_buf = insert seq payload s.reorder_buf }

abbrev pub take_frame : Session → Session
take_frame s = record s { reorder_buf = delete s.reorder_next s.reorder_buf }

abbrev pub on_written :
    Written → Bytes → Session → (Session → Session × Delivery) → Session × Delivery
on_written whole p s next = next (record s { sent = s.sent ++ p ∷ [] })
on_written (failed_after k) p s next = (record s { sent = s.sent ++ take k p ∷ [] }, write_failed)

module _ (accepts : List Bytes → Bytes → Written) where
  -- `if len(payload) > 0 { if _, err := s.conn.Write(payload); err != nil { return err } }`,
  -- with what follows a success.
  unfoldable pub write_frame : Bytes → Session → (Session → Session × Delivery) → Session × Delivery
  write_frame [] s next = next s
  write_frame (b ∷ bs) s next = on_written (accepts s.sent (b ∷ bs)) (b ∷ bs) s next

  -- The loop behind an in-order frame. Each round takes one entry out of the buffer.
  unfoldable pub drain : ℕ → Session → Session × Delivery
  drain zero s = (s, stuck)
  drain (suc fuel) s = elim (lookup s.reorder_next s.reorder_buf) [
    | none ↦ (s, delivered)
    | some next ↦ write_frame next (take_frame s) (λ s'. drain fuel (bump_next s'))
  ]

  -- The fuel is one round for each buffered frame, and one for the test that ends the loop.
  unfoldable pub deliver_in_order : ℕ → Bytes → Session → Session × Delivery
  deliver_in_order seq payload s =
      if ltb seq s.reorder_next
      then (s, delivered)
      else if ltb s.reorder_next seq
      then (if leb reorder_buf_max (length s.reorder_buf)
          then (s, buffer_full)
          else (buffer_frame seq payload s, delivered))
      else write_frame payload s (λ s'. drain (suc (length s'.reorder_buf)) (bump_next s'))
