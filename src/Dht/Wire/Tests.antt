-- ===== src/Dht/Wire/Tests.antt =====
-- Runs of the wire format, and its theorem at a concrete input.
use tunnelcat_server.Base.{nat_eq, ◌≡◌, refl, [], ◌∷◌, none, some, arith}
use tunnelcat_server.Base.Bytes.{Bytes}
use tunnelcat_server.Base.Aead.{open_text, open_text-IsAead}
use tunnelcat_server.Dht.Wire.{open_plain, open_packet, seal}
use tunnelcat_server.Dht.Wire.RoundTrip.{open_packet-seal}

abbrev nonce : Bytes
nonce = 1 ∷ 2 ∷ 3 ∷ 4 ∷ 5 ∷ 6 ∷ 7 ∷ 8 ∷ 9 ∷ 10 ∷ 11 ∷ 12 ∷ []

-- A message with a pad length beyond its end is refused.
pad_refused : open_plain (1 ∷ 8 ∷ 5 ∷ 0 ∷ []) ≡ none
unfolding open_plain
pad_refused = refl

open_packet-seal_example :
    open_packet open_text (seal open_text 3 0 (7 ∷ 7 ∷ []) 18 (9 ∷ 9 ∷ []) nonce)
    ≡ some (3, 8, 7 ∷ 7 ∷ [])
open_packet-seal_example =
    open_packet-seal open_text 3 0 18 (7 ∷ 7 ∷ []) (9 ∷ 9 ∷ []) nonce open_text-IsAead refl
      (omega arith)
