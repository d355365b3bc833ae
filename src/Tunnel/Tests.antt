-- ===== src/Tunnel/Tests.antt =====
-- Runs of the tunnel's messages, and their theorems at concrete inputs.
use tunnelcat_server.Base.{nat_eq, ◌≡◌, refl, [], ◌∷◌, none, some, true, false, arith, inl}
use tunnelcat_server.Base.Bytes.{Bytes}
use tunnelcat_server.Base.Aead.{open_text, open_text-IsAead}
use tunnelcat_server.Dht.Id.{encode_hex}
use tunnelcat_server.Tunnel.Frames.{
  receive_upload, seal_frame, build_upload_plain, read_all, stream_frames, read_frame,
}
use tunnelcat_server.Tunnel.Frames.Upload.{receive_upload-build_upload_plain}
use tunnelcat_server.Tunnel.Frames.Download.{read_all-stream_frames}
use tunnelcat_server.Tunnel.Datagrams.{
  NetIp, UdpAddr, build_udp_relay_plain, parse_udp_relay_frame, encode_datagram_batch,
  decode_datagram_batch, decode_frames,
}
use tunnelcat_server.Tunnel.Datagrams.Batch.{decode_datagram_batch-encode_datagram_batch}
use tunnelcat_server.Tunnel.Datagrams.Relay.{
  IsNet, seen_addr, parse_udp_relay_frame-build_udp_relay_plain,
}
use tunnelcat_server.Tunnel.Reflect.{replied, is_in_window, build_request, serve, parse_endpoint}
use tunnelcat_server.Tunnel.Reflect.RoundTrip.{parse_endpoint-serve}

abbrev nonce : Bytes
nonce = 1 ∷ 2 ∷ 3 ∷ 4 ∷ 5 ∷ 6 ∷ 7 ∷ 8 ∷ 9 ∷ 10 ∷ 11 ∷ 12 ∷ []

abbrev raw_id : Bytes
raw_id = 1 ∷ 2 ∷ 3 ∷ 4 ∷ 5 ∷ 6 ∷ 7 ∷ 8 ∷ 9 ∷ 10 ∷ 11 ∷ 12 ∷ 13 ∷ 14 ∷ 15 ∷ 255 ∷ []

receive_upload-build_upload_plain_example :
    receive_upload open_text (
      seal_frame open_text nonce
        (build_upload_plain (encode_hex raw_id) 70_000 (97 ∷ []) (1 ∷ 2 ∷ [])))
    ≡ some (encode_hex raw_id, 70_000, 97 ∷ [], 1 ∷ 2 ∷ [])
receive_upload-build_upload_plain_example =
    receive_upload-build_upload_plain open_text nonce raw_id (97 ∷ []) (1 ∷ 2 ∷ []) 70_000
      open_text-IsAead refl (ground arith) refl (omega arith) (omega arith)

read_all-stream_frames_example :
    read_all open_text (stream_frames open_text ((nonce, 5 ∷ 6 ∷ []) ∷ (nonce, 7 ∷ []) ∷ []))
    ≡ (5 ∷ 6 ∷ []) ∷ (7 ∷ []) ∷ []
read_all-stream_frames_example =
    read_all-stream_frames open_text ((nonce, 5 ∷ 6 ∷ []) ∷ (nonce, 7 ∷ []) ∷ []) open_text-IsAead
      ((refl, omega arith), ((refl, omega arith), tt))

-- A frame over 1 MB is refused.
large_refused : read_frame open_text (0 ∷ 16 ∷ 0 ∷ 1 ∷ []) ≡ none
unfolding read_frame
large_refused = refl

decode_datagram_batch-encode_datagram_batch_example :
    decode_datagram_batch (encode_datagram_batch ((1 ∷ 2 ∷ []) ∷ [] ∷ (3 ∷ []) ∷ []))
    ≡ some ((1 ∷ 2 ∷ []) ∷ [] ∷ (3 ∷ []) ∷ [])
decode_datagram_batch-encode_datagram_batch_example =
    decode_datagram_batch-encode_datagram_batch ((1 ∷ 2 ∷ []) ∷ [] ∷ (3 ∷ []) ∷ [])
      (omega arith, (omega arith, (omega arith, tt))) (omega arith)

-- A batch that ends within a datagram is refused.
cut_refused : decode_datagram_batch (0 ∷ 0 ∷ 0 ∷ 1 ∷ 0 ∷ 0 ∷ 0 ∷ 5 ∷ 1 ∷ []) ≡ none
unfolding decode_datagram_batch decode_frames
cut_refused = refl

-- A package net that takes each address for 1.2.3.4.
abbrev one_address : NetIp
one_address = record {
  to4 = λ ip. some (1 ∷ 2 ∷ 3 ∷ 4 ∷ []);
  to16 = λ ip. 0 ∷ 0 ∷ 0 ∷ 0 ∷ 0 ∷ 0 ∷ 0 ∷ 0 ∷ 0 ∷ 0 ∷ 0 ∷ 0 ∷ 0 ∷ 0 ∷ 0 ∷ 1 ∷ [];
}

one_address-IsNet : IsNet one_address
one_address-IsNet = record { size4 = λ ip b e. ground arith; size16 = λ ip valid. refl }

abbrev dst : UdpAddr
dst = record { ip = 1 ∷ 2 ∷ 3 ∷ 4 ∷ []; port = 53 }

parse_udp_relay_frame-build_udp_relay_plain_example :
    (plain : Bytes) × (build_udp_relay_plain one_address (encode_hex raw_id) dst (9 ∷ [])
      ≡ some plain)
    × (parse_udp_relay_frame plain ≡ some (encode_hex raw_id, seen_addr one_address dst, 9 ∷ []))
parse_udp_relay_frame-build_udp_relay_plain_example =
    parse_udp_relay_frame-build_udp_relay_plain one_address raw_id (9 ∷ []) dst one_address-IsNet
      (inl refl) (ground arith) refl (omega arith) (omega arith)

abbrev from_home : UdpAddr
from_home = record { ip = 1 ∷ 2 ∷ 3 ∷ 4 ∷ []; port = 40_000 }

-- A request that is 20 seconds old, to a control without QUIC and dht.
parse_endpoint-serve_example :
    (answer : Bytes) × (serve open_text one_address none none 0 1_020_000 from_home "1.2.3.4" nonce
        (build_request open_text nonce 1_000_000)
        []
      ≡ ([], replied answer))
    × (parse_endpoint open_text answer ≡ some (seen_addr one_address from_home))
parse_endpoint-serve_example =
    parse_endpoint-serve open_text one_address none none 0 1_020_000 1_000_000 from_home "1.2.3.4"
      nonce nonce [] open_text-IsAead one_address-IsNet refl refl (refl, refl)
      (omega arith, omega arith) (omega arith) (omega arith) (inl refl) (omega arith)

-- A request from the future is dropped when it is too far ahead.
ahead_dropped : is_in_window 1_000 31_001 ≡ false
unfolding is_in_window
ahead_dropped = refl

-- 20 seconds ahead are still accepted.
ahead_accepted : is_in_window 1_000 21_000 ≡ true
unfolding is_in_window
ahead_accepted = refl
