-- ===== src/Tunnel/Datagrams/Batch.antt =====
-- snc-exit/handler.go and snc/core/tunnel.go: batches of datagrams.
use tunnelcat_server.Base.{
  nat_eq, ℕ, suc, ◌%◌, ◌≤◌, ◌<◌, ◌≡◌, refl, ap, ◌∙◌, false, List, [], ◌∷◌, ◌++◌, some, ltb, length,
  take, drop, length-append, take-append, drop-append, arith, All,
}
use tunnelcat_server.Base.Bytes.{Bytes}
use tunnelcat_server.Base.BigEndian.{uint, put_uint, length-put_uint, uint-field, drop-uint}
use tunnelcat_server.Tunnel.Datagrams.{
  encode_frames, encode_datagram_batch, decode_frames, decode_datagram_batch, cons_frame,
}

-- A datagram shorter than 2^32 bytes.
abbrev pub IsDatagram : Bytes → Type 0
IsDatagram f = length f < 4_294_967_296

decode_frames-step :
    (n : ℕ) (f rest : Bytes)
    → IsDatagram f
    → decode_frames (suc n) (put_uint 4 (length f) ++ (f ++ rest))
      ≡ cons_frame f (decode_frames n rest)
unfolding decode_frames
decode_frames-step n f rest fits =
    let body = f ++ rest in
    let long : ltb (length (put_uint 4 (length f) ++ body)) 4 ≡ false =
      ground (arith, length-append (put_uint 4 (length f)) body, length-put_uint 4 (length f)) in
    let whole : ltb (length body) (length f) ≡ false = ground (arith, length-append f rest) in
    rw
      (
        long,
        uint-field 4 (length f) body fits,
        drop-uint 4 (length f) body,
        whole,
        take-append f rest,
        drop-append f rest,
      )
      refl

decode_frames-encode_frames :
    (fs : List Bytes) → All IsDatagram fs → decode_frames (length fs) (encode_frames fs) ≡ some fs
unfolding decode_frames encode_frames
decode_frames-encode_frames [] ok = refl
decode_frames-encode_frames (f ∷ fs) ok =
    let size : length f % 4_294_967_296 ≡ length f = omega arith in
    rw size (decode_frames-step (length fs) f (encode_frames fs) ok.0)
    ∙ ap (cons_frame f) (decode_frames-encode_frames fs ok.1)

decode_some :
    (src : Bytes)
    → 4 ≤ length src
    → decode_datagram_batch src ≡ decode_frames (uint (take 4 src)) (drop 4 src)
unfolding decode_datagram_batch
decode_some [] h = absurd (omega arith)
decode_some (b ∷ bs) h = ground arith

-- The client decodes from a batch the datagrams that the exit encoded, in their order, if they and their
-- number are below 2^32.
pub decode_datagram_batch-encode_datagram_batch :
    (fs : List Bytes)
    → All IsDatagram fs
    → length fs < 4_294_967_296
    → decode_datagram_batch (encode_datagram_batch fs) ≡ some fs
unfolding encode_datagram_batch
decode_datagram_batch-encode_datagram_batch fs ok few =
    let n = length fs in
    let size : n % 4_294_967_296 ≡ n = omega arith in
    let src = put_uint 4 n ++ encode_frames fs in
    rw size (
      decode_some src
        (omega (arith, length-append (put_uint 4 n) (encode_frames fs), length-put_uint 4 n))
      ∙ rw (uint-field 4 n (encode_frames fs) few, drop-uint 4 n (encode_frames fs))
          (decode_frames-encode_frames fs ok))
