-- ===== src/Tunnel/Frames/Download.antt =====
-- snc-exit/handler.go and snc/core/tunnel.go: the client parses what the exit builds.
use tunnelcat_server.Base.{
  nat_eq, ℕ, zero, suc, ◌+◌, ◌-◌, ◌≤◌, ◌<◌, ◌≡◌, refl, ap, ◌∙◌, false, List, [], ◌∷◌, ◌++◌, some,
  ltb, eqb, if◌then◌else◌, length, take, length-append, take-append, drop-append, arith, map, All,
  append_assoc,
}
use tunnelcat_server.Base.Bytes.{Bytes}
use tunnelcat_server.Base.BigEndian.{put_uint, length-put_uint, uint-field, drop-uint}
use tunnelcat_server.Base.Aead.{Aead, IsAead}
use tunnelcat_server.Tunnel.Frames.{
  min_padding, upload_response_plain, parse_response_plain, build_upload_response, parse_response,
  seal_frame, open_frame, stream_frame, stream_frames, read_frame, read_stream, read_all,
  then_parse, with_rest,
}
use tunnelcat_server.Tunnel.Frames.Upload.{open_frame-seal_frame}

-- No data is the empty string.
empty_or :
    (content : Bytes) → (if eqb (length content) 0 then some [] else some content) ≡ some content
empty_or [] = refl
empty_or (c ∷ cs) = ground arith

parse_response_plain-fields :
    (content pad : Bytes)
    → length content < 4_294_967_296
    → parse_response_plain (put_uint 4 (length content) ++ (content ++ pad)) ≡ some content
unfolding parse_response_plain
parse_response_plain-fields content pad fits =
    let n = length content in
    let text = content ++ pad in
    let size =
      length-append (put_uint 4 n) text ∙ ap (λ (k : ℕ). k + length text) (length-put_uint 4 n) in
    let long : ltb (length (put_uint 4 n ++ text)) 4 ≡ false = ground (arith, size) in
    let enough : ltb (length (put_uint 4 n ++ text) - 4) n ≡ false =
      ground (arith, size, length-append content pad) in
    rw (long, uint-field 4 n text fits, enough, drop-uint 4 n text, take-append content pad)
      (empty_or content)

parse_response_some :
    (aead : Aead) (body : Bytes)
    → 1 ≤ length body
    → parse_response aead body ≡ then_parse parse_response_plain (open_frame aead body)
unfolding parse_response
parse_response_some aead [] h = absurd (omega arith)
parse_response_some aead (b ∷ body) h = refl

pub length-seal_frame :
    (aead : Aead) (nonce plain : Bytes)
    → IsAead aead
    → length nonce ≡ 12
    → length (seal_frame aead nonce plain) ≡ 12 + length plain + aead.overhead
unfolding seal_frame
length-seal_frame aead nonce plain cipher fresh =
    omega (arith, length-append nonce (aead.encrypt nonce plain), cipher.grows nonce plain)

-- The client's parser of a body that the exit sealed, which is not empty.
parse_response-seal_frame :
    (aead : Aead) (nonce plain : Bytes)
    → IsAead aead
    → length nonce ≡ 12
    → parse_response aead (seal_frame aead nonce plain) ≡ parse_response_plain plain
parse_response-seal_frame aead nonce plain cipher fresh =
    parse_response_some aead (seal_frame aead nonce plain)
      (omega (arith, length-seal_frame aead nonce plain cipher fresh))
    ∙ ap (then_parse parse_response_plain) (open_frame-seal_frame aead nonce plain cipher fresh)

-- The client reads from a response the data that the exit put into it, whatever the padding, if they are
-- shorter than 2^32 bytes, the nonce has 12 bytes, and the cipher opens what it has sealed.
pub parse_response-build_upload_response :
    (aead : Aead) (nonce content random : Bytes)
    → IsAead aead
    → length nonce ≡ 12
    → length content < 4_294_967_296
    → parse_response aead (build_upload_response aead nonce content random) ≡ some content
unfolding build_upload_response upload_response_plain
parse_response-build_upload_response aead nonce content random cipher fresh fits =
    let pad = take (min_padding - length content) random in
    parse_response-seal_frame aead nonce (upload_response_plain content random) cipher fresh
    ∙ parse_response_plain-fields content pad fits

-- The nonces have 12 bytes, and the pieces fit into a frame.
abbrev pub AreFrames : Aead → List (Bytes × Bytes) → Type 0
AreFrames aead =
    All (λ (p : Bytes × Bytes). (length p.0 ≡ 12) × (12 + length p.1 + aead.overhead ≤ 1_048_576))

abbrev pub pieces : List (Bytes × Bytes) → List Bytes
pieces = map (λ (p : Bytes × Bytes). p.1)

read_frame-fields :
    (aead : Aead) (ct rest : Bytes)
    → length ct ≤ 1_048_576
    → read_frame aead (put_uint 4 (length ct) ++ (ct ++ rest)) ≡ with_rest rest (open_frame aead ct)
unfolding read_frame open_frame
read_frame-fields aead ct rest fits =
    let n = length ct in
    let body = ct ++ rest in
    let long : ltb (length (put_uint 4 n ++ body)) 4 ≡ false =
      ground (arith, length-append (put_uint 4 n) body, length-put_uint 4 n) in
    let capped : ltb 1_048_576 n ≡ false = ground arith in
    let whole : ltb (length body) n ≡ false = ground (arith, length-append ct rest) in
    rw
      (
        long,
        uint-field 4 n body (omega arith),
        capped,
        drop-uint 4 n body,
        whole,
        take-append ct rest,
        drop-append ct rest,
      )
      refl

read_frame-stream_frame :
    (aead : Aead) (nonce piece rest : Bytes)
    → IsAead aead
    → length nonce ≡ 12
    → 12 + length piece + aead.overhead ≤ 1_048_576
    → read_frame aead (stream_frame aead nonce piece ++ rest) ≡ some (piece, rest)
unfolding stream_frame
read_frame-stream_frame aead nonce piece rest cipher fresh fits =
    let ct = seal_frame aead nonce piece in
    let size = length-seal_frame aead nonce piece cipher fresh in
    ap (read_frame aead) (append_assoc (put_uint 4 (length ct)) ct rest)
    ∙ read_frame-fields aead ct rest (omega arith)
    ∙ ap (with_rest rest) (open_frame-seal_frame aead nonce piece cipher fresh)

read_stream_step :
    (aead : Aead) (fuel : ℕ) (src piece rest : Bytes)
    → read_frame aead src ≡ some (piece, rest)
    → read_stream aead (suc fuel) src ≡ piece ∷ read_stream aead fuel rest
unfolding read_stream
read_stream_step aead fuel src piece rest e = rw (e, read_stream) refl

read_stream-stream_frames :
    (aead : Aead) (fuel : ℕ) (fs : List (Bytes × Bytes))
    → IsAead aead
    → AreFrames aead fs
    → length fs ≤ fuel
    → read_stream aead fuel (stream_frames aead fs) ≡ pieces fs
unfolding read_stream stream_frames
read_stream-stream_frames aead zero [] cipher ok enough = refl
read_stream-stream_frames aead zero (p ∷ fs) cipher ok enough = absurd (omega arith)
read_stream-stream_frames aead (suc fuel) [] cipher ok enough = refl
read_stream-stream_frames aead (suc fuel) ((nonce, piece) ∷ fs) cipher ok enough =
    let one =
      read_frame-stream_frame aead nonce piece (stream_frames aead fs) cipher ok.0.0 ok.0.1 in
    let rest = read_stream-stream_frames aead fuel fs cipher ok.1 (omega arith) in
    read_stream_step aead fuel (stream_frame aead nonce piece ++ stream_frames aead fs) piece
      (stream_frames aead fs) one
    ∙ ap (◌∷◌ piece) rest

-- Each frame has its four bytes of length.
length-stream_frames :
    (aead : Aead) (fs : List (Bytes × Bytes)) → length fs ≤ length (stream_frames aead fs)
unfolding stream_frames stream_frame
length-stream_frames aead [] = omega arith
length-stream_frames aead ((nonce, piece) ∷ fs) = omega (
  arith,
  length-append (nonce ++ aead.encrypt nonce piece) (stream_frames aead fs),
  length-stream_frames aead fs,
)

-- A client that reads the stream to its end gets the pieces that the exit read from the target, in their
-- order, if the nonces have 12 bytes, no sealed piece is over 1 MB, and the cipher opens what it sealed.
pub read_all-stream_frames :
    (aead : Aead) (fs : List (Bytes × Bytes))
    → IsAead aead
    → AreFrames aead fs
    → read_all aead (stream_frames aead fs) ≡ pieces fs
unfolding read_all
read_all-stream_frames aead fs cipher ok =
    read_stream-stream_frames aead (length (stream_frames aead fs)) fs cipher ok
      (length-stream_frames aead fs)
