-- ===== src/Tunnel/Frames.antt =====
-- snc/core/tunnel.go and snc-exit/handler.go: the sealed frames of a tunnel. The client builds the
-- upload frames that the exit parses, and the exit builds the responses and the stream frames that the
-- client parses. The cipher is a parameter, `none` is an error, and what `rand.Read` gives is an argument.
pub mod Upload
pub mod Download
use tunnelcat_server.Base.{
  nat_eq, ℕ, zero, suc, ◌+◌, ◌-◌, ◌%◌, not, List, [], ◌∷◌, ◌++◌, ◌||◌, Option, none, some, ltb, eqb,
  if◌then◌else◌, length, take, drop,
}
use tunnelcat_server.Base.Bytes.{Bytes}
use tunnelcat_server.Base.BigEndian.{uint, put_uint}
use tunnelcat_server.Base.Aead.{Aead}
use tunnelcat_server.Dht.Id.{encode_hex, decode_hex}

-- `frameTypeUpload` and `frameTypeStreamOpen`
abbrev pub type_upload : ℕ
type_upload = 0

abbrev pub type_stream_open : ℕ
type_stream_open = 1

abbrev pub min_padding : ℕ
min_padding = 512

abbrev pub zeros : ℕ → Bytes
zeros zero = []
zeros (suc n) = 0 ∷ zeros n

-- The 16 bytes of a connection's id, which is a text in hexadecimal; zeros where it is not.
unfoldable pub conn_id_field : Bytes → Bytes
conn_id_field conn_id = elim (decode_hex conn_id) [
  | none ↦ zeros 16
  | some b ↦ take 16 (b ++ zeros 16)
]

unfoldable pub build_upload_plain : Bytes → ℕ → Bytes → Bytes → Bytes
unfolding conn_id_field
build_upload_plain conn_id seq target payload =
    type_upload
    ∷ (conn_id_field conn_id
        ++ (put_uint 4 seq ++ (put_uint 2 (length target % 65_536) ++ (target ++ payload))))

unfoldable pub build_stream_open_plain : Bytes → Bytes
unfolding conn_id_field
build_stream_open_plain conn_id = type_stream_open ∷ conn_id_field conn_id

-- The id, the sequence number, the target and the payload.
abbrev pub Upload : Type 0
Upload = Bytes × ℕ × Bytes × Bytes

unfoldable pub parse_upload_frame : Bytes → Option Upload
parse_upload_frame [] = none
parse_upload_frame (t ∷ plain) =
    let at_seq = drop 16 plain in
    let at_len = drop 4 at_seq in
    let after = drop 2 at_len in
    let target_len = uint (take 2 at_len) in
    if ltb (length (t ∷ plain)) (1 + 16 + 4 + 2) || not (eqb t type_upload)
    then none
    else if ltb (length after) target_len
    then none
    else some (
      encode_hex (take 16 plain),
      uint (take 4 at_seq),
      take target_len after,
      drop target_len after,
    )

-- The padding is random where there is any; `random` is the supply.
unfoldable pub upload_response_plain : Bytes → Bytes → Bytes
upload_response_plain content random =
    put_uint 4 (length content) ++ (content ++ take (min_padding - length content) random)

-- The data of a response that has been opened. No data is `nil`, here the empty string.
unfoldable pub parse_response_plain : Bytes → Option Bytes
parse_response_plain plain =
    let dlen = uint (take 4 plain) in
    if ltb (length plain) 4
    then none
    else if eqb dlen 0
    then some []
    else if ltb (length plain - 4) dlen
    then none
    else some (take dlen (drop 4 plain))

abbrev pub then_parse {ℓ} : {A : Type ℓ} → (Bytes → Option A) → Option Bytes → Option A
then_parse parse none = none
then_parse parse (some plain) = parse plain

abbrev pub with_rest : Bytes → Option Bytes → Option (Bytes × Bytes)
with_rest rest none = none
with_rest rest (some plain) = some (plain, rest)

module _ (aead : Aead) where
  -- `sealFrame` of the client and `sealTunnelData` of the exit.
  unfoldable pub seal_frame : Bytes → Bytes → Bytes
  seal_frame nonce plain = nonce ++ aead.encrypt nonce plain

  -- `openFrame` of the client and `openTunnelFrame` of the exit.
  unfoldable pub open_frame : Bytes → Option Bytes
  open_frame sealed =
      if ltb (length sealed) 12 then none else aead.decrypt (take 12 sealed) (drop 12 sealed)

  -- What `handleTunnel` makes of the body of an upload.
  unfoldable pub receive_upload : Bytes → Option Upload
  unfolding open_frame parse_upload_frame
  receive_upload sealed = then_parse parse_upload_frame (open_frame sealed)

  unfoldable pub build_upload_response : Bytes → Bytes → Bytes → Bytes
  unfolding seal_frame upload_response_plain
  build_upload_response nonce content random =
      seal_frame nonce (upload_response_plain content random)

  unfoldable pub parse_response : Bytes → Option Bytes
  unfolding open_frame parse_response_plain
  parse_response [] = some []
  parse_response (b ∷ body) = then_parse parse_response_plain (open_frame (b ∷ body))

  -- What the exit writes to a stream for each piece that it reads from the target.
  unfoldable pub stream_frame : Bytes → Bytes → Bytes
  unfolding seal_frame
  stream_frame nonce piece = let ct = seal_frame nonce piece in put_uint 4 (length ct) ++ ct

  unfoldable pub stream_frames : List (Bytes × Bytes) → Bytes
  unfolding stream_frame
  stream_frames [] = []
  stream_frames ((nonce, piece) ∷ rest) = stream_frame nonce piece ++ stream_frames rest

  -- One frame from the stream, and what is left of the stream. A stream that ends within a frame, a
  -- frame over 1 MB and a frame that does not open are errors.
  unfoldable pub read_frame : Bytes → Option (Bytes × Bytes)
  unfolding open_frame
  read_frame src =
      let frame_len = uint (take 4 src) in
      let body = drop 4 src in
      if ltb (length src) 4
      then none
      else if ltb 1_048_576 frame_len
      then none
      else if ltb (length body) frame_len
      then none
      else with_rest (drop frame_len body) (open_frame (take frame_len body))

  -- The pieces that a reader gets from a stream, up to its end or an error; each takes bytes off it.
  unfoldable pub read_stream : ℕ → Bytes → List Bytes
  unfolding read_frame
  read_stream zero src = []
  read_stream (suc fuel) src = elim (read_frame src) [
    | none ↦ []
    | some (plain, rest) ↦ plain ∷ read_stream fuel rest
  ]

  -- A round for each byte is enough, as a frame has at least four.
  unfoldable pub read_all : Bytes → List Bytes
  unfolding read_stream
  read_all src = read_stream (length src) src
