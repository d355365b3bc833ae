-- ===== src/Tunnel/Frames/Upload.antt =====
-- snc/core/tunnel.go and snc-exit/handler.go: the exit parses what the client builds.
use tunnelcat_server.Base.{
  nat_eq, ℕ, ◌%◌, ◌<◌, ◌≡◌, refl, ap, ◌∙◌, false, ◌∷◌, ◌++◌, some, ltb, length, length-append,
  take-append, drop-append, arith,
}
use tunnelcat_server.Base.Bytes.{Bytes, AreBytes}
use tunnelcat_server.Base.BigEndian.{
  put_uint, length-put_uint, take-field, drop-field, uint-field, drop-uint,
}
use tunnelcat_server.Base.Aead.{Aead, IsAead}
use tunnelcat_server.Dht.Id.{encode_hex}
use tunnelcat_server.Dht.Id.Hex.{decode_hex-encode_hex}
use tunnelcat_server.Tunnel.Frames.{
  zeros, conn_id_field, build_upload_plain, parse_upload_frame, receive_upload, then_parse,
  seal_frame, open_frame,
}

conn_id_field-encode_hex :
    (raw : Bytes) → AreBytes raw → length raw ≡ 16 → conn_id_field (encode_hex raw) ≡ raw
unfolding conn_id_field
conn_id_field-encode_hex raw bytes size =
    rw (decode_hex-encode_hex raw bytes, conn_id_field) (take-field 16 raw (zeros 16) size)

-- The exit opens what the client sealed.
pub open_frame-seal_frame :
    (aead : Aead) (nonce plain : Bytes)
    → IsAead aead
    → length nonce ≡ 12
    → open_frame aead (seal_frame aead nonce plain) ≡ some plain
unfolding open_frame seal_frame
open_frame-seal_frame aead nonce plain cipher size =
    let ct = aead.encrypt nonce plain in
    let long : ltb (length (nonce ++ ct)) 12 ≡ false = ground (arith, length-append nonce ct) in
    rw (long, take-field 12 nonce ct size, drop-field 12 nonce ct size) (cipher.opens nonce plain)

parse_upload_frame-fields :
    (raw target payload : Bytes) (seq : ℕ)
    → length raw ≡ 16
    → seq < 4_294_967_296
    → length target < 65_536
    → parse_upload_frame
        (0 ∷ (raw ++ (put_uint 4 seq ++ (put_uint 2 (length target) ++ (target ++ payload)))))
      ≡ some (encode_hex raw, seq, target, payload)
unfolding parse_upload_frame
parse_upload_frame-fields raw target payload seq size small fits =
    let text = target ++ payload in
    let at_len = put_uint 2 (length target) ++ text in
    let at_seq = put_uint 4 seq ++ at_len in
    let plain = raw ++ at_seq in
    let long : ltb (length (0 ∷ plain)) 23 ≡ false = ground (
      arith,
      length-append raw at_seq,
      length-append (put_uint 4 seq) at_len,
      length-append (put_uint 2 (length target)) text,
      length-put_uint 4 seq,
      length-put_uint 2 (length target),
    ) in
    let enough : ltb (length text) (length target) ≡ false =
      ground (arith, length-append target payload) in
    rw
      (
        long,
        drop-field 16 raw at_seq size,
        drop-uint 4 seq at_len,
        drop-uint 2 (length target) text,
        uint-field 2 (length target) text fits,
        uint-field 4 seq at_len small,
        enough,
        take-field 16 raw at_seq size,
        take-append target payload,
        drop-append target payload,
      )
      refl

-- What the client seals as an upload frame, the exit opens as the same id, sequence number, target and
-- payload, if the id is 16 bytes in hexadecimal, the number has 32 bits, the target is shorter than
-- 65,536 bytes, the nonce has 12 bytes, and the cipher opens what it has sealed.
pub receive_upload-build_upload_plain :
    (aead : Aead) (nonce raw target payload : Bytes) (seq : ℕ)
    → IsAead aead
    → length nonce ≡ 12
    → AreBytes raw
    → length raw ≡ 16
    → seq < 4_294_967_296
    → length target < 65_536
    → receive_upload aead
        (seal_frame aead nonce (build_upload_plain (encode_hex raw) seq target payload))
      ≡ some (encode_hex raw, seq, target, payload)
unfolding receive_upload build_upload_plain
receive_upload-build_upload_plain aead nonce raw target payload seq cipher fresh bytes size small
      fits =
    let plain = build_upload_plain (encode_hex raw) seq target payload in
    let whole : length target % 65_536 ≡ length target = omega arith in
    ap (then_parse parse_upload_frame) (open_frame-seal_frame aead nonce plain cipher fresh)
    ∙ rw (conn_id_field-encode_hex raw bytes size, whole)
        (parse_upload_frame-fields raw target payload seq size small fits)
