-- ===== src/Proto/Json.antt =====
-- JSON frames and discovery datagrams, over any serde implementation that reads back what it
-- writes (crates/rsdb-proto/src/lib.rs).
use rsdb.Base.{
  ℕ, ◌^◌, ◌≤◌, ◌<◌, ◌≡◌, refl, sym, ap, ◌∙◌, and_then, take, drop, take-append-drop, arith, true,
  false, [], ◌++◌, ok, err, some,
}
use rsdb.Base.{length, le→not_ltb}
use rsdb.Base.Texts.{Bytes, text_eq_iff}
use rsdb.Proto.Wire.{
  FrameKind, request, response, event, stream, Frame, max_payload_len, max_discovery_payload_len,
  discovery_magic, unexpected_frame_kind, kind_eq,
}
use rsdb.Proto.Io.{memory_writer}
use rsdb.Proto.Frames.{
  Serde, IsSerde, write_json_frame, read_frame, decode_json, encode_discovery_message,
  decode_discovery_message,
}
use rsdb.Proto.RoundTrip.{frame_header, read_frame-write_frame}

kind_eq_refl : (k : FrameKind) → kind_eq k k ≡ true
kind_eq_refl request = refl
kind_eq_refl response = refl
kind_eq_refl event = refl
kind_eq_refl stream = refl

module _ {T : Type 0} (s : Serde T) where
  -- A frame of another kind than the expected one is refused with both kinds, whatever its payload.
  pub decode_json_other_kind :
      (frame : Frame) (expected : FrameKind)
      → kind_eq frame.header.kind expected ≡ false
      → decode_json s frame expected ≡ err (unexpected_frame_kind expected frame.header.kind)
  unfolding decode_json
  decode_json_other_kind frame expected h = rw h

module _ {T : Type 0} (s : Serde T) (law : IsSerde s) where
  -- A message that serializes within 16 MiB, written as a JSON frame under a request id of 32 bits,
  -- is read as a frame with that id, and decodes to the message where its kind is expected. What
  -- follows is left. Serde is assumed to read back what it wrote.
  pub decode_json-write_json_frame :
      (kind : FrameKind) (request_id : ℕ) (message : T) (bytes rest : Bytes)
      → s.to_vec message ≡ some bytes
      → request_id < 2 ^ 32
      → length bytes ≤ max_payload_len
      → (read_frame ((write_json_frame s kind request_id message []).1 ++ rest) ≡ (
        ok (record { header = frame_header kind 0 request_id (length bytes); payload = bytes }),
        rest,
      ))
        × (decode_json s
              (record { header = frame_header kind 0 request_id (length bytes); payload = bytes })
              kind
            ≡ ok message)
  unfolding write_json_frame decode_json
  decode_json-write_json_frame kind request_id message bytes rest v r n = (
    rw v (read_frame-write_frame kind request_id bytes rest r n),
    rw (kind_eq_refl kind, law.reads_back message bytes v),
  )

  -- A discovery message that serializes within 16 KiB is decoded from the datagram that it is
  -- encoded to, where Serde reads back what it wrote.
  pub decode-encode_discovery_message :
      (message : T) (bytes : Bytes)
      → s.to_vec message ≡ some bytes
      → length bytes ≤ max_discovery_payload_len
      → and_then (encode_discovery_message s message) (decode_discovery_message s) ≡ ok message
  unfolding encode_discovery_message decode_discovery_message
  decode-encode_discovery_message message bytes v n = rw (
    v,
    le→not_ltb max_discovery_payload_len (length bytes) n,
    le→not_ltb (length (discovery_magic ++ bytes)) (length discovery_magic) (omega arith),
    le→not_ltb max_discovery_payload_len (length bytes) n,
    law.reads_back message bytes v,
  )

module _ {T : Type 0} (s : Serde T) where
  -- What the discovery decoder accepts is the magic and then at most 16 KiB that serde reads as
  -- the message.
  pub decode_discovery_message_ok :
      (datagram : Bytes) (message : T)
      → decode_discovery_message s datagram ≡ ok message
      → (payload : Bytes) × (datagram ≡ discovery_magic ++ payload)
        × (length payload ≤ max_discovery_payload_len)
        × (s.from_slice payload ≡ some message)
  unfolding decode_discovery_message
  decode_discovery_message_ok datagram message e =
      let prefix : take (length discovery_magic) datagram ≡ discovery_magic =
        ground (arith, text_eq_iff (take (length discovery_magic) datagram) discovery_magic) in
      (
        drop (length discovery_magic) datagram,
        sym (take-append-drop (length discovery_magic) datagram)
            ∙ ap (λ t. t ++ drop (length discovery_magic) datagram) prefix,
        ground arith,
        ground arith,
      )
