-- ===== src/Proto/Writers.antt =====
-- Frames through any writer that takes everything (crates/rsdb-proto/src/lib.rs).
use mathlib.Core.List.{append_assoc}
use rsdb.Base.{ℕ, Bool, ◌≤◌, ◌≡◌, ap, ◌∙◌, arith, ◌++◌, ok, length, le→not_ltb}
use rsdb.Base.Texts.{Bytes}
use rsdb.Proto.Wire.{FrameHeader, StreamChannel, encode, stream, max_payload_len}
use rsdb.Proto.Io.{AsyncWrite}
use rsdb.Proto.Frames.{write_parts, write_stream_frame, stream_flags}
use rsdb.Proto.RoundTrip.{wire, frame_header, small_len}

-- A writer that takes everything; `sent` is what it has taken.
pub record IsAppending {W : Type 0} (w : AsyncWrite W) (sent : W → Bytes) : Type 0 where
  pub takes : (bytes : Bytes) (out : W) → (w.write_all bytes out).0 ≡ ok tt
  pub appends : (bytes : Bytes) (out : W) → sent (w.write_all bytes out).1 ≡ sent out ++ bytes

module _ {W : Type 0} ⦃w : AsyncWrite W⦄ {sent : W → Bytes} (law : IsAppending w sent) where
  write_parts-sent :
      (header : FrameHeader) (payload : Bytes) (out : W)
      → (out' : W) × (write_parts header payload out ≡ (ok tt, out'))
        × (sent out' ≡ sent out ++ wire header payload)
  write_parts-sent header payload out =
      let between = (w.write_all (encode header) out).1 in
      (
        (w.write_all payload between).1,
        ground (arith, law.takes (encode header) out, law.takes payload between),
        law.appends payload between
            ∙ ap (λ t. t ++ payload) (law.appends (encode header) out)
            ∙ append_assoc (sent out) (encode header) payload,
      )

  pub write_stream_frame-sent :
      (request_id : ℕ) (channel : StreamChannel) (eof : Bool) (payload : Bytes) (out : W)
      → length payload ≤ max_payload_len
      → (out' : W) × (write_stream_frame request_id channel eof payload out ≡ (ok tt, out'))
        × (sent out'
            ≡ sent out
              ++ wire
                  (frame_header stream (stream_flags channel eof) request_id (length payload))
                  payload)
  unfolding write_stream_frame
  write_stream_frame-sent request_id channel eof payload out n =
      let (out', run, taken) =
        write_parts-sent
          (frame_header stream (stream_flags channel eof) request_id (length payload)) payload
          out in
      (out', rw (le→not_ltb max_payload_len (length payload) n, small_len payload n) run, taken)
