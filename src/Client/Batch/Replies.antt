-- ===== src/Client/Batch/Replies.antt =====
-- The messages and the end mark of a transfer, as bytes on the connection, and a rule for actions
-- in sequence (crates/rsdb-cli/src/main.rs, device/rsdbd/src/main.rs).
use rsdb.Base.{sym, ap, some, ◌≤◌, ◌≡◌, refl, arith, true, [], ◌++◌, Result, ok, length}
use rsdb.Base.Exec.{Exec, continue, ◌>>=◌}
use rsdb.Base.Texts.{Text, Bytes}
use rsdb.Proto.Io.{memory_writer}
use rsdb.Proto.Wire.{FrameKind, max_payload_len, file, response}
use rsdb.Proto.Frames.{Serde, read_frame, decode_json, write_stream_frame, write_json_frame}
use rsdb.Proto.StreamFrames.{read_stream_frame_into-wire}
use rsdb.Proto.Messages.{ControlResponse}
use rsdb.Daemon.Transfer.Chunks.{read_file_stream_chunk_into, expect_file_stream_eof}
use rsdb.Daemon.Host.{on_out, respond, Host, World}
use rsdb.Proto.RoundTrip.{
  read_frame_into-wire, frame_header-IsSendable, write_frame-wire, wire, frame_header,
  write_stream_frame-wire,
}
use rsdb.Client.Batch.Receive.{client_request_id}
use rsdb.Client.Batch.Exchange.{read_response}

-- The frame of a message that serializes to `payload`.
abbrev pub message_wire : FrameKind → Bytes → Bytes
message_wire kind payload = wire (frame_header kind 0 client_request_id (length payload)) payload

-- The mark that ends the client's stream.
abbrev pub end_mark : Bytes
end_mark = (write_stream_frame client_request_id file true [] []).1

module _ {W S : Type 0} (host : Host S) where
  pub expect_file_stream_eof-end_mark :
      (name : Text) (rest : Bytes) (world : World W S)
      → world.inbox ≡ end_mark ++ rest
      → expect_file_stream_eof client_request_id name world ≡ (ok tt, record world { inbox = rest })
  unfolding expect_file_stream_eof read_file_stream_chunk_into
  expect_file_stream_eof-end_mark name rest world e = ground (
    arith,
    e,
    write_stream_frame-wire client_request_id file true [] [] (omega arith),
    read_stream_frame_into-wire client_request_id file true [] rest (omega arith) (omega arith),
  )

pub end_mark-sent :
    {S : Type 0} (world : World Bytes S)
    → on_out (write_stream_frame client_request_id file true []) world
      ≡ (ok tt, record world { out = world.out ++ end_mark })
end_mark-sent world =
    let mark = write_stream_frame-wire client_request_id file true [] [] (omega arith) in
    rw (write_stream_frame-wire client_request_id file true [] world.out (omega arith))
      (ap (λ r. (ok tt, record world { out = world.out ++ r.1 })) (sym mark))

pub bind-ok :
    {S E A B : Type 0} (m : Exec S E A) (f : A → Exec S E B) (s s' : S) (a : A) (r : Result E B × S)
    → m s ≡ (ok a, s')
    → f a s' ≡ r
    → (m >>= f) s ≡ r
bind-ok m f s s' a r e g = rw e g

pub write_json_frame-wire :
    {A : Type 0} (serde : Serde A) (kind : FrameKind) (message : A) (payload out : Bytes)
    → serde.to_vec message ≡ some payload
    → length payload ≤ max_payload_len
    → write_json_frame serde kind client_request_id message out
      ≡ (ok tt, out ++ message_wire kind payload)
unfolding write_json_frame
write_json_frame-wire serde kind message payload out v n =
    rw (v, write_frame-wire kind client_request_id payload out n)

pub respond-sent :
    {S : Type 0} (host : Host S) (reply : ControlResponse) (payload : Bytes) (world : World Bytes S)
    → host.responses.to_vec reply ≡ some payload
    → length payload ≤ max_payload_len
    → respond host client_request_id reply world
      ≡ (ok tt, record world { out = world.out ++ message_wire response payload })
respond-sent host reply payload world v n =
    rw (write_json_frame-wire host.responses response reply payload world.out v n)

pub read_frame-message :
    (kind : FrameKind) (payload rest : Bytes)
    → length payload ≤ max_payload_len
    → read_frame (message_wire kind payload ++ rest) ≡ (
      ok (record {
        header = frame_header kind 0 client_request_id (length payload);
        payload = payload;
      }),
      rest,
    )
unfolding read_frame
read_frame-message kind payload rest n = rw (
    read_frame_into-wire (frame_header kind 0 client_request_id (length payload)) payload rest
      (frame_header-IsSendable kind 0 client_request_id (length payload) (omega arith) (omega arith)
        n)
      refl)

pub read_response-message :
    {W S : Type 0} (host : Host S) (reply : ControlResponse) (payload rest : Bytes)
    (world : World W S)
    → world.inbox ≡ message_wire response payload ++ rest
    → length payload ≤ max_payload_len
    → host.responses.from_slice payload ≡ some reply
    → read_response host world ≡ (ok reply, record world { inbox = rest })
unfolding read_response decode_json
read_response-message host reply payload rest world e n reads =
    rw (e, read_frame-message response payload rest n, reads)

-- `bind-ok` where the first action has run.
pub continue-ok :
    {S E A B : Type 0} {run : Result E A × S} (f : A → Exec S E B) {s' : S} {a : A}
    {r : Result E B × S}
    → run ≡ (ok a, s')
    → f a s' ≡ r
    → continue run.0 f run.1 ≡ r
continue-ok f e g = rw e g
