-- ===== src/Client/Batch/Pushing.antt =====
-- The client's side of a batch push: execute_push_manifest (crates/rsdb-cli/src/main.rs).
use rsdb.Base.{
  ℕ, ◌+◌, ◌≤◌, ◌≡◌, refl, ap, ◌∙◌, arith, true, false, none, some, List, [], ◌++◌, map, ok, length,
  All, ==_iff, ◌==◌, not, if◌then◌else◌,
}
use mathlib.Core.List.{append_assoc}
use rsdb.Base.Exec.{map_error, throw, ◌>>=◌, ◌>>◌}
use rsdb.Base.Texts.{Text, Bytes, codes, decimal}
use rsdb.Proto.Io.{memory_writer}
use rsdb.Proto.Wire.{
  request, response, file, header_len, default_stream_chunk_size, max_payload_len,
}
use rsdb.Proto.Frames.{Serde, write_stream_frame}
use rsdb.Proto.Messages.{
  ControlRequest, ControlResponse, TransferRoot, push_batch, push_batch_ready, push_batch_complete,
}
use rsdb.Daemon.Buffer.{BufWriter, IsFlushing}
use rsdb.Daemon.Error.{with_context, bail}
use rsdb.Daemon.Host.{Host, World, Daemon, on_out}
use rsdb.Client.Batch.Manifest.{LocalBatchManifest}
use rsdb.Client.Batch.Receive.{client_request_id}
use rsdb.Client.Batch.Exchange.{
  PushSummary, Session, failed, own, stream_local_batch_files, read_response, execute_push_manifest,
  expect_written, expect_ready, in_context, send_request,
}
use rsdb.Client.Batch.Items.{
  Item, entry_of, files_of, total_of, item_frames, IsReadable, send_local_files-frames,
}
use rsdb.Client.Batch.Replies.{
  message_wire, end_mark, end_mark-sent, continue-ok, write_json_frame-wire, read_response-message,
}

-- The manifest of these entries.
abbrev pub manifest_of : List Text → List TransferRoot → List Item → LocalBatchManifest
manifest_of sources roots items = record {
  sources = sources;
  roots = roots;
  entries = map entry_of items;
  files = files_of items;
  total_bytes = total_of items;
}

-- What the client sends in a push, after the request.
abbrev pub push_stream : List Item → Bytes
push_stream items = item_frames items ++ end_mark

module _ {B T : Type 0} (buf : BufWriter B Bytes) (law : IsFlushing buf) (sender : Host T) where
  stream_local_batch_files-frames :
      (items : List Item) (world : World Bytes T)
      → All (λ i. IsReadable sender i.source) items
      → (s : T) × (stream_local_batch_files buf sender (files_of items) world
          ≡ (ok (total_of items), record world { out = world.out ++ item_frames items; fs = s }))
  unfolding stream_local_batch_files
  stream_local_batch_files-frames items world readable =
      let size = header_len + default_stream_chunk_size in
      let start : World B T = record {
        inbox = world.inbox;
        out = buf.with_capacity size world.out;
        fs = world.fs;
      } in
      let (b, s, sent, grown) =
        send_local_files-frames sender ⦃w = buf.writer⦄ law.appending items 0 start readable in
      let zero_add : 0 + total_of items ≡ total_of items = omega arith in
      let passed : buf.inner (buf.flush b).1 ≡ world.out ++ item_frames items =
        law.passes b ∙ grown ∙ ap (λ t. t ++ item_frames items) (law.starts size world.out) in
      (s, rw (sent, law.flushes b, zero_add, passed))

pub own-ok :
    {W S A : Type 0} (m : Daemon W S A) (a : A) (world world' : World W S)
    → m world ≡ (ok a, world')
    → own m world ≡ (ok a, world')
own-ok m a world world' e = rw e

context-ok :
    {W S A : Type 0} (text : Text) (m : Daemon W S A) (a : A) (world world' : World W S)
    → m world ≡ (ok a, world')
    → map_error (with_context text) m world ≡ (ok a, world')
context-ok text m a world world' e = rw e

pub send_request-ok :
    {B T : Type 0} (buf : BufWriter B Bytes) (show : ControlResponse → Text)
    (requests : Serde ControlRequest) (sender : Host T) (text : Text) (message : ControlRequest)
    (payload : Bytes) (world : World Bytes T)
    → requests.to_vec message ≡ some payload
    → length payload ≤ max_payload_len
    → send_request buf show requests sender text message world
      ≡ (ok tt, record world { out = world.out ++ message_wire request payload })
send_request-ok buf show requests sender text message payload world v n =
    rw (write_json_frame-wire requests request message payload world.out v n)

end_mark-ok :
    {T : Type 0} (text : Text) (world : World Bytes T)
    → own (in_context text (on_out (write_stream_frame client_request_id file true []))) world
      ≡ (ok tt, record world { out = world.out ++ end_mark })
end_mark-ok text world =
    let mark : Daemon Bytes _ (Unit {0}) =
      on_out (write_stream_frame client_request_id file true []) in
    let next = record world { out = world.out ++ end_mark } in
    own-ok (in_context text mark) tt world next
      (context-ok text mark tt world next (end_mark-sent world))

module _ {B T : Type 0} (buf : BufWriter B Bytes) (law : IsFlushing buf) (sender : Host T)
    (show : ControlResponse → Text) (requests : Serde ControlRequest) where
  -- The client's side, where the replies have arrived: it sends the request and the files, and reads
  -- both replies.
  pub execute_push_manifest-completes :
      (sources : List Text) (roots : List TransferRoot) (items : List Item) (path : Text)
      (asked ready complete rest : Bytes) (world : World Bytes T)
      → All (λ i. IsReadable sender i.source) items
      → requests.to_vec (push_batch path roots (map entry_of items)) ≡ some asked
      → length asked ≤ max_payload_len
      → length ready ≤ max_payload_len
      → length complete ≤ max_payload_len
      → sender.responses.from_slice ready ≡ some push_batch_ready
      → sender.responses.from_slice complete
        ≡ some (push_batch_complete (length items) (total_of items))
      → world.inbox ≡ message_wire response ready ++ (message_wire response complete ++ rest)
      → (s : T) × (execute_push_manifest buf show requests sender
            (manifest_of sources roots items)
            path
            world
          ≡ (
            ok (record {
              entries_written = length items;
              bytes_written = total_of items;
              skipped = false;
              verification = none;
              verified = false;
            }),
            record {
              inbox = rest;
              out = world.out ++ message_wire request asked ++ push_stream items;
              fs = s;
            },
          ))
  unfolding execute_push_manifest
  execute_push_manifest-completes sources roots items path asked ready complete rest world readable
        v n ready_n complete_n reads_ready reads_complete e =
      let read : Session Bytes T ControlResponse = own (read_response sender) in
      let finish : ℕ → Session Bytes T PushSummary = λ sent.
        own (
          in_context (codes "failed to finish push stream")
            (on_out (write_stream_frame client_request_id file true [])))
        >> (read >>= λ done. expect_written buf show requests sender sent done) in
      let after : ℕ → Session Bytes T PushSummary = λ sent.
        if not (sent == total_of items)
        then throw (
            failed (
              bail (
                codes "push size mismatch before completion: expected "
                ++ (decimal (total_of items) ++ (codes " bytes, streamed " ++ decimal sent)))))
        else finish sent in
      let files : Session Bytes T PushSummary =
        own (stream_local_batch_files buf sender (files_of items)) >>= after in
      let w1 : World Bytes T = record world { out = world.out ++ message_wire request asked } in
      let w2 : World Bytes T = record w1 { inbox = message_wire response complete ++ rest } in
      let (s, sent) = stream_local_batch_files-frames buf law sender items w2 readable in
      let w3 : World Bytes T = record w2 { out = w2.out ++ item_frames items; fs = s } in
      let w4 : World Bytes T = record w3 { out = w3.out ++ end_mark } in
      let w5 : World Bytes T = record w4 { inbox = rest } in
      let same : (total_of items == total_of items) ≡ true =
        (==_iff (total_of items) (total_of items)).1 refl in
      (
        s,
        continue-ok (λ done. read >>= λ reply. expect_ready buf show requests sender reply >> files)
            (send_request-ok buf show requests sender _ _ asked world v n)
            (continue-ok (λ reply. expect_ready buf show requests sender reply >> files)
              (own-ok (read_response sender) push_batch_ready w1 w2
                (read_response-message sender push_batch_ready ready _ w1 e ready_n reads_ready))
              (continue-ok after
                (own-ok (stream_local_batch_files buf sender (files_of items)) (total_of items) w2
                  w3 sent)
                (rw same (
                  continue-ok
                    (λ done. read >>= λ reply.
                      expect_written buf show requests sender (total_of items) reply)
                    (end_mark-ok (codes "failed to finish push stream") w3)
                    (continue-ok
                      (λ reply. expect_written buf show requests sender (total_of items) reply)
                      (own-ok (read_response sender)
                        (push_batch_complete (length items) (total_of items)) w4 w5
                        (read_response-message sender _ complete rest w4 refl complete_n
                          reads_complete))
                      (rw (same, append_assoc w1.out (item_frames items) end_mark))))))),
      )
