-- ===== src/Client/Batch/Sent.antt =====
-- A batch pull on the daemon: handle_connection down to stream_batch_files (device/rsdbd/src/main.rs).
use mathlib.Core.List.{append_assoc}
use rsdb.Base.{
  ℕ, ◌≤◌, ◌≡◌, refl, ap, ◌∙◌, arith, true, some, List, [], ◌∷◌, ◌++◌, map, ok, length, All, ==_iff,
  ◌==◌, not, if◌then◌else◌,
}
use rsdb.Base.Exec.{throw, ◌>>=◌, ◌>>◌}
use rsdb.Base.Texts.{Text, Bytes, codes, decimal}
use rsdb.Proto.Wire.{request, response, file, max_payload_len}
use rsdb.Proto.Io.{memory_writer}
use rsdb.Proto.Frames.{Serde, IsSerde, decode_json, write_stream_frame}
use rsdb.Proto.Messages.{
  ControlRequest, TransferRoot, pull_batch, pull_batch_metadata, pull_batch_complete,
}
use rsdb.Daemon.Buffer.{BufWriter, IsFlushing}
use rsdb.Daemon.Error.{bail}
use rsdb.Daemon.Error
use rsdb.Daemon.Host.{Host, World, Daemon, respond, on_out}
use rsdb.Daemon.Transfer.Manifest.{build_batch_manifest_from_sources}
use rsdb.Daemon.Transfer.Stream.{stream_batch_files, handle_pull_batch}
use rsdb.Daemon.Session.Process.{ServerState, Processes}
use rsdb.Daemon.Server.{handle_request, handle_connection}
use rsdb.Client.Batch.Receive.{client_request_id}
use rsdb.Client.Batch.Items.{Item, entry_of, files_of, total_of, item_frames, IsReadable}
use rsdb.Client.Batch.Replies.{
  message_wire, end_mark, end_mark-sent, continue-ok, read_frame-message, respond-sent,
}
use rsdb.Client.Batch.Alike.{as_source, as_manifest}
use rsdb.Client.Batch.Pushing.{manifest_of, push_stream}
use rsdb.Client.Batch.Pushed.{or_error-ok}
use rsdb.Client.Batch.Streamed.{stream_batch_files-frames}

-- What the daemon sends in a pull: the manifest, the files with the end mark, and the completion.
abbrev pub pull_stream : Bytes → Bytes → List Item → Bytes
pull_stream metadata complete items =
    message_wire response metadata ++ (push_stream items ++ message_wire response complete)

length-map : {A B : Type 0} (f : A → B) (xs : List A) → length (map f xs) ≡ length xs
length-map f [] = refl
length-map f (x ∷ xs) = omega (arith, length-map f xs)

joined : (a b c d e : Bytes) → (((a ++ b) ++ c) ++ d) ++ e ≡ a ++ (b ++ ((c ++ d) ++ e))
joined a b c d e =
    ap (λ t. t ++ e) (append_assoc (a ++ b) c d)
    ∙ append_assoc (a ++ b) (c ++ d) e
    ∙ append_assoc a b ((c ++ d) ++ e)

module _ {S : Type 0} (host : Host S) where
  -- What the replies of a pull serialize to.
  pub record PullBytes (roots : List TransferRoot) (items : List Item) (metadata complete : Bytes)
      : Type 0 where
    pub metadata_bytes :
        host.responses.to_vec (pull_batch_metadata roots (map entry_of items) (total_of items))
        ≡ some metadata
    pub metadata_fits : length metadata ≤ max_payload_len
    pub complete_bytes :
        host.responses.to_vec (pull_batch_complete (length items) (total_of items)) ≡ some complete
    pub complete_fits : length complete ≤ max_payload_len

module _ {B S : Type 0} (buf : BufWriter B Bytes) (flushing : IsFlushing buf) (host : Host S)
    (fuel : ℕ) (sources : List Text) (roots : List TransferRoot) (items : List Item)
    (metadata complete : Bytes) (bytes : PullBytes host roots items metadata complete)
    (readable : All (λ i. IsReadable host i.source) items) where
  handle_pull_batch-items :
      (world : World Bytes S)
      → build_batch_manifest_from_sources host world.fs fuel sources
        ≡ ok (as_manifest (manifest_of [] roots items))
      → (s : S) × (handle_pull_batch buf host client_request_id fuel sources world ≡ (
        ok tt,
        record world { out = world.out ++ pull_stream metadata complete items; fs = s },
      ))
  unfolding handle_pull_batch
  handle_pull_batch-items world built =
      let complete_reply : Daemon Bytes S (Unit {0}) =
        respond host client_request_id
          (pull_batch_complete (length (map entry_of items)) (total_of items)) in
      let finish : ℕ → Daemon Bytes S (Unit {0}) = λ sent.
        if not (sent == total_of items)
        then throw (
            bail (
              codes "pull size mismatch before completion: expected "
              ++ (decimal (total_of items) ++ (codes " bytes, streamed " ++ decimal sent))))
        else (on_out (write_stream_frame client_request_id file true [])
            >> respond host client_request_id
                (pull_batch_complete (length (map entry_of items)) sent)) in
      let files : Daemon Bytes S (Unit {0}) =
        stream_batch_files buf host client_request_id (map as_source (files_of items)) >>= finish in
      let w1 : World Bytes S = record world { out = world.out ++ message_wire response metadata } in
      let (s, sent) = stream_batch_files-frames buf flushing host items w1 readable in
      let w2 : World Bytes S = record w1 { out = w1.out ++ item_frames items; fs = s } in
      let w3 : World Bytes S = record w2 { out = w2.out ++ end_mark } in
      let same : (total_of items == total_of items) ≡ true =
        (==_iff (total_of items) (total_of items)).1 refl in
      (
        s,
        rw built (
            continue-ok (λ done. files)
              (respond-sent host (pull_batch_metadata roots (map entry_of items) (total_of items))
                metadata world bytes.metadata_bytes bytes.metadata_fits)
              (continue-ok finish sent (
                rw same (
                  continue-ok (λ done. complete_reply) (end_mark-sent w2)
                    (rw
                      (← joined world.out (message_wire response metadata) (item_frames items)
                        end_mark (message_wire response complete))
                      (respond-sent host _ complete w3
                        (rw (length-map entry_of items) bytes.complete_bytes)
                        bytes.complete_fits)))))),
      )

  -- The whole connection.
  pub handle_connection-pulled :
      (processes : Processes S) (state : ServerState) (requests : Serde ControlRequest)
      (law : IsSerde requests) (asked rest : Bytes) (fs : S)
      → build_batch_manifest_from_sources host fs fuel sources
        ≡ ok (as_manifest (manifest_of [] roots items))
      → requests.to_vec (pull_batch sources) ≡ some asked
      → length asked ≤ max_payload_len
      → (s : S) × (handle_connection buf host processes state fuel requests true
            (record { inbox = message_wire request asked ++ rest; out = []; fs = fs })
          ≡ (ok tt, record { inbox = rest; out = pull_stream metadata complete items; fs = s }))
  unfolding handle_connection handle_request decode_json
  handle_connection-pulled processes state requests law asked rest fs built v n =
      let (s, run) = handle_pull_batch-items (record { inbox = rest; out = []; fs = fs }) built in
      (
        s,
        rw (read_frame-message request asked rest n, law.reads_back (pull_batch sources) asked v)
            (or_error-ok host client_request_id Error.classify_pull_error
              (handle_pull_batch buf host client_request_id fuel sources) _ _ run),
      )
