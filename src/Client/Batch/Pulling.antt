-- ===== src/Client/Batch/Pulling.antt =====
-- The client's side of a batch pull: execute_pull_with_progress and receive_local_batch
-- (crates/rsdb-cli/src/main.rs).
use mathlib.Core.List.{append_assoc}
use rsdb.Base.{
  ℕ, suc, ◌+◌, ◌≤◌, ◌≡◌, refl, ap, ◌∙◌, arith, true, false, none, some, List, [], ◌++◌, map, ok,
  length, All, ==_iff, ◌==◌,
}
use rsdb.Base.Exec.{◌>>=◌}
use rsdb.Base.Texts.{Text, Bytes, codes}
use rsdb.Proto.Wire.{request, response, file, max_payload_len}
use rsdb.Proto.Io.{memory_writer}
use rsdb.Proto.Frames.{Serde}
use rsdb.Proto.StreamFrames.{read_stream_frame_into-wire}
use rsdb.Proto.RoundTrip.{write_stream_frame-wire}
use rsdb.Proto.Messages.{
  ControlRequest, ControlResponse, TransferRoot, TransferEntry, pull_batch, pull_batch_metadata,
  pull_batch_complete,
}
use rsdb.Paths.Transfer.{resolve_transfer_entry_path}
use rsdb.Daemon.Buffer.{BufWriter}
use rsdb.Daemon.Host.{Host, World}
use rsdb.Daemon.Fs.Volume.{IsVolume}
use rsdb.Daemon.Transfer.Delivery.{IsChunk}
use rsdb.Client.Batch.Receive.{
  client_request_id, ensure_request_id, read_file_stream_chunk_into, expect_file_stream_eof,
  resolve_local_batch_roots, receive_local_batch,
}
use rsdb.Client.Batch.Exchange.{
  PullSummary, Session, own, read_response, execute_pull_with_progress, expect_metadata,
  expect_sent,
}
use rsdb.Client.Batch.Items.{
  Item, chunks_of, entry_of, total_of, AreApart, item_frames, All-IsPlaced,
}
use rsdb.Client.Batch.Kept.{NeverFails, HasArrived}
use rsdb.Client.Batch.Placed.{receive_entries-items}
use rsdb.Client.Batch.Pulled.{value, value_ok}
use rsdb.Client.Batch.Mirrored.{HasPlainMode, receive_local_entries-IsLike}
use rsdb.Client.Batch.Replies.{message_wire, end_mark, continue-ok, read_response-message}
use rsdb.Client.Batch.Pushing.{push_stream, own-ok, send_request-ok}
use rsdb.Client.Batch.Pushed.{enough_fuel}

pub expect_file_stream_eof-end_mark :
    {W S : Type 0} (name : Text) (rest : Bytes) (world : World W S)
    → world.inbox ≡ end_mark ++ rest
    → expect_file_stream_eof name world ≡ (ok tt, record world { inbox = rest })
unfolding expect_file_stream_eof read_file_stream_chunk_into ensure_request_id
expect_file_stream_eof-end_mark name rest world e = ground (
  arith,
  e,
  write_stream_frame-wire client_request_id file true [] [] (omega arith),
  read_stream_frame_into-wire client_request_id file true [] rest (omega arith) (omega arith),
)

module _ {S : Type 0} (host : Host S) (volume : IsVolume host) (never : NeverFails host volume)
    (items : List Item) (destination : Text) (roots : List TransferRoot) (root_paths : List Text)
    (chunked : All (λ i. All IsChunk (chunks_of i.source)) items)
    (resolved : All (λ i. resolve_transfer_entry_path root_paths (entry_of i) ≡ ok i.path) items)
    (plain : All (λ e. HasPlainMode e.mode) (map entry_of items)) (apart : AreApart items) where
  receive_local_batch-items :
      {W : Type 0} (rest : Bytes) (world : World W S)
      → (resolve_local_batch_roots host destination destination roots world.fs).0 ≡ ok root_paths
      → world.inbox ≡ push_stream items ++ rest
      → (world' : World W S) × (receive_local_batch host destination destination roots
            (map entry_of items)
            world
          ≡ (ok (length items, total_of items), world'))
        × (world'.inbox ≡ rest)
        × (world'.out ≡ world.out)
        × All (λ i. HasArrived host volume i.path i.source world'.fs) items
  unfolding receive_local_batch
  receive_local_batch-items rest world placed e =
      let fuel = suc (length world.inbox) in
      let w1 = record world {
        fs = (resolve_local_batch_roots host destination destination roots world.fs).1;
      } in
      let (w2, run, left, kept, arrived, others) =
        receive_entries-items host volume never fuel root_paths items 0 0 (end_mark ++ rest) w1
          (All-IsPlaced fuel root_paths items chunked resolved (rw e (enough_fuel items rest)))
          apart (e ∙ append_assoc (item_frames items) end_mark rest) in
      let like =
        receive_local_entries-IsLike host fuel root_paths (map entry_of items) 0 0 w1 plain in
      let received =
        value_ok _ (0 + length items, 0 + total_of items) w2
          (like.same_value ∙ ap (λ r. value r.0) run) (like.same_world ∙ ap (λ r. r.1) run) in
      let entries : 0 + length items ≡ length items = omega arith in
      let total : 0 + total_of items ≡ total_of items = omega arith in
      (
        record w2 { inbox = rest },
        rw (
          placed,
          received,
          expect_file_stream_eof-end_mark (codes "pull") rest w2 left,
          entries,
          total,
        ),
        refl,
        kept,
        arrived,
      )

  pub execute_pull_with_progress-completes :
      {B : Type 0} (buf : BufWriter B Bytes) (show : ControlResponse → Text)
      (requests : Serde ControlRequest) (sources : List Text) (asked metadata complete rest : Bytes)
      (world : World Bytes S)
      → (resolve_local_batch_roots host destination destination roots world.fs).0 ≡ ok root_paths
      → requests.to_vec (pull_batch sources) ≡ some asked
      → length asked ≤ max_payload_len
      → length metadata ≤ max_payload_len
      → length complete ≤ max_payload_len
      → host.responses.from_slice metadata
        ≡ some (pull_batch_metadata roots (map entry_of items) (total_of items))
      → host.responses.from_slice complete
        ≡ some (pull_batch_complete (length items) (total_of items))
      → world.inbox
        ≡ message_wire response metadata
          ++ (push_stream items ++ (message_wire response complete ++ rest))
      → (world' : World Bytes S) × (execute_pull_with_progress buf show requests host sources
            destination world
          ≡ (
            ok (record {
              entries_received = length items;
              bytes_received = total_of items;
              total_bytes = total_of items;
              verification = none;
              verified = false;
              roots = roots;
              entries = map entry_of items;
            }),
            world',
          ))
        × (world'.inbox ≡ rest)
        × (world'.out ≡ world.out ++ message_wire request asked)
        × All (λ i. HasArrived host volume i.path i.source world'.fs) items
  unfolding execute_pull_with_progress
  execute_pull_with_progress-completes buf show requests sources asked metadata complete rest world
        placed v n metadata_n complete_n reads_metadata reads_complete e =
      let read : Session Bytes S ControlResponse = own (read_response host) in
      let finish : ℕ × ℕ → Session Bytes S PullSummary = λ n. read >>= λ done.
      expect_sent buf show requests host roots (map entry_of items) (total_of items) n.0 n.1 done in
      let receive : List TransferRoot × List TransferEntry × ℕ → Session Bytes S PullSummary = λ m.
        own (receive_local_batch host destination destination m.0 m.1) >>= λ n.
        read >>= λ done. expect_sent buf show requests host m.0 m.1 m.2 n.0 n.1 done in
      let w1 : World Bytes S = record world { out = world.out ++ message_wire request asked } in
      let w2 : World Bytes S = record w1 {
        inbox = push_stream items ++ (message_wire response complete ++ rest);
      } in
      let (w3, received, left, kept, arrived) =
        receive_local_batch-items (message_wire response complete ++ rest) w2 placed refl in
      let same_entries : (length items == length items) ≡ true =
        (==_iff (length items) (length items)).1 refl in
      let same_total : (total_of items == total_of items) ≡ true =
        (==_iff (total_of items) (total_of items)).1 refl in
      (
        record w3 { inbox = rest },
        continue-ok
            (λ done. read >>= λ first. expect_metadata buf show requests host first >>= receive)
            (send_request-ok buf show requests host (codes "failed to send pull request")
              (pull_batch sources) asked world v n)
            (continue-ok (λ first. expect_metadata buf show requests host first >>= receive)
              (own-ok (read_response host)
                (pull_batch_metadata roots (map entry_of items) (total_of items)) w1 w2
                (read_response-message host _ metadata _ w1 e metadata_n reads_metadata))
              (continue-ok finish
                (own-ok
                  (receive_local_batch host destination destination roots (map entry_of items))
                  (length items, total_of items) w2 w3 received)
                (continue-ok
                  (λ done.
                    expect_sent buf show requests host roots (map entry_of items) (total_of items)
                      (length items) (total_of items) done)
                  (own-ok (read_response host) (pull_batch_complete (length items) (total_of items))
                    w3 (record w3 { inbox = rest })
                    (read_response-message host _ complete rest w3 left complete_n reads_complete))
                  (rw (same_entries, same_total) refl)))),
        refl,
        kept,
        arrived,
      )
