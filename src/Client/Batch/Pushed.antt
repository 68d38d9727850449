-- ===== src/Client/Batch/Pushed.antt =====
-- The daemon's side of a batch push: handle_push_batch, and the connection from its first frame on
-- (device/rsdbd/src/main.rs).
use rsdb.Base.{
  ℕ, suc, ◌+◌, ◌≤◌, ◌≡◌, refl, ap, ◌∙◌, arith, true, false, some, List, [], ◌∷◌, ◌++◌, map, ok,
  length, length-append, All,
}
use mathlib.Core.List.{append_assoc}
use rsdb.Base.Exec.{◌>>=◌, ◌>>◌}
use rsdb.Base.Texts.{Text, Bytes, codes}
use rsdb.Proto.Io.{memory_writer}
use rsdb.Proto.Wire.{stream, file, encode, request, response, max_payload_len}
use rsdb.Proto.Frames.{Serde, IsSerde, stream_flags, decode_json}
use rsdb.Proto.Header.{length-encode}
use rsdb.Proto.Messages.{
  ControlRequest, ErrorCode, file_transfer_failed, TransferRoot, push_batch, push_batch_ready,
  push_batch_complete,
}
use rsdb.Daemon.Transfer.Chunks.{expect_file_stream_eof}
use rsdb.Daemon.Host.{Daemon, respond, run_blocking_fs, Host, World}
use rsdb.Proto.RoundTrip.{wire, frame_header}
use rsdb.Paths.Transfer.{resolve_transfer_entry_path}
use rsdb.Daemon.Fs.Volume.{IsVolume}
use rsdb.Daemon.Transfer.Roots.{resolve_batch_destination_roots}
use rsdb.Daemon.Transfer.Push.{handle_push_batch, receive_entries}
use rsdb.Daemon.Transfer.Delivery.{IsChunk, frames}
use rsdb.Daemon.Error.{Error}
use rsdb.Daemon.Buffer.{BufWriter}
use rsdb.Daemon.Session.Process.{ServerState, Processes}
use rsdb.Daemon.Server.{handle_request, handle_connection, or_error}
use rsdb.Client.Batch.Receive.{client_request_id}
use rsdb.Client.Batch.Kept.{NeverFails, HasArrived}
use rsdb.Client.Batch.Placed.{receive_entries-items}
use rsdb.Client.Batch.Items.{
  Item, chunks_of, entry_of, total_of, AreApart, item_frames, All-IsPlaced,
}
use rsdb.Client.Batch.Pushing.{push_stream}
use rsdb.Client.Batch.Replies.{
  message_wire, end_mark, bind-ok, respond-sent, read_frame-message,
  expect_file_stream_eof-end_mark,
}

-- Each frame is longer than the chunk in it.
pub length-frames :
    (request_id : ℕ) (chunks : List Bytes) → length chunks ≤ length (frames request_id chunks)
length-frames request_id [] = omega arith
length-frames request_id (chunk ∷ chunks) =
    let header = frame_header stream (stream_flags file false) request_id (length chunk) in
    omega (
      arith,
      length-frames request_id chunks,
      length-encode header,
      length-append (wire header chunk) (frames request_id chunks),
      length-append (encode header) chunk,
    )

pub enough_fuel :
    (items : List Item) (rest : Bytes)
    → All (λ i. length (chunks_of i.source) ≤ suc (length (push_stream items ++ rest))) items
enough_fuel items rest = within items (
    omega
      (arith, length-append (push_stream items) rest, length-append (item_frames items) end_mark))
  where
    within :
        {n : ℕ} (left : List Item)
        → length (item_frames left) ≤ n
        → All (λ i. length (chunks_of i.source) ≤ suc n) left
    within [] h = tt
    within (item ∷ left) h =
        let own = frames client_request_id (chunks_of item.source) in
        (
          omega (
            arith,
            length-frames client_request_id (chunks_of item.source),
            length-append own (item_frames left),
            h,
          ),
          within left (omega (arith, length-append own (item_frames left), h)),
        )

pub or_error-ok :
    {S : Type 0} (host : Host S) (request_id : ℕ) (classify : Error → ErrorCode)
    (action : Daemon Bytes S (Unit {0})) (world world' : World Bytes S)
    → action world ≡ (ok tt, world')
    → or_error host request_id classify action world ≡ (ok tt, world')
or_error-ok host request_id classify action world world' e =
    rw (e, or_error) (ap (λ r. (ok tt, r.1)) e)

module _ {S : Type 0} (host : Host S) where
  -- What the replies of a push serialize to.
  pub record ReplyBytes (items : List Item) (ready complete : Bytes) : Type 0 where
    pub ready_bytes : host.responses.to_vec push_batch_ready ≡ some ready
    pub ready_fits : length ready ≤ max_payload_len
    pub complete_bytes :
        host.responses.to_vec (push_batch_complete (length items) (total_of items)) ≡ some complete
    pub complete_fits : length complete ≤ max_payload_len

module _ {S : Type 0} (host : Host S) (volume : IsVolume host)
    (never : NeverFails host volume) where
  -- A push that ran: what follows is left, both replies were sent, and the files are there.
  pub record Pushed (items : List Item) (ready complete rest : Bytes) (out : Bytes)
      (world' : World Bytes S) : Type 0 where
    pub left : world'.inbox ≡ rest
    pub replied :
        world'.out ≡ out ++ (message_wire response ready ++ message_wire response complete)
    pub arrived : All (λ i. HasArrived host volume i.path i.source world'.fs) items

  module _ (items : List Item) (destination : Text) (roots : List TransferRoot)
      (root_paths : List Text) (ready complete rest : Bytes)
      (bytes : ReplyBytes host items ready complete)
      (chunked : All (λ i. All IsChunk (chunks_of i.source)) items)
      (resolved : All (λ i. resolve_transfer_entry_path root_paths (entry_of i) ≡ ok i.path) items)
      (apart : AreApart items) where
    handle_push_batch-items :
        (world : World Bytes S)
        → (resolve_batch_destination_roots host destination roots world.fs).0 ≡ ok root_paths
        → world.inbox ≡ push_stream items ++ rest
        → (world' : World Bytes S) × (handle_push_batch host client_request_id destination roots
              (map entry_of items)
              world
            ≡ (ok tt, world'))
          × Pushed items ready complete rest world.out world'
    unfolding handle_push_batch
    handle_push_batch-items world placed e =
        let ready_reply : Daemon Bytes S (Unit {0}) =
          respond host client_request_id push_batch_ready in
        let receive : List Text → Daemon Bytes S (ℕ × ℕ) = λ paths w.
          receive_entries host client_request_id (suc (length w.inbox)) paths (map entry_of items) 0
            0 w in
        let complete_reply : ℕ × ℕ → Daemon Bytes S (Unit {0}) =
          λ n. respond host client_request_id (push_batch_complete n.0 n.1) in
        let finish : ℕ × ℕ → Daemon Bytes S (Unit {0}) =
          λ n. expect_file_stream_eof client_request_id (codes "push") >> complete_reply n in
        let w0 : World Bytes S = record world {
          fs = (resolve_batch_destination_roots host destination roots world.fs).1;
        } in
        let w1 : World Bytes S = record w0 { out = world.out ++ message_wire response ready } in
        let (w2, run, left, kept, arrived, others) =
          receive_entries-items host volume never (suc (length world.inbox)) root_paths items 0 0
            (end_mark ++ rest) w1
            (All-IsPlaced (suc (length world.inbox)) root_paths items chunked resolved
              (rw e (enough_fuel items rest)))
            apart (e ∙ append_assoc (item_frames items) end_mark rest) in
        let w3 : World Bytes S = record w2 { inbox = rest } in
        let entries : 0 + length items ≡ length items = omega arith in
        let total : 0 + total_of items ≡ total_of items = omega arith in
        (
          record w3 { out = w2.out ++ message_wire response complete },
          bind-ok (run_blocking_fs (resolve_batch_destination_roots host destination roots))
              (λ paths. ready_reply >> (receive paths >>= finish)) world w0 root_paths _
              (ap (λ r. (r, w0)) placed)
              (bind-ok ready_reply (λ done. receive root_paths >>= finish) w0 w1 tt _
                (respond-sent host push_batch_ready ready w0 bytes.ready_bytes bytes.ready_fits)
                (bind-ok (receive root_paths) finish w1 w2 (0 + length items, 0 + total_of items) _
                  run
                  (bind-ok (expect_file_stream_eof client_request_id (codes "push"))
                    (λ done. complete_reply (0 + length items, 0 + total_of items)) w2 w3 tt _
                    (expect_file_stream_eof-end_mark host (codes "push") rest w2 left)
                    (respond-sent host (push_batch_complete (0 + length items) (0 + total_of items))
                      complete w3 (rw (entries, total) bytes.complete_bytes)
                      bytes.complete_fits)))),
          record {
            left = refl;
            replied =
                ap (λ o. o ++ message_wire response complete) kept
                ∙ append_assoc world.out (message_wire response ready)
                    (message_wire response complete);
            arrived = arrived;
          },
        )

    module _ {B : Type 0} (buf : BufWriter B Bytes) (processes : Processes S) (state : ServerState)
        (fuel : ℕ) (requests : Serde ControlRequest) (law : IsSerde requests) where
      -- The whole connection, when the request and the files have arrived.
      pub handle_connection-items :
          (asked : Bytes) (fs : S)
          → (resolve_batch_destination_roots host destination roots fs).0 ≡ ok root_paths
          → requests.to_vec (push_batch destination roots (map entry_of items)) ≡ some asked
          → length asked ≤ max_payload_len
          → (world' : World Bytes S) × (handle_connection buf host processes state fuel requests
                true
                (record {
                  inbox = message_wire request asked ++ (push_stream items ++ rest);
                  out = [];
                  fs = fs;
                })
              ≡ (ok tt, world'))
            × Pushed items ready complete rest [] world'
      unfolding handle_connection handle_request decode_json
      handle_connection-items asked fs placed v n =
          let (world', run, pushed) =
            handle_push_batch-items
              (record { inbox = push_stream items ++ rest; out = []; fs = fs }) placed refl in
          (
            world',
            rw
                (
                  read_frame-message request asked (push_stream items ++ rest) n,
                  law.reads_back (push_batch destination roots (map entry_of items)) asked v,
                )
                (or_error-ok host client_request_id (λ e. file_transfer_failed)
                  (handle_push_batch host client_request_id destination roots (map entry_of items))
                  _ world' run),
            pushed,
          )
