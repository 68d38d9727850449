-- ===== src/Client/Batch/Streamed.antt =====
-- What the daemon sends of a batch: stream_batch_files (device/rsdbd/src/main.rs), which does what the
-- client's stream does.
use rsdb.Base.{
  ℕ, ◌+◌, ◌≡◌, refl, ap, ◌∙◌, arith, not, false, ◌==◌, List, [], ◌∷◌, ◌++◌, map, Result, ok, err,
  length, Result-cases, inl, inr, All,
}
use rsdb.Base.Texts.{Text, Bytes}
use rsdb.Proto.Wire.{IoError, header_len, default_stream_chunk_size, file}
use rsdb.Proto.Io.{AsyncWrite, memory_writer}
use rsdb.Proto.Frames.{write_stream_frame}
use rsdb.Daemon.Buffer.{BufWriter, IsFlushing}
use rsdb.Daemon.Host.{Host, World, Daemon, on_out}
use rsdb.Daemon.Transfer.Stream.{send_reads, send_file, send_files, stream_batch_files}
use rsdb.Client.Batch.Manifest.{LocalBatchFile}
use rsdb.Client.Batch.Receive.{client_request_id}
use rsdb.Client.Batch.Exchange.{send_local_reads, send_local_file, send_local_files, in_context}
use rsdb.Client.Batch.Pulled.{
  IsLike, same-IsLike, throw-IsLike, continue-IsLike, if-IsLike, value, value_ok,
}
use rsdb.Client.Batch.Alike.{as_source}
use rsdb.Client.Batch.Mirrored.{on_fs-IsLike}
use rsdb.Client.Batch.Items.{
  Item, files_of, total_of, item_frames, IsReadable, send_local_files-frames,
}

module _ {W S : Type 0} ⦃w : AsyncWrite W⦄ (host : Host S) where
  in_context-IsLike :
      {A : Type 0} (text : Text) (m : Daemon W S A) (world : World W S)
      → IsLike host (m world) (in_context text m world)
  in_context-IsLike text m world = elim (Result-cases (m world).0) [
    | inl (a, e) ↦ record { same_value = ground (arith, e); same_world = refl }
    | inr (x, e) ↦ record { same_value = ground (arith, e); same_world = refl }
  ]

  send_reads-IsLike :
      (reads : List (Result IoError Bytes)) (n : ℕ) (world : World W S)
      → IsLike host
          (send_reads client_request_id reads n world)
          (send_local_reads host reads n world)
  unfolding send_reads send_local_reads
  send_reads-IsLike [] n world = same-IsLike host _
  send_reads-IsLike (err e ∷ reads) n world = same-IsLike host _
  send_reads-IsLike (ok [] ∷ reads) n world = same-IsLike host _
  send_reads-IsLike (ok (b ∷ chunk) ∷ reads) n world =
      continue-IsLike host _ _ _ _ _ _
        (in_context-IsLike _ (on_out (write_stream_frame client_request_id file false (b ∷ chunk)))
          world)
        λ done next. send_reads-IsLike reads (n + length (b ∷ chunk)) next

  send_file-IsLike :
      (source : LocalBatchFile) (world : World W S)
      → IsLike host
          (send_file host client_request_id (as_source source) world)
          (send_local_file host source world)
  unfolding send_file send_local_file
  send_file-IsLike source world =
      continue-IsLike host _ _ _ _ _ _ (on_fs-IsLike host _ _ (host.open_read source.path) world)
        λ handle w1.
          continue-IsLike host _ _ _ _ _ _
            (send_reads-IsLike (host.reads handle default_stream_chunk_size w1.fs) 0 w1)
            λ n w2.
              if-IsLike host (not (n == source.size)) _ _ _ _ w2 (throw-IsLike host _ _ w2)
                (same-IsLike host _)

  send_files-IsLike :
      (files : List LocalBatchFile) (n : ℕ) (world : World W S)
      → IsLike host
          (send_files host client_request_id (map as_source files) n world)
          (send_local_files host files n world)
  unfolding send_files send_local_files
  send_files-IsLike [] n world = same-IsLike host _
  send_files-IsLike (source ∷ files) n world =
      continue-IsLike host _ _ _ _ _ _ (send_file-IsLike source world)
        λ m next. send_files-IsLike files (n + m) next

module _ {B S : Type 0} (buf : BufWriter B Bytes) (law : IsFlushing buf) (host : Host S) where
  pub stream_batch_files-frames :
      (items : List Item) (world : World Bytes S)
      → All (λ i. IsReadable host i.source) items
      → (s : S) × (stream_batch_files buf host client_request_id
            (map as_source (files_of items))
            world
          ≡ (ok (total_of items), record world { out = world.out ++ item_frames items; fs = s }))
  unfolding stream_batch_files
  stream_batch_files-frames items world readable =
      let size = header_len + default_stream_chunk_size in
      let start : World B S = record {
        inbox = world.inbox;
        out = buf.with_capacity size world.out;
        fs = world.fs;
      } in
      let (b, s, sent, grown) =
        send_local_files-frames host ⦃w = buf.writer⦄ law.appending items 0 start readable in
      let like = send_files-IsLike ⦃w = buf.writer⦄ host (files_of items) 0 start in
      let run =
        value_ok _ (0 + total_of items) (record start { out = b; fs = s })
          (like.same_value ∙ ap (λ r. value r.0) sent) (like.same_world ∙ ap (λ r. r.1) sent) in
      let zero_add : 0 + total_of items ≡ total_of items = omega arith in
      let passed : buf.inner (buf.flush b).1 ≡ world.out ++ item_frames items =
        law.passes b ∙ grown ∙ ap (λ t. t ++ item_frames items) (law.starts size world.out) in
      (s, rw (run, law.flushes b, zero_add, passed))
