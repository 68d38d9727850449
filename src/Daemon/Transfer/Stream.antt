-- ===== src/Daemon/Transfer/Stream.antt =====
-- Files sent out as one stream: `stream_batch_files` and `handle_pull_batch`
-- (device/rsdbd/src/main.rs).
use rsdb.Base.{
  ℕ, ◌+◌, true, false, not, List, [], ◌∷◌, ◌++◌, Result, ok, err, length, ◌==◌, if◌then◌else◌,
}
use rsdb.Base.Exec.{map_error, pure, throw, ◌>>=◌, ◌>>◌}
use rsdb.Base.Texts.{Text, Bytes, codes, decimal}
use rsdb.Proto.Wire.{header_len, io, file, IoError, default_stream_chunk_size}
use rsdb.Proto.Messages.{pull_batch_metadata, pull_batch_complete}
use rsdb.Proto.Io.{AsyncWrite}
use rsdb.Proto.Frames.{write_stream_frame}
use rsdb.Daemon.Transfer.Manifest.{BatchFileSource, build_batch_manifest_from_sources}
use rsdb.Daemon.Buffer.{BufWriter, buffered}
use rsdb.Daemon.Error.{bail, from_io}
use rsdb.Daemon.Host.{Host, Daemon, io_context, on_fs, on_out, respond}

module _ {W S : Type 0} ⦃w : AsyncWrite W⦄ (request_id : ℕ) where
  -- The loop over the reads of one file, with the bytes sent so far.
  unfoldable pub send_reads : List (Result IoError Bytes) → ℕ → Daemon W S ℕ
  send_reads [] file_bytes = pure file_bytes
  send_reads (err e ∷ reads) file_bytes = throw (from_io e)
  send_reads (ok [] ∷ reads) file_bytes = pure file_bytes
  send_reads (ok (b ∷ chunk) ∷ reads) file_bytes = do
    on_out (write_stream_frame request_id file false (b ∷ chunk))
    send_reads reads (file_bytes + length (b ∷ chunk))

module _ {W S : Type 0} ⦃w : AsyncWrite W⦄ (host : Host S) (request_id : ℕ) where
  -- One file: it must have the size of the manifest.
  unfoldable pub send_file : BatchFileSource → Daemon W S ℕ
  unfolding send_reads
  send_file source = do
    handle ←
        on_fs (io_context (codes "failed to open remote path for read: " ++ source.path))
          (host.open_read source.path)
    file_bytes ← (λ world.
        send_reads request_id (host.reads handle default_stream_chunk_size world.fs) 0 world)
    if not (file_bytes == source.size)
        then throw (
            bail (
              codes "remote file changed during pull: expected "
              ++ (decimal source.size
                  ++ (codes " bytes, read "
                      ++ (decimal file_bytes ++ (codes " from " ++ source.path))))))
        else pure file_bytes

  -- The loop over the files.
  unfoldable pub send_files : List BatchFileSource → ℕ → Daemon W S ℕ
  unfolding send_file
  send_files [] total_bytes = pure total_bytes
  send_files (source ∷ files) total_bytes = do
    file_bytes ← send_file source
    send_files files (total_bytes + file_bytes)

module _ {B W S : Type 0} ⦃w : AsyncWrite W⦄ (buf : BufWriter B W) (host : Host S)
    (request_id : ℕ) where
  -- The files go through a buffered writer, which is flushed.
  unfoldable pub stream_batch_files : List BatchFileSource → Daemon W S ℕ
  unfolding send_files
  stream_batch_files files = buffered buf (header_len + default_stream_chunk_size) do
    total_bytes ← send_files ⦃w = buf.writer⦄ host request_id files 0
    on_out (map_error io buf.flush)
    pure total_bytes

  -- The fuel bounds how deep the directories of the sources are nested.
  unfoldable pub handle_pull_batch : ℕ → List Text → Daemon W S (Unit {0})
  unfolding stream_batch_files build_batch_manifest_from_sources
  handle_pull_batch fuel sources = do
    manifest ← (λ world. (build_batch_manifest_from_sources host world.fs fuel sources, world))
    respond host request_id
        (pull_batch_metadata manifest.roots manifest.entries manifest.total_bytes)
    bytes_sent ← stream_batch_files manifest.files
    if not (bytes_sent == manifest.total_bytes)
        then throw (
            bail (
              codes "pull size mismatch before completion: expected "
              ++ (decimal manifest.total_bytes
                  ++ (codes " bytes, streamed " ++ decimal bytes_sent))))
        else do
          on_out (write_stream_frame request_id file true [])
          respond host request_id (pull_batch_complete (length manifest.entries) bytes_sent)
