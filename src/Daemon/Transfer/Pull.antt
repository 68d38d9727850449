-- ===== src/Daemon/Transfer/Pull.antt =====
-- A single pull: `handle_pull` (device/rsdbd/src/main.rs). Its buffered writer is dropped without a
-- flush.
use rsdb.Base.{ℕ, ◌+◌, not, true, [], ◌++◌, if◌then◌else◌}
use rsdb.Base.Exec.{throw, ◌>>=◌, ◌>>◌}
use rsdb.Base.Texts.{Text, codes}
use rsdb.Proto.Wire.{header_len, default_stream_chunk_size, file}
use rsdb.Proto.Messages.{pull_metadata, pull_complete}
use rsdb.Proto.Frames.{write_stream_frame}
use rsdb.Daemon.Error.{bail}
use rsdb.Daemon.Host.{Host, Daemon, io_context, ask_fs, on_fs, on_out, respond}
use rsdb.Daemon.Buffer.{BufWriter, buffered}
use rsdb.Daemon.Fs.Entries.{is_file, file_mode}
use rsdb.Daemon.Transfer.Stream.{send_reads}

module _ {B W S : Type 0} (buf : BufWriter B W) (host : Host S) (request_id : ℕ) where
  -- What is written through the buffered writer.
  unfoldable pub send_pulled : ℕ → ℕ → ℕ → Daemon B S (Unit {0})
  unfolding send_reads
  send_pulled handle size mode = do
    respond ⦃w = buf.writer⦄ host request_id (pull_metadata size mode)
    bytes_sent ← (λ world.
        send_reads ⦃w = buf.writer⦄ request_id
          (host.reads handle default_stream_chunk_size world.fs) 0 world)
    on_out (write_stream_frame ⦃w = buf.writer⦄ request_id file true [])
    respond ⦃w = buf.writer⦄ host request_id (pull_complete bytes_sent)

  unfoldable pub handle_pull : Text → Daemon W S (Unit {0})
  unfolding send_pulled file_mode
  handle_pull path = do
    file_meta ←
        ask_fs (io_context (codes "failed to stat remote path: " ++ path)) (host.metadata path)
    if not (is_file file_meta)
        then throw (bail (codes "remote path is not a regular file: " ++ path))
        else do
          handle ←
              on_fs (io_context (codes "failed to open remote path for read: " ++ path))
                (host.open_read path)
          buffered buf (header_len + default_stream_chunk_size)
              (send_pulled handle file_meta.len (file_mode file_meta))
