-- ===== src/Client/Batch/Exchange.antt =====
-- A batch push and a batch pull over a connection that was opened: execute_push_manifest,
-- stream_local_batch_files and execute_pull_with_progress (crates/rsdb-cli/src/main.rs). The progress
-- line is left out.
use rsdb.Base.{
  ℕ, ◌+◌, Bool, Option, none, not, true, false, List, [], ◌∷◌, ◌++◌, Result, ok, err, map_err,
  length, ◌==◌, if◌then◌else◌,
}
use rsdb.Base.Exec.{Exec, pure, throw, lift, map_error, ◌>>=◌, ◌>>◌}
use rsdb.Base.Texts.{Text, Bytes, codes, decimal}
use rsdb.Proto.Wire.{IoError, io, file, request, response, header_len, default_stream_chunk_size}
use rsdb.Proto.Messages.{
  ControlRequest, push_batch, pull_batch, ControlResponse, ErrorCode, TransferRoot, TransferEntry,
  push_batch_ready, push_batch_complete, pull_batch_metadata, pull_batch_complete,
}
use rsdb.Proto.Messages
use rsdb.Proto.Io.{AsyncWrite}
use rsdb.Proto.Frames.{Serde, write_json_frame, write_stream_frame, read_frame, decode_json}
use rsdb.Daemon.Buffer.{BufWriter, buffered}
use rsdb.Daemon.Error.{Error, bail, with_context, from_io, from_protocol}
use rsdb.Daemon.Host.{Host, World, Daemon, io_context, on_fs, on_out, on_inbox}
use rsdb.Client.Batch.Manifest.{LocalBatchFile, LocalBatchManifest}
use rsdb.Client.Batch.Receive.{client_request_id, receive_local_batch}

pub record PushSummary : Type 0 where
  pub entries_written : ℕ
  pub bytes_written : ℕ
  pub skipped : Bool
  pub verification : Option Text
  pub verified : Bool

pub record PullSummary : Type 0 where
  pub entries_received : ℕ
  pub bytes_received : ℕ
  pub total_bytes : ℕ
  pub verification : Option Text
  pub verified : Bool
  pub roots : List TransferRoot
  pub entries : List TransferEntry

-- `RemoteControlError`, or another error of the client.
pub data Fault : Type 0 where
  remote_control : ErrorCode → Text → Fault
  failed : Error → Fault

abbrev pub Session : Type 0 → Type 0 → Type 0 → Type 0
Session W S A = Exec (World W S) Fault A

module _ {W S A : Type 0} where
  abbrev pub own : Daemon W S A → Session W S A
  own action = map_error failed action

  -- The error of a writing, in its context.
  abbrev pub in_context : Text → Daemon W S A → Daemon W S A
  in_context text action = map_error (with_context text) action

  abbrev unexpected : Text → Session W S A
  unexpected shown = throw (failed (bail (codes "unexpected response from daemon: " ++ shown)))

module _ {W S : Type 0} ⦃w : AsyncWrite W⦄ (host : Host S) where
  -- The loop over the reads of one file.
  unfoldable pub send_local_reads : List (Result IoError Bytes) → ℕ → Daemon W S ℕ
  send_local_reads [] file_bytes = pure file_bytes
  send_local_reads (err e ∷ reads) file_bytes = throw (from_io e)
  send_local_reads (ok [] ∷ reads) file_bytes = pure file_bytes
  send_local_reads (ok (b ∷ chunk) ∷ reads) file_bytes = do
    in_context (codes "failed to stream file data")
        (on_out (write_stream_frame client_request_id file false (b ∷ chunk)))
    send_local_reads reads (file_bytes + length (b ∷ chunk))

  -- One file: it must have the size of the manifest.
  unfoldable pub send_local_file : LocalBatchFile → Daemon W S ℕ
  unfolding send_local_reads
  send_local_file source = do
    handle ←
        on_fs (io_context (codes "failed to open local file " ++ source.path))
          (host.open_read source.path)
    file_bytes ←
        (λ world. send_local_reads (host.reads handle default_stream_chunk_size world.fs) 0 world)
    if not (file_bytes == source.size)
        then throw (
            bail (
              codes "local file changed during push: expected "
              ++ (decimal source.size
                  ++ (codes " bytes, read "
                      ++ (decimal file_bytes ++ (codes " from " ++ source.path))))))
        else pure file_bytes

  -- The loop over the files.
  unfoldable pub send_local_files : List LocalBatchFile → ℕ → Daemon W S ℕ
  unfolding send_local_file
  send_local_files [] total_bytes = pure total_bytes
  send_local_files (source ∷ files) total_bytes = do
    file_bytes ← send_local_file source
    send_local_files files (total_bytes + file_bytes)

module _ {B W S : Type 0} ⦃w : AsyncWrite W⦄ (buf : BufWriter B W) (host : Host S) where
  unfoldable pub stream_local_batch_files : List LocalBatchFile → Daemon W S ℕ
  unfolding send_local_files
  stream_local_batch_files files = buffered buf (header_len + default_stream_chunk_size) do
    total_bytes ← send_local_files ⦃w = buf.writer⦄ host files 0
    in_context (codes "failed to flush push stream") (on_out (map_error io buf.flush))
    pure total_bytes

module _ {W S : Type 0} (host : Host S) where
  unfoldable pub read_response : Daemon W S ControlResponse
  read_response = do
    frame ← in_context (codes "failed to read response") (on_inbox from_protocol read_frame)
    in_context (codes "failed to decode response")
        (lift (map_err from_protocol (decode_json host.responses frame response)))

-- `show` is `{:?}` of a response.
module _ {B W S : Type 0} ⦃w : AsyncWrite W⦄ (buf : BufWriter B W) (show : ControlResponse → Text)
    (requests : Serde ControlRequest) (host : Host S) where
  abbrev pub send_request : Text → ControlRequest → Session W S (Unit {0})
  send_request context message =
      own
        (in_context context (on_out (write_json_frame requests request client_request_id message)))

  abbrev pub expect_ready : ControlResponse → Session W S (Unit {0})
  expect_ready push_batch_ready = pure tt
  expect_ready (Messages.error code message) = throw (remote_control code message)
  expect_ready other = unexpected (show other)

  abbrev pub expect_written : ℕ → ControlResponse → Session W S PushSummary
  expect_written bytes_sent (push_batch_complete entries_written bytes_written) =
      if not (bytes_written == bytes_sent)
      then throw (
          failed (
            bail (
              codes "push size mismatch: daemon wrote "
              ++ (decimal bytes_written ++ (codes " bytes, sent " ++ decimal bytes_sent)))))
      else pure (record {
        entries_written = entries_written;
        bytes_written = bytes_written;
        skipped = false;
        verification = none;
        verified = false;
      })
  expect_written bytes_sent (Messages.error code message) = throw (remote_control code message)
  expect_written bytes_sent other = unexpected (show other)

  unfoldable pub execute_push_manifest : LocalBatchManifest → Text → Session W S PushSummary
  unfolding stream_local_batch_files read_response
  execute_push_manifest manifest remote_path = do
    send_request (codes "failed to send push request")
        (push_batch remote_path manifest.roots manifest.entries)
    ready ← own (read_response host)
    expect_ready ready
    bytes_sent ← own (stream_local_batch_files buf host manifest.files)
    if not (bytes_sent == manifest.total_bytes)
        then throw (
            failed (
              bail (
                codes "push size mismatch before completion: expected "
                ++ (decimal manifest.total_bytes
                    ++ (codes " bytes, streamed " ++ decimal bytes_sent)))))
        else do
          own (
              in_context (codes "failed to finish push stream")
                (on_out (write_stream_frame client_request_id file true [])))
          done ← own (read_response host)
          expect_written bytes_sent done

  -- The roots, the entries and the total of the daemon's manifest.
  abbrev pub expect_metadata :
      ControlResponse → Session W S (List TransferRoot × List TransferEntry × ℕ)
  expect_metadata (pull_batch_metadata roots entries total_bytes) =
      pure (roots, entries, total_bytes)
  expect_metadata (Messages.error code message) = throw (remote_control code message)
  expect_metadata other = unexpected (show other)

  abbrev pub expect_sent :
      List TransferRoot → List TransferEntry → ℕ → ℕ → ℕ → ControlResponse → Session W S PullSummary
  expect_sent roots entries total_bytes entries_received bytes_received
        (pull_batch_complete entries_sent bytes_sent) =
      if not (entries_sent == entries_received)
      then throw (
          failed (
            bail (
              codes "pull entry mismatch: daemon sent "
              ++ (decimal entries_sent
                  ++ (codes " entries, received " ++ decimal entries_received)))))
      else if not (bytes_sent == bytes_received)
      then throw (
          failed (
            bail (
              codes "pull size mismatch: daemon sent "
              ++ (decimal bytes_sent ++ (codes " bytes, received " ++ decimal bytes_received)))))
      else pure (record {
        entries_received = entries_received;
        bytes_received = bytes_received;
        total_bytes = total_bytes;
        verification = none;
        verified = false;
        roots = roots;
        entries = entries;
      })
  expect_sent roots entries total_bytes entries_received bytes_received
        (Messages.error code message) =
      throw (remote_control code message)
  expect_sent roots entries total_bytes entries_received bytes_received other =
      unexpected (show other)

  unfoldable pub execute_pull_with_progress : List Text → Text → Session W S PullSummary
  unfolding read_response receive_local_batch
  execute_pull_with_progress remote_sources local_destination = do
    send_request (codes "failed to send pull request") (pull_batch remote_sources)
    first ← own (read_response host)
    (roots, entries, total_bytes) ← expect_metadata first
    (entries_received, bytes_received) ←
        own (receive_local_batch host local_destination local_destination roots entries)
    done ← own (read_response host)
    expect_sent roots entries total_bytes entries_received bytes_received done
