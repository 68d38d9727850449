-- ===== src/Daemon/Transfer/Chunks.antt =====
-- One chunk of a file stream, and its end (device/rsdbd/src/main.rs).
use rsdb.Base.{ℕ, not, ◌||◌, ◌++◌, Result, ok, err, ◌==◌, if◌then◌else◌}
use rsdb.Base.Exec.{pure, throw, lift, ◌>>=◌, ◌>>◌}
use rsdb.Base.Texts.{Text, Bytes, codes, is_empty, decimal}
use rsdb.Proto.Wire.{StreamChannel, file, stdin, stdout, stderr, StreamFrameHeader, channel_eq}
use rsdb.Proto.Frames.{read_stream_frame_into}
use rsdb.Daemon.Error.{Error, bail, with_context, from_protocol}
use rsdb.Daemon.Host.{Daemon, on_inbox}

-- `{:?}` of a channel.
abbrev pub channel_name : StreamChannel → Text
channel_name file = codes "File"
channel_name stdin = codes "Stdin"
channel_name stdout = codes "Stdout"
channel_name stderr = codes "Stderr"

-- The checks on a chunk's header.
abbrev pub check_chunk : ℕ → StreamFrameHeader → Result Error (Unit {0})
check_chunk request_id chunk =
    if not (chunk.request_id == request_id)
    then err (
        bail (
          codes "stream frame request id mismatch: expected "
          ++ (decimal request_id ++ (codes ", got " ++ decimal chunk.request_id))))
    else if not (channel_eq chunk.channel file)
    then err (
        bail (codes "unexpected stream channel: expected File, got " ++ channel_name chunk.channel))
    else ok tt

module _ {W S : Type 0} where
  unfoldable pub read_file_stream_chunk_into : ℕ → Text → Daemon W S (StreamFrameHeader × Bytes)
  read_file_stream_chunk_into request_id context_name = do
    (chunk, payload) ←
        on_inbox
          (λ e.
            with_context (codes "failed to read " ++ (context_name ++ codes " frame"))
              (from_protocol e))
          read_stream_frame_into
    lift (check_chunk request_id chunk)
    pure (chunk, payload)

  unfoldable pub expect_file_stream_eof : ℕ → Text → Daemon W S (Unit {0})
  unfolding read_file_stream_chunk_into
  expect_file_stream_eof request_id context_name = do
    (chunk, payload) ← read_file_stream_chunk_into request_id context_name
    if not chunk.eof || not (is_empty payload)
        then throw (bail (codes "expected end of " ++ (context_name ++ codes " file stream")))
        else pure tt
