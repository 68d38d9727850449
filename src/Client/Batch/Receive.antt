-- ===== src/Client/Batch/Receive.antt =====
-- The receiving side of a batch pull: receive_local_batch and what it calls
-- (crates/rsdb-cli/src/main.rs). The client's file system and connection are those of
-- `Daemon.Host`; the progress line is left out. Its path functions are the daemon's again.
use Prim.Native.Nat.{bit_and}
use rsdb.Base.{
  ℕ, zero, suc, ◌+◌, ◌-◌, false, not, ◌||◌, Option, none, some, List, [], ◌∷◌, ◌++◌, map, Result,
  ok, err, map_err, length, ltb, ◌==◌, if◌then◌else◌,
}
use rsdb.Base.Exec.{Exec, pure, throw, lift, ◌>>=◌, ◌>>◌}
use rsdb.Base.Texts.{Text, Bytes, codes, decimal, is_empty}
use rsdb.Proto.Wire.{StreamChannel, StreamFrameHeader, channel_eq, file}
use rsdb.Proto.Messages.{TransferRoot, TransferEntry}
use rsdb.Proto.Messages
use rsdb.Proto.Frames.{read_stream_frame_into}
use rsdb.Paths.Components.{join, parent, ends_with_slash}
use rsdb.Paths.Transfer.{ensure_unique_root_names, resolve_transfer_entry_path}
use rsdb.Daemon.Error.{Error, bail, with_context, from_io, from_protocol, out_of_fuel}
use rsdb.Daemon.Host.{Host, Metadata, Daemon, io_context, on_fs, on_inbox, run_blocking_fs}
use rsdb.Daemon.Fs.Entries.{normalize_mode}
use rsdb.Daemon.Transfer.Chunks.{channel_name}
use rsdb.Daemon.Transfer.Roots.{metadata_optional, from_path_error, is_directory, is_other}

-- The id of the client's requests.
abbrev pub client_request_id : ℕ
client_request_id = 1

unfoldable pub ensure_request_id : ℕ → ℕ → Result Error (Unit {0})
ensure_request_id actual expected =
    if not (actual == expected)
    then err (
        bail (
          codes "request id mismatch: expected "
          ++ (decimal expected ++ (codes ", got " ++ decimal actual))))
    else ok tt

-- The check of the channel.
abbrev pub check_channel : Text → StreamChannel → Result Error (Unit {0})
check_channel context_name channel =
    if not (channel_eq channel file)
    then err (
        bail (
          codes "unexpected stream channel during "
          ++ (context_name ++ (codes ": " ++ channel_name channel))))
    else ok tt

module _ {W S : Type 0} where
  unfoldable pub read_file_stream_chunk_into : Text → Daemon W S (StreamFrameHeader × Bytes)
  unfolding ensure_request_id
  read_file_stream_chunk_into context_name = do
    (chunk, payload) ←
        on_inbox
          (λ e.
            with_context (codes "failed to read " ++ (context_name ++ codes " frame"))
              (from_protocol e))
          read_stream_frame_into
    lift (ensure_request_id chunk.request_id client_request_id)
    lift (check_channel context_name chunk.channel)
    pure (chunk, payload)

  unfoldable pub expect_file_stream_eof : Text → Daemon W S (Unit {0})
  unfolding read_file_stream_chunk_into
  expect_file_stream_eof context_name = do
    (chunk, payload) ← read_file_stream_chunk_into context_name
    if not chunk.eof || not (is_empty payload)
        then throw (bail (codes "expected end of " ++ (context_name ++ codes " file stream")))
        else pure tt

-- The base of each root, given what is known of the destination.
unfoldable pub local_root_bases :
    Text → Text → List TransferRoot → Option Metadata → Result Error (List Text)
local_root_bases destination destination_arg (root ∷ []) existing = ok (
    (if is_directory existing || ends_with_slash destination_arg
      then join destination root.source_name
      else destination)
    ∷ [])
local_root_bases destination destination_arg roots existing =
    if is_other existing
    then err (bail (codes "local destination is not a directory: " ++ destination))
    else ok (map (λ root. join destination root.source_name) roots)

module _ {S : Type 0} (host : Host S) where
  unfoldable pub resolve_local_batch_roots :
      Text → Text → List TransferRoot → Exec S Error (List Text)
  unfolding metadata_optional local_root_bases
  resolve_local_batch_roots destination destination_arg roots =
      if is_empty roots
      then throw (bail (codes "transfer manifest did not include any roots"))
      else do
        lift (map_err from_path_error (ensure_unique_root_names roots))
        existing ← metadata_optional host (codes "failed to stat local destination ") destination
        lift (local_root_bases destination destination_arg roots existing)

module _ {W S : Type 0} (host : Host S) where
  abbrev pub create_local_dirs : Text → Daemon W S (Unit {0})
  create_local_dirs path =
      on_fs (io_context (codes "failed to create local directory " ++ path))
        (host.create_dir_all path)

  abbrev pub create_local_parent : Option Text → Daemon W S (Unit {0})
  create_local_parent none = pure tt
  create_local_parent (some []) = pure tt
  create_local_parent (some (c ∷ dir)) = create_local_dirs (c ∷ dir)

  unfoldable pub create_local_output_file : Text → ℕ → Daemon W S ℕ
  create_local_output_file path mode = do
    create_local_parent (parent path)
    on_fs (io_context (codes "failed to open local output " ++ path))
        (host.open_write (record { create_new = false; mode = some (normalize_mode mode) }) path)

  -- `if !chunk_payload.is_empty() { file.write_all(&chunk_payload)..?; }`
  abbrev pub write_local_chunk : ℕ → Text → Bytes → Daemon W S (Unit {0})
  write_local_chunk handle path [] = pure tt
  write_local_chunk handle path (b ∷ payload) =
      on_fs (io_context (codes "failed to write " ++ path)) (host.write_all handle (b ∷ payload))

  -- The loop `while remaining > 0`: the bytes received so far.
  unfoldable pub receive_local_file : ℕ → ℕ → Text → ℕ → ℕ → Daemon W S ℕ
  receive_local_file zero handle path remaining bytes_received =
      if remaining == 0 then pure bytes_received else throw (out_of_fuel ∷ [])
  receive_local_file (suc fuel) handle path remaining bytes_received =
      if remaining == 0 then pure bytes_received else do
        (chunk, payload) ← read_file_stream_chunk_into (codes "pull")
        let more =
              receive_local_file fuel handle path (remaining - length payload)
                (bytes_received + length payload) in
            if chunk.eof
            then throw (bail (codes "unexpected end of pull stream while writing " ++ path))
            else if ltb remaining (length payload)
            then throw (bail (codes "pull stream overflow while writing " ++ path))
            else (write_local_chunk handle path payload >> more)

  -- `if entry.mode != 0 { set_permissions(..) }`
  abbrev pub local_chmod_unless_zero : Text → ℕ → Daemon W S (Unit {0})
  local_chmod_unless_zero path mode =
      if mode == 0
      then pure tt
      else on_fs (io_context (codes "failed to set permissions on " ++ path))
          (host.set_permissions path (bit_and mode 0o7777))

  -- One entry of the manifest.
  unfoldable pub receive_local_entry : ℕ → List Text → TransferEntry → ℕ → Daemon W S ℕ
  unfolding create_local_output_file receive_local_file
  receive_local_entry fuel root_paths entry bytes_received = do
    path ← lift (map_err from_path_error (resolve_transfer_entry_path root_paths entry))
    elim entry.kind [
      | Messages.TransferEntryKind.directory ↦ (do
        create_local_dirs path
        local_chmod_unless_zero path entry.mode
        pure bytes_received)
      | Messages.TransferEntryKind.file ↦ (do
        handle ← create_local_output_file path entry.mode
        received ← receive_local_file fuel handle path entry.size bytes_received
        on_fs from_io (host.flush handle)
        local_chmod_unless_zero path entry.mode
        pure received)
    ]

  unfoldable pub receive_local_entries :
      ℕ → List Text → List TransferEntry → ℕ → ℕ → Daemon W S (ℕ × ℕ)
  unfolding receive_local_entry
  receive_local_entries fuel root_paths [] entries_received bytes_received =
      pure (entries_received, bytes_received)
  receive_local_entries fuel root_paths (entry ∷ entries) entries_received bytes_received = do
    received ← receive_local_entry fuel root_paths entry bytes_received
    receive_local_entries fuel root_paths entries (entries_received + 1) received

  -- Each round takes a frame from the inbox, so its length is fuel enough.
  unfoldable pub receive_local_batch :
      Text → Text → List TransferRoot → List TransferEntry → Daemon W S (ℕ × ℕ)
  unfolding resolve_local_batch_roots receive_local_entries expect_file_stream_eof
  receive_local_batch destination destination_arg roots entries = do
    root_paths ← run_blocking_fs (resolve_local_batch_roots host destination destination_arg roots)
    counts ←
        (λ world. receive_local_entries (suc (length world.inbox)) root_paths entries 0 0 world)
    expect_file_stream_eof (codes "pull")
    pure counts
