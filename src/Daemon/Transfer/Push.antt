-- ===== src/Daemon/Transfer/Push.antt =====
-- Pushes: the loop over the chunks of one file, `handle_push` and `handle_push_batch`
-- (device/rsdbd/src/main.rs).
use Prim.Native.Nat.{bit_and}
use rsdb.Base.{ℕ, zero, suc, ◌+◌, ◌-◌, false, Option, none, some, List, [], ◌∷◌, ◌++◌, map_err}
use rsdb.Base.{length, ltb, ◌==◌, if◌then◌else◌}
use rsdb.Base.Exec.{pure, throw, lift, ◌>>=◌, ◌>>◌}
use rsdb.Base.Texts.{Text, Bytes, codes}
use rsdb.Proto.Messages.{
  TransferRoot, TransferEntry, file, directory, push_ready, push_complete, push_batch_ready,
  push_batch_complete,
}
use rsdb.Proto.Io.{AsyncWrite}
use rsdb.Paths.Components.{parent}
use rsdb.Paths.Transfer.{resolve_transfer_entry_path}
use rsdb.Daemon.Error.{bail, from_io, out_of_fuel}
use rsdb.Daemon.Host.{Host, Daemon, io_context, on_fs, run_blocking_fs, respond}
use rsdb.Daemon.Fs.Entries.{normalize_mode}
use rsdb.Daemon.Transfer.Chunks.{read_file_stream_chunk_into, expect_file_stream_eof}
use rsdb.Daemon.Transfer.Roots.{
  resolve_push_destination, resolve_batch_destination_roots, from_path_error,
}

module _ {W S : Type 0} (host : Host S) (request_id : ℕ) where
  -- `if !chunk_payload.is_empty() { file.write_all(&chunk_payload).await?; }`
  abbrev pub write_chunk : ℕ → Bytes → Daemon W S (Unit {0})
  write_chunk handle [] = pure tt
  write_chunk handle (b ∷ payload) = on_fs from_io (host.write_all handle (b ∷ payload))

  -- The loop of `handle_push`, up to the end mark: the bytes written.
  unfoldable pub receive_push : ℕ → ℕ → ℕ → Daemon W S ℕ
  receive_push zero handle bytes_written = throw (out_of_fuel ∷ [])
  receive_push (suc fuel) handle bytes_written = do
    (chunk, payload) ← read_file_stream_chunk_into request_id (codes "push")
    write_chunk handle payload
    let more = receive_push fuel handle (bytes_written + length payload) in
        if chunk.eof then pure (bytes_written + length payload) else more

  -- The loop `while remaining > 0` of `handle_push_batch`: the bytes written so far.
  unfoldable pub receive_file : ℕ → ℕ → Text → ℕ → ℕ → Daemon W S ℕ
  receive_file zero handle path remaining bytes_written =
      if remaining == 0 then pure bytes_written else throw (out_of_fuel ∷ [])
  receive_file (suc fuel) handle path remaining bytes_written =
      if remaining == 0 then pure bytes_written else do
        (chunk, payload) ← read_file_stream_chunk_into request_id (codes "push")
        let more =
              receive_file fuel handle path (remaining - length payload)
                (bytes_written + length payload) in
            if chunk.eof
            then throw (bail (codes "unexpected end of push stream while writing " ++ path))
            else if ltb remaining (length payload)
            then throw (bail (codes "push stream overflow while writing " ++ path))
            else (write_chunk handle payload >> more)

  -- `if mode != 0 { set_permissions(..) }`
  abbrev pub chmod_unless_zero : Text → ℕ → ℕ → Daemon W S (Unit {0})
  chmod_unless_zero path mode bits =
      if mode == 0
      then pure tt
      else on_fs (io_context (codes "failed to set permissions on " ++ path))
          (host.set_permissions path bits)

  abbrev pub open_for_write : Text → ℕ → Daemon W S ℕ
  open_for_write path mode =
      on_fs (io_context (codes "failed to open remote path for write: " ++ path))
        (host.open_write (record { create_new = false; mode = some (normalize_mode mode) }) path)

  abbrev pub create_dirs : Text → Daemon W S (Unit {0})
  create_dirs path =
      on_fs (io_context (codes "failed to create remote directory " ++ path))
        (host.create_dir_all path)

  abbrev pub create_parent : Option Text → Daemon W S (Unit {0})
  create_parent none = pure tt
  create_parent (some []) = pure tt
  create_parent (some (c ∷ dir)) = create_dirs (c ∷ dir)

  -- One entry of a batch.
  unfoldable pub receive_entry : ℕ → List Text → TransferEntry → ℕ → Daemon W S ℕ
  receive_entry fuel root_paths entry bytes_written = do
    path ← lift (map_err from_path_error (resolve_transfer_entry_path root_paths entry))
    elim entry.kind [
      | directory ↦ (do
        create_dirs path
        chmod_unless_zero path entry.mode (bit_and entry.mode 0o7777)
        pure bytes_written)
      | file ↦ (do
        create_parent (parent path)
        handle ← open_for_write path entry.mode
        written ← receive_file fuel handle path entry.size bytes_written
        on_fs from_io (host.flush handle)
        chmod_unless_zero path entry.mode (normalize_mode entry.mode)
        pure written)
    ]

  -- The loop over the entries: how many were written, and the bytes.
  unfoldable pub receive_entries : ℕ → List Text → List TransferEntry → ℕ → ℕ → Daemon W S (ℕ × ℕ)
  unfolding receive_entry
  receive_entries fuel root_paths [] entries_written bytes_written =
      pure (entries_written, bytes_written)
  receive_entries fuel root_paths (entry ∷ entries) entries_written bytes_written = do
    written ← receive_entry fuel root_paths entry bytes_written
    receive_entries fuel root_paths entries (entries_written + 1) written

module _ {W S : Type 0} ⦃w : AsyncWrite W⦄ (host : Host S) (request_id : ℕ) where
  -- Each round takes a frame from the inbox, so its length is fuel enough.
  unfoldable pub handle_push : Text → ℕ → Option Text → Daemon W S (Unit {0})
  unfolding resolve_push_destination receive_push
  handle_push path mode source_name = do
    resolved ← run_blocking_fs (resolve_push_destination host path source_name)
    handle ← open_for_write host request_id resolved mode
    respond host request_id push_ready
    bytes_written ←
        (λ world. receive_push host request_id (suc (length world.inbox)) handle 0 world)
    on_fs from_io (host.flush handle)
    chmod_unless_zero host request_id resolved mode (normalize_mode mode)
    respond host request_id (push_complete bytes_written)

  unfoldable pub handle_push_batch :
      Text → List TransferRoot → List TransferEntry → Daemon W S (Unit {0})
  unfolding resolve_batch_destination_roots receive_entries expect_file_stream_eof
  handle_push_batch destination roots entries = do
    root_paths ← run_blocking_fs (resolve_batch_destination_roots host destination roots)
    respond host request_id push_batch_ready
    (entries_written, bytes_written) ← (λ world.
        receive_entries host request_id (suc (length world.inbox)) root_paths entries 0 0 world)
    expect_file_stream_eof request_id (codes "push")
    respond host request_id (push_batch_complete entries_written bytes_written)
