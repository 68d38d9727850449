-- ===== src/Daemon/Fs/Inspect.antt =====
-- The requests that only look: `fs.stat`, `fs.list` and `fs.read` (device/rsdbd/src/main.rs).
use rsdb.Base.{
  ℕ, zero, suc, ◌+◌, Bool, true, false, not, ◌&&◌, Option, none, some, List, [], ◌∷◌, ◌++◌, Result,
  ok, err,
}
use rsdb.Base.{◌-◌, and_then, map_err, length, take, min, ltb, ◌==◌, if◌then◌else◌}
use rsdb.Base.Exec.{Exec, pure, throw, lift, ◌>>=◌, ◌>>◌}
use rsdb.Base.Texts.{Text, Bytes, codes}
use rsdb.Proto.Wire.{IoError, not_found, default_stream_chunk_size}
use rsdb.Proto.Messages.{
  HashAlgorithm, ContentEncoding, AgentFsStat, AgentFsListEntry, fs_stat, fs_list, fs_read_result,
}
use rsdb.Proto.Io.{AsyncWrite}
use rsdb.Paths.Components.{file_name}
use rsdb.Daemon.Error.{Error, out_of_fuel, from_io, invalid_request_error, io_kind_eq}
use rsdb.Daemon.Host.{Host, Metadata, Daemon, io_context, on_fs, run_blocking_fs, respond}
use rsdb.Daemon.Fs.Order.{sort_paths}
use rsdb.Daemon.Fs.Entries.{
  is_file, is_dir, validate_fs_path, encode_fs_content, build_fs_stat, build_fs_entry,
  max_agent_fs_bytes,
}

-- `read_to_end` on `file.take(limit)`, over what the reads return.
unfoldable pub read_take : ℕ → List (Result IoError Bytes) → Result Error Bytes
read_take limit [] = ok []
read_take limit (err e ∷ reads) = err (from_io e)
read_take limit (ok [] ∷ reads) = ok []
read_take limit (ok (b ∷ chunk) ∷ reads) =
    let more = read_take (limit - length (b ∷ chunk)) reads in
    if ltb (length (b ∷ chunk)) limit
    then and_then more (λ rest. ok (b ∷ (chunk ++ rest)))
    else ok (take limit (b ∷ chunk))

-- `file_name().and_then(to_str).is_some_and(|name| name.starts_with('.'))`
unfoldable pub is_hidden : Text → Bool
is_hidden path = elim (file_name path) [
  | none ↦ false
  | some [] ↦ false
  | some (c ∷ name) ↦ c == b'.'
]

abbrev pub below_limit : Option ℕ → ℕ → Bool
below_limit none depth = true
below_limit (some limit) depth = ltb depth limit

module _ {S : Type 0} (host : Host S) where
  unfoldable pub blocking_fs_stat : Text → Option HashAlgorithm → Exec S Error AgentFsStat
  unfolding build_fs_stat
  blocking_fs_stat path hash s = elim (host.symlink_metadata path s) [
    | ok metadata ↦ build_fs_stat host path metadata hash s
    | err e ↦
        if io_kind_eq e.kind not_found
        then (
          ok (record {
            path = path;
            exists = false;
            kind = none;
            size = none;
            mode = none;
            mtime_unix_ms = none;
            sha256 = none;
          }),
          s,
        )
        else (err (io_context (codes "failed to stat " ++ path) e), s)
  ]

  -- `symlink_metadata(..).with_context(..)?`
  abbrev pub stat_or_fail : Text → Exec S Error Metadata
  stat_or_fail path s =
      (map_err (io_context (codes "failed to stat " ++ path)) (host.symlink_metadata path s), s)

  module _ (recursive : Bool) (max_depth : Option ℕ) (include_hidden : Bool)
      (hash : Option HashAlgorithm) where
    -- The loop over the children of a directory; `descend` lists a directory below it.
    unfoldable pub collect_children :
        (Text → Exec S Error (List AgentFsListEntry))
        → ℕ
        → List Text
        → Exec S Error (List AgentFsListEntry)
    unfolding is_hidden build_fs_entry
    collect_children descend depth [] = pure []
    collect_children descend depth (child ∷ children) =
        let rest = collect_children descend depth children in
        if is_hidden child && not include_hidden then rest else do
          metadata ← stat_or_fail child
          entry ← build_fs_entry host child metadata hash
          below ←
              (if recursive && is_dir metadata && below_limit max_depth (depth + 1)
                then descend child
                else pure [])
          others ← rest
          pure (entry ∷ (below ++ others))

    abbrev read_dir_or_fail : Text → Exec S Error (List Text)
    read_dir_or_fail path s =
        (map_err (io_context (codes "failed to read directory " ++ path)) (host.read_dir path s), s)

    -- `depth` is the number of directories above; the fuel bounds how deep the recursion goes.
    -- `read_dir` gives the paths of the children.
    unfoldable pub collect_fs_entries : ℕ → Text → ℕ → Exec S Error (List AgentFsListEntry)
    unfolding collect_children
    collect_fs_entries zero path depth = throw (out_of_fuel ∷ [])
    collect_fs_entries (suc fuel) path depth = do
      children ← read_dir_or_fail path
      collect_children (λ child. collect_fs_entries fuel child (depth + 1)) depth
          (sort_paths children)

    unfoldable pub blocking_fs_list : ℕ → Text → Exec S Error (List AgentFsListEntry)
    unfolding collect_fs_entries build_fs_entry
    blocking_fs_list fuel path = do
      metadata ← stat_or_fail path
      if is_dir metadata
          then collect_fs_entries fuel path 0
          else (do entry ← build_fs_entry host path metadata hash; pure (entry ∷ []))

-- `max_bytes.unwrap_or(MAX_AGENT_FS_BYTES).min(MAX_AGENT_FS_BYTES)`
abbrev pub read_limit : Option ℕ → ℕ
read_limit none = max_agent_fs_bytes
read_limit (some n) = min n max_agent_fs_bytes

-- The bytes of the reply and whether more were there.
abbrev pub truncate_to : ℕ → Bytes → Bytes × Bool
truncate_to limit bytes =
    if ltb limit (length bytes) then (take limit bytes, true) else (bytes, false)

abbrev require_file : Text → Metadata → Result Error (Unit {0})
require_file path metadata =
    if is_file metadata
    then ok tt
    else err (invalid_request_error (codes "path is not a regular file: " ++ path))

module _ {W S : Type 0} ⦃w : AsyncWrite W⦄ (host : Host S) (request_id : ℕ) where
  unfoldable pub handle_fs_stat : Text → Option HashAlgorithm → Daemon W S (Unit {0})
  unfolding validate_fs_path blocking_fs_stat
  handle_fs_stat path hash = do
    requested ← lift (validate_fs_path path)
    stat ← run_blocking_fs (blocking_fs_stat host requested hash)
    respond host request_id (fs_stat stat)

  unfoldable pub handle_fs_list :
      ℕ → Text → Bool → Option ℕ → Bool → Option HashAlgorithm → Daemon W S (Unit {0})
  unfolding validate_fs_path blocking_fs_list
  handle_fs_list fuel path recursive max_depth include_hidden hash = do
    requested ← lift (validate_fs_path path)
    entries ←
        run_blocking_fs
          (blocking_fs_list host recursive max_depth include_hidden hash fuel requested)
    respond host request_id (fs_list entries)

  unfoldable pub handle_fs_read : Text → ContentEncoding → Option ℕ → Daemon W S (Unit {0})
  unfolding validate_fs_path read_take encode_fs_content
  handle_fs_read path encoding max_bytes = do
    requested ← lift (validate_fs_path path)
    metadata ← run_blocking_fs (stat_or_fail host requested)
    lift (require_file requested metadata)
    handle ← on_fs (io_context (codes "failed to open " ++ requested)) (host.open_read requested)
    bytes ← (λ world. (
      read_take (read_limit max_bytes + 1) (host.reads handle default_stream_chunk_size world.fs),
      world,
    ))
    let (kept, truncated) = truncate_to (read_limit max_bytes) bytes
    content ← lift (encode_fs_content host kept encoding)
    respond host request_id (
        fs_read_result (record {
          path = requested;
          encoding = encoding;
          content = content;
          bytes = length kept;
          truncated = truncated;
        }))
