-- ===== src/Daemon/Fs/Tree.antt =====
-- `fs.mkdir`, `fs.rm` and `fs.move` (device/rsdbd/src/main.rs).
use rsdb.Base.{ℕ, Bool, true, false, ◌&&◌, ◌||◌, Option, none, some, ◌++◌, ok, err, if◌then◌else◌}
use rsdb.Base.Exec.{Exec, pure, throw, lift, map_error, ◌>>=◌, ◌>>◌}
use rsdb.Base.Texts.{Text, codes}
use rsdb.Proto.Wire.{not_found}
use rsdb.Proto.Messages.{fs_mkdir_result, fs_rm_result, fs_move_result}
use rsdb.Proto.Io.{AsyncWrite}
use rsdb.Daemon.Error.{Error, fs_precondition_failed_error, io_kind_eq}
use rsdb.Daemon.Host.{Host, Metadata, Daemon, io_context, run_blocking_fs, respond}
use rsdb.Daemon.Fs.Entries.{is_dir, validate_fs_path}
use rsdb.Daemon.Fs.Inspect.{stat_or_fail}
use rsdb.Daemon.Fs.Write.{set_mode, stat_optional}

module _ {S : Type 0} (host : Host S) where
  -- Whether a directory was created.
  unfoldable pub make_dir : Text → Bool → Option Metadata → Exec S Error Bool
  make_dir path parents (some metadata) =
      if is_dir metadata
      then pure false
      else throw
          (fs_precondition_failed_error (codes "path exists and is not a directory: " ++ path))
  make_dir path parents none = do
    map_error (io_context (codes "failed to create " ++ path))
        (if parents then host.create_dir_all path else host.create_dir path)
    pure true

  -- `remove_dir_all`, `remove_dir` or `remove_file`.
  unfoldable pub remove_found : Text → Bool → Option Metadata → Exec S Error Bool
  remove_found path recursive none = pure false
  remove_found path recursive (some metadata) = do
    map_error (io_context (codes "failed to remove " ++ path)) (
        if is_dir metadata
        then (if recursive then host.remove_dir_all path else host.remove_dir path)
        else host.remove_file path)
    pure true

  -- A missing file is an error, unless `force` or `if_exists` is set.
  unfoldable pub stat_for_removal : Text → Bool → Exec S Error (Option Metadata)
  stat_for_removal path may_be_missing s = elim (host.symlink_metadata path s) [
    | ok metadata ↦ (ok (some metadata), s)
    | err e ↦
        if io_kind_eq e.kind not_found && may_be_missing
        then (ok none, s)
        else (err (io_context (codes "failed to stat " ++ path) e), s)
  ]

  -- The destination of a move is cleared where it may be overwritten.
  unfoldable pub clear_destination : Text → Bool → Option Metadata → Exec S Error Bool
  clear_destination path overwrite none = pure false
  clear_destination path overwrite (some metadata) =
      if overwrite
      then (do
        map_error (io_context (codes "failed to remove " ++ path))
            (if is_dir metadata then host.remove_dir_all path else host.remove_file path)
        pure true)
      else throw (fs_precondition_failed_error (codes "destination already exists: " ++ path))

module _ {W S : Type 0} ⦃w : AsyncWrite W⦄ (host : Host S) (request_id : ℕ) where
  unfoldable pub handle_fs_mkdir : Text → Bool → Option ℕ → Daemon W S (Unit {0})
  unfolding validate_fs_path stat_optional make_dir
  handle_fs_mkdir path parents mode = do
    requested ← lift (validate_fs_path path)
    existing ← run_blocking_fs (stat_optional host requested)
    created ← run_blocking_fs (make_dir host requested parents existing)
    run_blocking_fs (set_mode host requested mode)
    respond host request_id (fs_mkdir_result (record { path = requested; created = created }))

  unfoldable pub handle_fs_rm : Text → Bool → Bool → Bool → Daemon W S (Unit {0})
  unfolding validate_fs_path stat_for_removal remove_found
  handle_fs_rm path recursive force if_exists = do
    requested ← lift (validate_fs_path path)
    found ← run_blocking_fs (stat_for_removal host requested (force || if_exists))
    removed ← run_blocking_fs (remove_found host requested recursive found)
    respond host request_id (fs_rm_result (record { path = requested; removed = removed }))

  unfoldable pub handle_fs_move : Text → Text → Bool → Daemon W S (Unit {0})
  unfolding validate_fs_path stat_optional clear_destination
  handle_fs_move source destination overwrite = do
    source_path ← lift (validate_fs_path source)
    destination_path ← lift (validate_fs_path destination)
    run_blocking_fs (stat_or_fail host source_path)
    existing ← run_blocking_fs (stat_optional host destination_path)
    overwritten ← run_blocking_fs (clear_destination host destination_path overwrite existing)
    run_blocking_fs (
        map_error
          (io_context
            (codes "failed to move " ++ (source_path ++ (codes " to " ++ destination_path))))
          (host.rename source_path destination_path))
    respond host request_id (
        fs_move_result (record {
          source = source_path;
          destination = destination_path;
          overwritten = overwritten;
        }))
