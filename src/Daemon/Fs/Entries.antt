-- ===== src/Daemon/Fs/Entries.antt =====
-- Content, modes, hashes and the descriptions of files (device/rsdbd/src/main.rs).
use Prim.Native.Nat.{bit_and}
use rsdb.Base.{
  ◌*◌, ℕ, ◌^◌, ◌-◌, Bool, true, false, Option, none, some, List, [], ◌∷◌, ◌++◌, Result, ok, err,
  ◌==◌, min, if◌then◌else◌,
}
use rsdb.Base.Exec.{Exec, pure, map_error, ◌>>=◌}
use rsdb.Base.Texts.{Text, Bytes, codes, is_empty}
use rsdb.Proto.Wire.{default_stream_chunk_size, IoError}
use rsdb.Proto.Messages.{
  FsEntryKind, file, directory, symlink, other, HashAlgorithm, sha256, ContentEncoding, utf8,
  base64, AgentFsStat, AgentFsListEntry,
}
use rsdb.Daemon.Error.{Error, from_io, invalid_request_error}
use rsdb.Daemon.Host.{Host, Metadata, io_context}

abbrev pub max_agent_fs_bytes : ℕ
max_agent_fs_bytes = 4 * 1024 * 1024

abbrev pub is_file : Metadata → Bool
is_file metadata = elim metadata.file_type [ file ↦ true | _ ↦ false ]

abbrev pub is_dir : Metadata → Bool
is_dir metadata = elim metadata.file_type [ directory ↦ true | _ ↦ false ]

abbrev pub is_symlink : Metadata → Bool
is_symlink metadata = elim metadata.file_type [ symlink ↦ true | _ ↦ false ]

unfoldable pub fs_entry_kind : Metadata → FsEntryKind
fs_entry_kind metadata =
    if is_file metadata
    then file
    else if is_dir metadata
    then directory
    else if is_symlink metadata
    then symlink
    else other

-- `as_millis().min(u64::MAX)`
unfoldable pub metadata_mtime_unix_ms : Metadata → Option ℕ
metadata_mtime_unix_ms metadata = elim metadata.mtime_ms [
  | none ↦ none
  | some ms ↦ some (min ms (2 ^ 64 - 1))
]

unfoldable pub file_mode : Metadata → ℕ
file_mode metadata = bit_and metadata.mode_bits 0o7777

unfoldable pub normalize_mode : ℕ → ℕ
normalize_mode mode = let low = bit_and mode 0o7777 in if low == 0 then 0o644 else low

-- `path must not be empty`
unfoldable pub validate_fs_path : Text → Result Error Text
validate_fs_path path =
    if is_empty path then err (invalid_request_error (codes "path must not be empty")) else ok path

module _ {S : Type 0} (host : Host S) where
  unfoldable pub encode_fs_content : Bytes → ContentEncoding → Result Error Text
  encode_fs_content bytes utf8 =
      if host.valid_utf8 bytes
      then ok bytes
      else err (invalid_request_error (codes "file is not valid UTF-8"))
  encode_fs_content bytes base64 = ok (host.base64_encode bytes)

  abbrev decoded : Result Text Bytes → Result Error Bytes
  decoded (ok bytes) = ok bytes
  decoded (err reason) = err (invalid_request_error (codes "invalid base64 content: " ++ reason))

  unfoldable pub decode_fs_content : Text → ContentEncoding → Result Error Bytes
  decode_fs_content content utf8 = ok content
  decode_fs_content content base64 = decoded (host.base64_decode content)

  -- The loop of `sha256_path`: the bytes that the hasher has been fed when the file ends.
  unfoldable pub read_to_end : List (Result IoError Bytes) → Bytes → Result Error Bytes
  read_to_end [] fed = ok fed
  read_to_end (err e ∷ reads) fed = err (from_io e)
  read_to_end (ok [] ∷ reads) fed = ok fed
  read_to_end (ok (b ∷ chunk) ∷ reads) fed = read_to_end reads (fed ++ (b ∷ chunk))

  abbrev digest : Result Error Bytes → Result Error Text
  digest (ok bytes) = ok (host.sha256 bytes)
  digest (err e) = err e

  unfoldable pub sha256_path : Text → Exec S Error Text
  unfolding read_to_end
  sha256_path path = do
    handle ←
        map_error (io_context (codes "failed to open " ++ (path ++ codes " for hashing")))
          (host.open_read path)
    λ s. (digest (read_to_end (host.reads handle default_stream_chunk_size s) []), s)

  -- The hash of a regular file, where one is asked for.
  abbrev optional_hash : Text → Metadata → Option HashAlgorithm → Exec S Error (Option Text)
  optional_hash path metadata none = pure none
  optional_hash path metadata (some sha256) =
      if is_file metadata then (do hash ← sha256_path path; pure (some hash)) else pure none

  unfoldable pub build_fs_stat : Text → Metadata → Option HashAlgorithm → Exec S Error AgentFsStat
  unfolding fs_entry_kind file_mode metadata_mtime_unix_ms sha256_path
  build_fs_stat path metadata hash = do
    digest ← optional_hash path metadata hash
    pure (record {
      path = path;
      exists = true;
      kind = some (fs_entry_kind metadata);
      size = some metadata.len;
      mode = some (file_mode metadata);
      mtime_unix_ms = metadata_mtime_unix_ms metadata;
      sha256 = digest;
    })

  unfoldable pub build_fs_entry :
      Text → Metadata → Option HashAlgorithm → Exec S Error AgentFsListEntry
  unfolding fs_entry_kind sha256_path
  build_fs_entry path metadata hash = do
    digest ← optional_hash path metadata hash
    pure (record {
      path = path;
      kind = fs_entry_kind metadata;
      size = metadata.len;
      sha256 = digest;
    })
