-- ===== src/Daemon/Fs/Reads.antt =====
-- What `fs.read` takes of a file (device/rsdbd/src/main.rs).
use rsdb.Base.{ℕ, Option, true, zero, suc, ◌+◌, ◌-◌, ◌<◌, false, List, [], ◌∷◌, ok, map, All}
use rsdb.Base.{
  ◌≡◌, refl, arith, inl, inr, length, length-take, take, take-append_ge, take-append_le,
  take-take-suc, take_all, concat, ltb, Bool-cases,
}
use rsdb.Base.Texts.{Text, Bytes, is_empty}
use rsdb.Proto.Wire.{default_stream_chunk_size}
use rsdb.Proto.Messages.{ContentEncoding, fs_read_result}
use rsdb.Proto.Io.{AsyncWrite}
use rsdb.Daemon.Host.{Host, Metadata, World, respond}
use rsdb.Daemon.Fs.Entries.{is_file, validate_fs_path, encode_fs_content}
use rsdb.Daemon.Fs.Inspect.{read_take, truncate_to, read_limit, handle_fs_read}

abbrev pub IsRead : Bytes → Type 0
IsRead chunk = is_empty chunk ≡ false

read_take-concat :
    (limit : ℕ) (chunks : List Bytes)
    → 0 < limit
    → All IsRead chunks
    → read_take limit (map (λ c. ok c) chunks) ≡ ok (take limit (concat chunks))
unfolding read_take
read_take-concat zero chunks p h = elim p [ ]
read_take-concat (suc limit) [] p h = refl
read_take-concat limit ([] ∷ chunks) p h = cc (h.0)
read_take-concat limit ((b ∷ chunk) ∷ chunks) p h =
    elim (Bool-cases (ltb (length (b ∷ chunk)) limit)) [
      | inl e ↦
          let rest = read_take-concat (limit - length (b ∷ chunk)) chunks (ground arith) h.1 in
          ground (arith, rest, take-append_ge limit (b ∷ chunk) (concat chunks))
      | inr e ↦ ground (arith, take-append_le limit (b ∷ chunk) (concat chunks))
    ]

truncate_to-read_take :
    (limit : ℕ) (chunks : List Bytes)
    → All IsRead chunks
    → (bytes : Bytes) × (read_take (limit + 1) (map (λ c. ok c) chunks) ≡ ok bytes)
      × (truncate_to limit bytes ≡ (take limit (concat chunks), ltb limit (length (concat chunks))))
truncate_to-read_take limit chunks h =
    let all = concat chunks in
    (
      take (limit + 1) all,
      read_take-concat (limit + 1) chunks (omega arith) h,
      elim (Bool-cases (ltb limit (length all))) [
        | inl e ↦ ground (arith, length-take (limit + 1) all, take-take-suc limit all)
        | inr e ↦ ground (arith, take_all (limit + 1) all, take_all limit all)
      ],
    )

-- `fs.read` of a regular file that can be opened and read, by a path that is not empty: however the
-- file system cuts the file into reads, the reply has its first bytes up to the limit, in the
-- encoding that was asked for, their number, and that it is truncated exactly when the file is longer.
-- The limit is what was asked for, and at most 4 MiB; the bytes up to it have the encoding.
pub handle_fs_read-first_bytes :
    {W S : Type 0} ⦃w : AsyncWrite W⦄ (host : Host S) (request_id : ℕ) (path : Text)
    (encoding : ContentEncoding) (max_bytes : Option ℕ) (handle : ℕ) (chunks : List Bytes)
    (content : Text) (metadata : Metadata) (world : World W S)
    → is_empty path ≡ false
    → host.symlink_metadata path world.fs ≡ ok metadata
    → is_file metadata ≡ true
    → (host.open_read path world.fs).0 ≡ ok handle
    → host.reads handle default_stream_chunk_size (host.open_read path world.fs).1
      ≡ map (λ c. ok c) chunks
    → All IsRead chunks
    → encode_fs_content host (take (read_limit max_bytes) (concat chunks)) encoding ≡ ok content
    → handle_fs_read host request_id path encoding max_bytes world
      ≡ respond host request_id
          (fs_read_result (record {
            path = path;
            encoding = encoding;
            content = content;
            bytes = length (take (read_limit max_bytes) (concat chunks));
            truncated = ltb (read_limit max_bytes) (length (concat chunks));
          }))
          (record world { fs = (host.open_read path world.fs).1 })
unfolding handle_fs_read validate_fs_path
handle_fs_read-first_bytes host request_id path encoding max_bytes handle chunks content metadata
      world named found regular opened cut reads encoded =
    let (bytes, taken, kept) = truncate_to-read_take (read_limit max_bytes) chunks reads in
    rw (named, found, regular, opened, cut, taken, kept, encoded)
