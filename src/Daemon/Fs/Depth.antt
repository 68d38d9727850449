-- ===== src/Daemon/Fs/Depth.antt =====
-- `fs.list` with a `max_depth` ends (device/rsdbd/src/main.rs).
use rsdb.Base.{
  ℕ, zero, suc, ◌+◌, ◌<◌, Bool, not, ◌&&◌, Option, some, List, [], ◌∷◌, ◌++◌, Result, ok, err,
}
use rsdb.Base.{◌≢◌, arith, inl, inr, ltb, Result-cases, Bool-cases}
use rsdb.Base.Exec.{Exec}
use rsdb.Base.Texts.{Text, Bytes}
use rsdb.Proto.Wire.{IoError, default_stream_chunk_size}
use rsdb.Proto.Messages.{HashAlgorithm, AgentFsListEntry}
use rsdb.Daemon.Error.{Error, out_of_fuel}
use rsdb.Daemon.Host.{Host, Metadata}
use rsdb.Daemon.Fs.Entries.{is_dir, build_fs_entry, sha256_path, read_to_end}
use rsdb.Daemon.Fs.Inspect.{collect_children, collect_fs_entries, blocking_fs_list, is_hidden}
use rsdb.Daemon.Fs.Order.{sort_paths}

read_to_end_error :
    {S : Type 0} (host : Host S) (reads : List (Result IoError Bytes)) (bytes : Bytes)
    → read_to_end host reads bytes ≢ err (out_of_fuel ∷ [])
unfolding read_to_end
read_to_end_error host [] bytes e = cc
read_to_end_error host (err x ∷ reads) bytes e = cc
read_to_end_error host (ok [] ∷ reads) bytes e = cc
read_to_end_error host (ok (b ∷ chunk) ∷ reads) bytes e =
    read_to_end_error host reads (bytes ++ (b ∷ chunk)) e

module _ {S : Type 0} (host : Host S) (recursive include_hidden : Bool)
    (hash : Option HashAlgorithm) where
  build_fs_entry_error :
      (child : Text) (m : Metadata) (s : S)
      → (build_fs_entry host child m hash s).0 ≢ err (out_of_fuel ∷ [])
  unfolding build_fs_entry sha256_path
  build_fs_entry_error child m s e =
      let opened = host.open_read child s in
      elim (Result-cases opened.0) [
        | inl (handle, f) ↦ ground (
          arith,
          read_to_end_error host (host.reads handle default_stream_chunk_size opened.1) [],
        )
        | inr (x, f) ↦ ground arith
      ]

  collect_children_ends :
      (limit depth : ℕ) (descend : Text → Exec S Error (List AgentFsListEntry))
      → ((child : Text) (s : S) → depth + 1 < limit → (descend child s).0 ≢ err (out_of_fuel ∷ []))
      → (children : List Text) (s : S)
      → (collect_children host recursive
          (some limit)
          include_hidden
          hash
          descend
          depth
          children
          s).0
        ≢ err (out_of_fuel ∷ [])
  unfolding collect_children
  collect_children_ends limit depth descend h [] s e = cc
  collect_children_ends limit depth descend h (child ∷ children) s e =
      elim (Bool-cases (is_hidden child && not include_hidden)) [
        | inl k ↦ ground (arith, collect_children_ends limit depth descend h children s)
        | inr k ↦ elim (Result-cases (host.symlink_metadata child s)) [
          | inl (m, f) ↦ elim (Result-cases (build_fs_entry host child m hash s).0) [
            | inl (entry, g) ↦
                let s1 = (build_fs_entry host child m hash s).1 in
                let rest = collect_children_ends limit depth descend h children in
                elim (Bool-cases (recursive && is_dir m && ltb (depth + 1) limit)) [
                  | inl d ↦ elim (Result-cases (descend child s1).0) [
                    | inl (below, j) ↦ ground (arith, rest (descend child s1).1)
                    | inr (x, j) ↦ ground (arith, h child s1)
                  ]
                  | inr d ↦ ground (arith, rest s1)
                ]
            | inr (x, g) ↦ ground (arith, build_fs_entry_error child m s)
          ]
          | inr (x, f) ↦ ground arith
        ]
      ]

  collect_fs_entries_ends :
      (limit fuel depth : ℕ) (path : Text) (s : S)
      → 0 < fuel
      → limit < depth + fuel
      → (collect_fs_entries host recursive (some limit) include_hidden hash fuel path depth s).0
        ≢ err (out_of_fuel ∷ [])
  unfolding collect_fs_entries
  collect_fs_entries_ends limit zero depth path s p h e = elim p [ ]
  collect_fs_entries_ends limit (suc fuel) depth path s p h e =
      elim (Result-cases (host.read_dir path s)) [
        | inl (children, f) ↦ ground (
          arith,
          collect_children_ends limit depth
              (λ child.
                collect_fs_entries host recursive (some limit) include_hidden hash fuel child
                  (depth + 1))
              (λ child s2 d.
                collect_fs_entries_ends limit fuel (depth + 1) child s2 (omega arith) (omega arith))
              (sort_paths children) s,
        )
        | inr (x, f) ↦ ground arith
      ]

  -- With a `max_depth`, more fuel than that is enough: the listing succeeds or fails with one of the
  -- program's own errors, however the directories below the path lie.
  pub blocking_fs_list_ends :
      (limit fuel : ℕ) (path : Text) (s : S)
      → limit < fuel
      → (blocking_fs_list host recursive (some limit) include_hidden hash fuel path s).0
        ≢ err (out_of_fuel ∷ [])
  unfolding blocking_fs_list
  blocking_fs_list_ends limit fuel path s h e = elim (Result-cases (host.symlink_metadata path s)) [
    | inl (m, f) ↦ ground (
      arith,
      collect_fs_entries_ends limit fuel 0 path s (omega arith) (omega arith),
      build_fs_entry_error path m s,
    )
    | inr (x, f) ↦ ground arith
  ]
