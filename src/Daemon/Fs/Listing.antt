-- ===== src/Daemon/Fs/Listing.antt =====
-- What `fs.list` returns for a directory, and how deep it goes (device/rsdbd/src/main.rs).
use rsdb.Base.{ℕ, suc, ◌+◌, Bool, false, not, ◌&&◌, Option, List, [], ◌∷◌, ok, map}
use rsdb.Base.{◌≡◌, arith, inl, inr, if◌then◌else◌, Result-cases, Bool-cases}
use rsdb.Base.Texts.{Text}
use rsdb.Proto.Messages.{HashAlgorithm, AgentFsListEntry}
use rsdb.Daemon.Host.{Host}
use rsdb.Daemon.Fs.Entries.{build_fs_entry}
use rsdb.Daemon.Fs.Inspect.{collect_children, collect_fs_entries, is_hidden}
use rsdb.Daemon.Fs.Order.{sort_paths, sort_paths-IsSorted, IsSorted}

-- The paths that are shown: all of them, or those whose name does not start with a dot.
abbrev pub visible : Bool → List Text → List Text
visible include_hidden [] = []
visible include_hidden (child ∷ children) =
    let rest = visible include_hidden children in
    if is_hidden child && not include_hidden then rest else child ∷ rest

abbrev pub paths : List AgentFsListEntry → List Text
paths entries = map (λ entry. entry.path) entries

module _ {S : Type 0} (host : Host S) (include_hidden : Bool) (hash : Option HashAlgorithm) where
  build_fs_entry-path :
      (child : Text) (s : S) (m : _) (entry : AgentFsListEntry)
      → (build_fs_entry host child m hash s).0 ≡ ok entry
      → entry.path ≡ child
  unfolding build_fs_entry
  build_fs_entry-path child s m entry e = ground arith

  module _ (max_depth : Option ℕ) (descend : Text → _) (depth : ℕ) where
    collect_children-visible :
        (children : List Text) (s : S) (entries : List AgentFsListEntry)
        → (collect_children host false max_depth include_hidden hash descend depth children s).0
          ≡ ok entries
        → paths entries ≡ visible include_hidden children
    unfolding collect_children
    collect_children-visible [] s entries e = ground arith
    collect_children-visible (child ∷ children) s entries e =
        elim (Bool-cases (is_hidden child && not include_hidden)) [
          | inl h ↦ ground (arith, collect_children-visible children s entries)
          | inr h ↦ elim (Result-cases (host.symlink_metadata child s)) [
            | inl (m, f) ↦ elim (Result-cases (build_fs_entry host child m hash s).0) [
              | inl (entry, g) ↦
                  let s1 = (build_fs_entry host child m hash s).1 in
                  elim (Result-cases
                    (collect_children host false max_depth include_hidden hash descend depth
                      children s1).0) [
                        | inl (others, k) ↦ ground (
                          arith,
                          build_fs_entry-path child s m entry g,
                          collect_children-visible children s1 others k,
                        )
                        | inr (x, k) ↦ ground arith
                      ]
              | inr (x, g) ↦ ground arith
            ]
            | inr (x, f) ↦ ground arith
          ]
        ]

  -- A listing of one directory that succeeds shows its visible children, each once for each time
  -- the directory has it, in the order of their paths.
  pub collect_fs_entries-visible :
      (max_depth : Option ℕ) (fuel depth : ℕ) (path : Text) (s : S) (children : List Text)
      (entries : List AgentFsListEntry)
      → host.read_dir path s ≡ ok children
      → (collect_fs_entries host false max_depth include_hidden hash (suc fuel) path depth s).0
        ≡ ok entries
      → (paths entries ≡ visible include_hidden (sort_paths children))
        × IsSorted (sort_paths children)
  unfolding collect_fs_entries
  collect_fs_entries-visible max_depth fuel depth path s children entries r e = (
    collect_children-visible max_depth
        (λ child.
          collect_fs_entries host false max_depth include_hidden hash fuel child (depth + 1))
        depth (sort_paths children) s entries (ground arith),
    sort_paths-IsSorted children,
  )
