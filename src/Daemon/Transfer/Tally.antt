-- ===== src/Daemon/Transfer/Tally.antt =====
-- What the manifest of a batch pull says adds up (device/rsdbd/src/main.rs).
use mathlib.Core.List.{append-nil}
use rsdb.Base.{ℕ, zero, suc, ◌+◌, ◌<◌, List, [], ◌∷◌, ◌++◌, length, length-append, All, All-append}
use rsdb.Base.{
  ◌≡◌, refl, sym, ap, ◌∙◌, arith, inl, inr, Result, ok, Result-cases, Bool-cases, Option-cases,
}
use rsdb.Base.Texts.{Text}
use rsdb.Proto.Messages.{file, directory, TransferRoot, TransferEntry}
use rsdb.Paths.Components.{file_name}
use rsdb.Paths.Transfer.{ensure_unique_root_names, path_to_transfer_string}
use rsdb.Daemon.Error.{Error}
use rsdb.Daemon.Host.{Host, Metadata}
use rsdb.Daemon.Fs.Entries.{is_dir, is_file, is_symlink, file_mode}
use rsdb.Daemon.Fs.Order.{sort_paths}
use rsdb.Daemon.Transfer.Manifest.{
  BatchFileSource, BatchManifest, Collected, child_path, root_kind, append_children,
  append_manifest_entry, append_sources, build_batch_manifest_from_sources, expand_remote_sources,
  transfer_source_name,
}
use rsdb.Daemon.Transfer.Sums.{
  sum_sizes, file_sizes, sizes, IsTally, sum_sizes-append, sizes-append, file_sizes-snoc,
  All-lt-suc,
}

module _ (root_index : ℕ) (acc : Collected) (t : IsTally (suc root_index) acc) (relative : Text)
    (mode : ℕ) where
  -- A directory is an entry and no file.
  directory-IsTally : IsTally (suc root_index) (record acc {
    entries =
        acc.entries
        ++ (record {
          root_index = root_index;
          relative_path = relative;
          kind = directory;
          mode = mode;
          size = 0;
        }
            ∷ []);
  })
  directory-IsTally =
      let entry : TransferEntry = record {
        root_index = root_index;
        relative_path = relative;
        kind = directory;
        mode = mode;
        size = 0;
      } in
      record {
        total = t.total;
        in_order =
            file_sizes-snoc acc.entries entry ∙ append-nil (file_sizes acc.entries) ∙ t.in_order;
        rooted =
            All-append (λ e. e.root_index < suc root_index) acc.entries (entry ∷ []) t.rooted
              (omega arith, tt);
      }

  file-IsTally :
      (path : Text) (size : ℕ)
      → IsTally (suc root_index) (record {
        entries =
            acc.entries
            ++ (record {
              root_index = root_index;
              relative_path = relative;
              kind = file;
              mode = mode;
              size = size;
            }
                ∷ []);
        files = acc.files ++ (record { path = path; size = size } ∷ []);
        total_bytes = acc.total_bytes + size;
      })
  file-IsTally path size =
      let entry : TransferEntry = record {
        root_index = root_index;
        relative_path = relative;
        kind = file;
        mode = mode;
        size = size;
      } in
      let source : BatchFileSource = record { path = path; size = size } in
      record {
        total = omega (arith, t.total, sum_sizes-append acc.files (source ∷ []));
        in_order =
            file_sizes-snoc acc.entries entry
            ∙ ap (λ l. l ++ (size ∷ [])) t.in_order
            ∙ sym (sizes-append acc.files (source ∷ []));
        rooted =
            All-append (λ e. e.root_index < suc root_index) acc.entries (entry ∷ []) t.rooted
              (omega arith, tt);
      }

module _ {S : Type 0} (host : Host S) (s : S) where
  append_children-IsTally :
      (n : ℕ) (append : Text → Text → Metadata → Collected → Result Error Collected)
      → ((child relative : Text) (m : Metadata) (acc acc' : Collected)
          → IsTally n acc
          → append child relative m acc ≡ ok acc'
          → IsTally n acc')
      → (relative : Text) (children : List Text) (acc acc' : Collected) → IsTally n acc
      → append_children host s append relative children acc ≡ ok acc'
      → IsTally n acc'
  unfolding append_children
  append_children-IsTally n append keep relative [] acc acc' t e =
      let same : acc ≡ acc' = cc (e) in rw (← same) t
  append_children-IsTally n append keep relative (child ∷ children) acc acc' t e =
      elim (Option-cases (file_name child)) [
        | inl e1 ↦ ground arith
        | inr (name, e1) ↦ elim (Result-cases (host.symlink_metadata child s)) [
          | inl (m, e2) ↦ elim (Result-cases (append child (child_path relative name) m acc)) [
            | inl (mid, e3) ↦
                append_children-IsTally n append keep relative children mid acc'
                  (keep child (child_path relative name) m acc mid t e3) (ground arith)
            | inr (x, e3) ↦ ground arith
          ]
          | inr (x, e2) ↦ ground arith
        ]
      ]

  append_manifest_entry-IsTally :
      (fuel root_index : ℕ) (path relative : Text) (m : Metadata) (acc acc' : Collected)
      → IsTally (suc root_index) acc
      → append_manifest_entry host s fuel root_index path relative m acc ≡ ok acc'
      → IsTally (suc root_index) acc'
  unfolding append_manifest_entry
  append_manifest_entry-IsTally zero root_index path relative m acc acc' t e = cc
  append_manifest_entry-IsTally (suc fuel) root_index path relative m acc acc' t e =
      elim (Bool-cases (is_symlink m)) [
        | inl e1 ↦ ground arith
        | inr e1 ↦ elim (Result-cases (path_to_transfer_string relative)) [
          | inr (x, e2) ↦ ground arith
          | inl (name, e2) ↦ elim (Bool-cases (is_dir m)) [
            | inl e3 ↦ elim (Result-cases (host.read_dir path s)) [
              | inr (x, e4) ↦ ground arith
              | inl (children, e4) ↦
                  append_children-IsTally (suc root_index)
                    (append_manifest_entry host s fuel root_index)
                    (append_manifest_entry-IsTally fuel root_index) relative (sort_paths children) _
                    acc' (directory-IsTally root_index acc t name (file_mode m)) (ground arith)
            ]
            | inr e3 ↦ elim (Bool-cases (is_file m)) [
              | inl e4 ↦
                  let made = file-IsTally root_index acc t name (file_mode m) path m.len in
                  let after : Collected = record {
                    entries =
                        acc.entries
                        ++ (record {
                          root_index = root_index;
                          relative_path = name;
                          kind = file;
                          mode = file_mode m;
                          size = m.len;
                        }
                            ∷ []);
                    files = acc.files ++ (record { path = path; size = m.len } ∷ []);
                    total_bytes = acc.total_bytes + m.len;
                  } in
                  let same : after ≡ acc' = ground arith in rw (← same) made
              | inr e4 ↦ ground arith
            ]
          ]
        ]
      ]

  IsTally-suc : (n : ℕ) (acc : Collected) → IsTally n acc → IsTally (suc n) acc
  IsTally-suc n acc t = record {
    total = t.total;
    in_order = t.in_order;
    rooted = All-lt-suc n acc.entries t.rooted;
  }

  append_sources-IsTally :
      (fuel : ℕ) (sources : List Text) (roots out : List TransferRoot) (acc acc' : Collected)
      → IsTally (length roots) acc
      → append_sources host s fuel sources roots acc ≡ ok (out, acc')
      → IsTally (length out) acc'
  unfolding append_sources
  append_sources-IsTally fuel [] roots out acc acc' t e =
      let same : (roots, acc) ≡ (out, acc') = cc (e) in
      let r : roots ≡ out = ap (λ (p : List TransferRoot × Collected). p.0) same in
      let a : acc ≡ acc' = ap (λ (p : List TransferRoot × Collected). p.1) same in rw (← r, ← a) t
  append_sources-IsTally fuel (source ∷ sources) roots out acc acc' t e =
      elim (Result-cases (host.symlink_metadata source s)) [
        | inr (x, e1) ↦ ground arith
        | inl (m, e1) ↦ elim (Result-cases (root_kind host s source m)) [
          | inr (x, e2) ↦ ground arith
          | inl (kind, e2) ↦ elim (Result-cases (transfer_source_name host s source)) [
            | inr (x, e3) ↦ ground arith
            | inl (name, e3) ↦
                elim (Result-cases
                  (append_manifest_entry host s fuel (length roots) source [] m acc)) [
                    | inr (x, e4) ↦ ground arith
                    | inl (mid, e4) ↦
                        let root : TransferRoot = record {
                          source_name = name;
                          kind = kind;
                          mode = file_mode m;
                        } in
                        let longer : suc (length roots) ≡ length (roots ++ (root ∷ [])) =
                          omega (arith, length-append roots (root ∷ [])) in
                        let kept =
                          append_manifest_entry-IsTally fuel (length roots) source [] m acc mid
                            (IsTally-suc (length roots) acc t) e4 in
                        append_sources-IsTally fuel sources (roots ++ (root ∷ [])) out mid acc'
                          (rw (← longer) kept) (ground arith)
                  ]
          ]
        ]
      ]

  -- A manifest that is built adds up: the total is the sum of the sizes of its files, which are those
  -- of the file entries in their order, every entry belongs to one of the roots, and the roots have
  -- different names.
  pub build_batch_manifest_from_sources-IsTally :
      (fuel : ℕ) (source_specs : List Text) (manifest : BatchManifest)
      → build_batch_manifest_from_sources host s fuel source_specs ≡ ok manifest
      → (manifest.total_bytes ≡ sum_sizes manifest.files)
        × (file_sizes manifest.entries ≡ sizes manifest.files)
        × All (λ entry. entry.root_index < length manifest.roots) manifest.entries
        × (ensure_unique_root_names manifest.roots ≡ ok tt)
  unfolding build_batch_manifest_from_sources
  build_batch_manifest_from_sources-IsTally fuel specs manifest e =
      let nothing : Collected = record { entries = []; files = []; total_bytes = 0 } in
      elim (Result-cases (expand_remote_sources host s specs)) [
        | inr (x, e1) ↦ ground arith
        | inl (sources, e1) ↦ elim (Result-cases (append_sources host s fuel sources [] nothing)) [
          | inr (x, e2) ↦ ground arith
          | inl ((roots, all), e2) ↦
              let t =
                append_sources-IsTally fuel sources [] roots nothing all
                  (record { total = refl; in_order = refl; rooted = tt }) e2 in
              elim (Result-cases (ensure_unique_root_names roots)) [
                | inr (x, e3) ↦ ground arith
                | inl (tt, e3) ↦
                    let made : BatchManifest = record {
                      roots = roots;
                      entries = all.entries;
                      files = all.files;
                      total_bytes = all.total_bytes;
                    } in
                    let same : made ≡ manifest = ground arith in
                    rw (← same) (t.total, t.in_order, t.rooted, e3)
              ]
        ]
      ]
