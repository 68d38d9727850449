-- ===== src/Paths/Runs.antt =====
-- Concrete transfer paths, and the theorems about them at concrete inputs.
use rsdb.Base.{◌≡◌, refl, [], ◌∷◌, ◌++◌, ok, err, ◌↔◌}
use rsdb.Base.Texts.{Text, codes}
use rsdb.Proto.Messages.{TransferRoot, file}
use rsdb.Paths.Components.{components, join}
use rsdb.Paths.Transfer.{
  join_transfer_relative_path, invalid_transfer_path, ensure_unique_root_names,
}
use rsdb.Paths.Landing.{join_transfer_relative_path-contained, join_transfer_relative_path-refused}
use rsdb.Paths.Roots.{NoRepeat, ensure_unique_root_names_iff}

joined : join_transfer_relative_path (codes "/opt/") (codes "a//b/./c") ≡ ok (codes "/opt/a/b/c")
unfolding join_transfer_relative_path components join
joined = refl

join_transfer_relative_path-refused_example :
    join_transfer_relative_path (codes "/opt") (codes "a/../../etc")
    ≡ err (invalid_transfer_path (codes "a/../../etc"))
join_transfer_relative_path-refused_example =
    join_transfer_relative_path-refused (codes "/opt") (codes "a/../../etc")
      (unfold components in refl)

join_transfer_relative_path-contained_example :
    (p : Text) × (join_transfer_relative_path (codes "/opt") (codes "a/b") ≡ ok p)
    × (components p ≡ components (codes "/opt") ++ components (codes "a/b"))
join_transfer_relative_path-contained_example =
    join_transfer_relative_path-contained (codes "/opt") (codes "a/b") (unfold components in refl)

abbrev root : Text → TransferRoot
root name = record { source_name = name; kind = file; mode = 0 }

ensure_unique_root_names_iff_example :
    (ensure_unique_root_names (root (codes "a") ∷ root (codes "b") ∷ []) ≡ ok tt)
    ↔ NoRepeat (codes "a" ∷ codes "b" ∷ [])
ensure_unique_root_names_iff_example =
    ensure_unique_root_names_iff (root (codes "a") ∷ root (codes "b") ∷ [])
