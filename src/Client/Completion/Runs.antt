-- ===== src/Client/Completion/Runs.antt =====
-- A completion at a concrete input.
use rsdb.Base.{◌≡◌, refl, none, List, [], ◌∷◌, All, inl}
use rsdb.Base.Texts.{Text, codes}
use rsdb.Proto.Messages.{AgentFsListEntry, FsEntryKind, file, directory}
use rsdb.Paths.Components.{ends_with_slash}
use rsdb.Client.Completion.{completions, split_remote_completion_input}
use rsdb.Client.Completion.Extends.{Begins, completions-typed}

abbrev listed : Text → FsEntryKind → AgentFsListEntry
listed path kind = record { path = path; kind = kind; size = 0; sha256 = none }

abbrev in_etc : List AgentFsListEntry
in_etc =
    listed (codes "/etc/init.d") directory
    ∷ listed (codes "/etc/hosts") file
    ∷ listed (codes "/etc/inittab") file
    ∷ []

run_in_etc :
    completions (codes "/etc") (codes "in") in_etc
    ≡ codes "/etc/init.d/" ∷ codes "/etc/inittab" ∷ []
unfolding completions
run_in_etc = refl

completions-typed_example : All (Begins (codes "/etc/in")) (
    completions
      (split_remote_completion_input (codes "/etc/in")).0
      (split_remote_completion_input (codes "/etc/in")).1
      in_etc)
unfolding ends_with_slash
completions-typed_example = completions-typed (codes "/etc/in") in_etc (inl (refl, (refl, refl)))

-- A part `.` before the last slash is lost.
run_here :
    completions
      (split_remote_completion_input (codes "./in")).0
      (split_remote_completion_input (codes "./in")).1
      (listed (codes "init") file ∷ [])
    ≡ codes "init" ∷ []
unfolding completions split_remote_completion_input
run_here = refl
