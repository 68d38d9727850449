-- ===== src/Client/Completion.antt =====
-- Completing a path of the device: complete_remote_edit_path and what it calls
-- (crates/rsdb-cli/src/main.rs).
pub mod Extends
pub mod Runs
use rsdb.Base.{ℕ, Bool, true, false, Option, none, some, List, [], ◌∷◌, ◌++◌, ◌==◌, if◌then◌else◌}
use rsdb.Base.Exec.{Exec, pure, ◌>>=◌}
use rsdb.Base.Texts.{Text, codes, is_empty, text_eq}
use rsdb.Proto.Messages.{AgentFsListEntry, FsEntryKind, directory}
use rsdb.Paths.Components.{slash, file_name, ends_with_slash}
use rsdb.Daemon.Fs.Order.{bytes_le}
use rsdb.Client.Failures.{ClientError, starts_with}
use rsdb.Client.Agent.Remote.{Remote}
use rsdb.Client.Requests.{remote_fs_list_completion}

-- `trim_end_matches('/')`
abbrev pub trim_slashes : Text → Text
trim_slashes [] = []
trim_slashes (c ∷ cs) = elim (trim_slashes cs) [
  | [] ↦ if c == slash then [] else c ∷ []
  | d ∷ ds ↦ c ∷ d ∷ ds
]

unfoldable pub trim_trailing_slash_preserving_root : Text → Text
trim_trailing_slash_preserving_root value =
    let trimmed = trim_slashes value in if is_empty trimmed then codes "/" else trimmed

-- `rsplit_once('/')`
abbrev pub rsplit_once_slash : Text → Option (Text × Text)
rsplit_once_slash [] = none
rsplit_once_slash (c ∷ cs) = elim (rsplit_once_slash cs) [
  | some (parent, prefix) ↦ some (c ∷ parent, prefix)
  | none ↦ if c == slash then some ([], cs) else none
]

abbrev or_root : Text → Text
or_root [] = codes "/"
or_root (c ∷ parent) = c ∷ parent

abbrev pub split_or_here : Text → Option (Text × Text) → Text × Text
split_or_here partial none = (codes ".", partial)
split_or_here partial (some (parent, prefix)) = (or_root parent, prefix)

unfoldable pub split_remote_completion_input : Text → Text × Text
unfolding trim_trailing_slash_preserving_root ends_with_slash
split_remote_completion_input partial =
    if is_empty partial
    then (codes ".", [])
    else if text_eq partial (codes "/")
    then (codes "/", [])
    else if ends_with_slash partial
    then (trim_trailing_slash_preserving_root partial, [])
    else split_or_here partial (rsplit_once_slash partial)

unfoldable pub join_remote_completion_candidate : Text → Text → Text
join_remote_completion_candidate parent name =
    if text_eq parent (codes ".")
    then name
    else if text_eq parent (codes "/")
    then codes "/" ++ name
    else parent ++ (codes "/" ++ name)

-- `candidate.push('/')` for a directory.
abbrev pub with_slash : FsEntryKind → Text → Text
with_slash directory candidate = candidate ++ codes "/"
with_slash kind candidate = candidate

-- `filter_map` over the entries.
abbrev pub candidate_of : Text → Text → AgentFsListEntry → Option Text → List Text
candidate_of parent prefix entry none = []
candidate_of parent prefix entry (some name) =
    if starts_with name prefix
    then with_slash entry.kind (join_remote_completion_candidate parent name) ∷ []
    else []

unfoldable pub candidates : Text → Text → List AgentFsListEntry → List Text
unfolding join_remote_completion_candidate file_name
candidates parent prefix [] = []
candidates parent prefix (entry ∷ entries) =
    candidate_of parent prefix entry (file_name entry.path) ++ candidates parent prefix entries

-- `sort()` of strings
abbrev pub insert_text : Text → List Text → List Text
insert_text p [] = p ∷ []
insert_text p (q ∷ qs) =
    let rest = insert_text p qs in if bytes_le p q then p ∷ q ∷ qs else q ∷ rest

unfoldable pub sort_texts : List Text → List Text
unfolding bytes_le
sort_texts [] = []
sort_texts (p ∷ ps) = insert_text p (sort_texts ps)

-- `dedup()`
unfoldable pub dedup : List Text → List Text
dedup [] = []
dedup (p ∷ []) = p ∷ []
dedup (p ∷ q ∷ qs) = let rest = dedup (q ∷ qs) in if text_eq p q then rest else p ∷ rest

unfoldable pub completions : Text → Text → List AgentFsListEntry → List Text
unfolding candidates sort_texts dedup
completions parent prefix entries = dedup (sort_texts (candidates parent prefix entries))

module _ {S : Type 0} (remote : Remote S) (addr : Text) where
  unfoldable pub complete_remote_edit_path : Text → Exec S ClientError (List Text)
  unfolding split_remote_completion_input remote_fs_list_completion completions
  complete_remote_edit_path partial = do
    let (parent, prefix) = split_remote_completion_input partial
    entries ← remote_fs_list_completion remote addr parent
    pure (completions parent prefix entries)
