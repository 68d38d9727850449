-- ===== src/Paths/Components.antt =====
-- `std::path::Path` on Unix, over the bytes of a path: what the program uses of it.
use rsdb.Base.{Option, none, some, ℕ, Bool, true, false, ◌&&◌, not, ◌||◌, List, [], ◌∷◌, ◌++◌}
use rsdb.Base.{◌==◌, if◌then◌else◌}
use rsdb.Base.Texts.{Text, codes, text_eq, is_empty}

abbrev pub slash : ℕ
slash = b'/'

-- `Component` without the Windows prefix.
pub data Component : Type 0 where
  root_dir cur_dir parent_dir : Component
  normal : Text → Component

-- A byte put in front of the first of the segments.
abbrev pub cons_head : ℕ → List Text → List Text
cons_head c [] = (c ∷ []) ∷ []
cons_head c (seg ∷ segs) = (c ∷ seg) ∷ segs

-- The segments between the slashes, empty ones included.
unfoldable pub segments : Text → List Text
segments [] = [] ∷ []
segments (c ∷ p) = if c == slash then [] ∷ segments p else cons_head c (segments p)

abbrev pub is_dot : Text → Bool
is_dot seg = text_eq seg (codes ".")

abbrev pub is_dot_dot : Text → Bool
is_dot_dot seg = text_eq seg (codes "..")

-- A segment behind the first one: an empty one and `.` are skipped.
abbrev pub segment_component : Text → List Component
segment_component seg =
    if is_empty seg || is_dot seg
    then []
    else if is_dot_dot seg
    then parent_dir ∷ []
    else normal seg ∷ []

unfoldable pub later_components : List Text → List Component
later_components [] = []
later_components (seg ∷ segs) = segment_component seg ++ later_components segs

-- The first segment: an empty one stands before a leading slash, and a leading `.` is kept.
abbrev pub first_component : Text → Bool → List Component
first_component seg rooted =
    if is_empty seg
    then (if rooted then root_dir ∷ [] else [])
    else if is_dot seg
    then cur_dir ∷ []
    else segment_component seg

abbrev pub all_components : List Text → List Component
all_components [] = []
all_components (seg ∷ segs) = first_component seg (not (is_empty segs)) ++ later_components segs

-- `Path::components`
unfoldable pub components : Text → List Component
unfolding segments later_components
components p = all_components (segments p)

abbrev pub is_absolute : Text → Bool
is_absolute [] = false
is_absolute (c ∷ p) = c == slash

unfoldable pub ends_with_slash : Text → Bool
ends_with_slash [] = false
ends_with_slash (c ∷ []) = c == slash
ends_with_slash (c ∷ d ∷ p) = ends_with_slash (d ∷ p)

-- `Path::join`, `PathBuf::push`
unfoldable pub join : Text → Text → Text
unfolding ends_with_slash
join base part =
    if is_absolute part
    then part
    else if is_empty base || ends_with_slash base
    then base ++ part
    else base ++ (slash ∷ part)

-- `Path::file_name`: the last component, if it is a normal one.
unfoldable pub last_name : List Component → Option Text
last_name [] = none
last_name (normal part ∷ []) = some part
last_name (c ∷ []) = none
last_name (c ∷ d ∷ rest) = last_name (d ∷ rest)

unfoldable pub file_name : Text → Option Text
unfolding last_name components
file_name p = last_name (components p)

abbrev component_text : Component → Text
component_text root_dir = []
component_text cur_dir = codes "."
component_text parent_dir = codes ".."
component_text (normal part) = part

-- All components but the last, joined again.
abbrev init_path : Component → List Component → Text
init_path root_dir [] = codes "/"
init_path c [] = component_text c
init_path c (d ∷ rest) = component_text c ++ (slash ∷ init_path d rest)

abbrev all_but_last : List Component → List Component
all_but_last [] = []
all_but_last (c ∷ []) = []
all_but_last (c ∷ d ∷ rest) = c ∷ all_but_last (d ∷ rest)

abbrev path_of : List Component → Text
path_of [] = []
path_of (c ∷ rest) = init_path c rest

abbrev parent_of : List Component → Option Text
parent_of [] = none
parent_of (root_dir ∷ []) = none
parent_of (c ∷ rest) = some (path_of (all_but_last (c ∷ rest)))

-- `Path::parent`, with repeated slashes and inner dots left out.
unfoldable pub parent : Text → Option Text
unfolding components
parent p = parent_of (components p)

abbrev same_component : Component → Component → Bool
same_component root_dir root_dir = true
same_component cur_dir cur_dir = true
same_component parent_dir parent_dir = true
same_component (normal a) (normal b) = text_eq a b
same_component c d = false

abbrev pub same_components : List Component → List Component → Bool
same_components [] [] = true
same_components (c ∷ cs) (d ∷ ds) = same_component c d && same_components cs ds
same_components cs ds = false

-- The components behind a prefix.
abbrev pub after_prefix : List Component → List Component → Option (List Component)
after_prefix [] cs = some cs
after_prefix (d ∷ ds) [] = none
after_prefix (d ∷ ds) (c ∷ cs) = if same_component d c then after_prefix ds cs else none

abbrev path_or_none : Option (List Component) → Option Text
path_or_none none = none
path_or_none (some cs) = some (path_of cs)

-- `==` of paths
unfoldable pub path_eq : Text → Text → Bool
unfolding components
path_eq p q = same_components (components p) (components q)

-- `Path::strip_prefix(path, root)`
unfoldable pub strip_prefix : Text → Text → Option Text
unfolding components
strip_prefix path root = path_or_none (after_prefix (components root) (components path))
