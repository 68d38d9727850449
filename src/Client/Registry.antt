-- ===== src/Client/Registry.antt =====
-- The saved targets of the client: Registry, primary_target, normalize_registry, and what connect
-- and disconnect do to the registry (crates/rsdb-cli/src/main.rs).
pub mod Normal
pub mod Fixed
pub mod Connect
pub mod Disconnect
use rsdb.Base.{
  ℕ, suc, zero, ◌-◌, Bool, true, false, not, ◌||◌, Option, none, some, List, [], ◌∷◌, ◌++◌, length,
  any, get_elem?, if◌then◌else◌,
}
use rsdb.Base.Texts.{Text, text_eq}

pub record StoredTarget : Type 0 where
  pub name : Text
  pub addr : Text

pub record Registry : Type 0 where
  pub targets : List StoredTarget
  pub current_target : Option Text

-- `targets.iter().position(|entry| test(entry))`
unfoldable pub position : (StoredTarget → Bool) → List StoredTarget → Option ℕ
position test [] = none
position test (target ∷ targets) = elim (position test targets) [
  | none ↦ if test target then some 0 else none
  | some index ↦ if test target then some 0 else some (suc index)
]

abbrev pub has_addr : Text → StoredTarget → Bool
has_addr addr target = text_eq target.addr addr

abbrev has_name : Text → StoredTarget → Bool
has_name name target = text_eq target.name name

abbrev pub last : List StoredTarget → Option StoredTarget
last [] = none
last (target ∷ []) = some target
last (target ∷ (next ∷ targets)) = last (next ∷ targets)

abbrev pub last_index : List StoredTarget → Option ℕ
last_index [] = none
last_index (target ∷ targets) = some (length targets)

abbrev pub or_else : {A : Type 0} → Option A → Option A → Option A
or_else none other = other
or_else (some a) other = some a

abbrev index_of_current : Option Text → List StoredTarget → Option ℕ
index_of_current none targets = none
index_of_current (some current) targets =
    or_else (position (has_addr current) targets) (position (has_name current) targets)

unfoldable pub primary_target_index : Registry → Option ℕ
primary_target_index registry =
    or_else (index_of_current registry.current_target registry.targets)
      (last_index registry.targets)

abbrev pub at : List StoredTarget → Option ℕ → Option StoredTarget
at targets none = none
at targets (some index) = get_elem? targets index

unfoldable pub primary_target : Registry → Option StoredTarget
unfolding primary_target_index
primary_target registry = at registry.targets (primary_target_index registry)

-- The first target with the address is taken out.
unfoldable pub remove_addr : Text → List StoredTarget → List StoredTarget
remove_addr addr [] = []
remove_addr addr (target ∷ targets) =
    let rest = remove_addr addr targets in if has_addr addr target then targets else target ∷ rest

-- The loop of `normalize_registry`: a later target takes the place of an earlier one.
unfoldable pub dedupe : List StoredTarget → List StoredTarget → List StoredTarget
dedupe deduped [] = deduped
dedupe deduped (target ∷ targets) =
    dedupe (remove_addr target.addr deduped ++ (target ∷ [])) targets

abbrev pub addr_of : Option StoredTarget → Option Text
addr_of none = none
addr_of (some target) = some target.addr

-- `filter(|addr| targets.iter().any(|target| target.addr == *addr))`
abbrev pub keep_known : List StoredTarget → Option Text → Option Text
keep_known targets none = none
keep_known targets (some addr) = if any (has_addr addr) targets then some addr else none

unfoldable pub normalize_registry : Registry → Registry
unfolding primary_target dedupe
normalize_registry registry =
    let targets = dedupe [] registry.targets in
    record {
      targets = targets;
      current_target =
          or_else (keep_known targets (addr_of (primary_target registry))) (addr_of (last targets));
    }

-- `targets.retain(|target| target.addr != addr)`
unfoldable pub retain_others : Text → List StoredTarget → List StoredTarget
retain_others addr [] = []
retain_others addr (target ∷ targets) =
    let rest = retain_others addr targets in if has_addr addr target then rest else target ∷ rest

-- What `connect_command` does to the registry, given the name that it chose.
unfoldable pub connect : Text → Text → Registry → Registry
unfolding retain_others
connect name addr registry = record {
  targets = retain_others addr registry.targets ++ (record { name = name; addr = addr } ∷ []);
  current_target = some addr;
}

-- `targets.remove(index)`, of an index that is in range.
unfoldable pub remove_at : ℕ → List StoredTarget → List StoredTarget
remove_at index [] = []
remove_at zero (target ∷ targets) = targets
remove_at (suc index) (target ∷ targets) = target ∷ remove_at index targets

abbrev pub refers_to : Option Text → StoredTarget → Bool
refers_to none target = false
refers_to (some current) target = text_eq current target.addr || text_eq current target.name

-- The current target after `target` was removed, with those that are left.
abbrev pub current_after : Option Text → StoredTarget → List StoredTarget → Option Text
current_after current target [] = none
current_after current target (next ∷ targets) =
    if refers_to current target then addr_of (last (next ∷ targets)) else current

-- What `disconnect_command` does to the registry, given the index of the target that it chose.
unfoldable pub disconnect : ℕ → Registry → Option Registry
unfolding remove_at
disconnect index registry = elim (get_elem? registry.targets index) [
  | none ↦ none
  | some target ↦
      let targets = remove_at index registry.targets in
      some (record {
        targets = targets;
        current_target = current_after registry.current_target target targets;
      })
]
