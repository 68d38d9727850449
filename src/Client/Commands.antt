-- ===== src/Client/Commands.antt =====
-- connect_command, disconnect_command and the choice of a target (crates/rsdb-cli/src/main.rs), over
-- the registry that is stored: reading it normalizes it, and so does writing it. The daemon that is
-- asked, the file and what is printed are left out.
pub mod Connected
use rsdb.Base.{
  ℕ, Bool, true, false, not, Option, none, some, List, [], ◌∷◌, all, Result, ok, err, ◌>>=◌,
  if◌then◌else◌,
}
use rsdb.Base.Texts.{Text, codes}
use rsdb.Daemon.Error.{Error, bail}
use rsdb.Daemon.Transfer.Roots.{is_blank}
use rsdb.Client.Addresses.{
  Net, normalize_connect_addr, normalize_target_addr, default_name, is_legacy_auto_name,
}
use rsdb.Client.Registry.{
  StoredTarget, Registry, has_addr, position, primary_target, primary_target_index,
  normalize_registry, connect, disconnect,
}

-- `find(|target| target.addr == addr)`
abbrev find_addr : Text → List StoredTarget → Option StoredTarget
find_addr addr [] = none
find_addr addr (target ∷ targets) =
    let rest = find_addr addr targets in if has_addr addr target then some target else rest

-- The name of the device that answered to a discovery, where it has one, or the address.
abbrev discovered_name : Text → Option Text → Text
discovered_name addr none = default_name addr
discovered_name addr (some device_name) =
    if all is_blank device_name then default_name addr else device_name

abbrev kept_name : Text → Option Text → Option StoredTarget → Text
kept_name addr discovered none = discovered_name addr discovered
kept_name addr discovered (some target) =
    if is_legacy_auto_name target.name addr then discovered_name addr discovered else target.name

-- The name that `connect_command` saves a target under.
unfoldable pub chosen_name : Text → Option Text → Option Text → Registry → Text
unfolding default_name is_legacy_auto_name
chosen_name addr (some name) discovered registry = name
chosen_name addr none discovered registry =
    kept_name addr discovered (find_addr addr registry.targets)

abbrev no_targets : Error
no_targets = bail (codes "no saved targets; use `rsdb connect <addr>` first")

abbrev target_or_fail : {A : Type 0} → Option A → Result Error A
target_or_fail none = err no_targets
target_or_fail (some a) = ok a

abbrev pub addr_or_fail : Option StoredTarget → Result Error Text
addr_or_fail none = err no_targets
addr_or_fail (some target) = ok target.addr

module _ {A I : Type 0} (net : Net A I) where
  -- What is stored once the daemon at the address has answered.
  unfoldable pub connect_command : Text → Option Text → Option Text → Registry → Registry
  unfolding chosen_name connect normalize_registry normalize_connect_addr
  connect_command value requested_name discovered stored =
      let addr = normalize_connect_addr net value in
      let registry = normalize_registry stored in
      normalize_registry
        (connect (chosen_name addr requested_name discovered registry) addr registry)

  unfoldable pub find_target_index_by_addr : Registry → Text → Result Error (Option ℕ)
  unfolding normalize_target_addr position
  find_target_index_by_addr registry selector = do
    normalized ← normalize_target_addr net selector
    ok (position (has_addr normalized) registry.targets)

  abbrev selected_index : Option Text → Registry → Result Error (Option ℕ)
  selected_index none registry = ok (primary_target_index registry)
  selected_index (some selector) registry = find_target_index_by_addr registry selector

  unfoldable pub disconnect_command : Option Text → Registry → Result Error Registry
  unfolding find_target_index_by_addr disconnect normalize_registry primary_target_index
  disconnect_command name stored = do
    let registry = normalize_registry stored
    selected ← selected_index name registry
    index ← target_or_fail selected
    left ← target_or_fail (disconnect index registry)
    ok (normalize_registry left)

  unfoldable pub resolve_target : Option Text → Registry → Result Error Text
  unfolding normalize_target_addr normalize_registry primary_target
  resolve_target (some value) stored = normalize_target_addr net value
  resolve_target none stored = addr_or_fail (primary_target (normalize_registry stored))
