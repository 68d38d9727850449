-- ===== src/Client/Runs.antt =====
-- Concrete registries and feature lists, and the theorems about them at concrete inputs.
use rsdb.Base.{
  ◌≡◌, refl, ◌||◌, none, ok, err, pos, true, false, some, List, [], ◌∷◌, ◌++◌, any, inr,
}
use rsdb.Base.Texts.{Text, codes, decimal, contains, text_eq}
use rsdb.Client.Registry.{
  StoredTarget, Registry, has_addr, disconnect, normalize_registry, primary_target, dedupe,
  remove_addr, primary_target_index, position,
}
use rsdb.Client.Operations.{supported_agent_operations}
use rsdb.Client.Registry.Normal.{IsNormal, normalize_registry-IsNormal}
use rsdb.Client.Registry.Fixed.{normalize_registry-id}
use rsdb.Daemon.Error.{bail}
use rsdb.Client.Addresses.{Net, normalize_connect_addr, normalize_target_addr, has_port_suffix}
use rsdb.Client.Commands.{connect_command, resolve_target, chosen_name}
use rsdb.Client.Commands.Connected.{connect_command-resolves}
use rsdb.Client.Failures.{ClientError, elapsed, map_operation_error}
use rsdb.Client.Failures.Retry.{retryable_codes, map_operation_error-retryable}
use rsdb.Client.Registry.Disconnect.{disconnect-IsNormal}

abbrev saved : Text → Text → StoredTarget
saved name addr = record { name = name; addr = addr }

-- A file with one address twice, and a current target that is not there.
abbrev stale : Registry
stale = record {
  targets =
      saved (codes "tv") (codes "10.0.0.1:27101")
      ∷ saved (codes "desk") (codes "10.0.0.2:27101")
      ∷ saved (codes "new-tv") (codes "10.0.0.1:27101")
      ∷ [];
  current_target = some (codes "10.0.0.9:27101");
}

abbrev fresh : Registry
fresh = record {
  targets =
      saved (codes "desk") (codes "10.0.0.2:27101")
      ∷ saved (codes "new-tv") (codes "10.0.0.1:27101")
      ∷ [];
  current_target = some (codes "10.0.0.1:27101");
}

normalize-stale : normalize_registry stale ≡ fresh
unfolding normalize_registry dedupe remove_addr primary_target primary_target_index position
normalize-stale = refl

fresh-IsNormal : IsNormal fresh
fresh-IsNormal = ((refl, (refl, tt)), inr (codes "10.0.0.1:27101", refl, refl))

normalize_registry-IsNormal_example : IsNormal (normalize_registry stale)
normalize_registry-IsNormal_example = normalize_registry-IsNormal stale

normalize_registry-id_example : normalize_registry fresh ≡ fresh
normalize_registry-id_example = normalize_registry-id fresh fresh-IsNormal

abbrev late : ClientError
late = record { chain = elapsed ∷ []; text = codes "deadline has elapsed" }

-- A parser that knows no address of the standard library.
abbrev host_names : Net (Unit {0}) (Unit {0})
host_names = record {
  parse_socket = λ text. none;
  parse_ip = λ text. none;
  socket = λ ip port. tt;
  show_socket = λ addr. [];
  show_ip = λ ip. [];
  ip = λ addr. tt;
  port = λ addr. 0;
}

-- A host without a port gets the default one, and is no target without it.
tv-addr :
    normalize_connect_addr host_names (codes "tv") ≡ codes "tv" ++ (codes ":" ++ decimal 27101)
unfolding normalize_connect_addr has_port_suffix
tv-addr = refl

tv-target :
    normalize_target_addr host_names (codes "tv")
    ≡ err (bail (codes "target must be an address like <ip> or <ip>:<port>"))
unfolding normalize_target_addr has_port_suffix
tv-target = refl

connect_command-resolves_example :
    IsNormal (connect_command host_names (codes "tv") none (some (codes "TV")) stale)
    × (resolve_target host_names none
          (connect_command host_names (codes "tv") none (some (codes "TV")) stale)
        ≡ ok (normalize_connect_addr host_names (codes "tv")))
    × (primary_target (connect_command host_names (codes "tv") none (some (codes "TV")) stale)
        ≡ some (record {
          name =
              chosen_name
                (normalize_connect_addr host_names (codes "tv"))
                none
                (some (codes "TV"))
                (normalize_registry stale);
          addr = normalize_connect_addr host_names (codes "tv");
        }))
    × (any
          (has_addr (codes "10.0.0.1:27101"))
          (connect_command host_names (codes "tv") none (some (codes "TV")) stale).targets
        ≡ (any (has_addr (codes "10.0.0.1:27101")) (normalize_registry stale).targets
            || text_eq (normalize_connect_addr host_names (codes "tv")) (codes "10.0.0.1:27101")))
connect_command-resolves_example =
    connect_command-resolves host_names (codes "tv") (codes "10.0.0.1:27101") none
      (some (codes "TV")) stale

map_operation_error-retryable_example :
    ((map_operation_error (codes "exec") none late (codes "{1}") []).retryable
      ≡ contains retryable_codes
          (map_operation_error (codes "exec") none late (codes "{1}") []).code)
    × ((map_operation_error (codes "exec") none late (codes "{1}") []).details ≡ codes "{1}")
    × ((map_operation_error (codes "exec") none late (codes "{1}") []).exit_code ≡ pos 1)
map_operation_error-retryable_example =
    map_operation_error-retryable (codes "exec") none late (codes "{1}") []

disconnect-IsNormal_example :
    (after : Registry) × (disconnect 1 fresh ≡ some after)
    × IsNormal after
    × (any (has_addr (codes "10.0.0.1:27101")) after.targets ≡ false)
disconnect-IsNormal_example =
    disconnect-IsNormal 1 (saved (codes "new-tv") (codes "10.0.0.1:27101")) (codes "10.0.0.1:27101")
      fresh fresh-IsNormal refl

abbrev old_features : List Text
old_features = codes "exec.direct" ∷ codes "fs.push.batch" ∷ []

run_old_features :
    supported_agent_operations old_features true
    ≡ codes "discover" ∷ codes "exec" ∷ codes "exec.stream" ∷ codes "transfer.push" ∷ []
unfolding supported_agent_operations
run_old_features = refl
