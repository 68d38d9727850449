-- ===== src/Client/Commands/Connected.antt =====
-- What a connect leaves for the commands after it (crates/rsdb-cli/src/main.rs).
use rsdb.Base.{◌||◌, Option, none, some, any, ok, ◌≡◌, ap, ◌∙◌}
use rsdb.Base.Texts.{Text, text_eq}
use rsdb.Client.Addresses.{Net, normalize_connect_addr}
use rsdb.Client.Registry.{
  StoredTarget, Registry, has_addr, normalize_registry, connect, primary_target,
}
use rsdb.Client.Registry.Normal.{IsNormal, normalize_registry-IsNormal}
use rsdb.Client.Registry.Fixed.{normalize_registry-id}
use rsdb.Client.Registry.Connect.{connect-IsNormal}
use rsdb.Client.Commands.{chosen_name, connect_command, resolve_target, addr_or_fail}

module _ {A I : Type 0} (net : Net A I) where
  resolve_target-primary :
      (registry : Registry) (target : StoredTarget)
      → IsNormal registry
      → primary_target registry ≡ some target
      → resolve_target net none registry ≡ ok target.addr
  unfolding resolve_target
  resolve_target-primary registry target normal primary =
      ap (λ r. addr_or_fail (primary_target r)) (normalize_registry-id registry normal)
      ∙ ap (λ t. addr_or_fail t) primary

  connect_command-connect :
      (value : Text) (requested_name discovered : Option Text) (stored : Registry)
      → connect_command net value requested_name discovered stored
        ≡ connect
            (chosen_name
              (normalize_connect_addr net value)
              requested_name
              discovered
              (normalize_registry stored))
            (normalize_connect_addr net value)
            (normalize_registry stored)
  unfolding connect_command
  connect_command-connect value requested_name discovered stored =
      let addr = normalize_connect_addr net value in
      let registry = normalize_registry stored in
      let name = chosen_name addr requested_name discovered registry in
      normalize_registry-id (connect name addr registry)
        (connect-IsNormal name addr addr registry (normalize_registry-IsNormal stored)).0

  -- Whatever was stored, after connecting to an address the stored registry is normal, a command
  -- without a target goes to that address in its normal form, saved under the chosen name, and every
  -- other address is saved or not as it was.
  pub connect_command-resolves :
      (value other : Text) (requested_name discovered : Option Text) (stored : Registry)
      → IsNormal (connect_command net value requested_name discovered stored)
        × (resolve_target net none (connect_command net value requested_name discovered stored)
            ≡ ok (normalize_connect_addr net value))
        × (primary_target (connect_command net value requested_name discovered stored)
            ≡ some (record {
              name =
                  chosen_name
                    (normalize_connect_addr net value)
                    requested_name
                    discovered
                    (normalize_registry stored);
              addr = normalize_connect_addr net value;
            }))
        × (any (has_addr other) (connect_command net value requested_name discovered stored).targets
            ≡ (any (has_addr other) (normalize_registry stored).targets
                || text_eq (normalize_connect_addr net value) other))
  connect_command-resolves value other requested_name discovered stored =
      let addr = normalize_connect_addr net value in
      let registry = normalize_registry stored in
      let name = chosen_name addr requested_name discovered registry in
      let (normal, primary, others) =
        connect-IsNormal name addr other registry (normalize_registry-IsNormal stored) in
      rw (connect_command-connect value requested_name discovered stored) (
        normal,
        resolve_target-primary (connect name addr registry) _ normal primary,
        primary,
        others,
      )
