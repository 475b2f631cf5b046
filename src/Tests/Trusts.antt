-- ===== src/Tests/Trusts.antt =====
-- Trusted keys and the permissions of a service.
use ziti_ssh.Prelude.{◌≡◌, ◌↔◌, refl, true, [], ◌∷◌, some, ok}
use ziti_ssh.Text.{Text, codes, text_dec}
use ziti_ssh.Dict.{Dict, lookup, insert}
use ziti_ssh.Ca.Username.{derive_username, is_digit, is_name_rune}
use ziti_ssh.Host.Permissions.{IdentityPermissions, PermissionsConfig, is_glob}
use ziti_ssh.Trust.Keys.{ssh_pub_key_sets_equal, non_empty_lines}
use ziti_ssh.Trust.Keys.Sorting.{occurrences}
use ziti_ssh.Trust.Keys.Sets.{ssh_pub_key_sets_equal_iff}
use ziti_ssh.Trust.Loader.{load_permissions_config, copy_entries, find_collisions, check_rule}
use ziti_ssh.Tests.Samples.{ascii_lower}

ssh_pub_key_sets_equal_iff_example :
    (ssh_pub_key_sets_equal (codes "b\na\n") (codes "a\n\nb") ≡ true) ↔ (
      (z : Text)
      → occurrences z (non_empty_lines (codes "b\na\n"))
        ≡ occurrences z (non_empty_lines (codes "a\n\nb")))
ssh_pub_key_sets_equal_iff_example = ssh_pub_key_sets_equal_iff (codes "b\na\n") (codes "a\n\nb")

abbrev no_rule : IdentityPermissions
no_rule = record { groups = []; sudoers_rule = [] }

abbrev wire : Dict IdentityPermissions
wire = (codes "A", no_rule) ∷ (codes "b", no_rule) ∷ (codes "*", no_rule) ∷ []

abbrev loaded : PermissionsConfig
loaded = record { permissions = wire }

wire_loads : load_permissions_config ascii_lower (some wire) ≡ ok (some loaded)
unfolding load_permissions_config copy_entries find_collisions check_rule derive_username is_digit
    is_name_rune lookup insert text_dec is_glob
wire_loads = refl
