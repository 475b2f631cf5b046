-- ===== src/Daemon/Inspect.antt =====
-- printPermissionsTable and printGlobalFallbacks of cmd/ziti-ssh-host/main.go: the rows that the
-- inspect command prints. `pad` is fmt's %-*s.
use ziti_ssh.Prelude.{
  ℕ, zero, suc, ◌-◌, ◌≡◌, refl, ap, ◌∙◌, List, [], ◌∷◌, ◌++◌, if◌then◌else◌, Option, none, some,
  arith, map, length,
}
use ziti_ssh.Text.{Text, codes, is_empty, text_eq_refl}
use ziti_ssh.Text.Split.{join}
use ziti_ssh.Dict.{Dict, lookup, keys, Distinct}
use ziti_ssh.Ca.Username.{derive_username}
use ziti_ssh.Host.Permissions.{IdentityPermissions, PermissionsConfig}
use ziti_ssh.Trust.Keys.{sort_strings, reverse_onto}
use ziti_ssh.Trust.Keys.Sorting.{occurrences}
use ziti_ssh.Trust.Keys.Sets.{sorted_same}

unfoldable spaces : ℕ → Text
spaces zero = []
spaces (suc n) = b' ' ∷ spaces n

unfoldable pad : ℕ → Text → Text
unfolding spaces
pad n s = s ++ spaces (n - length s)

unfoldable or_none : Text → Text → Text
or_none missing s = if is_empty s then missing else s

unfoldable groups_text : Text → List Text → Text
groups_text missing [] = missing
groups_text missing (g ∷ gs) = join (codes ", ") (g ∷ gs)

abbrev gap : Text
gap = codes "  "

abbrev row : Text → Text → Text → Text → Text
row identity username groups sudoers =
    gap
    ++ (pad 21 identity
        ++ (gap ++ (pad 17 username ++ (gap ++ (pad 17 groups ++ (gap ++ sudoers))))))

abbrev dashes : ℕ → Text
dashes zero = []
dashes (suc n) = b'-' ∷ dashes n

abbrev header : List Text
header =
    row (codes "Identity") (codes "Linux username") (codes "Groups") (codes "Sudoers rule")
    ∷ row (dashes 21) (dashes 17) (dashes 17) (dashes 40)
    ∷ []

module _ (to_lower : ℕ → ℕ) where
  -- pc.Permissions[id], with the zero value for a key that is not there
  unfoldable entry_row : Text → Option IdentityPermissions → Text
  unfolding pad or_none groups_text
  entry_row id none = row id (derive_username to_lower id) (codes "(none)") (codes "(none)")
  entry_row id (some perms) =
      row id (derive_username to_lower id) (groups_text (codes "(none)") perms.groups)
        (or_none (codes "(none)") perms.sudoers_rule)

  unfoldable table_rows : Dict IdentityPermissions → List Text
  unfolding entry_row
  table_rows m = map (λ id. entry_row id (lookup id m)) (sort_strings (keys m))

  -- printPermissionsTable
  pub permissions_table : PermissionsConfig → List Text
  unfolding table_rows
  permissions_table pc = elim pc.permissions [
    | [] ↦ codes "  (no identity entries in config)" ∷ []
    | e ∷ es ↦ header ++ (table_rows (e ∷ es) ++ [] ∷ [])
  ]

  -- printGlobalFallbacks
  global_fallbacks : List Text → Text → List Text
  unfolding or_none groups_text
  global_fallbacks groups rule =
      (codes "  Global fallback groups:  " ++ groups_text (codes "(not set)") groups)
      ∷ (codes "  Global fallback sudoers: " ++ or_none (codes "(not set)") rule)
      ∷ []

  occurrences-keys :
      (z : Text) (m : Dict IdentityPermissions)
      → Distinct m
      → occurrences z (keys m) ≡ (elim (lookup z m) [ none ↦ 0 | some e ↦ 1 ])
  unfolding occurrences lookup
  occurrences-keys z [] h = refl
  occurrences-keys z ((k, e) ∷ m) h = ground (arith, h.0, occurrences-keys z m h.1, ap (λ o. o) h.0)

  rows_same :
      (m n : Dict IdentityPermissions) (ids : List Text)
      → ((k : Text) → lookup k m ≡ lookup k n)
      → map (λ id. entry_row id (lookup id m)) ids ≡ map (λ id. entry_row id (lookup id n)) ids
  rows_same m n [] same = refl
  rows_same m n (id ∷ ids) same =
      ground (arith, ap (entry_row id) (same id), rows_same m n ids same)

  table_rows_order :
      (m n : Dict IdentityPermissions)
      → Distinct m
      → Distinct n
      → ((k : Text) → lookup k m ≡ lookup k n)
      → table_rows m ≡ table_rows n
  unfolding table_rows
  table_rows_order m n d d' same =
      let counts : (z : Text) → occurrences z (keys m) ≡ occurrences z (keys n) =
        λ z. ground (arith, occurrences-keys z m d, occurrences-keys z n d', same z) in
      let sorted : sort_strings (keys m) ≡ sort_strings (keys n) =
        unfold sort_strings in ap (reverse_onto []) (sorted_same (keys m) (keys n) counts) in
      rows_same m n (sort_strings (keys m)) same
      ∙ ap (map (λ id. entry_row id (lookup id n))) sorted

  -- Two listings of one map, whose keys differ, print the same table.
  pub permissions_table_order :
      (m n : Dict IdentityPermissions)
      → Distinct m
      → Distinct n
      → ((k : Text) → lookup k m ≡ lookup k n)
      → permissions_table (record { permissions = m })
        ≡ permissions_table (record { permissions = n })
  unfolding permissions_table
  permissions_table_order [] [] d d' same = refl
  permissions_table_order [] ((k, e) ∷ n) d d' same =
      absurd (unfold lookup in ground (arith, same k, text_eq_refl k))
  permissions_table_order ((k, e) ∷ m) [] d d' same =
      absurd (unfold lookup in ground (arith, same k, text_eq_refl k))
  permissions_table_order (e ∷ m) (f ∷ n) d d' same =
      ap (λ rows. header ++ (rows ++ [] ∷ [])) (table_rows_order (e ∷ m) (f ∷ n) d d' same)
