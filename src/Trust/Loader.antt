-- ===== src/Trust/Loader.antt =====
-- loadPermissionsConfig of cmd/ziti-ssh-host/main.go, after the SDK has decoded the service's
-- config: `wire` is that config, in the order in which the loops range over it.
use ziti_ssh.Prelude.{
  ℕ, ◌≡◌, ◌≢◌, ◌⊎◌, inl, inr, true, false, List, [], ◌∷◌, if◌then◌else◌, Option, none, some, Result,
  ok, err, arith, All,
}
use ziti_ssh.Text.{Text, is_empty}
use ziti_ssh.Dict.{Dict, lookup, insert, lookup-insert}
use ziti_ssh.Ca.Username.{derive_username}
use ziti_ssh.Host.Permissions.{IdentityPermissions, PermissionsConfig, is_glob}
use ziti_ssh.Host.Sudoers.{RuleError, validate_sudoers_rule}

pub data LoadError : Type 0 where
  bad_rule : Text → RuleError → LoadError
  collisions : List (Text × Text) → LoadError

unfoldable pub check_rule : Text → Result RuleError (Unit {0})
check_rule rule = if is_empty rule then ok tt else validate_sudoers_rule rule

-- the loop over the entries: the first bad rule ends it
unfoldable pub copy_entries :
    Dict IdentityPermissions
    → Dict IdentityPermissions
    → Result LoadError (Dict IdentityPermissions)
copy_entries [] pc = ok pc
copy_entries ((identity, entry) ∷ wire) pc =
    let rest = copy_entries wire (insert identity entry pc) in
    elim (check_rule entry.sudoers_rule) [ err e ↦ err (bad_rule identity e) | ok u ↦ rest ]

module _ (to_lower : ℕ → ℕ) where
  -- the loop over the copied entries, with the map `derived`: pairs that derive to one username
  unfoldable pub find_collisions : Dict IdentityPermissions → Dict Text → List (Text × Text)
  find_collisions [] derived = []
  find_collisions ((identity, entry) ∷ pc) derived =
      let uname = derive_username to_lower identity in
      let same = find_collisions pc derived in
      let grown = find_collisions pc (insert uname identity derived) in
      if is_glob identity
      then same
      else elim (lookup uname derived) [ none ↦ grown | some prev ↦ (prev, identity) ∷ same ]

  -- `none` is a service without such a config; the SDK's own errors are outside
  unfoldable pub load_permissions_config :
      Option (Dict IdentityPermissions) → Result LoadError (Option PermissionsConfig)
  load_permissions_config none = ok none
  load_permissions_config (some wire) = elim (copy_entries wire []) [
    | err e ↦ err e
    | ok pc ↦ elim (find_collisions pc []) [
      | [] ↦ ok (some (record { permissions = pc }))
      | c ∷ cs ↦ err (collisions (c ∷ cs))
    ]
  ]

  -- No exact key of the list derives to the name.
  abbrev NoneDerives : Text → Dict IdentityPermissions → Type 0
  NoneDerives uname = All λ e. is_glob e.0 ≡ false → derive_username to_lower e.0 ≢ uname

  -- No two exact keys derive to one username.
  abbrev pub NoCollision : Dict IdentityPermissions → Type 0
  NoCollision [] = Unit
  NoCollision (e ∷ pc) =
      (is_glob e.0 ≡ false → NoneDerives (derive_username to_lower e.0) pc) × NoCollision pc

  Unseen : Dict Text → Dict IdentityPermissions → Type 0
  Unseen derived =
      All λ e. is_glob e.0 ≡ false → lookup (derive_username to_lower e.0) derived ≡ none

  Unseen-insert :
      (u i : Text) (derived : Dict Text) (pc : Dict IdentityPermissions)
      → Unseen (insert u i derived) pc
      → NoneDerives u pc × Unseen derived pc
  unfolding Unseen
  Unseen-insert u i derived [] h = (tt, tt)
  Unseen-insert u i derived ((identity, entry) ∷ pc) h =
      let uname = derive_username to_lower identity in
      let rest = Unseen-insert u i derived pc h.1 in
      (
        ((λ exact. ground (arith, h.0 exact, lookup-insert u uname i derived)), rest.0),
        ((λ exact. ground (arith, h.0 exact, lookup-insert u uname i derived)), rest.1),
      )

  -- What the rest of the loop needs to have found, if the loop finds nothing at all.
  find_collisions-cons :
      (identity : Text) (entry : IdentityPermissions) (pc : Dict IdentityPermissions)
      (derived : Dict Text)
      → find_collisions ((identity, entry) ∷ pc) derived ≡ []
      → let uname = derive_username to_lower identity in
        ((is_glob identity ≡ true) × (find_collisions pc derived ≡ []))
        ⊎ ((is_glob identity ≡ false)
            × (lookup uname derived ≡ none)
            × (find_collisions pc (insert uname identity derived) ≡ []))
  unfolding find_collisions
  find_collisions-cons identity entry pc derived h = ground (arith, h)

  find_collisions_none :
      (pc : Dict IdentityPermissions) (derived : Dict Text)
      → find_collisions pc derived ≡ []
      → NoCollision pc × Unseen derived pc
  unfolding Unseen
  find_collisions_none [] derived h = (tt, tt)
  find_collisions_none ((identity, entry) ∷ pc) derived h =
      let uname = derive_username to_lower identity in
      elim (find_collisions-cons identity entry pc derived h) [
        | inl glob ↦
            let rest = find_collisions_none pc derived glob.1 in
            (
              ((λ exact. ground (arith, exact, glob.0)), rest.0),
              ((λ exact. ground (arith, exact, glob.0)), rest.1),
            )
        | inr exact ↦
            let rest = find_collisions_none pc (insert uname identity derived) exact.2 in
            let unseen = Unseen-insert uname identity derived pc rest.1 in
            (((λ e. unseen.0), rest.0), ((λ e. exact.1), unseen.1))
      ]

  abbrev pub AllRules : Dict IdentityPermissions → Type 0
  AllRules = All λ e. check_rule e.1.sudoers_rule ≡ ok tt

  AllRules-insert :
      (k : Text) (v : IdentityPermissions) (pc : Dict IdentityPermissions)
      → check_rule v.sudoers_rule ≡ ok tt
      → AllRules pc
      → AllRules (insert k v pc)
  unfolding insert
  AllRules-insert k v [] h g = (h, tt)
  AllRules-insert k v ((j, w) ∷ pc) h g = ground (arith, h, g, AllRules-insert k v pc h)

  copy_entries_rules :
      (wire pc pc' : Dict IdentityPermissions)
      → AllRules pc
      → copy_entries wire pc ≡ ok pc'
      → AllRules pc'
  unfolding copy_entries
  copy_entries_rules [] pc pc' g h = ground (arith, g, h)
  copy_entries_rules ((identity, entry) ∷ wire) pc pc' g h = ground (
    arith,
    h,
    AllRules-insert identity entry pc,
    copy_entries_rules wire (insert identity entry pc) pc',
  )

  loaded_entries :
      (wire : Dict IdentityPermissions) (pc : PermissionsConfig)
      → load_permissions_config (some wire) ≡ ok (some pc)
      → (copy_entries wire [] ≡ ok pc.permissions) × (find_collisions pc.permissions [] ≡ [])
  unfolding load_permissions_config
  loaded_entries wire pc h = ground (arith, h)

  -- A config that is loaded has only rules that pass the check, and no two exact keys that derive
  -- to one Linux username.
  pub load_permissions_config_ok :
      (wire : Dict IdentityPermissions) (pc : PermissionsConfig)
      → load_permissions_config (some wire) ≡ ok (some pc)
      → AllRules pc.permissions × NoCollision pc.permissions
  unfolding load_permissions_config
  load_permissions_config_ok wire pc h =
      let loaded = loaded_entries wire pc h in
      (
        copy_entries_rules wire [] pc.permissions tt loaded.0,
        (find_collisions_none pc.permissions [] loaded.1).0,
      )
