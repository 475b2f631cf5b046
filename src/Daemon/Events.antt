-- ===== src/Daemon/Events.antt =====
-- What runProxy of cmd/ziti-ssh-host/main.go does in per-identity mode with its services: the
-- configs that it holds, and how they follow the events.
use ziti_ssh.Prelude.{
  ℕ, ◌≡◌, ◌⊎◌, inl, inr, ap, sym, Bool, List, [], ◌∷◌, Option, none, some, Result, ok, err, arith,
  All, Option-cases, Bool-cases, Result-cases, subst,
}
use ziti_ssh.Text.{Text, text_eq}
use ziti_ssh.Dict.{Dict, lookup, insert}
use ziti_ssh.Host.Permissions.{IdentityPermissions, PermissionsConfig, resolve}
use ziti_ssh.Host.Permissions.Entries.{resolve_entry}
use ziti_ssh.Trust.Loader.{
  LoadError, load_permissions_config, AllRules, NoCollision, load_permissions_config_ok, check_rule,
}

-- The SDK's answer for a service's config: `none` is a service without one.
abbrev pub Wire : Type 0
Wire = Option (Dict IdentityPermissions)

-- the configs of the services, which connections read
abbrev pub States : Type 0
States = Dict (Option PermissionsConfig)

-- the config that a load returns, which is nil with an error
unfoldable state_of : Result LoadError (Option PermissionsConfig) → Option PermissionsConfig
state_of (ok pc) = pc
state_of (err e) = none

module _ (to_lower : ℕ → ℕ) where
  -- the first load of a service
  unfoldable pub first_state : Wire → Option PermissionsConfig
  unfolding state_of
  first_state wire = state_of (load_permissions_config to_lower wire)

  unfoldable pub first_states : List (Text × Wire) → States
  unfolding first_state
  first_states [] = []
  first_states ((name, wire) ∷ rest) = (name, first_state wire) ∷ first_states rest

  -- the service-changed event: after an error the old config stays
  unfoldable reloaded : Text → Wire → States → States
  reloaded name wire states = elim (load_permissions_config to_lower wire) [
    | err e ↦ states
    | ok pc ↦ insert name pc states
  ]

  unfoldable pub service_changed : Text × Wire → States → States
  unfolding reloaded
  service_changed (name, wire) states = elim (lookup name states) [
    | none ↦ states
    | some old ↦ reloaded name wire states
  ]

  unfoldable pub after_events : List (Text × Wire) → States → States
  after_events [] states = states
  after_events (e ∷ es) states = after_events es (service_changed e states)

  -- A config that passed the checks of its load.
  abbrev pub IsLoaded : Option PermissionsConfig → Type 0
  IsLoaded none = Unit
  IsLoaded (some pc) = AllRules to_lower pc.permissions × NoCollision to_lower pc.permissions

  abbrev pub AllLoaded : States → Type 0
  AllLoaded = All λ e. IsLoaded e.1

  load-IsLoaded :
      (wire : Wire) (pc : Option PermissionsConfig)
      → load_permissions_config to_lower wire ≡ ok pc
      → IsLoaded pc
  load-IsLoaded wire none h = tt
  load-IsLoaded none (some pc) h = absurd (unfold load_permissions_config in ground (arith, h))
  load-IsLoaded (some wire) (some pc) h = load_permissions_config_ok to_lower wire pc h

  first_state-IsLoaded : (wire : Wire) → IsLoaded (first_state wire)
  unfolding first_state
  first_state-IsLoaded wire = elim (Result-cases (load_permissions_config to_lower wire)) [
    | inl (e, failed) ↦ subst IsLoaded (sym (ap state_of failed)) tt
    | inr (pc, loaded) ↦ subst IsLoaded (sym (ap state_of loaded)) (load-IsLoaded wire pc loaded)
  ]

  first_states-AllLoaded : (services : List (Text × Wire)) → AllLoaded (first_states services)
  unfolding first_states
  first_states-AllLoaded [] = tt
  first_states-AllLoaded ((name, wire) ∷ rest) =
      (first_state-IsLoaded wire, first_states-AllLoaded rest)

  insert-AllLoaded :
      (name : Text) (pc : Option PermissionsConfig) (states : States)
      → IsLoaded pc
      → AllLoaded states
      → AllLoaded (insert name pc states)
  unfolding insert
  insert-AllLoaded name pc [] h g = (h, tt)
  insert-AllLoaded name pc ((j, old) ∷ states) h g = elim (Bool-cases (text_eq j name)) [
    | inl e ↦
        let same : (name, pc) ∷ states ≡ insert name pc ((j, old) ∷ states) = ground (arith, e) in
        subst AllLoaded same (h, g.1)
    | inr n ↦
        let same : (j, old) ∷ insert name pc states ≡ insert name pc ((j, old) ∷ states) =
          ground (arith, n) in
        subst AllLoaded same (g.0, insert-AllLoaded name pc states h g.1)
  ]

  service_changed-AllLoaded :
      (e : Text × Wire) (states : States) → AllLoaded states → AllLoaded (service_changed e states)
  unfolding service_changed reloaded
  service_changed-AllLoaded (name, wire) states h = elim (Option-cases (lookup name states)) [
    | inl missing ↦ subst AllLoaded (ground (arith, missing)) h
    | inr (old, there) ↦ elim (Result-cases (load_permissions_config to_lower wire)) [
      | inl (e, failed) ↦ subst AllLoaded (ground (arith, there, failed)) h
      | inr (pc, loaded) ↦
          subst AllLoaded (ground (arith, there, loaded))
            (insert-AllLoaded name pc states (load-IsLoaded wire pc loaded) h)
    ]
  ]

  after_events-AllLoaded :
      (es : List (Text × Wire)) (states : States)
      → AllLoaded states
      → AllLoaded (after_events es states)
  unfolding after_events
  after_events-AllLoaded [] states h = h
  after_events-AllLoaded (e ∷ es) states h =
      after_events-AllLoaded es (service_changed e states) (service_changed-AllLoaded e states h)

  lookup-AllLoaded :
      (name : Text) (states : States) (pc : Option PermissionsConfig)
      → AllLoaded states
      → lookup name states ≡ some pc
      → IsLoaded pc
  unfolding lookup
  lookup-AllLoaded name [] pc h e = cc
  lookup-AllLoaded name ((j, old) ∷ states) pc h e = elim (Bool-cases (text_eq j name)) [
    | inl same ↦ subst IsLoaded (ground (arith, e, same)) h.0
    | inr other ↦ lookup-AllLoaded name states pc h.1 (ground (arith, e, other))
  ]

  -- A service's config, after any events since the start, passed the checks of its load: all of its
  -- rules are valid, and no two exact keys derive to one user. And the permissions that a connection
  -- of the service gets have a valid rule or none, unless they are the global ones.
  pub after_events-IsLoaded :
      (services es : List (Text × Wire)) (name : Text) (pc : PermissionsConfig)
      (path_match : Text → Text → Option Bool) (identity : Text) (groups : List Text) (rule : Text)
      → lookup name (after_events es (first_states services)) ≡ some (some pc)
      → let perms = resolve path_match (some pc) identity groups rule in
        (AllRules to_lower pc.permissions × NoCollision to_lower pc.permissions)
        × ((check_rule perms.sudoers_rule ≡ ok tt)
            ⊎ (perms ≡ record { groups = groups; sudoers_rule = rule }))
  after_events-IsLoaded services es name pc path_match identity groups rule e =
      let loaded =
        lookup-AllLoaded name (after_events es (first_states services)) (some pc)
          (after_events-AllLoaded es (first_states services) (first_states-AllLoaded services)) e in
      (
        loaded,
        resolve_entry (λ p. check_rule p.sudoers_rule ≡ ok tt) path_match identity pc groups rule
            loaded.0,
      )
