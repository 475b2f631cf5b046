-- ===== src/Daemon/Settings.antt =====
-- resolveSshServices and parseGlobalGroups of cmd/ziti-ssh-host/main.go, and the checks of its run
-- and inspect commands.
use ziti_ssh.Prelude.{
  ℕ, ◌≡◌, ◌⊎◌, refl, ap, ◌∙◌, Bool, true, false, not, ◌&&◌, List, [], ◌∷◌, ◌==◌, if◌then◌else◌,
  Option, none, some, Result, ok, err, arith, All, length, ◌≤◌,
}
use ziti_ssh.Text.{Text, codes, text_eq, is_empty, Lacks}
use ziti_ssh.Text.Split.{split, join, split-join}
use ziti_ssh.Text.Trim.{trim_space}
use ziti_ssh.Config.Resolve.{env_or_flag}

-- a setting with commas: the parts are trimmed, and those that are then empty are dropped
unfoldable pub comma_parts : List Text → List Text
comma_parts [] = []
comma_parts (s ∷ ss) =
    let rest = comma_parts ss in if is_empty (trim_space s) then rest else trim_space s ∷ rest

abbrev default_ssh_service : Text
default_ssh_service = codes "ssh"

-- the named services, if there are any
unfoldable or_default_service : List Text → List Text
or_default_service [] = default_ssh_service ∷ []
or_default_service (s ∷ ss) = s ∷ ss

pub resolve_ssh_services : (env : Text → Text) → List Text → List Text
unfolding or_default_service
resolve_ssh_services env (f ∷ fs) = f ∷ fs
resolve_ssh_services env [] =
    let value = env (codes "ZITI_SSH_SERVICE") in
    if is_empty value
    then default_ssh_service ∷ []
    else or_default_service (comma_parts (split b',' value))

unfoldable pub parse_global_groups : (Text → Text) → List Text
parse_global_groups env =
    let raw = env (codes "ZITI_SSH_GROUPS") in
    if is_empty raw then [] else comma_parts (split b',' raw)

-- time.Duration, by its sign
pub record Duration : Type 0 where
  pub negative : Bool
  pub nanoseconds : ℕ

unfoldable pub is_positive : Duration → Bool
is_positive d = not d.negative && not (d.nanoseconds == 0)

pub data SettingsError : Type 0 where
  bad_mode bad_duration duration_not_positive no_service : SettingsError

-- What runProxy gets.
pub record RunSettings : Type 0 where
  pub identity_file : Text
  pub ssh_services : List Text
  pub per_identity : Bool
  pub ziti_timeout : Duration

pub record Flags : Type 0 where
  pub identity : Text
  pub ssh_services : List Text
  pub mode : Text
  pub ziti_timeout : Text
  pub services : List Text

abbrev default_identity_file : Text
default_identity_file = codes "/etc/ziti-ssh-host/identity.json"

module _ (env : Text → Text) (parse_duration : Text → Option Duration) where
  unfoldable check_timeout : Text → Result SettingsError Duration
  check_timeout flag =
      elim (parse_duration (env_or_flag env flag (codes "ZITI_TIMEOUT") (codes "30s"))) [
        | none ↦ err bad_duration
        | some d ↦ if is_positive d then ok d else err duration_not_positive
      ]

  unfoldable identity_file_of : Text → Text
  identity_file_of flag = env_or_flag env flag (codes "ZITI_IDENTITY") default_identity_file

  unfoldable settings_with :
      Flags → Bool → Result SettingsError Duration → Result SettingsError RunSettings
  unfolding identity_file_of
  settings_with flags per_identity (err e) = err e
  settings_with flags per_identity (ok timeout) = ok (record {
    identity_file = identity_file_of flags.identity;
    ssh_services = resolve_ssh_services env flags.ssh_services;
    per_identity = per_identity;
    ziti_timeout = timeout;
  })

  -- the run command
  pub run_settings : Flags → Result SettingsError RunSettings
  unfolding settings_with check_timeout
  run_settings flags =
      let mode = env_or_flag env flags.mode (codes "ZITI_SSH_MODE") (codes "shared") in
      if not (text_eq mode (codes "shared")) && not (text_eq mode (codes "per-identity"))
      then err bad_mode
      else settings_with flags (text_eq mode (codes "per-identity"))
          (check_timeout flags.ziti_timeout)

  -- the inspect command: the identity file, the services, the timeout
  unfoldable inspect_with :
      Flags → Result SettingsError Duration → Result SettingsError (Text × List Text × Duration)
  unfolding identity_file_of
  inspect_with flags (err e) = err e
  inspect_with flags (ok timeout) = elim flags.services [
    | [] ↦ err no_service
    | s ∷ ss ↦ ok (identity_file_of flags.identity, s ∷ ss, timeout)
  ]

  pub inspect_settings : Flags → Result SettingsError (Text × List Text × Duration)
  unfolding inspect_with check_timeout
  inspect_settings flags = inspect_with flags (check_timeout flags.ziti_timeout)

-- A part that is left as it is: trimmed, not empty and without commas.
abbrev pub IsPart : Text → Type 0
IsPart s = (trim_space s ≡ s) × (is_empty s ≡ false) × Lacks b',' s

All-lacks : (ss : List Text) → All IsPart ss → All (Lacks b',') ss
All-lacks [] h = tt
All-lacks (s ∷ ss) h = (h.0.2, All-lacks ss h.1)

comma_parts_same : (ss : List Text) → All IsPart ss → comma_parts ss ≡ ss
unfolding comma_parts
comma_parts_same [] h = refl
comma_parts_same (s ∷ ss) h =
    ground (arith, h.0.0, h.0.1, ap is_empty h.0.0, comma_parts_same ss h.1)

join-is_empty :
    (w : Text) (ws : List Text) → is_empty w ≡ false → is_empty (join (codes ",") (w ∷ ws)) ≡ false
unfolding join
join-is_empty [] ws h = cc
join-is_empty (c ∷ w) [] h = refl
join-is_empty (c ∷ w) (v ∷ ws) h = refl

comma_parts-join :
    (w : Text) (ws : List Text)
    → All IsPart (w ∷ ws)
    → comma_parts (split b',' (join (codes ",") (w ∷ ws))) ≡ w ∷ ws
comma_parts-join w ws h =
    ap comma_parts (split-join b',' w ws (All-lacks (w ∷ ws) h)) ∙ comma_parts_same (w ∷ ws) h

-- Names that are joined by commas in an environment variable are read back, as services where no
-- flag names one, and as groups; if they are trimmed, not empty and without commas.
pub comma_settings_lem :
    (env : Text → Text) (w : Text) (ws : List Text)
    → All IsPart (w ∷ ws)
    → (env (codes "ZITI_SSH_SERVICE") ≡ join (codes ",") (w ∷ ws)
        → resolve_ssh_services env [] ≡ w ∷ ws)
      × (env (codes "ZITI_SSH_GROUPS") ≡ join (codes ",") (w ∷ ws)
          → parse_global_groups env ≡ w ∷ ws)
unfolding resolve_ssh_services parse_global_groups
comma_settings_lem env w ws h =
    let read = comma_parts-join w ws h in
    let full = join-is_empty w ws h.0.1 in
    ((λ e. rw (e, full, read) refl), (λ e. rw (e, full, read) refl))

or_default_service_some : (ss : List Text) → 1 ≤ length (or_default_service ss)
unfolding or_default_service
or_default_service_some [] = omega arith
or_default_service_some (s ∷ ss) = omega arith

resolve_ssh_services_some :
    (env : Text → Text) (flags : List Text) → 1 ≤ length (resolve_ssh_services env flags)
unfolding resolve_ssh_services
resolve_ssh_services_some env (f ∷ fs) = omega arith
resolve_ssh_services_some env [] =
    ground
      (arith, or_default_service_some (comma_parts (split b',' (env (codes "ZITI_SSH_SERVICE")))))

-- Settings with which the proxy is started name at least one service and a timeout that is greater
-- than zero, and the mode is one of the two: per-identity, or shared.
pub run_settings_ok :
    (env : Text → Text) (parse_duration : Text → Option Duration) (flags : Flags) (r : RunSettings)
    → run_settings env parse_duration flags ≡ ok r
    → let mode = env_or_flag env flags.mode (codes "ZITI_SSH_MODE") (codes "shared") in
      (1 ≤ length r.ssh_services)
      × (is_positive r.ziti_timeout ≡ true)
      × ((r.per_identity ≡ true) × (mode ≡ codes "per-identity")
          ⊎ (r.per_identity ≡ false) × (mode ≡ codes "shared"))
unfolding run_settings settings_with check_timeout
run_settings_ok env parse_duration flags r h =
    ground (arith, h, resolve_ssh_services_some env flags.ssh_services)
