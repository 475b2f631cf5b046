-- ===== src/Cli/Commands.antt =====
-- main of cmd/ziti-ssh/main.go and of cmd/ziti-scp/main.go: the config file, the settings that each
-- command takes from it, from its flags and from the environment, and what it then runs. The parsers
-- of flags, YAML and durations are parameters; filepath.Join gets directories that are clean.
pub mod Runs
pub mod Laws
use ziti_ssh.Prelude.{
  ℕ, ◌≡◌, Bool, true, false, not, List, [], ◌∷◌, if◌then◌else◌, Option, none, some, Result, ok, err,
  ◌>>=◌, ◌+◌,
}
use ziti_ssh.Text.{Text, codes, is_empty}
use ziti_ssh.Dict.{lookup}
use ziti_ssh.Disk.{Disk}
use ziti_ssh.Config.Resolve.{env_or_flag, or_default}
use ziti_ssh.Daemon.Settings.{Duration, is_positive}
use ziti_ssh.Oidc.{FlowParams, default_callback_port}
use ziti_ssh.Cli.Keys.{join_path}

pub record OidcConfig : Type 0 where
  pub issuer : Text
  pub client_id : Text
  pub client_secret : Text
  pub callback_port : Text

-- The config file. That of ziti-scp has a mode too, which nothing reads.
pub record Config : Type 0 where
  pub identity : Text
  pub ca_service : Text
  pub ssh_service : Text
  pub ssh_key_path : Text
  pub oidc : OidcConfig

abbrev pub empty_config : Config
empty_config = record {
  identity = [];
  ca_service = [];
  ssh_service = [];
  ssh_key_path = [];
  oidc = record { issuer = []; client_id = []; client_secret = []; callback_port = [] };
}

pub data CommandError : Type 0 where
  config_not_read config_not_parsed bad_timeout timeout_not_positive no_identity : CommandError
  bad_forward : CommandError

-- The flags of the root command.
pub record GlobalFlags : Type 0 where
  pub identity : Text
  pub config : Text
  pub ziti_timeout : Text

-- The flags that a command shares with others; sign has only the first and the key.
pub record AccessFlags : Type 0 where
  pub ca_service : Text
  pub ssh_service : Text
  pub key : Text
  pub oidc_issuer : Text

-- What every run gets to reach the overlay and the authority.
pub record Access : Type 0 where
  pub identity_file : Text
  pub ca_service : Text
  pub key_file : Text
  pub oidc : FlowParams
  pub ziti_timeout : Duration

-- os.Getenv, os.UserHomeDir, yaml.Unmarshal, time.ParseDuration, and whether a file can be read
pub record Environment : Type 0 where
  pub env : Text → Text
  pub home : Option Text
  pub parse_config : Text → Option Config
  pub parse_duration : Text → Option Duration
  pub can_read : Text → Bool

unfoldable pub home_dir : Option Text → Text
home_dir none = []
home_dir (some h) = h

module _ (x : Environment) where
  open x use {env, home, parse_config, parse_duration, can_read}

  -- a file that is not there is an empty config
  unfoldable pub load_config : Text → Disk → Result CommandError Config
  load_config cfg_path d = elim (lookup cfg_path d) [
    | none ↦ ok empty_config
    | some f ↦
        if not (can_read cfg_path)
        then err config_not_read
        else elim (parse_config f.content) [ none ↦ err config_not_parsed | some cfg ↦ ok cfg ]
  ]

  -- the directory that holds the directory of the program
  unfoldable pub config_base : Text
  unfolding home_dir
  config_base =
      let base = env (codes "XDG_CONFIG_HOME") in
      if is_empty base then join_path (home_dir home) (codes ".config") else base

  unfoldable pub default_config_path : Text
  default_config_path = join_path (join_path config_base (codes "ziti-ssh")) (codes "config.yaml")

  -- PersistentPreRunE of both programs
  unfoldable pub pre_run : GlobalFlags → Disk → Result CommandError (Config × Duration)
  pre_run g d =
      let cfg_path = if is_empty g.config then default_config_path else g.config in
      elim (load_config cfg_path d) [
        | err e ↦ err e
        | ok cfg ↦
            elim (parse_duration
              (env_or_flag env g.ziti_timeout (codes "ZITI_TIMEOUT") (codes "30s"))) [
                | none ↦ err bad_timeout
                | some t ↦ if is_positive t then ok (cfg, t) else err timeout_not_positive
              ]
      ]

  -- connectCmd, up to its target
  unfoldable pub connect_access :
      GlobalFlags → AccessFlags → Config → Duration → Result CommandError (Access × Text)
  connect_access g f cfg timeout =
      let identity_file = env_or_flag env g.identity (codes "ZITI_IDENTITY") cfg.identity in
      let ca_service =
        env_or_flag env f.ca_service (codes "ZITI_CA_SERVICE")
          (or_default cfg.ca_service (codes "ssh-ca")) in
      let ssh_service =
        env_or_flag env f.ssh_service (codes "ZITI_SSH_SERVICE")
          (or_default cfg.ssh_service (codes "ssh")) in
      let resolved_key = if is_empty f.key then cfg.ssh_key_path else f.key in
      let callback_port =
        if is_empty cfg.oidc.callback_port then default_callback_port else cfg.oidc.callback_port in
      if is_empty identity_file
      then err no_identity
      else ok (
        record {
          identity_file = identity_file;
          ca_service = ca_service;
          key_file = resolved_key;
          oidc = record {
            issuer = or_default f.oidc_issuer cfg.oidc.issuer;
            client_id = cfg.oidc.client_id;
            client_secret = cfg.oidc.client_secret;
            callback_port = callback_port;
          };
          ziti_timeout = timeout;
        },
        ssh_service,
      )

  -- signCmd: the config file alone names the issuer
  unfoldable pub sign_access :
      GlobalFlags
      → (ca_service_flag key_flag : Text) → Config
      → Duration
      → Result CommandError Access
  sign_access g ca_service_flag key_flag cfg timeout =
      let identity_file = env_or_flag env g.identity (codes "ZITI_IDENTITY") cfg.identity in
      if is_empty identity_file
      then err no_identity
      else ok (record {
        identity_file = identity_file;
        ca_service =
            env_or_flag env ca_service_flag (codes "ZITI_CA_SERVICE")
              (or_default cfg.ca_service (codes "ssh-ca"));
        key_file = if is_empty key_flag then cfg.ssh_key_path else key_flag;
        oidc = record {
          issuer = cfg.oidc.issuer;
          client_id = cfg.oidc.client_id;
          client_secret = cfg.oidc.client_secret;
          callback_port =
              if is_empty cfg.oidc.callback_port
              then default_callback_port
              else cfg.oidc.callback_port;
        };
        ziti_timeout = timeout;
      })

-- the loops over the repeated flags: the first that does not parse ends the command
unfoldable pub parse_each : {A : Type 0} → (Text → Option A) → List Text → Option (List A)
parse_each parse [] = some []
parse_each parse (t ∷ ts) = elim (parse t) [
  | none ↦ none
  | some a ↦ elim (parse_each parse ts) [ none ↦ none | some as_parsed ↦ some (a ∷ as_parsed) ]
]
