-- ===== src/Cli/Commands/Runs.antt =====
-- The commands of cmd/ziti-ssh/main.go and the root command of cmd/ziti-scp/main.go: what each hands
-- to the function that does its work.
use ziti_ssh.Prelude.{Bool, List, [], ◌∷◌, if◌then◌else◌, none, some, Result, ok, err}
use ziti_ssh.Text.{Text, codes, is_empty}
use ziti_ssh.Text.Split.{join}
use ziti_ssh.Config.Resolve.{env_or_flag, or_default}
use ziti_ssh.Daemon.Settings.{Duration}
use ziti_ssh.Cli.Forwards.{parse_local_forward, parse_remote_forward, parse_dynamic_forward}
use ziti_ssh.Cli.Connect.{ConnectParams}
use ziti_ssh.Cli.Commands.{
  Config, CommandError, bad_forward, no_identity, GlobalFlags, AccessFlags, Access, Environment,
  connect_access, parse_each,
}
use ziti_ssh.Oidc.{default_callback_port}

-- The flags of connect alone.
pub record ConnectFlags : Type 0 where
  pub service : Text
  pub no_shell : Bool
  pub forward_agent : Bool
  pub local_forwards : List Text
  pub remote_forwards : List Text
  pub dynamic_proxies : List Text

-- What runProxy gets.
pub record ProxyParams : Type 0 where
  pub access : Access
  pub ssh_service : Text
  pub service : Text
  pub target : Text

-- The flags of ziti-scp alone.
pub record ScpFlags : Type 0 where
  pub recursive : Bool
  pub preserve : Bool
  pub quiet : Bool

-- What runSCP gets.
pub record ScpParams : Type 0 where
  pub access : Access
  pub ssh_service : Text
  pub flags : ScpFlags
  pub srcs : List Text
  pub dst : Text

-- args[:len(args)-1] and args[len(args)-1]
unfoldable pub last_apart : Text → List Text → List Text × Text
last_apart t [] = ([], t)
last_apart t (u ∷ us) = let (srcs, dst) = last_apart u us in (t ∷ srcs, dst)

module _ (x : Environment) where
  open x use {env}

  -- from the parsing of the forwards on
  unfoldable pub connect_params :
      ConnectFlags
      → Text
      → (target : Text) (command : List Text) → Result CommandError ConnectParams
  connect_params f ssh_service target command =
      elim (parse_each parse_local_forward f.local_forwards) [
        | none ↦ err bad_forward
        | some local_forwards ↦ elim (parse_each parse_remote_forward f.remote_forwards) [
          | none ↦ err bad_forward
          | some remote_forwards ↦ elim (parse_each parse_dynamic_forward f.dynamic_proxies) [
            | none ↦ err bad_forward
            | some dynamic_proxies ↦ ok (record {
              ssh_service = ssh_service;
              service = f.service;
              target = target;
              command = join (codes " ") command;
              no_shell = f.no_shell;
              forward_agent = f.forward_agent;
              local_forwards = local_forwards;
              remote_forwards = remote_forwards;
              dynamic_proxies = dynamic_proxies;
            })
          ]
        ]
      ]

  -- connectCmd, and the root command with arguments
  unfoldable pub connect_command :
      GlobalFlags
      → AccessFlags
      → ConnectFlags
      → (target : Text) (command : List Text) → Config
      → Duration
      → Result CommandError (Access × ConnectParams)
  connect_command g f c target command cfg timeout = elim (connect_access x g f cfg timeout) [
    | err e ↦ err e
    | ok (access, ssh_service) ↦ elim (connect_params c ssh_service target command) [
      | err e ↦ err e
      | ok p ↦ ok (access, p)
    ]
  ]

  -- proxyCmd
  unfoldable pub proxy_command :
      GlobalFlags
      → AccessFlags
      → (service target : Text) → Config
      → Duration
      → Result CommandError ProxyParams
  proxy_command g f service target cfg timeout =
      let identity_file = env_or_flag env g.identity (codes "ZITI_IDENTITY") cfg.identity in
      if is_empty identity_file
      then err no_identity
      else ok (record {
        access = record {
          identity_file = identity_file;
          ca_service =
              env_or_flag env f.ca_service (codes "ZITI_CA_SERVICE")
                (or_default cfg.ca_service (codes "ssh-ca"));
          key_file = if is_empty f.key then cfg.ssh_key_path else f.key;
          oidc = record {
            issuer = or_default f.oidc_issuer cfg.oidc.issuer;
            client_id = cfg.oidc.client_id;
            client_secret = cfg.oidc.client_secret;
            callback_port =
                if is_empty cfg.oidc.callback_port
                then default_callback_port
                else cfg.oidc.callback_port;
          };
          ziti_timeout = timeout;
        };
        ssh_service =
            env_or_flag env f.ssh_service (codes "ZITI_SSH_SERVICE")
              (or_default cfg.ssh_service (codes "ssh"));
        service = service;
        target = target;
      })

  -- the root command of ziti-scp, with two arguments or more
  unfoldable pub scp_command :
      GlobalFlags
      → AccessFlags
      → ScpFlags
      → (first : Text) (rest : List Text) → Config
      → Duration
      → Result CommandError ScpParams
  unfolding last_apart
  scp_command g f flags first rest cfg timeout =
      let identity_file = env_or_flag env g.identity (codes "ZITI_IDENTITY") cfg.identity in
      if is_empty identity_file
      then err no_identity
      else ok (record {
        access = record {
          identity_file = identity_file;
          ca_service =
              env_or_flag env f.ca_service (codes "ZITI_CA_SERVICE")
                (or_default cfg.ca_service (codes "ssh-ca"));
          key_file = if is_empty f.key then cfg.ssh_key_path else f.key;
          oidc = record {
            issuer = or_default f.oidc_issuer cfg.oidc.issuer;
            client_id = cfg.oidc.client_id;
            client_secret = cfg.oidc.client_secret;
            callback_port =
                if is_empty cfg.oidc.callback_port
                then default_callback_port
                else cfg.oidc.callback_port;
          };
          ziti_timeout = timeout;
        };
        ssh_service =
            env_or_flag env f.ssh_service (codes "ZITI_SSH_SERVICE")
              (or_default cfg.ssh_service (codes "ssh"));
        flags = flags;
        srcs = (last_apart first rest).0;
        dst = (last_apart first rest).1;
      })

  -- listCmd and the commands of mfa need an identity only
  unfoldable pub identity_command : GlobalFlags → Config → Result CommandError Text
  identity_command g cfg =
      let identity_file = env_or_flag env g.identity (codes "ZITI_IDENTITY") cfg.identity in
      if is_empty identity_file then err no_identity else ok identity_file
