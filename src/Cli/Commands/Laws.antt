-- ===== src/Cli/Commands/Laws.antt =====
-- Where the settings of a command come from, and that the commands agree on them.
use ziti_ssh.Prelude.{◌≡◌, refl, false, List, [], ◌∷◌, if◌then◌else◌, ok, arith}
use ziti_ssh.Text.{Text, codes, is_empty}
use ziti_ssh.Config.Resolve.{env_or_flag, or_default, first_set, env_or_flag-or_default}
use ziti_ssh.Daemon.Settings.{Duration}
use ziti_ssh.Cli.Connect.{ConnectParams}
use ziti_ssh.Cli.Commands.{
  Config, GlobalFlags, AccessFlags, Access, Environment, connect_access, sign_access,
}
use ziti_ssh.Cli.Commands.Runs.{
  ConnectFlags, ProxyParams, ScpFlags, ScpParams, connect_params, connect_command, proxy_command,
  scp_command,
}
use ziti_ssh.Oidc.{default_callback_port}

module _ (x : Environment) (g : GlobalFlags) (f : AccessFlags) (cfg : Config)
    (timeout : Duration) where
  open x use {env}

  -- The settings are the first that is set of the flag, the variable, the config file and the
  -- built-in one; a key and an issuer have no variable, and a port no flag either.
  pub record IsResolved (a : Access) (ssh_service : Text) : Type 0 where
    pub identity :
        a.identity_file ≡ first_set (g.identity ∷ env (codes "ZITI_IDENTITY") ∷ cfg.identity ∷ [])
    pub named : is_empty a.identity_file ≡ false
    pub ca_service :
        a.ca_service
        ≡ first_set
            (f.ca_service ∷ env (codes "ZITI_CA_SERVICE") ∷ cfg.ca_service ∷ codes "ssh-ca" ∷ [])
    pub ssh :
        ssh_service
        ≡ first_set
            (f.ssh_service ∷ env (codes "ZITI_SSH_SERVICE") ∷ cfg.ssh_service ∷ codes "ssh" ∷ [])
    pub key : a.key_file ≡ first_set (f.key ∷ cfg.ssh_key_path ∷ [])
    pub issuer : a.oidc.issuer ≡ first_set (f.oidc_issuer ∷ cfg.oidc.issuer ∷ [])
    pub port :
        a.oidc.callback_port ≡ first_set (cfg.oidc.callback_port ∷ default_callback_port ∷ [])

  first_of_two : (v w : Text) → (if is_empty v then w else v) ≡ first_set (v ∷ w ∷ [])
  first_of_two v [] = refl
  first_of_two v (c ∷ w) = refl

  or_default_first : (v w : Text) → or_default v w ≡ first_set (v ∷ w ∷ [])
  unfolding or_default
  or_default_first [] [] = refl
  or_default_first [] (c ∷ w) = refl
  or_default_first (c ∷ v) w = refl

  env_or_flag_first : (v k w : Text) → env_or_flag env v k w ≡ first_set (v ∷ env k ∷ w ∷ [])
  unfolding env_or_flag
  env_or_flag_first v k [] = ground arith
  env_or_flag_first v k (c ∷ w) = ground arith

  connect_access-IsResolved :
      (a : Access) (ssh_service : Text)
      → connect_access x g f cfg timeout ≡ ok (a, ssh_service)
      → IsResolved a ssh_service
  unfolding connect_access
  connect_access-IsResolved a ssh_service h =
      let own = env_or_flag_first g.identity (codes "ZITI_IDENTITY") cfg.identity in
      let ca =
        env_or_flag-or_default env f.ca_service (codes "ZITI_CA_SERVICE") cfg.ca_service
          (codes "ssh-ca") in
      let host =
        env_or_flag-or_default env f.ssh_service (codes "ZITI_SSH_SERVICE") cfg.ssh_service
          (codes "ssh") in
      record {
        identity = ground (arith, h, own);
        named = ground (arith, h);
        ca_service = ground (arith, h, ca);
        ssh = ground (arith, h, host);
        key = ground (arith, h);
        issuer = ground (arith, h, or_default_first f.oidc_issuer cfg.oidc.issuer);
        port = ground (arith, h);
      }

  proxy_command-connect_access :
      (service target : Text) (p : ProxyParams)
      → proxy_command x g f service target cfg timeout ≡ ok p
      → connect_access x g f cfg timeout ≡ ok (p.access, p.ssh_service)
  unfolding proxy_command connect_access
  proxy_command-connect_access service target p h = ground (arith, h)

  scp_command-connect_access :
      (flags : ScpFlags) (first : Text) (rest : List Text) (p : ScpParams)
      → scp_command x g f flags first rest cfg timeout ≡ ok p
      → connect_access x g f cfg timeout ≡ ok (p.access, p.ssh_service)
  unfolding scp_command connect_access
  scp_command-connect_access flags first rest p h = ground (arith, h)

  connect_command-connect_access :
      (c : ConnectFlags) (target : Text) (command : List Text) (a : Access) (p : ConnectParams)
      → connect_command x g f c target command cfg timeout ≡ ok (a, p)
      → connect_access x g f cfg timeout ≡ ok (a, p.ssh_service)
  unfolding connect_command connect_params
  connect_command-connect_access c target command a p h = ground (arith, h)

  sign_access-connect_access :
      (a : Access)
      → f.oidc_issuer ≡ []
      → sign_access x g f.ca_service f.key cfg timeout ≡ ok a
      → (ssh_service : Text) × (connect_access x g f cfg timeout ≡ ok (a, ssh_service))
  unfolding sign_access connect_access or_default
  sign_access-connect_access a no_issuer h = (
    env_or_flag env f.ssh_service (codes "ZITI_SSH_SERVICE")
        (or_default cfg.ssh_service (codes "ssh")),
    ground (arith, h, no_issuer),
  )

  -- Whichever of connect, proxy and sign of ziti-ssh, or ziti-scp, runs with the same flags, variables
  -- and config file, it has these settings; for sign, if no issuer flag is given, which it lacks.
  pub commands-IsResolved :
      (c : ConnectFlags) (flags : ScpFlags) (service target : Text) (rest : List Text)
      → ((a : Access) (p : ConnectParams)
          → connect_command x g f c target rest cfg timeout ≡ ok (a, p)
          → IsResolved a p.ssh_service)
        × ((p : ProxyParams)
            → proxy_command x g f service target cfg timeout ≡ ok p
            → IsResolved p.access p.ssh_service)
        × ((p : ScpParams)
            → scp_command x g f flags target rest cfg timeout ≡ ok p
            → IsResolved p.access p.ssh_service)
        × ((a : Access)
            → f.oidc_issuer ≡ []
            → sign_access x g f.ca_service f.key cfg timeout ≡ ok a
            → (ssh_service : Text) × IsResolved a ssh_service)
  commands-IsResolved c flags service target rest = (
    (λ a p h.
        connect_access-IsResolved a p.ssh_service
          (connect_command-connect_access c target rest a p h)),
    (λ p h.
        connect_access-IsResolved p.access p.ssh_service
          (proxy_command-connect_access service target p h)),
    (λ p h.
        connect_access-IsResolved p.access p.ssh_service
          (scp_command-connect_access flags target rest p h)),
    (λ a e h.
        let (ssh_service, same) = sign_access-connect_access a e h in
        (ssh_service, connect_access-IsResolved a ssh_service same)),
  )
