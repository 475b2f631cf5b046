-- ===== src/Daemon/Enroll.antt =====
-- runEnroll and buildCAPool of cmd/ziti-ssh-host/main.go: from a token to the files and the reload.
-- The SDK's parser and enrolment, and the parser of certificates, are parameters.
pub mod Laws
use ziti_ssh.Prelude.{
  ℕ, ◌≡◌, ◌≢◌, inl, inr, refl, ap, ◌∙◌, Bool, true, false, not, List, [], ◌∷◌, if◌then◌else◌,
  Option, none, some, Result, ok, err, arith, Option-cases, Result-cases,
}
use ziti_ssh.Text.{Text, codes, text_eq, is_empty}
use ziti_ssh.Text.Trim.{trim_space}
use ziti_ssh.Dict.{lookup}
use ziti_ssh.Disk.{Disk, File, Run}
use ziti_ssh.Config.AtomicWrite.{Calls, WriteError, atomic_write_file}
use ziti_ssh.Config.AtomicWrite.Laws.{FreshTemp, atomic_write_file_done}
use ziti_ssh.Host.Sshd.{
  SshdCalls, SshdError, Command, ReloadError, reload_sshd, sshd_conf, sshd_mode, write_ssh_config,
}
use ziti_ssh.Host.Sshd.Files.{FreshTemps, write_ssh_config_done}
use ziti_ssh.Trust.Cluster.{
  Network, CaError, ClusterCa, EnrollmentClaims, trim_prefix, controllers_from_token,
  collect_cluster_cas, cluster_cas_to_bytes,
}

-- ziti.Config: cfg.ID.CA, and what json.Marshal gives for all of it
pub record ZitiConfig : Type 0 where
  pub ca : Text
  pub json : Option Text

pub data EnrollError : Type 0 where
  no_jwt bad_jwt not_enrolled no_identity_dir not_marshalled empty_ca bad_ca : EnrollError
  identity_not_written : WriteError → EnrollError
  not_collected : CaError → EnrollError
  not_configured : SshdError → EnrollError
  not_reloaded : ReloadError → EnrollError

abbrev pub identity_mode : ℕ
identity_mode = 0o600

-- What the calls on the machine answer.
pub record EnrollCalls : Type 0 where
  pub read_jwt : Option Text
  pub make_dir : Bool
  pub identity_calls : Calls
  pub sshd_calls : SshdCalls
  pub answers : Command → Bool

-- the end of a run: its result, the disk, and the commands
pub record Enrolled : Type 0 where
  pub result : Result EnrollError (Unit {0})
  pub disk : Disk
  pub commands : List Command

module _ (N : Network) (parse_token : Text → Option EnrollmentClaims)
    (enroll : EnrollmentClaims → Option ZitiConfig) (append_certs : Text → Option N.Pool) where
  unfoldable pub build_ca_pool : ZitiConfig → Result EnrollError N.Pool
  build_ca_pool cfg =
      let pem = trim_prefix cfg.ca (codes "pem:") in
      if is_empty pem
      then err empty_ca
      else elim (append_certs pem) [ none ↦ err bad_ca | some pool ↦ ok pool ]

  -- the token's claims, and the configuration and its text
  unfoldable pub begin_enroll :
      EnrollCalls → Result EnrollError (EnrollmentClaims × ZitiConfig × Text)
  begin_enroll c = elim c.read_jwt [
    | none ↦ err no_jwt
    | some jwt ↦ elim (parse_token (trim_space jwt)) [
      | none ↦ err bad_jwt
      | some token ↦ elim (enroll token) [
        | none ↦ err not_enrolled
        | some cfg ↦
            if c.make_dir
            then elim cfg.json [ none ↦ err not_marshalled | some json ↦ ok (token, cfg, json) ]
            else err no_identity_dir
      ]
    ]
  ]

  -- the keys that the new host is to trust
  unfoldable pub enrolled_cas : EnrollmentClaims → ZitiConfig → Result EnrollError (List ClusterCa)
  enrolled_cas token cfg = elim (build_ca_pool cfg) [
    | err e ↦ err e
    | ok pool ↦ elim (collect_cluster_cas N (some pool) (controllers_from_token token)) [
      | err e ↦ err (not_collected e)
      | ok cas ↦ ok cas
    ]
  ]

  unfoldable pub stop : EnrollError → Disk → Enrolled
  stop e d = record { result = err e; disk = d; commands = [] }

  unfoldable pub reloading : (Command → Bool) → Disk → Enrolled
  reloading answers d = record {
    result = elim (reload_sshd answers).0 [ ok u ↦ ok u | err e ↦ err (not_reloaded e) ];
    disk = d;
    commands = (reload_sshd answers).1;
  }

  -- steps 6 and 7
  unfoldable pub configure : EnrollCalls → Text → Text → List ClusterCa → Disk → Enrolled
  unfolding stop reloading
  configure c conf_path key_path cas d =
      let (r, d') = write_ssh_config c.sshd_calls (cluster_cas_to_bytes cas) conf_path key_path d in
      elim r [ err e ↦ stop (not_configured e) d' | ok u ↦ reloading c.answers d' ]

  -- steps 4 and 5
  unfoldable pub trust :
      EnrollCalls → Text → Text → Result EnrollError (List ClusterCa) → Disk → Enrolled
  unfolding configure stop
  trust c conf_path key_path (err e) d = stop e d
  trust c conf_path key_path (ok cas) d = configure c conf_path key_path cas d

  unfoldable pub identified :
      EnrollCalls
      → (identity_file conf_path key_path : Text)
      → Result EnrollError (EnrollmentClaims × ZitiConfig × Text)
      → Disk
      → Enrolled
  unfolding trust stop
  identified c identity_file conf_path key_path (err e) d = stop e d
  identified c identity_file conf_path key_path (ok (token, cfg, json)) d =
      let w = atomic_write_file c.identity_calls identity_file json identity_mode d in
      elim w.result [
        | err e ↦ stop (identity_not_written e) w.disk
        | ok u ↦ trust c conf_path key_path (enrolled_cas token cfg) w.disk
      ]

  unfoldable pub run_enroll :
      EnrollCalls → (identity_file conf_path key_path : Text) → Disk → Enrolled
  unfolding identified
  run_enroll c identity_file conf_path key_path d =
      identified c identity_file conf_path key_path (begin_enroll c) d
