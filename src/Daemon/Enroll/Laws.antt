-- ===== src/Daemon/Enroll/Laws.antt =====
-- What an enrolment that succeeds leaves on the disk.
use ziti_ssh.Prelude.{
  ◌≡◌, refl, ap, sym, List, [], if◌then◌else◌, Option, some, Result, ok, err, arith, subst,
}
use ziti_ssh.Text.{Text, text_eq}
use ziti_ssh.Dict.{lookup}
use ziti_ssh.Disk.{Disk, Run}
use ziti_ssh.Config.AtomicWrite.{WriteError, atomic_write_file}
use ziti_ssh.Config.AtomicWrite.Laws.{FreshTemp, atomic_write_file_done}
use ziti_ssh.Host.Sshd.{sshd_conf, sshd_mode, write_ssh_config}
use ziti_ssh.Host.Sshd.Files.{FreshTemps, write_ssh_config_done}
use ziti_ssh.Trust.Cluster.{Network, ClusterCa, EnrollmentClaims, cluster_cas_to_bytes}
use ziti_ssh.Daemon.Enroll.{
  ZitiConfig, EnrollError, EnrollCalls, Enrolled, identity_mode, begin_enroll, enrolled_cas, stop,
  reloading, configure, trust, identified, run_enroll,
}

module _ (N : Network) (parse_token : Text → Option EnrollmentClaims)
    (enroll : EnrollmentClaims → Option ZitiConfig) (append_certs : Text → Option N.Pool)
    (c : EnrollCalls) (identity_file conf_path key_path : Text) where
  -- The identity file, the snippet and the key file are in place; all else is as it was.
  abbrev pub AllWritten : Text → List ClusterCa → Disk → Disk → Type 0
  AllWritten json cas d d' =
      (k : Text)
      → lookup k d' ≡ (
          if text_eq conf_path k
          then some (record { content = sshd_conf key_path; mode = sshd_mode })
          else if text_eq key_path k
          then some (record { content = cluster_cas_to_bytes cas; mode = sshd_mode })
          else if text_eq identity_file k
          then some (record { content = json; mode = identity_mode })
          else lookup k d)

  abbrev with_identity : Text → Disk → Run WriteError
  with_identity json d = atomic_write_file c.identity_calls identity_file json identity_mode d

  abbrev pub AllFresh : Disk → Type 0
  AllFresh d =
      FreshTemp c.identity_calls identity_file [] identity_mode d
      × ((json body : Text)
          → FreshTemps c.sshd_calls body conf_path key_path (with_identity json d).disk)

  configured :
      (cas : List ClusterCa) (d : Disk)
      → (configure N parse_token enroll append_certs c conf_path key_path cas d).result ≡ ok tt
      → let r = write_ssh_config c.sshd_calls (cluster_cas_to_bytes cas) conf_path key_path d in
        (r.0 ≡ ok tt)
        × ((configure N parse_token enroll append_certs c conf_path key_path cas d).disk ≡ r.1)
  unfolding configure stop reloading
  configured cas d h = ground (arith, h)

  abbrev pub IsEnrolled : Disk → Disk → Type 0
  IsEnrolled d d' =
      (token : EnrollmentClaims) × (cfg : ZitiConfig) × (json : Text) × (cas : List ClusterCa)
      × ((begin_enroll N parse_token enroll append_certs c ≡ ok (token, cfg, json))
          × (enrolled_cas N parse_token enroll append_certs token cfg ≡ ok cas)
          × AllWritten json cas d d')

  abbrev end_of : Result EnrollError (EnrollmentClaims × ZitiConfig × Text) → Disk → Enrolled
  end_of = identified N parse_token enroll append_certs c identity_file conf_path key_path

  abbrev trusting : Result EnrollError (List ClusterCa) → Disk → Enrolled
  trusting = trust N parse_token enroll append_certs c conf_path key_path

  -- what went before, if the end was reached
  identified_ok :
      (token : EnrollmentClaims) (cfg : ZitiConfig) (json : Text) (d : Disk)
      → (end_of (ok (token, cfg, json)) d).result ≡ ok tt
      → ((with_identity json d).result ≡ ok tt)
        × (end_of (ok (token, cfg, json)) d
            ≡ trusting
                (enrolled_cas N parse_token enroll append_certs token cfg)
                (with_identity json d).disk)
  unfolding identified stop
  identified_ok token cfg json d h = ground (arith, h)

  trusted_ok :
      (json : Text) (d : Disk) (r : Result EnrollError (List ClusterCa))
      → AllFresh d
      → (with_identity json d).result ≡ ok tt
      → (trusting r (with_identity json d).disk).result ≡ ok tt
      → (cas : List ClusterCa) × ((r ≡ ok cas)
          × AllWritten json cas d (trusting r (with_identity json d).disk).disk)
  unfolding trust stop
  trusted_ok json d (err e) fresh w h = absurd (ground (arith, h))
  trusted_ok json d (ok cas) fresh w h =
      let d' = (with_identity json d).disk in
      let conf = configured cas d' h in
      (
        cas,
        (
          refl,
          (λ k. ground (
            arith,
            ap (lookup k) conf.1,
            write_ssh_config_done c.sshd_calls (cluster_cas_to_bytes cas) conf_path key_path d' k
                (fresh.1 json (cluster_cas_to_bytes cas)) conf.0,
            atomic_write_file_done c.identity_calls identity_file json identity_mode d k fresh.0 w,
          )),
        ),
      )

  end_of_ok :
      (d : Disk) (r : Result EnrollError (EnrollmentClaims × ZitiConfig × Text))
      → AllFresh d
      → begin_enroll N parse_token enroll append_certs c ≡ r
      → (end_of r d).result ≡ ok tt
      → IsEnrolled d (end_of r d).disk
  end_of_ok d (err e) fresh begun h = absurd (unfold identified stop in ground (arith, h))
  end_of_ok d (ok (token, cfg, json)) fresh begun h =
      let (w, same) = identified_ok token cfg json d h in
      let cas_of = enrolled_cas N parse_token enroll append_certs token cfg in
      let (cas, (found, written)) =
        trusted_ok json d cas_of fresh w (subst (λ x. x.result ≡ ok tt) same h) in
      (
        token,
        cfg,
        json,
        cas,
        (begun, found, subst (λ x. AllWritten json cas d x.disk) (sym same) written),
      )

  -- An enrolment without an error has enrolled the host by its token, and leaves three files: the
  -- identity with mode 0600, sshd's snippet, and the key file with the keys collected from the
  -- token's controllers. No other file has changed, if the temporary names were free and are not
  -- their destinations.
  pub run_enroll_done :
      (d : Disk)
      → AllFresh d
      → (run_enroll N parse_token enroll append_certs c identity_file conf_path key_path d).result
        ≡ ok tt
      → IsEnrolled d
          (run_enroll N parse_token enroll append_certs c identity_file conf_path key_path d).disk
  unfolding run_enroll
  run_enroll_done d fresh h =
      end_of_ok d (begin_enroll N parse_token enroll append_certs c) fresh refl h
