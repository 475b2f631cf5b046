-- ===== src/Tests/Enrolments.antt =====
-- An enrolment with one controller.
use ziti_ssh.Prelude.{◌≡◌, ◌≢◌, ◌∙◌, refl, subst, none, true, [], some, ok, Option, arith}
use ziti_ssh.Text.{Text, codes, text_dec, has_prefix}
use ziti_ssh.Text.Trim.{trim_space, trim_left, trim_right, is_space}
use ziti_ssh.Dict.{lookup, insert, remove}
use ziti_ssh.Disk.{Disk, rename}
use ziti_ssh.Config.AtomicWrite.{atomic_write_file, host_atomic_write_file}
use ziti_ssh.Host.Sshd.{write_ssh_config, write_conf, reload_sshd}
use ziti_ssh.Trust.Cluster.{
  EnrollmentClaims, controllers_from_token, trim_prefix, collect_cluster_cas, collect,
  int_ca_from_controller, int_ca_from_chain, find_cert, signs,
}
use ziti_ssh.Daemon.Enroll.{
  ZitiConfig, EnrollCalls, Enrolled, begin_enroll, enrolled_cas, build_ca_pool, run_enroll,
  identified, trust, configure, reloading,
}
use ziti_ssh.Daemon.Enroll.Laws.{AllFresh, IsEnrolled, run_enroll_done}
use ziti_ssh.Tests.Samples.{good_calls}
use ziti_ssh.Tests.Clusters.{small_network, key_bytes, key_line, issuer_of, chain_of, plain_url}

claims_of : Text → Option EnrollmentClaims
claims_of t = some (record { controllers = []; issuer = t })

config_of : EnrollmentClaims → Option ZitiConfig
config_of c = some (record { ca = codes "pem:c"; json = some (codes "j") })

any_pool : Text → Option (Unit {0})
any_pool t = some tt

abbrev calls : EnrollCalls
calls = record {
  read_jwt = some (codes "a1\n");
  make_dir = true;
  identity_calls = good_calls;
  sshd_calls = record {
    key_dir_ok = true;
    key_calls = good_calls;
    conf_dir_ok = true;
    conf_calls = good_calls;
  };
  answers = λ c. true;
}

abbrev done : Enrolled
done =
    run_enroll small_network claims_of config_of any_pool calls (codes "id") (codes "conf")
      (codes "key") []

done_ok : done.result ≡ ok tt
unfolding run_enroll identified begin_enroll claims_of config_of any_pool trust enrolled_cas
    build_ca_pool trim_prefix has_prefix controllers_from_token collect_cluster_cas collect
    int_ca_from_controller int_ca_from_chain find_cert signs configure write_ssh_config write_conf
    reloading reload_sshd atomic_write_file host_atomic_write_file trim_space trim_left trim_right
    is_space text_dec key_bytes key_line issuer_of chain_of plain_url
done_ok = refl

-- The temporary name is not the destination, and is free where "t" is.
free_name :
    (dest : Text) (d : Disk) (tmp : Text)
    → codes "t" ≢ dest
    → lookup (codes "t") d ≡ none
    → some (codes "t") ≡ some tmp
    → (tmp ≢ dest) × (lookup tmp d ≡ none)
free_name dest d tmp ne free e =
    let same : codes "t" ≡ tmp = ground (arith, e) in
    ((λ h. ne (same ∙ h)), subst (λ x. lookup x d ≡ none) same free)

identity_free :
    (json : Text)
    → lookup (codes "t") (atomic_write_file good_calls (codes "id") json 0o600 []).disk ≡ none
unfolding atomic_write_file lookup insert remove rename text_dec
identity_free json = refl

key_free :
    (json body : Text)
    → let d = (atomic_write_file good_calls (codes "id") json 0o600 []).disk in
      lookup (codes "t") (host_atomic_write_file good_calls (codes "key") body 0o644 d).disk ≡ none
unfolding atomic_write_file host_atomic_write_file lookup insert remove rename text_dec
key_free json body = refl

all_fresh :
    AllFresh small_network claims_of config_of any_pool calls
      (codes "id")
      (codes "conf")
      (codes "key")
      []
all_fresh = (
  (λ tmp e. free_name (codes "id") [] tmp (ground arith) (unfold lookup in refl) e),
  (λ json body. (
    (λ tmp e. free_name (codes "key") _ tmp (ground arith) (identity_free json) e),
    (λ tmp e. free_name (codes "conf") _ tmp (ground arith) (key_free json body) e),
  )),
)

run_enroll_done_example :
    IsEnrolled small_network claims_of config_of any_pool calls
      (codes "id")
      (codes "conf")
      (codes "key")
      []
      done.disk
run_enroll_done_example =
    run_enroll_done small_network claims_of config_of any_pool calls (codes "id") (codes "conf")
      (codes "key") [] all_fresh done_ok
