-- ===== src/Tests/Programs.antt =====
-- The client programs at concrete inputs: a run with a config file, a code in two blocks, the
-- signers of an agent, a session with an agent, an enrolment, and a login.
use ziti_ssh.Prelude.{
  Bool, Result, ℕ, ◌<◌, ◌≡◌, ◌≢◌, refl, ◌∙◌, subst, true, false, List, [], ◌∷◌, Option, none, some,
  ok, err, arith, length,
}
use ziti_ssh.Text.{Text, codes, text_dec}
use ziti_ssh.Text.Trim.{trim_space}
use ziti_ssh.Text.Split.{split}
use ziti_ssh.Dict.{lookup}
use ziti_ssh.Disk.{Disk}
use ziti_ssh.Daemon.Settings.{Duration}
use ziti_ssh.Config.AtomicWrite.Laws.{FreshTemp}
use ziti_ssh.Cli.Connect.{ConnectParams}
use ziti_ssh.Cli.Commands.{Config, GlobalFlags, AccessFlags, Access, Environment, sign_access}
use ziti_ssh.Cli.Commands.Runs.{
  ConnectFlags, ProxyParams, ScpFlags, ScpParams, connect_command, proxy_command, scp_command,
}
use ziti_ssh.Cli.Commands.Laws.{IsResolved, commands-IsResolved}
use ziti_ssh.Cli.Mfa.{read_mfa_code}
use ziti_ssh.Cli.Mfa.Laws.{concat, first_code, code_of, read_mfa_code_lem}
use ziti_ssh.Cli.Sign.{read_file}
use ziti_ssh.Cli.Enroll.{EnrollCalls, identity_mode, run_enroll}
use ziti_ssh.Cli.Enroll.Laws.{IsEnrolled, run_enroll_lem}
use ziti_ssh.Client.Signer.{needs_passphrase, SshKeys, SignerError, AgentCalls, new_cert_signer}
use ziti_ssh.Client.Signer.Laws.{HasSource, IsWrapped, new_cert_signer_lem}
use ziti_ssh.Client.Session.{SessionCalls, exit_status, run_session, run_command}
use ziti_ssh.Client.Session.Laws.{IsTidy, run_session-IsTidy}
use ziti_ssh.Oidc.{
  FlowParams, FlowError, PartySettings, FlowEvent, called_back, time_over, add_credentials,
}
use ziti_ssh.Oidc.Laws.{Added, is_over, add_credentials-Added}
use ziti_ssh.Tests.Samples.{good_calls}

-- Variables that are not set, and parsers that take everything.
abbrev plain_environment : Environment
plain_environment = record {
  env = λ k. [];
  home = some (codes "/home/al");
  parse_config = λ t. none;
  parse_duration = λ t. some (record { negative = false; nanoseconds = 30_000_000_000 });
  can_read = λ p. true;
}

abbrev global_flags : GlobalFlags
global_flags = record { identity = codes "al.json"; config = []; ziti_timeout = [] }

abbrev access_flags : AccessFlags
access_flags = record { ca_service = []; ssh_service = []; key = codes "id"; oidc_issuer = [] }

abbrev config : Config
config = record {
  identity = codes "other.json";
  ca_service = codes "ca";
  ssh_service = [];
  ssh_key_path = [];
  oidc = record { issuer = []; client_id = []; client_secret = []; callback_port = [] };
}

abbrev half_minute : Duration
half_minute = record { negative = false; nanoseconds = 30_000_000_000 }

abbrev connect_flags : ConnectFlags
connect_flags = record {
  service = [];
  no_shell = false;
  forward_agent = false;
  local_forwards = [];
  remote_forwards = [];
  dynamic_proxies = [];
}

abbrev scp_flags : ScpFlags
scp_flags = record { recursive = true; preserve = false; quiet = true }

commands-IsResolved_example :
    ((a : Access) (p : ConnectParams)
      → connect_command plain_environment global_flags access_flags connect_flags
          (codes "web")
          []
          config
          half_minute
        ≡ ok (a, p)
      → IsResolved plain_environment global_flags access_flags config half_minute a p.ssh_service)
    × ((p : ProxyParams)
        → proxy_command plain_environment global_flags access_flags
            (codes "ssh")
            (codes "web")
            config
            half_minute
          ≡ ok p
        → IsResolved plain_environment global_flags access_flags config half_minute p.access
            p.ssh_service)
    × ((p : ScpParams)
        → scp_command plain_environment global_flags access_flags scp_flags
            (codes "web")
            []
            config
            half_minute
          ≡ ok p
        → IsResolved plain_environment global_flags access_flags config half_minute p.access
            p.ssh_service)
    × ((a : Access)
        → access_flags.oidc_issuer ≡ []
        → sign_access plain_environment global_flags access_flags.ca_service access_flags.key config
            half_minute
          ≡ ok a
        → (ssh_service : Text) × IsResolved plain_environment global_flags access_flags config
            half_minute a ssh_service)
commands-IsResolved_example =
    commands-IsResolved plain_environment global_flags access_flags config half_minute connect_flags
      scp_flags (codes "ssh") (codes "web") []

-- An empty line, and a code that comes in two blocks.
abbrev blocks : List Text
blocks = codes "\n12" ∷ codes "34\n" ∷ []

read_mfa_code_lem_example :
    ((code : Text) (fuel : ℕ)
      → first_code (split b'\n' (concat blocks)) ≡ some code
      → length (concat blocks) < fuel
      → code_of (read_mfa_code fuel false blocks) ≡ some code)
    × (first_code (split b'\n' (concat blocks)) ≡ none
        → (fuel : ℕ) → read_mfa_code fuel false blocks ≡ none)
    × ((line : Text) (lines : List Text) (fuel : ℕ)
        → split b'\n' (concat blocks) ≡ line ∷ lines
        → 0 < fuel
        → code_of (read_mfa_code fuel true blocks) ≡ some (trim_space line))
read_mfa_code_lem_example = read_mfa_code_lem blocks

-- A key, a signer and a certificate are their texts; every key file has a passphrase.
abbrev text_keys : SshKeys
text_keys = record {
  Signer = Text;
  PublicKey = Text;
  Certificate = Text;
  parse_private = λ t. needs_passphrase;
  parse_authorized = λ t. some t;
  as_certificate = λ k. some k;
  marshal = λ k. k;
  certificate_key = λ c. c;
  public_key = λ s. s;
  cert_signer = λ c s. some c;
}

abbrev agent : AgentCalls Text
agent = record {
  can_read = λ p. true;
  socket = codes "/run/agent";
  dial_ok = true;
  signers = some (codes "a" ∷ codes "k" ∷ []);
}

abbrev keys : Disk
keys =
    (codes "id", record { content = codes "secret"; mode = 0o600 })
    ∷ (codes "id.pub", record { content = codes "k\n"; mode = 0o644 })
    ∷ []

new_cert_signer_lem_example :
    ((s : Text)
      → (new_cert_signer text_keys agent (codes "id") keys).0 ≡ ok s
      → (bare : Text) × (HasSource text_keys agent
            (codes "id")
            keys
            bare
            (new_cert_signer text_keys agent (codes "id") keys).1
          × IsWrapped text_keys agent (codes "id") keys bare s))
    × ((e : SignerError)
        → (new_cert_signer text_keys agent (codes "id") keys).0 ≡ err e
        → (new_cert_signer text_keys agent (codes "id") keys).1 ≡ false)
new_cert_signer_lem_example = new_cert_signer_lem text_keys agent (codes "id") keys

-- A session with an agent, whose shell ends with a status.
abbrev session_calls : SessionCalls
session_calls = record {
  handshake_ok = true;
  session_ok = true;
  agent_socket = codes "/run/agent";
  agent_dial_ok = true;
  register_ok = true;
  request_ok = true;
  size = none;
  raw_ok = true;
  pty_ok = true;
  shell_ok = true;
  waited = exit_status 3;
}

run_session-IsTidy_example :
    IsTidy session_calls (run_session true session_calls)
    × IsTidy session_calls (run_command (codes "ls") session_calls)
run_session-IsTidy_example = run_session-IsTidy true (codes "ls") session_calls

-- An enrolment whose directory cannot be made.
abbrev enroll_calls : EnrollCalls
enroll_calls = record { read_ok = true; make_dir = false; identity_calls = good_calls }

abbrev tokens : Disk
tokens = (codes "al.jwt", record { content = codes "token\n"; mode = 0o600 }) ∷ []

abbrev as_text : Text → Option Text
as_text t = some t

name_free : FreshTemp enroll_calls.identity_calls (codes "al.json") [] identity_mode tokens
name_free tmp e =
    let same : codes "t" ≡ tmp = ground (arith, e) in
    let free : lookup (codes "t") tokens ≡ none = unfold lookup text_dec in refl in
    let differs : codes "t" ≢ codes "al.json" = ground arith in
    ((λ h. differs (same ∙ h)), subst (λ x. lookup x tokens ≡ none) same free)

run_enroll_lem_example :
    let r =
      run_enroll as_text as_text as_text enroll_calls (codes "al.jwt") (codes "al.json") tokens in
    (r.result ≡ ok tt
      → IsEnrolled as_text as_text as_text enroll_calls (codes "al.jwt") (codes "al.json") tokens r)
    × (r.spent ≡ none → (r.disk ≡ tokens) × (r.result ≢ ok tt))
    × (enroll_calls.make_dir ≡ false
        → (r.disk ≡ tokens)
          × (r.result ≢ ok tt)
          × ((jwt token cfg : Text)
              → read_file enroll_calls.read_ok (codes "al.jwt") tokens ≡ some jwt
              → as_text (trim_space jwt) ≡ some token
              → as_text token ≡ some cfg
              → r.spent ≡ some token))
run_enroll_lem_example =
    run_enroll_lem as_text as_text as_text enroll_calls (codes "al.jwt") (codes "al.json") tokens
      name_free

abbrev flow_params : FlowParams
flow_params = record {
  issuer = codes "https://idp";
  client_id = codes "ziti";
  client_secret = [];
  callback_port = [];
}

-- A callback in time, and one after it.
abbrev flow_events : List FlowEvent
flow_events = called_back (codes "token") ∷ time_over ∷ called_back (codes "late") ∷ []

abbrev every_party : PartySettings → Bool
every_party settings = true

add_credentials-Added_example :
    ((r : Result FlowError (Unit {0})) (after : List Text)
      → add_credentials every_party true flow_params flow_events [] ≡ some (r, after)
      → Added true flow_params flow_events [] r after)
    × (is_over flow_events ≡ true
        → add_credentials every_party true flow_params flow_events [] ≢ none)
add_credentials-Added_example = add_credentials-Added every_party true flow_params flow_events []
