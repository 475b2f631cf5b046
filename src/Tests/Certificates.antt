-- ===== src/Tests/Certificates.antt =====
-- The client and the authority together: a certificate that is issued, and a rate limit that ends
-- up in the certificate file.
use ziti_ssh.Prelude.{
  ℕ, ◌+◌, ◌*◌, ◌≡◌, ◌≢◌, ◌∙◌, refl, subst, true, false, Bool, [], ◌∷◌, some, none, ok, arith,
}
use ziti_ssh.Text.{Text, codes, text_dec, index_byte}
use ziti_ssh.Text.Trim.{trim_space, trim_left, trim_right, is_space}
use ziti_ssh.Dict.{lookup}
use ziti_ssh.Disk.{Disk, File}
use ziti_ssh.RateLimit.{Bucket, RateMap, new, allow}
use ziti_ssh.Config.AtomicWrite.{atomic_write_file}
use ziti_ssh.Ca.Username.{derive_username, is_digit, is_name_rune}
use ziti_ssh.Ca.Cert.{Ssh, Certificate, unix, second, user_certificate, sign_cert}
use ziti_ssh.Ca.Conn.{
  edge_conn, Request, Server, issued, limited, handle_conn, caller_identity, effective_principal,
  read_line, rate_message,
}
use ziti_ssh.Ca.Conn.Laws.{IsIssued}
use ziti_ssh.Trust.Cluster.Bytes.{IsLine}
use ziti_ssh.Cli.Keys.{derive_cert_path, trim_suffix, has_suffix}
use ziti_ssh.Cli.Sign.{
  SignCalls, Signing, cert_mode, first_line, read_file, sign_key, ask, store, written_result,
}
use ziti_ssh.Cli.Sign.Laws.{concat, CallsWork, sign_key-issued, sign_key-limited}
use ziti_ssh.Client.CertFile.{Parsed, unparsed, certificate, unix_to_internal, cert_needs_refresh}
use ziti_ssh.Client.CertFile.Laws.{ReadsBack, issued_no_refresh}
use ziti_ssh.Tests.Samples.{ascii_lower, good_calls}

-- All certificates print as one line.
abbrev line_ssh : Ssh
line_ssh = record {
  PublicKey = Text;
  Signer = Text;
  Signed = Certificate Text;
  sign = λ s c. some c;
  marshal_cert = λ c. codes "cert\n";
  marshal_key = λ k. k;
  parse_key = λ t. some t;
  contents = λ c. c;
}

cert-IsLine : (t : Certificate Text) → IsLine (line_ssh.marshal_cert t)
unfolding trim_space trim_left trim_right is_space
cert-IsLine t = (codes "cert", (refl, ground arith, refl, refl))

-- a limiter that gives a fixed answer
abbrev bucket : Bool → Bucket
bucket b = record { Limiter = ℕ; fresh = 0; take_token = λ now n. (n, b) }

abbrev server : (b : Bool) → Server line_ssh (bucket b) ascii_lower
server b = record {
  signer = codes "s";
  ca_pub_bytes = codes "ca";
  principal = codes "ziti";
  mode = codes "shared";
  cert_ttl = 28800 * second;
}

abbrev request : Request
request = record {
  caller = edge_conn (codes "Al") [];
  deadline_ok = true;
  write_ok = true;
  input = codes "k\n";
  limiter_now = 0;
  signer_now = 5 * second;
}

abbrev calls : Text → SignCalls
calls reply = record {
  read_ok = true;
  context_ok = true;
  oidc_ok = true;
  authenticated = true;
  dial_ok = true;
  send_ok = true;
  reply = reply;
  cert_calls = good_calls;
  show_ok = true;
}

abbrev home : Disk
home = (codes "id.pub", record { content = codes "k\n"; mode = 0o644 }) ∷ []

abbrev limiters : RateMap ℕ
limiters = new 600

abbrev run_of : Text → Signing
run_of reply = sign_key (calls reply) false (codes "id") home

cert_path : derive_cert_path (codes "id") ≡ codes "id-cert.pub"
unfolding derive_cert_path trim_suffix has_suffix text_dec
cert_path = refl

cert_issued :
    (handle_conn line_ssh (bucket true) ascii_lower (server true) request limiters).ending ≡ issued
unfolding handle_conn caller_identity text_dec effective_principal derive_username is_digit
    is_name_rune read_line index_byte trim_space allow lookup new sign_cert
cert_issued = refl

too_many :
    (handle_conn line_ssh (bucket false) ascii_lower (server false) request limiters).ending
    ≡ limited
unfolding handle_conn caller_identity text_dec effective_principal derive_username is_digit
    is_name_rune read_line index_byte trim_space allow lookup new sign_cert
too_many = refl

signed_ok : (run_of (codes "cert\n")).result ≡ ok tt
unfolding sign_key ask store written_result read_file first_line index_byte atomic_write_file
    trim_space trim_left trim_right is_space lookup text_dec
signed_ok = refl

name_free :
    (tmp : Text)
    → some (codes "t") ≡ some tmp
    → (tmp ≢ derive_cert_path (codes "id")) × (lookup tmp home ≡ none)
name_free tmp e =
    let same : codes "t" ≡ tmp = ground (arith, e) in
    let free : lookup (codes "t") home ≡ none = unfold lookup text_dec in refl in
    let differs : codes "t" ≢ codes "id-cert.pub" = ground arith in
    ((λ h. differs (same ∙ h ∙ cert_path)), subst (λ x. lookup x home ≡ none) same free)

sent_cert :
    codes "cert\n"
    ≡ concat (handle_conn line_ssh (bucket true) ascii_lower (server true) request limiters).written
unfolding handle_conn caller_identity text_dec effective_principal derive_username is_digit
    is_name_rune read_line index_byte trim_space allow lookup new sign_cert
sent_cert = refl

sent_message :
    rate_message
    ≡ concat
        (handle_conn line_ssh (bucket false) ascii_lower (server false) request limiters).written
unfolding handle_conn caller_identity text_dec effective_principal derive_username is_digit
    is_name_rune read_line index_byte trim_space allow lookup new sign_cert
sent_message = refl

sign_key-issued_example :
    (i : IsIssued line_ssh
      (bucket true)
      ascii_lower
      (server true)
      request
      limiters
      (handle_conn line_ssh (bucket true) ascii_lower (server true) request limiters).written)
    × (lookup (derive_cert_path (codes "id")) (run_of (codes "cert\n")).disk
        ≡ some (record { content = line_ssh.marshal_cert i.signed; mode = cert_mode }))
sign_key-issued_example =
    sign_key-issued (calls (codes "cert\n")) false (codes "id") home line_ssh (bucket true)
      ascii_lower (server true) request limiters cert-IsLine cert_issued sent_cert name_free
      signed_ok

all_work : CallsWork (calls rate_message) false (codes "id") home rate_message
all_work = record {
  bytes = codes "k\n";
  read = unfold read_file lookup text_dec in refl;
  full = unfold trim_space trim_left trim_right is_space in refl;
  dialled = refl;
  shown = refl;
  written = unfold atomic_write_file in refl;
}

sign_key-limited_example :
    ((run_of rate_message).result ≡ ok tt)
    × (lookup (derive_cert_path (codes "id")) (run_of rate_message).disk
        ≡ some (record { content = rate_message; mode = cert_mode }))
sign_key-limited_example =
    sign_key-limited (calls rate_message) false (codes "id") home line_ssh (bucket false)
      ascii_lower (server false) request limiters too_many sent_message name_free all_work

-- A certificate's text is its end, and a line end.
abbrev dated_ssh : Ssh
dated_ssh = record line_ssh { marshal_cert = λ c. c.valid_before ∷ b'\n' ∷ [] }

abbrev parse_dated : Text → Parsed (Unit {0})
parse_dated [] = unparsed
parse_dated (v ∷ t) = certificate v tt

dated-ReadsBack : ReadsBack dated_ssh parse_dated
dated-ReadsBack = record { signs = λ signer c t h. ground (arith, h); parses = λ t. (tt, refl) }

-- Signed five seconds after 1970 for eight hours.
abbrev dated_line : Text
dated_line = (5 + 28800) ∷ b'\n' ∷ []

abbrev dated_file : File
dated_file = record { content = dated_line; mode = 0o644 }

abbrev cert_disk : Disk
cert_disk = (codes "c", dated_file) ∷ []

abbrev client_now : ℕ
client_now = (unix_to_internal + 60) * second

dated :
    sign_cert dated_ssh
      (codes "s")
      (codes "k")
      (codes "al")
      (codes "ziti")
      (28800 * second)
      (5 * second)
    ≡ ok dated_line
unfolding sign_cert user_certificate unix
dated = refl

found : lookup (codes "c") cert_disk ≡ some dated_file
unfolding lookup text_dec
found = refl

issued_no_refresh_example : cert_needs_refresh parse_dated client_now (codes "c") cert_disk ≡ false
issued_no_refresh_example =
    issued_no_refresh dated_ssh parse_dated dated-ReadsBack (codes "s") (codes "k") (codes "al")
      (codes "ziti") dated_line (28800 * second) (5 * second) client_now (codes "c") cert_disk
      dated_file dated found refl (omega arith) (omega arith)
