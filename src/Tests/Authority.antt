-- ===== src/Tests/Authority.antt =====
-- The certificate authority: one request that is signed, and the limiter's calls.
use ziti_ssh.Prelude.{ℕ, ◌*◌, ◌≡◌, refl, true, List, [], ◌∷◌}
use ziti_ssh.Text.{Text, codes, text_dec, index_byte}
use ziti_ssh.Text.Trim.{trim_space}
use ziti_ssh.RateLimit.{RateMap, new, allow}
use ziti_ssh.RateLimit.Isolation.{Call, allows, evicts}
use ziti_ssh.Ca.Username.{derive_username, is_digit, is_name_rune}
use ziti_ssh.Dict.{lookup}
use ziti_ssh.Ca.Username.Laws.{IsUsername, derive_username-IsUsername}
use ziti_ssh.Ca.Cert.{second, sign_cert}
use ziti_ssh.Ca.Conn.{
  edge_conn, Request, Served, Server, issued, handle_conn, read_line, caller_identity,
  effective_principal,
}
use ziti_ssh.Ca.Conn.Laws.{IsIssued, handle_conn-issued}
use ziti_ssh.Tests.Samples.{ascii_lower, text_ssh, two_tokens}

abbrev identity : Text
identity = codes "Al"

derive_username-IsUsername_example : IsUsername (derive_username ascii_lower identity)
derive_username-IsUsername_example = derive_username-IsUsername ascii_lower identity

abbrev server : Server text_ssh two_tokens ascii_lower
server = record {
  signer = codes "s";
  ca_pub_bytes = codes "ca";
  principal = codes "ziti";
  mode = codes "per-identity";
  cert_ttl = 28800 * second;
}

abbrev request : Request
request = record {
  caller = edge_conn identity [];
  deadline_ok = true;
  write_ok = true;
  input = codes "k\n";
  limiter_now = 0;
  signer_now = 5 * second;
}

abbrev no_limiters : RateMap ℕ
no_limiters = new 600

abbrev served : Served ℕ
served = handle_conn text_ssh two_tokens ascii_lower server request no_limiters

served_issued : served.ending ≡ issued
unfolding handle_conn caller_identity text_dec effective_principal derive_username is_digit
    is_name_rune read_line index_byte trim_space allow lookup new sign_cert
served_issued = refl

handle_conn-issued_example :
    IsIssued text_ssh two_tokens ascii_lower server request no_limiters served.written
handle_conn-issued_example =
    handle_conn-issued text_ssh two_tokens ascii_lower server request no_limiters served_issued

abbrev calls : List Call
calls =
    allows (codes "a") 1
    ∷ allows (codes "b") 2
    ∷ allows (codes "a") 3
    ∷ evicts 4
    ∷ allows (codes "b") 5
    ∷ allows (codes "a") 6
    ∷ []
