-- ===== src/Tests/Connections.antt =====
-- One host, dialled to connect, to bridge and to copy.
use ziti_ssh.Prelude.{◌≡◌, refl, true, false, [], ok, none}
use ziti_ssh.Text.{codes, index_byte}
use ziti_ssh.Cli.Target.{local, parse_target}
use ziti_ssh.Cli.Copy.{ScpCalls, Transfer, connect, transfer}
use ziti_ssh.Cli.Connect.{
  ConnectParams, Connection, shell, session, has_forwards, run_connect, connection, dial_choice,
  open_on,
}

abbrev calls : ScpCalls
calls = record {
  key_ok = true;
  needs_refresh = false;
  sign_ok = false;
  signer_ok = true;
  context_ok = true;
  oidc_ok = true;
  authenticated = true;
  has_service = λ n. false;
  dial_ok = true;
}

abbrev params : ConnectParams
params = record {
  ssh_service = codes "ssh";
  service = [];
  target = codes "al@h";
  command = [];
  no_shell = true;
  forward_agent = false;
  local_forwards = [];
  remote_forwards = [];
  dynamic_proxies = [];
}

abbrev opened_shell : Connection
opened_shell = record {
  user = codes "al";
  host = codes "h";
  service = codes "ssh";
  terminator = codes "h";
  local_forwards = [];
  remote_forwards = [];
  dynamic_proxies = [];
  opened = shell false;
}

connects : run_connect calls none params ≡ ok opened_shell
unfolding run_connect parse_target index_byte connect connection dial_choice open_on has_forwards
    session
connects = refl

abbrev copied : Transfer
copied = transfer calls (codes "ssh") [] (local (codes "d")) (codes "h", codes "bo")
