-- ===== src/Tests/CommandLines.antt =====
-- The arguments of the commands.
use ziti_ssh.Prelude.{refl, ok, map, true, false, [], ◌≡◌, ◌∷◌, none}
use ziti_ssh.Text.{index_byte, codes}
use ziti_ssh.Cli.Copy.{
  ScpCalls, Transfer, run_scp, is_remote, plan_scp, check_sides, remote_side, connect, transfer,
  local_of, path_of, host_of, user_of, remote_count, all_on,
}
use ziti_ssh.Cli.Copy.Laws.{IsPlan, run_scp-IsPlan}
use ziti_ssh.Cli.Forwards.{LocalForwardSpec, loopback}
use ziti_ssh.Cli.Target.{split_user_host, parse_arg, remote_arg, is_host_part}

abbrev local_spec : LocalForwardSpec
local_spec = record {
  bind = loopback;
  local_port = codes "80";
  remote_host = codes "db";
  remote_port = codes "81";
}

abbrev calls : ScpCalls
calls = record {
  key_ok = true;
  needs_refresh = true;
  sign_ok = true;
  signer_ok = true;
  context_ok = true;
  oidc_ok = true;
  authenticated = true;
  has_service = λ h. false;
  dial_ok = true;
}

abbrev upload_one : Transfer
upload_one = record {
  upload = true;
  user = codes "al";
  host = codes "db";
  paths = codes "f" ∷ [];
  dest = codes "d";
  service = codes "ssh";
  terminator = codes "db";
}

copied : run_scp calls none (codes "ssh") (codes "f" ∷ []) (codes "al@db:d") ≡ ok upload_one
unfolding run_scp is_remote plan_scp check_sides remote_side connect transfer local_of path_of
    host_of user_of remote_count all_on parse_arg is_host_part remote_arg split_user_host index_byte
copied = refl

run_scp-IsPlan_example :
    IsPlan calls
      (codes "ssh")
      (map (parse_arg none) (codes "f" ∷ []))
      (parse_arg none (codes "al@db:d"))
      upload_one
run_scp-IsPlan_example =
    run_scp-IsPlan calls none (codes "ssh") (codes "f" ∷ []) (codes "al@db:d") upload_one copied
