-- ===== src/Cli/Connect.antt =====
-- runConnect and runProxy of cmd/ziti-ssh/main.go: the way to the connection, which service is
-- dialled, and what runs on the connection.
use ziti_ssh.Prelude.{
  Bool, true, false, not, ◌||◌, List, [], ◌∷◌, if◌then◌else◌, Option, none, some, Result, ok, err,
}
use ziti_ssh.Text.{Text, is_empty}
use ziti_ssh.Cli.Forwards.{LocalForwardSpec, RemoteForwardSpec, DynamicForwardSpec}
use ziti_ssh.Cli.Target.{parse_target}
use ziti_ssh.Cli.Copy.{ScpCalls, ScpError, connect}

-- The settings that decide, of connectParams.
pub record ConnectParams : Type 0 where
  pub ssh_service : Text
  pub service : Text
  pub target : Text
  pub command : Text
  pub no_shell : Bool
  pub forward_agent : Bool
  pub local_forwards : List LocalForwardSpec
  pub remote_forwards : List RemoteForwardSpec
  pub dynamic_proxies : List DynamicForwardSpec

-- what the calls on the way answer; a dial may depend on the service and the terminator
pub data ConnectError : Type 0 where
  no_user : ConnectError
  on_the_way : ScpError → ConnectError

-- the service, and the terminator's address, empty for none
unfoldable pub dial_choice : (Text → Bool) → (service ssh_service host : Text) → Text × Text
dial_choice has_service service ssh_service host =
    if not (is_empty service)
    then (service, host)
    else if has_service host
    then (host, [])
    else (ssh_service, host)

-- What is opened on the connection besides the forwards.
pub data Opened : Type 0 where
  command_run : Text → Opened
  shell : (forward_agent : Bool) → Opened
  nothing : Opened

pub record Connection : Type 0 where
  pub user : Text
  pub host : Text
  pub service : Text
  pub terminator : Text
  pub local_forwards : List LocalForwardSpec
  pub remote_forwards : List RemoteForwardSpec
  pub dynamic_proxies : List DynamicForwardSpec
  pub opened : Opened

abbrev is_none {ℓ} : {A : Type ℓ} → List A → Bool
is_none [] = true
is_none (x ∷ xs) = false

unfoldable pub has_forwards : ConnectParams → Bool
has_forwards p =
    not (is_none p.local_forwards)
    || not (is_none p.remote_forwards)
    || not (is_none p.dynamic_proxies)

-- a command, or else an interactive shell
unfoldable pub session : ConnectParams → Opened
session p = if not (is_empty p.command) then command_run p.command else shell p.forward_agent

unfoldable pub open_on : ConnectParams → Opened
unfolding session
open_on p = if not (has_forwards p) then session p else if p.no_shell then nothing else session p

unfoldable pub connection : (Text → Bool) → ConnectParams → Text × Text → Connection
unfolding open_on
connection has_service p (username, host) = record {
  user = username;
  host = host;
  service = (dial_choice has_service p.service p.ssh_service host).0;
  terminator = (dial_choice has_service p.service p.ssh_service host).1;
  local_forwards = p.local_forwards;
  remote_forwards = p.remote_forwards;
  dynamic_proxies = p.dynamic_proxies;
  opened = open_on p;
}

unfoldable pub run_connect : ScpCalls → Option Text → ConnectParams → Result ConnectError Connection
run_connect c current p = elim (parse_target current p.target) [
  | none ↦ err no_user
  | some side ↦ elim (connect c) [
    | err e ↦ err (on_the_way e)
    | ok u ↦ ok (connection c.has_service p side)
  ]
]

-- runProxy takes the same way, but loads no signer, and bridges its input and output
unfoldable pub run_proxy :
    ScpCalls → Option Text → (service ssh_service target : Text) → Result ConnectError (Text × Text)
run_proxy c current service ssh_service target = elim (parse_target current target) [
  | none ↦ err no_user
  | some (username, host) ↦ elim (connect (record c { signer_ok = true })) [
    | err e ↦ err (on_the_way e)
    | ok u ↦ ok (dial_choice c.has_service service ssh_service host)
  ]
]
