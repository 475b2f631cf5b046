-- ===== src/Cli/Copy.antt =====
-- runSCP of cmd/ziti-scp/main.go: which side is remote, which host is dialled, and what is copied.
pub mod Laws
use ziti_ssh.Prelude.{
  ℕ, zero, suc, ◌+◌, ◌≡◌, ◌⊎◌, inl, inr, refl, sym, ap, ◌∙◌, Bool, true, false, not, ◌&&◌, List, [],
  ◌∷◌, ◌==◌, ltb, if◌then◌else◌, Option, none, some, Result, ok, err, arith, All, length, map,
  subst,
}
use ziti_ssh.Text.{Text, text_eq, text_dec, is_empty}
use ziti_ssh.Cli.Target.{Arg, remote, local, RemoteSpec, parse_arg}

pub data ScpError : Type 0 where
  two_remotes no_remote mixed_sources other_host : ScpError
  no_key not_signed no_signer no_context no_oidc not_authenticated not_dialled : ScpError

unfoldable pub is_remote : Arg → Bool
is_remote (remote r) = true
is_remote (local t) = false

-- the fields of a remote specification, empty for a local argument
unfoldable pub host_of : Arg → Text
host_of (remote r) = r.host
host_of (local t) = []

unfoldable pub user_of : Arg → Text
user_of (remote r) = r.user
user_of (local t) = []

unfoldable pub path_of : Arg → Text
path_of (remote r) = r.path
path_of (local t) = []

unfoldable pub local_of : Arg → Text
local_of (remote r) = []
local_of (local t) = t

-- srcRemoteCount
unfoldable pub remote_count : List Arg → ℕ
remote_count [] = 0
remote_count (a ∷ args) = let rest = remote_count args in if is_remote a then suc rest else rest

-- the loop over entries[1:]
unfoldable pub all_on : Text → List Arg → Bool
all_on h [] = true
all_on h (a ∷ args) = let rest = all_on h args in if text_eq (host_of a) h then rest else false

-- What is handed to RunSFTP, and how the host is dialled.
pub record Transfer : Type 0 where
  pub upload : Bool
  pub user : Text
  pub host : Text
  pub paths : List Text
  pub dest : Text
  pub service : Text
  pub terminator : Text

-- What the environment answers.
pub record ScpCalls : Type 0 where
  pub key_ok : Bool
  pub needs_refresh : Bool
  pub sign_ok : Bool
  pub signer_ok : Bool
  pub context_ok : Bool
  pub oidc_ok : Bool
  pub authenticated : Bool
  pub has_service : Text → Bool
  pub dial_ok : Bool

-- the switch on the two sides
unfoldable pub check_sides : List Arg → Arg → Result ScpError (Unit {0})
check_sides entries dst =
    if ltb 0 (remote_count entries) && is_remote dst
    then err two_remotes
    else if (remote_count entries == 0) && not (is_remote dst)
    then err no_remote
    else if ltb 0 (remote_count entries) && not (remote_count entries == length entries)
    then err mixed_sources
    else ok tt

-- the host and user of the remote side
unfoldable pub remote_side : List Arg → Arg → Result ScpError (Text × Text)
remote_side entries (remote r) = ok (r.host, r.user)
remote_side [] (local t) = err no_remote
remote_side (e ∷ entries) (local t) =
    if all_on (host_of e) entries then ok (host_of e, user_of e) else err other_host

-- from resolveKey to the dial: the first call that fails
unfoldable pub connect : ScpCalls → Result ScpError (Unit {0})
connect c =
    if not c.key_ok
    then err no_key
    else if c.needs_refresh && not c.sign_ok
    then err not_signed
    else if not c.signer_ok
    then err no_signer
    else if not c.context_ok
    then err no_context
    else if not c.oidc_ok
    then err no_oidc
    else if not c.authenticated
    then err not_authenticated
    else if not c.dial_ok
    then err not_dialled
    else ok tt

-- a service with the host's name is dialled without a terminator
unfoldable pub transfer : ScpCalls → Text → List Arg → Arg → Text × Text → Transfer
transfer c ssh_service entries dst (host_name, user_name) = record {
  upload = is_remote dst;
  user = user_name;
  host = host_name;
  paths = if is_remote dst then map local_of entries else map path_of entries;
  dest = if is_remote dst then path_of dst else local_of dst;
  service = if c.has_service host_name then host_name else ssh_service;
  terminator = if c.has_service host_name then [] else host_name;
}

unfoldable pub plan_scp : ScpCalls → Text → List Arg → Arg → Result ScpError Transfer
plan_scp c ssh_service entries dst = elim (check_sides entries dst) [
  | err e ↦ err e
  | ok u ↦ elim (remote_side entries dst) [
    | err e ↦ err e
    | ok side ↦ elim (connect c) [
      | err e ↦ err e
      | ok v ↦ ok (transfer c ssh_service entries dst side)
    ]
  ]
]

unfoldable pub run_scp : ScpCalls → Option Text → Text → List Text → Text → Result ScpError Transfer
run_scp c current ssh_service srcs dst =
    plan_scp c ssh_service (map (parse_arg current) srcs) (parse_arg current dst)
