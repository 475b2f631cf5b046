-- ===== src/Cli/Sign.antt =====
-- runSign of cmd/ziti-ssh/main.go: a certificate for a key, from the authority to the disk.
pub mod Laws
use ziti_ssh.Prelude.{
  ℕ, suc, ◌≡◌, refl, ap, Bool, true, false, not, ◌&&◌, List, [], ◌∷◌, ◌++◌, if◌then◌else◌, Option,
  none, some, Result, ok, err, take,
}
use ziti_ssh.Text.{Text, codes, is_empty, index_byte}
use ziti_ssh.Text.Trim.{trim_space}
use ziti_ssh.Dict.{lookup}
use ziti_ssh.Disk.{Disk, File, Run}
use ziti_ssh.Config.AtomicWrite.{Calls, WriteError, atomic_write_file}
use ziti_ssh.Cli.Keys.{KeyCalls, KeyError, resolve_key, derive_cert_path}

pub data SignError : Type 0 where
  unresolved : KeyError → SignError
  no_public_key empty_public_key no_context no_oidc not_authenticated not_dialled : SignError
  not_sent no_reply empty_reply not_shown : SignError
  not_written : WriteError → SignError

-- What the calls answer: on the way to the authority, what the authority sends until the connection
-- ends, and the write.
pub record SignCalls : Type 0 where
  pub read_ok : Bool
  pub context_ok : Bool
  pub oidc_ok : Bool
  pub authenticated : Bool
  pub dial_ok : Bool
  pub send_ok : Bool
  pub reply : Text
  pub cert_calls : Calls
  pub show_ok : Bool

-- How a run ends, what it leaves, and what it sent to the authority.
pub record Signing : Type 0 where
  pub result : Result SignError (Unit {0})
  pub disk : Disk
  pub sent : Option Text

abbrev pub cert_mode : ℕ
cert_mode = 0o644

-- bufio.Reader.ReadString('\n')
unfoldable pub first_line : Text → Option Text
first_line input = elim (index_byte input b'\n') [
  | none ↦ none
  | some i ↦ some (take (suc i) input)
]

-- os.ReadFile
unfoldable pub read_file : Bool → Text → Disk → Option Text
read_file read_ok path d = elim (lookup path d) [
  | none ↦ none
  | some f ↦ if read_ok then some f.content else none
]

unfoldable pub give_up : SignError → Disk → Option Text → Signing
give_up e d sent = record { result = err e; disk = d; sent = sent }

unfoldable pub written_result :
    Bool → Bool → Result WriteError (Unit {0}) → Result SignError (Unit {0})
written_result verbose show_ok (err e) = err (not_written e)
written_result verbose show_ok (ok u) = if verbose && not show_ok then err not_shown else ok u

-- the write of the certificate
unfoldable pub store : SignCalls → Bool → Text → Text → Disk → Option Text → Signing
unfolding give_up written_result
store c verbose priv_key_path cert_line d sent =
    let w =
      atomic_write_file c.cert_calls (derive_cert_path priv_key_path) (cert_line ++ codes "\n")
        cert_mode d in
    if is_empty cert_line
    then give_up empty_reply d sent
    else record { result = written_result verbose c.show_ok w.result; disk = w.disk; sent = sent }

-- from the dial on
unfoldable pub ask : SignCalls → Bool → Text → Text → Disk → Signing
unfolding give_up store
ask c verbose priv_key_path pub_key_line d =
    let line = pub_key_line ++ codes "\n" in
    if not c.context_ok
    then give_up no_context d none
    else if not c.oidc_ok
    then give_up no_oidc d none
    else if not c.authenticated
    then give_up not_authenticated d none
    else if not c.dial_ok
    then give_up not_dialled d none
    else if not c.send_ok
    then give_up not_sent d none
    else elim (first_line c.reply) [
      | none ↦ give_up no_reply d (some line)
      | some cert_line ↦ store c verbose priv_key_path (trim_space cert_line) d (some line)
    ]

-- with the private key's path
unfoldable pub sign_key : SignCalls → Bool → Text → Disk → Signing
unfolding ask give_up
sign_key c verbose priv_key_path d = elim (read_file c.read_ok (priv_key_path ++ codes ".pub") d) [
  | none ↦ give_up no_public_key d none
  | some bytes ↦
      if is_empty (trim_space bytes)
      then give_up empty_public_key d none
      else ask c verbose priv_key_path (trim_space bytes) d
]

unfoldable pub sign_resolved : SignCalls → Bool → Result KeyError Text × Disk → Signing
unfolding give_up
sign_resolved c verbose (err e, d) = give_up (unresolved e) d none
sign_resolved c verbose (ok priv_key_path, d) = sign_key c verbose priv_key_path d

pub run_sign : (ℕ → ℕ) → KeyCalls → SignCalls → Bool → Text → Disk → Signing
run_sign to_lower k c verbose key_file d =
    sign_resolved c verbose (resolve_key to_lower k key_file d)
