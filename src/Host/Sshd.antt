-- ===== src/Host/Sshd.antt =====
-- WriteSSHConfig, ReloadSSHD and childEnv of host/host.go: how sshd gets to know the trusted keys.
pub mod Files
use ziti_ssh.Prelude.{
  ℕ, ◌≡◌, refl, Bool, true, false, not, ◌&&◌, List, [], ◌∷◌, ◌++◌, if◌then◌else◌, Result, ok, err,
  arith, All, any,
}
use ziti_ssh.Text.{Text, codes, has_prefix}
use ziti_ssh.Disk.{Disk}
use ziti_ssh.Config.AtomicWrite.{Calls, WriteError, host_atomic_write_file}

pub data SshdError : Type 0 where
  key_dir conf_dir : SshdError
  key_file conf_file : WriteError → SshdError

-- What the calls answer: the two MkdirAll, and the two atomic writes.
pub record SshdCalls : Type 0 where
  pub key_dir_ok : Bool
  pub key_calls : Calls
  pub conf_dir_ok : Bool
  pub conf_calls : Calls

abbrev pub sshd_mode : ℕ
sshd_mode = 0o644

-- "TrustedUserCAKeys %s\n"
unfoldable pub sshd_conf : Text → Text
sshd_conf key_path = codes "TrustedUserCAKeys " ++ key_path ++ codes "\n"

unfoldable pub write_conf : SshdCalls → Text → Text → Disk → Result SshdError (Unit {0}) × Disk
write_conf c conf_path key_path d =
    let r = host_atomic_write_file c.conf_calls conf_path (sshd_conf key_path) sshd_mode d in
    if c.conf_dir_ok
    then (elim r.result [ ok u ↦ ok u | err e ↦ err (conf_file e) ], r.disk)
    else (err conf_dir, d)

unfoldable pub write_ssh_config :
    SshdCalls → Text → Text → Text → Disk → Result SshdError (Unit {0}) × Disk
write_ssh_config c ca_pub_key conf_path key_path d =
    let r = host_atomic_write_file c.key_calls key_path ca_pub_key sshd_mode d in
    if c.key_dir_ok
    then elim r.result [
      | ok u ↦ write_conf c conf_path key_path r.disk
      | err e ↦ (err (key_file e), r.disk)
    ]
    else (err key_dir, d)

-- The commands that ReloadSSHD runs.
pub data Command : Type 0 where
  sshd_test is_socket_active systemctl_reload pkill_hup : Command

pub data ReloadError : Type 0 where
  invalid_config reload_failed : ReloadError

-- `answers` says which commands exit with 0
unfoldable pub reload_sshd : (Command → Bool) → Result ReloadError (Unit {0}) × List Command
reload_sshd answers =
    if not (answers sshd_test)
    then (err invalid_config, sshd_test ∷ [])
    else if answers is_socket_active
    then (ok tt, sshd_test ∷ is_socket_active ∷ [])
    else if answers systemctl_reload
    then (ok tt, sshd_test ∷ is_socket_active ∷ systemctl_reload ∷ pkill_hup ∷ [])
    else (err reload_failed, sshd_test ∷ is_socket_active ∷ systemctl_reload ∷ [])

-- the environment of the commands
unfoldable child_env : List Text → List Text
child_env [] = []
child_env (e ∷ es) =
    let rest = child_env es in if has_prefix e (codes "NOTIFY_SOCKET=") then rest else e ∷ rest

abbrev pub is_signal : Command → Bool
is_signal sshd_test = false
is_signal is_socket_active = false
is_signal systemctl_reload = true
is_signal pkill_hup = true

-- A running sshd is signalled, through systemctl or directly, exactly if sshd's own test of the
-- configuration passes and sshd is not activated by a socket.
pub reload_sshd_signals :
    (answers : Command → Bool)
    → any is_signal (reload_sshd answers).1 ≡ answers sshd_test && not (answers is_socket_active)
unfolding reload_sshd
reload_sshd_signals answers = ground arith

-- What is left of the environment are the entries that do not set NOTIFY_SOCKET, in their order.
child_env_lem :
    (es fs : List Text)
    → All (λ e. has_prefix e (codes "NOTIFY_SOCKET=") ≡ false) (child_env es)
      × (child_env (es ++ fs) ≡ child_env es ++ child_env fs)
      × (child_env (child_env es) ≡ child_env es)
unfolding child_env
child_env_lem [] fs = (tt, refl, refl)
child_env_lem (e ∷ es) fs = ground (arith, child_env_lem es fs)
