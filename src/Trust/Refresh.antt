-- ===== src/Trust/Refresh.antt =====
-- refreshTrustedCAs and normalizeSSHKey of cmd/ziti-ssh-host/main.go: one refresh of the trusted
-- keys, from a pass over the controllers to the reload of sshd.
pub mod Laws
use ziti_ssh.Prelude.{
  ℕ, zero, suc, ◌≡◌, refl, Bool, true, false, not, List, [], ◌∷◌, ◌++◌, if◌then◌else◌, Option, none,
  some, Result, ok, err, any, map,
}
use ziti_ssh.Text.{Text, codes, text_eq, is_empty}
use ziti_ssh.Text.Trim.{trim_space, is_space}
use ziti_ssh.Dict.{lookup, insert, remove}
use ziti_ssh.Disk.{Disk, File, Run, rename}
use ziti_ssh.Config.AtomicWrite.{
  Calls, WriteError, created_file, written_file, ready_file, create_temp, write_temp, chmod_temp,
  close_temp, rename_temp,
}
use ziti_ssh.Host.Sshd.{Command, ReloadError, reload_sshd}
use ziti_ssh.Trust.Keys.{non_empty_lines, ssh_pub_key_sets_equal}
use ziti_ssh.Trust.Cluster.{Network, CaError, ClusterCa, collect_cluster_cas, cluster_cas_to_bytes}

abbrev key_mode : ℕ
key_mode = 0o644

-- strings.Fields: the word that the text begins with, and the others
unfoldable push_word : Text → List Text → List Text
push_word w ws = if is_empty w then ws else w ∷ ws

unfoldable fields_from : Text → Text × List Text
unfolding push_word
fields_from [] = ([], [])
fields_from (c ∷ s) =
    let (w, ws) = fields_from s in if is_space c then ([], push_word w ws) else (c ∷ w, ws)

unfoldable pub fields : Text → List Text
unfolding fields_from push_word
fields s = let (w, ws) = fields_from s in push_word w ws

-- the switch on the number of parts
unfoldable pub key_part : Text → List Text → Text
key_part line (kind ∷ key ∷ rest) = kind ++ (codes " " ++ key)
key_part line _ = line

unfoldable pub normalize_ssh_key : Text → Text
normalize_ssh_key line = key_part line (fields line)

-- the keys of a map that was filled from the list
distinct : List Text → List Text
distinct [] = []
distinct (k ∷ ks) = let rest = distinct ks in if any (text_eq k) rest then rest else k ∷ rest

-- the URLs that are logged, of controllers whose key is new
added_urls : List Text → List ClusterCa → List Text
added_urls old_set [] = []
added_urls old_set (ca ∷ cas) =
    let rest = added_urls old_set cas in
    if any (text_eq (normalize_ssh_key (trim_space ca.authorized_key))) old_set
    then rest
    else ca.controller_url ∷ rest

-- the number of old keys that are not new
removed_count : List Text → List Text → ℕ
removed_count new_set [] = 0
removed_count new_set (k ∷ ks) =
    let rest = removed_count new_set ks in if any (text_eq k) new_set then rest else suc rest

-- the deferred os.Remove
unfoldable pub drop_tmp : Calls → Text → Disk → Disk
drop_tmp c tmp d = if c.remove_ok then remove tmp d else d

unfoldable pub keys_failed : Calls → WriteError → Text → Disk → List Disk → Run WriteError
unfolding drop_tmp
keys_failed c e tmp d past = record { result = err e; disk = drop_tmp c tmp d; past = d ∷ past }

unfoldable pub fill_keys : Calls → Text → Text → Disk → Text → Run WriteError
unfolding keys_failed drop_tmp
fill_keys c path body d tmp =
    let created = insert tmp created_file d in
    let written = insert tmp (written_file c body) created in
    let ready = insert tmp (ready_file body key_mode) written in
    let renamed = rename tmp path ready in
    if not c.write_ok
    then keys_failed c write_temp tmp written (created ∷ d ∷ [])
    else if not c.chmod_ok
    then keys_failed c chmod_temp tmp written (created ∷ d ∷ [])
    else if not c.close_ok
    then keys_failed c close_temp tmp ready (written ∷ created ∷ d ∷ [])
    else if not c.rename_ok
    then keys_failed c rename_temp tmp ready (written ∷ created ∷ d ∷ [])
    else record {
      result = ok tt;
      disk = drop_tmp c tmp renamed;
      past = renamed ∷ ready ∷ written ∷ created ∷ d ∷ [];
    }

unfoldable pub stage_keys : Calls → Text → Text → Disk → Option Text → Run WriteError
unfolding fill_keys
stage_keys c path body d none = record { result = err create_temp; disk = d; past = [] }
stage_keys c path body d (some tmp) = fill_keys c path body d tmp

-- the write of the key file
unfoldable pub write_keys : Calls → Text → Text → Disk → Run WriteError
unfolding stage_keys
write_keys c path body d = stage_keys c path body d c.tmp_name

-- What the calls answer: os.ReadFile of a file that is there, the write, the commands of the reload.
pub record RefreshCalls : Type 0 where
  pub read_ok : Bool
  pub write_calls : Calls
  pub answers : Command → Bool

pub data RefreshError : Type 0 where
  not_collected : CaError → RefreshError
  not_read : RefreshError
  not_written : WriteError → RefreshError
  not_reloaded : ReloadError → RefreshError

-- What a refresh leaves, the commands that it ran, and what it logged.
pub record Refreshed : Type 0 where
  pub result : Result RefreshError (Unit {0})
  pub disk : Disk
  pub past : List Disk
  pub commands : List Command
  pub added : List Text
  pub removed : ℕ

unfoldable pub unchanged : Result RefreshError (Unit {0}) → Disk → Refreshed
unchanged r d = record { result = r; disk = d; past = []; commands = []; added = []; removed = 0 }

unfoldable pub reload_result : Result ReloadError (Unit {0}) → Result RefreshError (Unit {0})
reload_result (ok u) = ok u
reload_result (err e) = err (not_reloaded e)

-- os.ReadFile, where a missing file is an empty one
unfoldable pub read_current : RefreshCalls → Text → Disk → Option Text
read_current c path d = elim (lookup path d) [
  | none ↦ some []
  | some f ↦ if c.read_ok then some f.content else none
]

-- from the logging on
unfoldable pub replace_keys : RefreshCalls → Text → List ClusterCa → Text → Disk → Refreshed
unfolding reload_result added_urls removed_count distinct
replace_keys c path new_cas current d =
    let old_set = distinct (map normalize_ssh_key (non_empty_lines current)) in
    let new_set = map (λ ca. normalize_ssh_key (trim_space ca.authorized_key)) new_cas in
    let w = write_keys c.write_calls path (cluster_cas_to_bytes new_cas) d in
    let added = added_urls old_set new_cas in
    let removed = removed_count new_set old_set in
    elim w.result [
      | err e ↦ record {
        result = err (not_written e);
        disk = w.disk;
        past = w.past;
        commands = [];
        added = added;
        removed = removed;
      }
      | ok u ↦ record {
        result = reload_result (reload_sshd c.answers).0;
        disk = w.disk;
        past = w.past;
        commands = (reload_sshd c.answers).1;
        added = added;
        removed = removed;
      }
    ]

unfoldable pub refresh_with : RefreshCalls → Text → List ClusterCa → Option Text → Disk → Refreshed
unfolding replace_keys
refresh_with c path new_cas none d = unchanged (err not_read) d
refresh_with c path new_cas (some current) d =
    if ssh_pub_key_sets_equal current (cluster_cas_to_bytes new_cas)
    then unchanged (ok tt) d
    else replace_keys c path new_cas current d

module _ (N : Network) where
  unfoldable pub refresh_trusted_cas :
      RefreshCalls → (path : Text) → Option N.Pool → (urls : List Text) → Disk → Refreshed
  refresh_trusted_cas c path root_pool urls d = elim urls [
    | [] ↦ unchanged (ok tt) d
    | url ∷ rest ↦ elim (collect_cluster_cas N root_pool (url ∷ rest)) [
      | err e ↦ unchanged (err (not_collected e)) d
      | ok new_cas ↦ refresh_with c path new_cas (read_current c path d) d
    ]
  ]
