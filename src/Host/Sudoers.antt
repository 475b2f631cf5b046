-- ===== src/Host/Sudoers.antt =====
-- The sudoers files of host/host.go: the check of a rule, and a file's way into /etc/sudoers.d.
pub mod Rules
pub mod Files
use ziti_ssh.Prelude.{
  ℕ, zero, suc, ◌+◌, ◌-◌, ◌≤◌, ◌≡◌, refl, Bool, true, false, not, ◌&&◌, ◌||◌, List, [], ◌∷◌, ◌++◌,
  ◌==◌, leb, ltb, if◌then◌else◌, Option, none, some, Result, ok, err,
}
use ziti_ssh.Text.{Text, codes, contains_any, has_prefix}
use ziti_ssh.Text.Trim.{trim_space}
use ziti_ssh.Dict.{lookup, insert, remove}
use ziti_ssh.Disk.{Disk, File, rename}

pub data RuleError : Type 0 where
  newline hash : RuleError
  keyword : Text → RuleError

abbrev pub keywords : List Text
keywords =
    codes "@include"
    ∷ codes "Defaults"
    ∷ codes "Cmnd_Alias"
    ∷ codes "Host_Alias"
    ∷ codes "User_Alias"
    ∷ codes "Runas_Alias"
    ∷ []

-- the loop over the keywords
unfoldable pub check_keywords : Text → List Text → Result RuleError (Unit {0})
check_keywords trimmed [] = ok tt
check_keywords trimmed (kw ∷ kws) =
    let rest = check_keywords trimmed kws in
    if has_prefix trimmed kw then err (keyword kw) else rest

unfoldable pub validate_sudoers_rule : Text → Result RuleError (Unit {0})
validate_sudoers_rule rule =
    if contains_any rule (codes "\n\r")
    then err newline
    else if has_prefix (trim_space rule) (codes "#")
    then err hash
    else check_keywords (trim_space rule) keywords

-- What the system calls of createSudoers answer; `tmp_name` is the path that CreateTemp chose.
pub record SudoersCalls : Type 0 where
  pub mkdir_ok : Bool
  pub tmp_name : Option Text
  pub write_ok : Bool
  pub partial : Text
  pub chmod_ok : Bool
  pub visudo_ok : Bool
  pub rename_ok : Bool
  pub remove_ok : Bool

pub data SudoersError : Type 0 where
  invalid_rule : RuleError → SudoersError
  staging_dir create_temp write_temp chmod_temp visudo install remove_file : SudoersError

unfoldable pub sudoers_path : Text → Text
sudoers_path username = codes "/etc/sudoers.d/" ++ username

-- "%s %s\n"
pub sudoers_content : Text → Text → Text
sudoers_content username rule = username ++ codes " " ++ rule ++ codes "\n"

abbrev pub sudoers_mode : ℕ
sudoers_mode = 0o440

drop_temp : SudoersCalls → SudoersError → Text → Disk → Result SudoersError (Unit {0}) × Disk
drop_temp c e tmp d = (err e, if c.remove_ok then remove tmp d else d)

-- from the write of the temporary file on
stage_sudoers : SudoersCalls → Text → Text → Text → Disk → Result SudoersError (Unit {0}) × Disk
unfolding drop_temp
stage_sudoers c username rule tmp d =
    let body = sudoers_content username rule in
    let partly = insert tmp (record { content = c.partial; mode = 0o600 }) d in
    let written = insert tmp (record { content = body; mode = 0o600 }) d in
    let ready = insert tmp (record { content = body; mode = sudoers_mode }) written in
    if not c.write_ok
    then drop_temp c write_temp tmp partly
    else if not c.chmod_ok
    then drop_temp c chmod_temp tmp written
    else if not c.visudo_ok
    then drop_temp c visudo tmp ready
    else if not c.rename_ok
    then drop_temp c install tmp ready
    else (ok tt, rename tmp (sudoers_path username) ready)

pub create_sudoers : SudoersCalls → Text → Text → Disk → Result SudoersError (Unit {0}) × Disk
unfolding stage_sudoers
create_sudoers c username rule d = elim (validate_sudoers_rule rule) [
  | err e ↦ (err (invalid_rule e), d)
  | ok u ↦ if not c.mkdir_ok then (err staging_dir, d) else elim c.tmp_name [
    | none ↦ (err create_temp, d)
    | some tmp ↦ stage_sudoers c username rule tmp d
  ]
]

-- os.Remove of a file that is not there is no error here; `removes` tells if it works otherwise
unfoldable pub remove_sudoers : Bool → Text → Disk → Result SudoersError (Unit {0}) × Disk
remove_sudoers removes username d = elim (lookup (sudoers_path username) d) [
  | none ↦ (ok tt, d)
  | some f ↦ if removes then (ok tt, remove (sudoers_path username) d) else (err remove_file, d)
]
