-- ===== src/Cli/Enroll.antt =====
-- runEnroll and defaultEnrollOut of cmd/ziti-ssh/main.go, with their copies in cmd/ziti-scp/main.go,
-- and the copy of runEnroll in cmd/ziti-ssh-ca/main.go. The SDK and encoding/json are parameters.
pub mod Laws
pub mod Paths
use ziti_ssh.Prelude.{
  ℕ, suc, ◌≡◌, Bool, true, false, not, List, [], ◌∷◌, ◌++◌, if◌then◌else◌, Option, none, some,
  Result, ok, err, ◌==◌, take, length, any,
}
use ziti_ssh.Text.{Text, codes, is_empty, index_byte, has_rune}
use ziti_ssh.Text.Trim.{trim_space}
use ziti_ssh.Disk.{Disk}
use ziti_ssh.Config.AtomicWrite.{Calls, WriteError, atomic_write_file}
use ziti_ssh.Cli.Keys.{join_path, trim_suffix}
use ziti_ssh.Cli.Sign.{read_file}
use ziti_ssh.Cli.Commands.{Environment, config_base}

pub data EnrollError : Type 0 where
  no_jwt bad_jwt not_enrolled no_directory not_marshalled : EnrollError
  not_written : WriteError → EnrollError

-- What the calls on the machine answer.
pub record EnrollCalls : Type 0 where
  pub read_ok : Bool
  pub make_dir : Bool
  pub identity_calls : Calls

-- A result, the disk, and the token that was spent, if one was.
pub record Enrolment (T : Type 0) : Type 0 where
  pub result : Result EnrollError (Unit {0})
  pub disk : Disk
  pub spent : Option T

abbrev pub identity_mode : ℕ
identity_mode = 0o600

-- enroll.ParseToken, enroll.Enroll, and json.Marshal of what that gives
module _ {T C : Type 0} (parse_token : Text → Option T) (enroll : T → Option C)
    (marshal : C → Option Text) where
  abbrev stop : EnrollError → Disk → Option T → Enrolment T
  stop e d spent = record { result = err e; disk = d; spent = spent }

  -- from os.MkdirAll on
  unfoldable pub write_identity : EnrollCalls → Text → T → C → Disk → Enrolment T
  write_identity c out_path token cfg d =
      if not c.make_dir then stop no_directory d (some token) else elim (marshal cfg) [
        | none ↦ stop not_marshalled d (some token)
        | some json ↦
            let w = atomic_write_file c.identity_calls out_path json identity_mode d in
            record {
              result = elim w.result [ err e ↦ err (not_written e) | ok u ↦ ok u ];
              disk = w.disk;
              spent = some token;
            }
      ]

  unfoldable pub run_enroll : EnrollCalls → (jwt_path out_path : Text) → Disk → Enrolment T
  run_enroll c jwt_path out_path d = elim (read_file c.read_ok jwt_path d) [
    | none ↦ stop no_jwt d none
    | some jwt ↦ elim (parse_token (trim_space jwt)) [
      | none ↦ stop bad_jwt d none
      | some token ↦ elim (enroll token) [
        | none ↦ stop not_enrolled d none
        | some cfg ↦ write_identity c out_path token cfg d
      ]
    ]
  ]

-- the last part of a path without slashes at its end, empty if there is none
unfoldable pub last_part : Text → Text
last_part [] = []
last_part (c ∷ s) =
    let rest = last_part s in if has_rune s b'/' then rest else if c == b'/' then s else c ∷ s

unfoldable pub trim_slashes : Text → Text
trim_slashes [] = []
trim_slashes (c ∷ s) =
    let rest = trim_slashes s in
    if is_empty rest then (if c == b'/' then [] else c ∷ []) else c ∷ rest

-- filepath.Base
unfoldable pub base : Text → Text
base [] = codes "."
base (c ∷ s) =
    let path = trim_slashes (c ∷ s) in if is_empty path then codes "/" else last_part path

-- filepath.Ext: from the last dot after the last slash
unfoldable pub ext : Text → Text
ext [] = []
ext (c ∷ s) =
    let rest = ext s in
    if not (is_empty rest)
    then rest
    else if c == b'.'
    then (if has_rune s b'/' then [] else c ∷ s)
    else []

unfoldable pub default_enroll_out : Environment → Text → Text
default_enroll_out x jwt_path =
    join_path (join_path (config_base x) (codes "ziti-ssh"))
      (trim_suffix (base jwt_path) (ext jwt_path) ++ codes ".json")
