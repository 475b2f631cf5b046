-- ===== src/Config/ZtApis.antt =====
-- PersistZtAPIs of config/ztapis.go. The json package is a parameter.
use ziti_ssh.Prelude.{ℕ, ◌≡◌, Bool, List, if◌then◌else◌, Option, none, some, Result, ok, err}
use mathlib.Core.Option
use ziti_ssh.Text.{Text, codes, text_eq}
use ziti_ssh.Dict.{Dict, lookup, insert}
use ziti_ssh.Disk.{Disk, File}
use ziti_ssh.Config.AtomicWrite.{Calls, WriteError, atomic_write_file}

-- json.Unmarshal into a map of raw values, json.MarshalIndent of such a map, json.Marshal of a list of
-- strings, and the value that a raw text stands for.
pub record Json : Type 1 where
  pub Value : Type 0
  pub value : Text → Value
  pub parse : Text → Option (Dict Text)
  pub print : Dict Text → Option Text
  pub encode : List Text → Text

-- What is printed parses to a map with the same values. Their raw texts may differ, since
-- json.MarshalIndent indents them anew.
abbrev pub IsJson : Json → Type 0
IsJson j =
    (m : Dict Text) (t : Text)
    → j.print m ≡ some t
    → (m' : Dict Text) × (j.parse t ≡ some m')
      × ((k : Text) → Option.map j.value (lookup k m') ≡ Option.map j.value (lookup k m))

pub data PersistError : Type 0 where
  read_identity parse_identity marshal_identity : PersistError
  write_identity : WriteError → PersistError

abbrev pub zt_apis : Text
zt_apis = codes "ztAPIs"

abbrev persist_result : Result WriteError (Unit {0}) → Result PersistError (Unit {0})
persist_result (ok u) = ok u
persist_result (err e) = err (write_identity e)

module _ (j : Json) (c : Calls) (stat_ok : Bool) where
  -- fi.Mode(), or 0600 if the file cannot be looked at
  unfoldable pub kept_mode : File → ℕ
  kept_mode f = if stat_ok then f.mode else 0o600

  -- from json.Unmarshal on
  unfoldable pub rewrite : Text → List Text → File → Disk → Result PersistError (Unit {0}) × Disk
  rewrite identity_file urls f d = elim (j.parse f.content) [
    | none ↦ (err parse_identity, d)
    | some raw ↦ elim (j.print (insert zt_apis (j.encode urls) raw)) [
      | none ↦ (err marshal_identity, d)
      | some out ↦
          let r = atomic_write_file c identity_file out (kept_mode f) d in
          (persist_result r.result, r.disk)
    ]
  ]

  unfoldable pub persist_zt_apis : Text → List Text → Disk → Result PersistError (Unit {0}) × Disk
  persist_zt_apis identity_file urls d = elim (lookup identity_file d) [
    | none ↦ (err read_identity, d)
    | some f ↦ rewrite identity_file urls f d
  ]

  -- The new identity file: the values of all fields of the old one but the URLs, which are the new.
  abbrev pub IsUpdated : List Text → Dict Text → Text → Type 0
  IsUpdated urls m t =
      (m' : Dict Text) × (j.parse t ≡ some m')
      × ((k : Text)
          → Option.map j.value (lookup k m') ≡ (
              if text_eq zt_apis k
              then some (j.value (j.encode urls))
              else Option.map j.value (lookup k m)))

  module _ (path : Text) (urls : List Text) (f : File) (m : Dict Text) (d : Disk) where
    Updated : Disk → Type 0
    Updated d' =
        (t : Text) × (lookup path d' ≡ some (record { content = t; mode = kept_mode f }))
        × IsUpdated urls m t
