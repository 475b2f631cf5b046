-- ===== src/Disk.antt =====
-- The file system as the program sees it: a map from paths to files. A program that may be cut off
-- is given with every disk that it passes through.
use ziti_ssh.Prelude.{ℕ, List, none, some, Result, All}
use ziti_ssh.Text.{Text}
use ziti_ssh.Dict.{Dict, lookup, insert, remove}

pub record File : Type 0 where
  pub content : Text
  pub mode : ℕ

abbrev pub Disk : Type 0
Disk = Dict File

-- os.Rename of a file that is there
unfoldable pub rename : Text → Text → Disk → Disk
rename from to d = elim (lookup from d) [ none ↦ d | some f ↦ insert to f (remove from d) ]

-- The end of a run, with all disks before it, the newest first.
pub record Run (E : Type 0) : Type 0 where
  pub result : Result E (Unit {0})
  pub disk : Disk
  pub past : List Disk

-- Every disk of the run, the last one included, has the property.
abbrev pub Always : {E : Type 0} → (Disk → Type 0) → Run E → Type 0
Always P r = P r.disk × All P r.past
