-- ===== src/Host/StateFile.antt =====
-- The file of managed user names of host/host.go: what is written, and how it is read back.
-- bufio.Scanner refuses a line of 64 KiB or more; the names written here have 32 runes at most.
pub mod RoundTrip
use ziti_ssh.Prelude.{
  ℕ, zero, suc, ◌+◌, ◌-◌, ◌≤◌, ◌≡◌, refl, Bool, true, false, not, ◌&&◌, ◌||◌, List, [], ◌∷◌, ◌++◌,
  ◌==◌, leb, ltb, if◌then◌else◌, Option, none, some, Result, ok, err, map,
}
use ziti_ssh.Text.{Text, codes, is_empty}
use ziti_ssh.Text.Split.{split, join}
use ziti_ssh.Text.Trim.{trim_space}

-- the content that writeStateFile writes
pub state_content : List Text → Text
state_content [] = []
state_content (w ∷ ws) = join (codes "\n") (w ∷ ws) ++ codes "\n"

-- what follows the last line end is a line only if it is not empty
pub drop_last_empty : List Text → List Text
drop_last_empty [] = []
drop_last_empty (w ∷ []) = if is_empty w then [] else w ∷ []
drop_last_empty (w ∷ v ∷ ws) = w ∷ drop_last_empty (v ∷ ws)

-- bufio.ScanLines drops a carriage return before the line end
pub drop_cr : Text → Text
drop_cr [] = []
drop_cr (c ∷ []) = if c == b'\r' then [] else c ∷ []
drop_cr (c ∷ d ∷ s) = c ∷ drop_cr (d ∷ s)

-- the lines of a bufio.Scanner
pub scan_lines : Text → List Text
unfolding drop_last_empty drop_cr
scan_lines data_ = map drop_cr (drop_last_empty (split b'\n' data_))

-- the names that the loop of CleanupOrphans visits
pub trimmed_names : List Text → List Text
trimmed_names [] = []
trimmed_names (line ∷ lines) =
    let rest = trimmed_names lines in
    if is_empty (trim_space line) then rest else trim_space line ∷ rest

pub state_names : Text → List Text
unfolding scan_lines trimmed_names
state_names data_ = trimmed_names (scan_lines data_)
