-- ===== src/Cli/Keys.antt =====
-- resolveKey and deriveCertPath of cmd/ziti-ssh/main.go, and the copies in cmd/ziti-scp/main.go.
-- A path is there if the disk has it. ssh-keygen is not code of this repository.
use ziti_ssh.Prelude.{
  ℕ, ◌-◌, ◌≡◌, ◌⊎◌, inl, inr, Bool, true, false, not, List, [], ◌∷◌, ◌++◌, if◌then◌else◌, Option,
  none, some, Result, ok, err, arith, length, take, drop, map, Option-cases, All,
}
use ziti_ssh.Text.{Text, codes, text_eq, is_empty}
use ziti_ssh.Text.Trim.{trim_space}
use ziti_ssh.Dict.{lookup}
use ziti_ssh.Disk.{Disk}

pub data KeyError : Type 0 where
  key_not_found no_home no_key no_ssh_dir keygen_failed : KeyError

-- What the environment answers: the home directory, what the user types at the prompt (the empty
-- text after an error), and the disk after a successful ssh-keygen.
pub record KeyCalls : Type 0 where
  pub home : Option Text
  pub answer : Text
  pub make_dir : Bool
  pub keygen : Text → Disk → Option Disk

-- os.Stat without an error
unfoldable pub is_there : Text → Disk → Bool
is_there path d = elim (lookup path d) [ none ↦ false | some f ↦ true ]

-- filepath.Join of a clean directory and a name
abbrev pub join_path : Text → Text → Text
join_path dir name = dir ++ (codes "/" ++ name)

abbrev pub candidate_keys : List Text
candidate_keys = codes "id_ed25519" ∷ codes "id_ecdsa" ∷ codes "id_rsa" ∷ []

-- the loop over the candidates
unfoldable pub find_key : Text → List Text → Disk → Option Text
find_key ssh_dir [] d = none
find_key ssh_dir (name ∷ names) d =
    let rest = find_key ssh_dir names d in
    if is_there (join_path ssh_dir name) d then some (join_path ssh_dir name) else rest

unfoldable pub generated : Text → Option Disk → Disk → Result KeyError Text × Disk
generated key_path none d = (err keygen_failed, d)
generated key_path (some d') d = (ok key_path, d')

-- strings.ToLower
module _ (to_lower : ℕ → ℕ) where
  -- the offer to generate a key
  unfoldable pub generate_key : KeyCalls → Text → Disk → Result KeyError Text × Disk
  unfolding generated
  generate_key c ssh_dir d =
      let key_path = join_path ssh_dir (codes "id_ed25519") in
      if not (text_eq (map to_lower (trim_space c.answer)) (codes "y"))
      then (err no_key, d)
      else if not c.make_dir
      then (err no_ssh_dir, d)
      else generated key_path (c.keygen key_path d) d

  unfoldable pub resolve_key : KeyCalls → Text → Disk → Result KeyError Text × Disk
  resolve_key c key_file d =
      if not (is_empty key_file)
      then (if is_there key_file d then (ok key_file, d) else (err key_not_found, d))
      else elim c.home [
        | none ↦ (err no_home, d)
        | some home ↦
            let ssh_dir = join_path home (codes ".ssh") in
            elim (find_key ssh_dir candidate_keys d) [
              | some path ↦ (ok path, d)
              | none ↦ generate_key c ssh_dir d
            ]
      ]

-- the copy of ziti-scp, which offers nothing
unfoldable pub scp_resolve_key : Option Text → Text → Disk → Result KeyError Text
scp_resolve_key home key_file d =
    if not (is_empty key_file)
    then (if is_there key_file d then ok key_file else err key_not_found)
    else elim home [
      | none ↦ err no_home
      | some home ↦ elim (find_key (join_path home (codes ".ssh")) candidate_keys d) [
        | some path ↦ ok path
        | none ↦ err no_key
      ]
    ]

-- strings.HasSuffix and strings.TrimSuffix
unfoldable pub has_suffix : Text → Text → Bool
has_suffix s p = text_eq (drop (length s - length p) s) p

unfoldable pub trim_suffix : Text → Text → Text
unfolding has_suffix
trim_suffix s p = if has_suffix s p then take (length s - length p) s else s

unfoldable pub derive_cert_path : Text → Text
unfolding trim_suffix
derive_cert_path priv_key_path = trim_suffix priv_key_path (codes ".pub") ++ codes "-cert.pub"

-- The two copies find the same key, or fail alike, and change nothing; but where ziti-scp finds no
-- key at all, ziti-ssh offers to generate one.
pub resolve_key-scp_resolve_key :
    (to_lower : ℕ → ℕ) (c : KeyCalls) (key_file : Text) (d : Disk)
    → (resolve_key to_lower c key_file d ≡ (scp_resolve_key c.home key_file d, d))
      ⊎ ((scp_resolve_key c.home key_file d ≡ err no_key)
          × ((home : Text) × ((c.home ≡ some home)
                × (resolve_key to_lower c key_file d
                    ≡ generate_key to_lower c (join_path home (codes ".ssh")) d))))
unfolding resolve_key scp_resolve_key
resolve_key-scp_resolve_key to_lower c (x ∷ xs) d = inl (ground arith)
resolve_key-scp_resolve_key to_lower c [] d = elim (Option-cases c.home) [
  | inl e ↦ inl (ground (arith, e))
  | inr (home, e) ↦
      elim (Option-cases (find_key (join_path home (codes ".ssh")) candidate_keys d)) [
        | inl none_there ↦
            inr (ground (arith, e, none_there), (home, (e, ground (arith, e, none_there))))
        | inr (path, there) ↦ inl (ground (arith, e, there))
      ]
]

-- The first candidate that is there is found.
find_key-first :
    (dir name : Text) (before after : List Text) (d : Disk)
    → All (λ n. is_there (join_path dir n) d ≡ false) before
    → is_there (join_path dir name) d ≡ true
    → find_key dir (before ++ name ∷ after) d ≡ some (join_path dir name)
unfolding find_key
find_key-first dir name [] after d h e = ground (arith, e)
find_key-first dir name (n ∷ before) after d h e =
    ground (arith, h.0, find_key-first dir name before after d h.1 e)
