-- ===== src/Cli/Target.antt =====
-- parseTarget of cmd/ziti-ssh/main.go, and parseArg and splitUserHost of cmd/ziti-scp/main.go. What
-- user.Current answers is a parameter: `none` is its error.
use ziti_ssh.Prelude.{
  ℕ, suc, ◌<◌, ◌≡◌, refl, Bool, true, false, ◌&&◌, ◌||◌, [], ◌∷◌, ◌++◌, ltb, if◌then◌else◌, Option,
  none, some, arith, length, take, drop,
}
use ziti_ssh.Text.{Text, Lacks, index_byte, index_byte-append, index_byte-none}

unfoldable pub parse_target : Option Text → Text → Option (Text × Text)
parse_target current arg = elim (index_byte arg b'@') [
  | some i ↦ some (take i arg, drop (suc i) arg)
  | none ↦ elim current [ none ↦ none | some u ↦ some (u, arg) ]
]

pub record RemoteSpec : Type 0 where
  pub user : Text
  pub host : Text
  pub path : Text

unfoldable pub split_user_host : Option Text → Text → Text × Text
split_user_host current host_part = elim (index_byte host_part b'@') [
  | some i ↦ (take i host_part, drop (suc i) host_part)
  | none ↦ elim current [ some u ↦ (u, host_part) | none ↦ ([], host_part) ]
]

-- A single letter before the colon is a drive.
unfoldable pub is_host_part : Text → Bool
is_host_part [] = false
is_host_part (c ∷ []) = (ltb c b'A' || ltb b'Z' c) && (ltb c b'a' || ltb b'z' c)
is_host_part (c ∷ d ∷ s) = true

pub data Arg : Type 0 where
  remote : RemoteSpec → Arg
  local : Text → Arg

unfoldable pub remote_arg : Option Text → Text → Text → Arg
remote_arg current host_part path_part =
    let (u, h) = split_user_host current host_part in
    remote (record { user = u; host = h; path = path_part })

-- an index of 0 fails the test colonIdx > 0, and so does an empty host part
unfoldable pub parse_arg : Option Text → Text → Arg
parse_arg current arg = elim (index_byte arg b':') [
  | none ↦ local arg
  | some i ↦
      if ltb 0 i && is_host_part (take i arg)
      then remote_arg current (take i arg) (drop (suc i) arg)
      else local arg
]

abbrev pub with_target : Option Text → Text → Option (Text × Text)
with_target none t = none
with_target (some u) t = some (u, t)

take-append : (p s : Text) → take (length p) (p ++ s) ≡ p
take-append [] s = refl
take-append (c ∷ p) s = rw (take-append p s) refl

drop-append : (p : Text) (c : ℕ) (s : Text) → drop (suc (length p)) (p ++ c ∷ s) ≡ s
drop-append [] c s = refl
drop-append (d ∷ p) c s = drop-append p c s

-- user@target is read back as its parts, if the user's name has no @; and an argument without an @
-- is the target, of the current user.
pub parse_target-at :
    (current : Option Text) (user target : Text)
    → Lacks b'@' user
    → (parse_target current (user ++ b'@' ∷ target) ≡ some (user, target))
      × (Lacks b'@' target → parse_target current target ≡ with_target current target)
unfolding parse_target
parse_target-at current user target h = (
  ground (
    arith,
    index_byte-append user target b'@' h,
    take-append user (b'@' ∷ target),
    drop-append user b'@' target,
  ),
  (λ lacks. ground (arith, index_byte-none target b'@' lacks)),
)

is_host_part_pos : (s : Text) → is_host_part s ≡ true → 0 < length s
unfolding is_host_part
is_host_part_pos s h = ground (arith, h)

-- The host part is everything before the first colon, and the path everything after it: such an
-- argument is remote unless its host part is empty or a drive letter, and local then.
pub parse_arg-colon :
    (current : Option Text) (host_part path_part : Text)
    → Lacks b':' host_part
    → parse_arg current (host_part ++ b':' ∷ path_part) ≡ (
        if is_host_part host_part
        then remote_arg current host_part path_part
        else local (host_part ++ b':' ∷ path_part))
unfolding parse_arg
parse_arg-colon current host_part path_part h = ground (
  arith,
  index_byte-append host_part path_part b':' h,
  take-append host_part (b':' ∷ path_part),
  drop-append host_part b':' path_part,
  is_host_part_pos host_part,
)

-- An absolute path with a colon in it is taken for a remote argument.
pub parse_arg_absolute :
    (current : Option Text) (c : ℕ) (dir path_part : Text)
    → Lacks b':' (c ∷ dir)
    → parse_arg current (b'/' ∷ c ∷ (dir ++ b':' ∷ path_part))
      ≡ remote_arg current (b'/' ∷ c ∷ dir) path_part
unfolding is_host_part
parse_arg_absolute current c dir path_part h =
    parse_arg-colon current (b'/' ∷ c ∷ dir) path_part (ground arith, h)
