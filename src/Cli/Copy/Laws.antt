-- ===== src/Cli/Copy/Laws.antt =====
-- What a copy that is let through looks like.
use ziti_ssh.Prelude.{
  Bool, ◌≡◌, ◌⊎◌, inl, inr, refl, sym, true, false, List, [], ◌∷◌, ltb, Option, ok, arith, All,
  length, map, subst,
}
use ziti_ssh.Text.{Text}
use ziti_ssh.Cli.Target.{Arg, remote, local, parse_arg}
use ziti_ssh.Cli.Copy.{
  ScpCalls, Transfer, is_remote, host_of, user_of, path_of, local_of, remote_count, all_on,
  check_sides, remote_side, transfer, plan_scp, run_scp,
}

no_remote_count : (args : List Arg) → remote_count args ≡ 0 → All (λ a. is_remote a ≡ false) args
unfolding remote_count
no_remote_count [] h = tt
no_remote_count (a ∷ args) h = ground (arith, h, no_remote_count args)

remote_count_le : (args : List Arg) → (ltb (length args) (remote_count args)) ≡ false
unfolding remote_count
remote_count_le [] = refl
remote_count_le (a ∷ args) = ground (arith, remote_count_le args)

full_remote_count :
    (args : List Arg) → remote_count args ≡ length args → All (λ a. is_remote a ≡ true) args
unfolding remote_count
full_remote_count [] h = tt
full_remote_count (a ∷ args) h = ground (arith, h, full_remote_count args, remote_count_le args)

all_on-All : (h : Text) (args : List Arg) → all_on h args ≡ true → All (λ a. host_of a ≡ h) args
unfolding all_on
all_on-All h [] e = tt
all_on-All h (a ∷ args) e = ground (arith, e, all_on-All h args)

sides_ok :
    (entries : List Arg) (dst : Arg)
    → check_sides entries dst ≡ ok tt
    → ((is_remote dst ≡ true) × All (λ a. is_remote a ≡ false) entries)
      ⊎ ((is_remote dst ≡ false) × All (λ a. is_remote a ≡ true) entries)
unfolding check_sides
sides_ok entries dst h = ground (arith, h, no_remote_count entries, full_remote_count entries)

-- The user of the first source, which is the one for all of them.
abbrev first_user : List Arg → Text
first_user [] = []
first_user (e ∷ entries) = user_of e

side_hosts :
    (entries : List Arg) (dst : Arg) (host_name user_name : Text)
    → remote_side entries dst ≡ ok (host_name, user_name)
    → ((is_remote dst ≡ true) × (host_of dst ≡ host_name) × (user_of dst ≡ user_name))
      ⊎ ((is_remote dst ≡ false)
          × All (λ a. host_of a ≡ host_name) entries
          × (first_user entries ≡ user_name))
unfolding remote_side is_remote host_of user_of
side_hosts entries (remote r) hn un h = inl (ground (arith, h))
side_hosts [] (local t) hn un h = cc
side_hosts (e ∷ entries) (local t) hn un h = inr (ground (arith, h, all_on-All (host_of e) entries))

-- What is uploaded: local paths, to the path, the host and the user of a remote target.
abbrev pub IsUpload : List Arg → Arg → Transfer → Type 0
IsUpload entries dst t =
    (t.upload ≡ true)
    × (is_remote dst ≡ true)
    × All (λ a. is_remote a ≡ false) entries
    × (t.host ≡ host_of dst)
    × (t.user ≡ user_of dst)
    × (t.dest ≡ path_of dst)
    × (t.paths ≡ map local_of entries)

-- What is downloaded: remote paths of one host, to a local target, as the user of the first source.
abbrev pub IsDownload : List Arg → Arg → Transfer → Type 0
IsDownload entries dst t =
    (t.upload ≡ false)
    × (is_remote dst ≡ false)
    × All (λ a. is_remote a ≡ true) entries
    × All (λ a. host_of a ≡ t.host) entries
    × (t.user ≡ first_user entries)
    × (t.dest ≡ local_of dst)
    × (t.paths ≡ map path_of entries)

-- How the host is dialled: as the service of its name if there is one, and else as a terminator of
-- the SSH service.
abbrev pub IsDialled : (Text → Bool) → Text → Transfer → Type 0
IsDialled has_service ssh_service t =
    (has_service t.host ≡ true → (t.service ≡ t.host) × (t.terminator ≡ []))
    × (has_service t.host ≡ false → (t.service ≡ ssh_service) × (t.terminator ≡ t.host))

-- What a planned copy looks like.
abbrev pub IsPlan : ScpCalls → Text → List Arg → Arg → Transfer → Type 0
IsPlan c ssh_service entries dst t =
    (IsUpload entries dst t ⊎ IsDownload entries dst t) × IsDialled c.has_service ssh_service t

plan_parts :
    (c : ScpCalls) (ssh_service : Text) (entries : List Arg) (dst : Arg) (t : Transfer)
    → plan_scp c ssh_service entries dst ≡ ok t
    → (check_sides entries dst ≡ ok tt)
      × ((side : Text × Text) × (remote_side entries dst ≡ ok side)
          × (t ≡ transfer c ssh_service entries dst side))
unfolding plan_scp
plan_parts c ssh_service entries dst t h = ground (arith, h)

transfer_sides :
    (c : ScpCalls) (ssh_service : Text) (entries : List Arg) (dst : Arg) (side : Text × Text)
    → check_sides entries dst ≡ ok tt
    → remote_side entries dst ≡ ok side
    → let t = transfer c ssh_service entries dst side in
      IsUpload entries dst t ⊎ IsDownload entries dst t
unfolding transfer
transfer_sides c ssh_service entries dst (hn, un) checked sided =
    ground (arith, sides_ok entries dst checked, side_hosts entries dst hn un sided)

transfer-IsPlan :
    (c : ScpCalls) (ssh_service : Text) (entries : List Arg) (dst : Arg) (side : Text × Text)
    → check_sides entries dst ≡ ok tt
    → remote_side entries dst ≡ ok side
    → IsPlan c ssh_service entries dst (transfer c ssh_service entries dst side)
unfolding transfer
transfer-IsPlan c ssh_service entries dst (hn, un) checked sided = (
  transfer_sides c ssh_service entries dst (hn, un) checked sided,
  ((λ h. ground (arith, h)), (λ h. ground (arith, h))),
)

-- If ziti-scp gets as far as the copy, either the target is remote, all sources are local, and their
-- paths are uploaded to the target's path, as its user; or the target is local, all sources are remote
-- on one host, and their paths are downloaded to it, as the user of the first. The host is dialled as
-- the service of its name, if there is one, and else as a terminator of the SSH service.
pub run_scp-IsPlan :
    (c : ScpCalls) (current : Option Text) (ssh_service : Text) (srcs : List Text) (dst : Text)
    (t : Transfer)
    → run_scp c current ssh_service srcs dst ≡ ok t
    → IsPlan c ssh_service (map (parse_arg current) srcs) (parse_arg current dst) t
unfolding run_scp
run_scp-IsPlan c current ssh_service srcs dst t h =
    let entries = map (parse_arg current) srcs in
    let target = parse_arg current dst in
    let (checked, rest) = plan_parts c ssh_service entries target t h in
    let (side, sided, e) = rest in
    subst (IsPlan c ssh_service entries target) (sym e)
      (transfer-IsPlan c ssh_service entries target side checked sided)
