-- ===== src/Trust/Refresh/Laws.antt =====
-- What a refresh makes of the key file, and when it does nothing.
use ziti_ssh.Prelude.{
  ◌≡◌, ◌≢◌, ◌⊎◌, inl, inr, refl, ap, ◌∙◌, true, List, [], ◌∷◌, ◌++◌, if◌then◌else◌, Option, none,
  some, Result, ok, err, arith, any, subst, Result-cases, Bool-cases,
}
use ziti_ssh.Text.{Text, text_eq_refl}
use ziti_ssh.Dict.{lookup, insert}
use ziti_ssh.Disk.{Disk, File, rename}
use ziti_ssh.Config.AtomicWrite.{Calls, created_file, written_file, ready_file}
use ziti_ssh.Config.AtomicWrite.Laws.{FreshTemp, lookup-rename, lookup-remove_ne}
use ziti_ssh.Host.Sshd.{ReloadError}
use ziti_ssh.Trust.Keys.{non_empty_lines, ssh_pub_key_sets_equal}
use ziti_ssh.Trust.Keys.Sorting.{occurrences}
use ziti_ssh.Trust.Keys.Sets.{ssh_pub_key_sets_equal_iff}
use ziti_ssh.Trust.Cluster.{Network, ClusterCa, collect_cluster_cas, cluster_cas_to_bytes}
use ziti_ssh.Trust.Cluster.Bytes.{occurrences-cluster_cas_to_bytes}
use ziti_ssh.Trust.Cluster.Collected.{
  IsNetwork, offers, collect_cluster_cas_once, collect_cluster_cas_lines,
}
use ziti_ssh.Trust.Refresh.{
  RefreshCalls, RefreshError, not_reloaded, refresh_trusted_cas, refresh_with, reload_result,
  read_current, unchanged, write_keys, key_mode, stage_keys, fill_keys, keys_failed, drop_tmp,
}

-- The text of the key file, empty if there is none.
unfoldable pub text_of : Option File → Text
text_of none = []
text_of (some f) = f.content

abbrev pub key_text : Text → Disk → Text
key_text path d = text_of (lookup path d)

-- The refresh ended well, or with sshd's refusal to reload.
abbrev pub IsWritten : Result RefreshError (Unit {0}) → Type 0
IsWritten r = (r ≡ ok tt) ⊎ ((e : ReloadError) × (r ≡ err (not_reloaded e)))

stage_keys_done :
    (c : Calls) (path body : Text) (d : Disk) (name : Option Text)
    → ((tmp : Text) → name ≡ some tmp → (tmp ≢ path) × (lookup tmp d ≡ none))
    → (stage_keys c path body d name).result ≡ ok tt
    → key_text path (stage_keys c path body d name).disk ≡ body
unfolding stage_keys fill_keys keys_failed drop_tmp text_of
stage_keys_done c path body d none fresh h = cc
stage_keys_done c path body d (some tmp) fresh h =
    let ne = (fresh tmp refl).0 in
    let s = insert tmp (written_file c body) (insert tmp created_file d) in
    let f = ready_file body key_mode in
    ground (
      arith,
      h,
      text_eq_refl path,
      lookup-rename c path body key_mode d tmp f s path ne,
      lookup-remove_ne c path body key_mode d tmp path (rename tmp path (insert tmp f s)) ne,
    )

write_keys_done :
    (c : Calls) (path body : Text) (d : Disk)
    → FreshTemp c path body key_mode d
    → (write_keys c path body d).result ≡ ok tt
    → key_text path (write_keys c path body d).disk ≡ body
unfolding write_keys
write_keys_done c path body d = stage_keys_done c path body d c.tmp_name

ssh_pub_key_sets_equal_refl : (a : Text) → ssh_pub_key_sets_equal a a ≡ true
ssh_pub_key_sets_equal_refl a = (ssh_pub_key_sets_equal_iff a a).1 (λ z. refl)

-- A refresh that got past the collection, with the text that it found.
refresh_with-IsWritten :
    (c : RefreshCalls) (path : Text) (cas : List ClusterCa) (d : Disk) (current : Option Text)
    → ((text : Text) → current ≡ some text → text ≡ key_text path d)
    → FreshTemp c.write_calls path (cluster_cas_to_bytes cas) key_mode d
    → IsWritten (refresh_with c path cas current d).result
    → ssh_pub_key_sets_equal
        (key_text path (refresh_with c path cas current d).disk)
        (cluster_cas_to_bytes cas)
      ≡ true
unfolding refresh_with unchanged reload_result
refresh_with-IsWritten c path cas d none read fresh h = elim h [
  | inl e ↦ ground (arith, e)
  | inr (e, f) ↦ ground (arith, f)
]
refresh_with-IsWritten c path cas d (some text) read fresh h =
    let body = cluster_cas_to_bytes cas in
    let w = write_keys c.write_calls path body d in
    elim (Bool-cases (ssh_pub_key_sets_equal text body)) [
      | inl same ↦ ground (arith, same, ap (λ t. ssh_pub_key_sets_equal t body) (read text refl))
      | inr differ ↦ elim (Result-cases w.result) [
        | inl (e, failed) ↦ elim h [
          | inl f ↦ ground (arith, differ, failed, f)
          | inr (g, f) ↦ ground (arith, differ, failed, f)
        ]
        | inr (u, done) ↦
            let put = write_keys_done c.write_calls path body d fresh done in
            ground (
              arith,
              differ,
              done,
              ap (λ t. ssh_pub_key_sets_equal t body) put,
              ssh_pub_key_sets_equal_refl body,
            )
      ]
    ]

refresh_with_same :
    (c : RefreshCalls) (path : Text) (cas : List ClusterCa) (text : Text) (d : Disk)
    → ssh_pub_key_sets_equal text (cluster_cas_to_bytes cas) ≡ true
    → refresh_with c path cas (some text) d ≡ unchanged (ok tt) d
unfolding refresh_with
refresh_with_same c path cas text d h = ground (arith, h)

read_current-key_text :
    (c : RefreshCalls) (path : Text) (d : Disk) (text : Text)
    → read_current c path d ≡ some text
    → text ≡ key_text path d
unfolding read_current text_of
read_current-key_text c path d text h = ground (arith, h)

read_current_ok :
    (c : RefreshCalls) (path : Text) (d : Disk)
    → c.read_ok ≡ true
    → read_current c path d ≡ some (key_text path d)
unfolding read_current text_of
read_current_ok c path d h = ground (arith, h)

-- The name that CreateTemp chose was free, and is not the key file.
abbrev pub FreshKeyTemp : RefreshCalls → Text → Disk → Type 0
FreshKeyTemp c path d =
    (tmp : Text) → c.write_calls.tmp_name ≡ some tmp → (tmp ≢ path) × (lookup tmp d ≡ none)

module _ (N : Network) where
  refresh_at_ok :
      (c : RefreshCalls) (path : Text) (root_pool : Option N.Pool) (url : Text) (urls : List Text)
      (d : Disk) (cas : List ClusterCa)
      → collect_cluster_cas N root_pool (url ∷ urls) ≡ ok cas
      → refresh_trusted_cas N c path root_pool (url ∷ urls) d
        ≡ refresh_with c path cas (read_current c path d) d
  unfolding refresh_trusted_cas
  refresh_at_ok c path root_pool url urls d cas found = ground (arith, found)

  abbrev HasCollected : Option N.Pool → List Text → Text → Disk → Type 0
  HasCollected root_pool urls path d =
      (cas : List ClusterCa) × ((collect_cluster_cas N root_pool urls ≡ ok cas)
        × (ssh_pub_key_sets_equal (key_text path d) (cluster_cas_to_bytes cas) ≡ true))

  refresh_trusted_cas-HasCollected :
      (c : RefreshCalls) (path : Text) (root_pool : Option N.Pool) (url : Text) (urls : List Text)
      (d : Disk)
      → FreshKeyTemp c path d
      → IsWritten (refresh_trusted_cas N c path root_pool (url ∷ urls) d).result
      → HasCollected root_pool
          (url ∷ urls)
          path
          (refresh_trusted_cas N c path root_pool (url ∷ urls) d).disk
  unfolding refresh_trusted_cas unchanged
  refresh_trusted_cas-HasCollected c path root_pool url urls d fresh h =
      elim (Result-cases (collect_cluster_cas N root_pool (url ∷ urls))) [
        | inl (e, failed) ↦ elim h [
          | inl f ↦ ground (arith, failed, f)
          | inr (g, f) ↦ ground (arith, failed, f)
        ]
        | inr (cas, found) ↦
            let same = refresh_at_ok c path root_pool url urls d cas found in
            (
              cas,
              (
                found,
                ap (λ r. ssh_pub_key_sets_equal (key_text path r.disk) (cluster_cas_to_bytes cas))
                      same
                    ∙ refresh_with-IsWritten c path cas d (read_current c path d)
                        (read_current-key_text c path d) fresh
                        (subst (λ r. IsWritten r.result) same h),
              ),
            )
      ]

  -- A refresh over at least one controller that ends without an error, or with one of the reload
  -- only, leaves a key file with the keys that the controllers present, each once: for every line, if
  -- the encodings of a key determine it and are single lines, and the temporary name was free.
  pub refresh_trusted_cas_done :
      IsNetwork N
      → (c : RefreshCalls) (path : Text) (root_pool : Option N.Pool) (url : Text) (urls : List Text)
        (d : Disk)
      → FreshKeyTemp c path d
      → let r = refresh_trusted_cas N c path root_pool (url ∷ urls) d in
        IsWritten r.result
        → (z : Text)
        → occurrences z (non_empty_lines (key_text path r.disk))
          ≡ (if any (offers N root_pool (z ++ b'\n' ∷ [])) (url ∷ urls) then 1 else 0)
  refresh_trusted_cas_done ins c path root_pool url urls d fresh h z =
      let (cas, (found, same)) =
        refresh_trusted_cas-HasCollected c path root_pool url urls d fresh h in
      let r = refresh_trusted_cas N c path root_pool (url ∷ urls) d in
      (ssh_pub_key_sets_equal_iff (key_text path r.disk) (cluster_cas_to_bytes cas)).0 same z
      ∙ occurrences-cluster_cas_to_bytes cas z
          (collect_cluster_cas_lines N ins root_pool (url ∷ urls) cas found)
      ∙ collect_cluster_cas_once N ins root_pool (url ∷ urls) cas found (z ++ b'\n' ∷ [])

  -- A refresh after one that ended without an error, or with one of the reload only, changes no file
  -- and runs no command, if the controllers present the same keys and the key file can be read. So a
  -- reload that sshd refused is not tried again.
  pub refresh_trusted_cas_again :
      (c c' : RefreshCalls) (path : Text) (root_pool : Option N.Pool) (url : Text)
      (urls : List Text) (d : Disk)
      → FreshKeyTemp c path d
      → c'.read_ok ≡ true
      → let r = refresh_trusted_cas N c path root_pool (url ∷ urls) d in
        IsWritten r.result
        → refresh_trusted_cas N c' path root_pool (url ∷ urls) r.disk ≡ unchanged (ok tt) r.disk
  refresh_trusted_cas_again c c' path root_pool url urls d fresh readable h =
      let (cas, (found, same)) =
        refresh_trusted_cas-HasCollected c path root_pool url urls d fresh h in
      let r = refresh_trusted_cas N c path root_pool (url ∷ urls) d in
      refresh_at_ok c' path root_pool url urls r.disk cas found
      ∙ ap (λ o. refresh_with c' path cas o r.disk) (read_current_ok c' path r.disk readable)
      ∙ refresh_with_same c' path cas (key_text path r.disk) r.disk same
