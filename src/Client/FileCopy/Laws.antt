-- ===== src/Client/FileCopy/Laws.antt =====
-- What a copied file holds.
use ziti_ssh.Prelude.{
  ℕ, ◌≡◌, ◌⊎◌, inl, inr, ap, sym, ◌∙◌, Bool, true, ◌&&◌, if◌then◌else◌, Option, none, some, ok, err,
  take, arith, Option-cases, Bool-cases,
}
use ziti_ssh.Text.{Text, text_eq_refl}
use ziti_ssh.Dict.{lookup, insert, lookup-insert}
use ziti_ssh.Disk.{File, Disk}
use ziti_ssh.Client.FileCopy.{
  CopyError, CopyCalls, permissions, opened_mode, copy_file, source_file, upload_file,
  download_file,
}

source_file-some :
    (c : CopyCalls) (path : Text) (d : Disk) (f : File)
    → source_file c path d ≡ some f
    → lookup path d ≡ some f
unfolding source_file
source_file-some c path d f h = ground (arith, h)

-- An upload without an error has put the file under its remote path, with the mode of Chmod if that
-- works, and changed no other file.
pub upload_file_ok :
    (created : ℕ) (c : CopyCalls) (preserve : Bool) (local_path remote_path : Text)
    (here there : Disk)
    → let r = upload_file created c preserve local_path remote_path here there in
      r.result ≡ ok tt
      → (f : File) × (lookup local_path here ≡ some f)
        × (r.disk
            ≡ insert remote_path
                (record {
                  content = f.content;
                  mode =
                      if c.chmod_ok
                      then permissions preserve f
                      else opened_mode created (lookup remote_path there);
                })
                there)
unfolding upload_file copy_file
upload_file_ok created c preserve local_path remote_path here there h =
    elim (Option-cases (source_file c local_path here)) [
      | inl e ↦ absurd (ground (arith, h, e))
      | inr (f, e) ↦ (f, source_file-some c local_path here f e, ground (arith, h, e))
    ]

-- A download without an error has put the file under its local path, with the mode of its creation
-- or of the file that was there, and changed no other file.
pub download_file_ok :
    (masked : ℕ → ℕ) (c : CopyCalls) (preserve : Bool) (remote_path local_path : Text)
    (there here : Disk)
    → let r = download_file masked c preserve remote_path local_path there here in
      r.result ≡ ok tt
      → (f : File) × (lookup remote_path there ≡ some f)
        × (r.disk
            ≡ insert local_path
                (record {
                  content = f.content;
                  mode = opened_mode (masked (permissions preserve f)) (lookup local_path here);
                })
                here)
unfolding download_file copy_file
download_file_ok masked c preserve remote_path local_path there here h =
    elim (Option-cases (source_file c remote_path there)) [
      | inl e ↦ absurd (ground (arith, h, e))
      | inr (f, e) ↦ (f, source_file-some c remote_path there f e, ground (arith, h, e))
    ]

-- After a download with an error nothing has changed, or the local path has a beginning of the file.
pub download_file_err :
    (masked : ℕ → ℕ) (c : CopyCalls) (preserve : Bool) (remote_path local_path : Text)
    (there here : Disk) (e : CopyError)
    → let r = download_file masked c preserve remote_path local_path there here in
      r.result ≡ err e
      → (r.disk ≡ here)
        ⊎ ((f : File) × (n : ℕ) × (lookup remote_path there ≡ some f)
            × (r.disk
                ≡ insert local_path
                    (record {
                      content = take n f.content;
                      mode = opened_mode (masked (permissions preserve f)) (lookup local_path here);
                    })
                    here))
unfolding download_file copy_file
download_file_err masked c preserve remote_path local_path there here e h =
    elim (Option-cases (source_file c remote_path there)) [
      | inl s ↦ inl (ground (arith, s))
      | inr (f, s) ↦ elim (Bool-cases (c.make_dir_ok && c.create_ok)) [
        | inl k ↦ elim (Option-cases c.broken_after) [
          | inl b ↦ absurd (ground (arith, h, s, k, b))
          | inr (n, b) ↦
              inr (f, n, source_file-some c remote_path there f s, ground (arith, s, k, b))
        ]
        | inr k ↦ inl (ground (arith, s, k))
      ]
    ]

-- What comes back of a file, by what was there before.
abbrev pub IsReturned :
    (preserve chmod_ok : Bool) (masked : ℕ → ℕ) → File → Option File → File → Type 0
IsReturned preserve chmod_ok masked f before g =
    (g.content ≡ f.content)
    × (chmod_ok ≡ true → before ≡ none → g.mode ≡ masked (permissions preserve f))
    × ((old : File) → before ≡ some old → g.mode ≡ old.mode)

lookup-insert_here : (k : Text) (f : File) (d : Disk) → lookup k (insert k f d) ≡ some f
lookup-insert_here k f d = ground (arith, lookup-insert k k f d, text_eq_refl k)

-- A file that is uploaded and downloaded again without an error has the content that it had. Under a
-- new path it has the mode that the umask leaves of its own with -p, and of 0644 without, if Chmod
-- worked; over a file that was there it has that file's mode, with -p too.
pub download_file-upload_file :
    (created : ℕ) (masked : ℕ → ℕ) (c c' : CopyCalls) (preserve : Bool)
    (local_path remote_path back_path : Text) (here there back : Disk)
    → let up = upload_file created c preserve local_path remote_path here there in
      let down = download_file masked c' preserve remote_path back_path up.disk back in
      up.result ≡ ok tt
      → down.result ≡ ok tt
      → (f : File) × (g : File) × (lookup local_path here ≡ some f)
        × (lookup back_path down.disk ≡ some g)
        × IsReturned preserve c.chmod_ok masked f (lookup back_path back) g
unfolding opened_mode permissions
download_file-upload_file created masked c c' preserve local_path remote_path back_path here there
      back h k =
    let (f, own, sent) = upload_file_ok created c preserve local_path remote_path here there h in
    let up = (upload_file created c preserve local_path remote_path here there).disk in
    let (m, found, got) = download_file_ok masked c' preserve remote_path back_path up back k in
    let mode =
      (if c.chmod_ok
        then permissions preserve f
        else opened_mode created (lookup remote_path there)) in
    let left : File = record { content = f.content; mode = mode } in
    let same : some left ≡ some m =
      sym (lookup-insert_here remote_path left there)
      ∙ ap (lookup remote_path) (sym sent)
      ∙ found in
    let g : File = record {
      content = m.content;
      mode = opened_mode (masked (permissions preserve m)) (lookup back_path back);
    } in
    (
      f,
      g,
      own,
      ap (lookup back_path) got ∙ lookup-insert_here back_path g back,
      (ground (arith, same), (λ q e. ground (arith, same, q, e)), (λ old e. ground (arith, e))),
    )
