-- ===== src/Config/AtomicWrite/Laws.antt =====
-- An atomic write leaves the old file or the new one, wherever it is cut off.
use ziti_ssh.Prelude.{
  ℕ, ◌≡◌, ◌≢◌, refl, sym, ap, ◌∙◌, true, List, [], ◌∷◌, if◌then◌else◌, Option, none, some, ok, err,
  arith, All, ◌⊎◌, inl, inr,
}
use ziti_ssh.Text.{Text, text_eq, text_eq_refl, text_eq_ne, text_dec}
use ziti_ssh.Dict.{lookup, insert, remove, lookup-insert, lookup-remove}
use ziti_ssh.Disk.{Disk, File, Run, rename, Always}
use ziti_ssh.Config.AtomicWrite.{
  Calls, WriteError, atomic_write_file, host_atomic_write_file, stage, plain_finish, host_finish,
  fill, created_file, written_file, ready_file,
}

module _ (c : Calls) (dest body : Text) (mode : ℕ) (d : Disk) where
  abbrev pub new_file : File
  new_file = record { content = body; mode = mode }

  -- A disk on which the destination is what it was, or the new file.
  abbrev pub OldOrNew : Disk → Type 0
  OldOrNew s = (lookup dest s ≡ lookup dest d) ⊎ (lookup dest s ≡ some new_file)

  -- What CreateTemp promises: the name that it chose was free, and it is not the destination.
  abbrev pub FreshTemp : Type 0
  FreshTemp = (tmp : Text) → c.tmp_name ≡ some tmp → (tmp ≢ dest) × (lookup tmp d ≡ none)

  lookup-insert_ne :
      (k j : Text) (f : File) (s : Disk) → k ≢ j → lookup j (insert k f s) ≡ lookup j s
  lookup-insert_ne k j f s h = ground (arith, lookup-insert k j f s)

  pub lookup-remove_ne : (k j : Text) (s : Disk) → k ≢ j → lookup j (remove k s) ≡ lookup j s
  lookup-remove_ne k j s h = ground (arith, lookup-remove k j s)

  pub lookup-rename :
      (tmp : Text) (f : File) (s : Disk) (j : Text)
      → tmp ≢ dest
      → lookup j (rename tmp dest (insert tmp f s))
        ≡ (if text_eq dest j then some f else if text_eq tmp j then none else lookup j s)
  unfolding rename
  lookup-rename tmp f s j h = ground (
    arith,
    text_eq_refl tmp,
    lookup-insert tmp tmp f s,
    lookup-insert tmp j f s,
    lookup-remove tmp j (insert tmp f s),
    lookup-insert dest j f (remove tmp (insert tmp f s)),
  )

  OldOrNew-insert :
      (tmp : Text) (f : File) (s : Disk) → tmp ≢ dest → OldOrNew s → OldOrNew (insert tmp f s)
  OldOrNew-insert tmp f s ne h = rw (lookup-insert_ne tmp dest f s ne) h

  OldOrNew-remove : (tmp : Text) (s : Disk) → tmp ≢ dest → OldOrNew s → OldOrNew (remove tmp s)
  OldOrNew-remove tmp s ne h = rw (lookup-remove_ne tmp dest s ne) h

  -- What an end of the run must keep.
  abbrev Keeps : (Text → Disk → List Disk → Run WriteError) → Type 0
  Keeps finish =
      (tmp : Text) (s : Disk) (past : List Disk)
      → tmp ≢ dest
      → OldOrNew s
      → All OldOrNew past
      → Always OldOrNew (finish tmp s past)

  fill-OldOrNew :
      (finish : Text → Disk → List Disk → Run WriteError)
      → Keeps finish
      → (tmp : Text) → tmp ≢ dest
      → Always OldOrNew (fill c finish dest body mode d tmp)
  unfolding fill
  fill-OldOrNew finish keeps tmp ne =
      let d1 = insert tmp created_file d in
      let d2 = insert tmp (written_file c body) d1 in
      let d3 = insert tmp (ready_file body mode) d2 in
      let created = OldOrNew-insert tmp created_file d ne (inl refl) in
      let written = OldOrNew-insert tmp (written_file c body) d1 ne created in
      let ready = OldOrNew-insert tmp (ready_file body mode) d2 ne written in
      let undone = OldOrNew-remove tmp d2 ne written in
      let gone = OldOrNew-remove tmp d3 ne ready in
      let renamed : OldOrNew (rename tmp dest d3) =
        inr (lookup-rename tmp (ready_file body mode) d2 dest ne ∙ rw (text_eq_refl dest) refl) in
      let done =
        keeps tmp (rename tmp dest d3) (d3 ∷ d2 ∷ d1 ∷ d ∷ []) ne renamed
          (ready, (written, (created, (inl refl, tt)))) in
      ground (arith, created, written, ready, undone, gone, done)

  stage-OldOrNew :
      (finish : Text → Disk → List Disk → Run WriteError)
      → Keeps finish
      → (name : Option Text) → ((tmp : Text) → name ≡ some tmp → tmp ≢ dest)
      → Always OldOrNew (stage c finish dest body mode d name)
  unfolding stage
  stage-OldOrNew finish keeps none fresh = (inl refl, tt)
  stage-OldOrNew finish keeps (some tmp) fresh = fill-OldOrNew finish keeps tmp (fresh tmp refl)

  -- Whichever calls fail and wherever the run is cut off, the destination has the old file or the
  -- whole new one, if the temporary file's name was free and not the destination.
  pub atomic_write_file-OldOrNew :
      FreshTemp → Always OldOrNew (atomic_write_file c dest body mode d)
  unfolding atomic_write_file
  atomic_write_file-OldOrNew fresh =
      stage-OldOrNew plain_finish (λ tmp s past ne h hs. (h, hs)) c.tmp_name
        (λ tmp e. (fresh tmp e).0)

  host_finish-Keeps : Keeps (host_finish c)
  unfolding host_finish
  host_finish-Keeps tmp s past ne h hs =
      let gone = OldOrNew-remove tmp s ne h in ground (arith, gone)

  -- With the copy in package host too, the destination has the old file or the whole new one,
  -- wherever the run is cut off, if the temporary file's name was free and not the destination.
  pub host_atomic_write_file-OldOrNew :
      FreshTemp → Always OldOrNew (host_atomic_write_file c dest body mode d)
  unfolding host_atomic_write_file
  host_atomic_write_file-OldOrNew fresh =
      stage-OldOrNew (host_finish c) host_finish-Keeps c.tmp_name (λ tmp e. (fresh tmp e).0)

  undo :
      (tmp k : Text) (s : Disk)
      → lookup tmp d ≡ none
      → ((j : Text) → tmp ≢ j → lookup j s ≡ lookup j d)
      → lookup k (remove tmp s) ≡ lookup k d
  undo tmp k s free other = elim (text_dec tmp k) [
    | yes e ↦ rw (← e) (lookup-remove tmp tmp s ∙ rw (text_eq_refl tmp) (sym free))
    | no ne ↦ lookup-remove_ne tmp k s ne ∙ other k ne
  ]

  -- what the steps before the rename do to another path
  other_path :
      (tmp j : Text) (f g : File) → tmp ≢ j → lookup j (insert tmp f (insert tmp g d)) ≡ lookup j d
  other_path tmp j f g ne = lookup-insert_ne tmp j f _ ne ∙ lookup-insert_ne tmp j g d ne

  fill_rollback :
      (tmp k : Text) {e : WriteError}
      → lookup tmp d ≡ none
      → c.remove_ok ≡ true
      → (fill c plain_finish dest body mode d tmp).result ≡ err e
      → lookup k (fill c plain_finish dest body mode d tmp).disk ≡ lookup k d
  unfolding fill plain_finish
  fill_rollback tmp k free removes failed =
      let created = insert tmp created_file d in
      let written = insert tmp (written_file c body) created in
      let undone = undo tmp k written free (λ j ne. other_path tmp j _ _ ne) in
      let gone =
        undo tmp k (insert tmp (ready_file body mode) written) free
          (λ j ne. lookup-insert_ne tmp j _ _ ne ∙ other_path tmp j _ _ ne) in
      ground (arith, undone, gone)

  stage_rollback :
      (name : Option Text) (k : Text) {e : WriteError}
      → ((tmp : Text) → name ≡ some tmp → lookup tmp d ≡ none)
      → c.remove_ok ≡ true
      → (stage c plain_finish dest body mode d name).result ≡ err e
      → lookup k (stage c plain_finish dest body mode d name).disk ≡ lookup k d
  unfolding stage
  stage_rollback none k free removes failed = refl
  stage_rollback (some tmp) k free removes failed =
      fill_rollback tmp k (free tmp refl) removes failed

  -- A write that returns an error, and whose clean-up can remove the temporary file, has changed
  -- no file at all.
  pub atomic_write_file_rollback :
      (k : Text) {e : WriteError}
      → FreshTemp
      → c.remove_ok ≡ true
      → (atomic_write_file c dest body mode d).result ≡ err e
      → lookup k (atomic_write_file c dest body mode d).disk ≡ lookup k d
  unfolding atomic_write_file
  atomic_write_file_rollback k fresh removes failed =
      stage_rollback c.tmp_name k (λ tmp e. (fresh tmp e).1) removes failed

  renamed_path :
      (tmp k : Text)
      → tmp ≢ dest
      → lookup tmp d ≡ none
      → lookup k (
          rename tmp dest (
            insert tmp
              (ready_file body mode)
              (insert tmp (written_file c body) (insert tmp created_file d))))
        ≡ (if text_eq dest k then some new_file else lookup k d)
  renamed_path tmp k ne free =
      lookup-rename tmp (ready_file body mode) _ k ne ∙ elim (text_dec tmp k) [
        | yes e ↦ rw (← e) (rw (text_eq_refl tmp, free) refl)
        | no other ↦
            rw (text_eq_ne tmp k other)
              (ap (λ o. if text_eq dest k then some new_file else o) (other_path tmp k _ _ other))
      ]

  fill_done :
      (tmp k : Text)
      → tmp ≢ dest
      → lookup tmp d ≡ none
      → (fill c plain_finish dest body mode d tmp).result ≡ ok tt
      → lookup k (fill c plain_finish dest body mode d tmp).disk
        ≡ (if text_eq dest k then some new_file else lookup k d)
  unfolding fill plain_finish
  fill_done tmp k ne free done = let renamed = renamed_path tmp k ne free in ground (arith, renamed)

  stage_done :
      (name : Option Text) (k : Text)
      → ((tmp : Text) → name ≡ some tmp → (tmp ≢ dest) × (lookup tmp d ≡ none))
      → (stage c plain_finish dest body mode d name).result ≡ ok tt
      → lookup k (stage c plain_finish dest body mode d name).disk
        ≡ (if text_eq dest k then some new_file else lookup k d)
  unfolding stage
  stage_done none k fresh done = cc
  stage_done (some tmp) k fresh done = fill_done tmp k (fresh tmp refl).0 (fresh tmp refl).1 done

  -- A write that succeeds has put the body at the destination, with its mode, and changed no other
  -- file; its temporary file is gone.
  pub atomic_write_file_done :
      (k : Text)
      → FreshTemp
      → (atomic_write_file c dest body mode d).result ≡ ok tt
      → lookup k (atomic_write_file c dest body mode d).disk
        ≡ (if text_eq dest k then some new_file else lookup k d)
  unfolding atomic_write_file
  atomic_write_file_done k fresh done = stage_done c.tmp_name k fresh done
