-- ===== src/Host/Sudoers/Files.antt =====
-- What createSudoers leaves on the disk.
use ziti_ssh.Prelude.{◌≡◌, ◌≢◌, refl, ◌∙◌, true, Option, none, some, Result, ok, err, arith}
use ziti_ssh.Text.{Text, text_eq_refl}
use ziti_ssh.Dict.{lookup, insert, remove, lookup-insert, lookup-remove}
use ziti_ssh.Disk.{Disk, File, rename}
use ziti_ssh.Host.Sudoers.{
  SudoersCalls, SudoersError, RuleError, validate_sudoers_rule, create_sudoers, stage_sudoers,
  drop_temp, sudoers_path, sudoers_content, sudoers_mode, write_temp, chmod_temp, visudo, install,
}

-- The rule is valid, visudo accepts the file, and the file is in place with its content and mode.
pub record IsInstalled (c : SudoersCalls) (username rule : Text) (after : Disk) : Type 0 where
  pub valid : validate_sudoers_rule rule ≡ ok tt
  pub checked : c.visudo_ok ≡ true
  pub in_place :
      lookup (sudoers_path username) after
      ≡ some (record { content = sudoers_content username rule; mode = sudoers_mode })

-- What a result says of the disk that comes with it.
abbrev pub Outcome :
    SudoersCalls → Text → Text → Disk → Result SudoersError (Unit {0}) × Disk → Type 0
Outcome c username rule d (ok u, after) = IsInstalled c username rule after
Outcome c username rule d (err e, after) =
    lookup (sudoers_path username) after ≡ lookup (sudoers_path username) d

module _ (c : SudoersCalls) (username rule : Text) (d : Disk) where
  dest : Text
  dest = sudoers_path username

  lookup-insert_ne :
      (k j : Text) (f : File) (s : Disk) → k ≢ j → lookup j (insert k f s) ≡ lookup j s
  lookup-insert_ne k j f s h = ground (arith, lookup-insert k j f s)

  lookup-remove_ne : (k j : Text) (s : Disk) → k ≢ j → lookup j (remove k s) ≡ lookup j s
  lookup-remove_ne k j s h = ground (arith, lookup-remove k j s)

  drop_temp_keeps :
      (e : SudoersError) (tmp : Text) (s : Disk)
      → tmp ≢ sudoers_path username
      → lookup (sudoers_path username) s ≡ lookup (sudoers_path username) d
      → Outcome c username rule d (drop_temp c e tmp s)
  unfolding drop_temp
  drop_temp_keeps e tmp s ne h =
      ground (arith, h, lookup-remove_ne tmp (sudoers_path username) s ne)

  rename_in_place :
      (tmp : Text) (f : File) (s : Disk)
      → lookup (sudoers_path username) (rename tmp (sudoers_path username) (insert tmp f s))
        ≡ some f
  unfolding rename
  rename_in_place tmp f s = ground (
    arith,
    text_eq_refl tmp,
    text_eq_refl (sudoers_path username),
    lookup-insert tmp tmp f s,
    lookup-insert (sudoers_path username) (sudoers_path username) f (remove tmp (insert tmp f s)),
  )

  stage_sudoers_outcome :
      (tmp : Text)
      → tmp ≢ sudoers_path username
      → validate_sudoers_rule rule ≡ ok tt
      → Outcome c username rule d (stage_sudoers c username rule tmp d)
  unfolding stage_sudoers
  stage_sudoers_outcome tmp ne valid =
      let part : File = record { content = c.partial; mode = 0o600 } in
      let partly = lookup-insert_ne tmp (sudoers_path username) part d ne in
      let body : File = record { content = sudoers_content username rule; mode = 0o600 } in
      let written = lookup-insert_ne tmp (sudoers_path username) body d ne in
      let ready_body : File = record {
        content = sudoers_content username rule;
        mode = sudoers_mode;
      } in
      let ready =
        lookup-insert_ne tmp (sudoers_path username) ready_body (insert tmp body d) ne ∙ written in
      ground (
        arith,
        valid,
        drop_temp_keeps write_temp tmp (insert tmp part d) ne partly,
        drop_temp_keeps chmod_temp tmp (insert tmp body d) ne written,
        drop_temp_keeps visudo tmp (insert tmp ready_body (insert tmp body d)) ne ready,
        drop_temp_keeps install tmp (insert tmp ready_body (insert tmp body d)) ne ready,
        rename_in_place tmp ready_body (insert tmp body d),
      )

  from_create_temp :
      (t : Option Text)
      → c.tmp_name ≡ t
      → ((tmp : Text) → c.tmp_name ≡ some tmp → tmp ≢ sudoers_path username)
      → validate_sudoers_rule rule ≡ ok tt
      → Outcome c username rule d (create_sudoers c username rule d)
  unfolding create_sudoers
  from_create_temp none ht fresh valid = ground (arith, ht, valid)
  from_create_temp (some tmp) ht fresh valid =
      ground (arith, ht, valid, stage_sudoers_outcome tmp (fresh tmp ht) valid)

  from_rule :
      (v : Result RuleError (Unit {0}))
      → validate_sudoers_rule rule ≡ v
      → ((tmp : Text) → c.tmp_name ≡ some tmp → tmp ≢ sudoers_path username)
      → Outcome c username rule d (create_sudoers c username rule d)
  from_rule (err e) valid fresh = unfold create_sudoers in ground (arith, valid)
  from_rule (ok u) valid fresh = from_create_temp c.tmp_name refl fresh valid

  -- The file is installed exactly if there is no error; an error leaves the user's file as it was,
  -- if the temporary file's name is not the user's file.
  pub create_sudoers_outcome :
      ((tmp : Text) → c.tmp_name ≡ some tmp → tmp ≢ sudoers_path username)
      → Outcome c username rule d (create_sudoers c username rule d)
  create_sudoers_outcome = from_rule (validate_sudoers_rule rule) refl
