-- ===== src/Cli/Enroll/Laws.antt =====
-- What an enrolment leaves, and where it leaves it by default.
use ziti_ssh.Prelude.{
  ◌≡◌, ◌≢◌, ap, sym, ◌∙◌, ◌⊎◌, false, [], if◌then◌else◌, Option, none, some, ok, arith,
  Option-cases, inl, inr,
}
use ziti_ssh.Text.{Text, text_eq}
use ziti_ssh.Text.Trim.{trim_space}
use ziti_ssh.Dict.{lookup}
use ziti_ssh.Disk.{Disk}
use ziti_ssh.Config.AtomicWrite.{atomic_write_file}
use ziti_ssh.Config.AtomicWrite.Laws.{FreshTemp, atomic_write_file_done}
use ziti_ssh.Cli.Sign.{read_file}
use ziti_ssh.Cli.Enroll.{EnrollCalls, Enrolment, identity_mode, write_identity, run_enroll}

module _ {T C : Type 0} (parse_token : Text → Option T) (enroll : T → Option C)
    (marshal : C → Option Text) where
  -- The token of the file was spent, and the identity that it gave is in its file.
  abbrev pub IsEnrolled : EnrollCalls → (jwt_path out_path : Text) → Disk → Enrolment T → Type 0
  IsEnrolled c jwt_path out_path d r =
      (jwt : Text) × (token : T) × (cfg : C) × (json : Text) × ((read_file c.read_ok jwt_path d
          ≡ some jwt)
        × (parse_token (trim_space jwt) ≡ some token)
        × (enroll token ≡ some cfg)
        × (marshal cfg ≡ some json)
        × (r.spent ≡ some token)
        × ((k : Text)
            → lookup k r.disk ≡ (
                if text_eq out_path k
                then some (record { content = json; mode = identity_mode })
                else lookup k d)))

  write_identity_ok :
      (c : EnrollCalls) (out_path : Text) (token : T) (cfg : C) (d : Disk)
      → (write_identity parse_token enroll marshal c out_path token cfg d).result ≡ ok tt
      → (json : Text) × (marshal cfg ≡ some json)
        × ((atomic_write_file c.identity_calls out_path json identity_mode d).result ≡ ok tt)
        × ((write_identity parse_token enroll marshal c out_path token cfg d).disk
            ≡ (atomic_write_file c.identity_calls out_path json identity_mode d).disk)
  unfolding write_identity
  write_identity_ok c out_path token cfg d h = elim (Option-cases (marshal cfg)) [
    | inl e ↦ absurd (ground (arith, h, e))
    | inr (json, e) ↦ (json, e, ground (arith, h, e), ground (arith, h, e))
  ]

  write_identity_spent :
      (c : EnrollCalls) (out_path : Text) (token : T) (cfg : C) (d : Disk)
      → (write_identity parse_token enroll marshal c out_path token cfg d).spent ≡ some token
  unfolding write_identity
  write_identity_spent c out_path token cfg d = ground arith

  run_enroll_spent :
      (c : EnrollCalls) (jwt_path out_path : Text) (d : Disk) (jwt : Text) (token : T) (cfg : C)
      → read_file c.read_ok jwt_path d ≡ some jwt
      → parse_token (trim_space jwt) ≡ some token
      → enroll token ≡ some cfg
      → (run_enroll parse_token enroll marshal c jwt_path out_path d).spent ≡ some token
  unfolding run_enroll
  run_enroll_spent c jwt_path out_path d jwt token cfg e k q =
      ground (arith, e, k, q, write_identity_spent c out_path token cfg d)

  -- Either an enrolment stops before its token is spent, or it writes what the token gave.
  run_enroll_ways :
      (c : EnrollCalls) (jwt_path out_path : Text) (d : Disk)
      → let r = run_enroll parse_token enroll marshal c jwt_path out_path d in
        ((r.result ≢ ok tt) × (r.disk ≡ d) × (r.spent ≡ none))
        ⊎ ((jwt : Text) × (token : T) × (cfg : C) × (read_file c.read_ok jwt_path d ≡ some jwt)
            × (parse_token (trim_space jwt) ≡ some token)
            × (enroll token ≡ some cfg)
            × (r ≡ write_identity parse_token enroll marshal c out_path token cfg d))
  unfolding run_enroll
  run_enroll_ways c jwt_path out_path d = elim (Option-cases (read_file c.read_ok jwt_path d)) [
    | inl e ↦ inl ((λ h. ground (arith, h, e)), ground (arith, e), ground (arith, e))
    | inr (jwt, e) ↦ elim (Option-cases (parse_token (trim_space jwt))) [
      | inl k ↦ inl ((λ h. ground (arith, h, e, k)), ground (arith, e, k), ground (arith, e, k))
      | inr (token, k) ↦ elim (Option-cases (enroll token)) [
        | inl q ↦
            inl
              ((λ h. ground (arith, h, e, k, q)), ground (arith, e, k, q), ground (arith, e, k, q))
        | inr (cfg, q) ↦ inr (jwt, token, cfg, e, k, q, ground (arith, e, k, q))
      ]
    ]
  ]

  write_identity_no_dir :
      (c : EnrollCalls) (out_path : Text) (token : T) (cfg : C) (d : Disk)
      → c.make_dir ≡ false
      → let r = write_identity parse_token enroll marshal c out_path token cfg d in
        (r.disk ≡ d) × (r.result ≢ ok tt)
  unfolding write_identity
  write_identity_no_dir c out_path token cfg d e = (ground (arith, e), (λ h. ground (arith, h, e)))

  -- An enrolment without an error has spent the token of its file, and leaves the identity that the
  -- token gave in its file, with mode 0600; no other file has changed. One that spends no token
  -- changes no file and ends with an error. One that cannot make the directory does so too, but if
  -- its token is good, the token is spent. The temporary name was free.
  pub run_enroll_lem :
      (c : EnrollCalls) (jwt_path out_path : Text) (d : Disk)
      → FreshTemp c.identity_calls out_path [] identity_mode d
      → let r = run_enroll parse_token enroll marshal c jwt_path out_path d in
        (r.result ≡ ok tt → IsEnrolled c jwt_path out_path d r)
        × (r.spent ≡ none → (r.disk ≡ d) × (r.result ≢ ok tt))
        × (c.make_dir ≡ false
            → (r.disk ≡ d)
              × (r.result ≢ ok tt)
              × ((jwt : Text) (token : T) (cfg : C)
                  → read_file c.read_ok jwt_path d ≡ some jwt
                  → parse_token (trim_space jwt) ≡ some token
                  → enroll token ≡ some cfg
                  → r.spent ≡ some token))
  run_enroll_lem c jwt_path out_path d fresh = elim (run_enroll_ways c jwt_path out_path d) [
    | inl (failed, same, unspent) ↦ (
      (λ h. absurd (failed h)),
      (λ h. (same, failed)),
      (λ h. (
        same,
        failed,
        (λ jwt token cfg e k q. run_enroll_spent c jwt_path out_path d jwt token cfg e k q),
      )),
    )
    | inr (jwt, token, cfg, e, k, q, way) ↦
        let result = ap (λ (r : Enrolment T). r.result) way in
        let disk = ap (λ (r : Enrolment T). r.disk) way in
        let spent =
          ap (λ (r : Enrolment T). r.spent) way ∙ write_identity_spent c out_path token cfg d in
        (
          (λ h.
              let (json, m, w, left) = write_identity_ok c out_path token cfg d (sym result ∙ h) in
              (
                jwt,
                token,
                cfg,
                json,
                (
                  e,
                  k,
                  q,
                  m,
                  spent,
                  (λ j.
                      ap (lookup j) (disk ∙ left)
                      ∙ atomic_write_file_done c.identity_calls out_path json identity_mode d j
                          fresh w),
                ),
              )),
          (λ h. ground (arith, h, spent)),
          (λ h.
              let lost = write_identity_no_dir c out_path token cfg d h in
              (
                disk ∙ lost.0,
                (λ g. lost.1 (sym result ∙ g)),
                (λ jwt token cfg e k q. run_enroll_spent c jwt_path out_path d jwt token cfg e k q),
              )),
        )
  ]
