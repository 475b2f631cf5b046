-- ===== src/Ca/Cert/Laws.antt =====
-- What a certificate of SignCert says.
use ziti_ssh.Prelude.{ℕ, ◌+◌, ◌-◌, ◌*◌, ◌/◌, ◌^◌, ◌≤◌, ◌<◌, ◌≡◌, false, some, ok, arith}
use ziti_ssh.Text.{Text, is_empty}
use ziti_ssh.Ca.Cert.{Ssh, second, unix, user_certificate, sign_cert}

module _ (s : Ssh) where
  open s use {PublicKey, Signer, Signed, sign, marshal_cert}

  -- SignCert returns a certificate exactly if the identity and the principal are not empty and the
  -- signer accepts the certificate of the two; then it returns that certificate's text.
  pub sign_cert-ok :
      (signer : Signer) (key : PublicKey) (identity principal : Text) (ttl now : ℕ) (line : Text)
      → sign_cert s signer key identity principal ttl now ≡ ok line
      → (is_empty identity ≡ false)
        × (is_empty principal ≡ false)
        × ((d : Signed) × (sign signer (user_certificate s key identity principal ttl now) ≡ some d)
            × (line ≡ marshal_cert d))
  unfolding sign_cert
  sign_cert-ok signer key identity principal ttl now line h = ground arith

  -- A certificate holds from the second of its issue to the last whole second within its time to
  -- live: never before its issue, never beyond `ttl`, and for less than a second short of it.
  pub user_certificate_window :
      (key : PublicKey) (identity principal : Text) (ttl now : ℕ)
      → (now + ttl) / second < 2 ^ 64
      → let c = user_certificate s key identity principal ttl now in
        (c.valid_after * second ≤ now)
        × (c.valid_before * second ≤ now + ttl)
        × (now + ttl < (c.valid_before + 1) * second)
        × (c.valid_after ≤ c.valid_before)
        × (c.valid_before - c.valid_after ≤ ttl / second + 1)
  unfolding user_certificate unix
  user_certificate_window key identity principal ttl now h = omega arith
