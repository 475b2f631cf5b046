-- ===== src/Ca/Cert.antt =====
-- SignCert of ca/ca.go. golang.org/x/crypto/ssh is a parameter: its keys, the signer, and what
-- signing a certificate gives, with the text in authorized_keys format.
pub mod Laws
use ziti_ssh.Prelude.{
  ℕ, zero, suc, ◌+◌, ◌-◌, ◌/◌, ◌%◌, ◌^◌, ◌≤◌, ◌≡◌, refl, Bool, true, false, not, ◌&&◌, ◌||◌, List,
  [], ◌∷◌, ◌++◌, ◌==◌, leb, ltb, if◌then◌else◌, Option, none, some, Result, ok, err,
}
use ziti_ssh.Text.{Text, is_empty, codes}

-- ssh.Certificate, with the fields that SignCert fills in
pub record Certificate (K : Type 0) : Type 0 where
  pub key : K
  pub key_id : Text
  pub valid_principals : List Text
  pub valid_after : ℕ
  pub valid_before : ℕ
  pub extensions : List Text

pub record Ssh : Type 1 where
  pub PublicKey : Type 0
  pub Signer : Type 0
  pub Signed : Type 0
  -- Certificate.SignCert with rand.Reader; `none` is its error
  pub sign : Signer → Certificate PublicKey → Option Signed
  -- MarshalAuthorizedKey of a certificate and of a plain key
  pub marshal_cert : Signed → Text
  pub marshal_key : PublicKey → Text
  -- ParseAuthorizedKey, for a line that holds a plain key
  pub parse_key : Text → Option PublicKey
  -- the certificate that the signature covers
  pub contents : Signed → Certificate PublicKey

pub data CertError : Type 0 where
  empty_identity empty_principal sign_failed : CertError

abbrev pub second : ℕ
second = 1000000000

-- uint64(t.Unix()) of a time in nanoseconds since 1970
unfoldable pub unix : ℕ → ℕ
unix t = t / second % 2 ^ 64

module _ (s : Ssh) where
  open s use {PublicKey, Signer, sign, marshal_cert}

  unfoldable pub user_certificate : PublicKey → Text → Text → ℕ → ℕ → Certificate PublicKey
  user_certificate pub_key identity principal ttl now = record {
    key = pub_key;
    key_id = codes "ziti:" ++ identity;
    valid_principals = principal ∷ [];
    valid_after = unix now;
    valid_before = unix (now + ttl);
    extensions =
        codes "permit-pty" ∷ codes "permit-port-forwarding" ∷ codes "permit-agent-forwarding" ∷ [];
  }

  -- `now` is what time.Now returned
  unfoldable pub sign_cert : Signer → PublicKey → Text → Text → ℕ → ℕ → Result CertError Text
  sign_cert signer pub_key identity principal ttl now =
      if is_empty identity
      then err empty_identity
      else if is_empty principal
      then err empty_principal
      else elim (sign signer (user_certificate pub_key identity principal ttl now)) [
        | none ↦ err sign_failed
        | some signed ↦ ok (marshal_cert signed)
      ]
