-- ===== src/Client/Signer.antt =====
-- NewCertSigner of client/ssh.go, with newSignerFromAgent, pubKeyBytesForKey and wrapWithCert: the
-- signer for a key file, its certificate included. The ssh package and the agent are parameters.
pub mod Laws
use ziti_ssh.Prelude.{
  ℕ, ◌≡◌, ◌⊎◌, inl, inr, refl, ap, sym, ◌∙◌, Bool, true, false, not, List, [], ◌∷◌, ◌++◌,
  if◌then◌else◌, Option, none, some, Result, ok, err, any, arith, Option-cases, Bool-cases,
  Result-cases, subst,
}
use ziti_ssh.Text.{Text, codes, text_eq, is_empty, text_eq_refl}
use ziti_ssh.Text.Trim.{trim_space}
use ziti_ssh.Dict.{lookup}
use ziti_ssh.Disk.{Disk}
use ziti_ssh.Cli.Sign.{read_file}

-- What ssh.ParsePrivateKey makes of a file.
pub data ParsedKey (S : Type 0) : Type 0 where
  usable : S → ParsedKey S
  needs_passphrase bad_key : ParsedKey S

-- ssh.ParseAuthorizedKey, with a certificate told from a plain key, the marshalled keys, and
-- ssh.NewCertSigner
pub record SshKeys : Type 1 where
  pub Signer : Type 0
  pub PublicKey : Type 0
  pub Certificate : Type 0
  pub parse_private : Text → ParsedKey Signer
  pub parse_authorized : Text → Option PublicKey
  pub as_certificate : PublicKey → Option Certificate
  pub marshal : PublicKey → Text
  pub certificate_key : Certificate → PublicKey
  pub public_key : Signer → PublicKey
  pub cert_signer : Certificate → Signer → Option Signer

pub data SignerError : Type 0 where
  key_not_read key_not_parsed no_agent_socket agent_not_dialled agent_keys_not_listed : SignerError
  no_cert_file cert_not_parsed not_a_certificate not_in_agent : SignerError

-- What the environment answers: which files can be read, and SSH_AUTH_SOCK, the dial and the agent's
-- signers.
pub record AgentCalls (S : Type 0) : Type 0 where
  pub can_read : Text → Bool
  pub socket : Text
  pub dial_ok : Bool
  pub signers : Option (List S)

module _ (K : SshKeys) where
  open K use {
    Signer, parse_private, parse_authorized, as_certificate, marshal, certificate_key, public_key,
    cert_signer,
  }

  abbrev pub read_path : AgentCalls Signer → Text → Disk → Option Text
  read_path c path d = read_file (c.can_read path) path d

  -- the certificate of a file, as far as there is one
  unfoldable pub certificate_in : Text → Option K.Certificate
  certificate_in text = elim (parse_authorized text) [ none ↦ none | some key ↦ as_certificate key ]

  unfoldable pub wrap_with_cert : AgentCalls Signer → Signer → Text → Disk → Signer
  unfolding certificate_in
  wrap_with_cert c signer key_path d = elim (read_path c (key_path ++ codes "-cert.pub") d) [
    | none ↦ signer
    | some text ↦ elim (certificate_in text) [
      | none ↦ signer
      | some cert ↦ elim (cert_signer cert signer) [ none ↦ signer | some both ↦ both ]
    ]
  ]

  -- the fallback on the certificate's key
  unfoldable pub cert_key_bytes : AgentCalls Signer → Text → Disk → Result SignerError Text
  cert_key_bytes c key_path d = elim (read_path c (key_path ++ codes "-cert.pub") d) [
    | none ↦ err no_cert_file
    | some text ↦ elim (parse_authorized text) [
      | none ↦ err cert_not_parsed
      | some key ↦ elim (as_certificate key) [
        | none ↦ err not_a_certificate
        | some cert ↦ ok (marshal (certificate_key cert))
      ]
    ]
  ]

  unfoldable pub pub_key_bytes_for_key : AgentCalls Signer → Text → Disk → Result SignerError Text
  unfolding cert_key_bytes
  pub_key_bytes_for_key c key_path d = elim (read_path c (key_path ++ codes ".pub") d) [
    | none ↦ cert_key_bytes c key_path d
    | some text ↦ elim (parse_authorized (trim_space text)) [
      | none ↦ cert_key_bytes c key_path d
      | some key ↦ ok (marshal key)
    ]
  ]

  -- the loop over the agent's signers
  unfoldable pub find_signer : Text → List Signer → Option Signer
  find_signer want [] = none
  find_signer want (s ∷ ss) =
      let rest = find_signer want ss in
      if text_eq (marshal (public_key s)) want then some s else rest

  -- A result, and whether a connection to the agent is left open.
  abbrev pub Found : Type 0
  Found = Result SignerError Signer × Bool

  -- from the list of signers on; the connection is open
  unfoldable pub match_signer : AgentCalls Signer → Text → List Signer → Disk → Found
  match_signer c key_path signers d = elim (pub_key_bytes_for_key c key_path d) [
    | err e ↦ (err e, false)
    | ok want ↦ elim (find_signer want signers) [
      | none ↦ (err not_in_agent, false)
      | some s ↦ (ok (wrap_with_cert c s key_path d), true)
    ]
  ]

  unfoldable pub new_signer_from_agent : AgentCalls Signer → Text → Disk → Found
  new_signer_from_agent c key_path d =
      if is_empty c.socket
      then (err no_agent_socket, false)
      else if not c.dial_ok
      then (err agent_not_dialled, false)
      else elim c.signers [
        | none ↦ (err agent_keys_not_listed, false)
        | some signers ↦ match_signer c key_path signers d
      ]

  unfoldable pub new_cert_signer : AgentCalls Signer → Text → Disk → Found
  new_cert_signer c key_path d = elim (read_path c key_path d) [
    | none ↦ (err key_not_read, false)
    | some text ↦ elim (parse_private text) [
      | usable signer ↦ (ok (wrap_with_cert c signer key_path d), false)
      | needs_passphrase ↦ new_signer_from_agent c key_path d
      | bad_key ↦ (err key_not_parsed, false)
    ]
  ]
