-- ===== src/Client/Signer/Laws.antt =====
-- Which key a signer of NewCertSigner signs with, and which certificate it carries.
use ziti_ssh.Prelude.{
  ◌≡◌, ◌⊎◌, inl, inr, ap, sym, ◌∙◌, Bool, true, false, List, [], ◌∷◌, ◌++◌, some, ok, err, arith,
  Option-cases, Result-cases, subst,
}
use ziti_ssh.Text.{Text, codes}
use ziti_ssh.Disk.{Disk}
use ziti_ssh.Client.Signer.{
  usable, needs_passphrase, SshKeys, SignerError, AgentCalls, read_path, certificate_in,
  wrap_with_cert, pub_key_bytes_for_key, find_signer, Found, match_signer, new_signer_from_agent,
  new_cert_signer,
}

module _ (K : SshKeys) where
  open K use {Signer, parse_private, marshal, public_key, cert_signer}

  -- The certificate's signer if the certificate file has one for the key, and else the bare one: the
  -- second field leaves only the file's own certificate besides the bare signer.
  pub record IsWrapped (c : AgentCalls Signer) (key_path : Text) (d : Disk) (bare s : Signer)
      : Type 0 where
    pub with_cert :
        (text : Text) (cert : K.Certificate) (both : Signer)
        → read_path K c (key_path ++ codes "-cert.pub") d ≡ some text
        → certificate_in K text ≡ some cert
        → cert_signer cert bare ≡ some both
        → s ≡ both
    pub one_of :
        (s ≡ bare)
        ⊎ ((text : Text) × (cert : K.Certificate) × (read_path K c (key_path ++ codes "-cert.pub") d
              ≡ some text)
            × (certificate_in K text ≡ some cert)
            × (cert_signer cert bare ≡ some s))

  wrap_with_cert_one :
      (c : AgentCalls Signer) (bare : Signer) (key_path : Text) (d : Disk)
      → let s = wrap_with_cert K c bare key_path d in
        (s ≡ bare)
        ⊎ ((text : Text) × (cert : K.Certificate) × (read_path K c (key_path ++ codes "-cert.pub") d
              ≡ some text)
            × (certificate_in K text ≡ some cert)
            × (cert_signer cert bare ≡ some s))
  unfolding wrap_with_cert
  wrap_with_cert_one c bare key_path d =
      elim (Option-cases (read_path K c (key_path ++ codes "-cert.pub") d)) [
        | inl e ↦ inl (ground (arith, e))
        | inr (text, e) ↦ elim (Option-cases (certificate_in K text)) [
          | inl k ↦ inl (ground (arith, e, k))
          | inr (cert, k) ↦ elim (Option-cases (cert_signer cert bare)) [
            | inl q ↦ inl (ground (arith, e, k, q))
            | inr (both, q) ↦ inr (text, cert, e, k, ground (arith, e, k, q))
          ]
        ]
      ]

  wrap_with_cert-IsWrapped :
      (c : AgentCalls Signer) (bare : Signer) (key_path : Text) (d : Disk)
      → IsWrapped c key_path d bare (wrap_with_cert K c bare key_path d)
  unfolding wrap_with_cert
  wrap_with_cert-IsWrapped c bare key_path d = record {
    with_cert = λ text cert both h e k. ground (arith, h, e, k);
    one_of = wrap_with_cert_one c bare key_path d;
  }

  find_signer-some :
      (want : Text) (ss : List Signer) (s : Signer)
      → find_signer K want ss ≡ some s
      → marshal (public_key s) ≡ want
  unfolding find_signer
  find_signer-some want [] s h = cc
  find_signer-some want (t ∷ ss) s h = ground (arith, h, find_signer-some want ss s)

  -- Where a bare signer comes from, by whether the agent's connection stays open: the key file
  -- itself, or an agent that holds the key which the files name.
  abbrev pub HasSource : AgentCalls Signer → Text → Disk → Signer → Bool → Type 0
  HasSource c key_path d bare agent_open =
      (text : Text) × (read_path K c key_path d ≡ some text)
      × ((parse_private text ≡ usable bare) × (agent_open ≡ false)
          ⊎ ((parse_private text ≡ needs_passphrase)
              × (pub_key_bytes_for_key K c key_path d ≡ ok (marshal (public_key bare)))
              × (agent_open ≡ true)))

  match_signer_ok :
      (c : AgentCalls Signer) (key_path : Text) (signers : List Signer) (d : Disk) (s : Signer)
      → (match_signer K c key_path signers d).0 ≡ ok s
      → (bare : Signer) × (pub_key_bytes_for_key K c key_path d ≡ ok (marshal (public_key bare)))
        × (s ≡ wrap_with_cert K c bare key_path d)
        × ((match_signer K c key_path signers d).1 ≡ true)
  unfolding match_signer
  match_signer_ok c key_path signers d s h =
      elim (Result-cases (pub_key_bytes_for_key K c key_path d)) [
        | inl (e, failed) ↦ absurd (ground (arith, h, failed))
        | inr (want, got) ↦ elim (Option-cases (find_signer K want signers)) [
          | inl e ↦ absurd (ground (arith, h, got, e))
          | inr (bare, found) ↦ (
            bare,
            got ∙ ap (λ w. ok w) (sym (find_signer-some want signers bare found)),
            ground (arith, h, got, found),
            ground (arith, h, got, found),
          )
        ]
      ]

  agent_way :
      (c : AgentCalls Signer) (key_path : Text) (d : Disk) (s : Signer)
      → (new_signer_from_agent K c key_path d).0 ≡ ok s
      → (signers : List Signer) × (new_signer_from_agent K c key_path d
          ≡ match_signer K c key_path signers d)
  unfolding new_signer_from_agent
  agent_way c key_path d s h = elim (Option-cases c.signers) [
    | inl e ↦ absurd (ground (arith, h, e))
    | inr (signers, e) ↦ (signers, ground (arith, h, e))
  ]

  agent_err :
      (c : AgentCalls Signer) (key_path : Text) (d : Disk) (e : SignerError)
      → (new_signer_from_agent K c key_path d).0 ≡ err e
      → (new_signer_from_agent K c key_path d).1 ≡ false
  unfolding new_signer_from_agent match_signer
  agent_err c key_path d e h = ground (arith, h)

  new_cert_signer_err :
      (c : AgentCalls Signer) (key_path : Text) (d : Disk) (e : SignerError)
      → (new_cert_signer K c key_path d).0 ≡ err e
      → (new_cert_signer K c key_path d).1 ≡ false
  unfolding new_cert_signer
  new_cert_signer_err c key_path d e h = ground (arith, h, agent_err c key_path d e)

  -- Which way a signer came.
  new_cert_signer_ways :
      (c : AgentCalls Signer) (key_path : Text) (d : Disk) (s : Signer)
      → (new_cert_signer K c key_path d).0 ≡ ok s
      → (text : Text) × (read_path K c key_path d ≡ some text)
        × (((bare : Signer) × ((parse_private text ≡ usable bare)
                × (s ≡ wrap_with_cert K c bare key_path d)
                × ((new_cert_signer K c key_path d).1 ≡ false)))
            ⊎ ((parse_private text ≡ needs_passphrase)
                × (new_cert_signer K c key_path d ≡ new_signer_from_agent K c key_path d)))
  unfolding new_cert_signer
  new_cert_signer_ways c key_path d s h = ground (arith, h)

  -- A signer that is returned is for the key of the file: it is the file's key, or, if that has a
  -- passphrase, the agent's signer for the public key that the files name, whose connection stays
  -- open; with the certificate of the certificate file, if that is one for the key, and else bare.
  -- After an error no connection to the agent is open.
  pub new_cert_signer_lem :
      (c : AgentCalls Signer) (key_path : Text) (d : Disk)
      → ((s : Signer)
          → (new_cert_signer K c key_path d).0 ≡ ok s
          → (bare : Signer) × (HasSource c key_path d bare (new_cert_signer K c key_path d).1
              × IsWrapped c key_path d bare s))
        × ((e : SignerError)
            → (new_cert_signer K c key_path d).0 ≡ err e
            → (new_cert_signer K c key_path d).1 ≡ false)
  new_cert_signer_lem c key_path d = (
    (λ s h.
        let (text, read, ways) = new_cert_signer_ways c key_path d s h in
        elim ways [
          | inl (bare, own) ↦ (
            bare,
            (
              (text, read, inl (own.0, own.2)),
              subst (IsWrapped c key_path d bare) (sym own.1)
                  (wrap_with_cert-IsWrapped c bare key_path d),
            ),
          )
          | inr (locked, same) ↦
              let from_agent = ap (λ (r : Found K). r.0) (sym same) ∙ h in
              let (signers, way) = agent_way c key_path d s from_agent in
              let (bare, bytes, wrapped, left_open) =
                match_signer_ok c key_path signers d s
                  (ap (λ (r : Found K). r.0) (sym way) ∙ from_agent) in
              (
                bare,
                (
                  (
                    text,
                    read,
                    inr (locked, bytes, ap (λ (r : Found K). r.1) (same ∙ way) ∙ left_open),
                  ),
                  subst (IsWrapped c key_path d bare) (sym wrapped)
                      (wrap_with_cert-IsWrapped c bare key_path d),
                ),
              )
        ]),
    (λ e h. new_cert_signer_err c key_path d e h),
  )
