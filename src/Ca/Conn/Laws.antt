-- ===== src/Ca/Conn/Laws.antt =====
-- What a client of the authority gets, and what it costs.
use ziti_ssh.Prelude.{
  ℕ, ◌≡◌, ◌≢◌, refl, ap, sym, ◌∙◌, true, false, List, [], ◌∷◌, none, some, arith, ◌⊎◌,
}
use ziti_ssh.Text.{Text, is_empty, Lacks, index_byte-none}
use ziti_ssh.Text.Trim.{trim_space}
use ziti_ssh.RateLimit.{Bucket, RateMap, allow}
use ziti_ssh.Ca.Username.Laws.{is_empty-derive_username}
use ziti_ssh.Ca.Cert.{Ssh, user_certificate, sign_cert}
use ziti_ssh.Ca.Conn.{
  Request, Server, Served, caller_identity, max_request, take_bytes, read_line, effective_principal,
  handle_conn, rate_message, issued, limited, no_username, issue,
}

module _ (s : Ssh) (b : Bucket) (to_lower : ℕ → ℕ) where
  open s use {PublicKey, Signer, Signed, sign, marshal_cert, parse_key}
  open b use {Limiter}

  -- What stands behind an issued certificate.
  pub record IsIssued (v : Server s b to_lower) (r : Request) (m : RateMap Limiter)
      (written : List Text) : Type 0 where
    pub line : Text
    pub key : PublicKey
    pub signed : Signed
    pub named : is_empty (caller_identity r.caller) ≡ false
    pub read : read_line r.input ≡ some line
    pub parsed : parse_key (trim_space line) ≡ some key
    pub allowed : (allow b (caller_identity r.caller) r.limiter_now m).1 ≡ true
    pub signature :
        sign v.signer (
          user_certificate s key
            (caller_identity r.caller)
            (effective_principal s b to_lower v (caller_identity r.caller))
            v.cert_ttl
            r.signer_now)
        ≡ some signed
    pub sent : written ≡ marshal_cert signed ∷ []

  issue_issued :
      (v : Server s b to_lower) (r : Request) (identity line : Text) (m : RateMap Limiter)
      → (issue s b to_lower v r identity line m).ending ≡ issued
      → (key : PublicKey) × (signed : Signed) × (parse_key line ≡ some key)
        × (sign v.signer (
              user_certificate s key identity
                (effective_principal s b to_lower v identity)
                v.cert_ttl
                r.signer_now)
            ≡ some signed)
        × ((issue s b to_lower v r identity line m).written ≡ marshal_cert signed ∷ [])
  unfolding issue sign_cert
  issue_issued v r identity line m h = ground arith

  -- The request got as far as the parser.
  handle_conn-reaches :
      (v : Server s b to_lower) (r : Request) (m : RateMap Limiter)
      → (handle_conn s b to_lower v r m).ending ≡ issued
      → (line : Text) × (read_line r.input ≡ some line)
        × (is_empty (caller_identity r.caller) ≡ false)
        × ((allow b (caller_identity r.caller) r.limiter_now m).1 ≡ true)
        × (handle_conn s b to_lower v r m
            ≡ issue s b to_lower v r
                (caller_identity r.caller)
                (trim_space line)
                (allow b (caller_identity r.caller) r.limiter_now m).0)
  unfolding handle_conn
  handle_conn-reaches v r m h = ground arith

  -- A certificate is sent only to a caller with a name, whose line is a key, whose limiter has a
  -- token, and it is the certificate for that name and for the principal of the server's mode.
  pub handle_conn-issued :
      (v : Server s b to_lower) (r : Request) (m : RateMap Limiter)
      → (handle_conn s b to_lower v r m).ending ≡ issued
      → IsIssued v r m (handle_conn s b to_lower v r m).written
  handle_conn-issued v r m h =
      let (line, read, named, allowed, same) = handle_conn-reaches v r m h in
      let (key, signed, parsed, signature, sent) =
        issue_issued v r (caller_identity r.caller) (trim_space line)
          (allow b (caller_identity r.caller) r.limiter_now m).0
          (ap (λ (x : Served Limiter). x.ending) (sym same) ∙ h) in
      record {
        line = line;
        key = key;
        signed = signed;
        named = named;
        read = read;
        parsed = parsed;
        allowed = allowed;
        signature = signature;
        sent = ap (λ (x : Served Limiter). x.written) same ∙ sent;
      }

  -- A request changes the table of limiters only by one `Allow` of the caller's own identity, and
  -- only for a line that is not blank: to ask for the authority's key costs nothing.
  pub handle_conn-limiter :
      (v : Server s b to_lower) (r : Request) (m : RateMap Limiter)
      → let after = (handle_conn s b to_lower v r m).limiter in
        (after ≡ m)
        ⊎ ((line : Text) × (read_line r.input ≡ some line)
            × (is_empty (trim_space line) ≡ false)
            × (after ≡ (allow b (caller_identity r.caller) r.limiter_now m).0))
  unfolding handle_conn
  handle_conn-limiter v r m = ground arith

  -- A named caller is never turned away for an empty user name: the test in the source never fires.
  handle_conn-no_username :
      (v : Server s b to_lower) (r : Request) (m : RateMap Limiter)
      → (handle_conn s b to_lower v r m).ending ≢ no_username
  unfolding handle_conn effective_principal
  handle_conn-no_username v r m h =
      ground (arith, is_empty-derive_username to_lower (caller_identity r.caller))

  -- At most one text is written: the authority's key to a blank line, the rate limit message where
  -- the caller's limiter has no token, or the certificate of an issued one.
  pub handle_conn-written :
      (v : Server s b to_lower) (r : Request) (m : RateMap Limiter)
      → let served = handle_conn s b to_lower v r m in
        (served.written ≡ [])
        ⊎ ((served.written ≡ v.ca_pub_bytes ∷ [])
            × ((line : Text) × (read_line r.input ≡ some line)
                × (is_empty (trim_space line) ≡ true)))
        ⊎ ((served.written ≡ rate_message ∷ [])
            × ((allow b (caller_identity r.caller) r.limiter_now m).1 ≡ false))
        ⊎ ((served.ending ≡ issued) × ((cert : Text) × (served.written ≡ cert ∷ [])))
  unfolding handle_conn
  handle_conn-written v r m = ground arith

  -- After the rate limit, the message is all that was written.
  pub handle_conn-limited :
      (v : Server s b to_lower) (r : Request) (m : RateMap Limiter)
      → (handle_conn s b to_lower v r m).ending ≡ limited
      → (handle_conn s b to_lower v r m).written ≡ rate_message ∷ []
  unfolding handle_conn
  handle_conn-limited v r m h = ground (arith, h)

-- A line that has no end within the first 4096 bytes is not read.
read_line_long :
    (input : Text) → Lacks b'\n' (take_bytes max_request input) → read_line input ≡ none
unfolding read_line
read_line_long input h = rw (index_byte-none _ b'\n' h, read_line) refl
