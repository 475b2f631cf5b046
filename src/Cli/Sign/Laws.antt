-- ===== src/Cli/Sign/Laws.antt =====
-- What runSign leaves on the disk, and what it takes for a certificate: the client and the authority
-- together.
use ziti_ssh.Prelude.{
  ◌≡◌, refl, ap, ◌∙◌, sym, Bool, true, false, ◌&&◌, List, [], ◌∷◌, ◌++◌, if◌then◌else◌, Option,
  some, ok, arith, Option-cases, inl, inr, length, suc, take, take_all, length-append, append-nil,
  ℕ,
}
use ziti_ssh.Text.{Text, codes, text_eq, text_eq_refl, is_empty, index_byte-append}
use ziti_ssh.Text.Trim.{trim_space, trim_left, trim_right, is_space, trim_space-newline}
use ziti_ssh.Dict.{lookup}
use ziti_ssh.Disk.{Disk, File, Run}
use ziti_ssh.Config.AtomicWrite.{WriteError, atomic_write_file}
use ziti_ssh.Config.AtomicWrite.Laws.{FreshTemp, atomic_write_file_done}
use ziti_ssh.RateLimit.{Bucket, RateMap}
use ziti_ssh.Ca.Cert.{Ssh}
use ziti_ssh.Ca.Conn.{Server, Request, Served, handle_conn, issued, limited, rate_message}
use ziti_ssh.Ca.Conn.Laws.{IsIssued, handle_conn-issued, handle_conn-limited}
use ziti_ssh.Trust.Cluster.Bytes.{IsLine}
use ziti_ssh.Cli.Keys.{derive_cert_path}
use ziti_ssh.Cli.Sign.{
  SignCalls, Signing, cert_mode, first_line, read_file, give_up, written_result, store, ask,
  sign_key,
}

-- the text of the certificate file for a line of the authority
abbrev pub cert_text : Text → Text
cert_text line = trim_space line ++ codes "\n"

first_line_whole : (l : Text) → IsLine l → first_line l ≡ some l
unfolding first_line
first_line_whole l (w, h) =
    let at_end = index_byte-append w [] b'\n' h.1 in
    let all : take (suc (length w)) (w ++ b'\n' ∷ []) ≡ w ++ b'\n' ∷ [] =
      take_all (suc (length w)) (w ++ b'\n' ∷ []) (omega (arith, length-append w (b'\n' ∷ []))) in
    let found : first_line (w ++ b'\n' ∷ []) ≡ some (w ++ b'\n' ∷ []) =
      ground (arith, at_end, all) in
    ap first_line h.0 ∙ found ∙ ap some (sym h.0)

cert_text_whole : (l : Text) → IsLine l → cert_text l ≡ l
cert_text_whole l (w, h) =
    ap (λ t. t ++ codes "\n") (ap trim_space h.0 ∙ trim_space-newline w ∙ h.2) ∙ sym h.0

abbrev file_of : Text → Option File
file_of t = some (record { content = t; mode = cert_mode })

line_same : (l m : Text) → some l ≡ some m → l ≡ m
line_same l m e = ground (arith, e)

rate_message-IsLine : IsLine rate_message
unfolding trim_space trim_left trim_right is_space
rate_message-IsLine = (codes "error: rate limit exceeded", (refl, ground arith, refl, refl))

-- the bytes of some writes
abbrev pub concat : List Text → Text
concat [] = []
concat (t ∷ ts) = t ++ concat ts

module _ (c : SignCalls) (verbose : Bool) (key : Text) (d : Disk) where
  abbrev cert_run : Text → Run WriteError
  cert_run text = atomic_write_file c.cert_calls (derive_cert_path key) text cert_mode d

  asked :
      (pub_line : Text)
      → (ask c verbose key pub_line d).result ≡ ok tt
      → (line : Text) × ((first_line c.reply ≡ some line)
          × ((cert_run (cert_text line)).result ≡ ok tt)
          × ((ask c verbose key pub_line d).disk ≡ (cert_run (cert_text line)).disk)
          × ((ask c verbose key pub_line d).sent ≡ some (pub_line ++ codes "\n")))
  unfolding ask give_up store written_result
  asked pub_line h = elim (Option-cases (first_line c.reply)) [
    | inl e ↦ absurd (ground (arith, h, e))
    | inr (line, e) ↦ (line, (e, ground (arith, h, e), ground (arith, h, e), ground (arith, h, e)))
  ]

  sign_key_asked :
      (sign_key c verbose key d).result ≡ ok tt
      → (bytes : Text) × ((read_file c.read_ok (key ++ codes ".pub") d ≡ some bytes)
          × (is_empty (trim_space bytes) ≡ false)
          × (sign_key c verbose key d ≡ ask c verbose key (trim_space bytes) d))
  unfolding sign_key give_up
  sign_key_asked h = elim (Option-cases (read_file c.read_ok (key ++ codes ".pub") d)) [
    | inl e ↦ absurd (ground (arith, h, e))
    | inr (bytes, e) ↦ (bytes, (e, ground (arith, h, e), ground (arith, h, e)))
  ]

  -- The public key that was sent, and the line that came back and was stored.
  record IsStored (reply : Text) : Type 0 where
    pub pub_line : Text
    pub line : Text
    pub sent : (sign_key c verbose key d).sent ≡ some (pub_line ++ codes "\n")
    pub received : first_line reply ≡ some line
    pub stored :
        (k : Text)
        → lookup k (sign_key c verbose key d).disk ≡ (
            if text_eq (derive_cert_path key) k
            then some (record { content = cert_text line; mode = cert_mode })
            else lookup k d)

  abbrev pub FreshCert : Type 0
  FreshCert = FreshTemp c.cert_calls (derive_cert_path key) [] cert_mode d

  sign_key-IsStored : FreshCert → (sign_key c verbose key d).result ≡ ok tt → IsStored c.reply
  sign_key-IsStored fresh h =
      let (bytes, (read, full, same)) = sign_key_asked h in
      let (line, (received, written, left, sent)) =
        asked (trim_space bytes) (ap (λ (x : Signing). x.result) (sym same) ∙ h) in
      record {
        pub_line = trim_space bytes;
        line = line;
        sent = ap (λ (x : Signing). x.sent) same ∙ sent;
        received = received;
        stored = λ k.
            ap (λ (x : Signing). lookup k x.disk) same
            ∙ ap (lookup k) left
            ∙ atomic_write_file_done c.cert_calls (derive_cert_path key) (cert_text line) cert_mode
                d k fresh written;
      }

  -- A line that the authority sends and nothing else is the certificate file.
  stored_line :
      (l : Text)
      → IsLine l
      → c.reply ≡ l
      → FreshCert
      → (sign_key c verbose key d).result ≡ ok tt
      → lookup (derive_cert_path key) (sign_key c verbose key d).disk
        ≡ some (record { content = l; mode = cert_mode })
  stored_line l is_line e fresh h =
      let st = sign_key-IsStored fresh h in
      let same : st.line ≡ l =
        line_same st.line l (sym st.received ∙ ap first_line e ∙ first_line_whole l is_line) in
      let text : cert_text st.line ≡ l = ap cert_text same ∙ cert_text_whole l is_line in
      st.stored (derive_cert_path key) ∙ rw (text_eq_refl (derive_cert_path key)) (ap file_of text)

  -- Every call of a run works, the write of this certificate included.
  pub record CallsWork (l : Text) : Type 0 where
    pub bytes : Text
    pub read : read_file c.read_ok (key ++ codes ".pub") d ≡ some bytes
    pub full : is_empty (trim_space bytes) ≡ false
    pub dialled : c.context_ok && c.oidc_ok && c.authenticated && c.dial_ok && c.send_ok ≡ true
    pub shown : c.show_ok ≡ true
    pub written : (cert_run l).result ≡ ok tt

  sign_key_works :
      (l : Text) → IsLine l → c.reply ≡ l → CallsWork l → (sign_key c verbose key d).result ≡ ok tt
  unfolding sign_key ask store written_result give_up
  sign_key_works l (w, line) e work =
      let first : first_line c.reply ≡ some l = ap first_line e ∙ first_line_whole l (w, line) in
      let trimmed : trim_space l ≡ w = ap trim_space line.0 ∙ trim_space-newline w ∙ line.2 in
      ground (
        arith,
        work.read,
        work.full,
        work.dialled,
        work.shown,
        work.written,
        first,
        ap is_empty trimmed,
        line.3,
        ap (λ t. (cert_run t).result) (cert_text_whole l (w, line)),
      )

  module _ (s : Ssh) (b : Bucket) (to_lower : ℕ → ℕ) (v : Server s b to_lower) (r : Request)
      (m : RateMap b.Limiter) where
    abbrev pub served : Served b.Limiter
    served = handle_conn s b to_lower v r m

    -- If the authority issued what it sent, and runSign reports no error, then the certificate file
    -- holds the issued certificate, with mode 0644; if an issued certificate is one line, and the
    -- temporary name was free.
    pub sign_key-issued :
        (one_line : (t : s.Signed) → IsLine (s.marshal_cert t))
        → served.ending ≡ issued
        → c.reply ≡ concat served.written
        → FreshCert
        → (sign_key c verbose key d).result ≡ ok tt
        → (i : IsIssued s b to_lower v r m served.written) × (lookup
              (derive_cert_path key)
              (sign_key c verbose key d).disk
            ≡ some (record { content = s.marshal_cert i.signed; mode = cert_mode }))
    sign_key-issued one_line ending e fresh h =
        let i = handle_conn-issued s b to_lower v r m ending in
        let cert = s.marshal_cert i.signed in
        (i, stored_line cert (one_line i.signed) (e ∙ ap concat i.sent ∙ append-nil cert) fresh h)

    -- If the authority only sent that the rate limit is exceeded, and the calls of runSign work,
    -- then runSign reports no error, and the certificate file holds that message; if the temporary
    -- name was free.
    pub sign_key-limited :
        served.ending ≡ limited
        → c.reply ≡ concat served.written
        → FreshCert
        → CallsWork rate_message
        → ((sign_key c verbose key d).result ≡ ok tt)
          × (lookup (derive_cert_path key) (sign_key c verbose key d).disk
              ≡ some (record { content = rate_message; mode = cert_mode }))
    sign_key-limited ending e fresh work =
        let same = e ∙ ap concat (handle_conn-limited s b to_lower v r m ending) in
        let h = sign_key_works rate_message rate_message-IsLine same work in
        (h, stored_line rate_message rate_message-IsLine same fresh h)
