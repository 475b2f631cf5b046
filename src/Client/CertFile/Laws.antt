-- ===== src/Client/CertFile/Laws.antt =====
-- When a certificate is taken for one that still holds.
use ziti_ssh.Prelude.{
  ℕ, ◌+◌, ◌*◌, ◌/◌, ◌%◌, ◌^◌, ◌≤◌, ◌<◌, ◌≡◌, ◌≢◌, refl, ap, ◌∙◌, true, false, ltb, none, some, ok,
  arith,
}
use ziti_ssh.Text.{Text}
use ziti_ssh.Dict.{lookup}
use ziti_ssh.Disk.{Disk, File}
use ziti_ssh.Ca.Cert.{Ssh, Certificate, unix, second, user_certificate, sign_cert}
use ziti_ssh.Ca.Cert.Laws.{sign_cert-ok}
use ziti_ssh.Client.CertFile.{
  Parsed, certificate, unix_to_internal, max_int64, five_minutes, expiry, expires_soon,
  never_expires, parsed_needs_refresh, parsed_remaining, cert_needs_refresh, cert_time_remaining,
}

-- The expiry does not leave the range of time.Time.
abbrev pub InRange : ℕ → Type 0
InRange v = v + unix_to_internal ≤ max_int64

expiry-InRange : (v : ℕ) → InRange v → expiry v ≡ some ((v + unix_to_internal) * second)
unfolding expiry
expiry-InRange v h =
    let small : (v + unix_to_internal) % 2 ^ 64 ≡ v + unix_to_internal = omega (arith, h) in
    let fits : ltb max_int64 (v + unix_to_internal) ≡ false = ground (arith, h) in
    rw (small, fits) refl

module _ {Key : Type 0} (parse : Text → Parsed Key) where
  at_file :
      (now : ℕ) (path : Text) (d : Disk) (f : File) (v : ℕ) (k : Key)
      → lookup path d ≡ some f
      → parse f.content ≡ certificate v k
      → cert_needs_refresh parse now path d ≡ parsed_needs_refresh parse now (certificate v k)
  unfolding cert_needs_refresh
  at_file now path d f v k e p =
      ap (λ o. elim o [ none ↦ true | some g ↦ parsed_needs_refresh parse now (parse g.content) ]) e
      ∙ ap (parsed_needs_refresh parse now) p

  remaining_at_file :
      (show : ℕ → Text) (now : ℕ) (path : Text) (d : Disk) (f : File) (v : ℕ) (k : Key)
      → lookup path d ≡ some f
      → parse f.content ≡ certificate v k
      → cert_time_remaining parse show now path d
        ≡ parsed_remaining parse show now (certificate v k)
  unfolding cert_time_remaining
  remaining_at_file show now path d f v k e p =
      ap (λ o. elim o [ none ↦ none | some g ↦ parsed_remaining parse show now (parse g.content) ])
        e
      ∙ ap (parsed_remaining parse show now) p

  -- A certificate file asks for a refresh exactly if it expires within five minutes of now, or has
  -- expired; and if it asks for none, a remaining time is shown. The certificate is one with an end
  -- within the range of Go's times.
  pub cert_needs_refresh_iff :
      (show : ℕ → Text) (now : ℕ) (path : Text) (d : Disk) (f : File) (v : ℕ) (k : Key)
      → lookup path d ≡ some f
      → parse f.content ≡ certificate v k
      → 0 < v
      → InRange v
      → (cert_needs_refresh parse now path d
          ≡ ltb ((v + unix_to_internal) * second) (now + five_minutes))
        × (cert_needs_refresh parse now path d ≡ false
            → cert_time_remaining parse show now path d ≢ none)
  unfolding parsed_needs_refresh parsed_remaining never_expires expires_soon
  cert_needs_refresh_iff show now path d f v k e p pos r =
      let at = at_file now path d f v k e p in
      let left = remaining_at_file show now path d f v k e p in
      let t = expiry-InRange v r in
      (
        ground (arith, at, t, pos, r),
        (λ fine gone. ground (arith, at, left, t, pos, r, fine, gone)),
      )

  soon_false :
      (now v : ℕ)
      → InRange v
      → now + five_minutes ≤ (v + unix_to_internal) * second
      → expires_soon now v ≡ false
  unfolding expires_soon
  soon_false now v r h = ground (arith, expiry-InRange v r, h)

unix-second : (t : ℕ) → InRange (t / second) → unix t ≡ t / second
unfolding unix
unix-second t r = omega (arith, r)

second_le : (t : ℕ) → t < (t / second) * second + second
second_le t = omega arith

-- A certificate that holds for a while from a time asks for no refresh up to five minutes and a second
-- before that while is over. The two clocks are `now`, nanoseconds since 1970, and `client_now`.
until_no_refresh :
    {Key : Type 0} (parse : Text → Parsed Key) (now ttl client_now : ℕ) (path : Text) (d : Disk)
    (f : File) (k : Key)
    → lookup path d ≡ some f
    → parse f.content ≡ certificate (unix (now + ttl)) k
    → InRange ((now + ttl) / second)
    → client_now + five_minutes + second ≤ now + ttl + unix_to_internal * second
    → cert_needs_refresh parse client_now path d ≡ false
unfolding parsed_needs_refresh
until_no_refresh parse now ttl client_now path d f k e p r h =
    let t = now + ttl in
    let v = unix t in
    let same : v ≡ t / second = unix-second t r in
    let later : client_now + five_minutes ≤ (v + unix_to_internal) * second =
      omega (arith, second_le t, same, h) in
    ground (
      arith,
      at_file parse client_now path d f v k e p,
      soon_false parse client_now v (omega (arith, r, same)) later,
    )

-- What the ssh package promises: a signed certificate is the one that was handed in, and its text
-- parses as a certificate with the same end.
pub record ReadsBack (s : Ssh) {Key : Type 0} (parse : Text → Parsed Key) : Type 0 where
  pub signs :
      (signer : s.Signer) (c : Certificate s.PublicKey) (t : s.Signed)
      → s.sign signer c ≡ some t
      → s.contents t ≡ c
  pub parses :
      (t : s.Signed)
      → (k : Key) × (parse (s.marshal_cert t) ≡ certificate (s.contents t).valid_before k)

signed_end :
    (s : Ssh) {Key : Type 0} (parse : Text → Parsed Key)
    → ReadsBack s parse
    → (signer : s.Signer) (key : s.PublicKey) (identity principal line : Text) (ttl now : ℕ)
    → sign_cert s signer key identity principal ttl now ≡ ok line
    → (k : Key) × (parse line ≡ certificate (unix (now + ttl)) k)
unfolding user_certificate
signed_end s parse back signer key identity principal line ttl now h =
    let (named, allowed, signed) = sign_cert-ok s signer key identity principal ttl now line h in
    let (t, made, same) = signed in
    let (k, read) = back.parses t in
    let whole = back.signs signer (user_certificate s key identity principal ttl now) t made in
    (
      k,
      ap parse same
          ∙ read
          ∙ ap (λ (c : Certificate s.PublicKey). certificate c.valid_before k) whole,
    )

-- A certificate file that holds what SignCert returned at a time, with a time to live, asks for no
-- refresh up to five minutes and a second before that time is over; if its end is within the range of
-- Go's times. The two clocks are `now`, nanoseconds since 1970, and `client_now`. The ssh package
-- signs what it is handed, and reads the end of a certificate that it has printed.
pub issued_no_refresh :
    (s : Ssh) {Key : Type 0} (parse : Text → Parsed Key)
    → ReadsBack s parse
    → (signer : s.Signer) (key : s.PublicKey) (identity principal line : Text)
      (ttl now client_now : ℕ) (path : Text) (d : Disk) (f : File)
    → sign_cert s signer key identity principal ttl now ≡ ok line
    → lookup path d ≡ some f
    → f.content ≡ line
    → InRange ((now + ttl) / second)
    → client_now + five_minutes + second ≤ now + ttl + unix_to_internal * second
    → cert_needs_refresh parse client_now path d ≡ false
issued_no_refresh s parse back signer key identity principal line ttl now client_now path d f signed
      found held r h =
    let (k, read) = signed_end s parse back signer key identity principal line ttl now signed in
    until_no_refresh parse now ttl client_now path d f k found (ap parse held ∙ read) r h
