-- ===== src/Client/CertFile.antt =====
-- CertNeedsRefresh of client/ssh.go and certTimeRemaining of cmd/ziti-ssh/main.go: what the client makes of a certificate file. Times are nanoseconds since the
-- year 1, the zero of Go's time.Time. The parser of authorized_keys lines is a parameter.
pub mod Laws
use ziti_ssh.Prelude.{
  ℕ, zero, suc, ◌+◌, ◌-◌, ◌*◌, ◌/◌, ◌%◌, ◌^◌, ◌≤◌, ◌<◌, ◌≡◌, ◌≢◌, ◌⊎◌, inl, inr, refl, ap, ◌∙◌, sym,
  Bool, true, false, not, ◌||◌, ◌==◌, leb, ltb, if◌then◌else◌, Option, none, some, arith,
  Option-cases,
}
use ziti_ssh.Text.{Text, codes}
use ziti_ssh.Text.Trim.{trim_space}
use ziti_ssh.Dict.{lookup}
use ziti_ssh.Disk.{Disk, File}
use ziti_ssh.Ca.Cert.{unix, second}

-- What ssh.ParseAuthorizedKey finds in a file.
pub data Parsed (Key : Type 0) : Type 0 where
  unparsed : Parsed Key
  plain_key : Key → Parsed Key
  certificate : (valid_before : ℕ) (key : Key) → Parsed Key

-- seconds from the year 1 to 1970
abbrev pub unix_to_internal : ℕ
unix_to_internal = 62135596800

-- ssh.CertTimeInfinity
abbrev pub cert_time_infinity : ℕ
cert_time_infinity = 18446744073709551615

abbrev pub max_int64 : ℕ
max_int64 = 9223372036854775807

abbrev pub five_minutes : ℕ
five_minutes = 300 * second

-- time.Unix(int64(v), 0), whose seconds wrap around in 64 bits; a negative number is `none`
unfoldable pub expiry : ℕ → Option ℕ
expiry v =
    let s = (v + unix_to_internal) % 2 ^ 64 in if ltb max_int64 s then none else some (s * second)

unfoldable pub never_expires : ℕ → Bool
never_expires v = v == 0 || v == cert_time_infinity

-- time.Until(expiry) < 5*time.Minute
unfoldable pub expires_soon : ℕ → ℕ → Bool
unfolding expiry
expires_soon now v = elim (expiry v) [ none ↦ true | some t ↦ ltb t (now + five_minutes) ]

module _ {Key : Type 0} (parse : Text → Parsed Key) where
  unfoldable pub parsed_needs_refresh : ℕ → Parsed Key → Bool
  unfolding never_expires expires_soon
  parsed_needs_refresh now unparsed = true
  parsed_needs_refresh now (plain_key k) = true
  parsed_needs_refresh now (certificate v k) = if never_expires v then false else expires_soon now v

  -- a file that cannot be read is one that is not there
  unfoldable pub cert_needs_refresh : ℕ → Text → Disk → Bool
  unfolding parsed_needs_refresh
  cert_needs_refresh now path d = elim (lookup path d) [
    | none ↦ true
    | some f ↦ parsed_needs_refresh now (parse f.content)
  ]

  -- `show` is the printing of hours and minutes; the remaining time is at most 2^63 - 1
  unfoldable pub parsed_remaining : (ℕ → Text) → ℕ → Parsed Key → Option Text
  unfolding never_expires expiry
  parsed_remaining show now unparsed = none
  parsed_remaining show now (plain_key k) = none
  parsed_remaining show now (certificate v k) = if never_expires v then none else elim (expiry v) [
    | none ↦ none
    | some t ↦
        if leb t now
        then none
        else some (show (if ltb max_int64 (t - now) then max_int64 else t - now))
  ]

  pub cert_time_remaining : (ℕ → Text) → ℕ → Text → Disk → Option Text
  unfolding parsed_remaining
  cert_time_remaining show now path d = elim (lookup path d) [
    | none ↦ none
    | some f ↦ parsed_remaining show now (parse f.content)
  ]
