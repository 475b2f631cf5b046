-- ===== src/Ca/Server/Settings.antt =====
-- The settings that main of cmd/ziti-ssh-ca/main.go hands to run. strconv and the parser of
-- durations are parameters; a number is a float64 of which only the test against zero is used.
use ziti_ssh.Prelude.{
  ℕ, ◌≡◌, ◌⊎◌, ◌≤◌, Bool, true, false, not, ◌&&◌, ◌||◌, [], if◌then◌else◌, Option, none, some,
  Result, ok, err, arith, leb, ◌>>=◌,
}
use ziti_ssh.Text.{Text, codes, text_eq, is_empty}
use ziti_ssh.Config.Resolve.{env_or_flag}
use ziti_ssh.Daemon.Settings.{Duration, is_positive}

pub record ServerFlags : Type 0 where
  pub identity : Text
  pub ca_key : Text
  pub service : Text
  pub principal : Text
  pub mode : Text
  pub cert_ttl : Text
  pub rate_limit : Text
  pub rate_burst : Text
  pub ziti_timeout : Text

-- What run gets.
pub record ServerSettings (Float : Type 0) : Type 0 where
  pub identity_file : Text
  pub ca_key_file : Text
  pub service_name : Text
  pub principal : Text
  pub mode : Text
  pub cert_ttl : Duration
  pub rate_limit : Float
  pub rate_burst : ℕ
  pub ziti_timeout : Duration

pub data ServerFlagError : Type 0 where
  no_identity no_ca_key bad_mode bad_cert_ttl cert_ttl_not_positive : ServerFlagError
  bad_timeout timeout_not_positive bad_rate_limit bad_rate_burst : ServerFlagError

-- strconv.ParseFloat, the test `<= 0` on its result, and strconv.Atoi by sign and size
pub record Numbers : Type 1 where
  pub Float : Type 0
  pub parse_float : Text → Option Float
  pub is_le_zero : Float → Bool
  pub parse_int : Text → Option (Bool × ℕ)

module _ (env : Text → Text) (parse_duration : Text → Option Duration) (n : Numbers) where
  open n use {Float, parse_float, is_le_zero, parse_int}

  -- a duration that has to be greater than zero
  unfoldable positive_duration :
      ServerFlagError → ServerFlagError → Text → Result ServerFlagError Duration
  positive_duration bad not_positive text = elim (parse_duration text) [
    | none ↦ err bad
    | some d ↦ if is_positive d then ok d else err not_positive
  ]

  unfoldable rate_limit_of : Text → Result ServerFlagError Float
  rate_limit_of text = elim (parse_float text) [
    | none ↦ err bad_rate_limit
    | some x ↦ if is_le_zero x then err bad_rate_limit else ok x
  ]

  unfoldable rate_burst_of : Text → Result ServerFlagError ℕ
  rate_burst_of text = elim (parse_int text) [
    | none ↦ err bad_rate_burst
    | some (negative, size) ↦ if negative || not (leb 1 size) then err bad_rate_burst else ok size
  ]

  unfoldable pub server_settings : ServerFlags → Result ServerFlagError (ServerSettings Float)
  unfolding positive_duration rate_limit_of rate_burst_of
  server_settings f =
      let identity_file = env_or_flag env f.identity (codes "ZITI_IDENTITY") [] in
      let ca_key_file = env_or_flag env f.ca_key (codes "ZITI_CA_KEY") [] in
      let mode = env_or_flag env f.mode (codes "ZITI_SSH_MODE") (codes "shared") in
      if is_empty identity_file
      then err no_identity
      else if is_empty ca_key_file
      then err no_ca_key
      else if not (text_eq mode (codes "shared")) && not (text_eq mode (codes "per-identity"))
      then err bad_mode
      else do
        cert_ttl ←
            positive_duration bad_cert_ttl cert_ttl_not_positive
              (env_or_flag env f.cert_ttl (codes "ZITI_CERT_TTL") (codes "5m"))
        ziti_timeout ←
            positive_duration bad_timeout timeout_not_positive
              (env_or_flag env f.ziti_timeout (codes "ZITI_TIMEOUT") (codes "30s"))
        rate_limit ←
            rate_limit_of (env_or_flag env f.rate_limit (codes "ZITI_RATE_LIMIT") (codes "5"))
        rate_burst ←
            rate_burst_of (env_or_flag env f.rate_burst (codes "ZITI_RATE_BURST") (codes "3"))
        ok (record {
          identity_file = identity_file;
          ca_key_file = ca_key_file;
          service_name = env_or_flag env f.service (codes "ZITI_CA_SERVICE") (codes "ssh-ca");
          principal = env_or_flag env f.principal (codes "ZITI_SSH_PRINCIPAL") (codes "ziggy");
          mode = mode;
          cert_ttl = cert_ttl;
          rate_limit = rate_limit;
          rate_burst = rate_burst;
          ziti_timeout = ziti_timeout;
        })

  -- Settings with which the server runs name an identity and a key, one of the two modes, a time to
  -- live and a timeout greater than zero, a rate that is not at most zero, and a burst of one or more.
  pub server_settings_ok :
      (f : ServerFlags) (r : ServerSettings Float)
      → server_settings f ≡ ok r
      → (is_empty r.identity_file ≡ false)
        × (is_empty r.ca_key_file ≡ false)
        × ((r.mode ≡ codes "shared") ⊎ (r.mode ≡ codes "per-identity"))
        × (is_positive r.cert_ttl ≡ true)
        × (is_positive r.ziti_timeout ≡ true)
        × (is_le_zero r.rate_limit ≡ false)
        × (1 ≤ r.rate_burst)
  unfolding server_settings
  server_settings_ok f r h = ground (arith, h)
