-- ===== src/Ca/Conn.antt =====
-- handleConn and callerIdentity of cmd/ziti-ssh-ca/main.go: one request on one connection.
pub mod Laws
use ziti_ssh.Prelude.{
  ltb, leb, ◌-◌, ℕ, zero, suc, ◌+◌, ◌-◌, ◌≤◌, ◌≡◌, refl, Bool, true, false, not, ◌&&◌, ◌||◌, List,
  [], ◌∷◌, ◌++◌, ◌==◌, leb, ltb, if◌then◌else◌, Option, none, some, Result, ok, err, take,
}
use ziti_ssh.Text.{Text, is_empty, codes, text_eq, index_byte}
use ziti_ssh.Text.Trim.{trim_space}
use ziti_ssh.RateLimit.{Bucket, RateMap, allow}
use ziti_ssh.Ca.Username.{derive_username}
use ziti_ssh.Ca.Cert.{Ssh, sign_cert}

-- What a net.Conn tells of its caller: an edge.Conn has both names, a test double may have one.
pub data Caller : Type 0 where
  edge_conn : (source dialer : Text) → Caller
  source_only : (source : Text) → Caller
  plain : Caller

unfoldable pub caller_identity : Caller → Text
caller_identity (edge_conn source dialer) = if is_empty source then dialer else source
caller_identity (source_only source) = source
caller_identity plain = []

abbrev pub max_request : ℕ
max_request = 4096

-- the length of a rune in UTF-8
abbrev rune_bytes : ℕ → ℕ
rune_bytes c = if ltb c 0x80 then 1 else if ltb c 0x800 then 2 else if ltb c 0x10000 then 3 else 4

-- The whole runes in that many bytes; a rune that the limit cuts has no line end in it.
abbrev pub take_bytes : ℕ → Text → Text
take_bytes n [] = []
take_bytes n (c ∷ s) =
    let rest = take_bytes (n - rune_bytes c) s in if leb (rune_bytes c) n then c ∷ rest else []

-- ReadString('\n') on the first `max_request` bytes of the input; `none` is its error
unfoldable pub read_line : Text → Option Text
read_line input =
    let head = take_bytes max_request input in
    elim (index_byte head b'\n') [ none ↦ none | some i ↦ some (take (suc i) head) ]

-- How a connection ends; each is a log line of the source.
pub data Ending : Type 0 where
  no_identity no_username no_deadline bad_read served_key limited bad_key not_signed : Ending
  write_failed issued : Ending

-- What the environment decides: the caller, whether SetDeadline and Write work, what the client
-- sends, and the times of the limiter's and the signer's clock.
pub record Request : Type 0 where
  pub caller : Caller
  pub deadline_ok : Bool
  pub write_ok : Bool
  pub input : Text
  pub limiter_now : ℕ
  pub signer_now : ℕ

-- What is written to the connection, and the limiter's table afterwards.
pub record Served (L : Type 0) : Type 0 where
  pub ending : Ending
  pub written : List Text
  pub limiter : RateMap L

abbrev pub rate_message : Text
rate_message = codes "error: rate limit exceeded\n"

module _ (s : Ssh) (b : Bucket) (to_lower : ℕ → ℕ) where
  open s use {PublicKey, Signer, parse_key}
  open b use {Limiter}

  -- the arguments of handleConn that stay the same for a server
  pub record Server : Type 0 where
    pub signer : Signer
    pub ca_pub_bytes : Text
    pub principal : Text
    pub mode : Text
    pub cert_ttl : ℕ

  unfoldable pub effective_principal : Server → Text → Text
  effective_principal v identity =
      if text_eq v.mode (codes "per-identity")
      then derive_username to_lower identity
      else v.principal

  end : Ending → RateMap Limiter → Served Limiter
  end e m = record { ending = e; written = []; limiter = m }

  -- conn.Write, which may fail
  reply : Ending → Text → Request → RateMap Limiter → Served Limiter
  reply e t r m =
      if r.write_ok
      then record { ending = e; written = t ∷ []; limiter = m }
      else record { ending = write_failed; written = []; limiter = m }

  -- from ssh.ParseAuthorizedKey on
  issue : Server → Request → Text → Text → RateMap Limiter → Served Limiter
  unfolding end reply
  issue v r identity line m = elim (parse_key line) [
    | none ↦ end bad_key m
    | some key ↦
        elim (sign_cert s v.signer key identity (effective_principal v identity) v.cert_ttl
          r.signer_now) [ err e ↦ end not_signed m | ok cert ↦ reply issued cert r m ]
  ]

  -- from the rate limit on
  limit : Server → Request → Text → Text → RateMap Limiter → Served Limiter
  unfolding issue reply
  limit v r identity line m =
      let (m', allowed) = allow b identity r.limiter_now m in
      if allowed then issue v r identity line m' else reply limited rate_message r m'

  -- from SetDeadline on
  read_request : Server → Request → Text → RateMap Limiter → Served Limiter
  unfolding limit end reply
  read_request v r identity m =
      if not r.deadline_ok then end no_deadline m else elim (read_line r.input) [
        | none ↦ end bad_read m
        | some line ↦
            if is_empty (trim_space line)
            then reply served_key v.ca_pub_bytes r m
            else limit v r identity (trim_space line) m
      ]

  unfoldable pub handle_conn : Server → Request → RateMap Limiter → Served Limiter
  unfolding read_request end
  handle_conn v r m =
      let identity = caller_identity r.caller in
      if is_empty identity
      then end no_identity m
      else if text_eq v.mode (codes "per-identity") && is_empty (effective_principal v identity)
      then end no_username m
      else read_request v r identity m
