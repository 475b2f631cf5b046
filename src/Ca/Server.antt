-- ===== src/Ca/Server.antt =====
-- The settings of cmd/ziti-ssh-ca/main.go, and its run: one server over all of its connections. The
-- limiter's rate and burst are those of the bucket. A handler uses the limiter at most once, under
-- its lock, and shares nothing else; so handlers in parallel are given in the order of their uses.
pub mod Settings
pub mod Isolation
pub mod Bounds
use ziti_ssh.Prelude.{
  ℕ, ◌≡◌, Bool, not, List, [], ◌∷◌, if◌then◌else◌, Option, none, some, Result, ok, err,
}
use ziti_ssh.Text.{Text, text_eq}
use ziti_ssh.RateLimit.{Bucket, RateMap, new, evict}
use ziti_ssh.Ca.Cert.{Ssh}
use ziti_ssh.Ca.Conn.{Request, Server, Served, Ending, issued, caller_identity, handle_conn}

-- idleLimiterTTL, ten minutes
abbrev pub idle_limiter_ttl : ℕ
idle_limiter_ttl = 600_000_000_000

-- Until Accept fails: a connection with what its handler meets, and a tick of the limiter.
pub data ServerEvent : Type 0 where
  connected : Request → ServerEvent
  swept : ℕ → ServerEvent

pub data RunError : Type 0 where
  key_not_loaded no_context not_authenticated not_listening : RunError

-- What the calls before the accept loop answer.
pub record RunCalls (S : Type 0) : Type 0 where
  pub load_key : Option (S × Text)
  pub context_ok : Bool
  pub authenticated : Bool
  pub listen_ok : Bool

module _ (s : Ssh) (b : Bucket) (to_lower : ℕ → ℕ) where
  open s use {Signer}
  open b use {Limiter}

  -- the accept loop: what the handlers did
  unfoldable pub serve :
      Server s b to_lower → List ServerEvent → RateMap Limiter → List (Served Limiter)
  serve v [] m = []
  serve v (connected r ∷ es) m =
      let served = handle_conn s b to_lower v r m in served ∷ serve v es served.limiter
  serve v (swept now ∷ es) m = serve v es (evict b now m)

  -- An accept that fails, for whatever reason, ends the run without an error.
  pub run :
      RunCalls Signer
      → (principal mode : Text) (cert_ttl : ℕ) → List ServerEvent
      → Result RunError (List (Served Limiter))
  run c principal mode cert_ttl es = elim c.load_key [
    | none ↦ err key_not_loaded
    | some (signer, ca_pub_bytes) ↦
        let v : Server s b to_lower = record {
          signer = signer;
          ca_pub_bytes = ca_pub_bytes;
          principal = principal;
          mode = mode;
          cert_ttl = cert_ttl;
        } in
        if not c.context_ok
        then err no_context
        else if not c.authenticated
        then err not_authenticated
        else if not c.listen_ok
        then err not_listening
        else ok (serve v es (new idle_limiter_ttl))
  ]

  -- Whether a connection is one of the identity.
  abbrev pub is_from : Text → Request → Bool
  is_from id r = text_eq (caller_identity r.caller) id

  -- What the handlers did for one identity's connections: how they ended, and what they wrote.
  unfoldable pub answers :
      Text → Server s b to_lower → List ServerEvent → RateMap Limiter → List (Ending × List Text)
  answers id v [] m = []
  answers id v (connected r ∷ es) m =
      let served = handle_conn s b to_lower v r m in
      let rest = answers id v es served.limiter in
      if is_from id r then (served.ending, served.written) ∷ rest else rest
  answers id v (swept now ∷ es) m = answers id v es (evict b now m)

-- The events that concern an identity: its connections, and the ticks.
unfoldable pub events_of : Text → List ServerEvent → List ServerEvent
events_of id [] = []
events_of id (connected r ∷ es) =
    let rest = events_of id es in
    if text_eq (caller_identity r.caller) id then connected r ∷ rest else rest
events_of id (swept now ∷ es) = swept now ∷ events_of id es
