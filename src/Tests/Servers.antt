-- ===== src/Tests/Servers.antt =====
-- A server with the default limits, and four requests of two callers.
use ziti_ssh.Prelude.{
  ℕ, ◌+◌, ◌-◌, ◌*◌, ◌≤◌, ◌≡◌, refl, true, false, Bool, List, [], ◌∷◌, leb, if◌then◌else◌, arith,
}
use ziti_ssh.Text.{Text, codes}
use ziti_ssh.RateLimit.{Bucket, new}
use ziti_ssh.RateLimit.Bounds.{IsTokenBucket, min}
use ziti_ssh.Ca.Cert.{second}
use ziti_ssh.Ca.Conn.{edge_conn, Request, Server}
use ziti_ssh.Ca.Server.{ServerEvent, connected, swept, answers, events_of, idle_limiter_ttl}
use ziti_ssh.Ca.Server.Isolation.{answers-events_of}
use ziti_ssh.Ca.Server.Bounds.{certificates, certificates_bounded, IsOrdered}
use ziti_ssh.Tests.Samples.{ascii_lower, text_ssh}

record Level : Type 0 where
  pub parts : ℕ
  pub at : ℕ

-- Three tokens of a minute of nanoseconds each, and five parts in a nanosecond.
abbrev filled : Level → ℕ → ℕ
filled l t = min 180_000_000_000 (l.parts + 5 * (t - l.at))

unfoldable spend : ℕ → Level → Level × Bool
spend t l =
    if leb 60_000_000_000 (filled l t)
    then (record { parts = filled l t - 60_000_000_000; at = t }, true)
    else (record { parts = filled l t; at = t }, false)

abbrev default_bucket : Bucket
default_bucket = record {
  Limiter = Level;
  fresh = record { parts = 180_000_000_000; at = 0 };
  take_token = spend;
}

refilled :
    (l : Level) (t dt : ℕ)
    → l.at ≤ t
    → filled l (t + dt) ≡ min 180_000_000_000 (filled l t + 5 * dt)
refilled l t dt h = ground arith

spend_paid :
    (l : Level) (t : ℕ)
    → l.at ≤ t
    → (spend t l).1 ≡ true
    → filled (spend t l).0 t + 60_000_000_000 ≡ filled l t
unfolding spend
spend_paid l t h e = ground arith

spend_refused :
    (l : Level) (t : ℕ) → l.at ≤ t → (spend t l).1 ≡ false → filled (spend t l).0 t ≡ filled l t
unfolding spend
spend_refused l t h e = ground arith

spend_since : (l : Level) (t : ℕ) → l.at ≤ t → (spend t l).0.at ≤ t
unfolding spend
spend_since l t h = ground arith

default_bucket-IsTokenBucket : IsTokenBucket default_bucket 60_000_000_000 180_000_000_000 5
default_bucket-IsTokenBucket = record {
  tokens = filled;
  since = λ l. l.at;
  fresh_full = λ t. ground arith;
  fresh_since = refl;
  refill = refilled;
  paid = spend_paid;
  refused = spend_refused;
  taken_since = spend_since;
}

abbrev server : Server text_ssh default_bucket ascii_lower
server = record {
  signer = codes "s";
  ca_pub_bytes = codes "ca";
  principal = codes "ziti";
  mode = codes "per-identity";
  cert_ttl = 300 * second;
}

abbrev request_of : Text → ℕ → Request
request_of identity now = record {
  caller = edge_conn identity [];
  deadline_ok = true;
  write_ok = true;
  input = codes "k\n";
  limiter_now = now;
  signer_now = 5 * second;
}

abbrev events : List ServerEvent
events =
    connected (request_of (codes "al") 100)
    ∷ connected (request_of (codes "bo") 200)
    ∷ swept 250
    ∷ connected (request_of (codes "al") 300)
    ∷ connected (request_of (codes "al") 400)
    ∷ []

in_order : IsOrdered 100 500 events
in_order = omega arith

certificates_bounded_example :
    60_000_000_000
      * certificates (
          answers text_ssh default_bucket ascii_lower
            (codes "al")
            server
            events
            (new idle_limiter_ttl))
    ≤ 180_000_000_000 + 5 * (500 - 100)
certificates_bounded_example =
    certificates_bounded text_ssh default_bucket ascii_lower server 60_000_000_000 180_000_000_000 5
      default_bucket-IsTokenBucket (codes "al") events 100 500 (omega arith) in_order

answers-events_of_example :
    answers text_ssh default_bucket ascii_lower (codes "al") server events (new idle_limiter_ttl)
    ≡ answers text_ssh default_bucket ascii_lower
        (codes "al")
        server
        (events_of (codes "al") events)
        (new idle_limiter_ttl)
answers-events_of_example =
    answers-events_of text_ssh default_bucket ascii_lower server (codes "al") events
