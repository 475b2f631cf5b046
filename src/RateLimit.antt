-- ===== src/RateLimit.antt =====
-- internal/ratelimit/ratelimit.go: a table of one token bucket per identity.
-- golang.org/x/time/rate is a parameter: a state of a limiter, the new limiter of the table's
-- rate and burst, and what `Allow` does at a time. Times are nanoseconds. A method runs under the
-- table's mutex, so that it is one step.
pub mod Isolation
pub mod Bounds
use ziti_ssh.Prelude.{
  ℕ, zero, suc, ◌+◌, ◌-◌, ◌≤◌, ◌≡◌, refl, Bool, true, false, not, ◌&&◌, ◌||◌, List, [], ◌∷◌, ◌++◌,
  ◌==◌, leb, ltb, if◌then◌else◌, Option, none, some,
}
use ziti_ssh.Text.{Text}
use ziti_ssh.Dict.{Dict, lookup, insert, retain}

-- rate.Limiter, with the rate and the burst fixed
pub record Bucket : Type 1 where
  pub Limiter : Type 0
  pub fresh : Limiter
  pub take_token : ℕ → Limiter → Limiter × Bool

pub record Entry (L : Type 0) : Type 0 where
  pub limiter : L
  pub last_seen : ℕ

pub record RateMap (L : Type 0) : Type 0 where
  pub entries : Dict (Entry L)
  pub idle_ttl : ℕ

unfoldable pub new : {L : Type 0} → ℕ → RateMap L
new idle_ttl = record { entries = []; idle_ttl = idle_ttl }

-- the entry's limiter, or a new one for a first-time caller
abbrev pub limiter_or : {L : Type 0} → L → Option (Entry L) → L
limiter_or fresh none = fresh
limiter_or fresh (some e) = e.limiter

module _ (b : Bucket) where
  open b use {Limiter, fresh, take_token}

  -- Map.Allow, at the time that time.Now returned; the limiter reads the clock once more, right after
  -- and under the same lock, and gets the same time here
  unfoldable pub allow : Text → ℕ → RateMap Limiter → RateMap Limiter × Bool
  allow identity now m =
      let (l, allowed) = take_token now (limiter_or fresh (lookup identity m.entries)) in
      (
        record m { entries = insert identity (record { limiter = l; last_seen = now }) m.entries },
        allowed,
      )

  -- Map.evict: what was last seen before the cutoff goes
  pub evict : ℕ → RateMap Limiter → RateMap Limiter
  evict now m = record m {
    entries = retain (λ e. not (ltb (e.last_seen + m.idle_ttl) now)) m.entries;
  }
