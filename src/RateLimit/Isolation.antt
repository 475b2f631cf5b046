-- ===== src/RateLimit/Isolation.antt =====
-- One identity's requests are decided as if it were alone, and an idle identity starts anew.
use ziti_ssh.Prelude.{
  ℕ, ◌+◌, ◌<◌, ◌≡◌, refl, sym, ap, ◌∙◌, Bool, false, not, List, [], ◌∷◌, ltb, if◌then◌else◌, some,
  arith, lt→ltb,
}
use ziti_ssh.Text.{Text, text_dec, text_eq, text_eq_refl, text_eq_ne}
use ziti_ssh.Dict.{
  Distinct, lookup, lookup-insert, lookup-retain, insert-Distinct, retain-Distinct, keep_if,
}
use ziti_ssh.RateLimit.{Bucket, Entry, RateMap, new, limiter_or, allow, evict}

-- A call of one of the two methods, with its time.
pub data Call : Type 0 where
  allows : Text → ℕ → Call
  evicts : ℕ → Call

-- The calls that concern an identity: its requests, and the sweeps.
pub only : Text → List Call → List Call
only id [] = []
only id (allows j now ∷ cs) =
    let rest = only id cs in if text_eq j id then allows j now ∷ rest else rest
only id (evicts now ∷ cs) = evicts now ∷ only id cs

module _ (b : Bucket) where
  open b use {Limiter, fresh, take_token}

  -- The decisions on the requests of `id`, in their order.
  pub decisions : Text → RateMap Limiter → List Call → List Bool
  decisions id m [] = []
  decisions id m (allows j now ∷ cs) =
      let rest = decisions id (allow b j now m).0 cs in
      if text_eq j id then (allow b j now m).1 ∷ rest else rest
  decisions id m (evicts now ∷ cs) = decisions id (evict b now m) cs

  -- Two tables that agree on one identity.
  pub record Agree (id : Text) (m n : RateMap Limiter) : Type 0 where
    pub left : Distinct m.entries
    pub right : Distinct n.entries
    pub ttl : m.idle_ttl ≡ n.idle_ttl
    pub entry : lookup id m.entries ≡ lookup id n.entries

  pub allow-Agree :
      (id : Text) (now : ℕ) (m n : RateMap Limiter)
      → Agree id m n
      → Agree id (allow b id now m).0 (allow b id now n).0
  unfolding allow
  allow-Agree id now m n h = record {
    left = insert-Distinct id _ m.entries h.left;
    right = insert-Distinct id _ n.entries h.right;
    ttl = h.ttl;
    entry =
        lookup-insert id id _ m.entries
        ∙ (λ i.
            if text_eq id id
            then some (record {
              limiter = (take_token now (limiter_or fresh (h.entry i))).0;
              last_seen = now;
            })
            else h.entry i)
        ∙ sym (lookup-insert id id _ n.entries);
  }

  pub allow-decision :
      (id : Text) (now : ℕ) (m n : RateMap Limiter)
      → Agree id m n
      → (allow b id now m).1 ≡ (allow b id now n).1
  unfolding allow
  allow-decision id now m n h = ap (λ e. (take_token now (limiter_or fresh e)).1) h.entry

  pub allow_other-Agree :
      (id j : Text) (now : ℕ) (m n : RateMap Limiter)
      → text_eq j id ≡ false
      → Agree id m n
      → Agree id (allow b j now m).0 n
  unfolding allow
  allow_other-Agree id j now m n ne h = record {
    left = insert-Distinct j _ m.entries h.left;
    right = h.right;
    ttl = h.ttl;
    entry = lookup-insert j id _ m.entries ∙ (rw ne h.entry);
  }

  pub evict-Agree :
      (id : Text) (now : ℕ) (m n : RateMap Limiter)
      → Agree id m n
      → Agree id (evict b now m) (evict b now n)
  unfolding evict
  evict-Agree id now m n h = record {
    left = retain-Distinct _ m.entries h.left;
    right = retain-Distinct _ n.entries h.right;
    ttl = h.ttl;
    entry =
        lookup-retain _ id m.entries h.left
        ∙ (λ i. keep_if (λ x. not (ltb (x.last_seen + h.ttl i) now)) (h.entry i))
        ∙ sym (lookup-retain _ id n.entries h.right);
  }

  pub new-Agree : (id : Text) (ttl : ℕ) → Agree id (new ttl) (new ttl)
  unfolding new
  new-Agree id ttl = record { left = tt; right = tt; ttl = refl; entry = refl }

  decisions-only_from :
      (id : Text) (cs : List Call) (m n : RateMap Limiter)
      → Agree id m n
      → decisions id m cs ≡ decisions id n (only id cs)
  unfolding decisions only
  decisions-only_from id [] m n h = refl
  decisions-only_from id (evicts now ∷ cs) m n h =
      decisions-only_from id cs _ _ (evict-Agree id now m n h)
  decisions-only_from id (allows j now ∷ cs) m n h = elim (text_dec j id) [
    | yes e ↦ rw e (
        ground (
          arith,
          text_eq_refl id,
          allow-decision id now m n h,
          decisions-only_from id cs (allow b id now m).0 (allow b id now n).0
              (allow-Agree id now m n h),
        ))
    | no ne ↦
        rw (text_eq_ne j id ne)
          (decisions-only_from id cs _ n (allow_other-Agree id j now m n (text_eq_ne j id ne) h))
  ]

  -- Whatever the others ask, and whenever the sweeps run, the requests of one identity are decided
  -- as in a run without the others' requests.
  pub decisions-only :
      (id : Text) (ttl : ℕ) (cs : List Call)
      → decisions id (new ttl) cs ≡ decisions id (new ttl) (only id cs)
  decisions-only id ttl cs = decisions-only_from id cs (new ttl) (new ttl) (new-Agree id ttl)

  -- A sweep after the idle time makes the identity a first-time caller, with all its burst.
  allow-evict :
      (id : Text) (sweep now : ℕ) (m : RateMap Limiter) (e : Entry Limiter)
      → Distinct m.entries
      → lookup id m.entries ≡ some e
      → e.last_seen + m.idle_ttl < sweep
      → (allow b id now (evict b sweep m)).1 ≡ (take_token now fresh).1
  unfolding allow evict
  allow-evict id sweep now m e d h idle =
      rw (lookup-retain _ id m.entries d, h, lt→ltb (e.last_seen + m.idle_ttl) sweep idle) refl
