-- ===== src/RateLimit/Bounds.antt =====
-- How often a caller's limiter says that a request is allowed. The documented behaviour of
-- golang.org/x/time/rate is a hypothesis: a bucket of tokens that fills up at a constant rate.
use ziti_ssh.Prelude.{
  ℕ, ◌+◌, ◌-◌, ◌*◌, ◌≤◌, ◌<◌, ◌≡◌, ◌≢◌, refl, sym, ap, ◌∙◌, true, false, not, leb, ltb,
  if◌then◌else◌, Option, none, some, arith, Bool-cases, inl, inr, subst,
}
use ziti_ssh.Text.{Text, text_eq_refl, text_eq_ne}
use ziti_ssh.Dict.{
  Distinct, lookup, lookup-insert, lookup-retain, insert, insert-Distinct, retain-Distinct, keep_if,
}
use ziti_ssh.RateLimit.{Bucket, Entry, RateMap, limiter_or, allow, evict}

abbrev pub min : ℕ → ℕ → ℕ
min a b = if leb a b then a else b

-- The tokens are counted in parts: one token is `cost` parts, the burst is `capacity` parts, and
-- `rate` parts come in a unit of time. A limiter tells its parts at a time no earlier than its last use.
pub record IsTokenBucket (b : Bucket) (cost capacity rate : ℕ) : Type 0 where
  pub tokens : b.Limiter → ℕ → ℕ
  pub since : b.Limiter → ℕ
  pub fresh_full : (t : ℕ) → tokens b.fresh t ≡ capacity
  pub fresh_since : since b.fresh ≡ 0
  pub refill :
      (l : b.Limiter) (t dt : ℕ)
      → since l ≤ t
      → tokens l (t + dt) ≡ min capacity (tokens l t + rate * dt)
  pub paid :
      (l : b.Limiter) (t : ℕ)
      → since l ≤ t
      → (b.take_token t l).1 ≡ true
      → tokens (b.take_token t l).0 t + cost ≡ tokens l t
  pub refused :
      (l : b.Limiter) (t : ℕ)
      → since l ≤ t
      → (b.take_token t l).1 ≡ false
      → tokens (b.take_token t l).0 t ≡ tokens l t
  pub taken_since : (l : b.Limiter) (t : ℕ) → since l ≤ t → since (b.take_token t l).0 ≤ t

mul_mono : (r a b : ℕ) → a ≤ b → r * a ≤ r * b
mul_mono r a b h = grind arith

pub evict-idle_ttl :
    (b : Bucket) (t : ℕ) (m : RateMap b.Limiter) → (evict b t m).idle_ttl ≡ m.idle_ttl
unfolding evict
evict-idle_ttl b t m = refl

module _ (b : Bucket) (cost capacity rate : ℕ) (bucket : IsTokenBucket b cost capacity rate) where
  open b use {Limiter, fresh, take_token}
  open bucket use {tokens, since, fresh_full, fresh_since, refill, paid, refused, taken_since}

  abbrev pub EntryIsSane : ℕ → Option (Entry Limiter) → Type 0
  EntryIsSane now none = Unit
  EntryIsSane now (some e) = (since e.limiter ≤ e.last_seen) × (e.last_seen ≤ now)

  -- The table as a caller finds it at a time.
  pub record IsSane (id : Text) (now : ℕ) (m : RateMap Limiter) : Type 0 where
    pub distinct : Distinct m.entries
    pub entry : EntryIsSane now (lookup id m.entries)

  -- the parts that a caller has at a time
  abbrev pub available_in : Option (Entry Limiter) → ℕ → ℕ
  available_in o now = tokens (limiter_or fresh o) now

  abbrev pub available : Text → ℕ → RateMap Limiter → ℕ
  available id now m = available_in (lookup id m.entries) now

  tokens_later :
      (l : Limiter) (now t : ℕ)
      → since l ≤ now
      → now ≤ t
      → tokens l t ≤ tokens l now + rate * (t - now)
  tokens_later l now t h k =
      let e : now + (t - now) ≡ t = omega arith in
      let filled =
        subst (λ x. tokens l x ≡ min capacity (tokens l now + rate * (t - now))) e
          (refill l now (t - now) h) in
      ground (arith, filled)

  available_later_in :
      (o : Option (Entry Limiter)) (now t : ℕ)
      → EntryIsSane now o
      → now ≤ t
      → available_in o t ≤ available_in o now + rate * (t - now)
  available_later_in none now t h k = omega (arith, fresh_full t, fresh_full now)
  available_later_in (some e) now t h k = tokens_later e.limiter now t (omega (arith, h.0, h.1)) k

  pub available_later :
      (id : Text) (now t : ℕ) (m : RateMap Limiter)
      → IsSane id now m
      → now ≤ t
      → available id t m ≤ available id now m + rate * (t - now)
  available_later id now t m h k = available_later_in (lookup id m.entries) now t h.entry k

  -- what a call of the caller's own does with its limiter
  limiter_since :
      (o : Option (Entry Limiter)) (now t : ℕ)
      → EntryIsSane now o
      → now ≤ t
      → since (limiter_or fresh o) ≤ t
  limiter_since none now t h k = omega (arith, fresh_since)
  limiter_since (some e) now t h k = omega (arith, h.0, h.1)

  pub allow-IsSane :
      (id : Text) (now t : ℕ) (m : RateMap Limiter)
      → IsSane id now m
      → now ≤ t
      → IsSane id t (allow b id t m).0
  unfolding allow
  allow-IsSane id now t m h k = record {
    distinct = insert-Distinct id _ m.entries h.distinct;
    entry =
        rw (lookup-insert id id _ m.entries, text_eq_refl id)
          (taken_since _ t (limiter_since (lookup id m.entries) now t h.entry k), omega arith);
  }

  pub allow-available :
      (id : Text) (now t : ℕ) (m : RateMap Limiter)
      → IsSane id now m
      → now ≤ t
      → (if (allow b id t m).1 then cost else 0) + available id t (allow b id t m).0
        ≡ available id t m
  unfolding allow
  allow-available id now t m h k =
      let l = limiter_or fresh (lookup id m.entries) in
      let s = limiter_since (lookup id m.entries) now t h.entry k in
      rw (lookup-insert id id _ m.entries, text_eq_refl id)
        (elim (Bool-cases (take_token t l).1) [
          | inl yes_token ↦ ground (arith, yes_token, paid l t s yes_token)
          | inr no_token ↦ ground (arith, no_token, refused l t s no_token)
        ])

  -- an entry that a sweep drops had a full bucket
  idle_full :
      (e : Entry Limiter) (ttl t now : ℕ)
      → since e.limiter ≤ e.last_seen
      → e.last_seen + ttl < t
      → t ≤ now
      → capacity ≤ rate * ttl
      → capacity ≤ tokens e.limiter now
  idle_full e ttl t now h idle k full =
      let dt = now - e.last_seen in
      let long = mul_mono rate ttl dt (omega arith) in
      let eq : e.last_seen + dt ≡ now = omega arith in
      let filled =
        subst (λ x. tokens e.limiter x ≡ min capacity (tokens e.limiter e.last_seen + rate * dt)) eq
          (refill e.limiter e.last_seen dt h) in
      ground (arith, filled)

  abbrev swept_entry : ℕ → ℕ → Option (Entry Limiter) → Option (Entry Limiter)
  swept_entry ttl t o = keep_if (λ e. not (ltb (e.last_seen + ttl) t)) o

  sweep_in :
      (o : Option (Entry Limiter)) (ttl t now : ℕ)
      → EntryIsSane now o
      → t ≤ now
      → capacity ≤ rate * ttl
      → EntryIsSane now (swept_entry ttl t o)
        × (available_in (swept_entry ttl t o) now ≤ available_in o now)
  sweep_in none ttl t now h k full = (tt, omega arith)
  sweep_in (some e) ttl t now h k full = elim (Bool-cases (ltb (e.last_seen + ttl) t)) [
    | inl idle ↦
        rw idle (tt, omega (arith, fresh_full now, idle_full e ttl t now h.0 (ground arith) k full))
    | inr fresh_one ↦ rw fresh_one (h, omega arith)
  ]

  sane_later :
      (o : Option (Entry Limiter)) (now t : ℕ) → EntryIsSane now o → now ≤ t → EntryIsSane t o
  sane_later none now t h k = tt
  sane_later (some e) now t h k = (h.0, omega arith)

  pub IsSane-later :
      (id : Text) (now t : ℕ) (m : RateMap Limiter) → IsSane id now m → now ≤ t → IsSane id t m
  IsSane-later id now t m h k = record {
    distinct = h.distinct;
    entry = sane_later (lookup id m.entries) now t h.entry k;
  }

  -- A sweep gives nobody a part: whom it drops had a full bucket, if the idle time fills one.
  pub evict_lem :
      (id : Text) (t now : ℕ) (m : RateMap Limiter)
      → IsSane id now m
      → t ≤ now
      → capacity ≤ rate * m.idle_ttl
      → IsSane id now (evict b t m) × (available id now (evict b t m) ≤ available id now m)
  unfolding evict
  evict_lem id t now m h k full =
      let same =
        lookup-retain (λ (e : Entry Limiter). not (ltb (e.last_seen + m.idle_ttl) t)) id m.entries
          h.distinct in
      let swept = sweep_in (lookup id m.entries) m.idle_ttl t now h.entry k full in
      (
        record {
          distinct = retain-Distinct _ m.entries h.distinct;
          entry = subst (EntryIsSane now) (sym same) swept.0;
        },
        subst (λ o. available_in o now ≤ available id now m) (sym same) swept.1,
      )

  other_entry :
      (id j : Text) (e : Entry Limiter) (m : RateMap Limiter)
      → j ≢ id
      → lookup id (insert j e m.entries) ≡ lookup id m.entries
  other_entry id j e m ne = lookup-insert j id e m.entries ∙ (rw (text_eq_ne j id ne) refl)

  pub allow_other :
      (id j : Text) (now t : ℕ) (m : RateMap Limiter)
      → j ≢ id
      → IsSane id now m
      → now ≤ t
      → IsSane id t (allow b j t m).0 × (available id t (allow b j t m).0 ≡ available id t m)
  unfolding allow
  allow_other id j now t m ne h k =
      let e : Entry Limiter = record {
        limiter = (take_token t (limiter_or fresh (lookup j m.entries))).0;
        last_seen = t;
      } in
      (
        record {
          distinct = insert-Distinct j e m.entries h.distinct;
          entry =
              subst (EntryIsSane t) (sym (other_entry id j e m ne))
                (sane_later (lookup id m.entries) now t h.entry k);
        },
        ap (λ o. available_in o t) (other_entry id j e m ne),
      )
