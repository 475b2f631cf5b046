-- ===== src/Ca/Server/Bounds.antt =====
-- How many certificates a caller of the authority can get in a time.
use ziti_ssh.Prelude.{
  ℕ, suc, ◌+◌, ◌-◌, ◌*◌, ◌≤◌, ◌≡◌, ◌≢◌, refl, ap, sym, ◌∙◌, Bool, true, false, List, [], ◌∷◌, leb,
  if◌then◌else◌, arith, subst, Bool-cases, inl, inr,
}
use ziti_ssh.Text.{Text, text_dec, text_eq_refl, text_eq_ne}
use ziti_ssh.Dict.{lookup}
use ziti_ssh.RateLimit.{Bucket, RateMap, new, allow, evict}
use ziti_ssh.RateLimit.Bounds.{
  IsTokenBucket, IsSane, available, available_later, allow-IsSane, allow-available, IsSane-later,
  evict_lem, allow_other, evict-idle_ttl,
}
use ziti_ssh.Ca.Cert.{Ssh}
use ziti_ssh.Ca.Conn.{Request, Server, Served, Ending, issued, caller_identity, handle_conn}
use ziti_ssh.Ca.Server.{ServerEvent, connected, swept, answers, is_from, idle_limiter_ttl}
use ziti_ssh.Ca.Server.Isolation.{spends, handle_conn_spends}

abbrev pub is_issued : Ending → Bool
is_issued issued = true
is_issued _ = false

-- The number of certificates among the answers.
abbrev pub certificates : List (Ending × List Text) → ℕ
certificates [] = 0
certificates ((e, written) ∷ rest) =
    if is_issued e then suc (certificates rest) else certificates rest

abbrev pub later : ℕ → ℕ → ℕ
later a b = if leb a b then b else a

-- The limiter's clock does not go back from one request to the next. A sweep may have read it before.
abbrev pub IsOrdered : ℕ → ℕ → List ServerEvent → Type 0
IsOrdered now stop [] = now ≤ stop
IsOrdered now stop (connected r ∷ es) = (now ≤ r.limiter_now) × IsOrdered r.limiter_now stop es
IsOrdered now stop (swept t ∷ es) = IsOrdered (later now t) stop es

rate_split : (rate a b c : ℕ) → a ≤ b → b ≤ c → rate * (b - a) + rate * (c - b) ≡ rate * (c - a)
rate_split rate a b c h k = grind arith

module _ (s : Ssh) (b : Bucket) (to_lower : ℕ → ℕ) (v : Server s b to_lower)
    (cost capacity rate : ℕ) (bucket : IsTokenBucket b cost capacity rate) where
  open b use {Limiter}

  abbrev Sane : Text → ℕ → RateMap Limiter → Type 0
  Sane = IsSane b cost capacity rate bucket

  abbrev parts : Text → ℕ → RateMap Limiter → ℕ
  parts = available b cost capacity rate bucket

  abbrev handled : Request → RateMap Limiter → Served Limiter
  handled = handle_conn s b to_lower v

  ordered_le : (es : List ServerEvent) (now stop : ℕ) → IsOrdered now stop es → now ≤ stop
  ordered_le [] now stop h = h
  ordered_le (connected r ∷ es) now stop h =
      omega (arith, h.0, ordered_le es r.limiter_now stop h.1)
  ordered_le (swept t ∷ es) now stop h = ground (arith, ordered_le es (later now t) stop h)

  evict_ttl : (t : ℕ) (m : RateMap Limiter) → (evict b t m).idle_ttl ≡ m.idle_ttl
  evict_ttl t m = evict-idle_ttl b t m

  count_one :
      (e : Ending) (written : List Text) (rest : List (Ending × List Text))
      → cost * certificates ((e, written) ∷ rest)
        ≡ (if is_issued e then cost else 0) + cost * certificates rest
  count_one e written rest = elim (Bool-cases (is_issued e)) [
    | inl h ↦ rw h (grind arith)
    | inr h ↦ rw h (omega arith)
  ]

  handled_ttl : (r : Request) (m : RateMap Limiter) → (handled r m).limiter.idle_ttl ≡ m.idle_ttl
  unfolding allow
  handled_ttl r m =
      ap (λ (x : RateMap Limiter). x.idle_ttl) (handle_conn_spends s b to_lower v r m)
      ∙ (elim (spends s b to_lower v r)
          as (λ (x : Bool).
            (if x then (allow b (caller_identity r.caller) r.limiter_now m).0 else m).idle_ttl
            ≡ m.idle_ttl) [ true ↦ refl | false ↦ refl ])

  -- A request that gets a certificate has spent a token.
  issued-spends :
      (r : Request) (m : RateMap Limiter)
      → is_issued (handled r m).ending ≡ true
      → (spends s b to_lower v r ≡ true)
        × ((allow b (caller_identity r.caller) r.limiter_now m).1 ≡ true)
  unfolding handle_conn spends
  issued-spends r m h = ground arith

  -- the table after a request, by whether the request came to the limiter
  limiter_spent :
      (r : Request) (m : RateMap Limiter) (t : Bool)
      → spends s b to_lower v r ≡ t
      → (handled r m).limiter
        ≡ (if t then (allow b (caller_identity r.caller) r.limiter_now m).0 else m)
  limiter_spent r m t e = rw (← e) (handle_conn_spends s b to_lower v r m)

  own_request :
      (r : Request) (now : ℕ) (m : RateMap Limiter)
      → Sane (caller_identity r.caller) now m
      → now ≤ r.limiter_now
      → let id = caller_identity r.caller in
        Sane id r.limiter_now (handled r m).limiter
        × ((if is_issued (handled r m).ending then cost else 0)
              + parts id r.limiter_now (handled r m).limiter
            ≤ parts id r.limiter_now m)
  own_request r now m h k =
      let id = caller_identity r.caller in
      elim (Bool-cases (spends s b to_lower v r)) [
        | inl e ↦
            let same = limiter_spent r m true e in
            (
              subst (Sane id r.limiter_now) (sym same)
                  (allow-IsSane b cost capacity rate bucket id now r.limiter_now m h k),
              ground (
                arith,
                ap (parts id r.limiter_now) same,
                allow-available b cost capacity rate bucket id now r.limiter_now m h k,
                issued-spends r m,
              ),
            )
        | inr e ↦
            let same = limiter_spent r m false e in
            (
              subst (Sane id r.limiter_now) (sym same)
                  (IsSane-later b cost capacity rate bucket id now r.limiter_now m h k),
              ground (arith, ap (parts id r.limiter_now) same, e, issued-spends r m),
            )
      ]

  other_request :
      (id : Text) (r : Request) (now : ℕ) (m : RateMap Limiter)
      → caller_identity r.caller ≢ id
      → Sane id now m
      → now ≤ r.limiter_now
      → Sane id r.limiter_now (handled r m).limiter
        × (parts id r.limiter_now (handled r m).limiter ≡ parts id r.limiter_now m)
  other_request id r now m ne h k = elim (Bool-cases (spends s b to_lower v r)) [
    | inl e ↦
        let same = limiter_spent r m true e in
        let kept =
          allow_other b cost capacity rate bucket id (caller_identity r.caller) now r.limiter_now m
            ne h k in
        (subst (Sane id r.limiter_now) (sym same) kept.0, ap (parts id r.limiter_now) same ∙ kept.1)
    | inr e ↦
        let same = limiter_spent r m false e in
        (
          subst (Sane id r.limiter_now) (sym same)
              (IsSane-later b cost capacity rate bucket id now r.limiter_now m h k),
          ap (parts id r.limiter_now) same,
        )
  ]

  spent_from :
      (id : Text) (es : List ServerEvent) (now stop : ℕ) (m : RateMap Limiter)
      → Sane id now m
      → m.idle_ttl ≡ idle_limiter_ttl
      → capacity ≤ rate * idle_limiter_ttl
      → IsOrdered now stop es
      → cost * certificates (answers s b to_lower id v es m) ≤ parts id now m + rate * (stop - now)
  unfolding answers
  spent_from id [] now stop m h ttl full o = omega arith
  spent_from id (swept t ∷ es) now stop m h ttl full o =
      let now' = later now t in
      let le : now ≤ now' = ground arith in
      let swept_lem =
        evict_lem b cost capacity rate bucket id t now' m
          (IsSane-later b cost capacity rate bucket id now now' m h le) (ground arith)
          (subst (λ x. capacity ≤ rate * x) (sym ttl) full) in
      omega (
        arith,
        swept_lem.1,
        available_later b cost capacity rate bucket id now now' m h le,
        rate_split rate now now' stop le (ordered_le es now' stop o),
        spent_from id es now' stop (evict b t m) swept_lem.0 (evict_ttl t m ∙ ttl) full o,
      )
  spent_from id (connected r ∷ es) now stop m h ttl full o =
      let now' = r.limiter_now in
      let m' = (handled r m).limiter in
      let ttl' = handled_ttl r m ∙ ttl in
      let gain = available_later b cost capacity rate bucket id now now' m h o.0 in
      let times = rate_split rate now now' stop o.0 (ordered_le es now' stop o.1) in
      elim (text_dec (caller_identity r.caller) id) [
        | yes e ↦
            let own = own_request r now m (subst (λ x. Sane x now m) (sym e) h) o.0 in
            let own' =
              subst
                (λ x.
                  Sane x now' m'
                  × ((if is_issued (handled r m).ending then cost else 0) + parts x now' m'
                      ≤ parts x now' m))
                e own in
            let same : is_from s b to_lower id r ≡ true = rw e (text_eq_refl id) in
            let rest = spent_from id es now' stop m' own'.0 ttl' full o.1 in
            rw same (
              omega (
                arith,
                own'.1,
                gain,
                times,
                rest,
                count_one (handled r m).ending (handled r m).written
                    (answers s b to_lower id v es m'),
              ))
        | no ne ↦
            let other = other_request id r now m ne h o.0 in
            let same : is_from s b to_lower id r ≡ false =
              text_eq_ne (caller_identity r.caller) id ne in
            rw same (
              omega
                (arith, other.1, gain, times, spent_from id es now' stop m' other.0 ttl' full o.1))
      ]

  -- The certificates that a caller gets from the start of the server, at a time, until a later one
  -- cost no more than a full bucket and what came in the meantime; whatever the callers send. The
  -- limiter is a bucket of tokens as documented, its clock does not go back, and the idle time after
  -- which a limiter is dropped is long enough to fill its bucket.
  pub certificates_bounded :
      (id : Text) (es : List ServerEvent) (start stop : ℕ)
      → capacity ≤ rate * idle_limiter_ttl
      → IsOrdered start stop es
      → cost * certificates (answers s b to_lower id v es (new idle_limiter_ttl))
        ≤ capacity + rate * (stop - start)
  unfolding new lookup
  certificates_bounded id es start stop full o = omega (
    arith,
    bucket.fresh_full start,
    spent_from id es start stop (new idle_limiter_ttl) (record { distinct = tt; entry = tt }) refl
        full o,
  )
