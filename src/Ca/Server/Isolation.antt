-- ===== src/Ca/Server/Isolation.antt =====
-- What a caller of the authority gets does not depend on the others' requests.
use ziti_ssh.Prelude.{
  ℕ, ◌≡◌, refl, sym, Bool, true, false, not, ◌&&◌, List, [], ◌∷◌, if◌then◌else◌, arith, subst, none,
  some,
}
use ziti_ssh.Text.Trim.{trim_space}
use ziti_ssh.Text.{Text, codes, is_empty, text_dec, text_eq, text_eq_refl, text_eq_ne}
use ziti_ssh.RateLimit.{Bucket, RateMap, new, allow, evict}
use ziti_ssh.RateLimit.Isolation.{
  Agree, new-Agree, allow-Agree, allow-decision, allow_other-Agree, evict-Agree,
}
use ziti_ssh.Ca.Cert.{Ssh}
use ziti_ssh.Ca.Conn.{
  Request, Server, Served, caller_identity, handle_conn, read_line, effective_principal,
}
use ziti_ssh.Ca.Server.{ServerEvent, connected, swept, answers, events_of, idle_limiter_ttl}

text_eq_of_eq : (a c : Text) → a ≡ c → text_eq a c ≡ true
text_eq_of_eq a c e = rw e (text_eq_refl c)

module _ (s : Ssh) (b : Bucket) (to_lower : ℕ → ℕ) (v : Server s b to_lower) where
  open b use {Limiter}

  abbrev handled : Request → RateMap Limiter → Served Limiter
  handled = handle_conn s b to_lower v

  -- Whether a request comes to the limiter: its caller has a name, and sends a line in time.
  unfoldable pub spends : Request → Bool
  spends r =
      let id = caller_identity r.caller in
      not (is_empty id)
      && not (
          text_eq v.mode (codes "per-identity") && is_empty (effective_principal s b to_lower v id))
      && r.deadline_ok
      && elim (read_line r.input) [ none ↦ false | some line ↦ not (is_empty (trim_space line)) ]

  pub handle_conn_spends :
      (r : Request) (m : RateMap Limiter)
      → (handled r m).limiter
        ≡ (if spends r then (allow b (caller_identity r.caller) r.limiter_now m).0 else m)
  unfolding handle_conn spends
  handle_conn_spends r m = ground arith

  handled_ending :
      (r : Request) (m n : RateMap Limiter)
      → (allow b (caller_identity r.caller) r.limiter_now m).1
        ≡ (allow b (caller_identity r.caller) r.limiter_now n).1
      → ((handled r m).ending ≡ (handled r n).ending)
        × ((handled r m).written ≡ (handled r n).written)
  unfolding handle_conn
  handled_ending r m n e = ground arith

  handled-Agree :
      (r : Request) (m n : RateMap Limiter)
      → Agree b (caller_identity r.caller) m n
      → Agree b (caller_identity r.caller) (handled r m).limiter (handled r n).limiter
  handled-Agree r m n h =
      rw (handle_conn_spends r m, handle_conn_spends r n)
        (elim (spends r)
          as (λ (t : Bool).
            Agree b (caller_identity r.caller)
              (if t then (allow b (caller_identity r.caller) r.limiter_now m).0 else m)
              (if t then (allow b (caller_identity r.caller) r.limiter_now n).0 else n)) [
                | true ↦ allow-Agree b (caller_identity r.caller) r.limiter_now m n h
                | false ↦ h
              ])

  handled_other-Agree :
      (id : Text) (r : Request) (m n : RateMap Limiter)
      → text_eq (caller_identity r.caller) id ≡ false
      → Agree b id m n
      → Agree b id (handled r m).limiter n
  handled_other-Agree id r m n ne h =
      rw (handle_conn_spends r m)
        (elim (spends r)
          as (λ (t : Bool).
            Agree b id (if t then (allow b (caller_identity r.caller) r.limiter_now m).0 else m)
              n) [
                | true ↦ allow_other-Agree b id (caller_identity r.caller) r.limiter_now m n ne h
                | false ↦ h
              ])

  answers-events_of_from :
      (id : Text) (es : List ServerEvent) (m n : RateMap Limiter)
      → Agree b id m n
      → answers s b to_lower id v es m ≡ answers s b to_lower id v (events_of id es) n
  unfolding answers events_of
  answers-events_of_from id [] m n h = refl
  answers-events_of_from id (swept now ∷ es) m n h =
      answers-events_of_from id es (evict b now m) (evict b now n) (evict-Agree b id now m n h)
  answers-events_of_from id (connected r ∷ es) m n h =
      elim (text_dec (caller_identity r.caller) id) [
        | yes e ↦
            let own : Agree b (caller_identity r.caller) m n =
              subst (λ t. Agree b t m n) (sym e) h in
            let after : Agree b id (handled r m).limiter (handled r n).limiter =
              subst (λ t. Agree b t (handled r m).limiter (handled r n).limiter) e
                (handled-Agree r m n own) in
            ground (
              arith,
              text_eq_of_eq (caller_identity r.caller) id e,
              handled_ending r m n
                  (allow-decision b (caller_identity r.caller) r.limiter_now m n own),
              answers-events_of_from id es (handled r m).limiter (handled r n).limiter after,
            )
        | no ne ↦
            let off = text_eq_ne (caller_identity r.caller) id ne in
            rw off (
              answers-events_of_from id es (handled r m).limiter n
                (handled_other-Agree id r m n off h))
      ]

  -- Whoever else connects, and whenever the limiter's ticks come, an identity's connections end as
  -- in a run of the server without the others, and get the same bytes.
  pub answers-events_of :
      (id : Text) (es : List ServerEvent)
      → answers s b to_lower id v es (new idle_limiter_ttl)
        ≡ answers s b to_lower id v (events_of id es) (new idle_limiter_ttl)
  answers-events_of id es =
      answers-events_of_from id es (new idle_limiter_ttl) (new idle_limiter_ttl)
        (new-Agree b id idle_limiter_ttl)
