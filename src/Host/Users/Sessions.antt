-- ===== src/Host/Users/Sessions.antt =====
-- The accounting of sessions under every interleaving of the connections.
use ziti_ssh.Prelude.{
  ℕ, ◌≡◌, refl, sym, ap, ◌∙◌, Bool, true, false, List, [], ◌∷◌, some, arith, All,
}
use ziti_ssh.Text.{Text}
use ziti_ssh.Dict.{lookup}
use ziti_ssh.Host.Machine.{System}
use ziti_ssh.Host.Users.{Book, count}
use ziti_ssh.Host.Users.Threads.{Thread, Shared, holds, waiting, run}
use ziti_ssh.Host.Users.Effects.{held, held_by, Owned, is_bad}
use ziti_ssh.Host.Users.Invariant.{IsAccounted, AllSound, run-IsAccounted, run-AllSound}

some_inj : {A : Type 0} {a b : A} → some a ≡ some b → a ≡ b
some_inj e = ground (arith, e)

owners_agree :
    (b : Book) (t : Thread) (ts : List Thread)
    → Owned b t.identity t.username t.phase
    → All (λ t'. Owned b t'.identity t'.username t'.phase) ts
    → All
        (λ t'.
          holds t.phase ≡ true
          → holds t'.phase ≡ true
          → t.username ≡ t'.username
          → t.identity ≡ t'.identity)
        ts
owners_agree b t [] own h = tt
owners_agree b t (t' ∷ ts) own h = (
  (λ now now' same. some_inj (sym (own now) ∙ (ap (λ u. lookup u b.owners) same ∙ h.0 now'))),
  owners_agree b t ts own h.1,
)

All-agree :
    (b : Book) (ts us : List Thread)
    → All (λ t. Owned b t.identity t.username t.phase) ts
    → All (λ t. Owned b t.identity t.username t.phase) us
    → All
        (λ t.
          All
            (λ t'.
              holds t.phase ≡ true
              → holds t'.phase ≡ true
              → t.username ≡ t'.username
              → t.identity ≡ t'.identity)
            us)
        ts
All-agree b [] us h g = tt
All-agree b (t ∷ ts) us h g = (owners_agree b t us h.0 g, All-agree b ts us h.1 g)

module _ (S : System) (state_file : Text) (cleanup : Bool) where
  -- All connections are new, and the maps of the manager are empty.
  abbrev pub IsStart : List Thread → Shared S state_file cleanup → Type 0
  IsStart ts s = All (λ t. t.phase ≡ waiting) ts × (s.book ≡ record { sessions = []; owners = [] })

  start_held : (ts : List Thread) (v : Text) → All (λ t. t.phase ≡ waiting) ts → held ts v ≡ 0
  unfolding held held_by holds
  start_held [] v h = refl
  start_held (t ∷ ts) v h = ground (arith, h.0, start_held ts v h.1)

  start-Owned :
      (b : Book) (ts : List Thread)
      → All (λ t. t.phase ≡ waiting) ts
      → All (λ t. Owned b t.identity t.username t.phase) ts
  unfolding holds
  start-Owned b [] h = tt
  start-Owned b (t ∷ ts) h = ((λ now. ground (arith, h.0, now)), start-Owned b ts h.1)

  start_sound :
      (ts : List Thread) → All (λ t. t.phase ≡ waiting) ts → AllSound S state_file cleanup ts
  unfolding is_bad
  start_sound [] h = tt
  start_sound (t ∷ ts) h = (ground (arith, h.0), start_sound ts h.1)

  pub start-IsAccounted :
      (ts : List Thread) (s : Shared S state_file cleanup)
      → IsStart ts s
      → IsAccounted S state_file cleanup (λ v. 0) ts s
  unfolding count lookup
  start-IsAccounted ts s h = (
    ((λ v. rw (h.1, start_held ts v h.0) refl), (λ v free. rw (start_held ts v h.0) refl)),
    start-Owned s.book ts h.0,
  )

  module _ (is : List ℕ) (ts : List Thread) (s : Shared S state_file cleanup) where
    abbrev end : List Thread × Shared S state_file cleanup
    end = run S state_file cleanup is ts s

    -- From a start, whatever the order in which the connections' phases run, the session count of
    -- every user is the number of connections that hold a session of that user.
    pub run-count : IsStart ts s → (v : Text) → count v end.1.book ≡ held end.0 v
    run-count h v =
        let inv = run-IsAccounted S state_file cleanup is ts s (start-IsAccounted ts s h) in
        ground (arith, inv.0.0 v)

    -- From a start, whatever the order of the phases, two connections that hold sessions of the
    -- same Linux user have the same Ziti identity.
    pub run_exclusive :
        IsStart ts s
        → All
            (λ t.
              All
                (λ t'.
                  holds t.phase ≡ true
                  → holds t'.phase ≡ true
                  → t.username ≡ t'.username
                  → t.identity ≡ t'.identity)
                end.0)
            end.0
    run_exclusive h =
        let inv = run-IsAccounted S state_file cleanup is ts s (start-IsAccounted ts s h) in
        All-agree end.1.book end.0 end.0 inv.1 inv.1

    -- From a start, whatever the order of the phases, no ReleaseUser reports an untracked user.
    pub run_no_bad_release : IsStart ts s → All (λ t. is_bad t.phase ≡ false) end.0
    run_no_bad_release h =
        run-AllSound S state_file cleanup is ts s (start-IsAccounted ts s h) (start_sound ts h.0)
