-- ===== src/Host/Users/Threads.antt =====
-- Connections that run at the same time, as cmd/ziti-ssh-host/main.go and host/host.go have them: a
-- goroutine each, which calls EnsureUser, proxies, and calls ReleaseUser. A step of a goroutine is
-- one phase: the part under the manager's lock, or the part under the user's lock.
use ziti_ssh.Prelude.{ℕ, zero, suc, Bool, true, false, List, [], ◌∷◌, Result, ok, err}
use ziti_ssh.Text.{Text}
use ziti_ssh.Host.Permissions.{IdentityPermissions}
use ziti_ssh.Host.Machine.{System, Machine}
use ziti_ssh.Host.Users.{
  Book, Begun, rejected, first, again, Released, untracked, remaining, last, ensure_begin,
  release_begin, ensure_finish_first, ensure_finish_again, release_finish,
}

-- Where a connection stands. `turned_away`: EnsureUser has returned an error. `bad_release`:
-- ReleaseUser has reported an accounting bug.
pub data Phase : Type 0 where
  waiting creating joining connected deleting closed turned_away bad_release : Phase

pub record Thread : Type 0 where
  pub identity : Text
  pub username : Text
  pub perms : IdentityPermissions
  pub phase : Phase

-- The connection counts as a session of its user.
unfoldable pub holds : Phase → Bool
holds creating = true
holds joining = true
holds connected = true
holds _ = false

-- the phase after each phase's outcome
unfoldable pub begun_phase : Begun → Phase
begun_phase rejected = turned_away
begun_phase first = creating
begun_phase again = joining

unfoldable pub created_phase : {E : Type 0} → Result E (Unit {0}) → Phase
created_phase (ok u) = connected
created_phase (err e) = turned_away

unfoldable pub released_phase : Released → Phase
released_phase untracked = bad_release
released_phase remaining = closed
released_phase last = deleting

module _ (S : System) (state_file : Text) (cleanup : Bool) where
  -- What the goroutines share.
  pub record Shared : Type 0 where
    pub book : Book
    pub machine : Machine S

  -- the next phase of a connection; one that has ended does nothing
  unfoldable pub step : Thread → Shared → Thread × Shared
  step t s = elim t.phase [
    | waiting ↦
        let (begun, b) = ensure_begin t.identity t.username s.book in
        (record t { phase = begun_phase begun }, record s { book = b })
    | creating ↦
        let (r, b, m) = ensure_finish_first S state_file t.username t.perms s.book s.machine in
        (record t { phase = created_phase r }, record { book = b; machine = m })
    | joining ↦ (
      record t { phase = connected },
      record s { machine = ensure_finish_again S state_file t.username t.perms s.machine },
    )
    | connected ↦
        let (released, b) = release_begin t.username s.book in
        (record t { phase = released_phase released }, record s { book = b })
    | deleting ↦
        let (r, m) = release_finish S state_file cleanup t.username s.book s.machine in
        (record t { phase = closed }, record s { machine = m })
    | closed ↦ (t, s)
    | turned_away ↦ (t, s)
    | bad_release ↦ (t, s)
  ]

  -- a step of the connection at an index
  unfoldable pub step_at : ℕ → List Thread → Shared → List Thread × Shared
  step_at i [] s = ([], s)
  step_at zero (t ∷ ts) s = let (t', s') = step t s in (t' ∷ ts, s')
  step_at (suc i) (t ∷ ts) s = let (ts', s') = step_at i ts s in (t ∷ ts', s')

  -- The scheduler's choices, one index for each step.
  unfoldable pub run : List ℕ → List Thread → Shared → List Thread × Shared
  run [] ts s = (ts, s)
  run (i ∷ is) ts s = let (ts', s') = step_at i ts s in run is ts' s'
