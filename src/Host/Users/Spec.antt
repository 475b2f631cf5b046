-- ===== src/Host/Users/Spec.antt =====
-- What the user manager promises, without maps, machine or phases: a list of sessions, each an
-- identity on a Linux user, which connections take and give back.
use ziti_ssh.Prelude.{◌≡◌, List, [], ◌∷◌, All}
use ziti_ssh.Text.{Text}

-- an identity and a Linux user
abbrev pub Session : Type 0
Session = Text × Text

-- No other identity has a session of the user.
abbrev pub Free : Session → List Session → Type 0
Free s ss = All (λ r. r.1 ≡ s.1 → r.0 ≡ s.0) ss

-- The second list is the first one with the session put in somewhere.
pub data Inserted (s : Session) : List Session → List Session → Type 0 where
  here : {ss : List Session} → Inserted s ss (s ∷ ss)
  there : {r : Session} {ss ts : List Session} → Inserted s ss ts → Inserted s (r ∷ ss) (r ∷ ts)

-- What a step does to the sessions.
pub data Action : Type 0 where
  idle : Action
  acquired refused released : Session → Action

-- One step of the promise.
pub data SpecStep : Action → List Session → List Session → Type 0 where
  stays : {ss : List Session} → SpecStep idle ss ss
  takes :
      {s : Session} {ss ts : List Session}
      → Free s ss
      → Inserted s ss ts
      → SpecStep (acquired s) ss ts
  turns_away : {s : Session} {ss : List Session} → ¬ Free s ss → SpecStep (refused s) ss ss
  gives : {s : Session} {ss ts : List Session} → Inserted s ts ss → SpecStep (released s) ss ts

-- Steps one after another.
pub data SpecRun : List Action → List Session → List Session → Type 0 where
  done : {ss : List Session} → SpecRun [] ss ss
  next :
      {a : Action} {as' : List Action} {ss ts us : List Session}
      → SpecStep a ss ts
      → SpecRun as' ts us
      → SpecRun (a ∷ as') ss us

pub All-Inserted :
    (P : Session → Type 0) (s : Session) {ss ts : List Session}
    → Inserted s ss ts
    → All P ts
    → P s × All P ss
All-Inserted P s here h = h
All-Inserted P s (there i) h = let rest = All-Inserted P s i h.1 in (rest.0, (h.0, rest.1))
