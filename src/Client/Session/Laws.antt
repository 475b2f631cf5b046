-- ===== src/Client/Session/Laws.antt =====
-- What a session owes at its end: the terminal, its connections and the status.
use ziti_ssh.Prelude.{
  ℕ, suc, ◌+◌, ◌≡◌, refl, Bool, true, false, [], ◌∷◌, ◌++◌, if◌then◌else◌, Result, arith,
}
use ziti_ssh.Text.{Text}
use ziti_ssh.Client.Session.{
  SessionEvent, client_opened, session_opened, agent_dialled, agent_closed, made_raw, restored,
  session_closed, client_closed, SessionError, Outcome, returned, exited, exit_status, SessionCalls,
  Trace, forward_agent, with_terminal, run_ssh_client_session, run_ssh_client_command,
  new_ssh_client, run_session, run_command,
}

-- How often an event of a kind occurs.
abbrev pub count_of : (SessionEvent → Bool) → Trace → ℕ
count_of p [] = 0
count_of p (e ∷ es) = if p e then suc (count_of p es) else count_of p es

abbrev pub is_raw : SessionEvent → Bool
is_raw made_raw = true
is_raw _ = false

abbrev pub is_restored : SessionEvent → Bool
is_restored restored = true
is_restored _ = false

abbrev pub is_opened : SessionEvent → Bool
is_opened client_opened = true
is_opened session_opened = true
is_opened agent_dialled = true
is_opened _ = false

abbrev pub is_closed : SessionEvent → Bool
is_closed client_closed = true
is_closed session_closed = true
is_closed agent_closed = true
is_closed _ = false

-- What a run owes at its end: the terminal is as it was; what was opened is closed if the run
-- returns; and the process ends only with the status that the remote side sent.
abbrev pub IsTidy : SessionCalls → Trace × Outcome → Type 0
IsTidy c (events, outcome) =
    (count_of is_raw events ≡ count_of is_restored events)
    × ((r : Result SessionError (Unit {0}))
        → outcome ≡ returned r
        → count_of is_opened events ≡ count_of is_closed events)
    × ((n : ℕ) → outcome ≡ exited n → c.waited ≡ exit_status n)

count_of-append :
    (p : SessionEvent → Bool) (es fs : Trace)
    → count_of p (es ++ fs) ≡ count_of p es + count_of p fs
count_of-append p [] fs = omega arith
count_of-append p (e ∷ es) fs = ground (arith, count_of-append p es fs)

forward_agent_counts :
    (c : SessionCalls)
    → let (events, adopted) = forward_agent c in
      (count_of is_raw events ≡ 0)
      × (count_of is_restored events ≡ 0)
      × (count_of is_opened events ≡ count_of is_closed events + (if adopted then 1 else 0))
unfolding forward_agent
forward_agent_counts c = ground arith

with_terminal_counts :
    (c : SessionCalls)
    → let (events, outcome) = with_terminal c in
      (count_of is_raw events ≡ count_of is_restored events)
      × ((r : Result SessionError (Unit {0}))
          → outcome ≡ returned r
          → count_of is_opened events + 1 ≡ count_of is_closed events)
      × ((n : ℕ) → outcome ≡ exited n → c.waited ≡ exit_status n)
unfolding with_terminal
with_terminal_counts c = (ground arith, (λ r h. ground (arith, h)), (λ n h. ground (arith, h)))

-- what a body owes, before the client is closed
abbrev BodyIsTidy : SessionCalls → Trace → Bool → Outcome → Type 0
BodyIsTidy c events adopted outcome =
    (count_of is_raw events ≡ count_of is_restored events)
    × ((r : Result SessionError (Unit {0}))
        → outcome ≡ returned r
        → count_of is_opened events ≡ count_of is_closed events + (if adopted then 1 else 0))
    × ((n : ℕ) → outcome ≡ exited n → c.waited ≡ exit_status n)

session-IsTidy :
    (with_agent : Bool) (c : SessionCalls)
    → let (events, adopted, outcome) = run_ssh_client_session with_agent c in
      BodyIsTidy c events adopted outcome
unfolding run_ssh_client_session
session-IsTidy with_agent c =
    let (agent_events, adopted) = forward_agent c in
    let (events, outcome) = with_terminal c in
    let agent = forward_agent_counts c in
    let shell = with_terminal_counts c in
    let sum = λ (p : SessionEvent → Bool). count_of-append p agent_events events in
    (
      ground (arith, agent, shell.0, sum is_raw, sum is_restored),
      (λ r h. ground (arith, h, agent, shell.1 r, sum is_opened, sum is_closed)),
      (λ n h. ground (arith, h, shell.2 n)),
    )

command-IsTidy :
    (command : Text) (c : SessionCalls)
    → let (events, outcome) = run_ssh_client_command command c in BodyIsTidy c events false outcome
unfolding run_ssh_client_command
command-IsTidy command c = (ground arith, (λ r h. ground (arith, h)), (λ n h. ground (arith, h)))

close-IsTidy :
    (c : SessionCalls) (events : Trace) (adopted : Bool) (outcome : Outcome)
    → BodyIsTidy c events adopted outcome
    → IsTidy c (new_ssh_client c (events, adopted, outcome))
unfolding new_ssh_client
close-IsTidy c events adopted (exited n) (raw, closed, status) =
    (ground (arith, raw), (λ r h. ground (arith, h)), (λ m h. ground (arith, h, status m)))
close-IsTidy c events true (returned r) (raw, closed, status) =
    let sum =
      λ (p : SessionEvent → Bool). count_of-append p events (client_closed ∷ agent_closed ∷ []) in
    (
      ground (arith, raw, sum is_raw, sum is_restored),
      (λ q h. ground (arith, h, closed r refl, sum is_opened, sum is_closed)),
      (λ m h. ground (arith, h)),
    )
close-IsTidy c events false (returned r) (raw, closed, status) =
    let sum = λ (p : SessionEvent → Bool). count_of-append p events (client_closed ∷ []) in
    (
      ground (arith, raw, sum is_raw, sum is_restored),
      (λ q h. ground (arith, h, closed r refl, sum is_opened, sum is_closed)),
      (λ m h. ground (arith, h)),
    )

-- An interactive session and a command leave the terminal as it was on every path, also where they
-- end the process; if they return, what they opened is closed, the agent's connection included; and
-- they end the process only with the status of the remote side.
pub run_session-IsTidy :
    (with_agent : Bool) (command : Text) (c : SessionCalls)
    → IsTidy c (run_session with_agent c) × IsTidy c (run_command command c)
unfolding run_session run_command
run_session-IsTidy with_agent command c =
    let (events, adopted, outcome) = run_ssh_client_session with_agent c in
    let (command_events, command_outcome) = run_ssh_client_command command c in
    (
      close-IsTidy c events adopted outcome (session-IsTidy with_agent c),
      close-IsTidy c command_events false command_outcome (command-IsTidy command c),
    )
