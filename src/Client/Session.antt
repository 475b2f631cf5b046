-- ===== src/Client/Session.antt =====
-- RunSession, RunCommand, ForwardAgent and NewSSHClient of client/ssh.go, and their copies
-- runSSHClientSession and runSSHClientCommand in cmd/ziti-ssh/main.go: what a session does to the
-- terminal, its connections and the process. The ssh, agent and term packages are inputs.
pub mod Laws
use ziti_ssh.Prelude.{
  ℕ, zero, suc, ◌+◌, ◌≡◌, ◌⊎◌, inl, inr, refl, ap, Bool, true, false, not, ◌&&◌, List, [], ◌∷◌,
  ◌++◌, if◌then◌else◌, Option, none, some, Result, ok, err, arith,
}
use ziti_ssh.Text.{Text, is_empty}

-- What a session does that others can see, in order.
pub data SessionEvent : Type 0 where
  client_opened session_opened agent_dialled agent_registered agent_requested : SessionEvent
  agent_closed made_raw restored shell_started session_closed client_closed : SessionEvent
  pty_requested : (height width : ℕ) → SessionEvent
  command_started : Text → SessionEvent

pub data SessionError : Type 0 where
  no_handshake no_session not_raw no_pty no_shell broken : SessionError

-- How a run ends: it returns to its caller, or ends the process with a status.
pub data Outcome : Type 0 where
  returned : Result SessionError (Unit {0}) → Outcome
  exited : ℕ → Outcome

-- session.Wait, or session.Run
pub data Waited : Type 0 where
  finished disconnected : Waited
  exit_status : ℕ → Waited

pub record SessionCalls : Type 0 where
  pub handshake_ok : Bool
  pub session_ok : Bool
  pub agent_socket : Text
  pub agent_dial_ok : Bool
  pub register_ok : Bool
  pub request_ok : Bool
  pub size : Option (ℕ × ℕ)
  pub raw_ok : Bool
  pub pty_ok : Bool
  pub shell_ok : Bool
  pub waited : Waited

abbrev pub Trace : Type 0
Trace = List SessionEvent

-- ForwardAgent, and whether the agent's connection is closed when the client ends: its error is only
-- logged
unfoldable pub forward_agent : SessionCalls → Trace × Bool
forward_agent c =
    if is_empty c.agent_socket
    then ([], false)
    else if not c.agent_dial_ok
    then ([], false)
    else if not c.register_ok
    then (agent_dialled ∷ agent_closed ∷ [], false)
    else if not c.request_ok
    then (agent_dialled ∷ agent_registered ∷ [], true)
    else (agent_dialled ∷ agent_registered ∷ agent_requested ∷ [], true)

-- The end of the shell; the deferred calls run in the reverse order, but not after os.Exit.
unfoldable pub wait_shell : Waited → Trace × Outcome
wait_shell finished = (restored ∷ session_closed ∷ [], returned (ok tt))
wait_shell disconnected = (restored ∷ session_closed ∷ [], returned (err broken))
wait_shell (exit_status n) = (restored ∷ [], exited n)

-- the width and the height of the terminal, or the default
unfoldable pub terminal_size : Option (ℕ × ℕ) → ℕ × ℕ
terminal_size none = (80, 24)
terminal_size (some s) = s

-- from term.GetSize on
unfoldable pub with_terminal : SessionCalls → Trace × Outcome
unfolding wait_shell terminal_size
with_terminal c =
    let (width, height) = terminal_size c.size in
    let (last_events, outcome) = wait_shell c.waited in
    if not c.raw_ok
    then (session_closed ∷ [], returned (err not_raw))
    else if not c.pty_ok
    then (made_raw ∷ restored ∷ session_closed ∷ [], returned (err no_pty))
    else if not c.shell_ok
    then (
      made_raw ∷ pty_requested height width ∷ restored ∷ session_closed ∷ [],
      returned (err no_shell),
    )
    else (made_raw ∷ pty_requested height width ∷ shell_started ∷ last_events, outcome)

-- runSSHClientSession, and RunSession from NewSession on; with whether the agent waits for the end of
-- the client
unfoldable pub run_ssh_client_session : Bool → SessionCalls → Trace × Bool × Outcome
run_ssh_client_session with_agent c =
    let (agent_events, adopted) = (if with_agent then forward_agent c else ([], false)) in
    let (events, outcome) = with_terminal c in
    if not c.session_ok
    then ([], false, returned (err no_session))
    else (session_opened ∷ (agent_events ++ events), adopted, outcome)

-- runSSHClientCommand, and RunCommand from NewSession on
unfoldable pub run_ssh_client_command : Text → SessionCalls → Trace × Outcome
run_ssh_client_command command c =
    if not c.session_ok then ([], returned (err no_session)) else elim c.waited [
      | finished ↦
          (session_opened ∷ command_started command ∷ session_closed ∷ [], returned (ok tt))
      | disconnected ↦
          (session_opened ∷ command_started command ∷ session_closed ∷ [], returned (err broken))
      | exit_status n ↦ (session_opened ∷ command_started command ∷ [], exited n)
    ]

-- the deferred Close of the client, with the goroutine of ForwardAgent that waits for it
unfoldable pub close_client : Trace → Bool → Outcome → Trace × Outcome
close_client events adopted (exited n) = (client_opened ∷ events, exited n)
close_client events adopted (returned r) = (
  client_opened
      ∷ (events ++ (if adopted then client_closed ∷ agent_closed ∷ [] else client_closed ∷ [])),
  returned r,
)

-- NewSSHClient, which RunSession and RunCommand hold a copy of
unfoldable pub new_ssh_client : SessionCalls → Trace × Bool × Outcome → Trace × Outcome
unfolding close_client
new_ssh_client c (events, adopted, outcome) =
    if not c.handshake_ok
    then ([], returned (err no_handshake))
    else close_client events adopted outcome

unfoldable pub run_session : Bool → SessionCalls → Trace × Outcome
unfolding new_ssh_client
run_session with_agent c = new_ssh_client c (run_ssh_client_session with_agent c)

unfoldable pub run_command : Text → SessionCalls → Trace × Outcome
unfolding new_ssh_client
run_command command c =
    let (events, outcome) = run_ssh_client_command command c in
    new_ssh_client c (events, false, outcome)
