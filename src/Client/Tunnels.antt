-- ===== src/Client/Tunnels.antt =====
-- RunLocalForward, RunRemoteForward and RunDynamicProxy of client/ssh.go, with the handlers of their
-- connections, and biCopy. A forward is given what its listener's Accept returns, one by one.
pub mod Laws
use ziti_ssh.Prelude.{
  ℕ, zero, suc, ◌+◌, ◌≡◌, refl, Bool, true, false, not, ◌||◌, List, [], ◌∷◌, ◌++◌, if◌then◌else◌,
  Option, none, some, Result, ok, err, any, ◌==◌, map,
}
use ziti_ssh.Text.{Text, codes, is_empty, has_rune}
use ziti_ssh.Cli.Forwards.{LocalForwardSpec, RemoteForwardSpec, DynamicForwardSpec, loopback}

-- net.JoinHostPort: an address with a colon gets brackets
unfoldable pub join_host_port : Text → Text → Text
join_host_port host port =
    if has_rune host b':'
    then codes "[" ++ (host ++ (codes "]:" ++ port))
    else host ++ (codes ":" ++ port)

-- What Accept returns: a connection, with whether its dial will work, or an error, with whether the
-- context is over.
pub data Accepted : Type 0 where
  connection : (dial_ok : Bool) → Accepted
  accept_failed : (cancelled : Bool) → Accepted

-- What a forward and its handlers do.
pub data TunnelEvent : Type 0 where
  dialled : Text → Bool → TunnelEvent
  copied opened shut : TunnelEvent
  handed_to_proxy : TunnelEvent

pub data ForwardError : Type 0 where
  not_listening not_accepting : ForwardError

-- The address that is listened on, what the handlers do, each in its own goroutine, and the result;
-- `none` still runs.
pub record Forwarding : Type 0 where
  pub address : Text
  pub handlers : List (List TunnelEvent)
  pub result : Option (Result ForwardError (Unit {0}))

-- handleLocalForwardConn and handleRemoteForwardConn: a dial of the other side, the copy, and the
-- deferred calls
unfoldable pub handle_forward_conn : Text → Bool → List TunnelEvent
handle_forward_conn address dial_ok =
    if not dial_ok
    then opened ∷ dialled address false ∷ shut ∷ []
    else opened ∷ dialled address true ∷ opened ∷ copied ∷ shut ∷ shut ∷ []

-- the accept loop, with the handler of a connection
unfoldable pub accept_loop :
    (Bool → List TunnelEvent)
    → List Accepted
    → List (List TunnelEvent) × Option (Result ForwardError (Unit {0}))
accept_loop handler [] = ([], none)
accept_loop handler (connection dial_ok ∷ rest) =
    let (handlers, result) = accept_loop handler rest in (handler dial_ok ∷ handlers, result)
accept_loop handler (accept_failed cancelled ∷ rest) =
    ([], some (if cancelled then ok tt else err not_accepting))

unfoldable pub forwarding :
    (address : Text) → Bool → (Bool → List TunnelEvent) → List Accepted → Forwarding
forwarding address listen_ok handler accepts =
    let (handlers, result) = accept_loop handler accepts in
    if not listen_ok
    then record { address = address; handlers = []; result = some (err not_listening) }
    else record { address = address; handlers = handlers; result = result }

unfoldable pub bind_or_loopback : Text → Text
bind_or_loopback bind = if is_empty bind then loopback else bind

unfoldable pub run_local_forward : Bool → LocalForwardSpec → List Accepted → Forwarding
unfolding bind_or_loopback
run_local_forward listen_ok spec accepts =
    forwarding (join_host_port (bind_or_loopback spec.bind) spec.local_port) listen_ok
      (handle_forward_conn (join_host_port spec.remote_host spec.remote_port)) accepts

-- the server listens, on the address as it was given
unfoldable pub run_remote_forward : Bool → RemoteForwardSpec → List Accepted → Forwarding
run_remote_forward listen_ok spec accepts =
    forwarding (join_host_port spec.bind spec.remote_port) listen_ok
      (handle_forward_conn (join_host_port spec.local_host spec.local_port)) accepts

-- each connection goes to handleSocks5Conn
unfoldable pub run_dynamic_proxy : Bool → DynamicForwardSpec → List Accepted → Forwarding
unfolding bind_or_loopback
run_dynamic_proxy listen_ok spec accepts =
    forwarding (join_host_port (bind_or_loopback spec.bind) spec.local_port) listen_ok
      (λ dial_ok. handed_to_proxy ∷ []) accepts

-- What the two goroutines of biCopy and the context meet, in order: a block from one side, the end
-- of one side, or the end of the context.
pub data CopyEvent : Type 0 where
  from_a from_b : Text → CopyEvent
  a_ended b_ended cancelled : CopyEvent

-- The bytes that each side got from the other.
pub record Copied : Type 0 where
  pub to_b : Text
  pub to_a : Text

-- biCopy returns at the first end of either, and its callers then close both connections.
unfoldable pub bi_copy : List CopyEvent → Copied → Copied
bi_copy [] s = s
bi_copy (from_a block ∷ es) s = bi_copy es (record s { to_b = s.to_b ++ block })
bi_copy (from_b block ∷ es) s = bi_copy es (record s { to_a = s.to_a ++ block })
bi_copy (a_ended ∷ es) s = s
bi_copy (b_ended ∷ es) s = s
bi_copy (cancelled ∷ es) s = s
