-- ===== src/Host/Proxy.antt =====
-- callerName and proxyConn of host/host.go: one proxied connection and its hooks.
use ziti_ssh.Prelude.{
  All, length, ap, false, ℕ, suc, ◌≤◌, ◌≡◌, refl, Bool, true, not, ◌&&◌, ◌||◌, List, [], ◌∷◌,
  if◌then◌else◌, Option, none, some, arith,
}
use ziti_ssh.Text.{Text, is_empty}
use ziti_ssh.Ca.Conn.{Caller, edge_conn, source_only, plain, caller_identity}

-- the type assertions of callerName: what SourceIdentifier and GetDialerIdentityName give, if the
-- connection has them
unfoldable source_identifier : Caller → Option Text
source_identifier (edge_conn source dialer) = some source
source_identifier (source_only source) = some source
source_identifier plain = none

unfoldable dialer_name : Caller → Option Text
dialer_name (edge_conn source dialer) = some dialer
dialer_name (source_only source) = none
dialer_name plain = none

unfoldable or_empty : Option Text → Text
or_empty none = []
or_empty (some t) = t

pub caller_name : Caller → Text
caller_name c = elim (source_identifier c) [
  | none ↦ or_empty (dialer_name c)
  | some name ↦ if is_empty name then or_empty (dialer_name c) else name
]

-- The host's callerName and the CA's callerIdentity find the same caller.
pub caller_name-caller_identity : (c : Caller) → caller_name c ≡ caller_identity c
unfolding caller_name caller_identity or_empty source_identifier dialer_name
caller_name-caller_identity (edge_conn source dialer) = refl
caller_name-caller_identity (source_only []) = refl
caller_name-caller_identity (source_only (c ∷ s)) = refl
caller_name-caller_identity plain = refl

-- What a proxied connection does that others can see, in order.
pub data Event : Type 0 where
  connect_ok connect_failed disconnect : Text → Event
  dial_failed piped closed : Event

-- Which hooks are set, what OnConnect answers, and whether sshd can be dialled.
pub record Proxied : Type 0 where
  pub has_connect : Bool
  pub has_disconnect : Bool
  pub accepts : Text → Bool
  pub dial_ok : Bool

-- the name that the hooks get
unfoldable hook_name : Proxied → Caller → Text
hook_name p c = if p.has_connect || p.has_disconnect then caller_name c else []

-- from the deferred OnDisconnect on; the deferred calls run in the reverse order
unfoldable proxy_rest : Proxied → Text → List Event
proxy_rest p name =
    let last_events =
      (if p.has_disconnect && not (is_empty name)
        then disconnect name ∷ closed ∷ []
        else closed ∷ []) in
    (if p.dial_ok then piped else dial_failed) ∷ last_events

pub proxy_conn : Proxied → Caller → List Event
proxy_conn p c =
    let name = hook_name p c in
    if p.has_connect && not (is_empty name)
    then (if p.accepts name
        then connect_ok name ∷ proxy_rest p name
        else connect_failed name ∷ closed ∷ [])
    else proxy_rest p name

-- What Accept returns: a connection with its caller, the answer of OnConnect and that of the dial, or
-- an error once the listener is closed.
pub data Accepted : Type 0 where
  arrived : (caller : Caller) (welcome dial_ok : Bool) → Accepted
  listener_closed : Accepted

-- Proxy: what its handlers do, each in its own goroutine, and whether it has returned
pub proxy : (has_connect has_disconnect : Bool) → List Accepted → List (List Event) × Bool
proxy has_connect has_disconnect [] = ([], false)
proxy has_connect has_disconnect (arrived caller welcome dial_ok ∷ rest) =
    let (handlers, returned) = proxy has_connect has_disconnect rest in
    let p : Proxied = record {
      has_connect = has_connect;
      has_disconnect = has_disconnect;
      accepts = λ name. welcome;
      dial_ok = dial_ok;
    } in
    (proxy_conn p caller ∷ handlers, returned)
proxy has_connect has_disconnect (listener_closed ∷ rest) = ([], true)

-- The number of accepted OnConnect calls for a name, less that of OnDisconnect calls.
pub connects : List Event → ℕ
connects [] = 0
connects (e ∷ es) = elim e [
  | connect_ok n ↦ suc (connects es)
  | connect_failed n ↦ connects es
  | disconnect n ↦ connects es
  | dial_failed ↦ connects es
  | piped ↦ connects es
  | closed ↦ connects es
]

pub disconnects : List Event → ℕ
disconnects [] = 0
disconnects (e ∷ es) = elim e [
  | connect_ok n ↦ disconnects es
  | connect_failed n ↦ disconnects es
  | disconnect n ↦ suc (disconnects es)
  | dial_failed ↦ disconnects es
  | piped ↦ disconnects es
  | closed ↦ disconnects es
]

-- With both hooks set, a connection has as many OnDisconnect calls as accepted OnConnect calls: one
-- if the caller has a name that OnConnect accepts, and else none.
pub proxy_conn_balanced :
    (p : Proxied) (c : Caller)
    → p.has_connect ≡ true
    → p.has_disconnect ≡ true
    → let es = proxy_conn p c in
      (connects es ≡ disconnects es)
      × (connects es ≤ 1)
      × (connects es
          ≡ (if not (is_empty (caller_name c)) && p.accepts (caller_name c) then 1 else 0))
unfolding proxy_conn proxy_rest connects disconnects hook_name
proxy_conn_balanced p c a b = ground (arith, a, b)

-- The connections before the listener is closed.
pub arrivals : List Accepted → ℕ
arrivals [] = 0
arrivals (arrived caller welcome dial_ok ∷ rest) = suc (arrivals rest)
arrivals (listener_closed ∷ rest) = 0

-- With both hooks set, each connection that Proxy accepts before its listener is closed has one
-- handler, whose OnDisconnect calls are as many as its accepted OnConnect calls, at most one; so a
-- connection leaves no session open, and ends none of another.
pub proxy_balanced :
    (accepts : List Accepted)
    → All (λ es. (connects es ≡ disconnects es) × (connects es ≤ 1)) (proxy true true accepts).0
      × (length (proxy true true accepts).0 ≡ arrivals accepts)
unfolding proxy arrivals
proxy_balanced [] = (tt, refl)
proxy_balanced (arrived caller welcome dial_ok ∷ rest) =
    let (balanced, counted) = proxy_balanced rest in
    let own =
      proxy_conn_balanced
        (record {
          has_connect = true;
          has_disconnect = true;
          accepts = λ name. welcome;
          dial_ok = dial_ok;
        })
        caller refl refl in
    (((own.0, own.1), balanced), ap suc counted)
proxy_balanced (listener_closed ∷ rest) = (tt, refl)
