-- ===== src/Client/Tunnels/Laws.antt =====
-- What a forward does with its connections, and what a tunnel carries.
use ziti_ssh.Prelude.{
  ℕ, suc, ◌≡◌, refl, ap, Bool, true, false, List, [], ◌∷◌, ◌++◌, if◌then◌else◌, Option, none, some,
  Result, ok, err, All, arith, append-nil, append_assoc, map,
}
use ziti_ssh.Text.{Text}
use ziti_ssh.Cli.Forwards.{LocalForwardSpec, RemoteForwardSpec}
use ziti_ssh.Client.Tunnels.{
  join_host_port, Accepted, connection, accept_failed, TunnelEvent, opened, shut, ForwardError,
  not_listening, not_accepting, Forwarding, handle_forward_conn, accept_loop, forwarding,
  run_local_forward, run_remote_forward, CopyEvent, from_a, from_b, a_ended, b_ended, cancelled,
  Copied, bi_copy,
}

-- The connections before the first error of Accept, by whether their dial works.
unfoldable pub connections : List Accepted → List Bool
connections [] = []
connections (connection dial_ok ∷ rest) = dial_ok ∷ connections rest
connections (accept_failed over ∷ rest) = []

-- The first error of Accept, by whether the context is over.
unfoldable pub first_failure : List Accepted → Option Bool
first_failure [] = none
first_failure (connection dial_ok ∷ rest) = first_failure rest
first_failure (accept_failed over ∷ rest) = some over

abbrev pub ending_of : Option Bool → Option (Result ForwardError (Unit {0}))
ending_of none = none
ending_of (some over) = some (if over then ok tt else err not_accepting)

accept_loop_lem :
    (handler : Bool → List TunnelEvent) (accepts : List Accepted)
    → accept_loop handler accepts
      ≡ (map handler (connections accepts), ending_of (first_failure accepts))
unfolding accept_loop connections first_failure
accept_loop_lem handler [] = refl
accept_loop_lem handler (connection dial_ok ∷ rest) =
    ap
      (λ (r : List (List TunnelEvent) × Option (Result ForwardError (Unit {0}))).
        (handler dial_ok ∷ r.0, r.1))
      (accept_loop_lem handler rest)
accept_loop_lem handler (accept_failed over ∷ rest) = refl

-- The number of connections that a handler opens, and that it shuts.
abbrev pub opens : List TunnelEvent → ℕ
opens [] = 0
opens (opened ∷ es) = suc (opens es)
opens (_ ∷ es) = opens es

abbrev pub shuts : List TunnelEvent → ℕ
shuts [] = 0
shuts (shut ∷ es) = suc (shuts es)
shuts (_ ∷ es) = shuts es

handlers_balanced :
    (address : Text) (dials : List Bool)
    → All (λ es. opens es ≡ shuts es) (map (handle_forward_conn address) dials)
unfolding handle_forward_conn
handlers_balanced address [] = tt
handlers_balanced address (true ∷ dials) = (refl, handlers_balanced address dials)
handlers_balanced address (false ∷ dials) = (refl, handlers_balanced address dials)

-- What a forward that listens does: it dials its target once for each connection, shuts what it
-- opened, and ends without an error exactly if the first error of Accept comes after the end of its
-- context. One that cannot listen accepts nothing.
abbrev pub Forwards : (target : Text) → Bool → List Accepted → Forwarding → Type 0
Forwards target listen_ok accepts f =
    (f.handlers
      ≡ (if listen_ok then map (handle_forward_conn target) (connections accepts) else []))
    × All (λ es. opens es ≡ shuts es) f.handlers
    × (f.result
        ≡ (if listen_ok then ending_of (first_failure accepts) else some (err not_listening)))

forwarding-Forwards :
    (address target : Text) (listen_ok : Bool) (accepts : List Accepted)
    → Forwards target listen_ok accepts
        (forwarding address listen_ok (handle_forward_conn target) accepts)
unfolding forwarding
forwarding-Forwards address target false accepts = (refl, tt, refl)
forwarding-Forwards address target true accepts =
    rw (accept_loop_lem (handle_forward_conn target) accepts)
      (refl, handlers_balanced target (connections accepts), refl)

-- A local forward does so for the remote address, and a remote forward for the local one.
pub run-Forwards :
    (listen_ok : Bool) (l : LocalForwardSpec) (r : RemoteForwardSpec) (accepts : List Accepted)
    → Forwards
        (join_host_port l.remote_host l.remote_port)
        listen_ok
        accepts
        (run_local_forward listen_ok l accepts)
      × Forwards
          (join_host_port r.local_host r.local_port)
          listen_ok
          accepts
          (run_remote_forward listen_ok r accepts)
unfolding run_local_forward run_remote_forward
run-Forwards listen_ok l r accepts =
    (forwarding-Forwards _ _ listen_ok accepts, forwarding-Forwards _ _ listen_ok accepts)

-- The blocks of each side before the first end.
unfoldable pub blocks_of_a : List CopyEvent → Text
blocks_of_a [] = []
blocks_of_a (from_a block ∷ es) = block ++ blocks_of_a es
blocks_of_a (from_b block ∷ es) = blocks_of_a es
blocks_of_a (_ ∷ es) = []

unfoldable pub blocks_of_b : List CopyEvent → Text
blocks_of_b [] = []
blocks_of_b (from_a block ∷ es) = blocks_of_b es
blocks_of_b (from_b block ∷ es) = block ++ blocks_of_b es
blocks_of_b (_ ∷ es) = []

-- A tunnel carries, in order, what came from each side before the first end of either; so what one
-- side sends after the other has ended its sending is lost.
pub bi_copy_lem :
    (es : List CopyEvent) (s : Copied)
    → bi_copy es s ≡ record { to_b = s.to_b ++ blocks_of_a es; to_a = s.to_a ++ blocks_of_b es }
unfolding bi_copy blocks_of_a blocks_of_b
bi_copy_lem [] s = ground (arith, append-nil s.to_b, append-nil s.to_a)
bi_copy_lem (from_a block ∷ es) s = ground (
  arith,
  bi_copy_lem es (record s { to_b = s.to_b ++ block }),
  append_assoc s.to_b block (blocks_of_a es),
)
bi_copy_lem (from_b block ∷ es) s = ground (
  arith,
  bi_copy_lem es (record s { to_a = s.to_a ++ block }),
  append_assoc s.to_a block (blocks_of_b es),
)
bi_copy_lem (a_ended ∷ es) s = ground (arith, append-nil s.to_b, append-nil s.to_a)
bi_copy_lem (b_ended ∷ es) s = ground (arith, append-nil s.to_b, append-nil s.to_a)
bi_copy_lem (cancelled ∷ es) s = ground (arith, append-nil s.to_b, append-nil s.to_a)
