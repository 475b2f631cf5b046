-- ===== src/Daemon/Listeners.antt =====
-- How runProxy of cmd/ziti-ssh-host/main.go opens its listeners: one for each service, or none.
use ziti_ssh.Prelude.{ℕ, suc, Bool, List, [], ◌∷◌, ◌++◌, if◌then◌else◌, Result, ok, err}
use ziti_ssh.Text.{Text, text_eq}

-- What the network sees, in order.
pub data ListenEvent : Type 0 where
  opened shut : Text → ListenEvent

-- the listeners are closed in the order in which they were opened
unfoldable shut_all : List Text → List ListenEvent
shut_all [] = []
shut_all (e ∷ entries) = shut e ∷ shut_all entries

-- The loop over the services; `listen` says which one opens in time. The error names the service
-- that does not.
pub open_listeners :
    (listen : Text → Bool) → List Text → List Text → Result Text (List Text) × List ListenEvent
unfolding shut_all
open_listeners listen entries [] = (ok entries, [])
open_listeners listen entries (s ∷ services) =
    let (r, events) = open_listeners listen (entries ++ s ∷ []) services in
    if listen s then (r, opened s ∷ events) else (err s, shut_all entries)

unfoldable pub open_count : Text → List ListenEvent → ℕ
open_count n [] = 0
open_count n (opened m ∷ es) = let rest = open_count n es in if text_eq m n then suc rest else rest
open_count n (shut m ∷ es) = open_count n es

unfoldable pub shut_count : Text → List ListenEvent → ℕ
shut_count n [] = 0
shut_count n (opened m ∷ es) = shut_count n es
shut_count n (shut m ∷ es) = let rest = shut_count n es in if text_eq m n then suc rest else rest

-- the listeners that a run leaves open
unfoldable pub kept : Result Text (List Text) → List Text
kept (ok entries) = entries
kept (err e) = []
