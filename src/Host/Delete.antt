-- ===== src/Host/Delete.antt =====
-- deleteUser and userProcessesGone of host/host.go.
pub mod Laws
use ziti_ssh.Prelude.{
  ℕ, zero, suc, ◌+◌, ◌-◌, ◌≤◌, ◌≡◌, refl, Bool, true, false, not, ◌&&◌, ◌||◌, List, [], ◌∷◌, ◌++◌,
  ◌==◌, leb, ltb, if◌then◌else◌, Option, none, some, Result, ok, err, ◌/◌,
}
use ziti_ssh.Text.{Text, codes}
use ziti_ssh.Host.Machine.{System, Machine, Exit, exited, not_run, drop_sudoers, call}

-- In milliseconds.
abbrev pub poll_interval : ℕ
poll_interval = 200

-- What one pgrep says of the loop that called it.
data Poll : Type 0 where
  gone still unknown : Poll

-- pgrep exits with 0 if there is a process, and with 1 if there is none.
unfoldable poll : Exit → Poll
poll (exited n) = if n == 0 then still else if n == 1 then gone else unknown
poll not_run = unknown

pub data DeleteError : Type 0 where
  still_running userdel_failed : DeleteError

-- userdel exits with 8 if the user still has processes.
unfoldable pub delete_result : Exit → Result DeleteError (Unit {0})
delete_result (exited n) =
    if n == 0 then ok tt else if n == 8 then err still_running else err userdel_failed
delete_result not_run = err userdel_failed

-- Every turn sleeps for `poll_interval`, so that many turns reach the deadline.
abbrev pub enough_polls : ℕ → ℕ
enough_polls timeout = suc (timeout / poll_interval)

module _ (S : System) where
  open S use {World}

  -- The loop of userProcessesGone. The fuel bounds its turns; see `enough_polls`.
  pub processes_gone : ℕ → ℕ → Text → World → Bool × World
  processes_gone zero deadline u w = (false, w)
  processes_gone (suc fuel) deadline u w =
      let (e, w') = S.pgrep u w in
      let rest = processes_gone fuel deadline u (S.sleep poll_interval w') in
      if ltb (S.now w) deadline
      then elim (poll e) [ gone ↦ (true, w') | still ↦ rest | unknown ↦ (false, w') ]
      else (false, w)

  pub user_processes_gone : Text → ℕ → World → Bool × World
  user_processes_gone u timeout w = processes_gone (enough_polls timeout) (S.now w + timeout) u w

  -- steps 5 and 6
  unfoldable pub kill_hard : Text → World → World
  kill_hard u w = (user_processes_gone u 5000 (S.pkill (codes "-KILL") u w).1).1

  -- steps 3 to 6
  unfoldable pub kill_soft : Text → World → World
  kill_soft u w =
      let (clear, w') = user_processes_gone u 10000 (S.pkill (codes "-TERM") u w).1 in
      if clear then w' else kill_hard u w'

  -- steps 1 to 6
  unfoldable pub drain : Text → World → World
  drain u w =
      let (clear, w') = user_processes_gone u 5000 (S.loginctl u w).1 in
      if clear then w' else kill_soft u w'

  unfoldable pub delete_user : Text → Machine S → Result DeleteError (Unit {0}) × Machine S
  delete_user u m =
      let (ignored, cleaned) = drop_sudoers S u m in
      let (e, w) = S.userdel u (drain u cleaned.world) in
      (delete_result e, record cleaned { world = w })
