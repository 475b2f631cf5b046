-- ===== src/Host/Delete/Laws.antt =====
-- The polling loop ends in time, and a deletion without an error has deleted the user.
use ziti_ssh.Prelude.{ℕ, zero, suc, ◌+◌, ◌*◌, ◌≤◌, ◌≡◌, refl, false, ok, arith}
use ziti_ssh.Text.{Text}
use ziti_ssh.Host.Machine.{System, IsSystem, Machine, Exit, exited, not_run}
use ziti_ssh.Host.Delete.{
  poll_interval, processes_gone, user_processes_gone, enough_polls, delete_user, delete_result,
}

module _ (S : System) where
  open S use {World}

  -- What the clock does: a sleep takes its time, and pgrep does not turn the clock back.
  pub record IsClock : Type 0 where
    pub sleeps : (n : ℕ) (w : World) → S.now w + n ≤ S.now (S.sleep n w)
    pub pgrep_takes : (u : Text) (w : World) → S.now w ≤ S.now (S.pgrep u w).1

  -- More fuel than the turns that the time allows makes no difference.
  processes_gone_fuel :
      IsClock
      → (n extra deadline : ℕ) (u : Text) (w : World) → deadline ≤ S.now w + n * poll_interval
      → processes_gone S (n + extra) deadline u w ≡ processes_gone S n deadline u w
  unfolding processes_gone
  processes_gone_fuel clock zero zero deadline u w h = refl
  processes_gone_fuel clock zero (suc extra) deadline u w h = ground arith
  processes_gone_fuel clock (suc n) extra deadline u w h =
      let w' = (S.pgrep u w).1 in
      let next = S.sleep poll_interval w' in
      let rest =
        processes_gone_fuel clock n extra deadline u next
          (ground (arith, h, clock.sleeps poll_interval w', clock.pgrep_takes u w)) in
      let same : suc n + extra ≡ suc (n + extra) = omega arith in rw same (ground (arith, rest))

  -- The poll gives the same answer with any larger bound on its turns, if a sleep takes its time and
  -- pgrep does not turn the clock back: the loop ends by itself.
  pub user_processes_gone_ends :
      IsClock
      → (u : Text) (timeout extra : ℕ) (w : World)
      → processes_gone S (enough_polls timeout + extra) (S.now w + timeout) u w
        ≡ user_processes_gone S u timeout w
  unfolding user_processes_gone
  user_processes_gone_ends clock u timeout extra w =
      processes_gone_fuel clock (enough_polls timeout) extra (S.now w + timeout) u w (omega arith)

  delete_result_ok : (e : Exit) → delete_result e ≡ ok tt → e ≡ exited 0
  unfolding delete_result
  delete_result_ok (exited n) h = ground (arith, h)
  delete_result_ok not_run h = ground (arith, h)

  -- If deleteUser reports no error, the user is gone, since userdel has exited with 0.
  pub delete_user_ok :
      IsSystem S
      → (u : Text) (m : Machine S) → (delete_user S u m).0 ≡ ok tt
      → S.has_user u (delete_user S u m).1.world ≡ false
  unfolding delete_user
  delete_user_ok sys u m h = sys.userdel_drops u _ (delete_result_ok _ h)
