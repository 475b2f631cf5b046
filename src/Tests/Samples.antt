-- ===== src/Tests/Samples.antt =====
-- Concrete parts that the tests share: a machine, a signer, a limiter, and the answers of calls.
use ziti_ssh.Prelude.{
  ℕ, ◌+◌, ◌-◌, ◌≡◌, refl, Bool, true, false, ◌&&◌, List, [], ◌∷◌, leb, ltb, if◌then◌else◌, some,
  arith, any,
}
use ziti_ssh.Text.{Text, codes, text_eq, text_eq_refl}
use ziti_ssh.Ca.Username.{is_name_rune}
use ziti_ssh.Ca.Username.Laws.{KeepsNames}
use ziti_ssh.Ca.Cert.{Ssh, Certificate}
use ziti_ssh.RateLimit.{Bucket}
use ziti_ssh.Config.AtomicWrite.{Calls}
use ziti_ssh.Host.Sudoers.{SudoersCalls}
use ziti_ssh.Host.Machine.{System, IsSystem, Machine, exited}
use ziti_ssh.Host.Delete.Laws.{IsClock}

-- The lower case of ASCII.
abbrev pub ascii_lower : ℕ → ℕ
ascii_lower c = if leb b'A' c && leb c b'Z' then c + 32 else c

pub ascii_lower-KeepsNames : KeepsNames ascii_lower
ascii_lower-KeepsNames = record { keeps = λ r h. unfold is_name_rune in ground (arith, h) }

-- A key and a signature are the texts that are sent; an empty line is no key.
abbrev pub text_ssh : Ssh
text_ssh = record {
  PublicKey = Text;
  Signer = Text;
  Signed = Certificate Text;
  sign = λ s c. some c;
  marshal_cert = λ c. c.key_id;
  marshal_key = λ k. k;
  parse_key = λ t. some t;
  contents = λ c. c;
}

-- A limiter with two tokens that never come back.
abbrev pub two_tokens : Bucket
two_tokens = record { Limiter = ℕ; fresh = 2; take_token = λ now n. (n - 1, ltb 0 n) }

abbrev pub good_calls : Calls
good_calls = record {
  tmp_name = some (codes "t");
  write_ok = true;
  partial = [];
  sync_ok = true;
  chmod_ok = true;
  close_ok = true;
  rename_ok = true;
  remove_ok = true;
  open_dir_ok = true;
  sync_dir_ok = true;
}

abbrev pub good_sudoers_calls : SudoersCalls
good_sudoers_calls = record {
  mkdir_ok = true;
  tmp_name = some (codes "t");
  write_ok = true;
  partial = [];
  chmod_ok = true;
  visudo_ok = true;
  rename_ok = true;
  remove_ok = true;
}

unfoldable pub without : Text → List Text → List Text
without u [] = []
without u (v ∷ vs) = let rest = without u vs in if text_eq v u then rest else v ∷ rest

abbrev has_name : Text → List Text → Bool
has_name u us = any (λ v. text_eq v u) us

has_name-without : (u : Text) (us : List Text) → has_name u (without u us) ≡ false
unfolding without
has_name-without u [] = refl
has_name-without u (v ∷ vs) = ground (arith, has_name-without u vs)

-- A world is the users that there are, and the time. All commands work, and no user has processes.
abbrev pub small_system : System
small_system = record {
  World = List Text × ℕ;
  has_user = λ u w. has_name u w.0;
  useradd = λ u w. (exited 0, (u ∷ w.0, w.1));
  usermod = λ g u w. (exited 0, w);
  userdel = λ u w. (exited 0, (without u w.0, w.1));
  loginctl = λ u w. (exited 0, w);
  pgrep = λ u w. (exited 1, w);
  pkill = λ s u w. (exited 0, w);
  now = λ w. w.1;
  sleep = λ n w. (w.0, w.1 + n);
  sudoers_calls = λ w. (good_sudoers_calls, w);
  removes = λ w. (true, w);
  make_dir = λ w. (true, w);
  state_calls = λ w. (good_calls, w);
}

pub small_system-IsSystem : IsSystem small_system
small_system-IsSystem = record {
  useradd_adds = λ u w h. ground (arith, text_eq_refl u);
  useradd_exists = λ u w h. absurd (ground (arith, h));
  userdel_drops = λ u w h. has_name-without u w.0;
  usermod_keeps = λ g u v w. refl;
  sudoers_keeps = λ v w. refl;
  removes_keeps = λ v w. refl;
  make_dir_keeps = λ v w. refl;
  state_keeps = λ v w. refl;
}

pub small_system-IsClock : IsClock small_system
small_system-IsClock = record { sleeps = λ n w. omega arith; pgrep_takes = λ u w. omega arith }

abbrev pub new_machine : Machine small_system
new_machine = record { world = ([], 0); disk = [] }
