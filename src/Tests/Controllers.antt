-- ===== src/Tests/Controllers.antt =====
-- A controller that keeps one config type.
use ziti_ssh.Prelude.{◌≡◌, refl, true, false, List, [], ◌∷◌, Option, none, some, ok, arith}
use ziti_ssh.Text.{Text, codes}
use ziti_ssh.Ca.Config.{Controller, ControllerFlags, run_config_apply, run_config_remove}
use ziti_ssh.Ca.Config.Laws.{IsController, run_config_done}

ids_of : Option Text → Option (List Text) × Option Text
ids_of none = (some [], none)
ids_of (some s) = (some (codes "id" ∷ []), some s)

abbrev controller : Controller
controller = record {
  World = Option Text;
  Pool = Unit {0};
  Schema = Text;
  read_ca = λ p w. none;
  append_certs = λ p. none;
  authenticate = λ host user password insecure pool w. (some true, w);
  list_config_types = λ name w. ids_of w;
  create_config_type = λ name s w. (true, some s);
  update_config_type = λ id name s w. (true, some s);
  delete_config_type = λ id w. (true, none);
}

ids_of-none : (w : Option Text) → (ids_of w).0 ≡ some [] → (ids_of w).1 ≡ none
unfolding ids_of
ids_of-none none e = refl
ids_of-none (some s) e = ground (arith, e)

controller-IsController : IsController controller (λ h. none) (λ h. true) (λ w. w)
controller-IsController = record {
  list_none = ids_of-none;
  created = λ s w e. refl;
  updated = λ id ids s w e h. refl;
  deleted = λ id ids w e h. refl;
}

abbrev flags : ControllerFlags
flags = record {
  controller = codes "ctrl";
  username = codes "u";
  password = codes "p";
  insecure = false;
  ca_path = [];
}

run_config_done_example :
    ((run_config_apply controller (λ h. none) (λ h. true) (some (codes "s")) flags none).0 ≡ ok tt
      → (run_config_apply controller (λ h. none) (λ h. true) (some (codes "s")) flags none).1
        ≡ some (codes "s"))
    × ((run_config_remove controller (λ h. none) (λ h. true) flags none).0 ≡ ok tt
        → (run_config_remove controller (λ h. none) (λ h. true) flags none).1 ≡ none)
run_config_done_example =
    run_config_done controller (λ h. none) (λ h. true) (λ w. w) controller-IsController flags
      (codes "s") none
