-- ===== src/Ca/Config/Laws.antt =====
-- What apply and remove make of the controller's config type.
use ziti_ssh.Prelude.{
  ◌≡◌, ◌≢◌, ◌↔◌, refl, Bool, true, false, not, ◌&&◌, List, [], ◌∷◌, Option, none, some, Result, ok,
  arith, inl, inr, Result-cases,
}
use ziti_ssh.Text.{Text, is_empty}
use ziti_ssh.Ca.Config.{
  ConfigError, ControllerFlags, Controller, validate_controller_flags, config_type_name,
  build_mgmt_client, apply_listed, run_config_apply, remove_listed, run_config_remove,
}

-- The flags are accepted exactly if the address, the user and the password are set, and the
-- certificate check is not both off and given an authority.
pub validate_controller_flags_iff :
    (f : ControllerFlags)
    → (validate_controller_flags f ≡ ok tt) ↔ (
        (f.controller ≢ [])
        × (f.username ≢ [])
        × (f.password ≢ [])
        × (f.insecure && not (is_empty f.ca_path) ≡ false))
unfolding validate_controller_flags
validate_controller_flags_iff f =
    ((λ h. ground (arith, h)), (λ h. ground (arith, h.0, h.1, h.2, h.3)))

module _ (C : Controller) (url_host : Text → Option Text) (split_ok : Text → Bool) where
  open C use {World, Schema}

  -- What the code relies on: `installed` is the schema of the config type of its name. A list finds
  -- the type if there is one, and changes nothing; a call that succeeds does what it says.
  pub record IsController (installed : World → Option Schema) : Type 0 where
    pub list_none :
        (w : World)
        → (C.list_config_types config_type_name w).0 ≡ some []
        → installed (C.list_config_types config_type_name w).1 ≡ none
    pub created :
        (s : Schema) (w : World)
        → (C.create_config_type config_type_name s w).0 ≡ true
        → installed (C.create_config_type config_type_name s w).1 ≡ some s
    pub updated :
        (id : Text) (ids : List Text) (s : Schema) (w : World)
        → (C.list_config_types config_type_name w).0 ≡ some (id ∷ ids)
        → let w' = (C.list_config_types config_type_name w).1 in
          (C.update_config_type id config_type_name s w').0 ≡ true
          → installed (C.update_config_type id config_type_name s w').1 ≡ some s
    pub deleted :
        (id : Text) (ids : List Text) (w : World)
        → (C.list_config_types config_type_name w).0 ≡ some (id ∷ ids)
        → let w' = (C.list_config_types config_type_name w).1 in
          (C.delete_config_type id w').0 ≡ true → installed (C.delete_config_type id w').1 ≡ none

  module _ (installed : World → Option Schema) (law : IsController installed) where
    applied :
        (s : Schema) (w : World) (found : Option (List Text))
        → (C.list_config_types config_type_name w).0 ≡ found
        → (apply_listed C url_host split_ok s (found, (C.list_config_types config_type_name w).1)).0
          ≡ ok tt
        → installed
            (apply_listed C url_host split_ok s
              (found, (C.list_config_types config_type_name w).1)).1
          ≡ some s
    unfolding apply_listed
    applied s w none e h = cc
    applied s w (some []) e h =
        ground (arith, h, law.created s (C.list_config_types config_type_name w).1)
    applied s w (some (id ∷ ids)) e h = ground (arith, h, law.updated id ids s w e)

    removed :
        (w : World) (found : Option (List Text))
        → (C.list_config_types config_type_name w).0 ≡ found
        → (remove_listed C url_host split_ok (found, (C.list_config_types config_type_name w).1)).0
          ≡ ok tt
        → installed
            (remove_listed C url_host split_ok
              (found, (C.list_config_types config_type_name w).1)).1
          ≡ none
    unfolding remove_listed
    removed w none e h = cc
    removed w (some []) e h = law.list_none w e
    removed w (some (id ∷ ids)) e h = ground (arith, h, law.deleted id ids w e)

    abbrev login : ControllerFlags → World → Result ConfigError (Unit {0}) × World
    login = build_mgmt_client C url_host split_ok

    -- After an apply without an error the controller has the config type with the program's schema,
    -- whether it had one before or not; after a remove without an error it has none. The
    -- controller's calls do what they say where they succeed, and a list that finds nothing is right.
    pub run_config_done :
        (f : ControllerFlags) (s : Schema) (w : World)
        → ((run_config_apply C url_host split_ok (some s) f w).0 ≡ ok tt
            → installed (run_config_apply C url_host split_ok (some s) f w).1 ≡ some s)
          × ((run_config_remove C url_host split_ok f w).0 ≡ ok tt
              → installed (run_config_remove C url_host split_ok f w).1 ≡ none)
    unfolding run_config_apply run_config_remove
    run_config_done f s w =
        let w' = (login f w).1 in
        let list = C.list_config_types config_type_name w' in
        elim (Result-cases (login f w).0) [
          | inl (e, failed) ↦
              ((λ h. absurd (ground (arith, h, failed))), (λ h. absurd (ground (arith, h, failed))))
          | inr (u, ready) ↦ (
            (λ h. ground (arith, h, ready, applied s w' list.0 refl)),
            (λ h. ground (arith, h, ready, removed w' list.0 refl)),
          )
        ]
