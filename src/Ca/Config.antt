-- ===== src/Ca/Config.antt =====
-- cmd/ziti-ssh-ca/config.go: the config type that the authority's operator installs on a controller.
-- The controller's REST client, the parser of URLs and the parser of certificates are parameters.
pub mod Laws
use ziti_ssh.Prelude.{
  ◌≡◌, Bool, true, false, not, ◌&&◌, ◌||◌, List, [], ◌∷◌, ◌++◌, if◌then◌else◌, Option, none, some,
  Result, ok, err, any, ◌==◌,
}
use ziti_ssh.Text.{Text, codes, text_eq, is_empty}
use ziti_ssh.Config.Resolve.{env_or_flag}

pub data ConfigError : Type 0 where
  no_controller no_username no_password insecure_with_ca : ConfigError
  no_ca_file no_certificate not_authenticated no_token : ConfigError
  bad_schema not_listed not_created not_updated not_deleted : ConfigError

pub record ControllerFlags : Type 0 where
  pub controller : Text
  pub username : Text
  pub password : Text
  pub insecure : Bool
  pub ca_path : Text

-- the flags of config apply and config remove, with what the environment adds
pub controller_flags : (Text → Text) → ControllerFlags → ControllerFlags
controller_flags env f = record {
  controller = env_or_flag env f.controller (codes "ZITI_CTRL_ADDRESS") [];
  username = env_or_flag env f.username (codes "ZITI_CTRL_USERNAME") [];
  password = env_or_flag env f.password (codes "ZITI_CTRL_PASSWORD") [];
  insecure = f.insecure || text_eq (env (codes "ZITI_CTRL_INSECURE")) (codes "true");
  ca_path = env_or_flag env f.ca_path (codes "ZITI_CTRL_CA") [];
}

unfoldable pub validate_controller_flags : ControllerFlags → Result ConfigError (Unit {0})
validate_controller_flags f =
    if is_empty f.controller
    then err no_controller
    else if is_empty f.username
    then err no_username
    else if is_empty f.password
    then err no_password
    else if f.insecure && not (is_empty f.ca_path)
    then err insecure_with_ca
    else ok tt

-- net.JoinHostPort
unfoldable join_host_port : Text → Text → Text
join_host_port host port =
    if any (◌==◌ b':') host
    then codes "[" ++ (host ++ (codes "]:" ++ port))
    else host ++ (codes ":" ++ port)

unfoldable with_port : (Text → Bool) → Text → Text
unfolding join_host_port
with_port split_ok raw = if split_ok raw then raw else join_host_port raw (codes "443")

-- `url_host` is url.Parse's Host, and `split_ok` says whether net.SplitHostPort has no error
unfoldable pub resolve_controller_host : (Text → Option Text) → (Text → Bool) → Text → Text
unfolding with_port
resolve_controller_host url_host split_ok raw = elim (url_host raw) [
  | none ↦ with_port split_ok raw
  | some host ↦ with_port split_ok (if is_empty host then raw else host)
]

abbrev pub config_type_name : Text
config_type_name = codes "ziti-ssh-host.v1"

-- The controller, as its client sees it. A login gives whether there is an error, and a token.
pub record Controller : Type 1 where
  pub World : Type 0
  pub Pool : Type 0
  pub Schema : Type 0
  pub read_ca : Text → World → Option Text
  pub append_certs : Text → Option Pool
  pub authenticate :
      (host username password : Text) (insecure : Bool) → Option Pool → World → Option Bool × World
  pub list_config_types : (name : Text) → World → Option (List Text) × World
  pub create_config_type : (name : Text) → Schema → World → Bool × World
  pub update_config_type : (id name : Text) → Schema → World → Bool × World
  pub delete_config_type : (id : Text) → World → Bool × World

module _ (C : Controller) (url_host : Text → Option Text) (split_ok : Text → Bool) where
  open C use {World, Pool, Schema}

  -- the pool of the TLS configuration
  unfoldable pub controller_pool : ControllerFlags → World → Result ConfigError (Option Pool)
  controller_pool f w =
      if f.insecure || is_empty f.ca_path then ok none else elim (C.read_ca f.ca_path w) [
        | none ↦ err no_ca_file
        | some pem ↦ elim (C.append_certs pem) [ none ↦ err no_certificate | some p ↦ ok (some p) ]
      ]

  unfoldable token_of : Option Bool → Result ConfigError (Unit {0})
  token_of none = err not_authenticated
  token_of (some false) = err no_token
  token_of (some true) = ok tt

  pub build_mgmt_client : ControllerFlags → World → Result ConfigError (Unit {0}) × World
  unfolding controller_pool token_of
  build_mgmt_client f w = elim (controller_pool f w) [
    | err e ↦ (err e, w)
    | ok pool ↦
        let host = resolve_controller_host url_host split_ok f.controller in
        let (answer, w') = C.authenticate host f.username f.password f.insecure pool w in
        (token_of answer, w')
  ]

  unfoldable result_of : ConfigError → Bool × World → Result ConfigError (Unit {0}) × World
  result_of e (b, w) = (if b then ok tt else err e, w)

  -- create, or replace the first that was found
  unfoldable pub apply_listed :
      Schema → Option (List Text) × World → Result ConfigError (Unit {0}) × World
  unfolding result_of
  apply_listed schema (none, w) = (err not_listed, w)
  apply_listed schema (some [], w) =
      result_of not_created (C.create_config_type config_type_name schema w)
  apply_listed schema (some (id ∷ ids), w) =
      result_of not_updated (C.update_config_type id config_type_name schema w)

  -- `schema` is what the constant configTypeSchema decodes to
  unfoldable pub run_config_apply :
      Option Schema → ControllerFlags → World → Result ConfigError (Unit {0}) × World
  run_config_apply schema f w =
      let (r, w') = build_mgmt_client f w in
      elim r [
        | err e ↦ (err e, w')
        | ok u ↦ elim schema [
          | none ↦ (err bad_schema, w')
          | some s ↦ apply_listed s (C.list_config_types config_type_name w')
        ]
      ]

  unfoldable pub remove_listed : Option (List Text) × World → Result ConfigError (Unit {0}) × World
  unfolding result_of
  remove_listed (none, w) = (err not_listed, w)
  remove_listed (some [], w) = (ok tt, w)
  remove_listed (some (id ∷ ids), w) = result_of not_deleted (C.delete_config_type id w)

  unfoldable pub run_config_remove : ControllerFlags → World → Result ConfigError (Unit {0}) × World
  run_config_remove f w =
      let (r, w') = build_mgmt_client f w in
      elim r [
        | err e ↦ (err e, w')
        | ok u ↦ remove_listed (C.list_config_types config_type_name w')
      ]
