-- ===== src/Config/Resolve.antt =====
-- EnvOrFlag of config/config.go, and orDefault of the commands: where a setting comes from.
use ziti_ssh.Prelude.{◌≡◌, not, List, [], ◌∷◌, if◌then◌else◌, arith}
use ziti_ssh.Text.{Text, is_empty}

-- `env` is os.Getenv, which gives the empty string for a variable that is not set.
unfoldable pub env_or_flag : (Text → Text) → (flag_val env_key default_val : Text) → Text
env_or_flag env flag_val env_key default_val =
    if not (is_empty flag_val)
    then flag_val
    else if not (is_empty (env env_key))
    then env env_key
    else default_val

unfoldable pub or_default : (val fallback : Text) → Text
or_default val fallback = if not (is_empty val) then val else fallback

-- the first setting of a list that is not empty
abbrev pub first_set : List Text → Text
first_set [] = []
first_set (v ∷ vs) = if is_empty v then first_set vs else v

-- A setting that falls back on the config file's value and that value on a built-in one is the first
-- of the flag, the environment variable, the config file's value and the built-in one that is set.
pub env_or_flag-or_default :
    (env : Text → Text) (flag_val env_key file_val built_in : Text)
    → env_or_flag env flag_val env_key (or_default file_val built_in)
      ≡ first_set (flag_val ∷ env env_key ∷ file_val ∷ built_in ∷ [])
unfolding env_or_flag or_default
env_or_flag-or_default env flag_val env_key file_val [] = ground arith
env_or_flag-or_default env flag_val env_key file_val (c ∷ s) = ground arith
