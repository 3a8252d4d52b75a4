-- ===== src/Service/Env.antt =====
-- loadEnv of svc/svc.go with the names of env/env.go. The settings are kept by viper, which is an
-- interface: a state with what the `.env` file and the environment give, and the defaults.
pub mod Defaults
use d8x_broker_server.Base.{
  ◌≡◌, Bool, true, false, List, [], ◌∷◌, Option, none, some, ◌==◌, if◌then◌else◌, ℤ,
}
use d8x_broker_server.Text.{Text, text_eq, codes, to_lower}

-- The names differ in more than the case of their letters, which viper ignores.
abbrev pub Differ : Text → Text → Type 0
Differ j k = (to_lower j == to_lower k) ≡ false

-- `given` is what the file or the environment gives; a default does not change it, and counts only
-- where nothing is given.
pub record Viper : Type 1 where
  pub State : Type 0
  pub given : Text → State → Option Text
  pub is_set : Text → State → Bool
  pub get_string : Text → State → Text
  pub get_int32 : Text → State → ℤ
  pub set_default : Text → Text → State → State
  pub given_keeps : (j k x : Text) (s : State) → given k (set_default j x s) ≡ given k s
  pub string_given : (k x : Text) (s : State) → given k s ≡ some x → get_string k s ≡ x
  pub string_default :
      (k x : Text) (s : State) → given k s ≡ none → get_string k (set_default k x s) ≡ x
  pub other_set :
      (j k x : Text) (s : State) → Differ j k → is_set k (set_default j x s) ≡ is_set k s
  pub other_string :
      (j k x : Text) (s : State) → Differ j k → get_string k (set_default j x s) ≡ get_string k s
  pub other_int32 :
      (j k x : Text) (s : State) → Differ j k → get_int32 k (set_default j x s) ≡ get_int32 k s

abbrev pub api_port : Text
api_port = codes "API_PORT"

abbrev pub api_bind_addr : Text
api_bind_addr = codes "API_BIND_ADDR"

abbrev pub broker_fee_tbps : Text
broker_fee_tbps = codes "BROKER_FEE_TBPS"

abbrev pub redis_addr : Text
redis_addr = codes "REDIS_ADDR"

abbrev pub redis_pw : Text
redis_pw = codes "REDIS_PW"

abbrev pub ws_addr : Text
ws_addr = codes "WS_ADDR"

abbrev pub config_path : Text
config_path = codes "CONFIG_PATH"

abbrev pub config_rpc_path : Text
config_rpc_path = codes "CONFIG_RPC_PATH"

abbrev pub keyfile_path : Text
keyfile_path = codes "KEYFILE_PATH"

abbrev pub vip3_reduction_perc : Text
vip3_reduction_perc = codes "VIP3_REDUCTION_PERC"

module _ (v : Viper) where
  open v use {State, is_set, set_default}

  unfoldable pub set_defaults : State → State
  set_defaults s = set_default vip3_reduction_perc [] (
      set_default ws_addr (codes "executorws:8080")
        (set_default api_port (codes "8001") (set_default api_bind_addr [] s)))

  -- The loop over the required names: the first one that is not set.
  unfoldable pub first_missing : List Text → State → Option Text
  first_missing [] s = none
  first_missing (e ∷ more) s =
      let rest = first_missing more s in if is_set e s then rest else some e

  -- loadEnv, on the settings behind AutomaticEnv: the name in the error, and the settings.
  unfoldable pub load_env : List Text → State → Option Text × State
  unfolding first_missing set_defaults
  load_env required s = let t = set_defaults s in (first_missing required t, t)
