-- ===== src/Service/Run.antt =====
-- RunBroker and RunExecutorWs of svc/svc.go, up to the start of the server.
use d8x_broker_server.Base.{
  Bool, List, [], ◌∷◌, ◌++◌, Option, none, some, ◌⊎◌, inl, inr, if◌then◌else◌, Map, ℤ, uint16,
}
use d8x_broker_server.Text.{Text, codes}
use d8x_broker_server.Sdk.{Sdk}
use d8x_broker_server.Orders.{ChainConfig}
use d8x_broker_server.Pen.{RpcConfig}
use d8x_broker_server.Api.{App}
use d8x_broker_server.Api.Start.{StartError, new_app}
use d8x_broker_server.Setup.KeyFile.{Gcm, load_from_file}
use d8x_broker_server.Setup.ChainFile.{
  ChainConfigFile, LoadError, Loaded, loaded, rejected, exits, load_chain_config,
}
use d8x_broker_server.Setup.RpcFile.{RpcLoaded, rpc_loaded, rpc_exits, load_rpc_config}
use d8x_broker_server.Service.Env.{
  Viper, load_env, api_port, api_bind_addr, broker_fee_tbps, redis_addr, redis_pw, ws_addr,
  config_path, config_rpc_path, keyfile_path, vip3_reduction_perc,
}

-- What the machine has: the files by their paths, the two configurations as the JSON decoder leaves
-- them; whether a key file can be written, and the nonce that is drawn for it; whether a Redis
-- client can be made; the embedded file.
pub record Machine : Type 0 where
  pub chain_file : Text → Option (List ChainConfigFile)
  pub rpc_file : Text → Option (List RpcConfig)
  pub key_file : Text → Option Text
  pub writable : Bool
  pub drawn : Option Text
  pub redis_up : Text → Text → Bool
  pub embedded : Option Text

abbrev pub required : List Text
required =
    broker_fee_tbps ∷ config_path ∷ redis_addr ∷ redis_pw ∷ keyfile_path ∷ config_rpc_path ∷ []

abbrev pub ws_required : List Text
ws_required = config_path ∷ redis_addr ∷ redis_pw ∷ []

-- How RunBroker goes on: it ends with an error, or it serves on a port and an address.
pub data BrokerRun : Type 0 where
  env_missing : Text → BrokerRun
  config_rejected : LoadError → BrokerRun
  program_exits : BrokerRun
  not_started : StartError → BrokerRun
  serves : App → Text → Text → BrokerRun

pub data WsRun : Type 0 where
  ws_env_missing : Text → WsRun
  ws_config_rejected : LoadError → WsRun
  ws_exits : WsRun
  ws_no_redis : WsRun
  ws_serves : Map ℤ ChainConfig → Text → WsRun

-- loadAbc: the key of the cipher is empty if the file is not embedded.
unfoldable pub load_abc : Option Text → Text
load_abc none = []
load_abc (some content) = content

module _ (v : Viper) where
  open v use {State, get_string}

  abbrev pub key_path : State → Text
  key_path t = get_string keyfile_path t ++ codes "keyfile.txt"

  unfoldable pub started : State → StartError ⊎ App → BrokerRun
  started t (inl e) = not_started e
  started t (inr a) = serves a (get_string api_port t) (get_string api_bind_addr t)

module _ (v : Viper) (sdk : Sdk) (connect : List Text → Option sdk.Client) (g : Gcm)
    (m : Machine) where
  open v use {State, get_string, get_int32}

  -- LoadFromFile and NewApp: what they start, and the key file.
  unfoldable pub start_app : State → Map ℤ ChainConfig → List RpcConfig → BrokerRun × Option Text
  unfolding started load_abc
  start_app t config rpcs =
      let (pk, file) =
        load_from_file g m.writable m.drawn (load_abc m.embedded) (m.key_file (key_path v t)) in
      (
        started v t (
            new_app sdk connect (m.redis_up (get_string redis_addr t) (get_string redis_pw t)) pk
              (get_string vip3_reduction_perc t) config rpcs
              (uint16 (get_int32 broker_fee_tbps t))),
        file,
      )

  unfoldable pub with_rpcs : State → Map ℤ ChainConfig → RpcLoaded → BrokerRun × Option Text
  unfolding start_app
  with_rpcs t config rpc_exits = (program_exits, m.key_file (key_path v t))
  with_rpcs t config (rpc_loaded rpcs) = start_app t config rpcs

  unfoldable pub with_config : State → Loaded → BrokerRun × Option Text
  unfolding with_rpcs
  with_config t exits = (program_exits, m.key_file (key_path v t))
  with_config t (rejected e) = (config_rejected e, m.key_file (key_path v t))
  with_config t (loaded config) =
      with_rpcs t config (load_rpc_config (m.rpc_file (get_string config_rpc_path t)))

  unfoldable pub run_broker : State → BrokerRun × Option Text
  unfolding with_config
  run_broker s =
      let (missing, t) = load_env v required s in
      elim missing [
        | some e ↦ (env_missing e, m.key_file (key_path v t))
        | none ↦ with_config t (load_chain_config sdk (m.chain_file (get_string config_path t)))
      ]

  -- StartWSServer up to the start of the server.
  unfoldable pub start_ws_server : State → Map ℤ ChainConfig → WsRun
  start_ws_server t config =
      if m.redis_up (get_string redis_addr t) (get_string redis_pw t)
      then ws_serves config (get_string ws_addr t)
      else ws_no_redis

  unfoldable pub ws_with_config : State → Loaded → WsRun
  unfolding start_ws_server
  ws_with_config t exits = ws_exits
  ws_with_config t (rejected e) = ws_config_rejected e
  ws_with_config t (loaded config) = start_ws_server t config

  unfoldable pub run_executor_ws : State → WsRun
  unfolding ws_with_config
  run_executor_ws s =
      let (missing, t) = load_env v ws_required s in
      elim missing [
        | some e ↦ ws_env_missing e
        | none ↦ ws_with_config t (load_chain_config sdk (m.chain_file (get_string config_path t)))
      ]
