-- ===== src/Service/Started.antt =====
-- What has gone well when the services of svc/svc.go serve.
use d8x_broker_server.Base.{
  ◌≡◌, ◌<◌, ◌^◌, refl, sym, ◌∙◌, ap, subst, ◌⊎◌, inl, inr, true, List, Option, none, some, Map,
  lookup, ℤ, int_eq, uint16, residue-lt, arith, All, All-lookup, Option-cases,
}
use d8x_broker_server.Text.{Text, to_lower, text_beq}
use d8x_broker_server.Sdk.{Sdk, Wallet}
use d8x_broker_server.Orders.{ChainConfig}
use d8x_broker_server.Pen.{RpcConfig}
use d8x_broker_server.Fee.{vip3_to_fee_map}
use d8x_broker_server.Api.{App}
use d8x_broker_server.Api.Start.{StartError, new_app}
use d8x_broker_server.Api.Start.Broker.{KeyGivesAddress, new_app-Built, new_app-broker_address}
use d8x_broker_server.Api.Handlers.{broker_address}
use d8x_broker_server.Setup.KeyFile.{Gcm, load_from_file}
use d8x_broker_server.Setup.ChainFile.{
  ChainConfigFile, Loaded, loaded, rejected, exits, load_chain_config,
}
use d8x_broker_server.Setup.ChainFile.Kept.{IsUsable, load_chain_config-IsUsable}
use d8x_broker_server.Setup.RpcFile.{RpcLoaded, rpc_loaded, rpc_exits}
use d8x_broker_server.Service.Env.{
  Viper, load_env, set_defaults, first_missing, api_port, broker_fee_tbps, config_path,
  vip3_reduction_perc, redis_addr, redis_pw,
}
use d8x_broker_server.Service.Env.Defaults.{
  IsPlain, set_defaults-plain, first_missing-defaults, first_missing-none, port_of,
  set_defaults-port,
}
use d8x_broker_server.Service.Run.{
  Machine, serves, required, load_abc, key_path, started, start_app, with_rpcs, with_config,
  run_broker,
}

required-IsPlain : All IsPlain required
unfolding to_lower text_beq
required-IsPlain = ground arith

pub loaded-IsUsable :
    (sdk : Sdk) (entries : Option (List ChainConfigFile)) (config : Map ℤ ChainConfig)
    → load_chain_config sdk entries ≡ loaded config
    → All (IsUsable sdk) config
unfolding load_chain_config
loaded-IsUsable sdk none config h = cc h
loaded-IsUsable sdk (some entries) config h = (load_chain_config-IsUsable sdk entries config h).0

module _ (v : Viper) (sdk : Sdk) (connect : List Text → Option sdk.Client) (g : Gcm)
    (m : Machine) where
  open v use {State, is_set, given, get_string, get_int32}

  abbrev made : State → Map ℤ ChainConfig → List RpcConfig → StartError ⊎ App
  made t config rpcs =
      let (pk, file) =
        load_from_file g m.writable m.drawn (load_abc m.embedded) (m.key_file (key_path v t)) in
      new_app sdk connect (m.redis_up (get_string redis_addr t) (get_string redis_pw t)) pk
        (get_string vip3_reduction_perc t) config rpcs (uint16 (get_int32 broker_fee_tbps t))

  started-serves :
      (t : State) (x : StartError ⊎ App) (a : App) (port bind : Text)
      → started v t x ≡ serves a port bind
      → (x ≡ inr a) × (get_string api_port t ≡ port)
  unfolding started
  started-serves t (inl e) a port bind h = ground arith
  started-serves t (inr b) a port bind h = ground arith

  with_rpcs-serves :
      (t : State) (config : Map ℤ ChainConfig) (l : RpcLoaded) (a : App) (port bind : Text)
      → (with_rpcs v sdk connect g m t config l).0 ≡ serves a port bind
      → (rpcs : List RpcConfig) × (made t config rpcs ≡ inr a) × (get_string api_port t ≡ port)
  unfolding with_rpcs start_app
  with_rpcs-serves t config rpc_exits a port bind h = ground arith
  with_rpcs-serves t config (rpc_loaded rpcs) a port bind h =
      let found = started-serves t (made t config rpcs) a port bind h in (rpcs, found.0, found.1)

  -- A configuration was loaded, and NewApp made the service with it.
  record Parts (t : State) (a : App) (port : Text) : Type 0 where
    config : Map ℤ ChainConfig
    rpcs : List RpcConfig
    chains : load_chain_config sdk (m.chain_file (get_string config_path t)) ≡ loaded config
    app : made t config rpcs ≡ inr a
    served : get_string api_port t ≡ port

  with_config-Parts :
      (t : State) (l : Loaded) (a : App) (port bind : Text)
      → load_chain_config sdk (m.chain_file (get_string config_path t)) ≡ l
      → (with_config v sdk connect g m t l).0 ≡ serves a port bind
      → Parts t a port
  unfolding with_config
  with_config-Parts t exits a port bind e h = ground arith
  with_config-Parts t (rejected f) a port bind e h = ground arith
  with_config-Parts t (loaded config) a port bind e h =
      let (rpcs, app, served) = with_rpcs-serves t config _ a port bind h in
      record { config = config; rpcs = rpcs; chains = e; app = app; served = served }

  run_broker-Parts :
      (s : State) (a : App) (port bind : Text)
      → (run_broker v sdk connect g m s).0 ≡ serves a port bind
      → (first_missing v required (set_defaults v s) ≡ none) × Parts (set_defaults v s) a port
  unfolding run_broker load_env
  run_broker-Parts s a port bind h =
      elim (Option-cases (first_missing v required (set_defaults v s))) [
        | inl all ↦ (
          all,
          with_config-Parts (set_defaults v s) _ a port bind refl
              (rw (all, run_broker, load_env) at h),
        )
        | inr (e, missing) ↦ cc (rw (missing, run_broker, load_env) at h)
      ]

  -- The chain is usable and has a wallet, whose address is the one that BrokerAddress gives; all
  -- required settings are set; the fee is the one of the settings as a 16-bit number, the levels are
  -- made from it, and the port is the one given, or 8001.
  pub record IsStarted (s : State) (a : App) (port : Text) (chain_id : ℤ) (conf : ChainConfig)
      : Type 0 where
    pub settings : All (λ k. is_set k s ≡ true) required
    pub usable : IsUsable sdk (chain_id, conf)
    pub wallet : Wallet
    pub held : lookup chain_id a.pen.wallets ≡ some wallet
    pub address : broker_address sdk a ≡ sdk.eth.hex wallet.address
    pub fee : a.broker_fee_tbps ≡ uint16 (get_int32 broker_fee_tbps s)
    pub fits : a.broker_fee_tbps < 2 ^ 16
    pub levels :
        a.broker_fee_lvls_tbps
        ≡ vip3_to_fee_map (get_string vip3_reduction_perc (set_defaults v s)) a.broker_fee_tbps
    pub listens : port ≡ port_of v (given api_port s)

  -- If the address of a wallet depends on the private key alone and RunBroker comes to serve,
  -- then every required setting is set; each chain of the pen has allowed executors and the
  -- contracts that the SDK knows, and a wallet with the address that BrokerAddress gives; the fee
  -- is the setting cut to 16 bits; the fee levels are made from it; and the port is the one
  -- given, or else 8001.
  pub run_broker-IsStarted :
      (s : State) (a : App) (port bind : Text) (chain_id : ℤ) (conf : ChainConfig)
      → ((key : Text) → KeyGivesAddress sdk connect key)
      → (run_broker v sdk connect g m s).0 ≡ serves a port bind
      → lookup chain_id a.pen.chain_config ≡ some conf
      → IsStarted s a port chain_id conf
  run_broker-IsStarted s a port bind chain_id conf same h known =
      let (all, p) = run_broker-Parts s a port bind h in
      let t = set_defaults v s in
      let built = new_app-Built sdk connect _ _ _ p.config p.rpcs _ a p.app in
      let in_file = subst (λ c. lookup chain_id c ≡ some conf) built.chains known in
      let (w, held, address) =
        new_app-broker_address sdk connect _ _ _ p.config p.rpcs _ a chain_id conf (same _) p.app
          in_file in
      let fee =
        built.base
        ∙ ap uint16
            (set_defaults-plain v get_int32 v.other_int32 broker_fee_tbps s required-IsPlain.0) in
      record {
        settings =
            first_missing-none v required s
              (sym (first_missing-defaults v required s required-IsPlain) ∙ all);
        usable =
            All-lookup (IsUsable sdk) chain_id conf p.config in_file
              (loaded-IsUsable sdk _ p.config p.chains);
        wallet = w;
        held = held;
        address = address;
        fee = fee;
        fits = rw fee (residue-lt (get_int32 broker_fee_tbps s) (2 ^ 16) (omega arith));
        levels =
            built.levels ∙ ap (vip3_to_fee_map (get_string vip3_reduction_perc t)) (sym built.base);
        listens = sym p.served ∙ set_defaults-port v s;
      }

  -- The configuration of the pen is the one that LoadChainConfig returned.
  pub run_broker-loaded :
      (s : State) (a : App) (port bind : Text)
      → (run_broker v sdk connect g m s).0 ≡ serves a port bind
      → load_chain_config sdk (m.chain_file (get_string config_path (set_defaults v s)))
        ≡ loaded a.pen.chain_config
  run_broker-loaded s a port bind h =
      let (all, p) = run_broker-Parts s a port bind h in
      let built = new_app-Built sdk connect _ _ _ p.config p.rpcs _ a p.app in
      p.chains ∙ ap loaded (sym built.chains)
