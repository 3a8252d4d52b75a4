-- ===== src/Service/Agree.antt =====
-- The two services of svc/svc.go on the same machine and settings.
use d8x_broker_server.Base.{
  ℕ, ◌≡◌, ◌≤◌, sym, ◌∙◌, ap, subst, inl, inr, List, [], ◌∷◌, Option, some, true, Map, lookup, ℤ,
  pos, int_eq, arith, Option-cases, All-lookup, Bool-cases, ◌==◌,
}
use d8x_broker_server.Text.{Text}
use d8x_broker_server.Sdk.{Sdk}
use d8x_broker_server.Orders.{ChainConfig, ApiOrderSig}
use d8x_broker_server.Pen.{ApiBrokerSignatureRes}
use d8x_broker_server.Pen.Signing.{Signed}
use d8x_broker_server.Api.{App}
use d8x_broker_server.Setup.KeyFile.{Gcm}
use d8x_broker_server.Setup.ChainFile.{Loaded, loaded, rejected, exits, load_chain_config}
use d8x_broker_server.Setup.ChainFile.Kept.{IsUsable, loaded-injective}
use d8x_broker_server.Decimal.{max_int}
use d8x_broker_server.Ws.Topic.{is_valid_order_topic}
use d8x_broker_server.Ws.Topic.Accepts.{Supported, stack-valid}
use d8x_broker_server.Ws.Notify.Journey.{order_topic}
use d8x_broker_server.Service.Env.{Viper, load_env, set_defaults, first_missing, config_path}
use d8x_broker_server.Service.Run.{
  Machine, serves, ws_serves, ws_required, run_broker, start_ws_server, ws_with_config,
  run_executor_ws,
}
use d8x_broker_server.Service.Started.{loaded-IsUsable, run_broker-loaded}

lookup-Supported :
    (config : Map ℤ ChainConfig) (id : ℤ) (conf : ChainConfig)
    → lookup id config ≡ some conf
    → conf.chain_id ≡ id
    → Supported config id
unfolding lookup
lookup-Supported [] id conf h same = cc h
lookup-Supported ((k, el) ∷ config) id conf h same = elim (Bool-cases (k == id)) [
  | inl here ↦ let found : el ≡ conf = cc (rw here at h) in inl (ap (λ c. c.chain_id) found ∙ same)
  | inr there ↦ inr (lookup-Supported config id conf (rw there at h) same)
]

module _ (v : Viper) (sdk : Sdk) (connect : List Text → Option sdk.Client) (g : Gcm)
    (m : Machine) where
  open v use {State, get_string}

  ws_with_config-serves :
      (t : State) (l : Loaded) (config : Map ℤ ChainConfig) (addr : Text)
      → ws_with_config v sdk connect g m t l ≡ ws_serves config addr
      → l ≡ loaded config
  unfolding ws_with_config start_ws_server
  ws_with_config-serves t exits config addr h = ground arith
  ws_with_config-serves t (rejected f) config addr h = ground arith
  ws_with_config-serves t (loaded c) config addr h = ground arith

  run_executor_ws-loaded :
      (s : State) (config : Map ℤ ChainConfig) (addr : Text)
      → run_executor_ws v sdk connect g m s ≡ ws_serves config addr
      → load_chain_config sdk (m.chain_file (get_string config_path (set_defaults v s)))
        ≡ loaded config
  unfolding run_executor_ws load_env
  run_executor_ws-loaded s config addr h =
      elim (Option-cases (first_missing v ws_required (set_defaults v s))) [
        | inl all ↦
            ws_with_config-serves (set_defaults v s) _ config addr
              (rw (all, run_executor_ws, load_env) at h)
        | inr (e, missing) ↦ cc (rw (missing, run_executor_ws, load_env) at h)
      ]

  services_agree :
      (s : State) (a : App) (port bind : Text) (config : Map ℤ ChainConfig) (addr : Text)
      → (run_broker v sdk connect g m s).0 ≡ serves a port bind
      → run_executor_ws v sdk connect g m s ≡ ws_serves config addr
      → a.pen.chain_config ≡ config
  services_agree s a port bind config addr h k = loaded-injective a.pen.chain_config config (
      sym (run_broker-loaded v sdk connect g m s a port bind h)
      ∙ run_executor_ws-loaded s config addr k)

  -- If RunBroker and RunExecutorWs both come to serve on the same settings and files, then the
  -- topic of an order that the broker's pen has signed, for a perpetual from 100000 on, and with
  -- perpetual and chain in the range of an `int`, is one that isValidOrderTopic of the websocket
  -- service accepts.
  pub signed_topic-valid :
      (s : State) (a : App) (port bind : Text) (config : Map ℤ ChainConfig) (addr : Text)
      (o : ApiOrderSig) (k n : ℕ) (res : ApiBrokerSignatureRes)
      → (run_broker v sdk connect g m s).0 ≡ serves a port bind
      → run_executor_ws v sdk connect g m s ≡ ws_serves config addr
      → Signed sdk a.pen o (pos k) res
      → res.order.perpetual_id ≡ pos n
      → 100000 ≤ n
      → n ≤ max_int
      → k ≤ max_int
      → is_valid_order_topic config (order_topic res.order (pos k)) ≡ true
  signed_topic-valid s a port bind config addr o k n res h h' signed same large fits fits' =
      let known =
        subst (λ c. lookup (pos k) c ≡ some signed.config)
          (services_agree s a port bind config addr h h') signed.configured in
      let usable = loaded-IsUsable sdk _ config (run_executor_ws-loaded s config addr h') in
      let entry = All-lookup (IsUsable sdk) (pos k) signed.config config known usable in
      subst
        (λ p.
          is_valid_order_topic config
            (order_topic (record (res.order) { perpetual_id = p }) (pos k))
          ≡ true)
        (sym same)
        (stack-valid config n k large fits fits'
          (lookup-Supported config (pos k) signed.config known entry.same))
