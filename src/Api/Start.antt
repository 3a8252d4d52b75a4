-- ===== src/Api/Start.antt =====
-- NewApp of api/api.go: the pen and the fee map, without the address that the service listens on.
pub mod Broker
use d8x_broker_server.Base.{ℕ, Bool, List, [], ◌∷◌, Option, if◌then◌else◌, Map, ℤ, ◌⊎◌, inl, inr}
use d8x_broker_server.Text.{Text}
use d8x_broker_server.Sdk.{Sdk}
use d8x_broker_server.Orders.{ChainConfig}
use d8x_broker_server.Pen.{SignaturePen, RpcConfig, PenError, Result, ok, err, new_signature_pen}
use d8x_broker_server.Fee.{vip3_to_fee_map}
use d8x_broker_server.Api.{App}

pub data StartError : Type 0 where
  no_pen : PenError → StartError
  no_redis : StartError

abbrev pub app_of : SignaturePen → Text → ℕ → App
app_of pen fee_red fee_tbps = record {
  pen = pen;
  broker_fee_tbps = fee_tbps;
  broker_fee_lvls_tbps = vip3_to_fee_map fee_red fee_tbps;
  token_approval_ts = [];
}

abbrev pub with_pen : Bool → Text → ℕ → Result SignaturePen → StartError ⊎ App
with_pen redis_up fee_red fee_tbps (err e) = inl (no_pen e)
with_pen redis_up fee_red fee_tbps (ok pen) =
    if redis_up then inr (app_of pen fee_red fee_tbps) else inl no_redis

-- NewApp; the Boolean says whether the Redis client could be made.
unfoldable pub new_app :
    (sdk : Sdk)
    → (List Text → Option sdk.Client)
    → Bool
    → Text
    → Text
    → Map ℤ ChainConfig
    → List RpcConfig
    → ℕ
    → StartError ⊎ App
new_app sdk connect redis_up key fee_red chain_conf rpc_conf fee_tbps =
    with_pen redis_up fee_red fee_tbps (new_signature_pen sdk connect key chain_conf rpc_conf)
