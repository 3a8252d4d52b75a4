-- ===== src/Api.antt =====
-- src/api: the state of the REST service and its handlers. A handler takes the request as the JSON
-- decoder leaves it (`none` is a decoding error), and returns the response before it is encoded.
pub mod Token
pub mod Handlers
pub mod Start
pub mod Routes
use d8x_broker_server.Base.{ℕ, ℤ, List, [], ◌∷◌, Option, Map}
use d8x_broker_server.Text.{Text}
use d8x_broker_server.Eth.{Eth}
use d8x_broker_server.Sdk.{Wallet}
use d8x_broker_server.Pen.{SignaturePen}
use d8x_broker_server.Fee.{FeeLevels}

-- The fields of App that the handlers read or write; the Redis store is passed beside it.
pub record App : Type 0 where
  pub pen : SignaturePen
  pub broker_fee_tbps : ℕ
  pub broker_fee_lvls_tbps : Option FeeLevels
  pub token_approval_ts : Map Text ℕ
