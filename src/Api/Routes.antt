-- ===== src/Api/Routes.antt =====
-- RegisterRoutes of api/routes.go, and the service as a whole: a request is routed by method and
-- path, its body is decoded, and the handler answers. The JSON decoders are parameters, and the
-- router calls a handler only if both method and path are the registered ones.
use d8x_broker_server.Base.{ℕ, List, Option, none, some, ◌==◌, if◌then◌else◌, ℤ}
use d8x_broker_server.Text.{Text, text_eq, codes}
use d8x_broker_server.Sdk.{Sdk, BrokerPaySignatureReq}
use d8x_broker_server.Redis.{Redis}
use d8x_broker_server.Orders.{ChainConfig, ApiBrokerOrderSignatureReq}
use d8x_broker_server.Pen.{ApiBrokerSignatureRes}
use d8x_broker_server.Api.{App}
use d8x_broker_server.Api.Handlers.{
  Response, broker_address, get_chain_config, get_broker_fee, sign_order, orders_submitted,
  sign_payment,
}

pub data Method : Type 0 where
  get post : Method

pub data Endpoint : Type 0 where
  to_broker_address to_chain_config to_broker_fee to_sign_order to_orders_submitted
        to_sign_payment :
      Endpoint

-- RegisterRoutes
unfoldable pub route : Method → Text → Option Endpoint
route get path =
    if path == codes "/broker-address"
    then some to_broker_address
    else if path == codes "/chain-config"
    then some to_chain_config
    else if path == codes "/broker-fee"
    then some to_broker_fee
    else none
route post path =
    if path == codes "/sign-order"
    then some to_sign_order
    else if path == codes "/orders-submitted"
    then some to_orders_submitted
    else if path == codes "/sign-payment"
    then some to_sign_payment
    else none

-- A request, with the two parameters of its query that a handler reads.
pub record HttpRequest : Type 0 where
  pub method : Method
  pub path : Text
  pub addr : Text
  pub chain : Text
  pub body : Text

pub record Decoders : Type 0 where
  pub order_req : Text → Option ApiBrokerOrderSignatureReq
  pub order_ids : Text → Option (List Text)
  pub payment_req : Text → Option BrokerPaySignatureReq

-- What is written to the client.
pub data Answer : Type 0 where
  no_route : Answer
  address : Text → Answer
  chains : List ChainConfig → Answer
  fee : Response ℕ → Answer
  order : Response ApiBrokerSignatureRes → Answer
  submitted : Response (Unit {0}) → Answer
  payment : Response Text → Answer

module _ (sdk : Sdk) (r : Redis) (rest_level : Text → Option ℤ) (decoders : Decoders) where
  open r use {Store}

  -- One endpoint. SignPayment reads the clock twice and dials the chain's node.
  unfoldable pub handle :
      (List Text → Option sdk.Client)
      → ℕ
      → ℕ
      → App
      → HttpRequest
      → Endpoint
      → Store
      → Answer × App × Store
  handle connect now later a q to_broker_address s = (address (broker_address sdk a), a, s)
  handle connect now later a q to_chain_config s = (chains (get_chain_config a), a, s)
  handle connect now later a q to_broker_fee s =
      let (answer, s') = get_broker_fee sdk r rest_level a q.addr q.chain s in (fee answer, a, s')
  handle connect now later a q to_sign_order s =
      let (answer, s') = sign_order sdk r rest_level a (decoders.order_req q.body) s in
      (order answer, a, s')
  handle connect now later a q to_orders_submitted s =
      let (answer, s') = orders_submitted sdk r rest_level (decoders.order_ids q.body) s in
      (submitted answer, a, s')
  handle connect now later a q to_sign_payment s =
      let (answer, a') = sign_payment sdk connect a now later (decoders.payment_req q.body) in
      (payment answer, a', s)

  unfoldable pub serve :
      (List Text → Option sdk.Client) → ℕ → ℕ → App → HttpRequest → Store → Answer × App × Store
  unfolding handle route
  serve connect now later a q s = elim (route q.method q.path) [
    | none ↦ (no_route, a, s)
    | some e ↦ handle connect now later a q e s
  ]
