-- ===== src/System/Tasks.antt =====
-- The handlers of the REST service as the Redis commands that they send, one after the other. Each
-- function stands for the one of the same Go code in Fee, Orders, Pen, Api/Handlers and Api/Routes;
-- Tasks/Whole compares the two.
pub mod Whole
use d8x_broker_server.Base.{
  ℕ, ◌||◌, List, [], ◌∷◌, Option, none, some, map, ltb, if◌then◌else◌, length, Map, ℤ, pos,
}
use d8x_broker_server.Text.{Text, codes, to_lower, trim_prefix}
use d8x_broker_server.Decimal.{atoi, itoa}
use d8x_broker_server.Sdk.{Sdk}
use d8x_broker_server.Redis.{Redis}
use d8x_broker_server.Redis.Documented.{Reply, ok, err, Fault}
use d8x_broker_server.Redis.Prog.{
  Prog, done, ◌>>=◌, ask, get, set, expire, hset, hgetall, lpush, publish,
}
use d8x_broker_server.Orders.{
  ApiOrderSig, ApiBrokerOrderSignatureReq, check_data, order_fields, expiry_hdata_sec, SubmitError,
  could_not_get, could_not_find, publish_failed, stack_name, channel_new_order,
}
use d8x_broker_server.Pen.{SignaturePen, ApiBrokerSignatureRes, Result, signed_order}
use d8x_broker_server.Pen
use d8x_broker_server.Fee.{
  FeeLevels, Charge, charged, panics, vip3_key, vip3_info_expiry_sec, reduce_by_level,
}
use d8x_broker_server.Api.{App}
use d8x_broker_server.Api.Handlers.{
  Response, success, bad_request, problem, crashed, wrong_arguments, check_failed, submit_failed,
  get_chain_config, broker_address, sign_payment, query_chain, fee_response, signed_response,
  with_broker_addr,
}
use d8x_broker_server.Api.Handlers
use d8x_broker_server.Api.Routes.{
  Endpoint, to_broker_address, to_chain_config, to_broker_fee, to_sign_order, to_orders_submitted,
  to_sign_payment, HttpRequest, Decoders, Answer, no_route, address, chains, fee, order, submitted,
  payment, route,
}

-- OrderSubmission: LPUSH, whose answer is not read, and PUBLISH.
unfoldable pub announce_task : Text → Text → Prog (Option SubmitError)
announce_task stack order_id = do
  _ ← ask (lpush stack order_id)
  reply ← ask (publish channel_new_order stack)
  done (elim reply [ err e ↦ some (publish_failed e) | ok _ ↦ none ])

unfoldable pub found_task : Text → Reply (Map Text Text) → Prog (Option SubmitError)
unfolding announce_task
found_task order_id (err e) = done (some (could_not_get order_id e))
found_task order_id (ok []) = done (some (could_not_find order_id))
found_task order_id (ok (f ∷ fs)) = announce_task (stack_name (f ∷ fs)) order_id

unfoldable pub submission_task : List Text → Prog (Option SubmitError)
unfolding found_task
submission_task [] = done none
submission_task (id ∷ ids) = do
  reply ← ask (hgetall id)
  outcome ← found_task id reply
  elim outcome [ some e ↦ done (some e) | none ↦ submission_task ids ]

-- PubOrder
unfoldable pub store_task : ApiOrderSig → Text → ℤ → Prog (Option Fault)
store_task o order_id chain_id = do
  reply ← ask (hset order_id (order_fields o chain_id))
  elim reply [
    | err e ↦ done (some e)
    | ok _ ↦ ask (expire order_id expiry_hdata_sec) >>= λ _. done none
  ]

module _ (rest_level : Text → Option ℤ) where
  -- GetVip3Level behind a missing level.
  unfoldable pub fetch_task : Text → Prog ℤ
  fetch_task trader_addr = elim (rest_level trader_addr) [
    | none ↦ done (pos 0)
    | some lvl ↦ do
      _ ← ask (set (vip3_key trader_addr) (itoa lvl))
      _ ← ask (expire (vip3_key trader_addr) vip3_info_expiry_sec)
      done lvl
  ]

  unfoldable pub level_task : Text → Prog ℤ
  unfolding fetch_task
  level_task trader_addr = do
    let trader = to_lower trader_addr
    reply ← ask (get (vip3_key trader))
    elim reply [ err e ↦ fetch_task trader | ok lvl ↦ done (atoi lvl).0 ]

  -- getBrokerFeeTbps
  unfoldable pub fee_task : ℕ → Option FeeLevels → Text → ℤ → Prog Charge
  unfolding level_task
  fee_task base none trader_addr chain_id = done (charged base)
  fee_task base (some m) trader_addr chain_id = do
    l ← level_task (to_lower trader_addr)
    done (reduce_by_level base m chain_id l)

module _ (sdk : Sdk) (r : Redis) (rest_level : Text → Option ℤ) where
  -- GetBrokerOrderSignatureResponse
  unfoldable pub response_task :
      SignaturePen → ApiOrderSig → ℤ → Prog (Result ApiBrokerSignatureRes)
  unfolding store_task
  response_task p o chain_id = elim (signed_order sdk p o chain_id) [
    | Pen.err e ↦ done (Pen.err e)
    | Pen.ok res ↦ store_task res.order res.order_id chain_id >>= λ _. done (Pen.ok res)
  ]

  -- GetBrokerFee
  unfoldable pub broker_fee_task : App → Text → Text → Prog (Response ℕ)
  unfolding fee_task
  broker_fee_task a addr chain = do
    c ←
        fee_task rest_level a.broker_fee_tbps a.broker_fee_lvls_tbps addr
          (query_chain sdk r rest_level chain)
    done (fee_response sdk r rest_level c)

  -- SignOrder
  unfoldable pub charged_task :
      App → ApiBrokerOrderSignatureReq → Charge → Prog (Response ApiBrokerSignatureRes)
  unfolding response_task
  charged_task a req panics = done crashed
  charged_task a req (charged base) = do
    res ← response_task a.pen (record (req.order) { broker_fee_tbps = base }) req.chain_id
    done (signed_response sdk r rest_level res)

  unfoldable pub checked_task :
      App → ApiBrokerOrderSignatureReq → Prog (Response ApiBrokerSignatureRes)
  unfolding charged_task
  checked_task a req =
      if ltb (length req.order.trader_addr) 8 || ltb (length req.order.broker_addr) 8
      then done crashed
      else fee_task rest_level a.broker_fee_tbps a.broker_fee_lvls_tbps req.order.trader_addr
          req.chain_id
        >>= charged_task a req

  unfoldable pub sign_task :
      App → Option ApiBrokerOrderSignatureReq → Prog (Response ApiBrokerSignatureRes)
  unfolding checked_task
  sign_task a none = done (bad_request wrong_arguments)
  sign_task a (some req) =
      let checked = with_broker_addr sdk r rest_level a req in
      elim (check_data sdk.eth checked) [
        | some e ↦ done (bad_request (check_failed e))
        | none ↦ checked_task a checked
      ]

  -- OrdersSubmitted
  unfoldable pub submitted_task : Option (List Text) → Prog (Response (Unit {0}))
  unfolding submission_task
  submitted_task none = done (bad_request wrong_arguments)
  submitted_task (some []) = done (bad_request wrong_arguments)
  submitted_task (some (id ∷ ids)) = do
    e ← submission_task (map (λ t. trim_prefix t (codes "0x")) (id ∷ ids))
    done (elim e [ none ↦ success tt | some f ↦ problem (submit_failed f) ])

  module _ (decoders : Decoders) where
    -- An endpoint; SignPayment asks Redis for nothing.
    unfoldable pub handle_task :
        (List Text → Option sdk.Client) → ℕ → ℕ → App → HttpRequest → Endpoint → Prog Answer × App
    unfolding broker_fee_task sign_task submitted_task
    handle_task connect now later a q to_broker_address = (done (address (broker_address sdk a)), a)
    handle_task connect now later a q to_chain_config = (done (chains (get_chain_config a)), a)
    handle_task connect now later a q to_broker_fee =
        (broker_fee_task a q.addr q.chain >>= λ answer. done (fee answer), a)
    handle_task connect now later a q to_sign_order =
        (sign_task a (decoders.order_req q.body) >>= λ answer. done (order answer), a)
    handle_task connect now later a q to_orders_submitted =
        (submitted_task (decoders.order_ids q.body) >>= λ answer. done (submitted answer), a)
    handle_task connect now later a q to_sign_payment =
        let (answer, a') = sign_payment sdk connect a now later (decoders.payment_req q.body) in
        (done (payment answer), a')

    -- A request: the commands of its handler, and the service with the approval times of SignPayment.
    unfoldable pub serve_task :
        (List Text → Option sdk.Client) → ℕ → ℕ → App → HttpRequest → Prog Answer × App
    unfolding handle_task
    serve_task connect now later a q = elim (route q.method q.path) [
      | none ↦ (done no_route, a)
      | some e ↦ handle_task connect now later a q e
    ]
