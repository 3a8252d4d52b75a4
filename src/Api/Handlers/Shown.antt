-- ===== src/Api/Handlers/Shown.antt =====
-- GetBrokerFee beside SignOrder, of api/handlers.go.
use d8x_broker_server.Base.{
  ℕ, ◌≡◌, ◌≢◌, sym, ap, ◌∙◌, [], Option, some, arith, ℤ, pos, negsuc, beq_ne,
}
use mathlib.Core.List.{cons-ne-nil}
use d8x_broker_server.Text.{Text, text_eq}
use d8x_broker_server.Decimal.{itoa}
use d8x_broker_server.Decimal.Print.{IsInt, atoi-itoa, digits-cons}
use d8x_broker_server.Sdk.{Sdk}
use d8x_broker_server.Redis.{Redis}
use d8x_broker_server.Redis.Connected.{Connected}
use d8x_broker_server.Orders.{ApiBrokerOrderSignatureReq}
use d8x_broker_server.Pen.{ApiBrokerSignatureRes}
use d8x_broker_server.Fee.{get_broker_fee_tbps}
use d8x_broker_server.Api.{App}
use d8x_broker_server.Api.Handlers.{
  Response, success, query_chain, fee_response, get_broker_fee, sign_order, with_broker_addr,
}
use d8x_broker_server.Api.Handlers.Orders.{sign_order-SignedWith}

itoa-ne-nil : (k : ℤ) → itoa k ≢ []
unfolding itoa
itoa-ne-nil (pos n) h = let (c, s, e, _) = digits-cons n in cons-ne-nil c s (sym e ∙ h)
itoa-ne-nil (negsuc n) h = cons-ne-nil _ _ h

module _ (sdk : Sdk) (r : Redis) (c : Connected r) (rest_level : Text → Option ℤ) (a : App) where
  query_chain-itoa : (k : ℤ) → IsInt k → query_chain sdk r rest_level (itoa k) ≡ k
  unfolding query_chain
  query_chain-itoa k fits =
      rw (beq_ne (itoa k) [] (itoa-ne-nil k), atoi-itoa k fits) (ap (λ p. p.0) (atoi-itoa k fits))

  trader_kept :
      (req : ApiBrokerOrderSignatureReq)
      → (with_broker_addr sdk r rest_level a req).order.trader_addr ≡ req.order.trader_addr
  unfolding with_broker_addr
  trader_kept req = ground arith

  chain_kept :
      (req : ApiBrokerOrderSignatureReq)
      → (with_broker_addr sdk r rest_level a req).chain_id ≡ req.chain_id
  unfolding with_broker_addr
  chain_kept req = ground arith

  -- On a Redis whose answers all arrive: if SignOrder answers a request, whose chain id fits in
  -- an `int`, with a signed order, then GetBrokerFee, asked from the same state for the trader
  -- and the chain's decimal print, answers the fee of the signed order.
  pub get_broker_fee-sign_order :
      (req : ApiBrokerOrderSignatureReq) (s : r.Store) (res : ApiBrokerSignatureRes)
      → IsInt req.chain_id
      → (sign_order sdk r rest_level a (some req) s).0 ≡ success res
      → (get_broker_fee sdk r rest_level a req.order.trader_addr (itoa req.chain_id) s).0
        ≡ success res.order.broker_fee_tbps
  unfolding get_broker_fee
  get_broker_fee-sign_order req s res fits signed =
      let charge = (sign_order-SignedWith sdk r c rest_level a req s res signed).charge in
      rw (query_chain-itoa req.chain_id fits) (
        ap (λ k. shown req.order.trader_addr k) (sym (chain_kept req))
        ∙ ap (λ t. shown t (with_broker_addr sdk r rest_level a req).chain_id)
            (sym (trader_kept req))
        ∙ ap (fee_response sdk r rest_level) charge)
    where
      shown : Text → ℤ → Response ℕ
      shown t k =
          fee_response sdk r rest_level
            (get_broker_fee_tbps r rest_level a.broker_fee_tbps a.broker_fee_lvls_tbps t k s).0
