-- ===== src/System/Turns/Safe/Requests.antt =====
-- A request to the REST service, command by command, keeps to what is safe.
use d8x_broker_server.Base.{
  ℕ, ◌≡◌, refl, ◌||◌, List, [], ◌∷◌, Option, none, some, ltb, if◌then◌else◌, length, ℤ,
  Option-cases, inl, inr, Bool, true, false,
}
use d8x_broker_server.Text.{Text}
use d8x_broker_server.Sdk.{Sdk}
use d8x_broker_server.Redis.{Redis}
use d8x_broker_server.Redis.Connected.{Connected}
use d8x_broker_server.Redis.Prog.{Prog, done, ◌>>=◌}
use d8x_broker_server.Orders.{ApiOrderSig, ApiBrokerOrderSignatureReq, check_data}
use d8x_broker_server.Pen.{SignaturePen, ApiBrokerSignatureRes, signed_order}
use d8x_broker_server.Pen
use d8x_broker_server.Pen.Signing.{signed_order-Signed}
use d8x_broker_server.Fee.{Charge, charged, panics}
use d8x_broker_server.Api.{App}
use d8x_broker_server.Api.Handlers.{crashed, with_broker_addr, query_chain}
use d8x_broker_server.Api.Handlers.Submitted.{bare}
use d8x_broker_server.Api.Routes.{
  Endpoint, to_broker_address, to_chain_config, to_broker_fee, to_sign_order, to_orders_submitted,
  to_sign_payment, HttpRequest, Decoders, route,
}
use d8x_broker_server.Ws.Notify.Update.{Fits}
use d8x_broker_server.System.Rest.{
  DecodesFits, charged-Fits, signed-Fits, with_broker_addr-Fits, sign_payment-pen,
}
use d8x_broker_server.System.Tasks.{
  submission_task, store_task, fee_task, response_task, broker_fee_task, charged_task, checked_task,
  sign_task, submitted_task, handle_task, serve_task,
}
use d8x_broker_server.System.Turns.Safe.{IsSafe, bind-IsSafe}
use d8x_broker_server.System.Turns.Safe.Commands.{
  submission_task-IsSafe, store_task-IsSafe, fee_task-IsSafe,
}

module _ (sdk : Sdk) (r : Redis) (c : Connected r) (rest_level : Text → Option ℤ) (a : App) where
  abbrev Safe : {A : Type 0} → Prog A → Type 0
  Safe p = IsSafe sdk a.pen p

  response_task-IsSafe :
      (o : ApiOrderSig) (chain_id : ℤ)
      → Fits o
      → Safe (response_task sdk r rest_level a.pen o chain_id)
  unfolding response_task
  response_task-IsSafe o chain_id fits = signed_safe (signed_order sdk a.pen o chain_id) refl
    where
      signed_safe :
          (m : Pen.Result ApiBrokerSignatureRes)
          → signed_order sdk a.pen o chain_id ≡ m
          → Safe (elim m [
            | Pen.err e ↦ done (Pen.err e)
            | Pen.ok res ↦ store_task res.order res.order_id chain_id >>= λ _. done (Pen.ok res)
          ])
      signed_safe (Pen.err e) at = tt
      signed_safe (Pen.ok res) at =
          let signed = signed_order-Signed sdk a.pen o chain_id res at in
          bind-IsSafe sdk a.pen (store_task res.order res.order_id chain_id) _
            (store_task-IsSafe sdk a.pen res.order res.order_id chain_id (record {
              asked = o;
              chain_id = chain_id;
              res = res;
              signed = signed;
              same_id = refl;
              fits = signed-Fits sdk a.pen o chain_id res signed fits;
              fields = refl;
            }))
            (λ _. tt)

  charged_task-IsSafe :
      (req : ApiBrokerOrderSignatureReq) (x : Charge)
      → Fits req.order
      → Safe (charged_task sdk r rest_level a req x)
  unfolding charged_task
  charged_task-IsSafe req panics fits = tt
  charged_task-IsSafe req (charged base) fits =
      bind-IsSafe sdk a.pen (response_task sdk r rest_level a.pen _ req.chain_id) _
        (response_task-IsSafe (record (req.order) { broker_fee_tbps = base }) req.chain_id
          (charged-Fits req.order base fits))
        (λ _. tt)

  checked_task-IsSafe :
      (req : ApiBrokerOrderSignatureReq)
      → Fits req.order
      → Safe (checked_task sdk r rest_level a req)
  unfolding checked_task
  checked_task-IsSafe req fits =
      sliced (ltb (length req.order.trader_addr) 8 || ltb (length req.order.broker_addr) 8)
    where
      sliced :
          (short : Bool)
          → Safe (
              if short
              then done crashed
              else fee_task rest_level a.broker_fee_tbps a.broker_fee_lvls_tbps
                  req.order.trader_addr req.chain_id
                >>= charged_task sdk r rest_level a req)
      sliced true = tt
      sliced false =
          bind-IsSafe sdk a.pen _ (charged_task sdk r rest_level a req)
            (fee_task-IsSafe sdk a.pen rest_level a.broker_fee_tbps a.broker_fee_lvls_tbps
              req.order.trader_addr req.chain_id)
            (λ x. charged_task-IsSafe req x fits)

  sign_task-IsSafe :
      (req : ApiBrokerOrderSignatureReq)
      → Fits req.order
      → Safe (sign_task sdk r rest_level a (some req))
  unfolding sign_task
  sign_task-IsSafe req fits =
      let asked = with_broker_addr sdk r rest_level a req in
      elim (Option-cases (check_data sdk.eth asked)) [
        | inl passed ↦
            rw (passed, sign_task)
              (checked_task-IsSafe asked
                (with_broker_addr-Fits sdk a.pen r c rest_level 0 a req fits))
        | inr (e, failed) ↦ rw (failed, sign_task) tt
      ]

  submitted_task-IsSafe : (ids : Option (List Text)) → Safe (submitted_task sdk r rest_level ids)
  unfolding submitted_task
  submitted_task-IsSafe none = tt
  submitted_task-IsSafe (some []) = tt
  submitted_task-IsSafe (some (id ∷ ids)) =
      bind-IsSafe sdk a.pen (submission_task (bare (id ∷ ids))) _
        (submission_task-IsSafe sdk a.pen (bare (id ∷ ids))) (λ _. tt)

  module _ (decoders : Decoders) (fits : DecodesFits decoders)
      (connect : List Text → Option sdk.Client) (now later : ℕ) (q : HttpRequest) where
    decoded_task-IsSafe :
        (req : Option ApiBrokerOrderSignatureReq)
        → decoders.order_req q.body ≡ req
        → Safe (sign_task sdk r rest_level a req)
    decoded_task-IsSafe none at = unfold sign_task in tt
    decoded_task-IsSafe (some req) at = sign_task-IsSafe req (fits q.body req at)

    handle_task-IsSafe :
        (e : Endpoint)
        → let (task, a') = handle_task sdk r rest_level decoders connect now later a q e in
          Safe task × (a'.pen ≡ a.pen)
    unfolding handle_task broker_fee_task
    handle_task-IsSafe to_broker_address = (tt, refl)
    handle_task-IsSafe to_chain_config = (tt, refl)
    handle_task-IsSafe to_broker_fee = (
      bind-IsSafe sdk a.pen (broker_fee_task sdk r rest_level a q.addr q.chain) _
          (bind-IsSafe sdk a.pen _ _
            (fee_task-IsSafe sdk a.pen rest_level a.broker_fee_tbps a.broker_fee_lvls_tbps q.addr
              (query_chain sdk r rest_level q.chain))
            (λ _. tt))
          (λ _. tt),
      refl,
    )
    handle_task-IsSafe to_sign_order = (
      bind-IsSafe sdk a.pen (sign_task sdk r rest_level a (decoders.order_req q.body)) _
          (decoded_task-IsSafe (decoders.order_req q.body) refl) (λ _. tt),
      refl,
    )
    handle_task-IsSafe to_orders_submitted = (
      bind-IsSafe sdk a.pen (submitted_task sdk r rest_level (decoders.order_ids q.body)) _
          (submitted_task-IsSafe (decoders.order_ids q.body)) (λ _. tt),
      refl,
    )
    handle_task-IsSafe to_sign_payment = (
      tt,
      sign_payment-pen sdk a.pen r c rest_level 0 connect now later a (decoders.payment_req q.body),
    )

    pub serve_task-IsSafe :
        let (task, a') = serve_task sdk r rest_level decoders connect now later a q in
        Safe task × (a'.pen ≡ a.pen)
    unfolding serve_task
    serve_task-IsSafe = elim (Option-cases (route q.method q.path)) [
      | inl missing ↦ rw (missing, serve_task) (tt, refl)
      | inr (e, found) ↦ rw (found, serve_task) (handle_task-IsSafe e)
    ]
