-- ===== src/System/Tasks/Whole.antt =====
-- A handler whose commands follow each other with no other code between them is the handler of
-- Fee, Orders, Pen, Api/Handlers and Api/Routes.
use d8x_broker_server.Base.{
  ℕ, ◌≡◌, refl, ◌∙◌, ap, Bool, true, false, ◌||◌, List, [], ◌∷◌, Option, none, some, ltb,
  if◌then◌else◌, length, Map, ℤ, Option-cases, inl, inr, arith,
}
use d8x_broker_server.Text.{Text, to_lower}
use d8x_broker_server.Sdk.{Sdk}
use d8x_broker_server.Redis.{Redis}
use d8x_broker_server.Redis.Documented.{Reply, ok, err}
use d8x_broker_server.Redis.Prog.{Prog, done, ◌>>=◌, run, run-bind, run-done}
use d8x_broker_server.Orders.{
  ApiOrderSig, ApiBrokerOrderSignatureReq, CheckError, SubmitError, stack_name, pub_order, announce,
  submit_found, submit_one, order_submission,
}
use d8x_broker_server.Pen.{
  SignaturePen, ApiBrokerSignatureRes, signed_order, get_broker_order_signature_response,
}
use d8x_broker_server.Pen
use d8x_broker_server.Fee.{
  FeeLevels, Charge, charged, panics, reduce_by_level, fetch_level, get_vip3_level,
  get_reduced_broker_fee_tbps, get_broker_fee_tbps,
}
use d8x_broker_server.Api.{App}
use d8x_broker_server.Api.Handlers.{
  Response, success, bad_request, problem, crashed, submit_failed, check_failed, fee_response,
  query_chain, signed_response, get_broker_fee, sign_with_fee, sign_checked, sign_order,
  orders_submitted, with_broker_addr,
}
use d8x_broker_server.Api.Handlers.Submitted.{bare}
use d8x_broker_server.Api.Routes.{
  Endpoint, to_broker_address, to_chain_config, to_broker_fee, to_sign_order, to_orders_submitted,
  to_sign_payment, HttpRequest, Decoders, fee, order, submitted, route, handle, serve,
}
use d8x_broker_server.System.Tasks.{
  announce_task, found_task, submission_task, store_task, fetch_task, level_task, fee_task,
  response_task, broker_fee_task, charged_task, checked_task, sign_task, submitted_task,
  handle_task, serve_task,
}

module _ (r : Redis) where
  open r use {Store}

  run-announce_task :
      (stack id : Text) (s : Store) → run r (announce_task stack id) s ≡ announce r stack id s
  unfolding announce_task announce
  run-announce_task stack id s = ground arith

  run-found_task :
      (id : Text) (reply : Reply (Map Text Text)) (s : Store)
      → run r (found_task id reply) s ≡ submit_found r id reply s
  unfolding found_task submit_found
  run-found_task id (err e) s = refl
  run-found_task id (ok []) s = refl
  run-found_task id (ok (f ∷ fs)) s = run-announce_task (stack_name (f ∷ fs)) id s

  abbrev next_task : List Text → Option SubmitError → Prog (Option SubmitError)
  next_task ids outcome = elim outcome [ some e ↦ done (some e) | none ↦ submission_task ids ]

  run-next_task :
      (ids : List Text) (outcome : Option SubmitError) (s : Store)
      → run r (submission_task ids) s ≡ order_submission r ids s
      → run r (next_task ids outcome) s
        ≡ elim outcome [ some e ↦ (some e, s) | none ↦ order_submission r ids s ]
  run-next_task ids none s same = same
  run-next_task ids (some e) s same = refl

  run-submission_task :
      (ids : List Text) (s : Store) → run r (submission_task ids) s ≡ order_submission r ids s
  unfolding submission_task order_submission submit_one
  run-submission_task [] s = refl
  run-submission_task (id ∷ ids) s =
      let (reply, s') = r.hgetall id s in
      run-bind r (found_task id reply) (next_task ids) s'
      ∙ ap (λ q. run r (next_task ids q.0) q.1) (run-found_task id reply s')
      ∙ run-next_task ids (submit_one r id s).0 (submit_one r id s).1
          (run-submission_task ids (submit_one r id s).1)

  run-store_task :
      (o : ApiOrderSig) (id : Text) (chain_id : ℤ) (s : Store)
      → run r (store_task o id chain_id) s ≡ pub_order r o id chain_id s
  unfolding store_task pub_order
  run-store_task o id chain_id s = ground arith

  module _ (rest_level : Text → Option ℤ) where
    run-fetch_task :
        (trader : Text) (s : Store)
        → run r (fetch_task rest_level trader) s ≡ fetch_level r rest_level trader s
    unfolding fetch_task fetch_level
    run-fetch_task trader s = ground arith

    run-level_task :
        (trader : Text) (s : Store)
        → run r (level_task rest_level trader) s ≡ get_vip3_level r rest_level trader s
    unfolding level_task get_vip3_level
    run-level_task trader s = ground (arith, run-fetch_task (to_lower trader))

    run-fee_task :
        (base : ℕ) (levels : Option FeeLevels) (trader : Text) (chain_id : ℤ) (s : Store)
        → run r (fee_task rest_level base levels trader chain_id) s
          ≡ get_broker_fee_tbps r rest_level base levels trader chain_id s
    unfolding fee_task get_broker_fee_tbps get_reduced_broker_fee_tbps
    run-fee_task base none trader chain_id s = refl
    run-fee_task base (some m) trader chain_id s =
        run-done r (level_task rest_level (to_lower trader)) (reduce_by_level base m chain_id) s _
          (run-level_task (to_lower trader) s)

module _ (sdk : Sdk) (r : Redis) (rest_level : Text → Option ℤ) where
  open r use {Store}

  run-response_task :
      (p : SignaturePen) (o : ApiOrderSig) (chain_id : ℤ) (s : Store)
      → run r (response_task sdk r rest_level p o chain_id) s
        ≡ get_broker_order_signature_response sdk r p o chain_id s
  unfolding response_task get_broker_order_signature_response
  run-response_task p o chain_id s = stored_response (signed_order sdk p o chain_id)
    where
      stored_response :
          (m : Pen.Result ApiBrokerSignatureRes)
          → run r
              (elim m [
                | Pen.err e ↦ done (Pen.err e)
                | Pen.ok res ↦ store_task res.order res.order_id chain_id >>= λ _. done (Pen.ok res)
              ])
              s
            ≡ elim m [
              | Pen.err e ↦ (Pen.err e, s)
              | Pen.ok res ↦ (Pen.ok res, (pub_order r res.order res.order_id chain_id s).1)
            ]
      stored_response (Pen.err e) = refl
      stored_response (Pen.ok res) =
          run-bind r (store_task res.order res.order_id chain_id) (λ _. done (Pen.ok res)) s
          ∙ ap (λ q. (Pen.ok res, q.1)) (run-store_task r res.order res.order_id chain_id s)

  run-broker_fee_task :
      (a : App) (addr chain : Text) (s : Store)
      → run r (broker_fee_task sdk r rest_level a addr chain) s
        ≡ get_broker_fee sdk r rest_level a addr chain s
  unfolding broker_fee_task get_broker_fee
  run-broker_fee_task a addr chain s =
      run-done r
        (fee_task rest_level a.broker_fee_tbps a.broker_fee_lvls_tbps addr
          (query_chain sdk r rest_level chain))
        (fee_response sdk r rest_level) s _
        (run-fee_task r rest_level a.broker_fee_tbps a.broker_fee_lvls_tbps addr
          (query_chain sdk r rest_level chain) s)

  run-charged_task :
      (a : App) (req : ApiBrokerOrderSignatureReq) (c : Charge) (s : Store)
      → run r (charged_task sdk r rest_level a req c) s ≡ sign_with_fee sdk r rest_level a req c s
  unfolding charged_task sign_with_fee
  run-charged_task a req panics s = refl
  run-charged_task a req (charged base) s =
      run-done r
        (response_task sdk r rest_level a.pen (record (req.order) { broker_fee_tbps = base })
          req.chain_id)
        (signed_response sdk r rest_level) s _
        (run-response_task a.pen (record (req.order) { broker_fee_tbps = base }) req.chain_id s)

  abbrev asked_fee : App → ApiBrokerOrderSignatureReq → Prog Charge
  asked_fee a req =
      fee_task rest_level a.broker_fee_tbps a.broker_fee_lvls_tbps req.order.trader_addr
        req.chain_id

  abbrev run_checked : App → ApiBrokerOrderSignatureReq → Prog (Response ApiBrokerSignatureRes)
  run_checked a req = asked_fee a req >>= charged_task sdk r rest_level a req

  abbrev charged_with :
      App → ApiBrokerOrderSignatureReq → Store → Response ApiBrokerSignatureRes × Store
  charged_with a req s =
      let (c, s') =
        get_broker_fee_tbps r rest_level a.broker_fee_tbps a.broker_fee_lvls_tbps
          req.order.trader_addr req.chain_id s in
      sign_with_fee sdk r rest_level a req c s'

  run-checked_task :
      (a : App) (req : ApiBrokerOrderSignatureReq) (s : Store)
      → run r (checked_task sdk r rest_level a req) s ≡ sign_checked sdk r rest_level a req s
  unfolding checked_task sign_checked
  run-checked_task a req s =
      let short = ltb (length req.order.trader_addr) 8 || ltb (length req.order.broker_addr) 8 in
      sliced short
    where
      sliced :
          (short : Bool)
          → run r (if short then done crashed else run_checked a req) s
            ≡ (if short then (crashed, s) else charged_with a req s)
      sliced true = refl
      sliced false =
          run-bind r (asked_fee a req) (charged_task sdk r rest_level a req) s
          ∙ ap (λ q. run r (charged_task sdk r rest_level a req q.0) q.1)
              (run-fee_task r rest_level a.broker_fee_tbps a.broker_fee_lvls_tbps
                req.order.trader_addr req.chain_id s)
          ∙ run-charged_task a req _ _

  run-sign_task :
      (a : App) (req : Option ApiBrokerOrderSignatureReq) (s : Store)
      → run r (sign_task sdk r rest_level a req) s ≡ sign_order sdk r rest_level a req s
  unfolding sign_task sign_order
  run-sign_task a none s = refl
  run-sign_task a (some req) s = checked_response (with_broker_addr sdk r rest_level a req) _
    where
      checked_response :
          (asked : ApiBrokerOrderSignatureReq) (e : Option CheckError)
          → run r
              (elim e [
                | some f ↦ done (bad_request (check_failed f))
                | none ↦ checked_task sdk r rest_level a asked
              ])
              s
            ≡ elim e [
              | some f ↦ (bad_request (check_failed f), s)
              | none ↦ sign_checked sdk r rest_level a asked s
            ]
      checked_response asked none = run-checked_task a asked s
      checked_response asked (some f) = refl

  abbrev submitted_response : Option SubmitError → Response (Unit {0})
  submitted_response e = elim e [ none ↦ success tt | some f ↦ problem (submit_failed f) ]

  named_response :
      (e : Option SubmitError) (t : Store)
      → ◌≡◌ {A = Response (Unit {0}) × Store}
          (submitted_response e, t)
          (elim e [ none ↦ (success tt, t) | some f ↦ (problem (submit_failed f), t) ])
  named_response none t = refl
  named_response (some f) t = refl

  run-submitted_task :
      (ids : Option (List Text)) (s : Store)
      → run r (submitted_task sdk r rest_level ids) s ≡ orders_submitted sdk r rest_level ids s
  unfolding submitted_task orders_submitted
  run-submitted_task none s = refl
  run-submitted_task (some []) s = refl
  run-submitted_task (some (id ∷ ids)) s =
      run-done r (submission_task (bare (id ∷ ids))) submitted_response s _
        (run-submission_task r (bare (id ∷ ids)) s)
      ∙ named_response (order_submission r (bare (id ∷ ids)) s).0 _

  module _ (decoders : Decoders) (connect : List Text → Option sdk.Client) (now later : ℕ) (a : App)
      (q : HttpRequest) where
    run-handle_task :
        (e : Endpoint) (s : Store)
        → let (task, a') = handle_task sdk r rest_level decoders connect now later a q e in
          let (answer, t) = run r task s in
          (answer, a', t) ≡ handle sdk r rest_level decoders connect now later a q e s
    unfolding handle_task handle
    run-handle_task to_broker_address s = refl
    run-handle_task to_chain_config s = refl
    run-handle_task to_broker_fee s =
        ap (λ p. (p.0, a, p.1))
          (run-done r (broker_fee_task sdk r rest_level a q.addr q.chain) fee s _
            (run-broker_fee_task a q.addr q.chain s))
    run-handle_task to_sign_order s =
        ap (λ p. (p.0, a, p.1))
          (run-done r (sign_task sdk r rest_level a (decoders.order_req q.body)) order s _
            (run-sign_task a (decoders.order_req q.body) s))
    run-handle_task to_orders_submitted s =
        ap (λ p. (p.0, a, p.1))
          (run-done r (submitted_task sdk r rest_level (decoders.order_ids q.body)) submitted s _
            (run-submitted_task (decoders.order_ids q.body) s))
    run-handle_task to_sign_payment s = refl

    -- For every request, the commands of its handler, sent one after the other with nothing in
    -- between, give the answer, the service and the state of Redis that the handler as one
    -- function gives.
    pub run-serve_task :
        (s : Store)
        → let (task, a') = serve_task sdk r rest_level decoders connect now later a q in
          let (answer, t) = run r task s in
          (answer, a', t) ≡ serve sdk r rest_level decoders connect now later a q s
    unfolding serve_task serve
    run-serve_task s = elim (Option-cases (route q.method q.path)) [
      | inl missing ↦ rw (missing, serve_task, serve) refl
      | inr (e, found) ↦ rw (found, serve_task, serve) (run-handle_task e s)
    ]
