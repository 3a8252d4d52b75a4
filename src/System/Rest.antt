-- ===== src/System/Rest.antt =====
-- The REST service on a clean Redis: every request leaves it clean, and no request changes the pen.
use d8x_broker_server.Base.{
  ℕ, ◌≡◌, refl, sym, ◌∙◌, ap, subst, ◌⊎◌, inl, inr, List, [], ◌∷◌, Option, none, some, ℤ, arith,
  Option-cases,
}
use d8x_broker_server.Text.{Text, text_eq, to_lower}
use d8x_broker_server.Sdk.{Sdk, BrokerPaySignatureReq}
use d8x_broker_server.Redis.{Redis}
use d8x_broker_server.Redis.Documented.{Reply, ok, err, Fault, str, View, update}
use d8x_broker_server.Redis.Connected.{Connected, get-Does, set-Does}
use d8x_broker_server.Decimal.{itoa}
use d8x_broker_server.Orders.{ApiOrderSig, ApiBrokerOrderSignatureReq, check_data, order_submission}
use d8x_broker_server.Pen.{SignaturePen, ApiBrokerSignatureRes, Result}
use d8x_broker_server.Pen
use d8x_broker_server.Pen.Signing.{Signed, Answered, broker_order_response-Answered}
use d8x_broker_server.Fee.{
  FeeLevels, vip3_key, vip3_info_expiry_sec, fetch_level, get_vip3_level,
  get_reduced_broker_fee_tbps, get_broker_fee_tbps,
}
use d8x_broker_server.Api.{App}
use d8x_broker_server.Api.Handlers.{
  sign_order, orders_submitted, sign_payment, sign_recovered, with_broker_addr, get_broker_fee,
  query_chain,
}
use d8x_broker_server.Api.Handlers.Orders.{checked, fee, check_cases, answer, with_fee}
use d8x_broker_server.Api.Handlers.Submitted.{bare}
use d8x_broker_server.Api.Routes.{
  Endpoint, to_broker_address, to_chain_config, to_broker_fee, to_sign_order, to_orders_submitted,
  to_sign_payment, HttpRequest, Decoders, route, handle, serve,
}
use d8x_broker_server.Ws.Notify.Update.{Fits}
use d8x_broker_server.System.Clean.{
  HashesToBytes, IsClean, update-IsClean, Published-IsClean, Signed-IsId, IsClean-TakesHash,
}
use d8x_broker_server.System.Queue.{order_submission-IsClean}
use d8x_broker_server.System.Waiting.{
  IsCovered, update-IsCovered, Published-IsCovered, order_submission-IsCovered,
}

pub Reply-cases {ℓ} :
    {A : Type ℓ} (q : Reply A) → ((a : A) × (q ≡ ok a)) ⊎ ((f : Fault) × (q ≡ err f))
Reply-cases (ok a) = inl (a, refl)
Reply-cases (err f) = inr (f, refl)

-- The JSON decoder refuses a number that its field cannot hold.
abbrev pub DecodesFits : Decoders → Type 0
DecodesFits decoders =
    (body : Text) (req : ApiBrokerOrderSignatureReq)
    → decoders.order_req body ≡ some req
    → Fits req.order

pub charged-Fits : (o : ApiOrderSig) (x : ℕ) → Fits o → Fits (record o { broker_fee_tbps = x })
charged-Fits o x fits = record {
  deadline_fits = fits.deadline_fits;
  flags_fit = fits.flags_fit;
  execution_fits = fits.execution_fits;
}

pub signed-Fits :
    (sdk : Sdk) (pen : SignaturePen) (o : ApiOrderSig) (chain_id : ℤ) (res : ApiBrokerSignatureRes)
    → Signed sdk pen o chain_id res
    → Fits o
    → Fits res.order
signed-Fits sdk pen o chain_id res s fits = subst Fits (sym s.fields) (record {
  deadline_fits = fits.deadline_fits;
  flags_fit = fits.flags_fit;
  execution_fits = fits.execution_fits;
})

module _ (sdk : Sdk) (pen : SignaturePen) (r : Redis) (c : Connected r)
    (rest_level : Text → Option ℤ) (heard : ℕ) where
  open r use {Store, view, get, set, expire}

  -- What each key holds, and that a message waits for each stack.
  abbrev pub IsGood : View → Type 0
  IsGood v = IsClean sdk pen v × IsCovered heard v

  abbrev pub Clean : Store → Type 0
  Clean s = IsGood (view s)

  leveled-IsGood :
      (v : View) (trader l : Text)
      → IsGood v
      → IsGood (record v { key = update (vip3_key trader) (str l) v.key })
  leveled-IsGood v trader l (clean, covered) = (
    update-IsClean sdk pen v (vip3_key trader) (str l) clean (trader, refl),
    update-IsCovered heard v (vip3_key trader) (str l) refl covered,
  )

  fetch_level-Clean :
      (trader : Text) (s : Store) → Clean s → Clean (fetch_level r rest_level trader s).1
  unfolding fetch_level
  fetch_level-Clean trader s clean = elim (Option-cases (rest_level trader)) [
    | inl missing ↦ rw (missing, fetch_level) clean
    | inr (l, found) ↦
        let key = vip3_key trader in
        rw (found, fetch_level)
          (subst IsGood
            (sym (
              r.expire_keeps key vip3_info_expiry_sec (set key (itoa l) s).1 (omega arith)
              ∙ (set-Does r c key (itoa l) s).1))
            (leveled-IsGood (view s) trader (itoa l) clean))
  ]

  get_vip3_level-Clean :
      (trader : Text) (s : Store) → Clean s → Clean (get_vip3_level r rest_level trader s).1
  unfolding get_vip3_level
  get_vip3_level-Clean trader s clean =
      let key = vip3_key (to_lower trader) in
      let read : Clean (get key s).1 = subst IsGood (sym (get-Does r c key s).1) clean in
      elim (Reply-cases (get key s).0) [
        | inl (l, found) ↦ rw (found, get_vip3_level) read
        | inr (f, missing) ↦
            rw (missing, get_vip3_level) (fetch_level-Clean (to_lower trader) (get key s).1 read)
      ]

  pub get_broker_fee_tbps-Clean :
      (base : ℕ) (levels : Option FeeLevels) (trader : Text) (chain_id : ℤ) (s : Store)
      → Clean s
      → Clean (get_broker_fee_tbps r rest_level base levels trader chain_id s).1
  unfolding get_broker_fee_tbps get_reduced_broker_fee_tbps
  get_broker_fee_tbps-Clean base none trader chain_id s clean = clean
  get_broker_fee_tbps-Clean base (some m) trader chain_id s clean =
      get_vip3_level-Clean (to_lower trader) s clean

  get_broker_fee-Clean :
      (a : App) (addr chain : Text) (s : Store)
      → Clean s
      → Clean (get_broker_fee sdk r rest_level a addr chain s).1
  unfolding get_broker_fee
  get_broker_fee-Clean a addr chain s clean =
      get_broker_fee_tbps-Clean a.broker_fee_tbps a.broker_fee_lvls_tbps addr
        (query_chain sdk r rest_level chain) s clean

  Answered-Clean :
      HashesToBytes sdk
      → (o : ApiOrderSig) (chain_id : ℤ) (s : Store) (m : Result ApiBrokerSignatureRes × Store)
      → Fits o
      → Clean s
      → Answered sdk pen o chain_id r s m
      → Clean m.1
  Answered-Clean bytes o chain_id s (Pen.err e, t) fits clean same = subst Clean (sym same) clean
  Answered-Clean bytes o chain_id s (Pen.ok res, t) fits clean (signed, stored) =
      let published = stored (
        IsClean-TakesHash sdk pen (view s) res.order_id clean.0
          (Signed-IsId sdk pen bytes o chain_id res signed)) in
      (
        Published-IsClean sdk pen (view s) (view t) o chain_id res signed
            (signed-Fits sdk pen o chain_id res signed fits) published clean.0,
        Published-IsCovered heard (view s) (view t) res.order res.order_id chain_id published
            clean.1,
      )

  pub with_broker_addr-Fits :
      (a : App) (req : ApiBrokerOrderSignatureReq)
      → Fits req.order
      → Fits (with_broker_addr sdk r rest_level a req).order
  unfolding with_broker_addr
  with_broker_addr-Fits a req fits = ground arith

  -- A request changes nothing of the service but the approval times.
  pub sign_payment-pen :
      (connect : List Text → Option sdk.Client) (now later : ℕ) (a : App)
      (req : Option BrokerPaySignatureReq)
      → (sign_payment sdk connect a now later req).1.pen ≡ a.pen
  unfolding sign_payment sign_recovered
  sign_payment-pen connect now later a none = refl
  sign_payment-pen connect now later a (some req) = ground arith

module _ (sdk : Sdk) (r : Redis) (c : Connected r) (rest_level : Text → Option ℤ) (heard : ℕ)
    (a : App) where
  open r use {Store, view}

  abbrev pub Kept : Store → Type 0
  Kept s = Clean sdk a.pen r c rest_level heard s

  pub sign_order-Kept :
      HashesToBytes sdk
      → (req : ApiBrokerOrderSignatureReq) (s : Store) → Fits req.order
      → Kept s
      → Kept (sign_order sdk r rest_level a (some req) s).1
  sign_order-Kept bytes req s fits clean =
      let charge = fee sdk r c rest_level a req s in
      let checked_req = checked sdk r c rest_level a req s in
      let looked : Kept charge.1 =
        get_broker_fee_tbps-Clean sdk a.pen r c rest_level heard a.broker_fee_tbps
          a.broker_fee_lvls_tbps checked_req.order.trader_addr checked_req.chain_id s clean in
      elim (check_cases sdk r c rest_level a req s (check_data sdk.eth checked_req) refl) [
        | inl (e, _, q) ↦ subst Kept (sym (ap (λ p. p.1) q)) clean
        | inr (inl (_, _, q)) ↦ subst Kept (sym (ap (λ p. p.1) q)) looked
        | inr (inr (_, (x, _, q))) ↦ subst Kept (sym (ap (λ p. p.1) q)) (
            Answered-Clean sdk a.pen r c rest_level heard bytes
              (with_fee sdk r c rest_level a req s x) checked_req.chain_id charge.1
              (answer sdk r c rest_level a req s x)
              (charged-Fits checked_req.order x
                (with_broker_addr-Fits sdk a.pen r c rest_level heard a req fits))
              looked
              (broker_order_response-Answered sdk r c a.pen (with_fee sdk r c rest_level a req s x)
                checked_req.chain_id charge.1))
      ]

  orders_submitted-Kept :
      (ids : Option (List Text)) (s : Store)
      → Kept s
      → Kept (orders_submitted sdk r rest_level ids s).1
  unfolding orders_submitted
  orders_submitted-Kept none s clean = clean
  orders_submitted-Kept (some []) s clean = clean
  orders_submitted-Kept (some (id ∷ ids)) s clean =
      let after : Kept (order_submission r (bare (id ∷ ids)) s).1 = (
        order_submission-IsClean sdk a.pen r c (bare (id ∷ ids)) s clean.0,
        order_submission-IsCovered r c heard (bare (id ∷ ids)) s clean.1,
      ) in
      elim (Option-cases (order_submission r (bare (id ∷ ids)) s).0) [
        | inl done ↦ rw (done, orders_submitted) after
        | inr (e, failed) ↦ rw (failed, orders_submitted) after
      ]

  module _ (decoders : Decoders) (bytes : HashesToBytes sdk)
      (connect : List Text → Option sdk.Client) (now later : ℕ) where
    handle-Kept :
        DecodesFits decoders
        → (q : HttpRequest) (e : Endpoint) (s : Store) → Kept s
        → let after = handle sdk r rest_level decoders connect now later a q e s in
          Kept after.2 × (after.1.pen ≡ a.pen)
    unfolding handle
    handle-Kept fits q to_broker_address s clean = (clean, refl)
    handle-Kept fits q to_chain_config s clean = (clean, refl)
    handle-Kept fits q to_broker_fee s clean =
        (get_broker_fee-Clean sdk a.pen r c rest_level heard a q.addr q.chain s clean, refl)
    handle-Kept fits q to_sign_order s clean =
        (decoded_order (decoders.order_req q.body) refl, refl)
      where
        decoded_order :
            (o : Option ApiBrokerOrderSignatureReq)
            → decoders.order_req q.body ≡ o
            → Kept (sign_order sdk r rest_level a o s).1
        decoded_order none e = unfold sign_order in clean
        decoded_order (some req) e = sign_order-Kept bytes req s (fits q.body req e) clean
    handle-Kept fits q to_orders_submitted s clean =
        (orders_submitted-Kept (decoders.order_ids q.body) s clean, refl)
    handle-Kept fits q to_sign_payment s clean = (
      clean,
      sign_payment-pen sdk a.pen r c rest_level heard connect now later a
          (decoders.payment_req q.body),
    )

    pub serve-Kept :
        DecodesFits decoders
        → (q : HttpRequest) (s : Store) → Kept s
        → let after = serve sdk r rest_level decoders connect now later a q s in
          Kept after.2 × (after.1.pen ≡ a.pen)
    unfolding serve
    serve-Kept fits q s clean = elim (Option-cases (route q.method q.path)) [
      | inl missing ↦ rw (missing, serve) (clean, refl)
      | inr (e, found) ↦ rw (found, serve) (handle-Kept fits q e s clean)
    ]
