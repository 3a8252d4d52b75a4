-- ===== src/Api/Handlers.antt =====
-- The handlers of api/handlers.go.
pub mod Orders
pub mod Payment
pub mod Submitted
pub mod Shown
use d8x_broker_server.Base.{
  ℕ, Bool, true, false, not, ◌||◌, List, [], ◌∷◌, Option, none, some, map, ltb, if◌then◌else◌, ◌==◌,
  nat_eq, length, Map, lookup, ℤ, negsuc, int_eq,
}
use d8x_broker_server.Text.{Text, text_eq, codes, trim_prefix}
use d8x_broker_server.Decimal.{atoi}
use d8x_broker_server.Eth.{Address, zero_address}
use d8x_broker_server.Sdk.{Sdk, Wallet, BrokerPaySignatureReq}
use d8x_broker_server.Redis.{Redis}
use d8x_broker_server.Orders.{
  ChainConfig, ApiOrderSig, ApiBrokerOrderSignatureReq, CheckError, check_data, SubmitError,
  order_submission,
}
use d8x_broker_server.Pen.{
  SignaturePen, ApiBrokerSignatureRes, PenError, Result, ok, err, config_at,
  get_broker_order_signature_response, recover_payment_signer_addr,
  get_broker_payment_signature_response,
}
use d8x_broker_server.Fee.{Charge, charged, panics, get_broker_fee_tbps}
use d8x_broker_server.Api.{App}
use d8x_broker_server.Api.Token.{Approval, ApproveError, approved, failed, approve_token}

pub data Problem : Type 0 where
  wrong_arguments : Problem
  check_failed : CheckError → Problem
  pen_failed : PenError → Problem
  submit_failed : SubmitError → Problem
  wrong_signature executor_not_allowed approval_failed : Problem

-- `bad_request` is the status 400; `problem` is the status 200 with an error in the body;
-- `crashed` is a panic, by which the connection ends without a response.
pub data Response {ℓ} (A : Type ℓ) : Type ℓ where
  success : A → Response A
  bad_request : Problem → Response A
  problem : Problem → Response A
  crashed : Response A

-- GetChainConfig
unfoldable pub get_chain_config : App → List ChainConfig
get_chain_config a = map (λ (k, conf). conf) a.pen.chain_config

module _ (sdk : Sdk) where
  open sdk use {eth}

  -- BrokerAddress: the first wallet that the loop meets.
  abbrev pub first_address : Map ℤ Wallet → Text
  first_address [] = []
  first_address ((k, w) ∷ ws) = eth.hex w.address

  unfoldable pub broker_address : App → Text
  broker_address a = first_address a.pen.wallets

  -- findExecutor
  unfoldable pub contains : List Address → Address → Bool
  contains [] executor = false
  contains (addr ∷ more) executor = addr == executor || contains more executor

  unfoldable pub find_executor : SignaturePen → ℤ → Address → Bool
  unfolding contains
  find_executor p chain_id executor = contains (config_at sdk p chain_id).allowed_executors executor

  module _ (r : Redis) (rest_level : Text → Option ℤ) where
    open r use {Store}

    -- The chain of a fee request, -1 where there is none.
    unfoldable pub query_chain : Text → ℤ
    query_chain chain =
        if chain == []
        then negsuc 0
        else elim (atoi chain).1 [ none ↦ (atoi chain).0 | some e ↦ negsuc 0 ]

    abbrev pub fee_response : Charge → Response ℕ
    fee_response (charged fee) = success fee
    fee_response panics = crashed

    -- GetBrokerFee
    unfoldable pub get_broker_fee : App → Text → Text → Store → Response ℕ × Store
    unfolding query_chain
    get_broker_fee a addr chain s =
        let (c, s') =
          get_broker_fee_tbps r rest_level a.broker_fee_tbps a.broker_fee_lvls_tbps addr
            (query_chain chain) s in
        (fee_response c, s')

    -- The broker address of a request is replaced by the broker's own, unless it has 20 bytes.
    unfoldable pub with_broker_addr : App → ApiBrokerOrderSignatureReq → ApiBrokerOrderSignatureReq
    with_broker_addr a req =
        if req.order.broker_addr == eth.hex zero_address
          || not (length req.order.broker_addr == length zero_address)
        then record req { order = record (req.order) { broker_addr = broker_address a } }
        else req

    unfoldable pub signed_response : Result ApiBrokerSignatureRes → Response ApiBrokerSignatureRes
    signed_response (ok res) = success res
    signed_response (err e) = problem (pen_failed e)

    -- SignOrder behind the call of getBrokerFeeTbps.
    unfoldable pub sign_with_fee :
        App → ApiBrokerOrderSignatureReq → Charge → Store → Response ApiBrokerSignatureRes × Store
    unfolding signed_response
    sign_with_fee a req panics s = (crashed, s)
    sign_with_fee a req (charged fee) s =
        let (res, s') =
          get_broker_order_signature_response sdk r a.pen
            (record (req.order) { broker_fee_tbps = fee }) req.chain_id s in
        (signed_response res, s')

    -- SignOrder behind CheckData. The log line slices the first eight bytes off both addresses.
    unfoldable pub sign_checked :
        App → ApiBrokerOrderSignatureReq → Store → Response ApiBrokerSignatureRes × Store
    unfolding sign_with_fee
    sign_checked a req s =
        let (c, s') =
          get_broker_fee_tbps r rest_level a.broker_fee_tbps a.broker_fee_lvls_tbps
            req.order.trader_addr req.chain_id s in
        let signed = sign_with_fee a req c s' in
        if ltb (length req.order.trader_addr) 8 || ltb (length req.order.broker_addr) 8
        then (crashed, s)
        else signed

    -- SignOrder
    unfoldable pub sign_order :
        App → Option ApiBrokerOrderSignatureReq → Store → Response ApiBrokerSignatureRes × Store
    unfolding sign_checked
    sign_order a none s = (bad_request wrong_arguments, s)
    sign_order a (some req) s =
        let checked = with_broker_addr a req in
        elim (check_data eth checked) [
          | some e ↦ (bad_request (check_failed e), s)
          | none ↦ sign_checked a checked s
        ]

    -- OrdersSubmitted
    unfoldable pub orders_submitted : Option (List Text) → Store → Response (Unit {0}) × Store
    orders_submitted none s = (bad_request wrong_arguments, s)
    orders_submitted (some []) s = (bad_request wrong_arguments, s)
    orders_submitted (some (id ∷ ids)) s =
        let (e, s') = order_submission r (map (λ t. trim_prefix t (codes "0x")) (id ∷ ids)) s in
        elim e [ none ↦ (success tt, s') | some f ↦ (problem (submit_failed f), s') ]

  payment_response : Approval → Result Text → Response Text
  payment_response approved (ok sig) = success sig
  payment_response approved (err e) = problem (pen_failed e)
  payment_response (failed e) sig = problem approval_failed
  payment_response Approval.panics sig = crashed

  -- SignPayment behind the recovery of the signer: the two tests, the approval, and the signature.
  unfoldable pub sign_recovered :
      (List Text → Option sdk.Client)
      → App
      → ℕ
      → ℕ
      → BrokerPaySignatureReq
      → Address
      → Response Text × App
  unfolding payment_response find_executor
  sign_recovered connect a now later req addr =
      let chain_id = req.payment.chain_id in
      let (approval, ts, sent) =
        approve_token sdk connect a.pen now later chain_id req.payment.token a.token_approval_ts in
      if not (addr == req.payment.executor)
      then (problem wrong_signature, a)
      else if not (find_executor a.pen chain_id addr)
      then (problem executor_not_allowed, a)
      else (
        payment_response approval (get_broker_payment_signature_response sdk a.pen req),
        record a { token_approval_ts = ts },
      )

  -- SignPayment
  unfoldable pub sign_payment :
      (List Text → Option sdk.Client)
      → App
      → ℕ
      → ℕ
      → Option BrokerPaySignatureReq
      → Response Text × App
  unfolding sign_recovered
  sign_payment connect a now later none = (bad_request wrong_arguments, a)
  sign_payment connect a now later (some req) = elim (recover_payment_signer_addr sdk a.pen req) [
    | err e ↦ (problem (pen_failed e), a)
    | ok addr ↦ sign_recovered connect a now later req addr
  ]
