-- ===== src/Orders.antt =====
-- broker_types.go: the requests, the order as it is signed and stored, and the two operations on
-- Redis by which an order goes from the REST service to the websocket service.
pub mod Store
pub mod Submit
pub mod Announce
pub mod Outcome
use d8x_broker_server.Base.{
  ℕ, ◌≡◌, refl, Bool, true, false, ◌&&◌, ◌||◌, not, List, [], ◌∷◌, ◌++◌, Option, none, some, arith,
  leb, ◌==◌, if◌then◌else◌, nat_eq, ℤ, pos, negsuc, int_eq, length, Map, get_or, lookup,
}
use d8x_broker_server.Text.{Text, text_eq, codes}
use d8x_broker_server.Decimal.{itoa}
use d8x_broker_server.Eth.{Address, Eth, zero_address}
use d8x_broker_server.Redis.{Redis}
use d8x_broker_server.Redis.Documented.{Reply, ok, err, Fault}

pub record ChainConfig : Type 0 where
  pub chain_id : ℤ
  pub name : Text
  pub allowed_executors : List Address
  pub multi_pay_ctrct_addr : Address
  pub proxy_addr : Address

pub record ApiOrderSig : Type 0 where
  pub perpetual_id : ℤ
  pub broker_fee_tbps : ℕ
  pub broker_addr : Text
  pub trader_addr : Text
  pub deadline : ℕ
  pub flags : ℕ
  pub amount : Text
  pub limit_price : Text
  pub trigger_price : Text
  pub leverage_tdr : ℕ
  pub broker_signature : Text
  pub execution_timestamp : ℕ

pub record ApiBrokerOrderSignatureReq : Type 0 where
  pub order : ApiOrderSig
  pub chain_id : ℤ
  pub signature : Text

pub data CheckError : Type 0 where
  no_chain_id no_deadline bad_trader_addr bad_broker_addr no_perpetual_id : CheckError

module _ (eth : Eth) where
  -- A text is no address if it is the zero address or has another length than an address.
  unfoldable pub is_bad_addr : Text → Bool
  is_bad_addr a =
      let zero_addr = eth.hex zero_address in a == zero_addr || not (length a == length zero_addr)

  -- CheckData: the first of five tests that fails.
  unfoldable pub check_data : ApiBrokerOrderSignatureReq → Option CheckError
  unfolding is_bad_addr
  check_data req =
      if req.chain_id == pos 0
      then some no_chain_id
      else if leb req.order.deadline 0
      then some no_deadline
      else if is_bad_addr req.order.trader_addr
      then some bad_trader_addr
      else if is_bad_addr req.order.broker_addr
      then some bad_broker_addr
      else if req.order.perpetual_id == pos 0
      then some no_perpetual_id
      else none

abbrev pub channel_new_order : Text
channel_new_order = codes "new-order"

abbrev pub expiry_hdata_sec : ℕ
expiry_hdata_sec = 120

-- The fields that PubOrder writes.
unfoldable pub order_fields : ApiOrderSig → ℤ → Map Text Text
order_fields o chain_id =
    (codes "ChainId", itoa chain_id)
    ∷ (codes "PerpetualId", itoa o.perpetual_id)
    ∷ (codes "TraderAddr", o.trader_addr)
    ∷ (codes "Deadline", itoa (pos o.deadline))
    ∷ (codes "Flags", itoa (pos o.flags))
    ∷ (codes "FAmount", o.amount)
    ∷ (codes "FLimitPrice", o.limit_price)
    ∷ (codes "FTriggerPrice", o.trigger_price)
    ∷ (codes "ExecutionTimestamp", itoa (pos o.execution_timestamp))
    ∷ []

pub data SubmitError : Type 0 where
  could_not_get : Text → Fault → SubmitError
  could_not_find : Text → SubmitError
  publish_failed : Fault → SubmitError

-- The key of the stack of a perpetual's orders, which is the message on the channel and the
-- subscribers' topic too.
unfoldable pub stack_name : Map Text Text → Text
stack_name hm = get_or [] (codes "PerpetualId") hm ++ (b':' ∷ get_or [] (codes "ChainId") hm)

module _ (r : Redis) where
  open r use {Store, hset, expire, hgetall, lpush, publish}

  -- PubOrder: the error of HSET; that of EXPIRE is dropped.
  unfoldable pub pub_order : ApiOrderSig → Text → ℤ → Store → Option Fault × Store
  pub_order o order_id chain_id s =
      let (reply, s') = hset order_id (order_fields o chain_id) s in
      elim reply [ err e ↦ (some e, s') | ok _ ↦ (none, expire order_id expiry_hdata_sec s') ]

  -- LPUSH, whose error is dropped, and PUBLISH.
  unfoldable pub announce : Text → Text → Store → Option SubmitError × Store
  announce stack order_id s =
      let pushed = lpush stack order_id s in
      let (reply, s') = publish channel_new_order stack pushed.1 in
      elim reply [ err e ↦ (some (publish_failed e), s') | ok _ ↦ (none, s') ]

  -- The body of the loop of OrderSubmission, on the answer of HGETALL and with the call.
  unfoldable pub submit_found : Text → Reply (Map Text Text) → Store → Option SubmitError × Store
  unfolding announce
  submit_found order_id (err e) s = (some (could_not_get order_id e), s)
  submit_found order_id (ok []) s = (some (could_not_find order_id), s)
  submit_found order_id (ok (f ∷ fs)) s = announce (stack_name (f ∷ fs)) order_id s

  unfoldable pub submit_one : Text → Store → Option SubmitError × Store
  unfolding submit_found
  submit_one order_id s = let (reply, s') = hgetall order_id s in submit_found order_id reply s'

  -- OrderSubmission: the first error ends the loop.
  unfoldable pub order_submission : List Text → Store → Option SubmitError × Store
  unfolding submit_one
  order_submission [] s = (none, s)
  order_submission (id ∷ ids) s = elim (submit_one id s).0 [
    | some e ↦ (some e, (submit_one id s).1)
    | none ↦ order_submission ids (submit_one id s).1
  ]
