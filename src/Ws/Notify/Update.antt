-- ===== src/Ws/Notify/Update.antt =====
-- What handleOrderId of executorws/server.go reads back of what PubOrder of utils/broker_types.go
-- has written.
use d8x_broker_server.Base.{
  ℕ, ◌^◌, ◌<◌, ◌≡◌, ap, ◌∙◌, [], none, some, arith, Map, lookup, ℤ, pos, uint32, residue,
}
use d8x_broker_server.Text.{Text, text_eq, codes}
use d8x_broker_server.Decimal.{itoa, atoi}
use d8x_broker_server.Decimal.Print.{atoi-itoa}
use d8x_broker_server.Orders.{ApiOrderSig}
use d8x_broker_server.Orders.Store.{Holds}
use d8x_broker_server.Ws.Subs.{WsOrderResp}
use d8x_broker_server.Ws.Notify.{number, order_resp}

-- The `uint32` fields of an order.
pub record Fits (o : ApiOrderSig) : Type 0 where
  pub deadline_fits : o.deadline < 2 ^ 32
  pub flags_fit : o.flags < 2 ^ 32
  pub execution_fits : o.execution_timestamp < 2 ^ 32

-- The order as a subscriber reads it.
abbrev pub shown : Text → ApiOrderSig → WsOrderResp
shown id o = record {
  order_id = id;
  trader_addr = o.trader_addr;
  deadline = o.deadline;
  flags = o.flags;
  amount = o.amount;
  limit_price = o.limit_price;
  trigger_price = o.trigger_price;
  execution_timestamp = o.execution_timestamp;
}

uint32-pos : (n : ℕ) → n < 2 ^ 32 → uint32 (pos n) ≡ n
unfolding residue
uint32-pos n h = omega arith

number-itoa :
    (field : Text) (m : Map Text Text) (n : ℕ)
    → lookup field m ≡ some (itoa (pos n))
    → n < 2 ^ 32
    → number field m ≡ n
unfolding number
number-itoa field m n e h =
    ap (λ o. uint32 (atoi (elim o [ none ↦ [] | some v ↦ v ])).0) e
    ∙ ap (λ p. uint32 p.0) (atoi-itoa (pos n) (omega arith))
    ∙ uint32-pos n h

-- From a hash that holds the fields of an order as PubOrder prints them, handleOrderId reads back
-- the trader, the amounts, the prices, and the deadline, flags and execution time, provided these
-- three fit in 32 bits.
pub order_resp-Holds :
    (id : Text) (m : Map Text Text) (o : ApiOrderSig) (chain_id : ℤ)
    → Holds m o chain_id
    → Fits o
    → order_resp id m ≡ shown id o
unfolding order_resp
order_resp-Holds id m o chain_id h f = ground (
  arith,
  h.trader,
  h.amounts,
  h.limits,
  h.triggers,
  number-itoa (codes "Deadline") m o.deadline h.until f.deadline_fits,
  number-itoa (codes "Flags") m o.flags h.flag_bits f.flags_fit,
  number-itoa (codes "ExecutionTimestamp") m o.execution_timestamp h.executes f.execution_fits,
)
