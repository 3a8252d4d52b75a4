-- ===== src/Ws/Notify.antt =====
-- handleNewOrder and handleOrderId of executorws/server.go: the ids on the stack of a topic are
-- popped one after the other, and the order of each is sent to the subscribers of the topic. What is
-- sent is the list of the writes, connection and message; the source makes those of one order in
-- goroutines that it waits for.
pub mod Update
pub mod Drain
pub mod Journey
pub mod Send
use d8x_broker_server.Base.{
  ℕ, zero, suc, ◌≡◌, List, [], ◌∷◌, ◌++◌, map, Option, none, some, Map, lookup, get_or, ℤ, uint32,
}
use d8x_broker_server.Text.{Text, text_eq, codes}
use d8x_broker_server.Decimal.{atoi}
use d8x_broker_server.Redis.{Redis}
use d8x_broker_server.Redis.Documented.{Reply, ok, err}
use d8x_broker_server.Ws.Subs.{Clients, Subscriptions, WsOrderResp, update, ServerResponse}

abbrev pub Write : Type 0
Write = ℕ × ServerResponse

-- A number of a hash; the error of Atoi is dropped.
unfoldable pub number : Text → Map Text Text → ℕ
number field m = uint32 (atoi (get_or [] field m)).0

unfoldable pub order_resp : Text → Map Text Text → WsOrderResp
order_resp order_id m = record {
  order_id = order_id;
  trader_addr = get_or [] (codes "TraderAddr") m;
  deadline = number (codes "Deadline") m;
  flags = number (codes "Flags") m;
  amount = get_or [] (codes "FAmount") m;
  limit_price = get_or [] (codes "FLimitPrice") m;
  trigger_price = get_or [] (codes "FTriggerPrice") m;
  execution_timestamp = number (codes "ExecutionTimestamp") m;
}

unfoldable pub update_message : Text → WsOrderResp → ServerResponse
update_message topic o = record { type = codes "update"; topic = topic; body = update o }

-- The loop over `server.Subscriptions[topic]`, which is empty for an unknown topic.
unfoldable pub broadcast : Clients → ServerResponse → List Write
broadcast clients msg = map (λ (k, conn). (conn, msg)) clients

-- What is sent for an answer of HGETALL.
unfoldable pub notify : Subscriptions → Text → Text → Reply (Map Text Text) → List Write
notify subs order_id topic (err e) = []
notify subs order_id topic (ok []) = []
notify subs order_id topic (ok (f ∷ fs)) =
    broadcast (get_or [] topic subs) (update_message topic (order_resp order_id (f ∷ fs)))

module _ (r : Redis) (subs : Subscriptions) where
  open r use {Store, hgetall, lpop}

  unfoldable pub handle_order_id : Text → Text → Store → List Write × Store
  unfolding notify
  handle_order_id order_id topic s =
      let (reply, s') = hgetall order_id s in (notify subs order_id topic reply, s')

  -- The loop of handleNewOrder ends at the first error of LPOP, the missing key included. The fuel
  -- is the number of rounds that are allowed; `none` means that it ran out.
  unfoldable pub handle_new_order : ℕ → Text → Store → Option (List Write × Store)
  unfolding handle_order_id
  handle_new_order zero topic s = none
  handle_new_order (suc fuel) topic s = elim (lpop topic s).0 [
    | err e ↦ some ([], (lpop topic s).1)
    | ok order_id ↦
        let (writes, s') = handle_order_id order_id topic (lpop topic s).1 in
        elim (handle_new_order fuel topic s') [
          | none ↦ none
          | some (more, t) ↦ some (writes ++ more, t)
        ]
  ]
