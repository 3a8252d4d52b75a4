-- ===== src/Tests/Ws.antt =====
-- Runs of the websocket service and of the way an order takes to it.
use d8x_broker_server.Base.{
  some, ◌≡◌, ◌≢◌, ◌<◌, ◌++◌, ◌↔◌, refl, List, [], ◌∷◌, none, true, ℤ, pos, lookup, insert, length,
  int_eq, arith,
}
use d8x_broker_server.Text.{Text, text_eq, text_beq, codes, cut_before, cut_after}
use d8x_broker_server.Decimal.{itoa, atoi}
use d8x_broker_server.Redis.Documented.{View, put_all}
use d8x_broker_server.Redis.Memory.{memory, start}
use d8x_broker_server.Redis.Connected.{memory-Connected}
use d8x_broker_server.Eth.Plain.{plain}
use d8x_broker_server.Orders.{order_fields, pub_order, order_submission, check_data, stack_name}
use d8x_broker_server.Orders.Store.{pub_order-Published, IsAddr, check_data-none}
use d8x_broker_server.Orders.Submit.{stored, items}
use d8x_broker_server.Orders.Outcome.{Outcome, order_submission-Outcome}
use d8x_broker_server.Ws.Topic.{is_valid_order_topic}
use d8x_broker_server.Ws.Topic.Accepts.{
  Parts, Valid, is_valid_order_topic_iff, leading_zero_unserved,
}
use d8x_broker_server.Ws.Subs.{ClientMessage, new_server, Subscriptions}
use d8x_broker_server.Ws.Subs.Table.{
  Event, message, gone, run, run_table, Agrees, new_server-Shows, run-Agrees,
}
use d8x_broker_server.Ws.Notify.{order_resp, handle_new_order}
use d8x_broker_server.Ws.Notify.Update.{Fits, shown, order_resp-Holds}
use d8x_broker_server.Ws.Notify.Drain.{Drained, handle_new_order-Drained}
use d8x_broker_server.Ws.Notify.Journey.{order_topic}
use d8x_broker_server.Tests.Data.{config, order, sign_req}

abbrev topic : Text
topic = codes "100000:1101"

abbrev id : Text
id = codes "abcd"

-- Two clients under one topic.
abbrev subs : Subscriptions
subs = (topic, (codes "ann", 1) ∷ (codes "bob", 2) ∷ []) ∷ []

-- One order is stored.
abbrev with_order : View
with_order = (pub_order (memory true) order id (pos 1101) start).1

-- The order is stored and announced.
abbrev waiting : View
waiting = (order_submission (memory true) (id ∷ []) with_order).1

order-Fits : Fits order
order-Fits = record {
  deadline_fits = omega arith;
  flags_fit = omega arith;
  execution_fits = omega arith;
}

topic-ne-id : order_topic order (pos 1101) ≢ id
unfolding itoa
topic-ne-id = ground arith

one_waits : length (items (waiting.key topic)) < 2
unfolding order_submission pub_order order_fields put_all insert lookup text_beq itoa stack_name
one_waits = omega arith

has_order : stored (with_order.key id) ≢ []
unfolding order_submission pub_order order_fields put_all insert lookup text_beq itoa
has_order = ground arith

topic-valid : is_valid_order_topic config topic ≡ true
unfolding is_valid_order_topic atoi cut_before cut_after
topic-valid = refl

handle_new_order-Drained_example :
    Drained {S = View}
      (λ v. v)
      subs
      topic
      waiting
      (handle_new_order (memory true) subs 2 topic waiting)
handle_new_order-Drained_example =
    handle_new_order-Drained (memory true) memory-Connected subs 2 topic waiting one_waits

order_submission-Outcome_example :
    Outcome with_order
      (id ∷ codes "ef" ∷ [])
      (order_submission (memory true) (id ∷ codes "ef" ∷ []) with_order).0
      (order_submission (memory true) (id ∷ codes "ef" ∷ []) with_order).1
order_submission-Outcome_example =
    order_submission-Outcome (memory true) memory-Connected (id ∷ codes "ef" ∷ []) with_order

check_data-none_example : (check_data plain sign_req ≡ none) ↔ (
    (sign_req.chain_id ≢ pos 0)
    × (0 < sign_req.order.deadline)
    × IsAddr plain sign_req.order.trader_addr
    × IsAddr plain sign_req.order.broker_addr
    × (sign_req.order.perpetual_id ≢ pos 0))
check_data-none_example = check_data-none plain sign_req

is_valid_order_topic_iff_example :
    (is_valid_order_topic config topic ≡ true)
    ↔ ((p : Parts topic) × Valid config p.perpetual p.chain)
is_valid_order_topic_iff_example = is_valid_order_topic_iff config topic

leading_zero_unserved_example :
    (is_valid_order_topic config (codes "0100000:1101") ≡ true)
    × ((perpetual chain : ℤ)
        → perpetual ≢ pos 0
        → itoa perpetual ++ (b':' ∷ itoa chain) ≢ codes "0100000:1101")
leading_zero_unserved_example = leading_zero_unserved config topic topic-valid

order_resp-Holds_example : order_resp id (stored (with_order.key id)) ≡ shown id order
order_resp-Holds_example =
    order_resp-Holds id (stored (with_order.key id)) order (pos 1101)
      (pub_order-Published (memory true) memory-Connected order id (pos 1101) start tt).1.holds
      order-Fits

abbrev hello : ClientMessage
hello = record { type = codes "Subscribe"; topic = topic }

-- A client subscribes twice, another one once, and the first one goes.
abbrev events : List Event
events =
    message 1 (codes "ann") (some hello)
    ∷ message 1 (codes "ann") (some hello)
    ∷ message 2 (codes "bob") (some hello)
    ∷ gone (codes "ann")
    ∷ []

run-Agrees_example : Agrees (run config events new_server) (run_table config events (λ t id. none))
run-Agrees_example = run-Agrees config events new_server (λ t id. none) new_server-Shows
