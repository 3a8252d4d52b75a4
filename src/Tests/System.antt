-- ===== src/Tests/System.antt =====
-- A run of the system: an order is signed, a client subscribes, and the order is announced.
use d8x_broker_server.Base.{
  ◌≡◌, ◌≢◌, refl, map, subst, List, [], ◌∷◌, none, some, true, Option, pos, lookup, insert, int_eq,
  arith, All,
}
use d8x_broker_server.Text.{
  Text, text_eq, text_beq, codes, to_lower, trim_space, cut_before, cut_after,
}
use d8x_broker_server.Redis.Documented.{View, put_all}
use d8x_broker_server.Redis.Memory.{memory, start}
use d8x_broker_server.Redis.Connected.{memory-Connected}
use d8x_broker_server.Orders.{ApiBrokerOrderSignatureReq}
use d8x_broker_server.Decimal.{itoa, atoi}
use d8x_broker_server.Hex.{encode, decode}
use d8x_broker_server.Eth.Plain.{print, read}
use d8x_broker_server.Orders.{
  check_data, order_submission, submit_one, submit_found, announce, pub_order, order_fields,
  stack_name,
}
use d8x_broker_server.Orders.Submit.{stored, items}
use d8x_broker_server.Pen.{
  get_broker_order_signature_response, signed_order, create_order_digest, big_int, has_key,
}
use d8x_broker_server.Fee.{
  get_broker_fee_tbps, get_reduced_broker_fee_tbps, reduce_by_level, get_vip3_level, fetch_level,
  vip3_key,
}
use d8x_broker_server.Api.Handlers.{
  sign_order, orders_submitted, with_broker_addr, broker_address, sign_checked, sign_with_fee,
  signed_response,
}
use d8x_broker_server.Ws.Topic.{is_valid_order_topic}
use d8x_broker_server.Ws.Subs.{ClientMessage, new_server, handle_request, subscribe_orders}
use d8x_broker_server.Ws.Hub.{
  Session, Hub, HubStep, new_hub, handle_ws, read_message, opened, message, later, none_yet,
}
use d8x_broker_server.Ws.Hub.Live.{IsLive, HubReach-IsLive}
use d8x_broker_server.Ws.Notify.{Write, handle_new_order, handle_order_id, notify, broadcast}
use d8x_broker_server.Ws.Notify.Update.{Fits}
use d8x_broker_server.Api.Routes.{HttpRequest, Decoders, post, route, handle, serve}
use d8x_broker_server.System.Clean.{HashesToBytes}
use d8x_broker_server.System.Rest.{DecodesFits}
use d8x_broker_server.System.Reach.{System, Reach, rest, ws, after_rest}
use d8x_broker_server.System.Reach.Sound.{IsSound, IsDue, Reach-IsSound, delivered-IsDue}
use d8x_broker_server.System.Reach.Delivery.{
  IsDelivered, Delivers, stored_order-Delivers, signed_order-IsDelivered,
}
use d8x_broker_server.Tests.Data.{toy, connect, app, config, sign_req, pay_req, answer}

abbrev pub decoders : Decoders
decoders = record {
  order_req = λ body. some sign_req;
  order_ids = λ body. some (codes "abcd" ∷ []);
  payment_req = λ body. some pay_req;
}

abbrev pub request : Text → HttpRequest
request path = record { method = post; path = path; addr = []; chain = []; body = [] }

pub two_bytes : HashesToBytes toy
two_bytes s = (omega arith, (omega arith, tt))

pub decodes_fits : DecodesFits decoders
decodes_fits body req e =
    let same : sign_req ≡ req = cc e in
    subst (λ (q : ApiBrokerOrderSignatureReq). Fits q.order) same
      (record {
        deadline_fits = omega arith;
        flags_fit = omega arith;
        execution_fits = omega arith;
      })

abbrev pub Reached : System View → Type 0
Reached = Reach toy (memory true) (λ t. some (pos 1)) decoders config app

abbrev pub served : Text → System View → System View
served path =
    after_rest toy (memory true) (λ t. some (pos 1)) decoders config connect 0 0 (request path)

abbrev pub at_start : System View
at_start = record { app = app; store = start; hub = new_hub; heard = 0 }

abbrev pub signed : System View
signed = served (codes "/sign-order") at_start

at_start-Reached : Reached at_start
at_start-Reached = Reach.start start (λ k. refl)

signed-Reached : Reached signed
signed-Reached = Reach.next at_start-Reached (rest connect 0 0 (request (codes "/sign-order")))

Reach-IsSound_example :
    IsSound toy
      (memory true)
      memory-Connected
      (λ t. some (pos 1))
      decoders
      config
      app
      two_bytes
      signed
Reach-IsSound_example =
    Reach-IsSound toy (memory true) memory-Connected (λ t. some (pos 1)) decoders config app
      two_bytes decodes_fits signed-Reached

-- The client of connection 7 subscribes to the topic of the order.
abbrev pub topic : Text
topic = codes "100000:1101"

abbrev pub subscribe : ClientMessage
subscribe = record { type = codes "subscribe"; topic = topic }

abbrev pub session : Session
session = record { conn = 7; reading = true; pinging = true }

abbrev pub one_open : Hub
one_open = handle_ws 7 (codes "ann") new_hub

pub one_open-HubStep : HubStep config new_hub one_open
unfolding new_hub lookup
one_open-HubStep = opened 7 (codes "ann") refl

abbrev pub one_subscribed : Hub
one_subscribed = read_message config (codes "ann") session (some subscribe) one_open

pub one_subscribed-HubStep : HubStep config one_open one_subscribed
unfolding new_hub handle_ws lookup insert text_beq
one_subscribed-HubStep = message (codes "ann") session (some subscribe) refl refl

abbrev pub subscribed : System View
subscribed = record signed { hub = one_subscribed }

subscribed-Reached : Reached subscribed
subscribed-Reached =
    Reach.next (Reach.next signed-Reached (ws one_open one_open-HubStep))
      (ws one_subscribed one_subscribed-HubStep)

-- The id of the order is announced.
abbrev pub announced : System View
announced = served (codes "/orders-submitted") subscribed

pub announced-Reached : Reached announced
announced-Reached =
    Reach.next subscribed-Reached (rest connect 0 0 (request (codes "/orders-submitted")))

has_order : stored (announced.store.key (codes "abcd")) ≢ []
unfolding route handle serve sign_order print read encode decode text_beq to_lower lookup insert
    get_broker_fee_tbps get_reduced_broker_fee_tbps reduce_by_level get_vip3_level fetch_level
    check_data with_broker_addr broker_address sign_checked sign_with_fee signed_response
    get_broker_order_signature_response signed_order create_order_digest big_int has_key
    orders_submitted order_submission submit_one submit_found announce pub_order order_fields
    put_all itoa stack_name vip3_key
has_order = ground arith

stored_order-Delivers_example :
    Delivers toy
      (memory true)
      memory-Connected
      (λ t. some (pos 1))
      decoders
      config
      app
      two_bytes
      announced
      (codes "abcd")
stored_order-Delivers_example =
    stored_order-Delivers toy (memory true) memory-Connected (λ t. some (pos 1)) decoders config app
      two_bytes decodes_fits announced-Reached (codes "abcd") has_order

signed_order-IsDelivered_example :
    IsDelivered toy
      (memory true)
      memory-Connected
      (λ t. some (pos 1))
      two_bytes
      (answer (codes "signature") 100).order
      (codes "abcd")
      (pos 1101)
      signed.store
      at_start.hub.subs
      2
unfolding route handle serve sign_order print read encode decode text_beq to_lower lookup insert
    get_broker_fee_tbps get_reduced_broker_fee_tbps reduce_by_level get_vip3_level fetch_level
    check_data with_broker_addr broker_address sign_checked sign_with_fee signed_response
    get_broker_order_signature_response signed_order create_order_digest big_int has_key
    orders_submitted order_submission submit_one submit_found announce pub_order order_fields
    put_all itoa stack_name vip3_key
signed_order-IsDelivered_example =
    signed_order-IsDelivered toy (memory true) memory-Connected (λ t. some (pos 1)) decoders config
      app two_bytes decodes_fits at_start-Reached [] sign_req (answer (codes "signature") 100) 2
      refl refl (omega arith)

-- A run of handleNewOrder behind the announcement.
abbrev run : Option (List Write × View)
run = handle_new_order (memory true) announced.hub.subs 2 topic announced.store

abbrev writes : List Write
writes = elim run [ none ↦ [] | some p ↦ p.0 ]

abbrev drained : View
drained = elim run [ none ↦ start | some p ↦ p.1 ]

one_write : map (λ w. w.0) writes ≡ 7 ∷ []
unfolding route handle serve sign_order print read encode decode text_beq to_lower lookup insert
    get_broker_fee_tbps get_reduced_broker_fee_tbps reduce_by_level get_vip3_level fetch_level
    check_data with_broker_addr broker_address sign_checked sign_with_fee signed_response
    get_broker_order_signature_response signed_order create_order_digest big_int has_key
    orders_submitted order_submission submit_one submit_found announce pub_order order_fields
    put_all itoa stack_name vip3_key handle_new_order handle_order_id notify broadcast new_hub
    handle_ws read_message handle_request subscribe_orders is_valid_order_topic trim_space
    cut_before cut_after atoi new_server
one_write = refl

delivered-IsDue_example :
    All
      (IsDue toy
        (memory true)
        memory-Connected
        (λ t. some (pos 1))
        decoders
        config
        app
        two_bytes
        announced
        topic)
      writes
    × (items (drained.key topic) ≡ [])
unfolding route handle serve sign_order print read encode decode text_beq to_lower lookup insert
    get_broker_fee_tbps get_reduced_broker_fee_tbps reduce_by_level get_vip3_level fetch_level
    check_data with_broker_addr broker_address sign_checked sign_with_fee signed_response
    get_broker_order_signature_response signed_order create_order_digest big_int has_key
    orders_submitted order_submission submit_one submit_found announce pub_order order_fields
    put_all itoa stack_name vip3_key handle_new_order handle_order_id notify
delivered-IsDue_example =
    delivered-IsDue toy (memory true) memory-Connected (λ t. some (pos 1)) decoders config app
      two_bytes decodes_fits announced-Reached 2 topic writes drained refl

HubReach-IsLive_example : IsLive config one_subscribed
HubReach-IsLive_example =
    HubReach-IsLive config (later (later none_yet one_open-HubStep) one_subscribed-HubStep)
