-- ===== src/Ws/Subs.antt =====
-- The subscriptions of executorws/server.go: a map from topics to clients, each client with its
-- connection. A connection is a number that stands for the pointer. Handlers run one after the
-- other here; the source starts one goroutine for each connection and takes no lock.
pub mod Requests
pub mod Invariant
pub mod Table
use d8x_broker_server.Base.{
  ℕ, ◌≡◌, refl, Bool, true, false, List, [], ◌∷◌, ◌++◌, Option, none, some, ◌==◌, if◌then◌else◌,
  Map, lookup, insert, delete, ℤ,
}
use d8x_broker_server.Text.{Text, text_eq, codes, to_lower, trim_space}
use d8x_broker_server.Orders.{ChainConfig}
use d8x_broker_server.Ws.Topic.{is_valid_order_topic}

abbrev pub Clients : Type 0
Clients = Map Text ℕ

abbrev pub Subscriptions : Type 0
Subscriptions = Map Text Clients

pub record ClientMessage : Type 0 where
  pub type : Text
  pub topic : Text

-- What a client is sent about a new order.
pub record WsOrderResp : Type 0 where
  pub order_id : Text
  pub trader_addr : Text
  pub deadline : ℕ
  pub flags : ℕ
  pub amount : Text
  pub limit_price : Text
  pub trigger_price : Text
  pub execution_timestamp : ℕ

-- The values that the field `Data` takes.
pub data Payload : Type 0 where
  ack : Payload
  error : Text → Payload
  update : WsOrderResp → Payload

-- A response before it is marshalled.
pub record ServerResponse : Type 0 where
  pub type : Text
  pub topic : Text
  pub body : Payload

abbrev pub new_order_topic : Text
new_order_topic = codes "orders"

unfoldable pub new_server : Subscriptions
new_server = (new_order_topic, []) ∷ []

-- RemoveClient: the client is deleted from the map of each topic.
unfoldable pub remove_client : Text → Subscriptions → Subscriptions
remove_client client_id [] = []
remove_client client_id ((topic, clients) ∷ subs) =
    (topic, delete client_id clients) ∷ remove_client client_id subs

unfoldable pub ack_sub : Text → ServerResponse
ack_sub topic = record { type = codes "subscribe"; topic = topic; body = ack }

unfoldable pub error_response : Text → Text → Text → ServerResponse
error_response req_type req_topic msg = record {
  type = req_type;
  topic = req_topic;
  body = error msg;
}

-- The topic is known: its clients are at hand.
pub subscribe_known : ℕ → Text → Text → Clients → Subscriptions → ServerResponse × Subscriptions
unfolding ack_sub error_response
subscribe_known conn client_id topic clients subs = elim (lookup client_id clients) [
  | some _ ↦ (error_response (codes "subscribe") topic (codes "client already subscribed"), subs)
  | none ↦ (ack_sub topic, insert topic (insert client_id conn clients) subs)
]

pub subscribe_new : ℕ → Text → Text → Subscriptions → ServerResponse × Subscriptions
unfolding ack_sub
subscribe_new conn client_id topic subs =
    (ack_sub topic, insert topic (insert client_id conn []) subs)

unfoldable pub subscribe_orders :
    Map ℤ ChainConfig → ℕ → Text → Text → Subscriptions → ServerResponse × Subscriptions
unfolding subscribe_known subscribe_new error_response
subscribe_orders config conn client_id topic subs =
    if is_valid_order_topic config topic
    then elim (lookup topic subs) [
      | some clients ↦ subscribe_known conn client_id topic clients subs
      | none ↦ subscribe_new conn client_id topic subs
    ]
    else (error_response (codes "subscribe") topic (codes "usage: perpetualId:chainId"), subs)

unfoldable pub unsubscribe_orders : Text → Text → Subscriptions → Subscriptions
unsubscribe_orders client_id topic subs = elim (lookup topic subs) [
  | some clients ↦ insert topic (delete client_id clients) subs
  | none ↦ subs
]

-- HandleRequest, on what json.Unmarshal makes of the message: the responses that are sent on the
-- connection, and the new subscriptions. A message that does not parse, or of another type, is
-- ignored.
unfoldable pub handle_request :
    Map ℤ ChainConfig
    → ℕ
    → Text
    → Option ClientMessage
    → Subscriptions
    → List ServerResponse × Subscriptions
handle_request config conn client_id none subs = ([], subs)
handle_request config conn client_id (some m) subs =
    let req_topic = trim_space (to_lower m.topic) in
    let req_type = trim_space (to_lower m.type) in
    let (msg, subs') = subscribe_orders config conn client_id req_topic subs in
    if req_type == codes "subscribe"
    then (msg ∷ [], subs')
    else if req_type == codes "unsubscribe"
    then ([], unsubscribe_orders client_id req_topic subs)
    else ([], subs)
