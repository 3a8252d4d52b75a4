-- ===== src/System/Reach.antt =====
-- The system: the REST service, the websocket service and Redis, in any interleaving of whole
-- handlers. The environment sends requests and messages, and lets keys expire.
pub mod Sound
pub mod Flow
pub mod Delivery
use d8x_broker_server.Base.{ℕ, suc, length, get_elem?, ◌≡◌, List, Option, some, Map, ℤ}
use d8x_broker_server.Text.{Text, text_eq}
use d8x_broker_server.Sdk.{Sdk}
use d8x_broker_server.Redis.{Redis}
use d8x_broker_server.Redis.Documented.{View, absent, update}
use d8x_broker_server.Orders.{ChainConfig, channel_new_order}
use d8x_broker_server.Api.{App}
use d8x_broker_server.Api.Routes.{HttpRequest, Decoders, serve}
use d8x_broker_server.Ws.Hub.{Hub, HubStep, new_hub}
use d8x_broker_server.Ws.Notify.{Write, handle_new_order}

-- `heard` counts the messages that the websocket service has received.
pub record System (Store : Type 0) : Type 0 where
  pub app : App
  pub store : Store
  pub hub : Hub
  pub heard : ℕ

-- Redis without one key.
abbrev pub forget : Text → View → View
forget k v = record v { key = update k absent v.key }

module _ (sdk : Sdk) (r : Redis) (rest_level : Text → Option ℤ) (decoders : Decoders)
    (config : Map ℤ ChainConfig) where
  open r use {Store, view}

  -- The system after a request to the REST service.
  abbrev pub after_rest :
      (List Text → Option sdk.Client) → ℕ → ℕ → HttpRequest → System Store → System Store
  after_rest connect now later q s =
      let (answer, app, store) =
        serve sdk r rest_level decoders connect now later s.app q s.store in
      record s { app = app; store = store }

  -- `rest` is a request; `ws` a turn of a loop of a websocket connection; `deliver` a run of
  -- handleNewOrder on the next message of the channel; `expire` the end of a key.
  pub data Step (s : System Store) : System Store → Type 0 where
    rest :
        (connect : List Text → Option sdk.Client) (now later : ℕ) (q : HttpRequest)
        → Step s (after_rest connect now later q s)
    ws : (h : Hub) → HubStep config s.hub h → Step s (record s { hub = h })
    deliver :
        (fuel : ℕ) (topic : Text) (writes : List Write) (t : Store)
        → get_elem? (view s.store).sent s.heard ≡ some (channel_new_order, topic)
        → handle_new_order r s.hub.subs fuel topic s.store ≡ some (writes, t)
        → Step s (record s { store = t; heard = suc s.heard })
    expire :
        (k : Text) (t : Store) → view t ≡ forget k (view s.store) → Step s (record s { store = t })

  -- At the start Redis holds nothing, and what was published before is not received.
  pub data Reach (app : App) : System Store → Type 0 where
    start :
        (s : Store)
        → ((k : Text) → (view s).key k ≡ absent)
        → Reach app (record { app = app; store = s; hub = new_hub; heard = length (view s).sent })
    next : {s t : System Store} → Reach app s → Step s t → Reach app t
