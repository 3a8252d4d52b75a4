-- ===== src/System/Turns.antt =====
-- The system command by command: the handlers of the REST service (in goroutines of net/http) and
-- the runs of handleNewOrder take turns, and each turn sends at most one command to Redis. Turns of
-- different handlers follow each other in any order.
pub mod Safe
pub mod Effect
pub mod Kept
pub mod Always
pub mod Work
pub mod Quiet
pub mod Whole
pub mod Count
use d8x_broker_server.Base.{
  ℕ, suc, get_elem?, length, ◌≡◌, ◌≢◌, List, [], ◌∷◌, ◌++◌, Option, some, Map, ℤ,
}
use d8x_broker_server.Text.{Text}
use d8x_broker_server.Sdk.{Sdk}
use d8x_broker_server.Redis.{Redis}
use d8x_broker_server.Redis.Documented.{Reply, ok, err, View, absent}
use d8x_broker_server.Redis.Prog.{Command, Prog, done, call, perform}
use d8x_broker_server.Redis.Prog
use d8x_broker_server.Orders.{ChainConfig, channel_new_order}
use d8x_broker_server.Api.{App}
use d8x_broker_server.Api.Routes.{HttpRequest, Decoders, Answer}
use d8x_broker_server.Ws.Subs.{Subscriptions}
use d8x_broker_server.Ws.Hub.{Hub, HubStep, new_hub}
use d8x_broker_server.Ws.Notify.{Write, notify}
use d8x_broker_server.System.Tasks.{serve_task}
use d8x_broker_server.System.Reach.{forget}

-- Where a run of handleNewOrder on a topic stands: before LPOP, before HGETALL of an id, before the
-- loop over the subscribers with the answer of HGETALL, or behind its loop.
pub data Run : Type 0 where
  popping : Text → Run
  reading : Text → Text → Run
  sending : Text → Text → Reply (Map Text Text) → Run
  over : Run

abbrev pub popped_id : Text → Reply Text → Run
popped_id topic (err e) = over
popped_id topic (ok id) = reading topic id

module _ (r : Redis) where
  open r use {Store}

  -- A turn of handleNewOrder, with the subscriptions at that time.
  unfoldable pub run_turn : Subscriptions → Run → Store → List Write × Run × Store
  run_turn subs (popping topic) s =
      let (reply, t) = r.lpop topic s in ([], popped_id topic reply, t)
  run_turn subs (reading topic id) s =
      let (reply, t) = r.hgetall id s in ([], sending topic id reply, t)
  run_turn subs (sending topic id reply) s = (notify subs id topic reply, popping topic, s)
  run_turn subs over s = ([], over, s)

-- `tasks` are the requests that the REST service works on, `runs` the runs of handleNewOrder;
-- `heard` counts the messages that the websocket service has received.
pub record Pool (Store : Type 0) : Type 0 where
  pub app : App
  pub store : Store
  pub hub : Hub
  pub heard : ℕ
  pub tasks : List (Prog Answer)
  pub runs : List Run

module _ (r : Redis) where
  open r use {Store, view}

  -- What the two services do by themselves: a command of a request, a turn of a run that is not
  -- over, and the next message of the channel, which starts a run.
  pub data Turn (s : Pool Store) : Pool Store → Type 0 where
    rest :
        (before after : List (Prog Answer)) (c : Command) (go_on : Prog.ReplyTo c → Prog Answer)
        → s.tasks ≡ before ++ call c go_on ∷ after
        → Turn s (record s {
          tasks = before ++ go_on (perform r c s.store).0 ∷ after;
          store = (perform r c s.store).1;
        })
    drain :
        (before after : List Run) (x : Run)
        → s.runs ≡ before ++ x ∷ after
        → x ≢ over
        → Turn s (record s {
          runs = before ++ (run_turn r s.hub.subs x s.store).1 ∷ after;
          store = (run_turn r s.hub.subs x s.store).2;
        })
    receive :
        (topic : Text)
        → get_elem? (view s.store).sent s.heard ≡ some (channel_new_order, topic)
        → Turn s (record s { runs = popping topic ∷ s.runs; heard = suc s.heard })

  module _ (sdk : Sdk) (rest_level : Text → Option ℤ) (decoders : Decoders)
      (config : Map ℤ ChainConfig) where
    -- The service after a request has come in.
    abbrev pub asked :
        (List Text → Option sdk.Client) → ℕ → ℕ → HttpRequest → Pool Store → Pool Store
    asked connect now later q s =
        let (task, app) = serve_task sdk r rest_level decoders connect now later s.app q in
        record s { app = app; tasks = task ∷ s.tasks }

    -- What comes from outside: a request, a turn of a websocket connection, the end of a key.
    pub data Event (s : Pool Store) : Pool Store → Type 0 where
      request :
          (connect : List Text → Option sdk.Client) (now later : ℕ) (q : HttpRequest)
          → Event s (asked connect now later q s)
      ws : (h : Hub) → HubStep config s.hub h → Event s (record s { hub = h })
      expire :
          (k : Text) (t : Store)
          → view t ≡ forget k (view s.store)
          → Event s (record s { store = t })

    -- At the start Redis holds nothing, and what was published before is not received.
    pub data Came (app : App) : Pool Store → Type 0 where
      start :
          (s : Store)
          → ((k : Text) → (view s).key k ≡ absent)
          → Came app (record {
            app = app;
            store = s;
            hub = new_hub;
            heard = length (view s).sent;
            tasks = [];
            runs = [];
          })
      event : {s t : Pool Store} → Came app s → Event s t → Came app t
      turn : {s t : Pool Store} → Came app s → Turn s t → Came app t
