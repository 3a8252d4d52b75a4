-- ===== src/System/Turns/Always.antt =====
-- What holds in every state that the system reaches command by command, and of what it sends there.
use d8x_broker_server.Base.{
  ◌≡◌, refl, sym, ◌∙◌, ap, subst, inr, inl, List, [], ◌∷◌, ◌++◌, Option, arith, All, All-map, Map,
  ℤ,
}
use d8x_broker_server.Text.{Text}
use d8x_broker_server.Sdk.{Sdk}
use d8x_broker_server.Redis.{Redis}
use d8x_broker_server.Redis.Documented.{Reply, ok, err, absent, hash}
use d8x_broker_server.Redis.Connected.{Connected}
use d8x_broker_server.Redis.Prog.{Prog, call, perform}
use d8x_broker_server.Orders.{ChainConfig}
use d8x_broker_server.Orders.Submit.{items}
use d8x_broker_server.Api.{App}
use d8x_broker_server.Api.Routes.{Decoders, Answer}
use d8x_broker_server.Ws.Subs.{Subscriptions}
use d8x_broker_server.Ws.Subs.Invariant.{IsWellFormed}
use d8x_broker_server.Ws.Hub.Live.{IsRead, IsLive, HubStep-IsLive, new_hub-IsLive}
use d8x_broker_server.Ws.Notify.{Write, notify}
use d8x_broker_server.System.Clean.{HashesToBytes, CleanAt, IsClean, update-IsClean}
use d8x_broker_server.System.Queue.{IsOrderUpdate, notify-IsOrderUpdate}
use d8x_broker_server.System.Waiting.{update-fewer, get_elem?-lt}
use d8x_broker_server.System.Rest.{DecodesFits}
use d8x_broker_server.System.Reach.{forget}
use d8x_broker_server.System.Tasks.{serve_task}
use d8x_broker_server.System.Turns.{
  Run, popping, reading, sending, over, run_turn, Pool, Turn, rest, drain, receive, Event, request,
  ws, expire, Came, start, event, turn,
}
use d8x_broker_server.System.Turns.Safe.{IsSafe, Found}
use d8x_broker_server.System.Turns.Safe.Requests.{serve_task-IsSafe}
use d8x_broker_server.Base.{All-item}
use d8x_broker_server.System.Turns.Effect.{perform-effect, perform-Relies, Grants-IsLasting}
use d8x_broker_server.System.Turns.Kept.{
  HasRead, IsGoing, effect-IsGoing, receive-IsGoing, run_turn-Goes,
}

module _ (sdk : Sdk) (r : Redis) (up : Connected r) (rest_level : Text → Option ℤ)
    (decoders : Decoders) (config : Map ℤ ChainConfig) (app : App) (bytes : HashesToBytes sdk) where
  open r use {Store, view}

  pub record IsKept (s : Pool Store) : Type 0 where
    pub same_pen : s.app.pen ≡ app.pen
    pub going : IsGoing sdk app.pen s.heard (view s.store) s.tasks s.runs
    pub live : IsLive config s.hub

  pub Turn-IsKept : {s t : Pool Store} → Turn r s t → IsKept s → IsKept t
  Turn-IsKept {s} (rest before after c go_on at) kept = record {
    same_pen = kept.same_pen;
    going =
        subst
          (λ v.
            IsGoing sdk app.pen s.heard v (before ++ go_on (perform r c s.store).0 ∷ after) s.runs)
          (sym (
            perform-effect r up c s.store (
              Grants-IsLasting sdk app.pen c
                (All-item (IsSafe sdk app.pen) before after (call c go_on)
                  (subst (All (IsSafe sdk app.pen)) at kept.going.safe)).0)))
          (effect-IsGoing sdk app.pen bytes s.heard (view s.store) before after s.runs c go_on
            (perform r c s.store).0 (perform-Relies sdk app.pen r up c s.store kept.going.clean)
            (subst (λ ts. IsGoing sdk app.pen s.heard (view s.store) ts s.runs) at kept.going));
    live = kept.live;
  }
  Turn-IsKept {s} (drain before after x at going_on) kept = record {
    same_pen = kept.same_pen;
    going =
        run_turn-Goes sdk app.pen r up s.heard s.tasks before after s.hub.subs x s.store
          (subst (λ xs. IsGoing sdk app.pen s.heard (view s.store) s.tasks xs) at kept.going);
    live = kept.live;
  }
  Turn-IsKept {s} (receive topic at) kept = record {
    same_pen = kept.same_pen;
    going = receive-IsGoing sdk app.pen s.heard (view s.store) s.tasks s.runs topic at kept.going;
    live = kept.live;
  }

  forgotten-IsGoing :
      (s : Pool Store) (k : Text) (t : Store)
      → view t ≡ forget k (view s.store)
      → IsGoing sdk app.pen s.heard (view s.store) s.tasks s.runs
      → IsGoing sdk app.pen s.heard (view t) s.tasks s.runs
  forgotten-IsGoing s k t e g =
      subst (λ v. IsGoing sdk app.pen s.heard v s.tasks s.runs) (sym e)
        (record {
          clean = update-IsClean sdk app.pen (view s.store) k absent g.clean tt;
          safe = g.safe;
          read = g.read;
          past = g.past;
          ours = g.ours;
          cared = λ j some_id. g.cared j (update-fewer (view s.store) k absent refl j some_id);
        })

  asked-IsGoing :
      (s : Pool Store) (task : Prog Answer)
      → IsSafe sdk app.pen task
      → IsGoing sdk app.pen s.heard (view s.store) s.tasks s.runs
      → IsGoing sdk app.pen s.heard (view s.store) (task ∷ s.tasks) s.runs
  asked-IsGoing s task safe g = record {
    clean = g.clean;
    safe = (safe, g.safe);
    read = g.read;
    past = g.past;
    ours = g.ours;
    cared = λ k some_id. elim (g.cared k some_id) [
      | inl waits ↦ inl waits
      | inr (inl announces) ↦ inr (inl (inr announces))
      | inr (inr drains) ↦ inr (inr drains)
    ];
  }

  Event-IsKept :
      DecodesFits decoders
      → {s t : Pool Store} → Event r sdk rest_level decoders config s t
      → IsKept s
      → IsKept t
  Event-IsKept fits {s} (request connect now later q) kept =
      let task = (serve_task sdk r rest_level decoders connect now later s.app q).0 in
      let (safe, pen) =
        serve_task-IsSafe sdk r up rest_level s.app decoders fits connect now later q in
      record {
        same_pen = pen ∙ kept.same_pen;
        going = asked-IsGoing s task (subst (λ p. IsSafe sdk p task) kept.same_pen safe) kept.going;
        live = kept.live;
      }
  Event-IsKept fits {s} (ws h st) kept = record {
    same_pen = kept.same_pen;
    going = kept.going;
    live = HubStep-IsLive config st kept.live;
  }
  Event-IsKept fits {s} (expire k t e) kept = record {
    same_pen = kept.same_pen;
    going = forgotten-IsGoing s k t e kept.going;
    live = kept.live;
  }

  started : (s : Store) → ((k : Text) → (view s).key k ≡ absent) → IsClean sdk app.pen (view s)
  started s empty k = subst (CleanAt sdk app.pen k) (sym (empty k)) tt

  -- On a Redis whose answers all arrive, with a hash that is made of bytes and a decoder that
  -- refuses numbers which their field cannot hold: in every state that the system reaches from an
  -- empty Redis by single turns, each of at most one Redis command, of the requests and the runs
  -- of handleNewOrder in any interleaving, with requests and messages coming in, turns of the
  -- websocket loops and expiring keys in between, the pen is that of the start; every key of
  -- Redis is free, or a level's key with a text, or the topic of an order with a stack, or the id
  -- of an order that the pen has signed with its fields; every request that is worked on still
  -- sends only commands that keep this; each stack that is not empty has a message on the channel
  -- that waits for it, or a request whose next command publishes it, or a run of handleNewOrder
  -- on it that has not ended; the subscriptions are well-formed, and each one is that of a
  -- connection that is still read from.
  pub Came-IsKept :
      DecodesFits decoders
      → {s : Pool Store} → Came r sdk rest_level decoders config app s
      → IsKept s
  Came-IsKept fits (start s empty) = record {
    same_pen = refl;
    going = record {
      clean = started s empty;
      safe = tt;
      read = tt;
      past = omega arith;
      ours = λ i m later at. absurd (omega (arith, later, get_elem?-lt (view s).sent i m at));
      cared = λ k some_id. absurd (some_id (ap items (empty k)));
    };
    live = new_hub-IsLive config;
  }
  Came-IsKept fits (event before e) = Event-IsKept fits e (Came-IsKept fits before)
  Came-IsKept fits (turn before t) = Turn-IsKept t (Came-IsKept fits before)

  -- A write of a run: it tells a subscriber of the run's topic of an order that the pen has signed,
  -- on a connection that is read from.
  pub record IsSent (s : Pool Store) (topic : Text) (w : Write) : Type 0 where
    pub update : IsOrderUpdate sdk app.pen s.hub.subs topic w
    pub read : IsRead s.hub.sessions update.client w.0

  found_writes :
      (subs : Subscriptions) (topic id : Text) (reply : Reply (Map Text Text))
      → IsWellFormed config subs
      → Found sdk app.pen id reply
      → All (IsOrderUpdate sdk app.pen subs topic) (notify subs id topic reply)
  found_writes subs topic id (err e) formed found = unfold notify in tt
  found_writes subs topic id (ok []) formed found = unfold notify in tt
  found_writes subs topic id (ok (f ∷ fs)) formed found =
      notify-IsOrderUpdate sdk app.pen r up config subs formed topic id (hash (f ∷ fs)) found

  abbrev pub topic_of : Run → Text
  topic_of (popping topic) = topic
  topic_of (reading topic id) = topic
  topic_of (sending topic id reply) = topic
  topic_of over = []

  run_writes :
      (s : Pool Store) (x : Run)
      → IsKept s
      → HasRead sdk app.pen x
      → All (IsOrderUpdate sdk app.pen s.hub.subs (topic_of x)) (run_turn r s.hub.subs x s.store).0
  unfolding run_turn
  run_writes s (popping topic) kept read = tt
  run_writes s (reading topic id) kept read = tt
  run_writes s (sending topic id reply) kept read =
      found_writes s.hub.subs topic id reply kept.live.well_formed read
  run_writes s over kept read = tt

  -- On a Redis whose answers all arrive, with a hash that is made of bytes and a decoder that
  -- refuses numbers which their field cannot hold: in every state that the system reaches by
  -- single turns in any interleaving, and for each run of handleNewOrder in it, each write of the
  -- run's next turn goes to the connection of a client that is subscribed to the run's topic at
  -- that time and is still read from, and tells of an order that the pen has signed, under its id
  -- and with its fields.
  pub run_turn-IsSent :
      DecodesFits decoders
      → {s : Pool Store} → Came r sdk rest_level decoders config app s
      → (before after : List Run) (x : Run) → s.runs ≡ before ++ x ∷ after
      → All (IsSent s (topic_of x)) (run_turn r s.hub.subs x s.store).0
  run_turn-IsSent fits {s} came before after x at =
      let kept = Came-IsKept fits came in
      All-map (IsOrderUpdate sdk app.pen s.hub.subs (topic_of x)) (IsSent s (topic_of x))
        (λ w u. record { update = u; read = kept.live.read (topic_of x) u.client w.0 u.subscribed })
        (run_turn r s.hub.subs x s.store).0
        (run_writes s x kept (
          All-item (HasRead sdk app.pen) before after x
            (subst (All (HasRead sdk app.pen)) at kept.going.read)))
