-- ===== src/System/Reach/Sound.antt =====
-- What holds in every state that the system reaches, and of what it sends there.
use d8x_broker_server.Base.{
  ap, arith, ℕ, [], ◌≡◌, refl, sym, ◌∙◌, subst, List, Option, some, Map, ℤ, All, All-map,
}
use d8x_broker_server.Text.{Text, text_eq}
use d8x_broker_server.Sdk.{Sdk}
use d8x_broker_server.Redis.{Redis}
use d8x_broker_server.Redis.Documented.{absent}
use d8x_broker_server.Redis.Connected.{Connected}
use d8x_broker_server.Orders.{ChainConfig}
use d8x_broker_server.Orders.Submit.{items}
use d8x_broker_server.Ws.Notify.Drain.{handle_new_order-Emptied}
use d8x_broker_server.Api.{App}
use d8x_broker_server.Api.Routes.{Decoders, serve}
use d8x_broker_server.Ws.Notify.{Write, handle_new_order}
use d8x_broker_server.Ws.Hub.Live.{IsRead, IsLive, HubStep-IsLive, new_hub-IsLive}
use d8x_broker_server.System.Clean.{HashesToBytes, IsClean, CleanAt, update-IsClean}
use d8x_broker_server.System.Queue.{IsOrderUpdate, handle_new_order-IsOrderUpdate}
use d8x_broker_server.System.Waiting.{IsCovered, update-IsCovered, heard-IsCovered, get_elem?-lt}
use d8x_broker_server.System.Rest.{DecodesFits, serve-Kept}
use d8x_broker_server.System.Reach.{System, Step, Reach, rest, ws, deliver, expire, start, next}

module _ (sdk : Sdk) (r : Redis) (c : Connected r) (rest_level : Text → Option ℤ)
    (decoders : Decoders) (config : Map ℤ ChainConfig) (app : App) (bytes : HashesToBytes sdk) where
  open r use {Store, view}

  -- The pen is the one of the start; every key of Redis holds what its kind says; for every
  -- stack that is not empty a message waits; the subscriptions are well-formed.
  pub record IsSound (s : System Store) : Type 0 where
    pub same_pen : s.app.pen ≡ app.pen
    pub clean : IsClean sdk app.pen (view s.store)
    pub covered : IsCovered s.heard (view s.store)
    pub live : IsLive config s.hub

  pub Step-IsSound :
      DecodesFits decoders
      → {s t : System Store} → Step sdk r rest_level decoders config s t
      → IsSound s
      → IsSound t
  Step-IsSound fits {s} (rest connect now later q) sound =
      let kept =
        serve-Kept sdk r c rest_level s.heard s.app decoders bytes connect now later fits q s.store
          (
            subst (λ p. IsClean sdk p (view s.store)) (sym sound.same_pen) sound.clean,
            sound.covered,
          ) in
      record {
        same_pen = kept.1 ∙ sound.same_pen;
        clean =
            subst
              (λ p.
                IsClean sdk p
                  (view (serve sdk r rest_level decoders connect now later s.app q s.store).2))
              sound.same_pen kept.0.0;
        covered = kept.0.1;
        live = sound.live;
      }
  Step-IsSound fits (ws h st) sound = record {
    same_pen = sound.same_pen;
    clean = sound.clean;
    covered = sound.covered;
    live = HubStep-IsLive config st sound.live;
  }
  Step-IsSound fits {s} (deliver fuel topic writes t message ended) sound =
      let e = handle_new_order-Emptied r c s.hub.subs fuel topic s.store t writes ended in
      record {
        same_pen = sound.same_pen;
        clean =
            (handle_new_order-IsOrderUpdate sdk app.pen r c config s.hub.subs sound.live.well_formed
              topic fuel s.store t writes sound.clean ended).1;
        covered =
            heard-IsCovered s.heard (view s.store) (view t) topic message e.empty e.others e.silent
              sound.covered;
        live = sound.live;
      }
  Step-IsSound fits {s} (expire k t e) sound = record {
    same_pen = sound.same_pen;
    clean =
        subst (IsClean sdk app.pen) (sym e)
          (update-IsClean sdk app.pen (view s.store) k absent sound.clean tt);
    covered =
        subst (IsCovered s.heard) (sym e)
          (update-IsCovered s.heard (view s.store) k absent refl sound.covered);
    live = sound.live;
  }

  started : (s : Store) → ((k : Text) → (view s).key k ≡ absent) → IsClean sdk app.pen (view s)
  started s empty k = subst (CleanAt sdk app.pen k) (sym (empty k)) tt

  -- On a Redis whose answers all arrive, with a hash that is made of bytes and a decoder that
  -- refuses numbers which their field cannot hold: in every state that the system reaches from an
  -- empty Redis, through requests to the REST service, turns of the websocket loops, runs of
  -- handleNewOrder on the messages of the channel in their order, and expiring keys, the pen is
  -- that of the start; every key of Redis is free, or a level's key with a text, or the topic of
  -- an order with a stack, or the id of an order that the pen has signed with its fields; for
  -- every stack that is not empty, a message with its name is on the channel for which
  -- handleNewOrder has not run yet; the subscriptions are well-formed, and each one is that of a
  -- connection that is still read from.
  pub Reach-IsSound :
      DecodesFits decoders
      → {s : System Store} → Reach sdk r rest_level decoders config app s
      → IsSound s
  Reach-IsSound fits (start s empty) = record {
    same_pen = refl;
    clean = started s empty;
    covered = record {
      past = omega arith;
      waits = λ k some_id. absurd (some_id (ap items (empty k)));
      ours = λ i m later at. absurd (omega (arith, later, get_elem?-lt (view s).sent i m at));
    };
    live = new_hub-IsLive config;
  }
  Reach-IsSound fits (next r st) = Step-IsSound fits st (Reach-IsSound fits r)

  -- A write that is due: it tells a subscriber of the topic of an order that the pen has signed, on
  -- a connection that is read from.
  pub record IsDue (s : System Store) (topic : Text) (w : Write) : Type 0 where
    pub update : IsOrderUpdate sdk app.pen s.hub.subs topic w
    pub read : IsRead s.hub.sessions update.client w.0

  -- On a Redis whose answers all arrive, with a hash that is made of bytes and a decoder that
  -- refuses numbers which their field cannot hold: in every state that the system reaches, if
  -- handleNewOrder on a topic ends, whatever its fuel, then the topic's stack is empty, and each
  -- of its writes goes to the connection of a client that is subscribed to the topic and is still
  -- read from, and tells of an order that the pen has signed, under its id and with its fields.
  pub delivered-IsDue :
      DecodesFits decoders
      → {s : System Store} → Reach sdk r rest_level decoders config app s
      → (fuel : ℕ) (topic : Text) (writes : List Write) (t : Store)
      → handle_new_order r s.hub.subs fuel topic s.store ≡ some (writes, t)
      → All (IsDue s topic) writes × (items ((view t).key topic) ≡ [])
  delivered-IsDue fits {s} reached fuel topic writes t ended =
      let sound = Reach-IsSound fits reached in
      (
        All-map (IsOrderUpdate sdk app.pen s.hub.subs topic) (IsDue s topic)
            (λ w u. record { update = u; read = sound.live.read topic u.client w.0 u.subscribed })
            writes
            (handle_new_order-IsOrderUpdate sdk app.pen r c config s.hub.subs sound.live.well_formed
              topic fuel s.store t writes sound.clean ended).0,
        (handle_new_order-Emptied r c s.hub.subs fuel topic s.store t writes ended).empty,
      )
