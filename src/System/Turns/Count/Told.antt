-- ===== src/System/Turns/Count/Told.antt =====
-- The ids that runs of handleNewOrder have taken, and those that they have told the subscribers of.
use d8x_broker_server.Base.{
  ◌+◌, ◌≡◌, refl, ◌∙◌, ap, subst, List, [], ◌∷◌, ◌++◌, map, Option, arith, All, All-item, Map,
  get_or, ℤ,
}
use d8x_broker_server.Text.{Text, text_eq}
use d8x_broker_server.Sdk.{Sdk}
use d8x_broker_server.Redis.{Redis}
use d8x_broker_server.Redis.Documented.{ok, err, hash, fields_of}
use d8x_broker_server.Redis.Connected.{Connected, hgetall-Does}
use d8x_broker_server.Orders.{ChainConfig}
use d8x_broker_server.Orders.Submit.{items}
use d8x_broker_server.Api.{App}
use d8x_broker_server.Api.Routes.{Decoders}
use d8x_broker_server.Ws.Subs.{Subscriptions}
use d8x_broker_server.Ws.Notify.{notify, broadcast, update_message}
use d8x_broker_server.Ws.Notify.Update.{shown, order_resp-Holds}
use d8x_broker_server.System.Clean.{HashesToBytes, Issued}
use d8x_broker_server.System.Rest.{DecodesFits}
use d8x_broker_server.System.Turns.{
  Run, popping, reading, sending, over, run_turn, Pool, Turn, rest, drain, receive, Event, request,
  ws, expire, Came, start, event, turn,
}
use d8x_broker_server.System.Turns.Kept.{HasRead}
use d8x_broker_server.System.Turns.Always.{IsKept, Came-IsKept}
use d8x_broker_server.System.Turns.Quiet.{IsQuiet}
use d8x_broker_server.System.Turns.Count.{count, count-append, turn_taken}
use d8x_broker_server.System.Turns.Count.Held.{
  all_held, turn_told, turn_missed, Turn-held, over-held,
}
use d8x_broker_server.System.Turns.Count.Conserved.{all_pushed, all_taken, StacksLast, Came-count}

module _ (sdk : Sdk) (r : Redis) (up : Connected r) (rest_level : Text → Option ℤ)
    (decoders : Decoders) (config : Map ℤ ChainConfig) (app : App) (bytes : HashesToBytes sdk) where
  open r use {Store, view}

  abbrev Comes : Pool Store → Type 0
  Comes = Came r sdk rest_level decoders config app

  Event-runs : {s t : Pool Store} → Event r sdk rest_level decoders config s t → t.runs ≡ s.runs
  Event-runs (request connect now later q) = refl
  Event-runs (ws h st) = refl
  Event-runs (expire k t e) = refl

  -- The ids that runs have told the subscribers of the topic `k` of so far, the last one first.
  abbrev pub all_told : {s : Pool Store} → Comes s → Text → List Text
  all_told (start s empty) k = []
  all_told (event before e) k = all_told before k
  all_told (turn before t) k = turn_told r t k ++ all_told before k

  -- The ids that runs have passed over so far.
  abbrev pub all_missed : {s : Pool Store} → Comes s → Text → List Text
  all_missed (start s empty) k = []
  all_missed (event before e) k = all_missed before k
  all_missed (turn before t) k = turn_missed r t k ++ all_missed before k

  abbrev taken_ids : {s : Pool Store} → Comes s → Text → List Text
  taken_ids came k = all_taken sdk r up rest_level decoders config app bytes came k

  taken-told :
      {s : Pool Store} (came : Comes s) (k id : Text)
      → count id (taken_ids came k)
        ≡ count id (all_told came k) + (count id (all_missed came k) + count id (all_held s.runs k))
  taken-told (start s empty) k id = omega arith
  taken-told (event before e) k id =
      omega (arith, taken-told before k id, ap (λ xs. count id (all_held xs k)) (Event-runs e))
  taken-told (turn before t) k id = omega (
    arith,
    taken-told before k id,
    Turn-held r t k id,
    count-append id (turn_taken r t k) (taken_ids before k),
    count-append id (turn_told r t k) (all_told before k),
    count-append id (turn_missed r t k) (all_missed before k),
  )

  -- What a turn of a run writes to the subscribers of its topic: with an answer that has an order,
  -- its fields to each of them, once; otherwise nothing. What is read is what stands in Redis.
  abbrev pub RunTells : Subscriptions → Run → Store → Type 0
  RunTells subs (popping topic) s = (run_turn r subs (popping topic) s).0 ≡ []
  RunTells subs (reading topic id) s =
      ((run_turn r subs (reading topic id) s).0 ≡ [])
      × ((m : Map Text Text)
          → (view s).key id ≡ hash m
          → (run_turn r subs (reading topic id) s).1 ≡ sending topic id (ok m))
  RunTells subs (sending topic id (err e)) s = (run_turn r subs (sending topic id (err e)) s).0 ≡ []
  RunTells subs (sending topic id (ok [])) s = (run_turn r subs (sending topic id (ok [])) s).0 ≡ []
  RunTells subs (sending topic id (ok (f ∷ fs))) s =
      (i : Issued sdk app.pen id (f ∷ fs)) × ((run_turn r subs (sending topic id (ok (f ∷ fs))) s).0
        ≡ map (λ (k, conn). (conn, update_message topic (shown id i.res.order)))
            (get_or [] topic subs))
  RunTells subs over s = Unit

  abbrev pub Tells : {s t : Pool Store} → Turn r s t → Type 0
  Tells (rest before after c go_on at) = Unit
  Tells {s} (drain before after x at going_on) = RunTells s.hub.subs x s.store
  Tells (receive topic at) = Unit

  -- Each turn of a run so far has written that.
  abbrev pub AllTell : {s : Pool Store} → Comes s → Type 0
  AllTell (start s empty) = Unit
  AllTell (event before e) = AllTell before
  AllTell (turn before t) = AllTell before × Tells t

  run_turn-RunTells :
      (subs : Subscriptions) (x : Run) (s : Store) → HasRead sdk app.pen x → RunTells subs x s
  unfolding run_turn notify broadcast
  run_turn-RunTells subs (popping topic) s read = refl
  run_turn-RunTells subs (reading topic id) s read =
      (refl, λ m at. ap (sending topic id) ((hgetall-Does r up id s).0 ∙ ap fields_of at))
  run_turn-RunTells subs (sending topic id (err e)) s read = refl
  run_turn-RunTells subs (sending topic id (ok [])) s read = refl
  run_turn-RunTells subs (sending topic id (ok (f ∷ fs))) s i = (
    i,
    ap (λ o. map (λ (k, conn). (conn, update_message topic o)) (get_or [] topic subs))
        (order_resp-Holds id (f ∷ fs) i.res.order i.chain_id i.holds i.fits),
  )
  run_turn-RunTells subs over s read = tt

  Turn-Tells :
      {s t : Pool Store} (st : Turn r s t)
      → IsKept sdk r up rest_level decoders config app bytes s
      → Tells st
  Turn-Tells (rest before after c go_on at) kept = tt
  Turn-Tells {s} (drain before after x at going_on) kept = run_turn-RunTells s.hub.subs x s.store (
      All-item (HasRead sdk app.pen) before after x
        (subst (All (HasRead sdk app.pen)) at kept.going.read))
  Turn-Tells (receive topic at) kept = tt

  Came-AllTell : DecodesFits decoders → {s : Pool Store} (came : Comes s) → AllTell came
  Came-AllTell fits (start s empty) = tt
  Came-AllTell fits (event before e) = Came-AllTell fits before
  Came-AllTell fits (turn before t) = (
    Came-AllTell fits before,
    Turn-Tells t (Came-IsKept sdk r up rest_level decoders config app bytes fits before),
  )

  -- On a Redis whose answers all arrive, with a hash that is made of bytes and a decoder that
  -- refuses numbers which their field cannot hold: after any interleaving of single turns in
  -- which no stack with ids has expired, each turn of a run of handleNewOrder has read what
  -- stands in Redis under the id, and has written: where HGETALL has answered with an order, one
  -- message to every connection that is subscribed to the topic at that time, with the id and the
  -- fields of an order that the pen has signed under this id; in all other turns nothing. And
  -- each id was put on a stack by requests as often as runs have told of it in this way, have
  -- passed it over because HGETALL has answered with no order, hold it, and it still stands on
  -- the stack together; when every request is answered, every run has ended, every message is
  -- received and every stack is empty, each id was told of or passed over as often as it was put
  -- on the stack.
  pub Came-told :
      DecodesFits decoders
      → {s : Pool Store} (came : Comes s)
      → StacksLast sdk r up rest_level decoders config app bytes came
      → AllTell came
        × ((k id : Text)
            → (count id (all_pushed sdk r up rest_level decoders config app bytes came k)
                ≡ count id (all_told came k)
                  + count id (all_missed came k)
                  + (count id (all_held s.runs k) + count id (items ((view s.store).key k))))
              × (IsQuiet r s
                  → count id (all_pushed sdk r up rest_level decoders config app bytes came k)
                    ≡ count id (all_told came k) + count id (all_missed came k)))
  Came-told fits {s} came last = (
    Came-AllTell fits came,
    λ k id.
        let pushed = Came-count sdk r up rest_level decoders config app bytes fits came last k id in
        let told = taken-told came k id in
        (
          omega (arith, pushed, told),
          λ quiet. omega (
            arith,
            pushed,
            told,
            ap (count id) (over-held s.runs k quiet.ended),
            ap (count id) (quiet.empty k),
          ),
        ),
  )
