-- ===== src/Ws/Notify/Journey.antt =====
-- The way of an order through both services: PubOrder, OrderSubmission, handleNewOrder.
use d8x_broker_server.Base.{
  ℕ, suc, ◌<◌, ◌≡◌, ◌≢◌, refl, sym, ◌∙◌, ap, subst, List, [], ◌∷◌, ◌++◌, Option, none, some, arith,
  length, beq_self, ℤ, get_or, Map,
}
use d8x_broker_server.Text.{Text, text_eq}
use d8x_broker_server.Decimal.{itoa}
use d8x_broker_server.Redis.{Redis}
use d8x_broker_server.Redis.Documented.{ok, View}
use d8x_broker_server.Redis.Connected.{Connected}
use d8x_broker_server.Orders.{ApiOrderSig, SubmitError, pub_order, order_submission}
use d8x_broker_server.Orders.Store.{
  Holds, Holds-ne-nil, stack_name-Holds, TakesHash, pub_order-Published,
}
use d8x_broker_server.Orders.Submit.{stored, stack_of, items, IsStack}
use d8x_broker_server.Orders.Announce.{Announced}
use d8x_broker_server.Orders.Outcome.{order_submission-All}
use d8x_broker_server.Ws.Subs.{Subscriptions, ServerResponse}
use d8x_broker_server.Ws.Notify.{
  Write, order_resp, update_message, broadcast, notify, handle_new_order,
}
use d8x_broker_server.Ws.Notify.Update.{Fits, shown, order_resp-Holds}
use d8x_broker_server.Ws.Notify.Drain.{writes_for, handle_new_order-Drained}

-- The topic of an order.
abbrev pub order_topic : ApiOrderSig → ℤ → Text
order_topic o chain_id = itoa o.perpetual_id ++ (b':' ∷ itoa chain_id)

notify-stored :
    (subs : Subscriptions) (id topic : Text) (m : Map Text Text)
    → m ≢ []
    → notify subs id topic (ok m)
      ≡ broadcast (get_or [] topic subs) (update_message topic (order_resp id m))
unfolding notify
notify-stored subs id topic [] h = absurd (h refl)
notify-stored subs id topic (f ∷ fs) h = refl

notify-Holds :
    (subs : Subscriptions) (id topic : Text) (m : Map Text Text) (o : ApiOrderSig) (k : ℤ)
    → Holds m o k
    → Fits o
    → notify subs id topic (ok m)
      ≡ broadcast (get_or [] topic subs) (update_message topic (shown id o))
notify-Holds subs id topic m o k h f =
    notify-stored subs id topic m (Holds-ne-nil m o k h)
    ∙ ap (λ w. broadcast (get_or [] topic subs) (update_message topic w))
        (order_resp-Holds id m o k h f)

-- The stack of the topic after the order is announced has its id on top.
Announced-top :
    (v w : View) (o : ApiOrderSig) (id : Text) (chain_id : ℤ)
    → Holds (stored (v.key id)) o chain_id
    → IsStack (v.key (order_topic o chain_id))
    → Announced v (id ∷ []) w
    → items (w.key (order_topic o chain_id)) ≡ id ∷ items (v.key (order_topic o chain_id))
Announced-top v w o id chain_id h stack a =
    let topic = order_topic o chain_id in
    let same : stack_of v id ≡ topic = stack_name-Holds (stored (v.key id)) o chain_id h in
    let grew = a.stacks topic stack in rw (same, beq_self topic) at grew

module _ (r : Redis) (c : Connected r) (subs : Subscriptions) (o : ApiOrderSig) (id : Text)
    (chain_id : ℤ) (s : r.Store) where
  open r use {Store, view}

  -- The state after OrderSubmission of the one id.
  abbrev pub after_submit : Option SubmitError × Store
  after_submit = order_submission r (id ∷ []) s

  abbrev pub own_topic : Text
  own_topic = order_topic o chain_id

  abbrev pub own_message : ServerResponse
  own_message = update_message own_topic (shown id o)

  record Waits : Type 0 where
    answered : after_submit.0 ≡ none
    top : items ((view after_submit.1).key own_topic) ≡ id ∷ items ((view s).key own_topic)
    holds : Holds (stored ((view after_submit.1).key id)) o chain_id

  submitted-Waits :
      Holds (stored ((view s).key id)) o chain_id → IsStack ((view s).key own_topic) → Waits
  submitted-Waits holds stack =
      let known =
        order_submission-All r c (id ∷ []) s
          (Holds-ne-nil (stored ((view s).key id)) o chain_id holds, tt) in
      record {
        answered = known.0;
        top = Announced-top (view s) (view after_submit.1) o id chain_id holds stack known.1;
        holds = subst (λ m. Holds m o chain_id) (sym (known.1.orders id)) holds;
      }

  -- The writes for the ids that were on the stack before.
  abbrev older : List Write
  older = writes_for subs (view after_submit.1) own_topic (items ((view s).key own_topic))

  first_writes :
      Waits
      → Fits o
      → writes_for subs
          (view after_submit.1)
          own_topic
          (items ((view after_submit.1).key own_topic))
        ≡ broadcast (get_or [] own_topic subs) own_message ++ older
  first_writes w fits =
      ap (writes_for subs (view after_submit.1) own_topic) w.top
      ∙ ap (λ first. first ++ older)
          (notify-Holds subs id own_topic (stored ((view after_submit.1).key id)) o chain_id w.holds
            fits)

  -- The announcement has no error, and handleNewOrder with the given fuel ends, sends the order
  -- first, and leaves the stack empty.
  abbrev pub Arrives : ℕ → Type 0
  Arrives fuel =
      (after_submit.0 ≡ none)
      × ((more : List Write) × (t : Store) × (handle_new_order r subs fuel own_topic after_submit.1
            ≡ some (broadcast (get_or [] own_topic subs) own_message ++ more, t))
          × (items ((view t).key own_topic) ≡ []))

  -- A stored order that is announced reaches the subscribers of its topic.
  pub stored-Arrives :
      (fuel : ℕ)
      → Fits o
      → Holds (stored ((view s).key id)) o chain_id
      → IsStack ((view s).key own_topic)
      → suc (length (items ((view s).key own_topic))) < fuel
      → Arrives fuel
  stored-Arrives fuel fits holds stack enough =
      let w = submitted-Waits holds stack in
      let d =
        handle_new_order-Drained r c subs fuel own_topic after_submit.1
          (omega (arith, ap length w.top)) in
      (
        w.answered,
        (older, d.final, d.returned ∙ ap (λ ws. some (ws, d.final)) (first_writes w fits), d.empty),
      )

module _ (r : Redis) (c : Connected r) (subs : Subscriptions) (o : ApiOrderSig) (id : Text)
    (chain_id : ℤ) (s : r.Store) where
  open r use {Store, view}

  -- The state after PubOrder.
  abbrev pub after_pub : Store
  after_pub = (pub_order r o id chain_id s).1

  -- On a Redis whose answers all arrive, an order whose three numbers fit in 32 bits is stored
  -- with PubOrder under an id, the id is announced with OrderSubmission, and handleNewOrder runs
  -- on the topic `perpetualId:chainId` of the order. If the id's key was free or held a hash, the
  -- topic's key was free or held a list, the id is not the topic, and the fuel exceeds the height
  -- of the topic's stack by more than one, then the announcement has no error, handleNewOrder
  -- ends, its first writes send the order as it was stored to each client of the topic, and the
  -- stack is empty afterwards.
  pub order_reaches_subscribers :
      (fuel : ℕ)
      → Fits o
      → TakesHash ((view s).key id)
      → IsStack ((view s).key (order_topic o chain_id))
      → order_topic o chain_id ≢ id
      → suc (length (items ((view s).key (order_topic o chain_id)))) < fuel
      → Arrives r c subs o id chain_id after_pub fuel
  order_reaches_subscribers fuel fits hash stack apart enough =
      let p = (pub_order-Published r c o id chain_id s hash).1 in
      let untouched = p.others (order_topic o chain_id) apart in
      stored-Arrives r c subs o id chain_id after_pub fuel fits p.holds
        (subst IsStack (sym untouched) stack)
        (subst (λ x. suc (length (items x)) < fuel) (sym untouched) enough)
