-- ===== src/Ws/Session/Removed.antt =====
-- The subscriptions behind readPump of executorws/executorws.go.
use d8x_broker_server.Base.{
  ℕ, ◌≡◌, refl, ◌∙◌, ap, inl, inr, false, List, [], ◌∷◌, Option, none, some, arith, ◌==◌,
  if◌then◌else◌, Map, ℤ, Bool-cases,
}
use d8x_broker_server.Text.{Text, text_eq, trim_space, to_lower}
use d8x_broker_server.Orders.{ChainConfig}
use d8x_broker_server.Ws.Subs.{Subscriptions, ClientMessage, handle_request, subscribe_orders}
use d8x_broker_server.Ws.Subs.Requests.{
  subscriber, subscribe_orders-Subscribed, unsubscribe_orders-left, remove_client-none,
}
use d8x_broker_server.Ws.Session.{read_pump}

module _ (config : Map ℤ ChainConfig) (conn : ℕ) (client : Text) where
  subscribe_orders-others :
      (topic : Text) (subs : Subscriptions) (t id : Text)
      → (client == id) ≡ false
      → subscriber (subscribe_orders config conn client topic subs).1 t id ≡ subscriber subs t id
  subscribe_orders-others topic subs t id other =
      elim (subscribe_orders-Subscribed config conn client topic subs) [
        | inl (_, _, same) ↦ ap (λ s. subscriber s t id) same
        | inr (inl (_, _, _, same)) ↦ ap (λ s. subscriber s t id) same
        | inr (inr (_, _, _, grown)) ↦ grown t id ∙ ground arith
      ]

  handle_request-others :
      (message : Option ClientMessage) (subs : Subscriptions) (t id : Text)
      → (client == id) ≡ false
      → subscriber (handle_request config conn client message subs).1 t id ≡ subscriber subs t id
  unfolding handle_request
  handle_request-others none subs t id other = refl
  handle_request-others (some m) subs t id other =
      let topic = trim_space (to_lower m.topic) in
      ground (
        arith,
        subscribe_orders-others topic subs t id other,
        unsubscribe_orders-left client topic subs t id,
      )

  -- After readPump of any messages on a connection, the client stands under no topic, and every
  -- other client stands where it stood before.
  pub read_pump-none :
      (messages : List (Option ClientMessage)) (subs : Subscriptions) (t id : Text)
      → subscriber (read_pump config conn client messages subs).1 t id
        ≡ (if client == id then none else subscriber subs t id)
  unfolding read_pump
  read_pump-none [] subs t id = remove_client-none client subs t id
  read_pump-none (m ∷ more) subs t id =
      let rest = read_pump-none more (handle_request config conn client m subs).1 t id in
      elim (Bool-cases (client == id)) [
        | inl same ↦ rest ∙ rw same
        | inr other ↦ rest ∙ rw (other, handle_request-others m subs t id other)
      ]
