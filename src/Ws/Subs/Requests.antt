-- ===== src/Ws/Subs/Requests.antt =====
-- The subscriptions seen as a table from topic and client to connection, and what each operation
-- does to the table.
use d8x_broker_server.Base.{
  ℕ, ◌≡◌, refl, sym, ◌∙◌, ap, subst, ◌≢◌, ◌⊎◌, inl, inr, true, false, ◌&&◌, [], ◌∷◌, Option, none,
  some, arith, ◌==◌, if◌then◌else◌, Map, lookup, insert, delete, lookup-insert, lookup-delete, ℤ,
  Bool-cases, Option-cases,
}
use d8x_broker_server.Text.{Text, text_eq, text_beq_iff, codes}
use d8x_broker_server.Orders.{ChainConfig}
use d8x_broker_server.Ws.Topic.{is_valid_order_topic}
use d8x_broker_server.Ws.Subs.{
  Clients, Subscriptions, ServerResponse, ack_sub, error_response, remove_client, subscribe_orders,
  subscribe_known, subscribe_new, unsubscribe_orders,
}

abbrev pub client_in : Option Clients → Text → Option ℕ
client_in none id = none
client_in (some clients) id = lookup id clients

-- The connection of a client under a topic, if it is subscribed.
abbrev pub subscriber : Subscriptions → Text → Text → Option ℕ
subscriber subs topic id = client_in (lookup topic subs) id

subscriber-insert :
    (subs : Subscriptions) (topic t id : Text) (clients : Clients)
    → subscriber (insert topic clients subs) t id
      ≡ (if topic == t then lookup id clients else subscriber subs t id)
subscriber-insert subs topic t id clients = ground (arith, lookup-insert topic t clients subs)

-- The table after one client is put in.
abbrev pub joined : Subscriptions → Text → Text → ℕ → Text → Text → Option ℕ
joined subs topic client conn t id =
    if topic == t && client == id then some conn else subscriber subs t id

-- The table after one client is taken out of one topic.
abbrev pub left : Subscriptions → Text → Text → Text → Text → Option ℕ
left subs topic client t id = if topic == t && client == id then none else subscriber subs t id

subscribe_known-joined :
    (conn : ℕ) (client topic : Text) (clients : Clients) (subs : Subscriptions) (t id : Text)
    → lookup topic subs ≡ some clients
    → lookup client clients ≡ none
    → subscriber (subscribe_known conn client topic clients subs).1 t id
      ≡ joined subs topic client conn t id
unfolding subscribe_known
subscribe_known-joined conn client topic clients subs t id e f = ground (
  arith,
  subscriber-insert subs topic t id (insert client conn clients),
  lookup-insert client id conn clients,
  text_beq_iff topic t,
)

subscribe_new-joined :
    (conn : ℕ) (client topic : Text) (subs : Subscriptions) (t id : Text)
    → lookup topic subs ≡ none
    → subscriber (subscribe_new conn client topic subs).1 t id ≡ joined subs topic client conn t id
unfolding subscribe_new
subscribe_new-joined conn client topic subs t id e =
    let nobody : lookup id (let m : Clients = [] in m) ≡ none = unfold lookup in refl in
    ground (
      arith,
      subscriber-insert subs topic t id (insert client conn []),
      lookup-insert client id conn [],
      text_beq_iff topic t,
    )

-- What a subscription request does: the answer, and the table.
abbrev pub Subscribed :
    Map ℤ ChainConfig → ℕ → Text → Text → Subscriptions → ServerResponse × Subscriptions → Type 0
Subscribed config conn client topic subs (answer, subs') =
    ((is_valid_order_topic config topic ≡ false)
      × (answer ≡ error_response (codes "subscribe") topic (codes "usage: perpetualId:chainId"))
      × (subs' ≡ subs))
    ⊎ ((is_valid_order_topic config topic ≡ true)
        × (subscriber subs topic client ≢ none)
        × (answer ≡ error_response (codes "subscribe") topic (codes "client already subscribed"))
        × (subs' ≡ subs))
    ⊎ ((is_valid_order_topic config topic ≡ true)
        × (subscriber subs topic client ≡ none)
        × (answer ≡ ack_sub topic)
        × ((t id : Text) → subscriber subs' t id ≡ joined subs topic client conn t id))

module _ (config : Map ℤ ChainConfig) (conn : ℕ) (client topic : Text) (subs : Subscriptions) where
  abbrev Ends : ServerResponse × Subscriptions → Type 0
  Ends = Subscribed config conn client topic subs

  invalid-Ends :
      is_valid_order_topic config topic ≡ false
      → Ends (subscribe_orders config conn client topic subs)
  unfolding subscribe_orders
  invalid-Ends h = inl (h, ground arith, ground arith)

  new-Ends :
      is_valid_order_topic config topic ≡ true
      → lookup topic subs ≡ none
      → Ends (subscribe_new conn client topic subs)
  new-Ends h e = inr (
      inr (
        h,
        ap (λ c. client_in c client) e,
        unfold subscribe_new in refl,
        λ t id. subscribe_new-joined conn client topic subs t id e,
      ))

  known-Ends :
      (clients : Clients) (held : Option ℕ)
      → is_valid_order_topic config topic ≡ true
      → lookup topic subs ≡ some clients
      → lookup client clients ≡ held
      → Ends (subscribe_known conn client topic clients subs)
  known-Ends clients none h e f = inr (
      inr (
        h,
        ap (λ c. client_in c client) e ∙ f,
        unfold subscribe_known in ground arith,
        λ t id. subscribe_known-joined conn client topic clients subs t id e f,
      ))
  known-Ends clients (some c) h e f = inr (
      inl (
        h,
        λ n. cc (ap (λ c. client_in c client) e, f, n),
        unfold subscribe_known in ground arith,
        unfold subscribe_known in ground arith,
      ))

  pub fresh_topic :
      is_valid_order_topic config topic ≡ true
      → lookup topic subs ≡ none
      → subscribe_orders config conn client topic subs ≡ subscribe_new conn client topic subs
  unfolding subscribe_orders
  fresh_topic h e = ground arith

  pub known_topic :
      (clients : Clients)
      → is_valid_order_topic config topic ≡ true
      → lookup topic subs ≡ some clients
      → subscribe_orders config conn client topic subs
        ≡ subscribe_known conn client topic clients subs
  unfolding subscribe_orders
  known_topic clients h e = ground arith

  valid-Ends :
      (o : Option Clients)
      → is_valid_order_topic config topic ≡ true
      → lookup topic subs ≡ o
      → Ends (subscribe_orders config conn client topic subs)
  valid-Ends none h e = subst Ends (sym (fresh_topic h e)) (new-Ends h e)
  valid-Ends (some clients) h e =
      subst Ends (sym (known_topic clients h e))
        (known-Ends clients (lookup client clients) h e refl)

  -- SubscribeOrders on an invalid topic answers the usage error and changes nothing; on a valid
  -- topic that the client already stands under, it answers an error and changes nothing; else it
  -- acknowledges, and the only change is that the client stands under the topic with its
  -- connection.
  pub subscribe_orders-Subscribed :
      Subscribed config conn client topic subs (subscribe_orders config conn client topic subs)
  subscribe_orders-Subscribed = elim (Bool-cases (is_valid_order_topic config topic)) [
    | inl valid ↦ valid-Ends (lookup topic subs) valid refl
    | inr invalid ↦ invalid-Ends invalid
  ]

-- UnsubscribeOrders takes the client out of the topic, and changes no other client or topic.
pub unsubscribe_orders-left :
    (client topic : Text) (subs : Subscriptions) (t id : Text)
    → subscriber (unsubscribe_orders client topic subs) t id ≡ left subs topic client t id
unfolding unsubscribe_orders
unsubscribe_orders-left client topic subs t id = elim (Option-cases (lookup topic subs)) [
  | inl missing ↦ ground (arith, text_beq_iff topic t)
  | inr (clients, known) ↦ ground (
    arith,
    subscriber-insert subs topic t id (delete client clients),
    lookup-delete client id clients,
    text_beq_iff topic t,
  )
]

-- RemoveClient takes the client out of every topic, and changes no other client.
pub remove_client-none :
    (client : Text) (subs : Subscriptions) (t id : Text)
    → subscriber (remove_client client subs) t id
      ≡ (if client == id then none else subscriber subs t id)
unfolding remove_client lookup
remove_client-none client [] t id = ground arith
remove_client-none client ((topic, clients) ∷ subs) t id =
    ground (arith, lookup-delete client id clients, remove_client-none client subs t id)
