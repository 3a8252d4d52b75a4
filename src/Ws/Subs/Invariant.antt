-- ===== src/Ws/Subs/Invariant.antt =====
-- What holds of the subscriptions after any sequence of messages and closed connections.
use d8x_broker_server.Base.{
  ℕ, ◌≡◌, refl, ◌≢◌, ◌⊎◌, inl, inr, true, [], ◌∷◌, Option, none, some, ◌==◌, Map, lookup, insert,
  delete, ℤ, Bool-cases, Option-cases, All, All-insert, All-lookup, HasDistinctKeys,
  insert-HasDistinctKeys, delete-HasDistinctKeys,
}
use d8x_broker_server.Text.{Text, text_eq, codes, to_lower, trim_space}
use d8x_broker_server.Orders.{ChainConfig}
use d8x_broker_server.Ws.Topic.{is_valid_order_topic}
use d8x_broker_server.Ws.Subs.{
  Clients, Subscriptions, ClientMessage, new_order_topic, new_server, remove_client,
  subscribe_orders, subscribe_known, subscribe_new, unsubscribe_orders, handle_request,
}
use d8x_broker_server.Ws.Subs.Requests.{fresh_topic, known_topic}

module _ (config : Map ℤ ChainConfig) where
  -- A topic is one that a client may subscribe to, or the first one, which has no clients; no
  -- client stands twice under a topic.
  abbrev pub IsEntry : Text × Clients → Type 0
  IsEntry (topic, clients) =
      ((is_valid_order_topic config topic ≡ true) ⊎ ((topic ≡ new_order_topic) × (clients ≡ [])))
      × HasDistinctKeys clients

  pub record IsWellFormed (subs : Subscriptions) : Type 0 where
    pub distinct : HasDistinctKeys subs
    pub entries : All IsEntry subs

  insert-IsWellFormed :
      (topic : Text) (clients : Clients) (subs : Subscriptions)
      → IsEntry (topic, clients)
      → IsWellFormed subs
      → IsWellFormed (insert topic clients subs)
  insert-IsWellFormed topic clients subs e w = record {
    distinct = insert-HasDistinctKeys topic clients subs w.distinct;
    entries = All-insert IsEntry topic clients subs e w.entries;
  }

  subscribe_known-IsWellFormed :
      (conn : ℕ) (client topic : Text) (clients : Clients) (subs : Subscriptions)
      → is_valid_order_topic config topic ≡ true
      → lookup topic subs ≡ some clients
      → IsWellFormed subs
      → IsWellFormed (subscribe_known conn client topic clients subs).1
  unfolding subscribe_known
  subscribe_known-IsWellFormed conn client topic clients subs h e w =
      elim (Option-cases (lookup client clients)) [
        | inl absent ↦ rw (absent, subscribe_known) grown
        | inr (c, present) ↦ rw (present, subscribe_known) w
      ]
    where
      held : IsEntry (topic, clients)
      held = All-lookup IsEntry topic clients subs e w.entries

      grown : IsWellFormed (insert topic (insert client conn clients) subs)
      grown =
          insert-IsWellFormed topic (insert client conn clients) subs
            (inl h, insert-HasDistinctKeys client conn clients held.1) w

  subscribe_orders-IsWellFormed :
      (conn : ℕ) (client topic : Text) (subs : Subscriptions)
      → IsWellFormed subs
      → IsWellFormed (subscribe_orders config conn client topic subs).1
  unfolding subscribe_orders
  subscribe_orders-IsWellFormed conn client topic subs w =
      elim (Bool-cases (is_valid_order_topic config topic)) [
        | inl valid ↦ elim (Option-cases (lookup topic subs)) [
          | inl fresh ↦ rw (fresh_topic config conn client topic subs valid fresh) (
              unfold subscribe_new in
              insert-IsWellFormed topic (insert client conn []) subs
                (inl valid, insert-HasDistinctKeys client conn [] tt) w)
          | inr (clients, known) ↦
              rw (known_topic config conn client topic subs clients valid known)
                (subscribe_known-IsWellFormed conn client topic clients subs valid known w)
        ]
        | inr invalid ↦ rw (invalid, subscribe_orders) w
      ]

  deleted-IsEntry :
      (client topic : Text) (clients : Clients)
      → IsEntry (topic, clients)
      → IsEntry (topic, delete client clients)
  deleted-IsEntry client topic clients (inl valid, d) =
      (inl valid, delete-HasDistinctKeys client clients d)
  deleted-IsEntry client topic clients (inr (first, empty), d) =
      (inr (first, rw empty (unfold delete in refl)), delete-HasDistinctKeys client clients d)

  unsubscribe_orders-IsWellFormed :
      (client topic : Text) (subs : Subscriptions)
      → IsWellFormed subs
      → IsWellFormed (unsubscribe_orders client topic subs)
  unfolding unsubscribe_orders
  unsubscribe_orders-IsWellFormed client topic subs w = elim (Option-cases (lookup topic subs)) [
    | inl missing ↦ rw (missing, unsubscribe_orders) w
    | inr (clients, known) ↦
        rw (known, unsubscribe_orders)
          (insert-IsWellFormed topic (delete client clients) subs
            (deleted-IsEntry client topic clients
              (All-lookup IsEntry topic clients subs known w.entries))
            w)
  ]

  remove_client-Fresh :
      (client j : Text) (subs : Subscriptions)
      → All (λ p. p.0 ≢ j) subs
      → All (λ p. p.0 ≢ j) (remove_client client subs)
  unfolding remove_client
  remove_client-Fresh client j [] h = tt
  remove_client-Fresh client j ((topic, clients) ∷ subs) h =
      (h.0, remove_client-Fresh client j subs h.1)

  remove_client-distinct :
      (client : Text) (subs : Subscriptions)
      → HasDistinctKeys subs
      → HasDistinctKeys (remove_client client subs)
  unfolding remove_client
  remove_client-distinct client [] h = tt
  remove_client-distinct client ((topic, clients) ∷ subs) h =
      (remove_client-Fresh client topic subs h.0, remove_client-distinct client subs h.1)

  remove_client-entries :
      (client : Text) (subs : Subscriptions)
      → All IsEntry subs
      → All IsEntry (remove_client client subs)
  unfolding remove_client
  remove_client-entries client [] h = tt
  remove_client-entries client ((topic, clients) ∷ subs) h =
      (deleted-IsEntry client topic clients h.0, remove_client-entries client subs h.1)

  handle_request-IsWellFormed :
      (conn : ℕ) (client : Text) (message : Option ClientMessage) (subs : Subscriptions)
      → IsWellFormed subs
      → IsWellFormed (handle_request config conn client message subs).1
  unfolding handle_request
  handle_request-IsWellFormed conn client none subs w = w
  handle_request-IsWellFormed conn client (some m) subs w =
      let topic = trim_space (to_lower m.topic) in
      let type = trim_space (to_lower m.type) in
      let joined = subscribe_orders-IsWellFormed conn client topic subs w in
      let parted = unsubscribe_orders-IsWellFormed client topic subs w in
      elim (Bool-cases (type == codes "subscribe")) [
        | inl yes_sub ↦ rw (yes_sub, handle_request) joined
        | inr no_sub ↦ elim (Bool-cases (type == codes "unsubscribe")) [
          | inl yes_un ↦ rw (no_sub, yes_un, handle_request) parted
          | inr no_un ↦ rw (no_sub, no_un, handle_request) w
        ]
      ]

  -- What the clients make the server do: a message arrives on a connection, or a connection fails
  -- and its client is removed.
  pub data Step : Subscriptions → Subscriptions → Type 0 where
    message :
        (conn : ℕ) (client : Text) (m : Option ClientMessage) {subs : Subscriptions}
        → Step subs (handle_request config conn client m subs).1
    gone : (client : Text) {subs : Subscriptions} → Step subs (remove_client client subs)

  pub data Reach : Subscriptions → Type 0 where
    start : Reach new_server
    next : {subs subs' : Subscriptions} → Reach subs → Step subs subs' → Reach subs'

  pub Step-IsWellFormed :
      {subs subs' : Subscriptions} → Step subs subs' → IsWellFormed subs → IsWellFormed subs'
  Step-IsWellFormed (message conn client m {subs = s}) w =
      handle_request-IsWellFormed conn client m s w
  Step-IsWellFormed (gone client {subs = s}) w = record {
    distinct = remove_client-distinct client s w.distinct;
    entries = remove_client-entries client s w.entries;
  }

  -- After any sequence of client messages and removed clients from the new server on, each topic
  -- stands once in the subscriptions, each client stands once under a topic, and each topic is
  -- one that isValidOrderTopic accepts or is the initial topic, under which no client ever
  -- stands.
  pub Reach-IsWellFormed : {subs : Subscriptions} → Reach subs → IsWellFormed subs
  unfolding new_server
  Reach-IsWellFormed start = record { distinct = (tt, tt); entries = ((inr (refl, refl), tt), tt) }
  Reach-IsWellFormed (next r st) = Step-IsWellFormed st (Reach-IsWellFormed r)
