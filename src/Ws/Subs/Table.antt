-- ===== src/Ws/Subs/Table.antt =====
-- The abstract view of the subscriptions: which connection a client has under a topic. The order of
-- the maps, and topics without clients, are forgotten.
use d8x_broker_server.Base.{
  ℕ, ◌≡◌, refl, sym, ◌∙◌, ap, inl, inr, ◌&&◌, List, [], ◌∷◌, ◌++◌, Option, none, some, arith, ◌==◌,
  if◌then◌else◌, Map, lookup, ℤ, Bool-cases, Option-cases,
}
use d8x_broker_server.Text.{Text, text_eq, codes, to_lower, trim_space}
use d8x_broker_server.Orders.{ChainConfig}
use d8x_broker_server.Ws.Topic.{is_valid_order_topic}
use d8x_broker_server.Ws.Subs.{
  Subscriptions, ClientMessage, ServerResponse, new_server, ack_sub, error_response, remove_client,
  subscribe_orders, unsubscribe_orders, handle_request,
}
use d8x_broker_server.Ws.Subs.Requests.{
  subscriber, subscribe_orders-Subscribed, unsubscribe_orders-left, remove_client-none,
}

-- What the clients do to the server, one after the other.
pub data Event : Type 0 where
  message : (conn : ℕ) (client : Text) (m : Option ClientMessage) → Event
  gone : (client : Text) → Event

abbrev pub Table : Type 0
Table = Text → Text → Option ℕ

-- The table with another entry.
abbrev pub put : Text → Text → Option ℕ → Table → Table
put topic client o table t id = if topic == t && client == id then o else table t id

-- The table without a client.
abbrev pub drop_client : Text → Table → Table
drop_client client table t id = if client == id then none else table t id

abbrev pub usage : Text → ServerResponse
usage topic = error_response (codes "subscribe") topic (codes "usage: perpetualId:chainId")

abbrev pub already_in : Text → ServerResponse
already_in topic = error_response (codes "subscribe") topic (codes "client already subscribed")

module _ (config : Map ℤ ChainConfig) where
  -- What a subscription should do.
  unfoldable pub subscribe : ℕ → Text → Text → Table → List ServerResponse × Table
  subscribe conn client topic table =
      if is_valid_order_topic config topic
      then elim (table topic client) [
        | some _ ↦ (already_in topic ∷ [], table)
        | none ↦ (ack_sub topic ∷ [], put topic client (some conn) table)
      ]
      else (usage topic ∷ [], table)

  -- What a message should do.
  unfoldable pub request : ℕ → Text → Option ClientMessage → Table → List ServerResponse × Table
  unfolding subscribe
  request conn client none table = ([], table)
  request conn client (some m) table =
      let topic = trim_space (to_lower m.topic) in
      let type = trim_space (to_lower m.type) in
      if type == codes "subscribe"
      then subscribe conn client topic table
      else if type == codes "unsubscribe"
      then ([], put topic client none table)
      else ([], table)

  -- The server on a sequence of events: all responses, and the subscriptions.
  unfoldable pub run : List Event → Subscriptions → List ServerResponse × Subscriptions
  run [] subs = ([], subs)
  run (message conn client m ∷ more) subs =
      let (sent, next) = handle_request config conn client m subs in
      let (rest, final) = run more next in (sent ++ rest, final)
  run (gone client ∷ more) subs = run more (remove_client client subs)

  -- The table on a sequence of events.
  unfoldable pub run_table : List Event → Table → List ServerResponse × Table
  unfolding request
  run_table [] table = ([], table)
  run_table (message conn client m ∷ more) table =
      let (sent, next) = request conn client m table in
      let (rest, final) = run_table more next in (sent ++ rest, final)
  run_table (gone client ∷ more) table = run_table more (drop_client client table)

-- The subscriptions show the table.
abbrev pub Shows : Subscriptions → Table → Type 0
Shows subs table = (t id : Text) → subscriber subs t id ≡ table t id

-- The same responses, and subscriptions that show the table.
abbrev pub Agrees : List ServerResponse × Subscriptions → List ServerResponse × Table → Type 0
Agrees (sent, subs) (said, table) = (sent ≡ said) × Shows subs table

-- A new server shows the empty table.
pub new_server-Shows : Shows new_server (λ t id. none)
unfolding new_server lookup
new_server-Shows t id = ground arith

put-Shows :
    (subs next : Subscriptions) (table : Table) (topic client : Text) (o : Option ℕ)
    → Shows subs table
    → Shows next (put topic client o (subscriber subs))
    → Shows next (put topic client o table)
put-Shows subs next table topic client o shows grown t id = grown t id ∙ ground (arith, shows t id)

module _ (config : Map ℤ ChainConfig) where
  subscribe-Agrees :
      (conn : ℕ) (client topic : Text) (subs : Subscriptions) (table : Table)
      → Shows subs table
      → Agrees
          (
            (subscribe_orders config conn client topic subs).0 ∷ [],
            (subscribe_orders config conn client topic subs).1,
          )
          (subscribe config conn client topic table)
  unfolding subscribe
  subscribe-Agrees conn client topic subs table shows =
      elim (subscribe_orders-Subscribed config conn client topic subs) [
        | inl (invalid, answer, same) ↦
            rw (invalid, subscribe)
              (ap (λ a. a ∷ []) answer, λ t id. ap (λ s. subscriber s t id) same ∙ shows t id)
        | inr (inl (valid, here, answer, same)) ↦ elim (Option-cases (table topic client)) [
          | inl empty ↦ absurd (here (shows topic client ∙ empty))
          | inr (c, held) ↦
              rw (valid, held, subscribe)
                (ap (λ a. a ∷ []) answer, λ t id. ap (λ s. subscriber s t id) same ∙ shows t id)
        ]
        | inr (inr (valid, absent, answer, grown)) ↦
            let empty = sym (shows topic client) ∙ absent in
            rw (valid, empty, subscribe)
              (
                ap (λ a. a ∷ []) answer,
                put-Shows subs (subscribe_orders config conn client topic subs).1 table topic client
                    (some conn) shows grown,
              )
      ]

  request-Agrees :
      (conn : ℕ) (client : Text) (m : Option ClientMessage) (subs : Subscriptions) (table : Table)
      → Shows subs table
      → Agrees (handle_request config conn client m subs) (request config conn client m table)
  unfolding handle_request request
  request-Agrees conn client none subs table shows = (refl, shows)
  request-Agrees conn client (some m) subs table shows =
      let topic = trim_space (to_lower m.topic) in
      let type = trim_space (to_lower m.type) in
      let joins = subscribe-Agrees conn client topic subs table shows in
      let parts =
        put-Shows subs (unsubscribe_orders client topic subs) table topic client none shows
          (unsubscribe_orders-left client topic subs) in
      elim (Bool-cases (type == codes "subscribe")) [
        | inl yes_sub ↦ rw (yes_sub, handle_request, request) joins
        | inr no_sub ↦ elim (Bool-cases (type == codes "unsubscribe")) [
          | inl yes_un ↦ rw (no_sub, yes_un, handle_request, request) (refl, parts)
          | inr no_un ↦ rw (no_sub, no_un, handle_request, request) (refl, shows)
        ]
      ]

  dropped-Shows :
      (client : Text) (subs : Subscriptions) (table : Table)
      → Shows subs table
      → Shows (remove_client client subs) (drop_client client table)
  dropped-Shows client subs table shows t id =
      remove_client-none client subs t id ∙ ground (arith, shows t id)

  -- On any sequence of messages and removed clients, from subscriptions that show a table of
  -- connections by topic and client, the server sends the same responses as the table does, and
  -- ends with subscriptions that show the table's end: on a table, a subscription to an invalid
  -- topic gets the usage error, one that is there gets an error, any other is acknowledged and
  -- entered; unsubscribing takes the one entry out, and a removed client all of its entries.
  pub run-Agrees :
      (events : List Event) (subs : Subscriptions) (table : Table)
      → Shows subs table
      → Agrees (run config events subs) (run_table config events table)
  unfolding run run_table
  run-Agrees [] subs table shows = (refl, shows)
  run-Agrees (message conn client m ∷ more) subs table shows =
      let (same, next) = request-Agrees conn client m subs table shows in
      let (rest, final) =
        run-Agrees more (handle_request config conn client m subs).1
          (request config conn client m table).1 next in
      (cc (same, rest), final)
  run-Agrees (gone client ∷ more) subs table shows =
      run-Agrees more (remove_client client subs) (drop_client client table)
        (dropped-Shows client subs table shows)
