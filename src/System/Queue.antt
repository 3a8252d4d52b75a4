-- ===== src/System/Queue.antt =====
-- OrderSubmission and handleNewOrder keep Redis clean, and what handleNewOrder sends from a clean
-- Redis.
use d8x_broker_server.Base.{
  ℕ, zero, suc, ◌≡◌, ◌≢◌, refl, sym, ap, subst, inl, inr, List, [], ◌∷◌, Option, none, some, ◌==◌,
  Map, lookup, ℤ, Bool-cases, All, All-append, arith, get_or, Option-cases, HasDistinctKeys,
  All-lookup, beq_self,
}
use d8x_broker_server.Text.{Text, text_eq, text_beq_iff}
use d8x_broker_server.Sdk.{Sdk}
use d8x_broker_server.Redis.{Redis}
use d8x_broker_server.Redis.Documented.{
  Reply, ok, err, Value, absent, str, hash, list, View, list_value, popped, fields_of,
}
use d8x_broker_server.Redis.Connected.{Connected, lpop-Does}
use d8x_broker_server.Orders.{ChainConfig, stack_name, submit_one, order_submission}
use d8x_broker_server.Orders.Store.{stack_name-Holds}
use d8x_broker_server.Orders.Submit.{stored, stack_of, announced, submit_view, submit_one-view}
use d8x_broker_server.Orders.Announce.{grown, lpush-key}
use d8x_broker_server.Pen.{SignaturePen}
use d8x_broker_server.System.Clean.{Issued, CleanAt, IsClean, update-IsClean}
use d8x_broker_server.System.Keys.{IsTopic}
use d8x_broker_server.Ws.Subs.{Subscriptions, Clients, ServerResponse}
use d8x_broker_server.Ws.Subs.Requests.{subscriber, client_in}
use d8x_broker_server.Ws.Subs.Invariant.{IsWellFormed, IsEntry}
use d8x_broker_server.Ws.Notify.{
  Write, notify, broadcast, update_message, order_resp, handle_order_id, handle_new_order,
}
use d8x_broker_server.Ws.Notify.Update.{shown, order_resp-Holds}
use d8x_broker_server.Ws.Notify.Drain.{
  handle_order_id-writes, end_round, take_round, no_round, sent_state,
}

-- A client in the rest of a map with distinct keys is found in the whole map.
lookup-rest :
    (k : Text) (conn : ℕ) (clients : Clients) (client : Text) (c : ℕ)
    → All (λ p. p.0 ≢ k) clients
    → lookup client clients ≡ some c
    → lookup client ((k, conn) ∷ clients) ≡ some c
unfolding lookup
lookup-rest k conn clients client c fresh at =
    let differ : client ≢ k = All-lookup (λ p. p.0 ≢ k) client c clients at fresh in
    ground (arith, text_beq_iff k client)

broadcast-All :
    (P : Write → Type 0) (clients : Clients) (distinct : HasDistinctKeys clients)
    (msg : ServerResponse)
    → ((client : Text) (conn : ℕ) → lookup client clients ≡ some conn → P (conn, msg))
    → All P (broadcast clients msg)
unfolding broadcast
broadcast-All P [] distinct msg each = tt
broadcast-All P ((k, conn) ∷ clients) distinct msg each = (
  each k conn (unfold lookup in rw (beq_self k) refl),
  broadcast-All P clients distinct.1 msg
      (λ client c at. each client c (lookup-rest k conn clients client c distinct.0 at)),
)

abbrev clients_of : Option Clients → Clients
clients_of o = elim o [ none ↦ [] | some v ↦ v ]

held_client :
    (o : Option Clients) (client : Text) (conn : ℕ)
    → lookup client (clients_of o) ≡ some conn
    → client_in o client ≡ some conn
unfolding lookup
held_client none client conn at = cc at
held_client (some clients) client conn at = at

held_distinct :
    (config : Map ℤ ChainConfig) (topic : Text) (subs : Subscriptions) (o : Option Clients)
    → lookup topic subs ≡ o
    → IsWellFormed config subs
    → HasDistinctKeys (clients_of o)
held_distinct config topic subs none missing w = tt
held_distinct config topic subs (some clients) known w =
    (All-lookup (IsEntry config) topic clients subs known w.entries).1

module _ (sdk : Sdk) (pen : SignaturePen) where
  abbrev Clean : View → Type 0
  Clean = IsClean sdk pen

  abbrev At : Text → Value → Type 0
  At = CleanAt sdk pen

  pub Issued-IsTopic :
      (id : Text) (m : Map Text Text) → Issued sdk pen id m → IsTopic (stack_name m)
  Issued-IsTopic id m i =
      (i.res.order.perpetual_id, i.chain_id, stack_name-Holds m i.res.order i.chain_id i.holds)

  pub grown-clean : (id k : Text) (x : Value) → IsTopic k → At k x → At k (grown id x)
  grown-clean id k absent t c = t
  grown-clean id k (str x) t c = c
  grown-clean id k (hash m) t c = c
  grown-clean id k (list ids) t c = t

  announced-Clean :
      (v : View) (id : Text) → IsTopic (stack_of v id) → Clean v → Clean (announced v id)
  announced-Clean v id t c k = elim (Bool-cases (stack_of v id == k)) [
    | inl same ↦
        let at : stack_of v id ≡ k = (text_beq_iff (stack_of v id) k).0 same in
        rw (lpush-key (stack_of v id) id k v, same)
          (grown-clean id k (v.key k) (subst IsTopic at t) (c k))
    | inr differ ↦ rw (lpush-key (stack_of v id) id k v, differ) (c k)
  ]

  submit_found-Clean :
      (v : View) (id : Text) (x : Value)
      → v.key id ≡ x
      → Clean v
      → Clean (submit_view id (fields_of x) v).1
  submit_found-Clean v id absent e c = c
  submit_found-Clean v id (str x) e c = c
  submit_found-Clean v id (hash []) e c = c
  submit_found-Clean v id (hash (f ∷ fs)) e c =
      let issued : Issued sdk pen id (f ∷ fs) = subst (At id) e (c id) in
      announced-Clean v id
        (subst IsTopic (sym (ap (λ x. stack_name (stored x)) e))
          (Issued-IsTopic id (f ∷ fs) issued))
        c
  submit_found-Clean v id (list xs) e c = c

  pub list_value-clean : (k : Text) (ids : List Text) → IsTopic k → At k (list_value ids)
  list_value-clean k [] t = tt
  list_value-clean k (id ∷ ids) t = t

  pub popped-Clean :
      (v : View) (k : Text) (x : Value) → v.key k ≡ x → Clean v → Clean (popped k x v).1
  popped-Clean v k absent e c = c
  popped-Clean v k (str x) e c = c
  popped-Clean v k (hash m) e c = c
  popped-Clean v k (list []) e c = c
  popped-Clean v k (list (id ∷ ids)) e c =
      update-IsClean sdk pen v k (list_value ids) c (list_value-clean k ids (subst (At k) e (c k)))

  -- A write that tells a subscriber of the topic of an order which the pen has signed, with the
  -- fields of that order, under its id.
  pub record IsOrderUpdate (subs : Subscriptions) (topic : Text) (w : Write) : Type 0 where
    pub client : Text
    pub subscribed : subscriber subs topic client ≡ some w.0
    pub id : Text
    pub fields : Map Text Text
    pub issued : Issued sdk pen id fields
    pub message : w.1 ≡ update_message topic (shown id issued.res.order)

  module _ (r : Redis) (c : Connected r) where
    open r use {Store, view, lpop}

    submit_one-Clean : (id : Text) (s : Store) → Clean (view s) → Clean (view (submit_one r id s).1)
    submit_one-Clean id s clean =
        subst Clean (sym (submit_one-view r c id s).1)
          (submit_found-Clean (view s) id ((view s).key id) refl clean)

    pub order_submission-IsClean :
        (ids : List Text) (s : Store) → Clean (view s) → Clean (view (order_submission r ids s).1)
    unfolding order_submission
    order_submission-IsClean [] s clean = clean
    order_submission-IsClean (id ∷ ids) s clean =
        let after = submit_one-Clean id s clean in
        elim (Option-cases (submit_one r id s).0) [
          | inl going ↦
              rw (going, order_submission)
                (order_submission-IsClean ids (submit_one r id s).1 after)
          | inr (e, failed) ↦ rw (failed, order_submission) after
        ]

    pub lpop-Clean : (k : Text) (s : Store) → Clean (view s) → Clean (view (lpop k s).1)
    lpop-Clean k s clean =
        subst Clean (sym (lpop-Does r c k s).1)
          (popped-Clean (view s) k ((view s).key k) refl clean)

    module _ (config : Map ℤ ChainConfig) (subs : Subscriptions) (formed : IsWellFormed config subs)
        (topic : Text) where
      pub notify-IsOrderUpdate :
          (id : Text) (x : Value)
          → At id x
          → All (IsOrderUpdate subs topic) (notify subs id topic (ok (stored x)))
      unfolding notify
      notify-IsOrderUpdate id absent issued = tt
      notify-IsOrderUpdate id (str x) issued = tt
      notify-IsOrderUpdate id (hash []) issued = tt
      notify-IsOrderUpdate id (hash (f ∷ fs)) issued =
          let read =
            order_resp-Holds id (f ∷ fs) issued.res.order issued.chain_id issued.holds
              issued.fits in
          broadcast-All (IsOrderUpdate subs topic) (get_or [] topic subs)
            (held_distinct config topic subs (lookup topic subs) refl formed)
            (update_message topic (order_resp id (f ∷ fs)))
            (λ client conn at. record {
              client = client;
              subscribed = held_client (lookup topic subs) client conn at;
              id = id;
              fields = f ∷ fs;
              issued = issued;
              message = ap (update_message topic) read;
            })
      notify-IsOrderUpdate id (list xs) issued = tt

      -- What a call that ends has sent, and the store that it leaves.
      abbrev Sent : Option (List Write × Store) → Type 0
      Sent none = Unit
      Sent (some (writes, t)) = All (IsOrderUpdate subs topic) writes × Clean (view t)

      sent_state-Clean :
          (id : Text) (s : Store) → Clean (view s) → Clean (view (sent_state r c subs id topic s))
      sent_state-Clean id s clean =
          subst Clean (sym (handle_order_id-writes r c subs id topic (lpop topic s).1).1)
            (lpop-Clean topic s clean)

      order_writes :
          (id : Text) (s : Store)
          → Clean (view s)
          → All (IsOrderUpdate subs topic) (handle_order_id r subs id topic s).0
      order_writes id s clean =
          subst (All (IsOrderUpdate subs topic))
            (sym (handle_order_id-writes r c subs id topic s).0)
            (notify-IsOrderUpdate id ((view s).key id) (clean id))

      Sent-rest :
          (fuel : ℕ) (id : Text) (s : Store) (rest : Option (List Write × Store))
          → Clean (view s)
          → (lpop topic s).0 ≡ ok id
          → handle_new_order r subs fuel topic (sent_state r c subs id topic s) ≡ rest
          → Sent rest
          → Sent (handle_new_order r subs (suc fuel) topic s)
      Sent-rest fuel id s none clean popped ended sent =
          rw (no_round r c subs fuel topic id s popped ended) tt
      Sent-rest fuel id s (some (more, t)) clean popped ended sent =
          rw (take_round r c subs fuel topic id s t more popped ended) (
            All-append (IsOrderUpdate subs topic) _ more
                (order_writes id (lpop topic s).1 (lpop-Clean topic s clean)) sent.0,
            sent.1,
          )

      Sent-round :
          (fuel : ℕ) (s : Store) (reply : Reply Text)
          → Clean (view s)
          → (lpop topic s).0 ≡ reply
          → ((id : Text)
              → Sent (handle_new_order r subs fuel topic (sent_state r c subs id topic s)))
          → Sent (handle_new_order r subs (suc fuel) topic s)
      Sent-round fuel s (err f) clean popped sent =
          rw (end_round r c subs fuel topic s f popped) (tt, lpop-Clean topic s clean)
      Sent-round fuel s (ok id) clean popped sent =
          Sent-rest fuel id s _ clean popped refl (sent id)

      handle_new_order-Sent :
          (fuel : ℕ) (s : Store) → Clean (view s) → Sent (handle_new_order r subs fuel topic s)
      unfolding handle_new_order
      handle_new_order-Sent zero s clean = tt
      handle_new_order-Sent (suc fuel) s clean =
          Sent-round fuel s (lpop topic s).0 clean refl (λ id.
            handle_new_order-Sent fuel (sent_state r c subs id topic s)
              (sent_state-Clean id s clean))

      pub handle_new_order-IsOrderUpdate :
          (fuel : ℕ) (s t : Store) (writes : List Write)
          → Clean (view s)
          → handle_new_order r subs fuel topic s ≡ some (writes, t)
          → All (IsOrderUpdate subs topic) writes × Clean (view t)
      handle_new_order-IsOrderUpdate fuel s t writes clean ended =
          subst Sent ended (handle_new_order-Sent fuel s clean)
