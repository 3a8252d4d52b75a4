-- ===== src/Ws/Notify/Drain.antt =====
-- The loop of handleNewOrder of executorws/server.go over the stack of its topic.
use d8x_broker_server.Base.{
  ℕ, zero, suc, ◌≡◌, refl, ◌∙◌, ap, subst, ◌<◌, List, [], ◌∷◌, ◌++◌, Option, none, some, arith,
  length, inl, inr, ◌⊎◌, ◌≢◌, beq_self,
}
use d8x_broker_server.Text.{Text, text_eq, text_beq_iff}
use d8x_broker_server.Redis.{Redis}
use d8x_broker_server.Redis.Documented.{
  Reply, ok, err, Value, absent, str, hash, list, View, Fault, fields_of, popped, list_value,
  update,
}
use d8x_broker_server.Redis.Connected.{Connected, hgetall-Does, lpop-Does}
use d8x_broker_server.Orders.Submit.{stored, items}
use d8x_broker_server.Ws.Subs.{Subscriptions}
use d8x_broker_server.Ws.Notify.{Write, notify, handle_order_id, handle_new_order}

-- The writes for the ids of a stack, in the order of the stack: an id whose order has expired is
-- passed over.
abbrev pub writes_for : Subscriptions → View → Text → List Text → List Write
writes_for subs v topic [] = []
writes_for subs v topic (id ∷ ids) =
    notify subs id topic (ok (stored (v.key id))) ++ writes_for subs v topic ids

notify-fields_of :
    (subs : Subscriptions) (id topic : Text) (x : Value)
    → notify subs id topic (fields_of x) ≡ notify subs id topic (ok (stored x))
unfolding notify
notify-fields_of subs id topic absent = refl
notify-fields_of subs id topic (str x) = refl
notify-fields_of subs id topic (hash m) = refl
notify-fields_of subs id topic (list xs) = refl

writes_for-stored :
    (subs : Subscriptions) (v w : View) (topic : Text) (ids : List Text)
    → ((k : Text) → stored (w.key k) ≡ stored (v.key k))
    → writes_for subs w topic ids ≡ writes_for subs v topic ids
writes_for-stored subs v w topic [] h = refl
writes_for-stored subs v w topic (id ∷ ids) h = rw (h id, writes_for-stored subs v w topic ids h)

-- Nothing was on the stack and nothing has changed.
abbrev Ended : View → Text → Reply Text → View → Type 0
Ended v topic reply w = (items (v.key topic) ≡ []) × ((f : Fault) × (reply ≡ err f)) × (w ≡ v)

-- The newest id was taken off the stack.
abbrev Took : View → Text → Reply Text → View → Type 0
Took v topic reply w =
    (id : Text) × (items (v.key topic) ≡ id ∷ items (w.key topic))
    × (reply ≡ ok id)
    × ((k : Text) → stored (w.key k) ≡ stored (v.key k))
    × ((k : Text) → k ≢ topic → w.key k ≡ v.key k)
    × (w.sent ≡ v.sent)

list_value-items : (xs : List Text) → items (list_value xs) ≡ xs
list_value-items [] = refl
list_value-items (x ∷ xs) = refl

list_value-stored : (xs : List Text) → stored (list_value xs) ≡ []
list_value-stored [] = refl
list_value-stored (x ∷ xs) = refl

taken-Took :
    (v : View) (topic id : Text) (ids : List Text)
    → v.key topic ≡ list (id ∷ ids)
    → Took v topic (ok id) (record v { key = update topic (list_value ids) v.key })
taken-Took v topic id ids e = (
  id,
  rw (beq_self topic, e, list_value-items ids),
  refl,
  λ k. ground (arith, text_beq_iff topic k, list_value-stored ids, ap stored e),
  λ k h. ground (arith, text_beq_iff topic k),
  refl,
)

popped_cases :
    (v : View) (topic : Text) (x : Value)
    → v.key topic ≡ x
    → Ended v topic (popped topic x v).0 (popped topic x v).1
      ⊎ Took v topic (popped topic x v).0 (popped topic x v).1
popped_cases v topic absent e = inl (ap items e, (_, refl), refl)
popped_cases v topic (str x) e = inl (ap items e, (_, refl), refl)
popped_cases v topic (hash m) e = inl (ap items e, (_, refl), refl)
popped_cases v topic (list []) e = inl (ap items e, (_, refl), refl)
popped_cases v topic (list (id ∷ ids)) e = inr (taken-Took v topic id ids e)

-- The loop ended by itself: the writes are those for the stack as it was, the stack is empty, no
-- other key has changed, and nothing was published.
pub record Drained {S : Type 0} (view : S → View) (subs : Subscriptions) (topic : Text) (v : View)
    (result : Option (List Write × S)) : Type 0 where
  pub final : S
  pub returned : result ≡ some (writes_for subs v topic (items (v.key topic)), final)
  pub empty : items ((view final).key topic) ≡ []
  pub others : (k : Text) → k ≢ topic → (view final).key k ≡ v.key k
  pub orders : (k : Text) → stored ((view final).key k) ≡ stored (v.key k)
  pub silent : (view final).sent ≡ v.sent

module _ (r : Redis) (c : Connected r) (subs : Subscriptions) where
  open r use {Store, view, hgetall, lpop}

  pub handle_order_id-writes :
      (id topic : Text) (s : Store)
      → ((handle_order_id r subs id topic s).0
          ≡ notify subs id topic (ok (stored ((view s).key id))))
        × (view (handle_order_id r subs id topic s).1 ≡ view s)
  unfolding handle_order_id
  handle_order_id-writes id topic s =
      let does = hgetall-Does r c id s in
      (ap (notify subs id topic) does.0 ∙ notify-fields_of subs id topic ((view s).key id), does.1)

  pub lpop_cases :
      (topic : Text) (s : Store)
      → Ended (view s) topic (lpop topic s).0 (view (lpop topic s).1)
        ⊎ Took (view s) topic (lpop topic s).0 (view (lpop topic s).1)
  lpop_cases topic s =
      let does = lpop-Does r c topic s in
      rw (does.0, does.1) (popped_cases (view s) topic ((view s).key topic) refl)

  pub end_round :
      (fuel : ℕ) (topic : Text) (s : Store) (f : Fault)
      → (lpop topic s).0 ≡ err f
      → handle_new_order r subs (suc fuel) topic s ≡ some ([], (lpop topic s).1)
  unfolding handle_new_order
  end_round fuel topic s f e = rw (e, handle_new_order)

  -- The state after the order of a popped id was sent.
  abbrev pub sent_state : Text → Text → Store → Store
  sent_state id topic s = (handle_order_id r subs id topic (lpop topic s).1).1

  pub take_round :
      (fuel : ℕ) (topic id : Text) (s t : Store) (more : List Write)
      → (lpop topic s).0 ≡ ok id
      → handle_new_order r subs fuel topic (sent_state id topic s) ≡ some (more, t)
      → handle_new_order r subs (suc fuel) topic s
        ≡ some ((handle_order_id r subs id topic (lpop topic s).1).0 ++ more, t)
  unfolding handle_new_order
  take_round fuel topic id s t more e h = rw (e, handle_new_order) (rw (h, handle_new_order))

  -- Without fuel for the rest there is no result.
  pub no_round :
      (fuel : ℕ) (topic id : Text) (s : Store)
      → (lpop topic s).0 ≡ ok id
      → handle_new_order r subs fuel topic (sent_state id topic s) ≡ none
      → handle_new_order r subs (suc fuel) topic s ≡ none
  unfolding handle_new_order
  no_round fuel topic id s e h = rw (e, handle_new_order) (rw (h, handle_new_order))

  Drained-end :
      (fuel : ℕ) (topic : Text) (s : Store)
      → Ended (view s) topic (lpop topic s).0 (view (lpop topic s).1)
      → Drained view subs topic (view s) (handle_new_order r subs (suc fuel) topic s)
  Drained-end fuel topic s (none_left, (f, failed), same) = record {
    final = (lpop topic s).1;
    returned = rw none_left (end_round fuel topic s f failed);
    empty = rw same none_left;
    others = λ k h. rw same;
    orders = λ k. rw same;
    silent = rw same;
  }

  took_writes :
      (topic id : Text) (s : Store)
      → items ((view s).key topic) ≡ id ∷ items ((view (lpop topic s).1).key topic)
      → ((k : Text) → stored ((view (lpop topic s).1).key k) ≡ stored ((view s).key k))
      → (handle_order_id r subs id topic (lpop topic s).1).0
          ++ writes_for subs
              (view (lpop topic s).1)
              topic
              (items ((view (lpop topic s).1).key topic))
        ≡ writes_for subs (view s) topic (items ((view s).key topic))
  took_writes topic id s top kept = rw (
    (handle_order_id-writes id topic (lpop topic s).1).0,
    kept id,
    writes_for-stored subs (view s) (view (lpop topic s).1) topic
        (items ((view (lpop topic s).1).key topic)) kept,
    top,
  )

  Drained-Took :
      (fuel : ℕ) (topic : Text) (s : Store)
      (took : Took (view s) topic (lpop topic s).0 (view (lpop topic s).1))
      → Drained view subs topic
          (view (lpop topic s).1)
          (handle_new_order r subs fuel topic (sent_state took.0 topic s))
      → Drained view subs topic (view s) (handle_new_order r subs (suc fuel) topic s)
  Drained-Took fuel topic s (id, top, popped_id, kept, others, silent) d = record {
    final = d.final;
    returned =
        take_round fuel topic id s d.final _ popped_id d.returned
        ∙ ap (λ writes. some (writes, d.final)) (took_writes topic id s top kept);
    empty = d.empty;
    others = λ k h. d.others k h ∙ others k h;
    orders = λ k. d.orders k ∙ kept k;
    silent = d.silent ∙ silent;
  }

  -- On a Redis whose answers all arrive, and with more fuel than the stack of the topic has ids,
  -- handleNewOrder ends. Its writes are, id by id from the top of the stack, those for the order
  -- stored under the id, and none for an id without an order; the stack is empty afterwards, no
  -- other key has changed, every stored order is still there, and nothing was published.
  pub handle_new_order-Drained :
      (fuel : ℕ) (topic : Text) (s : Store)
      → length (items ((view s).key topic)) < fuel
      → Drained view subs topic (view s) (handle_new_order r subs fuel topic s)
  handle_new_order-Drained zero topic s h = elim h [ ]
  handle_new_order-Drained (suc fuel) topic s h = elim (lpop_cases topic s) [
    | inl ended ↦ Drained-end fuel topic s ended
    | inr took ↦
        let after = (handle_order_id-writes took.0 topic (lpop topic s).1).1 in
        let shorter : length (items ((view (sent_state took.0 topic s)).key topic)) < fuel =
          rw after (omega (arith, ap length took.1)) in
        Drained-Took fuel topic s took (
          subst
            (λ v.
              Drained view subs topic v
                (handle_new_order r subs fuel topic (sent_state took.0 topic s)))
            after (handle_new_order-Drained fuel topic (sent_state took.0 topic s) shorter))
  ]

  -- With any fuel, the loop is cut off or ends by itself.
  cut_or_Drained :
      (fuel : ℕ) (topic : Text) (s : Store)
      → (handle_new_order r subs fuel topic s ≡ none)
        ⊎ Drained view subs topic (view s) (handle_new_order r subs fuel topic s)
  unfolding handle_new_order
  cut_or_Drained zero topic s = inl refl
  cut_or_Drained (suc fuel) topic s = elim (lpop_cases topic s) [
    | inl ended ↦ inr (Drained-end fuel topic s ended)
    | inr took ↦
        let after = (handle_order_id-writes took.0 topic (lpop topic s).1).1 in
        elim (cut_or_Drained fuel topic (sent_state took.0 topic s)) [
          | inl cut ↦ inl (no_round fuel topic took.0 s took.2 cut)
          | inr d ↦ inr (
              Drained-Took fuel topic s took (
                subst
                  (λ v.
                    Drained view subs topic v
                      (handle_new_order r subs fuel topic (sent_state took.0 topic s)))
                  after d))
        ]
  ]

  -- What a call that ends has done to Redis: the stack is empty, no other key has changed, and
  -- nothing was published.
  pub record Emptied (v w : View) (topic : Text) : Type 0 where
    pub empty : items (w.key topic) ≡ []
    pub others : (k : Text) → k ≢ topic → w.key k ≡ v.key k
    pub silent : w.sent ≡ v.sent

  pub handle_new_order-Emptied :
      (fuel : ℕ) (topic : Text) (s t : Store) (writes : List Write)
      → handle_new_order r subs fuel topic s ≡ some (writes, t)
      → Emptied (view s) (view t) topic
  handle_new_order-Emptied fuel topic s t writes ended = elim (cut_or_Drained fuel topic s) [
    | inl cut ↦ cc (cut, ended)
    | inr d ↦
        let same : d.final ≡ t = cc (d.returned, ended) in
        subst (λ u. Emptied (view s) (view u) topic) same
          (record { empty = d.empty; others = d.others; silent = d.silent })
  ]
