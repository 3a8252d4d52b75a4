-- ===== src/Orders/Submit.antt =====
-- OrderSubmission against an abstract view of Redis: what it publishes, what it pushes on which
-- stack, and where it stops.
use d8x_broker_server.Base.{◌≡◌, refl, List, [], ◌∷◌, Option, none, some, arith, Map}
use d8x_broker_server.Text.{Text, text_eq}
use d8x_broker_server.Redis.{Redis}
use d8x_broker_server.Redis.Documented.{
  Reply, ok, err, Value, absent, str, hash, list, View, fields_of, do_lpush, do_publish,
}
use d8x_broker_server.Redis.Connected.{Connected, hgetall-Does, lpush-Does, publish-Does}
use d8x_broker_server.Orders.{
  channel_new_order, SubmitError, could_not_get, could_not_find, stack_name, announce, submit_found,
  submit_one,
}

-- The order that is stored under a key: its fields, none if there is no order.
abbrev pub stored : Value → Map Text Text
stored absent = []
stored (str x) = []
stored (hash m) = m
stored (list xs) = []

-- The stack of an order's perpetual and chain.
abbrev pub stack_of : View → Text → Text
stack_of v id = stack_name (stored (v.key id))

-- The order ids that wait on a stack, the newest first.
abbrev pub items : Value → List Text
items absent = []
items (str x) = []
items (hash m) = []
items (list xs) = xs

abbrev pub IsStack : Value → Type 0
IsStack absent = Unit {0}
IsStack (str x) = ⊥
IsStack (hash m) = ⊥
IsStack (list xs) = Unit {0}

-- One order id is announced: pushed on its stack, and the stack published.
abbrev pub announced : View → Text → View
announced v id = (do_publish channel_new_order (stack_of v id) (do_lpush (stack_of v id) id v).1).1

abbrev pub submit_view : Text → Reply (Map Text Text) → View → Option SubmitError × View
submit_view id (err e) v = (some (could_not_get id e), v)
submit_view id (ok []) v = (some (could_not_find id), v)
submit_view id (ok (f ∷ fs)) v = (none, announced v id)

fields_of-stored : (x : Value) (m : Map Text Text) → ok m ≡ fields_of x → m ≡ stored x
fields_of-stored absent m e = ground arith
fields_of-stored (str x) m e = ground arith
fields_of-stored (hash n) m e = ground arith
fields_of-stored (list xs) m e = ground arith

module _ (r : Redis) (c : Connected r) where
  open r use {Store, view, hgetall, lpush, publish}

  announce-view :
      (stack id : Text) (s : Store)
      → ((announce r stack id s).0 ≡ none)
        × (view (announce r stack id s).1
            ≡ (do_publish channel_new_order stack (do_lpush stack id (view s)).1).1)
  unfolding announce
  announce-view stack id s = ground (
    arith,
    lpush-Does r c stack id s,
    publish-Does r c channel_new_order stack (lpush stack id s).1,
  )

  submit_found-view :
      (id : Text) (reply : Reply (Map Text Text)) (s : Store)
      → reply ≡ fields_of ((view s).key id)
      → ((submit_found r id reply s).0 ≡ (submit_view id reply (view s)).0)
        × (view (submit_found r id reply s).1 ≡ (submit_view id reply (view s)).1)
  unfolding submit_found
  submit_found-view id (err e) s h = (refl, refl)
  submit_found-view id (ok []) s h = (refl, refl)
  submit_found-view id (ok (f ∷ fs)) s h =
      let known = announce-view (stack_name (f ∷ fs)) id s in
      (known.0, rw (← fields_of-stored _ _ h) known.1)

  -- The body of the loop does on Redis what `submit_view` does on the view.
  pub submit_one-view :
      (id : Text) (s : Store)
      → ((submit_one r id s).0 ≡ (submit_view id (fields_of ((view s).key id)) (view s)).0)
        × (view (submit_one r id s).1 ≡ (submit_view id (fields_of ((view s).key id)) (view s)).1)
  unfolding submit_one
  submit_one-view id s =
      let read = hgetall-Does r c id s in
      let rest = submit_found-view id (hgetall id s).0 (hgetall id s).1 (rw read.1 read.0) in
      rw (← read.0, ← read.1) rest
