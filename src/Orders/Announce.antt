-- ===== src/Orders/Announce.antt =====
-- OrderSubmission as a whole: the loop over the order ids, by the view of Redis.
use mathlib.Core.List.{append-nil, append_assoc}
use d8x_broker_server.Base.{
  ◌≡◌, refl, sym, ◌∙◌, ap, ◌≢◌, inl, inr, List, [], ◌∷◌, ◌++◌, map, arith, ◌==◌, if◌then◌else◌, All,
  Bool-cases,
}
use d8x_broker_server.Text.{Text, text_eq, text_beq_iff}
use d8x_broker_server.Redis.Documented.{Value, absent, str, hash, list, View, do_lpush}
use d8x_broker_server.Orders.{channel_new_order, stack_name}
use d8x_broker_server.Orders.Submit.{stored, stack_of, items, IsStack, announced}

abbrev pub grown : Text → Value → Value
grown id absent = list (id ∷ [])
grown id (str x) = str x
grown id (hash m) = hash m
grown id (list xs) = list (id ∷ xs)

pub lpush-key :
    (k id j : Text) (v : View)
    → (do_lpush k id v).1.key j ≡ (if k == j then grown id (v.key j) else v.key j)
lpush-key k id j v = ground (arith, text_beq_iff k j)

pub lpush-sent : (k id : Text) (v : View) → (do_lpush k id v).1.sent ≡ v.sent
lpush-sent k id v = ground arith

grown-stored : (id : Text) (x : Value) → stored (grown id x) ≡ stored x
grown-stored id absent = refl
grown-stored id (str x) = refl
grown-stored id (hash m) = refl
grown-stored id (list xs) = refl

pub grown-items : (id : Text) (x : Value) → IsStack x → items (grown id x) ≡ id ∷ items x
grown-items id absent h = refl
grown-items id (str x) h = absurd h
grown-items id (hash m) h = absurd h
grown-items id (list xs) h = refl

grown-IsStack : (id : Text) (x : Value) → IsStack x → IsStack (grown id x)
grown-IsStack id absent h = tt
grown-IsStack id (str x) h = h
grown-IsStack id (hash m) h = h
grown-IsStack id (list xs) h = tt

pub announced-stored : (v : View) (id j : Text) → stored ((announced v id).key j) ≡ stored (v.key j)
announced-stored v id j = elim (Bool-cases (stack_of v id == j)) [
  | inl same ↦ rw (lpush-key (stack_of v id) id j v, same) (grown-stored id (v.key j))
  | inr differ ↦ rw (lpush-key (stack_of v id) id j v, differ)
]

announced-IsStack : (v : View) (id j : Text) → IsStack (v.key j) → IsStack ((announced v id).key j)
announced-IsStack v id j h = elim (Bool-cases (stack_of v id == j)) [
  | inl same ↦ rw (lpush-key (stack_of v id) id j v, same) (grown-IsStack id (v.key j) h)
  | inr differ ↦ rw (lpush-key (stack_of v id) id j v, differ) h
]

-- The ids of the list that go on the stack `k`, the last one first.
abbrev pub pushed : View → Text → List Text → List Text
pushed v k [] = []
pushed v k (id ∷ ids) = pushed v k ids ++ (if stack_of v id == k then id ∷ [] else [])

announced-items :
    (v : View) (id j : Text)
    → IsStack (v.key j)
    → items ((announced v id).key j)
      ≡ (if stack_of v id == j then id ∷ [] else []) ++ items (v.key j)
announced-items v id j h = elim (Bool-cases (stack_of v id == j)) [
  | inl same ↦ rw (lpush-key (stack_of v id) id j v, same) (grown-items id (v.key j) h)
  | inr differ ↦ rw (lpush-key (stack_of v id) id j v, differ)
]

announced-stack_of : (v : View) (id j : Text) → stack_of (announced v id) j ≡ stack_of v j
announced-stack_of v id j = ap stack_name (announced-stored v id j)

announced-pushed :
    (v : View) (id k : Text) (ids : List Text) → pushed (announced v id) k ids ≡ pushed v k ids
announced-pushed v id k [] = refl
announced-pushed v id k (j ∷ ids) = rw (announced-stack_of v id j, announced-pushed v id k ids)

abbrev pub messages : View → List Text → List (Text × Text)
messages v ids = map (λ id. (channel_new_order, stack_of v id)) ids

announced-messages :
    (v : View) (id : Text) (ids : List Text) → messages (announced v id) ids ≡ messages v ids
announced-messages v id [] = refl
announced-messages v id (j ∷ ids) = rw (announced-stack_of v id j, announced-messages v id ids)

abbrev pub HasOrder : View → Text → Type 0
HasOrder v id = stored (v.key id) ≢ []

-- All ids of the list were announced: each has a stored order, its stack is published once, in the
-- order of the list, each stack grew by its ids, and no stored order has changed.
pub record Announced (v : View) (ids : List Text) (w : View) : Type 0 where
  pub known : All (HasOrder v) ids
  pub sent : w.sent ≡ v.sent ++ messages v ids
  pub stacks : (k : Text) → IsStack (v.key k) → items (w.key k) ≡ pushed v k ids ++ items (v.key k)
  pub orders : (k : Text) → stored (w.key k) ≡ stored (v.key k)

announced-HasOrder :
    (v : View) (id : Text) (ids : List Text)
    → All (HasOrder (announced v id)) ids
    → All (HasOrder v) ids
announced-HasOrder v id [] h = tt
announced-HasOrder v id (j ∷ ids) (h, hs) =
    (λ e. h (announced-stored v id j ∙ e), announced-HasOrder v id ids hs)

pub Announced-nil : (v : View) → Announced v [] v
Announced-nil v = record {
  known = tt;
  sent = sym (append-nil v.sent);
  stacks = λ k h. refl;
  orders = λ k. refl;
}

pub Announced-cons :
    (v : View) (id : Text) (ids : List Text) (w : View)
    → HasOrder v id
    → Announced (announced v id) ids w
    → Announced v (id ∷ ids) w
Announced-cons v id ids w h a = record {
  known = (h, announced-HasOrder v id ids a.known);
  sent =
      a.sent
      ∙ rw (announced-messages v id ids, lpush-sent (stack_of v id) id v)
          (append_assoc v.sent ((channel_new_order, stack_of v id) ∷ []) (messages v ids));
  stacks = λ k s.
      a.stacks k (announced-IsStack v id k s)
      ∙ rw (announced-pushed v id k ids, announced-items v id k s)
          (sym (append_assoc (pushed v k ids) _ (items (v.key k))));
  orders = λ k. a.orders k ∙ announced-stored v id k;
}
