-- ===== src/System/Turns/Effect.antt =====
-- What one command does to a clean Redis.
use mathlib.Core.List.{append-nil}
use d8x_broker_server.Base.{
  ℕ, ◌<◌, ◌≤◌, ◌≡◌, ◌≢◌, refl, sym, ◌∙◌, subst, ◌⊎◌, inl, inr, List, [], ◌∷◌, ◌++◌, ◌==◌, length,
  All, Bool-cases, Map,
}
use d8x_broker_server.Text.{Text, text_eq, text_beq_iff}
use d8x_broker_server.Sdk.{Sdk}
use d8x_broker_server.Redis.{Redis}
use d8x_broker_server.Redis.Documented.{
  Value, absent, str, hash, list, View, fields_of, do_set, do_hset, do_lpush, do_lpop, do_publish,
}
use d8x_broker_server.Redis.Connected.{
  Connected, get-Does, set-Does, hset-Does, hgetall-Does, lpush-Does, lpop-Does, publish-Does,
}
use d8x_broker_server.Redis.Prog.{
  Command, get, set, expire, hset, hgetall, lpush, lpop, publish, Prog, call, perform,
}
use d8x_broker_server.Redis.Prog
use d8x_broker_server.Orders.{channel_new_order}
use d8x_broker_server.Orders.Store.{Published, do_hset-Published}
use d8x_broker_server.Orders.Submit.{items}
use d8x_broker_server.Orders.Announce.{lpush-key, lpush-sent}
use d8x_broker_server.Pen.{SignaturePen}
use d8x_broker_server.System.Keys.{IsTopic}
use d8x_broker_server.System.Clean.{
  HashesToBytes, CleanAt, IsClean, update-IsClean, Published-IsClean, Signed-IsId,
  IsClean-TakesHash,
}
use d8x_broker_server.System.Queue.{grown-clean}
use d8x_broker_server.System.Waiting.{
  Waits, IsOurs, Published-fewer, update-fewer, get_elem?-before, get_elem?-last,
}
use d8x_broker_server.System.Turns.Safe.{Grants, Stores, Found, Relies, Follows, IsAnnouncing}
use d8x_broker_server.Base.{get_elem?-cases, All-get_elem?}

abbrev pub effect : Command → View → View
effect (get k) v = v
effect (set k x) v = (do_set k x v).1
effect (expire k n) v = v
effect (hset k fs) v = (do_hset k fs v).1
effect (hgetall k) v = v
effect (lpush k x) v = (do_lpush k x v).1
effect (lpop k) v = (do_lpop k v).1
effect (publish channel message) v = (do_publish channel message v).1

-- A time to live is positive.
abbrev pub IsLasting : Command → Type 0
IsLasting (get k) = Unit
IsLasting (set k x) = Unit
IsLasting (expire k n) = 0 < n
IsLasting (hset k fs) = Unit
IsLasting (hgetall k) = Unit
IsLasting (lpush k x) = Unit
IsLasting (lpop k) = Unit
IsLasting (publish channel message) = Unit

pub perform-effect :
    (r : Redis) (_ : Connected r) (c : Command) (s : r.Store)
    → IsLasting c
    → r.view (perform r c s).1 ≡ effect c (r.view s)
perform-effect r up (get k) s live = (get-Does r up k s).1
perform-effect r up (set k x) s live = (set-Does r up k x s).1
perform-effect r up (expire k n) s live = r.expire_keeps k n s live
perform-effect r up (hset k fs) s live = (hset-Does r up k fs s).1
perform-effect r up (hgetall k) s live = (hgetall-Does r up k s).1
perform-effect r up (lpush k x) s live = (lpush-Does r up k x s).1
perform-effect r up (lpop k) s live = (lpop-Does r up k s).1
perform-effect r up (publish channel message) s live = (publish-Does r up channel message s).1

-- What a command publishes.
abbrev pub sent_by : Command → List (Text × Text)
sent_by (get k) = []
sent_by (set k x) = []
sent_by (expire k n) = []
sent_by (hset k fs) = []
sent_by (hgetall k) = []
sent_by (lpush k x) = []
sent_by (lpop k) = []
sent_by (publish channel message) = (channel, message) ∷ []

-- The stack that a command puts an id on.
abbrev pub Pushes : Command → Text → Type 0
Pushes (get j) k = ⊥
Pushes (set j x) k = ⊥
Pushes (expire j n) k = ⊥
Pushes (hset j fs) k = ⊥
Pushes (hgetall j) k = ⊥
Pushes (lpush j x) k = j ≡ k
Pushes (lpop j) k = ⊥
Pushes (publish channel message) k = ⊥

pub pushed-IsAnnouncing :
    {A : Type 0} (c : Command) (k : Text) (p : Prog A) → Pushes c k → Follows c p → IsAnnouncing k p
pushed-IsAnnouncing (get j) k p h f = absurd h
pushed-IsAnnouncing (set j x) k p h f = absurd h
pushed-IsAnnouncing (expire j n) k p h f = absurd h
pushed-IsAnnouncing (hset j fs) k p h f = absurd h
pushed-IsAnnouncing (hgetall j) k p h f = absurd h
pushed-IsAnnouncing (lpush j x) k p h f = subst (λ i. IsAnnouncing i p) h f
pushed-IsAnnouncing (lpop j) k p h f = absurd h
pushed-IsAnnouncing (publish channel message) k p h f = absurd h

module _ (sdk : Sdk) (pen : SignaturePen) where
  pub Grants-IsLasting : (c : Command) → Grants sdk pen c → IsLasting c
  Grants-IsLasting (get k) may = tt
  Grants-IsLasting (set k x) may = tt
  Grants-IsLasting (expire k n) may = may
  Grants-IsLasting (hset k fs) may = tt
  Grants-IsLasting (hgetall k) may = tt
  Grants-IsLasting (lpush k x) may = tt
  Grants-IsLasting (lpop k) may = tt
  Grants-IsLasting (publish channel message) may = tt

  pub stored-Published :
      HashesToBytes sdk
      → (k : Text) (fs : Map Text Text) (v : View) (w : Stores sdk pen k fs) → IsClean sdk pen v
      → Published v w.res.order w.res.order_id w.chain_id (do_hset k fs v).1
  stored-Published bytes k fs v w clean =
      let id = Signed-IsId sdk pen bytes w.asked w.chain_id w.res w.signed in
      let p =
        do_hset-Published v w.res.order w.res.order_id w.chain_id (v.key w.res.order_id) refl
          (IsClean-TakesHash sdk pen v w.res.order_id clean id) in
      subst (λ j. Published v w.res.order w.res.order_id w.chain_id (do_hset j fs v).1)
        (sym w.same_id)
        (subst
          (λ m. Published v w.res.order w.res.order_id w.chain_id (do_hset w.res.order_id m v).1)
          (sym w.fields) p.1)

  lpush-clean :
      (k id : Text) (v : View) → IsTopic k → IsClean sdk pen v → IsClean sdk pen (do_lpush k id v).1
  lpush-clean k id v topic clean j = elim (Bool-cases (k == j)) [
    | inl same ↦
        rw (lpush-key k id j v, same)
          (grown-clean sdk pen id j (v.key j) (subst IsTopic ((text_beq_iff k j).0 same) topic)
            (clean j))
    | inr differ ↦ rw (lpush-key k id j v, differ) (clean j)
  ]

  pub effect-IsClean :
      HashesToBytes sdk
      → (c : Command) (v : View) → Grants sdk pen c
      → IsClean sdk pen v
      → IsClean sdk pen (effect c v)
  effect-IsClean bytes (get k) v may clean = clean
  effect-IsClean bytes (set k x) v may clean = update-IsClean sdk pen v k (str x) clean may
  effect-IsClean bytes (expire k n) v may clean = clean
  effect-IsClean bytes (hset k fs) v may clean =
      Published-IsClean sdk pen v (do_hset k fs v).1 may.asked may.chain_id may.res may.signed
        may.fits (stored-Published bytes k fs v may clean) clean
  effect-IsClean bytes (hgetall k) v may clean = clean
  effect-IsClean bytes (lpush k x) v may clean = lpush-clean k x v may clean
  effect-IsClean bytes (lpop k) v may clean = absurd may
  effect-IsClean bytes (publish channel message) v may clean = clean

  -- A stack that has ids behind a command had some before, or got one by the command.
  pub effect-items :
      HashesToBytes sdk
      → (c : Command) (v : View) → Grants sdk pen c
      → IsClean sdk pen v
      → (k : Text) → items ((effect c v).key k) ≢ []
      → (items (v.key k) ≢ []) ⊎ Pushes c k
  effect-items bytes (get j) v may clean k some_id = inl some_id
  effect-items bytes (set j x) v may clean k some_id = inl (update-fewer v j (str x) refl k some_id)
  effect-items bytes (expire j n) v may clean k some_id = inl some_id
  effect-items bytes (hset j fs) v may clean k some_id = inl (
      Published-fewer v (do_hset j fs v).1 may.res.order may.res.order_id may.chain_id
        (stored-Published bytes j fs v may clean) k some_id)
  effect-items bytes (hgetall j) v may clean k some_id = inl some_id
  effect-items bytes (lpush j x) v may clean k some_id = elim (Bool-cases (j == k)) [
    | inl same ↦ inr ((text_beq_iff j k).0 same)
    | inr differ ↦ inl (rw (lpush-key j x k v, differ) at some_id)
  ]
  effect-items bytes (lpop j) v may clean k some_id = absurd may
  effect-items bytes (publish channel message) v may clean k some_id = inl some_id

  pub effect-sent :
      HashesToBytes sdk
      → (c : Command) (v : View) → Grants sdk pen c
      → IsClean sdk pen v
      → (effect c v).sent ≡ v.sent ++ sent_by c
  effect-sent bytes (get j) v may clean = sym (append-nil v.sent)
  effect-sent bytes (set j x) v may clean = sym (append-nil v.sent)
  effect-sent bytes (expire j n) v may clean = sym (append-nil v.sent)
  effect-sent bytes (hset j fs) v may clean =
      (stored-Published bytes j fs v may clean).sent ∙ sym (append-nil v.sent)
  effect-sent bytes (hgetall j) v may clean = sym (append-nil v.sent)
  effect-sent bytes (lpush j x) v may clean = lpush-sent j x v ∙ sym (append-nil v.sent)
  effect-sent bytes (lpop j) v may clean = absurd may
  effect-sent bytes (publish channel message) v may clean = refl

  -- What a command publishes goes to the channel of new orders.
  pub sent_by-ours :
      (c : Command) → Grants sdk pen c → All (λ m. m.0 ≡ channel_new_order) (sent_by c)
  sent_by-ours (get k) may = tt
  sent_by-ours (set k x) may = tt
  sent_by-ours (expire k n) may = tt
  sent_by-ours (hset k fs) may = tt
  sent_by-ours (hgetall k) may = tt
  sent_by-ours (lpush k x) may = tt
  sent_by-ours (lpop k) may = tt
  sent_by-ours (publish channel message) may = (may, tt)

  fields_of-Found : (id : Text) (x : Value) → CleanAt sdk pen id x → Found sdk pen id (fields_of x)
  fields_of-Found id absent clean = tt
  fields_of-Found id (str x) clean = tt
  fields_of-Found id (hash []) clean = tt
  fields_of-Found id (hash (f ∷ fs)) clean = clean
  fields_of-Found id (list xs) clean = tt

  module _ (r : Redis) (up : Connected r) where
    pub hgetall-Found :
        (id : Text) (s : r.Store) → IsClean sdk pen (r.view s) → Found sdk pen id (r.hgetall id s).0
    hgetall-Found id s clean =
        subst (Found sdk pen id) (sym (hgetall-Does r up id s).0)
          (fields_of-Found id ((r.view s).key id) (clean id))

    pub perform-Relies :
        (c : Command) (s : r.Store)
        → IsClean sdk pen (r.view s)
        → Relies sdk pen c (perform r c s).0
    perform-Relies (get k) s clean = tt
    perform-Relies (set k x) s clean = tt
    perform-Relies (expire k n) s clean = tt
    perform-Relies (hset k fs) s clean = tt
    perform-Relies (hgetall k) s clean = hgetall-Found k s clean
    perform-Relies (lpush k x) s clean = tt
    perform-Relies (lpop k) s clean = tt
    perform-Relies (publish channel message) s clean = tt

-- Messages that are added leave those that wait, and the last one waits.
pub append-Waits :
    (heard : ℕ) (xs ys : List (Text × Text)) (k : Text)
    → Waits heard xs k
    → Waits heard (xs ++ ys) k
append-Waits heard xs ys k (i, later, at) = (i, later, get_elem?-before xs ys i _ at)

pub publish-Waits :
    {A : Type 0} (heard : ℕ) (xs : List (Text × Text)) (c : Command)
    (go_on : Prog.ReplyTo c → Prog A) (k : Text)
    → heard ≤ length xs
    → All (λ m. m.0 ≡ channel_new_order) (sent_by c)
    → IsAnnouncing k (call c go_on)
    → Waits heard (xs ++ sent_by c) k
publish-Waits heard xs (get j) go_on k past ours h = absurd h
publish-Waits heard xs (set j x) go_on k past ours h = absurd h
publish-Waits heard xs (expire j n) go_on k past ours h = absurd h
publish-Waits heard xs (hset j fs) go_on k past ours h = absurd h
publish-Waits heard xs (hgetall j) go_on k past ours h = absurd h
publish-Waits heard xs (lpush j x) go_on k past ours h = absurd h
publish-Waits heard xs (lpop j) go_on k past ours h = absurd h
publish-Waits heard xs (publish channel message) go_on k past ours h =
    (length xs, past, get_elem?-last xs (channel, message) ∙ rw (ours.0, h) refl)

pub append-IsOurs :
    (heard : ℕ) (xs ys : List (Text × Text))
    → All (λ m. m.0 ≡ channel_new_order) ys
    → IsOurs heard xs
    → IsOurs heard (xs ++ ys)
append-IsOurs heard xs ys new ours i m later at = elim (get_elem?-cases xs ys i m at) [
  | inl old ↦ ours i m later old
  | inr (j, here) ↦ All-get_elem? (λ (p : Text × Text). p.0 ≡ channel_new_order) ys j m new here
]
