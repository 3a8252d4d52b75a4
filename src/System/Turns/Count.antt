-- ===== src/System/Turns/Count.antt =====
-- No id is lost between LPUSH and LPOP, and none is taken twice.
pub mod Conserved
pub mod Held
pub mod Told
use d8x_broker_server.Base.{
  ℕ, zero, suc, ◌+◌, ◌≡◌, ◌≢◌, refl, sym, ◌∙◌, ap, subst, inl, inr, Bool, true, false, List, [],
  ◌∷◌, ◌++◌, Option, ◌==◌, if◌then◌else◌, arith, Bool-cases, All, Map, ℤ,
}
use d8x_broker_server.Text.{Text, text_eq, text_beq_iff}
use d8x_broker_server.Sdk.{Sdk}
use d8x_broker_server.Redis.{Redis}
use d8x_broker_server.Redis.Documented.{
  Reply, ok, err, Value, absent, str, hash, list, View, do_lpush, update,
}
use d8x_broker_server.Redis.Connected.{Connected, hgetall-Does}
use d8x_broker_server.Redis.Prog.{
  Command, get, set, expire, hset, hgetall, lpush, lpop, publish, Prog, call, perform,
}
use d8x_broker_server.Orders.{ChainConfig}
use d8x_broker_server.Orders.Store.{TakesHash}
use d8x_broker_server.Orders.Submit.{items}
use d8x_broker_server.Orders.Announce.{lpush-key, grown-items}
use d8x_broker_server.Pen.{SignaturePen}
use d8x_broker_server.Api.{App}
use d8x_broker_server.Api.Routes.{Decoders, Answer}
use d8x_broker_server.Ws.Subs.{Subscriptions}
use d8x_broker_server.Ws.Notify.Drain.{lpop_cases}
use d8x_broker_server.System.Keys.{IsTopic, IsLevelKey, IsTopic-ne-level, IsId}
use d8x_broker_server.System.Clean.{
  HashesToBytes, CleanAt, IsClean, IsClean-IsStack, IsClean-TakesHash, Signed-IsId,
}
use d8x_broker_server.System.Waiting.{order_items}
use d8x_broker_server.System.Rest.{DecodesFits}
use d8x_broker_server.System.Turns.{
  Run, popping, reading, sending, over, run_turn, Pool, Turn, rest, drain, receive, Event, request,
  ws, Came, start, event, turn,
}
use d8x_broker_server.System.Turns
use d8x_broker_server.System.Turns.Safe.{Grants, Stores, IsSafe}
use d8x_broker_server.Base.{All-item}
use d8x_broker_server.System.Turns.Effect.{effect, perform-effect, stored-Published}
use d8x_broker_server.System.Turns.Always.{IsKept, Came-IsKept}

-- How often an id stands in a list.
abbrev pub count : Text → List Text → ℕ
count id [] = 0
count id (x ∷ xs) = (if id == x then 1 else 0) + count id xs

pub count-append : (id : Text) (xs ys : List Text) → count id (xs ++ ys) ≡ count id xs + count id ys
count-append id [] ys = omega arith
count-append id (x ∷ xs) ys = omega (arith, count-append id xs ys)

-- The id that a command puts on the stack `k`.
abbrev pub pushed_by : Command → Text → List Text
pushed_by (get j) k = []
pushed_by (set j x) k = []
pushed_by (expire j n) k = []
pushed_by (hset j fs) k = []
pushed_by (hgetall j) k = []
pushed_by (lpush j x) k = if j == k then x ∷ [] else []
pushed_by (lpop j) k = []
pushed_by (publish channel message) k = []

-- The id that the answer of LPOP on a topic takes off the stack `k`.
abbrev pub taken : Text → Reply Text → Text → List Text
taken topic (err e) k = []
taken topic (ok id) k = if topic == k then id ∷ [] else []

module _ (r : Redis) where
  open r use {Store, view}

  abbrev pub taken_by : Run → Store → Text → List Text
  taken_by (popping topic) s k = taken topic (r.lpop topic s).0 k
  taken_by (reading topic id) s k = []
  taken_by (sending topic id reply) s k = []
  taken_by over s k = []

  abbrev pub turn_pushed : {s t : Pool Store} → Turn r s t → Text → List Text
  turn_pushed (rest before after c go_on at) k = pushed_by c k
  turn_pushed (drain before after x at going_on) k = []
  turn_pushed (receive topic at) k = []

  abbrev pub turn_taken : {s t : Pool Store} → Turn r s t → Text → List Text
  turn_taken (rest before after c go_on at) k = []
  turn_taken {s} (drain before after x at going_on) k = taken_by x s.store k
  turn_taken (receive topic at) k = []

set_items :
    (sdk : Sdk) (pen : SignaturePen) (v : View) (j x k : Text)
    → IsLevelKey j
    → IsClean sdk pen v
    → items (update j (str x) v.key k) ≡ items (v.key k)
set_items sdk pen v j x k level clean = elim (Bool-cases (j == k)) [
  | inl same ↦
      let at : j ≡ k = (text_beq_iff j k).0 same in
      rw same (sym (no_items k (v.key k) (subst IsLevelKey at level) (clean k)))
  | inr differ ↦ rw differ refl
]
  where
    no_items : (i : Text) (y : Value) → IsLevelKey i → CleanAt sdk pen i y → items y ≡ []
    no_items i absent l c = refl
    no_items i (str y) l c = refl
    no_items i (hash m) l c = refl
    no_items i (list ids) l c = absurd (IsTopic-ne-level i c l)

hash_items : (x : Value) → TakesHash x → items x ≡ []
hash_items absent t = refl
hash_items (str x) t = absurd t
hash_items (hash m) t = refl
hash_items (list ids) t = absurd t

module _ (sdk : Sdk) (pen : SignaturePen) (bytes : HashesToBytes sdk) where
  hset_items :
      (v : View) (j k : Text) (fs : Map Text Text) (w : Stores sdk pen j fs)
      → IsClean sdk pen v
      → items ((effect (hset j fs) v).key k) ≡ items (v.key k)
  hset_items v j k fs w clean =
      let p = stored-Published sdk pen bytes j fs v w clean in
      let hex = Signed-IsId sdk pen bytes w.asked w.chain_id w.res w.signed in
      let id = w.res.order_id in
      elim (Bool-cases (k == id)) [
        | inl same ↦
            let at : k ≡ id = (text_beq_iff k id).0 same in
            subst (λ i. items ((effect (hset j fs) v).key i) ≡ items (v.key i)) (sym at)
              (order_items ((effect (hset j fs) v).key id) w.res.order w.chain_id p.holds
                ∙ sym (hash_items (v.key id) (IsClean-TakesHash sdk pen v id clean hex)))
        | inr differ ↦ ap items (p.others k (λ e. cc (differ, (text_beq_iff k id).1 e)))
      ]

  lpush_items :
      (v : View) (j x k : Text)
      → IsTopic j
      → IsClean sdk pen v
      → items ((do_lpush j x v).1.key k) ≡ (if j == k then x ∷ [] else []) ++ items (v.key k)
  lpush_items v j x k topic clean = elim (Bool-cases (j == k)) [
    | inl same ↦
        let at : j ≡ k = (text_beq_iff j k).0 same in
        rw (lpush-key j x k v, same)
          (grown-items x (v.key k)
            (IsClean-IsStack sdk pen bytes v k clean (subst IsTopic at topic)))
    | inr differ ↦ rw (lpush-key j x k v, differ) refl
  ]

  -- A command of a request adds to a stack what it pushes, and takes nothing.
  pub items-effect :
      (c : Command) (v : View) (k : Text)
      → Grants sdk pen c
      → IsClean sdk pen v
      → items ((effect c v).key k) ≡ pushed_by c k ++ items (v.key k)
  items-effect (get j) v k may clean = refl
  items-effect (set j x) v k may clean = set_items sdk pen v j x k may clean
  items-effect (expire j n) v k may clean = refl
  items-effect (hset j fs) v k may clean = hset_items v j k fs may clean
  items-effect (hgetall j) v k may clean = refl
  items-effect (lpush j x) v k may clean = lpush_items v j x k may clean
  items-effect (lpop j) v k may clean = absurd may
  items-effect (publish channel message) v k may clean = refl

module _ (r : Redis) (up : Connected r) where
  open r use {Store, view}

  -- A turn of a run takes off its stack what it pops, and adds nothing.
  pub items-run_turn :
      (subs : Subscriptions) (x : Run) (s : Store) (k : Text)
      → items ((view s).key k) ≡ taken_by r x s k ++ items ((view (run_turn r subs x s).2).key k)
  unfolding run_turn
  items-run_turn subs (popping topic) s k = elim (lpop_cases r up subs topic s) [
    | inl (empty, (f, failed), same) ↦ rw (failed, same) refl
    | inr (id, top, popped_it, kept, others, silent) ↦ elim (Bool-cases (topic == k)) [
      | inl own ↦
          let at : topic ≡ k = (text_beq_iff topic k).0 own in
          rw (popped_it, own)
            (subst (λ j. items ((view s).key j) ≡ id ∷ items ((view (r.lpop topic s).1).key j)) at
              top)
      | inr differ ↦
          rw (popped_it, differ)
            (sym (ap items (others k (λ e. cc (differ, (text_beq_iff topic k).1 (sym e))))))
    ]
  ]
  items-run_turn subs (reading topic id) s k =
      ap (λ v. items (v.key k)) (sym (hgetall-Does r up id s).1)
  items-run_turn subs (sending topic id reply) s k = refl
  items-run_turn subs over s k = refl
