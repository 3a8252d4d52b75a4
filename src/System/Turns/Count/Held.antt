-- ===== src/System/Turns/Count/Held.antt =====
-- The ids that runs of handleNewOrder have taken and hold, tell of or pass over.
use d8x_broker_server.Base.{
  ◌+◌, ◌≡◌, refl, ap, List, [], ◌∷◌, ◌++◌, ◌==◌, if◌then◌else◌, arith, All,
}
use d8x_broker_server.Text.{Text, text_eq}
use d8x_broker_server.Redis.{Redis}
use d8x_broker_server.Redis.Documented.{Reply, ok, err}
use d8x_broker_server.Ws.Subs.{Subscriptions}
use d8x_broker_server.System.Turns.{
  Run, popping, reading, sending, over, popped_id, run_turn, Pool, Turn, rest, drain, receive,
}
use d8x_broker_server.System.Turns.Quiet.{IsOver}
use d8x_broker_server.System.Turns.Count.{count, count-append, taken, taken_by, turn_taken}

-- The id that a turn of a run tells the subscribers of the topic `k` of.
abbrev pub told_by : Run → Text → List Text
told_by (popping topic) k = []
told_by (reading topic id) k = []
told_by (sending topic id (err e)) k = []
told_by (sending topic id (ok [])) k = []
told_by (sending topic id (ok (f ∷ fs))) k = if topic == k then id ∷ [] else []
told_by over k = []

-- The id of the topic `k` that a turn of a run passes over: HGETALL has found no order under it.
abbrev pub missed_by : Run → Text → List Text
missed_by (popping topic) k = []
missed_by (reading topic id) k = []
missed_by (sending topic id (err e)) k = if topic == k then id ∷ [] else []
missed_by (sending topic id (ok [])) k = if topic == k then id ∷ [] else []
missed_by (sending topic id (ok (f ∷ fs))) k = []
missed_by over k = []

-- The id that a run has taken off the stack `k` and has neither told of nor passed over.
abbrev pub held_by : Run → Text → List Text
held_by (popping topic) k = []
held_by (reading topic id) k = if topic == k then id ∷ [] else []
held_by (sending topic id reply) k = if topic == k then id ∷ [] else []
held_by over k = []

abbrev pub all_held : List Run → Text → List Text
all_held [] k = []
all_held (x ∷ xs) k = held_by x k ++ all_held xs k

held-swap :
    (before after : List Run) (x y : Run) (k id : Text)
    → count id (all_held (before ++ y ∷ after) k) + count id (held_by x k)
      ≡ count id (all_held (before ++ x ∷ after) k) + count id (held_by y k)
held-swap [] after x y k id = omega (
  arith,
  count-append id (held_by x k) (all_held after k),
  count-append id (held_by y k) (all_held after k),
)
held-swap (z ∷ before) after x y k id = omega (
  arith,
  count-append id (held_by z k) (all_held (before ++ x ∷ after) k),
  count-append id (held_by z k) (all_held (before ++ y ∷ after) k),
  held-swap before after x y k id,
)

held_popped :
    (topic : Text) (reply : Reply Text) (k : Text)
    → held_by (popped_id topic reply) k ≡ taken topic reply k
held_popped topic (err e) k = refl
held_popped topic (ok id) k = refl

module _ (r : Redis) where
  open r use {Store, view}

  -- A run holds what it takes until it tells of it or passes it over.
  run_turn-held :
      (subs : Subscriptions) (x : Run) (s : Store) (k id : Text)
      → count id (taken_by r x s k) + count id (held_by x k)
        ≡ count id (told_by x k)
          + (count id (missed_by x k) + count id (held_by (run_turn r subs x s).1 k))
  unfolding run_turn
  run_turn-held subs (popping topic) s k id =
      omega (arith, ap (count id) (held_popped topic (r.lpop topic s).0 k))
  run_turn-held subs (reading topic i) s k id = omega arith
  run_turn-held subs (sending topic i (err e)) s k id = omega arith
  run_turn-held subs (sending topic i (ok [])) s k id = omega arith
  run_turn-held subs (sending topic i (ok (f ∷ fs))) s k id = omega arith
  run_turn-held subs over s k id = omega arith

  abbrev pub turn_told : {s t : Pool Store} → Turn r s t → Text → List Text
  turn_told (rest before after c go_on at) k = []
  turn_told (drain before after x at going_on) k = told_by x k
  turn_told (receive topic at) k = []

  abbrev pub turn_missed : {s t : Pool Store} → Turn r s t → Text → List Text
  turn_missed (rest before after c go_on at) k = []
  turn_missed (drain before after x at going_on) k = missed_by x k
  turn_missed (receive topic at) k = []

  pub Turn-held :
      {s t : Pool Store} (st : Turn r s t) (k id : Text)
      → count id (turn_taken r st k) + count id (all_held s.runs k)
        ≡ count id (turn_told st k) + (count id (turn_missed st k) + count id (all_held t.runs k))
  Turn-held (rest before after c go_on at) k id = omega arith
  Turn-held {s} (drain before after x at going_on) k id = omega (
    arith,
    run_turn-held s.hub.subs x s.store k id,
    ap (λ xs. count id (all_held xs k)) at,
    held-swap before after x (run_turn r s.hub.subs x s.store).1 k id,
  )
  Turn-held (receive topic at) k id = omega arith

pub over-held : (xs : List Run) (k : Text) → All IsOver xs → all_held xs k ≡ []
over-held [] k h = refl
over-held (x ∷ xs) k (ended, h) = rw (ended, over-held xs k h) refl
