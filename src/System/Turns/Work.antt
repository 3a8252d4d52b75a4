-- ===== src/System/Turns/Work.antt =====
-- The turns that the two services take by themselves come to an end, in whatever order they are
-- taken.
use mathlib.Core.WellFounded.{Acc}
use d8x_broker_server.Base.{
  ℕ, zero, suc, ◌+◌, ◌-◌, ◌*◌, ◌≤◌, ◌<◌, ◌≡◌, ◌≢◌, refl, sym, ◌∙◌, ap, subst, ◌⊎◌, inl, inr, List,
  [], ◌∷◌, ◌++◌, ◌==◌, arith, length, Bool-cases,
}
use d8x_broker_server.Text.{Text, text_eq, text_beq_iff}
use d8x_broker_server.Redis.{Redis}
use d8x_broker_server.Redis.Documented.{View}
use d8x_broker_server.Redis.Connected.{Connected, hgetall-Does}
use d8x_broker_server.Redis.Prog.{Command, Prog, done, call, perform}
use d8x_broker_server.Redis.Prog
use d8x_broker_server.Orders.{channel_new_order}
use d8x_broker_server.Orders.Submit.{items}
use d8x_broker_server.Api.Routes.{Answer}
use d8x_broker_server.Ws.Subs.{Subscriptions}
use d8x_broker_server.Ws.Notify.Drain.{lpop_cases}
use d8x_broker_server.System.Waiting.{get_elem?-lt}
use d8x_broker_server.System.Turns.{
  Run, popping, reading, sending, over, popped_id, run_turn, Pool, Turn, rest, drain, receive,
}

-- The program after its next command.
abbrev Steps : {A : Type 0} → Prog A → Prog A → Type 0
Steps q (done a) = ⊥
Steps q (call c go_on) = (reply : Prog.ReplyTo c) × (q ≡ go_on reply)

-- One of the programs has sent its next command.
abbrev Shrinks : {A : Type 0} → List (Prog A) → List (Prog A) → Type 0
Shrinks us [] = ⊥
Shrinks {A} us (p ∷ ts) =
    ((q : Prog A) × Steps q p × (us ≡ q ∷ ts))
    ⊎ ((vs : List (Prog A)) × (us ≡ p ∷ vs) × Shrinks vs ts)

swap-Shrinks :
    {A : Type 0} (before after : List (Prog A)) (c : Command) (go_on : Prog.ReplyTo c → Prog A)
    (reply : Prog.ReplyTo c)
    → Shrinks (before ++ go_on reply ∷ after) (before ++ call c go_on ∷ after)
swap-Shrinks [] after c go_on reply = inl (go_on reply, (reply, refl), refl)
swap-Shrinks (p ∷ before) after c go_on reply =
    inr (before ++ go_on reply ∷ after, refl, swap-Shrinks before after c go_on reply)

cons-Acc : {A : Type 0} (p : Prog A) (ts : List (Prog A)) → Acc Shrinks ts → Acc Shrinks (p ∷ ts)
cons-Acc (done a) ts (Acc.intro _ h) = Acc.intro (done a ∷ ts) (λ us st. elim st [
  | inl (q, none_left, _) ↦ absurd none_left
  | inr (vs, e, sh) ↦ subst (Acc Shrinks) (sym e) (cons-Acc (done a) vs (h vs sh))
])
cons-Acc (call c go_on) ts (Acc.intro _ h) = Acc.intro (call c go_on ∷ ts) (λ us st. elim st [
  | inl (q, (reply, e), f) ↦
      subst (Acc Shrinks) (sym (f ∙ ap (λ x. x ∷ ts) e))
        (cons-Acc (go_on reply) ts (Acc.intro ts h))
  | inr (vs, e, sh) ↦ subst (Acc Shrinks) (sym e) (cons-Acc (call c go_on) vs (h vs sh))
])

tasks-Acc : {A : Type 0} (ts : List (Prog A)) → Acc Shrinks ts
tasks-Acc [] = Acc.intro [] (λ us none_left. absurd none_left)
tasks-Acc (p ∷ ts) = cons-Acc p ts (tasks-Acc ts)

abbrev height : View → Text → ℕ
height v topic = length (items (v.key topic))

-- The turns that a run takes at most, if nothing is pushed.
abbrev cost : View → Run → ℕ
cost v (popping topic) = 3 * height v topic + 1
cost v (reading topic id) = 3 * height v topic + 3
cost v (sending topic id reply) = 3 * height v topic + 2
cost v over = 0

abbrev work : View → List Run → ℕ
work v [] = 0
work v (x ∷ xs) = cost v x + work v xs

cost-le : (v w : View) (x : Run) → ((k : Text) → height w k ≤ height v k) → cost w x ≤ cost v x
cost-le v w (popping topic) h = omega (arith, h topic)
cost-le v w (reading topic id) h = omega (arith, h topic)
cost-le v w (sending topic id reply) h = omega (arith, h topic)
cost-le v w over h = omega arith

work-le :
    (v w : View) (xs : List Run) → ((k : Text) → height w k ≤ height v k) → work w xs ≤ work v xs
work-le v w [] h = omega arith
work-le v w (x ∷ xs) h = omega (arith, cost-le v w x h, work-le v w xs h)

work-swap :
    (v w : View) (before after : List Run) (x y : Run)
    → ((k : Text) → height w k ≤ height v k)
    → cost w y < cost v x
    → work w (before ++ y ∷ after) < work v (before ++ x ∷ after)
work-swap v w [] after x y h less = omega (arith, less, work-le v w after h)
work-swap v w (z ∷ before) after x y h less =
    omega (arith, cost-le v w z h, work-swap v w before after x y h less)

-- The second pool is one turn before the first.
abbrev pub Before : (r : Redis) → Pool r.Store → Pool r.Store → Type 0
Before r t s = Turn r s t

module _ (r : Redis) (up : Connected r) where
  open r use {Store, view}

  -- The turn of a run costs, fills no stack and publishes nothing.
  record Costs (x y : Run) (v w : View) : Type 0 where
    less : cost w y < cost v x
    lower : (k : Text) → height w k ≤ height v k
    silent : w.sent ≡ v.sent

  quiet-Costs : (x y : Run) (v w : View) → w ≡ v → cost v y < cost v x → Costs x y v w
  quiet-Costs x y v w same less = record {
    less = rw same less;
    lower = λ k. rw same (omega arith);
    silent = ap (λ u. u.sent) same;
  }

  pop-Costs :
      (subs : Subscriptions) (topic : Text) (s : Store)
      → Costs
          (popping topic)
          (popped_id topic (r.lpop topic s).0)
          (view s)
          (view (r.lpop topic s).1)
  pop-Costs subs topic s = elim (lpop_cases r up subs topic s) [
    | inl (empty, (f, failed), same) ↦
        rw failed (quiet-Costs (popping topic) over (view s) _ same (omega arith))
    | inr (id, top, popped_it, kept, others, silent) ↦ rw popped_it (record {
      less = omega (arith, ap length top);
      lower = λ k. elim (Bool-cases (k == topic)) [
        | inl own ↦
            subst (λ j. height (view (r.lpop topic s).1) j ≤ height (view s) j)
              (sym ((text_beq_iff k topic).0 own)) (omega (arith, ap length top))
        | inr differ ↦
            let kept = others k (λ e. cc (differ, (text_beq_iff k topic).1 e)) in
            omega (arith, ap (λ x. length (items x)) kept)
      ];
      silent = silent;
    })
  ]

  run_turn-Costs :
      (subs : Subscriptions) (x : Run) (s : Store)
      → x ≢ over
      → Costs x (run_turn r subs x s).1 (view s) (view (run_turn r subs x s).2)
  unfolding run_turn
  run_turn-Costs subs (popping topic) s go_on = pop-Costs subs topic s
  run_turn-Costs subs (reading topic id) s go_on =
      quiet-Costs (reading topic id) (sending topic id (r.hgetall id s).0) (view s)
        (view (r.hgetall id s).1) (hgetall-Does r up id s).1 (omega arith)
  run_turn-Costs subs (sending topic id reply) s go_on =
      quiet-Costs (sending topic id reply) (popping topic) (view s) (view s) refl (omega arith)
  run_turn-Costs subs over s go_on = absurd (go_on refl)

  abbrev unheard : Pool Store → ℕ
  unheard s = length (view s.store).sent - s.heard

  abbrev left_work : Pool Store → ℕ
  left_work s = work (view s.store) s.runs

  -- A turn is one of a request, or it leaves the requests alone and receives a message, or it leaves
  -- the messages alone too and costs a run.
  Turn-cases :
      {s t : Pool Store}
      → Turn r s t
      → Shrinks t.tasks s.tasks
        ⊎ ((t.tasks ≡ s.tasks)
            × ((unheard t < unheard s) ⊎ ((unheard t ≡ unheard s) × (left_work t < left_work s))))
  Turn-cases {s} (rest before after c go_on at) = inl (
      subst (λ ts. Shrinks (before ++ go_on (perform r c s.store).0 ∷ after) ts) (sym at)
        (swap-Shrinks before after c go_on (perform r c s.store).0))
  Turn-cases {s} (receive topic at) = inr (
    refl,
    inl (omega (arith, get_elem?-lt (view s.store).sent s.heard (channel_new_order, topic) at)),
  )
  Turn-cases {s} (drain before after x at going_on) =
      let costs = run_turn-Costs s.hub.subs x s.store going_on in
      let t = (run_turn r s.hub.subs x s.store).2 in
      let y = (run_turn r s.hub.subs x s.store).1 in
      inr (
        refl,
        inr (
          omega (arith, ap length costs.silent),
          subst (λ xs. work (view t) (before ++ y ∷ after) < work (view s.store) xs) (sym at)
              (work-swap (view s.store) (view t) before after x y costs.lower costs.less),
        ),
      )

  -- A pool with the given tasks, if the turns of all pools with fewer commands come to an end.
  bounded-Acc :
      (ts : List (Prog Answer))
      → ((t : Pool Store) → Shrinks t.tasks ts → Acc (Before r) t)
      → (n m : ℕ) (s : Pool Store) → s.tasks ≡ ts
      → unheard s < n
      → left_work s < m
      → Acc (Before r) s
  bounded-Acc ts fewer_commands zero m s at few little = absurd (omega (arith, few))
  bounded-Acc ts fewer_commands (suc n) zero s at few little = absurd (omega (arith, little))
  bounded-Acc ts fewer_commands (suc n) (suc m) s at few little = Acc.intro s (λ t st.
      elim (Turn-cases st) [
        | inl shrinks ↦ fewer_commands t (subst (Shrinks t.tasks) at shrinks)
        | inr (same, inl fewer) ↦
            bounded-Acc ts fewer_commands n (suc (left_work t)) t (same ∙ at)
              (omega (arith, few, fewer)) (omega arith)
        | inr (same, inr (as_many, less)) ↦
            bounded-Acc ts fewer_commands (suc n) m t (same ∙ at) (omega (arith, few, as_many))
              (omega (arith, little, less))
      ])

  pool-Acc :
      (ts : List (Prog Answer))
      → Acc Shrinks ts
      → (s : Pool Store) → s.tasks ≡ ts
      → Acc (Before r) s
  pool-Acc ts (Acc.intro _ h) s at =
      bounded-Acc ts (λ t shrinks. pool-Acc t.tasks (h t.tasks shrinks) t refl) (suc (unheard s))
        (suc (left_work s)) s at (omega arith) (omega arith)

  -- On a Redis whose answers all arrive, and from any state, with any requests under work and any
  -- runs of handleNewOrder: the turns that the two services take by themselves, in whatever
  -- order, come to an end after finitely many.
  pub Turn-Acc : (s : Pool Store) → Acc (Before r) s
  Turn-Acc s = pool-Acc s.tasks (tasks-Acc s.tasks) s refl
