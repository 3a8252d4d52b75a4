-- ===== src/System/Turns/Kept.antt =====
-- What holds in every state that the system reaches command by command.
use d8x_broker_server.Base.{
  ℕ, suc, ◌≤◌, ◌≡◌, ◌≢◌, refl, sym, ◌∙◌, ap, subst, ◌⊎◌, inl, inr, List, [], ◌∷◌, ◌++◌, some, ◌==◌,
  arith, length, length-append, get_elem?, All, nat_eq, Bool-cases,
}
use d8x_broker_server.Text.{Text, text_eq, text_beq_iff}
use d8x_broker_server.Sdk.{Sdk}
use d8x_broker_server.Redis.{Redis}
use d8x_broker_server.Redis.Documented.{View}
use d8x_broker_server.Redis.Connected.{Connected, hgetall-Does}
use d8x_broker_server.Redis.Prog.{Command, Prog, call, perform}
use d8x_broker_server.Redis.Prog
use d8x_broker_server.Orders.{channel_new_order}
use d8x_broker_server.Orders.Submit.{items}
use d8x_broker_server.Pen.{SignaturePen}
use d8x_broker_server.Api.Routes.{Answer}
use d8x_broker_server.Ws.Subs.{Subscriptions}
use d8x_broker_server.Ws.Notify.Drain.{lpop_cases}
use d8x_broker_server.System.Clean.{HashesToBytes, IsClean}
use d8x_broker_server.System.Queue.{lpop-Clean}
use d8x_broker_server.System.Waiting.{Waits, IsOurs, get_elem?-lt}
use d8x_broker_server.System.Turns.{Run, popping, reading, sending, over, popped_id, run_turn}
use d8x_broker_server.System.Turns.Safe.{IsSafe, IsAnnouncing, Found, Relies}
use d8x_broker_server.Base.{Any, All-item, All-swap, Any-item, Any-swap}
use d8x_broker_server.System.Turns.Effect.{
  effect, sent_by, pushed-IsAnnouncing, effect-IsClean, effect-items, effect-sent, sent_by-ours,
  hgetall-Found, append-Waits, publish-Waits, append-IsOurs,
}

-- A run that goes back to the stack `k` before it ends.
abbrev pub IsDraining : Text → Run → Type 0
IsDraining k (popping topic) = topic ≡ k
IsDraining k (reading topic id) = topic ≡ k
IsDraining k (sending topic id reply) = topic ≡ k
IsDraining k over = ⊥

-- Somebody will see to the stack `k`: a message waits for it, a request is about to publish it, or
-- a run of handleNewOrder has not ended on it.
abbrev pub IsCared : ℕ → List (Text × Text) → List (Prog Answer) → List Run → Text → Type 0
IsCared heard sent tasks runs k =
    Waits heard sent k ⊎ (Any (IsAnnouncing k) tasks ⊎ Any (IsDraining k) runs)

module _ (sdk : Sdk) (pen : SignaturePen) where
  -- The answer that a run has read is that of a clean Redis.
  abbrev pub HasRead : Run → Type 0
  HasRead (popping topic) = Unit
  HasRead (reading topic id) = Unit
  HasRead (sending topic id reply) = Found sdk pen id reply
  HasRead over = Unit

  -- What holds of Redis, the requests and the runs.
  pub record IsGoing (heard : ℕ) (v : View) (tasks : List (Prog Answer)) (runs : List Run)
      : Type 0 where
    pub clean : IsClean sdk pen v
    pub safe : All (IsSafe sdk pen) tasks
    pub read : All HasRead runs
    pub past : heard ≤ length v.sent
    pub ours : IsOurs heard v.sent
    pub cared : (k : Text) → items (v.key k) ≢ [] → IsCared heard v.sent tasks runs k

  pub effect-IsGoing :
      HashesToBytes sdk
      → (heard : ℕ) (v : View) (before after : List (Prog Answer)) (runs : List Run) (c : Command)
        (go_on : Prog.ReplyTo c → Prog Answer) (reply : Prog.ReplyTo c)
      → Relies sdk pen c reply
      → IsGoing heard v (before ++ call c go_on ∷ after) runs
      → IsGoing heard (effect c v) (before ++ go_on reply ∷ after) runs
  effect-IsGoing bytes heard v before after runs c go_on reply rely g =
      let own = All-item (IsSafe sdk pen) before after (call c go_on) g.safe in
      let next = own.1 reply rely in
      let new = effect-sent sdk pen bytes c v own.0 g.clean in
      let ours = sent_by-ours sdk pen c own.0 in
      record {
        clean = effect-IsClean sdk pen bytes c v own.0 g.clean;
        safe = All-swap (IsSafe sdk pen) before after (call c go_on) (go_on reply) g.safe next.1;
        read = g.read;
        past = rw new (omega (arith, g.past, length-append v.sent (sent_by c)));
        ours = rw new (append-IsOurs heard v.sent (sent_by c) ours g.ours);
        cared = λ k some_id. rw new (elim (effect-items sdk pen bytes c v own.0 g.clean k some_id) [
          | inr pushes ↦ inr (
              inl (
                Any-item (IsAnnouncing k) before after (go_on reply)
                  (pushed-IsAnnouncing c k (go_on reply) pushes next.0)))
          | inl had_some ↦ elim (g.cared k had_some) [
            | inl waits ↦ inl (append-Waits heard v.sent (sent_by c) k waits)
            | inr (inr drains) ↦ inr (inr drains)
            | inr (inl announces) ↦
                elim (Any-swap (IsAnnouncing k) before after (call c go_on) (go_on reply)
                  announces) [
                    | inl now ↦ inl (publish-Waits heard v.sent c go_on k g.past ours now)
                    | inr still ↦ inr (inl still)
                  ]
          ]
        ]);
      }

  -- A turn of a run that keeps draining its topic, or that has found its stack empty.
  run-IsGoing :
      (heard : ℕ) (v w : View) (tasks : List (Prog Answer)) (before after : List Run) (x y : Run)
      → IsClean sdk pen w
      → w.sent ≡ v.sent
      → HasRead y
      → ((k : Text) → items (w.key k) ≢ [] → items (v.key k) ≢ [])
      → ((k : Text) → items (w.key k) ≢ [] → IsDraining k x → IsDraining k y)
      → IsGoing heard v tasks (before ++ x ∷ after)
      → IsGoing heard w tasks (before ++ y ∷ after)
  run-IsGoing heard v w tasks before after x y clean silent read fewer drains g = record {
    clean = clean;
    safe = g.safe;
    read = All-swap HasRead before after x y g.read read;
    past = rw silent g.past;
    ours = rw silent g.ours;
    cared = λ k some_id. rw silent (elim (g.cared k (fewer k some_id)) [
      | inl waits ↦ inl waits
      | inr (inl announces) ↦ inr (inl announces)
      | inr (inr draining) ↦ elim (Any-swap (IsDraining k) before after x y draining) [
        | inl own ↦ inr (inr (Any-item (IsDraining k) before after y (drains k some_id own)))
        | inr still ↦ inr (inr still)
      ]
    ]);
  }

  pub receive-IsGoing :
      (heard : ℕ) (v : View) (tasks : List (Prog Answer)) (runs : List Run) (topic : Text)
      → get_elem? v.sent heard ≡ some (channel_new_order, topic)
      → IsGoing heard v tasks runs
      → IsGoing (suc heard) v tasks (popping topic ∷ runs)
  receive-IsGoing heard v tasks runs topic at g = record {
    clean = g.clean;
    safe = g.safe;
    read = (tt, g.read);
    past = omega (arith, get_elem?-lt v.sent heard (channel_new_order, topic) at);
    ours = λ i m later here. g.ours i m (omega (arith, later)) here;
    cared = λ k some_id. elim (g.cared k some_id) [
      | inl (i, later, here) ↦ elim (Bool-cases (heard == i)) [
        | inl now ↦
            let same : heard ≡ i = (nat_eq.beq_iff heard i).0 now in
            let own : topic ≡ k = cc (here, ap (get_elem? v.sent) same, at) in inr (inr (inl own))
        | inr not_now ↦
            let differ : heard ≢ i = λ e. cc (not_now, (nat_eq.beq_iff heard i).1 e) in
            inl (i, omega (arith, differ, later), here)
      ]
      | inr (inl announces) ↦ inr (inl announces)
      | inr (inr drains) ↦ inr (inr (inr drains))
    ];
  }

  module _ (r : Redis) (up : Connected r) (heard : ℕ) (tasks : List (Prog Answer))
      (before after : List Run) (subs : Subscriptions) where
    -- The requests and runs around the store, before and after a turn.
    abbrev pub Goes : r.Store → Run → Type 0
    Goes s x = IsGoing heard (r.view s) tasks (before ++ x ∷ after)

    quiet-Goes :
        (x y : Run) (s t : r.Store)
        → r.view t ≡ r.view s
        → HasRead y
        → ((k : Text) → IsDraining k x → IsDraining k y)
        → Goes s x
        → Goes t y
    quiet-Goes x y s t same read drains g =
        run-IsGoing heard (r.view s) (r.view t) tasks before after x y
          (subst (IsClean sdk pen) (sym same) g.clean) (ap (λ v. v.sent) same) read
          (λ k.
            subst (λ v. items (v.key k) ≢ [] → items ((r.view s).key k) ≢ []) (sym same) (λ h. h))
          (λ k some_id. drains k) g

    pop-Goes :
        (topic : Text) (s : r.Store)
        → Goes s (popping topic)
        → Goes (r.lpop topic s).1 (popped_id topic (r.lpop topic s).0)
    pop-Goes topic s g = elim (lpop_cases r up subs topic s) [
      | inl (empty, (f, failed), same) ↦ rw failed (
          run-IsGoing heard (r.view s) (r.view (r.lpop topic s).1) tasks before after
            (popping topic) over (lpop-Clean sdk pen r up topic s g.clean) (ap (λ v. v.sent) same)
            tt
            (λ k.
              subst (λ v. items (v.key k) ≢ [] → items ((r.view s).key k) ≢ []) (sym same) (λ h. h))
            (λ k some_id own. some_id (
              ap (λ v. items (v.key k)) same
              ∙ ap (λ j. items ((r.view s).key j)) (sym own)
              ∙ empty))
            g)
      | inr (id, top, popped_it, kept, others, silent) ↦ rw popped_it (
          run-IsGoing heard (r.view s) (r.view (r.lpop topic s).1) tasks before after
            (popping topic) (reading topic id) (lpop-Clean sdk pen r up topic s g.clean) silent tt
            (λ k some_id. elim (Bool-cases (k == topic)) [
              | inl own ↦
                  subst (λ j. items ((r.view s).key j) ≢ []) (sym ((text_beq_iff k topic).0 own))
                    (λ none_left. cc (none_left, top))
              | inr differ ↦
                  subst (λ x. items x ≢ [])
                    (others k (λ e. cc (differ, (text_beq_iff k topic).1 e))) some_id
            ])
            (λ k some_id own. own) g)
    ]

    pub run_turn-Goes :
        (x : Run) (s : r.Store) → Goes s x → Goes (run_turn r subs x s).2 (run_turn r subs x s).1
    unfolding run_turn
    run_turn-Goes (popping topic) s g = pop-Goes topic s g
    run_turn-Goes (reading topic id) s g =
        quiet-Goes (reading topic id) (sending topic id (r.hgetall id s).0) s (r.hgetall id s).1
          (hgetall-Does r up id s).1 (hgetall-Found sdk pen r up id s g.clean) (λ k own. own) g
    run_turn-Goes (sending topic id reply) s g =
        quiet-Goes (sending topic id reply) (popping topic) s s refl tt (λ k own. own) g
    run_turn-Goes over s g = g
