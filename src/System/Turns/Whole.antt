-- ===== src/System/Turns/Whole.antt =====
-- The system whose steps are whole handlers is the system command by command, with turns that
-- happen not to be interleaved.
use d8x_broker_server.Base.{
  ℕ, zero, suc, ◌≡◌, refl, subst, inl, inr, List, [], ◌∷◌, Option, some, All, Map, ℤ, Option-cases,
}
use d8x_broker_server.Text.{Text}
use d8x_broker_server.Sdk.{Sdk}
use d8x_broker_server.Redis.{Redis}
use d8x_broker_server.Redis.Documented.{Reply, ok, err, Fault}
use d8x_broker_server.Redis.Prog.{Prog, done, call, perform, run}
use d8x_broker_server.Orders.{ChainConfig}
use d8x_broker_server.Api.{App}
use d8x_broker_server.Api.Routes.{Decoders, Answer, HttpRequest}
use d8x_broker_server.Ws.Notify.{Write, handle_order_id, handle_new_order}
use d8x_broker_server.System.Tasks.{serve_task}
use d8x_broker_server.System.Tasks.Whole.{run-serve_task}
use d8x_broker_server.System.Rest.{Reply-cases}
use d8x_broker_server.System.Reach.{
  System, Step, Reach, after_rest, rest, ws, deliver, expire, start, next,
}
use d8x_broker_server.System.Turns.{
  Run, popping, reading, sending, over, popped_id, Pool, Came, event, turn, run_turn,
}
use d8x_broker_server.System.Turns
use d8x_broker_server.System.Turns.Quiet.{IsAnswered, IsOver}

module _ (sdk : Sdk) (r : Redis) (rest_level : Text → Option ℤ) (decoders : Decoders)
    (config : Map ℤ ChainConfig) (app : App) where
  open r use {Store, view}

  abbrev pub Comes : Pool Store → Type 0
  Comes = Came r sdk rest_level decoders config app

  -- The pool that shows as the system.
  abbrev pub pool : System Store → List (Prog Answer) → List Run → Pool Store
  pool s tasks runs = record {
    app = s.app;
    store = s.store;
    hub = s.hub;
    heard = s.heard;
    tasks = tasks;
    runs = runs;
  }

  -- The newest request is worked on alone until it is answered.
  run-Comes :
      (p : Prog Answer) (s : System Store) (tasks : List (Prog Answer)) (runs : List Run)
      → Comes (pool s (p ∷ tasks) runs)
      → Comes
          (pool (record s { store = (run r p s.store).1 }) (done (run r p s.store).0 ∷ tasks) runs)
  run-Comes (done a) s tasks runs came = came
  run-Comes (call c go_on) s tasks runs came =
      run-Comes (go_on (perform r c s.store).0) (record s { store = (perform r c s.store).1 }) tasks
        runs (turn came (Turns.rest [] tasks c go_on refl))

  -- A round of handleNewOrder is one turn of its run, or three.
  pop-Comes :
      (topic : Text) (s : System Store) (tasks : List (Prog Answer)) (runs : List Run)
      (reply : Reply Text)
      → (r.lpop topic s.store).0 ≡ reply
      → Comes (pool s tasks (popping topic ∷ runs))
      → Comes (
          pool (record s { store = (r.lpop topic s.store).1 }) tasks (popped_id topic reply ∷ runs))
  unfolding run_turn
  pop-Comes topic s tasks runs reply at came =
      subst
        (λ q.
          Comes
            (pool (record s { store = (r.lpop topic s.store).1 }) tasks (popped_id topic q ∷ runs)))
        at (turn came (Turns.drain [] runs (popping topic) refl (λ e. cc e)))

  send-Comes :
      (topic id : Text) (s : System Store) (tasks : List (Prog Answer)) (runs : List Run)
      → Comes (pool s tasks (reading topic id ∷ runs))
      → Comes (
          pool
            (record s { store = (handle_order_id r s.hub.subs id topic s.store).1 })
            tasks
            (popping topic ∷ runs))
  unfolding run_turn handle_order_id
  send-Comes topic id s tasks runs came =
      turn (turn came (Turns.drain [] runs (reading topic id) refl (λ e. cc e)))
        (Turns.drain [] runs (sending topic id (r.hgetall id s.store).0) refl (λ e. cc e))

  last_store :
      (fuel : ℕ) (topic : Text) (s : System Store) (writes : List Write) (t : Store) (f : Fault)
      → (r.lpop topic s.store).0 ≡ err f
      → handle_new_order r s.hub.subs (suc fuel) topic s.store ≡ some (writes, t)
      → (r.lpop topic s.store).1 ≡ t
  unfolding handle_new_order
  last_store fuel topic s writes t f failed ended =
      let result = rw (failed, handle_new_order) at ended in cc result

  -- The newest run goes on alone until it has ended.
  drain-Comes :
      (fuel : ℕ) (topic : Text) (s : System Store) (tasks : List (Prog Answer)) (runs : List Run)
      (writes : List Write) (t : Store)
      → handle_new_order r s.hub.subs fuel topic s.store ≡ some (writes, t)
      → Comes (pool s tasks (popping topic ∷ runs))
      → Comes (pool (record s { store = t }) tasks (over ∷ runs))
  unfolding handle_new_order
  drain-Comes zero topic s tasks runs writes t ended came = cc ended
  drain-Comes (suc fuel) topic s tasks runs writes t ended came =
      elim (Reply-cases (r.lpop topic s.store).0) [
        | inr (f, failed) ↦
            subst (λ u. Comes (pool (record s { store = u }) tasks (over ∷ runs)))
              (last_store fuel topic s writes t f failed ended)
              (pop-Comes topic s tasks runs (err f) failed came)
        | inl (id, popped) ↦
            let sent =
              send-Comes topic id (record s { store = (r.lpop topic s.store).1 }) tasks runs
                (pop-Comes topic s tasks runs (ok id) popped came) in
            let u = (handle_order_id r s.hub.subs id topic (r.lpop topic s.store).1).1 in
            elim (Option-cases (handle_new_order r s.hub.subs fuel topic u)) [
              | inl starved ↦
                  let round = rw (popped, handle_new_order) at ended in
                  let none_left = rw (starved, handle_new_order) at round in cc none_left
              | inr ((more, v), went_on) ↦
                  let round = rw (popped, handle_new_order) at ended in
                  let result = rw (went_on, handle_new_order) at round in
                  let same : v ≡ t = cc result in
                  subst (λ w. Comes (pool (record s { store = w }) tasks (over ∷ runs))) same
                    (drain-Comes fuel topic (record s { store = u }) tasks runs more v went_on sent)
            ]
      ]

  -- The requests and runs of the past.
  pub record Idle (s : System Store) : Type 0 where
    pub tasks : List (Prog Answer)
    pub runs : List Run
    pub came : Comes (pool s tasks runs)
    pub answered : All IsAnswered tasks
    pub ended : All IsOver runs

  served_Idle :
      (connect : List Text → Option sdk.Client) (now later : ℕ) (q : HttpRequest) (s : System Store)
      → Idle s
      → Idle (after_rest sdk r rest_level decoders config connect now later q s)
  served_Idle connect now later q s i =
      let (task, app') = serve_task sdk r rest_level decoders connect now later s.app q in
      let (answer, t) = run r task s.store in
      let came =
        run-Comes task (record s { app = app' }) i.tasks i.runs
          (event i.came (Turns.request connect now later q)) in
      let same = run-serve_task sdk r rest_level decoders connect now later s.app q s.store in
      subst (λ (p : Answer × App × Store). Idle (record s { app = p.1; store = p.2 })) same
        (record {
          tasks = done answer ∷ i.tasks;
          runs = i.runs;
          came = came;
          answered = (tt, i.answered);
          ended = i.ended;
        })

  step_Idle : {s t : System Store} → Step sdk r rest_level decoders config s t → Idle s → Idle t
  step_Idle {s} (rest connect now later q) i = served_Idle connect now later q s i
  step_Idle {s} (ws h st) i = record {
    tasks = i.tasks;
    runs = i.runs;
    came = event i.came (Turns.ws h st);
    answered = i.answered;
    ended = i.ended;
  }
  step_Idle {s} (deliver fuel topic writes t at ended) i = record {
    tasks = i.tasks;
    runs = over ∷ i.runs;
    came =
        drain-Comes fuel topic (record s { heard = suc s.heard }) i.tasks i.runs writes t ended
          (turn i.came (Turns.receive topic at));
    answered = i.answered;
    ended = (refl, i.ended);
  }
  step_Idle {s} (expire k t e) i = record {
    tasks = i.tasks;
    runs = i.runs;
    came = event i.came (Turns.expire k t e);
    answered = i.answered;
    ended = i.ended;
  }

  -- Every state that the system reaches by whole handlers, it reaches by single turns too, with
  -- the same service, Redis, connections and count of received messages, and with every request
  -- answered and every run of handleNewOrder ended.
  pub Reach-Idle : {s : System Store} → Reach sdk r rest_level decoders config app s → Idle s
  Reach-Idle (start s empty) = record {
    tasks = [];
    runs = [];
    came = Turns.start s empty;
    answered = tt;
    ended = tt;
  }
  Reach-Idle (next before st) = step_Idle st (Reach-Idle before)
