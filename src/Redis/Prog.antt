-- ===== src/Redis/Prog.antt =====
-- Code that talks to Redis, cut at its commands: a command and what goes on with the answer. Between
-- two commands other code may run.
use d8x_broker_server.Base.{ℕ, ◌≡◌, refl, ◌∙◌, ap, Map}
use d8x_broker_server.Text.{Text}
use d8x_broker_server.Redis.Documented.{Reply}
use d8x_broker_server.Redis.{Redis}

pub data Command : Type 0 where
  get : Text → Command
  set : Text → Text → Command
  expire : Text → ℕ → Command
  hset : Text → Map Text Text → Command
  hgetall : Text → Command
  lpush : Text → Text → Command
  lpop : Text → Command
  publish : Text → Text → Command

abbrev pub ReplyTo : Command → Type 0
ReplyTo (get k) = Reply Text
ReplyTo (set k x) = Reply (Unit {0})
ReplyTo (expire k n) = Unit {0}
ReplyTo (hset k fs) = Reply (Unit {0})
ReplyTo (hgetall k) = Reply (Map Text Text)
ReplyTo (lpush k x) = Reply (Unit {0})
ReplyTo (lpop k) = Reply Text
ReplyTo (publish c m) = Reply (Unit {0})

pub data Prog (A : Type 0) : Type 0 where
  done : A → Prog A
  call : (c : Command) → (ReplyTo c → Prog A) → Prog A

infixl 10 ◌>>=◌
abbrev pub ◌>>=◌ : {A B : Type 0} → Prog A → (A → Prog B) → Prog B
done a >>= f = f a
call c next >>= f = call c (λ reply. next reply >>= f)

-- One command.
abbrev pub ask : (c : Command) → Prog (ReplyTo c)
ask c = call c done

module _ (r : Redis) where
  open r use {Store}

  abbrev pub perform : (c : Command) → Store → ReplyTo c × Store
  perform (get k) s = r.get k s
  perform (set k x) s = r.set k x s
  perform (expire k n) s = (tt, r.expire k n s)
  perform (hset k fs) s = r.hset k fs s
  perform (hgetall k) s = r.hgetall k s
  perform (lpush k x) s = r.lpush k x s
  perform (lpop k) s = r.lpop k s
  perform (publish c m) s = r.publish c m s

  -- The program by itself, without other code between its commands.
  abbrev pub run : {A : Type 0} → Prog A → Store → A × Store
  run (done a) s = (a, s)
  run (call c next) s = let (reply, s') = perform c s in run (next reply) s'

  pub run-bind :
      {A B : Type 0} (p : Prog A) (f : A → Prog B) (s : Store)
      → run (p >>= f) s ≡ (let (a, s') = run p s in run (f a) s')
  run-bind (done a) f s = refl
  run-bind (call c next) f s = let (reply, s') = perform c s in run-bind (next reply) f s'

  -- A program whose answer is only put into another form.
  pub run-done :
      {A B : Type 0} (p : Prog A) (f : A → B) (s : Store) (q : A × Store)
      → run p s ≡ q
      → run (p >>= λ a. done (f a)) s ≡ (f q.0, q.1)
  run-done {A} p f s q same =
      run-bind p (λ a. done (f a)) s ∙ ap (λ (o : A × Store). (f o.0, o.1)) same
