-- ===== src/Redis.antt =====
-- The Redis server, which both services talk to through `*rueidis.Client`. It is no code of the
-- repository: `Redis` is the interface that the modelled code takes, and `Documented` says what
-- each command does on a server whose answer arrives. A command whose answer does not arrive
-- (`broken`) may or may not have taken place. EXPIRE with a positive time leaves the key as it is.
-- In a handler that is one function, no key expires between two commands; System/Turns has its
-- commands one by one, with all else in between.
pub mod Documented
pub mod Memory
pub mod Connected
pub mod Prog
use d8x_broker_server.Base.{ℕ, ◌<◌, ◌≡◌, ◌⊎◌, List}
use d8x_broker_server.Base.{Map}
use d8x_broker_server.Text.{Text}
use Documented.{
  Reply, err, broken, View, do_get, do_set, do_hset, do_hgetall, do_lpush, do_lpop, do_publish,
}

-- The answer did not arrive, or answer and effect are the documented ones.
abbrev pub Answers : {A S : Type 0} → (S → View) → Reply A × S → Reply A × View → Type 0
Answers view (r, s) d = (r ≡ err broken) ⊎ ((r, view s) ≡ d)

pub record Redis : Type 1 where
  pub Store : Type 0
  pub view : Store → View
  pub get : Text → Store → Reply Text × Store
  pub set : Text → Text → Store → Reply (Unit {0}) × Store
  pub expire : Text → ℕ → Store → Store
  pub hset : Text → Map Text Text → Store → Reply (Unit {0}) × Store
  pub hgetall : Text → Store → Reply (Map Text Text) × Store
  pub lpush : Text → Text → Store → Reply (Unit {0}) × Store
  pub lpop : Text → Store → Reply Text × Store
  pub publish : Text → Text → Store → Reply (Unit {0}) × Store
  pub get_lem : (k : Text) (s : Store) → Answers view (get k s) (do_get k (view s))
  pub set_lem : (k v : Text) (s : Store) → Answers view (set k v s) (do_set k v (view s))
  pub expire_keeps : (k : Text) (n : ℕ) (s : Store) → 0 < n → view (expire k n s) ≡ view s
  pub hset_lem :
      (k : Text) (fs : Map Text Text) (s : Store)
      → Answers view (hset k fs s) (do_hset k fs (view s))
  pub hgetall_lem : (k : Text) (s : Store) → Answers view (hgetall k s) (do_hgetall k (view s))
  pub hgetall_keeps : (k : Text) (s : Store) → view (hgetall k s).1 ≡ view s
  pub lpush_lem : (k x : Text) (s : Store) → Answers view (lpush k x s) (do_lpush k x (view s))
  pub lpop_lem : (k : Text) (s : Store) → Answers view (lpop k s) (do_lpop k (view s))
  pub publish_lem :
      (c m : Text) (s : Store) → Answers view (publish c m s) (do_publish c m (view s))
