-- ===== src/Redis/Connected.antt =====
-- A connection on which every answer arrives: each command then does what is documented.
use d8x_broker_server.Base.{◌≡◌, ◌≢◌, inl, inr, true, [], ◌∷◌, Option, none, some, arith, Map}
use d8x_broker_server.Text.{Text}
use d8x_broker_server.Redis.Documented.{
  Reply, err, broken, View, absent, str, hash, list, fields_of, get_value, popped, do_get, do_set,
  do_hset, do_hgetall, do_lpush, do_lpop, do_publish, lpush_value, hset_value, written, Value,
}
use d8x_broker_server.Redis.{Redis, Answers}
use d8x_broker_server.Redis.Memory.{memory}

pub record Connected (r : Redis) : Type 0 where
  pub get_arrives : (k : Text) (s : r.Store) → (r.get k s).0 ≢ err broken
  pub set_arrives : (k v : Text) (s : r.Store) → (r.set k v s).0 ≢ err broken
  pub hset_arrives : (k : Text) (fs : Map Text Text) (s : r.Store) → (r.hset k fs s).0 ≢ err broken
  pub hgetall_arrives : (k : Text) (s : r.Store) → (r.hgetall k s).0 ≢ err broken
  pub lpush_arrives : (k x : Text) (s : r.Store) → (r.lpush k x s).0 ≢ err broken
  pub lpop_arrives : (k : Text) (s : r.Store) → (r.lpop k s).0 ≢ err broken
  pub publish_arrives : (c m : Text) (s : r.Store) → (r.publish c m s).0 ≢ err broken

arrived :
    {A S : Type 0} (view : S → View) (p : Reply A × S) (d : Reply A × View)
    → Answers view p d
    → p.0 ≢ err broken
    → (p.0 ≡ d.0) × (view p.1 ≡ d.1)
arrived view p d (inl e) h = absurd (h e)
arrived view p d (inr e) h = (λ i. (e i).0, λ i. (e i).1)

module _ (r : Redis) (c : Connected r) where
  open r use {Store, view, get, set, hset, hgetall, lpush, lpop, publish}

  abbrev pub Does : {A : Type 0} → Reply A × Store → Reply A × View → Type 0
  Does p d = (p.0 ≡ d.0) × (view p.1 ≡ d.1)

  pub get-Does : (k : Text) (s : Store) → Does (get k s) (do_get k (view s))
  get-Does k s = arrived view _ _ (r.get_lem k s) (c.get_arrives k s)

  pub set-Does : (k x : Text) (s : Store) → Does (set k x s) (do_set k x (view s))
  set-Does k x s = arrived view _ _ (r.set_lem k x s) (c.set_arrives k x s)

  pub hset-Does :
      (k : Text) (fs : Map Text Text) (s : Store) → Does (hset k fs s) (do_hset k fs (view s))
  hset-Does k fs s = arrived view _ _ (r.hset_lem k fs s) (c.hset_arrives k fs s)

  pub hgetall-Does : (k : Text) (s : Store) → Does (hgetall k s) (do_hgetall k (view s))
  hgetall-Does k s = arrived view _ _ (r.hgetall_lem k s) (c.hgetall_arrives k s)

  pub lpush-Does : (k x : Text) (s : Store) → Does (lpush k x s) (do_lpush k x (view s))
  lpush-Does k x s = arrived view _ _ (r.lpush_lem k x s) (c.lpush_arrives k x s)

  pub lpop-Does : (k : Text) (s : Store) → Does (lpop k s) (do_lpop k (view s))
  lpop-Does k s = arrived view _ _ (r.lpop_lem k s) (c.lpop_arrives k s)

  pub publish-Does : (ch m : Text) (s : Store) → Does (publish ch m s) (do_publish ch m (view s))
  publish-Does ch m s = arrived view _ _ (r.publish_lem ch m s) (c.publish_arrives ch m s)

written-arrives : (k : Text) (o : Option Value) (v : View) → (written k o v).0 ≢ err broken
written-arrives k none v = ground arith
written-arrives k (some x) v = ground arith

fields_of-arrives : (x : Value) → fields_of x ≢ err broken
fields_of-arrives absent = ground arith
fields_of-arrives (str x) = ground arith
fields_of-arrives (hash m) = ground arith
fields_of-arrives (list xs) = ground arith

get_value-arrives : (x : Value) → get_value x ≢ err broken
get_value-arrives absent = ground arith
get_value-arrives (str x) = ground arith
get_value-arrives (hash m) = ground arith
get_value-arrives (list xs) = ground arith

popped-arrives : (k : Text) (x : Value) (v : View) → (popped k x v).0 ≢ err broken
popped-arrives k absent v = ground arith
popped-arrives k (str x) v = ground arith
popped-arrives k (hash m) v = ground arith
popped-arrives k (list []) v = ground arith
popped-arrives k (list (x ∷ xs)) v = ground arith

-- A server that is up is such a connection.
pub memory-Connected : Connected (memory true)
memory-Connected = record {
  get_arrives = λ k v. get_value-arrives (v.key k);
  set_arrives = λ k x v. ground arith;
  hset_arrives = λ k fs v. written-arrives k (hset_value fs (v.key k)) v;
  hgetall_arrives = λ k v. fields_of-arrives (v.key k);
  lpush_arrives = λ k x v. written-arrives k (lpush_value x (v.key k)) v;
  lpop_arrives = λ k v. popped-arrives k (v.key k) v;
  publish_arrives = λ ch m v. ground arith;
}
