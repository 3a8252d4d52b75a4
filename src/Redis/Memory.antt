-- ===== src/Redis/Memory.antt =====
-- A server that meets the interface: its state is what it shows. While it is up it answers as
-- documented, and while it is down no answer arrives. The concrete runs of other modules use it.
use d8x_broker_server.Base.{◌≡◌, refl, inl, inr, Bool, true, false, []}
use d8x_broker_server.Redis.Documented.{
  Reply, err, broken, View, absent, do_get, do_set, do_hset, do_hgetall, do_lpush, do_lpop,
  do_publish,
}
use d8x_broker_server.Redis.{Redis, Answers}

abbrev pub start : View
start = record { key = λ k. absent; sent = [] }

abbrev pub shown : View → View
shown v = v

abbrev pub answer : {A : Type 0} → Bool → Reply A × View → View → Reply A × View
answer true d v = d
answer false d v = (err broken, v)

pub answer-Answers :
    {A : Type 0} (up : Bool) (d : Reply A × View) (v : View) → Answers shown (answer up d v) d
answer-Answers true d v = inr refl
answer-Answers false d v = inl refl

pub read_keeps : {A : Type 0} (up : Bool) (r : Reply A) (v : View) → (answer up (r, v) v).1 ≡ v
read_keeps true r v = refl
read_keeps false r v = refl

abbrev pub memory : Bool → Redis
memory up = record {
  Store = View;
  view = shown;
  get = λ k v. answer up (do_get k v) v;
  set = λ k x v. answer up (do_set k x v) v;
  expire = λ k n v. v;
  hset = λ k fs v. answer up (do_hset k fs v) v;
  hgetall = λ k v. answer up (do_hgetall k v) v;
  lpush = λ k x v. answer up (do_lpush k x v) v;
  lpop = λ k v. answer up (do_lpop k v) v;
  publish = λ c m v. answer up (do_publish c m v) v;
  get_lem = λ k v. answer-Answers up _ v;
  set_lem = λ k x v. answer-Answers up _ v;
  expire_keeps = λ k n v positive. refl;
  hset_lem = λ k fs v. answer-Answers up _ v;
  hgetall_lem = λ k v. answer-Answers up _ v;
  hgetall_keeps = λ k v. read_keeps up _ v;
  lpush_lem = λ k x v. answer-Answers up _ v;
  lpop_lem = λ k v. answer-Answers up _ v;
  publish_lem = λ c m v. answer-Answers up _ v;
}
