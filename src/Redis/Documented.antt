-- ===== src/Redis/Documented.antt =====
-- What the Redis documentation says of the commands that the program sends: a key holds a value of
-- one type, a command on a value of another type is refused, and a missing key is an empty hash or
-- list.
use d8x_broker_server.Base.{
  List, [], ◌∷◌, ◌++◌, ◌==◌, if◌then◌else◌, Map, insert, Option, none, some,
}
use d8x_broker_server.Text.{Text, text_eq}

pub data Fault : Type 0 where
  nil refused broken : Fault

pub data Reply {ℓ} (A : Type ℓ) : Type ℓ where
  ok : A → Reply A
  err : Fault → Reply A

pub data Value : Type 0 where
  absent : Value
  str : Text → Value
  hash : Map Text Text → Value
  list : List Text → Value

-- What the keys hold, and what was published so far: channel and message, oldest first.
pub record View : Type 0 where
  pub key : Text → Value
  pub sent : List (Text × Text)

abbrev pub update : Text → Value → (Text → Value) → Text → Value
update k v f j = if k == j then v else f j

-- The fields of a hash, after others are written into it.
unfoldable pub put_all : Map Text Text → Map Text Text → Map Text Text
put_all [] m = m
put_all ((f, v) ∷ fs) m = put_all fs (insert f v m)

abbrev pub get_value : Value → Reply Text
get_value absent = err nil
get_value (str v) = ok v
get_value (hash m) = err refused
get_value (list xs) = err refused

abbrev pub do_get : Text → View → Reply Text × View
do_get k v = (get_value (v.key k), v)

abbrev pub do_set : Text → Text → View → Reply (Unit {0}) × View
do_set k x v = (ok tt, record v { key = update k (str x) v.key })

abbrev pub hset_value : Map Text Text → Value → Option Value
hset_value fs absent = some (hash (put_all fs []))
hset_value fs (str v) = none
hset_value fs (hash m) = some (hash (put_all fs m))
hset_value fs (list xs) = none

abbrev pub lpush_value : Text → Value → Option Value
lpush_value x absent = some (list (x ∷ []))
lpush_value x (str v) = none
lpush_value x (hash m) = none
lpush_value x (list xs) = some (list (x ∷ xs))

-- A write that is refused changes nothing.
abbrev pub written : Text → Option Value → View → Reply (Unit {0}) × View
written k none v = (err refused, v)
written k (some x) v = (ok tt, record v { key = update k x v.key })

abbrev pub do_hset : Text → Map Text Text → View → Reply (Unit {0}) × View
do_hset k fs v = written k (hset_value fs (v.key k)) v

abbrev pub fields_of : Value → Reply (Map Text Text)
fields_of absent = ok []
fields_of (str v) = err refused
fields_of (hash m) = ok m
fields_of (list xs) = err refused

abbrev pub do_hgetall : Text → View → Reply (Map Text Text) × View
do_hgetall k v = (fields_of (v.key k), v)

abbrev pub do_lpush : Text → Text → View → Reply (Unit {0}) × View
do_lpush k x v = written k (lpush_value x (v.key k)) v

-- A list whose last item is popped is a missing key again.
abbrev pub list_value : List Text → Value
list_value [] = absent
list_value (x ∷ xs) = list (x ∷ xs)

abbrev pub popped : Text → Value → View → Reply Text × View
popped k absent v = (err nil, v)
popped k (str x) v = (err refused, v)
popped k (hash m) v = (err refused, v)
popped k (list []) v = (err nil, v)
popped k (list (x ∷ xs)) v = (ok x, record v { key = update k (list_value xs) v.key })

abbrev pub do_lpop : Text → View → Reply Text × View
do_lpop k v = popped k (v.key k) v

abbrev pub do_publish : Text → Text → View → Reply (Unit {0}) × View
do_publish c m v = (ok tt, record v { sent = v.sent ++ (c, m) ∷ [] })
