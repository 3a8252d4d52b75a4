-- ===== src/System/Turns/Safe.antt =====
-- What a request that is worked on may still send to Redis, if the answers to its commands are
-- those of a clean Redis.
pub mod Commands
pub mod Requests
use d8x_broker_server.Base.{
  ◌<◌, ℕ, ◌≡◌, refl, sym, subst, ◌||◌, List, [], ◌∷◌, Option, none, some, map, ltb, if◌then◌else◌,
  length, Map, ℤ, pos, Option-cases, inl, inr, Bool, true, false,
}
use d8x_broker_server.Text.{Text, codes, to_lower, trim_prefix}
use d8x_broker_server.Sdk.{Sdk}
use d8x_broker_server.Redis.{Redis}
use d8x_broker_server.Redis.Documented.{Reply, ok, err, Fault}
use d8x_broker_server.Redis.Connected.{Connected}
use d8x_broker_server.Decimal.{atoi}
use d8x_broker_server.Redis.Prog.{
  Command, get, set, expire, hset, hgetall, lpush, lpop, publish, Prog, done, call, ◌>>=◌, ask,
}
use d8x_broker_server.Redis.Prog
use d8x_broker_server.Orders.{
  ApiOrderSig, ApiBrokerOrderSignatureReq, CheckError, check_data, SubmitError, order_fields,
  channel_new_order, stack_name, expiry_hdata_sec,
}
use d8x_broker_server.Pen.{SignaturePen, ApiBrokerSignatureRes, signed_order}
use d8x_broker_server.Pen
use d8x_broker_server.Pen.Signing.{Signed, signed_order-Signed}
use d8x_broker_server.Fee.{FeeLevels, Charge, charged, panics}
use d8x_broker_server.Api.{App}
use d8x_broker_server.Api.Handlers.{crashed, with_broker_addr, query_chain}
use d8x_broker_server.Api.Handlers.Submitted.{bare}
use d8x_broker_server.Api.Routes.{
  Endpoint, to_broker_address, to_chain_config, to_broker_fee, to_sign_order, to_orders_submitted,
  to_sign_payment, HttpRequest, Decoders, route,
}
use d8x_broker_server.Ws.Notify.Update.{Fits}
use d8x_broker_server.System.Keys.{IsTopic, IsLevelKey}
use d8x_broker_server.System.Clean.{Issued}
use d8x_broker_server.System.Queue.{Issued-IsTopic}
use d8x_broker_server.System.Rest.{
  DecodesFits, charged-Fits, signed-Fits, with_broker_addr-Fits, sign_payment-pen,
}
use d8x_broker_server.System.Tasks.{
  announce_task, found_task, submission_task, store_task, fetch_task, level_task, fee_task,
  response_task, broker_fee_task, charged_task, checked_task, sign_task, submitted_task,
  handle_task, serve_task,
}

-- The next command publishes the stack `k`.
abbrev pub IsAnnouncing : {A : Type 0} → Text → Prog A → Type 0
IsAnnouncing k (done a) = ⊥
IsAnnouncing k (call (get j) go_on) = ⊥
IsAnnouncing k (call (set j x) go_on) = ⊥
IsAnnouncing k (call (expire j n) go_on) = ⊥
IsAnnouncing k (call (hset j fs) go_on) = ⊥
IsAnnouncing k (call (hgetall j) go_on) = ⊥
IsAnnouncing k (call (lpush j x) go_on) = ⊥
IsAnnouncing k (call (lpop j) go_on) = ⊥
IsAnnouncing k (call (publish channel message) go_on) = message ≡ k

-- LPUSH is followed by the announcement of its stack.
abbrev pub Follows : {A : Type 0} → Command → Prog A → Type 0
Follows (get j) p = Unit
Follows (set j x) p = Unit
Follows (expire j n) p = Unit
Follows (hset j fs) p = Unit
Follows (hgetall j) p = Unit
Follows (lpush k x) p = IsAnnouncing k p
Follows (lpop j) p = Unit
Follows (publish channel message) p = Unit

bind-IsAnnouncing :
    {A B : Type 0} (k : Text) (p : Prog A) (f : A → Prog B)
    → IsAnnouncing k p
    → IsAnnouncing k (p >>= f)
bind-IsAnnouncing k (done a) f h = absurd h
bind-IsAnnouncing k (call (get j) go_on) f h = absurd h
bind-IsAnnouncing k (call (set j x) go_on) f h = absurd h
bind-IsAnnouncing k (call (expire j n) go_on) f h = absurd h
bind-IsAnnouncing k (call (hset j fs) go_on) f h = absurd h
bind-IsAnnouncing k (call (hgetall j) go_on) f h = absurd h
bind-IsAnnouncing k (call (lpush j x) go_on) f h = absurd h
bind-IsAnnouncing k (call (lpop j) go_on) f h = absurd h
bind-IsAnnouncing k (call (publish channel message) go_on) f h = h

bind-Follows :
    {A B : Type 0} (c : Command) (p : Prog A) (f : A → Prog B) → Follows c p → Follows c (p >>= f)
bind-Follows (get j) p f h = tt
bind-Follows (set j x) p f h = tt
bind-Follows (expire j n) p f h = tt
bind-Follows (hset j fs) p f h = tt
bind-Follows (hgetall j) p f h = tt
bind-Follows (lpush k x) p f h = bind-IsAnnouncing k p f h
bind-Follows (lpop j) p f h = tt
bind-Follows (publish channel message) p f h = tt

module _ (sdk : Sdk) (pen : SignaturePen) where
  -- The fields are those of an order that the pen has signed, and the key is its id.
  pub record Stores (k : Text) (fs : Map Text Text) : Type 0 where
    pub asked : ApiOrderSig
    pub chain_id : ℤ
    pub res : ApiBrokerSignatureRes
    pub signed : Signed sdk pen asked chain_id res
    pub same_id : k ≡ res.order_id
    pub fits : Fits res.order
    pub fields : fs ≡ order_fields res.order chain_id

  -- What a command may write.
  abbrev pub Grants : Command → Type 0
  Grants (get j) = Unit
  Grants (set k x) = IsLevelKey k
  Grants (expire j n) = 0 < n
  Grants (hset k fs) = Stores k fs
  Grants (hgetall j) = Unit
  Grants (lpush k x) = IsTopic k
  Grants (lpop j) = ⊥
  Grants (publish channel message) = channel ≡ channel_new_order

  -- The answer of HGETALL on a clean Redis.
  abbrev pub Found : Text → Reply (Map Text Text) → Type 0
  Found id (err e) = Unit
  Found id (ok []) = Unit
  Found id (ok (f ∷ fs)) = Issued sdk pen id (f ∷ fs)

  abbrev pub Relies : (c : Command) → Prog.ReplyTo c → Type 0
  Relies (get j) reply = Unit
  Relies (set k x) reply = Unit
  Relies (expire j n) reply = Unit
  Relies (hset k fs) reply = Unit
  Relies (hgetall id) reply = Found id reply
  Relies (lpush k x) reply = Unit
  Relies (lpop j) reply = Unit
  Relies (publish channel message) reply = Unit

  abbrev pub IsSafe : {A : Type 0} → Prog A → Type 0
  IsSafe (done a) = Unit
  IsSafe (call c go_on) =
      Grants c
      × ((reply : Prog.ReplyTo c) → Relies c reply → Follows c (go_on reply) × IsSafe (go_on reply))

  pub bind-IsSafe :
      {A B : Type 0} (p : Prog A) (f : A → Prog B)
      → IsSafe p
      → ((a : A) → IsSafe (f a))
      → IsSafe (p >>= f)
  bind-IsSafe (done a) f h g = g a
  bind-IsSafe (call c go_on) f (may, h) g = (
    may,
    λ reply rely.
        let (follows, safe) = h reply rely in
        (bind-Follows c (go_on reply) f follows, bind-IsSafe (go_on reply) f safe g),
  )
