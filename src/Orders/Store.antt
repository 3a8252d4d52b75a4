-- ===== src/Orders/Store.antt =====
-- PubOrder: what it leaves in Redis under the order id. CheckData: which requests pass.
use d8x_broker_server.Base.{
  ◌<◌, ◌≡◌, refl, sym, ◌∙◌, subst, ◌≢◌, ◌↔◌, [], ◌∷◌, ◌++◌, Option, none, some, arith, Map, lookup,
  lookup-insert, beq_self, false, pos, ℤ, nat_eq, int_eq, length,
}
use d8x_broker_server.Text.{Text, text_eq, text_beq, text_beq_iff, codes}
use d8x_broker_server.Decimal.{itoa}
use d8x_broker_server.Eth.{Eth, zero_address}
use d8x_broker_server.Redis.{Redis}
use d8x_broker_server.Redis.Documented.{
  Reply, ok, err, Value, absent, str, hash, list, View, Fault, do_hset, put_all, written,
}
use d8x_broker_server.Redis.Connected.{Connected, hset-Does}
use d8x_broker_server.Orders.{
  ApiOrderSig, ApiBrokerOrderSignatureReq, is_bad_addr, check_data, order_fields, stack_name,
  pub_order, expiry_hdata_sec,
}
use d8x_broker_server.Orders.Submit.{stored}

-- A hash that reads as the order: all that the websocket service sends, and its stack.
pub record Holds (m : Map Text Text) (o : ApiOrderSig) (chain_id : ℤ) : Type 0 where
  pub chain : lookup (codes "ChainId") m ≡ some (itoa chain_id)
  pub perpetual : lookup (codes "PerpetualId") m ≡ some (itoa o.perpetual_id)
  pub trader : lookup (codes "TraderAddr") m ≡ some o.trader_addr
  pub until : lookup (codes "Deadline") m ≡ some (itoa (pos o.deadline))
  pub flag_bits : lookup (codes "Flags") m ≡ some (itoa (pos o.flags))
  pub amounts : lookup (codes "FAmount") m ≡ some o.amount
  pub limits : lookup (codes "FLimitPrice") m ≡ some o.limit_price
  pub triggers : lookup (codes "FTriggerPrice") m ≡ some o.trigger_price
  pub executes : lookup (codes "ExecutionTimestamp") m ≡ some (itoa (pos o.execution_timestamp))

put_all-Holds :
    (o : ApiOrderSig) (chain_id : ℤ) (m : Map Text Text)
    → Holds (put_all (order_fields o chain_id) m) o chain_id
unfolding put_all order_fields text_beq
put_all-Holds o chain_id m = record {
  chain = simp lookup-insert;
  perpetual = simp lookup-insert;
  trader = simp lookup-insert;
  until = simp lookup-insert;
  flag_bits = simp lookup-insert;
  amounts = simp lookup-insert;
  limits = simp lookup-insert;
  triggers = simp lookup-insert;
  executes = simp lookup-insert;
}

pub Holds-ne-nil : (m : Map Text Text) (o : ApiOrderSig) (k : ℤ) → Holds m o k → m ≢ []
unfolding lookup
Holds-ne-nil [] o k h e = cc (h.chain)
Holds-ne-nil (f ∷ fs) o k h e = cc

-- The stack of a stored order is its perpetual and its chain, in decimal, joined by a colon.
pub stack_name-Holds :
    (m : Map Text Text) (o : ApiOrderSig) (chain_id : ℤ)
    → Holds m o chain_id
    → stack_name m ≡ itoa o.perpetual_id ++ (b':' ∷ itoa chain_id)
unfolding stack_name
stack_name-Holds m o chain_id h = ground (arith, h.perpetual, h.chain)

abbrev pub TakesHash : Value → Type 0
TakesHash absent = Unit {0}
TakesHash (str x) = ⊥
TakesHash (hash m) = Unit {0}
TakesHash (list xs) = ⊥

pub record Published (v : View) (o : ApiOrderSig) (id : Text) (chain_id : ℤ) (w : View)
    : Type 0 where
  pub holds : Holds (stored (w.key id)) o chain_id
  pub others : (k : Text) → k ≢ id → w.key k ≡ v.key k
  pub sent : w.sent ≡ v.sent

written-Published :
    (v : View) (o : ApiOrderSig) (id : Text) (chain_id : ℤ) (m : Map Text Text)
    → Published v o id chain_id (written id (some (hash (put_all (order_fields o chain_id) m))) v).1
written-Published v o id chain_id m = record {
  holds = rw (beq_self id) (put_all-Holds o chain_id m);
  others = λ k h. ground (arith, text_beq_iff id k);
  sent = refl;
}

pub do_hset-Published :
    (v : View) (o : ApiOrderSig) (id : Text) (chain_id : ℤ) (x : Value)
    → v.key id ≡ x
    → TakesHash x
    → ((do_hset id (order_fields o chain_id) v).0 ≡ ok tt)
      × Published v o id chain_id (do_hset id (order_fields o chain_id) v).1
do_hset-Published v o id chain_id absent e t = rw e (refl, written-Published v o id chain_id [])
do_hset-Published v o id chain_id (hash m) e t = rw e (refl, written-Published v o id chain_id m)
do_hset-Published v o id chain_id (str x) e t = absurd t
do_hset-Published v o id chain_id (list xs) e t = absurd t

module _ (r : Redis) (c : Connected r) where
  open r use {Store, view, hset}

  -- On a Redis whose answers all arrive, and for an id whose key is free or holds a hash,
  -- PubOrder has no error; each field it wrote reads back under the id, no other key has changed,
  -- and nothing was published.
  pub pub_order-Published :
      (o : ApiOrderSig) (id : Text) (chain_id : ℤ) (s : Store)
      → TakesHash ((view s).key id)
      → ((pub_order r o id chain_id s).0 ≡ none)
        × Published (view s) o id chain_id (view (pub_order r o id chain_id s).1)
  unfolding pub_order
  pub_order-Published o id chain_id s t =
      let does = hset-Does r c id (order_fields o chain_id) s in
      let known = do_hset-Published (view s) o id chain_id ((view s).key id) refl t in
      let shows =
        r.expire_keeps id expiry_hdata_sec (hset id (order_fields o chain_id) s).1 (omega arith) in
      stored_reply (hset id (order_fields o chain_id) s).0 (does.0 ∙ known.0)
        (subst (Published (view s) o id chain_id) (sym (shows ∙ does.1)) known.1)
    where
      stored_reply :
          (reply : Reply (Unit {0}))
          → reply ≡ ok tt
          → Published
              (view s)
              o
              id
              chain_id
              (view (r.expire id expiry_hdata_sec (hset id (order_fields o chain_id) s).1))
          → let q : Option Fault × Store = elim reply [
            | err e ↦ (some e, (hset id (order_fields o chain_id) s).1)
            | ok _ ↦ (none, r.expire id expiry_hdata_sec (hset id (order_fields o chain_id) s).1)
          ] in
            (q.0 ≡ none) × Published (view s) o id chain_id (view q.1)
      stored_reply (ok _) e p = (refl, p)
      stored_reply (err f) e p = cc

module _ (eth : Eth) where
  -- An address as CheckData wants it: 42 bytes, and not the zero address.
  abbrev pub IsAddr : Text → Type 0
  IsAddr a = (a ≢ eth.hex zero_address) × (length a ≡ 42)

  is_bad_addr-IsAddr : (a : Text) → (is_bad_addr eth a ≡ false) ↔ IsAddr a
  unfolding is_bad_addr
  is_bad_addr-IsAddr a =
      ground (arith, text_beq_iff a (eth.hex zero_address), eth.length-hex zero_address)

  -- CheckData accepts a request if and only if the chain id is not 0, the deadline is positive,
  -- the trader and the broker address have 42 bytes and are not the zero address, and the
  -- perpetual id is not 0.
  pub check_data-none :
      (req : ApiBrokerOrderSignatureReq)
      → (check_data eth req ≡ none) ↔ (
          (req.chain_id ≢ pos 0)
          × (0 < req.order.deadline)
          × IsAddr req.order.trader_addr
          × IsAddr req.order.broker_addr
          × (req.order.perpetual_id ≢ pos 0))
  unfolding check_data
  check_data-none req = ground (
    arith,
    is_bad_addr-IsAddr req.order.trader_addr,
    is_bad_addr-IsAddr req.order.broker_addr,
    int_eq.beq_iff req.chain_id (pos 0),
    int_eq.beq_iff req.order.perpetual_id (pos 0),
  )
