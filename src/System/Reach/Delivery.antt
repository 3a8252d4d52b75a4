-- ===== src/System/Reach/Delivery.antt =====
-- From a signature request to the websocket, in any state that the system reaches.
use d8x_broker_server.Base.{
  ℕ, suc, ◌≢◌, ◌<◌, ◌≡◌, refl, sym, ◌∙◌, ap, subst, List, [], ◌∷◌, Option, none, some, Map, ℤ,
  length, arith,
}
use d8x_broker_server.Text.{Text, text_eq, codes, trim_prefix}
use d8x_broker_server.Text.Laws.{Lacks, trim_prefix-Lacks}
use d8x_broker_server.Hex.Laws.{encode-Lacks}
use d8x_broker_server.Sdk.{Sdk}
use d8x_broker_server.Redis.{Redis}
use d8x_broker_server.Redis.Documented.{Value, absent, str, hash, list}
use d8x_broker_server.Redis.Connected.{Connected}
use d8x_broker_server.Orders.{
  ChainConfig, ApiOrderSig, ApiBrokerOrderSignatureReq, order_submission,
}
use d8x_broker_server.Orders.Store.{Holds}
use d8x_broker_server.Orders.Submit.{stored, items}
use d8x_broker_server.Pen.{SignaturePen, ApiBrokerSignatureRes}
use d8x_broker_server.Api.{App}
use d8x_broker_server.Api.Handlers.{
  Response, success, problem, submit_failed, sign_order, orders_submitted, with_broker_addr,
}
use d8x_broker_server.Api.Handlers.Orders.{checked, fee, sign_order-SignedWith}
use d8x_broker_server.Api.Routes.{Decoders}
use d8x_broker_server.Ws.Subs.{Subscriptions}
use d8x_broker_server.Ws.Notify.Update.{Fits}
use d8x_broker_server.Ws.Notify.Journey.{order_topic, after_submit, Arrives, stored-Arrives}
use d8x_broker_server.System.Keys.{IsId}
use d8x_broker_server.System.Clean.{
  HashesToBytes, IsClean, CleanAt, Issued, Issued-IsId, Signed-IsId, IsClean-TakesHash,
  IsClean-IsStack,
}
use d8x_broker_server.System.Rest.{
  Kept, DecodesFits, get_broker_fee_tbps-Clean, sign_order-Kept, signed-Fits, charged-Fits,
  with_broker_addr-Fits,
}
use d8x_broker_server.System.Reach.{System, Reach}
use d8x_broker_server.System.Reach.Sound.{Reach-IsSound}

-- An order id starts with no `0x`, and OrdersSubmitted looks it up as it is.
trim_prefix-IsId : (id : Text) → IsId id → trim_prefix id (codes "0x") ≡ id
trim_prefix-IsId id (b, bytes, e) =
    trim_prefix-Lacks id (subst (Lacks b'x') (sym e) (encode-Lacks b bytes))

module _ (sdk : Sdk) (r : Redis) (c : Connected r) (rest_level : Text → Option ℤ)
    (bytes : HashesToBytes sdk) where
  open r use {Store, view}

  -- The answer to the announcement of ids that were looked up.
  abbrev answer_of : List Text → Store → Response (Unit {0}) × Store
  answer_of ids s =
      let (e, t) = order_submission r ids s in
      elim e [ none ↦ (success tt, t) | some f ↦ (problem (submit_failed f), t) ]

  submitted_one :
      (id : Text) (s : Store)
      → IsId id
      → (order_submission r (id ∷ []) s).0 ≡ none
      → orders_submitted sdk r rest_level (some (id ∷ [])) s
        ≡ (success tt, (order_submission r (id ∷ []) s).1)
  unfolding orders_submitted
  submitted_one id s hex done =
      ap (λ t. answer_of (t ∷ []) s) (trim_prefix-IsId id hex) ∙ rw (done, answer_of) refl

  with_broker_addr-chain :
      (a : App) (req : ApiBrokerOrderSignatureReq)
      → (with_broker_addr sdk r rest_level a req).chain_id ≡ req.chain_id
  unfolding with_broker_addr
  with_broker_addr-chain a req = ground arith

  -- OrdersSubmitted with the id of the order answers success, and handleNewOrder then ends, sends
  -- the order first, and leaves its stack empty.
  abbrev pub IsDelivered : ApiOrderSig → Text → ℤ → Store → Subscriptions → ℕ → Type 0
  IsDelivered o id chain_id s subs fuel =
      (orders_submitted sdk r rest_level (some (id ∷ [])) s
        ≡ (success tt, (after_submit r c subs o id chain_id s).1))
      × Arrives r c subs o id chain_id s fuel

  Holds-IsDelivered :
      (pen : SignaturePen) (o : ApiOrderSig) (id : Text) (chain_id : ℤ) (s : Store)
      (subs : Subscriptions) (fuel : ℕ)
      → IsClean sdk pen (view s)
      → IsId id
      → Fits o
      → Holds (stored ((view s).key id)) o chain_id
      → suc (length (items ((view s).key (order_topic o chain_id)))) < fuel
      → IsDelivered o id chain_id s subs fuel
  Holds-IsDelivered pen o id chain_id s subs fuel clean hex small holds enough =
      let reaches =
        stored-Arrives r c subs o id chain_id s fuel small holds
          (IsClean-IsStack sdk pen bytes (view s) (order_topic o chain_id) clean
            (o.perpetual_id, chain_id, refl))
          enough in
      (submitted_one id s hex reaches.0, reaches)

  module _ (a : App) (req : ApiBrokerOrderSignatureReq) (res : ApiBrokerSignatureRes)
      (s : Store) where
    -- The store behind the signature.
    abbrev pub after : Store
    after = (sign_order sdk r rest_level a (some req) s).1

    abbrev pub topic : Text
    topic = order_topic res.order req.chain_id

    module _ (heard : ℕ) where
      record Ready : Type 0 where
        hex : IsId res.order_id
        small : Fits res.order
        holds : Holds (stored ((view after).key res.order_id)) res.order req.chain_id
        kept : Kept sdk r c rest_level heard a after

      signed-Ready :
          Kept sdk r c rest_level heard a s
          → Fits req.order
          → (sign_order sdk r rest_level a (some req) s).0 ≡ success res
          → Ready
      signed-Ready clean fits signed =
          let w = sign_order-SignedWith sdk r c rest_level a req s res signed in
          let asked = checked sdk r c rest_level a req s in
          let looked =
            get_broker_fee_tbps-Clean sdk a.pen r c rest_level heard a.broker_fee_tbps
              a.broker_fee_lvls_tbps asked.order.trader_addr asked.chain_id s clean in
          let id = Signed-IsId sdk a.pen bytes _ _ res w.signed in
          let free =
            IsClean-TakesHash sdk a.pen (view (fee sdk r c rest_level a req s).1) res.order_id
              looked.0 id in
          record {
            hex = id;
            small = signed-Fits sdk a.pen _ _ res w.signed (
                charged-Fits _ _ (with_broker_addr-Fits sdk a.pen r c rest_level heard a req fits));
            holds =
                subst (Holds (stored ((view after).key res.order_id)) res.order)
                  (with_broker_addr-chain a req) (w.stored free).holds;
            kept = sign_order-Kept sdk r c rest_level heard a bytes req s fits clean;
          }

      pub signed-IsDelivered :
          (subs : Subscriptions) (fuel : ℕ)
          → Kept sdk r c rest_level heard a s
          → Fits req.order
          → (sign_order sdk r rest_level a (some req) s).0 ≡ success res
          → suc (length (items ((view after).key topic))) < fuel
          → IsDelivered res.order res.order_id req.chain_id after subs fuel
      signed-IsDelivered subs fuel clean fits signed enough =
          let q = signed-Ready clean fits signed in
          Holds-IsDelivered a.pen res.order res.order_id req.chain_id after subs fuel q.kept.0 q.hex
            q.small q.holds enough

module _ (sdk : Sdk) (r : Redis) (c : Connected r) (rest_level : Text → Option ℤ)
    (decoders : Decoders) (config : Map ℤ ChainConfig) (app : App) (bytes : HashesToBytes sdk) where
  open r use {Store, view}

  -- An order that the pen has signed and that is stored under the id; for some number of rounds
  -- its announcement delivers it.
  pub record Delivers (s : System Store) (id : Text) : Type 0 where
    pub issued : Issued sdk app.pen id (stored ((view s.store).key id))
    pub fuel : ℕ
    pub delivered :
        IsDelivered sdk r c rest_level bytes issued.res.order id issued.chain_id s.store s.hub.subs
          fuel

  issued-Delivers :
      (s : System Store) (id : Text) (x : Value)
      → IsClean sdk app.pen (view s.store)
      → (view s.store).key id ≡ x
      → stored x ≢ []
      → Delivers s id
  issued-Delivers s id absent clean at some_fields = absurd (some_fields refl)
  issued-Delivers s id (str x) clean at some_fields = absurd (some_fields refl)
  issued-Delivers s id (list ids) clean at some_fields = absurd (some_fields refl)
  issued-Delivers s id (hash m) clean at some_fields =
      let i : Issued sdk app.pen id (stored ((view s.store).key id)) =
        subst (λ x. Issued sdk app.pen id (stored x)) (sym at)
          (subst (CleanAt sdk app.pen id) at (clean id)) in
      let height = length (items ((view s.store).key (order_topic i.res.order i.chain_id))) in
      record {
        issued = i;
        fuel = suc (suc height);
        delivered =
            Holds-IsDelivered sdk r c rest_level bytes app.pen i.res.order id i.chain_id s.store
              s.hub.subs (suc (suc height)) clean
              (Issued-IsId sdk app.pen bytes id (stored ((view s.store).key id)) i) i.fits i.holds
              (omega arith);
      }

  -- On a Redis whose answers all arrive, with a hash that is made of bytes and a decoder that
  -- refuses numbers which their field cannot hold: in every state that the system reaches, if the
  -- key of an id holds fields, they are those of an order that the pen has signed and whose id it
  -- is; OrdersSubmitted with this id answers success; and with some number of rounds
  -- handleNewOrder on the order's topic then ends, its first writes send the order to each
  -- subscriber of the topic, and the topic's stack is empty.
  pub stored_order-Delivers :
      DecodesFits decoders
      → {s : System Store} → Reach sdk r rest_level decoders config app s
      → (id : Text) → stored ((view s.store).key id) ≢ []
      → Delivers s id
  stored_order-Delivers fits {s} reached id some_fields =
      issued-Delivers s id ((view s.store).key id)
        (Reach-IsSound sdk r c rest_level decoders config app bytes fits reached).clean refl
        some_fields

  -- On a Redis whose answers all arrive, with a hash that is made of bytes and a decoder that
  -- refuses numbers which their field cannot hold: if SignOrder answers a request with a signed
  -- order in a state that the system reaches, then OrdersSubmitted with its id, called next,
  -- answers success, and handleNewOrder on the order's topic, with fuel above the height of the
  -- topic's stack plus one, ends, its first writes send the signed order to each subscriber of
  -- the topic, and the stack is empty.
  pub signed_order-IsDelivered :
      DecodesFits decoders
      → {s : System Store} → Reach sdk r rest_level decoders config app s
      → (body : Text) (req : ApiBrokerOrderSignatureReq) (res : ApiBrokerSignatureRes) (fuel : ℕ)
      → decoders.order_req body ≡ some req
      → (sign_order sdk r rest_level s.app (some req) s.store).0 ≡ success res
      → suc (
          length (
            items (
              (view (after sdk r c rest_level bytes s.app req res s.store)).key
                (topic sdk r c rest_level bytes s.app req res s.store))))
        < fuel
      → IsDelivered sdk r c rest_level bytes res.order res.order_id req.chain_id
          (after sdk r c rest_level bytes s.app req res s.store)
          s.hub.subs
          fuel
  signed_order-IsDelivered fits {s} reached body req res fuel decoded signed enough =
      let sound = Reach-IsSound sdk r c rest_level decoders config app bytes fits reached in
      let clean = subst (λ p. IsClean sdk p (view s.store)) (sym sound.same_pen) sound.clean in
      signed-IsDelivered sdk r c rest_level bytes s.app req res s.store s.heard s.hub.subs fuel
        (clean, sound.covered) (fits body req decoded) signed enough
