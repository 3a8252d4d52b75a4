-- ===== src/System/Clean.antt =====
-- What the keys of Redis hold: the predicate, and that the writes of the two services keep it.
use d8x_broker_server.Base.{◌≡◌, refl, sym, ap, subst, inl, inr, [], ◌==◌, Map, ℤ, Bool-cases, All}
use d8x_broker_server.Text.{Text, text_eq, text_beq_iff}
use d8x_broker_server.Hex.{decode}
use d8x_broker_server.Hex.Laws.{IsByte}
use d8x_broker_server.Sdk.{Sdk}
use d8x_broker_server.Redis.Documented.{Value, absent, str, hash, list, View, update}
use d8x_broker_server.Orders.{ApiOrderSig}
use d8x_broker_server.Orders.Store.{Holds, Holds-ne-nil, TakesHash, Published}
use d8x_broker_server.Orders.Submit.{stored, IsStack}
use d8x_broker_server.Pen.{
  SignaturePen, ApiBrokerSignatureRes, ok, create_order_digest, or_fail, big_int,
}
use d8x_broker_server.Pen.Signing.{Signed, >>=-eq-ok, ok-injective}
use d8x_broker_server.Ws.Notify.Update.{Fits}
use d8x_broker_server.System.Keys.{
  IsId, IsTopic, IsLevelKey, IsId-ne-IsTopic, IsId-ne-level, IsTopic-ne-level,
}

module _ (sdk : Sdk) where
  -- A hash is made of bytes.
  abbrev pub HashesToBytes : Type 0
  HashesToBytes = (s : Text) → All IsByte (sdk.prefixed_hash s)

  module _ (pen : SignaturePen) where
    -- The hash under an order id is an order that the pen has signed, and that has this id.
    pub record Issued (id : Text) (m : Map Text Text) : Type 0 where
      pub asked : ApiOrderSig
      pub chain_id : ℤ
      pub res : ApiBrokerSignatureRes
      pub signed : Signed sdk pen asked chain_id res
      pub same_id : res.order_id ≡ id
      pub fits : Fits res.order
      pub holds : Holds m res.order chain_id

    abbrev pub CleanAt : Text → Value → Type 0
    CleanAt k absent = Unit
    CleanAt k (str x) = IsLevelKey k
    CleanAt k (hash m) = Issued k m
    CleanAt k (list ids) = IsTopic k

    abbrev pub IsClean : View → Type 0
    IsClean v = (k : Text) → CleanAt k (v.key k)

    create_order_digest-IsId :
        HashesToBytes
        → (o : ApiOrderSig) (chain_id : ℤ) (d id : Text)
        → create_order_digest sdk o chain_id ≡ ok (d, id)
        → IsId id
    unfolding create_order_digest
    create_order_digest-IsId bytes o chain_id d id h =
        let (a, _, h1) = >>=-eq-ok (or_fail (big_int o.limit_price) _) _ h in
        let (b, _, h2) = >>=-eq-ok (or_fail (big_int o.trigger_price) _) _ h1 in
        let (c, _, h3) = >>=-eq-ok (or_fail (big_int o.amount) _) _ h2 in
        let (conf, _, h4) = >>=-eq-ok (or_fail (sdk.default_config chain_id) _) _ h3 in
        let (digest, _, h5) = >>=-eq-ok (or_fail (sdk.order_digest _ chain_id _) _) _ h4 in
        let (raw, _, h6) = >>=-eq-ok (or_fail (decode digest) _) _ h5 in
        (sdk.prefixed_hash raw, bytes raw, sym (ap (λ p. p.1) (ok-injective h6)))

    pub Signed-IsId :
        HashesToBytes
        → (o : ApiOrderSig) (chain_id : ℤ) (res : ApiBrokerSignatureRes)
        → Signed sdk pen o chain_id res
        → IsId res.order_id
    Signed-IsId bytes o chain_id res s =
        create_order_digest-IsId bytes res.order chain_id res.order_digest res.order_id s.id

    pub Issued-IsId : HashesToBytes → (id : Text) (m : Map Text Text) → Issued id m → IsId id
    Issued-IsId bytes id m i =
        subst IsId i.same_id (Signed-IsId bytes i.asked i.chain_id i.res i.signed)

    id-TakesHash : (k : Text) (x : Value) → IsId k → CleanAt k x → TakesHash x
    id-TakesHash k absent i c = tt
    id-TakesHash k (str x) i c = absurd (IsId-ne-level k i c)
    id-TakesHash k (hash m) i c = tt
    id-TakesHash k (list ids) i c = absurd (IsId-ne-IsTopic k i c)

    topic-IsStack : HashesToBytes → (k : Text) (x : Value) → IsTopic k → CleanAt k x → IsStack x
    topic-IsStack bytes k absent t c = tt
    topic-IsStack bytes k (str x) t c = absurd (IsTopic-ne-level k t c)
    topic-IsStack bytes k (hash m) t c = absurd (IsId-ne-IsTopic k (Issued-IsId bytes k m c) t)
    topic-IsStack bytes k (list ids) t c = tt

    -- In a clean Redis, order ids and stacks are free for what is written there.
    pub IsClean-TakesHash : (v : View) (k : Text) → IsClean v → IsId k → TakesHash (v.key k)
    IsClean-TakesHash v k c i = id-TakesHash k (v.key k) i (c k)

    pub IsClean-IsStack :
        HashesToBytes → (v : View) (k : Text) → IsClean v → IsTopic k → IsStack (v.key k)
    IsClean-IsStack bytes v k c t = topic-IsStack bytes k (v.key k) t (c k)

    pub update-IsClean :
        (v : View) (k : Text) (x : Value)
        → IsClean v
        → CleanAt k x
        → IsClean (record v { key = update k x v.key })
    update-IsClean v k x c new j = elim (Bool-cases (k == j)) [
      | inl same ↦ rw same (subst (λ i. CleanAt i x) ((text_beq_iff k j).0 same) new)
      | inr differ ↦ rw differ (c j)
    ]

    Holds-hash :
        (k : Text) (x : Value) (o : ApiOrderSig) (chain_id : ℤ)
        → Holds (stored x) o chain_id
        → (m : Map Text Text) × (x ≡ hash m)
    Holds-hash k absent o chain_id h = absurd (Holds-ne-nil [] o chain_id h refl)
    Holds-hash k (str x) o chain_id h = absurd (Holds-ne-nil [] o chain_id h refl)
    Holds-hash k (hash m) o chain_id h = (m, refl)
    Holds-hash k (list ids) o chain_id h = absurd (Holds-ne-nil [] o chain_id h refl)

    pub Published-IsClean :
        (v w : View) (o : ApiOrderSig) (chain_id : ℤ) (res : ApiBrokerSignatureRes)
        → Signed sdk pen o chain_id res
        → Fits res.order
        → Published v res.order res.order_id chain_id w
        → IsClean v
        → IsClean w
    Published-IsClean v w o chain_id res s fits p c k = elim (Bool-cases (k == res.order_id)) [
      | inl same ↦
          let at : k ≡ res.order_id = (text_beq_iff k res.order_id).0 same in
          let (m, is_hash) =
            Holds-hash k (w.key k) res.order chain_id
              (subst (λ j. Holds (stored (w.key j)) res.order chain_id) (sym at) p.holds) in
          subst (CleanAt k) (sym is_hash) (record {
            asked = o;
            chain_id = chain_id;
            res = res;
            signed = s;
            same_id = sym at;
            fits = fits;
            holds =
                subst (λ x. Holds (stored x) res.order chain_id) is_hash
                  (subst (λ j. Holds (stored (w.key j)) res.order chain_id) (sym at) p.holds);
          })
      | inr differ ↦
          subst (CleanAt k) (sym (p.others k (λ e. cc (differ, (text_beq_iff k res.order_id).1 e))))
            (c k)
    ]
