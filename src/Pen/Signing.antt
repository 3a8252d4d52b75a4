-- ===== src/Pen/Signing.antt =====
-- What a signed order is: the fields that were signed, and what is left in Redis.
use d8x_broker_server.Base.{
  ◌≡◌, ◌≢◌, refl, subst, Bool, true, false, not, Option, none, some, arith, lookup, int_eq, ℤ,
}
use d8x_broker_server.Text.{Text, text_eq, text_beq_iff}
use d8x_broker_server.Eth.{Address, zero_address}
use d8x_broker_server.Sdk.{Sdk, Wallet}
use d8x_broker_server.Redis.{Redis}
use d8x_broker_server.Redis.Connected.{Connected}
use d8x_broker_server.Orders.{ChainConfig, ApiOrderSig, pub_order}
use d8x_broker_server.Orders.Store.{Published, TakesHash, pub_order-Published}
use d8x_broker_server.Pen.{
  SignaturePen, ApiBrokerSignatureRes, PenError, Result, ok, err, ◌>>=◌, or_fail, refuse, is_zero,
  has_key, wallet_addr, sign_order, create_order_digest, signed_order,
  get_broker_order_signature_response,
}

pub >>=-eq-ok {ℓ κ} :
    {C : Type ℓ} {D : Type κ} (first : Result C) (next : C → Result D) {d : D}
    → (first >>= next) ≡ ok d
    → (c : C) × (first ≡ ok c) × (next c ≡ ok d)
>>=-eq-ok (err e) next done = cc
>>=-eq-ok (ok c) next done = (c, refl, done)

pub ok-injective {ℓ} : {A : Type ℓ} {a b : A} → ok a ≡ ok b → a ≡ b
ok-injective h = cc h

pub or_fail-eq-ok {ℓ} :
    {A : Type ℓ} (o : Option A) (e : PenError) {a : A} → or_fail o e ≡ ok a → o ≡ some a
or_fail-eq-ok none e h = cc
or_fail-eq-ok (some b) e h = cc

pub refuse-eq-ok {ℓ} :
    {A : Type ℓ} (b : Bool) (e : PenError) (m : Result A) {a : A}
    → refuse b e m ≡ ok a
    → (b ≡ false) × (m ≡ ok a)
refuse-eq-ok true e m h = cc
refuse-eq-ok false e m h = (refl, h)

module _ (sdk : Sdk) where
  open sdk use {eth}

  -- A signed order: the chain is configured with a proxy, its wallet has a key, and the wallet has
  -- signed the perpetual, the fee, the trader and the deadline of the order that is returned. The
  -- order names the wallet as its broker, and its digest and id are those of the order returned.
  pub record Signed (p : SignaturePen) (o : ApiOrderSig) (chain_id : ℤ)
      (res : ApiBrokerSignatureRes) : Type 0 where
    pub config : ChainConfig
    pub configured : lookup chain_id p.chain_config ≡ some config
    pub has_proxy : config.proxy_addr ≢ zero_address
    pub wallet : Wallet
    pub held : lookup chain_id p.wallets ≡ some wallet
    pub key : has_key sdk wallet ≡ true
    pub digest : Text
    pub signature :
        sdk.order_signature config.proxy_addr chain_id wallet res.order.perpetual_id
          res.order.broker_fee_tbps
          (eth.hex (eth.to_address res.order.trader_addr))
          res.order.deadline
        ≡ some (digest, res.broker_signature)
    pub signature_bytes : sdk.bytes_from_hex res.broker_signature ≡ some res.order.broker_signature
    pub fields : res.order ≡ record o {
      broker_addr = eth.hex wallet.address;
      broker_signature = res.order.broker_signature;
    }
    pub id : create_order_digest sdk res.order chain_id ≡ ok (res.order_digest, res.order_id)
    pub chain : res.chain_id ≡ chain_id

  sign_order-ok :
      (p : SignaturePen) (o : ApiOrderSig) (proxy : Address) (chain_id : ℤ) (d sig : Text)
      → sign_order sdk p o proxy chain_id ≡ ok (d, sig)
      → (w : Wallet) × (lookup chain_id p.wallets ≡ some w)
        × (has_key sdk w ≡ true)
        × (sdk.order_signature proxy chain_id w o.perpetual_id o.broker_fee_tbps
              (eth.hex (eth.to_address o.trader_addr))
              o.deadline
            ≡ some (d, sig))
  unfolding sign_order
  sign_order-ok p o proxy chain_id d sig h =
      let (w, found, rest) = >>=-eq-ok (or_fail (lookup chain_id p.wallets) _) _ h in
      let (keyed, signs) = refuse-eq-ok (not (has_key sdk w)) _ _ rest in
      (w, or_fail-eq-ok _ _ found, ground arith, or_fail-eq-ok _ _ signs)

  -- The order as it is returned.
  abbrev completed : SignaturePen → ApiOrderSig → ℤ → Text → ApiOrderSig
  completed p o chain_id sig_bytes = record o {
    broker_signature = sig_bytes;
    broker_addr = wallet_addr sdk p chain_id;
  }

  abbrev response :
      SignaturePen → ApiOrderSig → ℤ → Text → Text → Text × Text → ApiBrokerSignatureRes
  response p o chain_id sig sig_bytes digest = record {
    order = completed p o chain_id sig_bytes;
    chain_id = chain_id;
    broker_signature = sig;
    order_digest = digest.0;
    order_id = digest.1;
  }

  response-Signed :
      (p : SignaturePen) (o : ApiOrderSig) (chain_id : ℤ) (conf : ChainConfig)
      (d sig sig_bytes : Text) (digest : Text × Text)
      → lookup chain_id p.chain_config ≡ some conf
      → is_zero conf.proxy_addr ≡ false
      → sign_order sdk p o conf.proxy_addr chain_id ≡ ok (d, sig)
      → sdk.bytes_from_hex sig ≡ some sig_bytes
      → create_order_digest sdk (completed p o chain_id sig_bytes) chain_id ≡ ok digest
      → Signed p o chain_id (response p o chain_id sig sig_bytes digest)
  response-Signed p o chain_id conf d sig sig_bytes digest configured proxied signs bytes id =
      let (w, held, key, signature) = sign_order-ok p o conf.proxy_addr chain_id d sig signs in
      record {
        config = conf;
        configured = configured;
        has_proxy = ground (arith, text_beq_iff conf.proxy_addr zero_address);
        wallet = w;
        held = held;
        key = key;
        digest = d;
        signature = signature;
        signature_bytes = bytes;
        fields = ground arith;
        id = id;
        chain = refl;
      }

  -- If an order is signed for a chain, the chain is configured with a proxy that is not zero, and
  -- its wallet has a private key and has signed the perpetual, fee, trader and deadline of the
  -- order returned, for that proxy and chain. The order returned is the order given but for the
  -- broker address, which is the wallet's, and the signature, which is the decoded one; its
  -- digest and id are computed from the order returned.
  pub signed_order-Signed :
      (p : SignaturePen) (o : ApiOrderSig) (chain_id : ℤ) (res : ApiBrokerSignatureRes)
      → signed_order sdk p o chain_id ≡ ok res
      → Signed p o chain_id res
  unfolding signed_order
  signed_order-Signed p o chain_id res h =
      let (conf, configured, rest) = >>=-eq-ok (or_fail (lookup chain_id p.chain_config) _) _ h in
      let (proxied, rest') = refuse-eq-ok (is_zero conf.proxy_addr) _ _ rest in
      let (ds, signs, rest'') = >>=-eq-ok (sign_order sdk p o conf.proxy_addr chain_id) _ rest' in
      let (bytes, decoded, last) = >>=-eq-ok (or_fail (sdk.bytes_from_hex ds.1) _) _ rest'' in
      let (digest, hashed, final) =
        >>=-eq-ok (create_order_digest sdk (completed p o chain_id bytes) chain_id) _ last in
      subst (Signed p o chain_id) (ok-injective final) (
        response-Signed p o chain_id conf ds.0 ds.1 bytes digest (or_fail-eq-ok _ _ configured)
          proxied signs (or_fail-eq-ok _ _ decoded) hashed)

  -- What GetBrokerOrderSignatureResponse leaves in Redis.
  abbrev pub Answered :
      SignaturePen
      → ApiOrderSig
      → ℤ
      → (r : Redis) → r.Store
      → Result ApiBrokerSignatureRes × r.Store
      → Type 0
  Answered p o chain_id r s (err e, t) = t ≡ s
  Answered p o chain_id r s (ok res, t) =
      Signed p o chain_id res
      × (TakesHash ((r.view s).key res.order_id)
          → Published (r.view s) res.order res.order_id chain_id (r.view t))

  response-Answered :
      (r : Redis) (c : Connected r) (p : SignaturePen) (o : ApiOrderSig) (chain_id : ℤ)
      (s : r.Store) (res : Result ApiBrokerSignatureRes)
      → signed_order sdk p o chain_id ≡ res
      → let q : Result ApiBrokerSignatureRes × r.Store = elim res [
        | err e ↦ (err e, s)
        | ok res ↦ (ok res, (pub_order r res.order res.order_id chain_id s).1)
      ] in
        Answered p o chain_id r s q
  response-Answered r c p o chain_id s (err e) h = refl
  response-Answered r c p o chain_id s (ok res) h = (
    signed_order-Signed p o chain_id res h,
    λ free. (pub_order-Published r c res.order res.order_id chain_id s free).1,
  )

  -- On a Redis whose answers all arrive: GetBrokerOrderSignatureResponse with an error leaves
  -- Redis as it was. With a response, the order is signed as `Signed` says, and if the order id's
  -- key was free or held a hash, it now holds the order returned, no other key has changed, and
  -- nothing was published.
  pub broker_order_response-Answered :
      (r : Redis) (c : Connected r) (p : SignaturePen) (o : ApiOrderSig) (chain_id : ℤ)
      (s : r.Store)
      → Answered p o chain_id r s (get_broker_order_signature_response sdk r p o chain_id s)
  unfolding get_broker_order_signature_response
  broker_order_response-Answered r c p o chain_id s =
      response-Answered r c p o chain_id s (signed_order sdk p o chain_id) refl
