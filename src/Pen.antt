-- ===== src/Pen.antt =====
-- utils/signatures.go but for the key file: the signature pen with its maps, and the signing of
-- orders and payments. Errors are values; their texts are left out.
pub mod Wallets
pub mod Signing
use d8x_broker_server.Base.{
  ℕ, zero, suc, ◌+◌, ◌-◌, ◌*◌, Bool, true, false, not, ◌&&◌, ◌||◌, List, [], ◌∷◌, Option, none,
  some, ◌==◌, if◌then◌else◌, leb, nat_eq, length, Map, lookup, insert, get_or, ℤ, pos, negsuc,
  int_eq,
}
use d8x_broker_server.Text.{Text, text_eq, equal_fold}
use d8x_broker_server.Hex.{encode, decode}
use d8x_broker_server.Eth.{Address, zero_address, Eth}
use d8x_broker_server.Sdk.{Sdk, Wallet, Payment, BrokerPaySignatureReq, ClientOrder}
use d8x_broker_server.Redis.{Redis}
use d8x_broker_server.Orders.{ChainConfig, ApiOrderSig, pub_order}

pub record RpcConfig : Type 0 where
  pub chain_id : ℤ
  pub rpc : List Text

pub record SignaturePen : Type 0 where
  pub chain_config : Map ℤ ChainConfig
  pub rpc_url : Map ℤ (List Text)
  pub wallets : Map ℤ Wallet

pub record ApiBrokerSignatureRes : Type 0 where
  pub order : ApiOrderSig
  pub chain_id : ℤ
  pub broker_signature : Text
  pub order_digest : Text
  pub order_id : Text

pub data PenError : Type 0 where
  no_rpc_url no_client no_wallet : ℤ → PenError
  no_chain_config no_proxy no_broker_key : ℤ → PenError
  signing_failed bad_signature bad_big_number no_sdk_config digest_failed bad_digest : PenError
  no_multi_pay multi_pay_mismatch : ℤ → PenError
  recover_failed : PenError

pub data Result {ℓ} (A : Type ℓ) : Type ℓ where
  ok : A → Result A
  err : PenError → Result A

infixl 5 ◌>>=◌
abbrev pub ◌>>=◌ {ℓ κ} : {C : Type ℓ} {D : Type κ} → Result C → (C → Result D) → Result D
err e >>= next = err e
ok c >>= next = next c

abbrev pub or_fail {ℓ} : {A : Type ℓ} → Option A → PenError → Result A
or_fail none e = err e
or_fail (some a) e = ok a

-- An early return on an error condition.
abbrev pub refuse {ℓ} : {A : Type ℓ} → Bool → PenError → Result A → Result A
refuse true e m = err e
refuse false e m = m

-- createRpcConfigMap: a chain that is not configured is passed over.
unfoldable pub create_rpc_config_map :
    List RpcConfig → Map ℤ ChainConfig → Map ℤ (List Text) → Map ℤ (List Text)
create_rpc_config_map [] chain_config config = config
create_rpc_config_map (c ∷ cs) chain_config config =
    create_rpc_config_map cs chain_config (elim (lookup c.chain_id chain_config) [
      | none ↦ config
      | some _ ↦ insert c.chain_id c.rpc config
    ])

-- An address, if it is not the zero address.
abbrev pub is_zero : Address → Bool
is_zero a = a == zero_address

-- The loop of big.Int.SetString in base 10 over the digits.
digits_value : Text → ℕ → Option ℕ
digits_value [] n = some n
digits_value (c ∷ s) n =
    if leb b'0' c && leb c b'9' then digits_value s (n * 10 + (c - b'0')) else none

abbrev signed : Bool → Option ℕ → Option ℤ
signed neg none = none
signed false (some n) = some (pos n)
signed true (some zero) = some (pos 0)
signed true (some (suc n)) = some (negsuc n)

abbrev at_least_one : Text → Option ℕ
unfolding digits_value
at_least_one [] = none
at_least_one (c ∷ s) = digits_value (c ∷ s) 0

-- big.Int.SetString in base 10
unfoldable pub big_int : Text → Option ℤ
unfolding digits_value
big_int [] = none
big_int (c ∷ s) =
    if c == b'-'
    then signed true (at_least_one s)
    else if c == b'+'
    then signed false (at_least_one s)
    else signed false (at_least_one (c ∷ s))

module _ (sdk : Sdk) where
  open sdk use {eth}

  -- createWalletMap, in the order of the loop; `connect` is CreateRpcClient.
  unfoldable pub create_wallet_map :
      (List Text → Option sdk.Client)
      → Text
      → Map ℤ (List Text)
      → Map ℤ ChainConfig
      → Map ℤ Wallet
      → Result (Map ℤ Wallet)
  create_wallet_map connect key rpc_urls [] wallets = ok wallets
  create_wallet_map connect key rpc_urls ((chain_id, conf) ∷ more) wallets =
      let urls = get_or [] chain_id rpc_urls in
      refuse (length urls == 0) (no_rpc_url chain_id) (do
        client ← or_fail (connect urls) (no_client chain_id)
        wallet ← or_fail (sdk.new_wallet key chain_id client) (no_wallet chain_id)
        create_wallet_map connect key rpc_urls more (insert chain_id wallet wallets))

  -- NewSignaturePen
  unfoldable pub new_signature_pen :
      (List Text → Option sdk.Client)
      → Text
      → Map ℤ ChainConfig
      → List RpcConfig
      → Result SignaturePen
  new_signature_pen connect key chain_config rpc_config = do
    let rpc_map = create_rpc_config_map rpc_config chain_config []
    wallets ← create_wallet_map connect key rpc_map chain_config []
    ok (record { chain_config = chain_config; rpc_url = rpc_map; wallets = wallets })

  client_order : ApiOrderSig → ℤ → ℤ → ℤ → ClientOrder
  client_order o limit trigger amount = record {
    perpetual_id = o.perpetual_id;
    limit_price = limit;
    leverage_tdr = o.leverage_tdr;
    execution_timestamp = o.execution_timestamp;
    flags = o.flags;
    deadline = o.deadline;
    broker_addr = eth.to_address o.broker_addr;
    trigger_price = trigger;
    amount = amount;
    trader_addr = eth.to_address o.trader_addr;
    broker_fee_tbps = o.broker_fee_tbps;
    broker_signature = o.broker_signature;
  }

  -- createOrderDigest: the digest and the order id.
  unfoldable pub create_order_digest : ApiOrderSig → ℤ → Result (Text × Text)
  unfolding client_order
  create_order_digest o chain_id = do
    limit ← or_fail (big_int o.limit_price) bad_big_number
    trigger ← or_fail (big_int o.trigger_price) bad_big_number
    amount ← or_fail (big_int o.amount) bad_big_number
    c ← or_fail (sdk.default_config chain_id) no_sdk_config
    d ←
        or_fail
          (sdk.order_digest (client_order o limit trigger amount) chain_id (eth.hex c.proxy_addr))
          digest_failed
    bytes ← or_fail (decode d) bad_digest
    ok (d, encode (sdk.prefixed_hash bytes))

  unfoldable pub has_key : Wallet → Bool
  has_key w = elim w.private_key [ none ↦ false | some _ ↦ true ]

  -- SignOrder, for an order whose addresses were read from texts; the digest and the signature.
  unfoldable pub sign_order : SignaturePen → ApiOrderSig → Address → ℤ → Result (Text × Text)
  unfolding has_key
  sign_order p o proxy_addr chain_id = do
    wallet ← or_fail (lookup chain_id p.wallets) (no_broker_key chain_id)
    refuse (not (has_key wallet)) (no_broker_key chain_id) (
        or_fail
          (sdk.order_signature proxy_addr chain_id wallet o.perpetual_id o.broker_fee_tbps
            (eth.hex (eth.to_address o.trader_addr)) o.deadline)
          signing_failed)

  -- The address of `p.Wallets[chainId]`, which is there once SignOrder has succeeded.
  abbrev pub wallet_addr : SignaturePen → ℤ → Text
  wallet_addr p chain_id = elim (lookup chain_id p.wallets) [
    | none ↦ []
    | some w ↦ eth.hex w.address
  ]

  -- GetBrokerOrderSignatureResponse up to the call of PubOrder.
  unfoldable pub signed_order : SignaturePen → ApiOrderSig → ℤ → Result ApiBrokerSignatureRes
  unfolding sign_order create_order_digest
  signed_order p o chain_id = do
    conf ← or_fail (lookup chain_id p.chain_config) (no_chain_config chain_id)
    refuse (is_zero conf.proxy_addr) (no_proxy chain_id) (do
      (d, sig) ← sign_order p o conf.proxy_addr chain_id
      sig_bytes ← or_fail (sdk.bytes_from_hex sig) bad_signature
      let o' = record o { broker_signature = sig_bytes; broker_addr = wallet_addr p chain_id }
      (digest, order_id) ← create_order_digest o' chain_id
      ok (record {
        order = o';
        chain_id = chain_id;
        broker_signature = sig;
        order_digest = digest;
        order_id = order_id;
      }))

  -- GetBrokerOrderSignatureResponse: the signed order is stored in Redis, and the error of that
  -- dropped.
  unfoldable pub get_broker_order_signature_response :
      (r : Redis)
      → SignaturePen
      → ApiOrderSig
      → ℤ
      → r.Store
      → Result ApiBrokerSignatureRes × r.Store
  unfolding signed_order
  get_broker_order_signature_response r p o chain_id s = elim (signed_order p o chain_id) [
    | err e ↦ (err e, s)
    | ok res ↦ (ok res, (pub_order r res.order res.order_id chain_id s).1)
  ]

  no_config : ChainConfig
  no_config = record {
    chain_id = pos 0;
    name = [];
    allowed_executors = [];
    multi_pay_ctrct_addr = zero_address;
    proxy_addr = zero_address;
  }

  -- `p.ChainConfig[chainId]`, with the zero value for a missing chain
  unfoldable pub config_at : SignaturePen → ℤ → ChainConfig
  unfolding no_config
  config_at p chain_id = get_or no_config chain_id p.chain_config

  -- RecoverPaymentSignerAddr
  unfoldable pub recover_payment_signer_addr : SignaturePen → BrokerPaySignatureReq → Result Address
  recover_payment_signer_addr p ps =
      let ctrct = (config_at p ps.payment.chain_id).multi_pay_ctrct_addr in
      do
        sig ← or_fail (sdk.bytes_from_hex ps.executor_signature) bad_signature
        refuse (is_zero ctrct) (no_multi_pay ps.payment.chain_id) (
            refuse (not (equal_fold (eth.hex ctrct) (eth.hex ps.payment.multi_pay_ctrct)))
              (multi_pay_mismatch ps.payment.chain_id)
              (or_fail (sdk.payment_signer sig ps.payment) recover_failed))

  -- GetBrokerPaymentSignatureResponse: the signature.
  unfoldable pub get_broker_payment_signature_response :
      SignaturePen → BrokerPaySignatureReq → Result Text
  get_broker_payment_signature_response p ps =
      let ctrct = (config_at p ps.payment.chain_id).multi_pay_ctrct_addr in
      refuse (not (equal_fold (eth.hex ctrct) (eth.hex ps.payment.multi_pay_ctrct)))
        (multi_pay_mismatch ps.payment.chain_id)
        (or_fail (sdk.payment_signature ps.payment (lookup ps.payment.chain_id p.wallets))
          signing_failed)
