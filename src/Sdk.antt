-- ===== src/Sdk.antt =====
-- What the program takes from the D8X futures SDK and from go-ethereum beside addresses: key
-- handling, signatures and digests, the SDK's chain configuration, and connections to chain nodes.
-- None of it is code of the repository: it is a parameter, with no law but what `Eth` states.
use d8x_broker_server.Base.{ℕ, Bool, ℤ, Option}
use d8x_broker_server.Text.{Text}
use d8x_broker_server.Eth.{Address, Eth}

-- d8x_futures.Wallet, of which the program reads the address and whether there is a key.
pub record Wallet : Type 0 where
  pub address : Address
  pub private_key : Option Text

-- The payment of a signature request. `details` stands for the fields that the program only hands on.
pub record Payment : Type 0 where
  pub executor : Address
  pub token : Address
  pub chain_id : ℤ
  pub multi_pay_ctrct : Address
  pub details : Text

pub record BrokerPaySignatureReq : Type 0 where
  pub payment : Payment
  pub executor_signature : Text

-- The order of contracts.IClientOrderClientOrder.
pub record ClientOrder : Type 0 where
  pub perpetual_id : ℤ
  pub limit_price : ℤ
  pub leverage_tdr : ℕ
  pub execution_timestamp : ℕ
  pub flags : ℕ
  pub deadline : ℕ
  pub broker_addr : Address
  pub trigger_price : ℤ
  pub amount : ℤ
  pub trader_addr : Address
  pub broker_fee_tbps : ℕ
  pub broker_signature : Text

pub record SdkConfig : Type 0 where
  pub multi_pay_addr : Address
  pub proxy_addr : Address

-- What an approval transaction asks for.
pub record Approve : Type 0 where
  pub token : Address
  pub spender : Address
  pub value : ℕ
  pub nonce : ℕ
  pub gas_limit : ℕ
  pub gas_price : ℕ

-- A mined transaction; one that was reverted has no success.
pub record Receipt : Type 0 where
  pub success : Bool
  pub tx_hash : Text

-- A `none` is an error of the call.
pub record Sdk : Type 1 where
  pub Client : Type 0
  pub eth : Eth
  -- NewWallet: private key, chain and node.
  pub new_wallet : Text → ℤ → Client → Option Wallet
  -- BytesFromHexString
  pub bytes_from_hex : Text → Option Text
  -- RawCreateOrderBrokerSignature: proxy, chain, wallet, perpetual, fee, trader and deadline;
  -- the digest and the signature.
  pub order_signature : Address → ℤ → Wallet → ℤ → ℕ → Text → ℕ → Option (Text × Text)
  -- CreateOrderDigest
  pub order_digest : ClientOrder → ℤ → Text → Option Text
  -- solsha3.SoliditySHA3WithPrefix
  pub prefixed_hash : Text → Text
  -- config.GetDefaultChainConfigFromId
  pub default_config : ℤ → Option SdkConfig
  -- RecoverPaymentSignatureAddr
  pub payment_signer : Text → Payment → Option Address
  -- RawCreatePaymentBrokerSignature: the signature.
  pub payment_signature : Payment → Option Wallet → Option Text
  -- contracts.NewErc20
  pub new_erc20 : Address → Client → Bool
  -- bind.NewKeyedTransactorWithChainID
  pub keyed_transactor : Wallet → ℤ → Bool
  -- PendingNonceAt
  pub pending_nonce : Client → Address → Option ℕ
  -- d8x_futures.GetGasPrice
  pub get_gas_price : Client → Option ℕ
  -- Approve on the token, then bind.WaitMined
  pub approve : Client → Approve → Option Text
  pub wait_mined : Client → Text → Option Receipt
