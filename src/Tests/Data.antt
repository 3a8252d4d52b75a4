-- ===== src/Tests/Data.antt =====
-- The data of the concrete runs: an SDK whose signatures are constant texts, one chain, one broker
-- wallet, one executor and one order.
use d8x_broker_server.Base.{ℕ, List, [], ◌∷◌, Option, some, Bool, true, ℤ, pos, Map}
use d8x_broker_server.Text.{Text, codes}
use d8x_broker_server.Eth.{Address}
use d8x_broker_server.Eth.Plain.{plain, print}
use d8x_broker_server.Sdk.{Sdk, Wallet, BrokerPaySignatureReq, Receipt}
use d8x_broker_server.Orders.{ChainConfig, ApiOrderSig, ApiBrokerOrderSignatureReq}
use d8x_broker_server.Pen.{SignaturePen, ApiBrokerSignatureRes}
use d8x_broker_server.Api.{App}
use d8x_broker_server.Fee.{FeeLevels}

-- The address that ends in 19 zero bytes.
abbrev pub address : ℕ → Address
address n = n ∷ 0 ∷ 0 ∷ 0 ∷ 0 ∷ 0 ∷ 0 ∷ 0 ∷ 0 ∷ 0 ∷ 0 ∷ 0 ∷ 0 ∷ 0 ∷ 0 ∷ 0 ∷ 0 ∷ 0 ∷ 0 ∷ 0 ∷ []

abbrev pub broker : Wallet
broker = record { address = address 1; private_key = some (codes "key") }

abbrev pub receipt : Receipt
receipt = record { success = Bool.false; tx_hash = codes "tx" }

abbrev pub toy : Sdk
toy = record {
  Client = Unit {0};
  eth = plain;
  new_wallet = λ key chain_id client. some (record { address = address 1; private_key = some key });
  bytes_from_hex = λ s. some s;
  order_signature =
      λ proxy chain_id w perpetual fee trader deadline. some (codes "digest", codes "signature");
  order_digest = λ o chain_id proxy. some (codes "abcd");
  prefixed_hash = λ s. 171 ∷ 205 ∷ [];
  default_config = λ chain_id. some (record { multi_pay_addr = address 3; proxy_addr = address 4 });
  payment_signer = λ sig p. some (address 2);
  payment_signature = λ p w. some (codes "paid");
  new_erc20 = λ a client. true;
  keyed_transactor = λ w chain_id. true;
  pending_nonce = λ client a. some 7;
  get_gas_price = λ client. some 100;
  approve = λ client tx. some (codes "tx");
  wait_mined = λ client tx. some receipt;
}

abbrev pub connect : List Text → Option (Unit {0})
connect urls = some tt

abbrev pub chain : ChainConfig
chain = record {
  chain_id = pos 1101;
  name = codes "zkevm";
  allowed_executors = address 2 ∷ [];
  multi_pay_ctrct_addr = address 3;
  proxy_addr = address 4;
}

abbrev pub config : Map ℤ ChainConfig
config = (pos 1101, chain) ∷ []

abbrev pub urls : Map ℤ (List Text)
urls = (pos 1101, codes "https://rpc" ∷ []) ∷ []

abbrev pub pen : SignaturePen
pen = record { chain_config = config; rpc_url = urls; wallets = (pos 1101, broker) ∷ [] }

abbrev pub levels : FeeLevels
levels = (pos 1101, 100 ∷ 40 ∷ []) ∷ []

abbrev pub app : App
app = record {
  pen = pen;
  broker_fee_tbps = 400;
  broker_fee_lvls_tbps = some levels;
  token_approval_ts = [];
}

abbrev pub order : ApiOrderSig
order = record {
  perpetual_id = pos 100000;
  broker_fee_tbps = 0;
  broker_addr = [];
  trader_addr = print (address 5);
  deadline = 1700000000;
  flags = 3221225472;
  amount = codes "1000";
  limit_price = codes "2000";
  trigger_price = codes "0";
  leverage_tdr = 100;
  broker_signature = [];
  execution_timestamp = 1690000000;
}

abbrev pub sign_req : ApiBrokerOrderSignatureReq
sign_req = record { order = order; chain_id = pos 1101; signature = [] }

abbrev pub pay_req : BrokerPaySignatureReq
pay_req = record {
  payment = record {
    executor = address 2;
    token = address 6;
    chain_id = pos 1101;
    multi_pay_ctrct = address 3;
    details = [];
  };
  executor_signature = codes "sig";
}

-- The response to the signature request of a trader of the given level.
abbrev pub answer : Text → ℕ → ApiBrokerSignatureRes
answer fee_sig fee = record {
  order = record order {
    broker_fee_tbps = fee;
    broker_addr = print (address 1);
    broker_signature = fee_sig;
  };
  chain_id = pos 1101;
  broker_signature = codes "signature";
  order_digest = codes "abcd";
  order_id = codes "abcd";
}
