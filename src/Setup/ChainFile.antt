-- ===== src/Setup/ChainFile.antt =====
-- LoadChainConfig of utils/config.go, from the entries of the file as the JSON decoder leaves them.
-- The SDK's configuration of a chain is a parameter. An entry of the file has the chain's id, name
-- and allowed executors.
pub mod Kept
use d8x_broker_server.Base.{
  ℕ, List, [], ◌∷◌, Option, none, some, ◌==◌, if◌then◌else◌, nat_eq, length, Map, insert, ℤ, int_eq,
}
use d8x_broker_server.Text.{Text, text_eq}
use d8x_broker_server.Eth.{Address}
use d8x_broker_server.Sdk.{Sdk, SdkConfig}
use d8x_broker_server.Orders.{ChainConfig}
use d8x_broker_server.Pen.{is_zero}

pub record ChainConfigFile : Type 0 where
  pub chain_id : ℤ
  pub name : Text
  pub allowed_executors : List Address

pub data LoadError : Type 0 where
  no_sdk_config no_multi_pay no_proxy : ℤ → LoadError

-- `exits` is the end of the program by log.Fatal.
pub data Loaded : Type 0 where
  loaded : Map ℤ ChainConfig → Loaded
  rejected : LoadError → Loaded
  exits : Loaded

abbrev pub complete : ChainConfigFile → SdkConfig → ChainConfig
complete e c = record {
  chain_id = e.chain_id;
  name = e.name;
  allowed_executors = e.allowed_executors;
  multi_pay_ctrct_addr = c.multi_pay_addr;
  proxy_addr = c.proxy_addr;
}

-- The tests of an entry on the SDK's configuration of its chain.
unfoldable pub check_config : ChainConfigFile → SdkConfig → Option LoadError
check_config e c =
    if is_zero c.multi_pay_addr
    then some (no_multi_pay e.chain_id)
    else if is_zero c.proxy_addr
    then some (no_proxy e.chain_id)
    else none

module _ (sdk : Sdk) where
  -- The loop over the entries: one without executors is passed over.
  unfoldable pub add_configs : List ChainConfigFile → Map ℤ ChainConfig → Loaded
  unfolding check_config
  add_configs [] config = loaded config
  add_configs (e ∷ more) config = elim e.allowed_executors [
    | [] ↦ add_configs more config
    | _ ∷ _ ↦ elim (sdk.default_config e.chain_id) [
      | none ↦ rejected (no_sdk_config e.chain_id)
      | some c ↦ elim (check_config e c) [
        | some f ↦ rejected f
        | none ↦ add_configs more (insert e.chain_id (complete e c) config)
      ]
    ]
  ]

  -- LoadChainConfig; `none` is a file that cannot be read or decoded.
  unfoldable pub load_chain_config : Option (List ChainConfigFile) → Loaded
  unfolding add_configs
  load_chain_config none = exits
  load_chain_config (some entries) = add_configs entries []
