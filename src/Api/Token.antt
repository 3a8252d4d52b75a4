-- ===== src/Api/Token.antt =====
-- ApproveToken of api/api.go. Times are Unix seconds; that a difference stops at 0 here changes no
-- test, since a negative one is below the expiry too.
pub mod Cache
pub mod Keys
pub mod Together
use d8x_broker_server.Base.{
  ℕ, not, ◌-◌, ◌*◌, ◌/◌, ◌^◌, ◌++◌, [], ◌∷◌, List, Option, none, some, ltb, if◌then◌else◌, Bool,
  true, false, ◌==◌, nat_eq, length, Map, lookup, insert, get_or, ℤ, int_eq,
}
use d8x_broker_server.Text.{Text, text_eq}
use d8x_broker_server.Decimal.{itoa}
use d8x_broker_server.Eth.{Address, Eth}
use d8x_broker_server.Sdk.{Sdk, Wallet, Approve, Receipt}
use d8x_broker_server.Pen.{SignaturePen, config_at}

abbrev pub approval_expiry_sec : ℕ
approval_expiry_sec = 86400 * 7

pub data ApproveError : Type 0 where
  no_rpc no_client no_token no_transactor no_nonce no_gas_price not_sent not_mined : ApproveError

-- `panics` is the use of a wallet that is not there.
pub data Approval : Type 0 where
  approved : Approval
  failed : ApproveError → Approval
  panics : Approval

-- getMaxUint256
abbrev pub get_max_uint256 : ℕ
get_max_uint256 = 2 ^ 256 - 1

-- The result, and the calls of Approve that were made on the token's contract.
abbrev pub Attempt : Type 0
Attempt = Approval × List Approve

-- Each step of the transaction, or the reason to stop.
infixl 5 ◌>>=◌
abbrev pub ◌>>=◌ {ℓ} : {A : Type ℓ} → Option A × Approval → (A → Attempt) → Attempt
(none, stop) >>= f = (stop, [])
(some a, stop) >>= f = f a

-- One call of Approve, and what follows.
abbrev pub sends : Approve → Attempt → Attempt
sends tx (result, more) = (result, tx ∷ more)

abbrev pub or_stop {ℓ} : {A : Type ℓ} → Option A → ApproveError → Option A × Approval
or_stop o e = (o, failed e)

abbrev pub refuse : Bool → ApproveError → Attempt → Attempt
refuse true e a = (failed e, [])
refuse false e a = a

module _ (sdk : Sdk) where
  open sdk use {eth}

  unfoldable pub approval_key : ℤ → Address → Text
  approval_key chain_id token_addr = itoa chain_id ++ (b'.' ∷ eth.hex token_addr)

  -- The transaction that ApproveToken sends: the whole range for the payment contract, at one and a
  -- half times the gas price.
  unfoldable pub approve_tx : SignaturePen → ℤ → Address → ℕ → ℕ → Approve
  approve_tx p chain_id token_addr nonce g = record {
    token = token_addr;
    spender = (config_at sdk p chain_id).multi_pay_ctrct_addr;
    value = get_max_uint256;
    nonce = nonce;
    gas_limit = 0;
    gas_price = g * 15 / 10;
  }

  -- From the node's connection to the mined transaction. The status of the receipt is not read.
  unfoldable pub send_approval : SignaturePen → ℤ → Address → sdk.Client → Attempt
  unfolding approve_tx
  send_approval p chain_id token_addr client =
      refuse (not (sdk.new_erc20 token_addr client)) no_token (do
        wallet ← (lookup chain_id p.wallets, panics)
        refuse (not (sdk.keyed_transactor wallet chain_id)) no_transactor (do
          nonce ← or_stop (sdk.pending_nonce client wallet.address) no_nonce
          g ← or_stop (sdk.get_gas_price client) no_gas_price
          let asked = approve_tx p chain_id token_addr nonce g
          sends asked (do
            tx ← or_stop (sdk.approve client asked) not_sent
            receipt ← or_stop (sdk.wait_mined client tx) not_mined
            (approved, []))))

  unfoldable pub approve_on_chain :
      (List Text → Option sdk.Client) → SignaturePen → ℤ → Address → Attempt
  unfolding send_approval
  approve_on_chain connect p chain_id token_addr =
      let urls = get_or [] chain_id p.rpc_url in
      refuse (length urls == 0) no_rpc
        (do client ← or_stop (connect urls) no_client; send_approval p chain_id token_addr client)

  -- What the times become after an attempt at `later`.
  abbrev pub stamped : Approval → Text → ℕ → Map Text ℕ → Map Text ℕ
  stamped approved key later ts = insert key later ts
  stamped (failed e) key later ts = ts
  stamped panics key later ts = ts

  -- ApproveToken: `now` and `later` are the times at the test and behind the transaction. The result,
  -- the times, and the calls of Approve.
  unfoldable pub approve_token :
      (List Text → Option sdk.Client)
      → SignaturePen
      → ℕ
      → ℕ
      → ℤ
      → Address
      → Map Text ℕ
      → Approval × Map Text ℕ × List Approve
  approve_token connect p now later chain_id token_addr ts =
      let key = approval_key chain_id token_addr in
      if ltb (now - get_or 0 key ts) approval_expiry_sec
      then (approved, ts, [])
      else (let (result, sent) = approve_on_chain connect p chain_id token_addr in
          (result, stamped result key later ts, sent))
