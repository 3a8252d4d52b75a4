-- ===== src/Api/Start/Broker.antt =====
-- BrokerAddress of api/handlers.go on the wallets that NewApp makes.
use d8x_broker_server.Base.{
  ◌≡◌, sym, ap, ◌∙◌, inr, Bool, true, false, List, [], ◌∷◌, Option, some, arith, ℕ, ℤ, Map, lookup,
  All, All-lookup, int_eq,
}
use d8x_broker_server.Text.{Text}
use d8x_broker_server.Sdk.{Sdk, Wallet}
use d8x_broker_server.Orders.{ChainConfig}
use d8x_broker_server.Pen.{
  SignaturePen, RpcConfig, Result, ok, err, new_signature_pen, create_wallet_map,
  create_rpc_config_map,
}
use d8x_broker_server.Pen.Signing.{>>=-eq-ok, ok-injective}
use d8x_broker_server.Pen.Wallets.{FromKey, Held, create_wallet_map-Held}
use d8x_broker_server.Fee.{vip3_to_fee_map}
use d8x_broker_server.Api.{App}
use d8x_broker_server.Api.Handlers.{first_address, broker_address}
use d8x_broker_server.Api.Start.{new_app, with_pen}

with_pen-ok :
    (up : Bool) (fee_red : Text) (fee : ℕ) (res : Result SignaturePen) (a : App)
    → with_pen up fee_red fee res ≡ inr a
    → res ≡ ok a.pen
with_pen-ok up fee_red fee (err e) a h = ground arith
with_pen-ok true fee_red fee (ok pen) a h = ground arith
with_pen-ok false fee_red fee (ok pen) a h = ground arith

module _ (sdk : Sdk) (connect : List Text → Option sdk.Client) (key : Text) where
  open sdk use {eth}

  -- The address of a wallet is computed from the private key alone.
  abbrev pub KeyGivesAddress : Type 0
  KeyGivesAddress =
      (c d : ℤ) (m n : sdk.Client) (v w : Wallet)
      → sdk.new_wallet key c m ≡ some v
      → sdk.new_wallet key d n ≡ some w
      → v.address ≡ w.address

  first_address-same :
      (ws : Map ℤ Wallet) (chain_id : ℤ) (w : Wallet)
      → KeyGivesAddress
      → All (FromKey sdk connect key) ws
      → lookup chain_id ws ≡ some w
      → first_address sdk ws ≡ eth.hex w.address
  unfolding lookup
  first_address-same [] chain_id w same made held = cc held
  first_address-same ((k, v) ∷ ws) chain_id w same made held =
      let (n, from) = All-lookup (FromKey sdk connect key) chain_id w ((k, v) ∷ ws) held made in
      ap eth.hex (same k chain_id made.0.0 n v w made.0.1 from)

  configured-Held :
      (confs : Map ℤ ChainConfig) (ws : Map ℤ Wallet) (chain_id : ℤ) (conf : ChainConfig)
      → All (λ p. Held sdk connect key ws p.0) confs
      → lookup chain_id confs ≡ some conf
      → Held sdk connect key ws chain_id
  configured-Held confs ws chain_id conf all known =
      All-lookup (λ p. Held sdk connect key ws p.0) chain_id conf confs known all

  built :
      (confs : Map ℤ ChainConfig) (rpcs : List RpcConfig) (p : SignaturePen)
      → new_signature_pen sdk connect key confs rpcs ≡ ok p
      → create_wallet_map sdk connect key (create_rpc_config_map rpcs confs []) confs []
        ≡ ok p.wallets
  unfolding new_signature_pen
  built confs rpcs p h =
      let (ws, made, rest) = >>=-eq-ok (create_wallet_map sdk connect key _ confs []) _ h in
      made ∙ ap (λ q. ok q.wallets) (ok-injective rest)

  new_app-pen :
      (up : Bool) (fee_red : Text) (confs : Map ℤ ChainConfig) (rpcs : List RpcConfig) (fee : ℕ)
      (a : App)
      → new_app sdk connect up key fee_red confs rpcs fee ≡ inr a
      → new_signature_pen sdk connect key confs rpcs ≡ ok a.pen
  unfolding new_app
  new_app-pen up fee_red confs rpcs fee a h =
      with_pen-ok up fee_red fee (new_signature_pen sdk connect key confs rpcs) a h

  -- The parts of the service that NewApp takes over.
  pub record Built (confs : Map ℤ ChainConfig) (fee_red : Text) (fee : ℕ) (a : App) : Type 0 where
    pub chains : a.pen.chain_config ≡ confs
    pub base : a.broker_fee_tbps ≡ fee
    pub levels : a.broker_fee_lvls_tbps ≡ vip3_to_fee_map fee_red fee

  with_pen-Built :
      (up : Bool) (fee_red : Text) (fee : ℕ) (res : Result SignaturePen) (a : App)
      → with_pen up fee_red fee res ≡ inr a
      → (a.broker_fee_tbps ≡ fee) × (a.broker_fee_lvls_tbps ≡ vip3_to_fee_map fee_red fee)
  with_pen-Built up fee_red fee (err e) a h = ground arith
  with_pen-Built true fee_red fee (ok pen) a h = ground arith
  with_pen-Built false fee_red fee (ok pen) a h = ground arith

  new_signature_pen-chains :
      (confs : Map ℤ ChainConfig) (rpcs : List RpcConfig) (p : SignaturePen)
      → new_signature_pen sdk connect key confs rpcs ≡ ok p
      → p.chain_config ≡ confs
  unfolding new_signature_pen
  new_signature_pen-chains confs rpcs p h =
      let (ws, made, rest) = >>=-eq-ok (create_wallet_map sdk connect key _ confs []) _ h in
      sym (ap (λ q. q.chain_config) (ok-injective rest))

  pub new_app-Built :
      (up : Bool) (fee_red : Text) (confs : Map ℤ ChainConfig) (rpcs : List RpcConfig) (fee : ℕ)
      (a : App)
      → new_app sdk connect up key fee_red confs rpcs fee ≡ inr a
      → Built confs fee_red fee a
  unfolding new_app
  new_app-Built up fee_red confs rpcs fee a h =
      let taken =
        with_pen-Built up fee_red fee (new_signature_pen sdk connect key confs rpcs) a h in
      record {
        chains =
            new_signature_pen-chains confs rpcs a.pen (new_app-pen up fee_red confs rpcs fee a h);
        base = taken.0;
        levels = taken.1;
      }

  -- If the address of a wallet depends on the private key alone and NewApp succeeds, then every
  -- configured chain has a wallet, whose address is the one that BrokerAddress gives, whichever
  -- wallet it meets first.
  pub new_app-broker_address :
      (up : Bool) (fee_red : Text) (confs : Map ℤ ChainConfig) (rpcs : List RpcConfig) (fee : ℕ)
      (a : App) (chain_id : ℤ) (conf : ChainConfig)
      → KeyGivesAddress
      → new_app sdk connect up key fee_red confs rpcs fee ≡ inr a
      → lookup chain_id confs ≡ some conf
      → (w : Wallet) × (lookup chain_id a.pen.wallets ≡ some w)
        × (broker_address sdk a ≡ eth.hex w.address)
  unfolding broker_address
  new_app-broker_address up fee_red confs rpcs fee a chain_id conf same h known =
      let (held, made) =
        create_wallet_map-Held sdk connect key (create_rpc_config_map rpcs confs []) confs []
          a.pen.wallets (built confs rpcs a.pen (new_app-pen up fee_red confs rpcs fee a h)) tt in
      let (w, e) = configured-Held confs a.pen.wallets chain_id conf held known in
      (w, e, first_address-same a.pen.wallets chain_id w same made e)
