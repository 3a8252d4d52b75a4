-- ===== src/Tests/Start.antt =====
-- Runs of what happens before the services run, and of a session.
use d8x_broker_server.Base.{
  ℕ, zero, suc, ◌≡◌, refl, [], ◌∷◌, Option, none, some, Bool, true, false, pos, arith, int_eq,
}
use d8x_broker_server.Text.{Text, text_eq, codes}
use d8x_broker_server.Pen.{RpcConfig}
use d8x_broker_server.Setup.KeyFile.{Gcm, load_from_file}
use d8x_broker_server.Setup.KeyFile.Reload.{load_from_file-lost}
use d8x_broker_server.Setup.ChainFile.{ChainConfigFile}
use d8x_broker_server.Setup.Dial.{create_rpc_client}
use d8x_broker_server.Setup.Dial.Trials.{FirstOf, create_rpc_client-FirstOf}
use d8x_broker_server.Ws.Subs.{Subscriptions, ClientMessage}
use d8x_broker_server.Tests.Data.{address}

-- A cipher that hides nothing, with nonces of one byte, and keys of at least one byte.
abbrev pub some_byte : Text → Bool
some_byte [] = false
some_byte (b ∷ s) = true

abbrev pub open_cipher : Gcm
open_cipher = record {
  accepts = some_byte;
  nonce_size = 1;
  seal = λ key nonce plain. plain;
  open_sealed = λ key nonce text. some text;
  open-seal = λ key nonce plain. refl;
  seal-IsByte = λ key nonce plain bytes. bytes;
}

load_from_file-lost_example :
    (load_from_file open_cipher true (some (9 ∷ [])) [] (some (codes "0xab"))
      ≡ (codes "ab", some []))
    × (load_from_file open_cipher true (some (9 ∷ [])) [] (some []) ≡ ([], some []))
load_from_file-lost_example = load_from_file-lost open_cipher (some (9 ∷ [])) [] (codes "ab") refl

abbrev pub entry : ChainConfigFile
entry = record { chain_id = pos 1101; name = codes "zkevm"; allowed_executors = address 2 ∷ [] }

abbrev no_executors : ChainConfigFile
no_executors = record { chain_id = pos 5; name = []; allowed_executors = [] }

-- The node answers from the third dial on.
abbrev third : ℕ → Option (Unit {0})
third zero = none
third (suc zero) = none
third (suc (suc n)) = some tt

create_rpc_client-FirstOf_example :
    (found : Option (Unit {0})) × (create_rpc_client third 6 ≡ some found) × FirstOf third 0 found
create_rpc_client-FirstOf_example = create_rpc_client-FirstOf third 6 (omega arith)

abbrev pub rpc : RpcConfig
rpc = record { chain_id = pos 1101; rpc = codes "https://rpc" ∷ [] }

abbrev subs : Subscriptions
subs = (codes "100000:1101", (codes "ann", 1) ∷ (codes "bob", 2) ∷ []) ∷ []

abbrev hello : ClientMessage
hello = record { type = codes "subscribe"; topic = codes "100001:1101" }
