-- ===== src/Tests/Service.antt =====
-- Runs of the two services, with settings in a map.
use d8x_broker_server.Base.{
  ℕ, zero, suc, length, ◌≡◌, refl, sym, ◌∙◌, ap, [], ◌∷◌, Option, none, some, Bool, true, false,
  Map, lookup, insert, lookup-insert, lookup-insert_self, pos, int_eq, arith, residue,
}
use d8x_broker_server.Text.{Text, text_eq, text_beq, codes, to_lower, has_prefix, trim_prefix}
use d8x_broker_server.Decimal.{atoi, itoa}
use d8x_broker_server.Hex.{encode, decode}
use d8x_broker_server.Pen.{
  SignaturePen, new_signature_pen, create_rpc_config_map, create_wallet_map, create_order_digest,
  has_key, big_int, signed_order, sign_order,
}
use d8x_broker_server.Pen.Signing.{Signed, signed_order-Signed}
use d8x_broker_server.Api.{App}
use d8x_broker_server.Api.Start.{app_of, new_app}
use d8x_broker_server.Ws.Topic.{is_valid_order_topic}
use d8x_broker_server.Setup.KeyFile.{load_from_file}
use d8x_broker_server.Setup.ChainFile.{load_chain_config, check_config}
use d8x_broker_server.Setup.RpcFile.{load_rpc_config}
use d8x_broker_server.Service.Env.{Viper, load_env, set_defaults, first_missing}
use d8x_broker_server.Service.Run.{
  Machine, serves, ws_serves, load_abc, run_broker, run_executor_ws, with_config, with_rpcs,
  start_app, started, ws_with_config, start_ws_server,
}
use d8x_broker_server.Service.Started.{IsStarted, run_broker-IsStarted}
use d8x_broker_server.Setup.KeyGen.{main}
use d8x_broker_server.Service.Restart.{Fills, TakesLong, later, run_broker-restart}
use d8x_broker_server.Service.Agree.{signed_topic-valid}
use d8x_broker_server.Tests.Data.{toy, connect, chain, config, urls, address, order, answer}
use d8x_broker_server.Tests.Start.{open_cipher, entry, rpc}

record Settings : Type 0 where
  env : Map Text Text
  defaults : Map Text Text

abbrev or_default : Option Text → Option Text → Option Text
or_default none d = d
or_default (some x) d = some x

abbrev value : Text → Settings → Option Text
value k s = or_default (lookup (to_lower k) s.env) (lookup (to_lower k) s.defaults)

abbrev or_empty : Option Text → Text
or_empty none = []
or_empty (some x) = x

abbrev with_default : Text → Text → Settings → Settings
with_default k x s = record s { defaults = insert (to_lower k) x s.defaults }

other_value :
    (j k x : Text) (s : Settings)
    → text_beq (to_lower j) (to_lower k) ≡ false
    → value k (with_default j x s) ≡ value k s
other_value j k x s differ =
    ap (or_default (lookup (to_lower k) s.env))
      (lookup-insert (to_lower j) (to_lower k) x s.defaults ∙ rw differ refl)

abbrev is_some : Option Text → Bool
is_some none = false
is_some (some x) = true

abbrev settings_map : Viper
settings_map = record {
  State = Settings;
  given = λ k s. lookup (to_lower k) s.env;
  is_set = λ k s. is_some (value k s);
  get_string = λ k s. or_empty (value k s);
  get_int32 = λ k s. (atoi (or_empty (value k s))).0;
  set_default = with_default;
  given_keeps = λ j k x s. refl;
  string_given = λ k x s h. rw h refl;
  string_default = λ k x s h. rw (h, lookup-insert_self (to_lower k) x s.defaults) refl;
  other_set = λ j k x s d. ap is_some (other_value j k x s d);
  other_string = λ j k x s d. ap or_empty (other_value j k x s d);
  other_int32 = λ j k x s d. ap (λ o. (atoi (or_empty o)).0) (other_value j k x s d);
}

abbrev settings : Settings
settings = record {
  env =
      (codes "broker_fee_tbps", codes "60")
      ∷ (codes "config_path", codes "chains")
      ∷ (codes "redis_addr", codes "redis:6379")
      ∷ (codes "redis_pw", codes "pw")
      ∷ (codes "keyfile_path", codes "/keys/")
      ∷ (codes "config_rpc_path", codes "rpcs")
      ∷ [];
  defaults = [];
}

abbrev machine : Machine
machine = record {
  chain_file = λ path. some (entry ∷ []);
  rpc_file = λ path. some (rpc ∷ []);
  key_file = λ path. some (codes "0xab");
  writable = true;
  drawn = some (9 ∷ []);
  redis_up = λ addr pw. true;
  embedded = some (codes "k");
}

abbrev pen : SignaturePen
pen = record {
  chain_config = config;
  rpc_url = urls;
  wallets = (pos 1101, record { address = address 1; private_key = some (codes "ab") }) ∷ [];
}

abbrev app : App
app = app_of pen [] 60

broker_serves :
    (run_broker settings_map toy connect open_cipher machine settings).0
    ≡ serves app (codes "8001") []
unfolding run_broker load_env set_defaults first_missing with_config with_rpcs start_app started
    load_abc load_chain_config load_rpc_config check_config load_from_file new_app new_signature_pen
    create_rpc_config_map create_wallet_map lookup insert text_beq to_lower atoi residue has_prefix
    trim_prefix
broker_serves = refl

executor_serves :
    run_executor_ws settings_map toy connect open_cipher machine settings
    ≡ ws_serves config (codes "executorws:8080")
unfolding run_executor_ws load_env set_defaults first_missing ws_with_config start_ws_server
    load_chain_config check_config lookup insert text_beq to_lower
executor_serves = refl

order-Signed : Signed toy pen order (pos 1101) (answer (codes "signature") 0)
unfolding signed_order create_order_digest big_int has_key text_beq encode decode lookup insert
    sign_order
order-Signed = signed_order-Signed toy pen order (pos 1101) (answer (codes "signature") 0) refl

chain_at : lookup (pos 1101) app.pen.chain_config ≡ some chain
unfolding lookup
chain_at = refl

run_broker-IsStarted_example :
    IsStarted settings_map toy connect open_cipher machine settings app
      (codes "8001")
      (pos 1101)
      chain
run_broker-IsStarted_example =
    run_broker-IsStarted settings_map toy connect open_cipher machine settings app (codes "8001") []
      (pos 1101) chain (λ key c d m n v w e f. ground arith) broker_serves chain_at

signed_topic-valid_example : is_valid_order_topic config (codes "100000:1101") ≡ true
unfolding itoa
signed_topic-valid_example =
    signed_topic-valid settings_map toy connect open_cipher machine settings app (codes "8001") []
      config (codes "executorws:8080") order 1101 100000 (answer (codes "signature") 0)
      broker_serves executor_serves order-Signed refl (omega arith) (omega arith) (omega arith)

-- A random source of zeros.
abbrev zeros : ℕ → Text
zeros zero = []
zeros (suc n) = 0 ∷ zeros n

length-zeros : (n : ℕ) → length (zeros n) ≡ n
length-zeros zero = refl
length-zeros (suc n) = ap suc (length-zeros n)

zeros-Fills : Fills (λ n. some (zeros n))
zeros-Fills n key e = let same : zeros n ≡ key = cc e in ap length (sym same) ∙ length-zeros n

open_cipher-TakesLong : TakesLong open_cipher
open_cipher-TakesLong [] e = ground arith
open_cipher-TakesLong (b ∷ key) e = refl

abbrev built_machine : Machine
built_machine = record machine {
  embedded = main (λ n. some (zeros n)) true (codes "keygen" ∷ codes "src/svc/ranky.txt" ∷ []) none;
}

run_broker-restart_example :
    run_broker settings_map toy connect open_cipher
      (later settings_map toy connect open_cipher built_machine false none
        (run_broker settings_map toy connect open_cipher built_machine settings).1)
      settings
    ≡ run_broker settings_map toy connect open_cipher built_machine settings
run_broker-restart_example =
    run_broker-restart settings_map toy connect open_cipher built_machine false none settings
      (λ n. some (zeros n)) (codes "keygen") (codes "src/svc/ranky.txt") (zeros 32) (codes "ab")
      (9 ∷ []) zeros-Fills open_cipher-TakesLong refl refl refl (omega arith, (omega arith, tt))
      refl refl (omega arith, tt) refl
