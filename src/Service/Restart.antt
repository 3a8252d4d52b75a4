-- ===== src/Service/Restart.antt =====
-- RunBroker a second time, on the key file that the first run left.
use d8x_broker_server.Base.{
  ℕ, ◌≡◌, refl, sym, ◌∙◌, ap, Bool, true, List, [], ◌∷◌, Option, none, some, Map, ℤ, length, uint16,
  All, ◌++◌,
}
use d8x_broker_server.Text.{Text, codes}
use d8x_broker_server.Hex.Laws.{IsByte}
use d8x_broker_server.Sdk.{Sdk}
use d8x_broker_server.Orders.{ChainConfig}
use d8x_broker_server.Pen.{RpcConfig}
use d8x_broker_server.Api.Start.{new_app}
use d8x_broker_server.Setup.KeyGen.{key_size, main, gen}
use d8x_broker_server.Setup.KeyFile.{Gcm, load_from_file}
use d8x_broker_server.Setup.KeyFile.Reload.{load_from_file-reload}
use d8x_broker_server.Setup.ChainFile.{Loaded, loaded, rejected, exits, load_chain_config}
use d8x_broker_server.Setup.RpcFile.{RpcLoaded, rpc_loaded, rpc_exits}
use d8x_broker_server.Service.Env.{
  Viper, load_env, set_defaults, first_missing, broker_fee_tbps, redis_addr, redis_pw, config_path,
  vip3_reduction_perc,
}
use d8x_broker_server.Service.Run.{
  Machine, BrokerRun, env_missing, required, load_abc, key_path, started, start_app, with_rpcs,
  with_config, run_broker,
}

-- io.ReadFull fills the buffer.
abbrev pub Fills : (ℕ → Option Text) → Type 0
Fills random = (n : ℕ) (key : Text) → random n ≡ some key → length key ≡ n

-- AES takes a key of 32 bytes.
abbrev pub TakesLong : Gcm → Type 0
TakesLong g = (key : Text) → length key ≡ key_size → g.accepts key ≡ true

-- The machine at a later start: another nonce may be drawn, and the key file may be read-only.
abbrev pub again : Machine → Option Text → Bool → Option Text → Machine
again m file writable drawn = record m {
  key_file = λ path. file;
  writable = writable;
  drawn = drawn;
}

main-key :
    (random : ℕ → Option Text) (program path key : Text) (file : Option Text)
    → random key_size ≡ some key
    → main random true (program ∷ path ∷ []) file ≡ some key
unfolding main gen
main-key random program path key file drew =
    ap (λ (o : Option Text). elim o [ none ↦ file | some k ↦ some k ]) drew

module _ (v : Viper) (sdk : Sdk) (connect : List Text → Option sdk.Client) (g : Gcm)
    (m : Machine) where
  open v use {State, get_string, get_int32}

  abbrev loads : Machine → State → Text × Option Text
  loads n t = load_from_file g n.writable n.drawn (load_abc n.embedded) (n.key_file (key_path v t))

  -- The run as a function of what LoadFromFile gives.
  abbrev with_key :
      State → Map ℤ ChainConfig → List RpcConfig → Text × Option Text → BrokerRun × Option Text
  with_key t config rpcs (pk, file) = (
    started v t (
        new_app sdk connect (m.redis_up (get_string redis_addr t) (get_string redis_pw t)) pk
          (get_string vip3_reduction_perc t) config rpcs (uint16 (get_int32 broker_fee_tbps t))),
    file,
  )

  module _ (writable : Bool) (drawn : Option Text) where
    abbrev pub later : Option Text → Machine
    later file = again m file writable drawn

    -- A second run from what the first one left ends in the same way.
    abbrev Same : (Machine → BrokerRun × Option Text) → Type 0
    Same run = run (later (run m).1) ≡ run m

    module _ (t : State) (reload : loads (later (loads m t).1) t ≡ loads m t) where
      with_rpcs-Same :
          (config : Map ℤ ChainConfig) (l : RpcLoaded)
          → Same (λ n. with_rpcs v sdk connect g n t config l)
      unfolding with_rpcs start_app
      with_rpcs-Same config rpc_exits = refl
      with_rpcs-Same config (rpc_loaded rpcs) = ap (with_key t config rpcs) reload

      with_config-Same : (l : Loaded) → Same (λ n. with_config v sdk connect g n t l)
      unfolding with_config
      with_config-Same exits = refl
      with_config-Same (rejected e) = refl
      with_config-Same (loaded config) = with_rpcs-Same config _

      -- RunBroker behind loadEnv.
      abbrev body : Option Text → Machine → BrokerRun × Option Text
      body missing n = elim missing [
        | some e ↦ (env_missing e, n.key_file (key_path v t))
        | none ↦
            with_config v sdk connect g n t
              (load_chain_config sdk (n.chain_file (get_string config_path t)))
      ]

      body-Same : (missing : Option Text) → Same (body missing)
      body-Same none = with_config-Same _
      body-Same (some e) = refl

    run-Same :
        (s : State)
        → loads (later (loads m (set_defaults v s)).1) (set_defaults v s)
          ≡ loads m (set_defaults v s)
        → Same (λ n. run_broker v sdk connect g n s)
    unfolding run_broker load_env
    run-Same s reload =
        body-Same (set_defaults v s) reload (first_missing v required (set_defaults v s))

    loads_plain :
        (t : State) (cipher_key key nonce : Text)
        → m.embedded ≡ some cipher_key
        → m.key_file (key_path v t) ≡ some (codes "0x" ++ key)
        → m.writable ≡ true
        → m.drawn ≡ some nonce
        → loads m t ≡ load_from_file g true (some nonce) cipher_key (some (codes "0x" ++ key))
    unfolding load_abc
    loads_plain t cipher_key key nonce built file can_write draws =
        rw (built, file, can_write, draws, loads) refl

    loads-later :
        (t : State) (cipher_key : Text) (file : Option Text)
        → m.embedded ≡ some cipher_key
        → loads (later file) t ≡ load_from_file g writable drawn cipher_key file
    unfolding load_abc
    loads-later t cipher_key file built = rw (built, loads) refl

    -- With the encryption key that keygen wrote when the service was built, a source of
    -- randomness that fills its buffer, a cipher that accepts keys of 32 bytes, a key file of
    -- `0x` and bytes that can be written, and a nonce of the cipher's size: a second RunBroker,
    -- on the key file that the first one left, whether or not it can be written and whatever
    -- nonce is drawn, ends in the same way, with the same service if there is one, and leaves the
    -- key file as it is.
    pub run_broker-restart :
        (s : State) (random : ℕ → Option Text) (program path cipher_key key nonce : Text)
        → Fills random
        → TakesLong g
        → random key_size ≡ some cipher_key
        → m.embedded ≡ main random true (program ∷ path ∷ []) none
        → m.key_file (key_path v (set_defaults v s)) ≡ some (codes "0x" ++ key)
        → All IsByte key
        → m.writable ≡ true
        → m.drawn ≡ some nonce
        → All IsByte nonce
        → length nonce ≡ g.nonce_size
        → run_broker v sdk connect g (later (run_broker v sdk connect g m s).1) s
          ≡ run_broker v sdk connect g m s
    run_broker-restart s random program path cipher_key key nonce fills long drew built file bytes
          can_write draws nonce_bytes size =
        let t = set_defaults v s in
        let emb = built ∙ main-key random program path cipher_key none drew in
        let accepted = long cipher_key (fills key_size cipher_key drew) in
        let (once, then_on) =
          load_from_file-reload g nonce cipher_key key bytes accepted nonce_bytes size in
        let first = loads_plain t cipher_key key nonce emb file can_write draws ∙ once in
        run-Same s (
          ap (λ l. loads (later l.1) t) first
          ∙ loads-later t cipher_key _ emb
          ∙ then_on writable drawn
          ∙ sym first)
