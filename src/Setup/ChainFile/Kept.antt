-- ===== src/Setup/ChainFile/Kept.antt =====
-- Which chains a loaded configuration has, and what holds of each.
use d8x_broker_server.Base.{
  ◌≡◌, ◌≢◌, refl, sym, ◌∙◌, subst, ◌⊎◌, inl, inr, List, [], ◌∷◌, none, some, arith, ◌==◌, Map,
  lookup, insert, lookup-insert, lookup-insert_self, All, All-insert, ℤ, int_eq, Bool-cases,
  Option-cases,
}
use d8x_broker_server.Text.{text_eq, text_beq_iff}
use mathlib.Core.List.{cons-ne-nil}
use d8x_broker_server.Eth.{Address, zero_address}
use d8x_broker_server.Sdk.{Sdk, SdkConfig}
use d8x_broker_server.Orders.{ChainConfig}
use d8x_broker_server.Setup.ChainFile.{
  ChainConfigFile, loaded, complete, check_config, add_configs, load_chain_config,
}

pub loaded-injective : (a b : Map ℤ ChainConfig) → loaded a ≡ loaded b → a ≡ b
loaded-injective a b h = cc h

module _ (sdk : Sdk) where
  -- The configuration stands under its own id; it has executors, and the payment contract and proxy
  -- of the SDK, both of which are not zero.
  pub record IsUsable (entry : ℤ × ChainConfig) : Type 0 where
    pub same : entry.1.chain_id ≡ entry.0
    pub executors : entry.1.allowed_executors ≢ []
    pub known : SdkConfig
    pub from_sdk : sdk.default_config entry.0 ≡ some known
    pub multi_pay : entry.1.multi_pay_ctrct_addr ≡ known.multi_pay_addr
    pub proxy : entry.1.proxy_addr ≡ known.proxy_addr
    pub has_multi_pay : known.multi_pay_addr ≢ zero_address
    pub has_proxy : known.proxy_addr ≢ zero_address

  abbrev pub Present : Map ℤ ChainConfig → ChainConfigFile → Type 0
  Present config e =
      e.allowed_executors ≢ [] → (c : ChainConfig) × (lookup e.chain_id config ≡ some c)

  -- One round of the loop: the entry is passed over, or added.
  abbrev Round :
      ChainConfigFile → List ChainConfigFile → Map ℤ ChainConfig → Map ℤ ChainConfig → Type 0
  Round e more config final =
      ((e.allowed_executors ≡ []) × (add_configs sdk more config ≡ loaded final))
      ⊎ ((c : SdkConfig) × IsUsable (e.chain_id, complete e c)
          × (add_configs sdk more (insert e.chain_id (complete e c) config) ≡ loaded final))

  checked-IsUsable :
      (e : ChainConfigFile) (c : SdkConfig)
      → e.allowed_executors ≢ []
      → sdk.default_config e.chain_id ≡ some c
      → check_config e c ≡ none
      → IsUsable (e.chain_id, complete e c)
  unfolding check_config
  checked-IsUsable e c executors known h = record {
    same = refl;
    executors = executors;
    known = c;
    from_sdk = known;
    multi_pay = refl;
    proxy = refl;
    has_multi_pay = ground (arith, text_beq_iff c.multi_pay_addr zero_address);
    has_proxy = ground (arith, text_beq_iff c.proxy_addr zero_address);
  }

  one_entry :
      (xs : List Address) (e : ChainConfigFile) (more : List ChainConfigFile)
      (config final : Map ℤ ChainConfig)
      → e.allowed_executors ≡ xs
      → add_configs sdk (e ∷ more) config ≡ loaded final
      → Round e more config final
  unfolding add_configs
  one_entry [] e more config final same h = inl (same, ground arith)
  one_entry (x ∷ xs) e more config final same h =
      elim (Option-cases (sdk.default_config e.chain_id)) [
        | inl unknown ↦ ground arith
        | inr (c, known) ↦ elim (Option-cases (check_config e c)) [
          | inl good ↦ inr (
            c,
            checked-IsUsable e c (λ empty. cons-ne-nil x xs (sym same ∙ empty)) known good,
            ground arith,
          )
          | inr (f, bad) ↦ ground arith
        ]
      ]

  kept_lookup :
      (es : List ChainConfigFile) (config final : Map ℤ ChainConfig) (k : ℤ)
      → add_configs sdk es config ≡ loaded final
      → (c : ChainConfig) × (lookup k config ≡ some c)
      → (c : ChainConfig) × (lookup k final ≡ some c)
  unfolding add_configs
  kept_lookup [] config final k h (c, held) =
      (c, subst (λ m. lookup k m ≡ some c) (loaded-injective config final h) held)
  kept_lookup (e ∷ more) config final k h (c, held) =
      elim (one_entry e.allowed_executors e more config final refl h) [
        | inl (_, rest) ↦ kept_lookup more config final k rest (c, held)
        | inr (s, _, rest) ↦
            kept_lookup more (insert e.chain_id (complete e s) config) final k rest
              (elim (Bool-cases (e.chain_id == k)) [
                | inl same ↦
                    (complete e s, lookup-insert e.chain_id k (complete e s) config ∙ rw same)
                | inr differ ↦
                    (c, lookup-insert e.chain_id k (complete e s) config ∙ rw differ held)
              ])
      ]

  add_configs-kept :
      (es : List ChainConfigFile) (config final : Map ℤ ChainConfig)
      → add_configs sdk es config ≡ loaded final
      → All IsUsable config
      → All IsUsable final × All (Present final) es
  unfolding add_configs
  add_configs-kept [] config final h usable =
      (subst (All IsUsable) (loaded-injective config final h) usable, tt)
  add_configs-kept (e ∷ more) config final h usable =
      elim (one_entry e.allowed_executors e more config final refl h) [
        | inl (empty, rest) ↦
            let (all, present) = add_configs-kept more config final rest usable in
            (all, (λ some_executor. absurd (some_executor empty), present))
        | inr (c, good, rest) ↦
            let grown = insert e.chain_id (complete e c) config in
            let (all, present) =
              add_configs-kept more grown final rest
                (All-insert IsUsable e.chain_id (complete e c) config good usable) in
            (
              all,
              (
                λ _.
                    kept_lookup more grown final e.chain_id rest
                      (_, lookup-insert_self e.chain_id (complete e c) config),
                present,
              ),
            )
      ]

  -- If LoadChainConfig succeeds, every configuration it returns stands under its own chain id,
  -- has allowed executors, and has the payment contract and the proxy that the SDK knows for the
  -- chain, neither of which is zero; and each entry of the file with allowed executors has a
  -- configuration for its chain.
  pub load_chain_config-IsUsable :
      (entries : List ChainConfigFile) (config : Map ℤ ChainConfig)
      → load_chain_config sdk (some entries) ≡ loaded config
      → All IsUsable config × All (Present config) entries
  unfolding load_chain_config
  load_chain_config-IsUsable entries config h = add_configs-kept entries [] config h tt
