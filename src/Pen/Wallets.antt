-- ===== src/Pen/Wallets.antt =====
-- createWalletMap of utils/signatures.go: the wallets of the configured chains.
use d8x_broker_server.Base.{
  ◌≡◌, inl, inr, subst, ◌∙◌, List, [], ◌∷◌, Option, some, ◌==◌, Map, lookup, insert, get_or, nat_eq,
  int_eq, ℤ, All, All-insert, lookup-insert, Bool-cases, beq_self,
}
use d8x_broker_server.Text.{Text}
use d8x_broker_server.Sdk.{Sdk, Wallet}
use d8x_broker_server.Orders.{ChainConfig}
use d8x_broker_server.Pen.{ok, or_fail, create_wallet_map}
use d8x_broker_server.Pen.Signing.{>>=-eq-ok, or_fail-eq-ok, refuse-eq-ok}

module _ (sdk : Sdk) (connect : List Text → Option sdk.Client) (key : Text) where
  -- The wallet was made from the key, for the chain it stands under.
  abbrev pub FromKey : ℤ × Wallet → Type 0
  FromKey (chain_id, w) = (node : sdk.Client) × (sdk.new_wallet key chain_id node ≡ some w)

  abbrev pub Held : Map ℤ Wallet → ℤ → Type 0
  Held ws chain_id = (w : Wallet) × (lookup chain_id ws ≡ some w)

  insert-Held : (ws : Map ℤ Wallet) (k j : ℤ) (w : Wallet) → Held ws j → Held (insert k w ws) j
  insert-Held ws k j w (v, e) = elim (Bool-cases (k == j)) [
    | inl same ↦ (w, lookup-insert k j w ws ∙ rw same)
    | inr differ ↦ (v, lookup-insert k j w ws ∙ rw differ e)
  ]

  insert-Held_self : (ws : Map ℤ Wallet) (k : ℤ) (w : Wallet) → Held (insert k w ws) k
  insert-Held_self ws k w = (w, lookup-insert k k w ws ∙ rw (beq_self k))

  -- One round: the new wallet, and the rest of the loop.
  abbrev Round : Map ℤ (List Text) → ℤ → Map ℤ ChainConfig → Map ℤ Wallet → Map ℤ Wallet → Type 0
  Round urls chain_id more wallets ws =
      (w : Wallet) × FromKey (chain_id, w)
      × (create_wallet_map sdk connect key urls more (insert chain_id w wallets) ≡ ok ws)

  round :
      (urls : Map ℤ (List Text)) (chain_id : ℤ) (conf : ChainConfig) (more : Map ℤ ChainConfig)
      (wallets ws : Map ℤ Wallet)
      → create_wallet_map sdk connect key urls ((chain_id, conf) ∷ more) wallets ≡ ok ws
      → Round urls chain_id more wallets ws
  unfolding create_wallet_map
  round urls chain_id conf more wallets ws h =
      let (some_url, rest) = refuse-eq-ok _ _ _ h in
      let (node, dialled, rest') =
        >>=-eq-ok (or_fail (connect (get_or [] chain_id urls)) _) _ rest in
      let (w, made, rest'') = >>=-eq-ok (or_fail (sdk.new_wallet key chain_id node) _) _ rest' in
      (w, (node, or_fail-eq-ok _ _ made), rest'')

  ended :
      (urls : Map ℤ (List Text)) (wallets ws : Map ℤ Wallet)
      → create_wallet_map sdk connect key urls [] wallets ≡ ok ws
      → wallets ≡ ws
  unfolding create_wallet_map
  ended urls wallets ws h = cc

  kept-Held :
      (urls : Map ℤ (List Text)) (confs : Map ℤ ChainConfig) (wallets ws : Map ℤ Wallet) (j : ℤ)
      → create_wallet_map sdk connect key urls confs wallets ≡ ok ws
      → Held wallets j
      → Held ws j
  kept-Held urls [] wallets ws j h held = subst (λ m. Held m j) (ended urls wallets ws h) held
  kept-Held urls ((k, conf) ∷ more) wallets ws j h held =
      let (w, _, rest) = round urls k conf more wallets ws h in
      kept-Held urls more (insert k w wallets) ws j rest (insert-Held wallets k j w held)

  -- If createWalletMap succeeds, started on wallets that were each made from the private key for
  -- the chain they stand under, then every configured chain has a wallet, and every wallet was
  -- made from the private key for the chain it stands under.
  pub create_wallet_map-Held :
      (urls : Map ℤ (List Text)) (confs : Map ℤ ChainConfig) (wallets ws : Map ℤ Wallet)
      → create_wallet_map sdk connect key urls confs wallets ≡ ok ws
      → All FromKey wallets
      → All (λ p. Held ws p.0) confs × All FromKey ws
  create_wallet_map-Held urls [] wallets ws h made =
      (tt, subst (All FromKey) (ended urls wallets ws h) made)
  create_wallet_map-Held urls ((k, conf) ∷ more) wallets ws h made =
      let (w, from, rest) = round urls k conf more wallets ws h in
      let (held, all) =
        create_wallet_map-Held urls more (insert k w wallets) ws rest
          (All-insert FromKey k w wallets from made) in
      (
        (kept-Held urls more (insert k w wallets) ws k rest (insert-Held_self wallets k w), held),
        all,
      )
