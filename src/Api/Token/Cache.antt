-- ===== src/Api/Token/Cache.antt =====
-- ApproveToken: what is sent, what counts as approved, and what is remembered.
use d8x_broker_server.Base.{
  ℕ, ◌+◌, ◌-◌, ◌*◌, ◌/◌, ◌^◌, ◌≤◌, ◌<◌, ◌≡◌, ◌≢◌, refl, ◌∙◌, ap, ◌⊎◌, inl, inr, Bool, true, false,
  not, List, [], ◌∷◌, Option, none, some, arith, ◌==◌, ltb, Map, lookup, insert, get_or,
  lookup-insert_self, nat_eq, ℤ, int_eq, length, Bool-cases,
}
use d8x_broker_server.Text.{Text, text_eq}
use d8x_broker_server.Eth.{Address}
use d8x_broker_server.Sdk.{Sdk, Wallet, Approve, Receipt}
use d8x_broker_server.Pen.{SignaturePen, config_at}
use d8x_broker_server.Api.Token.{
  ApproveError, Approval, approved, failed, panics, not_sent, not_mined, no_token, no_transactor,
  no_nonce, no_gas_price, no_rpc, no_client, Attempt, ◌>>=◌, or_stop, sends, refuse, approval_key,
  approval_expiry_sec, approve_tx, send_approval, approve_on_chain, stamped, approve_token,
}

module _ (sdk : Sdk) (connect : List Text → Option sdk.Client) (p : SignaturePen) (chain_id : ℤ)
    (token : Address) where
  -- One call of Approve was made: with the chain's node, the wallet's next nonce and one and a half
  -- times its gas price, it gives the chain's payment contract the whole range of the token. If the
  -- attempt counts as approved, the transaction was taken and mined.
  pub record Asked (q : Attempt) : Type 0 where
    pub client : sdk.Client
    pub connected : connect (get_or [] chain_id p.rpc_url) ≡ some client
    pub wallet : Wallet
    pub own : lookup chain_id p.wallets ≡ some wallet
    pub nonce : ℕ
    pub next_nonce : sdk.pending_nonce client wallet.address ≡ some nonce
    pub gas : ℕ
    pub price : sdk.get_gas_price client ≡ some gas
    pub asked : Approve
    pub sent : q.1 ≡ asked ∷ []
    pub fields : asked ≡ (record {
      token = token;
      spender = (config_at sdk p chain_id).multi_pay_ctrct_addr;
      value = 2 ^ 256 - 1;
      nonce = nonce;
      gas_limit = 0;
      gas_price = gas * 15 / 10;
    })
    pub mined :
        q.0 ≡ approved
        → (tx : Text) × (receipt : Receipt) × (sdk.approve client asked ≡ some tx)
          × (sdk.wait_mined client tx ≡ some receipt)

  -- An attempt that has asked once, or that has failed before.
  abbrev pub IsHonest : Attempt → Type 0
  IsHonest q = Asked q ⊎ ((q.0 ≢ approved) × (q.1 ≡ []))

  failed-IsHonest : (e : ApproveError) → IsHonest (failed e, [])
  failed-IsHonest e = inr (λ same. cc same, refl)

  -- A step that goes well, or stops what has not asked yet.
  bind-IsHonest :
      {A : Type 0} (o : Option A) (stop : Approval) (f : A → Attempt)
      → stop ≢ approved
      → ((a : A) → o ≡ some a → IsHonest (f a))
      → IsHonest ((o, stop) >>= f)
  bind-IsHonest none stop f other each = inr (other, refl)
  bind-IsHonest (some a) stop f other each = each a refl

  refuse-IsHonest :
      (b : Bool) (e : ApproveError) (q : Attempt) → IsHonest q → IsHonest (refuse b e q)
  refuse-IsHonest true e q h = failed-IsHonest e
  refuse-IsHonest false e q h = h

  -- What follows the call of Approve.
  abbrev taken : sdk.Client → Option Text → Attempt
  taken client o = or_stop o not_sent >>= λ tx.
      or_stop (sdk.wait_mined client tx) not_mined >>= λ receipt. (approved, [])

  -- The last two steps, on their answers.
  abbrev mined_or_not : Option Receipt → Attempt
  mined_or_not m = or_stop m not_mined >>= λ receipt. (approved, [])

  module _ (client : sdk.Client) (connected : connect (get_or [] chain_id p.rpc_url) ≡ some client)
      (w : Wallet) (own : lookup chain_id p.wallets ≡ some w) (n : ℕ)
      (next_nonce : sdk.pending_nonce client w.address ≡ some n) (g : ℕ)
      (price : sdk.get_gas_price client ≡ some g) where
    abbrev asked : Approve
    asked = approve_tx sdk p chain_id token n g

    asked-Asked :
        (a : Approval)
        → (a ≡ approved
            → (tx : Text) × (receipt : Receipt) × (sdk.approve client asked ≡ some tx)
              × (sdk.wait_mined client tx ≡ some receipt))
        → Asked (a, asked ∷ [])
    asked-Asked a mined = record {
      client = client;
      connected = connected;
      wallet = w;
      own = own;
      nonce = n;
      next_nonce = next_nonce;
      gas = g;
      price = price;
      asked = asked;
      sent = refl;
      fields = unfold approve_tx in refl;
      mined = mined;
    }

    mined-Asked :
        (tx : Text) (m : Option Receipt)
        → sdk.approve client asked ≡ some tx
        → sdk.wait_mined client tx ≡ m
        → Asked (sends asked (mined_or_not m))
    mined-Asked tx none took waited = asked-Asked (failed not_mined) (λ e. cc e)
    mined-Asked tx (some receipt) took waited =
        asked-Asked approved (λ _. (tx, receipt, took, waited))

    taken-Asked :
        (o : Option Text) → sdk.approve client asked ≡ o → Asked (sends asked (taken client o))
    taken-Asked none refused = asked-Asked (failed not_sent) (λ e. cc e)
    taken-Asked (some tx) took = mined-Asked tx (sdk.wait_mined client tx) took refl

  send_approval-IsHonest :
      (client : sdk.Client)
      → connect (get_or [] chain_id p.rpc_url) ≡ some client
      → IsHonest (send_approval sdk p chain_id token client)
  unfolding send_approval
  send_approval-IsHonest client connected =
      refuse-IsHonest (not (sdk.new_erc20 token client)) no_token _ (
        bind-IsHonest (lookup chain_id p.wallets) panics _ (λ e. cc e)
          (λ w own. refuse-IsHonest (not (sdk.keyed_transactor w chain_id)) no_transactor _ (
            bind-IsHonest (sdk.pending_nonce client w.address) (failed no_nonce) _ (λ e. cc e)
              (λ n next_nonce.
                bind-IsHonest (sdk.get_gas_price client) (failed no_gas_price) _ (λ e. cc e)
                  (λ g price.
                    inl (taken-Asked client connected w own n next_nonce g price _ refl))))))

  pub approve_on_chain-IsHonest : IsHonest (approve_on_chain sdk connect p chain_id token)
  unfolding approve_on_chain
  approve_on_chain-IsHonest =
      let urls = get_or [] chain_id p.rpc_url in
      refuse-IsHonest (length urls == 0) no_rpc _
        (bind-IsHonest (connect urls) (failed no_client) _ (λ e. cc e) send_approval-IsHonest)

  -- The time of the last approval, 0 if there is none.
  abbrev pub approved_at : Map Text ℕ → ℕ
  approved_at ts = get_or 0 (approval_key sdk chain_id token) ts

  -- What a call of ApproveToken does, and what it has sent.
  pub record Answers (now later : ℕ) (ts : Map Text ℕ) (a : Approval) (ts' : Map Text ℕ)
      (sent : List Approve) : Type 0 where
    pub recent :
        now - approved_at ts < approval_expiry_sec → (a ≡ approved) × (ts' ≡ ts) × (sent ≡ [])
    pub old : approval_expiry_sec ≤ now - approved_at ts → IsHonest (a, sent)
    pub recorded :
        approval_expiry_sec ≤ now - approved_at ts
        → a ≡ approved
        → ts' ≡ insert (approval_key sdk chain_id token) later ts
    pub kept : a ≢ approved → ts' ≡ ts

  stamped-kept :
      (a : Approval) (later : ℕ) (ts : Map Text ℕ)
      → a ≢ approved
      → stamped sdk a (approval_key sdk chain_id token) later ts ≡ ts
  stamped-kept approved later ts other = absurd (other refl)
  stamped-kept (failed e) later ts other = refl
  stamped-kept panics later ts other = refl

  -- A call of ApproveToken within the expiry period of the last approval answers that the token
  -- is approved, changes no time and makes no call of Approve. A later one has made exactly one
  -- call of Approve, with the chain's node, the wallet's next nonce and one and a half times the
  -- node's gas price, on the token, for the chain's payment contract and over the whole range; or
  -- it has made none, and has not answered that the token is approved. If it has answered so, the
  -- node took and mined that transaction, and the time behind it is recorded; if it has not, no
  -- time has changed.
  pub approve_token-Answers :
      (now later : ℕ) (ts : Map Text ℕ)
      → let (a, ts', sent) = approve_token sdk connect p now later chain_id token ts in
        Answers now later ts a ts' sent
  unfolding approve_token
  approve_token-Answers now later ts =
      elim (Bool-cases (ltb (now - approved_at ts) approval_expiry_sec)) [
        | inl recent ↦
            rw (recent, approve_token)
              (record {
                recent = λ soon. (refl, refl, refl);
                old = λ late. absurd (ground (arith, recent, late));
                recorded = λ late e. absurd (ground (arith, recent, late));
                kept = λ other. refl;
              })
        | inr old ↦
            rw (old, approve_token)
              (record {
                recent = λ soon. absurd (ground (arith, old, soon));
                old = λ late. approve_on_chain-IsHonest;
                recorded = λ late e. rw e refl;
                kept = stamped-kept (approve_on_chain sdk connect p chain_id token).0 later ts;
              })
      ]

  after_attempt :
      (now later : ℕ) (ts : Map Text ℕ)
      → approval_expiry_sec ≤ now - approved_at ts
      → (approve_token sdk connect p now later chain_id token ts).0 ≡ approved
      → approved_at (approve_token sdk connect p now later chain_id token ts).1 ≡ later
  after_attempt now later ts late first =
      let key = approval_key sdk chain_id token in
      ap (get_or 0 key) ((approve_token-Answers now later ts).recorded late first)
      ∙ ap (λ o. elim o [ none ↦ 0 | some v ↦ v ]) (lookup-insert_self key later ts)

module _ (sdk : Sdk) (connect : List Text → Option sdk.Client) (p : SignaturePen) (chain_id : ℤ)
    (token : Address) where
  -- When a call of ApproveToken past the expiry period of the last approval has answered that the
  -- token is approved, a later call for the same chain and token, with any connection to the
  -- chain and before the expiry period since the end of the first call is over, answers that it
  -- is approved, makes no call of Approve and changes no time.
  pub approve_token-cached :
      (now later : ℕ) (ts : Map Text ℕ)
      → approval_expiry_sec ≤ now - approved_at sdk connect p chain_id token ts
      → (approve_token sdk connect p now later chain_id token ts).0 ≡ approved
      → (connect' : List Text → Option sdk.Client) (now' later' : ℕ)
      → now' < later + approval_expiry_sec
      → let ts' = (approve_token sdk connect p now later chain_id token ts).1 in
        approve_token sdk connect' p now' later' chain_id token ts' ≡ (approved, ts', [])
  approve_token-cached now later ts late first connect' now' later' soon =
      let ts' = (approve_token sdk connect p now later chain_id token ts).1 in
      let known =
        (approve_token-Answers sdk connect' p chain_id token now' later' ts').recent (
          omega
            (arith, after_attempt sdk connect p chain_id token now later ts late first, soon)) in
      λ i. (known.0 i, known.1 i, known.2 i)
