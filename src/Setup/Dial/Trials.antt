-- ===== src/Setup/Dial/Trials.antt =====
-- The end of the loop of CreateRpcClient of utils/utils.go.
use d8x_broker_server.Base.{
  ℕ, zero, suc, ◌+◌, ◌≤◌, ◌<◌, ◌≡◌, inl, inr, ◌==◌, nat_eq, Option, none, some, arith, Option-cases,
  Bool-cases, subst,
}
use d8x_broker_server.Setup.Dial.{trials, create_rpc_client}

module _ {Client : Type 0} (dial : ℕ → Option Client) where
  -- The first of the dials from `trial` to number 5 that succeeds, or no such dial.
  abbrev pub FirstOf : ℕ → Option Client → Type 0
  FirstOf trial none = (n : ℕ) → trial ≤ n → n ≤ 5 → dial n ≡ none
  FirstOf trial (some client) =
      (n : ℕ) × (trial ≤ n)
      × (n ≤ 5)
      × (dial n ≡ some client)
      × ((m : ℕ) → trial ≤ m → m < n → dial m ≡ none)

  abbrev Ends : ℕ → Option (Option Client) → Type 0
  Ends trial q = (found : Option Client) × (q ≡ some found) × FirstOf trial found

  later :
      (trial : ℕ) (found : Option Client)
      → dial trial ≡ none
      → FirstOf (trial + 1) found
      → FirstOf trial found
  later trial none failed rest = λ n low high. elim (Bool-cases (trial == n)) [
    | inl same ↦ subst (λ m. dial m ≡ none) (ground arith) failed
    | inr differ ↦ rest n (ground arith) high
  ]
  later trial (some client) failed (n, low, high, hit, before) = (
    n,
    omega arith,
    high,
    hit,
    λ m at_least less. elim (Bool-cases (trial == m)) [
      | inl same ↦ subst (λ k. dial k ≡ none) (ground arith) failed
      | inr differ ↦ before m (ground arith) less
    ],
  )

  trials-Ends :
      (fuel trial : ℕ) → trial ≤ 5 → 5 < fuel + trial → Ends trial (trials dial fuel trial)
  unfolding trials
  trials-Ends zero trial low enough = absurd (omega arith)
  trials-Ends (suc fuel) trial low enough = elim (Option-cases (dial trial)) [
    | inr (client, hit) ↦ (
      some client,
      ground arith,
      (trial, omega arith, low, hit, λ m at_least less. absurd (omega arith)),
    )
    | inl failed ↦ elim (Bool-cases (trial == 5)) [
      | inl last ↦
          (none, ground arith, λ n from upto. subst (λ k. dial k ≡ none) (ground arith) failed)
      | inr more ↦
          let (found, ended, first) = trials-Ends fuel (trial + 1) (ground arith) (omega arith) in
          (found, ground (arith, ended), later trial found failed first)
    ]
  ]

  -- With fuel for six rounds or more, CreateRpcClient ends: with the client of the first of the
  -- dials 0 to 5 that succeeds, or with an error if none of them does.
  pub create_rpc_client-FirstOf :
      (fuel : ℕ)
      → 6 ≤ fuel
      → (found : Option Client) × (create_rpc_client dial fuel ≡ some found) × FirstOf 0 found
  unfolding create_rpc_client
  create_rpc_client-FirstOf fuel enough = trials-Ends fuel 0 (omega arith) (omega arith)
