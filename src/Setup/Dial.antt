-- ===== src/Setup/Dial.antt =====
-- CreateRpcClient of utils/utils.go. `dial` says what the n-th dial of the node that was drawn gives,
-- counted from 0. Which node is drawn makes no difference to the loop.
pub mod Trials
use d8x_broker_server.Base.{ℕ, zero, suc, ◌+◌, ◌==◌, nat_eq, if◌then◌else◌, Option, none, some}

module _ {Client : Type 0} (dial : ℕ → Option Client) where
  -- The loop from a trial on: the client, or `some none` for the error after the last trial. The
  -- fuel is the number of rounds that are allowed; `none` means that it ran out.
  unfoldable pub trials : ℕ → ℕ → Option (Option Client)
  trials zero trial = none
  trials (suc fuel) trial =
      let rest = trials fuel (trial + 1) in
      elim (dial trial) [
        | some client ↦ some (some client)
        | none ↦ if trial == 5 then some none else rest
      ]

  unfoldable pub create_rpc_client : ℕ → Option (Option Client)
  unfolding trials
  create_rpc_client fuel = trials fuel 0
