-- ===== src/Ws/Notify/Send.antt =====
-- The goroutines of handleOrderId of executorws/server.go: the loop over the subscribers starts one
-- SendWithWait for each write, and handleOrderId returns when the counter of the wait group is 0.
-- The goroutines and the loop take turns in any order.
pub mod Waited
use d8x_broker_server.Base.{ℕ, suc, ◌-◌, ◌+◌, ◌≡◌, ◌≢◌, List, [], ◌∷◌, ◌++◌}
use d8x_broker_server.Ws.Notify.{Write}

-- SendWithWait before WriteMessage, before wg.Done, and at its end.
pub data Sender : Type 0 where
  writing : Write → Sender
  finishing : Sender
  finished : Sender

-- A turn of SendWithWait: what it writes, and how often it calls wg.Done.
unfoldable pub send_with_wait : Sender → List Write × ℕ × Sender
send_with_wait (writing w) = (w ∷ [], 0, finishing)
send_with_wait finishing = ([], 1, finished)
send_with_wait finished = ([], 0, finished)

-- `left` is what the loop has not come to, `wg` the counter, `senders` the goroutines, `sent` what
-- was written, the last one first.
pub record Round : Type 0 where
  pub left : List Write
  pub wg : ℕ
  pub senders : List Sender
  pub sent : List Write

unfoldable pub new_round : List Write → Round
new_round writes = record { left = writes; wg = 0; senders = []; sent = [] }

-- wg.Add and the start of the goroutine.
unfoldable pub spawn : Write → List Write → Round → Round
spawn w more s = record s { left = more; wg = suc s.wg; senders = writing w ∷ s.senders }

pub data RoundStep (s : Round) : Round → Type 0 where
  spawns : (w : Write) (more : List Write) → s.left ≡ w ∷ more → RoundStep s (spawn w more s)
  sends :
      (before after : List Sender) (x : Sender)
      → s.senders ≡ before ++ x ∷ after
      → x ≢ finished
      → RoundStep s (record s {
        wg = s.wg - (send_with_wait x).1;
        senders = before ++ (send_with_wait x).2 ∷ after;
        sent = (send_with_wait x).0 ++ s.sent;
      })

pub data RoundReach (writes : List Write) : Round → Type 0 where
  start : RoundReach writes (new_round writes)
  next : {s t : Round} → RoundReach writes s → RoundStep s t → RoundReach writes t

-- wg.Wait returns: the loop is done, and the counter is 0.
abbrev pub IsWaited : Round → Type 0
IsWaited s = (s.left ≡ []) × (s.wg ≡ 0)
