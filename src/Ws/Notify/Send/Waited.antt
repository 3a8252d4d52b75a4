-- ===== src/Ws/Notify/Send/Waited.antt =====
-- handleOrderId returns, and when it does, every subscriber was written to once.
use mathlib.Core.WellFounded.{Acc}
use d8x_broker_server.Base.{
  ℕ, zero, suc, ◌+◌, ◌*◌, ◌<◌, ◌≡◌, ◌≢◌, refl, ◌∙◌, ap, ◌⊎◌, inl, inr, Bool, List, [], ◌∷◌, ◌++◌,
  arith, length, if◌then◌else◌,
}
use d8x_broker_server.Ws.Notify.{Write}
use d8x_broker_server.Ws.Notify.Send.{
  Sender, writing, finishing, finished, send_with_wait, Round, new_round, spawn, RoundStep, spawns,
  sends, RoundReach, start, next, IsWaited,
}

-- How many writes pass a test.
abbrev pub count : (Write → Bool) → List Write → ℕ
count test [] = 0
count test (w ∷ ws) = (if test w then 1 else 0) + count test ws

-- A number for each sender, summed up.
abbrev total : (Sender → ℕ) → List Sender → ℕ
total f [] = 0
total f (x ∷ xs) = f x + total f xs

total-swap :
    (f : Sender → ℕ) (before after : List Sender) (x y : Sender)
    → total f (before ++ y ∷ after) + f x ≡ total f (before ++ x ∷ after) + f y
total-swap f [] after x y = omega arith
total-swap f (z ∷ before) after x y = omega (arith, total-swap f before after x y)

-- What a sender has still to write.
abbrev owes : (Write → Bool) → Sender → ℕ
owes test (writing w) = if test w then 1 else 0
owes test finishing = 0
owes test finished = 0

-- The calls of wg.Done, and the turns, that a sender has before it.
abbrev undone : Sender → ℕ
undone (writing w) = 1
undone finishing = 1
undone finished = 0

abbrev turns : Sender → ℕ
turns (writing w) = 2
turns finishing = 1
turns finished = 0

-- The counter is the number of the senders that have not called wg.Done, and each write is left,
-- owed or made.
record IsCounted (writes : List Write) (s : Round) : Type 0 where
  counter : s.wg ≡ total undone s.senders
  each :
      (test : Write → Bool)
      → count test s.left + (total (owes test) s.senders + count test s.sent) ≡ count test writes

turn_undone : (x : Sender) → undone (send_with_wait x).2 + (send_with_wait x).1 ≡ undone x
unfolding send_with_wait
turn_undone (writing w) = refl
turn_undone finishing = refl
turn_undone finished = refl

turn_owes :
    (test : Write → Bool) (x : Sender) (sent : List Write)
    → owes test (send_with_wait x).2 + count test ((send_with_wait x).0 ++ sent)
      ≡ owes test x + count test sent
unfolding send_with_wait
turn_owes test (writing w) sent = omega arith
turn_owes test finishing sent = refl
turn_owes test finished sent = refl

turn_less : (x : Sender) → x ≢ finished → turns (send_with_wait x).2 < turns x
unfolding send_with_wait
turn_less (writing w) goes = omega arith
turn_less finishing goes = omega arith
turn_less finished goes = absurd (goes refl)

RoundStep-IsCounted :
    {writes : List Write} {s t : Round} → RoundStep s t → IsCounted writes s → IsCounted writes t
unfolding spawn
RoundStep-IsCounted {writes} {s} (spawns w more at) c = record {
  counter = omega (arith, c.counter);
  each = λ test. omega (arith, c.each test, ap (count test) at);
}
RoundStep-IsCounted {writes} {s} (sends before after x at goes) c =
    let y = (send_with_wait x).2 in
    record {
      counter = omega (
        arith,
        c.counter,
        ap (total undone) at,
        total-swap undone before after x y,
        turn_undone x,
      );
      each = λ test. omega (
        arith,
        c.each test,
        ap (total (owes test)) at,
        total-swap (owes test) before after x y,
        turn_owes test x s.sent,
      );
    }

RoundReach-IsCounted : {writes : List Write} {s : Round} → RoundReach writes s → IsCounted writes s
unfolding new_round
RoundReach-IsCounted start = record { counter = refl; each = λ test. omega arith }
RoundReach-IsCounted (next r st) = RoundStep-IsCounted st (RoundReach-IsCounted r)

-- The turns that are left.
abbrev work : Round → ℕ
work s = 3 * length s.left + total turns s.senders

RoundStep-work : {s t : Round} → RoundStep s t → work t < work s
unfolding spawn
RoundStep-work {s} (spawns w more at) = omega (arith, ap length at)
RoundStep-work {s} (sends before after x at goes) =
    let y = (send_with_wait x).2 in
    omega (arith, ap (total turns) at, total-swap turns before after x y, turn_less x goes)

-- The second state is one step before the first.
abbrev pub Before : Round → Round → Type 0
Before t s = RoundStep s t

bounded-Acc : (n : ℕ) (s : Round) → work s < n → Acc Before s
bounded-Acc zero s few = absurd (omega (arith, few))
bounded-Acc (suc n) s few =
    Acc.intro s (λ t st. bounded-Acc n t (omega (arith, few, RoundStep-work st)))

-- A sender that is not finished.
abbrev Goes : List Sender → Type 0
Goes xs =
    (before : List Sender) × (after : List Sender) × (x : Sender) × (xs ≡ before ++ x ∷ after)
    × (x ≢ finished)

senders_cases : (xs : List Sender) → Goes xs ⊎ (total undone xs ≡ 0)
senders_cases [] = inr refl
senders_cases (writing w ∷ xs) = inl ([], xs, writing w, refl, λ e. cc e)
senders_cases (finishing ∷ xs) = inl ([], xs, finishing, refl, λ e. cc e)
senders_cases (finished ∷ xs) = elim (senders_cases xs) [
  | inl (before, after, x, at, goes) ↦
      inl (finished ∷ before, after, x, ap (λ ys. finished ∷ ys) at, goes)
  | inr over ↦ inr (omega (arith, over))
]

unowed : (test : Write → Bool) (xs : List Sender) → total undone xs ≡ 0 → total (owes test) xs ≡ 0
unowed test [] over = refl
unowed test (writing w ∷ xs) over = absurd (omega (arith, over))
unowed test (finishing ∷ xs) over = absurd (omega (arith, over))
unowed test (finished ∷ xs) over = omega (arith, unowed test xs (omega (arith, over)))

going_on :
    {writes : List Write} (s : Round) (left : List Write)
    → s.left ≡ left
    → IsCounted writes s
    → ((t : Round) × RoundStep s t) ⊎ IsWaited s
going_on s (w ∷ more) at c = inl (_, spawns w more at)
going_on s [] at c = elim (senders_cases s.senders) [
  | inl (before, after, x, here, goes) ↦ inl (_, sends before after x here goes)
  | inr over ↦ inr (at, c.counter ∙ over)
]

-- The goroutines come to an end, wg.Wait returns when they have none left to wait for, and every
-- write is then made.
pub record Sends (writes : List Write) (s : Round) : Type 0 where
  pub ends : Acc Before s
  pub goes_on : ((t : Round) × RoundStep s t) ⊎ IsWaited s
  pub all_sent : IsWaited s → (test : Write → Bool) → count test s.sent ≡ count test writes

-- While handleOrderId sends an order, in every state that its loop over the subscribers and the
-- goroutines of SendWithWait reach in any interleaving: their turns come to an end, in whatever
-- order they are taken; a turn is left or wg.Wait returns; and when it returns, each write has
-- been made as often as it stands in the list of the writes.
pub RoundReach-Sends : {writes : List Write} {s : Round} → RoundReach writes s → Sends writes s
RoundReach-Sends {writes} {s} reached =
    let c = RoundReach-IsCounted reached in
    record {
      ends = bounded-Acc (suc (work s)) s (omega arith);
      goes_on = going_on s s.left refl c;
      all_sent = λ (over, none_open) test. omega (
        arith,
        c.each test,
        ap (count test) over,
        unowed test s.senders (omega (arith, c.counter, none_open)),
      );
    }
