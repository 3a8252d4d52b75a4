-- ===== src/System/Turns/Count/Conserved.antt =====
-- The ids that were pushed and taken, in every state that the system reaches command by command.
use d8x_broker_server.Base.{
  ◌+◌, ◌≡◌, refl, sym, ◌∙◌, ap, subst, inl, inr, List, [], ◌++◌, Option, ◌==◌, arith, Bool-cases,
  All, Map, ℤ,
}
use d8x_broker_server.Text.{Text, text_eq, text_beq_iff}
use d8x_broker_server.Sdk.{Sdk}
use d8x_broker_server.Redis.{Redis}
use d8x_broker_server.Redis.Connected.{Connected}
use d8x_broker_server.Redis.Prog.{call}
use d8x_broker_server.Orders.{ChainConfig}
use d8x_broker_server.Orders.Submit.{items}
use d8x_broker_server.Api.{App}
use d8x_broker_server.Api.Routes.{Decoders}
use d8x_broker_server.System.Clean.{HashesToBytes}
use d8x_broker_server.System.Rest.{DecodesFits}
use d8x_broker_server.System.Turns.{
  Run, popping, reading, sending, over, run_turn, Pool, Turn, rest, drain, receive, Event, request,
  ws, Came, start, event, turn,
}
use d8x_broker_server.System.Turns
use d8x_broker_server.System.Turns.Safe.{IsSafe}
use d8x_broker_server.Base.{All-item}
use d8x_broker_server.System.Turns.Effect.{perform-effect, Grants-IsLasting}
use d8x_broker_server.System.Turns.Always.{IsKept, Came-IsKept}
use d8x_broker_server.System.Turns.Count.{
  count, count-append, pushed_by, taken_by, turn_pushed, turn_taken, items-effect, items-run_turn,
}

module _ (sdk : Sdk) (r : Redis) (up : Connected r) (rest_level : Text → Option ℤ)
    (decoders : Decoders) (config : Map ℤ ChainConfig) (app : App) (bytes : HashesToBytes sdk) where
  open r use {Store, view}

  abbrev Comes : Pool Store → Type 0
  Comes = Came r sdk rest_level decoders config app

  -- The ids that were put on the stack `k` so far, the last one first.
  abbrev pub all_pushed : {s : Pool Store} → Comes s → Text → List Text
  all_pushed (start s empty) k = []
  all_pushed (event before e) k = all_pushed before k
  all_pushed (turn before t) k = turn_pushed r t k ++ all_pushed before k

  -- The ids that runs took off the stack `k` so far, the last one first.
  abbrev pub all_taken : {s : Pool Store} → Comes s → Text → List Text
  all_taken (start s empty) k = []
  all_taken (event before e) k = all_taken before k
  all_taken (turn before t) k = turn_taken r t k ++ all_taken before k

  abbrev Lasts : {s t : Pool Store} → Event r sdk rest_level decoders config s t → Type 0
  Lasts (request connect now later q) = Unit
  Lasts (ws h st) = Unit
  Lasts {s} (Turns.expire k t e) = items ((view s.store).key k) ≡ []

  -- No stack with ids has expired so far.
  abbrev pub StacksLast : {s : Pool Store} → Comes s → Type 0
  StacksLast (start s empty) = Unit
  StacksLast (event before e) = StacksLast before × Lasts e
  StacksLast (turn before t) = StacksLast before

  Turn-count :
      {s t : Pool Store} (st : Turn r s t) (k id : Text)
      → IsKept sdk r up rest_level decoders config app bytes s
      → count id (turn_pushed r st k) + count id (items ((view s.store).key k))
        ≡ count id (turn_taken r st k) + count id (items ((view t.store).key k))
  Turn-count {s} (rest before after c go_on at) k id kept =
      let safe =
        All-item (IsSafe sdk app.pen) before after (call c go_on)
          (subst (All (IsSafe sdk app.pen)) at kept.going.safe) in
      let more =
        ap (λ v. items (v.key k))
          (perform-effect r up c s.store (Grants-IsLasting sdk app.pen c safe.0))
        ∙ items-effect sdk app.pen bytes c (view s.store) k safe.0 kept.going.clean in
      omega
        (arith, ap (count id) more, count-append id (pushed_by c k) (items ((view s.store).key k)))
  Turn-count {s} (drain before after x at going_on) k id kept =
      let left = items ((view (run_turn r s.hub.subs x s.store).2).key k) in
      omega (
        arith,
        ap (count id) (items-run_turn r up s.hub.subs x s.store k),
        count-append id (taken_by r x s.store k) left,
      )
  Turn-count (receive topic at) k id kept = refl

  Event-items :
      {s t : Pool Store} (e : Event r sdk rest_level decoders config s t) (k : Text)
      → Lasts e
      → items ((view t.store).key k) ≡ items ((view s.store).key k)
  Event-items (request connect now later q) k lasts = refl
  Event-items (ws h st) k lasts = refl
  Event-items {s} (Turns.expire j t e) k lasts =
      ap (λ v. items (v.key k)) e ∙ elim (Bool-cases (j == k)) [
        | inl same ↦
            rw same (
              sym
                (ap (λ i. items ((view s.store).key i)) (sym ((text_beq_iff j k).0 same)) ∙ lasts))
        | inr differ ↦ rw differ refl
      ]

  -- On a Redis whose answers all arrive, with a hash that is made of bytes and a decoder that
  -- refuses numbers which their field cannot hold: after any interleaving of single turns in
  -- which no stack with ids has expired, each id was put on a stack by requests as often as it
  -- was taken off by the runs of handleNewOrder and still stands on it together: however many
  -- requests and runs work on one stack, no id is lost and none is taken twice.
  pub Came-count :
      DecodesFits decoders
      → {s : Pool Store} (came : Comes s) → StacksLast came
      → (k id : Text)
      → count id (all_pushed came k)
        ≡ count id (all_taken came k) + count id (items ((view s.store).key k))
  Came-count fits (start s empty) last k id = omega (arith, ap (λ x. count id (items x)) (empty k))
  Came-count fits (event before e) (last, lasts) k id =
      omega (arith, Came-count fits before last k id, ap (count id) (Event-items e k lasts))
  Came-count fits (turn before t) last k id = omega (
    arith,
    Came-count fits before last k id,
    Turn-count t k id (Came-IsKept sdk r up rest_level decoders config app bytes fits before),
    count-append id (turn_pushed r t k) (all_pushed before k),
    count-append id (turn_taken r t k) (all_taken before k),
  )
