-- ===== src/System/Turns/Quiet.antt =====
-- Where the turns of the two services end: nothing is left to do, and no order waits on a stack.
use mathlib.Core.WellFounded.{Acc}
use d8x_broker_server.Base.{
  ◌≡◌, ◌≢◌, refl, ◌∙◌, ap, subst, ◌⊎◌, inl, inr, List, [], ◌∷◌, ◌++◌, Option, some, ltb, arith,
  length, get_elem?-some, Bool-cases, All, All-map, Map, ℤ,
}
use d8x_broker_server.Text.{Text}
use d8x_broker_server.Sdk.{Sdk}
use d8x_broker_server.Redis.{Redis}
use d8x_broker_server.Redis.Connected.{Connected}
use d8x_broker_server.Redis.Prog.{
  Command, Prog, done, call, get, set, expire, hset, hgetall, lpush, lpop, publish,
}
use d8x_broker_server.Redis.Prog
use d8x_broker_server.Orders.{ChainConfig, channel_new_order}
use d8x_broker_server.Orders.Submit.{items}
use d8x_broker_server.Api.{App}
use d8x_broker_server.Api.Routes.{Decoders}
use d8x_broker_server.System.Clean.{HashesToBytes}
use d8x_broker_server.System.Waiting.{get_elem?-lt}
use d8x_broker_server.System.Rest.{DecodesFits}
use d8x_broker_server.System.Reach.Flow.{ids_cases}
use d8x_broker_server.System.Turns.{
  Run, popping, reading, sending, over, Pool, Turn, rest, drain, receive, Came, turn,
}
use d8x_broker_server.System.Turns.Safe.{IsAnnouncing}
use d8x_broker_server.Base.{Any-none}
use d8x_broker_server.System.Turns.Kept.{IsDraining}
use d8x_broker_server.System.Turns.Always.{IsKept, Came-IsKept}
use d8x_broker_server.System.Turns.Work.{Before, Turn-Acc}

-- The request is answered.
abbrev pub IsAnswered : {A : Type 0} → Prog A → Type 0
IsAnswered (done a) = Unit
IsAnswered (call c go_on) = ⊥

abbrev pub IsOver : Run → Type 0
IsOver x = x ≡ over

-- A request that has a command to send.
abbrev Goes : {A : Type 0} → List (Prog A) → Type 0
Goes {A} ts =
    (before : List (Prog A)) × (after : List (Prog A)) × (c : Command) × (go_on : Prog.ReplyTo c
      → Prog A)
    × (ts ≡ before ++ call c go_on ∷ after)

later-Goes : {A : Type 0} (p : Prog A) (ts : List (Prog A)) → Goes ts → Goes (p ∷ ts)
later-Goes p ts (before, after, c, go_on, at) = (p ∷ before, after, c, go_on, ap (λ us. p ∷ us) at)

tasks_cases : {A : Type 0} (ts : List (Prog A)) → Goes ts ⊎ All IsAnswered ts
tasks_cases [] = inr tt
tasks_cases (done a ∷ ts) = elim (tasks_cases ts) [
  | inl goes ↦ inl (later-Goes (done a) ts goes)
  | inr all_done ↦ inr (tt, all_done)
]
tasks_cases (call c go_on ∷ ts) = inl ([], ts, c, go_on, refl)

-- A run that is not over.
abbrev Drains : List Run → Type 0
Drains xs =
    (before : List Run) × (after : List Run) × (x : Run) × (xs ≡ before ++ x ∷ after) × (x ≢ over)

run_cases : (x : Run) → (x ≢ over) ⊎ IsOver x
run_cases (popping topic) = inl (λ e. cc e)
run_cases (reading topic id) = inl (λ e. cc e)
run_cases (sending topic id reply) = inl (λ e. cc e)
run_cases over = inr refl

runs_cases : (xs : List Run) → Drains xs ⊎ All IsOver xs
runs_cases [] = inr tt
runs_cases (x ∷ xs) = elim (run_cases x) [
  | inl going_on ↦ inl ([], xs, x, refl, going_on)
  | inr ended ↦ elim (runs_cases xs) [
    | inl (before, after, y, at, going_on) ↦
        inl (x ∷ before, after, y, ap (λ ys. x ∷ ys) at, going_on)
    | inr all_over ↦ inr (ended, all_over)
  ]
]

answered_silent : {A : Type 0} (k : Text) (p : Prog A) → IsAnswered p → ¬ IsAnnouncing k p
answered_silent k (done a) h announces = announces
answered_silent k (call c go_on) h announces = h

over_silent : (k : Text) (x : Run) → IsOver x → ¬ IsDraining k x
over_silent k x ended drains = subst (IsDraining k) ended drains

module _ (r : Redis) where
  open r use {Store, view}

  -- Every request is answered, every run of handleNewOrder has ended, every message is received, and
  -- every stack is empty.
  pub record IsQuiet (s : Pool Store) : Type 0 where
    pub answered : All IsAnswered s.tasks
    pub ended : All IsOver s.runs
    pub received : s.heard ≡ length (view s.store).sent
    pub empty : (k : Text) → items ((view s.store).key k) ≡ []

  -- Turns, one after the other.
  pub data Turns : Pool Store → Pool Store → Type 0 where
    no_turn : {s : Pool Store} → Turns s s
    one_turn : {s t u : Pool Store} → Turn r s t → Turns t u → Turns s u

module _ (sdk : Sdk) (r : Redis) (up : Connected r) (rest_level : Text → Option ℤ)
    (decoders : Decoders) (config : Map ℤ ChainConfig) (app : App) (bytes : HashesToBytes sdk) where
  open r use {Store, view}

  abbrev Kept : Pool Store → Type 0
  Kept = IsKept sdk r up rest_level decoders config app bytes

  uncared :
      (s : Pool Store)
      → Kept s
      → All IsAnswered s.tasks
      → All IsOver s.runs
      → s.heard ≡ length (view s.store).sent
      → (k : Text) → ¬ (items ((view s.store).key k) ≢ [])
  uncared s kept answered ended received k some_id = elim (kept.going.cared k some_id) [
    | inl (i, later, at) ↦
        let before = get_elem?-lt (view s.store).sent i (channel_new_order, k) at in
        absurd (omega (arith, received, later, before))
    | inr (inl announces) ↦
        Any-none (IsAnnouncing k) s.tasks
          (All-map IsAnswered (λ p. ¬ IsAnnouncing k p) (answered_silent k) s.tasks answered)
          announces
    | inr (inr drains) ↦
        Any-none (IsDraining k) s.runs
          (All-map IsOver (λ x. ¬ IsDraining k x) (over_silent k) s.runs ended) drains
  ]

  idle-IsQuiet :
      (s : Pool Store)
      → Kept s
      → All IsAnswered s.tasks
      → All IsOver s.runs
      → s.heard ≡ length (view s.store).sent
      → IsQuiet r s
  idle-IsQuiet s kept answered ended received = record {
    answered = answered;
    ended = ended;
    received = received;
    empty = λ k. elim (ids_cases (items ((view s.store).key k))) [
      | inl empty ↦ empty
      | inr some_id ↦ absurd (uncared s kept answered ended received k some_id)
    ];
  }

  receive_cases :
      (s : Pool Store)
      → Kept s
      → ((t : Pool Store) × Turn r s t) ⊎ (s.heard ≡ length (view s.store).sent)
  receive_cases s kept = elim (Bool-cases (ltb s.heard (length (view s.store).sent))) [
    | inl waiting ↦
        let sent = (view s.store).sent in
        let (m, at) = get_elem?-some sent s.heard (ground (arith, waiting)) in
        let ours = kept.going.ours s.heard m (omega arith) at in
        inl (_, receive m.1 (at ∙ ap (λ channel. some (channel, m.1)) ours))
    | inr all_heard ↦ inr (ground (arith, all_heard, kept.going.past))
  ]

  -- A turn is left, or nothing is left to do.
  progress : (s : Pool Store) → Kept s → ((t : Pool Store) × Turn r s t) ⊎ IsQuiet r s
  progress s kept = elim (tasks_cases s.tasks) [
    | inl (before, after, c, go_on, at) ↦ inl (_, rest before after c go_on at)
    | inr answered ↦ elim (runs_cases s.runs) [
      | inl (before, after, x, at, going_on) ↦ inl (_, drain before after x at going_on)
      | inr ended ↦ elim (receive_cases s kept) [
        | inl more ↦ inl more
        | inr received ↦ inr (idle-IsQuiet s kept answered ended received)
      ]
    ]
  ]

  -- Turns that lead to a quiet state.
  pub record Quiets (s : Pool Store) : Type 0 where
    pub final : Pool Store
    pub turns : Turns r s final
    pub quiet : IsQuiet r final

  settle :
      DecodesFits decoders
      → (s : Pool Store) → Acc (Before r) s
      → Came r sdk rest_level decoders config app s
      → Quiets s
  settle fits s (Acc.intro _ h) came =
      elim (progress s (Came-IsKept sdk r up rest_level decoders config app bytes fits came)) [
        | inr quiet ↦ record { final = s; turns = no_turn; quiet = quiet }
        | inl (t, st) ↦
            let q = settle fits t (h t st) (turn came st) in
            record { final = q.final; turns = one_turn st q.turns; quiet = q.quiet }
      ]

  -- On a Redis whose answers all arrive, with a hash that is made of bytes and a decoder that
  -- refuses numbers which their field cannot hold: from every state that the system reaches by
  -- single turns in any interleaving, some turns of the requests and the runs of handleNewOrder
  -- lead to a state in which every request is answered, every run has ended, every message is
  -- received, and every stack is empty; and a state that is reached and from which there is no
  -- such turn is of this kind.
  pub Came-Quiets :
      DecodesFits decoders
      → {s : Pool Store} → Came r sdk rest_level decoders config app s
      → Quiets s × (((t : Pool Store) → ¬ Turn r s t) → IsQuiet r s)
  Came-Quiets fits {s} came = (
    settle fits s (Turn-Acc r up s) came,
    λ stuck.
        elim (progress s (Came-IsKept sdk r up rest_level decoders config app bytes fits came)) [
          | inl (t, st) ↦ absurd (stuck t st)
          | inr quiet ↦ quiet
        ],
  )
