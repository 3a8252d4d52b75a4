-- ===== src/System/Reach/Flow.antt =====
-- Handling the messages that wait empties every stack.
use d8x_broker_server.Base.{
  ℕ, zero, suc, ◌+◌, ◌-◌, ◌≤◌, ◌≡◌, ◌≢◌, refl, ◌∙◌, ap, ◌⊎◌, inl, inr, List, [], ◌∷◌, Option, some,
  Map, ℤ, arith, length, get_elem?, get_elem?-some,
}
use d8x_broker_server.Text.{Text, text_eq}
use d8x_broker_server.Sdk.{Sdk}
use d8x_broker_server.Redis.{Redis}
use d8x_broker_server.Redis.Connected.{Connected}
use d8x_broker_server.Orders.{ChainConfig, channel_new_order}
use d8x_broker_server.Orders.Submit.{items}
use d8x_broker_server.Api.{App}
use d8x_broker_server.Api.Routes.{Decoders}
use d8x_broker_server.Ws.Notify.{Write, handle_new_order}
use d8x_broker_server.Ws.Notify.Drain.{handle_new_order-Drained}
use d8x_broker_server.System.Clean.{HashesToBytes}
use d8x_broker_server.System.Waiting.{get_elem?-lt}
use d8x_broker_server.System.Rest.{DecodesFits}
use d8x_broker_server.System.Reach.{System, Reach, deliver}
use d8x_broker_server.System.Reach.Sound.{IsSound, Step-IsSound, Reach-IsSound}

-- A list of ids is empty or not.
pub ids_cases : (ids : List Text) → (ids ≡ []) ⊎ (ids ≢ [])
ids_cases [] = inl refl
ids_cases (id ∷ ids) = inr (λ e. cc e)

difference : (m n : ℕ) → m ≤ n → (d : ℕ) × (m + d ≡ n)
difference m n h = (n - m, omega arith)

module _ (sdk : Sdk) (r : Redis) (c : Connected r) (rest_level : Text → Option ℤ)
    (decoders : Decoders) (config : Map ℤ ChainConfig) (app : App) (bytes : HashesToBytes sdk) where
  open r use {Store, view}

  -- Runs of handleNewOrder on the next messages, one after the other.
  pub data Handled : System Store → System Store → Type 0 where
    none_more : {s : System Store} → Handled s s
    one_more :
        {s t : System Store} (fuel : ℕ) (topic : Text) (writes : List Write) (u : Store)
        → get_elem? (view s.store).sent s.heard ≡ some (channel_new_order, topic)
        → handle_new_order r s.hub.subs fuel topic s.store ≡ some (writes, u)
        → Handled (record s { store = u; heard = suc s.heard }) t
        → Handled s t

  -- All messages are handled, and all stacks are empty.
  pub record Settles (s : System Store) : Type 0 where
    pub final : System Store
    pub handled : Handled s final
    pub received : final.heard ≡ length (view final.store).sent
    pub empty : (k : Text) → items ((view final.store).key k) ≡ []

  abbrev Sound : System Store → Type 0
  Sound = IsSound sdk r c rest_level decoders config app bytes

  all_heard :
      (s : System Store)
      → Sound s
      → s.heard ≡ length (view s.store).sent
      → (k : Text) → items ((view s.store).key k) ≡ []
  all_heard s sound done k = elim (ids_cases (items ((view s.store).key k))) [
    | inl empty ↦ empty
    | inr some_id ↦
        let (i, later, at) = sound.covered.waits k some_id in
        let before = get_elem?-lt (view s.store).sent i (channel_new_order, k) at in
        absurd (omega (arith, done, later, before))
  ]

  settle :
      DecodesFits decoders
      → (n : ℕ) (s : System Store) → s.heard + n ≡ length (view s.store).sent
      → Sound s
      → Settles s
  settle fits zero s left sound =
      let done : s.heard ≡ length (view s.store).sent = omega (arith, left) in
      record { final = s; handled = none_more; received = done; empty = all_heard s sound done }
  settle fits (suc n) s left sound =
      let sent = (view s.store).sent in
      let (m, at) = get_elem?-some sent s.heard (omega (arith, left)) in
      let ours = sound.covered.ours s.heard m (omega arith) at in
      let message : get_elem? sent s.heard ≡ some (channel_new_order, m.1) =
        at ∙ ap (λ channel. some (channel, m.1)) ours in
      let fuel = suc (length (items ((view s.store).key m.1))) in
      let d = handle_new_order-Drained r c s.hub.subs fuel m.1 s.store (omega arith) in
      let rest =
        settle fits n (record s { store = d.final; heard = suc s.heard })
          (omega (arith, left, ap length d.silent))
          (Step-IsSound sdk r c rest_level decoders config app bytes fits
            (deliver fuel m.1 _ d.final message d.returned) sound) in
      record {
        final = rest.final;
        handled = one_more fuel m.1 _ d.final message d.returned rest.handled;
        received = rest.received;
        empty = rest.empty;
      }

  -- On a Redis whose answers all arrive, with a hash that is made of bytes and a decoder that
  -- refuses numbers which their field cannot hold: from every state that the system reaches, runs
  -- of handleNewOrder on the messages that are still to be received, one after the other, each of
  -- which ends, lead to a state in which all messages are received and every stack is empty.
  pub Reach-Settles :
      DecodesFits decoders
      → {s : System Store} → Reach sdk r rest_level decoders config app s
      → Settles s
  Reach-Settles fits {s} reached =
      let sound = Reach-IsSound sdk r c rest_level decoders config app bytes fits reached in
      let (n, left) = difference s.heard (length (view s.store).sent) sound.covered.past in
      settle fits n s left sound
