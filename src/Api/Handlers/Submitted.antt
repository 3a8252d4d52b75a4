-- ===== src/Api/Handlers/Submitted.antt =====
-- OrdersSubmitted: what the response says of the announcements.
use d8x_broker_server.Base.{◌≡◌, refl, List, [], ◌∷◌, Option, none, some, map, ℤ, ◌⊎◌, inl, inr}
use d8x_broker_server.Text.{Text, codes, trim_prefix}
use d8x_broker_server.Redis.{Redis}
use d8x_broker_server.Redis.Connected.{Connected}
use d8x_broker_server.Sdk.{Sdk}
use d8x_broker_server.Orders.{SubmitError}
use d8x_broker_server.Orders.Announce.{Announced}
use d8x_broker_server.Orders.Outcome.{Stopped, Outcome, order_submission-Outcome}
use d8x_broker_server.Api.Handlers.{
  Response, success, bad_request, problem, wrong_arguments, submit_failed, orders_submitted,
}

-- The ids as they are looked up: without a leading `0x`.
abbrev pub bare : List Text → List Text
bare ids = map (λ t. trim_prefix t (codes "0x")) ids

module _ (sdk : Sdk) (r : Redis) (c : Connected r) (rest_level : Text → Option ℤ) where
  -- A request with ids: all were announced, or the response names the error at the first id that
  -- was not. A request without ids is refused, and nothing changes.
  abbrev pub Responded : Option (List Text) → r.Store → Response (Unit {0}) × r.Store → Type 0
  Responded none s q = q ≡ (bad_request wrong_arguments, s)
  Responded (some []) s q = q ≡ (bad_request wrong_arguments, s)
  Responded (some (id ∷ ids)) s (answer, t) =
      ((answer ≡ success tt) × Announced (r.view s) (bare (id ∷ ids)) (r.view t))
      ⊎ ((e : SubmitError) × (answer ≡ problem (submit_failed e))
          × Stopped (r.view s) (bare (id ∷ ids)) e (r.view t))

  responded :
      (id : Text) (ids : List Text) (s t : r.Store) (e : Option SubmitError)
      → Outcome (r.view s) (bare (id ∷ ids)) e (r.view t)
      → Responded
          (some (id ∷ ids))
          s
          (elim e [ none ↦ (success tt, t) | some f ↦ (problem (submit_failed f), t) ])
  responded id ids s t none h = inl (refl, h)
  responded id ids s t (some e) h = inr (e, refl, h)

  -- On a Redis whose answers all arrive: OrdersSubmitted refuses a request that does not parse or
  -- has no ids, and changes nothing. Otherwise it answers success, and all ids without their
  -- leading `0x` were announced; or it answers with an error, and the ids were announced up to
  -- the first one without an order.
  pub orders_submitted-Responded :
      (req : Option (List Text)) (s : r.Store)
      → Responded req s (orders_submitted sdk r rest_level req s)
  unfolding orders_submitted
  orders_submitted-Responded none s = refl
  orders_submitted-Responded (some []) s = refl
  orders_submitted-Responded (some (id ∷ ids)) s =
      responded id ids s _ _ (order_submission-Outcome r c (bare (id ∷ ids)) s)
