-- ===== src/System/Turns/Safe/Commands.antt =====
-- GetVip3Level, PubOrder and OrderSubmission, command by command, keep to what is safe.
use d8x_broker_server.Base.{
  arith, ℕ, refl, List, [], ◌∷◌, Option, none, some, Map, ℤ, Option-cases, inl, inr,
}
use d8x_broker_server.Text.{Text, to_lower}
use d8x_broker_server.Sdk.{Sdk}
use d8x_broker_server.Redis.Documented.{Reply, ok, err, Fault}
use d8x_broker_server.Decimal.{atoi}
use d8x_broker_server.Redis.Prog.{expire, done, ◌>>=◌, ask}
use d8x_broker_server.Orders.{ApiOrderSig, SubmitError, order_fields, stack_name, expiry_hdata_sec}
use d8x_broker_server.Pen.{SignaturePen}
use d8x_broker_server.Fee.{FeeLevels}
use d8x_broker_server.System.Keys.{IsTopic}
use d8x_broker_server.System.Queue.{Issued-IsTopic}
use d8x_broker_server.System.Tasks.{
  announce_task, found_task, submission_task, store_task, fetch_task, level_task, fee_task,
}
use d8x_broker_server.System.Turns.Safe.{Stores, Found, IsSafe, bind-IsSafe}

module _ (sdk : Sdk) (pen : SignaturePen) where
  pub announce_task-IsSafe :
      (stack id : Text) → IsTopic stack → IsSafe sdk pen (announce_task stack id)
  unfolding announce_task
  announce_task-IsSafe stack id topic = (topic, λ pushed _. (refl, (refl, λ reply _. (tt, tt))))

  found_task-IsSafe :
      (id : Text) (reply : Reply (Map Text Text))
      → Found sdk pen id reply
      → IsSafe sdk pen (found_task id reply)
  unfolding found_task
  found_task-IsSafe id (err e) found = tt
  found_task-IsSafe id (ok []) found = tt
  found_task-IsSafe id (ok (f ∷ fs)) found =
      announce_task-IsSafe (stack_name (f ∷ fs)) id (Issued-IsTopic sdk pen id (f ∷ fs) found)

  next_id-IsSafe :
      (ids : List Text) (outcome : Option SubmitError)
      → IsSafe sdk pen (submission_task ids)
      → IsSafe sdk pen (elim outcome [ some e ↦ done (some e) | none ↦ submission_task ids ])
  next_id-IsSafe ids none rest = rest
  next_id-IsSafe ids (some e) rest = tt

  pub submission_task-IsSafe : (ids : List Text) → IsSafe sdk pen (submission_task ids)
  unfolding submission_task
  submission_task-IsSafe [] = tt
  submission_task-IsSafe (id ∷ ids) =
      let rest = submission_task-IsSafe ids in
      (
        tt,
        λ reply found. (
          tt,
          bind-IsSafe sdk pen (found_task id reply) _ (found_task-IsSafe id reply found)
              (λ outcome. next_id-IsSafe ids outcome rest),
        ),
      )

  pub store_task-IsSafe :
      (o : ApiOrderSig) (id : Text) (chain_id : ℤ)
      → Stores sdk pen id (order_fields o chain_id)
      → IsSafe sdk pen (store_task o id chain_id)
  unfolding store_task
  store_task-IsSafe o id chain_id stores = (stores, stored_reply)
    where
      stored_reply :
          (reply : Reply (Unit {0}))
          → Unit {0}
          → Unit {0}
            × IsSafe sdk pen {A = Option Fault} (elim reply [
              | err e ↦ done (some e)
              | ok _ ↦ ask (expire id expiry_hdata_sec) >>= λ _. done none
            ])
      stored_reply (err e) _ = (tt, tt)
      stored_reply (ok _) _ = (tt, (omega arith, λ _ _. (tt, tt)))

  fetch_task-IsSafe :
      (rest_level : Text → Option ℤ) (trader : Text) → IsSafe sdk pen (fetch_task rest_level trader)
  unfolding fetch_task
  fetch_task-IsSafe rest_level trader = elim (Option-cases (rest_level trader)) [
    | inl missing ↦ rw (missing, fetch_task) tt
    | inr (lvl, found) ↦
        rw (found, fetch_task) ((trader, refl), λ _ _. (tt, (omega arith, λ _ _. (tt, tt))))
  ]

  level_task-IsSafe :
      (rest_level : Text → Option ℤ) (trader : Text) → IsSafe sdk pen (level_task rest_level trader)
  unfolding level_task
  level_task-IsSafe rest_level trader = (tt, cached)
    where
      cached :
          (reply : Reply Text)
          → Unit {0}
          → Unit {0}
            × IsSafe sdk pen {A = ℤ} (elim reply [
              | err e ↦ fetch_task rest_level (to_lower trader)
              | ok lvl ↦ done (atoi lvl).0
            ])
      cached (err e) _ = (tt, fetch_task-IsSafe rest_level (to_lower trader))
      cached (ok lvl) _ = (tt, tt)

  pub fee_task-IsSafe :
      (rest_level : Text → Option ℤ) (base : ℕ) (levels : Option FeeLevels) (trader : Text)
      (chain_id : ℤ)
      → IsSafe sdk pen (fee_task rest_level base levels trader chain_id)
  unfolding fee_task
  fee_task-IsSafe rest_level base none trader chain_id = tt
  fee_task-IsSafe rest_level base (some m) trader chain_id =
      bind-IsSafe sdk pen (level_task rest_level (to_lower trader)) _
        (level_task-IsSafe rest_level (to_lower trader)) (λ _. tt)
