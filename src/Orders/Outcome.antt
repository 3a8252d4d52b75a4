-- ===== src/Orders/Outcome.antt =====
-- What OrderSubmission has done to Redis when it returns, with and without an error.
use d8x_broker_server.Base.{
  ◌≡◌, refl, sym, ◌∙◌, ap, subst, ◌⊎◌, inl, inr, List, [], ◌∷◌, ◌++◌, Option, none, some, All, Map,
}
use d8x_broker_server.Text.{Text}
use d8x_broker_server.Redis.{Redis}
use d8x_broker_server.Redis.Documented.{
  ok, refused, Value, absent, str, hash, list, View, fields_of,
}
use d8x_broker_server.Redis.Connected.{Connected}
use d8x_broker_server.Orders.{
  SubmitError, could_not_get, could_not_find, submit_one, order_submission,
}
use d8x_broker_server.Orders.Submit.{stored, announced, submit_view, submit_one-view}
use d8x_broker_server.Orders.Announce.{
  HasOrder, announced-stored, Announced, Announced-nil, Announced-cons,
}

-- The list was announced up to an id that has no order.
pub record Stopped (v : View) (ids : List Text) (e : SubmitError) (w : View) : Type 0 where
  pub before : List Text
  pub at : Text
  pub behind : List Text
  pub parts : ids ≡ before ++ (at ∷ behind)
  pub done : Announced v before w
  pub reason : (stored (v.key at) ≡ []) × ((e ≡ could_not_find at) ⊎ (e ≡ could_not_get at refused))

abbrev pub Outcome : View → List Text → Option SubmitError → View → Type 0
Outcome v ids none w = Announced v ids w
Outcome v ids (some e) w = Stopped v ids e w

-- One round: the id is announced, or there is a reason to stop and nothing has changed.
abbrev Round : View → Text → Option SubmitError → View → Type 0
Round v id none w = HasOrder v id × (w ≡ announced v id)
Round v id (some e) w =
    (w ≡ v) × (stored (v.key id) ≡ []) × ((e ≡ could_not_find id) ⊎ (e ≡ could_not_get id refused))

hash_Round :
    (v : View) (id : Text) (m : Map Text Text)
    → stored (v.key id) ≡ m
    → Round v id (submit_view id (ok m) v).0 (submit_view id (ok m) v).1
hash_Round v id [] e = (refl, e, inl refl)
hash_Round v id (f ∷ fs) e = (λ n. cc (e, n), refl)

submit_view-Round :
    (v : View) (id : Text) (x : Value)
    → v.key id ≡ x
    → Round v id (submit_view id (fields_of x) v).0 (submit_view id (fields_of x) v).1
submit_view-Round v id absent e = hash_Round v id [] (ap stored e)
submit_view-Round v id (str x) e = (refl, ap stored e, inr refl)
submit_view-Round v id (hash m) e = hash_Round v id m (ap stored e)
submit_view-Round v id (list xs) e = (refl, ap stored e, inr refl)

Stopped-cons :
    (v : View) (id : Text) (ids : List Text) (e : SubmitError) (w : View)
    → HasOrder v id
    → Stopped (announced v id) ids e w
    → Stopped v (id ∷ ids) e w
Stopped-cons v id ids e w h s = record {
  before = id ∷ s.before;
  at = s.at;
  behind = s.behind;
  parts = ap (◌∷◌ id) s.parts;
  done = Announced-cons v id s.before w h s.done;
  reason = (sym (announced-stored v id s.at) ∙ s.reason.0, s.reason.1);
}

Outcome-cons :
    (v : View) (id : Text) (ids : List Text) (o : Option SubmitError) (w : View)
    → HasOrder v id
    → Outcome (announced v id) ids o w
    → Outcome v (id ∷ ids) o w
Outcome-cons v id ids none w h a = Announced-cons v id ids w h a
Outcome-cons v id ids (some e) w h s = Stopped-cons v id ids e w h s

Stopped-nil :
    (v : View) (id : Text) (ids : List Text) (e : SubmitError) (w : View)
    → Round v id (some e) w
    → Stopped v (id ∷ ids) e w
Stopped-nil v id ids e w (same, missing, why) = record {
  before = [];
  at = id;
  behind = ids;
  parts = refl;
  done = rw same (Announced-nil v);
  reason = (missing, why);
}

module _ (r : Redis) (c : Connected r) where
  open r use {Store, view}

  submit_one-Round :
      (id : Text) (s : Store) → Round (view s) id (submit_one r id s).0 (view (submit_one r id s).1)
  submit_one-Round id s =
      let known = submit_one-view r c id s in
      rw (known.0, known.1) (submit_view-Round (view s) id ((view s).key id) refl)

  loop-Outcome :
      (id : Text) (ids : List Text) (v : View) (o : Option SubmitError) (t : Store)
      → Round v id o (view t)
      → Outcome (view t) ids (order_submission r ids t).0 (view (order_submission r ids t).1)
      → let q : Option SubmitError × Store = elim o [
        | some e ↦ (some e, t)
        | none ↦ order_submission r ids t
      ] in
        Outcome v (id ∷ ids) q.0 (view q.1)
  loop-Outcome id ids v none t (h, e) ih = Outcome-cons v id ids _ _ h (rw (← e) ih)
  loop-Outcome id ids v (some e) t round ih = Stopped-nil v id ids e (view t) round

  -- On a Redis whose answers all arrive, OrderSubmission without an error has announced all ids:
  -- each has an order, each is pushed on the stack of its perpetual and chain, where that key is
  -- free or holds a list, the stacks are published in the order of the ids, and the stored orders
  -- are unchanged. With an error it has announced the ids before the first one that has no order,
  -- and the error names that id.
  pub order_submission-Outcome :
      (ids : List Text) (s : Store)
      → Outcome (view s) ids (order_submission r ids s).0 (view (order_submission r ids s).1)
  unfolding order_submission
  order_submission-Outcome [] s = Announced-nil (view s)
  order_submission-Outcome (id ∷ ids) s =
      loop-Outcome id ids (view s) (submit_one r id s).0 (submit_one r id s).1
        (submit_one-Round id s) (order_submission-Outcome ids (submit_one r id s).1)

  All-at :
      (v : View) (xs : List Text) (a : Text) (ys : List Text)
      → All (HasOrder v) (xs ++ (a ∷ ys))
      → HasOrder v a
  All-at v [] a ys h = h.0
  All-at v (x ∷ xs) a ys h = All-at v xs a ys h.1

  All-Announced :
      (v : View) (ids : List Text) (e : Option SubmitError) (w : View)
      → All (HasOrder v) ids
      → Outcome v ids e w
      → (e ≡ none) × Announced v ids w
  All-Announced v ids none w h a = (refl, a)
  All-Announced v ids (some e) w h s =
      absurd (All-at v s.before s.at s.behind (subst (All (HasOrder v)) s.parts h) s.reason.0)

  -- On a Redis whose answers all arrive, if each id has a stored order, OrderSubmission has no
  -- error and has announced all ids.
  pub order_submission-All :
      (ids : List Text) (s : Store)
      → All (HasOrder (view s)) ids
      → ((order_submission r ids s).0 ≡ none)
        × Announced (view s) ids (view (order_submission r ids s).1)
  order_submission-All ids s h =
      All-Announced (view s) ids (order_submission r ids s).0 (view (order_submission r ids s).1) h
        (order_submission-Outcome ids s)
