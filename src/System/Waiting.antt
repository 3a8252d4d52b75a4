-- ===== src/System/Waiting.antt =====
-- The messages on the channel of new orders that the websocket service has not received yet: every
-- stack that is not empty has one.
use d8x_broker_server.Base.{
  ℕ, zero, suc, ◌≤◌, ◌<◌, ◌≡◌, ◌≢◌, refl, sym, ◌∙◌, ◌⊎◌, ap, subst, inl, inr, List, [], ◌∷◌, ◌++◌,
  some, ◌==◌, arith, length, length-append, get_elem?, Bool-cases, Option-cases, ℤ,
}
use d8x_broker_server.Text.{Text, text_eq, text_beq_iff}
use d8x_broker_server.Redis.{Redis}
use d8x_broker_server.Redis.Documented.{Value, absent, str, hash, list, View, update, fields_of}
use d8x_broker_server.Redis.Connected.{Connected}
use d8x_broker_server.Orders.{ApiOrderSig, channel_new_order, order_submission, submit_one}
use d8x_broker_server.Orders.Store.{Holds, Holds-ne-nil, Published}
use d8x_broker_server.Orders.Submit.{
  stored, stack_of, items, announced, submit_view, submit_one-view,
}
use d8x_broker_server.Orders.Announce.{lpush-key, lpush-sent}

module _ {ℓ} {A : Type ℓ} where
  pub get_elem?-before :
      (xs ys : List A) (i : ℕ) (x : A) → get_elem? xs i ≡ some x → get_elem? (xs ++ ys) i ≡ some x
  get_elem?-before [] ys i x h = cc h
  get_elem?-before (y ∷ xs) ys zero x h = h
  get_elem?-before (y ∷ xs) ys (suc i) x h = get_elem?-before xs ys i x h

  pub get_elem?-last : (xs : List A) (x : A) → get_elem? (xs ++ x ∷ []) (length xs) ≡ some x
  get_elem?-last [] x = refl
  get_elem?-last (y ∷ xs) x = get_elem?-last xs x

  get_elem?-append :
      (xs : List A) (x : A) (i : ℕ) (y : A)
      → get_elem? (xs ++ x ∷ []) i ≡ some y
      → (get_elem? xs i ≡ some y) ⊎ (x ≡ y)
  get_elem?-append [] x zero y h = inr (cc h)
  get_elem?-append [] x (suc i) y h = cc h
  get_elem?-append (z ∷ xs) x zero y h = inl h
  get_elem?-append (z ∷ xs) x (suc i) y h = get_elem?-append xs x i y h

  pub get_elem?-lt : (xs : List A) (i : ℕ) (x : A) → get_elem? xs i ≡ some x → i < length xs
  get_elem?-lt [] i x h = cc h
  get_elem?-lt (y ∷ xs) zero x h = omega arith
  get_elem?-lt (y ∷ xs) (suc i) x h = omega (arith, get_elem?-lt xs i x h)

-- A message with the name of the stack, behind the first `heard` messages.
abbrev pub Waits : ℕ → List (Text × Text) → Text → Type 0
Waits heard sent k = (i : ℕ) × (heard ≤ i) × (get_elem? sent i ≡ some (channel_new_order, k))

-- The messages behind the first `heard` ones are on the channel of new orders.
abbrev pub IsOurs : ℕ → List (Text × Text) → Type 0
IsOurs heard sent =
    (i : ℕ) (m : Text × Text) → heard ≤ i → get_elem? sent i ≡ some m → m.0 ≡ channel_new_order

pub record IsCovered (heard : ℕ) (v : View) : Type 0 where
  pub past : heard ≤ length v.sent
  pub waits : (k : Text) → items (v.key k) ≢ [] → Waits heard v.sent k
  pub ours : IsOurs heard v.sent

-- A change that sends nothing and fills no stack.
pub quiet-IsCovered :
    (heard : ℕ) (v w : View)
    → w.sent ≡ v.sent
    → ((k : Text) → items (w.key k) ≢ [] → items (v.key k) ≢ [])
    → IsCovered heard v
    → IsCovered heard w
quiet-IsCovered heard v w same fewer c = record {
  past = subst (λ xs. heard ≤ length xs) (sym same) c.past;
  waits = λ k some_id. subst (λ xs. Waits heard xs k) (sym same) (c.waits k (fewer k some_id));
  ours = subst (IsOurs heard) (sym same) c.ours;
}

-- A value without ids fills no stack.
pub update-fewer :
    (v : View) (k : Text) (x : Value)
    → items x ≡ []
    → (j : Text) → items (update k x v.key j) ≢ []
    → items (v.key j) ≢ []
update-fewer v k x empty j some_id = elim (Bool-cases (k == j)) [
  | inl same ↦ absurd (some_id (rw same empty))
  | inr differ ↦ rw differ at some_id
]

pub update-IsCovered :
    (heard : ℕ) (v : View) (k : Text) (x : Value)
    → items x ≡ []
    → IsCovered heard v
    → IsCovered heard (record v { key = update k x v.key })
update-IsCovered heard v k x empty =
    quiet-IsCovered heard v (record v { key = update k x v.key }) refl (update-fewer v k x empty)

pub order_items :
    (x : Value) (o : ApiOrderSig) (chain_id : ℤ) → Holds (stored x) o chain_id → items x ≡ []
order_items absent o chain_id h = refl
order_items (str x) o chain_id h = refl
order_items (hash m) o chain_id h = refl
order_items (list ids) o chain_id h = absurd (Holds-ne-nil [] o chain_id h refl)

-- PubOrder fills no stack.
pub Published-fewer :
    (v w : View) (o : ApiOrderSig) (id : Text) (chain_id : ℤ)
    → Published v o id chain_id w
    → (k : Text) → items (w.key k) ≢ []
    → items (v.key k) ≢ []
Published-fewer v w o id chain_id p k some_id = elim (Bool-cases (k == id)) [
  | inl same ↦
      let at : k ≡ id = (text_beq_iff k id).0 same in
      absurd (some_id (ap (λ j. items (w.key j)) at ∙ order_items (w.key id) o chain_id p.holds))
  | inr differ ↦
      let kept = p.others k (λ e. cc (differ, (text_beq_iff k id).1 e)) in
      subst (λ x. items x ≢ []) kept some_id
]

pub Published-IsCovered :
    (heard : ℕ) (v w : View) (o : ApiOrderSig) (id : Text) (chain_id : ℤ)
    → Published v o id chain_id w
    → IsCovered heard v
    → IsCovered heard w
Published-IsCovered heard v w o id chain_id p =
    quiet-IsCovered heard v w p.sent (Published-fewer v w o id chain_id p)

-- The stack that an order is pushed on is published too.
announced-IsCovered :
    (heard : ℕ) (v : View) (id : Text) → IsCovered heard v → IsCovered heard (announced v id)
announced-IsCovered heard v id c =
    let stack = stack_of v id in
    let before = lpush-sent stack id v in
    record {
      past =
          rw before (omega (arith, length-append v.sent ((channel_new_order, stack) ∷ []), c.past));
      waits = λ k some_id. elim (Bool-cases (stack == k)) [
        | inl same ↦
            let at : stack ≡ k = (text_beq_iff stack k).0 same in
            rw before (
              length v.sent,
              c.past,
              get_elem?-last v.sent (channel_new_order, stack)
                  ∙ ap (λ j. some (channel_new_order, j)) at,
            )
        | inr differ ↦
            let (i, later, at) = c.waits k (rw (lpush-key stack id k v, differ) at some_id) in
            rw before (i, later, get_elem?-before v.sent ((channel_new_order, stack) ∷ []) i _ at)
      ];
      ours = rw before (λ i m later at.
          elim (get_elem?-append v.sent (channel_new_order, stack) i m at) [
            | inl old ↦ c.ours i m later old
            | inr new ↦ ap (λ p. p.0) (sym new)
          ]);
    }

submit_view-IsCovered :
    (heard : ℕ) (v : View) (id : Text) (x : Value)
    → IsCovered heard v
    → IsCovered heard (submit_view id (fields_of x) v).1
submit_view-IsCovered heard v id absent c = c
submit_view-IsCovered heard v id (str x) c = c
submit_view-IsCovered heard v id (hash []) c = c
submit_view-IsCovered heard v id (hash (f ∷ fs)) c = announced-IsCovered heard v id c
submit_view-IsCovered heard v id (list ids) c = c

module _ (r : Redis) (c : Connected r) (heard : ℕ) where
  open r use {Store, view}

  submit_one-IsCovered :
      (id : Text) (s : Store)
      → IsCovered heard (view s)
      → IsCovered heard (view (submit_one r id s).1)
  submit_one-IsCovered id s covered =
      subst (IsCovered heard) (sym (submit_one-view r c id s).1)
        (submit_view-IsCovered heard (view s) id ((view s).key id) covered)

  pub order_submission-IsCovered :
      (ids : List Text) (s : Store)
      → IsCovered heard (view s)
      → IsCovered heard (view (order_submission r ids s).1)
  unfolding order_submission
  order_submission-IsCovered [] s covered = covered
  order_submission-IsCovered (id ∷ ids) s covered =
      let after = submit_one-IsCovered id s covered in
      elim (Option-cases (submit_one r id s).0) [
        | inl going ↦
            rw (going, order_submission)
              (order_submission-IsCovered ids (submit_one r id s).1 after)
        | inr (e, failed) ↦ rw (failed, order_submission) after
      ]

-- The first message that was not received is received, and its stack is emptied.
pub heard-IsCovered :
    (heard : ℕ) (v w : View) (topic : Text)
    → get_elem? v.sent heard ≡ some (channel_new_order, topic)
    → items (w.key topic) ≡ []
    → ((k : Text) → k ≢ topic → w.key k ≡ v.key k)
    → w.sent ≡ v.sent
    → IsCovered heard v
    → IsCovered (suc heard) w
heard-IsCovered heard v w topic next empty others silent c = record {
  past = rw silent (omega (arith, get_elem?-lt v.sent heard (channel_new_order, topic) next));
  waits = λ k some_id.
      let other : k ≢ topic = λ e. some_id (ap (λ j. items (w.key j)) e ∙ empty) in
      let (i, later, at) = c.waits k (subst (λ x. items x ≢ []) (others k other) some_id) in
      let passed : heard ≢ i = λ e. other (cc (at, ap (get_elem? v.sent) e, next)) in
      rw silent (i, omega (arith, passed, later), at);
  ours = rw silent (λ i m later at. c.ours i m (omega (arith, later)) at);
}
