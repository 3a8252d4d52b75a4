-- ===== src/Api/Handlers/Orders.antt =====
-- SignOrder: what a signed response says of the request, and when the handler crashes.
use d8x_broker_server.Base.{
  ℕ, ◌≤◌, ◌≡◌, ◌≢◌, ◌⊎◌, inl, inr, refl, sym, subst, ap, ◌∙◌, Option, none, some, arith, length, ℤ,
  nat_eq,
}
use d8x_broker_server.Text.{Text, text_eq}
use d8x_broker_server.Sdk.{Sdk}
use d8x_broker_server.Redis.{Redis}
use d8x_broker_server.Redis.Connected.{Connected}
use d8x_broker_server.Orders.{ApiOrderSig, ApiBrokerOrderSignatureReq, CheckError, check_data}
use d8x_broker_server.Orders.Store.{check_data-none, Published, TakesHash}
use d8x_broker_server.Pen.{
  ApiBrokerSignatureRes, Result, ok, err, get_broker_order_signature_response,
}
use d8x_broker_server.Pen.Signing.{Signed, Answered, broker_order_response-Answered}
use d8x_broker_server.Fee.{Charge, charged, panics, get_broker_fee_tbps}
use d8x_broker_server.Api.{App}
use d8x_broker_server.Api.Handlers.{
  Response, success, crashed, bad_request, check_failed, signed_response, with_broker_addr,
  sign_with_fee, sign_checked, sign_order,
}

module _ (sdk : Sdk) (r : Redis) (c : Connected r) (rest_level : Text → Option ℤ) (a : App)
    (req : ApiBrokerOrderSignatureReq) (s : r.Store) where
  open sdk use {eth}

  -- The request that is checked and signed.
  abbrev pub checked : ApiBrokerOrderSignatureReq
  checked = with_broker_addr sdk r rest_level a req

  -- The fee for the trader, and the store behind the look-up of the level.
  abbrev pub fee : Charge × r.Store
  fee =
      get_broker_fee_tbps r rest_level a.broker_fee_tbps a.broker_fee_lvls_tbps
        checked.order.trader_addr checked.chain_id s

  abbrev pub signs : Response ApiBrokerSignatureRes × r.Store
  signs = sign_order sdk r rest_level a (some req) s

  -- The addresses that pass the check are long enough for the log line.
  sliceable :
      check_data eth checked ≡ none
      → (8 ≤ length checked.order.trader_addr) × (8 ≤ length checked.order.broker_addr)
  sliceable h = let known = (check_data-none eth checked).0 h in omega arith

  checked_step :
      check_data eth checked ≡ none → signs ≡ sign_with_fee sdk r rest_level a checked fee.0 fee.1
  unfolding sign_order sign_checked
  checked_step h = ground (arith, sliceable h)

  refused_step :
      (e : CheckError) → check_data eth checked ≡ some e → signs ≡ (bad_request (check_failed e), s)
  unfolding sign_order
  refused_step e h = ground arith

  -- The order with the fee, whatever fee the request named, and what the pen makes of it.
  abbrev pub with_fee : ℕ → ApiOrderSig
  with_fee x = record (checked.order) { broker_fee_tbps = x }

  abbrev pub answer : ℕ → Result ApiBrokerSignatureRes × r.Store
  answer x = get_broker_order_signature_response sdk r a.pen (with_fee x) checked.chain_id fee.1

  -- What the handler did: it refused the request and changed nothing, it crashed on the fee, or it
  -- went on with a fee.
  abbrev pub Went : Response ApiBrokerSignatureRes × r.Store → Type 0
  Went q =
      ((e : CheckError) × (check_data eth checked ≡ some e)
        × (q ≡ (bad_request (check_failed e), s)))
      ⊎ ((check_data eth checked ≡ none) × (fee.0 ≡ panics) × (q ≡ (crashed, fee.1)))
      ⊎ ((check_data eth checked ≡ none)
          × ((x : ℕ) × (fee.0 ≡ charged x)
              × (q ≡ (signed_response sdk r rest_level (answer x).0, (answer x).1))))

  fee_cases :
      (f : Charge)
      → check_data eth checked ≡ none
      → fee.0 ≡ f
      → Went (sign_with_fee sdk r rest_level a checked f fee.1)
  unfolding sign_with_fee
  fee_cases panics h e = inr (inl (h, e, refl))
  fee_cases (charged x) h e = inr (inr (h, (x, e, refl)))

  pub check_cases : (o : Option CheckError) → check_data eth checked ≡ o → Went signs
  check_cases (some e) h = inl (e, h, refused_step e h)
  check_cases none h = subst Went (sym (checked_step h)) (fee_cases fee.0 h refl)

  never_crashes : (m : Result ApiBrokerSignatureRes) → signed_response sdk r rest_level m ≢ crashed
  unfolding signed_response
  never_crashes (ok res) h = cc
  never_crashes (err e) h = cc

  success_of_ok :
      (m : Result ApiBrokerSignatureRes) (res : ApiBrokerSignatureRes)
      → signed_response sdk r rest_level m ≡ success res
      → m ≡ ok res
  unfolding signed_response
  success_of_ok (ok q) res h = ground arith
  success_of_ok (err e) res h = cc

  -- On a Redis whose answers all arrive, a request that parses can make SignOrder panic only if
  -- it passes CheckData and the fee computation panics: the slices of the log line are always in
  -- range.
  pub sign_order-crashed : signs.0 ≡ crashed → (check_data eth checked ≡ none) × (fee.0 ≡ panics)
  sign_order-crashed h = elim (check_cases (check_data eth checked) refl) [
    | inl (e, _, q) ↦ cc (ap (λ p. p.0) q, h)
    | inr (inl (checks, e, _)) ↦ (checks, e)
    | inr (inr (checks, (x, e, q))) ↦
        absurd (never_crashes (answer x).0 (sym (ap (λ p. p.0) q) ∙ h))
  ]

  -- The request passed the checks, and its order was signed with the fee of the trader: the fee
  -- that the request names is overwritten. The signed order is stored under its id.
  pub record SignedWith (res : ApiBrokerSignatureRes) : Type 0 where
    pub checks : check_data eth checked ≡ none
    pub charge : fee.0 ≡ charged res.order.broker_fee_tbps
    pub signed : Signed sdk a.pen (with_fee res.order.broker_fee_tbps) checked.chain_id res
    pub stored :
        TakesHash ((r.view fee.1).key res.order_id)
        → Published (r.view fee.1) res.order res.order_id checked.chain_id (r.view signs.1)

  Answered-SignedWith :
      (x : ℕ) (res : ApiBrokerSignatureRes) (m : Result ApiBrokerSignatureRes × r.Store)
      → check_data eth checked ≡ none
      → fee.0 ≡ charged x
      → m.0 ≡ ok res
      → signs.1 ≡ m.1
      → Answered sdk a.pen (with_fee x) checked.chain_id r fee.1 m
      → SignedWith res
  Answered-SignedWith x res (err e, t) checks paid h ends ans = cc
  Answered-SignedWith x res (ok q, t) checks paid h ends ans =
      let same : q ≡ res = cc h in
      let fee_kept : q.order.broker_fee_tbps ≡ x = ap (λ o. o.broker_fee_tbps) ans.0.fields in
      let known : SignedWith q = record {
        checks = checks;
        charge = paid ∙ ap charged (sym fee_kept);
        signed = subst (λ y. Signed sdk a.pen (with_fee y) checked.chain_id q) (sym fee_kept) ans.0;
        stored = λ free.
            subst (λ u. Published (r.view fee.1) q.order q.order_id checked.chain_id (r.view u))
              (sym ends) (ans.1 free);
      } in
      subst SignedWith same known

  -- On a Redis whose answers all arrive: if SignOrder answers a request with a signed order, then
  -- the request, with the broker address replaced where it has not the length 20 or is zero,
  -- passes CheckData; the fee of the order is what getBrokerFeeTbps charges the trader, whatever
  -- fee the request named; the order is signed as `Signed` says, for the chain of the request;
  -- and if the order id's key was free or held a hash, it now holds the order, and no other key
  -- has changed since the fee was looked up.
  pub sign_order-SignedWith : (res : ApiBrokerSignatureRes) → signs.0 ≡ success res → SignedWith res
  sign_order-SignedWith res h = elim (check_cases (check_data eth checked) refl) [
    | inl (e, _, q) ↦ cc (ap (λ p. p.0) q, h)
    | inr (inl (checks, e, q)) ↦ cc (ap (λ p. p.0) q, h)
    | inr (inr (checks, (x, e, q))) ↦
        Answered-SignedWith x res (answer x) checks e
          (success_of_ok (answer x).0 res (sym (ap (λ p. p.0) q) ∙ h)) (ap (λ p. p.1) q)
          (broker_order_response-Answered sdk r c a.pen (with_fee x) checked.chain_id fee.1)
  ]
