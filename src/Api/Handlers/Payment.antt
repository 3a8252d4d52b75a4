-- ===== src/Api/Handlers/Payment.antt =====
-- SignPayment: for whom a payment is signed.
use d8x_broker_server.Base.{
  ℕ, ◌≡◌, ◌≢◌, refl, subst, ap, ◌∙◌, ◌⊎◌, true, not, List, [], ◌∷◌, Option, some, arith, lookup,
  int_eq,
}
use d8x_broker_server.Text.{Text, text_eq, text_beq_iff, equal_fold}
use d8x_broker_server.Eth.{Address, zero_address}
use d8x_broker_server.Sdk.{Sdk, BrokerPaySignatureReq}
use d8x_broker_server.Pen.{
  Result, ok, err, config_at, recover_payment_signer_addr, get_broker_payment_signature_response,
  or_fail, is_zero,
}
use d8x_broker_server.Pen.Signing.{>>=-eq-ok, or_fail-eq-ok, refuse-eq-ok}
use d8x_broker_server.Api.{App}
use d8x_broker_server.Api.Token.{Approval, approved, failed, approve_token}
use d8x_broker_server.Api.Handlers.{
  success, contains, find_executor, payment_response, sign_recovered, sign_payment,
}

-- The address stands in the list.
abbrev pub Listed : Address → List Address → Type 0
Listed a [] = ⊥
Listed a (b ∷ bs) = (b ≡ a) ⊎ Listed a bs

contains-Listed :
    (sdk : Sdk) (xs : List Address) (a : Address) → contains sdk xs a ≡ true → Listed a xs
unfolding contains
contains-Listed sdk [] a h = cc h
contains-Listed sdk (x ∷ xs) a h = ground (arith, contains-Listed sdk xs a, text_beq_iff x a)

module _ (sdk : Sdk) (connect : List Text → Option sdk.Client) (a : App) (now later : ℕ) where
  open sdk use {eth}

  -- Why a payment may be signed: its contract is the one that is configured for its chain, up to
  -- the case of the letters; the executor signed it; the executor is listed for the chain; and the
  -- token counts as approved.
  pub record Allowed (req : BrokerPaySignatureReq) (sig : Text) : Type 0 where
    pub bytes : Text
    pub decoded : sdk.bytes_from_hex req.executor_signature ≡ some bytes
    pub contract : (config_at sdk a.pen req.payment.chain_id).multi_pay_ctrct_addr ≢ zero_address
    pub same_contract :
        equal_fold
          (eth.hex (config_at sdk a.pen req.payment.chain_id).multi_pay_ctrct_addr)
          (eth.hex req.payment.multi_pay_ctrct)
        ≡ true
    pub signer : sdk.payment_signer bytes req.payment ≡ some req.payment.executor
    pub listed :
        Listed req.payment.executor (config_at sdk a.pen req.payment.chain_id).allowed_executors
    pub paid :
        (approve_token sdk connect a.pen now later req.payment.chain_id req.payment.token
          a.token_approval_ts).0
        ≡ approved
    pub signed :
        sdk.payment_signature req.payment (lookup req.payment.chain_id a.pen.wallets) ≡ some sig

  abbrev Recovered : BrokerPaySignatureReq → Address → Type 0
  Recovered req addr =
      (bytes : Text) × (sdk.bytes_from_hex req.executor_signature ≡ some bytes)
      × ((config_at sdk a.pen req.payment.chain_id).multi_pay_ctrct_addr ≢ zero_address)
      × (equal_fold (eth.hex (config_at sdk a.pen req.payment.chain_id).multi_pay_ctrct_addr)
            (eth.hex req.payment.multi_pay_ctrct)
          ≡ true)
      × (sdk.payment_signer bytes req.payment ≡ some addr)

  recover-ok :
      (req : BrokerPaySignatureReq) (addr : Address)
      → recover_payment_signer_addr sdk a.pen req ≡ ok addr
      → Recovered req addr
  unfolding recover_payment_signer_addr
  recover-ok req addr h =
      let ctrct = (config_at sdk a.pen req.payment.chain_id).multi_pay_ctrct_addr in
      let (bytes, decoded, rest) =
        >>=-eq-ok (or_fail (sdk.bytes_from_hex req.executor_signature) _) _ h in
      let (nonzero, rest') = refuse-eq-ok (is_zero ctrct) _ _ rest in
      let (same, signer) =
        refuse-eq-ok (not (equal_fold (eth.hex ctrct) (eth.hex req.payment.multi_pay_ctrct))) _ _
          rest' in
      (
        bytes,
        or_fail-eq-ok _ _ decoded,
        ground (arith, text_beq_iff ctrct zero_address),
        ground arith,
        or_fail-eq-ok _ _ signer,
      )

  signature-ok :
      (req : BrokerPaySignatureReq) (sig : Text)
      → get_broker_payment_signature_response sdk a.pen req ≡ ok sig
      → sdk.payment_signature req.payment (lookup req.payment.chain_id a.pen.wallets) ≡ some sig
  unfolding get_broker_payment_signature_response
  signature-ok req sig h = let (same, signed) = refuse-eq-ok _ _ _ h in or_fail-eq-ok _ _ signed

  response-success :
      (p : Approval) (res : Result Text) (sig : Text)
      → payment_response sdk p res ≡ success sig
      → (p ≡ approved) × (res ≡ ok sig)
  unfolding payment_response
  response-success approved (ok s) sig h = ground arith
  response-success approved (err e) sig h = cc
  response-success (failed e) res sig h = cc
  response-success Approval.panics res sig h = cc

  abbrev paid_for : BrokerPaySignatureReq → Approval
  paid_for req =
      (approve_token sdk connect a.pen now later req.payment.chain_id req.payment.token
        a.token_approval_ts).0

  recovered-success :
      (req : BrokerPaySignatureReq) (addr : Address) (sig : Text)
      → (sign_recovered sdk connect a now later req addr).0 ≡ success sig
      → (addr ≡ req.payment.executor)
        × (find_executor sdk a.pen req.payment.chain_id addr ≡ true)
        × (payment_response sdk (paid_for req) (get_broker_payment_signature_response sdk a.pen req)
            ≡ success sig)
  unfolding sign_recovered
  recovered-success req addr sig h = ground (arith, text_beq_iff addr req.payment.executor)

  recovered-Allowed :
      (req : BrokerPaySignatureReq) (addr : Address) (sig : Text)
      → recover_payment_signer_addr sdk a.pen req ≡ ok addr
      → (sign_recovered sdk connect a now later req addr).0 ≡ success sig
      → Allowed req sig
  recovered-Allowed req addr sig known h =
      let (bytes, decoded, nonzero, same, signer) = recover-ok req addr known in
      let (executor, found, answer) = recovered-success req addr sig h in
      let (paid, signed) = response-success (paid_for req) _ sig answer in
      let listed : Listed addr (config_at sdk a.pen req.payment.chain_id).allowed_executors =
        unfold find_executor in contains-Listed sdk _ addr found in
      record {
        bytes = bytes;
        decoded = decoded;
        contract = nonzero;
        same_contract = same;
        signer = signer ∙ ap some executor;
        listed =
            subst (λ x. Listed x (config_at sdk a.pen req.payment.chain_id).allowed_executors)
              executor listed;
        paid = paid;
        signed = signature-ok req sig signed;
      }

  known_signer :
      (req : BrokerPaySignatureReq) (sig : Text) (res : Result Address)
      → recover_payment_signer_addr sdk a.pen req ≡ res
      → (sign_payment sdk connect a now later (some req)).0 ≡ success sig
      → Allowed req sig
  unfolding sign_payment
  known_signer req sig (err e) known h = ground arith
  known_signer req sig (ok addr) known h = recovered-Allowed req addr sig known (ground arith)

  -- If SignPayment answers a request with a signature, then the payment contract configured for
  -- the chain is not zero and is that of the payment, up to the case of its print; the executor's
  -- signature decodes, and its signer is the payment's executor; the executor is listed for the
  -- chain; ApproveToken counts the token as approved; and the signature is the one made with the
  -- chain's wallet.
  pub sign_payment-Allowed :
      (req : BrokerPaySignatureReq) (sig : Text)
      → (sign_payment sdk connect a now later (some req)).0 ≡ success sig
      → Allowed req sig
  sign_payment-Allowed req sig h =
      known_signer req sig (recover_payment_signer_addr sdk a.pen req) refl h
