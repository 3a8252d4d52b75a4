-- ===== src/Tests/Rest.antt =====
-- Runs of the REST service.
use d8x_broker_server.Base.{
  ◌≡◌, ◌<◌, refl, [], ◌∷◌, none, some, true, pos, negsuc, lookup, insert, int_eq, arith, All,
}
use d8x_broker_server.Text.{text_eq, text_beq, codes, equal_fold, to_lower}
use d8x_broker_server.Decimal.{itoa}
use d8x_broker_server.Redis.Memory.{memory, start}
use d8x_broker_server.Redis.Connected.{memory-Connected}
use d8x_broker_server.Hex.{encode, decode}
use d8x_broker_server.Eth.Plain.{plain, print, read}
use d8x_broker_server.Orders.{check_data}
use d8x_broker_server.Pen.{
  signed_order, sign_order as pen_sign, get_broker_order_signature_response, create_order_digest,
  has_key, big_int, recover_payment_signer_addr, get_broker_payment_signature_response, config_at,
}
use d8x_broker_server.Pen.Signing.{Signed, signed_order-Signed}
use d8x_broker_server.Fee.{
  panics, get_broker_fee_tbps, get_reduced_broker_fee_tbps, reduce_by_level, get_vip3_level,
}
use d8x_broker_server.Api.Token.{
  approved, approval_key, approve_token, approve_on_chain, send_approval,
}
use d8x_broker_server.Api.Token.Keys.{approval_key-injective}
use d8x_broker_server.Api.Token.Cache.{Answers, approve_token-Answers, approve_token-cached}
use d8x_broker_server.Api.Handlers.{
  success, get_broker_fee, sign_order, sign_payment, orders_submitted, sign_recovered,
  find_executor, contains, broker_address, with_broker_addr, sign_checked, sign_with_fee,
  signed_response,
}
use d8x_broker_server.Api.Handlers.Orders.{
  checked, fee, SignedWith, sign_order-SignedWith, sign_order-crashed,
}
use d8x_broker_server.Api.Handlers.Payment.{Allowed, sign_payment-Allowed}
use d8x_broker_server.Api.Handlers.Shown.{get_broker_fee-sign_order}
use d8x_broker_server.Api.Handlers.Submitted.{Responded, orders_submitted-Responded}
use d8x_broker_server.Tests.Data.{toy, connect, app, pen, order, sign_req, answer, pay_req, address}

signed_order-Signed_example : Signed toy pen order (pos 1101) (answer (codes "signature") 0)
unfolding signed_order create_order_digest big_int has_key text_beq encode decode lookup insert
    pen_sign
signed_order-Signed_example =
    signed_order-Signed toy pen order (pos 1101) (answer (codes "signature") 0) refl

sign_order-SignedWith_example :
    SignedWith toy
      (memory true)
      memory-Connected
      (λ t. some (pos 1))
      app
      sign_req
      start
      (answer (codes "signature") 100)
unfolding sign_order print read encode decode text_beq to_lower lookup insert get_broker_fee_tbps
    get_reduced_broker_fee_tbps reduce_by_level get_vip3_level check_data with_broker_addr
    broker_address sign_checked sign_with_fee signed_response get_broker_order_signature_response
    signed_order create_order_digest big_int has_key
sign_order-SignedWith_example =
    sign_order-SignedWith toy (memory true) memory-Connected (λ t. some (pos 1)) app sign_req start
      (answer (codes "signature") 100) refl

sign_order-crashed_example :
    (check_data plain
        (checked toy (memory true) memory-Connected (λ t. some (negsuc 0)) app sign_req start)
      ≡ none)
    × ((fee toy (memory true) memory-Connected (λ t. some (negsuc 0)) app sign_req start).0
        ≡ panics)
unfolding sign_order print read encode decode text_beq to_lower lookup insert get_broker_fee_tbps
    get_reduced_broker_fee_tbps reduce_by_level get_vip3_level check_data with_broker_addr
    broker_address sign_checked sign_with_fee
sign_order-crashed_example =
    sign_order-crashed toy (memory true) memory-Connected (λ t. some (negsuc 0)) app sign_req start
      refl

sign_payment-Allowed_example : Allowed toy connect app 1000000 1000010 pay_req (codes "paid")
unfolding sign_payment recover_payment_signer_addr get_broker_payment_signature_response config_at
    sign_recovered find_executor contains text_beq equal_fold to_lower print encode lookup insert
    approve_token approve_on_chain send_approval approval_key itoa
sign_payment-Allowed_example =
    sign_payment-Allowed toy connect app 1000000 1000010 pay_req (codes "paid") refl

orders_submitted-Responded_example :
    Responded toy
      (memory true)
      memory-Connected
      (λ t. none)
      (some (codes "0xabcd" ∷ []))
      start
      (orders_submitted toy (memory true) (λ t. none) (some (codes "0xabcd" ∷ [])) start)
orders_submitted-Responded_example =
    orders_submitted-Responded toy (memory true) memory-Connected (λ t. none)
      (some (codes "0xabcd" ∷ [])) start

approve_token-Answers_example :
    Answers toy connect pen
      (pos 1101)
      (address 6)
      1000000
      1000010
      []
      (approve_token toy connect pen 1000000 1000010 (pos 1101) (address 6) []).0
      (approve_token toy connect pen 1000000 1000010 (pos 1101) (address 6) []).1
      (approve_token toy connect pen 1000000 1000010 (pos 1101) (address 6) []).2
approve_token-Answers_example =
    approve_token-Answers toy connect pen (pos 1101) (address 6) 1000000 1000010 []

approve_token-cached_example :
    let ts' = (approve_token toy connect pen 1000000 1000010 (pos 1101) (address 6) []).1 in
    approve_token toy (λ urls. none) pen 1000500 1000510 (pos 1101) (address 6) ts'
    ≡ (approved, ts', [])
unfolding approve_token approve_on_chain send_approval lookup
approve_token-cached_example =
    approve_token-cached toy connect pen (pos 1101) (address 6) 1000000 1000010 [] (omega arith)
      refl (λ urls. none) 1000500 1000510 (omega arith)

bytes_five : All (λ b. b < 256) (address 5)
bytes_five = ground arith

approval_key-injective_example : (pos 1101 ≡ pos 1101) × (address 5 ≡ address 5)
approval_key-injective_example =
    approval_key-injective toy (pos 1101) (pos 1101) (address 5) (address 5) (omega arith)
      (omega arith) (record { twenty = refl; bytes = bytes_five })
      (record { twenty = refl; bytes = bytes_five }) refl

get_broker_fee-sign_order_example :
    (get_broker_fee toy
      (memory true)
      (λ t. some (pos 1))
      app
      order.trader_addr
      (itoa (pos 1101))
      start).0
    ≡ success 100
unfolding sign_order print read encode decode text_beq to_lower lookup insert get_broker_fee_tbps
    get_reduced_broker_fee_tbps reduce_by_level get_vip3_level check_data with_broker_addr
    broker_address sign_checked sign_with_fee signed_response get_broker_order_signature_response
    signed_order create_order_digest big_int has_key
get_broker_fee-sign_order_example =
    get_broker_fee-sign_order toy (memory true) memory-Connected (λ t. some (pos 1)) app sign_req
      start (answer (codes "signature") 100) (omega arith) refl
