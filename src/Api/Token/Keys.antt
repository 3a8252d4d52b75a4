-- ===== src/Api/Token/Keys.antt =====
-- The keys of the approval times in ApproveToken of api/api.go.
use d8x_broker_server.Base.{suc, ◌≡◌, sym, ap, ◌∙◌, [], ◌∷◌, arith, length, All, ℤ, pos, negsuc}
use d8x_broker_server.Text.{Text, cut_before, cut_after}
use d8x_broker_server.Text.Laws.{Lacks, cut_before-append, cut_after-append}
use d8x_broker_server.Hex.Laws.{IsByte}
use d8x_broker_server.Decimal.{itoa, digits, atoi}
use d8x_broker_server.Decimal.Print.{IsDigit, IsInt, digits-All, atoi-itoa}
use d8x_broker_server.Eth.{Address}
use d8x_broker_server.Sdk.{Sdk}
use d8x_broker_server.Api.Token.{approval_key}

digits-Lacks : (s : Text) → All IsDigit s → Lacks b'.' s
digits-Lacks [] h = tt
digits-Lacks (c ∷ s) (h, hs) = (omega arith, digits-Lacks s hs)

itoa-Lacks : (a : ℤ) → Lacks b'.' (itoa a)
unfolding itoa
itoa-Lacks (pos n) = digits-Lacks (digits n) (digits-All n)
itoa-Lacks (negsuc n) = (omega arith, digits-Lacks (digits (suc n)) (digits-All (suc n)))

-- An address of 20 bytes.
pub record IsAddress (a : Address) : Type 0 where
  pub twenty : length a ≡ 20
  pub bytes : All IsByte a

itoa-injective : (a b : ℤ) → IsInt a → IsInt b → itoa a ≡ itoa b → a ≡ b
itoa-injective a b ha hb e = ap (λ p. p.0) (sym (atoi-itoa a ha) ∙ ap atoi e ∙ atoi-itoa b hb)

module _ (sdk : Sdk) where
  open sdk use {eth}

  hex-injective : (s t : Address) → IsAddress s → IsAddress t → eth.hex s ≡ eth.hex t → s ≡ t
  hex-injective s t hs ht e =
      sym (eth.to_address-hex s hs.twenty hs.bytes)
      ∙ ap eth.to_address e
      ∙ eth.to_address-hex t ht.twenty ht.bytes

  -- The keys of the approval times are different for different chains or tokens, for chain ids
  -- that fit in an `int` and addresses of 20 bytes.
  pub approval_key-injective :
      (a b : ℤ) (s t : Address)
      → IsInt a
      → IsInt b
      → IsAddress s
      → IsAddress t
      → approval_key sdk a s ≡ approval_key sdk b t
      → (a ≡ b) × (s ≡ t)
  unfolding approval_key
  approval_key-injective a b s t ha hb hs ht e =
      let before =
        sym (cut_before-append b'.' (itoa a) (eth.hex s) (itoa-Lacks a))
        ∙ ap (cut_before b'.') e
        ∙ cut_before-append b'.' (itoa b) (eth.hex t) (itoa-Lacks b) in
      let behind =
        sym (cut_after-append b'.' (itoa a) (eth.hex s) (itoa-Lacks a))
        ∙ ap (cut_after b'.') e
        ∙ cut_after-append b'.' (itoa b) (eth.hex t) (itoa-Lacks b) in
      (itoa-injective a b ha hb before, hex-injective s t hs ht behind)
