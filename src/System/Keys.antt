-- ===== src/System/Keys.antt =====
-- The three kinds of keys that the services write in Redis: order ids, stacks, and VIP3 levels.
use d8x_broker_server.Base.{
  ◌≡◌, ◌≢◌, refl, sym, ◌∙◌, subst, [], ◌∷◌, ◌++◌, arith, All, ℤ, pos, negsuc,
}
use d8x_broker_server.Text.{Text, codes}
use d8x_broker_server.Text.Laws.{Lacks}
use d8x_broker_server.Decimal.{itoa}
use d8x_broker_server.Decimal.Print.{digits-cons}
use d8x_broker_server.Hex.{encode}
use d8x_broker_server.Hex.Laws.{IsByte, encode-Lacks_colon}
use d8x_broker_server.Fee.{vip3_key}

-- Hexadecimal text of bytes.
abbrev pub IsId : Text → Type 0
IsId k = (b : Text) × All IsByte b × (k ≡ encode b)

abbrev pub IsTopic : Text → Type 0
IsTopic k = (p : ℤ) × (c : ℤ) × (k ≡ itoa p ++ (b':' ∷ itoa c))

abbrev pub IsLevelKey : Text → Type 0
IsLevelKey k = (t : Text) × (k ≡ vip3_key t)

no_colon : (s t : Text) → ¬ Lacks b':' (s ++ (b':' ∷ t))
no_colon [] t h = h.0 refl
no_colon (c ∷ s) t h = no_colon s t h.1

id_no_colon : (k : Text) → IsId k → Lacks b':' k
id_no_colon k (b, bytes, e) = subst (Lacks b':') (sym e) (encode-Lacks_colon b bytes)

pub IsId-ne-IsTopic : (k : Text) → IsId k → ¬ IsTopic k
IsId-ne-IsTopic k i (p, c, e) = no_colon (itoa p) (itoa c) (subst (Lacks b':') e (id_no_colon k i))

pub IsId-ne-level : (k : Text) → IsId k → ¬ IsLevelKey k
unfolding vip3_key
IsId-ne-level k i (t, e) = no_colon (codes "VIP") t (subst (Lacks b':') e (id_no_colon k i))

topic_head : (p : ℤ) (s t : Text) → itoa p ++ s ≢ b'V' ∷ t
unfolding itoa
topic_head (pos n) s t e = let (c, rest, printed, digit) = digits-cons n in ground arith
topic_head (negsuc n) s t e = ground arith

pub IsTopic-ne-level : (k : Text) → IsTopic k → ¬ IsLevelKey k
unfolding vip3_key
IsTopic-ne-level k (p, c, e) (t, f) = topic_head p (b':' ∷ itoa c) _ (sym e ∙ f)
