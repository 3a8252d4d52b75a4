-- ===== src/Ws/Topic/Accepts.antt =====
-- Which texts isValidOrderTopic of executorws/server.go accepts.
use Prim.Native.Nat.{min}
use d8x_broker_server.Base.{
  ℕ, ◌≤◌, ◌≡◌, refl, sym, ◌∙◌, ap, subst, pos_part, ◌≢◌, ◌↔◌, ◌⊎◌, inl, inr, Bool, true, false, [],
  ◌∷◌, ◌++◌, arith, nat_eq, zero, suc, ℤ, pos, negsuc, int_eq, Map, All, Bool-cases,
}
use mathlib.Core.List.{cons-ne-nil, append-nil}
use d8x_broker_server.Text.{Text}
use d8x_broker_server.Text.Laws.{Lacks, cut_before-append, cut_after-append}
use d8x_broker_server.Decimal.{atoi, itoa, max_int}
use d8x_broker_server.Decimal.Print.{IsDigit, digits-cons, digits-positive, digits-All, atoi-itoa}
use d8x_broker_server.Decimal.Parse.{spelled, atoi-All}
use d8x_broker_server.Orders.{ChainConfig}
use d8x_broker_server.Ws.Topic.{is_digit, matches_from, matches, supports, is_valid_order_topic}

-- One or more digits.
abbrev pub IsNumber : Text → Type 0
IsNumber s = (s ≢ []) × All IsDigit s

-- Two numbers, joined by a colon.
pub record Parts (s : Text) : Type 0 where
  pub perpetual : Text
  pub chain : Text
  pub joined : s ≡ perpetual ++ (b':' ∷ chain)
  pub perpetual_digits : IsNumber perpetual
  pub chain_digits : IsNumber chain

digits-Lacks : (s : Text) → All IsDigit s → Lacks b':' s
digits-Lacks [] h = tt
digits-Lacks (c ∷ s) (hc, hs) = (omega arith, digits-Lacks s hs)

matches_digits :
    (p rest : Text) (c : Bool)
    → All IsDigit p
    → matches_from c true (p ++ rest) ≡ matches_from c true rest
unfolding matches_from
matches_digits [] rest c h = refl
matches_digits (d ∷ p) rest c h = ground (arith, matches_digits p rest c h.1)

-- The texts that the second part of the expression accepts.
matches_chain :
    (b : Bool) (s : Text) → matches_from true b s ≡ true → All IsDigit s × ((b ≡ true) ⊎ (s ≢ []))
unfolding matches_from
matches_chain b [] h = ground arith
matches_chain b (c ∷ s) h = ground (arith, matches_chain true s)

abbrev First : Bool → Text → Type 0
First b s =
    (p : Text) × (k : Text) × (s ≡ p ++ (b':' ∷ k))
    × All IsDigit p
    × ((b ≡ true) ⊎ (p ≢ []))
    × IsNumber k

First-digit : (b : Bool) (c : ℕ) (s : Text) → IsDigit c → First true s → First b (c ∷ s)
First-digit b c s d (p, k, e, h, _, n) = (c ∷ p, k, ap (◌∷◌ c) e, (d, h), inr (cons-ne-nil c p), n)

First-colon : (b : Bool) (c : ℕ) (s : Text) → c ≡ b':' → b ≡ true → IsNumber s → First b (c ∷ s)
First-colon b c s e t n = ([], s, ap (λ x. x ∷ s) e, tt, inl t, n)

chain-IsNumber : (s : Text) → matches_from true false s ≡ true → IsNumber s
chain-IsNumber s h = ground (arith, matches_chain false s h)

matches-First : (b : Bool) (s : Text) → matches_from false b s ≡ true → First b s
unfolding matches_from
matches-First b [] h = cc
matches-First b (c ∷ s) h = elim (Bool-cases (is_digit c)) [
  | inl d ↦
      First-digit b c s (unfold is_digit in ground arith) (matches-First true s (ground arith))
  | inr n ↦ First-colon b c s (ground arith) (ground arith) (chain-IsNumber s (ground arith))
]

number_matches : (b : Bool) (k : Text) → IsNumber k → matches_from true b k ≡ true
unfolding matches_from
number_matches b [] h = absurd (h.0 refl)
number_matches b (c ∷ k) h =
    let rest = matches_digits k [] true h.1.1 in ground (arith, append-nil k)

-- The regular expression accepts exactly two numbers joined by a colon.
pub matches-Parts : (s : Text) → matches s ≡ true → Parts s
unfolding matches
matches-Parts s h =
    let (p, k, e, digits, some, n) = matches-First false s h in
    record {
      perpetual = p;
      chain = k;
      joined = e;
      perpetual_digits = (ground arith, digits);
      chain_digits = n;
    }

pub Parts-matches : (p k : Text) → IsNumber p → IsNumber k → matches (p ++ (b':' ∷ k)) ≡ true
unfolding matches matches_from
Parts-matches [] k hp hk = absurd (hp.0 refl)
Parts-matches (c ∷ p) k hp hk =
    ground (arith, matches_digits p (b':' ∷ k) false hp.1.1, number_matches false k hk)

-- A chain of the configuration has the number that Atoi reads.
abbrev pub Supported : Map ℤ ChainConfig → ℤ → Type 0
Supported [] id = ⊥
Supported ((k, el) ∷ config) id = (el.chain_id ≡ id) ⊎ Supported config id

supports-Supported :
    (config : Map ℤ ChainConfig) (id : ℤ) → (supports config id ≡ true) ↔ Supported config id
unfolding supports
supports-Supported [] id = ground arith
supports-Supported ((k, el) ∷ config) id =
    ground (arith, supports-Supported config id, int_eq.beq_iff el.chain_id id)

itoa-IsNumber : (n : ℕ) → IsNumber (itoa (pos n))
unfolding itoa
itoa-IsNumber n =
    let (c, s, e, _) = digits-cons n in (λ n. cons-ne-nil c s (sym e ∙ n), digits-All n)

spelled-itoa : (n : ℕ) → n ≤ max_int → min (spelled 0 (itoa (pos n))) max_int ≡ n
spelled-itoa n h =
    let number = itoa-IsNumber n in
    let read : (atoi (itoa (pos n))).0 ≡ pos n = ap (λ p. p.0) (atoi-itoa (pos n) h) in
    ap pos_part (sym (atoi-All (itoa (pos n)) number.0 number.1) ∙ read)

module _ (config : Map ℤ ChainConfig) where
  -- What makes a topic of two numbers valid: a perpetual number from 100000 on, and a chain of the configuration. A chain number that no `int` holds counts as the
  -- greatest `int`.
  abbrev pub Valid : Text → Text → Type 0
  Valid p k = (100000 ≤ spelled 0 p) × Supported config (pos (min (spelled 0 k) max_int))

  Valid-Parts :
      (p k : Text)
      → IsNumber p
      → IsNumber k
      → (is_valid_order_topic config (p ++ (b':' ∷ k)) ≡ true) ↔ Valid p k
  unfolding is_valid_order_topic
  Valid-Parts p k hp hk = ground (
    arith,
    Parts-matches p k hp hk,
    cut_before-append b':' p k (digits-Lacks p hp.1),
    cut_after-append b':' p k (digits-Lacks p hp.1),
    atoi-All p hp.0 hp.1,
    atoi-All k hk.0 hk.1,
    supports-Supported config (pos (min (spelled 0 k) max_int)),
  )

  valid-matches : (topic : Text) → is_valid_order_topic config topic ≡ true → matches topic ≡ true
  unfolding is_valid_order_topic
  valid-matches topic h = ground arith

  -- isValidOrderTopic accepts a topic if and only if it is two numbers joined by a colon, of
  -- which the first is at least 100000 and the second, or the greatest `int` if it is greater, is
  -- the id of a configured chain.
  pub is_valid_order_topic_iff :
      (topic : Text)
      → (is_valid_order_topic config topic ≡ true) ↔ ((p : Parts topic) × Valid p.perpetual p.chain)
  is_valid_order_topic_iff topic = (
    λ h.
        let p : Parts topic = matches-Parts topic (valid-matches topic h) in
        (
          p,
          (Valid-Parts p.perpetual p.chain p.perpetual_digits p.chain_digits).0
              (subst (λ t. is_valid_order_topic config t ≡ true) p.joined h),
        ),
    λ (p, v).
        subst (λ t. is_valid_order_topic config t ≡ true) (sym p.joined)
          ((Valid-Parts p.perpetual p.chain p.perpetual_digits p.chain_digits).1 v),
  )

  -- The stack of a perpetual from 100000 on and of a configured chain, both of which fit in an
  -- `int`, is a topic that isValidOrderTopic accepts.
  pub stack-valid :
      (n k : ℕ)
      → 100000 ≤ n
      → n ≤ max_int
      → k ≤ max_int
      → Supported config (pos k)
      → is_valid_order_topic config (itoa (pos n) ++ (b':' ∷ itoa (pos k))) ≡ true
  stack-valid n k large fits fits' known =
      (Valid-Parts (itoa (pos n)) (itoa (pos k)) (itoa-IsNumber n) (itoa-IsNumber k)).1
        (spelled-large, subst (λ a. Supported config (pos a)) (sym (spelled-itoa k fits')) known)
    where
      spelled-large : 100000 ≤ spelled 0 (itoa (pos n))
      spelled-large = omega (arith, spelled-itoa n fits)

stack-ne-zero : (a k : ℤ) (s : Text) → a ≢ pos 0 → itoa a ++ (b':' ∷ itoa k) ≢ b'0' ∷ s
unfolding itoa
stack-ne-zero (pos zero) k s h e = absurd (h refl)
stack-ne-zero (pos (suc n)) k s h e =
    let (c, t, printed, high) = digits-positive (suc n) (omega arith) in ground arith
stack-ne-zero (negsuc n) k s h e = ground arith

zero-Valid :
    (config : Map ℤ ChainConfig) (t : Text)
    → is_valid_order_topic config t ≡ true
    → is_valid_order_topic config (b'0' ∷ t) ≡ true
zero-Valid config t h =
    let (p, v) = (is_valid_order_topic_iff config t).0 h in
    (is_valid_order_topic_iff config (b'0' ∷ t)).1 (
      record {
        perpetual = b'0' ∷ p.perpetual;
        chain = p.chain;
        joined = ap (◌∷◌ b'0') p.joined;
        perpetual_digits = (cons-ne-nil _ _, (omega arith, p.perpetual_digits.1));
        chain_digits = p.chain_digits;
      },
      v,
    )

-- If isValidOrderTopic accepts a topic, it accepts the topic with a 0 written in front too, which
-- is not the stack of any perpetual but 0 on any chain.
pub leading_zero_unserved :
    (config : Map ℤ ChainConfig) (t : Text)
    → is_valid_order_topic config t ≡ true
    → (is_valid_order_topic config (b'0' ∷ t) ≡ true)
      × ((perpetual chain : ℤ)
          → perpetual ≢ pos 0
          → itoa perpetual ++ (b':' ∷ itoa chain) ≢ b'0' ∷ t)
leading_zero_unserved config t h = (zero-Valid config t h, λ a k. stack-ne-zero a k t)
