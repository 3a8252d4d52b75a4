-- ===== src/Fee/Bounds.antt =====
-- The fees of api/fee.go: the arithmetic of a percentage, and the fee for a level.
use d8x_broker_server.Base.{
  ℕ, zero, suc, ◌-◌, ◌*◌, ◌/◌, ◌^◌, ◌≤◌, ◌<◌, ◌≡◌, refl, sym, subst, ap, ◌∙◌, List, [], ◌∷◌, map,
  Option, none, some, arith, insert, lookup, int_eq, ℤ, pos, negsuc, All, All-lookup, All-insert,
  length, get_elem?, get_elem?-some, ltb_ℤ, ◌-ℤ◌, ◌*ℤ◌, quot, wrap64-pos, residue, ◌==◌,
  if◌then◌else◌, ltb,
}
use d8x_broker_server.Fee.{
  FeeLevels, reduced_fee, Charge, charged, panics, or_panic, fee_at, some_chain, charge_at,
  reduce_by_level, vip3_to_fee_map,
}
use d8x_broker_server.Fee.Config.{
  Entry, Readable, levels_of, table, config_text, vip3_to_fee_map-table,
}

-- A percentage from 0 to 100.
abbrev pub IsPercent : ℤ → Type 0
IsPercent (pos n) = n ≤ 100
IsPercent (negsuc n) = ⊥

difference : (n : ℕ) → n ≤ 100 → pos 100 -ℤ pos n ≡ pos (100 - n)
unfolding ◌-ℤ◌
difference n h = ground arith

product : (a b : ℕ) → pos a *ℤ pos b ≡ pos (a * b)
unfolding ◌*ℤ◌
product a b = ground arith

product-le : (a b : ℕ) → a ≤ 100 → a * b ≤ 100 * b
product-le a b h = grind arith

-- For a percentage n of at most 100 and a fee below 2^16, the reduced fee is (100 - n) * fee /
-- 100, rounded down, at most the fee: neither the multiplication in `int` nor the conversion to
-- uint16 wraps.
pub reduced_fee-percent :
    (n fee : ℕ)
    → n ≤ 100
    → fee < 2 ^ 16
    → (reduced_fee (pos n) fee ≡ (100 - n) * fee / 100) × (reduced_fee (pos n) fee ≤ fee)
unfolding reduced_fee quot residue
reduced_fee-percent n fee h small =
    let below = product-le (100 - n) fee (omega arith) in
    rw
      (
        difference n h,
        wrap64-pos (100 - n) (omega arith),
        product (100 - n) fee,
        wrap64-pos ((100 - n) * fee) (omega (arith, below)),
      )
      (omega (arith, below), omega (arith, below))

-- The chain whose fees are read: one of the map where the request names none.
abbrev pub chain_of : FeeLevels → ℤ → ℤ
chain_of m chain_id = if chain_id == negsuc 0 then some_chain m chain_id else chain_id

-- The index of the fee for a level, counted from 0: the last one for a level past the list.
abbrev pub level_index : List ℕ → ℕ → ℕ
level_index fees l = if ltb (length fees) (suc l) then length fees - 1 else l

clamped : (fees : List ℕ) (l : ℕ) → ℤ
clamped fees l = if ltb_ℤ (pos (length fees)) (pos (suc l)) then pos (length fees) else pos (suc l)

fee_at-clamped :
    (f : ℕ) (fs : List ℕ) (l : ℕ)
    → fee_at (f ∷ fs) (clamped (f ∷ fs) l) ≡ or_panic (get_elem? (f ∷ fs) (level_index (f ∷ fs) l))
unfolding fee_at clamped
fee_at-clamped f fs l = ground arith

level_index-lt : (f : ℕ) (fs : List ℕ) (l : ℕ) → level_index (f ∷ fs) l < length (f ∷ fs)
level_index-lt f fs l = ground arith

-- What a trader is charged: the base fee at level 0 or on a chain with no fees of its own; the fee
-- of the level, or of the last one listed; and a panic at a negative level or an empty list.
abbrev pub Charged : ℕ → Option (List ℕ) → ℤ → Charge → Type 0
Charged fee none l c = c ≡ charged fee
Charged fee (some fees) (pos zero) c = c ≡ charged fee
Charged fee (some fees) (negsuc l) c = c ≡ panics
Charged fee (some []) (pos (suc l)) c = c ≡ panics
Charged fee (some (f ∷ fs)) (pos (suc l)) c =
    (x : ℕ) × (get_elem? (f ∷ fs) (level_index (f ∷ fs) l) ≡ some x) × (c ≡ charged x)

level-Charged :
    (fee l : ℕ) (fees : List ℕ)
    → Charged fee (some fees) (pos (suc l)) (fee_at fees (clamped fees l))
level-Charged fee l [] = unfold fee_at clamped in ground arith
level-Charged fee l (f ∷ fs) =
    let (x, e) = get_elem?-some (f ∷ fs) (level_index (f ∷ fs) l) (level_index-lt f fs l) in
    (x, e, fee_at-clamped f fs l ∙ ap or_panic e)

charge_at-level :
    (fee l : ℕ) (fees : List ℕ)
    → charge_at fee (some fees) (pos (suc l)) ≡ fee_at fees (clamped fees l)
unfolding charge_at clamped
charge_at-level fee l fees = ground arith

charge_at-Charged : (fee : ℕ) (o : Option (List ℕ)) (l : ℤ) → Charged fee o l (charge_at fee o l)
unfolding charge_at
charge_at-Charged fee none l = ground arith
charge_at-Charged fee (some fees) (pos zero) = ground arith
charge_at-Charged fee (some fees) (negsuc l) = ground arith
charge_at-Charged fee (some fees) (pos (suc l)) =
    subst (Charged fee (some fees) (pos (suc l))) (sym (charge_at-level fee l fees))
      (level-Charged fee l fees)

-- On a chain without a list of fees, and at level 0, the base fee is charged. On a chain with a
-- list, a positive level is charged the fee at that position of the list, or the last one for a
-- level past it; a negative level, or a positive one where the list is empty, panics. Where the
-- request names no chain, the list is that of the first chain met.
pub reduce_by_level-Charged :
    (fee : ℕ) (m : FeeLevels) (chain_id l : ℤ)
    → Charged fee (lookup (chain_of m chain_id) m) l (reduce_by_level fee m chain_id l)
reduce_by_level-Charged fee m chain_id l =
    unfold reduce_by_level in charge_at-Charged fee (lookup (chain_of m chain_id) m) l

abbrev AtMost : ℕ → List ℕ → Type 0
AtMost fee fees = All (λ f. f ≤ fee) fees

abbrev NoneAbove : ℕ → FeeLevels → Type 0
NoneAbove fee m = All (λ p. AtMost fee p.1) m

get_elem?-AtMost :
    (fee : ℕ) (fees : List ℕ) (i : ℕ) {x : ℕ}
    → AtMost fee fees
    → get_elem? fees i ≡ some x
    → x ≤ fee
get_elem?-AtMost fee [] i h e = cc
get_elem?-AtMost fee (f ∷ fs) zero h e = ground arith
get_elem?-AtMost fee (f ∷ fs) (suc i) h e = get_elem?-AtMost fee fs i h.1 e

Charged-le :
    (fee : ℕ) (o : Option (List ℕ)) (l : ℤ) (c : Charge) (x : ℕ)
    → ((fees : List ℕ) → o ≡ some fees → AtMost fee fees)
    → Charged fee o l c
    → c ≡ charged x
    → x ≤ fee
Charged-le fee none l c x h e n = ground arith
Charged-le fee (some fees) (pos zero) c x h e n = ground arith
Charged-le fee (some fees) (negsuc l) c x h e n = ground arith
Charged-le fee (some []) (pos (suc l)) c x h e n = ground arith
Charged-le fee (some (f ∷ fs)) (pos (suc l)) c x h (y, e, d) n =
    get_elem?-AtMost fee (f ∷ fs) (level_index (f ∷ fs) l) (h (f ∷ fs) refl) (ground arith)

levels-AtMost :
    (fee : ℕ) (ps : List ℤ)
    → fee < 2 ^ 16
    → All IsPercent ps
    → AtMost fee (map (λ p. reduced_fee p fee) ps)
levels-AtMost fee [] small h = tt
levels-AtMost fee (pos n ∷ ps) small (h, hs) =
    ((reduced_fee-percent n fee h small).1, levels-AtMost fee ps small hs)
levels-AtMost fee (negsuc n ∷ ps) small (h, hs) = absurd h

table-NoneAbove :
    (es : List Entry) (fee : ℕ) (m : FeeLevels)
    → fee < 2 ^ 16
    → All (λ e. All IsPercent e.others) es
    → NoneAbove fee m
    → NoneAbove fee (table es fee m)
table-NoneAbove [] fee m small h a = a
table-NoneAbove (e ∷ es) fee m small (h, hs) a =
    table-NoneAbove es fee (insert e.chain (levels_of e fee) m) small hs (
      All-insert (λ p. AtMost fee p.1) e.chain (levels_of e fee) m
        (levels-AtMost fee e.others small h) a)

-- With a base fee below 2^16 and a map read from a configuration whose second and later
-- percentages lie between 0 and 100, whose chains fit in an `int`, every fee that is charged, for
-- any chain and level, is at most the base fee.
pub charge-le-base :
    (e : Entry) (es : List Entry) (fee : ℕ) (m : FeeLevels) (chain_id l : ℤ) (x : ℕ)
    → fee < 2 ^ 16
    → All Readable (e ∷ es)
    → All (λ e. All IsPercent e.others) (e ∷ es)
    → vip3_to_fee_map (config_text e es) fee ≡ some m
    → reduce_by_level fee m chain_id l ≡ charged x
    → x ≤ fee
charge-le-base e es fee m chain_id l x small readable percents parsed paid =
    Charged-le fee (lookup (chain_of m chain_id) m) l (reduce_by_level fee m chain_id l) x
      (λ fees known. All-lookup (λ p. AtMost fee p.1) (chain_of m chain_id) fees m known bounded)
      (reduce_by_level-Charged fee m chain_id l) paid
  where
    same : table (e ∷ es) fee [] ≡ m
    same = ground (arith, vip3_to_fee_map-table e es fee readable)

    bounded : NoneAbove fee m
    bounded = subst (NoneAbove fee) same (table-NoneAbove (e ∷ es) fee [] small percents tt)
