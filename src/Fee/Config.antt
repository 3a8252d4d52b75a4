-- ===== src/Fee/Config.antt =====
-- What vip3ToFeeMap makes of a configuration that is written as the documentation says:
-- `<chain>:<percentage of level 1>,...,<percentage of level n>`, several separated by semicolons.
use d8x_broker_server.Base.{
  ℕ, suc, ◌≡◌, ◌≢◌, refl, ap, ◌∙◌, List, [], ◌∷◌, ◌++◌, map, some, arith, insert, int_eq, beq_ne, ℤ,
  pos, negsuc, All, All-append, ◌≤◌,
}
use d8x_broker_server.Text.{Text, text_eq, split, trim_suffix}
use d8x_broker_server.Text.Laws.{Lacks, split-append, split-Lacks, trim_suffix-Lacks}
use d8x_broker_server.Decimal.{itoa, digits}
use d8x_broker_server.Decimal.Print.{IsDigit, IsInt, digits-All, atoi-itoa}
use d8x_broker_server.Fee.{
  FeeLevels, reduced_fee, fees_from, fees_of, chain_fees, add_chains, vip3_to_fee_map,
}

-- A chain with the percentages of its levels, the first apart.
pub record Entry : Type 0 where
  pub chain : ℤ
  pub first : ℤ
  pub others : List ℤ

abbrev pub percents : ℤ → List ℤ → Text
percents p [] = itoa p
percents p (q ∷ qs) = itoa p ++ (b',' ∷ percents q qs)

abbrev pub entry_text : Entry → Text
entry_text e = itoa e.chain ++ (b':' ∷ percents e.first e.others)

abbrev pub config_text : Entry → List Entry → Text
config_text e [] = entry_text e
config_text e (f ∷ fs) = entry_text e ++ (b';' ∷ config_text f fs)

-- Printed numbers hold digits and a minus sign.
abbrev IsNumeral : ℕ → Type 0
IsNumeral c = (b'-' ≤ c) × (c ≤ b'9')

digits-numerals : (s : Text) → All IsDigit s → All IsNumeral s
digits-numerals [] h = tt
digits-numerals (c ∷ s) (h, hs) = (omega arith, digits-numerals s hs)

itoa-numerals : (a : ℤ) → All IsNumeral (itoa a)
unfolding itoa
itoa-numerals (pos n) = digits-numerals (digits n) (digits-All n)
itoa-numerals (negsuc n) = (omega arith, digits-numerals (digits (suc n)) (digits-All (suc n)))

numerals-Lacks : (b : ℕ) (s : Text) → ¬ IsNumeral b → All IsNumeral s → Lacks b s
numerals-Lacks b [] n h = tt
numerals-Lacks b (c ∷ s) n (h, hs) = (λ e. n (rw (← e) h), numerals-Lacks b s n hs)

itoa-Lacks : (b : ℕ) (a : ℤ) → ¬ IsNumeral b → Lacks b (itoa a)
itoa-Lacks b a n = numerals-Lacks b (itoa a) n (itoa-numerals a)

percents-Lacks : (b : ℕ) (p : ℤ) (ps : List ℤ) → b',' ≢ b → ¬ IsNumeral b → Lacks b (percents p ps)
percents-Lacks b p [] c n = itoa-Lacks b p n
percents-Lacks b p (q ∷ qs) c n =
    All-append (λ c. c ≢ b) (itoa p) (b',' ∷ percents q qs) (itoa-Lacks b p n)
      (c, percents-Lacks b q qs c n)

split-percents : (p : ℤ) (ps : List ℤ) → split (percents p ps) b',' ≡ itoa p ∷ map itoa ps
split-percents p [] = split-Lacks b',' (itoa p) (itoa-Lacks b',' p (λ h. omega arith))
split-percents p (q ∷ qs) =
    split-append b',' (itoa p) (percents q qs) (itoa-Lacks b',' p (λ h. omega arith))
    ∙ ap (◌∷◌ (itoa p)) (split-percents q qs)

fees_from-itoa :
    (ps : List ℤ) (fee : ℕ)
    → All IsInt ps
    → fees_from (map itoa ps) fee ≡ some (map (λ p. reduced_fee p fee) ps)
unfolding fees_from
fees_from-itoa [] fee h = refl
fees_from-itoa (p ∷ ps) fee (h, hs) = ground (arith, atoi-itoa p h, fees_from-itoa ps fee hs)

pub record Readable (e : Entry) : Type 0 where
  pub chain_int : IsInt e.chain
  pub others_int : All IsInt e.others

-- The fees of a chain: those of all percentages but the first.
abbrev pub levels_of : Entry → ℕ → List ℕ
levels_of e fee = map (λ p. reduced_fee p fee) e.others

split-entry :
    (e : Entry) → split (entry_text e) b':' ≡ itoa e.chain ∷ percents e.first e.others ∷ []
split-entry e =
    split-append b':' (itoa e.chain) (percents e.first e.others)
      (itoa-Lacks b':' e.chain (λ h. omega arith))
    ∙ ap (◌∷◌ (itoa e.chain)) (
        split-Lacks b':' (percents e.first e.others)
          (percents-Lacks b':' e.first e.others (λ h. omega arith) (λ h. omega arith)))

percents-fees :
    (p : ℤ) (ps : List ℤ) (fee : ℕ)
    → All IsInt ps
    → fees_of (split (trim_suffix (percents p ps) b';') b',') fee
      ≡ some (map (λ q. reduced_fee q fee) ps)
unfolding fees_of
percents-fees p ps fee h =
    ap (λ t. fees_of (split t b',') fee)
      (trim_suffix-Lacks b';' (percents p ps)
        (percents-Lacks b';' p ps (λ h. omega arith) (λ h. omega arith)))
    ∙ ap (λ ts. fees_of ts fee) (split-percents p ps)
    ∙ fees_from-itoa ps fee h

chain_fees-two :
    (c p : ℤ) (ps : List ℤ) (fee : ℕ)
    → IsInt c
    → All IsInt ps
    → chain_fees (itoa c ∷ percents p ps ∷ []) fee ≡ some (c, map (λ q. reduced_fee q fee) ps)
unfolding chain_fees
chain_fees-two c p ps fee h hs = ground (arith, atoi-itoa c h, percents-fees p ps fee hs)

chain_fees-entry :
    (e : Entry) (fee : ℕ)
    → Readable e
    → chain_fees (split (entry_text e) b':') fee ≡ some (e.chain, levels_of e fee)
chain_fees-entry e fee h =
    ap (λ ts. chain_fees ts fee) (split-entry e)
    ∙ chain_fees-two e.chain e.first e.others fee h.chain_int h.others_int

-- The map that holds the fees of each entry, a later one in place of an earlier one of its chain.
abbrev pub table : List Entry → ℕ → FeeLevels → FeeLevels
table [] fee m = m
table (e ∷ es) fee m = table es fee (insert e.chain (levels_of e fee) m)

add_chains-table :
    (es : List Entry) (fee : ℕ) (m : FeeLevels)
    → All Readable es
    → add_chains (map entry_text es) fee m ≡ some (table es fee m)
unfolding add_chains
add_chains-table [] fee m h = refl
add_chains-table (e ∷ es) fee m (h, hs) =
    rw (chain_fees-entry e fee h, add_chains)
      (add_chains-table es fee (insert e.chain (levels_of e fee) m) hs)

entry-Lacks : (e : Entry) → Lacks b';' (entry_text e)
entry-Lacks e =
    All-append (λ c. c ≢ b';') (itoa e.chain) (b':' ∷ percents e.first e.others)
      (itoa-Lacks b';' e.chain (λ h. omega arith))
      (λ h. omega arith, percents-Lacks b';' e.first e.others (λ h. omega arith) (λ h. omega arith))

split-config :
    (e : Entry) (es : List Entry) → split (config_text e es) b';' ≡ map entry_text (e ∷ es)
split-config e [] = split-Lacks b';' (entry_text e) (entry-Lacks e)
split-config e (f ∷ fs) =
    split-append b';' (entry_text e) (config_text f fs) (entry-Lacks e)
    ∙ ap (◌∷◌ (entry_text e)) (split-config f fs)

append-ne-nil : (s t : Text) (c : ℕ) → s ++ (c ∷ t) ≢ []
append-ne-nil [] t c h = cc
append-ne-nil (d ∷ s) t c h = cc

config-ne-nil : (e : Entry) (es : List Entry) → config_text e es ≢ []
config-ne-nil e [] = append-ne-nil (itoa e.chain) (percents e.first e.others) b':'
config-ne-nil e (f ∷ fs) = append-ne-nil (entry_text e) (config_text f fs) b';'

parse_ne_nil :
    (s : Text) (fee : ℕ) → s ≢ [] → vip3_to_fee_map s fee ≡ add_chains (split s b';') fee []
unfolding vip3_to_fee_map
parse_ne_nil s fee h = rw (beq_ne s [] h)

-- For a configuration printed from entries whose chains and percentages (all but the first
-- percentage of each chain) fit in an `int`, vip3ToFeeMap gives the map with the fees of the
-- second and later percentages, in order, the last entry of a chain counting: the first
-- percentage of each chain is never read.
pub vip3_to_fee_map-table :
    (e : Entry) (es : List Entry) (fee : ℕ)
    → All Readable (e ∷ es)
    → vip3_to_fee_map (config_text e es) fee ≡ some (table (e ∷ es) fee [])
vip3_to_fee_map-table e es fee h =
    parse_ne_nil (config_text e es) fee (config-ne-nil e es)
    ∙ ap (λ cs. add_chains cs fee []) (split-config e es)
    ∙ add_chains-table (e ∷ es) fee [] h
