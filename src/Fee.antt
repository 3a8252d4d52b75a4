-- ===== src/Fee.antt =====
-- api/fee.go: the broker fee of a trader, reduced by the trader's VIP3 level. The answer of
-- RestGetVip3Level is a parameter of the functions that ask for it.
pub mod Config
pub mod Level
pub mod Bounds
use d8x_broker_server.Base.{
  ℕ, zero, suc, ◌*◌, residue, ◌≡◌, refl, Bool, true, false, List, [], ◌∷◌, ◌++◌, Option, none, some,
  ◌==◌, if◌then◌else◌, ltb, nat_eq, length, get_elem?, Map, insert, lookup, ℤ, pos, negsuc, int_eq,
  ltb_ℤ, ◌-ℤ◌, ◌*ℤ◌, quot, wrap64, uint16,
}
use d8x_broker_server.Text.{Text, text_eq, text_beq, codes, to_lower, trim_suffix, split}
use d8x_broker_server.Decimal.{atoi, itoa}
use d8x_broker_server.Redis.{Redis}
use d8x_broker_server.Redis.Documented.{Reply, ok, err}

abbrev pub FeeLevels : Type 0
FeeLevels = Map ℤ (List ℕ)

-- uint16((100-valuePerc)*int(brokerFeeTbps)/100)
unfoldable pub reduced_fee : ℤ → ℕ → ℕ
reduced_fee value_perc fee = uint16 (quot (wrap64 (wrap64 (pos 100 -ℤ value_perc) *ℤ pos fee)) 100)

-- The loop over the percentages.
unfoldable pub fees_from : List Text → ℕ → Option (List ℕ)
fees_from [] fee = some []
fees_from (t ∷ ts) fee = elim (atoi t).1 [
  | some e ↦ none
  | none ↦ elim (fees_from ts fee) [
    | none ↦ none
    | some fs ↦ some (reduced_fee (atoi t).0 fee ∷ fs)
  ]
]

-- The loop begins at the index 1, so the first part is not read.
unfoldable pub fees_of : List Text → ℕ → Option (List ℕ)
unfolding fees_from
fees_of [] fee = some []
fees_of (t ∷ ts) fee = fees_from ts fee

-- One round of the loop over the chains, on the parts between the colons.
unfoldable pub chain_fees : List Text → ℕ → Option (ℤ × List ℕ)
unfolding fees_of
chain_fees [] fee = none
chain_fees (v ∷ []) fee = none
chain_fees (v ∷ w ∷ more) fee = elim (atoi v).1 [
  | some e ↦ none
  | none ↦ elim (fees_of (split (trim_suffix w b';') b',') fee) [
    | none ↦ none
    | some fees ↦ some ((atoi v).0, fees)
  ]
]

unfoldable pub add_chains : List Text → ℕ → FeeLevels → Option FeeLevels
unfolding chain_fees
add_chains [] fee m = some m
add_chains (c ∷ cs) fee m = elim (chain_fees (split c b':') fee) [
  | none ↦ none
  | some (chain_id, fees) ↦ add_chains cs fee (insert chain_id fees m)
]

-- vip3ToFeeMap; `none` is the nil map.
unfoldable pub vip3_to_fee_map : Text → ℕ → Option FeeLevels
unfolding add_chains
vip3_to_fee_map fee_reduc fee =
    if fee_reduc == [] then none else add_chains (split fee_reduc b';') fee []

-- A fee, or a panic: an index out of range.
pub data Charge : Type 0 where
  charged : ℕ → Charge
  panics : Charge

abbrev pub or_panic : Option ℕ → Charge
or_panic none = panics
or_panic (some fee) = charged fee

-- `fees[l-1]`
unfoldable pub fee_at : List ℕ → ℤ → Charge
fee_at fees (pos zero) = panics
fee_at fees (pos (suc l)) = or_panic (get_elem? fees l)
fee_at fees (negsuc l) = panics

-- The first key that a loop over the map meets.
abbrev pub some_chain : FeeLevels → ℤ → ℤ
some_chain [] chain_id = chain_id
some_chain ((k, fees) ∷ m) chain_id = k

-- The fee for a level, on what the map holds for the chain.
unfoldable pub charge_at : ℕ → Option (List ℕ) → ℤ → Charge
unfolding fee_at
charge_at fee levels l = if l == pos 0 then charged fee else elim levels [
  | none ↦ charged fee
  | some fees ↦ fee_at fees (if ltb_ℤ (pos (length fees)) l then pos (length fees) else l)
]

-- getReducedBrokerFeeTbps behind the call of GetVip3Level.
unfoldable pub reduce_by_level : ℕ → FeeLevels → ℤ → ℤ → Charge
unfolding charge_at
reduce_by_level fee m chain_id l =
    let chain = if chain_id == negsuc 0 then some_chain m chain_id else chain_id in
    charge_at fee (lookup chain m) l

abbrev pub vip3_info_expiry_sec : ℕ
vip3_info_expiry_sec = 7 * 86400

unfoldable pub vip3_key : Text → Text
vip3_key trader_addr = codes "VIP:" ++ trader_addr

abbrev pub api_url : Text
api_url = codes "https://dappapi.vip3.io/api/v1/sbt/info"

-- RestGetVip3Level; the HTTP client and the JSON decoder are parameters, and so is the field
-- `data.level` of what it decodes. `none` is an error.
unfoldable pub rest_get_vip3_level : (Text → Option Text) → (Text → Option ℤ) → Text → Option ℤ
rest_get_vip3_level http_get decode_level trader_addr =
    elim (http_get (api_url ++ (codes "?addr=" ++ trader_addr))) [
      | none ↦ none
      | some body ↦ decode_level body
    ]

module _ (r : Redis) (rest_level : Text → Option ℤ) where
  open r use {Store, get, set, expire}

  -- The level from the REST service is stored, and the error of the store dropped.
  unfoldable pub fetch_level : Text → Store → ℤ × Store
  fetch_level trader_addr s = elim (rest_level trader_addr) [
    | none ↦ (pos 0, s)
    | some lvl ↦
        let key = vip3_key trader_addr in
        (lvl, expire key vip3_info_expiry_sec (set key (itoa lvl) s).1)
  ]

  -- GetVip3Level
  unfoldable pub get_vip3_level : Text → Store → ℤ × Store
  unfolding fetch_level
  get_vip3_level trader_addr s =
      let trader = to_lower trader_addr in
      let (reply, s') = get (vip3_key trader) s in
      elim reply [ err e ↦ fetch_level trader s' | ok lvl ↦ ((atoi lvl).0, s') ]

  unfoldable pub get_reduced_broker_fee_tbps : ℕ → FeeLevels → Text → ℤ → Store → Charge × Store
  get_reduced_broker_fee_tbps fee m trader_addr chain_id s =
      let (l, s') = get_vip3_level (to_lower trader_addr) s in
      (reduce_by_level fee m chain_id l, s')

  -- getBrokerFeeTbps
  unfoldable pub get_broker_fee_tbps : ℕ → Option FeeLevels → Text → ℤ → Store → Charge × Store
  get_broker_fee_tbps fee none trader_addr chain_id s = (charged fee, s)
  get_broker_fee_tbps fee (some m) trader_addr chain_id s =
      get_reduced_broker_fee_tbps fee m trader_addr chain_id s

example_map : vip3_to_fee_map (codes "1101:50,75,90") 400 ≡ some ((pos 1101, 100 ∷ 40 ∷ []) ∷ [])
unfolding vip3_to_fee_map text_beq split atoi trim_suffix insert reduced_fee residue quot wrap64
    ◌*ℤ◌ ◌-ℤ◌
example_map = refl
