-- ===== src/Ws/Topic.antt =====
-- isValidOrderTopic of executorws/server.go. A topic is `perpetualId:chainId`.
pub mod Accepts
use d8x_broker_server.Base.{
  ◌≡◌, refl, Bool, true, false, ◌&&◌, ◌||◌, not, [], ◌∷◌, arith, leb, ◌==◌, if◌then◌else◌, nat_eq,
  ℕ, ℤ, pos, int_eq, ltb_ℤ, Map,
}
use d8x_broker_server.Text.{Text, codes, cut_before, cut_after}
use d8x_broker_server.Decimal.{atoi}
use d8x_broker_server.Orders.{ChainConfig}

is_digit : ℕ → Bool
is_digit c = leb b'0' c && leb c b'9'

-- The regular expression `^[0-9]+:[0-9]+$`: `in_chain` is the part behind the colon, and the other
-- Boolean says whether the part has a digit yet.
matches_from : Bool → Bool → Text → Bool
unfolding is_digit
matches_from in_chain some_digit [] = in_chain && some_digit
matches_from in_chain some_digit (c ∷ s) = elim (is_digit c) [
  | true ↦ matches_from in_chain true s
  | false ↦ elim (c == b':') [
    | true ↦ elim (some_digit && not in_chain) [ true ↦ matches_from true false s | false ↦ false ]
    | false ↦ false
  ]
]

unfoldable pub matches : Text → Bool
unfolding matches_from
matches s = matches_from false false s

-- The loop over the chains that the configuration supports.
unfoldable pub supports : Map ℤ ChainConfig → ℤ → Bool
supports [] id = false
supports ((k, el) ∷ config) id = el.chain_id == id || supports config id

unfoldable pub is_valid_order_topic : Map ℤ ChainConfig → Text → Bool
unfolding matches supports
is_valid_order_topic config topic =
    if not (matches topic)
    then false
    else if ltb_ℤ (atoi (cut_before b':' topic)).0 (pos 100000)
    then false
    else supports config (atoi (cut_after b':' topic)).0

no_colon : matches (codes "100000") ≡ false
unfolding matches
no_colon = refl

two_parts : matches (codes "100000:1101") ≡ true
unfolding matches
two_parts = refl

three_parts : matches (codes "100000:1101:1") ≡ false
unfolding matches
three_parts = refl
