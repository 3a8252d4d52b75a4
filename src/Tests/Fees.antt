-- ===== src/Tests/Fees.antt =====
-- Runs of the fee computation.
use d8x_broker_server.Base.{
  Option, none, ℤ, ◌==◌, if◌then◌else◌, ◌≡◌, ◌≤◌, refl, [], ◌∷◌, some, pos, negsuc, lookup, arith,
  true, int_eq, insert, quot, residue, wrap64, ◌*ℤ◌, ◌-ℤ◌,
}
use d8x_broker_server.Text.{Text, text_eq, to_lower, codes, text_beq, split, trim_suffix}
use d8x_broker_server.Decimal.{atoi, itoa}
use d8x_broker_server.Redis.Memory.{memory, start}
use d8x_broker_server.Redis.Connected.{memory-Connected}
use d8x_broker_server.Fee.{
  reduced_fee, vip3_to_fee_map, reduce_by_level, get_vip3_level, rest_get_vip3_level,
}
use d8x_broker_server.Fee.Config.{Entry, config_text, table, vip3_to_fee_map-table}
use d8x_broker_server.Fee.Bounds.{Charged, chain_of, reduce_by_level-Charged, charge-le-base}
use d8x_broker_server.Fee.Level.{get_vip3_level-cached}
use d8x_broker_server.Tests.Data.{levels}

abbrev entry : Entry
entry = record { chain = pos 1101; first = pos 50; others = pos 75 ∷ pos 90 ∷ [] }

reduce_by_level-Charged_example :
    Charged 400
      (lookup (chain_of levels (negsuc 0)) levels)
      (pos 5)
      (reduce_by_level 400 levels (negsuc 0) (pos 5))
reduce_by_level-Charged_example = reduce_by_level-Charged 400 levels (negsuc 0) (pos 5)

vip3_to_fee_map-table_example :
    vip3_to_fee_map (config_text entry []) 400 ≡ some (table (entry ∷ []) 400 [])
vip3_to_fee_map-table_example =
    vip3_to_fee_map-table entry [] 400
      (record { chain_int = omega arith; others_int = (omega arith, (omega arith, tt)) }, tt)

charge-le-base_example : 40 ≤ 400
unfolding vip3_to_fee_map text_beq split atoi itoa trim_suffix insert reduced_fee residue quot
    wrap64 ◌*ℤ◌ ◌-ℤ◌ reduce_by_level lookup
charge-le-base_example =
    charge-le-base entry [] 400 levels (pos 1101) (pos 2) 40 (omega arith)
      (record { chain_int = omega arith; others_int = (omega arith, (omega arith, tt)) }, tt)
      ((omega arith, (omega arith, tt)), tt) refl refl

-- A site that knows the level of one trader.
abbrev site : Text → Option Text
site url =
    if url == codes "https://dappapi.vip3.io/api/v1/sbt/info?addr=0xab"
    then some (codes "2")
    else none

abbrev asked : Text → Option ℤ
asked = rest_get_vip3_level site (λ body. some (atoi body).0)

get_vip3_level-cached_example :
    ((get_vip3_level (memory true) asked (codes "0xAB") start).0 ≡ pos 2)
    × ((get_vip3_level
          (memory true)
          (λ t. some (pos 3))
          (codes "0xAB")
          (get_vip3_level (memory true) asked (codes "0xAB") start).1).0
        ≡ pos 2)
unfolding rest_get_vip3_level to_lower text_beq atoi
get_vip3_level-cached_example =
    get_vip3_level-cached (memory true) memory-Connected asked (λ t. some (pos 3)) (codes "0xAB")
      start (pos 2) refl refl (omega arith)
