-- ===== src/Hex.antt =====
-- encoding/hex: two lower-case digits for each byte.
pub mod Laws
use d8x_broker_server.Base.{
  ℕ, ◌+◌, ◌-◌, ◌*◌, ◌/◌, ◌%◌, ◌≡◌, refl, ◌&&◌, Option, none, some, [], ◌∷◌, arith, ltb, leb,
  if◌then◌else◌,
}
use d8x_broker_server.Text.{Text, codes}

hex_digit : ℕ → ℕ
hex_digit n = if ltb n 10 then b'0' + n else b'a' + (n - 10)

unfoldable pub encode : Text → Text
unfolding hex_digit
encode [] = []
encode (b ∷ s) = hex_digit (b / 16) ∷ hex_digit (b % 16) ∷ encode s

-- Digits are read in both cases.
nibble : ℕ → Option ℕ
nibble c =
    if leb b'0' c && leb c b'9'
    then some (c - b'0')
    else if leb b'a' c && leb c b'f'
    then some (c - b'a' + 10)
    else if leb b'A' c && leb c b'F'
    then some (c - b'A' + 10)
    else none

abbrev join : Option ℕ → Option ℕ → Option Text → Option Text
join (some h) (some l) (some s) = some ((h * 16 + l) ∷ s)
join _ _ _ = none

-- A text of odd length is refused.
unfoldable pub decode : Text → Option Text
unfolding nibble
decode [] = some []
decode (c ∷ []) = none
decode (c ∷ d ∷ s) = join (nibble c) (nibble d) (decode s)

encode_three : encode (0 ∷ 171 ∷ 255 ∷ []) ≡ codes "00abff"
unfolding encode
encode_three = refl
