-- ===== src/Eth.antt =====
-- Ethereum addresses, and the functions of go-ethereum and of the futures SDK on them that the
-- program calls: `Address.Hex` (and `String`) and `common.HexToAddress`. An address is its 20
-- bytes. How the letters of the print are cased rests on a hash, so the print is a parameter.
pub mod Plain
use d8x_broker_server.Base.{ℕ, ◌≡◌, List, [], ◌∷◌, length, All}
use d8x_broker_server.Text.{Text}
use d8x_broker_server.Hex.Laws.{IsByte}

abbrev pub Address : Type 0
Address = Text

-- `common.Address{}`
abbrev pub zero_address : Address
zero_address = 0 ∷ 0 ∷ 0 ∷ 0 ∷ 0 ∷ 0 ∷ 0 ∷ 0 ∷ 0 ∷ 0 ∷ 0 ∷ 0 ∷ 0 ∷ 0 ∷ 0 ∷ 0 ∷ 0 ∷ 0 ∷ 0 ∷ 0 ∷ []

pub record Eth : Type 0 where
  pub hex : Address → Text
  pub to_address : Text → Address
  pub length-hex : (a : Address) → length a ≡ 20 → length (hex a) ≡ 42
  pub to_address-hex : (a : Address) → length a ≡ 20 → All IsByte a → to_address (hex a) ≡ a
