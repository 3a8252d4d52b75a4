-- ===== src/Eth/Plain.antt =====
-- The interface met by a concrete print: `0x` and lower-case digits.
use d8x_broker_server.Base.{◌≡◌, Option, none, some, ◌∷◌, arith, length, All}
use d8x_broker_server.Text.{Text, codes, trim_prefix}
use d8x_broker_server.Hex.{encode, decode}
use d8x_broker_server.Hex.Laws.{IsByte, decode-encode, length-encode}
use d8x_broker_server.Eth.{Address, zero_address, Eth}

unfoldable pub print : Address → Text
unfolding encode
print a = b'0' ∷ b'x' ∷ encode a

abbrev or_zero : Option Text → Address
or_zero none = zero_address
or_zero (some a) = a

unfoldable pub read : Text → Address
unfolding trim_prefix decode
read s = or_zero (decode (trim_prefix s (codes "0x")))

pub length-print : (a : Address) → length a ≡ 20 → length (print a) ≡ 42
unfolding print
length-print a h = omega (arith, length-encode a)

pub read-print : (a : Address) → length a ≡ 20 → All IsByte a → read (print a) ≡ a
unfolding read print
read-print a h b = rw (decode-encode a b)

abbrev pub plain : Eth
plain = record {
  hex = print;
  to_address = read;
  length-hex = length-print;
  to_address-hex = read-print;
}
