-- ===== src/Hex/Laws.antt =====
-- Decoding of an encoded text, and its digits.
use d8x_broker_server.Base.{ℕ, ◌/◌, ◌%◌, ◌*◌, ◌<◌, ◌≡◌, refl, some, [], ◌∷◌, arith, length, All}
use d8x_broker_server.Text.{Text}
use d8x_broker_server.Text.Laws.{Lacks}
use d8x_broker_server.Hex.{hex_digit, nibble, encode, decode}

abbrev pub IsByte : ℕ → Type 0
IsByte b = b < 256

nibble-hex_digit : (n : ℕ) → n < 16 → nibble (hex_digit n) ≡ some n
unfolding nibble hex_digit
nibble-hex_digit n h = ground arith

hex_digit-ne-x : (n : ℕ) → n < 16 → ¬ (hex_digit n ≡ b'x')
unfolding hex_digit
hex_digit-ne-x n h = ground arith

hex_digit-ne-colon : (n : ℕ) → n < 16 → ¬ (hex_digit n ≡ b':')
unfolding hex_digit
hex_digit-ne-colon n h = ground arith

pub decode-encode : (s : Text) → All IsByte s → decode (encode s) ≡ some s
unfolding decode encode
decode-encode [] h = refl
decode-encode (b ∷ s) (hb, hs) =
    rw
      (
        nibble-hex_digit (b / 16) (omega arith),
        nibble-hex_digit (b % 16) (omega arith),
        decode-encode s hs,
      )
      (ground arith)

no_digit-Lacks :
    (b : ℕ)
    → ((n : ℕ) → n < 16 → ¬ (hex_digit n ≡ b))
    → (s : Text) → All IsByte s
    → Lacks b (encode s)
unfolding encode
no_digit-Lacks b none_is [] h = tt
no_digit-Lacks b none_is (c ∷ s) (hc, hs) = (
  none_is (c / 16) (omega arith),
  (none_is (c % 16) (omega arith), no_digit-Lacks b none_is s hs),
)

pub encode-Lacks : (s : Text) → All IsByte s → Lacks b'x' (encode s)
encode-Lacks = no_digit-Lacks b'x' hex_digit-ne-x

pub encode-Lacks_colon : (s : Text) → All IsByte s → Lacks b':' (encode s)
encode-Lacks_colon = no_digit-Lacks b':' hex_digit-ne-colon

pub length-encode : (s : Text) → length (encode s) ≡ 2 * length s
unfolding encode
length-encode [] = refl
length-encode (b ∷ s) = omega (arith, length-encode s)
