-- ===== src/Decimal.antt =====
-- strconv.Itoa and strconv.Atoi, for a 64-bit `int`. `atoi` returns the value and the error, as Go
-- does: the program often drops the error and goes on with the value, which is then 0 (syntax) or
-- the nearest `int` (range).
pub mod Print
pub mod Parse
use d8x_broker_server.Base.{
  ℕ, zero, suc, ◌+◌, ◌-◌, ◌*◌, ◌/◌, ◌%◌, ◌^◌, ◌≡◌, refl, Bool, true, false, ◌||◌, Option, none,
  some, [], ◌∷◌, arith, ltb, leb, ◌==◌, if◌then◌else◌, nat_eq, ℤ, pos, negsuc,
}
use d8x_broker_server.Text.{Text, codes}

-- The decimal digits of `n` in front of `out`. The fuel falls by one where `n` falls to a tenth, so
-- `suc n` is enough.
digits_from : ℕ → ℕ → Text → Text
digits_from zero n out = out
digits_from (suc f) n out =
    let rest = digits_from f (n / 10) ((b'0' + n % 10) ∷ out) in
    if ltb n 10 then (b'0' + n) ∷ out else rest

unfoldable pub digits : ℕ → Text
unfolding digits_from
digits n = digits_from (suc n) n []

-- strconv.Itoa
unfoldable pub itoa : ℤ → Text
unfolding digits
itoa (pos n) = digits n
itoa (negsuc n) = b'-' ∷ digits (suc n)

pub data NumError : Type 0 where
  syntax range : NumError

pub data Scan : Type 0 where
  value : ℕ → Scan
  bad_digit : Scan
  too_big : Scan

abbrev pub max_u64 : ℕ
max_u64 = 2 ^ 64 - 1

-- The loop of strconv.ParseUint in base 10: the first byte that is no digit, or the first digit by
-- which the number leaves 64 bits, ends it.
unfoldable pub scan : Text → ℕ → Scan
scan [] n = value n
scan (c ∷ s) n =
    let m = n * 10 + (c - b'0') in
    let rest = scan s m in
    if ltb c b'0' || ltb b'9' c then bad_digit else if ltb max_u64 m then too_big else rest

abbrev pub max_int : ℕ
max_int = 2 ^ 63 - 1

-- The end of strconv.ParseInt: the sign is put on, and what an `int` cannot hold is cut to its
-- nearest value.
unfoldable pub signed : Bool → Scan → ℤ × Option NumError
signed neg bad_digit = (pos 0, some syntax)
signed false too_big = (pos max_int, some range)
signed true too_big = (negsuc max_int, some range)
signed false (value n) = if leb n max_int then (pos n, none) else (pos max_int, some range)
signed true (value zero) = (pos 0, none)
signed true (value (suc n)) =
    if leb n max_int then (negsuc n, none) else (negsuc max_int, some range)

unfoldable pub unsigned_part : Bool → Text → ℤ × Option NumError
unfolding signed scan
unsigned_part neg [] = (pos 0, some syntax)
unsigned_part neg (c ∷ s) = signed neg (scan (c ∷ s) 0)

-- strconv.Atoi
unfoldable pub atoi : Text → ℤ × Option NumError
unfolding unsigned_part
atoi [] = (pos 0, some syntax)
atoi (c ∷ s) =
    if c == b'-'
    then unsigned_part true s
    else if c == b'+'
    then unsigned_part false s
    else unsigned_part false (c ∷ s)

itoa_min : itoa (negsuc max_int) ≡ codes "-9223372036854775808"
unfolding itoa
itoa_min = refl

atoi_min : atoi (codes "-9223372036854775808") ≡ (negsuc max_int, none)
unfolding atoi
atoi_min = refl

atoi_range : atoi (codes "99999999999999999999x") ≡ (pos max_int, some range)
unfolding atoi
atoi_range = refl

atoi_syntax : atoi (codes "12x") ≡ (pos 0, some syntax)
unfolding atoi
atoi_syntax = refl
