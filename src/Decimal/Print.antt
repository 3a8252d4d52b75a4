-- ===== src/Decimal/Print.antt =====
-- What `itoa` prints, and what `atoi` reads of it.
use d8x_broker_server.Base.{
  ℕ, zero, suc, ◌+◌, ◌/◌, ◌%◌, ◌≤◌, ◌<◌, ◌≡◌, refl, ◌∙◌, ap, inl, inr, Bool-cases, Bool, true,
  false, none, [], ◌∷◌, arith, ltb, nat_eq, ℤ, pos, negsuc, All,
}
use d8x_broker_server.Text.{Text}
use d8x_broker_server.Decimal.{
  digits_from, digits, itoa, value, max_u64, max_int, scan, signed, unsigned_part, atoi,
}

abbrev pub IsDigit : ℕ → Type 0
IsDigit c = (b'0' ≤ c) × (c ≤ b'9')

-- A text that begins with a digit, and with 0 only if it is that one digit.
-- The values of a 64-bit `int`.
abbrev pub IsInt : ℤ → Type 0
IsInt (pos n) = n ≤ max_int
IsInt (negsuc n) = n ≤ max_int

minus : (s : Text) → atoi (b'-' ∷ s) ≡ unsigned_part true s
unfolding atoi
minus s = refl

digits_from-All :
    (f n : ℕ) (out : Text) → n < f → All IsDigit out → All IsDigit (digits_from f n out)
unfolding digits_from
digits_from-All zero n out h a = elim h [ ]
digits_from-All (suc f) n out h a =
    ground (arith, digits_from-All f (n / 10) ((b'0' + n % 10) ∷ out))

pub digits-All : (n : ℕ) → All IsDigit (digits n)
unfolding digits
digits-All n = digits_from-All (suc n) n [] (omega arith) tt

digits_from-cons :
    (f n : ℕ) (out : Text)
    → n < f
    → 0 < n
    → (c : ℕ) × (s : Text) × (digits_from f n out ≡ c ∷ s) × (b'0' < c) × (c ≤ b'9')
unfolding digits_from
digits_from-cons zero n out h p = elim h [ ]
digits_from-cons (suc f) n out h p = elim (Bool-cases (ltb n 10)) [
  | inl small ↦ (b'0' + n, out, rw small, omega arith, ground arith)
  | inr large ↦
      rw large (digits_from-cons f (n / 10) ((b'0' + n % 10) ∷ out) (omega arith) (ground arith))
]

scan-digits_from :
    (f n : ℕ) (out : Text) → n < f → n ≤ max_u64 → scan (digits_from f n out) 0 ≡ scan out n
unfolding digits_from scan
scan-digits_from zero n out h fits = elim h [ ]
scan-digits_from (suc f) n out h fits =
    ground (arith, scan-digits_from f (n / 10) ((b'0' + n % 10) ∷ out))

pub scan-digits : (n : ℕ) → n ≤ max_u64 → scan (digits n) 0 ≡ value n
unfolding digits scan
scan-digits n h = scan-digits_from (suc n) n [] (omega arith) h

-- The digits of a positive number begin with no 0.
pub digits-positive : (n : ℕ) → 0 < n → (c : ℕ) × (s : Text) × (digits n ≡ c ∷ s) × (b'0' < c)
unfolding digits
digits-positive n h =
    let (c, s, e, low, high) = digits_from-cons (suc n) n [] (omega arith) h in (c, s, e, low)

-- The digits of a number, taken apart at the first.
pub digits-cons : (n : ℕ) → (c : ℕ) × (s : Text) × (digits n ≡ c ∷ s) × IsDigit c
unfolding digits digits_from
digits-cons zero = (b'0', [], refl, omega arith)
digits-cons (suc n) =
    let (c, s, e, low, high) =
      digits_from-cons (suc (suc n)) (suc n) [] (omega arith) (omega arith) in
    (c, s, e, omega arith)

signed-fits : (n : ℕ) → n ≤ max_int → signed false (value n) ≡ (pos n, none)
unfolding signed
signed-fits n h = ground arith

signed-negative : (n : ℕ) → n ≤ max_int → signed true (value (suc n)) ≡ (negsuc n, none)
unfolding signed
signed-negative n h = ground arith

scan-of_digits : (n c : ℕ) (s : Text) → digits n ≡ c ∷ s → n ≤ max_u64 → scan (c ∷ s) 0 ≡ value n
scan-of_digits n c s e h = rw (← e) (scan-digits n h)

unsigned_part-digits :
    (neg : Bool) (n : ℕ) → n ≤ max_u64 → unsigned_part neg (digits n) ≡ signed neg (value n)
unfolding unsigned_part
unsigned_part-digits neg n h =
    let (c, s, e, _) = digits-cons n in rw e (ap (signed neg) (scan-of_digits n c s e h))

-- A text that begins with a digit has no sign.
pub atoi-digit : (c : ℕ) (s : Text) → IsDigit c → atoi (c ∷ s) ≡ unsigned_part false (c ∷ s)
unfolding atoi
atoi-digit c s h = ground arith

-- Every `int` is read back from its print, with no error.
pub atoi-itoa : (a : ℤ) → IsInt a → atoi (itoa a) ≡ (a, none)
unfolding itoa
atoi-itoa (pos n) h =
    let (c, s, e, digit) = digits-cons n in
    let parsed = unsigned_part-digits false n (omega arith) in
    let unsigned : atoi (digits n) ≡ unsigned_part false (digits n) = rw e (atoi-digit c s digit) in
    unsigned ∙ parsed ∙ signed-fits n h
atoi-itoa (negsuc n) h =
    minus (digits (suc n)) ∙ unsigned_part-digits true (suc n) (omega arith) ∙ signed-negative n h
