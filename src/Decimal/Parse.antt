-- ===== src/Decimal/Parse.antt =====
-- What `atoi` returns for a text of digits, whether or not its number fits an `int`.
use mathlib.Core.List.{foldl}
use Prim.Native.Nat.{min}
use d8x_broker_server.Base.{
  ℕ, ◌+◌, ◌-◌, ◌*◌, ◌≤◌, ◌<◌, ◌≡◌, ◌≢◌, refl, ◌⊎◌, inl, inr, false, [], ◌∷◌, arith, pos, All, ◌∙◌,
  ap,
}
use d8x_broker_server.Text.{Text}
use d8x_broker_server.Decimal.{value, too_big, max_u64, max_int, scan, signed, unsigned_part, atoi}
use d8x_broker_server.Decimal.Print.{IsDigit, atoi-digit}

-- The number that digits spell behind `n`, with no bound.
abbrev pub spelled : ℕ → Text → ℕ
spelled = foldl (λ n c. n * 10 + (c - b'0'))

le-spelled : (s : Text) (n : ℕ) → n ≤ spelled n s
le-spelled [] n = omega arith
le-spelled (c ∷ s) n = omega (arith, le-spelled s (n * 10 + (c - b'0')))

scan-spelled :
    (s : Text) (n : ℕ)
    → All IsDigit s
    → ((scan s n ≡ value (spelled n s)) ⊎ ((scan s n ≡ too_big) × (max_u64 < spelled n s)))
unfolding scan
scan-spelled [] n h = inl refl
scan-spelled (c ∷ s) n (hc, hs) =
    let m = n * 10 + (c - b'0') in ground (arith, scan-spelled s m hs, le-spelled s m)

signed-spelled : (n : ℕ) → (signed false (value n)).0 ≡ pos (min n max_int)
unfolding signed
signed-spelled n = ground arith

signed-too_big : (signed false too_big).0 ≡ pos max_int
unfolding signed
signed-too_big = refl

min-of_large : (n : ℕ) → max_u64 < n → pos max_int ≡ pos (min n max_int)
min-of_large n h = ap pos (omega arith)

atoi-unsigned :
    (c : ℕ) (s : Text) → IsDigit c → (atoi (c ∷ s)).0 ≡ (signed false (scan (c ∷ s) 0)).0
atoi-unsigned c s h = rw (atoi-digit c s h) (unfold unsigned_part in refl)

-- The value that `atoi` returns for one or more digits is their number, or the greatest `int`.
pub atoi-All : (s : Text) → s ≢ [] → All IsDigit s → (atoi s).0 ≡ pos (min (spelled 0 s) max_int)
atoi-All [] ne h = absurd (ne refl)
atoi-All (c ∷ s) ne h = elim (scan-spelled (c ∷ s) 0 h) [
  | inl e ↦ atoi-unsigned c s h.0 ∙ ap (λ r. (signed false r).0) e ∙ signed-spelled _
  | inr (e, large) ↦
      atoi-unsigned c s h.0 ∙ ap (λ r. (signed false r).0) e ∙ signed-too_big ∙ min-of_large _ large
]
