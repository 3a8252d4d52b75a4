-- ===== src/Base/Swap.antt =====
-- A list of which one item is replaced.
use Prim.Native.Nat.{ℕ, zero, suc}
use mathlib.Core.Path.{◌≡◌, subst}
use mathlib.Core.Logic.{◌⊎◌, inl, inr}
use mathlib.Core.Option.{some}
use mathlib.Core.List.{List, [], ◌∷◌, ◌++◌}
use d8x_broker_server.Base.Lists.{All, get_elem?}

module _ {A : Type 0} (P : A → Type 0) where
  abbrev pub Any : List A → Type 0
  Any [] = ⊥
  Any (x ∷ xs) = P x ⊎ Any xs

  pub All-item : (before after : List A) (x : A) → All P (before ++ x ∷ after) → P x
  All-item [] after x h = h.0
  All-item (y ∷ before) after x h = All-item before after x h.1

  pub All-swap :
      (before after : List A) (x y : A)
      → All P (before ++ x ∷ after)
      → P y
      → All P (before ++ y ∷ after)
  All-swap [] after x y h py = (py, h.1)
  All-swap (z ∷ before) after x y h py = (h.0, All-swap before after x y h.1 py)

  pub Any-item : (before after : List A) (y : A) → P y → Any (before ++ y ∷ after)
  Any-item [] after y py = inl py
  Any-item (z ∷ before) after y py = inr (Any-item before after y py)

  -- The item itself, or the list after any replacement.
  pub Any-swap :
      (before after : List A) (x y : A)
      → Any (before ++ x ∷ after)
      → P x ⊎ Any (before ++ y ∷ after)
  Any-swap [] after x y (inl px) = inl px
  Any-swap [] after x y (inr h) = inr (inr h)
  Any-swap (z ∷ before) after x y (inl pz) = inr (inl pz)
  Any-swap (z ∷ before) after x y (inr h) = elim (Any-swap before after x y h) [
    | inl px ↦ inl px
    | inr rest ↦ inr (inr rest)
  ]

  pub Any-none : (xs : List A) → All (λ x. ¬ P x) xs → ¬ Any xs
  Any-none [] h a = a
  Any-none (x ∷ xs) h (inl px) = h.0 px
  Any-none (x ∷ xs) h (inr rest) = Any-none xs h.1 rest

pub get_elem?-cases {ℓ} :
    {A : Type ℓ} (xs ys : List A) (i : ℕ) (x : A)
    → get_elem? (xs ++ ys) i ≡ some x
    → (get_elem? xs i ≡ some x) ⊎ ((j : ℕ) × (get_elem? ys j ≡ some x))
get_elem?-cases [] ys i x h = inr (i, h)
get_elem?-cases (z ∷ xs) ys zero x h = inl h
get_elem?-cases (z ∷ xs) ys (suc i) x h = get_elem?-cases xs ys i x h

pub All-get_elem? {ℓ κ} :
    {A : Type ℓ} (P : A → Type κ) (xs : List A) (i : ℕ) (x : A)
    → All P xs
    → get_elem? xs i ≡ some x
    → P x
All-get_elem? P [] i x h at = cc at
All-get_elem? P (y ∷ xs) zero x h at = subst P (cc at) h.0
All-get_elem? P (y ∷ xs) (suc i) x h at = All-get_elem? P xs i x h.1 at
