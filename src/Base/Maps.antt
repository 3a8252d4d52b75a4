-- ===== src/Base/Maps.antt =====
-- Go's maps: an association list in which each key stands once. The order of the list is the one in
-- which a `range` loop of the run at hand visits the keys, which Go leaves open, so what is proved
-- for every list is proved for every order.
use mathlib.Core.Path.{◌≡◌, refl, subst}
use mathlib.Core.Logic.{◌≢◌, inl, inr}
use mathlib.Core.List.{List, [], ◌∷◌}
use mathlib.Core.Option.{Option, none, some}
use native.Mathlib.Omega.{arith}
use d8x_broker_server.Base.Tests.{Eq, ◌==◌, if◌then◌else◌, beq_self, Bool-cases}
use d8x_broker_server.Base.Lists.{All}

abbrev pub Map {ℓ κ} : Type ℓ → Type κ → Type (ℓ ⊔ κ)
Map K V = List (K × V)

module _ {ℓ κ} {K : Type ℓ} {V : Type κ} ⦃e : Eq K⦄ where
  unfoldable pub lookup : K → Map K V → Option V
  lookup k [] = none
  lookup k ((j, v) ∷ m) = if j == k then some v else lookup k m

  -- `m[k] = v`
  unfoldable pub insert : K → V → Map K V → Map K V
  insert k v [] = (k, v) ∷ []
  insert k v ((i, old) ∷ more) = if i == k then (k, v) ∷ more else (i, old) ∷ insert k v more

  -- `delete(m, k)`
  unfoldable pub delete : K → Map K V → Map K V
  delete k [] = []
  delete k ((j, w) ∷ m) = if j == k then delete k m else (j, w) ∷ delete k m

  -- `m[k]` with the zero value for a missing key
  abbrev pub get_or : V → K → Map K V → V
  get_or d k m = elim (lookup k m) [ none ↦ d | some v ↦ v ]

  pub lookup-insert :
      (k j : K) (v : V) (m : Map K V)
      → lookup j (insert k v m) ≡ (if k == j then some v else lookup j m)
  unfolding lookup insert
  lookup-insert k j v ((i, old) ∷ more) =
      ground (lookup-insert k j v more, arith, e.beq_iff i k, e.beq_iff k j, e.beq_iff i j)
  lookup-insert k j v [] = refl

  pub lookup-insert_self : (k : K) (v : V) (m : Map K V) → lookup k (insert k v m) ≡ some v
  lookup-insert_self k v m = rw (lookup-insert k k v m, beq_self k) refl

  pub lookup-delete :
      (k j : K) (m : Map K V) → lookup j (delete k m) ≡ (if k == j then none else lookup j m)
  unfolding lookup delete
  lookup-delete k j [] = ground arith
  lookup-delete k j ((i, w) ∷ m) =
      ground (arith, e.beq_iff k j, e.beq_iff i k, e.beq_iff i j, lookup-delete k j m)

  -- Each key stands once.
  abbrev pub HasDistinctKeys : Map K V → Type ℓ
  HasDistinctKeys [] = Unit
  HasDistinctKeys ((k, v) ∷ m) = All (λ p. p.0 ≢ k) m × HasDistinctKeys m

  pub insert-Fresh :
      (k j : K) (v : V) (m : Map K V)
      → k ≢ j
      → All (λ p. p.0 ≢ j) m
      → All (λ p. p.0 ≢ j) (insert k v m)
  unfolding insert
  insert-Fresh k j v [] h _ = (h, tt)
  insert-Fresh k j v ((i, w) ∷ m) h f = ground (arith, insert-Fresh k j v m h f.1)

  pub insert-HasDistinctKeys :
      (k : K) (v : V) (m : Map K V) → HasDistinctKeys m → HasDistinctKeys (insert k v m)
  unfolding insert
  insert-HasDistinctKeys k v [] h = (tt, tt)
  insert-HasDistinctKeys k v ((j, w) ∷ m) h = elim (Bool-cases (j == k)) [
    | inl same ↦ rw same (ground (arith, e.beq_iff j k))
    | inr differ ↦
        rw differ (
          insert-Fresh k j v m (ground (arith, e.beq_iff j k)) h.0,
          insert-HasDistinctKeys k v m h.1,
        )
  ]

  pub delete-Fresh :
      (k j : K) (m : Map K V) → All (λ p. p.0 ≢ j) m → All (λ p. p.0 ≢ j) (delete k m)
  unfolding delete
  delete-Fresh k j [] f = tt
  delete-Fresh k j ((i, w) ∷ m) f = ground (arith, delete-Fresh k j m f.1)

  pub delete-HasDistinctKeys :
      (k : K) (m : Map K V) → HasDistinctKeys m → HasDistinctKeys (delete k m)
  unfolding delete
  delete-HasDistinctKeys k [] h = tt
  delete-HasDistinctKeys k ((j, w) ∷ m) h =
      ground (arith, delete-Fresh k j m h.0, delete-HasDistinctKeys k m h.1)

  -- What holds of a new entry and of all others holds after the entry is written.
  pub All-insert {ι} :
      (P : K × V → Type ι) (k : K) (v : V) (m : Map K V) → P (k, v) → All P m → All P (insert k v m)
  unfolding insert
  All-insert P k v [] p h = (p, tt)
  All-insert P k v ((j, w) ∷ m) p h = elim (Bool-cases (j == k)) [
    | inl same ↦ rw same (p, h.1)
    | inr differ ↦ rw differ (h.0, All-insert P k v m p h.1)
  ]

  pub All-lookup {ι} :
      (P : K × V → Type ι) (k : K) (v : V) (m : Map K V) → lookup k m ≡ some v → All P m → P (k, v)
  unfolding lookup
  All-lookup P k v [] h a = cc
  All-lookup P k v ((j, w) ∷ m) h a = elim (Bool-cases (j == k)) [
    | inl same ↦ let entry : (j, w) ≡ (k, v) = ground (arith, e.beq_iff j k) in subst P entry a.0
    | inr differ ↦ All-lookup P k v m (ground arith) a.1
  ]
