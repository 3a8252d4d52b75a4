-- ===== src/Text/Laws.antt =====
-- Laws of the string functions: where a text is cut, and what folding and trimming leave alone.
use d8x_broker_server.Base.{ℕ, ◌≡◌, refl, ap, ◌≢◌, [], ◌∷◌, ◌++◌, arith, All, false}
use mathlib.Core.List.{append-nil, append_assoc}
use d8x_broker_server.Text.{
  Text, codes, has_prefix, trim_prefix, cut_before, cut_after, split_from, split, trim_suffix,
}

abbrev pub Lacks : ℕ → Text → Type 0
Lacks b = All (λ c. c ≢ b)

pub cut_before-append : (sep : ℕ) (s t : Text) → Lacks sep s → cut_before sep (s ++ sep ∷ t) ≡ s
unfolding cut_before
cut_before-append sep [] t h = ground arith
cut_before-append sep (c ∷ s) t h = ground (arith, cut_before-append sep s t h.1)

pub cut_after-append : (sep : ℕ) (s t : Text) → Lacks sep s → cut_after sep (s ++ sep ∷ t) ≡ t
unfolding cut_after
cut_after-append sep [] t h = ground arith
cut_after-append sep (c ∷ s) t h = ground (arith, cut_after-append sep s t h.1)

split_from-append :
    (sep : ℕ) (s t cur : Text)
    → Lacks sep s
    → split_from sep cur (s ++ (sep ∷ t)) ≡ (cur ++ s) ∷ split t sep
unfolding split_from split
split_from-append sep [] t cur h = rw append-nil (ground arith)
split_from-append sep (c ∷ s) t cur h =
    ground (arith, split_from-append sep s t (cur ++ c ∷ []) h.1, append_assoc cur (c ∷ []) s)

split_from-Lacks : (sep : ℕ) (s cur : Text) → Lacks sep s → split_from sep cur s ≡ (cur ++ s) ∷ []
unfolding split_from
split_from-Lacks sep [] cur h = rw append-nil
split_from-Lacks sep (c ∷ s) cur h =
    ground (arith, split_from-Lacks sep s (cur ++ c ∷ []) h.1, append_assoc cur (c ∷ []) s)

-- The first part of a text is split off.
pub split-append :
    (sep : ℕ) (s t : Text) → Lacks sep s → split (s ++ (sep ∷ t)) sep ≡ s ∷ split t sep
split-append sep s t h = unfold split in split_from-append sep s t [] h

pub split-Lacks : (sep : ℕ) (s : Text) → Lacks sep s → split s sep ≡ s ∷ []
unfolding split
split-Lacks sep s h = split_from-Lacks sep s [] h

pub trim_suffix-Lacks : (b : ℕ) (s : Text) → Lacks b s → trim_suffix s b ≡ s
unfolding trim_suffix
trim_suffix-Lacks b [] h = refl
trim_suffix-Lacks b (c ∷ []) h = ground arith
trim_suffix-Lacks b (c ∷ d ∷ s) h = ap (◌∷◌ c) (trim_suffix-Lacks b (d ∷ s) h.1)

-- A text without an `x` has no leading `0x`.
pub has_prefix-Lacks : (s : Text) → Lacks b'x' s → has_prefix s (codes "0x") ≡ false
unfolding has_prefix
has_prefix-Lacks [] h = refl
has_prefix-Lacks (a ∷ []) h = ground arith
has_prefix-Lacks (a ∷ b ∷ s) (h, (hb, hs)) = ground arith

pub trim_prefix-Lacks : (s : Text) → Lacks b'x' s → trim_prefix s (codes "0x") ≡ s
unfolding trim_prefix
trim_prefix-Lacks s h = rw (has_prefix-Lacks s h)
