-- ===== src/Text.antt =====
-- Go strings as lists of bytes, and the functions of the package `strings` that the program calls.
-- Case folding and white space are those of ASCII; a byte above 127 is left alone.
pub mod Laws
use Prim.Native.Char.{code}
use Prim.Native.String.{String}
use mathlib.Core.List.{reverse}
use d8x_broker_server.Base.{
  ℕ, ◌+◌, ◌≡◌, refl, ◌↔◌, Bool, true, false, ◌&&◌, ◌||◌, List, [], ◌∷◌, ◌++◌, map, arith, leb, ◌==◌,
  if◌then◌else◌, Eq, nat_beq, nat_eq,
}

abbrev pub Text : Type 0
Text = List ℕ

-- The bytes of a literal, which is ASCII here.
abbrev pub codes : String → Text
codes String.[] = []
codes (String.◌∷◌ c s) = code c ∷ codes s

unfoldable pub text_beq : Text → Text → Bool
text_beq [] [] = true
text_beq (a ∷ s) (b ∷ t) = nat_beq a b && text_beq s t
text_beq _ _ = false

pub text_beq_iff : (s t : Text) → (text_beq s t ≡ true) ↔ (s ≡ t)
unfolding text_beq
text_beq_iff [] [] = ground arith
text_beq_iff [] (b ∷ t) = ground arith
text_beq_iff (a ∷ s) [] = ground arith
text_beq_iff (a ∷ s) (b ∷ t) = ground (arith, text_beq_iff s t)

instance abbrev pub text_eq : Eq Text
text_eq = record { beq = text_beq; beq_iff = text_beq_iff }

-- strings.ToLower
lower_byte : ℕ → ℕ
lower_byte c = if leb b'A' c && leb c b'Z' then c + 32 else c

unfoldable pub to_lower : Text → Text
unfolding lower_byte
to_lower = map lower_byte

-- strings.EqualFold
unfoldable pub equal_fold : Text → Text → Bool
unfolding to_lower text_beq
equal_fold s t = text_beq (to_lower s) (to_lower t)

is_space : ℕ → Bool
is_space c = c == 32 || (leb 9 c && leb c 13)

trim_left : Text → Text
unfolding is_space
trim_left [] = []
trim_left (c ∷ s) = let rest = trim_left s in if is_space c then rest else c ∷ s

-- strings.TrimSpace
unfoldable pub trim_space : Text → Text
unfolding trim_left
trim_space s = reverse (trim_left (reverse (trim_left s)))

unfoldable pub has_prefix : Text → Text → Bool
has_prefix s [] = true
has_prefix [] (b ∷ t) = false
has_prefix (a ∷ s) (b ∷ t) = a == b && has_prefix s t

-- What is left of `s` behind as many bytes as the first text has.
drop_prefix : Text → Text → Text
drop_prefix [] s = s
drop_prefix (b ∷ t) [] = []
drop_prefix (b ∷ t) (a ∷ s) = drop_prefix t s

-- strings.TrimPrefix
unfoldable pub trim_prefix : Text → Text → Text
unfolding has_prefix drop_prefix
trim_prefix s t = if has_prefix s t then drop_prefix t s else s

-- strings.TrimSuffix for a suffix of one byte
unfoldable pub trim_suffix : Text → ℕ → Text
trim_suffix [] b = []
trim_suffix (c ∷ []) b = if c == b then [] else c ∷ []
trim_suffix (c ∷ d ∷ s) b = c ∷ trim_suffix (d ∷ s) b

-- strings.Split at a separator of one byte: `cur` is the part that is being read.
split_from : ℕ → Text → Text → List Text
split_from sep cur [] = cur ∷ []
split_from sep cur (c ∷ s) = elim (c == sep) [
  | true ↦ cur ∷ split_from sep [] s
  | false ↦ split_from sep (cur ++ c ∷ []) s
]

unfoldable pub split : Text → ℕ → List Text
unfolding split_from
split s sep = split_from sep [] s

-- strings.Cut at a separator of one byte: what stands before the first one, and behind it.
unfoldable pub cut_before : ℕ → Text → Text
cut_before sep [] = []
cut_before sep (c ∷ s) = if c == sep then [] else c ∷ cut_before sep s

unfoldable pub cut_after : ℕ → Text → Text
cut_after sep [] = []
cut_after sep (c ∷ s) = if c == sep then s else cut_after sep s
